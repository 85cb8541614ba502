-- ===== src/Server.antt =====
-- daemon/internal/model/server.go: the configuration of a server and of its instances. Ports, counts
-- and slots are natural numbers: the code refuses a negative one like 0. All errors of `Validate`
-- are one here, as `ValidateServer` wraps them in one. Lengths are in bytes.
pub mod Instances
mod Tests
use prism_panel.Common.{
  ℕ, zero, suc, ◌+◌, Bool, true, false, ◌&&◌, ◌||◌, not, List, [], ◌∷◌, ◌++◌, map, Option, none,
  some, ltb, leb, if◌then◌else◌, ◌==◌, nat_eq, text_eq, contains, length, take,
}
use prism_panel.Common.Int.{ℤ, is_positive}
use prism_panel.Common.Text.{Text, codes, trim_space, has_prefix, utf8_length}
use prism_panel.Common.Decimal.{show}
use prism_panel.Common.Error.{Result, ok, err, ◌>>=◌, ◌>>◌, guard, invalid_config}

-- `path/filepath` and `strings.ToLower`, which depend on the system and on tables.
pub record Paths : Type 0 where
  pub is_abs : Text → Bool
  pub clean : Text → Text
  pub join : Text → Text → Text
  pub lower : ℕ → ℕ
  -- `string(filepath.Separator)`
  pub separator : Text

pub record Process : Type 0 where
  pub start_command : Text
  pub stop_command : Text
  pub stop_timeout_seconds : ℤ
  pub auto_start : Bool
  pub auto_restart : Bool

pub record ExcludeEntry : Type 0 where
  pub path : Text
  pub kind : Text

pub record ServerConfig : Type 0 where
  pub schema_version : ℕ
  pub kind : Text
  pub platform : Text
  pub server_id : Text
  pub name : Text
  pub workspace : Text
  pub port : ℕ
  pub root_path : Text
  pub image_directory : Text
  pub instance_count : ℕ
  pub ports : List ℕ
  pub exclude : List ExcludeEntry
  pub process : Process
  pub encoding : Text

pub record InstanceConfig : Type 0 where
  pub instance_id : Text
  pub server_id : Text
  pub slot : ℕ
  pub server_type : Text
  pub platform : Text
  pub name : Text
  pub workspace : Text
  pub port : ℕ
  pub process : Process
  pub encoding : Text

abbrev pub schema_version : ℕ
schema_version = 2

abbrev pub standalone : Text
standalone = codes "standalone"

abbrev pub mirror : Text
mirror = codes "mirror"

-- `^[a-z0-9_-]+$`
abbrev pub is_id_char : ℕ → Bool
is_id_char c = (leb 97 c && leb c 122) || (leb 48 c && leb c 57) || (c == 95) || (c == 45)

unfoldable pub every : (ℕ → Bool) → Text → Bool
every p [] = true
every p (c ∷ cs) = p c && every p cs

abbrev pub server_id_ok : Text → Bool
server_id_ok id = not (id == []) && every is_id_char id

abbrev pub is_supported_platform : Text → Bool
is_supported_platform p =
    (p == codes "paper")
    || (p == codes "spigot")
    || (p == codes "velocity")
    || (p == codes "bungee")

unfoldable pub is_proxy_platform : Text → Bool
is_proxy_platform p = (p == codes "velocity") || (p == codes "bungee")

abbrev pub plugin_type_for_platform : Text → Text
plugin_type_for_platform p = if is_proxy_platform p then p else codes "spigot"

unfoldable pub port_ok : ℕ → Bool
port_ok port = not (ltb port 1 || ltb 65_535 port)

unfoldable pub ports_ok : List ℕ → Bool
ports_ok [] = true
ports_ok (p ∷ ps) = port_ok p && ports_ok ps

abbrev pub or_text : Text → Text → Text
or_text value default = if value == [] then default else value

abbrev pub is_zero : ℤ → Bool
is_zero (ℤ.pos n) = n == 0
is_zero (ℤ.negsuc n) = false

-- No NUL, and no line end where lines end commands.
unfoldable pub stop_command_ok : Text → Bool
stop_command_ok command =
    not (trim_space command == [])
    && leb (utf8_length command) 8192
    && not (contains command 0 || contains command 13 || contains command 10)

unfoldable pub start_command_ok : Text → Bool
start_command_ok command =
    not (trim_space command == []) && leb (utf8_length command) 32_768 && not (contains command 0)

unfoldable pub instance_id_of : Text → ℕ → Text
instance_id_of server_id slot = server_id ++ codes "_" ++ show slot

module _ (fs : Paths) where
  unfoldable pub normalize_encoding : Text → Text
  normalize_encoding value =
      let low = map fs.lower (trim_space value) in
      if (low == []) || (low == codes "utf8") || (low == codes "utf-8") then codes "utf-8" else low

  unfoldable pub normalize : ServerConfig → ServerConfig
  normalize s = record s {
    platform = or_text s.platform (codes "paper");
    process = record s.process {
      stop_command = or_text s.process.stop_command (codes "stop");
      stop_timeout_seconds =
          if is_zero s.process.stop_timeout_seconds
          then ℤ.pos 60
          else s.process.stop_timeout_seconds;
    };
    encoding = normalize_encoding s.encoding;
  }

  -- `validateRelativePath`.
  unfoldable pub path_ok : Text → Bool
  path_ok path =
      let clean = fs.clean path in
      not ((path == []) || fs.is_abs path)
      && not (
          (clean == codes ".")
          || (clean == codes "..")
          || has_prefix clean (codes ".." ++ fs.separator))

  unfoldable pub exclude_ok : List ExcludeEntry → Bool
  exclude_ok [] = true
  exclude_ok (e ∷ es) =
      ((e.kind == codes "file") || (e.kind == codes "directory")) && path_ok e.path && exclude_ok es

  -- The checks that both types share.
  unfoldable pub validate_common : ServerConfig → Result (Unit {0})
  validate_common s = do
    guard (s.schema_version == schema_version) invalid_config
    guard (server_id_ok s.server_id) invalid_config
    guard (not (s.name == [])) invalid_config
    guard ((s.kind == standalone) || (s.kind == mirror)) invalid_config
    guard (is_supported_platform s.platform) invalid_config
    guard (not ((s.kind == mirror) && is_proxy_platform s.platform)) invalid_config
    guard (start_command_ok s.process.start_command) invalid_config
    guard (stop_command_ok s.process.stop_command) invalid_config
    guard (is_positive s.process.stop_timeout_seconds) invalid_config
    guard ((s.encoding == codes "utf-8") || (s.encoding == codes "gbk")) invalid_config

  unfoldable pub validate_mirror : ServerConfig → Result (Unit {0})
  validate_mirror s = do
    guard (fs.is_abs s.root_path) invalid_config
    guard (path_ok s.image_directory) invalid_config
    guard (ltb 0 s.instance_count) invalid_config
    guard (leb s.instance_count (length s.ports)) invalid_config
    guard (ports_ok (take s.instance_count s.ports)) invalid_config
    guard (exclude_ok s.exclude) invalid_config

  unfoldable pub validate : ServerConfig → Result (Unit {0})
  validate s = do
    validate_common s
    (if s.kind == standalone
        then (do
          guard (fs.is_abs s.workspace) invalid_config
          guard (port_ok s.port) invalid_config)
        else validate_mirror s)

  abbrev pub mirror_instance : ServerConfig → ℕ → ℕ → InstanceConfig
  mirror_instance s slot port =
      let id = instance_id_of s.server_id slot in
      record {
        instance_id = id;
        server_id = s.server_id;
        slot = slot;
        server_type = s.kind;
        platform = s.platform;
        name = s.name ++ codes " #" ++ show slot;
        workspace = fs.join s.root_path id;
        port = port;
        process = s.process;
        encoding = s.encoding;
      }

  -- The slots from one on, over the ports that are left.
  unfoldable pub mirror_instances : ServerConfig → ℕ → List ℕ → List InstanceConfig
  mirror_instances s slot [] = []
  mirror_instances s slot (p ∷ ps) = mirror_instance s slot p ∷ mirror_instances s (suc slot) ps

  -- Where there are fewer ports than instances the code panics, and here the instances without a port
  -- are left out; `Validate` refuses such a configuration.
  unfoldable pub instances : ServerConfig → List InstanceConfig
  instances s =
      if s.kind == standalone
      then record {
        instance_id = s.server_id;
        server_id = s.server_id;
        slot = 0;
        server_type = s.kind;
        platform = s.platform;
        name = s.name;
        workspace = fs.clean s.workspace;
        port = s.port;
        process = s.process;
        encoding = s.encoding;
      }
        ∷ []
      else mirror_instances s 1 (take s.instance_count s.ports)
