-- ===== src/Server/Tests.antt =====
-- A valid configuration of a mirror server.
use prism_panel.Common.{◌≡◌, refl, true, nat_eq, text_eq, [], ◌∷◌, ◌++◌}
use prism_panel.Common.Int.{ℤ}
use prism_panel.Common.Text.{codes, has_prefix, trim_space, trim_left, is_space, utf8_length}
use prism_panel.Common.Error.{ok}
use prism_panel.Server.{
  Paths, ServerConfig, mirror, validate, validate_common, validate_mirror, path_ok, exclude_ok,
  ports_ok, port_ok, start_command_ok, stop_command_ok, every, is_proxy_platform,
}
use prism_panel.Server.Instances.{IsLawful, validate-IsLawful}

-- Paths with slashes, as far as the test needs them.
abbrev slashes : Paths
slashes = record {
  is_abs = λ path. has_prefix path (codes "/");
  clean = λ path. path;
  join = λ a b. a ++ codes "/" ++ b;
  lower = λ c. c;
  separator = codes "/";
}

abbrev two_mirrors : ServerConfig
two_mirrors = record {
  schema_version = 2;
  kind = mirror;
  platform = codes "paper";
  server_id = codes "lobby";
  name = codes "Lobby";
  workspace = [];
  port = 0;
  root_path = codes "/srv/lobby";
  image_directory = codes "image";
  instance_count = 2;
  ports = 25_565 ∷ 25_566 ∷ 25_567 ∷ [];
  exclude = record { path = codes "logs"; kind = codes "directory" } ∷ [];
  process = record {
    start_command = codes "java";
    stop_command = codes "stop";
    stop_timeout_seconds = ℤ.pos 60;
    auto_start = true;
    auto_restart = true;
  };
  encoding = codes "utf-8";
}

two_mirrors_valid : validate slashes two_mirrors ≡ ok tt
unfolding validate validate_common validate_mirror path_ok exclude_ok ports_ok port_ok
    start_command_ok stop_command_ok every is_proxy_platform text_eq nat_eq trim_space trim_left
    is_space utf8_length has_prefix
two_mirrors_valid = refl

validate-IsLawful_example : IsLawful slashes two_mirrors
validate-IsLawful_example = validate-IsLawful slashes two_mirrors two_mirrors_valid
