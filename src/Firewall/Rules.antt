-- ===== src/Firewall/Rules.antt =====
-- daemon/internal/firewall/service.go: `normalizeProtocols`, `normalizeSources`, `normalizeRule`
-- and `validateState`. `os` holds the case tables, `net` the address parser, and `port` is the port
-- of the daemon.
pub mod Normal
use prism_panel.Common.{
  ℕ, suc, ◌+◌, Bool, true, false, ◌&&◌, ◌||◌, not, List, [], ◌∷◌, ◌++◌, map, Option, none, some,
  ltb, leb, if◌then◌else◌, ◌==◌, nat_eq, text_eq, contains, length, select,
}
use prism_panel.Common.Text.{Text, codes, trim_space}
use prism_panel.Common.Dict.{Dict, lookup, insert}
use prism_panel.Common.Platform.{Platform, NetIp, Prefix}
use prism_panel.Common.Error.{
  Result, ok, err, ◌>>=◌, ◌>>◌, guard, invalid_firewall_rule, invalid_firewall_system,
  invalid_firewall_state, invalid_firewall_source, firewall_lockout_risk, firewall_rule_conflict,
  firewall_protected_port,
}
use prism_panel.Firewall.Types.{PortRange, RuleInput, Rule, SystemAccess, PersistedState, schema}
use prism_panel.Firewall.Ports.{sort_port_ranges, merge_port_ranges, has_overlap, in_range}

abbrev pub tcp : Text
tcp = codes "tcp"

abbrev pub udp : Text
udp = codes "udp"

unfoldable pub normalize_protocols : Platform → List Text → List Text
normalize_protocols os values =
    let given = map (λ v. map os.lower (trim_space v)) values in
    select (contains given) (tcp ∷ udp ∷ [])

-- `sort.Strings`
unfoldable pub text_less : Text → Text → Bool
text_less [] [] = false
text_less [] (b ∷ bs) = true
text_less (a ∷ as') [] = false
text_less (a ∷ as') (b ∷ bs) = let rest = text_less as' bs in if a == b then rest else ltb a b

unfoldable pub insert_text : Text → List Text → List Text
insert_text a [] = a ∷ []
insert_text a (b ∷ bs) =
    let rest = insert_text a bs in if text_less b a then b ∷ rest else a ∷ b ∷ bs

unfoldable pub sort_texts : List Text → List Text
sort_texts [] = []
sort_texts (a ∷ more) = insert_text a (sort_texts more)

-- An address stands for the prefix that holds only it.
unfoldable pub parse_source : NetIp → Text → Option Prefix
parse_source net value = elim (net.parse_addr value) [
  | none ↦ net.parse_prefix value
  | some a ↦ some (net.host_prefix (net.unmap a))
]

unfoldable pub check_source : Bool → Option Prefix → Result Text
check_source reject_global none = err invalid_firewall_source
check_source reject_global (some p) =
    if p.addr.loopback || p.addr.unspecified
    then err invalid_firewall_source
    else (if reject_global && (p.bits == 0) then err invalid_firewall_source else ok p.text)

-- The loop of `normalizeSources`, with the set as a list without repetitions.
unfoldable pub collect_sources : NetIp → Bool → List Text → List Text → Result (List Text)
collect_sources net reject_global found [] = ok found
collect_sources net reject_global found (raw ∷ more) =
    let blank = collect_sources net reject_global found more in
    let fresh = (do
      text ← check_source reject_global (parse_source net (trim_space raw))
      collect_sources net reject_global (if contains found text then found else text ∷ found)
          more) in
    if trim_space raw == [] then blank else fresh

unfoldable pub normalize_sources : NetIp → List Text → Bool → Result (List Text)
normalize_sources net values reject_global = do
  found ← collect_sources net reject_global [] values
  ok (sort_texts found)

-- The loop of `normalizeRule` over the ports.
unfoldable pub check_ports : ℕ → List PortRange → Result (Unit {0})
check_ports port [] = ok tt
check_ports port (r ∷ rs) =
    if ltb r.from 1 || ltb 65535 r.from || ltb r.to r.from || ltb 65535 r.to
    then err invalid_firewall_rule
    else (if in_range port r then err firewall_protected_port else check_ports port rs)

abbrev pub is_nil {ℓ} : {A : Type ℓ} → List A → Bool
is_nil [] = true
is_nil (x ∷ xs) = false

abbrev pub max_note : ℕ
max_note = 300

module _ (os : Platform) (net : NetIp) (port : ℕ) where
  -- The result carries no times: the caller sets them.
  unfoldable pub normalize_rule : Text → RuleInput → Result Rule
  normalize_rule id input = do
    guard (not (trim_space id == [])) invalid_firewall_rule
    let protocols = normalize_protocols os input.protocols
    guard (not (is_nil protocols)) invalid_firewall_rule
    guard (not (is_nil input.ports)) invalid_firewall_rule
    check_ports port input.ports
    sources ← normalize_sources net input.sources true
    guard (not (is_nil sources)) invalid_firewall_rule
    let note = trim_space input.note
    guard (leb (length note) max_note) invalid_firewall_rule
    ok (record {
      id = id;
      enabled = input.enabled;
      protocols = protocols;
      ports = merge_port_ranges (sort_port_ranges input.ports);
      sources = sources;
      note = note;
      created_at = 0;
      updated_at = 0;
    })

  abbrev pub input_of : Rule → RuleInput
  input_of r = record {
    enabled = r.enabled;
    protocols = r.protocols;
    ports = r.ports;
    sources = r.sources;
    note = r.note;
  }

  -- The loop of `validateState` over the rules, with the ids that were seen.
  unfoldable pub check_rules : List Text → List Rule → Result (Unit {0})
  check_rules seen [] = ok tt
  check_rules seen (r ∷ rs) =
      let rest = check_rules (r.id ∷ seen) rs in
      do
        guard (not (r.id == [])) invalid_firewall_rule
        guard (not (contains seen r.id)) invalid_firewall_rule
        _ ← normalize_rule r.id (input_of r)
        rest
