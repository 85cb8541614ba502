-- ===== src/Firewall/Validate.antt =====
-- daemon/internal/firewall/service.go: `validateState`, and the ports that it gathers by protocol.
pub mod Disjoint
use prism_panel.Common.{
  ℕ, Bool, true, false, ◌&&◌, ◌||◌, not, List, [], ◌∷◌, ◌++◌, ltb, if◌then◌else◌, ◌==◌, nat_eq,
  text_eq,
}
use prism_panel.Common.Text.{Text}
use prism_panel.Common.Platform.{Platform, NetIp}
use prism_panel.Common.Error.{
  Result, ok, err, ◌>>=◌, ◌>>◌, guard, invalid_firewall_system, invalid_firewall_state,
  firewall_lockout_risk, firewall_rule_conflict,
}
use prism_panel.Firewall.Types.{PortRange, Rule, PersistedState, schema}
use prism_panel.Firewall.Ports.{sort_port_ranges, has_overlap}
use prism_panel.Firewall.Rules.{tcp, udp, is_nil, normalize_sources, check_rules}

-- The ports of a rule, once for each time that it names the protocol.
unfoldable pub ports_for : Text → List Text → List PortRange → List PortRange
ports_for protocol [] ports = []
ports_for protocol (p ∷ ps) ports =
    let rest = ports_for protocol ps ports in if p == protocol then ports ++ rest else rest

-- `byProtocol[protocol]`: the ranges of the enabled rules.
unfoldable pub ports_of : Text → List Rule → List PortRange
unfolding ports_for
ports_of protocol [] = []
ports_of protocol (r ∷ rs) =
    let rest = ports_of protocol rs in
    if r.enabled then ports_for protocol r.protocols r.ports ++ rest else rest

-- The keys of `byProtocol` beside "tcp" and "udp".
unfoldable pub protocols_of : List Rule → List Text
protocols_of [] = []
protocols_of (r ∷ rs) =
    let rest = protocols_of rs in if r.enabled then r.protocols ++ rest else rest

unfoldable pub any_overlap : List Text → List Rule → Bool
any_overlap [] rules = false
any_overlap (p ∷ ps) rules =
    has_overlap (sort_port_ranges (ports_of p rules)) || any_overlap ps rules

module _ (os : Platform) (net : NetIp) (port : ℕ) where
  unfoldable pub validate_state : PersistedState → Result (Unit {0})
  validate_state s = do
    guard (s.schema_version == schema) invalid_firewall_state
    guard (not (ltb s.system.grant_ttl_seconds 60 || ltb 3600 s.system.grant_ttl_seconds))
        invalid_firewall_system
    controls ← normalize_sources net s.system.control_sources false
    guard (not (s.system.enabled && is_nil controls)) firewall_lockout_risk
    check_rules os net port [] s.rules
    guard (not (any_overlap (tcp ∷ udp ∷ protocols_of s.rules) s.rules)) firewall_rule_conflict
