-- ===== src/Firewall/Tests.antt =====
-- Runs of the firewall at concrete inputs.
use prism_panel.Common.{
  ℕ, ◌≤◌, ◌≡◌, refl, ◌⊎◌, true, false, List, [], ◌∷◌, none, some, text_eq, nat_eq, ◌==◌, arith,
}
use prism_panel.Common.Text.{Text, codes, trim_space, trim_left, is_space}
use prism_panel.Common.Platform.{Platform, NetIp, Addr, Prefix}
use prism_panel.Firewall.Types.{
  PortRange, RuleInput, Rule, SystemAccessInput, PersistedState, Service,
}
use prism_panel.Firewall.Ports.{
  range_less, insert_range, sort_port_ranges, merge_from, merge_port_ranges, has_overlap, covers,
  hits,
}
use prism_panel.Firewall.Ports.Merge.{Gapped, merge_port_ranges-Gapped}
use prism_panel.Firewall.Rules.{
  tcp, normalize_protocols, text_less, insert_text, sort_texts, parse_source, check_source,
  collect_sources, normalize_sources, check_ports, normalize_rule, check_rules,
}
use prism_panel.Firewall.Validate.{ports_for, ports_of, protocols_of, any_overlap, validate_state}
use prism_panel.Firewall.Validate.Disjoint.{validate_state-disjoint}
use prism_panel.Firewall.Render.{protected_ranges}
use prism_panel.Firewall.Render.Protected.{covers-protected_ranges, protected_ranges_lost}
use prism_panel.Firewall.Service.{Answers, present, apply_candidate}
use prism_panel.Firewall.Service.Apply.{
  Same, NotInForce, NotRecorded, Applied, apply_candidate_outcome,
}

abbrev os : Platform
os = record { canonical_ip = some; upper = λ c. c; lower = λ c. c }

abbrev address : Text → Addr
address t = record { text = t; is4 = true; loopback = false; unspecified = false }

abbrev host : Text → Prefix
host t = record { addr = address t; bits = 32; text = t }

-- Each text is the address of a host.
abbrev net : NetIp
net = record {
  parse_addr = λ t. some (address t);
  unmap = λ a. a;
  host_prefix = λ a. host a.text;
  parse_prefix = λ t. some (host t);
  holds = λ p a. p.addr.text == a.text;
  addr_less = λ a b. false;
}

abbrev digest : Text → Text
digest t = t

abbrev range : ℕ → ℕ → PortRange
range from to = record { from = from; to = to }

abbrev rule : Text → PortRange → Rule
rule id ports = record {
  id = id;
  enabled = true;
  protocols = tcp ∷ [];
  ports = ports ∷ [];
  sources = codes "10.0.0.1" ∷ [];
  note = [];
  created_at = 1;
  updated_at = 1;
}

abbrev high_rule : Rule
high_rule = rule (codes "high") (range 30_000 30_010)

abbrev low_rule : Rule
low_rule = rule (codes "low") (range 25_565 25_570)

abbrev state_of : List Rule → PersistedState
state_of rules = record {
  schema_version = 1;
  revision = 4;
  rules = rules;
  system = record { enabled = false; control_sources = []; grant_ttl_seconds = 600 };
  applied_hash = codes "table";
  applied_at = some 3;
}

abbrev service : Service
service = record {
  port = 23_333;
  state = state_of (high_rule ∷ []);
  grants = [];
  supported = true;
  observed_hash = codes "table";
  table_present = true;
  drift = false;
  last_error = [];
}

abbrev answers : Answers
answers = record {
  supported = true;
  first_look = present (codes "table");
  apply = λ script. none;
  second_look = present (codes "newer");
  save = λ p. none;
  add_grant = λ a ttl. none;
  remove_grant = λ a. none;
  id = some (codes "low");
  rule_time = 5;
  render_time = 5;
  applied_time = 6;
  now = 5;
}

abbrev wanted : RuleInput
wanted = record {
  enabled = true;
  protocols = tcp ∷ [];
  ports = range 25_568 25_570 ∷ range 25_565 25_567 ∷ [];
  sources = codes "10.0.0.1" ∷ [];
  note = [];
}

apply_candidate_outcome_example :
    let r = apply_candidate os net digest answers (state_of (high_rule ∷ low_rule ∷ [])) service in
    (Same service r.0
      × (NotInForce os net digest answers (state_of (high_rule ∷ low_rule ∷ [])) service r
          ⊎ NotRecorded os net digest answers (state_of (high_rule ∷ low_rule ∷ [])) service r))
    ⊎ Applied os net digest answers (state_of (high_rule ∷ low_rule ∷ [])) service r
apply_candidate_outcome_example =
    apply_candidate_outcome os net digest answers (state_of (high_rule ∷ low_rule ∷ [])) service

abbrev access : SystemAccessInput
access = record {
  enabled = true;
  control_sources = [];
  grant_ttl_seconds = 0;
  include_caller_source = true;
}

-- The rule that the wanted one becomes.
abbrev made : Rule
made = record {
  id = codes "low";
  enabled = true;
  protocols = tcp ∷ [];
  ports = range 25_565 25_570 ∷ [];
  sources = codes "10.0.0.1" ∷ [];
  note = [];
  created_at = 0;
  updated_at = 0;
}

validate_state-disjoint_example : hits (ports_of tcp (high_rule ∷ low_rule ∷ [])) 25_566 ≤ 1
unfolding validate_state check_rules any_overlap protocols_of ports_of ports_for has_overlap
    normalize_rule normalize_protocols sort_texts insert_text text_less parse_source check_source
    collect_sources normalize_sources check_ports sort_port_ranges insert_range range_less
    merge_port_ranges merge_from trim_space trim_left is_space nat_eq text_eq
validate_state-disjoint_example =
    validate_state-disjoint os net 23_333 (state_of (high_rule ∷ low_rule ∷ [])) tcp 25_566 refl

covers-protected_ranges_example :
    covers (protected_ranges tcp (low_rule ∷ high_rule ∷ [])) 25_566
    ≡ covers (ports_of tcp (low_rule ∷ high_rule ∷ [])) 25_566
unfolding ports_of ports_for nat_eq text_eq
covers-protected_ranges_example =
    covers-protected_ranges tcp (low_rule ∷ high_rule ∷ []) 25_566 (omega arith, (tt, tt))

protected_ranges_lost_example :
    (covers (ports_of tcp (high_rule ∷ low_rule ∷ [])) 25_566 ≡ true)
    × (covers (protected_ranges tcp (high_rule ∷ low_rule ∷ [])) 25_566 ≡ false)
unfolding nat_eq text_eq
protected_ranges_lost_example =
    protected_ranges_lost tcp high_rule low_rule (range 30_000 30_010) (range 25_565 25_570) 25_566
      (refl, refl, refl) (refl, refl, refl) (omega arith) (omega arith) refl

abbrev ranges : List PortRange
ranges = range 1 4 ∷ range 3 6 ∷ range 7 9 ∷ []

merge_port_ranges-Gapped_example : Gapped (merge_port_ranges ranges)
merge_port_ranges-Gapped_example = merge_port_ranges-Gapped ranges
