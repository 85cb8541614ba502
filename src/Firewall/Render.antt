-- ===== src/Firewall/Render.antt =====
-- daemon/internal/firewall/renderer.go: `renderScript`. A line of the script is its kind with the
-- values that are printed in it; the fixed words around them are left out.
pub mod Protected
use mathlib.Core.List.{flat_map}
use prism_panel.Common.{
  ℕ, suc, ◌+◌, ◌-◌, ◌/◌, Bool, true, false, ◌&&◌, ◌||◌, not, List, [], ◌∷◌, ◌++◌, map, Option, none,
  some, ltb, leb, if◌then◌else◌, ◌==◌, nat_eq, text_eq, select,
}
use prism_panel.Common.Text.{Text}
use prism_panel.Common.Dict.{Dict, lookup, insert}
use prism_panel.Common.Platform.{NetIp, Prefix, Addr}
use prism_panel.Common.Error.{Result, ok, err, ◌>>=◌, invalid_firewall_rule}
use prism_panel.Firewall.Types.{PortRange, Rule, Grant, PersistedState, SystemAccess}
use prism_panel.Firewall.Ports.{merge_port_ranges}
use prism_panel.Firewall.Rules.{tcp, udp, is_nil}
use prism_panel.Firewall.Validate.{ports_of}

pub data Family : Type 0 where
  ipv4 ipv6 : Family

pub data Line : Type 0 where
  delete_table open_table close_table open_chain close_chain accept_loopback : Line
  accept_established : Line
  control_set : Family → List Text → Line
  grant_set : Family → List (Text × ℕ) → Line
  accept_controls accept_grants : Family → ℕ → Line
  drop_port : ℕ → Line
  accept_sources : Family → List Text → Text → List PortRange → Line
  drop_ranges : Text → List PortRange → Line

-- `stateActive`, and `activeStateLocked` of service.go
unfoldable pub any_enabled : List Rule → Bool
any_enabled [] = false
any_enabled (r ∷ rs) = r.enabled || any_enabled rs

unfoldable pub state_active : PersistedState → Bool
state_active s = s.system.enabled || any_enabled s.rules

-- A span of nanoseconds in whole seconds, rounded up, at least one: `formatDuration`.
unfoldable pub whole_seconds : ℕ → ℕ
whole_seconds ns =
    let seconds = (ns + 999_999_999) / 1_000_000_000 in if ltb seconds 1 then 1 else seconds

-- The ranges of the line that drops what no rule has accepted.
unfoldable pub protected_ranges : Text → List Rule → List PortRange
protected_ranges protocol rules = merge_port_ranges (ports_of protocol rules)

unfoldable pub drop_lines : Text → List Rule → List Line
drop_lines protocol rules =
    if is_nil (ports_of protocol rules)
    then []
    else drop_ranges protocol (protected_ranges protocol rules) ∷ []

-- `if duration > remaining[address] { remaining[address] = duration }`
unfoldable pub prolong : Addr → ℕ → List (Addr × ℕ) → List (Addr × ℕ)
prolong a n [] = if ltb 0 n then (a, n) ∷ [] else []
prolong a n ((b, m) ∷ more) =
    let rest = prolong a n more in
    if a.text == b.text then (b, if ltb m n then n else m) ∷ more else (b, m) ∷ rest

-- The lines of one protocol of a rule.
unfoldable pub accept_lines : List Text → List Text → List PortRange → Text → List Line
accept_lines sources4 sources6 ports protocol =
    (if is_nil sources4 then [] else accept_sources ipv4 sources4 protocol ports ∷ [])
    ++ (if is_nil sources6 then [] else accept_sources ipv6 sources6 protocol ports ∷ [])

-- The lines of the system access, if that is enabled: the sets, and the rules of the chain.
abbrev pub sets : Bool → List Text × List Text → List (Text × ℕ) × List (Text × ℕ) → List Line
sets false controls grants = []
sets true controls grants =
    control_set ipv4 controls.0
    ∷ control_set ipv6 controls.1
    ∷ grant_set ipv4 grants.0
    ∷ grant_set ipv6 grants.1
    ∷ []

abbrev pub opening : Bool → ℕ → List Line
opening false port = []
opening true port =
    accept_established
    ∷ accept_controls ipv4 port
    ∷ accept_controls ipv6 port
    ∷ accept_grants ipv4 port
    ∷ accept_grants ipv6 port
    ∷ drop_port port
    ∷ []

module _ (net : NetIp) where
  abbrev pub prefix_less : Prefix → Prefix → Bool
  prefix_less a b = if a.bits == b.bits then net.addr_less a.addr b.addr else ltb a.bits b.bits

  unfoldable pub insert_prefix : Prefix → List Prefix → List Prefix
  insert_prefix a [] = a ∷ []
  insert_prefix a (b ∷ bs) =
      let rest = insert_prefix a bs in if prefix_less b a then b ∷ rest else a ∷ b ∷ bs

  unfoldable pub sort_prefixes : List Prefix → List Prefix
  sort_prefixes [] = []
  sort_prefixes (a ∷ more) = insert_prefix a (sort_prefixes more)

  unfoldable pub held : List Prefix → Prefix → Bool
  held [] p = false
  held (q ∷ qs) p = net.holds q p.addr || held qs p

  -- A prefix that lies in one kept before is left out.
  unfoldable pub compact_from : List Prefix → List Prefix → List Prefix
  compact_from kept [] = kept
  compact_from kept (p ∷ ps) = compact_from (if held kept p then kept else kept ++ p ∷ []) ps

  unfoldable pub compact_prefixes : List Prefix → List Text
  compact_prefixes ps = map (λ p. p.text) (compact_from [] (sort_prefixes ps))

  unfoldable pub parse_all : List Text → Result (List Prefix)
  parse_all [] = ok []
  parse_all (v ∷ vs) = elim (net.parse_prefix v) [
    | none ↦ err invalid_firewall_rule
    | some p ↦ do ps ← parse_all vs; ok (p ∷ ps)
  ]

  unfoldable pub split_prefixes : List Text → Result (List Text × List Text)
  split_prefixes values = do
    ps ← parse_all values
    ok (
      compact_prefixes (select (λ p. p.addr.is4) ps),
      compact_prefixes (select (λ p. not p.addr.is4) ps),
    )

  -- The longest time that is left to an address, over the grants that have not run out.
  unfoldable pub remaining_from : ℕ → List (Addr × ℕ) → Dict Text Grant → Result (List (Addr × ℕ))
  remaining_from now found [] = ok found
  remaining_from now found ((key, g) ∷ more) =
      let expired = remaining_from now found more in
      let counted = elim (net.parse_addr g.source) as (λ _. Result (List (Addr × ℕ))) [
        | none ↦ err invalid_firewall_rule
        | some a ↦ remaining_from now (prolong (net.unmap a) (g.expires_at - now) found) more
      ] in
      if leb g.expires_at now then expired else counted

  unfoldable pub insert_addr : Addr × ℕ → List (Addr × ℕ) → List (Addr × ℕ)
  insert_addr (a, n) [] = (a, n) ∷ []
  insert_addr (a, n) ((b, m) ∷ bs) =
      let rest = insert_addr (a, n) bs in
      if net.addr_less b a then (b, m) ∷ rest else (a, n) ∷ (b, m) ∷ bs

  unfoldable pub sort_addrs : List (Addr × ℕ) → List (Addr × ℕ)
  sort_addrs [] = []
  sort_addrs (a ∷ more) = insert_addr a (sort_addrs more)

  abbrev pub elements : (Addr → Bool) → List (Addr × ℕ) → List (Text × ℕ)
  elements test found =
      map (λ (a, n). (a.text, whole_seconds n)) (select (λ (a, n). test a) (sort_addrs found))

  unfoldable pub active_grant_elements :
      Dict Text Grant → ℕ → Result (List (Text × ℕ) × List (Text × ℕ))
  active_grant_elements grants now = do
    found ← remaining_from now [] grants
    ok (elements (λ a. a.is4) found, elements (λ a. not a.is4) found)

  unfoldable pub rule_lines : List Rule → Result (List Line)
  rule_lines [] = ok []
  rule_lines (r ∷ rs) =
      let skipped = rule_lines rs in
      let entered = (do
        (sources4, sources6) ← split_prefixes r.sources
        more ← rule_lines rs
        ok (flat_map (accept_lines sources4 sources6 r.ports) r.protocols ++ more)) in
      if r.enabled then entered else skipped

  unfoldable pub render_script :
      PersistedState → Dict Text Grant → ℕ → ℕ → Bool → Result (List Line)
  render_script s grants port now table_present =
      let cleared = if table_present then delete_table ∷ [] else [] in
      let active = (do
        controls ← split_prefixes s.system.control_sources
        elements ← active_grant_elements grants now
        rules ← rule_lines s.rules
        ok (
            cleared
            ++ (open_table
                ∷ (sets s.system.enabled controls elements
                    ++ (open_chain
                        ∷ accept_loopback
                        ∷ (opening s.system.enabled port
                            ++ (rules
                                ++ (drop_lines tcp s.rules
                                    ++ (drop_lines udp s.rules
                                        ++ (close_chain ∷ close_table ∷ [])))))))))) in
      if state_active s then active else ok cleared
