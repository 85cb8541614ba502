-- ===== src/Firewall/Validate/Disjoint.antt =====
-- In a valid state no two enabled rules claim one port for a protocol.
use prism_panel.Common.{
  ℕ, ◌≤◌, ◌≡◌, refl, inl, inr, true, false, ◌||◌, List, [], ◌∷◌, ◌++◌, arith, Bool-cases, contains,
  text_eq,
}
use prism_panel.Common.Text.{Text}
use prism_panel.Common.Platform.{Platform, NetIp}
use prism_panel.Common.Error.{ok, Result-cases}
use prism_panel.Firewall.Types.{PortRange, Rule, PersistedState}
use prism_panel.Firewall.Ports.{sort_port_ranges, has_overlap, hits}
use prism_panel.Firewall.Ports.Overlap.{hits-le-one}
use prism_panel.Firewall.Rules.{tcp, udp, is_nil, normalize_sources, check_rules}
use prism_panel.Firewall.Validate.{ports_for, ports_of, protocols_of, any_overlap, validate_state}

any_overlap-of :
    (ps : List Text) (rules : List Rule) (p : Text)
    → any_overlap ps rules ≡ false
    → contains ps p ≡ true
    → has_overlap (sort_port_ranges (ports_of p rules)) ≡ false
unfolding any_overlap
any_overlap-of [] rules p h c = cc
any_overlap-of (q ∷ ps) rules p h c = ground (arith, any_overlap-of ps rules p)

ports_for-absent :
    (p : Text) (ps : List Text) (ports : List PortRange)
    → contains ps p ≡ false
    → ports_for p ps ports ≡ []
unfolding ports_for
ports_for-absent p [] ports h = refl
ports_for-absent p (q ∷ ps) ports h = ground (arith, ports_for-absent p ps ports)

contains-append :
    (a b : List Text) (p : Text) → contains (a ++ b) p ≡ (contains a p || contains b p)
contains-append [] b p = refl
contains-append (x ∷ a) b p = ground (arith, contains-append a b p)

-- A protocol that no enabled rule names has no ports.
ports_of-absent :
    (p : Text) (rules : List Rule) → contains (protocols_of rules) p ≡ false → ports_of p rules ≡ []
unfolding ports_of protocols_of
ports_of-absent p [] h = refl
ports_of-absent p (r ∷ rs) h = ground (
  arith,
  ports_of-absent p rs,
  ports_for-absent p r.protocols r.ports,
  contains-append r.protocols (protocols_of rs) p,
)

module _ (os : Platform) (net : NetIp) (port : ℕ) where
  pub validate_state_inv :
      (s : PersistedState)
      → validate_state os net port s ≡ ok tt
      → (60 ≤ s.system.grant_ttl_seconds)
        × (s.system.grant_ttl_seconds ≤ 3600)
        × (check_rules os net port [] s.rules ≡ ok tt)
        × (any_overlap (tcp ∷ udp ∷ protocols_of s.rules) s.rules ≡ false)
        × ((controls : List Text) × (normalize_sources net s.system.control_sources false
              ≡ ok controls)
            × ((s.system.enabled ≡ true) → is_nil controls ≡ false))
  unfolding validate_state
  validate_state_inv s h =
      elim (Result-cases (normalize_sources net s.system.control_sources false)) [
        | inr (e, n) ↦ absurd (ground arith)
        | inl (controls, n) ↦
            (ground arith, ground arith, ground arith, ground arith, (controls, n, ground arith))
      ]

  -- In a valid state a port lies in one range at most of those that the enabled rules claim for a
  -- protocol.
  pub validate_state-disjoint :
      (s : PersistedState) (protocol : Text) (p : ℕ)
      → validate_state os net port s ≡ ok tt
      → hits (ports_of protocol s.rules) p ≤ 1
  unfolding hits
  validate_state-disjoint s protocol p h =
      let apart = (validate_state_inv s h).3 in
      elim (Bool-cases (contains (tcp ∷ udp ∷ protocols_of s.rules) protocol)) [
        | inl known ↦
            hits-le-one (ports_of protocol s.rules) p
              (any_overlap-of (tcp ∷ udp ∷ protocols_of s.rules) s.rules protocol apart known)
        | inr unknown ↦ rw (ports_of-absent protocol s.rules (ground arith), hits) (omega arith)
      ]
