-- ===== src/Firewall/Rules/Normal.antt =====
-- What `normalizeRule` makes of a rule.
use prism_panel.Common.{
  ℕ, ◌≤◌, ◌≡◌, refl, ◌∙◌, true, false, List, [], ◌∷◌, arith, All, text_eq, length,
}
use prism_panel.Common.Text.{Text}
use prism_panel.Common.Platform.{Platform, NetIp}
use prism_panel.Common.Error.{ok}
use prism_panel.Firewall.Types.{PortRange, RuleInput, Rule}
use prism_panel.Firewall.Ports.{sort_port_ranges, merge_port_ranges, covers}
use prism_panel.Firewall.Ports.Merge.{
  Gapped, covers-sort_port_ranges, covers-merge_port_ranges, merge_port_ranges-Gapped,
  sort_port_ranges-Sorted,
}
use prism_panel.Firewall.Rules.{
  is_nil, check_ports, normalize_protocols, normalize_sources, normalize_rule,
}

-- A range of ports that may be asked for.
abbrev pub IsPortRange : PortRange → Type 0
IsPortRange r = (1 ≤ r.from) × (r.from ≤ r.to) × (r.to ≤ 65535)

pub check_ports-ok :
    (port : ℕ) (rs : List PortRange)
    → check_ports port rs ≡ ok tt
    → All IsPortRange rs × (covers rs port ≡ false)
unfolding check_ports covers
check_ports-ok port [] h = (tt, refl)
check_ports-ok port (r ∷ rs) h = ground (arith, check_ports-ok port rs)

covers_bounds :
    (rs : List PortRange) (p : ℕ) → All IsPortRange rs → covers rs p ≡ true → (1 ≤ p) × (p ≤ 65535)
unfolding covers
covers_bounds [] p h c = cc
covers_bounds (r ∷ rs) p h c = ground (arith, covers_bounds rs p h.1)

pub record IsNormalized (os : Platform) (net : NetIp) (port : ℕ) (id : Text) (input : RuleInput)
    (r : Rule) : Type 0 where
  pub same_id : r.id ≡ id
  pub same_enabled : r.enabled ≡ input.enabled
  pub same_ports : (p : ℕ) → covers r.ports p ≡ covers input.ports p
  pub gapped : Gapped r.ports
  pub in_bounds : (p : ℕ) → covers r.ports p ≡ true → (1 ≤ p) × (p ≤ 65535)
  pub unprotected : covers r.ports port ≡ false
  pub protocols_are : r.protocols ≡ normalize_protocols os input.protocols
  pub some_protocol : is_nil r.protocols ≡ false
  pub sources_are : normalize_sources net input.sources true ≡ ok r.sources
  pub some_source : is_nil r.sources ≡ false
  pub short_note : length r.note ≤ 300

merged_covers :
    (rs : List PortRange) (p : ℕ) → covers (merge_port_ranges (sort_port_ranges rs)) p ≡ covers rs p
merged_covers rs p =
    covers-merge_port_ranges (sort_port_ranges rs) p (sort_port_ranges-Sorted rs)
    ∙ covers-sort_port_ranges rs p

module _ (os : Platform) (net : NetIp) (port : ℕ) where
  normalize_rule_inv :
      (id : Text) (input : RuleInput) (r : Rule)
      → normalize_rule os net port id input ≡ ok r
      → (check_ports port input.ports ≡ ok tt)
        × (r.ports ≡ merge_port_ranges (sort_port_ranges input.ports))
        × (r.id ≡ id)
        × (r.enabled ≡ input.enabled)
        × (r.protocols ≡ normalize_protocols os input.protocols)
        × (is_nil r.protocols ≡ false)
        × (normalize_sources net input.sources true ≡ ok r.sources)
        × (is_nil r.sources ≡ false)
        × (length r.note ≤ 300)
  unfolding normalize_rule
  normalize_rule_inv id input r h = ground arith

  -- A rule that `normalizeRule` returns holds exactly the ports asked for, in ranges with gaps
  -- between them; they lie between 1 and 65535 and leave out the port of the daemon. It has the id
  -- and the mark given, the protocols among "tcp" and "udp", one at least, the sources in normal
  -- form, one at least, and a note of 300 characters at most.
  pub normalize_rule-IsNormalized :
      (id : Text) (input : RuleInput) (r : Rule)
      → normalize_rule os net port id input ≡ ok r
      → IsNormalized os net port id input r
  normalize_rule-IsNormalized id input r h =
      let (c, ports, i, e, p, np, so, ns, note) = normalize_rule_inv id input r h in
      let (proper, free) = check_ports-ok port input.ports c in
      record {
        same_id = i;
        same_enabled = e;
        same_ports = λ q. rw ports (merged_covers input.ports q);
        gapped = rw ports (merge_port_ranges-Gapped (sort_port_ranges input.ports));
        in_bounds =
            λ q k. covers_bounds input.ports q proper (ground (arith, merged_covers input.ports q));
        unprotected = rw ports (merged_covers input.ports port ∙ free);
        protocols_are = p;
        some_protocol = np;
        sources_are = so;
        some_source = ns;
        short_note = note;
      }
