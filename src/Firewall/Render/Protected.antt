-- ===== src/Firewall/Render/Protected.antt =====
-- The line that drops what no rule accepts: which ports it closes.
use prism_panel.Common.{ℕ, ◌≤◌, ◌<◌, ◌≡◌, refl, ap, ◌∙◌, true, false, List, [], ◌∷◌, arith, text_eq}
use prism_panel.Common.Text.{Text}
use prism_panel.Firewall.Types.{PortRange, Rule}
use prism_panel.Firewall.Ports.{merge_port_ranges, merge_from, covers, in_range}
use prism_panel.Firewall.Ports.Merge.{IsProper, Sorted, covers-merge_port_ranges}
use prism_panel.Firewall.Validate.{ports_of}
use prism_panel.Firewall.Render.{protected_ranges}

-- Where the enabled rules of a protocol stand in the order of their ports, the line closes exactly
-- the ports that one of them claims.
pub covers-protected_ranges :
    (protocol : Text) (rules : List Rule) (port : ℕ)
    → Sorted (ports_of protocol rules)
    → covers (protected_ranges protocol rules) port ≡ covers (ports_of protocol rules) port
unfolding protected_ranges
covers-protected_ranges protocol rules port s =
    covers-merge_port_ranges (ports_of protocol rules) port s

abbrev pub Claims : Text → Rule → PortRange → Type 0
Claims protocol r range =
    (r.enabled ≡ true) × (r.protocols ≡ protocol ∷ []) × (r.ports ≡ range ∷ [])

ports_for_one :
    (protocol : Text) (r : Rule) (range : PortRange) (more : List Rule)
    → Claims protocol r range
    → ports_of protocol (r ∷ more) ≡ range ∷ ports_of protocol more
unfolding ports_of
ports_for_one protocol r range more c = ground arith

ports_of_two :
    (protocol : Text) (first second : Rule) (high low : PortRange)
    → Claims protocol first high
    → Claims protocol second low
    → ports_of protocol (first ∷ second ∷ []) ≡ high ∷ low ∷ []
ports_of_two protocol first second high low f s =
    ports_for_one protocol first high (second ∷ []) f
    ∙ ap (λ rs. high ∷ rs) (ports_for_one protocol second low [] s ∙ unfold ports_of in refl)

merge_two_covers :
    (high low : PortRange) (port : ℕ)
    → low.to < high.from
    → IsProper high
    → port ≤ low.to
    → covers (merge_port_ranges (high ∷ low ∷ [])) port ≡ false
unfolding merge_port_ranges merge_from covers
merge_two_covers high low port h p b = ground arith

-- `renderScript` merges the ranges without sorting them. Of two enabled rules for one protocol, if
-- the first claims a range above the range of the second, the range of the second is lost: the line
-- closes none of its ports.
pub protected_ranges_lost :
    (protocol : Text) (first second : Rule) (high low : PortRange) (port : ℕ)
    → Claims protocol first high
    → Claims protocol second low
    → low.to < high.from
    → IsProper high
    → in_range port low ≡ true
    → (covers (ports_of protocol (first ∷ second ∷ [])) port ≡ true)
      × (covers (protected_ranges protocol (first ∷ second ∷ [])) port ≡ false)
unfolding protected_ranges
protected_ranges_lost protocol first second high low port f s h p b =
    rw (ports_of_two protocol first second high low f s)
      (unfold covers in ground arith, merge_two_covers high low port h p (ground arith))
