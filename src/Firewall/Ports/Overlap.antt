-- ===== src/Firewall/Ports/Overlap.antt =====
-- The overlap test on sorted neighbours finds every overlap.
use prism_panel.Common.{
  ℕ, suc, ◌+◌, ◌≤◌, ◌<◌, ◌≡◌, refl, ◌⊎◌, inl, inr, false, List, [], ◌∷◌, if◌then◌else◌, arith,
}
use prism_panel.Firewall.Types.{PortRange}
use prism_panel.Firewall.Ports.{insert_range, sort_port_ranges, in_range, has_overlap, hits}
use prism_panel.Firewall.Ports.Merge.{FromBelow, Sorted, sort_port_ranges-Sorted}

hits-insert_range :
    (a : PortRange) (bs : List PortRange) (port : ℕ)
    → hits (insert_range a bs) port ≡ (if in_range port a then 1 else 0) + hits bs port
unfolding insert_range hits
hits-insert_range a [] port = refl
hits-insert_range a (b ∷ bs) port = ground (arith, hits-insert_range a bs port)

hits-sort_port_ranges :
    (rs : List PortRange) (port : ℕ) → hits (sort_port_ranges rs) port ≡ hits rs port
unfolding sort_port_ranges hits
hits-sort_port_ranges [] port = refl
hits-sort_port_ranges (r ∷ rs) port =
    omega (arith, hits-insert_range r (sort_port_ranges rs) port, hits-sort_port_ranges rs port)

hits_before :
    (n port : ℕ) (rs : List PortRange) → FromBelow n rs → Sorted rs → port < n → hits rs port ≡ 0
unfolding hits
hits_before n port [] h s l = refl
hits_before n port (r ∷ rs) h s l =
    let later = hits_before r.from port rs s.0 s.1 (omega arith) in ground arith

hits_cons :
    (r : PortRange) (rs : List PortRange) (port : ℕ)
    → ((port ≤ r.to) × (hits (r ∷ rs) port ≡ suc (hits rs port)))
      ⊎ (hits (r ∷ rs) port ≡ hits rs port)
unfolding hits
hits_cons r rs port = ground arith

no_overlap_cons :
    (a b : PortRange) (rest : List PortRange)
    → has_overlap (a ∷ b ∷ rest) ≡ false
    → (a.to < b.from) × (has_overlap (b ∷ rest) ≡ false)
unfolding has_overlap
no_overlap_cons a b [] n = ground arith
no_overlap_cons a b (c ∷ rest) n = ground arith

hits_apart :
    (rs : List PortRange) (port : ℕ) → Sorted rs → has_overlap rs ≡ false → hits rs port ≤ 1
hits_apart [] port s n = unfold hits in omega arith
hits_apart (a ∷ []) port s n = unfold hits in ground arith
hits_apart (a ∷ b ∷ rest) port s n =
    let (apart, n') = no_overlap_cons a b rest n in
    elim (hits_cons a (b ∷ rest) port) [
      | inl (here, e) ↦
          omega (arith, e, hits_before b.from port (b ∷ rest) (omega arith) s.1 (omega arith))
      | inr e ↦ omega (arith, e, hits_apart (b ∷ rest) port s.1 n')
    ]

-- If the test finds no overlap, no port lies in two of the ranges.
pub hits-le-one :
    (rs : List PortRange) (port : ℕ) → has_overlap (sort_port_ranges rs) ≡ false → hits rs port ≤ 1
hits-le-one rs port n = omega (
  arith,
  hits-sort_port_ranges rs port,
  hits_apart (sort_port_ranges rs) port (sort_port_ranges-Sorted rs) n,
)
