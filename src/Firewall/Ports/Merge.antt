-- ===== src/Firewall/Ports/Merge.antt =====
-- Sorting and merging ranges keeps the ports and leaves gaps between the ranges; on ranges out of
-- order merging loses ports.
use prism_panel.Common.{
  ℕ, suc, ◌≤◌, ◌<◌, ◌≡◌, refl, ◌⊎◌, inl, inr, Bool, true, false, ◌||◌, List, [], ◌∷◌, ltb, nat_eq,
  arith, All, Bool-cases, ap, ◌∙◌, ltb→lt, ltb-false,
}
use prism_panel.Firewall.Types.{PortRange}
use prism_panel.Firewall.Ports.{
  range_less, insert_range, sort_port_ranges, merge_from, merge_port_ranges, covers, in_range,
}

-- No range ends before it begins.
abbrev pub IsProper : PortRange → Type 0
IsProper r = r.from ≤ r.to

abbrev pub FromBelow : ℕ → List PortRange → Type 0
FromBelow n [] = Unit
FromBelow n (r ∷ rs) = n ≤ r.from

-- The ranges begin one after the other.
abbrev pub Sorted : List PortRange → Type 0
Sorted [] = Unit
Sorted (r ∷ rs) = FromBelow r.from rs × Sorted rs

abbrev GapAfter : ℕ → List PortRange → Type 0
GapAfter n [] = Unit
GapAfter n (r ∷ rs) = suc n < r.from

-- Between two ranges there is a port that is in neither.
abbrev pub Gapped : List PortRange → Type 0
Gapped [] = Unit
Gapped (r ∷ rs) = GapAfter r.to rs × Gapped rs

insert_range-FromBelow :
    (n : ℕ) (a : PortRange) (bs : List PortRange)
    → n ≤ a.from
    → FromBelow n bs
    → FromBelow n (insert_range a bs)
unfolding insert_range
insert_range-FromBelow n a [] h k = h
insert_range-FromBelow n a (b ∷ bs) h k = ground arith

range_less-le :
    (a b : PortRange)
    → ((range_less a b ≡ true) × (a.from ≤ b.from)) ⊎ ((range_less a b ≡ false) × (b.from ≤ a.from))
unfolding range_less
range_less-le a b = ground arith

insert_range-Sorted : (a : PortRange) (bs : List PortRange) → Sorted bs → Sorted (insert_range a bs)
unfolding insert_range
insert_range-Sorted a [] h = (tt, tt)
insert_range-Sorted a (b ∷ bs) h = elim (range_less-le b a) [
  | inl (less, le) ↦
      rw less (insert_range-FromBelow b.from a bs le h.0, insert_range-Sorted a bs h.1)
  | inr (more, le) ↦ rw more (le, h)
]

pub sort_port_ranges-Sorted : (more : List PortRange) → Sorted (sort_port_ranges more)
unfolding sort_port_ranges
sort_port_ranges-Sorted [] = tt
sort_port_ranges-Sorted (a ∷ more) =
    insert_range-Sorted a (sort_port_ranges more) (sort_port_ranges-Sorted more)

covers-insert_range :
    (a : PortRange) (bs : List PortRange) (port : ℕ)
    → covers (insert_range a bs) port ≡ (in_range port a || covers bs port)
unfolding insert_range covers
covers-insert_range a [] port = refl
covers-insert_range a (b ∷ bs) port = ground (arith, covers-insert_range a bs port)

pub covers-sort_port_ranges :
    (more : List PortRange) (port : ℕ) → covers (sort_port_ranges more) port ≡ covers more port
unfolding sort_port_ranges covers
covers-sort_port_ranges [] port = refl
covers-sort_port_ranges (a ∷ more) port =
    ground
      (arith, covers-insert_range a (sort_port_ranges more) port, covers-sort_port_ranges more port)

FromBelow-mono : (m n : ℕ) (rs : List PortRange) → m ≤ n → FromBelow n rs → FromBelow m rs
FromBelow-mono m n [] h k = tt
FromBelow-mono m n (r ∷ rs) h k = omega arith

in_range_joined :
    (port : ℕ) (a b : PortRange)
    → a.from ≤ b.from
    → b.from ≤ suc a.to
    → a.to < b.to
    → in_range port (record a { to = b.to }) ≡ (in_range port a || in_range port b)
in_range_joined port a b h k l = ground arith

in_range_within :
    (port : ℕ) (a b : PortRange)
    → a.from ≤ b.from
    → b.to ≤ a.to
    → in_range port a ≡ (in_range port a || in_range port b)
in_range_within port a b h k = ground arith

covers-merge_from :
    (last : PortRange) (rest : List PortRange) (port : ℕ)
    → Sorted (last ∷ rest)
    → covers (merge_from last rest) port ≡ (in_range port last || covers rest port)
unfolding merge_from covers
covers-merge_from last [] port s = refl
covers-merge_from last (current ∷ rest) port s =
    let below = FromBelow-mono last.from current.from rest s.0 s.1.0 in
    let joined : PortRange = record last { to = current.to } in
    elim (Bool-cases (ltb (suc last.to) current.from)) [
      | inl apart ↦
          rw apart (ap (λ b. in_range port last || b) (covers-merge_from current rest port s.1))
      | inr close ↦ elim (Bool-cases (ltb last.to current.to)) [
        | inl longer ↦ rw close (
            rw longer (
              covers-merge_from joined rest port (below, s.1.1)
              ∙ ap (λ b. b || covers rest port)
                  (in_range_joined port last current s.0 (ltb-false _ _ close) (ltb→lt _ _ longer))
              ∙ or_assoc (in_range port last) (in_range port current) (covers rest port)))
        | inr within ↦ rw close (
            rw within (
              covers-merge_from last rest port (below, s.1.1)
              ∙ ap (λ b. b || covers rest port)
                  (in_range_within port last current s.0 (ltb-false _ _ within))
              ∙ or_assoc (in_range port last) (in_range port current) (covers rest port)))
      ]
    ]
  where
    or_assoc : (a b c : Bool) → ((a || b) || c) ≡ (a || (b || c))
    or_assoc a b c = ground arith

-- Merging ranges that are in order keeps the ports.
pub covers-merge_port_ranges :
    (rs : List PortRange) (port : ℕ)
    → Sorted rs
    → covers (merge_port_ranges rs) port ≡ covers rs port
unfolding merge_port_ranges covers
covers-merge_port_ranges [] port s = refl
covers-merge_port_ranges (r ∷ rs) port s = covers-merge_from r rs port s

merge_from-GapAfter :
    (n : ℕ) (last : PortRange) (rest : List PortRange)
    → suc n < last.from
    → GapAfter n (merge_from last rest)
unfolding merge_from
merge_from-GapAfter n last [] h = h
merge_from-GapAfter n last (current ∷ rest) h = ground (
  arith,
  merge_from-GapAfter n last rest h,
  merge_from-GapAfter n (record last { to = current.to }) rest h,
)

merge_from-Gapped : (last : PortRange) (rest : List PortRange) → Gapped (merge_from last rest)
unfolding merge_from
merge_from-Gapped last [] = (tt, tt)
merge_from-Gapped last (current ∷ rest) = ground (
  arith,
  merge_from-Gapped current rest,
  merge_from-Gapped last rest,
  merge_from-Gapped (record last { to = current.to }) rest,
  merge_from-GapAfter last.to current rest,
)

-- Whatever the order, what is merged has gaps between the ranges.
pub merge_port_ranges-Gapped : (rs : List PortRange) → Gapped (merge_port_ranges rs)
unfolding merge_port_ranges
merge_port_ranges-Gapped [] = tt
merge_port_ranges-Gapped (r ∷ rs) = merge_from-Gapped r rs

merge_from-IsProper :
    (last : PortRange) (rest : List PortRange)
    → IsProper last
    → All IsProper rest
    → All IsProper (merge_from last rest)
unfolding merge_from
merge_from-IsProper last [] p ps = (p, tt)
merge_from-IsProper last (current ∷ rest) p ps = ground (
  arith,
  merge_from-IsProper current rest ps.0 ps.1,
  merge_from-IsProper last rest p ps.1,
  λ (h : last.to < current.to).
      merge_from-IsProper (record last { to = current.to }) rest (omega arith) ps.1,
)

pub merge_port_ranges-IsProper :
    (rs : List PortRange) → All IsProper rs → All IsProper (merge_port_ranges rs)
unfolding merge_port_ranges
merge_port_ranges-IsProper [] p = tt
merge_port_ranges-IsProper (r ∷ rs) p = merge_from-IsProper r rs p.0 p.1

insert_range-IsProper :
    (a : PortRange) (bs : List PortRange)
    → IsProper a
    → All IsProper bs
    → All IsProper (insert_range a bs)
unfolding insert_range
insert_range-IsProper a [] h k = (h, tt)
insert_range-IsProper a (b ∷ bs) h k = ground (arith, insert_range-IsProper a bs h k.1)

pub sort_port_ranges-IsProper :
    (rs : List PortRange) → All IsProper rs → All IsProper (sort_port_ranges rs)
unfolding sort_port_ranges
sort_port_ranges-IsProper [] p = tt
sort_port_ranges-IsProper (r ∷ rs) p =
    insert_range-IsProper r (sort_port_ranges rs) p.0 (sort_port_ranges-IsProper rs p.1)
