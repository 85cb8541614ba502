-- ===== src/Firewall/Ports.antt =====
-- daemon/internal/firewall/service.go: `sortPortRanges` and `mergePortRanges`, and the overlap test
-- of `validateState`.
pub mod Merge
pub mod Overlap
use prism_panel.Common.{
  ℕ, suc, ◌+◌, Bool, true, false, ◌&&◌, ◌||◌, List, [], ◌∷◌, ltb, leb, if◌then◌else◌, ◌==◌, nat_eq,
}
use prism_panel.Firewall.Types.{PortRange}

-- The order of the sort: by `From`, then by `To`.
unfoldable pub range_less : PortRange → PortRange → Bool
range_less a b = if a.from == b.from then ltb a.to b.to else ltb a.from b.from

unfoldable pub insert_range : PortRange → List PortRange → List PortRange
insert_range a [] = a ∷ []
insert_range a (b ∷ bs) =
    let rest = insert_range a bs in if range_less b a then b ∷ rest else a ∷ b ∷ bs

-- `sort.Slice`: ranges that the order does not tell apart are equal, so every sort returns this.
unfoldable pub sort_port_ranges : List PortRange → List PortRange
sort_port_ranges [] = []
sort_port_ranges (a ∷ more) = insert_range a (sort_port_ranges more)

-- The loop of `mergePortRanges` with the last range of `merged` at hand.
unfoldable pub merge_from : PortRange → List PortRange → List PortRange
merge_from last [] = last ∷ []
merge_from last (current ∷ rest) =
    let apart = last ∷ merge_from current rest in
    let joined =
      merge_from (if ltb last.to current.to then record last { to = current.to } else last) rest in
    if ltb (suc last.to) current.from then apart else joined

unfoldable pub merge_port_ranges : List PortRange → List PortRange
merge_port_ranges [] = []
merge_port_ranges (first ∷ rest) = merge_from first rest

-- Two neighbours of a sorted list overlap.
unfoldable pub has_overlap : List PortRange → Bool
has_overlap [] = false
has_overlap (a ∷ []) = false
has_overlap (a ∷ b ∷ rest) = leb b.from a.to || has_overlap (b ∷ rest)

abbrev pub in_range : ℕ → PortRange → Bool
in_range port r = leb r.from port && leb port r.to

-- A port lies in one of the ranges.
unfoldable pub covers : List PortRange → ℕ → Bool
covers [] port = false
covers (r ∷ rs) port = in_range port r || covers rs port

-- How many of the ranges a port lies in.
unfoldable pub hits : List PortRange → ℕ → ℕ
hits [] port = 0
hits (r ∷ rs) port = (if in_range port r then 1 else 0) + hits rs port
