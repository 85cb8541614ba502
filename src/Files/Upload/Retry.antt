-- ===== src/Files/Upload/Retry.antt =====
-- A chunk that is sent again after a write that failed half way.
use prism_panel.Common.{
  ℕ, zero, suc, ◌≤◌, ◌≡◌, refl, ap, ◌∙◌, true, false, [], ◌∷◌, ◌++◌, ltb, nat_eq, text_eq, eq_refl,
  length, length-append, drop, arith,
}
use prism_panel.Common.Text.{Text}
use prism_panel.Common.Error.{ok}
use prism_panel.Files.Upload.{Places, padded, take_in}
use prism_panel.Files.Upload.Whole.{well}

abbrev pub zeros : ℕ → Text
zeros zero = []
zeros (suc n) = 0 ∷ zeros n

padded-zeros : (n : ℕ) → padded (length (zeros n)) [] ≡ zeros n
padded-zeros zero = refl
padded-zeros (suc n) = ap (λ (l : Text). 0 ∷ l) (padded-zeros n)

padded-append : (got : Text) (n : ℕ) → padded (length (got ++ zeros n)) got ≡ got ++ zeros n
padded-append [] n = padded-zeros n
padded-append (x ∷ xs) n = ap (λ (l : Text). x ∷ l) (padded-append xs n)

drop-append : (before got : Text) → drop (length before) (before ++ got) ≡ got
drop-append [] got = refl
drop-append (x ∷ xs) got = drop-append xs got

-- Where the file ends within a chunk whose missing bytes are zeros, the chunk that is sent again is
-- taken for received, and the file stays without these bytes.
pub take_in_short :
    (now : ℕ) (p : Places) (before got : Text) (n : ℕ)
    → 1 ≤ length got
    → take_in (well now p) (got ++ zeros n) (length before) (before ++ got) ≡ (before ++ got, ok tt)
unfolding take_in
take_in_short now p before got n h =
    let l = length-append before got in
    let a : ltb (length (before ++ got)) (length before) ≡ false = ground (arith, l) in
    let b : ltb (length before) (length (before ++ got)) ≡ true = ground (arith, l, h) in
    let c : padded (length (got ++ zeros n)) (drop (length before) (before ++ got))
        ≡ got ++ zeros n =
      ap (λ (t : Text). padded (length (got ++ zeros n)) t) (drop-append before got)
      ∙ padded-append got n in
    rw (a, b, c, eq_refl (got ++ zeros n), take_in) refl
