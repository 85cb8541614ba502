-- ===== src/Session/Host/Replay.antt =====
-- Runs of frames with consecutive numbers.
use prism_panel.Common.{
  ℕ, zero, suc, ◌+◌, ◌-◌, ◌≤◌, ◌<◌, ◌≡◌, refl, subst, inl, inr, List, [], ◌∷◌, ◌++◌, ltb, length,
  drop, select, arith, Bool-cases, length-append, length-drop,
}
use prism_panel.Session.Host.{Frame, keep_last, capacity}

abbrev pub Contiguous : ℕ → List Frame → Type 0
Contiguous n [] = Unit
Contiguous n (f ∷ fs) = (f.sequence ≡ n) × Contiguous (suc n) fs

-- Consecutive numbers of which the last is `last`.
abbrev pub EndsAt : ℕ → List Frame → Type 0
EndsAt last fs = (length fs ≤ last) × Contiguous (suc last - length fs) fs

Contiguous-append :
    (n : ℕ) (xs ys : List Frame)
    → Contiguous n xs
    → Contiguous (n + length xs) ys
    → Contiguous n (xs ++ ys)
Contiguous-append n [] ys h k = subst (λ m. Contiguous m ys) (omega arith) k
Contiguous-append n (x ∷ xs) ys h k =
    (h.0, Contiguous-append (suc n) xs ys h.1 (subst (λ m. Contiguous m ys) (omega arith) k))

pub EndsAt-snoc :
    (last : ℕ) (xs : List Frame) (f : Frame)
    → EndsAt last xs
    → f.sequence ≡ suc last
    → EndsAt (suc last) (xs ++ f ∷ [])
EndsAt-snoc last xs f h e =
    let l = length-append xs (f ∷ []) in
    (
      omega (arith, l),
      Contiguous-append (suc (suc last) - length (xs ++ f ∷ [])) xs (f ∷ [])
          (subst (λ m. Contiguous m xs) (omega (arith, l)) h.1) (omega (arith, l), tt),
    )

EndsAt-tail : (last : ℕ) (x : Frame) (xs : List Frame) → EndsAt last (x ∷ xs) → EndsAt last xs
EndsAt-tail last x xs h = (omega arith, subst (λ m. Contiguous m xs) (omega arith) h.1.1)

pub EndsAt-drop : (last k : ℕ) (xs : List Frame) → EndsAt last xs → EndsAt last (drop k xs)
EndsAt-drop last zero xs h = h
EndsAt-drop last (suc k) [] h = h
EndsAt-drop last (suc k) (x ∷ xs) h = EndsAt-drop last k xs (EndsAt-tail last x xs h)

pub EndsAt-keep_last : (last : ℕ) (xs : List Frame) → EndsAt last xs → EndsAt last (keep_last xs)
unfolding keep_last
EndsAt-keep_last last xs h = elim (Bool-cases (ltb capacity (length xs))) [
  | inl long ↦ rw long (EndsAt-drop last (length xs - capacity) xs h)
  | inr short ↦ rw short h
]

pub length-keep_last : (xs : List Frame) → length (keep_last xs) ≤ capacity
unfolding keep_last
length-keep_last xs = ground (arith, length-drop (length xs - capacity) xs)

-- Behind a frame that is wanted all are.
select_after :
    (after n : ℕ) (xs : List Frame)
    → Contiguous n xs
    → after < n
    → select (λ f. ltb after f.sequence) xs ≡ xs
select_after after n [] h l = refl
select_after after n (x ∷ xs) h l = ground (arith, select_after after (suc n) xs h.1)

-- What is sent again is a run that ends where the buffer ends.
pub EndsAt-replay :
    (last after : ℕ) (xs : List Frame)
    → EndsAt last xs
    → EndsAt last (select (λ f. ltb after f.sequence) xs)
EndsAt-replay last after [] h = h
EndsAt-replay last after (x ∷ xs) h = elim (Bool-cases (ltb after x.sequence)) [
  | inl wanted ↦ rw (select_after after (suc last - length (x ∷ xs)) (x ∷ xs) h.1 (ground arith)) h
  | inr seen ↦ rw seen (EndsAt-replay last after xs (EndsAt-tail last x xs h))
]
