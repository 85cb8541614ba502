-- ===== src/Common/Dict.antt =====
-- Go maps as association lists. Proofs go by the laws in `if` form.
use Prim.Native.Nat.{ℕ, ◌+◌, ◌≤◌}
use mathlib.Core.Path.{◌≡◌}
use mathlib.Core.Bool.{true}
use mathlib.Core.Option.{Option, none, some}
use mathlib.Core.List.{List, [], ◌∷◌}
use native.Mathlib.Omega.{arith}
use prism_panel.Common.Tests.{if◌then◌else◌}
use prism_panel.Common.Equality.{Eq, ◌==◌, contains}

abbrev pub Dict {ℓ κ} : Type ℓ → Type κ → Type (ℓ ⊔ κ)
Dict K V = List (K × V)

module _ {ℓ κ} {K : Type ℓ} {V : Type κ} ⦃e : Eq K⦄ where
  unfoldable pub lookup : K → Dict K V → Option V
  lookup k [] = none
  lookup k ((j, v) ∷ m) = let rest = lookup k m in if k == j then some v else rest

  -- `m[k] = v`
  unfoldable pub insert : K → V → Dict K V → Dict K V
  insert k v [] = (k, v) ∷ []
  insert k v ((j, w) ∷ m) = let rest = insert k v m in if k == j then (k, v) ∷ m else (j, w) ∷ rest

  -- `delete(m, k)`
  unfoldable pub delete : K → Dict K V → Dict K V
  delete k [] = []
  delete k ((j, w) ∷ m) = let rest = delete k m in if k == j then rest else (j, w) ∷ rest

  pub lookup-insert :
      (j k : K) (v : V) (m : Dict K V)
      → lookup j (insert k v m) ≡ (if j == k then some v else lookup j m)
  unfolding lookup insert
  lookup-insert j k v [] = ground arith
  lookup-insert j k v ((i, w) ∷ m) = ground (arith, lookup-insert j k v m)

  pub lookup-delete :
      (j k : K) (m : Dict K V) → lookup j (delete k m) ≡ (if j == k then none else lookup j m)
  unfolding lookup delete
  lookup-delete j k [] = ground arith
  lookup-delete j k ((i, w) ∷ m) = ground (arith, lookup-delete j k m)

  unfoldable pub keys : Dict K V → List K
  keys [] = []
  keys ((k, v) ∷ m) = k ∷ keys m

  -- Every key that is bound is listed.
  pub contains-keys :
      (k : K) (v : V) (m : Dict K V) → lookup k m ≡ some v → contains (keys m) k ≡ true
  unfolding lookup keys
  contains-keys k v [] h = cc
  contains-keys k v ((j, w) ∷ m) h = ground (arith, contains-keys k v m)

  -- The sum of a weight over the values.
  unfoldable pub tally : (V → ℕ) → Dict K V → ℕ
  tally f [] = 0
  tally f ((k, v) ∷ m) = f v + tally f m

  pub tally-insert_new :
      (f : V → ℕ) (k : K) (v : V) (m : Dict K V)
      → lookup k m ≡ none
      → tally f (insert k v m) ≡ tally f m + f v
  unfolding tally lookup insert
  tally-insert_new f k v [] h = omega arith
  tally-insert_new f k v ((j, w) ∷ m) h = ground (arith, tally-insert_new f k v m)

  pub tally-insert_at :
      (f : V → ℕ) (k : K) (v w : V) (m : Dict K V)
      → lookup k m ≡ some v
      → tally f (insert k w m) + f v ≡ tally f m + f w
  unfolding tally lookup insert
  tally-insert_at f k v w [] h = absurd (ground arith)
  tally-insert_at f k v w ((j, x) ∷ m) h = ground (arith, tally-insert_at f k v w m)

  pub tally-ge : (f : V → ℕ) (k : K) (v : V) (m : Dict K V) → lookup k m ≡ some v → f v ≤ tally f m
  unfolding tally lookup
  tally-ge f k v [] h = absurd (ground arith)
  tally-ge f k v ((j, x) ∷ m) h = ground (arith, tally-ge f k v m)
