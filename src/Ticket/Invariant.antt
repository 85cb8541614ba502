-- ===== src/Ticket/Invariant.antt =====
-- The two maps of the ticket manager stay inverse to one another, and no ticket is overdrawn.
use prism_panel.Common.{
  ℕ, ltb, ◌≤◌, ◌<◌, ◌≡◌, inl, inr, Bool, List, [], ◌∷◌, some, arith, Option-cases, Bool-cases,
  text_eq, nat_eq, if_both,
}
use prism_panel.Common.Text.{Text}
use prism_panel.Common.Dict.{lookup, keys, lookup-delete}
use prism_panel.Ticket.Model.{
  Ticket, Manager, forget, new_manager, sweep_one, sweep_all, sweep, remove_expired, revoke,
  revoke_session,
}

abbrev pub IsEntry : Manager → Text → ℕ → Type 0
IsEntry m t p = (p < m.next) × ((m.store p).token ≡ t) × (lookup (m.store p).id m.by_id ≡ some p)

abbrev pub IsNamed : Manager → Text → ℕ → Type 0
IsNamed m i p = (p < m.next) × ((m.store p).id ≡ i) × (lookup (m.store p).token m.by_token ≡ some p)

abbrev pub InBudget : Ticket → Type 0
InBudget t = (t.uses ≤ t.max_uses) × (0 < t.max_uses)

-- A token leads to a ticket that carries it and is found by its id, and the other way round; a
-- ticket was used as often as it may be at most, and may be used at least once.
pub record Wf (m : Manager) : Type 0 where
  pub tokens : (t : Text) (p : ℕ) → lookup t m.by_token ≡ some p → IsEntry m t p
  pub ids : (i : Text) (p : ℕ) → lookup i m.by_id ≡ some p → IsNamed m i p
  pub budget : (p : ℕ) → p < m.next → InBudget (m.store p)

pub new_manager-Wf : Wf new_manager
unfolding new_manager lookup
new_manager-Wf = record {
  tokens = λ t p h. cc;
  ids = λ i p h. cc;
  budget = λ p h. absurd (omega arith);
}

pub forget-Wf :
    (m : Manager) (token : Text) (p : ℕ)
    → Wf m
    → lookup token m.by_token ≡ some p
    → Wf (forget m token (m.store p).id)
forget-Wf m token p v h = record {
  tokens = λ t q k. ground (
    arith,
    lookup-delete t token m.by_token,
    lookup-delete (m.store q).id (m.store p).id m.by_id,
    v.tokens t q,
    v.tokens token p,
  );
  ids = λ i q k. ground (
    arith,
    lookup-delete i (m.store p).id m.by_id,
    lookup-delete (m.store q).token token m.by_token,
    v.ids i q,
    v.tokens token p,
  );
  budget = v.budget;
}

pub forget_named-Wf :
    (m : Manager) (id : Text) (p : ℕ)
    → Wf m
    → lookup id m.by_id ≡ some p
    → Wf (forget m (m.store p).token (m.store p).id)
forget_named-Wf m id p v h = forget-Wf m (m.store p).token p v (v.ids id p h).2

sweep_one-Wf : (doomed : Ticket → Bool) (t : Text) (m : Manager) → Wf m → Wf (sweep_one doomed t m)
unfolding sweep_one
sweep_one-Wf doomed t m v = elim (Option-cases (lookup t m.by_token)) [
  | inl e ↦ rw (e, sweep_one) v
  | inr (p, e) ↦ elim (Bool-cases (doomed (m.store p))) [
    | inl d ↦ rw (e, sweep_one) (rw d (forget-Wf m t p v e))
    | inr d ↦ rw (e, sweep_one) (rw d v)
  ]
]

sweep_all-Wf :
    (doomed : Ticket → Bool) (ts : List Text) (m : Manager) → Wf m → Wf (sweep_all doomed ts m)
unfolding sweep_all
sweep_all-Wf doomed [] m v = v
sweep_all-Wf doomed (t ∷ ts) m v =
    sweep_all-Wf doomed ts (sweep_one doomed t m) (sweep_one-Wf doomed t m v)

pub sweep-Wf : (doomed : Ticket → Bool) (m : Manager) → Wf m → Wf (sweep doomed m)
unfolding sweep
sweep-Wf doomed m v = sweep_all-Wf doomed (keys m.by_token) m v

pub revoke-Wf : (m : Manager) (id : Text) → Wf m → Wf (revoke m id)
unfolding revoke
revoke-Wf m id v = elim (Option-cases (lookup id m.by_id)) [
  | inl e ↦ rw (e, revoke) v
  | inr (p, e) ↦ rw (e, revoke) (forget_named-Wf m id p v e)
]

pub revoke_session-Wf : (m : Manager) (s : Text) → Wf m → Wf (revoke_session m s)
unfolding revoke_session
revoke_session-Wf m s v = if_both Wf _ m (sweep _ m) v (sweep-Wf _ m v)

pub remove_expired-Wf : (now : ℕ) (m : Manager) → Wf m → Wf (remove_expired now m)
unfolding remove_expired
remove_expired-Wf now m v = sweep-Wf (λ t. ltb t.expires_at now) m v
