-- ===== src/Ticket/Outcome.antt =====
-- The three ways in which a consuming call of the ticket manager ends.
use prism_panel.Common.{
  text_eq, ℕ, suc, ◌≤◌, ◌<◌, ◌≡◌, ◌⊎◌, inl, inr, Bool, true, some, arith, Option-cases, Bool-cases,
  leb, ltb,
}
use prism_panel.Common.Text.{Text}
use prism_panel.Common.Dict.{lookup}
use prism_panel.Common.Error.{
  ErrorCode, Result, ok, err, ticket_expired, unauthenticated, permission_denied,
}
use prism_panel.Ticket.Model.{Ticket, Manager, forget, write}
use prism_panel.Ticket.Consume.{active_ticket, consume_ticket, consume_matching, source_allowed}

abbrev pub used : Ticket → Ticket
used t = record t { uses = suc t.uses }

abbrev pub Refused : Manager → Manager × Result Ticket → Type 0
Refused m r = (e : ErrorCode) × (r ≡ (m, err e))

abbrev pub Expired : Manager → Text → ℕ → Manager × Result Ticket → Type 0
Expired m token now r =
    (p : ℕ) × (lookup token m.by_token ≡ some p)
    × ((m.store p).expires_at < now)
    × (r ≡ (forget m (m.store p).token (m.store p).id, err ticket_expired))

abbrev pub Granted : (Ticket → Bool) → Text → Manager → Text → ℕ → Manager × Result Ticket → Type 0
Granted matches ip m token now r =
    (p : ℕ) × (lookup token m.by_token ≡ some p)
    × (now ≤ (m.store p).expires_at)
    × (matches (m.store p) ≡ true)
    × (source_allowed (m.store p) ip ≡ true)
    × ((m.store p).uses < (m.store p).max_uses)
    × (r ≡ (record m { store = write m.store p (used (m.store p)) }, ok (used (m.store p))))

-- Either the call is refused and changes nothing, or the ticket has expired and is forgotten, or it
-- is alive, fits the request and its source, has a use left, and is used once more.
pub consume_matching_outcome :
    (matches : Ticket → Bool) (ip : Text) (m : Manager) (token : Text) (now : ℕ)
    → let r = consume_matching matches ip m token now in
      Refused m r ⊎ (Expired m token now r ⊎ Granted matches ip m token now r)
unfolding consume_matching active_ticket consume_ticket
consume_matching_outcome matches ip m token now = elim (Option-cases (lookup token m.by_token)) [
  | inl e ↦ inl (unauthenticated, ground arith)
  | inr (p, e) ↦ elim (Bool-cases (ltb (m.store p).expires_at now)) [
    | inl late ↦ inr (inl (p, e, ground arith, ground arith))
    | inr alive ↦ elim (Bool-cases (matches (m.store p))) [
      | inr differs ↦ inl (permission_denied, ground arith)
      | inl fits ↦ elim (Bool-cases (source_allowed (m.store p) ip)) [
        | inr foreign ↦ inl (permission_denied, ground arith)
        | inl home ↦ elim (Bool-cases (leb (m.store p).max_uses (m.store p).uses)) [
          | inl spent ↦ inl (unauthenticated, ground arith)
          | inr fresh ↦ inr (inr (p, e, ground arith, fits, home, ground arith, ground arith))
        ]
      ]
    ]
  ]
]
