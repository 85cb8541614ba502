-- ===== src/Ticket/Budget.antt =====
-- No history hands out a ticket more often than its `MaxUses`.
use prism_panel.Common.{
  ap, ◌∙◌, if_both, ltb, ℕ, ◌+◌, ◌-◌, ◌≤◌, ◌<◌, ◌≡◌, refl, ◌≢◌, List, [], ◌∷◌, Bool, Option, none,
  some, text_eq, nat_eq, Option-cases, Bool-cases, inl, inr, arith,
}
use prism_panel.Common.Int.{ℤ}
use prism_panel.Common.Text.{Text}
use prism_panel.Common.Dict.{lookup, keys, lookup-insert, lookup-delete}
use prism_panel.Common.Error.{Result-cases}
use prism_panel.Common.Platform.{Platform}
use prism_panel.Ticket.Path.{normalize_path}
use prism_panel.Ticket.Model.{
  Ticket, TicketOptions, RestrictedOptions, Draw, Manager, forget, write, sweep_one, sweep_all,
  sweep, remove_expired, revoke, revoke_session,
}
use prism_panel.Ticket.Consume.{
  normalize_client_ip, consume_matching, consume_from, consume_restricted_from,
}
use prism_panel.Ticket.Create.{
  enter, restrict, restricted_fields, attach_upload, create_with_options, prepare_ticket,
}
use prism_panel.Ticket.Outcome.{used, consume_matching_outcome}
use prism_panel.Ticket.Invariant.{Wf, remove_expired-Wf}
use prism_panel.Ticket.Preserve.{prepare_ticket_lem}
use prism_panel.Ticket.Trace.{
  Call, creates, restricts, attaches, consumes, consumes_restricted, revokes, revokes_session,
  granted, or_same, grants_of, step, run, FreshCall, FreshRun, step-Wf,
}

-- The uses that are left to the ticket of a token.
abbrev pub uses_left : (ℕ → Ticket) → Option ℕ → ℕ
uses_left store none = 0
uses_left store (some p) = (store p).max_uses - (store p).uses

pub left : Text → Manager → ℕ
left token m = uses_left m.store (lookup token m.by_token)

left-forget : (token : Text) (m : Manager) (t i : Text) → left token (forget m t i) ≤ left token m
unfolding left
left-forget token m t i = ground (arith, lookup-delete token t m.by_token)

left-sweep_one :
    (token : Text) (doomed : Ticket → Bool) (t : Text) (m : Manager)
    → left token (sweep_one doomed t m) ≤ left token m
unfolding sweep_one
left-sweep_one token doomed t m = elim (Option-cases (lookup t m.by_token)) [
  | inl e ↦ rw (e, sweep_one) (omega arith)
  | inr (p, e) ↦ elim (Bool-cases (doomed (m.store p))) [
    | inl d ↦ rw (e, sweep_one) (rw d (left-forget token m t (m.store p).id))
    | inr d ↦ rw (e, sweep_one) (rw d (omega arith))
  ]
]

left-sweep_all :
    (token : Text) (doomed : Ticket → Bool) (ts : List Text) (m : Manager)
    → left token (sweep_all doomed ts m) ≤ left token m
unfolding sweep_all
left-sweep_all token doomed [] m = omega arith
left-sweep_all token doomed (t ∷ ts) m =
    omega (
      arith,
      left-sweep_one token doomed t m,
      left-sweep_all token doomed ts (sweep_one doomed t m),
    )

left-sweep :
    (token : Text) (doomed : Ticket → Bool) (m : Manager)
    → left token (sweep doomed m) ≤ left token m
unfolding sweep
left-sweep token doomed m = left-sweep_all token doomed (keys m.by_token) m

left-remove_expired :
    (token : Text) (now : ℕ) (m : Manager) → left token (remove_expired now m) ≤ left token m
unfolding remove_expired
left-remove_expired token now m = left-sweep token (λ t. ltb t.expires_at now) m

left-enter :
    (token : Text) (m : Manager) (t : Ticket)
    → Wf m
    → t.token ≢ token
    → left token (enter m t) ≡ left token m
unfolding left enter write
left-enter token m t v n = elim (Option-cases (lookup token m.by_token)) [
  | inl e ↦ ground (arith, lookup-insert token t.token m.next m.by_token)
  | inr (p, e) ↦ ground (arith, lookup-insert token t.token m.next m.by_token, v.tokens token p e)
]

left-write :
    (token : Text) (m : Manager) (p : ℕ) (t : Ticket)
    → t.uses ≡ (m.store p).uses
    → t.max_uses ≡ (m.store p).max_uses
    → left token (record m { store = write m.store p t }) ≡ left token m
unfolding left write
left-write token m p t eu em = ground arith

-- A grant of the token takes one of the uses that are left to it.
left-used :
    (token : Text) (m : Manager) (t : Text) (p : ℕ)
    → Wf m
    → lookup t m.by_token ≡ some p
    → (m.store p).uses < (m.store p).max_uses
    → grants_of token (some (m.store p))
        + left token (record m { store = write m.store p (used (m.store p)) })
      ≤ left token m
unfolding left write
left-used token m t p v e h = ground (arith, v.tokens t p e, v.tokens token)

left-consume_matching :
    (token : Text) (matches : Ticket → Bool) (ip : Text) (m : Manager) (t : Text) (now : ℕ)
    → Wf m
    → let r = consume_matching matches ip m t now in
      grants_of token (granted r.1) + left token r.0 ≤ left token m
left-consume_matching token matches ip m t now v =
    elim (consume_matching_outcome matches ip m t now) [
      | inl (e, r) ↦ rw r (omega arith)
      | inr (inl (p, found, late, r)) ↦
          rw r (omega (arith, left-forget token m (m.store p).token (m.store p).id))
      | inr (inr (p, found, alive, fits, home, fresh, r)) ↦
          rw r (left-used token m t p v found fresh)
    ]

left-revoke : (token : Text) (m : Manager) (id : Text) → left token (revoke m id) ≤ left token m
unfolding revoke
left-revoke token m id = elim (Option-cases (lookup id m.by_id)) [
  | inl e ↦ rw (e, revoke) (omega arith)
  | inr (p, e) ↦ rw (e, revoke) (left-forget token m (m.store p).token (m.store p).id)
]

left-revoke_session :
    (token : Text) (m : Manager) (s : Text) → left token (revoke_session m s) ≤ left token m
unfolding revoke_session
left-revoke_session token m s =
    if_both (λ m'. left token m' ≤ left token m) _ m (sweep _ m) (omega arith)
      (left-sweep token _ m)

left-attach_upload :
    (token : Text) (m : Manager) (item : Ticket) (sha256 : Text) (max_bytes : ℤ)
    → left token (attach_upload m item sha256 max_bytes).0 ≡ left token m
unfolding attach_upload
left-attach_upload token m item sha256 max_bytes = elim (Option-cases (lookup item.id m.by_id)) [
  | inl e ↦ rw (e, attach_upload) refl
  | inr (p, e) ↦
      rw (e, attach_upload)
        (left-write token m p (record (m.store p) { sha256 = sha256; max_bytes = max_bytes }) refl
          refl)
]

module _ (os : Platform) where
  left-restrict :
      (token : Text) (m : Manager) (id : Text) (o : RestrictedOptions) (path : Text)
      (paths : List Text)
      → left token (or_same m (restrict os m id o path paths)) ≡ left token m
  unfolding restrict
  left-restrict token m id o path paths = elim (Option-cases (lookup id m.by_id)) [
    | inl e ↦ rw (e, restrict) refl
    | inr (p, e) ↦
        rw (e, restrict)
          (left-write token m p (restricted_fields os o path paths (m.store p)) refl refl)
  ]

  left-create :
      (token : Text) (m : Manager) (scope instance_id : Text) (ttl max_uses : ℤ) (o : TicketOptions)
      (d : Draw)
      → Wf m
      → d.token ≢ some token
      → left token (create_with_options os m scope instance_id ttl max_uses o d).0 ≤ left token m
  unfolding create_with_options
  left-create token m scope instance_id ttl max_uses o d v n =
      elim (Result-cases (prepare_ticket os scope instance_id ttl max_uses o d)) [
        | inr (e, h) ↦ rw (h, create_with_options) (omega arith)
        | inl (t, h) ↦
            let (tok, _, _) = prepare_ticket_lem os scope instance_id ttl max_uses o d t h in
            rw (h, create_with_options)
              (omega (
                arith,
                left-enter token (remove_expired d.swept m) t (remove_expired-Wf d.swept m v)
                    (λ e. n (tok ∙ ap some e)),
                left-remove_expired token d.swept m,
              ))
      ]

  left-step :
      (token : Text) (m : Manager) (c : Call)
      → FreshCall os token m c
      → Wf m
      → grants_of token (step os m c).1 + left token (step os m c).0 ≤ left token m
  unfolding step
  left-step token m (creates scope instance_id ttl max_uses o d) f v =
      omega (arith, left-create token m scope instance_id ttl max_uses o d v f.1)
  left-step token m (restricts id o path paths) f v =
      omega (arith, left-restrict token m id o path paths)
  left-step token m (attaches item sha256 max_bytes) f v =
      omega (arith, left-attach_upload token m item sha256 max_bytes)
  left-step token m (consumes t scope instance_id source now) f v =
      elim (Result-cases (normalize_client_ip os source)) [
        | inr (e, h) ↦ unfold consume_from in rw (h, consume_from) (omega arith)
        | inl (ip, h) ↦
            unfold consume_from in rw (h, consume_from) (left-consume_matching token _ ip m t now v)
      ]
  left-step token m (consumes_restricted t scope type id path method source now) f v =
      elim (Result-cases (normalize_path path)) [
        | inr (e, h) ↦
            unfold consume_restricted_from in rw (h, consume_restricted_from) (omega arith)
        | inl (clean, h) ↦ elim (Result-cases (normalize_client_ip os source)) [
          | inr (e, k) ↦
              unfold consume_restricted_from in rw (h, consume_restricted_from) (rw k (omega arith))
          | inl (ip, k) ↦
              unfold consume_restricted_from in
              rw (h, consume_restricted_from) (rw k (left-consume_matching token _ ip m t now v))
        ]
      ]
  left-step token m (revokes id) f v = omega (arith, left-revoke token m id)
  left-step token m (revokes_session s) f v = omega (arith, left-revoke_session token m s)

  -- Over any history from a well-formed manager that draws the token of no new ticket, the grants
  -- of a token and the uses that are left to it in the end are no more than the uses that were left
  -- to it at the start: no interleaving of calls, of either kind of consumption, overdraws a
  -- ticket, and a token that leads to no ticket is never granted.
  pub run-grants-le :
      (token : Text) (m : Manager) (cs : List Call)
      → FreshRun os token m cs
      → Wf m
      → (run os token m cs).1 + left token (run os token m cs).0 ≤ left token m
  unfolding run
  run-grants-le token m [] f v = omega arith
  run-grants-le token m (c ∷ cs) f v = omega (
    arith,
    left-step token m c f.0 v,
    run-grants-le token (step os m c).0 cs f.1 (step-Wf os token m c f.0 v),
  )
