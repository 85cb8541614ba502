-- ===== src/Ticket/Preserve.antt =====
-- The creating and the consuming calls keep the invariant of the ticket manager.
use prism_panel.Common.{
  ℕ, ◌≡◌, refl, subst, inl, inr, Bool, List, none, some, arith, Option-cases, text_eq, nat_eq,
}
use prism_panel.Common.Int.{ℤ}
use prism_panel.Common.Text.{Text}
use prism_panel.Common.Dict.{lookup, lookup-insert}
use prism_panel.Common.Error.{ok, Result-cases}
use prism_panel.Common.Platform.{Platform}
use prism_panel.Ticket.Model.{
  Ticket, Manager, TicketOptions, RestrictedOptions, Draw, write, remove_expired,
}
use prism_panel.Ticket.Consume.{
  consume_matching, consume_from, consume_restricted_from, normalize_client_ip,
}
use prism_panel.Ticket.Create.{
  restricted_fields, enter, restrict, attach_upload, create_with_options, prepare_ticket,
}
use prism_panel.Ticket.Path.{normalize_path}
use prism_panel.Ticket.Outcome.{used, consume_matching_outcome}
use prism_panel.Ticket.Invariant.{Wf, InBudget, forget-Wf, remove_expired-Wf}

-- A write through an address that is in use, of a ticket with the same names.
pub write-Wf :
    (m : Manager) (p : ℕ) (t : Ticket)
    → Wf m
    → t.token ≡ (m.store p).token
    → t.id ≡ (m.store p).id
    → InBudget t
    → Wf (record m { store = write m.store p t })
unfolding write
write-Wf m p t v et ei b = record {
  tokens = λ s q h. ground (arith, v.tokens s q);
  ids = λ i q h. ground (arith, v.ids i q);
  budget = λ q h. ground (arith, v.budget q);
}

-- A ticket with fresh names at the next address.
pub enter-Wf :
    (m : Manager) (t : Ticket)
    → Wf m
    → lookup t.token m.by_token ≡ none
    → lookup t.id m.by_id ≡ none
    → InBudget t
    → Wf (enter m t)
unfolding enter write
enter-Wf m t v ft fi b = record {
  tokens = λ s q h. ground (
    arith,
    lookup-insert s t.token m.next m.by_token,
    lookup-insert (m.store q).id t.id m.next m.by_id,
    lookup-insert t.id t.id m.next m.by_id,
    v.tokens s q,
  );
  ids = λ i q h. ground (
    arith,
    lookup-insert i t.id m.next m.by_id,
    lookup-insert (m.store q).token t.token m.next m.by_token,
    lookup-insert t.token t.token m.next m.by_token,
    v.ids i q,
  );
  budget = λ q h. ground (arith, v.budget q);
}

pub consume_matching-Wf :
    (matches : Ticket → Bool) (ip : Text) (m : Manager) (token : Text) (now : ℕ)
    → Wf m
    → Wf (consume_matching matches ip m token now).0
consume_matching-Wf matches ip m token now v =
    elim (consume_matching_outcome matches ip m token now) [
      | inl (e, r) ↦ rw r v
      | inr (inl (p, found, late, r)) ↦
          rw r (rw (v.tokens token p found).1 (forget-Wf m token p v found))
      | inr (inr (p, found, alive, fits, home, fresh, r)) ↦
          rw r (write-Wf m p (used (m.store p)) v refl refl (ground (arith, v.budget p)))
    ]

module _ (os : Platform) where
  pub consume_from-Wf :
      (m : Manager) (token scope instance_id source : Text) (now : ℕ)
      → Wf m
      → Wf (consume_from os m token scope instance_id source now).0
  unfolding consume_from
  consume_from-Wf m token scope instance_id source now v =
      elim (Result-cases (normalize_client_ip os source)) [
        | inr (e, h) ↦ rw (h, consume_from) v
        | inl (ip, h) ↦ rw (h, consume_from) (consume_matching-Wf _ ip m token now v)
      ]

  pub consume_restricted_from-Wf :
      (m : Manager) (token scope resource_type resource_id request method source : Text) (now : ℕ)
      → Wf m
      → Wf
          (consume_restricted_from os m token scope resource_type resource_id request method source
            now).0
  unfolding consume_restricted_from
  consume_restricted_from-Wf m token scope resource_type resource_id request method source now v =
      elim (Result-cases (normalize_path request)) [
        | inr (e, h) ↦ rw (h, consume_restricted_from) v
        | inl (path, h) ↦
            rw (h, consume_restricted_from)
              (elim (Result-cases (normalize_client_ip os source)) [
                | inr (e, k) ↦ rw k v
                | inl (ip, k) ↦ rw k (consume_matching-Wf _ ip m token now v)
              ])
      ]

  -- The random values name no ticket that stands in the maps when the new one is entered.
  abbrev pub IsFresh : Manager → Draw → Type 0
  IsFresh m d =
      ((t : Text) → d.token ≡ some t → lookup t (remove_expired d.swept m).by_token ≡ none)
      × ((i : Text) → d.id ≡ some i → lookup i (remove_expired d.swept m).by_id ≡ none)

  pub prepare_ticket_lem :
      (scope instance_id : Text) (ttl max_uses : ℤ) (o : TicketOptions) (d : Draw) (t : Ticket)
      → prepare_ticket os scope instance_id ttl max_uses o d ≡ ok t
      → (d.token ≡ some t.token) × (d.id ≡ some t.id) × InBudget t
  unfolding prepare_ticket
  prepare_ticket_lem scope instance_id ttl max_uses o d t h = ground arith

  pub create_with_options-Wf :
      (m : Manager) (scope instance_id : Text) (ttl max_uses : ℤ) (o : TicketOptions) (d : Draw)
      → Wf m
      → IsFresh m d
      → Wf (create_with_options os m scope instance_id ttl max_uses o d).0
  unfolding create_with_options
  create_with_options-Wf m scope instance_id ttl max_uses o d v f =
      elim (Result-cases (prepare_ticket os scope instance_id ttl max_uses o d)) [
        | inr (e, h) ↦ rw (h, create_with_options) v
        | inl (t, h) ↦
            let (tok, id, b) = prepare_ticket_lem scope instance_id ttl max_uses o d t h in
            rw (h, create_with_options)
              (enter-Wf (remove_expired d.swept m) t (remove_expired-Wf d.swept m v)
                (f.0 t.token tok) (f.1 t.id id) b)
      ]

  pub restrict-Wf :
      (m : Manager) (id : Text) (o : RestrictedOptions) (path : Text) (paths : List Text)
      {m' : Manager} {t : Ticket}
      → Wf m
      → restrict os m id o path paths ≡ some (m', t)
      → Wf m'
  unfolding restrict
  restrict-Wf m id o path paths {m'} {t} v h = elim (Option-cases (lookup id m.by_id)) [
    | inl e ↦ absurd (ground arith)
    | inr (p, e) ↦ subst Wf (ground arith) (
        write-Wf m p (restricted_fields os o path paths (m.store p)) v refl refl
          (v.budget p (v.ids id p e).0))
  ]

pub attach_upload-Wf :
    (m : Manager) (item : Ticket) (sha256 : Text) (max_bytes : ℤ)
    → Wf m
    → Wf (attach_upload m item sha256 max_bytes).0
unfolding attach_upload
attach_upload-Wf m item sha256 max_bytes v = elim (Option-cases (lookup item.id m.by_id)) [
  | inl e ↦ rw (e, attach_upload) v
  | inr (p, e) ↦
      rw (e, attach_upload)
        (write-Wf m p (record (m.store p) { sha256 = sha256; max_bytes = max_bytes }) v refl refl
          (v.budget p (v.ids item.id p e).0))
]
