-- ===== src/Ticket/Consume.antt =====
-- daemon/internal/ticket/manager.go: the consuming calls.
use prism_panel.Common.{
  ℕ, suc, Bool, ◌&&◌, ◌||◌, not, [], map, none, some, ltb, leb, if◌then◌else◌, ◌==◌, nat_eq,
  text_eq,
}
use prism_panel.Common.Text.{Text, trim_space}
use prism_panel.Common.Dict.{lookup}
use prism_panel.Common.Platform.{Platform}
use prism_panel.Common.Error.{
  Result, ok, err, invalid_ticket, unauthenticated, ticket_expired, permission_denied,
}
use prism_panel.Ticket.Path.{normalize_path, path_allowed}
use prism_panel.Ticket.Model.{Ticket, Manager, forget, write}

unfoldable pub active_ticket : Manager → Text → ℕ → Manager × Result ℕ
active_ticket m token now = elim (lookup token m.by_token) [
  | none ↦ (m, err unauthenticated)
  | some p ↦
      if ltb (m.store p).expires_at now
      then (forget m (m.store p).token (m.store p).id, err ticket_expired)
      else (m, ok p)
]

unfoldable pub consume_ticket : Manager → ℕ → Manager × Result Ticket
consume_ticket m p =
    let t = m.store p in
    let used = record t { uses = suc t.uses } in
    if leb t.max_uses t.uses
    then (m, err unauthenticated)
    else (record m { store = write m.store p used }, ok used)

-- `validateSource`
unfoldable pub source_allowed : Ticket → Text → Bool
source_allowed t source = (t.client_ip == []) || (t.client_ip == source)

-- Both consuming calls, after their arguments are normalised: `matches` is the test of the
-- fields, and `ip` the source.
unfoldable pub consume_matching :
    (Ticket → Bool) → Text → Manager → Text → ℕ → Manager × Result Ticket
consume_matching matches ip m token now =
    let (m', found) = active_ticket m token now in
    elim found [
      | err e ↦ (m', err e)
      | ok p ↦
          if not (matches (m'.store p))
          then (m', err permission_denied)
          else (if not (source_allowed (m'.store p) ip)
              then (m', err permission_denied)
              else consume_ticket m' p)
    ]

module _ (os : Platform) where
  unfoldable pub normalize_client_ip : Text → Result Text
  normalize_client_ip raw =
      let value = trim_space raw in
      if value == []
      then ok []
      else (elim (os.canonical_ip value) [ none ↦ err invalid_ticket | some ip ↦ ok ip ])

  unfoldable pub consume_from : Manager → Text → Text → Text → Text → ℕ → Manager × Result Ticket
  consume_from m token scope instance_id source now = elim (normalize_client_ip source) [
    | err e ↦ (m, err e)
    | ok ip ↦
        consume_matching (λ t. (t.scope == scope) && (t.instance_id == instance_id)) ip m token now
  ]

  abbrev pub restricted_match : Text → Text → Text → Text → Text → Ticket → Bool
  restricted_match scope resource_type resource_id path method t =
      (t.scope == scope)
      && (t.resource_type == resource_type)
      && (t.resource_id == resource_id)
      && (t.method == map os.upper method)
      && path_allowed t.paths t.path_prefix t.path path

  unfoldable pub consume_restricted_from :
      Manager → Text → Text → Text → Text → Text → Text → Text → ℕ → Manager × Result Ticket
  consume_restricted_from m token scope resource_type resource_id request method source now =
      elim (normalize_path request) [
        | err e ↦ (m, err e)
        | ok path ↦ elim (normalize_client_ip source) [
          | err e ↦ (m, err e)
          | ok ip ↦
              consume_matching (restricted_match scope resource_type resource_id path method) ip m
                token now
        ]
      ]
