-- ===== src/Ticket/Access.antt =====
-- What a grant of the ticket manager vouches for, and what a revocation reaches.
use mathlib.Core.Path.{fun_ext}
use prism_panel.Common.{
  eq_refl, if_both, ◌∙◌, ℕ, ◌≤◌, ◌≡◌, refl, ◌≢◌, ◌⊎◌, inl, inr, Bool, true, List, [], ◌∷◌, Option,
  none, some, arith, map, Option-cases, if◌then◌else◌, ◌==◌, nat_eq, text_eq, contains,
}
use prism_panel.Common.Text.{Text, trim_space}
use prism_panel.Common.Dict.{lookup, keys, contains-keys, lookup-insert, lookup-delete}
use prism_panel.Common.Error.{ErrorCode, Result, ok, err, Result-cases}
use prism_panel.Common.Platform.{Platform}
use prism_panel.Ticket.Path.{normalize_path}
use prism_panel.Ticket.Path.Safety.{Confined, normalize_path-Confined}
use prism_panel.Ticket.Path.Scope.{Covers, path_allowed_iff}
use prism_panel.Ticket.Model.{
  Ticket, RestrictedOptions, Draw, Manager, write, sweep_one, sweep_all, sweep, revoke_session,
  remove_expired,
}
use prism_panel.Ticket.Consume.{
  normalize_client_ip, consume_matching, consume_restricted_from, restricted_match, source_allowed,
}
use prism_panel.Ticket.Create.{
  restrict, enter, create_restricted, options_of, restricted_fields, create_with_options,
  check_restricted, prepare_ticket,
}
use prism_panel.Ticket.Outcome.{used, consume_matching_outcome}
use prism_panel.Ticket.Invariant.{Wf, revoke_session-Wf}

-- What a sweep leaves at a token.
abbrev pub spared : (Ticket → Bool) → (ℕ → Ticket) → Option ℕ → Option ℕ
spared doomed store none = none
spared doomed store (some p) = if doomed (store p) then none else some p

sweep_one-store :
    (doomed : Ticket → Bool) (t : Text) (m : Manager) → (sweep_one doomed t m).store ≡ m.store
unfolding sweep_one
sweep_one-store doomed t m = ground arith

sweep_all-lookup :
    (doomed : Ticket → Bool) (t : Text) (ts : List Text) (m : Manager)
    → lookup t (sweep_all doomed ts m).by_token
      ≡ (if contains ts t then spared doomed m.store (lookup t m.by_token) else lookup t m.by_token)
unfolding sweep_all
sweep_all-lookup doomed t [] m = refl
sweep_all-lookup doomed t (k ∷ ks) m =
    ground (
      arith,
      sweep_all-lookup doomed t ks (sweep_one doomed k m),
      sweep_one-store doomed k m,
      one k,
    )
  where
    one :
        (k : Text)
        → lookup t (sweep_one doomed k m).by_token
          ≡ (if t == k then spared doomed m.store (lookup t m.by_token) else lookup t m.by_token)
    one k = unfold sweep_one in ground (arith, lookup-delete t k m.by_token)

-- A sweep takes the doomed tickets, and no others.
pub sweep-lookup :
    (doomed : Ticket → Bool) (t : Text) (m : Manager)
    → lookup t (sweep doomed m).by_token ≡ spared doomed m.store (lookup t m.by_token)
unfolding sweep
sweep-lookup doomed t m = elim (Option-cases (lookup t m.by_token)) [
  | inl e ↦ ground (arith, sweep_all-lookup doomed t (keys m.by_token) m)
  | inr (p, e) ↦
      ground (arith, sweep_all-lookup doomed t (keys m.by_token) m, contains-keys t p m.by_token)
]

-- After the revocation of a session a token leads to the ticket that it led to before, if that
-- belongs to another session, and to none otherwise. The blank session takes nothing.
pub revoke_session-lookup :
    (t s : Text) (m : Manager)
    → lookup t (revoke_session m s).by_token ≡ (
        if trim_space s == []
        then lookup t m.by_token
        else spared (λ k. k.session_id == trim_space s) m.store (lookup t m.by_token))
unfolding revoke_session
revoke_session-lookup t s m = ground (arith, sweep-lookup (λ k. k.session_id == trim_space s) t m)

-- The arguments of a restricted consumption, but for the manager and the time.
pub record Request : Type 0 where
  pub token : Text
  pub scope : Text
  pub resource_type : Text
  pub resource_id : Text
  pub path : Text
  pub method : Text
  pub source : Text

sweep_all-store :
    (doomed : Ticket → Bool) (ts : List Text) (m : Manager)
    → (sweep_all doomed ts m).store ≡ m.store
unfolding sweep_all
sweep_all-store doomed [] m = refl
sweep_all-store doomed (t ∷ ts) m =
    sweep_all-store doomed ts (sweep_one doomed t m) ∙ sweep_one-store doomed t m

revoke_session-store : (m : Manager) (s : Text) → (revoke_session m s).store ≡ m.store
unfolding revoke_session sweep
revoke_session-store m s =
    if_both (λ (k : Manager). k.store ≡ m.store) _ m (sweep _ m) refl
      (sweep_all-store _ (keys m.by_token) m)

write_self : (store : ℕ → Ticket) (p : ℕ) (t : Ticket) → write store p t p ≡ t
unfolding write
write_self store p t = ground arith

write_again :
    (store : ℕ → Ticket) (p : ℕ) (t t' : Ticket) → write (write store p t) p t' ≡ write store p t'
unfolding write
write_again store p t t' = fun_ext (λ q. ground arith)

module _ (os : Platform) where
  abbrev pub consume_request : Manager → Request → ℕ → Manager × Result Ticket
  consume_request m r now =
      consume_restricted_from os m r.token r.scope r.resource_type r.resource_id r.path r.method
        r.source now

  pub record IsVouched (m : Manager) (r : Request) (now : ℕ) (t : Ticket) : Type 0 where
    pub address : ℕ
    pub clean : Text
    pub ip : Text
    pub found : lookup r.token m.by_token ≡ some address
    pub used_once : t ≡ used (m.store address)
    pub alive : now ≤ t.expires_at
    pub within_budget : t.uses ≤ t.max_uses
    pub same_scope : t.scope ≡ r.scope
    pub same_type : t.resource_type ≡ r.resource_type
    pub same_resource : t.resource_id ≡ r.resource_id
    pub same_method : t.method ≡ map os.upper r.method
    pub source_is : normalize_client_ip os r.source ≡ ok ip
    pub same_source : (t.client_ip ≡ []) ⊎ (t.client_ip ≡ ip)
    pub path_is : normalize_path r.path ≡ ok clean
    pub confined : Confined clean
    pub in_reach : (contains t.paths clean ≡ true) ⊎ Covers t.path_prefix t.path clean

  granted-IsVouched :
      (m : Manager) (r : Request) (now : ℕ) {m' : Manager} {t : Ticket} (clean ip : Text)
      → normalize_path r.path ≡ ok clean
      → normalize_client_ip os r.source ≡ ok ip
      → consume_matching
          (restricted_match os r.scope r.resource_type r.resource_id clean r.method)
          ip
          m
          r.token
          now
        ≡ (m', ok t)
      → IsVouched m r now t
  unfolding source_allowed
  granted-IsVouched m r now {m'} {t} clean ip n k h =
      elim (consume_matching_outcome
        (restricted_match os r.scope r.resource_type r.resource_id clean r.method) ip m r.token
        now) [
          | inl (e, o) ↦ absurd (ground arith)
          | inr (inl (p, _, _, o)) ↦ absurd (ground arith)
          | inr (inr (p, found, alive, fits, home, fresh, o)) ↦
              let e : t ≡ used (m.store p) = ground arith in
              record {
                address = p;
                clean = clean;
                ip = ip;
                found = found;
                used_once = e;
                alive = ground arith;
                within_budget = ground arith;
                same_scope = ground arith;
                same_type = ground arith;
                same_resource = ground arith;
                same_method = ground arith;
                source_is = k;
                same_source = ground arith;
                path_is = n;
                confined = normalize_path-Confined r.path clean n;
                in_reach = rw e (
                    (path_allowed_iff (m.store p).paths (m.store p).path_prefix (m.store p).path
                        clean).0
                      (ground arith));
              }
        ]

  -- If a restricted consumption succeeds, the token led to a ticket that is not expired, had a use
  -- left and is the one handed out, used once more. The ticket's scope, resource and method (in
  -- upper case) are those of the call, its source is unbound or the caller's, and the requested
  -- path, which has no element "..", is listed in the ticket or lies in its directory.
  pub consume_request-IsVouched :
      (m : Manager) (r : Request) (now : ℕ) {m' : Manager} {t : Ticket}
      → consume_request m r now ≡ (m', ok t)
      → IsVouched m r now t
  unfolding consume_restricted_from
  consume_request-IsVouched m r now {m'} {t} h = elim (Result-cases (normalize_path r.path)) [
    | inr (e, n) ↦ absurd (ground arith)
    | inl (clean, n) ↦ elim (Result-cases (normalize_client_ip os r.source)) [
      | inr (e, k) ↦ absurd (ground arith)
      | inl (ip, k) ↦ granted-IsVouched m r now {m' = m'} {t = t} clean ip n k (ground arith)
    ]
  ]

  -- Between the two critical sections of `CreateRestricted` the session of the new ticket may be
  -- revoked. Then the second one reads nil from the map and dereferences it, with the lock held.
  pub restrict_after_revocation :
      (m : Manager) (id session : Text) (p : ℕ) (o : RestrictedOptions) (path : Text)
      (paths : List Text)
      → Wf m
      → lookup id m.by_id ≡ some p
      → (m.store p).session_id ≡ trim_space session
      → trim_space session ≢ []
      → restrict os (revoke_session m session) id o path paths ≡ none
  unfolding restrict
  restrict_after_revocation m id session p o path paths v h same named =
      elim (Option-cases (lookup id (revoke_session m session).by_id)) [
        | inl e ↦ rw (e, restrict) refl
        | inr (q, e) ↦ absurd (
            ground (
              arith,
              (revoke_session-Wf m session v).ids id q e,
              revoke_session-lookup ((revoke_session m session).store q).token session m,
              v.tokens ((revoke_session m session).store q).token q,
              v.ids id p h,
              revoke_session-store m session,
            ))
      ]

  restrict-enter :
      (m : Manager) (t : Ticket) (o : RestrictedOptions) (path : Text) (paths : List Text)
      → let t' = restricted_fields os o path paths t in
        restrict os (enter m t) t.id o path paths ≡ some (enter m t', t')
  unfolding restrict enter
  restrict-enter m t o path paths =
      rw (lookup-insert t.id t.id m.next m.by_id, restrict)
        (rw eq_refl (rw (write_self m.store m.next t, write_again m.store m.next t) refl))

  created :
      (m : Manager) (o : RestrictedOptions) (d : Draw) (t : Ticket)
      → prepare_ticket os o.scope o.resource_id o.ttl o.max_uses (options_of o) d ≡ ok t
      → create_with_options os m o.scope o.resource_id o.ttl o.max_uses (options_of o) d
        ≡ (enter (remove_expired d.swept m) t, ok t)
  unfolding create_with_options
  created m o d t k = rw (k, create_with_options) refl

  uncreated :
      (m : Manager) (o : RestrictedOptions) (d : Draw) (e : ErrorCode)
      → prepare_ticket os o.scope o.resource_id o.ttl o.max_uses (options_of o) d ≡ err e
      → create_with_options os m o.scope o.resource_id o.ttl o.max_uses (options_of o) d
        ≡ (m, err e)
  unfolding create_with_options
  uncreated m o d e k = rw (k, create_with_options) refl

  -- `CreateRestricted` as one step: the ticket is entered with its restrictions.
  abbrev pub create_at_once : Manager → RestrictedOptions → Draw → Manager × Result Ticket
  create_at_once m o d = elim (check_restricted o) [
    | err e ↦ (m, err e)
    | ok (path, paths) ↦
        elim (prepare_ticket os o.scope o.resource_id o.ttl o.max_uses (options_of o) d) [
          | err e ↦ (m, err e)
          | ok t ↦
              let t' = restricted_fields os o path paths t in
              (enter (remove_expired d.swept m) t', ok t')
        ]
  ]

  -- With no call in between, the two critical sections of `CreateRestricted` find the ticket that
  -- was just entered, and amount to entering the restricted ticket at once: on every branch the
  -- manager and the result are those of the one step.
  pub create_restricted_at_once :
      (m : Manager) (o : RestrictedOptions) (d : Draw)
      → create_restricted os m o d ≡ some (create_at_once m o d)
  unfolding create_restricted
  create_restricted_at_once m o d = elim (Result-cases (check_restricted o)) [
    | inr (e, c) ↦ ground arith
    | inl ((path, paths), c) ↦
        elim (Result-cases
          (prepare_ticket os o.scope o.resource_id o.ttl o.max_uses (options_of o) d)) [
            | inr (e, k) ↦ ground (arith, uncreated m o d e k)
            | inl (t, k) ↦
                ground (
                  arith,
                  created m o d t k,
                  restrict-enter (remove_expired d.swept m) t o path paths,
                )
          ]
  ]
