-- ===== src/Firewall/Service/Apply.antt =====
-- What `applyCandidateLocked` and the checks before it change.
use prism_panel.Common.{
  ℕ, ◌≡◌, refl, ◌⊎◌, inl, inr, Bool, true, false, List, [], none, some, arith, Option-cases,
}
use prism_panel.Common.Text.{Text}
use prism_panel.Common.Platform.{Platform, NetIp}
use prism_panel.Common.Error.{
  ErrorCode, Result, ok, err, Result-cases, config_write_failed, firewall_apply_failed,
  firewall_inspect_failed, invalid_firewall_rule,
}
use prism_panel.Firewall.Types.{PersistedState, Service}
use prism_panel.Firewall.Validate.{validate_state}
use prism_panel.Firewall.Render.{Line, render_script}
use prism_panel.Firewall.Service.{
  Answers, Look, failed, absent, present, prepare_backend, refresh_observed, prepare_mutation,
  stamped, apply_candidate,
}

-- Only what the service has observed differs.
abbrev pub Same : Service → Service → Type 0
Same s s' = (s'.state ≡ s.state) × (s'.grants ≡ s.grants) × (s'.port ≡ s.port)

-- The call fails, and what it changes is only what the service has observed.
abbrev pub Rejected : Service → Service × Result (Unit {0}) → Type 0
Rejected s r = (e : ErrorCode) × (r.1 ≡ err e) × Same s r.0

-- The hash of the table that was seen, which is empty where there is none.
abbrev pub hash_of : (Text → Text) → Look → Text
hash_of digest (failed message) = []
hash_of digest absent = []
hash_of digest (present contents) = digest contents

look_hash :
    (digest : Text → Text) (l : Look)
    → ((message : Text) × (l ≡ failed message))
      ⊎ ((seen : Bool) × (hash : Text) × (hash_of digest l ≡ hash)
          × (((l ≡ absent) × (seen ≡ false) × (hash ≡ []))
              ⊎ ((contents : Text) × (l ≡ present contents)
                  × (seen ≡ true)
                  × (hash ≡ digest contents))))
look_hash digest (failed message) = inl (message, refl)
look_hash digest absent = inr (false, [], refl, inl (refl, refl, refl))
look_hash digest (present contents) =
    inr (true, digest contents, refl, inr (contents, refl, refl, refl))

module _ (os : Platform) (net : NetIp) (digest : Text → Text) where
  refresh_observed-Same : (l : Look) (s : Service) → Same s (refresh_observed os net digest l s)
  unfolding refresh_observed
  refresh_observed-Same (failed message) s = (refl, refl, refl)
  refresh_observed-Same absent s = (refl, refl, refl)
  refresh_observed-Same (present contents) s = (refl, refl, refl)

  pub prepare_mutation_outcome :
      (a : Answers) (expected : ℕ) (s : Service)
      → let r = prepare_mutation os net digest a expected s in
        Same s r.0
        × ((r.1 ≡ ok tt)
            → (r.0.drift ≡ false) × (expected ≡ s.state.revision) × (a.supported ≡ true))
  unfolding prepare_mutation prepare_backend
  prepare_mutation_outcome a expected s =
      ground (arith, refresh_observed-Same a.first_look (record s { supported = a.supported }))

  -- The candidate is valid, and `script` is it, rendered and applied.
  abbrev pub InForce : Answers → PersistedState → Service → List Line → Type 0
  InForce a candidate s script =
      (validate_state os net s.port candidate ≡ ok tt)
      × (render_script net candidate s.grants s.port a.render_time s.table_present ≡ ok script)
      × (a.apply script ≡ none)

  -- The candidate with the hash of the table that was seen after it was applied, and the time.
  abbrev pub recorded : Answers → PersistedState → PersistedState
  recorded a candidate = stamped candidate (hash_of digest a.second_look) a.applied_time

  -- The candidate is in force and becomes the state of the service.
  abbrev pub Applied : Answers → PersistedState → Service → Service × Result (Unit {0}) → Type 0
  Applied a candidate s r =
      (script : List Line) × (r.1 ≡ ok tt)
      × (r.0.state ≡ recorded a candidate)
      × (r.0.observed_hash ≡ hash_of digest a.second_look)
      × (r.0.grants ≡ s.grants)
      × (r.0.port ≡ s.port)
      × (r.0.drift ≡ false)
      × (r.0.last_error ≡ [])
      × InForce a candidate s script
      × (a.save (recorded a candidate) ≡ none)

  -- The table is as it was: the candidate is not valid, or cannot be rendered or applied.
  abbrev pub NotInForce : Answers → PersistedState → Service → Service × Result (Unit {0}) → Type 0
  NotInForce a candidate s r =
      ((e : ErrorCode) × (r.1 ≡ err e) × (validate_state os net s.port candidate ≡ err e))
      ⊎ ((e : ErrorCode) × (r.1 ≡ err invalid_firewall_rule)
          × (render_script net candidate s.grants s.port a.render_time s.table_present ≡ err e))
      ⊎ ((script : List Line) × (message : Text) × (r.1 ≡ err firewall_apply_failed)
          × (a.apply script ≡ some message))

  -- The candidate is in force, but the table could not be looked at again, or the state not saved.
  abbrev pub NotRecorded : Answers → PersistedState → Service → Service × Result (Unit {0}) → Type 0
  NotRecorded a candidate s r =
      (script : List Line) × InForce a candidate s script
      × (((message : Text) × (a.second_look ≡ failed message) × (r.1 ≡ err firewall_inspect_failed))
          ⊎ ((message : Text) × (a.save (recorded a candidate) ≡ some message)
              × (r.1 ≡ err config_write_failed)))

  -- There are three outcomes. The candidate is valid, was rendered, applied and saved, and is the state
  -- of the service now, with the hash of the table that was seen after it was applied, and the time.
  -- Or the state and the grants are as before and the call fails: because the candidate is not valid,
  -- or cannot be rendered or applied; or after it was applied, because the table cannot be looked at
  -- or the state not saved, and then the rules of the candidate are in force all the same.
  pub apply_candidate_outcome :
      (a : Answers) (candidate : PersistedState) (s : Service)
      → let r = apply_candidate os net digest a candidate s in
        (Same s r.0 × (NotInForce a candidate s r ⊎ NotRecorded a candidate s r))
        ⊎ Applied a candidate s r
  unfolding apply_candidate
  apply_candidate_outcome a candidate s =
      elim (Result-cases (validate_state os net s.port candidate)) [
        | inr (e, v) ↦ inl (ground arith, inl (inl (e, ground arith, v)))
        | inl (_, v) ↦
            elim (Result-cases
              (render_script net candidate s.grants s.port a.render_time s.table_present)) [
                | inr (e, w) ↦ inl (ground arith, inl (inr (inl (e, ground arith, w))))
                | inl (script, w) ↦ elim (Option-cases (a.apply script)) [
                  | inr (message, x) ↦
                      inl (ground arith, inl (inr (inr (script, message, ground arith, x))))
                  | inl x ↦ elim (look_hash digest a.second_look) [
                    | inl (message, y) ↦
                        inl (ground arith, inr (script, (v, w, x), inl (message, y, ground arith)))
                    | inr (seen, hash, h, y) ↦ elim (Option-cases (a.save (recorded a candidate))) [
                      | inr (message, z) ↦
                          inl
                            (ground arith, inr (script, (v, w, x), inr (message, z, ground arith)))
                      | inl z ↦ inr (
                        script,
                        ground arith,
                        ground arith,
                        ground arith,
                        ground arith,
                        ground arith,
                        ground arith,
                        ground arith,
                        (v, w, x),
                        z,
                      )
                    ]
                  ]
                ]
              ]
      ]

  -- The call fails or it does not.
  pub apply_candidate_settles :
      (a : Answers) (candidate : PersistedState) (s : Service)
      → let r = apply_candidate os net digest a candidate s in
        Rejected s r ⊎ Applied a candidate s r
  apply_candidate_settles a candidate s = elim (apply_candidate_outcome a candidate s) [
    | inr done ↦ inr done
    | inl (same, inl (inl (e, f, _))) ↦ inl (e, f, same)
    | inl (same, inl (inr (inl (e, f, _)))) ↦ inl (invalid_firewall_rule, f, same)
    | inl (same, inl (inr (inr (script, message, f, _)))) ↦ inl (firewall_apply_failed, f, same)
    | inl (same, inr (script, _, inl (message, _, f))) ↦ inl (firewall_inspect_failed, f, same)
    | inl (same, inr (script, _, inr (message, _, f))) ↦ inl (config_write_failed, f, same)
  ]
