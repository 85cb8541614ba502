-- ===== src/Supervisor/Deployment/Reserve.antt =====
-- A reservation is all or nothing.
use prism_panel.Common.{
  ◌≡◌, refl, ap, ◌∙◌, ◌⊎◌, inl, inr, Bool, true, false, ◌||◌, List, [], ◌∷◌, Option, some,
  if◌then◌else◌, ◌==◌, text_eq, eq→≡, contains, arith, Bool-cases, Option-cases,
}
use prism_panel.Common.Text.{Text}
use prism_panel.Common.Error.{ErrorCode, Result, ok, err, instance_not_found, instance_busy}
use prism_panel.Firewall.Rules.{insert_text, sort_texts}
use prism_panel.Supervisor.Types.{Instance, Instances, is_moving}
use prism_panel.Supervisor.Deployment.{
  find, held_as, locked_as, with_op, with_lock, unlock_operations, set_locked, take_one, take_all,
  reserve_deployment, release,
}

unlock_operations_at :
    (ids : List Text) (m : Instances) (j : Text)
    → unlock_operations ids m j ≡ (if contains ids j then held_as false (m j) else m j)
unfolding unlock_operations with_op
unlock_operations_at [] m j = refl
unlock_operations_at (id ∷ ids) m j = elim (Option-cases (m j)) [
  | inl e ↦ ground (arith, unlock_operations_at ids (with_op false id m) j)
  | inr (i, e) ↦ ground (arith, unlock_operations_at ids (with_op false id m) j)
]

set_locked_at :
    (b : Bool) (ids : List Text) (m : Instances) (j : Text)
    → set_locked b ids m j ≡ (if contains ids j then locked_as b (m j) else m j)
unfolding set_locked with_lock
set_locked_at b [] m j = refl
set_locked_at b (id ∷ ids) m j = elim (Option-cases (m j)) [
  | inl e ↦ ground (arith, set_locked_at b ids m j)
  | inr (i, e) ↦ ground (arith, set_locked_at b ids m j)
]

-- An instance that may be reserved.
abbrev pub IsIdle : Option Instance → Type 0
IsIdle found =
    (i : Instance) × (found ≡ some i)
    × (i.managed ≡ true)
    × (i.op_held ≡ false)
    × (i.deployment_locked ≡ false)
    × (is_moving i.state ≡ false)

-- The instances that are held were idle, and nothing else has changed.
record Taken (before : Instances) (held : List Text) (m : Instances) : Type 0 where
  pub at : (j : Text) → m j ≡ (if contains held j then held_as true (before j) else before j)
  pub idle : (j : Text) → contains held j ≡ true → IsIdle (before j)

given_back :
    (before m : Instances) (held : List Text)
    → Taken before held m
    → (j : Text) → unlock_operations held m j ≡ before j
given_back before m held t j = elim (Bool-cases (contains held j)) [
  | inl in_ ↦
      let (i, e, _, free, _, _) = t.idle j in_ in
      ground (arith, unlock_operations_at held m j, t.at j)
  | inr out ↦ ground (arith, unlock_operations_at held m j, t.at j)
]

held_more :
    (before m : Instances) (held : List Text) (id : Text) (i : Instance)
    → Taken before held m
    → m id ≡ some i
    → i.managed ≡ true
    → i.op_held ≡ false
    → i.deployment_locked ≡ false
    → is_moving i.state ≡ false
    → Taken before (id ∷ held) (with_op true id m)
unfolding with_op
held_more before m held id i t e managed free unlocked still = record {
  at = λ j. elim (Option-cases (before j)) [
    | inl n ↦ ground (arith, t.at j)
    | inr (k, n) ↦ ground (arith, t.at j)
  ];
  idle = λ j in_. elim (Bool-cases (contains held j)) [
    | inl there ↦ t.idle j there
    | inr new ↦
        let same : j ≡ id = eq→≡ j id (ground arith) in
        let was : before id ≡ some i = ground (arith, t.at id) in
        (i, cc, managed, free, unlocked, still)
  ];
}

-- The mutex that was just taken is given back with the others.
given_back_one :
    (before m : Instances) (held : List Text) (id : Text) (i : Instance)
    → Taken before held m
    → m id ≡ some i
    → i.op_held ≡ false
    → (j : Text) → unlock_operations (id ∷ held) (with_op true id m) j ≡ before j
unfolding with_op
given_back_one before m held id i t e free j = elim (Bool-cases (j == id)) [
  | inl here ↦
      let same : j ≡ id = eq→≡ j id here in
      ground (arith, unlock_operations_at (id ∷ held) (with_op true id m) j, t.at j)
  | inr other ↦ ground (
    arith,
    unlock_operations_at (id ∷ held) (with_op true id m) j,
    unlock_operations_at held m j,
    given_back before m held t j,
  )
]

abbrev pub Failed : Instances → Instances × Result (List Text) → Type 0
Failed before r = (e : ErrorCode) × (r.1 ≡ err e) × ((j : Text) → r.0 j ≡ before j)

find_lem :
    (id : Text) (m : Instances) (i : Instance)
    → find id m ≡ some i
    → (m id ≡ some i) × (i.managed ≡ true)
unfolding find
find_lem id m i e = elim (Option-cases (m id)) [
  | inl n ↦ absurd (ground arith)
  | inr (k, n) ↦ ground arith
]

take_one_outcome :
    (before m : Instances) (held : List Text) (id : Text)
    → Taken before held m
    → let r = take_one held id m in
      Failed before r ⊎ ((r.1 ≡ ok (id ∷ held)) × Taken before (id ∷ held) r.0)
unfolding take_one
take_one_outcome before m held id t = elim (Option-cases (find id m)) [
  | inl e ↦
      inl (instance_not_found, rw (e, take_one) refl, rw (e, take_one) (given_back before m held t))
  | inr (i, e) ↦
      let (here, managed) = find_lem id m i e in
      elim (Bool-cases i.op_held) [
        | inl busy ↦
            inl (instance_busy, ground arith, λ j. ground (arith, given_back before m held t j))
        | inr free ↦ elim (Bool-cases (i.deployment_locked || is_moving i.state)) [
          | inl moving ↦ inl (
            instance_busy,
            ground arith,
            λ j. ground (arith, given_back_one before m held id i t here free j),
          )
          | inr still ↦
              let eq : take_one held id m ≡ (with_op true id m, ok (id ∷ held)) = ground arith in
              inr (
                ground arith,
                rw eq (
                    held_more before m held id i t here managed free (ground arith) (ground arith)),
              )
        ]
      ]
]

take_all_outcome :
    (before m : Instances) (held ids : List Text)
    → Taken before held m
    → let r = take_all held ids m in
      Failed before r
      ⊎ ((all : List Text) × (r.1 ≡ ok all)
          × Taken before all r.0
          × ((j : Text) → contains all j ≡ (contains held j || contains ids j)))
unfolding take_all
take_all_outcome before m held [] t = inr (held, refl, t, λ j. ground arith)
take_all_outcome before m held (id ∷ ids) t = elim (take_one_outcome before m held id t) [
  | inl (e, f, g) ↦ inl (e, rw (f, take_all) refl, rw (f, take_all) g)
  | inr (o, t') ↦ elim (take_all_outcome before (take_one held id m).0 (id ∷ held) ids t') [
    | inl (e, f, g) ↦ inl (e, rw (o, take_all) f, rw (o, take_all) g)
    | inr (all, f, t2, c) ↦
        inr (all, rw (o, take_all) f, rw (o, take_all) t2, λ j. ground (arith, c j))
  ]
]

contains-insert_text :
    (a : Text) (bs : List Text) (j : Text) → contains (insert_text a bs) j ≡ contains (a ∷ bs) j
unfolding insert_text
contains-insert_text a [] j = refl
contains-insert_text a (b ∷ bs) j = ground (arith, contains-insert_text a bs j)

contains-sort_texts : (ids : List Text) (j : Text) → contains (sort_texts ids) j ≡ contains ids j
unfolding sort_texts
contains-sort_texts [] j = refl
contains-sort_texts (a ∷ ids) j =
    contains-insert_text a (sort_texts ids) j ∙ ground (arith, contains-sort_texts ids j)

locked_at :
    (before m : Instances) (held : List Text)
    → Taken before held m
    → (j : Text)
    → unlock_operations held (set_locked true held m) j
      ≡ (if contains held j then locked_as true (before j) else before j)
locked_at before m held t j = elim (Bool-cases (contains held j)) [
  | inl in_ ↦
      let (i, e, _, free, _, _) = t.idle j in_ in
      ground (
        arith,
        unlock_operations_at held (set_locked true held m) j,
        set_locked_at true held m j,
        t.at j,
      )
  | inr out ↦ ground (
    arith,
    unlock_operations_at held (set_locked true held m) j,
    set_locked_at true held m j,
    t.at j,
  )
]

-- Exactly the instances asked for, all of which were idle, are locked for the deployment.
abbrev pub Reserved : List Text → Instances → Instances × Result (List Text) → Type 0
Reserved ids m r =
    (held : List Text) × (r.1 ≡ ok held)
    × ((j : Text) → contains held j ≡ contains ids j)
    × ((j : Text) → contains ids j ≡ true → IsIdle (m j))
    × ((j : Text) → r.0 j ≡ (if contains ids j then locked_as true (m j) else m j))

-- `ReserveDeployment` is all or nothing. It fails, and every instance is as before; or every
-- instance asked for is managed, nobody held its mutex, it was not locked and not moving, and now
-- exactly these are locked, with their mutexes released.
pub reserve_deployment_outcome :
    (ids : List Text) (m : Instances)
    → let r = reserve_deployment ids m in Failed m r ⊎ Reserved ids m r
unfolding reserve_deployment
reserve_deployment_outcome ids m =
    elim (take_all_outcome m m [] (sort_texts ids) (record { at = λ j. refl; idle = λ j h. cc })) [
      | inl (e, f, g) ↦ inl (e, rw (f, reserve_deployment) refl, rw (f, reserve_deployment) g)
      | inr (held, f, t, c) ↦
          let same : (j : Text) → contains held j ≡ contains ids j =
            λ j. ground (arith, c j, contains-sort_texts ids j) in
          inr (
            held,
            rw (f, reserve_deployment) refl,
            same,
            λ j h. t.idle j (same j ∙ h),
            λ j.
                rw (f, reserve_deployment)
                  (locked_at m (take_all [] (sort_texts ids) m).0 held t j
                    ∙ ap (λ b. if b then locked_as true (m j) else m j) (same j)),
          )
    ]

-- A release undoes the reservation: after both every instance is as before.
pub release-reserve_deployment :
    (ids held : List Text) (m : Instances)
    → (reserve_deployment ids m).1 ≡ ok held
    → (j : Text) → release held (reserve_deployment ids m).0 j ≡ m j
unfolding release
release-reserve_deployment ids held m e j = elim (reserve_deployment_outcome ids m) [
  | inl (f, n, _) ↦ absurd (ground arith)
  | inr (held', o, same, idle, at) ↦
      let these : held ≡ held' = ground arith in
      elim (Bool-cases (contains ids j)) [
        | inl in_ ↦
            let (i, was, _, _, unlocked, _) = idle j in_ in
            ground (arith, set_locked_at false held (reserve_deployment ids m).0 j, at j, same j)
        | inr out ↦
            ground (arith, set_locked_at false held (reserve_deployment ids m).0 j, at j, same j)
      ]
]
