-- ===== src/Deployment/Manager/Table.antt =====
-- The two maps of the manager: its tasks, and the one that a server has under way.
use prism_panel.Common.{
  ◌≡◌, ◌≢◌, sym, ap, subst, ◌∙◌, inl, inr, true, false, none, some, ◌==◌, text_eq, eq→≡, eq_refl,
  arith, Bool-cases,
}
use prism_panel.Common.Text.{Text}
use prism_panel.Common.Dict.{Dict, lookup, insert, delete, lookup-insert, lookup-delete}
use prism_panel.Deployment.Task.{Task, is_finished}
use prism_panel.Deployment.Task.Sound.{IsSound}

-- The task that a server has under way.
abbrev pub IsUnderWay : Dict Text Task → Text → Text → Type 0
IsUnderWay tasks s id =
    (t : Task) × (lookup id tasks ≡ some t) × (t.server_id ≡ s) × (is_finished t.status ≡ false)

-- Tasks and active tasks: every task is sound, an unfinished one is the active one of its server, and
-- an active one is an unfinished task of the server.
pub record IsTable (tasks : Dict Text Task) (active : Dict Text Text) : Type 0 where
  pub sound : (id : Text) (t : Task) → lookup id tasks ≡ some t → IsSound t
  pub busy :
      (id : Text) (t : Task)
      → lookup id tasks ≡ some t
      → is_finished t.status ≡ false
      → lookup t.server_id active ≡ some id
  pub own : (s id : Text) → lookup s active ≡ some id → IsUnderWay tasks s id

pub some_inj : {x y : Task} → some x ≡ some y → x ≡ y
some_inj h = ground arith

-- A key looked up after a change is the changed one, or has what it had.
at_key :
    (j id : Text) (u x : Task) (tasks : Dict Text Task)
    → j == id ≡ true
    → lookup j (insert id u tasks) ≡ some x
    → x ≡ u
at_key j id u x tasks this f = ground (arith, lookup-insert j id u tasks)

elsewhere :
    (j id : Text) (u : Task) (tasks : Dict Text Task)
    → j == id ≡ false
    → lookup j (insert id u tasks) ≡ lookup j tasks
elsewhere j id u tasks other = ground (arith, lookup-insert j id u tasks)

here :
    (j id : Text) (u : Task) (tasks : Dict Text Task)
    → j == id ≡ true
    → lookup j (insert id u tasks) ≡ some u
here j id u tasks this = ground (arith, lookup-insert j id u tasks)

insert-IsSound :
    (tasks : Dict Text Task) (active : Dict Text Text) (id : Text) (u : Task)
    → IsSound u
    → IsTable tasks active
    → (j : Text) (x : Task) → lookup j (insert id u tasks) ≡ some x
    → IsSound x
insert-IsSound tasks active id u v w j x f = elim (Bool-cases (j == id)) [
  | inl this ↦ subst IsSound (sym (at_key j id u x tasks this f)) v
  | inr other ↦ w.sound j x (sym (elsewhere j id u tasks other) ∙ f)
]

-- A change to one task that keeps its server, and that keeps it finished or unfinished.
pub replaced-IsTable :
    (tasks : Dict Text Task) (active : Dict Text Text) (id : Text) (t u : Task)
    → lookup id tasks ≡ some t
    → u.server_id ≡ t.server_id
    → is_finished u.status ≡ is_finished t.status
    → IsSound u
    → IsTable tasks active
    → IsTable (insert id u tasks) active
replaced-IsTable tasks active id t u e same still v w = record {
  sound = insert-IsSound tasks active id u v w;
  busy = λ j x f n. elim (Bool-cases (j == id)) [
    | inl this ↦
        let g : x ≡ u = at_key j id u x tasks this f in
        let k : j ≡ id = eq→≡ j id this in
        let a : lookup t.server_id active ≡ some id =
          w.busy id t e (sym still ∙ sym (ap (λ (y : Task). is_finished y.status) g) ∙ n) in
        ap (λ (y : Task). lookup y.server_id active) g
        ∙ ap (λ (y : Text). lookup y active) same
        ∙ a
        ∙ ap (λ (y : Text). some y) (sym k)
    | inr other ↦ w.busy j x (sym (elsewhere j id u tasks other) ∙ f) n
  ];
  own = λ s j f.
      let (x, g, h, n) = w.own s j f in
      elim (Bool-cases (j == id)) [
        | inl this ↦
            let k : j ≡ id = eq→≡ j id this in
            let y : x ≡ t = some_inj (sym g ∙ ap (λ (i : Text). lookup i tasks) k ∙ e) in
            (
              u,
              here j id u tasks this,
              same ∙ sym (ap (λ (z : Task). z.server_id) y) ∙ h,
              still ∙ sym (ap (λ (z : Task). is_finished z.status) y) ∙ n,
            )
        | inr other ↦ (x, elsewhere j id u tasks other ∙ g, h, n)
      ];
}

still_active :
    (s server_id j : Text) (active : Dict Text Text)
    → lookup s (delete server_id active) ≡ some j
    → lookup s active ≡ some j
still_active s server_id j active f = ground (arith, lookup-delete s server_id active)

given_up :
    (s server_id j : Text) (active : Dict Text Text)
    → server_id ≡ s
    → lookup s (delete server_id active) ≢ some j
given_up s server_id j active z f =
    ground (arith, lookup-delete s server_id active, eq_refl s, z, f)

-- A task that finishes gives up its server.
pub finished-IsTable :
    (tasks : Dict Text Task) (active : Dict Text Text) (id : Text) (t u : Task)
    → lookup id tasks ≡ some t
    → is_finished t.status ≡ false
    → is_finished u.status ≡ true
    → IsSound u
    → IsTable tasks active
    → IsTable (insert id u tasks) (delete t.server_id active)
finished-IsTable tasks active id t u e open_ over v w = record {
  sound = insert-IsSound tasks active id u v w;
  busy = λ j x f n. elim (Bool-cases (j == id)) [
    | inl this ↦
        let g : is_finished x.status ≡ true =
          ap (λ (y : Task). is_finished y.status) (at_key j id u x tasks this f) ∙ over in
        absurd (ground (arith, g, n))
    | inr other ↦
        let g : lookup j tasks ≡ some x = sym (elsewhere j id u tasks other) ∙ f in
        let a : lookup x.server_id active ≡ some j = w.busy j x g n in
        let b : lookup t.server_id active ≡ some id = w.busy id t e open_ in
        elim (Bool-cases (x.server_id == t.server_id)) [
          | inl p ↦
              let c : some j ≡ some id =
                sym a ∙ ap (λ (y : Text). lookup y active) (eq→≡ _ _ p) ∙ b in
              absurd (ground (arith, c, other, eq_refl id))
          | inr p ↦ ground (arith, lookup-delete x.server_id t.server_id active)
        ]
  ];
  own = λ s j f.
      let (x, g, h, n) = w.own s j (still_active s t.server_id j active f) in
      elim (Bool-cases (j == id)) [
        | inl this ↦
            let k : j ≡ id = eq→≡ j id this in
            let y : x ≡ t = some_inj (sym g ∙ ap (λ (i : Text). lookup i tasks) k ∙ e) in
            let z : t.server_id ≡ s = sym (ap (λ (q : Task). q.server_id) y) ∙ h in
            absurd (given_up s t.server_id j active z f)
        | inr other ↦ (x, elsewhere j id u tasks other ∙ g, h, n)
      ];
}

taken : (s id : Text) (active : Dict Text Text) → lookup s (insert s id active) ≡ some id
taken s id active = ground (arith, lookup-insert s s id active, eq_refl s)

-- A new task of a server without one.
pub started-IsTable :
    (tasks : Dict Text Task) (active : Dict Text Text) (id : Text) (u : Task)
    → lookup id tasks ≡ none
    → lookup u.server_id active ≡ none
    → is_finished u.status ≡ false
    → IsSound u
    → IsTable tasks active
    → IsTable (insert id u tasks) (insert u.server_id id active)
started-IsTable tasks active id u e free open_ v w = record {
  sound = insert-IsSound tasks active id u v w;
  busy = λ j x f n. elim (Bool-cases (j == id)) [
    | inl this ↦
        let g : x ≡ u = at_key j id u x tasks this f in
        let k : j ≡ id = eq→≡ j id this in
        ap (λ (y : Task). lookup y.server_id (insert u.server_id id active)) g
        ∙ taken u.server_id id active
        ∙ ap (λ (y : Text). some y) (sym k)
    | inr other ↦
        let g : lookup j tasks ≡ some x = sym (elsewhere j id u tasks other) ∙ f in
        let a : lookup x.server_id active ≡ some j = w.busy j x g n in
        elim (Bool-cases (x.server_id == u.server_id)) [
          | inl p ↦
              let c : lookup u.server_id active ≡ some j =
                ap (λ (y : Text). lookup y active) (sym (eq→≡ _ _ p)) ∙ a in
              absurd (ground (arith, c, free))
          | inr p ↦ ground (arith, lookup-insert x.server_id u.server_id id active)
        ]
  ];
  own = λ s j f. elim (Bool-cases (s == u.server_id)) [
    | inl p ↦
        let k : id ≡ j = ground (arith, lookup-insert s u.server_id id active) in
        (
          u,
          subst (λ (y : Text). lookup y (insert id u tasks) ≡ some u) k
              (here id id u tasks (eq_refl id)),
          sym (eq→≡ _ _ p),
          open_,
        )
    | inr p ↦
        let (x, g, h, n) = w.own s j (ground (arith, lookup-insert s u.server_id id active)) in
        elim (Bool-cases (j == id)) [
          | inl this ↦
              let c : lookup id tasks ≡ some x =
                ap (λ (y : Text). lookup y tasks) (sym (eq→≡ j id this)) ∙ g in
              absurd (ground (arith, c, e))
          | inr other ↦ (x, elsewhere j id u tasks other ∙ g, h, n)
        ]
  ];
}
