-- ===== src/Schedule/Task/Targets.antt =====
-- What the targets of a task have passed.
use prism_panel.Common.{
  suc, ◌≤◌, ◌≡◌, subst, inl, inr, true, false, ◌&&◌, ◌||◌, List, [], ◌∷◌, All, Option, some, ltb,
  ◌==◌, nat_eq, text_eq, contains, length, arith, Bool-cases, Option-cases,
}
use prism_panel.Common.Text.{Text}
use prism_panel.Common.Error.{Result, ok, Result-cases}
use prism_panel.Schedule.Task.{
  Target, is_set, trimmed, target_key, named, node_name_of, collect_targets, normalize_targets,
}

-- The keys of the targets differ, from each other and from those that were seen.
abbrev pub Apart : List Text → List Target → Type 0
Apart seen [] = Unit
Apart seen (t ∷ ts) = (contains seen (target_key t) ≡ false) × Apart (target_key t ∷ seen) ts

-- A target that names a node of the store.
abbrev pub IsTarget : (Text → Result (Option Text)) → Target → Type 0
IsTarget get_node t =
    (get_node t.node_id ≡ ok (some t.node_name))
    × (is_set t.server_id ≡ true)
    × (is_set t.instance_id ≡ true)
    × (is_set t.instance_name ≡ true)

module _ (get_node : Text → Result (Option Text)) where
  node_name_of_lem :
      (id name : Text) → node_name_of get_node id ≡ ok name → get_node id ≡ ok (some name)
  unfolding node_name_of
  node_name_of_lem id name h = elim (Result-cases (get_node id)) [
    | inr (e, g) ↦ absurd (ground arith)
    | inl (found, g) ↦ elim (Option-cases found) [
      | inl n ↦ absurd (ground arith)
      | inr (x, n) ↦ ground arith
    ]
  ]

  named-IsTarget :
      (t : Target) (name : Text)
      → (is_set t.server_id ≡ true)
      → (is_set t.instance_id ≡ true)
      → get_node t.node_id ≡ ok (some name)
      → IsTarget get_node (named name t)
  named-IsTarget t name s i g = (g, s, i, ground arith)

  collect_targets_lem :
      (seen : List Text) (ts us : List Target)
      → collect_targets get_node seen ts ≡ ok us
      → Apart seen us × All (IsTarget get_node) us × (length us ≤ length ts)
  unfolding collect_targets
  collect_targets_lem seen [] us h =
      let e : [] ≡ us = ground arith in
      subst (λ vs. Apart seen vs × All (IsTarget get_node) vs × (length vs ≤ 0)) e
        (tt, tt, omega arith)
  collect_targets_lem seen (t ∷ ts) us h =
      let item = trimmed t in
      elim (Bool-cases (is_set item.node_id && is_set item.server_id && is_set item.instance_id)) [
        | inr bad ↦ absurd (ground arith)
        | inl complete ↦ elim (Bool-cases (contains seen (target_key item))) [
          | inl known ↦
              let (a, b, c) = collect_targets_lem seen ts us (ground arith) in
              (a, b, omega (arith, c))
          | inr new ↦ elim (Result-cases (node_name_of get_node item.node_id)) [
            | inr (e, n) ↦ absurd (ground arith)
            | inl (name, n) ↦
                elim (Result-cases (collect_targets get_node (target_key item ∷ seen) ts)) [
                  | inr (e, r) ↦ absurd (ground arith)
                  | inl (rest, r) ↦
                      let (a, b, c) = collect_targets_lem (target_key item ∷ seen) ts rest r in
                      let e : named name item ∷ rest ≡ us = ground arith in
                      subst
                        (λ vs.
                          Apart seen vs
                          × All (IsTarget get_node) vs
                          × (length vs ≤ suc (length ts)))
                        e
                        (
                          (new, a),
                          (
                            named-IsTarget item name (ground arith) (ground arith)
                                (node_name_of_lem item.node_id name n),
                            b,
                          ),
                          omega (arith, c),
                        )
                ]
          ]
        ]
      ]

  collect_targets_some :
      (t : Target) (ts us : List Target)
      → collect_targets get_node [] (t ∷ ts) ≡ ok us
      → 1 ≤ length us
  unfolding collect_targets
  collect_targets_some t ts us h =
      let item = trimmed t in
      elim (Bool-cases (is_set item.node_id && is_set item.server_id && is_set item.instance_id)) [
        | inr bad ↦ absurd (ground arith)
        | inl complete ↦ elim (Result-cases (node_name_of get_node item.node_id)) [
          | inr (e, n) ↦ absurd (ground arith)
          | inl (name, n) ↦
              elim (Result-cases (collect_targets get_node (target_key item ∷ []) ts)) [
                | inr (e, r) ↦ absurd (ground arith)
                | inl (rest, r) ↦
                    let e : named name item ∷ rest ≡ us = ground arith in
                    subst (λ vs. 1 ≤ length vs) e (omega arith)
              ]
        ]
      ]

  -- Targets that `normalizeTargets` returns.
  abbrev pub AreTargets : List Target → Type 0
  AreTargets ts = Apart [] ts × All (IsTarget get_node) ts × (1 ≤ length ts) × (length ts ≤ 200)

  pub normalize_targets-AreTargets :
      (ts us : List Target) → normalize_targets get_node ts ≡ ok us → AreTargets us
  unfolding normalize_targets
  normalize_targets-AreTargets [] us h = absurd (ground arith)
  normalize_targets-AreTargets (t ∷ ts) us h =
      elim (Bool-cases (length (t ∷ ts) == 0 || ltb 200 (length (t ∷ ts)))) [
        | inl bad ↦ absurd (ground arith)
        | inr good ↦
            let c : collect_targets get_node [] (t ∷ ts) ≡ ok us = ground arith in
            let (a, v, l) = collect_targets_lem [] (t ∷ ts) us c in
            (a, v, collect_targets_some t ts us c, ground (arith, l))
      ]
