-- ===== src/Supervisor/Registry/Checks.antt =====
-- What the checks of the candidates exclude.
use prism_panel.Common.{
  ℕ, ◌≡◌, ◌≢◌, sym, ap, subst, ◌∙◌, inl, inr, true, false, List, [], ◌∷◌, Option, none, some, ◌==◌,
  text_eq, nat_eq, eq→≡, contains, arith, Bool-cases, Option-cases,
}
use prism_panel.Common.Text.{Text}
use prism_panel.Common.Error.{ok, Result-cases}
use prism_panel.Server.{InstanceConfig}
use prism_panel.Supervisor.Types.{Instance, Instances}
use prism_panel.Supervisor.Registry.{
  check_against, check_candidate, check_candidates, check_pairs, ports_of, validate_server, target,
}
use prism_panel.Supervisor.Registry.Served.{served}

-- A target stands in the list under its id.
target-contains :
    (id : Text) (cs : List InstanceConfig) (c : InstanceConfig)
    → target id cs ≡ some c
    → (id ≡ c.instance_id) × (contains (ports_of cs) c.port ≡ true)
unfolding target
target-contains id [] c e = absurd (ground arith)
target-contains id (d ∷ cs) c e = elim (Option-cases (target id cs)) [
  | inl last ↦ elim (Bool-cases (id == d.instance_id)) [
    | inl this ↦ (eq→≡ id d.instance_id this ∙ ground arith, ground arith)
    | inr other ↦ absurd (ground arith)
  ]
  | inr (b, later) ↦ let (same, in_) = target-contains id cs b later in (ground arith, ground arith)
]

target_here :
    (id : Text) (x : InstanceConfig) (cs : List InstanceConfig) (c : InstanceConfig)
    → target id (x ∷ cs) ≡ some c
    → target id cs ≡ none
    → (id ≡ x.instance_id) × (x ≡ c)
unfolding target
target_here id x cs c e none_later = elim (Bool-cases (id == x.instance_id)) [
  | inl this ↦ (eq→≡ id x.instance_id this, ground arith)
  | inr other ↦ absurd (ground arith)
]

target_later :
    (id : Text) (x : InstanceConfig) (cs : List InstanceConfig) (c b : InstanceConfig)
    → target id (x ∷ cs) ≡ some c
    → target id cs ≡ some b
    → b ≡ c
unfolding target
target_later id x cs c b e later = ground arith

-- A later candidate has another port than the first one.
check_pairs_first :
    (x : InstanceConfig) (cs : List InstanceConfig) (j : Text) (d : InstanceConfig)
    → check_pairs (x ∷ cs) ≡ ok tt
    → target j cs ≡ some d
    → x.port ≢ d.port
unfolding check_pairs
check_pairs_first x cs j d h f same =
    let in_ = (target-contains j cs d f).1 in
    ground (arith, subst (λ p. contains (ports_of cs) p ≡ true) (sym same) in_)

pub check_pairs_lem :
    (cs : List InstanceConfig) (i j : Text) (c d : InstanceConfig)
    → check_pairs cs ≡ ok tt
    → target i cs ≡ some c
    → target j cs ≡ some d
    → c.port ≡ d.port
    → i ≡ j
unfolding check_pairs
check_pairs_lem [] i j c d h e f same = unfold target in absurd (ground arith)
check_pairs_lem (x ∷ cs) i j c d h e f same = elim (Option-cases (target i cs)) [
  | inl n ↦
      let (at_i, c_is) = target_here i x cs c e n in
      elim (Option-cases (target j cs)) [
        | inl k ↦ at_i ∙ sym (target_here j x cs d f k).0
        | inr (b, k) ↦ absurd (
            check_pairs_first x cs j b h k
              (ap (λ y. y.port) c_is ∙ same ∙ ap (λ y. y.port) (sym (target_later j x cs d b f k))))
      ]
  | inr (a, n) ↦
      let a_is = target_later i x cs c a e n in
      elim (Option-cases (target j cs)) [
        | inl k ↦ absurd (
            check_pairs_first x cs i a h n (
              ap (λ y. y.port) (target_here j x cs d f k).1
              ∙ sym same
              ∙ ap (λ y. y.port) (sym a_is)))
        | inr (b, k) ↦
            check_pairs_lem cs i j a b (ground arith) n k
              (ap (λ y. y.port) a_is ∙ same ∙ ap (λ y. y.port) (sym (target_later j x cs d b f k)))
      ]
]

check_against_lem :
    (replacing : Text) (candidate : InstanceConfig) (id : Text) (o : Option Instance)
    (d : InstanceConfig)
    → check_against replacing candidate id o ≡ ok tt
    → served o ≡ some d
    → (d.server_id == replacing) ≡ false
    → candidate.port ≢ d.port
check_against_lem replacing candidate id none d h e other same = ground arith
check_against_lem replacing candidate id (some i) d h e other same = elim (Bool-cases i.managed) [
  | inl on ↦ ground arith
  | inr off ↦ ground arith
]

pub check_candidate_lem :
    (replacing : Text) (candidate : InstanceConfig) (visit : List Text) (m : Instances) (j : Text)
    (d : InstanceConfig)
    → check_candidate replacing candidate visit m ≡ ok tt
    → contains visit j ≡ true
    → served (m j) ≡ some d
    → (d.server_id == replacing) ≡ false
    → candidate.port ≢ d.port
unfolding check_candidate
check_candidate_lem replacing candidate [] m j d h in_ e other = absurd (ground arith)
check_candidate_lem replacing candidate (v ∷ visit) m j d h in_ e other =
    elim (Result-cases (check_against replacing candidate v (m v))) [
      | inr (code, f) ↦ absurd (ground arith)
      | inl (u, f) ↦ elim (Bool-cases (j == v)) [
        | inl same ↦
            check_against_lem replacing candidate v (m v) d f
              (ap (λ x. served (m x)) (sym (eq→≡ j v same)) ∙ e) other
        | inr differ ↦
            check_candidate_lem replacing candidate visit m j d (ground arith) (ground arith) e
              other
      ]
    ]

pub check_candidates_lem :
    (daemon_port : ℕ) (replacing : Text) (cs : List InstanceConfig) (visit : List Text)
    (m : Instances) (i : Text) (c : InstanceConfig)
    → check_candidates daemon_port replacing cs visit m ≡ ok tt
    → target i cs ≡ some c
    → (c.port ≢ daemon_port) × (check_candidate replacing c visit m ≡ ok tt)
unfolding check_candidates
check_candidates_lem daemon_port replacing [] visit m i c h e =
    unfold target in absurd (ground arith)
check_candidates_lem daemon_port replacing (x ∷ cs) visit m i c h e =
    elim (Bool-cases (x.port == daemon_port)) [
      | inl taken ↦ absurd (ground arith)
      | inr differ ↦ elim (Result-cases (check_candidate replacing x visit m)) [
        | inr (code, f) ↦ absurd (ground arith)
        | inl (u, f) ↦ elim (Option-cases (target i cs)) [
          | inl n ↦
              subst (λ y. (y.port ≢ daemon_port) × (check_candidate replacing y visit m ≡ ok tt))
                (target_here i x cs c e n).1 ((λ same. ground arith), f)
          | inr (b, n) ↦
              subst (λ y. (y.port ≢ daemon_port) × (check_candidate replacing y visit m ≡ ok tt))
                (target_later i x cs c b e n)
                (check_candidates_lem daemon_port replacing cs visit m i b (ground arith) n)
        ]
      ]
    ]

pub validate_server_lem :
    (daemon_port : ℕ) (targets : List InstanceConfig) (server_id : Text) (visit : List Text)
    (m : Instances)
    → validate_server daemon_port targets server_id visit m ≡ ok tt
    → (check_candidates daemon_port server_id targets visit m ≡ ok tt)
      × (check_pairs targets ≡ ok tt)
unfolding validate_server
validate_server_lem daemon_port targets server_id visit m h =
    elim (Result-cases (check_candidates daemon_port server_id targets visit m)) [
      | inl (u, e) ↦ (e, ground arith)
      | inr (code, e) ↦ absurd (ground arith)
    ]
