-- ===== src/Firewall/Service/Mutations.antt =====
-- The three changes of the rules: what each leaves behind.
use prism_panel.Common.{
  ℕ, suc, ◌≡◌, refl, ◌⊎◌, inl, inr, false, List, [], ◌∷◌, ◌++◌, some, arith, Option-cases,
}
use prism_panel.Common.Text.{Text}
use prism_panel.Common.Platform.{Platform, NetIp}
use prism_panel.Common.Error.{Result, ok, Result-cases, internal, firewall_rule_not_found}
use prism_panel.Firewall.Types.{RuleInput, Rule, SystemAccess, PersistedState, Service}
use prism_panel.Firewall.Rules.{normalize_rule}
use prism_panel.Firewall.Validate.{validate_state}
use prism_panel.Firewall.Service.{
  Answers, prepare_mutation, apply_candidate, with_rules, create_rule, update_rule, delete_rule,
  find_rule, replace_rule, remove_rule,
}
use prism_panel.Firewall.Service.Apply.{
  Same, Rejected, prepare_mutation_outcome, apply_candidate_settles,
}

module _ (os : Platform) (net : NetIp) (digest : Text → Text) where
  -- A change with the revision that the caller expected: the new state has the next revision, the
  -- rules and the system access given here, and is valid.
  abbrev pub Committed :
      ℕ → List Rule → SystemAccess → Service → Service × Result (Unit {0}) → Type 0
  Committed expected rules system s r =
      (r.1 ≡ ok tt)
      × (expected ≡ s.state.revision)
      × (r.0.state.revision ≡ suc s.state.revision)
      × (r.0.state.rules ≡ rules)
      × (r.0.state.system ≡ system)
      × (validate_state os net s.port r.0.state ≡ ok tt)
      × (r.0.port ≡ s.port)
      × (r.0.drift ≡ false)

  validate_stamped :
      (port : ℕ) (p q : PersistedState)
      → q.schema_version ≡ p.schema_version
      → q.rules ≡ p.rules
      → q.system ≡ p.system
      → validate_state os net port q ≡ validate_state os net port p
  unfolding validate_state
  validate_stamped port p q h k l = ground arith

  pub commit :
      (a : Answers) (expected : ℕ) (s s' : Service) (candidate : PersistedState)
      → Same s s'
      → expected ≡ s.state.revision
      → candidate.revision ≡ suc s.state.revision
      → let r = apply_candidate os net digest a candidate s' in
        Rejected s r
        ⊎ (Committed expected candidate.rules candidate.system s r × (r.0.grants ≡ s.grants))
  commit a expected s s' candidate same e next =
      elim (apply_candidate_settles os net digest a candidate s') [
        | inl (c, f, k) ↦ inl (c, f, ground arith)
        | inr (script, o, st, oh, gr, po, dr, le, (v, w, x), z) ↦ inr (
          (
            o,
            e,
            ground arith,
            ground arith,
            ground arith,
            ground (
              arith,
              validate_stamped s.port candidate
                  (apply_candidate os net digest a candidate s').0.state,
            ),
            ground arith,
            dr,
          ),
          ground arith,
        )
      ]

  unfoldable pub prepared : Answers → ℕ → Service → Service
  prepared a expected s = (prepare_mutation os net digest a expected s).0

  -- The rule as it is entered, with its two times.
  abbrev pub timed : Rule → ℕ → ℕ → Rule
  timed rule created updated = record rule { created_at = created; updated_at = updated }

  abbrev pub Created : Answers → ℕ → RuleInput → Service → Service × Result (Unit {0}) → Type 0
  Created a expected input s r =
      (id : Text) × (rule : Rule) × (a.id ≡ some id)
      × (normalize_rule os net s.port id input ≡ ok rule)
      × Committed expected (s.state.rules ++ timed rule a.rule_time a.rule_time ∷ []) s.state.system
          s r

  -- `CreateRule` fails with the rules, the system access, the revision and the grants as before, or
  -- the revision was the expected one, and the new state has the next revision, is valid, and has
  -- the normalised rule at the end of its rules.
  pub create_rule_outcome :
      (a : Answers) (expected : ℕ) (input : RuleInput) (s : Service)
      → let r = create_rule os net digest a expected input s in
        Rejected s r ⊎ (Created a expected input s r × (r.0.grants ≡ s.grants))
  unfolding create_rule prepared
  create_rule_outcome a expected input s =
      let (same, checked) = prepare_mutation_outcome os net digest a expected s in
      elim (Result-cases (prepare_mutation os net digest a expected s).1) [
        | inr (e, p) ↦ inl (e, ground arith, ground arith)
        | inl (_, p) ↦ elim (Option-cases a.id) [
          | inl i ↦ inl (internal, ground arith, ground arith)
          | inr (id, i) ↦ elim (Result-cases (normalize_rule os net s.port id input)) [
            | inr (e, n) ↦ inl (e, ground arith, ground arith)
            | inl (rule, n) ↦
                let candidate =
                  with_rules s.state (s.state.rules ++ timed rule a.rule_time a.rule_time ∷ []) in
                let s' = prepared a expected s in
                let e : create_rule os net digest a expected input s
                    ≡ apply_candidate os net digest a candidate s' =
                  ground arith in
                elim (commit a expected s s' candidate same (ground arith) refl) [
                  | inl rejected ↦ inl (rw e rejected)
                  | inr (committed, grants) ↦ inr ((id, rule, i, n, rw e committed), rw e grants)
                ]
          ]
        ]
      ]

  abbrev pub Updated :
      Answers → Text → ℕ → RuleInput → Service → Service × Result (Unit {0}) → Type 0
  Updated a id expected input s r =
      (old rule : Rule) × (find_rule id s.state.rules ≡ some old)
      × (normalize_rule os net s.port id input ≡ ok rule)
      × Committed expected (replace_rule id (timed rule old.created_at a.rule_time) s.state.rules)
          s.state.system s r

  -- `UpdateRule` fails with the rules, the system access, the revision and the grants as before, or
  -- the revision was the expected one, and the new state has the next revision, is valid, and has
  -- the normalised rule in the place of the first rule with its id, whose time of creation it keeps.
  pub update_rule_outcome :
      (a : Answers) (id : Text) (expected : ℕ) (input : RuleInput) (s : Service)
      → let r = update_rule os net digest a id expected input s in
        Rejected s r ⊎ (Updated a id expected input s r × (r.0.grants ≡ s.grants))
  unfolding update_rule prepared
  update_rule_outcome a id expected input s =
      let (same, checked) = prepare_mutation_outcome os net digest a expected s in
      elim (Result-cases (prepare_mutation os net digest a expected s).1) [
        | inr (e, p) ↦ inl (e, ground arith, ground arith)
        | inl (_, p) ↦ elim (Option-cases (find_rule id s.state.rules)) [
          | inl i ↦ inl (firewall_rule_not_found, ground arith, ground arith)
          | inr (old, i) ↦ elim (Result-cases (normalize_rule os net s.port id input)) [
            | inr (e, n) ↦ inl (e, ground arith, ground arith)
            | inl (rule, n) ↦
                let new = timed rule old.created_at a.rule_time in
                let candidate = with_rules s.state (replace_rule id new s.state.rules) in
                let s' = prepared a expected s in
                let e : update_rule os net digest a id expected input s
                    ≡ apply_candidate os net digest a candidate s' =
                  ground arith in
                elim (commit a expected s s' candidate same (ground arith) refl) [
                  | inl rejected ↦ inl (rw e rejected)
                  | inr (committed, grants) ↦ inr ((old, rule, i, n, rw e committed), rw e grants)
                ]
          ]
        ]
      ]

  abbrev pub Deleted : Text → ℕ → Service → Service × Result (Unit {0}) → Type 0
  Deleted id expected s r =
      (old : Rule) × (find_rule id s.state.rules ≡ some old)
      × Committed expected (remove_rule id s.state.rules) s.state.system s r

  -- `DeleteRule` fails with the rules, the system access, the revision and the grants as before, or
  -- the revision was the expected one, and the new state has the next revision, is valid, and lacks
  -- the first rule with the id.
  pub delete_rule_outcome :
      (a : Answers) (id : Text) (expected : ℕ) (s : Service)
      → let r = delete_rule os net digest a id expected s in
        Rejected s r ⊎ (Deleted id expected s r × (r.0.grants ≡ s.grants))
  unfolding delete_rule prepared
  delete_rule_outcome a id expected s =
      let (same, checked) = prepare_mutation_outcome os net digest a expected s in
      elim (Result-cases (prepare_mutation os net digest a expected s).1) [
        | inr (e, p) ↦ inl (e, ground arith, ground arith)
        | inl (_, p) ↦ elim (Option-cases (find_rule id s.state.rules)) [
          | inl i ↦ inl (firewall_rule_not_found, ground arith, ground arith)
          | inr (old, i) ↦
              let candidate = with_rules s.state (remove_rule id s.state.rules) in
              let s' = prepared a expected s in
              let e : delete_rule os net digest a id expected s
                  ≡ apply_candidate os net digest a candidate s' =
                ground arith in
              elim (commit a expected s s' candidate same (ground arith) refl) [
                | inl rejected ↦ inl (rw e rejected)
                | inr (committed, grants) ↦ inr ((old, i, rw e committed), rw e grants)
              ]
        ]
      ]
