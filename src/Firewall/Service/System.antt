-- ===== src/Firewall/Service/System.antt =====
-- The change of the system access: what it leaves behind.
use prism_panel.Common.{
  ℕ, suc, ◌≡◌, refl, ◌⊎◌, inl, inr, true, false, not, ◌&&◌, ◌||◌, List, [], ◌∷◌, ◌++◌, arith,
  Bool-cases, ltb, ◌==◌, nat_eq, text_eq, if◌then◌else◌,
}
use prism_panel.Common.Text.{Text, trim_space}
use prism_panel.Common.Platform.{Platform, NetIp}
use prism_panel.Common.Error.{
  Result, ok, Result-cases, invalid_firewall_system, firewall_lockout_risk,
}
use prism_panel.Firewall.Types.{SystemAccessInput, PersistedState, Service}
use prism_panel.Firewall.Rules.{is_nil, normalize_sources}
use prism_panel.Firewall.Service.{Answers, prepare_mutation, or_default_ttl, configure_system}
use prism_panel.Firewall.Service.Apply.{Rejected, prepare_mutation_outcome}
use prism_panel.Firewall.Service.Mutations.{Committed, commit, prepared}

-- The sources that `ConfigureSystem` normalises.
abbrev pub asked_controls : Text → SystemAccessInput → List Text
asked_controls caller input =
    if input.include_caller_source && not (trim_space caller == [])
    then input.control_sources ++ caller ∷ []
    else input.control_sources

module _ (os : Platform) (net : NetIp) (digest : Text → Text) where
  abbrev pub Configured :
      Text → ℕ → SystemAccessInput → Service → Service × Result (Unit {0}) → Type 0
  Configured caller expected input s r =
      (controls : List Text) × (normalize_sources net (asked_controls caller input) false
        ≡ ok controls)
      × ((input.enabled ≡ true) → is_nil controls ≡ false)
      × Committed os net digest expected s.state.rules
          (record {
            enabled = input.enabled;
            control_sources = controls;
            grant_ttl_seconds = or_default_ttl input.grant_ttl_seconds;
          })
          s r
      × (r.0.grants ≡ (if input.enabled then s.grants else []))

  -- `ConfigureSystem` fails with the rules, the system access, the revision and the grants as
  -- before, or the revision was the expected one, and the new state has the next revision, is
  -- valid, and has the normalised control sources, of which there is one at least if the access is
  -- enabled. Where it is disabled all grants are dropped.
  pub configure_system_outcome :
      (a : Answers) (caller : Text) (expected : ℕ) (input : SystemAccessInput) (s : Service)
      → let r = configure_system os net digest a caller expected input s in
        Rejected s r ⊎ Configured caller expected input s r
  unfolding configure_system prepared
  configure_system_outcome a caller expected input s =
      let (same, checked) = prepare_mutation_outcome os net digest a expected s in
      elim (Result-cases (prepare_mutation os net digest a expected s).1) [
        | inr (e, p) ↦ inl (e, ground arith, ground arith)
        | inl (_, p) ↦
            elim (Result-cases (normalize_sources net (asked_controls caller input) false)) [
              | inr (e, n) ↦ inl (e, ground arith, ground arith)
              | inl (controls, n) ↦
                  let ttl = or_default_ttl input.grant_ttl_seconds in
                  elim (Bool-cases (ltb ttl 60 || ltb 3600 ttl)) [
                    | inl bad ↦ inl (invalid_firewall_system, ground arith, ground arith)
                    | inr good ↦ elim (Bool-cases (input.enabled && is_nil controls)) [
                      | inl locked ↦ inl (firewall_lockout_risk, ground arith, ground arith)
                      | inr open_ ↦
                          let candidate : PersistedState = record s.state {
                            revision = suc s.state.revision;
                            system = record {
                              enabled = input.enabled;
                              control_sources = controls;
                              grant_ttl_seconds = ttl;
                            };
                          } in
                          elim (commit os net digest a expected s
                            (prepared os net digest a expected s) candidate same (ground arith)
                            refl) [
                              | inl (e, f, k) ↦ inl (e, ground arith, ground arith)
                              | inr (committed, grants) ↦
                                  inr (controls, n, ground arith, ground arith, ground arith)
                            ]
                    ]
                  ]
            ]
      ]
