-- ===== src/Firewall/Service.antt =====
-- daemon/internal/firewall/service.go: the operations of the service, each under its lock. What the
-- backend, the disk, the clock and the source of randomness answer to one call is an argument, and
-- `digest` is the hash of a normalised table. The views that the calls return are left out.
pub mod Apply
pub mod Mutations
pub mod System
use prism_panel.Common.{
  ℕ, suc, ◌+◌, ◌*◌, Bool, true, false, ◌&&◌, ◌||◌, not, List, [], ◌∷◌, ◌++◌, Option, none, some,
  ltb, leb, if◌then◌else◌, ◌==◌, nat_eq, text_eq, length,
}
use prism_panel.Common.Text.{Text, trim_space}
use prism_panel.Common.Dict.{Dict, lookup, insert, delete}
use prism_panel.Common.Platform.{Platform, NetIp, Addr}
use prism_panel.Common.Error.{
  ErrorCode, Result, ok, err, internal, firewall_unsupported, firewall_drift,
  firewall_revision_conflict, firewall_rule_not_found, invalid_firewall_rule,
  invalid_firewall_system, firewall_lockout_risk, firewall_apply_failed, firewall_inspect_failed,
  config_write_failed, invalid_source_ip, too_many_requests,
}
use prism_panel.Firewall.Types.{
  RuleInput, Rule, SystemAccess, SystemAccessInput, Grant, PersistedState, Service,
  default_grant_ttl, max_temporary_grants,
}
use prism_panel.Firewall.Rules.{is_nil, normalize_sources, normalize_rule}
use prism_panel.Firewall.Validate.{validate_state}
use prism_panel.Firewall.Render.{Line, render_script, state_active}

-- What the backend sees of the table.
pub data Look : Type 0 where
  failed : Text → Look
  absent : Look
  present : Text → Look

-- The answers to one call; `none` is success, `some` an error with its text.
pub record Answers : Type 0 where
  pub supported : Bool
  pub first_look : Look
  pub apply : List Line → Option Text
  pub second_look : Look
  pub save : PersistedState → Option Text
  pub add_grant : Addr → ℕ → Option Text
  pub remove_grant : Addr → Option Text
  pub id : Option Text
  pub rule_time : ℕ
  pub render_time : ℕ
  pub applied_time : ℕ
  pub now : ℕ

abbrev pub M : Type 0 → Type 0
M A = Service → Service × Result A

infixl 5 ◌>>=◌ ◌>>◌
abbrev pub ◌>>=◌ : {A B : Type 0} → M A → (A → M B) → M B
◌>>=◌ m f s = let (s', r) = m s in elim r [ ok a ↦ f a s' | err e ↦ (s', err e) ]

abbrev pub ◌>>◌ : {B : Type 0} → M (Unit {0}) → M B → M B
m >> k = m >>= λ _. k

abbrev pub get : M Service
get s = (s, ok s)

abbrev pub lift : {A : Type 0} → Result A → M A
lift r s = (s, r)

abbrev pub require : Bool → ErrorCode → M (Unit {0})
require true e s = (s, ok tt)
require false e s = (s, err e)

-- `s.lastError = err.Error()` before the error is returned.
abbrev pub attempt : Option Text → ErrorCode → M (Unit {0})
attempt none e s = (s, ok tt)
attempt (some message) e s = (record s { last_error = message }, err e)

abbrev pub random_id : Option Text → M Text
random_id none s = (s, err internal)
random_id (some id) s = (s, ok id)

unfoldable pub prepare_backend : Answers → M (Unit {0})
prepare_backend a s =
    (record s { supported = a.supported }, if a.supported then ok tt else err firewall_unsupported)

unfoldable pub find_rule : Text → List Rule → Option Rule
find_rule id [] = none
find_rule id (r ∷ rs) = let rest = find_rule id rs in if r.id == id then some r else rest

abbrev pub found_rule : Option Rule → M Rule
found_rule none s = (s, err firewall_rule_not_found)
found_rule (some r) s = (s, ok r)

-- The rule at the first index with the id, exchanged.
unfoldable pub replace_rule : Text → Rule → List Rule → List Rule
replace_rule id new [] = []
replace_rule id new (r ∷ rs) =
    let rest = replace_rule id new rs in if r.id == id then new ∷ rs else r ∷ rest

-- The rule at the first index with the id, taken out.
unfoldable pub remove_rule : Text → List Rule → List Rule
remove_rule id [] = []
remove_rule id (r ∷ rs) = let rest = remove_rule id rs in if r.id == id then rs else r ∷ rest

abbrev pub stamped : PersistedState → Text → ℕ → PersistedState
stamped candidate hash now = record candidate { applied_hash = hash; applied_at = some now }

abbrev pub or_invalid : {A : Type 0} → Result A → Result A
or_invalid (ok x) = ok x
or_invalid (err e) = err invalid_firewall_rule

abbrev pub with_rules : PersistedState → List Rule → PersistedState
with_rules p rules = record p { revision = suc p.revision; rules = rules }

abbrev pub or_default_ttl : ℕ → ℕ
or_default_ttl ttl = if ttl == 0 then default_grant_ttl else ttl

module _ (os : Platform) (net : NetIp) (digest : Text → Text) where
  unfoldable pub refresh_observed : Look → Service → Service
  refresh_observed (failed message) s = record s { last_error = message }
  refresh_observed absent s = record s {
    last_error = [];
    table_present = false;
    observed_hash = [];
    drift = state_active s.state;
  }
  refresh_observed (present contents) s = record s {
    last_error = [];
    table_present = true;
    observed_hash = digest contents;
    drift = (s.state.applied_hash == []) || not (s.state.applied_hash == digest contents);
  }

  unfoldable pub prepare_mutation : Answers → ℕ → M (Unit {0})
  prepare_mutation a expected = do
    prepare_backend a
    λ s. (refresh_observed a.first_look s, ok tt)
    s ← get
    require (not s.drift) firewall_drift
    require (expected == s.state.revision) firewall_revision_conflict

  abbrev pub looked : Look → M (Bool × Text)
  looked (failed message) s = (record s { last_error = message }, err firewall_inspect_failed)
  looked absent s = (s, ok (false, []))
  looked (present contents) s = (s, ok (true, digest contents))

  unfoldable pub apply_candidate : Answers → PersistedState → M (Unit {0})
  apply_candidate a candidate = do
    s ← get
    lift (validate_state os net s.port candidate)
    script ←
        lift
          (or_invalid (render_script net candidate s.grants s.port a.render_time s.table_present))
    attempt (a.apply script) firewall_apply_failed
    seen ← looked a.second_look
    attempt (a.save (stamped candidate seen.1 a.applied_time)) config_write_failed
    λ s'. (
      record s' {
        state = stamped candidate seen.1 a.applied_time;
        table_present = seen.0;
        observed_hash = seen.1;
        drift = false;
        last_error = [];
      },
      ok tt,
    )

  unfoldable pub create_rule : Answers → ℕ → RuleInput → M (Unit {0})
  create_rule a expected input = do
    prepare_mutation a expected
    id ← random_id a.id
    s ← get
    rule ← lift (normalize_rule os net s.port id input)
    let new = record rule { created_at = a.rule_time; updated_at = a.rule_time }
    apply_candidate a (with_rules s.state (s.state.rules ++ new ∷ []))

  unfoldable pub update_rule : Answers → Text → ℕ → RuleInput → M (Unit {0})
  update_rule a rule_id expected input = do
    prepare_mutation a expected
    s ← get
    old ← found_rule (find_rule rule_id s.state.rules)
    rule ← lift (normalize_rule os net s.port rule_id input)
    let new = record rule { created_at = old.created_at; updated_at = a.rule_time }
    apply_candidate a (with_rules s.state (replace_rule rule_id new s.state.rules))

  unfoldable pub delete_rule : Answers → Text → ℕ → M (Unit {0})
  delete_rule a rule_id expected = do
    prepare_mutation a expected
    s ← get
    _ ← found_rule (find_rule rule_id s.state.rules)
    apply_candidate a (with_rules s.state (remove_rule rule_id s.state.rules))

  unfoldable pub configure_system : Answers → Text → ℕ → SystemAccessInput → M (Unit {0})
  configure_system a caller expected input = do
    prepare_mutation a expected
    let given = input.control_sources
    let controls =
        if input.include_caller_source && not (trim_space caller == [])
        then given ++ caller ∷ []
        else given
    normalized ← lift (normalize_sources net controls false)
    let ttl = or_default_ttl input.grant_ttl_seconds
    require (not (ltb ttl 60 || ltb 3600 ttl)) invalid_firewall_system
    require (not (input.enabled && is_nil normalized)) firewall_lockout_risk
    s ← get
    apply_candidate a (record s.state {
      revision = suc s.state.revision;
      system = record {
        enabled = input.enabled;
        control_sources = normalized;
        grant_ttl_seconds = ttl;
      };
    })
    λ s'. (record s' { grants = if input.enabled then s'.grants else [] }, ok tt)
