-- ===== src/Common/Error.antt =====
-- daemon/internal/apperr/error.go: an error is its code; the message for the reader and the
-- wrapped cause are left out. The state of a service is threaded by hand, so that a failing call
-- says what it leaves behind.
use mathlib.Core.Path.{◌≡◌, refl}
use mathlib.Core.Bool.{Bool, true, false}
use mathlib.Core.Logic.{◌⊎◌, inl, inr}

pub data ErrorCode : Type 0 where
  invalid_ticket path_escape internal unauthenticated ticket_expired permission_denied : ErrorCode
  firewall_unsupported firewall_drift firewall_revision_conflict firewall_rule_not_found : ErrorCode
  invalid_firewall_rule invalid_firewall_system invalid_firewall_state : ErrorCode
  invalid_firewall_source firewall_lockout_risk firewall_rule_conflict : ErrorCode
  firewall_protected_port firewall_apply_failed firewall_inspect_failed : ErrorCode
  config_write_failed invalid_source_ip too_many_requests : ErrorCode
  instance_not_found instance_busy invalid_state invalid_config port_conflict : ErrorCode
  plugin_operation_failed process_start_failed process_stop_failed : ErrorCode
  invalid_command process_input_failed invalid_request : ErrorCode
  deployment_already_running deployment_not_found rollback_failed : ErrorCode
  server_not_found server_id_conflict server_id_immutable : ErrorCode
  file_size_mismatch file_hash_mismatch file_write_failed file_exists file_changed : ErrorCode
  upload_offset_mismatch file_not_found : ErrorCode

pub data Result {ℓ} (Value : Type ℓ) : Type ℓ where
  err : ErrorCode → Result Value
  ok : Value → Result Value

pub Result-cases {ℓ} :
    {A : Type ℓ} (r : Result A) → ((a : A) × (r ≡ ok a)) ⊎ ((e : ErrorCode) × (r ≡ err e))
Result-cases (ok a) = inl (a, refl)
Result-cases (err e) = inr (e, refl)

-- What a call returns where the call that it builds on fails: the same error.
infixl 5 ◌>>=◌
abbrev pub ◌>>=◌ {ℓ κ} : {V : Type ℓ} {W : Type κ} → Result V → (V → Result W) → Result W
err code >>= next = err code
ok value >>= next = next value

-- `if !passes { return apperr.New(code, …) }`
abbrev pub guard : Bool → ErrorCode → Result (Unit {0})
guard false code = err code
guard true code = ok tt

infixl 5 ◌>>◌
abbrev pub ◌>>◌ {ℓ} : {W : Type ℓ} → Result (Unit {0}) → Result W → Result W
checked >> next = checked >>= λ done. next
