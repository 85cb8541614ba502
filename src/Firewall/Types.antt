-- ===== src/Firewall/Types.antt =====
-- daemon/internal/firewall/types.go and the state of service.go. Ports, revisions and times to
-- live are natural numbers: the code refuses a negative one like 0.
use prism_panel.Common.{ℕ, Bool, List, Option}
use prism_panel.Common.Text.{Text}
use prism_panel.Common.Dict.{Dict}

pub record PortRange : Type 0 where
  pub from : ℕ
  pub to : ℕ

pub record RuleInput : Type 0 where
  pub enabled : Bool
  pub protocols : List Text
  pub ports : List PortRange
  pub sources : List Text
  pub note : Text

pub record Rule : Type 0 where
  pub id : Text
  pub enabled : Bool
  pub protocols : List Text
  pub ports : List PortRange
  pub sources : List Text
  pub note : Text
  pub created_at : ℕ
  pub updated_at : ℕ

pub record SystemAccess : Type 0 where
  pub enabled : Bool
  pub control_sources : List Text
  pub grant_ttl_seconds : ℕ

pub record SystemAccessInput : Type 0 where
  pub enabled : Bool
  pub control_sources : List Text
  pub grant_ttl_seconds : ℕ
  pub include_caller_source : Bool

pub record Grant : Type 0 where
  pub source : Text
  pub session_id : Text
  pub ticket_id : Text
  pub expires_at : ℕ

pub record PersistedState : Type 0 where
  pub schema_version : ℕ
  pub revision : ℕ
  pub rules : List Rule
  pub system : SystemAccess
  pub applied_hash : Text
  pub applied_at : Option ℕ

pub record Service : Type 0 where
  pub port : ℕ
  pub state : PersistedState
  pub grants : Dict Text Grant
  pub supported : Bool
  pub observed_hash : Text
  pub table_present : Bool
  pub drift : Bool
  pub last_error : Text

abbrev pub schema : ℕ
schema = 1

-- `DefaultGrantTTL`, in seconds
abbrev pub default_grant_ttl : ℕ
default_grant_ttl = 600

abbrev pub max_temporary_grants : ℕ
max_temporary_grants = 2048
