-- ===== src/Ticket/Model.antt =====
-- daemon/internal/ticket/manager.go: the types, the two maps and what leaves them. The maps of the
-- manager hold pointers to shared tickets, so a ticket stands in a store under its address. The
-- clock and the random values are arguments; times and durations are in nanoseconds.
use prism_panel.Common.{
  ℕ, Bool, false, List, [], ◌∷◌, Option, none, some, ltb, if◌then◌else◌, ◌==◌, nat_eq, text_eq,
}
use prism_panel.Common.Int.{ℤ}
use prism_panel.Common.Text.{Text, trim_space}
use prism_panel.Common.Dict.{Dict, lookup, delete, keys}

pub record Ticket : Type 0 where
  pub id : Text
  pub token : Text
  pub scope : Text
  pub instance_id : Text
  pub expires_at : ℕ
  pub max_uses : ℕ
  pub sha256 : Text
  pub expected_version : Text
  pub max_bytes : ℤ
  pub resource_type : Text
  pub resource_id : Text
  pub path : Text
  pub paths : List Text
  pub path_prefix : Bool
  pub method : Text
  pub operation_id : Text
  pub allow_overwrite : Bool
  pub allow_recursive : Bool
  pub client_ip : Text
  pub session_id : Text
  pub uses : ℕ

pub record TicketOptions : Type 0 where
  pub client_ip : Text
  pub session_id : Text

pub record RestrictedOptions : Type 0 where
  pub scope : Text
  pub resource_type : Text
  pub resource_id : Text
  pub path : Text
  pub paths : List Text
  pub path_prefix : Bool
  pub method : Text
  pub operation_id : Text
  pub allow_overwrite : Bool
  pub allow_recursive : Bool
  pub max_bytes : ℤ
  pub sha256 : Text
  pub expected_version : Text
  pub ttl : ℤ
  pub max_uses : ℤ
  pub client_ip : Text
  pub session_id : Text

-- What the machine supplies to one call of `CreateWithOptions`: two random values, `none` where
-- the source of randomness fails, and two readings of the clock.
pub record Draw : Type 0 where
  pub id : Option Text
  pub token : Option Text
  pub created : ℕ
  pub swept : ℕ

-- `store p` is the ticket at address p; the addresses below `next` are in use.
pub record Manager : Type 0 where
  pub store : ℕ → Ticket
  pub next : ℕ
  pub by_token : Dict Text ℕ
  pub by_id : Dict Text ℕ

-- 15 minutes
abbrev pub max_ttl : ℕ
max_ttl = 900_000_000_000

abbrev pub blank : Ticket
blank = record {
  id = [];
  token = [];
  scope = [];
  instance_id = [];
  expires_at = 0;
  max_uses = 0;
  sha256 = [];
  expected_version = [];
  max_bytes = ℤ.pos 0;
  resource_type = [];
  resource_id = [];
  path = [];
  paths = [];
  path_prefix = false;
  method = [];
  operation_id = [];
  allow_overwrite = false;
  allow_recursive = false;
  client_ip = [];
  session_id = [];
  uses = 0;
}

unfoldable pub new_manager : Manager
new_manager = record { store = λ _. blank; next = 0; by_token = []; by_id = [] }

-- A write through the address p.
unfoldable pub write : (ℕ → Ticket) → ℕ → Ticket → ℕ → Ticket
write store p t q = if q == p then t else store q

abbrev pub forget : Manager → Text → Text → Manager
forget m token id = record m { by_token = delete token m.by_token; by_id = delete id m.by_id }

-- One round of `for token, item := range m.byToken`: a ticket that fails the test goes.
unfoldable pub sweep_one : (Ticket → Bool) → Text → Manager → Manager
sweep_one doomed token m = elim (lookup token m.by_token) [
  | none ↦ m
  | some p ↦ if doomed (m.store p) then forget m token (m.store p).id else m
]

unfoldable pub sweep_all : (Ticket → Bool) → List Text → Manager → Manager
sweep_all doomed [] m = m
sweep_all doomed (token ∷ tokens) m = sweep_all doomed tokens (sweep_one doomed token m)

unfoldable pub sweep : (Ticket → Bool) → Manager → Manager
sweep doomed m = sweep_all doomed (keys m.by_token) m

-- `removeExpiredLocked`
unfoldable pub remove_expired : ℕ → Manager → Manager
remove_expired now m = sweep (λ t. ltb t.expires_at now) m

unfoldable pub revoke_session : Manager → Text → Manager
revoke_session m session_id =
    let session = trim_space session_id in
    if session == [] then m else sweep (λ t. t.session_id == session) m

unfoldable pub revoke : Manager → Text → Manager
revoke m ticket_id = elim (lookup ticket_id m.by_id) [
  | none ↦ m
  | some p ↦ forget m (m.store p).token (m.store p).id
]
