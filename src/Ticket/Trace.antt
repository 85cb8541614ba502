-- ===== src/Ticket/Trace.antt =====
-- Histories of the ticket manager. The calls that take the lock twice are two calls here, so that
-- others may come between.
use prism_panel.Common.{
  ℕ, ◌+◌, ◌≢◌, List, [], ◌∷◌, Option, none, some, if◌then◌else◌, ◌==◌, text_eq, Option-cases, inl,
  inr,
}
use prism_panel.Common.Int.{ℤ}
use prism_panel.Common.Text.{Text}
use prism_panel.Common.Error.{Result, ok, err}
use prism_panel.Common.Platform.{Platform}
use prism_panel.Ticket.Model.{
  Ticket, TicketOptions, RestrictedOptions, Draw, Manager, revoke, revoke_session,
}
use prism_panel.Ticket.Consume.{consume_from, consume_restricted_from}
use prism_panel.Ticket.Create.{restrict, attach_upload, create_with_options}
use prism_panel.Ticket.Invariant.{Wf, revoke-Wf, revoke_session-Wf}
use prism_panel.Ticket.Preserve.{
  IsFresh, consume_from-Wf, consume_restricted_from-Wf, create_with_options-Wf, restrict-Wf,
  attach_upload-Wf,
}

pub data Call : Type 0 where
  creates : Text → Text → ℤ → ℤ → TicketOptions → Draw → Call
  restricts : Text → RestrictedOptions → Text → List Text → Call
  attaches : Ticket → Text → ℤ → Call
  consumes : Text → Text → Text → Text → ℕ → Call
  consumes_restricted : Text → Text → Text → Text → Text → Text → Text → ℕ → Call
  revokes : Text → Call
  revokes_session : Text → Call

-- The ticket that a consuming call hands out.
abbrev pub granted : Result Ticket → Option Ticket
granted (ok t) = some t
granted (err e) = none

-- A call that dereferences nil stops there and changes nothing.
abbrev pub or_same : Manager → Option (Manager × Ticket) → Manager
or_same m none = m
or_same m (some (m', t)) = m'

-- How many of the grants are of a ticket with this token.
abbrev pub grants_of : Text → Option Ticket → ℕ
grants_of token none = 0
grants_of token (some t) = if t.token == token then 1 else 0

module _ (os : Platform) where
  unfoldable pub step : Manager → Call → Manager × Option Ticket
  step m (creates scope instance_id ttl max_uses o d) =
      ((create_with_options os m scope instance_id ttl max_uses o d).0, none)
  step m (restricts id o path paths) = (or_same m (restrict os m id o path paths), none)
  step m (attaches item sha256 max_bytes) = ((attach_upload m item sha256 max_bytes).0, none)
  step m (consumes token scope instance_id source now) =
      let (m', r) = consume_from os m token scope instance_id source now in (m', granted r)
  step m (consumes_restricted token scope type id path method source now) =
      let (m', r) = consume_restricted_from os m token scope type id path method source now in
      (m', granted r)
  step m (revokes id) = (revoke m id, none)
  step m (revokes_session session_id) = (revoke_session m session_id, none)

  -- The manager after the calls, and how many grants there were of a token.
  unfoldable pub run : Text → Manager → List Call → Manager × ℕ
  run token m [] = (m, 0)
  run token m (c ∷ cs) =
      let (m', t) = step m c in let (m'', n) = run token m' cs in (m'', grants_of token t + n)

  -- The random values of a call name no ticket of the maps, and are not the given token.
  abbrev pub FreshCall : Text → Manager → Call → Type 0
  FreshCall token m (creates scope instance_id ttl max_uses o d) =
      IsFresh os m d × (d.token ≢ some token)
  FreshCall token m _ = Unit

  abbrev pub FreshRun : Text → Manager → List Call → Type 0
  FreshRun token m [] = Unit
  FreshRun token m (c ∷ cs) = FreshCall token m c × FreshRun token (step m c).0 cs

  pub step-Wf :
      (token : Text) (m : Manager) (c : Call) → FreshCall token m c → Wf m → Wf (step m c).0
  unfolding step
  step-Wf token m (creates scope instance_id ttl max_uses o d) f v =
      create_with_options-Wf os m scope instance_id ttl max_uses o d v f.0
  step-Wf token m (restricts id o path paths) f v =
      elim (Option-cases (restrict os m id o path paths)) [
        | inl e ↦ rw e v
        | inr ((m', t), e) ↦ rw e (restrict-Wf os m id o path paths v e)
      ]
  step-Wf token m (attaches item sha256 max_bytes) f v = attach_upload-Wf m item sha256 max_bytes v
  step-Wf token m (consumes tok scope instance_id source now) f v =
      consume_from-Wf os m tok scope instance_id source now v
  step-Wf token m (consumes_restricted tok scope type id path method source now) f v =
      consume_restricted_from-Wf os m tok scope type id path method source now v
  step-Wf token m (revokes id) f v = revoke-Wf m id v
  step-Wf token m (revokes_session session_id) f v = revoke_session-Wf m session_id v

  -- The invariant holds after every history, whatever calls come between the two halves of a
  -- creation, as long as the random values name no ticket that is alive when they are drawn.
  pub run-Wf :
      (token : Text) (m : Manager) (cs : List Call)
      → FreshRun token m cs
      → Wf m
      → Wf (run token m cs).0
  unfolding run
  run-Wf token m [] f v = v
  run-Wf token m (c ∷ cs) f v = run-Wf token (step m c).0 cs f.1 (step-Wf token m c f.0 v)
