-- ===== src/Ticket.antt =====
-- daemon/internal/ticket/manager.go: short-lived access tickets, their maps, and the two ways to
-- create and to consume them.
pub mod Path
pub mod Model
pub mod Consume
pub mod Create
pub mod Invariant
pub mod Outcome
pub mod Preserve
pub mod Trace
pub mod Budget
pub mod Access
mod Tests
