-- ===== src/Supervisor.antt =====
-- daemon/internal/supervisor: the instances of a node.
pub mod Types
pub mod Deployment
pub mod Restart
pub mod Lifecycle
pub mod Registry
pub mod Console
pub mod Commands
mod Tests
