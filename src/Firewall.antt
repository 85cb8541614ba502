-- ===== src/Firewall.antt =====
-- daemon/internal/firewall: the whitelist of a node, kept in a table of nftables.
pub mod Types
pub mod Ports
pub mod Rules
pub mod Validate
pub mod Render
pub mod Service
pub mod Grants
mod Tests
