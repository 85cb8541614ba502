-- ===== src/Auth.antt =====
-- panel/internal/auth: the limiter of login attempts, and the login that it guards.
pub mod Limiter
pub mod Lockout
pub mod Login
pub mod Accounts
mod Tests
