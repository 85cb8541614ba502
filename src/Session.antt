-- ===== src/Session.antt =====
-- sessiond: the process that owns a game server and hands its output to those who attach.
pub mod Host
pub mod Command
mod Tests
