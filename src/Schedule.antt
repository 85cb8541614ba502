-- ===== src/Schedule.antt =====
-- panel/internal/schedule: the tasks that run at planned times, and the console commands that they
-- may send.
pub mod Command
pub mod Spec
pub mod Task
mod Tests
