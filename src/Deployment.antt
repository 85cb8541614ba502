-- ===== src/Deployment.antt =====
-- daemon/internal/deployment: tasks that roll a server's image out to its instances, or an instance
-- back to the image.
pub mod Task
pub mod Manager
pub mod Swap
mod Tests
