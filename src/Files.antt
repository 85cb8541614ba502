-- ===== src/Files.antt =====
-- daemon/internal/files: the paths that a request may name, and uploads of files in chunks.
pub mod Path
pub mod Upload
mod Tests
