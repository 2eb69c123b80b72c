-- ===== src/Fs.antt =====
-- services/fs: paths, and the log-structured file system.
pub mod Platform
pub mod Path
pub mod Kfs
pub mod Tests
