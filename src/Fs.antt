-- ===== src/Fs.antt =====
-- kernel/src/fs: the in-memory file system.
pub mod Path
pub mod RamFs
