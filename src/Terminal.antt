-- ===== src/Terminal.antt =====
-- kernel/src/terminal: the command line.
pub mod Shell
pub mod Commands
pub mod Execution
