-- ===== src/Wasm.antt =====
-- kernel/src/wasm: what a WASM module can ask of the kernel.
pub mod Error
pub mod Platform
pub mod Host
pub mod Sdk
pub mod Process
