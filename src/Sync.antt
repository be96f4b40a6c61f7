-- ===== src/Sync.antt =====
-- kernel/src/sync: the asynchronous mutex, the counting semaphore, and the registry through which
-- WASM modules reach them.
pub mod Future
pub mod Mutex
pub mod Semaphore
pub mod Registry
