-- ===== src/Sync/Future.antt =====
-- What a future of kernel/src/sync gives and takes when it is polled.
use sovelma_os.Prelude.{ℕ}

-- `core::task::Poll`.
pub data Poll : Type 0 where
  ready pending : Poll

-- A `core::task::Waker` is known by the task that it wakes.
abbrev pub Waker : Type 0
Waker = ℕ

-- `MAX_WAITERS` of the mutex and of the semaphore.
abbrev pub max_waiters : ℕ
max_waiters = 100
