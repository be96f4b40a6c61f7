-- ===== src/Sync/Semaphore.antt =====
-- kernel/src/sync/semaphore.rs: `Semaphore`. A weak exchange in its loops may fail for no reason:
-- the number of such failures is an argument of the calls, and each loop recurs on it.
pub mod Counting
pub mod Limit
mod Runs
mod Examples
use sovelma_os.Prelude.{
  ℕ, zero, suc, ◌+◌, ◌-◌, ◌%◌, ◌^◌, min, Bool, true, false, ◌==◌, Option, none, some, if◌then◌else◌,
}
use sovelma_os.ArrayQueue.{ArrayQueue, push_or_drop}
use sovelma_os.Sync.Future.{Poll, Waker, max_waiters}

pub record Semaphore (crate : ArrayQueue Waker) : Type 0 where
  pub permits : ℕ
  pub max_permits : ℕ
  pub waiters : crate.Queue

-- The future of `acquire()`, beside the semaphore that it borrows.
pub record AcquireFuture : Type 0 where
  pub registered : Bool

-- `acquire`.
unfoldable pub acquire : AcquireFuture
acquire = record { registered = false }

-- `min(current + 1, max_permits)`, the sum on 64 bits as in a release build.
abbrev pub released : ℕ → ℕ → ℕ
released current max = min ((current + 1) % 2 ^ 64) max

abbrev pub answer : Bool → Poll
answer true = Poll.ready
answer false = Poll.pending

module _ (crate : ArrayQueue Waker) where
  unfoldable pub new : ℕ → Semaphore crate
  new permits = record { permits = permits; max_permits = permits; waiters = crate.new max_waiters }

  -- The assertion that `initial ≤ max` is a debug build's.
  unfoldable pub with_max : ℕ → ℕ → Semaphore crate
  with_max initial max = record {
    permits = initial;
    max_permits = max;
    waiters = crate.new max_waiters;
  }

  unfoldable pub available_permits : Semaphore crate → ℕ
  available_permits s = s.permits

  -- The loop of `try_acquire`, in which `failures` weak exchanges fail before one works.
  unfoldable pub try_acquire : ℕ → Semaphore crate → Bool × Semaphore crate
  try_acquire zero s =
      if s.permits == 0 then (false, s) else (true, record s { permits = s.permits - 1 })
  try_acquire (suc failures) s =
      let again = try_acquire failures s in if s.permits == 0 then (false, s) else again

  -- The loop of `release`.
  unfoldable pub add_permit : ℕ → Semaphore crate → Semaphore crate
  add_permit zero s =
      if s.permits == released s.permits s.max_permits
      then s
      else record s { permits = released s.permits s.max_permits }
  add_permit (suc failures) s =
      let again = add_permit failures s in
      if s.permits == released s.permits s.max_permits then s else again

  -- The end of `release`: wake the next waiter.
  unfoldable pub wake_next : Semaphore crate → Option Waker × Semaphore crate
  wake_next s = elim (crate.pop s.waiters) [
    | none ↦ (none, s)
    | some (waker, rest) ↦ (some waker, record s { waiters = rest })
  ]

  unfoldable pub release : ℕ → Semaphore crate → Option Waker × Semaphore crate
  unfolding wake_next
  release failures s = wake_next (add_permit failures s)

  -- The slow path of a poll: leave the waker behind, once.
  unfoldable pub register :
      Waker → AcquireFuture → Semaphore crate → AcquireFuture × Semaphore crate
  register waker f s =
      if f.registered
      then (f, s)
      else (record { registered = true }, record s { waiters = push_or_drop crate s.waiters waker })

  unfoldable pub poll :
      (failures failures' : ℕ)
      → Waker
      → AcquireFuture
      → Semaphore crate
      → Poll × AcquireFuture × Semaphore crate
  unfolding register
  poll failures failures' waker f s =
      let (taken, s₁) = try_acquire failures s in
      let (f₂, s₂) = register waker f s₁ in
      let (taken', s₃) = try_acquire failures' s₂ in
      if taken then (Poll.ready, f, s₁) else (answer taken', f₂, s₃)

  -- `Drop` of a `SemaphorePermit`.
  unfoldable pub drop_permit : ℕ → Semaphore crate → Option Waker × Semaphore crate
  unfolding release
  drop_permit failures s = release failures s
