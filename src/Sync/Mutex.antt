-- ===== src/Sync/Mutex.antt =====
-- kernel/src/sync/mutex.rs: `AsyncMutex`. Each method returns the new mutex beside its result; a
-- guard is the knowledge that the lock was taken, and its `Drop` is `drop_guard`.
pub mod Polling
pub mod Stranded
pub mod Exclusion
mod Examples
use sovelma_os.Prelude.{
  ℕ, Bool, true, false, not, ◌&&◌, Option, none, some, if◌then◌else◌, List, [], ◌∷◌, ◌++◌,
}
use sovelma_os.ArrayQueue.{ArrayQueue, push_or_drop}
use sovelma_os.Sync.Future.{Poll, Waker, max_waiters}

module _ (crate : ArrayQueue Waker) where
  pub record AsyncMutex (T : Type 0) : Type 0 where
    pub value : T
    pub locked : Bool
    pub waiters : crate.Queue

-- The future of `lock()`, beside the mutex that it borrows.
pub record LockFuture : Type 0 where
  pub registered : Bool

-- `lock`.
unfoldable pub lock : LockFuture
lock = record { registered = false }

abbrev pub answer : Bool → Poll
answer true = Poll.ready
answer false = Poll.pending

module _ (crate : ArrayQueue Waker) {T : Type 0} where
  unfoldable pub new : T → AsyncMutex crate T
  new value = record { value = value; locked = false; waiters = crate.new max_waiters }

  -- `compare_exchange(false, true)` on `locked`. The weak form may fail for no reason, which the
  -- first argument says; the strong form is `compare_exchange false`.
  unfoldable pub compare_exchange : Bool → AsyncMutex crate T → Bool × AsyncMutex crate T
  compare_exchange spurious m =
      if not m.locked && not spurious then (true, record m { locked = true }) else (false, m)

  -- `try_lock`: whether a guard was handed out.
  unfoldable pub try_lock : AsyncMutex crate T → Bool × AsyncMutex crate T
  unfolding compare_exchange
  try_lock m = compare_exchange false m

  -- `wake_next`: the waker that is woken, if any.
  unfoldable pub wake_next : AsyncMutex crate T → Option Waker × AsyncMutex crate T
  wake_next m = elim (crate.pop m.waiters) [
    | none ↦ (none, m)
    | some (waker, rest) ↦ (some waker, record m { waiters = rest })
  ]

  -- `Drop` of a guard: release the lock, then wake the next waiter.
  unfoldable pub drop_guard : AsyncMutex crate T → Option Waker × AsyncMutex crate T
  unfolding wake_next
  drop_guard m = wake_next (record m { locked = false })

  -- The slow path of a poll: leave the waker behind, once.
  unfoldable pub register :
      Waker → LockFuture → AsyncMutex crate T → LockFuture × AsyncMutex crate T
  register waker f m =
      if f.registered
      then (f, m)
      else (record { registered = true }, record m { waiters = push_or_drop crate m.waiters waker })

  -- `poll`, for a task whose two weak exchanges fail spuriously or not as `weak` and `weak'` say.
  unfoldable pub poll :
      (weak weak' : Bool)
      → Waker
      → LockFuture
      → AsyncMutex crate T
      → Poll × LockFuture × AsyncMutex crate T
  unfolding compare_exchange register
  poll weak weak' waker f m =
      let (taken, m₁) = compare_exchange weak m in
      let (f₂, m₂) = register waker f m₁ in
      let (taken', m₃) = compare_exchange weak' m₂ in
      if taken then (Poll.ready, f, m₁) else (answer taken', f₂, m₃)

  -- `*guard` and `*guard = v`.
  unfoldable pub deref : AsyncMutex crate T → T
  deref m = m.value

  unfoldable pub deref_mut : AsyncMutex crate T → T → AsyncMutex crate T
  deref_mut m v = record m { value = v }
