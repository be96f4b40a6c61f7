-- ===== src/Sync/Mutex/Polling.antt =====
-- What one call does to the mutex: polls and releases, on every branch.
use sovelma_os.Prelude.{
  ◌≡◌, true, false, none, some, [], ◌∷◌, ◌++◌, length, ltb, arith, if◌then◌else◌, ◌⊎◌, inl, inr,
  ◌&&◌, not,
}
use sovelma_os.ArrayQueue.{ArrayQueue, items-push_or_drop, pop-PopsOldest}
use sovelma_os.Sync.Future.{Poll, Waker}
use sovelma_os.Sync.Mutex.{AsyncMutex, LockFuture, drop_guard, poll, answer}

module _ (crate : ArrayQueue Waker) {T : Type 0} where
  open crate use {items, capacity}

  -- A poll in which no exchange fails spuriously: it takes a free lock and touches nothing else; on
  -- a held lock it stays pending, and leaves its waker at the end of the queue if it has not done
  -- so before and the queue has room.
  pub poll-lock :
      (waker : Waker) (f : LockFuture) (m : AsyncMutex crate T)
      → let (answer, f', m') = poll crate false false waker f m in
        (answer ≡ (if m.locked then Poll.pending else Poll.ready))
        × (m'.locked ≡ true)
        × (m'.value ≡ m.value)
        × (f'.registered ≡ (if m.locked then true else f.registered))
        × (items m'.waiters ≡ (
            if m.locked && not f.registered && ltb (length (items m.waiters)) (capacity m.waiters)
            then items m.waiters ++ waker ∷ []
            else items m.waiters))
  unfolding poll
  poll-lock waker f m = ground (arith, items-push_or_drop crate m.waiters waker)

  -- Dropping a guard frees the lock, keeps the data, and wakes the task that has waited longest,
  -- which leaves the queue; with nobody waiting it wakes nobody.
  pub drop_guard_lem :
      (m : AsyncMutex crate T)
      → let (woken, m') = drop_guard crate m in
        (m'.locked ≡ false)
        × (m'.value ≡ m.value)
        × (((woken ≡ none) × (items m.waiters ≡ []) × (items m'.waiters ≡ []))
            ⊎ ((w : Waker) × (woken ≡ some w) × (items m.waiters ≡ w ∷ items m'.waiters)))
  unfolding drop_guard
  drop_guard_lem m = elim (pop-PopsOldest crate m.waiters) [
    | inl (p, e) ↦
        (ground (arith, p), ground (arith, p), inl (ground (arith, p), e, ground (arith, p, e)))
    | inr (w, q', p, e, c) ↦
        (ground (arith, p), ground (arith, p), inr (w, ground (arith, p), ground (arith, p, e)))
  ]
