-- ===== src/Sync/Semaphore/Counting.antt =====
-- What one call does to the count of permits, however often its weak exchanges fail.
use sovelma_os.Prelude.{
  ℕ, zero, suc, ◌+◌, ◌-◌, ◌^◌, ◌≤◌, ◌<◌, ◌≡◌, refl, true, false, ◌&&◌, not, ltb, ◌==◌, none, some,
  [], ◌∷◌, ◌++◌, length, arith, if◌then◌else◌, ◌⊎◌, inl, inr, min,
}
use sovelma_os.ArrayQueue.{ArrayQueue, items-push_or_drop, pop-PopsOldest}
use sovelma_os.Sync.Future.{Poll, Waker}
use sovelma_os.Sync.Semaphore.{
  Semaphore, AcquireFuture, try_acquire, add_permit, release, poll, answer, register,
}

-- What a semaphore never leaves: at most its maximum, which is below the largest word.
pub record IsValid (crate : ArrayQueue Waker) (s : Semaphore crate) : Type 0 where
  pub bounded : s.permits ≤ s.max_permits
  pub small : s.max_permits + 1 < 2 ^ 64

module _ (crate : ArrayQueue Waker) where
  open crate use {items, capacity}

  -- However many exchanges fail, `try_acquire` takes exactly one permit where there is one and
  -- says so, and otherwise changes nothing and says so.
  pub try_acquire_lem :
      (failures : ℕ) (s : Semaphore crate)
      → try_acquire crate failures s
        ≡ (if s.permits == 0 then (false, s) else (true, record s { permits = s.permits - 1 }))
  unfolding try_acquire
  try_acquire_lem zero s = refl
  try_acquire_lem (suc failures) s = ground (arith, try_acquire_lem failures s)

  pub add_permit_lem :
      (failures : ℕ) (s : Semaphore crate)
      → IsValid crate s
      → add_permit crate failures s ≡ record s { permits = min (s.permits + 1) s.max_permits }
  unfolding add_permit
  add_permit_lem zero s v = ground arith
  add_permit_lem (suc failures) s v = ground (arith, add_permit_lem failures s v)

  -- A release gives back one permit, but never more than the maximum, however many exchanges fail;
  -- it keeps the semaphore valid, and it wakes the task that has waited longest, if any.
  pub release_lem :
      (failures : ℕ) (s : Semaphore crate)
      → IsValid crate s
      → let (woken, s') = release crate failures s in
        (s'.permits ≡ min (s.permits + 1) s.max_permits)
        × IsValid crate s'
        × (((woken ≡ none) × (items s.waiters ≡ []) × (items s'.waiters ≡ []))
            ⊎ ((w : Waker) × (woken ≡ some w) × (items s.waiters ≡ w ∷ items s'.waiters)))
  unfolding release
  release_lem failures s v =
      let added = add_permit_lem failures s v in
      elim (pop-PopsOldest crate s.waiters) [
        | inl (p, e) ↦ (
          ground (arith, added, p),
          ground (arith, added, p),
          inl (ground (arith, added, p), e, ground (arith, added, p, e)),
        )
        | inr (w, q', p, e, c) ↦ (
          ground (arith, added, p),
          ground (arith, added, p),
          inr (w, ground (arith, added, p), ground (arith, added, p, e)),
        )
      ]

  -- A poll of the acquiring future takes one permit if there is one and touches nothing else;
  -- otherwise it stays pending and leaves its waker at the end of the queue, if it has not done so
  -- before and the queue has room. Spurious failures of the exchanges make no difference.
  pub poll-acquire :
      (failures failures' : ℕ) (waker : Waker) (f : AcquireFuture) (s : Semaphore crate)
      → let (answer, f', s') = poll crate failures failures' waker f s in
        (answer ≡ (if s.permits == 0 then Poll.pending else Poll.ready))
        × (s'.permits ≡ s.permits - 1)
        × (s'.max_permits ≡ s.max_permits)
        × (f'.registered ≡ (if s.permits == 0 then true else f.registered))
        × (items s'.waiters ≡ (
            if s.permits == 0
              && not f.registered
              && ltb (length (items s.waiters)) (capacity s.waiters)
            then items s.waiters ++ waker ∷ []
            else items s.waiters))
  unfolding poll
  poll-acquire failures failures' waker f s = ground (
    arith,
    try_acquire_lem failures s,
    try_acquire_lem failures' (register crate waker f (try_acquire crate failures s).1).1,
    items-push_or_drop crate s.waiters waker,
  )
