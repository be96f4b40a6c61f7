-- ===== src/Sync/Mutex/Stranded.antt =====
-- A waiting task whose waker has left the queue.
use sovelma_os.Prelude.{
  ◌≡◌, ◌≢◌, refl, Bool, true, false, Option, none, some, List, [], ◌∷◌, ◌++◌, All, contains,
  contains-append, arith, inl, inr,
}
use sovelma_os.ArrayQueue.{ArrayQueue, items-push_or_drop, pop-PopsOldest}
use sovelma_os.Sync.Future.{Poll, Waker}
use sovelma_os.Sync.Mutex.{AsyncMutex, LockFuture, try_lock, drop_guard, poll}

-- A call on a mutex by some task.
pub data Event : Type 0 where
  tries releases : Event
  polls : (weak weak' : Bool) → Waker → LockFuture → Event

-- Everything but a poll of task `t`.
abbrev pub IsSilent : Waker → Event → Type 0
IsSilent t tries = Unit
IsSilent t releases = Unit
IsSilent t (polls weak weak' waker f) = waker ≢ t

abbrev pub listed : Option Waker → List Waker
listed none = []
listed (some w) = w ∷ []

module _ (crate : ArrayQueue Waker) {T : Type 0} where
  open crate use {items}

  -- The task that an event wakes, and the mutex afterwards.
  unfoldable pub step : Event → AsyncMutex crate T → Option Waker × AsyncMutex crate T
  step tries m = (none, (try_lock crate m).1)
  step releases m = drop_guard crate m
  step (polls weak weak' waker f) m = (none, (poll crate weak weak' waker f m).2)

  -- All tasks that a run of events wakes.
  unfoldable pub wakes : List Event → AsyncMutex crate T → List Waker
  wakes [] m = []
  wakes (e ∷ es) m = listed (step e m).0 ++ wakes es (step e m).1

  abbrev IsAbsent : Waker → AsyncMutex crate T → Type 0
  IsAbsent t m = contains (items m.waiters) t ≡ false

  -- No event but its own poll puts a task into the queue, and a release wakes only queued tasks.
  step-IsAbsent :
      (t : Waker) (e : Event) (m : AsyncMutex crate T)
      → IsSilent t e
      → IsAbsent t m
      → IsAbsent t (step e m).1 × (contains (listed (step e m).0) t ≡ false)
  unfolding step try_lock drop_guard poll
  step-IsAbsent t tries m s h = (ground arith, refl)
  step-IsAbsent t releases m s h = elim (pop-PopsOldest crate m.waiters) [
    | inl (p, e) ↦ (ground (arith, p), ground (arith, p))
    | inr (w, q', p, e, c) ↦
        let front : contains (w ∷ items q') t ≡ false = rw e at h in
        (ground (arith, p, front), ground (arith, p, front))
  ]
  step-IsAbsent t (polls weak weak' waker f) m s h = (
    ground (
      arith,
      items-push_or_drop crate m.waiters waker,
      contains-append (items m.waiters) (waker ∷ []) t,
    ),
    refl,
  )

  never_woken :
      (t : Waker) (es : List Event) (m : AsyncMutex crate T)
      → All (IsSilent t) es
      → IsAbsent t m
      → contains (wakes es m) t ≡ false
  unfolding wakes
  never_woken t [] m s h = refl
  never_woken t (e ∷ es) m s h =
      let (absent, unlisted) = step-IsAbsent t e m s.0 h in
      ground (
        arith,
        contains-append (listed (step e m).0) (wakes es (step e m).1) t,
        never_woken t es (step e m).1 s.1 absent,
      )

  -- A lost wake-up: a task that was woken, and so is out of the queue, finds the lock taken by
  -- another task. Its future counts as registered, so the poll stays pending without putting the
  -- waker back, and no run of calls by the other tasks ever wakes it again.
  pub poll_stranded :
      (t : Waker) (weak weak' : Bool) (m : AsyncMutex crate T) (es : List Event)
      → m.locked ≡ true
      → contains (items m.waiters) t ≡ false
      → All (IsSilent t) es
      → let (answer, f, m') = poll crate weak weak' t (record { registered = true }) m in
        (answer ≡ Poll.pending) × (contains (wakes es m') t ≡ false)
  unfolding poll
  poll_stranded t weak weak' m es held absent s = (
    ground arith,
    never_woken t es (poll crate weak weak' t (record { registered = true }) m).2 s (ground arith),
  )
