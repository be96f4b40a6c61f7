-- ===== src/Sync/Mutex/Exclusion.antt =====
-- Mutual exclusion under every interleaving: tasks run the methods of the mutex one atomic
-- operation at a time.
use sovelma_os.Prelude.{
  ◌≡◌, ◌≢◌, refl, Bool, true, false, ◌==◌, ==_iff, arith, if◌then◌else◌, Bool-cases, not, ◌&&◌, inl,
  inr,
}
use sovelma_os.ArrayQueue.{ArrayQueue, pop-PopsOldest}
use sovelma_os.Sync.Future.{Waker}
use sovelma_os.Sync.Mutex.{AsyncMutex, LockFuture, new, lock, compare_exchange, register, wake_next}

-- Where a task stands: between calls, before the first exchange of a poll, before it leaves its
-- waker, before the second exchange, suspended, inside the critical section, and between the store
-- and the wake of a dropped guard.
pub data Pc : Type 0 where
  idle holding waking : Pc
  trying registering retrying waiting : LockFuture → Pc

abbrev pub taken_or : Bool → Pc → Pc
taken_or true p = holding
taken_or false p = p

module _ (crate : ArrayQueue Waker) (T : Type 0) where
  pub record World : Type 0 where
    pub mutex : AsyncMutex crate T
    pub pc : Waker → Pc

  abbrev pub move : World → Waker → AsyncMutex crate T → Pc → World
  move w i m p = record { mutex = m; pc = λ j. if i == j then p else w.pc j }

  pub data Step (w : World) : World → Type 0 where
    begin : (i : Waker) → w.pc i ≡ idle → Step w (move w i w.mutex (trying lock))
    resume :
        (i : Waker) (f : LockFuture) → w.pc i ≡ waiting f → Step w (move w i w.mutex (trying f))
    first :
        (i : Waker) (f : LockFuture) (weak : Bool)
        → w.pc i ≡ trying f
        → Step w (
            move w i
              (compare_exchange crate weak w.mutex).1
              (taken_or (compare_exchange crate weak w.mutex).0 (registering f)))
    enlist :
        (i : Waker) (f : LockFuture)
        → w.pc i ≡ registering f
        → Step w (move w i (register crate i f w.mutex).1 (retrying (register crate i f w.mutex).0))
    second :
        (i : Waker) (f : LockFuture) (weak : Bool)
        → w.pc i ≡ retrying f
        → Step w (
            move w i
              (compare_exchange crate weak w.mutex).1
              (taken_or (compare_exchange crate weak w.mutex).0 (waiting f)))
    instant :
        (i : Waker)
        → w.pc i ≡ idle
        → Step w (
            move w i
              (compare_exchange crate false w.mutex).1
              (taken_or (compare_exchange crate false w.mutex).0 idle))
    release :
        (i : Waker)
        → w.pc i ≡ holding
        → Step w (move w i (record w.mutex { locked = false }) waking)
    wake : (i : Waker) → w.pc i ≡ waking → Step w (move w i (wake_next crate w.mutex).1 idle)

  pub data Reach (w : World) : World → Type 0 where
    here : Reach w w
    later : {v u : World} → Reach w v → Step v u → Reach w u

  -- At most one task is in the critical section, and one is exactly while the lock is taken.
  pub record IsExclusive (w : World) : Type 0 where
    pub unique : (i j : Waker) → w.pc i ≡ holding → w.pc j ≡ holding → i ≡ j
    pub guarded : (i : Waker) → w.pc i ≡ holding → w.mutex.locked ≡ true
    pub owned : w.mutex.locked ≡ true → (i : Waker) × (w.pc i ≡ holding)

  -- A task outside the critical section moves without taking the lock.
  aside :
      {w : World} (i : Waker) (m : AsyncMutex crate T) (p q : Pc)
      → w.pc i ≡ p
      → p ≢ holding
      → q ≢ holding
      → m.locked ≡ w.mutex.locked
      → IsExclusive w
      → IsExclusive (move w i m q)
  aside {w} i m p q at out out' same x = record {
    unique = λ a b ha hb. x.unique a b (ground arith) (ground arith);
    guarded = λ a ha. ground (arith, x.guarded a);
    owned = λ h. let (j, e) = x.owned (ground arith) in (j, ground arith);
  }

  -- An exchange either takes a free lock or leaves everything as it was.
  exchange :
      {w : World} (i : Waker) (weak : Bool) (p q : Pc)
      → w.pc i ≡ p
      → p ≢ holding
      → q ≢ holding
      → IsExclusive w
      → let (taken, m) = compare_exchange crate weak w.mutex in
        IsExclusive (move w i m (taken_or taken q))
  unfolding compare_exchange
  exchange {w} i weak p q at out out' x = elim (Bool-cases (not w.mutex.locked && not weak)) [
    | inl free ↦
        rw (free, compare_exchange)
          (record {
            unique = λ a b ha hb. ground (arith, x.guarded a, x.guarded b);
            guarded = λ a ha. refl;
            owned = λ h. (i, ground (arith, ==_iff i i));
          })
    | inr held ↦ rw (held, compare_exchange) (aside i w.mutex p q at out out' refl x)
  ]

  step-IsExclusive : {w v : World} → Step w v → IsExclusive w → IsExclusive v
  unfolding register wake_next
  step-IsExclusive (begin i at) x = aside i _ idle _ at (λ e. cc) (λ e. cc) refl x
  step-IsExclusive (resume i f at) x = aside i _ (waiting f) _ at (λ e. cc) (λ e. cc) refl x
  step-IsExclusive (first i f weak at) x =
      exchange i weak (trying f) (registering f) at (λ e. cc) (λ e. cc) x
  step-IsExclusive {w} (enlist i f at) x =
      aside i _ (registering f) _ at (λ e. cc) (λ e. cc) (ground arith) x
  step-IsExclusive (second i f weak at) x =
      exchange i weak (retrying f) (waiting f) at (λ e. cc) (λ e. cc) x
  step-IsExclusive (instant i at) x = exchange i false idle idle at (λ e. cc) (λ e. cc) x
  step-IsExclusive {w} (release i at) x = record {
    unique = λ a b ha hb. x.unique a b (ground arith) (ground arith);
    guarded = λ a ha. absurd (ground (arith, x.unique i a, ==_iff i a));
    owned = λ h. cc;
  }
  step-IsExclusive {w} (wake i at) x =
      aside i _ waking _ at (λ e. cc) (λ e. cc)
        (ground (arith, pop-PopsOldest crate w.mutex.waiters)) x

  -- From a mutex that nobody has touched, under every interleaving of any number of tasks that
  -- lock it, poll it, try it and drop its guards: no two tasks are in the critical section at once,
  -- and the lock is taken exactly while some task is in there, so it is never leaked.
  pub Reach-IsExclusive :
      (value : T) {w : World}
      → Reach (record { mutex = new crate value; pc = λ i. idle }) w
      → IsExclusive w
  unfolding new
  Reach-IsExclusive value here = record {
    unique = λ i j hi hj. cc;
    guarded = λ i h. cc;
    owned = λ h. cc;
  }
  Reach-IsExclusive value (later r st) = step-IsExclusive st (Reach-IsExclusive value r)
