-- ===== src/Sync/Mutex/Examples.antt =====
-- The mutex at work: runs of its methods on a queue that is a list.
use sovelma_os.Prelude.{ℕ, ◌≡◌, refl, true, false, [], ◌∷◌, contains}
use sovelma_os.ArrayQueue.{ArrayQueue, list_queue}
use sovelma_os.Sync.Future.{Poll}
use sovelma_os.Sync.Mutex.{AsyncMutex, new, lock, compare_exchange, poll}
use sovelma_os.Sync.Mutex.Exclusion.{
  World, move, idle, trying, registering, taken_or, here, later, begin, first, IsExclusive,
  Reach-IsExclusive,
}
use sovelma_os.Sync.Mutex.Stranded.{tries, releases, wakes, poll_stranded}

abbrev queue : ArrayQueue ℕ
queue = list_queue ℕ

abbrev begun : World queue ℕ
begun = record { mutex = new queue 7; pc = λ i. idle }

abbrev called : World queue ℕ
called = move queue ℕ begun 1 begun.mutex (trying lock)

abbrev acquired : World queue ℕ
acquired =
    move queue ℕ called 1 (compare_exchange queue false called.mutex).1
      (taken_or (compare_exchange queue false called.mutex).0 (registering lock))

Reach-IsExclusive_example : IsExclusive queue ℕ acquired
Reach-IsExclusive_example =
    Reach-IsExclusive queue ℕ 7 (later (later here (begin 1 refl)) (first 1 lock false refl))

-- Task 3 waits for a lock that is held.
abbrev held : AsyncMutex queue ℕ
held = record { value = 7; locked = true; waiters = record { contents = []; bound = 100 } }

abbrev held_with_waiter : AsyncMutex queue ℕ
held_with_waiter = record held { waiters = record { contents = 3 ∷ []; bound = 100 } }

-- Task 4 lost the race for the lock; the holder then drops its guard, and another task tries.
poll_stranded_example :
    let (answer, f, m') =
      poll queue false false 4 (record { registered = true }) held_with_waiter in
    (answer ≡ Poll.pending) × (contains (wakes queue (releases ∷ tries ∷ []) m') 4 ≡ false)
poll_stranded_example =
    poll_stranded queue 4 false false held_with_waiter (releases ∷ tries ∷ []) refl refl
      (tt, (tt, tt))
