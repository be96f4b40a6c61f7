-- ===== src/Sync/Semaphore/Examples.antt =====
-- The semaphore at work, on a queue that is a list.
use sovelma_os.Prelude.{ℕ, ◌-◌, refl, [], ◌∷◌, arith}
use sovelma_os.ArrayQueue.{ArrayQueue, list_queue}
use sovelma_os.Sync.Semaphore.{Semaphore, new}
use sovelma_os.Sync.Semaphore.Counting.{IsValid}
use sovelma_os.Sync.Semaphore.Limit.{
  World, move, idle, taking, holding, store, permits, here, later, load, take, IsConserved,
  Reach-IsConserved,
}

abbrev queue : ArrayQueue ℕ
queue = list_queue ℕ

abbrev begun : World queue
begun = record { semaphore = new queue 1; pc = λ i. idle }

abbrev seen_one : World queue
seen_one = move queue begun 0 begun.semaphore (taking (permits queue begun))

abbrev taken_one : World queue
taken_one = move queue seen_one 0 (store queue seen_one (1 - 1)) holding

Reach-IsConserved_example : IsConserved queue 2 1 taken_one
unfolding new
Reach-IsConserved_example = Reach-IsConserved queue 2 1 (omega arith) (
    later (later here (load 0 (omega arith) refl (λ e. ground arith)))
      (take 0 1 (omega arith) refl refl))

-- One permit of two left, and task 3 waiting.
abbrev sample : Semaphore queue
sample = record {
  permits = 1;
  max_permits = 2;
  waiters = record { contents = 3 ∷ []; bound = 100 };
}

sample-IsValid : IsValid queue sample
sample-IsValid = record { bounded = omega arith; small = omega arith }
