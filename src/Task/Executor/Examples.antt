-- ===== src/Task/Executor/Examples.antt =====
-- The executor at work, on queues that are lists, with futures that do nothing or yield for ever.
use sovelma_os.Prelude.{
  ℕ, zero, suc, ◌+◌, ◌≡◌, refl, List, [], ◌∷◌, ◌++◌, none, some, length, ltb, arith, if◌then◌else◌,
}
use sovelma_os.Prelude.Maps.{nat_ord, lookup}
use sovelma_os.ArrayQueue.{ArrayQueue, list_queue}
use sovelma_os.Sync.Future.{Poll}
use sovelma_os.Task.{Task, high}
use sovelma_os.Task.Executor.{Executor, TaskWaker, new, spawn, drain, queue_of}
use sovelma_os.Task.Executor.Spawning.{spawn_lem, drain-quiet, drain-starves}

abbrev queue : ArrayQueue ℕ
queue = list_queue ℕ

abbrev sample : Task ℕ
sample = record { id = 3; priority = high; future = 0 }

abbrev begun : Executor queue ℕ
begun = new queue

spawn_lem_example :
    let q = queue_of queue begun.task_queues high in
    let x' = spawn queue sample begun in
    (queue.items (queue_of queue x'.task_queues high) ≡ (
      if ltb (length (queue.items q)) (queue.capacity q)
      then queue.items q ++ 3 ∷ []
      else queue.items q))
    × (lookup 3 x'.tasks ≡ (
        if nat_ord.beq 3 3
        then (if ltb (length (queue.items q)) (queue.capacity q) then some sample else none)
        else lookup 3 begun.tasks))
unfolding new lookup
spawn_lem_example = spawn_lem queue sample begun 3 refl

-- A future that finishes at once.
abbrev finishes : TaskWaker → ℕ → ℕ → Poll × ℕ × ℕ × List TaskWaker
finishes w s f = (Poll.ready, f, s + 1, [])

-- Future 0 yields for ever, and every other one finishes at once.
abbrev yields : TaskWaker → ℕ → ℕ → Poll × ℕ × ℕ × List TaskWaker
yields w s zero = (Poll.pending, zero, s, w ∷ [])
yields w s (suc f) = (Poll.ready, suc f, s + 1, [])

yields_zero :
    (w : TaskWaker) (s f : ℕ)
    → f ≡ 0
    → ((yields w s f).0 ≡ Poll.pending) × ((yields w s f).3 ≡ w ∷ []) × ((yields w s f).1 ≡ 0)
yields_zero w s zero e = (refl, refl, refl)
yields_zero w s (suc f) e = absurd (omega arith)

-- The task stands in its queue and its waker is cached.
abbrev waiting : Executor queue ℕ
waiting = record {
  tasks = (3, sample) ∷ [];
  task_queues = record {
    idle_queue = queue.new 100;
    normal_queue = queue.new 100;
    high_queue = record { contents = 3 ∷ []; bound = 100 };
    critical_queue = queue.new 100;
  };
  waker_cache = (3, record { task_id = 3; task_queue = high }) ∷ [];
}

drain-quiet_example :
    (x' : Executor queue ℕ) × (s' : ℕ) × (drain queue finishes 2 high (waiting, 0) ≡ some (x', s'))
    × (queue.items (queue_of queue x'.task_queues high) ≡ [])
unfolding queue_of
drain-quiet_example = drain-quiet queue finishes 1 high waiting 0 (λ w s f. refl) (omega arith)

drain-starves_example : drain queue yields 50 high (waiting, 0) ≡ none
unfolding queue_of lookup
drain-starves_example =
    drain-starves queue yields 50 3 high waiting 0 sample (λ f. f ≡ 0) yields_zero refl refl refl
      refl refl (omega arith)
