-- ===== src/Task/Executor.antt =====
-- kernel/src/task/executor.rs: `Executor`. What a future does when it is polled is a parameter: from
-- the rest of the kernel's state it gives an answer, the future, the state and the wakers that it
-- woke. A waker is the task and the queue that it goes to.
pub mod Spawning
mod Examples
use sovelma_os.Prelude.{
  ℕ, zero, suc, Bool, true, false, List, [], ◌∷◌, Option, none, some, is_some, if◌then◌else◌,
}
use sovelma_os.Prelude.Maps.{nat_ord, BTreeMap, lookup, insert, remove}
use sovelma_os.ArrayQueue.{ArrayQueue, push_or_drop}
use sovelma_os.Sync.Future.{Poll}
use sovelma_os.Task.{TaskId, Task, Priority, idle, normal, high, critical}

abbrev pub queue_capacity : ℕ
queue_capacity = 100

-- `TaskWaker`.
pub record TaskWaker : Type 0 where
  pub task_id : TaskId
  pub task_queue : Priority

-- `waker_cache.entry(task_id).or_insert_with(..)`.
unfoldable pub waker_of :
    TaskId → Priority → BTreeMap TaskId TaskWaker → TaskWaker × BTreeMap TaskId TaskWaker
waker_of id priority cache = elim (lookup id cache) [
  | some w ↦ (w, cache)
  | none ↦
      let w : TaskWaker = record { task_id = id; task_queue = priority } in (w, insert id w cache)
]

module _ (crate : ArrayQueue TaskId) where
  -- The array of the four queues, by priority.
  pub record Queues : Type 0 where
    pub idle_queue : crate.Queue
    pub normal_queue : crate.Queue
    pub high_queue : crate.Queue
    pub critical_queue : crate.Queue

  unfoldable pub queue_of : Queues → Priority → crate.Queue
  queue_of qs idle = qs.idle_queue
  queue_of qs normal = qs.normal_queue
  queue_of qs high = qs.high_queue
  queue_of qs critical = qs.critical_queue

  unfoldable pub with_queue : Queues → Priority → crate.Queue → Queues
  with_queue qs idle q = record qs { idle_queue = q }
  with_queue qs normal q = record qs { normal_queue = q }
  with_queue qs high q = record qs { high_queue = q }
  with_queue qs critical q = record qs { critical_queue = q }

  -- `wake_by_ref`.
  unfoldable pub wake : TaskWaker → Queues → Queues
  unfolding queue_of with_queue
  wake w qs = with_queue qs w.task_queue (push_or_drop crate (queue_of qs w.task_queue) w.task_id)

  unfoldable pub wake_all : List TaskWaker → Queues → Queues
  wake_all [] qs = qs
  wake_all (w ∷ ws) qs = wake_all ws (wake w qs)

  pub record Executor (F : Type 0) : Type 0 where
    pub tasks : BTreeMap TaskId (Task F)
    pub task_queues : Queues
    pub waker_cache : BTreeMap TaskId TaskWaker

  module _ {F : Type 0} where
    unfoldable pub new : Executor F
    new = record {
      tasks = [];
      task_queues = record {
        idle_queue = crate.new queue_capacity;
        normal_queue = crate.new queue_capacity;
        high_queue = crate.new queue_capacity;
        critical_queue = crate.new queue_capacity;
      };
      waker_cache = [];
    }

    unfoldable pub spawn : Task F → Executor F → Executor F
    unfolding queue_of with_queue
    spawn task x =
        if is_some (lookup task.id x.tasks)
        then x
        else elim (crate.push (queue_of x.task_queues task.priority) task.id) [
          | none ↦ record x { tasks = remove task.id (insert task.id task x.tasks) }
          | some q ↦ record x {
            tasks = insert task.id task x.tasks;
            task_queues = with_queue x.task_queues task.priority q;
          }
        ]

    -- The end of a poll: a finished task is removed with its cached waker.
    unfoldable pub finish : Poll → Task F → Executor F → Executor F
    finish Poll.ready task x = record x {
      tasks = remove task.id x.tasks;
      waker_cache = remove task.id x.waker_cache;
    }
    finish Poll.pending task x = record x { tasks = insert task.id task x.tasks }

    module _ {S : Type 0} (poll : TaskWaker → S → F → Poll × F × S × List TaskWaker) where
      -- One turn of the inner loop for a task from a queue.
      unfoldable pub run_task : TaskId → Priority → Executor F × S → Executor F × S
      unfolding finish waker_of wake_all
      run_task id priority (x, s) = elim (lookup id x.tasks) [
        | none ↦ (x, s)
        | some task ↦
            let (waker, cache) = waker_of id priority x.waker_cache in
            let (answer, future, s', woken) = poll waker s task.future in
            let x' = record x { waker_cache = cache; task_queues = wake_all woken x.task_queues } in
            (finish answer (record task { future = future }) x', s')
      ]

      -- The inner loop, of at most `fuel` turns: `None` when they did not empty the queue.
      unfoldable pub drain : ℕ → Priority → Executor F × S → Option (Executor F × S)
      unfolding queue_of with_queue
      drain zero priority (x, s) = none
      drain (suc fuel) priority (x, s) = elim (crate.pop (queue_of x.task_queues priority)) [
        | none ↦ some (x, s)
        | some (id, q) ↦ drain fuel priority (
            run_task id priority
              (record x { task_queues = with_queue x.task_queues priority q }, s))
      ]

      abbrev then_drain : ℕ → Priority → Option (Executor F × S) → Option (Executor F × S)
      then_drain fuel priority none = none
      then_drain fuel priority (some xs) = drain fuel priority xs

      unfoldable pub run_ready_tasks : ℕ → Executor F × S → Option (Executor F × S)
      run_ready_tasks fuel xs =
          then_drain fuel idle
            (then_drain fuel normal (then_drain fuel high (drain fuel critical xs)))
