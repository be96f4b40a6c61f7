-- ===== src/Wasm/Process/Stranded.antt =====
-- A module that yields, as a task of the executor.
use sovelma_os.Prelude.{
  ◌≡◌, ◌≢◌, refl, Bool, contains, contains-append, List, [], ◌∷◌, some, All, map, arith, ==_iff,
  ◌∙◌,
}
use sovelma_os.Prelude.Maps.{nat_ord, lookup, lookup-insert_self}
use sovelma_os.ArrayQueue.{ArrayQueue, push_or_drop, items-push_or_drop}
use sovelma_os.Sync.Future.{Waker}
use sovelma_os.Task.{TaskId, Task, Priority}
use sovelma_os.Task.Executor.{
  Executor, Queues, TaskWaker, queue_of, with_queue, wake, wake_all, finish, run_task,
}
use sovelma_os.Wasm.Platform.{Platform}
use sovelma_os.Wasm.Process.{Wasmi, WasmTask, Shared, pending, poll, poll_spawned}

module _ (crate : ArrayQueue TaskId) where
  open crate use {items}

  -- Whether a task stands in the queue of a priority.
  abbrev pub queued : Queues crate → Priority → TaskId → Bool
  queued qs r id = contains (items (queue_of crate qs r)) id

  push_or_drop-contains :
      (q : crate.Queue) (a b : TaskId)
      → a ≢ b
      → contains (items (push_or_drop crate q a)) b ≡ contains (items q) b
  push_or_drop-contains q a b n =
      ground (arith, items-push_or_drop crate q a, contains-append (items q) (a ∷ []) b, ==_iff a b)

  with_queue-queued :
      (qs : Queues crate) (p r : Priority) (q : crate.Queue) (id : TaskId)
      → contains (items q) id ≡ queued qs p id
      → queued (with_queue crate qs p q) r id ≡ queued qs r id
  unfolding queue_of with_queue
  with_queue-queued qs p r q id h = ground arith

  wake-queued :
      (w : TaskWaker) (qs : Queues crate) (r : Priority) (id : TaskId)
      → w.task_id ≢ id
      → queued (wake crate w qs) r id ≡ queued qs r id
  unfolding wake
  wake-queued w qs r id n =
      with_queue-queued qs w.task_queue r _ id
        (push_or_drop-contains (queue_of crate qs w.task_queue) w.task_id id n)

  wake_all-queued :
      (ws : List TaskWaker) (qs : Queues crate) (r : Priority) (id : TaskId)
      → All (λ w. w.task_id ≢ id) ws
      → queued (wake_all crate ws qs) r id ≡ queued qs r id
  unfolding wake_all
  wake_all-queued [] qs r id others = refl
  wake_all-queued (w ∷ ws) qs r id (n, others) =
      wake_all-queued ws (wake crate w qs) r id others ∙ wake-queued w qs r id n

  module _ {p : Platform} (engine : Wasmi p) (wakers : Waker → TaskWaker) where
    -- A module that yields is stranded: when the poll of a task that runs a module is suspended, and
    -- the host calls it made woke no other waker of this task, the executor keeps the task, to be
    -- resumed, but the turn has put it into no queue: it stands in a queue only if it did before.
    pub run_task-stranded :
        (id : TaskId) (from r : Priority) (x : Executor crate (WasmTask engine))
        (shared : Shared engine) (task : Task (WasmTask engine))
        → lookup id x.tasks ≡ some task
        → task.id ≡ id
        → (poll engine shared task.future).0 ≡ pending
        → All (λ w. w.task_id ≢ id) (map wakers (poll engine shared task.future).3)
        → let (x', shared') = run_task crate (poll_spawned engine wakers) id from (x, shared) in
          (lookup id x'.tasks ≡ some (record task { future = (poll engine shared task.future).1 }))
          × (queued x'.task_queues r id ≡ queued x.task_queues r id)
    unfolding run_task poll_spawned finish
    run_task-stranded id from r x shared task found same waits others =
        let kept =
          lookup-insert_self id
            (record task { id = id; future = (poll engine shared task.future).1 }) x.tasks in
        rw (found, run_task)
          (rw (waits, finish) (rw same (kept, wake_all-queued _ x.task_queues r id others)))
