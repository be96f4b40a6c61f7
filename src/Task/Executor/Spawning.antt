-- ===== src/Task/Executor/Spawning.antt =====
-- Spawning a task, and emptying a queue: when it ends, and when it cannot.
use sovelma_os.Prelude.{
  ℕ, zero, suc, ◌≤◌, ◌<◌, ◌≡◌, refl, ltb, List, [], ◌∷◌, ◌++◌, none, some, length, arith,
  if◌then◌else◌, Option-cases, inl, inr, Bool-cases,
}
use sovelma_os.Prelude.Maps.{nat_ord, lookup, insert, lookup-insert, lookup-remove}
use sovelma_os.ArrayQueue.{
  ArrayQueue, push_or_drop, items-push_or_drop, pop-PopsOldest, capacity-push_or_drop,
}
use sovelma_os.Sync.Future.{Poll}
use sovelma_os.Task.{TaskId, Task, Priority, idle, normal, high, critical}
use sovelma_os.Task.Executor.{
  Executor, Queues, TaskWaker, queue_of, with_queue, spawn, wake, wake_all, waker_of, finish,
  run_task, drain,
}

module _ (crate : ArrayQueue TaskId) where
  open crate use {items, capacity}

  queue_of-with_queue :
      (qs : Queues crate) (p : Priority) (q : crate.Queue)
      → queue_of crate (with_queue crate qs p q) p ≡ q
  unfolding queue_of with_queue
  queue_of-with_queue qs idle q = refl
  queue_of-with_queue qs normal q = refl
  queue_of-with_queue qs high q = refl
  queue_of-with_queue qs critical q = refl

  -- Spawning a task under a new identifier: with room in the queue of its priority, the task is
  -- registered and stands at the end of that queue; with the queue full, no task is registered
  -- under the identifier and the queue is as it was. Other tasks stay as they were.
  pub spawn_lem :
      {F : Type 0} (task : Task F) (x : Executor crate F) (id : TaskId)
      → lookup task.id x.tasks ≡ none
      → let q = queue_of crate x.task_queues task.priority in
        let x' = spawn crate task x in
        (items (queue_of crate x'.task_queues task.priority)
          ≡ (if ltb (length (items q)) (capacity q) then items q ++ task.id ∷ [] else items q))
        × (lookup id x'.tasks ≡ (
            if nat_ord.beq task.id id
            then (if ltb (length (items q)) (capacity q) then some task else none)
            else lookup id x.tasks))
  unfolding spawn
  spawn_lem task x id unused =
      let q = queue_of crate x.task_queues task.priority in
      elim (Bool-cases (ltb (length (items q)) (capacity q))) [
        | inl room ↦
            let (q', pushed, longer, _) = crate.push_room q task.id (ground arith) in
            (
              ground (arith, pushed, longer, queue_of-with_queue x.task_queues task.priority q'),
              ground (arith, pushed, lookup-insert task.id id task x.tasks),
            )
        | inr full ↦
            let refused = crate.push_full q task.id (ground arith) in
            (
              ground (arith, refused),
              ground (
                arith,
                refused,
                lookup-insert task.id id task x.tasks,
                lookup-remove task.id id (insert task.id task x.tasks),
              ),
            )
      ]

  module _ {F S : Type 0} (poll : TaskWaker → S → F → Poll × F × S × List TaskWaker) where
    run_task-quiet :
        (id : TaskId) (p : Priority) (x : Executor crate F) (s : S)
        → ((w : TaskWaker) (s : S) (f : F) → (poll w s f).3 ≡ [])
        → (run_task crate poll id p (x, s)).0.task_queues ≡ x.task_queues
    unfolding run_task finish wake_all
    run_task-quiet id p x s quiet = elim (Option-cases (lookup id x.tasks)) [
      | inl missing ↦ ground (arith, missing)
      | inr (task, found) ↦
          let nobody = quiet (waker_of id p x.waker_cache).0 s task.future in
          ground (arith, found, nobody)
    ]

    -- While no future wakes anybody, emptying a queue ends: as many turns as it has entries, and one
    -- more to see that it is empty.
    pub drain-quiet :
        (n : ℕ) (p : Priority) (x : Executor crate F) (s : S)
        → ((w : TaskWaker) (s : S) (f : F) → (poll w s f).3 ≡ [])
        → length (items (queue_of crate x.task_queues p)) ≤ n
        → (x' : Executor crate F) × (s' : S) × (drain crate poll (suc n) p (x, s) ≡ some (x', s'))
          × (items (queue_of crate x'.task_queues p) ≡ [])
    unfolding drain
    drain-quiet zero p x s quiet h = elim (pop-PopsOldest crate (queue_of crate x.task_queues p)) [
      | inl (e, none_left) ↦ (x, s, rw (e, drain) refl, none_left)
      | inr (id, q, e, front, c) ↦ absurd (ground arith)
    ]
    drain-quiet (suc m) p x s quiet h =
        elim (pop-PopsOldest crate (queue_of crate x.task_queues p)) [
          | inl (e, none_left) ↦ (x, s, rw (e, drain) refl, none_left)
          | inr (id, q, e, front, c) ↦
              let y : Executor crate F = record x {
                task_queues = with_queue crate x.task_queues p q;
              } in
              let (y', s') = run_task crate poll id p (y, s) in
              rw (e, drain)
                (drain-quiet m p y' s' quiet (
                  ground
                    (arith, run_task-quiet id p y s quiet, queue_of-with_queue x.task_queues p q)))
        ]

    -- One turn of a task that wakes itself and goes on.
    run_task-selfish :
        (id : ℕ) (p : Priority) (x : Executor crate F) (s : S) (task : Task F)
        → let waker : TaskWaker = record { task_id = id; task_queue = p } in
          (poll waker s task.future).0 ≡ Poll.pending
          → (poll waker s task.future).3 ≡ waker ∷ []
          → task.id ≡ id
          → lookup id x.tasks ≡ some task
          → lookup id x.waker_cache ≡ some waker
          → ((run_task crate poll id p (x, s)).0 ≡ record {
            tasks = insert id (record task { future = (poll waker s task.future).1 }) x.tasks;
            task_queues =
                with_queue crate x.task_queues p
                  (push_or_drop crate (queue_of crate x.task_queues p) id);
            waker_cache = x.waker_cache;
          })
    unfolding run_task waker_of finish wake_all wake
    run_task-selfish id p x s task waits wakes same found cached =
        rw (found, run_task) (rw (cached, waker_of) (rw waits (rw wakes (rw same refl))))

    -- The futures of a class `Selfish` never finish, wake their own task and nobody else whenever they
    -- are polled, and stay in the class, as `yield_now` in a loop does; other futures may do anything.
    -- Let a registered task with such a future stand alone in its queue, its waker, that of this
    -- queue, be cached, and the queue have room for one task. Then the queue is never found empty: no
    -- number of turns is enough to drain it.
    pub drain-starves :
        (fuel id : ℕ) (p : Priority) (x : Executor crate F) (s : S) (task : Task F)
        (Selfish : F → Type 0)
        → ((w : TaskWaker) (s : S) (f : F)
            → Selfish f
            → ((poll w s f).0 ≡ Poll.pending) × ((poll w s f).3 ≡ w ∷ []) × Selfish (poll w s f).1)
        → Selfish task.future
        → task.id ≡ id
        → lookup id x.tasks ≡ some task
        → lookup id x.waker_cache ≡ some (record { task_id = id; task_queue = p })
        → items (queue_of crate x.task_queues p) ≡ id ∷ []
        → 0 < capacity (queue_of crate x.task_queues p)
        → drain crate poll fuel p (x, s) ≡ none
    unfolding drain
    drain-starves zero id p x s task Selfish selfish own same found cached front room = refl
    drain-starves (suc fuel) id p x s task Selfish selfish own same found cached front room =
        elim (pop-PopsOldest crate (queue_of crate x.task_queues p)) [
          | inl (e, none_left) ↦ absurd (ground arith)
          | inr (id', q, e, front', c) ↦
              let at : id' ≡ id = ground arith in
              let y : Executor crate F = record x {
                task_queues = with_queue crate x.task_queues p q;
              } in
              let waker : TaskWaker = record { task_id = id; task_queue = p } in
              let asked = selfish waker s task.future own in
              let task' : Task F = record task { future = (poll waker s task.future).1 } in
              let after = run_task-selfish id p y s task asked.0 asked.1 same found cached in
              let there = queue_of-with_queue x.task_queues p q in
              let back_queue =
                queue_of-with_queue y.task_queues p
                  (push_or_drop crate (queue_of crate y.task_queues p) id) in
              let (y', s') = run_task crate poll id p (y, s) in
              rw (e, drain)
                (rw at (
                  drain-starves fuel id p y' s' task' Selfish selfish asked.2 same
                    (ground (arith, after, lookup-insert id id task' x.tasks))
                    (ground (arith, after))
                    (ground (arith, after, there, back_queue, items-push_or_drop crate q id))
                    (ground (arith, after, there, back_queue, capacity-push_or_drop crate q id))))
        ]
