-- ===== src/Task.antt =====
-- kernel/src/task/mod.rs: tasks, their identifiers and priorities, and `YieldNow`.
pub mod Executor
use sovelma_os.Prelude.{ℕ, ◌+◌, ◌%◌, ◌^◌, Bool, true, false, if◌then◌else◌}
use sovelma_os.Sync.Future.{Poll}

abbrev pub TaskId : Type 0
TaskId = ℕ

-- `fetch_add(1)` on an `AtomicU64`: the identifier, and the counter afterwards.
unfoldable pub new_id : ℕ → TaskId × ℕ
new_id next_id = (next_id, (next_id + 1) % 2 ^ 64)

pub data Priority : Type 0 where
  idle normal high critical : Priority

pub record Task (F : Type 0) : Type 0 where
  pub id : TaskId
  pub priority : Priority
  pub future : F

unfoldable pub with_priority : {F : Type 0} → ℕ → F → Priority → Task F × ℕ
unfolding new_id
with_priority next_id future priority =
    let (id, next_id') = new_id next_id in
    (record { id = id; priority = priority; future = future }, next_id')

unfoldable pub new : {F : Type 0} → ℕ → F → Task F × ℕ
unfolding with_priority
new next_id future = with_priority next_id future normal

-- The future of `yield_now()`.
pub record YieldNow : Type 0 where
  pub yielded : Bool

-- `poll` of it: the answer, whether it woke its own task, and the future afterwards.
unfoldable pub poll_yield_now : YieldNow → Poll × Bool × YieldNow
poll_yield_now f =
    if f.yielded then (Poll.ready, false, f) else (Poll.pending, true, record { yielded = true })
