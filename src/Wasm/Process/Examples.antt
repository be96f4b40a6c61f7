-- ===== src/Wasm/Process/Examples.antt =====
-- An engine whose modules yield for ever, a process with one capability, and its task.
use sovelma_os.Prelude.{ℕ, ◌≡◌, refl, true, [], ◌∷◌, some, none, arith}
use sovelma_os.Prelude.Words.{pos}
use sovelma_os.Prelude.Maps.{nat_ord, lookup}
use sovelma_os.ArrayQueue.{list_queue}
use sovelma_os.Capability.{Capability, CapabilityType}
use sovelma_os.Sync.Future.{Waker}
use sovelma_os.Sync.Registry.{init_registries}
use sovelma_os.Task.{TaskId, Task, normal, high}
use sovelma_os.Task.Executor.{Executor, TaskWaker, run_task}
use sovelma_os.Wasm.Error.{yield}
use sovelma_os.Wasm.Platform.Sample.{platform}
use sovelma_os.Wasm.Host.{World, trapped, with_capabilities}
use sovelma_os.Wasm.Host.Calls.{call, fs_size}
use sovelma_os.Wasm.Process.{Wasmi, ok, resumable, WasmTask, Shared, poll, poll_spawned, world}
use sovelma_os.Wasm.Process.Fuel.{call-with_capabilities}
use sovelma_os.Wasm.Process.Stranded.{queued, run_task-stranded}

-- An instance counts its fuel; an invocation is a number.
abbrev engine : Wasmi platform
engine = record {
  Instance = ℕ;
  Invocation = ℕ;
  Error = ℕ;
  instantiate = λ bytes w. ok (0, w);
  add_fuel = λ fuel i. some fuel;
  has_func = λ i name. true;
  unreachable = 0;
  run = λ name i w. ok (i, w);
  call_resumable = λ name i w. (resumable 1, i, w);
  resume = λ k i w. (resumable k, i, w);
}

abbrev shared : Shared engine
shared = record {
  fs = record { nodes = []; open_handles = []; next_handle = 1; next_handle_at = 10000 };
  registry = init_registries platform.crate;
  next_index = 1;
}

abbrev reader : Capability
reader = record {
  id = record { index = 5; generation = 0 };
  rights = 1;
  object = CapabilityType.file 1;
  generation = 0;
}

abbrev spawned : World platform
spawned = world engine (with_capabilities (reader ∷ [])) none shared

call-with_capabilities_example : (call platform (fs_size (pos 5)) spawned).0 ≡ trapped yield
call-with_capabilities_example =
    call-with_capabilities platform (reader ∷ []) (fs_size (pos 5)) spawned refl
      (λ z. absurd (ground arith))

abbrev yielder : WasmTask engine
yielder = record {
  process = record { inst = 0; host = with_capabilities (reader ∷ []); memory = none };
  func_name = 95 ∷ [];
  invocation = none;
}

abbrev task : Task (WasmTask engine)
task = record { id = 3; priority = normal; future = yielder }

abbrev popped : Executor (list_queue TaskId) (WasmTask engine)
popped = record {
  tasks = (3, task) ∷ [];
  task_queues = record {
    idle_queue = record { contents = []; bound = 100 };
    normal_queue = record { contents = []; bound = 100 };
    high_queue = record { contents = []; bound = 100 };
    critical_queue = record { contents = []; bound = 100 };
  };
  waker_cache = [];
}

abbrev wakers : Waker → TaskWaker
wakers w = record { task_id = w; task_queue = high }

run_task-stranded_example :
    let (x', shared') =
      run_task (list_queue TaskId) (poll_spawned engine wakers) 3 normal (popped, shared) in
    (lookup 3 x'.tasks ≡ some (record task { future = (poll engine shared yielder).1 }))
    × (queued (list_queue TaskId) x'.task_queues normal 3
        ≡ queued (list_queue TaskId) popped.task_queues normal 3)
unfolding poll lookup
run_task-stranded_example =
    run_task-stranded (list_queue TaskId) engine wakers 3 normal normal popped shared task refl refl
      refl tt
