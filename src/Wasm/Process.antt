-- ===== src/Wasm/Process.antt =====
-- kernel/src/wasm/mod.rs: processes, and `WasmTask`, the future that runs one. The interpreter
-- `wasmi` is a parameter: its instances, its suspended invocations, and how a run ends. A run works
-- on the world that its host functions see.
pub mod Fuel
pub mod Stranded
mod Examples
use sovelma_os.Prelude.{ℕ, Bool, List, [], Option, none, some, map, if◌then◌else◌}
use sovelma_os.Prelude.Maps.{BTreeMap}
use sovelma_os.Capability.{Capability}
use sovelma_os.Sync.Future.{Waker, Poll}
use sovelma_os.Sync.Registry.{Registry}
use sovelma_os.Fs.RamFs.{RamFs}
use sovelma_os.Task.Executor.{TaskWaker}
use sovelma_os.Wasm.Platform.{Platform}
use sovelma_os.Wasm.Host.{HostState, World, with_capabilities}

abbrev pub fuel_per_slice : ℕ
fuel_per_slice = 10_000

-- How a run ends: finished, suspended by a trap of a host function, or with an error.
pub data Ended (Invocation Error : Type 0) : Type 0 where
  finished : Ended Invocation Error
  resumable : Invocation → Ended Invocation Error
  broken : Error → Ended Invocation Error

-- `Result<T, wasmi::Error>`.
pub data WasmResult (E A : Type 0) : Type 0 where
  ok : A → WasmResult E A
  err : E → WasmResult E A

pub data TaskPoll (E : Type 0) : Type 0 where
  ready : WasmResult E (Unit {0}) → TaskPoll E
  pending : TaskPoll E

pub record Wasmi (p : Platform) : Type 1 where
  pub Instance : Type 0
  pub Invocation : Type 0
  pub Error : Type 0
  -- `Module::new`, `instantiate` and `start`, with the host functions linked.
  pub instantiate : (wasm_bytes : List ℕ) → World p → WasmResult Error (Instance × World p)
  -- `none` is an error, which the kernel only logs.
  pub add_fuel : ℕ → Instance → Option Instance
  pub has_func : Instance → (name : List ℕ) → Bool
  pub unreachable : Error
  pub run : (name : List ℕ) → Instance → World p → WasmResult Error (Instance × World p)
  pub call_resumable :
      (name : List ℕ) → Instance → World p → Ended Invocation Error × Instance × World p
  pub resume : Invocation → Instance → World p → Ended Invocation Error × Instance × World p

module _ {p : Platform} (engine : Wasmi p) where
  -- What all processes share.
  pub record Shared : Type 0 where
    pub fs : RamFs
    pub registry : Registry p.crate
    pub next_index : ℕ

  pub record WasmProcess : Type 0 where
    pub inst : engine.Instance
    pub host : HostState
    pub memory : Option p.Mem

  pub record WasmTask : Type 0 where
    pub process : WasmProcess
    pub func_name : List ℕ
    pub invocation : Option engine.Invocation

  abbrev pub world : HostState → Option p.Mem → Shared → World p
  world host memory shared = record {
    host = host;
    memory = memory;
    fs = shared.fs;
    registry = shared.registry;
    next_index = shared.next_index;
    woken = [];
  }

  abbrev pub shared_of : World p → Shared
  shared_of w = record { fs = w.fs; registry = w.registry; next_index = w.next_index }

  abbrev pub process_of : engine.Instance → World p → WasmProcess
  process_of inst w = record { inst = inst; host = w.host; memory = w.memory }

  unfoldable pub refuel : engine.Instance → engine.Instance
  refuel inst = elim (engine.add_fuel fuel_per_slice inst) [ none ↦ inst | some inst' ↦ inst' ]

  unfoldable pub spawn_process_with_caps :
      (wasm_bytes : List ℕ)
      → (initial_caps : List Capability) → (memory : Option p.Mem) → Shared
      → WasmResult engine.Error (WasmProcess × Shared)
  unfolding with_capabilities refuel
  spawn_process_with_caps wasm_bytes initial_caps memory shared =
      elim (engine.instantiate wasm_bytes (world (with_capabilities initial_caps) memory shared)) [
        | err e ↦ err e
        | ok (inst, w) ↦ ok (process_of (refuel inst) w, shared_of w)
      ]

  -- `WasmProcess::call`, without its results.
  unfoldable pub call :
      (name : List ℕ) → WasmProcess → Shared → WasmResult engine.Error (WasmProcess × Shared)
  call name process shared =
      if engine.has_func process.inst name
      then elim (engine.run name process.inst (world process.host process.memory shared)) [
        | err e ↦ err e
        | ok (inst, w) ↦ ok (process_of inst w, shared_of w)
      ]
      else err engine.unreachable

  -- `spawn_task`: the future of the task.
  unfoldable pub task_of : WasmProcess → (name : List ℕ) → WasmTask
  task_of process name = record { process = process; func_name = name; invocation = none }

  -- The fuel of a time slice: that of the interpreter, and that of the host functions.
  unfoldable pub refilled : WasmProcess → WasmProcess
  unfolding refuel
  refilled process = record process {
    inst = refuel process.inst;
    host = record process.host { fuel_remaining = fuel_per_slice };
  }

  -- The `match` on the result of a run, with the wakers that its host calls woke.
  unfoldable pub settle :
      (name : List ℕ)
      → Ended engine.Invocation engine.Error × engine.Instance × World p
      → TaskPoll engine.Error × WasmTask × Shared × List Waker
  settle name (finished, inst, w) = (
    ready (ok tt),
    record { process = process_of inst w; func_name = name; invocation = none },
    shared_of w,
    w.woken,
  )
  settle name (resumable i, inst, w) = (
    pending,
    record { process = process_of inst w; func_name = name; invocation = some i },
    shared_of w,
    w.woken,
  )
  settle name (broken e, inst, w) = (
    ready (err e),
    record { process = process_of inst w; func_name = name; invocation = none },
    shared_of w,
    w.woken,
  )

  -- `WasmTask::poll`, and `WasmCallFuture::poll` alike; neither uses its context.
  unfoldable pub poll : Shared → WasmTask → TaskPoll engine.Error × WasmTask × Shared × List Waker
  unfolding refilled settle
  poll shared task =
      let process = refilled task.process in
      let w = world process.host process.memory shared in
      elim task.invocation [
        | some i ↦ settle task.func_name (engine.resume i process.inst w)
        | none ↦
            if engine.has_func process.inst task.func_name
            then settle task.func_name (engine.call_resumable task.func_name process.inst w)
            else (ready (err engine.unreachable), record task { process = process }, shared, [])
      ]

  -- The `async` block of `spawn_task`: it prints how the task ended.
  unfoldable pub poll_spawned :
      (wakers : Waker → TaskWaker)
      → TaskWaker
      → Shared
      → WasmTask
      → Poll × WasmTask × Shared × List TaskWaker
  unfolding poll
  poll_spawned wakers waker shared task =
      let (answer, task', shared', woken) = poll shared task in
      (
        elim answer [ ready r ↦ Poll.ready | pending ↦ Poll.pending ],
        task',
        shared',
        map wakers woken,
      )
