-- ===== src/Wasm/Host/Calls/Examples.antt =====
-- The host functions at work, for a module that may read the root directory, with a file "a" in it.
use sovelma_os.Prelude.{◌≡◌, ◌⊎◌, refl, false, List, [], ◌∷◌, some, arith, subst}
use sovelma_os.Prelude.Words.{pos, negsuc}
use sovelma_os.Prelude.Maps.{lookup, AllValues}
use sovelma_os.Capability.{BitFlags, Capability, CapId, cap_id_ord, CapabilityType, from_u64}
use sovelma_os.Capability
use sovelma_os.Capability.CapabilityRights
use sovelma_os.Fs.Path.{parts, Name-beq}
use sovelma_os.Fs.RamFs.{RamFs}
use sovelma_os.Fs.RamFs
use sovelma_os.Sync.Registry.{init_registries}
use sovelma_os.Sync.Semaphore
use sovelma_os.Wasm.Error.{yield, invalid_handle}
use sovelma_os.Wasm.Platform.Sample.{platform}
use sovelma_os.Wasm.Host.{
  World, returned, trapped, go, authorize, as_semaphore, as_directory, get_capability, charged,
  consume_fuel,
}
use sovelma_os.Wasm.Host.Files.{
  sp_fs_open, sp_fs_mkdir, make_directory, open_directory, path_argument, derive_capability,
}
use sovelma_os.Wasm.Host.Sync.{sp_mutex_lock}
use sovelma_os.Wasm.Host.Calls.{Call, call, run}
use sovelma_os.Wasm.Host.Calls.Fuel.{IsPaid, call-IsPaid}
use sovelma_os.Wasm.Host.Calls.Kernel.{view}
use sovelma_os.Wasm.Host.Calls.Degradation.{Degraded, sp_fs_open-Degraded}
use sovelma_os.Wasm.Host.Calls.Confinement.{Lacks, run-Lacks}
use sovelma_os.Wasm.Host.Calls.ReadOnly.{run-nodes}
use sovelma_os.Wasm.Host.Calls.Locks.{Uncontended, run-Uncontended}
use sovelma_os.Wasm.Host.Calls.Permits.{AllBounded, run-AllBounded}
use sovelma_os.Wasm.Host.Calls.FileErrors.{Unchanged}
use sovelma_os.Wasm.Host.Calls.Errors.{call-Unchanged}

abbrev reader : Capability
reader = record {
  id = record { index = 5; generation = 0 };
  rights = 1;
  object = CapabilityType.directory 1;
  generation = 0;
}

-- Node 1 is the file "a", and handle 1 is open on the root.
abbrev files : RamFs
files = record {
  nodes = RamFs.directory ((97 ∷ [], 1) ∷ []) ∷ RamFs.file (7 ∷ 8 ∷ []) ∷ [];
  open_handles = (1, 0) ∷ [];
  next_handle = 2;
  next_handle_at = 10000;
}

abbrev begun : World platform
begun = record {
  host = record {
    capabilities = (record { index = 5; generation = 0 }, reader) ∷ [];
    fuel_remaining = 10000;
  };
  memory = some (97 ∷ 0 ∷ 0 ∷ 0 ∷ []);
  fs = files;
  registry = init_registries platform.crate;
  next_index = 7;
  woken = [];
}

opens_a : (sp_fs_open platform (pos 5) (pos 0) (pos 1) begun).0 ≡ returned (pos 7)
unfolding sp_fs_open open_directory charged consume_fuel path_argument authorize get_capability
    lookup from_u64 derive_capability as_directory RamFs.open_at RamFs.walk parts Name-beq
    Capability.as_u64
opens_a = refl

sp_fs_open-Degraded_example :
    Degraded platform
      (pos 5)
      (view platform begun)
      (view platform (sp_fs_open platform (pos 5) (pos 0) (pos 1) begun).1)
sp_fs_open-Degraded_example = sp_fs_open-Degraded platform (pos 5) (pos 0) (pos 1) begun 7 opens_a

-- What holds of the one capability of the table.
only : (P : Capability → Type 0) → P reader → AllValues P begun.host.capabilities
unfolding lookup
only P h = λ k c e. subst P (ground arith) h

abbrev calls : List Call
calls =
    Call.fs_open (pos 5) (pos 0) (pos 1)
    ∷ Call.fs_mkdir (pos 5) (pos 0) (pos 1)
    ∷ Call.mutex_create
    ∷ []

run-Lacks_example : Lacks platform 2 (run platform calls begun).host.capabilities
run-Lacks_example =
    run-Lacks platform 2 refl calls begun
      (only (λ c. platform.flags.contains c.rights 2 ≡ false) refl)

run-nodes_example : (run platform calls begun).fs.nodes ≡ begun.fs.nodes
run-nodes_example =
    run-nodes platform calls begun (only (λ c. platform.flags.contains c.rights 2 ≡ false) refl)

call-IsPaid_example :
    IsPaid platform begun (call platform (Call.fs_open (pos 5) (pos 0) (pos 1)) begun)
call-IsPaid_example = call-IsPaid platform (Call.fs_open (pos 5) (pos 0) (pos 1)) begun (λ e. cc)

-- A directory may not be made without the right to write.
denied : (call platform (Call.fs_mkdir (pos 5) (pos 0) (pos 1)) begun).0 ≡ returned (negsuc 4)
unfolding call sp_fs_mkdir make_directory charged consume_fuel path_argument authorize
    get_capability lookup from_u64 as_directory
denied = refl

call-Unchanged_example :
    Unchanged platform
      (view platform begun)
      (view platform (call platform (Call.fs_mkdir (pos 5) (pos 0) (pos 1)) begun).1)
call-Unchanged_example =
    call-Unchanged platform (Call.fs_mkdir (pos 5) (pos 0) (pos 1)) begun 4 (omega arith) denied

run-Uncontended_example :
    ((sp_mutex_lock platform
        (pos 7)
        (run platform (Call.mutex_create ∷ Call.mutex_lock (pos 7) ∷ []) begun)).0
      ≡ trapped yield)
    ⊎ Uncontended platform
        (sp_mutex_lock platform
          (pos 7)
          (run platform (Call.mutex_create ∷ Call.mutex_lock (pos 7) ∷ []) begun)).0
unfolding init_registries lookup
run-Uncontended_example =
    run-Uncontended platform (Call.mutex_create ∷ Call.mutex_lock (pos 7) ∷ []) begun (pos 7)
      (λ k m e. absurd (ground arith))

run-AllBounded_example :
    AllBounded platform (
      view platform
        (run platform (Call.sem_create (pos 2) ∷ Call.sem_release 0 (pos 7) ∷ []) begun))
unfolding init_registries lookup
run-AllBounded_example =
    run-AllBounded platform (Call.sem_create (pos 2) ∷ Call.sem_release 0 (pos 7) ∷ []) begun
      (λ k s e. absurd (ground arith))

-- A module with the right to call a semaphore of two permits.
abbrev two : Semaphore.Semaphore platform.crate
two = record { permits = 2; max_permits = 2; waiters = record { contents = []; bound = 100 } }

abbrev with_semaphore : World platform
with_semaphore = record begun {
  host = record {
    capabilities =
        (
          record { index = 5; generation = 0 },
          record reader { rights = 16; object = CapabilityType.semaphore 1 },
        )
        ∷ [];
    fuel_remaining = 10000;
  };
  registry = record (init_registries platform.crate) { semaphores = (1, two) ∷ [] };
}

may_call :
    authorize platform with_semaphore.host (pos 5) as_semaphore CapabilityRights.call invalid_handle
    ≡ go (1, 16)
unfolding authorize get_capability lookup from_u64 as_semaphore
may_call = refl
