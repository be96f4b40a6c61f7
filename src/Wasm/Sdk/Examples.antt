-- ===== src/Wasm/Sdk/Examples.antt =====
-- A module with a semaphore of two permits: taken, taken, refused, given back.
use sovelma_os.Prelude.{◌≡◌, refl, true, false, List, [], ◌∷◌, none, arith}
use sovelma_os.Prelude.Words.{pos, negsuc}
use sovelma_os.Prelude.Maps.{lookup}
use sovelma_os.Capability.{Capability, CapabilityType, from_u64}
use sovelma_os.Sync.Semaphore.{Semaphore}
use sovelma_os.Sync.Registry.{get_semaphore}
use sovelma_os.Wasm.Platform.Sample.{platform}
use sovelma_os.Wasm.Host.{World, authorize, get_capability, as_semaphore}
use sovelma_os.Wasm.Sdk.{SemHandle, ok, err, decode_try, decode_handle}
use sovelma_os.Wasm.Sdk.SemRefinement.{
  SemOp, acquires, tries, releases, unit, took, waits, promised_all, performed_all, Represents,
  performed_all-refines,
}

abbrev caller : Capability
caller = record {
  id = record { index = 5; generation = 0 };
  rights = 16;
  object = CapabilityType.semaphore 1;
  generation = 0;
}

abbrev two : Semaphore platform.crate
two = record { permits = 2; max_permits = 2; waiters = record { contents = []; bound = 64 } }

abbrev started : World platform
started = record {
  host = record {
    capabilities = (record { index = 5; generation = 0 }, caller) ∷ [];
    fuel_remaining = 10000;
  };
  memory = none;
  fs = record { nodes = []; open_handles = []; next_handle = 1; next_handle_at = 10000 };
  registry = record {
    mutexes = [];
    semaphores = (1, two) ∷ [];
    next_mutex_id = 1;
    next_sem_id = 2;
  };
  next_index = 7;
  woken = [];
}

abbrev handle : SemHandle
handle = record { cap = pos 5 }

abbrev ops : List SemOp
ops = acquires ∷ tries ∷ tries ∷ acquires ∷ releases ∷ tries ∷ []

promises :
    (promised_all ops (record { permits = 2; limit = 2 })).0
    ≡ unit ∷ took true ∷ took false ∷ waits ∷ unit ∷ took true ∷ []
unfolding promised_all
promises = refl

codes :
    (decode_try 11 (negsuc 11) ≡ ok false)
    × (decode_try 11 (negsuc 12) ≡ err (negsuc 12))
    × (decode_handle (negsuc 4) ≡ err (negsuc 4))
unfolding decode_try decode_handle
codes = (refl, refl, refl)

started-Represents : Represents platform handle (record { permits = 2; limit = 2 }) started
unfolding authorize get_capability lookup from_u64 as_semaphore get_semaphore
started-Represents = record {
  object = 1;
  rights = 16;
  sem = two;
  authorized = refl;
  registered = refl;
  permits_eq = refl;
  limit_eq = refl;
  valid = ground arith;
}

performed_all-refines_example :
    ((performed_all platform 1 handle ops started).0
      ≡ (promised_all ops (record { permits = 2; limit = 2 })).0)
    × Represents platform handle
        (promised_all ops (record { permits = 2; limit = 2 })).1
        (performed_all platform 1 handle ops started).1
performed_all-refines_example =
    performed_all-refines platform 1 handle ops (record { permits = 2; limit = 2 }) started
      started-Represents (omega arith)
