-- ===== src/Wasm/Sdk/SemRefinement.antt =====
-- A semaphore as a module sees it through the SDK, against a counter with a limit.
use sovelma_os.Prelude.{
  ℕ, ◌+◌, ◌-◌, ◌*◌, ◌≤◌, ◌≡◌, refl, subst, min, ◌==◌, Bool, true, false, List, [], ◌∷◌, some,
  length, arith, if◌then◌else◌,
}
use sovelma_os.Prelude.Words.{ℤ, pos}
use sovelma_os.Prelude.Maps.{nat_ord, lookup-insert_self}
use sovelma_os.Capability.CapabilityRights
use sovelma_os.ArrayQueue.{pop-PopsOldest}
use sovelma_os.Sync.Future.{Waker}
use sovelma_os.Sync.Semaphore.{Semaphore}
use sovelma_os.Sync.Semaphore
use sovelma_os.Sync.Semaphore.Counting.{IsValid, try_acquire_lem, add_permit_lem, release_lem}
use sovelma_os.Sync.Registry.{get_semaphore, put_semaphore}
use sovelma_os.Wasm.Error.{sem_wait, invalid_handle, sem_no_permits}
use sovelma_os.Wasm.Platform.{Platform}
use sovelma_os.Wasm.Host.{
  World, Outcome, returned, trapped, go, authorize, get_capability, as_semaphore, charged,
  consume_fuel,
}
use sovelma_os.Wasm.Host.Sync.{
  acquire_object, release_object, sp_sem_acquire, sp_sem_try_acquire, sp_sem_release, note,
}
use sovelma_os.Wasm.Host.Calls.{call}
use sovelma_os.Wasm.Sdk.{
  SdkResult, ok, Called, answered, left, SemHandle, decoded, decode_unit, decode_try, acquire,
  try_acquire, release,
}

-- What the module is promised: a count, and its limit.
pub record Counter : Type 0 where
  pub permits : ℕ
  pub limit : ℕ

pub data SemOp : Type 0 where
  acquires tries releases : SemOp

-- How an operation ends: done, whether it took a permit, or waiting for one.
pub data SemAnswer : Type 0 where
  unit : SemAnswer
  took : Bool → SemAnswer
  waits : SemAnswer
  unlike : SemAnswer

abbrev take_one : Counter → Counter
take_one c = record c { permits = c.permits - 1 }

-- The operations of the counter.
unfoldable pub promised : SemOp → Counter → SemAnswer × Counter
promised acquires c = (if c.permits == 0 then waits else unit, take_one c)
promised tries c = (took (if c.permits == 0 then false else true), take_one c)
promised releases c = (unit, record c { permits = min (c.permits + 1) c.limit })

unfoldable pub promised_all : List SemOp → Counter → List SemAnswer × Counter
unfolding promised
promised_all [] c = ([], c)
promised_all (op ∷ ops) c =
    let (a, c') = promised op c in let (rest, c'') = promised_all ops c' in (a ∷ rest, c'')

-- What a module reads off the ends of the SDK's functions.
unfoldable pub read_unit : Called (SdkResult (Unit {0})) → SemAnswer
read_unit (answered (ok u)) = unit
read_unit (left (trapped (sem_wait handle))) = waits
read_unit _ = unlike

unfoldable pub read_try : Called (SdkResult Bool) → SemAnswer
read_try (answered (ok b)) = took b
read_try _ = unlike

module _ (p : Platform) where
  -- The functions of the SDK, one after another; `failures` weak exchanges fail in each.
  unfoldable pub performed : ℕ → SemHandle → SemOp → World p → SemAnswer × World p
  unfolding read_unit read_try
  performed failures handle acquires w =
      let (a, w') = acquire p failures handle w in (read_unit a, w')
  performed failures handle tries w =
      let (a, w') = try_acquire p failures handle w in (read_try a, w')
  performed failures handle releases w =
      let (a, w') = release p failures handle w in (read_unit a, w')

  unfoldable pub performed_all : ℕ → SemHandle → List SemOp → World p → List SemAnswer × World p
  unfolding performed
  performed_all failures handle [] w = ([], w)
  performed_all failures handle (op ∷ ops) w =
      let (a, w') = performed failures handle op w in
      let (rest, w'') = performed_all failures handle ops w' in (a ∷ rest, w'')

  -- The handle names a capability that may call a registered semaphore with the counter's values.
  pub record Represents (handle : SemHandle) (c : Counter) (w : World p) : Type 0 where
    pub object : ℕ
    pub rights : ℕ
    pub sem : Semaphore p.crate
    pub authorized :
        authorize p w.host handle.cap as_semaphore CapabilityRights.call invalid_handle
        ≡ go (object, rights)
    pub registered : get_semaphore p.crate w.registry object ≡ some sem
    pub permits_eq : sem.permits ≡ c.permits
    pub limit_eq : sem.max_permits ≡ c.limit
    pub valid : IsValid p.crate sem

  -- Enough fuel: the call is made in a world that differs in its fuel only.
  abbrev fed : World p → World p
  fed w = record w { host = record w.host { fuel_remaining = w.host.fuel_remaining - 20 } }

  charged_enough :
      (w : World p) (rest : World p → Outcome × World p)
      → 520 ≤ w.host.fuel_remaining
      → charged p 20 w rest ≡ rest (fed w)
  unfolding charged consume_fuel
  charged_enough w rest h = ground arith

  fed-Represents :
      (handle : SemHandle) (c : Counter) (w : World p)
      → Represents handle c w
      → Represents handle c (fed w)
  unfolding authorize get_capability
  fed-Represents handle c w r = record {
    object = r.object;
    rights = r.rights;
    sem = r.sem;
    authorized = r.authorized;
    registered = r.registered;
    permits_eq = r.permits_eq;
    limit_eq = r.limit_eq;
    valid = r.valid;
  }

  -- The world with another semaphore behind the handle.
  abbrev with_sem : (object : ℕ) → Semaphore p.crate → List Waker → World p → World p
  with_sem object sem woken w = record w {
    registry = put_semaphore p.crate w.registry object sem;
    woken = woken;
  }

  acquire_object_eq :
      (failures : ℕ) (contended : ℕ → Outcome) (cap : ℤ) (w : World p) (object rights : ℕ)
      (sem : Semaphore p.crate)
      → authorize p w.host cap as_semaphore CapabilityRights.call invalid_handle
        ≡ go (object, rights)
      → get_semaphore p.crate w.registry object ≡ some sem
      → acquire_object p failures contended cap w ≡ (
        (if sem.permits == 0 then contended object else returned (pos 0)),
        with_sem object (record sem { permits = sem.permits - 1 }) w.woken w,
      )
  unfolding acquire_object
  acquire_object_eq failures contended cap w object rights sem e held =
      rw (e, acquire_object) (rw held (ground (arith, try_acquire_lem p.crate failures sem)))

  release_object_eq :
      (failures : ℕ) (cap : ℤ) (w : World p) (object rights : ℕ) (sem : Semaphore p.crate)
      → authorize p w.host cap as_semaphore CapabilityRights.call invalid_handle
        ≡ go (object, rights)
      → get_semaphore p.crate w.registry object ≡ some sem
      → release_object p failures cap w ≡ (
        returned (pos 0),
        with_sem object
            (Semaphore.release p.crate failures sem).1
            (note (Semaphore.release p.crate failures sem).0 w.woken)
            w,
      )
  unfolding release_object
  release_object_eq failures cap w object rights sem e held = rw (e, release_object) (rw held refl)

  with_sem-Represents :
      (handle : SemHandle) (c c' : Counter) (w : World p) (sem : Semaphore p.crate)
      (woken : List Waker) (r : Represents handle c w)
      → sem.permits ≡ c'.permits
      → sem.max_permits ≡ c'.limit
      → IsValid p.crate sem
      → Represents handle c' (with_sem r.object sem woken w)
  unfolding get_semaphore put_semaphore
  with_sem-Represents handle c c' w sem woken r e l v = record {
    object = r.object;
    rights = r.rights;
    sem = sem;
    authorized = r.authorized;
    registered = lookup-insert_self r.object sem w.registry.semaphores;
    permits_eq = e;
    limit_eq = l;
    valid = v;
  }

  release-limit :
      (failures : ℕ) (sem : Semaphore p.crate)
      → IsValid p.crate sem
      → (Semaphore.release p.crate failures sem).1.max_permits ≡ sem.max_permits
  unfolding Semaphore.release
  release-limit failures sem v =
      ground (arith, add_permit_lem p.crate failures sem v, pop-PopsOldest p.crate sem.waiters)

  -- One function of the SDK against one operation of the counter.
  abbrev Refines : ℕ → SemHandle → SemOp → Counter → World p → Type 0
  Refines failures handle op c w =
      (w' : World p) × (performed failures handle op w ≡ ((promised op c).0, w'))
      × Represents handle (promised op c).1 w'
      × (w.host.fuel_remaining ≤ w'.host.fuel_remaining + 20)

  performed-Refines :
      (failures : ℕ) (handle : SemHandle) (op : SemOp) (c : Counter) (w : World p)
      → Represents handle c w
      → 520 ≤ w.host.fuel_remaining
      → Refines failures handle op c w
  unfolding performed promised read_unit read_try acquire try_acquire release decoded decode_unit
      decode_try call sp_sem_acquire sp_sem_try_acquire sp_sem_release
  performed-Refines failures handle acquires c w r h =
      let fuel =
        charged_enough w (acquire_object p failures (λ o. trapped (sem_wait o)) handle.cap) h in
      let r' = fed-Represents handle c w r in
      let same =
        acquire_object_eq failures (λ o. trapped (sem_wait o)) handle.cap (fed w) r'.object
          r'.rights r'.sem r'.authorized r'.registered in
      (
        _,
        ground (arith, fuel, same),
        with_sem-Represents handle c (take_one c) (fed w)
            (record r'.sem { permits = r'.sem.permits - 1 }) w.woken r' (ground arith) r'.limit_eq
            (ground arith),
        omega arith,
      )
  performed-Refines failures handle tries c w r h =
      let fuel =
        charged_enough w (acquire_object p failures (λ o. returned sem_no_permits) handle.cap) h in
      let r' = fed-Represents handle c w r in
      let same =
        acquire_object_eq failures (λ o. returned sem_no_permits) handle.cap (fed w) r'.object
          r'.rights r'.sem r'.authorized r'.registered in
      (
        _,
        ground (arith, fuel, same),
        with_sem-Represents handle c (take_one c) (fed w)
            (record r'.sem { permits = r'.sem.permits - 1 }) w.woken r' (ground arith) r'.limit_eq
            (ground arith),
        omega arith,
      )
  performed-Refines failures handle releases c w r h =
      let fuel = charged_enough w (release_object p failures handle.cap) h in
      let r' = fed-Represents handle c w r in
      let same =
        release_object_eq failures handle.cap (fed w) r'.object r'.rights r'.sem r'.authorized
          r'.registered in
      let (count, fine, _) = release_lem p.crate failures r'.sem r'.valid in
      let limit = release-limit failures r'.sem r'.valid in
      (
        _,
        ground (arith, fuel, same),
        with_sem-Represents handle c (promised releases c).1 (fed w)
            (Semaphore.release p.crate failures r'.sem).1
            (note (Semaphore.release p.crate failures r'.sem).0 w.woken) r' (ground (arith, count))
            (ground (arith, limit)) fine,
        omega arith,
      )

  -- The SDK implements the counter: on a handle to a semaphore that the module may call, with fuel
  -- for the calls, any sequence of `sem_acquire`, `sem_try_acquire` and `sem_release` answers what
  -- a counter with a limit answers, where an acquire without a permit is left waiting, and leaves
  -- the semaphore with the counter's value, however many weak exchanges fail in the kernel.
  pub performed_all-refines :
      (failures : ℕ) (handle : SemHandle) (ops : List SemOp) (c : Counter) (w : World p)
      → Represents handle c w
      → 500 + 20 * length ops ≤ w.host.fuel_remaining
      → ((performed_all failures handle ops w).0 ≡ (promised_all ops c).0)
        × Represents handle (promised_all ops c).1 (performed_all failures handle ops w).1
  unfolding performed_all promised_all
  performed_all-refines failures handle [] c w r h = (refl, r)
  performed_all-refines failures handle (op ∷ ops) c w r h =
      let (w', e, r', f) = performed-Refines failures handle op c w r (omega arith) in
      let (a, t) =
        performed_all-refines failures handle ops (promised op c).1 w' r' (omega arith) in
      (
        rw (e, performed_all) (rw a refl),
        subst (Represents handle (promised_all (op ∷ ops) c).1)
            {y = (performed_all failures handle (op ∷ ops) w).1} (ground (arith, e)) t,
      )
