-- ===== src/Wasm/Host.antt =====
-- kernel/src/wasm/host.rs: `HostState`, the fuel, and the check of the capability that a call
-- names. A `World` is what a host function can reach: its module's state and memory, the static
-- file system, the static registry, and the static counter of `Capability::new`.
pub mod Files
pub mod Sync
pub mod Calls
use sovelma_os.Prelude.{
  ℕ, ◌%◌, ◌^◌, Bool, List, [], ◌∷◌, Option, none, some, if◌then◌else◌, ◌==◌, leb,
}
use sovelma_os.Prelude.Words.{ℤ, as_u64, saturating_sub}
use sovelma_os.Prelude.Maps.{BTreeMap, lookup, insert, remove}
use sovelma_os.Capability.{
  CapId, cap_id_ord, from_u64, Capability, CapabilityType, directory, file, mutex, semaphore,
}
use sovelma_os.Sync.Future.{Waker}
use sovelma_os.Sync.Registry.{Registry}
use sovelma_os.Fs.RamFs.{RamFs}
use sovelma_os.Wasm.Error.{HostTrap, yield, yield_threshold, cap_not_found, permission_denied}
use sovelma_os.Wasm.Platform.{Platform}

pub record HostState : Type 0 where
  pub capabilities : BTreeMap CapId Capability
  pub fuel_remaining : ℕ

unfoldable pub new : HostState
new = record { capabilities = []; fuel_remaining = 0 }

unfoldable pub add_capability : HostState → Capability → CapId × HostState
add_capability h cap = (cap.id, record h { capabilities = insert cap.id cap h.capabilities })

-- The loop of `with_capabilities`.
unfoldable pub grant_all : List Capability → HostState → HostState
grant_all [] h = h
grant_all (cap ∷ caps) h =
    grant_all caps (record h { capabilities = insert cap.id cap h.capabilities })

unfoldable pub with_capabilities : List Capability → HostState
unfolding grant_all new
with_capabilities initial = grant_all initial new

unfoldable pub get_capability : HostState → CapId → Option Capability
get_capability h id = elim (lookup id h.capabilities) [
  | none ↦ none
  | some cap ↦ if cap.generation % 2 ^ 32 == id.generation then some cap else none
]

unfoldable pub revoke : HostState → CapId → HostState
revoke h id = record h { capabilities = remove id h.capabilities }

unfoldable pub consume_fuel : HostState → ℕ → Bool × HostState
consume_fuel h cost =
    let fuel = saturating_sub h.fuel_remaining cost in
    (leb yield_threshold fuel, record h { fuel_remaining = fuel })

-- How a host function ends: `Ok` of a number, `Ok(())`, a trap, or a panic of the kernel.
pub data Outcome : Type 0 where
  returned : ℤ → Outcome
  done panicked : Outcome
  trapped : HostTrap → Outcome

-- Go on with a value, or return early.
pub data Flow (A : Type 0) : Type 0 where
  go : A → Flow A
  stop : Outcome → Flow A

-- The handle of an object of one kind.
unfoldable pub as_directory : CapabilityType → Option ℕ
as_directory (directory h) = some h
as_directory _ = none

unfoldable pub as_file : CapabilityType → Option ℕ
as_file (file h) = some h
as_file _ = none

unfoldable pub as_file_or_directory : CapabilityType → Option ℕ
as_file_or_directory (file h) = some h
as_file_or_directory (directory h) = some h
as_file_or_directory _ = none

unfoldable pub as_mutex : CapabilityType → Option ℕ
as_mutex (mutex h) = some h
as_mutex _ = none

unfoldable pub as_semaphore : CapabilityType → Option ℕ
as_semaphore (semaphore h) = some h
as_semaphore _ = none

module _ (p : Platform) where
  pub record World : Type 0 where
    pub host : HostState
    pub memory : Option p.Mem
    pub fs : RamFs
    pub registry : Registry p.crate
    pub next_index : ℕ
    -- The wakers that were woken.
    pub woken : List Waker

  -- `check_fuel(cost)?`, then the rest of the function.
  unfoldable pub charged : ℕ → World → (World → Outcome × World) → Outcome × World
  unfolding consume_fuel
  charged cost w rest =
      let (enough, host) = consume_fuel w.host cost in
      let w' = record w { host = host } in if enough then rest w' else (trapped yield, w')

  -- The capability that an argument names, if it is of the kind and has the right: the handle of
  -- its object, and its rights.
  unfoldable pub authorize :
      HostState
      → (cap : ℤ) → (kind : CapabilityType → Option ℕ) → (right : ℕ) → (wrong_kind : ℤ)
      → Flow (ℕ × ℕ)
  unfolding get_capability
  authorize h cap kind right wrong_kind = elim (get_capability h (from_u64 (as_u64 cap))) [
    | none ↦ stop (returned cap_not_found)
    | some c ↦ elim (kind c.object) [
      | none ↦ stop (returned wrong_kind)
      | some handle ↦
          if p.flags.contains c.rights right
          then go (handle, c.rights)
          else stop (returned permission_denied)
    ]
  ]
