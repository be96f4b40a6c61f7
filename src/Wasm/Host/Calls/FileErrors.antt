-- ===== src/Wasm/Host/Calls/FileErrors.antt =====
-- Calls on files, and the creation of objects: an error changes nothing of the kernel.
use sovelma_os.Prelude.{ℕ, ◌<◌, ◌%◌, ◌^◌, ◌≡◌, ◌≢◌, refl, ap, List, arith, inl, inr}
use sovelma_os.Prelude.Bits.{bit_or_shifted}
use sovelma_os.Prelude.Words.{ℤ, pos, negsuc, as_u64, as_i64}
use sovelma_os.Prelude.Maps.{nat_ord, lookup}
use sovelma_os.Capability
use sovelma_os.Capability.{new_capability, CapabilityType}
use sovelma_os.Capability.CapabilityRights
use sovelma_os.Fs.RamFs
use sovelma_os.Sync.Registry.{create_mutex, create_semaphore}
use sovelma_os.Wasm.Error.{fs_error, not_a_directory}
use sovelma_os.Wasm.Platform.{Platform}
use sovelma_os.Wasm.Host.{World, Outcome, returned, authorize, as_directory, add_capability}
use sovelma_os.Wasm.Host.Files.{close_capability, make_directory, derive_capability, path_argument}
use sovelma_os.Wasm.Host.Sync.{make_mutex, make_semaphore, give}
use sovelma_os.Wasm.Host.Calls.Kernel.{Kernel, view}
use sovelma_os.Wasm.Host.Calls.Authority.{Flow-cases, Opening, refused, opened, mkdir_at-err}

-- A small identifier is a positive result.
as_i64-as_u64 :
    (index n : ℕ)
    → index < 2 ^ 32
    → as_i64 (Capability.as_u64 (record { index = index; generation = 0 })) ≢ negsuc n
unfolding Capability.as_u64
as_i64-as_u64 index n h = ground (arith, bit_or_shifted 32 0 index)

module _ (p : Platform) where
  -- The same capabilities, file system and counter, and the same object under every handle.
  pub record Unchanged (k k' : Kernel p) : Type 0 where
    pub capabilities : k'.capabilities ≡ k.capabilities
    pub fs : k'.fs ≡ k.fs
    pub next_index : k'.next_index ≡ k.next_index
    pub mutexes : (h : ℕ) → lookup h k'.registry.mutexes ≡ lookup h k.registry.mutexes
    pub semaphores : (h : ℕ) → lookup h k'.registry.semaphores ≡ lookup h k.registry.semaphores

  pub unchanged : {k k' : Kernel p} → k' ≡ k → Unchanged k k'
  unchanged e = record {
    capabilities = ap (λ k. k.capabilities) e;
    fs = ap (λ k. k.fs) e;
    next_index = ap (λ k. k.next_index) e;
    mutexes = λ h. ap (λ k. lookup h k.registry.mutexes) e;
    semaphores = λ h. ap (λ k. lookup h k.registry.semaphores) e;
  }

  -- An error code leaves the kernel unchanged.
  abbrev pub Atomic : Kernel p → Outcome → Kernel p → Type 0
  Atomic k o k' = (n : ℕ) → o ≡ returned (negsuc n) → Unchanged k k'

  pub give-Atomic :
      (object : CapabilityType) (v w : World p)
      → v.next_index < 2 ^ 32
      → Atomic (view p w) (give p object v).0 (view p (give p object v).1)
  unfolding give new_capability add_capability
  give-Atomic object v w low n e = absurd (as_i64-as_u64 v.next_index n low (ground arith))

  pub Opening-Atomic :
      (cap : ℤ) (v : World p) (r : Outcome × World p)
      → v.next_index < 2 ^ 32
      → Opening p cap v r
      → Atomic (view p v) r.0 (view p r.1)
  unfolding derive_capability new_capability add_capability
  Opening-Atomic cap v _ low (refused o v' same _ _) n e = unchanged same
  Opening-Atomic cap v _ low (opened handle rights new_handle path fs' au _) n e =
      absurd (as_i64-as_u64 v.next_index n low (ground arith))

  pub close_capability-Atomic :
      (a : ℤ) (v : World p)
      → Atomic (view p v) (close_capability p a v).0 (view p (close_capability p a v).1)
  unfolding close_capability
  close_capability-Atomic a v n e = absurd (ground arith)

  pub make_mutex-Atomic :
      (v : World p)
      → v.next_index < 2 ^ 32
      → Atomic (view p v) (make_mutex p v).0 (view p (make_mutex p v).1)
  unfolding make_mutex
  make_mutex-Atomic v low =
      let (handle, registry') = create_mutex p.crate v.registry in
      give-Atomic (CapabilityType.mutex handle) (record v { registry = registry' }) v low

  pub make_semaphore-Atomic :
      (a : ℤ) (v : World p)
      → v.next_index < 2 ^ 32
      → Atomic (view p v) (make_semaphore p a v).0 (view p (make_semaphore p a v).1)
  unfolding make_semaphore
  make_semaphore-Atomic (negsuc m) v low n e = unchanged refl
  make_semaphore-Atomic (pos m) v low n e =
      let (handle, registry') = create_semaphore p.crate v.registry (as_u64 (pos m)) in
      give-Atomic (CapabilityType.semaphore handle) (record v { registry = registry' }) v low n e

  pub make_directory-Atomic :
      (a b c : ℤ) (v : World p)
      → Atomic (view p v) (make_directory p a b c v).0 (view p (make_directory p a b c v).1)
  unfolding make_directory
  make_directory-Atomic a b c v = elim (Flow-cases (path_argument p v b c)) [
    | inr (o, e) ↦ rw (e, make_directory) (λ n q. unchanged refl)
    | inl (path, e) ↦
        elim (Flow-cases
          (authorize p v.host a as_directory CapabilityRights.write not_a_directory)) [
            | inr (o, e') ↦ rw (e, make_directory) (rw e' (λ n q. unchanged refl))
            | inl ((handle, rights), e') ↦
                rw (e, make_directory) (rw e' (onward path handle _ _ refl))
          ]
  ]
    where
      onward :
          (path : List ℕ) (handle : ℕ) (r : RamFs.Result (Unit {0})) (fs' : RamFs.RamFs)
          → RamFs.mkdir_at v.fs (handle % 2 ^ 32) path ≡ (r, fs')
          → let o : Outcome × World p = elim r [
            | RamFs.err e ↦ (returned fs_error, record v { fs = fs' })
            | RamFs.ok u ↦ (returned (pos 0), record v { fs = fs' })
          ] in
            Atomic (view p v) o.0 (view p o.1)
      onward path handle (RamFs.ok u) fs' e n q = absurd (ground arith)
      onward path handle (RamFs.err x) fs' e n q = unchanged (
          ap (λ f. record (view p v) { fs = f }) (mkdir_at-err v.fs (handle % 2 ^ 32) path x fs' e))
