-- ===== src/Wasm/Host/Calls/Authority.antt =====
-- What a module may do follows from the capabilities it holds: no sequence of calls adds a right,
-- and without the right to write the file system keeps its contents.
use sovelma_os.Prelude.{
  ℕ, ◌%◌, ◌^◌, ◌≡◌, ◌≢◌, refl, ap, true, List, Option, some, arith, Option-cases, inl, inr, ◌⊎◌,
}
use sovelma_os.Prelude.Words.{ℤ, pos, negsuc, as_u64}
use sovelma_os.Prelude.Maps.{lookup}
use sovelma_os.Capability.{cap_id_ord, from_u64, Capability, CapabilityType}
use sovelma_os.Capability.CapabilityRights
use sovelma_os.Fs.RamFs
use sovelma_os.Fs.RamFs.{Node}
use sovelma_os.Wasm.Error.{not_a_directory, fs_error}
use sovelma_os.Wasm.Platform.{Platform}
use sovelma_os.Wasm.Host.{
  HostState, World, Outcome, Flow, go, stop, authorize, get_capability, as_directory,
}
use sovelma_os.Wasm.Host.Files.{open_directory, path_argument, derive_capability}
use sovelma_os.Wasm.Host.Calls.Kernel.{view}

pub Flow-cases : {A : Type 0} (f : Flow A) → ((a : A) × (f ≡ go a)) ⊎ ((o : Outcome) × (f ≡ stop o))
Flow-cases (go a) = inl (a, refl)
Flow-cases (stop o) = inr (o, refl)

-- A failure to open changes nothing.
open_at-err :
    (fs : RamFs.RamFs) (base : ℕ) (path : List ℕ) (x : RamFs.FsError) (fs' : RamFs.RamFs)
    → RamFs.open_at fs base path ≡ (RamFs.err x, fs')
    → fs' ≡ fs
unfolding RamFs.open_at
open_at-err fs base path x fs' e = ground arith

pub mkdir_at-err :
    (fs : RamFs.RamFs) (base : ℕ) (path : List ℕ) (x : RamFs.FsError) (fs' : RamFs.RamFs)
    → RamFs.mkdir_at fs base path ≡ (RamFs.err x, fs')
    → fs' ≡ fs
unfolding RamFs.mkdir_at RamFs.make_dir
mkdir_at-err fs base path x fs' e = ground arith

module _ (p : Platform) where
  -- A capability that stands for what `authorize` let through.
  pub record Authorized (h : HostState) (cap : ℤ) (kind : CapabilityType → Option ℕ)
      (right handle rights : ℕ) : Type 0 where
    pub holder : Capability
    pub held : lookup (from_u64 (as_u64 cap)) h.capabilities ≡ some holder
    pub is_current : holder.generation % 2 ^ 32 ≡ (from_u64 (as_u64 cap)).generation
    pub is_kind : kind holder.object ≡ some handle
    pub same_rights : holder.rights ≡ rights
    pub permitted : p.flags.contains rights right ≡ true

  pub authorize-Authorized :
      (h : HostState) (cap : ℤ) (kind : CapabilityType → Option ℕ) (right : ℕ) (wrong : ℤ)
      (handle rights : ℕ)
      → authorize p h cap kind right wrong ≡ go (handle, rights)
      → Authorized h cap kind right handle rights
  unfolding authorize get_capability
  authorize-Authorized h cap kind right wrong handle rights e =
      elim (Option-cases (lookup (from_u64 (as_u64 cap)) h.capabilities)) [
        | inl missing ↦ absurd (ground arith)
        | inr (c, held) ↦ record {
          holder = c;
          held = held;
          is_current = ground arith;
          is_kind = ground arith;
          same_rights = ground arith;
          permitted = ground arith;
        }
      ]

  -- Where `sp_fs_open` goes after its fuel check: it fails and leaves the kernel alone, or it opens
  -- the path below the handle of an authorized directory and derives a capability.
  pub data Opening (cap : ℤ) (v : World p) : Outcome × World p → Type 0 where
    refused :
        (o : Outcome) (v' : World p)
        → view p v' ≡ view p v
        → o ≢ Outcome.done
        → ((n : ℕ) → o ≢ Outcome.returned (pos n))
        → Opening cap v (o, v')
    opened :
        (handle rights new_handle : ℕ) (path : List ℕ) (fs' : RamFs.RamFs)
        → Authorized v.host cap as_directory CapabilityRights.read handle rights
        → RamFs.open_at v.fs (handle % 2 ^ 32) path ≡ (RamFs.ok new_handle, fs')
        → Opening cap v (derive_capability p new_handle rights (record v { fs = fs' }))

  authorize-stop :
      (h : HostState) (cap : ℤ) (kind : CapabilityType → Option ℕ) (right n : ℕ) (o : Outcome)
      → authorize p h cap kind right (negsuc n) ≡ stop o
      → (o ≢ Outcome.done) × ((n : ℕ) → o ≢ Outcome.returned (pos n))
  unfolding authorize get_capability
  authorize-stop h cap kind right n o e = (ground arith, λ n. ground arith)

  path_argument-stop :
      (v : World p) (a b : ℤ) (o : Outcome)
      → path_argument p v a b ≡ stop o
      → (o ≢ Outcome.done) × ((n : ℕ) → o ≢ Outcome.returned (pos n))
  unfolding path_argument
  path_argument-stop v a b o e = (ground arith, λ n. ground arith)

  pub open_directory-Opening : (a b c : ℤ) (v : World p) → Opening a v (open_directory p a b c v)
  unfolding open_directory
  open_directory-Opening a b c v = elim (Flow-cases (path_argument p v b c)) [
    | inr (o, e) ↦
        let (n, n') = path_argument-stop v b c o e in rw (e, open_directory) (refused o v refl n n')
    | inl (path, e) ↦
        elim (Flow-cases
          (authorize p v.host a as_directory CapabilityRights.read not_a_directory)) [
            | inr (o, e') ↦
                let (n, n') = authorize-stop v.host a as_directory CapabilityRights.read 5 o e' in
                rw (e, open_directory) (rw e' (refused o v refl n n'))
            | inl ((handle, rights), e') ↦
                rw (e, open_directory)
                  (rw e' (
                    onward path handle rights
                      (authorize-Authorized v.host a as_directory _ _ handle rights e') _ _ refl))
          ]
  ]
    where
      onward :
          (path : List ℕ) (handle rights : ℕ)
          → Authorized v.host a as_directory CapabilityRights.read handle rights
          → (r : RamFs.Result ℕ) (fs' : RamFs.RamFs)
          → RamFs.open_at v.fs (handle % 2 ^ 32) path ≡ (r, fs')
          → Opening a v (elim r [
            | RamFs.err e ↦ (Outcome.returned fs_error, record v { fs = fs' })
            | RamFs.ok new_handle ↦ derive_capability p new_handle rights (record v { fs = fs' })
          ])
      onward path handle rights au (RamFs.ok n) fs' e = opened handle rights n path fs' au e
      onward path handle rights au (RamFs.err x) fs' e =
          refused _ _
            (ap (λ f. record (view p v) { fs = f })
              (open_at-err v.fs (handle % 2 ^ 32) path x fs' e))
            (ground arith) (λ n. ground arith)
