-- ===== src/Wasm/Host/Calls/Degradation.antt =====
-- `sp_fs_open`: the capability that it derives.
use sovelma_os.Prelude.{ℕ, ◌≡◌, refl, subst, true, some, arith, if◌then◌else◌}
use sovelma_os.Prelude.Words.{ℤ, pos, as_u64}
use sovelma_os.Prelude.Maps.{lookup, insert}
use sovelma_os.Capability.{cap_id_ord, from_u64, Capability, CapabilityType, new_capability}
use sovelma_os.Capability.Rights.{contains-intersection_left}
use sovelma_os.Capability.CapabilityRights
use sovelma_os.Fs.RamFs
use sovelma_os.Fs.RamFs.{Node}
use sovelma_os.Wasm.Platform.{Platform}
use sovelma_os.Wasm.Host.{World, Outcome, returned, add_capability, as_directory}
use sovelma_os.Wasm.Host.Files.{open_directory, derive_capability, applicable_rights, sp_fs_open}
use sovelma_os.Wasm.Host.Calls.Kernel.{Kernel, view, charged-view}
use sovelma_os.Wasm.Host.Calls.Authority.{Opening, refused, opened, open_directory-Opening}

-- Only the capability of a directory passes for one.
as_directory_lem :
    (o : CapabilityType) (h : ℕ) → as_directory o ≡ some h → o ≡ CapabilityType.directory h
unfolding as_directory
as_directory_lem o h e = ground arith

module _ (p : Platform) where
  -- A capability was derived from a parent that the table held under the identifier of the argument,
  -- a capability of a directory with the right to read: it is added to the table, and it has no right
  -- that the parent does not have.
  pub record Degraded (cap : ℤ) (k k' : Kernel p) : Type 0 where
    pub parent : Capability
    pub handle : ℕ
    pub is_directory : parent.object ≡ CapabilityType.directory handle
    pub held : lookup (from_u64 (as_u64 cap)) k.capabilities ≡ some parent
    pub readable : p.flags.contains parent.rights CapabilityRights.read ≡ true
    pub child : Capability
    pub added : k'.capabilities ≡ insert child.id child k.capabilities
    pub fewer :
        (r : ℕ) → p.flags.contains child.rights r ≡ true → p.flags.contains parent.rights r ≡ true

  Opening-Degraded :
      (cap : ℤ) (v : World p) (n : ℕ) (r : Outcome × World p)
      → Opening p cap v r
      → r.0 ≡ returned (pos n)
      → Degraded cap (view p v) (view p r.1)
  unfolding derive_capability new_capability add_capability
  Opening-Degraded cap v n _ (refused o v' same _ not_ok) e = absurd (not_ok n e)
  Opening-Degraded cap v n _ (opened handle rights new_handle path fs' au _) e = record {
    parent = au.holder;
    handle = handle;
    is_directory = as_directory_lem au.holder.object handle au.is_kind;
    held = au.held;
    readable = rw au.same_rights au.permitted;
    child =
        (new_capability v.next_index
          (if RamFs.is_dir fs' new_handle
            then CapabilityType.directory new_handle
            else CapabilityType.file new_handle)
          (p.flags.intersection rights (applicable_rights p (RamFs.is_dir fs' new_handle)))).0;
    added = refl;
    fewer = λ r h. rw au.same_rights (
        contains-intersection_left p.flags rights
          (applicable_rights p (RamFs.is_dir fs' new_handle)) r h);
  }

  -- Rights degrade: when `sp_fs_open` returns a capability, the directory capability that was named
  -- is in the module's table with the right to read, and the new capability, which is all that is
  -- added to the table, has no right that this parent does not have.
  pub sp_fs_open-Degraded :
      (dir_cap path_ptr path_len : ℤ) (w : World p) (n : ℕ)
      → (sp_fs_open p dir_cap path_ptr path_len w).0 ≡ returned (pos n)
      → Degraded dir_cap (view p w) (view p (sp_fs_open p dir_cap path_ptr path_len w).1)
  unfolding sp_fs_open
  sp_fs_open-Degraded a b c w n =
      charged-view p (λ o k. o ≡ returned (pos n) → Degraded a (view p w) k) _ w
        (open_directory p a b c) (λ e. absurd (ground arith))
        (λ v same e.
          subst (λ k. Degraded a k (view p (open_directory p a b c v).1)) same
            (Opening-Degraded a v n _ (open_directory-Opening p a b c v) e))
