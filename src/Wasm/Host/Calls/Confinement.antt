-- ===== src/Wasm/Host/Calls/Confinement.antt =====
-- No sequence of calls adds a right.
use sovelma_os.Prelude.{ℕ, ◌≡◌, sym, subst, false, List, arith}
use sovelma_os.Prelude.Words.{ℤ, pos, negsuc, as_u64}
use sovelma_os.Prelude.Maps.{BTreeMap, AllValues, AllValues-insert, AllValues-remove}
use sovelma_os.Capability.{CapId, cap_id_ord, from_u64, Capability, CapabilityType, new_capability}
use sovelma_os.Capability.Rights.{contains-intersection_left}
use sovelma_os.Capability.CapabilityRights
use sovelma_os.Fs.RamFs
use sovelma_os.Fs.RamFs.{Node}
use sovelma_os.Sync.Registry.{create_mutex, create_semaphore}
use sovelma_os.Wasm.Platform.{Platform}
use sovelma_os.Wasm.Host.{World, Outcome, add_capability}
use sovelma_os.Wasm.Host.Files.{
  derive_capability, make_directory, close_capability, applicable_rights,
}
use sovelma_os.Wasm.Host.Sync.{
  make_mutex, give, lock_object, make_semaphore, acquire_object, release_object,
}
use sovelma_os.Wasm.Host.Calls.{Call, run}
use sovelma_os.Wasm.Host.Calls.Kernel.{Preserved, run-Preserved}
use sovelma_os.Wasm.Host.Calls.Authority.{Opening, refused, opened, open_directory-Opening}

module _ (p : Platform) where
  -- No capability of the table has the right.
  abbrev pub Lacks : ℕ → BTreeMap CapId Capability → Type 0
  Lacks right = AllValues (λ c. p.flags.contains c.rights right ≡ false)

  module _ (right : ℕ) (without : p.flags.contains CapabilityRights.call right ≡ false) where
    give-Lacks :
        (object : CapabilityType) (v : World p)
        → Lacks right v.host.capabilities
        → Lacks right (give p object v).1.host.capabilities
    unfolding give new_capability add_capability
    give-Lacks object v x =
        AllValues-insert (λ c. p.flags.contains c.rights right ≡ false) _ _ v.host.capabilities
          without x

    Opening-Lacks :
        (cap : ℤ) (v : World p) (r : Outcome × World p)
        → Opening p cap v r
        → Lacks right v.host.capabilities
        → Lacks right r.1.host.capabilities
    unfolding derive_capability new_capability add_capability
    Opening-Lacks cap v _ (refused o v' same _ _) x =
        subst (λ k. Lacks right k.capabilities) (sym same) x
    Opening-Lacks cap v _ (opened handle rights new_handle path fs' au _) x =
        AllValues-insert (λ c. p.flags.contains c.rights right ≡ false) _ _ v.host.capabilities
          (ground (
            arith,
            x (from_u64 (as_u64 cap)) au.holder au.held,
            au.same_rights,
            contains-intersection_left p.flags rights
                (applicable_rights p (RamFs.is_dir fs' new_handle)) right,
          ))
          x

    close_capability-Lacks :
        (a : ℤ) (v : World p)
        → Lacks right v.host.capabilities
        → Lacks right (close_capability p a v).1.host.capabilities
    unfolding close_capability
    close_capability-Lacks a v x = λ k c e. ground (
      arith,
      x k c,
      AllValues-remove (λ c. p.flags.contains c.rights right ≡ false) (from_u64 (as_u64 a))
          v.host.capabilities x k c,
    )

    make_directory-capabilities :
        (a b c : ℤ) (v : World p)
        → (make_directory p a b c v).1.host.capabilities ≡ v.host.capabilities
    unfolding make_directory
    make_directory-capabilities a b c v = ground arith

    lock_object-host :
        (k : ℕ → Outcome) (a : ℤ) (v : World p) → (lock_object p k a v).1.host ≡ v.host
    unfolding lock_object
    lock_object-host k a v = ground arith

    acquire_object-host :
        (n : ℕ) (k : ℕ → Outcome) (a : ℤ) (v : World p) → (acquire_object p n k a v).1.host ≡ v.host
    unfolding acquire_object
    acquire_object-host n k a v = ground arith

    release_object-host : (n : ℕ) (a : ℤ) (v : World p) → (release_object p n a v).1.host ≡ v.host
    unfolding release_object
    release_object-host n a v = ground arith

    make_mutex-Lacks :
        (v : World p)
        → Lacks right v.host.capabilities
        → Lacks right (make_mutex p v).1.host.capabilities
    unfolding make_mutex
    make_mutex-Lacks v x =
        let (handle, registry') = create_mutex p.crate v.registry in
        give-Lacks (CapabilityType.mutex handle) (record v { registry = registry' }) x

    make_semaphore-Lacks :
        (a : ℤ) (v : World p)
        → Lacks right v.host.capabilities
        → Lacks right (make_semaphore p a v).1.host.capabilities
    unfolding make_semaphore
    make_semaphore-Lacks (negsuc n) v x = x
    make_semaphore-Lacks (pos n) v x =
        let (handle, registry') = create_semaphore p.crate v.registry (as_u64 (pos n)) in
        give-Lacks (CapabilityType.semaphore handle) (record v { registry = registry' }) x

    pub Lacks-Preserved : Preserved p (λ k. Lacks right k.capabilities)
    Lacks-Preserved = record {
      opens = λ a b c v x. Opening-Lacks a v _ (open_directory-Opening p a b c v) x;
      makes = λ a b c v x. subst (Lacks right) (sym (make_directory-capabilities a b c v)) x;
      closes = λ a v x. close_capability-Lacks a v x;
      mutexes = λ v x. make_mutex-Lacks v x;
      locks = λ k a v x. subst (λ h. Lacks right h.capabilities) (sym (lock_object-host k a v)) x;
      semaphores = λ a v x. make_semaphore-Lacks a v x;
      acquires = λ n k a v x.
          subst (λ h. Lacks right h.capabilities) (sym (acquire_object-host n k a v)) x;
      releases =
          λ n a v x. subst (λ h. Lacks right h.capabilities) (sym (release_object-host n a v)) x;
    }

    -- No sequence of calls gives a module a right that none of its capabilities has, unless it is
    -- contained in the right to call, which the creation of mutexes and semaphores gives.
    pub run-Lacks :
        (cs : List Call) (w : World p)
        → Lacks right w.host.capabilities
        → Lacks right (run p cs w).host.capabilities
    run-Lacks = run-Preserved p (λ k. Lacks right k.capabilities) Lacks-Preserved
