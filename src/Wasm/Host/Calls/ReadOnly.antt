-- ===== src/Wasm/Host/Calls/ReadOnly.antt =====
-- Without the right to write no call changes the contents of the file system.
use sovelma_os.Prelude.{ℕ, ◌≡◌, refl, ap, ◌∙◌, false, List, arith, inl, inr}
use sovelma_os.Prelude.Words.{ℤ, pos, negsuc}
use sovelma_os.Capability.{cap_id_ord}
use sovelma_os.Capability.CapabilityRights
use sovelma_os.Fs.RamFs
use sovelma_os.Fs.RamFs.{Node}
use sovelma_os.Wasm.Error.{not_a_directory}
use sovelma_os.Wasm.Platform.{Platform}
use sovelma_os.Wasm.Host.{World, Outcome, authorize, as_directory}
use sovelma_os.Wasm.Host.Files.{path_argument, derive_capability, make_directory, close_capability}
use sovelma_os.Wasm.Host.Sync.{
  make_mutex, give, lock_object, make_semaphore, acquire_object, release_object,
}
use sovelma_os.Wasm.Host.Calls.{Call, run}
use sovelma_os.Wasm.Host.Calls.Kernel.{Kernel, Preserved, run-Preserved}
use sovelma_os.Wasm.Host.Calls.Authority.{
  Flow-cases, authorize-Authorized, Opening, refused, opened, open_directory-Opening,
}
use sovelma_os.Wasm.Host.Calls.Confinement.{Lacks, Lacks-Preserved}

module _ (p : Platform) where
  -- The contents of the file system are those, and no capability has the right to write.
  pub record ReadOnly (nodes : List Node) (k : Kernel p) : Type 0 where
    pub lacks : Lacks p CapabilityRights.write k.capabilities
    pub same_nodes : k.fs.nodes ≡ nodes

  Opening-nodes :
      (cap : ℤ) (v : World p) (r : Outcome × World p)
      → Opening p cap v r
      → r.1.fs.nodes ≡ v.fs.nodes
  unfolding derive_capability RamFs.open_at
  Opening-nodes cap v _ (refused o v' same _ _) = ap (λ k. k.fs.nodes) same
  Opening-nodes cap v _ (opened handle rights new_handle path fs' au e) = ground arith

  make_directory-nodes :
      (a b c : ℤ) (v : World p)
      → Lacks p CapabilityRights.write v.host.capabilities
      → (make_directory p a b c v).1.fs.nodes ≡ v.fs.nodes
  unfolding make_directory
  make_directory-nodes a b c v x = elim (Flow-cases (path_argument p v b c)) [
    | inr (o, e) ↦ rw (e, make_directory) refl
    | inl (path, e) ↦
        elim (Flow-cases
          (authorize p v.host a as_directory CapabilityRights.write not_a_directory)) [
            | inr (o, e') ↦ rw (e, make_directory) (rw e' refl)
            | inl ((handle, rights), e') ↦
                let au = authorize-Authorized p v.host a as_directory _ _ handle rights e' in
                absurd (ground (arith, x _ au.holder au.held, au.permitted, au.same_rights))
          ]
  ]

  make_mutex-nodes : (v : World p) → (make_mutex p v).1.fs.nodes ≡ v.fs.nodes
  unfolding make_mutex give
  make_mutex-nodes v = refl

  make_semaphore-nodes : (a : ℤ) (v : World p) → (make_semaphore p a v).1.fs.nodes ≡ v.fs.nodes
  unfolding make_semaphore give
  make_semaphore-nodes (pos n) v = refl
  make_semaphore-nodes (negsuc n) v = refl

  close_capability-nodes : (a : ℤ) (v : World p) → (close_capability p a v).1.fs.nodes ≡ v.fs.nodes
  unfolding close_capability RamFs.close
  close_capability-nodes a v = ground arith

  lock_object-fs : (k : ℕ → Outcome) (a : ℤ) (v : World p) → (lock_object p k a v).1.fs ≡ v.fs
  unfolding lock_object
  lock_object-fs k a v = ground arith

  acquire_object-fs :
      (n : ℕ) (k : ℕ → Outcome) (a : ℤ) (v : World p) → (acquire_object p n k a v).1.fs ≡ v.fs
  unfolding acquire_object
  acquire_object-fs n k a v = ground arith

  release_object-fs : (n : ℕ) (a : ℤ) (v : World p) → (release_object p n a v).1.fs ≡ v.fs
  unfolding release_object
  release_object-fs n a v = ground arith

  -- The right to call does not contain the right to write.
  call-write : p.flags.contains CapabilityRights.call CapabilityRights.write ≡ false
  call-write = ground (arith, p.flags.contains_iff CapabilityRights.call CapabilityRights.write)

  module _ (nodes : List Node) where
    ReadOnly-Preserved : Preserved p (ReadOnly nodes)
    ReadOnly-Preserved =
        let l = Lacks-Preserved p CapabilityRights.write call-write in
        record {
          opens = λ a b c v x. record {
            lacks = l.opens a b c v x.lacks;
            same_nodes = Opening-nodes a v _ (open_directory-Opening p a b c v) ∙ x.same_nodes;
          };
          makes = λ a b c v x. record {
            lacks = l.makes a b c v x.lacks;
            same_nodes = make_directory-nodes a b c v x.lacks ∙ x.same_nodes;
          };
          closes = λ a v x. record {
            lacks = l.closes a v x.lacks;
            same_nodes = close_capability-nodes a v ∙ x.same_nodes;
          };
          mutexes = λ v x. record {
            lacks = l.mutexes v x.lacks;
            same_nodes = make_mutex-nodes v ∙ x.same_nodes;
          };
          locks = λ k a v x. record {
            lacks = l.locks k a v x.lacks;
            same_nodes = ap (λ f. f.nodes) (lock_object-fs k a v) ∙ x.same_nodes;
          };
          semaphores = λ a v x. record {
            lacks = l.semaphores a v x.lacks;
            same_nodes = make_semaphore-nodes a v ∙ x.same_nodes;
          };
          acquires = λ n k a v x. record {
            lacks = l.acquires n k a v x.lacks;
            same_nodes = ap (λ f. f.nodes) (acquire_object-fs n k a v) ∙ x.same_nodes;
          };
          releases = λ n a v x. record {
            lacks = l.releases n a v x.lacks;
            same_nodes = ap (λ f. f.nodes) (release_object-fs n a v) ∙ x.same_nodes;
          };
        }

  -- A module none of whose capabilities has the right to write cannot change the contents of the
  -- file system, by any sequence of calls with any arguments.
  pub run-nodes :
      (cs : List Call) (w : World p)
      → Lacks p CapabilityRights.write w.host.capabilities
      → (run p cs w).fs.nodes ≡ w.fs.nodes
  run-nodes cs w x =
      (run-Preserved p (ReadOnly w.fs.nodes) (ReadOnly-Preserved w.fs.nodes) cs w
        (record { lacks = x; same_nodes = refl })).same_nodes
