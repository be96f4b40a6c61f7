-- ===== src/Wasm/Host/Calls/Locks.antt =====
-- What the calls do to the mutexes of the registry: none of them leaves one locked.
use sovelma_os.Prelude.{
  ℕ, ◌≡◌, refl, sym, subst, true, false, List, Option, arith, Option-cases, inl, inr, ◌⊎◌,
}
use sovelma_os.Prelude.Words.{as_u64, ℤ, pos, negsuc}
use sovelma_os.Prelude.Maps.{nat_ord, lookup, AllValues, AllValues-insert}
use sovelma_os.Capability.CapabilityRights
use sovelma_os.Capability.{from_u64, CapabilityType}
use sovelma_os.Sync.Mutex.{AsyncMutex, try_lock, drop_guard, wake_next}
use sovelma_os.Sync.Mutex
use sovelma_os.Sync.Mutex.Polling.{drop_guard_lem}
use sovelma_os.Sync.Registry.{create_mutex, get_mutex, put_mutex, create_semaphore, put_semaphore}
use sovelma_os.Wasm.Error.{yield, cap_not_found, permission_denied, invalid_handle}
use sovelma_os.Wasm.Platform.{Platform}
use sovelma_os.Wasm.Host.{
  HostState, World, Outcome, returned, trapped, stop, authorize, get_capability, as_mutex,
}
use sovelma_os.Wasm.Host.Files.{open_directory, make_directory, close_capability}
use sovelma_os.Wasm.Host.Sync.{
  make_mutex, give, lock_object, try_lock_and_drop, make_semaphore, acquire_object, release_object,
  sp_mutex_lock,
}
use sovelma_os.Wasm.Host.Calls.{Call, run}
use sovelma_os.Wasm.Host.Calls.Kernel.{Kernel, view, Preserved, run-Preserved, charged-view}
use sovelma_os.Wasm.Host.Calls.Authority.{Flow-cases}

module _ (p : Platform) where
  abbrev IsFree : AsyncMutex p.crate (Unit {0}) → Type 0
  IsFree m = m.locked ≡ false

  abbrev pub AllFree : Kernel p → Type 0
  AllFree k = AllValues IsFree k.registry.mutexes

  try_lock_and_drop-free :
      (m : AsyncMutex p.crate (Unit {0}))
      → m.locked ≡ false
      → ((try_lock_and_drop p m).0 ≡ true) × ((try_lock_and_drop p m).2.locked ≡ false)
  unfolding try_lock_and_drop try_lock
  try_lock_and_drop-free m free = ground (arith, drop_guard_lem p.crate (try_lock p.crate m).1)

  -- How a lock call may end, other than by its answer to contention.
  pub data Uncontended : Outcome → Type 0 where
    locked : Uncontended (returned (pos 0))
    unknown : Uncontended (returned cap_not_found)
    unlike : Uncontended (returned invalid_handle)
    forbidden : Uncontended (returned permission_denied)

  authorize-Uncontended :
      (h : HostState) (cap : ℤ) (kind : CapabilityType → Option ℕ) (right : ℕ) (o : Outcome)
      → authorize p h cap kind right invalid_handle ≡ stop o
      → Uncontended o
  unfolding authorize get_capability
  authorize-Uncontended h cap kind right o e =
      elim (Option-cases (get_capability h (from_u64 (as_u64 cap)))) [
        | inl q ↦ subst Uncontended (ground (arith, q)) unknown
        | inr (c, q) ↦ elim (Option-cases (kind c.object)) [
          | inl q' ↦ subst Uncontended (ground (arith, q, q')) unlike
          | inr (handle, q') ↦ subst Uncontended (ground (arith, q, q')) forbidden
        ]
      ]

  lock_object-AllFree :
      (k : ℕ → Outcome) (a : ℤ) (v : World p)
      → AllFree (view p v)
      → AllFree (view p (lock_object p k a v).1) × Uncontended (lock_object p k a v).0
  unfolding lock_object get_mutex put_mutex
  lock_object-AllFree k a v x =
      elim (Flow-cases (authorize p v.host a as_mutex CapabilityRights.call invalid_handle)) [
        | inr (o, e) ↦ rw (e, lock_object) (x, authorize-Uncontended v.host a _ _ o e)
        | inl ((handle, rights), e) ↦ elim (Option-cases (lookup handle v.registry.mutexes)) [
          | inl missing ↦ rw (e, lock_object) (rw missing (x, unlike))
          | inr (m, held) ↦
              let (taken, free) = try_lock_and_drop-free m (x handle m held) in
              rw (e, lock_object)
                (rw held (
                  rw taken (
                    AllValues-insert IsFree handle (try_lock_and_drop p m).2 v.registry.mutexes free
                        x,
                    locked,
                  )))
        ]
      ]

  open_directory-mutexes :
      (a b c : ℤ) (v : World p) → (open_directory p a b c v).1.registry.mutexes ≡ v.registry.mutexes
  unfolding open_directory
  open_directory-mutexes a b c v = ground arith

  make_directory-mutexes :
      (a b c : ℤ) (v : World p) → (make_directory p a b c v).1.registry.mutexes ≡ v.registry.mutexes
  unfolding make_directory
  make_directory-mutexes a b c v = ground arith

  close_capability-mutexes :
      (a : ℤ) (v : World p) → (close_capability p a v).1.registry.mutexes ≡ v.registry.mutexes
  unfolding close_capability
  close_capability-mutexes a v = ground arith

  acquire_object-mutexes :
      (n : ℕ) (k : ℕ → Outcome) (a : ℤ) (v : World p)
      → (acquire_object p n k a v).1.registry.mutexes ≡ v.registry.mutexes
  unfolding acquire_object put_semaphore
  acquire_object-mutexes n k a v = ground arith

  release_object-mutexes :
      (n : ℕ) (a : ℤ) (v : World p)
      → (release_object p n a v).1.registry.mutexes ≡ v.registry.mutexes
  unfolding release_object put_semaphore
  release_object-mutexes n a v = ground arith

  make_semaphore-mutexes :
      (a : ℤ) (v : World p) → (make_semaphore p a v).1.registry.mutexes ≡ v.registry.mutexes
  unfolding make_semaphore give create_semaphore
  make_semaphore-mutexes (pos n) v = refl
  make_semaphore-mutexes (negsuc n) v = refl

  make_mutex-AllFree : (v : World p) → AllFree (view p v) → AllFree (view p (make_mutex p v).1)
  unfolding make_mutex give create_mutex Mutex.new
  make_mutex-AllFree v x =
      AllValues-insert IsFree v.registry.next_mutex_id (Mutex.new p.crate tt) v.registry.mutexes
        refl x

  AllFree-Preserved : Preserved p AllFree
  AllFree-Preserved = record {
    opens = λ a b c v x. subst (AllValues IsFree) (sym (open_directory-mutexes a b c v)) x;
    makes = λ a b c v x. subst (AllValues IsFree) (sym (make_directory-mutexes a b c v)) x;
    closes = λ a v x. subst (AllValues IsFree) (sym (close_capability-mutexes a v)) x;
    mutexes = λ v x. make_mutex-AllFree v x;
    locks = λ k a v x. (lock_object-AllFree k a v x).0;
    semaphores = λ a v x. subst (AllValues IsFree) (sym (make_semaphore-mutexes a v)) x;
    acquires = λ n k a v x. subst (AllValues IsFree) (sym (acquire_object-mutexes n k a v)) x;
    releases = λ n a v x. subst (AllValues IsFree) (sym (release_object-mutexes n a v)) x;
  }

  -- The lock calls exclude nobody: in a world whose registered mutexes are free, after any
  -- sequence of calls, successful locks without an unlock included, a call to lock any mutex never
  -- meets contention: unless the fuel is short, it succeeds or names no mutex that it may call.
  pub run-Uncontended :
      (cs : List Call) (w : World p) (cap : ℤ)
      → AllFree (view p w)
      → ((sp_mutex_lock p cap (run p cs w)).0 ≡ trapped yield)
        ⊎ Uncontended (sp_mutex_lock p cap (run p cs w)).0
  unfolding sp_mutex_lock
  run-Uncontended cs w cap x =
      charged-view p (λ o k. (o ≡ trapped yield) ⊎ Uncontended o) _ (run p cs w) _ (inl refl)
        (λ v e.
          inr
            (lock_object-AllFree _ cap v
              (subst AllFree (sym e) (run-Preserved p AllFree AllFree-Preserved cs w x))).1)
