-- ===== src/Wasm/Host/Calls/ObjectErrors.antt =====
-- Calls on mutexes and semaphores: an error changes nothing of the kernel.
use sovelma_os.Prelude.{
  ℕ, ◌-◌, ◌≡◌, refl, true, false, none, some, arith, Bool-cases, Option-cases, inl, inr, ◌==◌,
}
use sovelma_os.Prelude.Words.{ℤ}
use sovelma_os.Prelude.Maps.{nat_ord, BTreeMap, lookup, insert, lookup-insert}
use sovelma_os.Capability.CapabilityRights
use sovelma_os.Sync.Mutex.{AsyncMutex, try_lock}
use sovelma_os.Sync.Semaphore.{try_acquire}
use sovelma_os.Sync.Semaphore.Counting.{try_acquire_lem}
use sovelma_os.Sync.Registry.{get_mutex, put_mutex, put_semaphore, get_semaphore}
use sovelma_os.Wasm.Error.{invalid_handle}
use sovelma_os.Wasm.Platform.{Platform}
use sovelma_os.Wasm.Host.{World, Outcome, authorize, as_semaphore, as_mutex}
use sovelma_os.Wasm.Host.Sync.{lock_object, acquire_object, release_object, try_lock_and_drop}
use sovelma_os.Wasm.Host.Calls.Kernel.{view}
use sovelma_os.Wasm.Host.Calls.Authority.{Flow-cases}
use sovelma_os.Wasm.Host.Calls.FileErrors.{unchanged, Atomic}

module _ (p : Platform) where
  -- Writing back the object that a handle names changes nothing.
  rewritten :
      {V : Type 0} (handle : ℕ) (x : V) (m : BTreeMap ℕ V) (h : ℕ)
      → lookup handle m ≡ some x
      → lookup h (insert handle x m) ≡ lookup h m
  rewritten handle x m h e = ground (arith, lookup-insert handle h x m)

  try_lock_and_drop-held :
      (m : AsyncMutex p.crate (Unit {0}))
      → m.locked ≡ true
      → try_lock_and_drop p m ≡ (false, none, m)
  unfolding try_lock_and_drop try_lock
  try_lock_and_drop-held m l = ground arith

  try_lock_and_drop-free :
      (m : AsyncMutex p.crate (Unit {0})) → m.locked ≡ false → (try_lock_and_drop p m).0 ≡ true
  unfolding try_lock_and_drop try_lock
  try_lock_and_drop-free m l = ground arith

  pub lock_object-Atomic :
      (k : ℕ → Outcome) (a : ℤ) (v : World p)
      → Atomic p (view p v) (lock_object p k a v).0 (view p (lock_object p k a v).1)
  unfolding lock_object get_mutex put_mutex
  lock_object-Atomic k a v =
      elim (Flow-cases (authorize p v.host a as_mutex CapabilityRights.call invalid_handle)) [
        | inr (o, e) ↦ rw (e, lock_object) (λ n q. unchanged p refl)
        | inl ((handle, rights), e) ↦ elim (Option-cases (lookup handle v.registry.mutexes)) [
          | inl missing ↦ rw (e, lock_object) (rw missing (λ n q. unchanged p refl))
          | inr (m, held) ↦ elim (Bool-cases m.locked) [
            | inl l ↦
                rw (e, lock_object)
                  (rw held (
                    rw (try_lock_and_drop-held m l) (λ n q. record {
                      capabilities = refl;
                      fs = refl;
                      next_index = refl;
                      mutexes = λ h. rewritten handle m v.registry.mutexes h held;
                      semaphores = λ h. refl;
                    })))
            | inr l ↦
                rw (e, lock_object)
                  (rw held (rw (try_lock_and_drop-free m l) (λ n q. absurd (ground arith))))
          ]
        ]
      ]

  pub acquire_object-Atomic :
      (n : ℕ) (k : ℕ → Outcome) (a : ℤ) (v : World p)
      → Atomic p (view p v) (acquire_object p n k a v).0 (view p (acquire_object p n k a v).1)
  unfolding acquire_object get_semaphore put_semaphore
  acquire_object-Atomic m k a v =
      elim (Flow-cases (authorize p v.host a as_semaphore CapabilityRights.call invalid_handle)) [
        | inr (o, e) ↦ rw (e, acquire_object) (λ n q. unchanged p refl)
        | inl ((handle, rights), e) ↦ elim (Option-cases (lookup handle v.registry.semaphores)) [
          | inl missing ↦ rw (e, acquire_object) (rw missing (λ n q. unchanged p refl))
          | inr (s, held) ↦ elim (Bool-cases (s.permits == 0)) [
            | inl l ↦
                let t : try_acquire p.crate m s ≡ (false, s) =
                  ground (arith, try_acquire_lem p.crate m s) in
                rw (e, acquire_object)
                  (rw held (
                    rw t (λ n q. record {
                      capabilities = refl;
                      fs = refl;
                      next_index = refl;
                      mutexes = λ h. refl;
                      semaphores = λ h. rewritten handle s v.registry.semaphores h held;
                    })))
            | inr l ↦
                let t : try_acquire p.crate m s ≡ (true, record s { permits = s.permits - 1 }) =
                  ground (arith, try_acquire_lem p.crate m s) in
                rw (e, acquire_object) (rw held (rw t (λ n q. absurd (ground arith))))
          ]
        ]
      ]

  pub release_object-Atomic :
      (n : ℕ) (a : ℤ) (v : World p)
      → Atomic p (view p v) (release_object p n a v).0 (view p (release_object p n a v).1)
  unfolding release_object
  release_object-Atomic m a v =
      elim (Flow-cases (authorize p v.host a as_semaphore CapabilityRights.call invalid_handle)) [
        | inr (o, e) ↦ rw (e, release_object) (λ n q. unchanged p refl)
        | inl ((handle, rights), e) ↦
            elim (Option-cases (get_semaphore p.crate v.registry handle)) [
              | inl missing ↦ rw (e, release_object) (rw missing (λ n q. unchanged p refl))
              | inr (s, held) ↦ rw (e, release_object) (rw held (λ n q. absurd (ground arith)))
            ]
      ]
