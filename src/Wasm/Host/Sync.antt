-- ===== src/Wasm/Host/Sync.antt =====
-- kernel/src/wasm/host.rs: the calls on mutexes and semaphores.
use sovelma_os.Prelude.{ℕ, Bool, true, false, List, ◌∷◌, Option, none, some, is_some, if◌then◌else◌}
use sovelma_os.Prelude.Words.{ℤ, pos, negsuc, as_u64, as_i64}
use sovelma_os.Capability.{CapabilityType, mutex, semaphore, new_capability}
use sovelma_os.Capability
use sovelma_os.Capability.CapabilityRights
use sovelma_os.Sync.Future.{Waker}
use sovelma_os.Sync.Mutex.{AsyncMutex, try_lock, drop_guard}
use sovelma_os.Sync.Semaphore.{try_acquire, release}
use sovelma_os.Sync.Registry.{
  create_mutex, get_mutex, put_mutex, create_semaphore, get_semaphore, put_semaphore,
}
use sovelma_os.Wasm.Error.{
  mutex_wait, sem_wait, permission_denied, mutex_locked, sem_no_permits, invalid_handle,
  sync_create, sync_operation,
}
use sovelma_os.Wasm.Platform.{Platform}
use sovelma_os.Wasm.Host.{
  World, Outcome, returned, trapped, go, stop, charged, authorize, add_capability, as_mutex,
  as_semaphore,
}

-- The waker that a call woke, if any, before the earlier ones.
unfoldable pub note : Option Waker → List Waker → List Waker
note none woken = woken
note (some waker) woken = waker ∷ woken

module _ (p : Platform) where
  -- `Capability::new` with the right to call, and `add_capability`.
  unfoldable pub give : CapabilityType → World p → Outcome × World p
  unfolding new_capability add_capability
  give object w =
      let (cap, next_index') = new_capability w.next_index object CapabilityRights.call in
      let (cap_id, host') = add_capability w.host cap in
      (
        returned (as_i64 (Capability.as_u64 cap_id)),
        record w { host = host'; next_index = next_index' },
      )

  unfoldable pub make_mutex : World p → Outcome × World p
  unfolding give
  make_mutex w =
      let (handle, registry') = create_mutex p.crate w.registry in
      give (mutex handle) (record w { registry = registry' })

  unfoldable pub sp_mutex_create : World p → Outcome × World p
  sp_mutex_create w = charged p sync_create w make_mutex

  -- `mutex.try_lock().is_some()`: the guard is a temporary, which is dropped at once.
  unfoldable pub try_lock_and_drop :
      AsyncMutex p.crate (Unit {0}) → Bool × Option Waker × AsyncMutex p.crate (Unit {0})
  try_lock_and_drop m =
      let (taken, m') = try_lock p.crate m in
      let (woken, m'') = drop_guard p.crate m' in
      if taken then (true, woken, m'') else (false, none, m')

  -- What `sp_mutex_lock` and `sp_mutex_try_lock` share; `contended` is what they do on a lock
  -- that is held.
  unfoldable pub lock_object : (contended : ℕ → Outcome) → ℤ → World p → Outcome × World p
  unfolding authorize try_lock_and_drop get_mutex
  lock_object contended cap w =
      elim (authorize p w.host cap as_mutex CapabilityRights.call invalid_handle) [
        | stop o ↦ (o, w)
        | go (handle, rights) ↦ elim (get_mutex p.crate w.registry handle) [
          | none ↦ (returned invalid_handle, w)
          | some m ↦
              let (taken, woken, m') = try_lock_and_drop m in
              let w' = record w {
                registry = put_mutex p.crate w.registry handle m';
                woken = note woken w.woken;
              } in
              if taken then (returned (pos 0), w') else (contended handle, w')
        ]
      ]

  unfoldable pub sp_mutex_lock : ℤ → World p → Outcome × World p
  sp_mutex_lock cap w =
      charged p sync_operation w (lock_object (λ handle. trapped (mutex_wait handle)) cap)

  unfoldable pub sp_mutex_try_lock : ℤ → World p → Outcome × World p
  sp_mutex_try_lock cap w =
      charged p sync_operation w (lock_object (λ handle. returned mutex_locked) cap)

  -- The mutex is only looked up.
  unfoldable pub unlock_object : ℤ → World p → Outcome × World p
  unfolding authorize get_mutex
  unlock_object cap w =
      elim (authorize p w.host cap as_mutex CapabilityRights.call invalid_handle) [
        | stop o ↦ (o, w)
        | go (handle, rights) ↦
            if is_some (get_mutex p.crate w.registry handle)
            then (returned (pos 0), w)
            else (returned invalid_handle, w)
      ]

  unfoldable pub sp_mutex_unlock : ℤ → World p → Outcome × World p
  sp_mutex_unlock cap w = charged p sync_operation w (unlock_object cap)

  unfoldable pub make_semaphore : ℤ → World p → Outcome × World p
  unfolding give
  make_semaphore (negsuc n) w = (returned permission_denied, w)
  make_semaphore (pos permits) w =
      let (handle, registry') = create_semaphore p.crate w.registry (as_u64 (pos permits)) in
      give (semaphore handle) (record w { registry = registry' })

  unfoldable pub sp_sem_create : ℤ → World p → Outcome × World p
  sp_sem_create permits w = charged p sync_create w (make_semaphore permits)

  -- What `sp_sem_acquire` and `sp_sem_try_acquire` share; `failures` weak exchanges fail.
  unfoldable pub acquire_object :
      (failures : ℕ) → (contended : ℕ → Outcome) → ℤ → World p → Outcome × World p
  unfolding authorize get_semaphore
  acquire_object failures contended cap w =
      elim (authorize p w.host cap as_semaphore CapabilityRights.call invalid_handle) [
        | stop o ↦ (o, w)
        | go (handle, rights) ↦ elim (get_semaphore p.crate w.registry handle) [
          | none ↦ (returned invalid_handle, w)
          | some s ↦
              let (taken, s') = try_acquire p.crate failures s in
              let w' = record w { registry = put_semaphore p.crate w.registry handle s' } in
              if taken then (returned (pos 0), w') else (contended handle, w')
        ]
      ]

  unfoldable pub sp_sem_acquire : ℕ → ℤ → World p → Outcome × World p
  sp_sem_acquire failures cap w =
      charged p sync_operation w (acquire_object failures (λ handle. trapped (sem_wait handle)) cap)

  unfoldable pub sp_sem_try_acquire : ℕ → ℤ → World p → Outcome × World p
  sp_sem_try_acquire failures cap w =
      charged p sync_operation w (acquire_object failures (λ handle. returned sem_no_permits) cap)

  unfoldable pub release_object : (failures : ℕ) → ℤ → World p → Outcome × World p
  unfolding authorize get_semaphore
  release_object failures cap w =
      elim (authorize p w.host cap as_semaphore CapabilityRights.call invalid_handle) [
        | stop o ↦ (o, w)
        | go (handle, rights) ↦ elim (get_semaphore p.crate w.registry handle) [
          | none ↦ (returned invalid_handle, w)
          | some s ↦
              let (woken, s') = release p.crate failures s in
              (
                returned (pos 0),
                record w {
                  registry = put_semaphore p.crate w.registry handle s';
                  woken = note woken w.woken;
                },
              )
        ]
      ]

  unfoldable pub sp_sem_release : ℕ → ℤ → World p → Outcome × World p
  sp_sem_release failures cap w = charged p sync_operation w (release_object failures cap)
