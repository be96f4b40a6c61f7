-- ===== src/Sync/Registry/Handles.antt =====
-- Handles: what a handle names after objects were created and destroyed.
use sovelma_os.Prelude.{
  ℕ, ◌+◌, ◌^◌, ◌≤◌, ◌<◌, ◌≡◌, refl, false, ◌==◌, none, some, is_some, arith, if◌then◌else◌,
}
use sovelma_os.Prelude.Maps.{nat_ord, lookup, lookup-insert, lookup-remove}
use sovelma_os.ArrayQueue.{ArrayQueue}
use sovelma_os.Sync.Future.{Waker}
use sovelma_os.Sync.Mutex
use sovelma_os.Sync.Semaphore
use sovelma_os.Sync.Registry.{
  Registry, create_mutex, get_mutex, destroy_mutex, create_semaphore, get_semaphore,
  init_registries,
}

-- Handles from the counters on are unused, and the counters have not wrapped.
pub record IsFresh (crate : ArrayQueue Waker) (r : Registry crate) : Type 0 where
  pub mutexes_below : (h : ℕ) → r.next_mutex_id ≤ h → lookup h r.mutexes ≡ none
  pub semaphores_below : (h : ℕ) → r.next_sem_id ≤ h → lookup h r.semaphores ≡ none

module _ (crate : ArrayQueue Waker) where
  pub init_registries-IsFresh : IsFresh crate (init_registries crate)
  unfolding init_registries lookup
  init_registries-IsFresh = record { mutexes_below = λ h le. refl; semaphores_below = λ h le. refl }

  -- Until the 64-bit counter wraps, creating a mutex returns a handle that named nothing, leaves it
  -- naming a fresh mutex, leaves every other handle as it was, and keeps later handles unused.
  pub create_mutex_lem :
      (r : Registry crate) (h : ℕ)
      → IsFresh crate r
      → r.next_mutex_id + 1 < 2 ^ 64
      → let (handle, r') = create_mutex crate r in
        (get_mutex crate r handle ≡ none)
        × (get_mutex crate r' h
            ≡ (if handle == h then some (Mutex.new crate tt) else get_mutex crate r h))
        × IsFresh crate r'
  unfolding create_mutex get_mutex
  create_mutex_lem r h fresh room = (
    fresh.mutexes_below r.next_mutex_id (omega arith),
    lookup-insert r.next_mutex_id h (Mutex.new crate tt) r.mutexes,
    record {
      mutexes_below = λ k le. ground (
        arith,
        lookup-insert r.next_mutex_id k (Mutex.new crate tt) r.mutexes,
        fresh.mutexes_below k,
      );
      semaphores_below = fresh.semaphores_below;
    },
  )

  -- The same of semaphores.
  pub create_semaphore_lem :
      (r : Registry crate) (permits h : ℕ)
      → IsFresh crate r
      → r.next_sem_id + 1 < 2 ^ 64
      → let (handle, r') = create_semaphore crate r permits in
        (get_semaphore crate r handle ≡ none)
        × (get_semaphore crate r' h
            ≡ (if handle == h then some (Semaphore.new crate permits) else get_semaphore crate r h))
        × IsFresh crate r'
  unfolding create_semaphore get_semaphore
  create_semaphore_lem r permits h fresh room = (
    fresh.semaphores_below r.next_sem_id (omega arith),
    lookup-insert r.next_sem_id h (Semaphore.new crate permits) r.semaphores,
    record {
      mutexes_below = fresh.mutexes_below;
      semaphores_below = λ k le. ground (
        arith,
        lookup-insert r.next_sem_id k (Semaphore.new crate permits) r.semaphores,
        fresh.semaphores_below k,
      );
    },
  )

  -- Destroying a mutex reports whether there was one, and leaves the handle naming nothing and
  -- every other handle naming what it named; so a second destruction reports that there was none.
  pub destroy_mutex_lem :
      (r : Registry crate) (handle h : ℕ)
      → let (found, r') = destroy_mutex crate r handle in
        (found ≡ is_some (get_mutex crate r handle))
        × (get_mutex crate r' h ≡ (if handle == h then none else get_mutex crate r h))
        × ((destroy_mutex crate r' handle).0 ≡ false)
  unfolding destroy_mutex get_mutex
  destroy_mutex_lem r handle h = (
    refl,
    lookup-remove handle h r.mutexes,
    ground (arith, lookup-remove handle handle r.mutexes),
  )
