-- ===== src/Sync/Registry.antt =====
-- kernel/src/sync/registry.rs: the mutexes and semaphores that WASM modules name by handles. The
-- statics are the fields of one record; an object that a caller got by its handle is shared, so a
-- call on it is written back under the handle (`put_mutex`, `put_semaphore`).
pub mod Handles
mod Examples
use sovelma_os.Prelude.{ℕ, ◌+◌, ◌%◌, ◌^◌, Bool, true, false, Option, none, some, is_some, [], List}
use sovelma_os.Prelude.Maps.{nat_ord, BTreeMap, lookup, insert, remove}
use sovelma_os.ArrayQueue.{ArrayQueue}
use sovelma_os.Sync.Future.{Waker}
use sovelma_os.Sync.Mutex.{AsyncMutex}
use sovelma_os.Sync.Mutex
use sovelma_os.Sync.Semaphore.{Semaphore}
use sovelma_os.Sync.Semaphore

module _ (crate : ArrayQueue Waker) where
  pub record Registry : Type 0 where
    pub mutexes : BTreeMap ℕ (AsyncMutex crate (Unit {0}))
    pub semaphores : BTreeMap ℕ (Semaphore crate)
    pub next_mutex_id : ℕ
    pub next_sem_id : ℕ

  unfoldable pub init_registries : Registry
  init_registries = record { mutexes = []; semaphores = []; next_mutex_id = 1; next_sem_id = 1 }

  -- `fetch_add(1)` on an `AtomicU64`, as the counters are advanced.
  abbrev pub bump : ℕ → ℕ
  bump n = (n + 1) % 2 ^ 64

  -- The source takes the identifier and inserts in two steps; here, as for a semaphore, they are one:
  -- the call does not wait between them, and the identifier is nobody else's.
  unfoldable pub create_mutex : Registry → ℕ × Registry
  create_mutex r = (
    r.next_mutex_id,
    record r {
      mutexes = insert r.next_mutex_id (Mutex.new crate tt) r.mutexes;
      next_mutex_id = bump r.next_mutex_id;
    },
  )

  unfoldable pub get_mutex : Registry → ℕ → Option (AsyncMutex crate (Unit {0}))
  get_mutex r handle = lookup handle r.mutexes

  unfoldable pub put_mutex : Registry → ℕ → AsyncMutex crate (Unit {0}) → Registry
  put_mutex r handle m = record r { mutexes = insert handle m r.mutexes }

  unfoldable pub destroy_mutex : Registry → ℕ → Bool × Registry
  destroy_mutex r handle =
      (is_some (lookup handle r.mutexes), record r { mutexes = remove handle r.mutexes })

  unfoldable pub create_semaphore : Registry → ℕ → ℕ × Registry
  create_semaphore r permits = (
    r.next_sem_id,
    record r {
      semaphores = insert r.next_sem_id (Semaphore.new crate permits) r.semaphores;
      next_sem_id = bump r.next_sem_id;
    },
  )

  unfoldable pub get_semaphore : Registry → ℕ → Option (Semaphore crate)
  get_semaphore r handle = lookup handle r.semaphores

  unfoldable pub put_semaphore : Registry → ℕ → Semaphore crate → Registry
  put_semaphore r handle s = record r { semaphores = insert handle s r.semaphores }

  unfoldable pub destroy_semaphore : Registry → ℕ → Bool × Registry
  destroy_semaphore r handle =
      (is_some (lookup handle r.semaphores), record r { semaphores = remove handle r.semaphores })
