-- ===== src/Wasm/Host/Calls/Fuel.antt =====
-- Every call pays: the fuel never grows, and below the threshold the module is preempted.
use sovelma_os.Prelude.{ℕ, ◌-◌, ◌≤◌, ◌≡◌, ◌≢◌, refl, arith, ◌⊎◌, inl, inr, leb, Bool-cases}
use sovelma_os.Prelude.Words.{ℤ, pos, negsuc}
use sovelma_os.Wasm.Error.{yield, yield_threshold}
use sovelma_os.Wasm.Platform.{Platform}
use sovelma_os.Wasm.Host.{World, Outcome, trapped, charged, consume_fuel}
use sovelma_os.Wasm.Host.Files.{
  sp_get_capabilities, sp_fs_open, sp_fs_read, sp_fs_size, sp_fs_close, sp_fs_mkdir, sp_sched_yield,
  list_capabilities, open_directory, read_file, size_of, close_capability, make_directory,
}
use sovelma_os.Wasm.Host.Sync.{
  sp_mutex_create, sp_mutex_lock, sp_mutex_try_lock, sp_mutex_unlock, sp_sem_create, sp_sem_acquire,
  sp_sem_try_acquire, sp_sem_release, make_mutex, give, lock_object, unlock_object, make_semaphore,
  acquire_object, release_object,
}
use sovelma_os.Wasm.Host.Calls.{Call, call, print}

module _ (p : Platform) where
  -- The fuel went down, and either enough is left or the call gave up its time slice.
  pub record IsPaid (w : World p) (r : Outcome × World p) : Type 0 where
    pub less : r.1.host.fuel_remaining ≤ w.host.fuel_remaining
    pub enough : (yield_threshold ≤ r.1.host.fuel_remaining) ⊎ (r.0 ≡ trapped yield)

  charged-IsPaid :
      (cost : ℕ) (w : World p) (rest : World p → Outcome × World p)
      → ((v : World p) → yield_threshold ≤ v.host.fuel_remaining → IsPaid v (rest v))
      → IsPaid w (charged p cost w rest)
  unfolding charged consume_fuel
  charged-IsPaid cost w rest h =
      elim (Bool-cases (leb yield_threshold (w.host.fuel_remaining - cost))) [
        | inr low ↦ rw (low, charged) (record { less = omega arith; enough = inr refl })
        | inl high ↦
            let v : World p = record w { host = (consume_fuel w.host cost).1 } in
            let paid = h v (ground arith) in
            rw (high, charged) (record { less = omega (arith, paid.less); enough = paid.enough })
      ]

  -- A body that leaves the fuel alone.
  same :
      {v : World p} {r : Outcome × World p}
      → yield_threshold ≤ v.host.fuel_remaining
      → r.1.host.fuel_remaining ≡ v.host.fuel_remaining
      → IsPaid v r
  same h e = record { less = omega arith; enough = inl (omega arith) }

  open_directory-fuel :
      (a b c : ℤ) (v : World p)
      → (open_directory p a b c v).1.host.fuel_remaining ≡ v.host.fuel_remaining
  unfolding open_directory
  open_directory-fuel a b c v = ground arith

  make_directory-fuel :
      (a b c : ℤ) (v : World p)
      → (make_directory p a b c v).1.host.fuel_remaining ≡ v.host.fuel_remaining
  unfolding make_directory
  make_directory-fuel a b c v = ground arith

  close_capability-fuel :
      (a : ℤ) (v : World p) → (close_capability p a v).1.host.fuel_remaining ≡ v.host.fuel_remaining
  unfolding close_capability
  close_capability-fuel a v = ground arith

  size_of-fuel :
      (a : ℤ) (v : World p) → (size_of p a v).1.host.fuel_remaining ≡ v.host.fuel_remaining
  unfolding size_of
  size_of-fuel a v = ground arith

  lock_object-fuel :
      (k : ℕ → Outcome) (a : ℤ) (v : World p)
      → (lock_object p k a v).1.host.fuel_remaining ≡ v.host.fuel_remaining
  unfolding lock_object
  lock_object-fuel k a v = ground arith

  unlock_object-fuel :
      (a : ℤ) (v : World p) → (unlock_object p a v).1.host.fuel_remaining ≡ v.host.fuel_remaining
  unfolding unlock_object
  unlock_object-fuel a v = ground arith

  acquire_object-fuel :
      (n : ℕ) (k : ℕ → Outcome) (a : ℤ) (v : World p)
      → (acquire_object p n k a v).1.host.fuel_remaining ≡ v.host.fuel_remaining
  unfolding acquire_object
  acquire_object-fuel n k a v = ground arith

  release_object-fuel :
      (n : ℕ) (a : ℤ) (v : World p)
      → (release_object p n a v).1.host.fuel_remaining ≡ v.host.fuel_remaining
  unfolding release_object
  release_object-fuel n a v = ground arith

  make_mutex-fuel : (v : World p) → (make_mutex p v).1.host.fuel_remaining ≡ v.host.fuel_remaining
  unfolding make_mutex give
  make_mutex-fuel v = ground arith

  make_semaphore-fuel :
      (a : ℤ) (v : World p) → (make_semaphore p a v).1.host.fuel_remaining ≡ v.host.fuel_remaining
  unfolding make_semaphore give
  make_semaphore-fuel (pos n) v = ground arith
  make_semaphore-fuel (negsuc n) v = ground arith

  list_capabilities-IsPaid :
      (a b : ℤ) (v : World p)
      → yield_threshold ≤ v.host.fuel_remaining
      → IsPaid v (list_capabilities p a b v)
  unfolding list_capabilities charged consume_fuel
  list_capabilities-IsPaid a b v h = record { less = ground arith; enough = ground arith }

  read_file-IsPaid :
      (a b c d : ℤ) (v : World p)
      → yield_threshold ≤ v.host.fuel_remaining
      → IsPaid v (read_file p a b c d v)
  unfolding read_file charged consume_fuel
  read_file-IsPaid a b c d v h = record { less = ground arith; enough = ground arith }

  -- Every call but `print`, on every path through it, errors and traps included, leaves the module
  -- no more fuel than it had, and either leaves at least the yield threshold or ends in the trap
  -- that gives up the time slice.
  pub call-IsPaid : (c : Call) (w : World p) → c ≢ print → IsPaid w (call p c w)
  unfolding call sp_get_capabilities sp_fs_open sp_fs_read sp_fs_size sp_fs_close sp_fs_mkdir
      sp_sched_yield sp_mutex_create sp_mutex_lock sp_mutex_try_lock sp_mutex_unlock sp_sem_create
      sp_sem_acquire sp_sem_try_acquire sp_sem_release
  call-IsPaid print w ne = absurd (ne refl)
  call-IsPaid (Call.get_capabilities a b) w ne = charged-IsPaid _ w _ (list_capabilities-IsPaid a b)
  call-IsPaid (Call.fs_open a b c) w ne =
      charged-IsPaid _ w _ (λ v h. same h (open_directory-fuel a b c v))
  call-IsPaid (Call.fs_mkdir a b c) w ne =
      charged-IsPaid _ w _ (λ v h. same h (make_directory-fuel a b c v))
  call-IsPaid (Call.fs_read a b c d) w ne = charged-IsPaid _ w _ (read_file-IsPaid a b c d)
  call-IsPaid (Call.fs_size a) w ne = charged-IsPaid _ w _ (λ v h. same h (size_of-fuel a v))
  call-IsPaid (Call.fs_close a) w ne =
      charged-IsPaid _ w _ (λ v h. same h (close_capability-fuel a v))
  call-IsPaid (Call.mutex_lock a) w ne =
      charged-IsPaid _ w _ (λ v h. same h (lock_object-fuel _ a v))
  call-IsPaid (Call.mutex_try_lock a) w ne =
      charged-IsPaid _ w _ (λ v h. same h (lock_object-fuel _ a v))
  call-IsPaid (Call.mutex_unlock a) w ne =
      charged-IsPaid _ w _ (λ v h. same h (unlock_object-fuel a v))
  call-IsPaid Call.sched_yield w ne = record { less = omega arith; enough = inr refl }
  call-IsPaid Call.mutex_create w ne = charged-IsPaid _ w _ (λ v h. same h (make_mutex-fuel v))
  call-IsPaid (Call.sem_create a) w ne =
      charged-IsPaid _ w _ (λ v h. same h (make_semaphore-fuel a v))
  call-IsPaid (Call.sem_acquire n a) w ne =
      charged-IsPaid _ w _ (λ v h. same h (acquire_object-fuel n _ a v))
  call-IsPaid (Call.sem_try_acquire n a) w ne =
      charged-IsPaid _ w _ (λ v h. same h (acquire_object-fuel n _ a v))
  call-IsPaid (Call.sem_release n a) w ne =
      charged-IsPaid _ w _ (λ v h. same h (release_object-fuel n a v))
