-- ===== src/Wasm/Host/Calls/Errors.antt =====
-- A call that returns an error code has changed nothing of the kernel.
use sovelma_os.Prelude.{ℕ, ◌<◌, ◌^◌, ◌≡◌, sym, subst, arith}
use sovelma_os.Prelude.Words.{negsuc}
use sovelma_os.Prelude.Maps.{nat_ord}
use sovelma_os.Wasm.Platform.{Platform}
use sovelma_os.Wasm.Host.{World, Outcome, returned, charged}
use sovelma_os.Wasm.Host.Files.{
  sp_get_capabilities, sp_fs_open, sp_fs_read, sp_fs_size, sp_fs_close, sp_fs_mkdir, sp_sched_yield,
}
use sovelma_os.Wasm.Host.Sync.{
  sp_mutex_create, sp_mutex_lock, sp_mutex_try_lock, sp_mutex_unlock, sp_sem_create, sp_sem_acquire,
  sp_sem_try_acquire, sp_sem_release,
}
use sovelma_os.Wasm.Host.Calls.{Call, call}
use sovelma_os.Wasm.Host.Calls.Kernel.{
  view, charged-view, list_capabilities-view, read_file-view, size_of-view, unlock_object-view,
}
use sovelma_os.Wasm.Host.Calls.Authority.{open_directory-Opening}
use sovelma_os.Wasm.Host.Calls.FileErrors.{
  Unchanged, unchanged, Atomic, Opening-Atomic, close_capability-Atomic, make_mutex-Atomic,
  make_semaphore-Atomic, make_directory-Atomic,
}
use sovelma_os.Wasm.Host.Calls.ObjectErrors.{
  lock_object-Atomic, acquire_object-Atomic, release_object-Atomic,
}

module _ (p : Platform) where
  -- The body of a call, behind its fuel check.
  paid :
      (cost : ℕ) (w : World p) (rest : World p → Outcome × World p)
      → w.next_index < 2 ^ 32
      → ((v : World p) → v.next_index < 2 ^ 32 → Atomic p (view p v) (rest v).0 (view p (rest v).1))
      → Atomic p (view p w) (charged p cost w rest).0 (view p (charged p cost w rest).1)
  paid cost w rest low h =
      charged-view p (λ o k. Atomic p (view p w) o k) cost w rest (λ n q. absurd (ground arith))
        (λ v same.
          subst (λ k. Atomic p k (rest v).0 (view p (rest v).1)) same
            (h v (subst (λ k. k.next_index < 2 ^ 32) (sym same) low)))

  -- Every call that returns an error code has left the kernel as it was: the module's capabilities,
  -- the file system, the counter of identifiers, and the mutex and the semaphore under every
  -- handle. The counter, a 32-bit word, is the hypothesis.
  pub call-Unchanged :
      (c : Call) (w : World p) (n : ℕ)
      → w.next_index < 2 ^ 32
      → (call p c w).0 ≡ returned (negsuc n)
      → Unchanged p (view p w) (view p (call p c w).1)
  unfolding call sp_get_capabilities sp_fs_open sp_fs_read sp_fs_size sp_fs_close sp_fs_mkdir
      sp_sched_yield sp_mutex_create sp_mutex_lock sp_mutex_try_lock sp_mutex_unlock sp_sem_create
      sp_sem_acquire sp_sem_try_acquire sp_sem_release
  call-Unchanged Call.print w n low = λ q. absurd (ground arith)
  call-Unchanged (Call.get_capabilities a b) w n low =
      paid _ w _ low (λ v l n q. unchanged p (list_capabilities-view p a b v)) n
  call-Unchanged (Call.fs_open a b c) w n low =
      paid _ w _ low (λ v l. Opening-Atomic p a v _ l (open_directory-Opening p a b c v)) n
  call-Unchanged (Call.fs_mkdir a b c) w n low =
      paid _ w _ low (λ v l. make_directory-Atomic p a b c v) n
  call-Unchanged (Call.fs_read a b c d) w n low =
      paid _ w _ low (λ v l n q. unchanged p (read_file-view p a b c d v)) n
  call-Unchanged (Call.fs_size a) w n low =
      paid _ w _ low (λ v l n q. unchanged p (size_of-view p a v)) n
  call-Unchanged (Call.fs_close a) w n low = paid _ w _ low (λ v l. close_capability-Atomic p a v) n
  call-Unchanged (Call.mutex_lock a) w n low = paid _ w _ low (λ v l. lock_object-Atomic p _ a v) n
  call-Unchanged (Call.mutex_try_lock a) w n low =
      paid _ w _ low (λ v l. lock_object-Atomic p _ a v) n
  call-Unchanged (Call.mutex_unlock a) w n low =
      paid _ w _ low (λ v l n q. unchanged p (unlock_object-view p a v)) n
  call-Unchanged Call.sched_yield w n low = λ q. absurd (ground arith)
  call-Unchanged Call.mutex_create w n low = paid _ w _ low (λ v l. make_mutex-Atomic p v l) n
  call-Unchanged (Call.sem_create a) w n low =
      paid _ w _ low (λ v l. make_semaphore-Atomic p a v l) n
  call-Unchanged (Call.sem_acquire m a) w n low =
      paid _ w _ low (λ v l. acquire_object-Atomic p m _ a v) n
  call-Unchanged (Call.sem_try_acquire m a) w n low =
      paid _ w _ low (λ v l. acquire_object-Atomic p m _ a v) n
  call-Unchanged (Call.sem_release m a) w n low =
      paid _ w _ low (λ v l. release_object-Atomic p m a v) n
