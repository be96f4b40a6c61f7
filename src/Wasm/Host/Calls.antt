-- ===== src/Wasm/Host/Calls.antt =====
-- kernel/src/wasm/host.rs, `register_functions`: the calls that a module can make, and sequences of
-- them.
pub mod Fuel
pub mod Kernel
pub mod Authority
pub mod Degradation
pub mod Confinement
pub mod ReadOnly
pub mod Locks
pub mod Permits
pub mod FileErrors
pub mod ObjectErrors
pub mod Errors
mod Examples
use sovelma_os.Prelude.{ℕ, List, [], ◌∷◌}
use sovelma_os.Prelude.Words.{ℤ}
use sovelma_os.Wasm.Platform.{Platform}
use sovelma_os.Wasm.Host.{World, Outcome, done}
use sovelma_os.Wasm.Host.Files.{
  sp_get_capabilities, sp_fs_open, sp_fs_read, sp_fs_size, sp_fs_close, sp_fs_mkdir, sp_sched_yield,
}
use sovelma_os.Wasm.Host.Sync.{
  sp_mutex_create, sp_mutex_lock, sp_mutex_try_lock, sp_mutex_unlock, sp_sem_create, sp_sem_acquire,
  sp_sem_try_acquire, sp_sem_release,
}

-- The arguments of a call; on semaphores beside them the number of weak exchanges that fail.
pub data Call : Type 0 where
  print : Call
  get_capabilities : (ptr len : ℤ) → Call
  fs_open fs_mkdir : (dir_cap path_ptr path_len : ℤ) → Call
  fs_read : (file_cap buf_ptr buf_len offset : ℤ) → Call
  fs_size fs_close mutex_lock mutex_try_lock mutex_unlock : (cap : ℤ) → Call
  sched_yield mutex_create : Call
  sem_create : (permits : ℤ) → Call
  sem_acquire sem_try_acquire sem_release : (failures : ℕ) (cap : ℤ) → Call

module _ (p : Platform) where
  unfoldable pub call : Call → World p → Outcome × World p
  call print w = (done, w)
  call (get_capabilities ptr len) w = sp_get_capabilities p ptr len w
  call (fs_open dir_cap path_ptr path_len) w = sp_fs_open p dir_cap path_ptr path_len w
  call (fs_mkdir dir_cap path_ptr path_len) w = sp_fs_mkdir p dir_cap path_ptr path_len w
  call (fs_read file_cap buf_ptr buf_len offset) w = sp_fs_read p file_cap buf_ptr buf_len offset w
  call (fs_size cap) w = sp_fs_size p cap w
  call (fs_close cap) w = sp_fs_close p cap w
  call (mutex_lock cap) w = sp_mutex_lock p cap w
  call (mutex_try_lock cap) w = sp_mutex_try_lock p cap w
  call (mutex_unlock cap) w = sp_mutex_unlock p cap w
  call sched_yield w = sp_sched_yield p w
  call mutex_create w = sp_mutex_create p w
  call (sem_create permits) w = sp_sem_create p permits w
  call (sem_acquire failures cap) w = sp_sem_acquire p failures cap w
  call (sem_try_acquire failures cap) w = sp_sem_try_acquire p failures cap w
  call (sem_release failures cap) w = sp_sem_release p failures cap w

  -- Calls one after another.
  unfoldable pub run : List Call → World p → World p
  run [] w = w
  run (c ∷ cs) w = run cs (call c w).1
