-- ===== src/Wasm/Process/Fuel.antt =====
-- kernel/src/wasm/mod.rs and host.rs: the host fuel of a process that was only spawned.
use sovelma_os.Prelude.{ℕ, ◌≡◌, ◌≢◌, refl, List, [], ◌∷◌, arith}
use sovelma_os.Capability.{Capability}
use sovelma_os.Wasm.Error.{yield}
use sovelma_os.Wasm.Platform.{Platform}
use sovelma_os.Wasm.Host.{
  HostState, World, Outcome, trapped, new, grant_all, with_capabilities, charged, consume_fuel,
}
use sovelma_os.Wasm.Host.Files.{
  sp_get_capabilities, sp_fs_open, sp_fs_read, sp_fs_size, sp_fs_close, sp_fs_mkdir, sp_sched_yield,
}
use sovelma_os.Wasm.Host.Sync.{
  sp_mutex_create, sp_mutex_lock, sp_mutex_try_lock, sp_mutex_unlock, sp_sem_create, sp_sem_acquire,
  sp_sem_try_acquire, sp_sem_release,
}
use sovelma_os.Wasm.Host.Calls.{
  Call, call, print, get_capabilities, fs_open, fs_mkdir, fs_read, fs_size, fs_close, mutex_lock,
  mutex_try_lock, mutex_unlock, sched_yield, mutex_create, sem_create, sem_acquire, sem_try_acquire,
  sem_release,
}

grant_all-fuel :
    (caps : List Capability) (h : HostState) → (grant_all caps h).fuel_remaining ≡ h.fuel_remaining
unfolding grant_all
grant_all-fuel [] h = refl
grant_all-fuel (cap ∷ caps) h = grant_all-fuel caps _

module _ (p : Platform) where
  charged_empty :
      (cost : ℕ) (w : World p) (rest : World p → Outcome × World p)
      → w.host.fuel_remaining ≡ 0
      → (charged p cost w rest).0 ≡ trapped yield
  unfolding charged consume_fuel
  charged_empty cost w rest h = ground arith

  call_empty :
      (c : Call) (w : World p)
      → w.host.fuel_remaining ≡ 0
      → c ≢ print
      → (call p c w).0 ≡ trapped yield
  unfolding call sp_get_capabilities sp_fs_open sp_fs_read sp_fs_size sp_fs_close sp_fs_mkdir
      sp_sched_yield sp_mutex_create sp_mutex_lock sp_mutex_try_lock sp_mutex_unlock sp_sem_create
      sp_sem_acquire sp_sem_try_acquire sp_sem_release
  call_empty print w e n = absurd (n refl)
  call_empty sched_yield w e n = refl
  call_empty (get_capabilities a b) w e n = charged_empty _ w _ e
  call_empty (fs_open a b c) w e n = charged_empty _ w _ e
  call_empty (fs_mkdir a b c) w e n = charged_empty _ w _ e
  call_empty (fs_read a b c d) w e n = charged_empty _ w _ e
  call_empty (fs_size a) w e n = charged_empty _ w _ e
  call_empty (fs_close a) w e n = charged_empty _ w _ e
  call_empty (mutex_lock a) w e n = charged_empty _ w _ e
  call_empty (mutex_try_lock a) w e n = charged_empty _ w _ e
  call_empty (mutex_unlock a) w e n = charged_empty _ w _ e
  call_empty mutex_create w e n = charged_empty _ w _ e
  call_empty (sem_create a) w e n = charged_empty _ w _ e
  call_empty (sem_acquire k a) w e n = charged_empty _ w _ e
  call_empty (sem_try_acquire k a) w e n = charged_empty _ w _ e
  call_empty (sem_release k a) w e n = charged_empty _ w _ e

  -- In a world whose host state is the one that a process is spawned with, whatever its
  -- capabilities, every host call but `print` ends in the yield trap.
  pub call-with_capabilities :
      (caps : List Capability) (c : Call) (w : World p)
      → w.host ≡ with_capabilities caps
      → c ≢ print
      → (call p c w).0 ≡ trapped yield
  unfolding with_capabilities new
  call-with_capabilities caps c w h n = call_empty c w (ground (arith, grant_all-fuel caps new)) n
