-- ===== src/Wasm/Host/Calls/Kernel.antt =====
-- What the calls do to the kernel: everything of a world but the module's fuel and memory. An
-- invariant of the kernel needs a proof for the bodies of eight calls only.
use sovelma_os.Prelude.{
  ℕ, ◌-◌, ◌≡◌, refl, sym, subst, List, [], ◌∷◌, arith, leb, Bool-cases, inl, inr,
}
use sovelma_os.Prelude.Words.{ℤ}
use sovelma_os.Prelude.Maps.{BTreeMap}
use sovelma_os.Capability.{CapId, Capability}
use sovelma_os.Fs.RamFs.{RamFs}
use sovelma_os.Sync.Registry.{Registry}
use sovelma_os.Wasm.Error.{yield, yield_threshold}
use sovelma_os.Wasm.Platform.{Platform}
use sovelma_os.Wasm.Host.{World, Outcome, charged, consume_fuel}
use sovelma_os.Wasm.Host.Files.{
  sp_get_capabilities, sp_fs_open, sp_fs_read, sp_fs_size, sp_fs_close, sp_fs_mkdir, sp_sched_yield,
  list_capabilities, open_directory, read_file, size_of, close_capability, make_directory,
}
use sovelma_os.Wasm.Host.Sync.{
  sp_mutex_create, sp_mutex_lock, sp_mutex_try_lock, sp_mutex_unlock, sp_sem_create, sp_sem_acquire,
  sp_sem_try_acquire, sp_sem_release, make_mutex, lock_object, unlock_object, make_semaphore,
  acquire_object, release_object,
}
use sovelma_os.Wasm.Host.Calls.{Call, call, run}

module _ (p : Platform) where
  pub record Kernel : Type 0 where
    pub capabilities : BTreeMap CapId Capability
    pub fs : RamFs
    pub registry : Registry p.crate
    pub next_index : ℕ

  abbrev pub view : World p → Kernel
  view w = record {
    capabilities = w.host.capabilities;
    fs = w.fs;
    registry = w.registry;
    next_index = w.next_index;
  }

  -- Paying changes nothing of the kernel: a property of the results holds with the fuel check, when
  -- it holds of the trap and of the rest.
  pub charged-view {ℓ} :
      (P : Outcome → Kernel → Type ℓ) (cost : ℕ) (w : World p) (rest : World p → Outcome × World p)
      → P (Outcome.trapped yield) (view w)
      → ((v : World p) → view v ≡ view w → P (rest v).0 (view (rest v).1))
      → P (charged p cost w rest).0 (view (charged p cost w rest).1)
  unfolding charged consume_fuel
  charged-view P cost w rest t h =
      elim (Bool-cases (leb yield_threshold (w.host.fuel_remaining - cost))) [
        | inr low ↦ rw (low, charged) t
        | inl high ↦ rw (high, charged) (h (record w { host = (consume_fuel w.host cost).1 }) refl)
      ]

  pub list_capabilities-view : (a b : ℤ) (v : World p) → view (list_capabilities p a b v).1 ≡ view v
  unfolding list_capabilities charged consume_fuel
  list_capabilities-view a b v = ground arith

  pub read_file-view : (a b c d : ℤ) (v : World p) → view (read_file p a b c d v).1 ≡ view v
  unfolding read_file charged consume_fuel
  read_file-view a b c d v = ground arith

  pub size_of-view : (a : ℤ) (v : World p) → view (size_of p a v).1 ≡ view v
  unfolding size_of
  size_of-view a v = ground arith

  pub unlock_object-view : (a : ℤ) (v : World p) → view (unlock_object p a v).1 ≡ view v
  unfolding unlock_object
  unlock_object-view a v = ground arith

  -- The calls that change the kernel keep P.
  pub record Preserved {ℓ} (P : Kernel → Type ℓ) : Type ℓ where
    pub opens : (a b c : ℤ) (v : World p) → P (view v) → P (view (open_directory p a b c v).1)
    pub makes : (a b c : ℤ) (v : World p) → P (view v) → P (view (make_directory p a b c v).1)
    pub closes : (a : ℤ) (v : World p) → P (view v) → P (view (close_capability p a v).1)
    pub mutexes : (v : World p) → P (view v) → P (view (make_mutex p v).1)
    pub locks :
        (k : ℕ → Outcome) (a : ℤ) (v : World p) → P (view v) → P (view (lock_object p k a v).1)
    pub semaphores : (a : ℤ) (v : World p) → P (view v) → P (view (make_semaphore p a v).1)
    pub acquires :
        (n : ℕ) (k : ℕ → Outcome) (a : ℤ) (v : World p)
        → P (view v)
        → P (view (acquire_object p n k a v).1)
    pub releases : (n : ℕ) (a : ℤ) (v : World p) → P (view v) → P (view (release_object p n a v).1)

  module _ {ℓ} (P : Kernel → Type ℓ) (i : Preserved P) where
    paid :
        (cost : ℕ) (w : World p) (rest : World p → Outcome × World p)
        → ((v : World p) → P (view v) → P (view (rest v).1))
        → P (view w)
        → P (view (charged p cost w rest).1)
    paid cost w rest h x = charged-view (λ o k. P k) cost w rest x (λ v e. h v (subst P (sym e) x))

    pub call-Preserved : (c : Call) (w : World p) → P (view w) → P (view (call p c w).1)
    unfolding call sp_get_capabilities sp_fs_open sp_fs_read sp_fs_size sp_fs_close sp_fs_mkdir
        sp_sched_yield sp_mutex_create sp_mutex_lock sp_mutex_try_lock sp_mutex_unlock sp_sem_create
        sp_sem_acquire sp_sem_try_acquire sp_sem_release
    call-Preserved Call.print w x = x
    call-Preserved (Call.get_capabilities a b) w x =
        paid _ w _ (λ v y. subst P (sym (list_capabilities-view a b v)) y) x
    call-Preserved (Call.fs_open a b c) w x = paid _ w _ (i.opens a b c) x
    call-Preserved (Call.fs_mkdir a b c) w x = paid _ w _ (i.makes a b c) x
    call-Preserved (Call.fs_read a b c d) w x =
        paid _ w _ (λ v y. subst P (sym (read_file-view a b c d v)) y) x
    call-Preserved (Call.fs_size a) w x = paid _ w _ (λ v y. subst P (sym (size_of-view a v)) y) x
    call-Preserved (Call.fs_close a) w x = paid _ w _ (i.closes a) x
    call-Preserved (Call.mutex_lock a) w x = paid _ w _ (i.locks _ a) x
    call-Preserved (Call.mutex_try_lock a) w x = paid _ w _ (i.locks _ a) x
    call-Preserved (Call.mutex_unlock a) w x =
        paid _ w _ (λ v y. subst P (sym (unlock_object-view a v)) y) x
    call-Preserved Call.sched_yield w x = x
    call-Preserved Call.mutex_create w x = paid _ w _ i.mutexes x
    call-Preserved (Call.sem_create a) w x = paid _ w _ (i.semaphores a) x
    call-Preserved (Call.sem_acquire n a) w x = paid _ w _ (i.acquires n _ a) x
    call-Preserved (Call.sem_try_acquire n a) w x = paid _ w _ (i.acquires n _ a) x
    call-Preserved (Call.sem_release n a) w x = paid _ w _ (i.releases n a) x

    pub run-Preserved : (cs : List Call) (w : World p) → P (view w) → P (view (run p cs w))
    unfolding run
    run-Preserved [] w x = x
    run-Preserved (c ∷ cs) w x = run-Preserved cs (call p c w).1 (call-Preserved c w x)
