-- ===== src/Sync/Semaphore/Runs.antt =====
-- kernel/src/sync/semaphore.rs: `try_acquire` and `release` against the atomic operations of Limit.
use sovelma_os.Prelude.{
  ℕ, zero, suc, ◌<◌, ◌≡◌, refl, subst, fun_ext, ◌==◌, arith, if◌then◌else◌, Bool-cases, inl, inr,
}
use sovelma_os.ArrayQueue.{ArrayQueue}
use sovelma_os.Sync.Future.{Waker}
use sovelma_os.Sync.Semaphore.{Semaphore, released, try_acquire, add_permit, release}
use sovelma_os.Sync.Semaphore.Counting.{try_acquire_lem}
use sovelma_os.Sync.Semaphore.Limit.{
  Pc, idle, holding, waking, taking, giving, update, World, move, Step, refuse, load, take, skip,
  reload, give, wake, Reach, here, later,
}

update-update : (pc : ℕ → Pc) (i : ℕ) (p q : Pc) → update (update pc i p) i q ≡ update pc i q
update-update pc i p q = fun_ext (λ j. ground arith)

update_self : (pc : ℕ → Pc) (i : ℕ) (p : Pc) → update pc i p i ≡ p
update_self pc i p = ground arith

module _ (crate : ArrayQueue Waker) where
  -- A run in which task `i` moves twice.
  then_moves :
      {n : ℕ} {w : World crate} (i : ℕ) (s s' : Semaphore crate) (p q : Pc)
      → Reach crate n w (move crate w i s p)
      → Step crate n (move crate w i s p) (move crate (move crate w i s p) i s' q)
      → Reach crate n w (move crate w i s' q)
  then_moves {n} {w} i s s' p q r st =
      subst (λ (pc : ℕ → Pc). Reach crate n w (record { semaphore = s'; pc = pc }))
        (update-update w.pc i p q) (later r st)

  -- An uninterrupted `try_acquire` is a run, after which the task holds a permit if it was told so.
  pub try_acquire-Reach :
      (n failures i : ℕ) (w : World crate)
      → i < n
      → w.pc i ≡ idle
      → let (taken, s) = try_acquire crate failures w.semaphore in
        Reach crate n w (move crate w i s (if taken then holding else idle))
  try_acquire-Reach n failures i w lt at =
      rw (try_acquire_lem crate failures w.semaphore)
        (elim (Bool-cases (w.semaphore.permits == 0)) [
          | inl e ↦ rw e (later here (refuse i lt at (ground arith)))
          | inr e ↦ rw e (
              then_moves i w.semaphore _ (taking w.semaphore.permits) holding
                (later here (load i lt at (ground arith)))
                (take i w.semaphore.permits lt (update_self w.pc i _) refl))
        ])

  add_permit_lem :
      (failures : ℕ) (s : Semaphore crate)
      → add_permit crate failures s ≡ (
          if s.permits == released s.permits s.max_permits
          then s
          else record s { permits = released s.permits s.max_permits })
  unfolding add_permit
  add_permit_lem zero s = refl
  add_permit_lem (suc failures) s = ground (arith, add_permit_lem failures s)

  -- An uninterrupted `release` by a task that holds a permit is a run, after which it holds none.
  pub release-Reach :
      (n failures i : ℕ) (w : World crate)
      → i < n
      → w.pc i ≡ holding
      → Reach crate n w (move crate w i (release crate failures w.semaphore).1 idle)
  unfolding release
  release-Reach n failures i w lt at =
      rw (add_permit_lem failures w.semaphore)
        (elim (Bool-cases
          (w.semaphore.permits == released w.semaphore.permits w.semaphore.max_permits)) [
            | inl e ↦ rw e (
                then_moves i w.semaphore _ waking idle (later here (skip i lt at (ground arith)))
                  (wake i lt (update_self w.pc i _)))
            | inr e ↦ rw e (
                then_moves i _ _ waking idle
                  (then_moves i w.semaphore _ (giving w.semaphore.permits) waking
                    (later here (reload i lt at (ground arith)))
                    (give i w.semaphore.permits lt (update_self w.pc i _) refl))
                  (wake i lt (update_self w.pc i _)))
          ])
