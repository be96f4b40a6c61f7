-- ===== src/Wasm/Host/Calls/Permits.antt =====
-- What the calls do to the semaphores of the registry.
use sovelma_os.Prelude.{
  ℕ, ◌-◌, ◌≤◌, ◌≡◌, refl, sym, subst, List, some, arith, Bool-cases, Option-cases, inl, inr,
  if◌then◌else◌, ◌==◌, zero, suc,
}
use sovelma_os.Prelude.Words.{ℤ, pos, negsuc, as_u64}
use sovelma_os.Prelude.Maps.{nat_ord, lookup, AllValues, AllValues-insert, lookup-insert_self}
use sovelma_os.ArrayQueue.{pop-PopsOldest}
use sovelma_os.Capability.CapabilityRights
use sovelma_os.Sync.Semaphore.{Semaphore, try_acquire, release, add_permit, wake_next}
use sovelma_os.Sync.Semaphore
use sovelma_os.Sync.Semaphore.Counting.{try_acquire_lem}
use sovelma_os.Sync.Registry.{
  create_mutex, put_mutex, create_semaphore, put_semaphore, get_semaphore,
}
use sovelma_os.Wasm.Error.{invalid_handle}
use sovelma_os.Wasm.Platform.{Platform}
use sovelma_os.Wasm.Host.{World, Outcome, returned, go, authorize, as_semaphore}
use sovelma_os.Wasm.Host.Files.{open_directory, make_directory, close_capability}
use sovelma_os.Wasm.Host.Sync.{
  make_mutex, give, lock_object, make_semaphore, acquire_object, release_object,
}
use sovelma_os.Wasm.Host.Calls.{Call, run}
use sovelma_os.Wasm.Host.Calls.Kernel.{Kernel, view, Preserved, run-Preserved}
use sovelma_os.Wasm.Host.Calls.Authority.{Flow-cases}

module _ (p : Platform) where
  abbrev IsBounded : Semaphore p.crate → Type 0
  IsBounded s = s.permits ≤ s.max_permits

  abbrev pub AllBounded : Kernel p → Type 0
  AllBounded k = AllValues IsBounded k.registry.semaphores

  add_permit-IsBounded :
      (n : ℕ) (s : Semaphore p.crate) → IsBounded s → IsBounded (add_permit p.crate n s)
  unfolding add_permit
  add_permit-IsBounded zero s h = ground arith
  add_permit-IsBounded (suc n) s h = ground (arith, add_permit-IsBounded n s h)

  release-IsBounded :
      (n : ℕ) (s : Semaphore p.crate) → IsBounded s → IsBounded (release p.crate n s).1
  unfolding release
  release-IsBounded n s h =
      ground
        (arith, add_permit-IsBounded n s h, pop-PopsOldest p.crate (add_permit p.crate n s).waiters)

  acquire_object-AllBounded :
      (n : ℕ) (k : ℕ → Outcome) (a : ℤ) (v : World p)
      → AllBounded (view p v)
      → AllBounded (view p (acquire_object p n k a v).1)
  unfolding acquire_object get_semaphore put_semaphore
  acquire_object-AllBounded n k a v x =
      elim (Flow-cases (authorize p v.host a as_semaphore CapabilityRights.call invalid_handle)) [
        | inr (o, e) ↦ rw (e, acquire_object) x
        | inl ((handle, rights), e) ↦ elim (Option-cases (lookup handle v.registry.semaphores)) [
          | inl missing ↦ rw (e, acquire_object) (rw missing x)
          | inr (s, held) ↦
              let fine : IsBounded (try_acquire p.crate n s).1 =
                ground (arith, try_acquire_lem p.crate n s, x handle s held) in
              let kept =
                AllValues-insert IsBounded handle (try_acquire p.crate n s).1 v.registry.semaphores
                  fine x in
              elim (Bool-cases (try_acquire p.crate n s).0) [
                | inl taken ↦ rw (e, acquire_object) (rw held (rw taken kept))
                | inr taken ↦ rw (e, acquire_object) (rw held (rw taken kept))
              ]
        ]
      ]

  release_object-AllBounded :
      (n : ℕ) (a : ℤ) (v : World p)
      → AllBounded (view p v)
      → AllBounded (view p (release_object p n a v).1)
  unfolding release_object get_semaphore put_semaphore
  release_object-AllBounded n a v x =
      elim (Flow-cases (authorize p v.host a as_semaphore CapabilityRights.call invalid_handle)) [
        | inr (o, e) ↦ rw (e, release_object) x
        | inl ((handle, rights), e) ↦ elim (Option-cases (lookup handle v.registry.semaphores)) [
          | inl missing ↦ rw (e, release_object) (rw missing x)
          | inr (s, held) ↦
              rw (e, release_object)
                (rw held (
                  AllValues-insert IsBounded handle (release p.crate n s).1 v.registry.semaphores
                    (release-IsBounded n s (x handle s held)) x))
        ]
      ]

  open_directory-semaphores :
      (a b c : ℤ) (v : World p)
      → (open_directory p a b c v).1.registry.semaphores ≡ v.registry.semaphores
  unfolding open_directory
  open_directory-semaphores a b c v = ground arith

  make_directory-semaphores :
      (a b c : ℤ) (v : World p)
      → (make_directory p a b c v).1.registry.semaphores ≡ v.registry.semaphores
  unfolding make_directory
  make_directory-semaphores a b c v = ground arith

  close_capability-semaphores :
      (a : ℤ) (v : World p) → (close_capability p a v).1.registry.semaphores ≡ v.registry.semaphores
  unfolding close_capability
  close_capability-semaphores a v = ground arith

  lock_object-semaphores :
      (k : ℕ → Outcome) (a : ℤ) (v : World p)
      → (lock_object p k a v).1.registry.semaphores ≡ v.registry.semaphores
  unfolding lock_object put_mutex
  lock_object-semaphores k a v = ground arith

  make_mutex-semaphores :
      (v : World p) → (make_mutex p v).1.registry.semaphores ≡ v.registry.semaphores
  unfolding make_mutex give create_mutex
  make_mutex-semaphores v = refl

  make_semaphore-AllBounded :
      (a : ℤ) (v : World p) → AllBounded (view p v) → AllBounded (view p (make_semaphore p a v).1)
  unfolding make_semaphore give create_semaphore Semaphore.new
  make_semaphore-AllBounded (negsuc n) v x = x
  make_semaphore-AllBounded (pos n) v x =
      AllValues-insert IsBounded v.registry.next_sem_id (Semaphore.new p.crate (as_u64 (pos n)))
        v.registry.semaphores (omega arith) x

  AllBounded-Preserved : Preserved p AllBounded
  AllBounded-Preserved = record {
    opens = λ a b c v x. subst (AllValues IsBounded) (sym (open_directory-semaphores a b c v)) x;
    makes = λ a b c v x. subst (AllValues IsBounded) (sym (make_directory-semaphores a b c v)) x;
    closes = λ a v x. subst (AllValues IsBounded) (sym (close_capability-semaphores a v)) x;
    mutexes = λ v x. subst (AllValues IsBounded) (sym (make_mutex-semaphores v)) x;
    locks = λ k a v x. subst (AllValues IsBounded) (sym (lock_object-semaphores k a v)) x;
    semaphores = λ a v x. make_semaphore-AllBounded a v x;
    acquires = λ n k a v x. acquire_object-AllBounded n k a v x;
    releases = λ n a v x. release_object-AllBounded n a v x;
  }

  -- No sequence of calls brings a registered semaphore above its maximum.
  pub run-AllBounded :
      (cs : List Call) (w : World p) → AllBounded (view p w) → AllBounded (view p (run p cs w))
  run-AllBounded = run-Preserved p AllBounded AllBounded-Preserved

  -- A call to acquire, once it has paid, on a semaphore that its capability may call: with a permit
  -- left it returns 0 and there is one less, and with none left it answers contention (a trap or an
  -- error, by the call) and the semaphore is as it was. Weak exchanges that fail change neither.
  pub acquire_object-permits :
      (failures : ℕ) (contended : ℕ → Outcome) (cap : ℤ) (w : World p) (handle rights : ℕ)
      (s : Semaphore p.crate)
      → authorize p w.host cap as_semaphore CapabilityRights.call invalid_handle
        ≡ go (handle, rights)
      → get_semaphore p.crate w.registry handle ≡ some s
      → let (o, w') = acquire_object p failures contended cap w in
        (o ≡ (if s.permits == 0 then contended handle else returned (pos 0)))
        × (get_semaphore p.crate w'.registry handle ≡ some (record s { permits = s.permits - 1 }))
  unfolding acquire_object get_semaphore put_semaphore
  acquire_object-permits failures contended cap w handle rights s e held =
      rw (e, acquire_object)
        (rw held (
          ground (
            arith,
            try_acquire_lem p.crate failures s,
            lookup-insert_self handle (try_acquire p.crate failures s).1 w.registry.semaphores,
          )))
