-- ===== src/Sync/Semaphore/Limit.antt =====
-- The limit on concurrent holders under every interleaving: `n` tasks run the loops of
-- `try_acquire` and `release` one atomic operation at a time.
use sovelma_os.Prelude.{
  ℕ, zero, suc, ◌+◌, ◌-◌, ◌^◌, ◌≤◌, ◌<◌, ◌≡◌, ◌≢◌, refl, ◌==◌, arith, if◌then◌else◌, ◌∙◌,
  Bool-cases, inl, inr,
}
use sovelma_os.ArrayQueue.{ArrayQueue, pop-PopsOldest}
use sovelma_os.Sync.Future.{Waker}
use sovelma_os.Sync.Semaphore.{Semaphore, AcquireFuture, new, released, register, wake_next}

-- Where a task stands: without a permit, between the load of `try_acquire` and its exchange, with
-- a permit, between the load of `release` and its exchange, and before the wake of `release`.
pub data Pc : Type 0 where
  idle holding waking : Pc
  taking giving : ℕ → Pc

-- The permits that a task accounts for.
abbrev pub weight : Pc → ℕ
weight idle = 0
weight holding = 1
weight waking = 0
weight (taking c) = 0
weight (giving c) = 1

abbrev pub update : (ℕ → Pc) → ℕ → Pc → ℕ → Pc
update pc i p j = if i == j then p else pc j

-- The permits that the first `n` tasks account for.
abbrev pub total : ℕ → (ℕ → Pc) → ℕ
total zero pc = 0
total (suc n) pc = weight (pc n) + total n pc

total_beyond : (n : ℕ) (pc : ℕ → Pc) (i : ℕ) (p : Pc) → n ≤ i → total n (update pc i p) ≡ total n pc
total_beyond zero pc i p h = refl
total_beyond (suc n) pc i p h = ground (arith, total_beyond n pc i p (omega arith))

-- A move of one task changes the total by what that task accounts for.
total-update :
    (n : ℕ) (pc : ℕ → Pc) (i : ℕ) (p : Pc)
    → i < n
    → total n (update pc i p) + weight (pc i) ≡ total n pc + weight p
total-update zero pc i p h = elim h [ ]
total-update (suc n) pc i p h = elim (Bool-cases (i == n)) [
  | inl e ↦ ground (arith, total_beyond n pc i p (ground arith))
  | inr e ↦ ground (arith, total-update n pc i p (ground arith))
]

total-weight-le : (n : ℕ) (pc : ℕ → Pc) (i : ℕ) → i < n → weight (pc i) ≤ total n pc
total-weight-le zero pc i h = elim h [ ]
total-weight-le (suc n) pc i h = elim (Bool-cases (i == n)) [
  | inl e ↦ ground arith
  | inr e ↦ ground (arith, total-weight-le n pc i (ground arith))
]

total-idle : (n : ℕ) → total n (λ i. idle) ≡ 0
total-idle zero = refl
total-idle (suc n) = omega (arith, total-idle n)

module _ (crate : ArrayQueue Waker) where
  pub record World : Type 0 where
    pub semaphore : Semaphore crate
    pub pc : ℕ → Pc

  abbrev pub move : World → ℕ → Semaphore crate → Pc → World
  move w i s p = record { semaphore = s; pc = update w.pc i p }

  abbrev pub permits : World → ℕ
  permits w = w.semaphore.permits

  abbrev pub store : World → ℕ → Semaphore crate
  store w c = record w.semaphore { permits = c }

  pub data Step (n : ℕ) (w : World) : World → Type 0 where
    -- `try_acquire`: the load, which gives up at zero; the exchange, and its failure.
    refuse : (i : ℕ) → i < n → w.pc i ≡ idle → permits w ≡ 0 → Step n w (move w i w.semaphore idle)
    load :
        (i : ℕ)
        → i < n
        → w.pc i ≡ idle
        → permits w ≢ 0
        → Step n w (move w i w.semaphore (taking (permits w)))
    take :
        (i c : ℕ)
        → i < n
        → w.pc i ≡ taking c
        → permits w ≡ c
        → Step n w (move w i (store w (c - 1)) holding)
    retry : (i c : ℕ) → i < n → w.pc i ≡ taking c → Step n w (move w i w.semaphore idle)
    -- `release`: the load, which skips the exchange at the maximum; the exchange, its failure.
    skip :
        (i : ℕ)
        → i < n
        → w.pc i ≡ holding
        → permits w ≡ released (permits w) w.semaphore.max_permits
        → Step n w (move w i w.semaphore waking)
    reload :
        (i : ℕ)
        → i < n
        → w.pc i ≡ holding
        → permits w ≢ released (permits w) w.semaphore.max_permits
        → Step n w (move w i w.semaphore (giving (permits w)))
    give :
        (i c : ℕ)
        → i < n
        → w.pc i ≡ giving c
        → permits w ≡ c
        → Step n w (move w i (store w (released c w.semaphore.max_permits)) waking)
    again : (i c : ℕ) → i < n → w.pc i ≡ giving c → Step n w (move w i w.semaphore holding)
    wake :
        (i : ℕ) → i < n → w.pc i ≡ waking → Step n w (move w i (wake_next crate w.semaphore).1 idle)
    -- The slow path of a poll.
    enlist :
        (i : ℕ) (f : AcquireFuture)
        → i < n
        → w.pc i ≡ idle
        → Step n w (move w i (register crate i f w.semaphore).1 idle)

  pub data Reach (n : ℕ) (w : World) : World → Type 0 where
    here : Reach n w w
    later : {v u : World} → Reach n w v → Step n v u → Reach n w u

  -- Permits at the semaphore and permits out add up to the maximum, and a task that is about to
  -- take a permit has seen one.
  pub record IsConserved (n max : ℕ) (w : World) : Type 0 where
    pub balance : permits w + total n w.pc ≡ max
    pub maximum : w.semaphore.max_permits ≡ max
    pub seen : (i c : ℕ) → w.pc i ≡ taking c → 0 < c
    pub small : max + 1 < 2 ^ 64

  -- A move that keeps the balance of the moving task keeps the invariant.
  moved :
      {n max : ℕ} {w : World} (i : ℕ) (s : Semaphore crate) (p : Pc)
      → i < n
      → s.permits + weight p ≡ permits w + weight (w.pc i)
      → s.max_permits ≡ w.semaphore.max_permits
      → ((c : ℕ) → p ≡ taking c → 0 < c)
      → IsConserved n max w
      → IsConserved n max (move w i s p)
  moved {n} {w = w} i s p lt even same positive x = record {
    balance = omega (arith, total-update n w.pc i p lt, x.balance);
    maximum = same ∙ x.maximum;
    seen = λ j c h. ground (arith, x.seen j c, positive c);
    small = x.small;
  }

  step-IsConserved :
      {n max : ℕ} {w v : World} → Step n w v → IsConserved n max w → IsConserved n max v
  unfolding wake_next register
  step-IsConserved (refuse i lt at e) x = moved i _ _ lt (ground arith) refl (λ c h. absurd (cc)) x
  step-IsConserved (load i lt at e) x = moved i _ _ lt (ground arith) refl (λ c h. ground arith) x
  step-IsConserved (take i c lt at e) x =
      moved i _ _ lt (ground (arith, x.seen i c at)) refl (λ d h. absurd (cc)) x
  step-IsConserved (retry i c lt at) x = moved i _ _ lt (ground arith) refl (λ d h. absurd (cc)) x
  step-IsConserved {n} {w = w} (skip i lt at e) x =
      moved i _ _ lt (absurd (ground (arith, total-weight-le n w.pc i lt))) refl
        (λ c h. absurd (cc)) x
  step-IsConserved (reload i lt at e) x = moved i _ _ lt (ground arith) refl (λ c h. absurd (cc)) x
  step-IsConserved {n} {w = w} (give i c lt at e) x =
      moved i _ _ lt (ground (arith, total-weight-le n w.pc i lt)) refl (λ d h. absurd (cc)) x
  step-IsConserved (again i c lt at) x = moved i _ _ lt (ground arith) refl (λ d h. absurd (cc)) x
  step-IsConserved {w = w} (wake i lt at) x =
      moved i _ _ lt (ground (arith, pop-PopsOldest crate w.semaphore.waiters))
        (ground (arith, pop-PopsOldest crate w.semaphore.waiters)) (λ c h. absurd (cc)) x
  step-IsConserved (enlist i f lt at) x =
      moved i _ _ lt (ground arith) (ground arith) (λ c h. absurd (cc)) x

  -- From a fresh semaphore of `max` permits, under every interleaving of `n` tasks that acquire
  -- permits and release those that they hold, permits at the semaphore and permits out always add
  -- up to `max`: none is lost or made up, and never more than `max` tasks hold one.
  pub Reach-IsConserved :
      (n max : ℕ) {w : World}
      → max + 1 < 2 ^ 64
      → Reach n (record { semaphore = new crate max; pc = λ i. idle }) w
      → IsConserved n max w
  unfolding new
  Reach-IsConserved n max small here = record {
    balance = omega (arith, total-idle n);
    maximum = refl;
    seen = λ i c h. absurd (cc);
    small = small;
  }
  Reach-IsConserved n max small (later r st) = step-IsConserved st (Reach-IsConserved n max small r)
