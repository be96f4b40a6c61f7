-- ===== src/Keyboard/Wakeups.antt =====
-- kernel/src/task/keyboard.rs: no scancode is left in the queue with the reader asleep.
use sovelma_os.Prelude.{
  ℕ, ◌≡◌, ◌≢◌, ◌<◌, refl, sym, ap, subst, ◌∙◌, List, [], ◌∷◌, none, some, length, arith, Bool-cases,
  ltb, length-append, inl, inr,
}
use sovelma_os.ArrayQueue.{ArrayQueue, pop-PopsOldest}
use sovelma_os.Sync.Future.{Waker}
use sovelma_os.Keyboard.{Keyboard, wake, add_scancode, pending, interrupts, poll_again, poll_next}

module _ (crate : ArrayQueue ℕ) where
  open crate use {items, capacity}

  -- A queue that can hold a scancode, and holds one.
  abbrev Holds : Keyboard crate → Type 0
  Holds k =
      (q : crate.Queue) × (k.scancode_queue ≡ some q) × (0 < length (items q)) × (0 < capacity q)

  wake-scancode_queue : (k : Keyboard crate) → (wake crate k).scancode_queue ≡ k.scancode_queue
  unfolding wake
  wake-scancode_queue k = ground arith

  add_scancode-Holds :
      (c : ℕ) (k : Keyboard crate) (q : crate.Queue)
      → k.scancode_queue ≡ some q
      → 0 < capacity q
      → Holds (add_scancode crate c k)
  unfolding add_scancode
  add_scancode-Holds c k q e h = elim (Bool-cases (ltb (length (items q)) (capacity q))) [
    | inr full ↦
        let refused = crate.push_full q c (ground arith) in
        (q, ground (arith, e, refused), ground arith, h)
    | inl room ↦
        let (q', pushed, longer, same) = crate.push_room q c (ground arith) in
        (
          q',
          ground (arith, e, pushed, wake-scancode_queue (record k { scancode_queue = some q' })),
          ground (arith, longer, length-append (items q) (c ∷ [])),
          ground (arith, same),
        )
  ]

  interrupts-Holds : (cs : List ℕ) (k : Keyboard crate) → Holds k → Holds (interrupts crate cs k)
  unfolding interrupts
  interrupts-Holds [] k h = h
  interrupts-Holds (c ∷ cs) k (q, e, l, h) =
      interrupts-Holds cs (add_scancode crate c k) (add_scancode-Holds c k q e h)

  interrupted-Holds :
      (c : ℕ) (cs : List ℕ) (k : Keyboard crate) (q : crate.Queue)
      → k.scancode_queue ≡ some q
      → 0 < capacity q
      → Holds (interrupts crate (c ∷ cs) k)
  unfolding interrupts
  interrupted-Holds c cs k q e h =
      interrupts-Holds cs (add_scancode crate c k) (add_scancode-Holds c k q e h)

  poll_again-Holds : (k : Keyboard crate) → Holds k → (poll_again crate k).0 ≢ pending
  unfolding poll_again
  poll_again-Holds k (q, e, l, h) = elim (pop-PopsOldest crate q) [
    | inl (p, none_left) ↦ absurd (ground arith)
    | inr (a, q', p, front, c) ↦ λ z. absurd (ground (arith, e, p))
  ]

  poll_again-empty :
      (k : Keyboard crate) (q : crate.Queue)
      → k.scancode_queue ≡ some q
      → crate.pop q ≡ none
      → poll_again crate k ≡ (pending, k)
  unfolding poll_again
  poll_again-empty k q e p = ground (arith, e, p)

  poll_next-empty :
      (before after : List ℕ) (w : Waker) (k : Keyboard crate) (q : crate.Queue)
      → k.scancode_queue ≡ some q
      → crate.pop q ≡ none
      → poll_next crate before after w k
        ≡ poll_again crate
            (interrupts crate after (record (interrupts crate before k) { waker = some w }))
  unfolding poll_next
  poll_next-empty before after w k q e p = ground (arith, e, p)

  -- An interrupt during the poll is seen by its second `pop`.
  poll_next-interrupted :
      (before after : List ℕ) (w : Waker) (k : Keyboard crate) (q : crate.Queue)
      → k.scancode_queue ≡ some q
      → 0 < capacity q
      → crate.pop q ≡ none
      → (poll_next crate before after w k).0 ≡ pending
      → (before ≡ []) × (after ≡ [])
  unfolding interrupts
  poll_next-interrupted [] [] w k q e h p z = (refl, refl)
  poll_next-interrupted [] (c ∷ after) w k q e h p z =
      let holds = interrupted-Holds c after (record k { waker = some w }) q e h in
      absurd (
        poll_again-Holds _ holds
          (ap (λ r. r.0) (sym (poll_next-empty [] (c ∷ after) w k q e p)) ∙ z))
  poll_next-interrupted (c ∷ before) after w k q e h p z =
      let (q', e', l, h') = interrupted-Holds c before k q e h in
      let holds =
        interrupts-Holds after (record (interrupts crate (c ∷ before) k) { waker = some w })
          (q', e', l, h') in
      absurd (
        poll_again-Holds _ holds
          (ap (λ r. r.0) (sym (poll_next-empty (c ∷ before) after w k q e p)) ∙ z))

  -- What a stream that waits leaves behind.
  abbrev pub Asleep : Waker → ℕ → Keyboard crate → Type 0
  Asleep w c k =
      (q : crate.Queue) × (k.scancode_queue ≡ some q)
      × (items q ≡ [])
      × (k.waker ≡ some w)
      × ((add_scancode crate c k).woken ≡ w ∷ k.woken)

  asleep :
      (w : Waker) (c : ℕ) (k : Keyboard crate) (q : crate.Queue)
      → k.scancode_queue ≡ some q
      → items q ≡ []
      → 0 < capacity q
      → Asleep w c (record k { waker = some w })
  unfolding add_scancode wake
  asleep w c k q e none_left h =
      let (q', pushed, _, _) = crate.push_room q c (ground arith) in
      (q, e, none_left, refl, ground (arith, e, pushed))

  -- No wake-up is lost: whatever scancodes arrive while the stream is polled, if it answers that it
  -- waits, then the queue is empty, so that none of them is left behind, its waker is registered,
  -- and the next scancode wakes it.
  pub poll_next-Asleep :
      (before after : List ℕ) (w : Waker) (k : Keyboard crate) (q : crate.Queue) (c : ℕ)
      → k.scancode_queue ≡ some q
      → 0 < capacity q
      → (poll_next crate before after w k).0 ≡ pending
      → Asleep w c (poll_next crate before after w k).1
  unfolding poll_next interrupts
  poll_next-Asleep before after w k q c e h z = elim (pop-PopsOldest crate q) [
    | inr (a, q', p, front, s) ↦ absurd (ground (arith, e, p))
    | inl (p, none_left) ↦
        let (no_before, no_after) = poll_next-interrupted before after w k q e h p z in
        let k' : Keyboard crate = record k { waker = some w } in
        let same : poll_next crate [] [] w k ≡ (pending, k') =
          poll_next-empty [] [] w k q e p ∙ poll_again-empty k' q e p in
        subst (λ b. Asleep w c (poll_next crate b after w k).1) (sym no_before)
          (subst (λ a. Asleep w c (poll_next crate [] a w k).1) (sym no_after)
            (subst (λ r. Asleep w c r.1) (sym same) (asleep w c k q e none_left h)))
  ]
