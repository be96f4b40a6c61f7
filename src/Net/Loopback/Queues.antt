-- ===== src/Net/Loopback/Queues.antt =====
-- What goes through the loopback device.
use sovelma_os.Prelude.{
  ℕ, ◌-◌, ◌≤◌, ◌≡◌, refl, sym, ap, ◌∙◌, ltb, List, [], ◌∷◌, ◌++◌, none, some, length, take,
  append_assoc, arith, Bool-cases, inl, inr, length-append, length-take, append-nil, zero, suc,
}
use sovelma_os.Net.Loopback.{QemuE1000, queue_capacity, push_bounded, inject_rx, receive}

take-nil {ℓ} : {A : Type ℓ} (n : ℕ) (q : List A) → q ++ take n [] ≡ q
take-nil zero q = append-nil q
take-nil (suc n) q = append-nil q

-- Injected packets, and what is received until the queue is empty: at most `count` packets.
unfoldable pub inject_all : List (List ℕ) → QemuE1000 → QemuE1000
inject_all [] dev = dev
inject_all (p ∷ ps) dev = inject_all ps (inject_rx p dev)

unfoldable pub receive_all : (count : ℕ) → QemuE1000 → List (List ℕ)
receive_all zero dev = []
receive_all (suc count) dev = elim (receive dev).0 [
  | none ↦ []
  | some p ↦ p ∷ receive_all count (receive dev).1
]

inject_all-queue :
    (ps : List (List ℕ)) (dev : QemuE1000)
    → length dev.rx_queue ≤ queue_capacity
    → (inject_all ps dev).rx_queue ≡ dev.rx_queue ++ take (queue_capacity - length dev.rx_queue) ps
unfolding inject_all inject_rx push_bounded
inject_all-queue [] dev h = sym (take-nil (queue_capacity - length dev.rx_queue) dev.rx_queue)
inject_all-queue (p ∷ ps) dev h = elim (Bool-cases (ltb (length dev.rx_queue) queue_capacity)) [
  | inr full ↦
      let none_left : queue_capacity - length dev.rx_queue ≡ 0 = ground arith in
      rw (full, inject_all) (inject_all-queue ps dev h ∙ rw none_left refl)
  | inl room ↦
      let n = queue_capacity - length (dev.rx_queue ++ p ∷ []) in
      let one_more : queue_capacity - length dev.rx_queue ≡ suc n =
        ground (arith, length-append dev.rx_queue (p ∷ [])) in
      rw (room, inject_all)
        (inject_all-queue ps (record dev { rx_queue = dev.rx_queue ++ p ∷ [] })
            (ground (arith, length-append dev.rx_queue (p ∷ [])))
          ∙ (append_assoc dev.rx_queue (p ∷ []) (take n ps) ∙ rw one_more refl))
]

receive_all-queue :
    (count : ℕ) (dev : QemuE1000)
    → length dev.rx_queue ≤ count
    → receive_all count dev ≡ dev.rx_queue
unfolding receive_all receive
receive_all-queue count dev h = go count dev.rx_queue h
  where
    go :
        (n : ℕ)
        → (q : List (List ℕ)) → length q ≤ n
        → receive_all n (record dev { rx_queue = q }) ≡ q
    go zero [] h = refl
    go zero (p ∷ q) h = absurd (ground arith)
    go (suc n) [] h = refl
    go (suc n) (p ∷ q) h = ap (◌∷◌ p) (go n q (ground arith))

-- Of the packets injected into a device whose receive queue is empty, the first sixteen are
-- received, in order, and the others are lost.
pub receive_all-inject_all :
    (ps : List (List ℕ)) (dev : QemuE1000)
    → dev.rx_queue ≡ []
    → receive_all queue_capacity (inject_all ps dev) ≡ take queue_capacity ps
receive_all-inject_all ps dev empty =
    let queue : (inject_all ps dev).rx_queue ≡ take queue_capacity ps =
      inject_all-queue ps dev (ground arith)
      ∙ ap (λ q. q ++ take (queue_capacity - length q) ps) empty in
    receive_all-queue queue_capacity (inject_all ps dev)
      (ground (arith, queue, length-take queue_capacity ps))
    ∙ queue
