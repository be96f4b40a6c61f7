-- ===== src/Net/E1000/Rings.antt =====
-- The rings at work: what the driver and the device do to them in turns.
use sovelma_os.Prelude.{
  ℕ, zero, suc, ◌+◌, ◌≤◌, ◌<◌, ◌≡◌, ◌≢◌, refl, subst, ap, ◌∙◌, Bool, true, false, ltb, ◌==◌, List,
  [], ◌∷◌, Option, none, some, length, get_elem?, set, take, drop, replicate, bit_and, All, arith,
  Bool-cases, inl, inr, length-append, length-drop, length-set, length-replicate, get_elem?-total,
}
use sovelma_os.Net.E1000.{
  TxDesc, RxDesc, E1000, Addresses, packet_buffer_size, tx_desc_count, rx_desc_count, tx_dd, rx_dd,
  write_regs, reset, read_mac_address, write_mac_address, init_tx_descs, init_rx_descs, init_tx,
  init_rx, new, copy_into, transmit_raw, receive_raw, transmitted, received,
}

abbrev pub IsFull : List ℕ → Type 0
IsFull buffer = length buffer ≡ packet_buffer_size

abbrev pub Sized : List (List ℕ) → Type 0
Sized = All IsFull

-- 64 descriptors and 64 buffers of 2048 bytes on each side, and the positions among them.
pub record IsReady (dev : E1000) : Type 0 where
  pub tx_descs_count : length dev.tx_descs ≡ tx_desc_count
  pub tx_buffers_count : length dev.tx_buffers ≡ tx_desc_count
  pub tx_sized : Sized dev.tx_buffers
  pub tx_in : dev.tx_cur < tx_desc_count
  pub rx_descs_count : length dev.rx_descs ≡ rx_desc_count
  pub rx_buffers_count : length dev.rx_buffers ≡ rx_desc_count
  pub rx_sized : Sized dev.rx_buffers
  pub rx_in : dev.rx_cur < rx_desc_count

-- The lengths that the device reports fit the buffers.
abbrev pub Fits : List RxDesc → Type 0
Fits = All (λ (desc : RxDesc). desc.length ≤ packet_buffer_size)

All-set {ℓ κ} :
    {A : Type ℓ} (P : A → Type κ) (xs : List A) (i : ℕ) (v : A)
    → P v
    → All P xs
    → All P (set xs i v)
All-set P [] i v p a = a
All-set P (x ∷ xs) zero v p (q, a) = (p, a)
All-set P (x ∷ xs) (suc i) v p (q, a) = (q, All-set P xs i v p a)

All-get_elem? {ℓ κ} :
    {A : Type ℓ} (P : A → Type κ) (xs : List A) (i : ℕ) (v : A)
    → get_elem? xs i ≡ some v
    → All P xs
    → P v
All-get_elem? P [] i v h a = absurd (ground arith)
All-get_elem? P (x ∷ xs) zero v h (q, a) = subst P (ground arith) q
All-get_elem? P (x ∷ xs) (suc i) v h (q, a) = All-get_elem? P xs i v h a

All-replicate {ℓ κ} : {A : Type ℓ} (P : A → Type κ) (n : ℕ) (v : A) → P v → All P (replicate n v)
All-replicate P zero v p = tt
All-replicate P (suc n) v p = (p, All-replicate P n v p)

length-init_tx_descs : (o a n : ℕ) → length (init_tx_descs o a n) ≡ n
unfolding init_tx_descs
length-init_tx_descs o a zero = refl
length-init_tx_descs o a (suc n) = ap suc (length-init_tx_descs o (a + packet_buffer_size) n)

length-init_rx_descs : (o a n : ℕ) → length (init_rx_descs o a n) ≡ n
unfolding init_rx_descs
length-init_rx_descs o a zero = refl
length-init_rx_descs o a (suc n) = ap suc (length-init_rx_descs o (a + packet_buffer_size) n)

Fits-init_rx_descs : (o a n : ℕ) → Fits (init_rx_descs o a n)
unfolding init_rx_descs
Fits-init_rx_descs o a zero = tt
Fits-init_rx_descs o a (suc n) = (omega arith, Fits-init_rx_descs o (a + packet_buffer_size) n)

new-IsReady : (at : Addresses) (ral rah ctrl : ℕ) → IsReady (new at ral rah ctrl)
unfolding new reset read_mac_address write_mac_address init_tx init_rx write_regs
new-IsReady at ral rah ctrl = record {
  tx_descs_count = length-init_tx_descs at.phys_mem_offset at.tx_buffers_at tx_desc_count;
  tx_buffers_count = length-replicate tx_desc_count (replicate {A = ℕ} packet_buffer_size 0);
  tx_sized =
      All-replicate IsFull tx_desc_count (replicate {A = ℕ} packet_buffer_size 0)
        (length-replicate {A = ℕ} packet_buffer_size 0);
  tx_in = omega arith;
  rx_descs_count = length-init_rx_descs at.phys_mem_offset at.rx_buffers_at rx_desc_count;
  rx_buffers_count = length-replicate rx_desc_count (replicate {A = ℕ} packet_buffer_size 0);
  rx_sized =
      All-replicate IsFull rx_desc_count (replicate {A = ℕ} packet_buffer_size 0)
        (length-replicate {A = ℕ} packet_buffer_size 0);
  rx_in = omega arith;
}

new-Fits : (at : Addresses) (ral rah ctrl : ℕ) → Fits (new at ral rah ctrl).rx_descs
unfolding new reset read_mac_address write_mac_address init_tx init_rx write_regs
new-Fits at ral rah ctrl = Fits-init_rx_descs at.phys_mem_offset at.rx_buffers_at rx_desc_count

length-copy_into :
    (packet buffer : List ℕ)
    → length packet ≤ length buffer
    → length (copy_into packet buffer) ≡ length buffer
unfolding copy_into
length-copy_into packet buffer h =
    omega (
      arith,
      length-append packet (drop (length packet) buffer),
      length-drop (length packet) buffer,
    )

-- What a call that does not panic leaves.
abbrev Safe {ℓ} : {A : Type ℓ} → E1000 → Option (A × E1000) → Type ℓ
Safe dev r =
    (a : _) × (dev' : E1000) × (r ≡ some (a, dev'))
    × IsReady dev'
    × (Fits dev.rx_descs → Fits dev'.rx_descs)

transmit_raw-Safe :
    (packet : List ℕ) (dev : E1000) → IsReady dev → Safe dev (transmit_raw packet dev)
unfolding transmit_raw
transmit_raw-Safe packet dev h = elim (Bool-cases (ltb packet_buffer_size (length packet))) [
  | inl long ↦ (false, dev, rw (long, transmit_raw) refl, h, λ f. f)
  | inr short ↦
      let (desc, p) =
        get_elem?-total dev.tx_descs dev.tx_cur (omega (arith, h.tx_descs_count, h.tx_in)) in
      elim (Bool-cases (bit_and desc.status tx_dd == 0)) [
        | inl busy ↦ (false, dev, rw (short, transmit_raw) (rw p (rw busy refl)), h, λ f. f)
        | inr done ↦
            let (buffer, q) =
              get_elem?-total dev.tx_buffers dev.tx_cur
                (omega (arith, h.tx_buffers_count, h.tx_in)) in
            let sized = All-get_elem? _ dev.tx_buffers dev.tx_cur buffer q h.tx_sized in
            (
              true,
              transmitted packet buffer desc dev,
              rw (short, transmit_raw) (rw p (rw done (rw q refl))),
              record {
                tx_descs_count = length-set dev.tx_descs dev.tx_cur _ ∙ h.tx_descs_count;
                tx_buffers_count = length-set dev.tx_buffers dev.tx_cur _ ∙ h.tx_buffers_count;
                tx_sized =
                    All-set _ dev.tx_buffers dev.tx_cur _
                      (length-copy_into packet buffer (ground arith) ∙ sized) h.tx_sized;
                tx_in = omega arith;
                rx_descs_count = h.rx_descs_count;
                rx_buffers_count = h.rx_buffers_count;
                rx_sized = h.rx_sized;
                rx_in = h.rx_in;
              },
              λ f. f,
            )
      ]
]

receive_raw-Safe : (dev : E1000) → IsReady dev → Fits dev.rx_descs → Safe dev (receive_raw dev)
unfolding receive_raw
receive_raw-Safe dev h fits =
    let (desc, p) =
      get_elem?-total dev.rx_descs dev.rx_cur (omega (arith, h.rx_descs_count, h.rx_in)) in
    elim (Bool-cases (bit_and desc.status rx_dd == 0)) [
      | inl empty ↦ (none, dev, rw (p, receive_raw) (rw empty refl), h, λ f. f)
      | inr full ↦
          let (buffer, q) =
            get_elem?-total dev.rx_buffers dev.rx_cur
              (omega (arith, h.rx_buffers_count, h.rx_in)) in
          let sized = All-get_elem? _ dev.rx_buffers dev.rx_cur buffer q h.rx_sized in
          let fit = All-get_elem? _ dev.rx_descs dev.rx_cur desc p fits in
          let inside : ltb (length buffer) desc.length ≡ false = ground arith in
          (
            some (take desc.length buffer),
            received desc dev,
            rw (p, receive_raw) (rw full (rw q (rw inside refl))),
            record {
              tx_descs_count = h.tx_descs_count;
              tx_buffers_count = h.tx_buffers_count;
              tx_sized = h.tx_sized;
              tx_in = h.tx_in;
              rx_descs_count = length-set dev.rx_descs dev.rx_cur _ ∙ h.rx_descs_count;
              rx_buffers_count = h.rx_buffers_count;
              rx_sized = h.rx_sized;
              rx_in = omega arith;
            },
            λ f. All-set _ dev.rx_descs dev.rx_cur _ fit f,
          )
    ]

-- The driver and the device in turns. The device completes descriptors and fills buffers: it keeps
-- the shapes, and `honest` that the lengths it reports fit the buffers.
pub data Reach : E1000 → Type 0 where
  begins : (at : Addresses) (ral rah ctrl : ℕ) → Reach (new at ral rah ctrl)
  transmits :
      {dev dev' : E1000} {taken : Bool} (packet : List ℕ)
      → Reach dev
      → transmit_raw packet dev ≡ some (taken, dev')
      → Reach dev'
  receives :
      {dev dev' : E1000} {packet : Option (List ℕ)}
      → Reach dev
      → receive_raw dev ≡ some (packet, dev')
      → Reach dev'
  completes :
      {dev : E1000} (tx_descs : List TxDesc) (rx_descs : List RxDesc) (rx_buffers : List (List ℕ))
      → Reach dev
      → length tx_descs ≡ length dev.tx_descs
      → length rx_descs ≡ length dev.rx_descs
      → length rx_buffers ≡ length dev.rx_buffers
      → Sized rx_buffers
      → Fits rx_descs
      → Reach (record dev { tx_descs = tx_descs; rx_descs = rx_descs; rx_buffers = rx_buffers })

abbrev Fine : E1000 → Type 0
Fine dev = IsReady dev × Fits dev.rx_descs

Reach-Fine : {dev : E1000} → Reach dev → Fine dev
Reach-Fine (begins at ral rah ctrl) = (new-IsReady at ral rah ctrl, new-Fits at ral rah ctrl)
Reach-Fine (transmits {dev} {dev'} {taken} packet h e) =
    let (ready, fits) = Reach-Fine h in
    let (a, dev'', e', ready', keep) = transmit_raw-Safe packet dev ready in
    subst Fine {x = dev''} (ground (arith, e, e')) (ready', keep fits)
Reach-Fine (receives {dev} {dev'} {packet} h e) =
    let (ready, fits) = Reach-Fine h in
    let (a, dev'', e', ready', keep) = receive_raw-Safe dev ready fits in
    subst Fine {x = dev''} (ground (arith, e, e')) (ready', keep fits)
Reach-Fine (completes {dev} tx_descs rx_descs rx_buffers h p q r sized fits) =
    let (ready, _) = Reach-Fine h in
    (
      record {
        tx_descs_count = p ∙ ready.tx_descs_count;
        tx_buffers_count = ready.tx_buffers_count;
        tx_sized = ready.tx_sized;
        tx_in = ready.tx_in;
        rx_descs_count = q ∙ ready.rx_descs_count;
        rx_buffers_count = r ∙ ready.rx_buffers_count;
        rx_sized = sized;
        rx_in = ready.rx_in;
      },
      fits,
    )

-- While the device reports lengths that fit its buffers, however transmissions, receptions and the
-- device's own work follow each other, the positions stay in the rings, the buffers keep their
-- size, and neither a transmission of any packet nor a reception panics.
pub Reach-IsReady :
    {dev : E1000}
    → Reach dev
    → IsReady dev × ((packet : List ℕ) → transmit_raw packet dev ≢ none) × (receive_raw dev ≢ none)
Reach-IsReady {dev} h =
    let (ready, fits) = Reach-Fine h in
    (
      ready,
      (λ packet.
          let (a, dev', e, _, _) = transmit_raw-Safe packet dev ready in
          λ z. absurd (ground arith)),
      let (a, dev', e, _, _) = receive_raw-Safe dev ready fits in λ z. absurd (ground arith),
    )
