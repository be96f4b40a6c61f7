-- ===== src/Net/E1000/Transfer.antt =====
-- The address of the controller through its registers, and a packet through a buffer.
use sovelma_os.Prelude.{
  ℕ, ◌+◌, ◌/◌, ◌%◌, ◌^◌, ◌≤◌, ◌<◌, ◌≡◌, ◌≢◌, refl, sym, ap, ◌∙◌, true, ◌==◌, List, [], ◌∷◌, ◌++◌,
  some, length, get_elem?, take, drop, bit_and, arith, get_elem?-set_self, get_elem?-set_ne,
  get_elem?-lt, subst, ltb, Bool-cases, Option-cases, inl, inr,
}
use sovelma_os.Prelude.Bits.{bit_or_shifted, bit_or_comm, bit_and_shifted, bit_and_mask}
use sovelma_os.Net.{MacAddress}
use sovelma_os.Net.E1000.{
  E1000, TxDesc, packet_buffer_size, tx_dd, read_mac_address, mac_low, mac_high, transmit_raw,
  copy_into, transmitted, from_le_bytes,
}

-- An address of six bytes, written to the two registers and read back, is the same, and the flag
-- that it is valid is set.
pub read_mac_address-write_mac_address :
    (dev : E1000) (mac : MacAddress)
    → mac.mac0 < 256
    → mac.mac1 < 256
    → mac.mac2 < 256
    → mac.mac3 < 256
    → mac.mac4 < 256
    → mac.mac5 < 256
    → ((read_mac_address (mac_low mac) (mac_high mac) dev).mac_address ≡ mac)
      × (mac_high mac / 2 ^ 31 ≡ 1)
unfolding read_mac_address mac_low mac_high
read_mac_address-write_mac_address dev mac h0 h1 h2 h3 h4 h5 =
    let low = from_le_bytes mac.mac4 mac.mac5 0 0 in
    let high : mac_high mac ≡ 2 ^ 31 + low =
      bit_or_comm low (2 ^ 31) ∙ bit_or_shifted 31 1 low (omega arith) in
    let flag : bit_and (mac_high mac) (2 ^ 31) ≡ 2 ^ 31 =
      omega (
        arith,
        high,
        bit_and_shifted 31 (mac_high mac) 1,
        bit_and_mask 1 (mac_high mac / 2 ^ 31),
      ) in
    (rw flag (ground (arith, high)), omega (arith, high))

take-length-append : (xs ys : List ℕ) → take (length xs) (xs ++ ys) ≡ xs
take-length-append [] ys = refl
take-length-append (x ∷ xs) ys = ap (◌∷◌ x) (take-length-append xs ys)

-- What a packet leaves that was taken at a position, and what it leaves alone at another.
abbrev pub Taken : (packet : List ℕ) (dev dev' : E1000) (i : ℕ) → Type 0
Taken packet dev dev' i =
    (buffer : List ℕ) × (desc : TxDesc) × (get_elem? dev'.tx_buffers dev.tx_cur ≡ some buffer)
    × (take (length packet) buffer ≡ packet)
    × (get_elem? dev'.tx_descs dev.tx_cur ≡ some desc)
    × (desc.length ≡ length packet)
    × (desc.status ≡ 0)
    × (get_elem? dev'.tx_buffers i ≡ get_elem? dev.tx_buffers i)
    × (get_elem? dev'.tx_descs i ≡ get_elem? dev.tx_descs i)

transmitted-Taken :
    (packet buffer : List ℕ) (desc : TxDesc) (dev : E1000) (i : ℕ)
    → get_elem? dev.tx_buffers dev.tx_cur ≡ some buffer
    → get_elem? dev.tx_descs dev.tx_cur ≡ some desc
    → length packet ≤ packet_buffer_size
    → i ≢ dev.tx_cur
    → Taken packet dev (transmitted packet buffer desc dev) i
unfolding copy_into
transmitted-Taken packet buffer desc dev i p q fits n = (
  packet ++ drop (length packet) buffer,
  record desc { length = length packet % 2 ^ 16; cmd = 11; status = 0 },
  get_elem?-set_self dev.tx_buffers dev.tx_cur _ (get_elem?-lt dev.tx_buffers _ _ p),
  take-length-append packet (drop (length packet) buffer),
  get_elem?-set_self dev.tx_descs dev.tx_cur _ (get_elem?-lt dev.tx_descs _ _ q),
  omega arith,
  refl,
  get_elem?-set_ne dev.tx_buffers dev.tx_cur i _ (λ z. n (sym z)),
  get_elem?-set_ne dev.tx_descs dev.tx_cur i _ (λ z. n (sym z)),
)

-- A packet that is taken stands at the start of the buffer at the position, its descriptor says how
-- long it is and belongs to the device, and every other buffer and descriptor is as it was.
pub transmit_raw-Taken :
    (packet : List ℕ) (dev dev' : E1000) (i : ℕ)
    → transmit_raw packet dev ≡ some (true, dev')
    → i ≢ dev.tx_cur
    → Taken packet dev dev' i
unfolding transmit_raw
transmit_raw-Taken packet dev dev' i h n =
    elim (Bool-cases (ltb packet_buffer_size (length packet))) [
      | inl long ↦ absurd (ground (arith, long))
      | inr short ↦ elim (Option-cases (get_elem? dev.tx_descs dev.tx_cur)) [
        | inl p ↦ absurd (ground (arith, short, p))
        | inr (desc, p) ↦ elim (Bool-cases (bit_and desc.status tx_dd == 0)) [
          | inl busy ↦ absurd (ground (arith, short, p, busy))
          | inr done ↦ elim (Option-cases (get_elem? dev.tx_buffers dev.tx_cur)) [
            | inl q ↦ absurd (ground (arith, short, p, done, q))
            | inr (buffer, q) ↦
                subst (λ d. Taken packet dev d i) {x = transmitted packet buffer desc dev}
                  {y = dev'} (ground (arith, short, p, done, q))
                  (transmitted-Taken packet buffer desc dev i q p (ground arith) n)
          ]
        ]
      ]
    ]
