-- ===== src/Pci/Registers.antt =====
-- The address of a configuration register, and 16-bit access to its halves.
use sovelma_os.Prelude.{
  ℕ, ◌+◌, ◌-◌, ◌*◌, ◌/◌, ◌%◌, ◌^◌, ◌<◌, ◌≡◌, ◌≢◌, refl, sym, ◌∙◌, ap, ap₂, subst, bit_and, bit_or,
  arith, ◌⊎◌, inl, inr,
}
use sovelma_os.Prelude.Bits.{
  bit_and_mask, bit_and_shifted, bit_or_shifted, bit_or_comm, bit_and_even,
}
use sovelma_os.Pci.{
  PciSpace, PciAddress, config_address, read_config_u32, write_config_u32, read_config_u16,
  write_config_u16,
}

-- `offset & 0xFC` of a byte clears the two lowest digits.
bit_and_aligned : (offset : ℕ) → offset < 256 → bit_and offset 0xFC ≡ offset / 4 * 4
bit_and_aligned offset h = omega (arith, bit_and_shifted 2 offset 63, bit_and_mask 6 (offset / 4))

-- A shifted field beside a lower one.
beside : (k q r x : ℕ) → x ≡ q * 2 ^ k → r < 2 ^ k → bit_or x r ≡ q * 2 ^ k + r
beside k q r x e h = ap (λ (t : ℕ). bit_or t r) e ∙ bit_or_shifted k q r h

config_address-sum :
    (addr : PciAddress) (offset : ℕ)
    → addr.bus < 256
    → addr.device < 32
    → addr.function < 8
    → offset < 256
    → config_address addr offset
      ≡ (2 ^ 23 + addr.bus * 2 ^ 8 + addr.device * 2 ^ 3 + addr.function) * 2 ^ 8 + offset / 4 * 4
unfolding config_address
config_address-sum addr offset hb hd hf ho =
    let b = beside 31 1 (addr.bus * 2 ^ 16) 0x8000_0000 refl (omega arith) in
    let d =
      beside 16 (2 ^ 15 + addr.bus) (addr.device * 2 ^ 11) _ (b ∙ omega arith) (omega arith) in
    let f =
      beside 11 (2 ^ 20 + addr.bus * 2 ^ 5 + addr.device) (addr.function * 2 ^ 8) _
        (d ∙ omega arith) (omega arith) in
    ap (bit_or _) (bit_and_aligned offset ho)
    ∙ beside 8 (2 ^ 23 + addr.bus * 2 ^ 8 + addr.device * 2 ^ 3 + addr.function) (offset / 4 * 4) _
        (f ∙ omega arith) (omega arith)

-- For a register of a device that can exist, the fields of the address stand beside each other
-- below the enable bit, so that no two registers share an address.
pub config_address_lem :
    (addr : PciAddress) (offset : ℕ)
    → addr.bus < 256
    → addr.device < 32
    → addr.function < 8
    → offset < 256
    → let c = config_address addr offset in
      (c / 2 ^ 31 ≡ 1)
      × (c / 2 ^ 16 % 2 ^ 15 ≡ addr.bus)
      × (c / 2 ^ 11 % 2 ^ 5 ≡ addr.device)
      × (c / 2 ^ 8 % 2 ^ 3 ≡ addr.function)
      × (c % 2 ^ 8 ≡ offset / 4 * 4)
config_address_lem addr offset hb hd hf ho =
    let sum = config_address-sum addr offset hb hd hf ho in
    (
      omega (arith, sum),
      omega (arith, sum),
      omega (arith, sum),
      omega (arith, sum),
      omega (arith, sum),
    )

abbrev half : (dword shift : ℕ) → ℕ
half dword shift = bit_and (dword / 2 ^ shift) 0xFFFF

abbrev spliced : (dword value shift : ℕ) → ℕ
spliced dword value shift =
    bit_or (bit_and dword (2 ^ 32 - 1 - 0xFFFF * 2 ^ shift)) (value * 2 ^ shift)

half_mod : (dword shift : ℕ) → half dword shift ≡ dword / 2 ^ shift % 2 ^ 16
half_mod dword shift = bit_and_mask 16 (dword / 2 ^ shift)

spliced_low : (d v : ℕ) → d < 2 ^ 32 → v < 2 ^ 16 → spliced d v 0 ≡ d / 2 ^ 16 * 2 ^ 16 + v
spliced_low d v hd hv =
    let high : bit_and d (0xFFFF * 2 ^ 16) ≡ d / 2 ^ 16 * 2 ^ 16 =
      omega (arith, bit_and_shifted 16 d 0xFFFF, bit_and_mask 16 (d / 2 ^ 16)) in
    ap₂ bit_or high (omega arith) ∙ bit_or_shifted 16 (d / 2 ^ 16) v hv

spliced_high : (d v : ℕ) → d < 2 ^ 32 → v < 2 ^ 16 → spliced d v 16 ≡ v * 2 ^ 16 + d % 2 ^ 16
spliced_high d v hd hv =
    bit_or_comm (bit_and d 0xFFFF) (v * 2 ^ 16)
    ∙ (ap (bit_or (v * 2 ^ 16)) (bit_and_mask 16 d)
        ∙ bit_or_shifted 16 v (d % 2 ^ 16) (omega arith))

-- The two halves, by their shifts.
abbrev Opposite : (shift shift' : ℕ) → Type 0
Opposite shift shift' = ((shift ≡ 0) × (shift' ≡ 16)) ⊎ ((shift ≡ 16) × (shift' ≡ 0))

spliced_halves :
    (d v shift shift' : ℕ)
    → d < 2 ^ 32
    → v < 2 ^ 16
    → Opposite shift shift'
    → (half (spliced d v shift) shift ≡ v) × (half (spliced d v shift) shift' ≡ half d shift')
spliced_halves d v shift shift' hd hv (inl (p, q)) =
    subst (λ x. (half (spliced d v x) x ≡ v) × (half (spliced d v x) shift' ≡ half d shift'))
      (sym p)
      (subst (λ x. (half (spliced d v 0) 0 ≡ v) × (half (spliced d v 0) x ≡ half d x)) (sym q)
        (
          half_mod (spliced d v 0) 0 ∙ omega (arith, spliced_low d v hd hv),
          half_mod (spliced d v 0) 16 ∙ omega (arith, spliced_low d v hd hv, half_mod d 16),
        ))
spliced_halves d v shift shift' hd hv (inr (p, q)) =
    subst (λ x. (half (spliced d v x) x ≡ v) × (half (spliced d v x) shift' ≡ half d shift'))
      (sym p)
      (subst (λ x. (half (spliced d v 16) 16 ≡ v) × (half (spliced d v 16) x ≡ half d x)) (sym q)
        (
          half_mod (spliced d v 16) 16 ∙ omega (arith, spliced_high d v hd hv),
          half_mod (spliced d v 16) 0 ∙ omega (arith, spliced_high d v hd hv, half_mod d 0),
        ))

bit_and_two : (x : ℕ) → bit_and x 2 ≡ x / 2 % 2 * 2
bit_and_two x = omega (arith, bit_and_even x 1, bit_and_mask 1 (x / 2))

zero_or_one : (x : ℕ) → (x % 2 ≡ 0) ⊎ (x % 2 ≡ 1)
zero_or_one x = ground arith

opposite :
    (offset other : ℕ)
    → bit_and other 2 ≢ bit_and offset 2
    → Opposite (bit_and offset 2 * 8) (bit_and other 2 * 8)
opposite offset other apart = elim (zero_or_one (offset / 2)) [
  | inl z ↦
      inl (omega (arith, bit_and_two offset), ground (arith, bit_and_two offset, bit_and_two other))
  | inr z ↦
      inr (omega (arith, bit_and_two offset), ground (arith, bit_and_two offset, bit_and_two other))
]

module _ (hw : PciSpace) where
  open hw use {Space, load, store}

  -- Writing 16 bits into a register that keeps what is stored reads back, and leaves the other half
  -- of the register as it reads, whatever half the offset names.
  pub read_config_u16-write_config_u16 :
      (addr : PciAddress) (offset other value : ℕ) (s : Space)
      → let c = config_address addr (bit_and offset 0xFC) in
        ((v : ℕ) → load (store c v s) c ≡ v)
        → load s c < 2 ^ 32
        → value < 2 ^ 16
        → bit_and other 0xFC ≡ bit_and offset 0xFC
        → bit_and other 2 ≢ bit_and offset 2
        → let s' = write_config_u16 hw addr offset value s in
          (read_config_u16 hw addr offset s' ≡ value)
          × (read_config_u16 hw addr other s' ≡ read_config_u16 hw addr other s)
  unfolding read_config_u16 write_config_u16 read_config_u32 write_config_u32
  read_config_u16-write_config_u16 addr offset other value s keeps word small same apart =
      let c = config_address addr (bit_and offset 0xFC) in
      let shift = bit_and offset 2 * 8 in
      let shift' = bit_and other 2 * 8 in
      let (wrote, left) =
        spliced_halves (load s c) value shift shift' word small (opposite offset other apart) in
      let kept = keeps (spliced (load s c) value shift) in
      (
        ap (λ (t : ℕ). half t shift) kept ∙ wrote,
        subst
            (λ (t : ℕ).
              half (load (store c (spliced (load s c) value shift) s) (config_address addr t))
                shift'
              ≡ half (load s (config_address addr t)) shift')
            (sym same) (ap (λ (t : ℕ). half t shift') kept ∙ left),
      )
