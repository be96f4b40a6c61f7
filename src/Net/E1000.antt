-- ===== src/Net/E1000.antt =====
-- kernel/src/net/e1000.rs: the rings of the network controller and the packets that go through
-- them. The device shares the descriptors and the buffers, and its registers are a list of what was
-- written to them. `none` is a panic: an index or a slice out of range.
pub mod Rings
pub mod Transfer
mod Examples
use sovelma_os.Prelude.{
  ℕ, zero, suc, ◌+◌, ◌-◌, ◌*◌, ◌/◌, ◌%◌, ◌^◌, Bool, true, false, ◌||◌, not, List, [], ◌∷◌, ◌++◌,
  Option, none, some, is_some, length, get_elem?, set, take, drop, replicate, bit_and, bit_or, ◌==◌,
  ltb, leb, if◌then◌else◌,
}
use sovelma_os.Net.{MacAddress}

abbrev pub packet_buffer_size : ℕ
packet_buffer_size = 2048

abbrev pub tx_desc_count : ℕ
tx_desc_count = 64

abbrev pub rx_desc_count : ℕ
rx_desc_count = 64

abbrev pub reg_rdt : ℕ
reg_rdt = 0x2818

abbrev pub reg_tdt : ℕ
reg_tdt = 0x3818

abbrev pub reg_ral0 : ℕ
reg_ral0 = 0x5400

abbrev pub reg_rah0 : ℕ
reg_rah0 = 0x5404

abbrev pub tx_dd : ℕ
tx_dd = 1

abbrev pub rx_dd : ℕ
rx_dd = 1

-- The fields that the driver uses, of the source's seven.
pub record TxDesc : Type 0 where
  pub addr : ℕ
  pub length : ℕ
  pub cmd : ℕ
  pub status : ℕ

pub record RxDesc : Type 0 where
  pub addr : ℕ
  pub length : ℕ
  pub status : ℕ

pub record E1000 : Type 0 where
  pub mac_address : MacAddress
  pub tx_descs : List TxDesc
  pub tx_buffers : List (List ℕ)
  pub tx_cur : ℕ
  pub rx_descs : List RxDesc
  pub rx_buffers : List (List ℕ)
  pub rx_cur : ℕ
  -- Not a field of the source: the registers that were written, the latest first.
  pub written : List (ℕ × ℕ)

abbrev pub write_reg : (offset value : ℕ) → E1000 → E1000
write_reg offset value dev = record dev { written = (offset, value) ∷ dev.written }

-- `read_mac_address`, from the two registers.
unfoldable pub read_mac_address : (ral rah : ℕ) → E1000 → E1000
read_mac_address ral rah dev = record dev {
  mac_address =
      if not (bit_and rah (2 ^ 31) == 0) || not (ral == 0)
      then record {
        mac0 = ral % 2 ^ 8;
        mac1 = ral / 2 ^ 8 % 2 ^ 8;
        mac2 = ral / 2 ^ 16 % 2 ^ 8;
        mac3 = ral / 2 ^ 24 % 2 ^ 8;
        mac4 = rah % 2 ^ 8;
        mac5 = rah / 2 ^ 8 % 2 ^ 8;
      }
      else record { mac0 = 2; mac1 = 0; mac2 = 0; mac3 = 0; mac4 = 0; mac5 = 1 };
}

-- `u32::from_le_bytes`.
abbrev pub from_le_bytes : (a b c d : ℕ) → ℕ
from_le_bytes a b c d = a + b * 2 ^ 8 + c * 2 ^ 16 + d * 2 ^ 24

unfoldable pub mac_low : MacAddress → ℕ
mac_low mac = from_le_bytes mac.mac0 mac.mac1 mac.mac2 mac.mac3

unfoldable pub mac_high : MacAddress → ℕ
mac_high mac = bit_or (from_le_bytes mac.mac4 mac.mac5 0 0) (2 ^ 31)

unfoldable pub write_mac_address : E1000 → E1000
unfolding mac_low mac_high
write_mac_address dev =
    write_reg reg_rah0 (mac_high dev.mac_address) (write_reg reg_ral0 (mac_low dev.mac_address) dev)

-- Where `new` puts what the device reads and writes, as physical addresses: `virt_to_phys`
-- subtracts the offset of the mapping, and wraps below 0, as a build without overflow checks does.
pub record Addresses : Type 0 where
  pub phys_mem_offset : ℕ
  pub tx_descs_at : ℕ
  pub tx_buffers_at : ℕ
  pub rx_descs_at : ℕ
  pub rx_buffers_at : ℕ

abbrev pub virt_to_phys : (phys_mem_offset virt_addr : ℕ) → ℕ
virt_to_phys phys_mem_offset virt_addr = (virt_addr + 2 ^ 64 - phys_mem_offset) % 2 ^ 64

-- The loops of `init_tx` and `init_rx`: descriptors of buffers that stand one after another.
unfoldable pub init_tx_descs : (phys_mem_offset addr count : ℕ) → List TxDesc
init_tx_descs phys_mem_offset addr zero = []
init_tx_descs phys_mem_offset addr (suc count) =
    record { addr = virt_to_phys phys_mem_offset addr; length = 0; cmd = 0; status = tx_dd }
    ∷ init_tx_descs phys_mem_offset (addr + packet_buffer_size) count

unfoldable pub init_rx_descs : (phys_mem_offset addr count : ℕ) → List RxDesc
init_rx_descs phys_mem_offset addr zero = []
init_rx_descs phys_mem_offset addr (suc count) =
    record { addr = virt_to_phys phys_mem_offset addr; length = 0; status = 0 }
    ∷ init_rx_descs phys_mem_offset (addr + packet_buffer_size) count

-- Writes in their order.
unfoldable pub write_regs : List (ℕ × ℕ) → E1000 → E1000
write_regs [] dev = dev
write_regs ((offset, value) ∷ rest) dev = write_regs rest (write_reg offset value dev)

unfoldable pub reset : E1000 → E1000
unfolding write_regs
reset dev = write_regs ((0x00D8, 0xFFFF_FFFF) ∷ (0x0000, 2 ^ 26) ∷ []) dev

unfoldable pub init_tx : Addresses → E1000 → E1000
unfolding write_regs init_tx_descs
init_tx at dev =
    let phys = virt_to_phys at.phys_mem_offset at.tx_descs_at in
    write_regs
      ((0x3800, phys % 2 ^ 32)
        ∷ (0x3804, phys / 2 ^ 32 % 2 ^ 32)
        ∷ (0x3808, tx_desc_count * 16)
        ∷ (0x3810, 0)
        ∷ (reg_tdt, 0)
        ∷ (0x0410, 0x0060_200A)
        ∷ (0x0400, 2 + 8 + 0x100 + 0x40000)
        ∷ [])
      (record dev { tx_descs = init_tx_descs at.phys_mem_offset at.tx_buffers_at tx_desc_count })

-- `ctrl` is what the control register reads as.
unfoldable pub init_rx : (ctrl : ℕ) → Addresses → E1000 → E1000
unfolding write_regs init_rx_descs
init_rx ctrl at dev =
    let phys = virt_to_phys at.phys_mem_offset at.rx_descs_at in
    write_regs
      ((0x2800, phys % 2 ^ 32)
        ∷ (0x2804, phys / 2 ^ 32 % 2 ^ 32)
        ∷ (0x2808, rx_desc_count * 16)
        ∷ (0x2810, 0)
        ∷ (reg_rdt, rx_desc_count - 1)
        ∷ (0x0100, 2 + 0x8000 + 8 + 16)
        ∷ (0x0000, bit_or ctrl (2 ^ 6))
        ∷ [])
      (record dev { rx_descs = init_rx_descs at.phys_mem_offset at.rx_buffers_at rx_desc_count })

-- `new` for a controller whose registers read as `ral`, `rah` and `ctrl`.
unfoldable pub new : Addresses → (ral rah ctrl : ℕ) → E1000
unfolding reset read_mac_address write_mac_address init_tx init_rx
new at ral rah ctrl =
    let dev : E1000 = record {
      mac_address = record { mac0 = 0; mac1 = 0; mac2 = 0; mac3 = 0; mac4 = 0; mac5 = 0 };
      tx_descs = replicate tx_desc_count (record { addr = 0; length = 0; cmd = 0; status = 0 });
      tx_buffers = replicate tx_desc_count (replicate packet_buffer_size 0);
      tx_cur = 0;
      rx_descs = replicate rx_desc_count (record { addr = 0; length = 0; status = 0 });
      rx_buffers = replicate rx_desc_count (replicate packet_buffer_size 0);
      rx_cur = 0;
      written = [];
    } in
    init_rx ctrl at (init_tx at (write_mac_address (read_mac_address ral rah (reset dev))))

-- `buffer[..data.len()].copy_from_slice(data)`.
unfoldable pub copy_into : (packet buffer : List ℕ) → List ℕ
copy_into packet buffer = packet ++ drop (length packet) buffer

-- A packet in the current buffer, and the next position told to the device.
abbrev pub transmitted : (packet buffer : List ℕ) → TxDesc → E1000 → E1000
transmitted packet buffer desc dev =
    let next = (dev.tx_cur + 1) % tx_desc_count in
    write_reg reg_tdt next (record dev {
      tx_buffers = set dev.tx_buffers dev.tx_cur (copy_into packet buffer);
      tx_descs =
          set dev.tx_descs dev.tx_cur
            (record desc { length = length packet % 2 ^ 16; cmd = 11; status = 0 });
      tx_cur = next;
    })

-- Whether the packet was taken.
unfoldable pub transmit_raw : (packet : List ℕ) → E1000 → Option (Bool × E1000)
unfolding copy_into
transmit_raw packet dev =
    if ltb packet_buffer_size (length packet)
    then some (false, dev)
    else elim (get_elem? dev.tx_descs dev.tx_cur) [
      | none ↦ none
      | some desc ↦
          if bit_and desc.status tx_dd == 0
          then some (false, dev)
          else elim (get_elem? dev.tx_buffers dev.tx_cur) [
            | none ↦ none
            | some buffer ↦ some (true, transmitted packet buffer desc dev)
          ]
    ]

-- The current descriptor given back to the device.
abbrev pub received : RxDesc → E1000 → E1000
received desc dev = write_reg reg_rdt dev.rx_cur (record dev {
  rx_descs = set dev.rx_descs dev.rx_cur (record desc { status = 0 });
  rx_cur = (dev.rx_cur + 1) % rx_desc_count;
})

-- The packet that was received, if there is one.
unfoldable pub receive_raw : E1000 → Option (Option (List ℕ) × E1000)
receive_raw dev = elim (get_elem? dev.rx_descs dev.rx_cur) [
  | none ↦ none
  | some desc ↦
      if bit_and desc.status rx_dd == 0
      then some (none, dev)
      else elim (get_elem? dev.rx_buffers dev.rx_cur) [
        | none ↦ none
        | some buffer ↦
            if ltb (length buffer) desc.length
            then none
            else some (some (take desc.length buffer), received desc dev)
      ]
]

-- `Device::transmit`: whether there is a token, which `consume` spends on `transmit_raw`.
unfoldable pub transmit : E1000 → Option Bool
transmit dev = elim (get_elem? dev.tx_descs dev.tx_cur) [
  | none ↦ none
  | some desc ↦ some (not (bit_and desc.status tx_dd == 0))
]

-- `E1000TxToken::consume`: the packet that `f` writes into a new buffer is sent, if it is taken.
unfoldable pub consume : (len : ℕ) → (f : List ℕ → List ℕ) → E1000 → Option E1000
unfolding transmit_raw
consume len f dev = elim (transmit_raw (f (replicate len 0)) dev) [
  | none ↦ none
  | some (taken, dev') ↦ some dev'
]
