-- ===== src/Pci.antt =====
-- kernel/src/arch/x86_64/pci.rs: access to the PCI configuration space, and the search for a
-- network controller. What stands behind the two ports is a parameter: a space of 32-bit registers
-- under the addresses that are written to the first port.
pub mod Registers
pub mod Search
mod Examples
use sovelma_os.Prelude.{
  ℕ, zero, suc, ◌+◌, ◌-◌, ◌*◌, ◌/◌, ◌%◌, ◌^◌, Bool, true, false, ◌&&◌, ◌||◌, not, List, [], ◌∷◌,
  ◌++◌, Option, none, some, is_some, bit_and, bit_or, ◌==◌, if◌then◌else◌,
}

abbrev pub vendor_id_none : ℕ
vendor_id_none = 0xFFFF

abbrev pub vendor_intel : ℕ
vendor_intel = 0x8086

abbrev pub device_e1000_82540em : ℕ
device_e1000_82540em = 0x100E

abbrev pub device_e1000_82545em : ℕ
device_e1000_82545em = 0x100F

abbrev pub device_e1000e_82574l : ℕ
device_e1000e_82574l = 0x10D3

abbrev pub reg_vendor_id : ℕ
reg_vendor_id = 0x00

abbrev pub reg_device_id : ℕ
reg_device_id = 0x02

abbrev pub reg_command : ℕ
reg_command = 0x04

abbrev pub reg_class_code : ℕ
reg_class_code = 0x09

abbrev pub reg_header_type : ℕ
reg_header_type = 0x0E

abbrev pub reg_bar0 : ℕ
reg_bar0 = 0x10

abbrev pub reg_bar1 : ℕ
reg_bar1 = 0x14

abbrev pub reg_interrupt_line : ℕ
reg_interrupt_line = 0x3C

abbrev pub cmd_mem_space : ℕ
cmd_mem_space = 2

abbrev pub cmd_bus_master : ℕ
cmd_bus_master = 4

pub record PciAddress : Type 0 where
  pub bus : ℕ
  pub device : ℕ
  pub function : ℕ

-- No shift here leaves 32 bits.
unfoldable pub config_address : PciAddress → (offset : ℕ) → ℕ
config_address addr offset =
    bit_or
      (bit_or (bit_or (bit_or 0x8000_0000 (addr.bus * 2 ^ 16)) (addr.device * 2 ^ 11))
        (addr.function * 2 ^ 8))
      (bit_and offset 0xFC)

pub record PciDevice : Type 0 where
  pub addr : PciAddress
  pub vendor_id : ℕ
  pub device_id : ℕ
  pub class_code : ℕ
  pub bar0 : ℕ
  pub bar1 : ℕ
  pub irq : ℕ

unfoldable pub is_e1000 : PciDevice → Bool
is_e1000 dev =
    dev.vendor_id == vendor_intel
    && (dev.device_id == device_e1000_82540em
        || dev.device_id == device_e1000_82545em
        || dev.device_id == device_e1000e_82574l)

unfoldable pub mmio_base : PciDevice → Option ℕ
mmio_base dev =
    let bar_type = bit_and (dev.bar0 / 2) 3 in
    let base = bit_and dev.bar0 0xFFFF_FFF0 in
    if not (bit_and dev.bar0 1 == 0)
    then none
    else if bar_type == 0
    then some base
    else if bar_type == 2
    then some (bit_or (dev.bar1 * 2 ^ 32) base)
    else none

-- The registers behind the data port, by what is written to the address port.
pub record PciSpace : Type 1 where
  pub Space : Type 0
  pub load : Space → (config_address : ℕ) → ℕ
  pub store : (config_address value : ℕ) → Space → Space

module _ (hw : PciSpace) where
  open hw use {Space, load, store}

  unfoldable pub read_config_u32 : PciAddress → (offset : ℕ) → Space → ℕ
  unfolding config_address
  read_config_u32 addr offset s = load s (config_address addr offset)

  unfoldable pub write_config_u32 : PciAddress → (offset value : ℕ) → Space → Space
  unfolding config_address
  write_config_u32 addr offset value s = store (config_address addr offset) value s

  unfoldable pub read_config_u16 : PciAddress → (offset : ℕ) → Space → ℕ
  unfolding read_config_u32
  read_config_u16 addr offset s =
      let dword = read_config_u32 addr (bit_and offset 0xFC) s in
      bit_and (dword / 2 ^ (bit_and offset 2 * 8)) 0xFFFF

  unfoldable pub write_config_u16 : PciAddress → (offset value : ℕ) → Space → Space
  unfolding read_config_u32 write_config_u32
  write_config_u16 addr offset value s =
      let aligned_offset = bit_and offset 0xFC in
      let shift = bit_and offset 2 * 8 in
      let dword = read_config_u32 addr aligned_offset s in
      let cleared = bit_and dword (2 ^ 32 - 1 - 0xFFFF * 2 ^ shift) in
      write_config_u32 addr aligned_offset (bit_or cleared (value * 2 ^ shift)) s

  unfoldable pub read_config_u8 : PciAddress → (offset : ℕ) → Space → ℕ
  unfolding read_config_u32
  read_config_u8 addr offset s =
      let dword = read_config_u32 addr (bit_and offset 0xFC) s in
      bit_and (dword / 2 ^ (bit_and offset 3 * 8)) 0xFF

  unfoldable pub read_device : PciAddress → Space → Option PciDevice
  unfolding read_config_u32 read_config_u16 read_config_u8
  read_device addr s =
      let vendor_id = read_config_u16 addr reg_vendor_id s in
      if vendor_id == vendor_id_none
      then none
      else some (record {
        addr = addr;
        vendor_id = vendor_id;
        device_id = read_config_u16 addr reg_device_id s;
        class_code = read_config_u32 addr reg_class_code s / 2 ^ 8;
        bar0 = read_config_u32 addr reg_bar0 s;
        bar1 = read_config_u32 addr reg_bar1 s;
        irq = read_config_u8 addr reg_interrupt_line s;
      })

  unfoldable pub enable : PciDevice → Space → Space
  unfolding read_config_u16 write_config_u16
  enable dev s =
      let current = read_config_u16 dev.addr reg_command s in
      write_config_u16 dev.addr reg_command (bit_or (bit_or current cmd_mem_space) cmd_bus_master) s

  -- `if let Some(dev) = PciDevice::read(addr) { callback(dev) }`, with the callback's state.
  unfoldable pub visit : {A : Type 0} → (A → PciDevice → A) → PciAddress → Space → A → A
  unfolding read_device
  visit callback addr s a = elim (read_device addr s) [ none ↦ a | some dev ↦ callback a dev ]

  -- The functions from `function` on, `left` of them.
  unfoldable pub scan_functions :
      {A : Type 0} → (A → PciDevice → A) → (bus device function left : ℕ) → Space → A → A
  unfolding visit
  scan_functions callback bus device function zero s a = a
  scan_functions callback bus device function (suc left) s a =
      scan_functions callback bus device (function + 1) left s
        (visit callback (record { bus = bus; device = device; function = function }) s a)

  unfoldable pub scan_device : {A : Type 0} → (A → PciDevice → A) → (bus device : ℕ) → Space → A → A
  unfolding read_device scan_functions
  scan_device callback bus device s a =
      let addr : PciAddress = record { bus = bus; device = device; function = 0 } in
      elim (read_device addr s) [
        | none ↦ a
        | some dev ↦
            let a' = callback a dev in
            let header_type = read_config_u8 addr reg_header_type s in
            if bit_and header_type 0x80 == 0
            then a'
            else scan_functions callback bus device 1 7 s a'
      ]

  unfoldable pub scan_devices :
      {A : Type 0} → (A → PciDevice → A) → (bus device left : ℕ) → Space → A → A
  unfolding scan_device
  scan_devices callback bus device zero s a = a
  scan_devices callback bus device (suc left) s a =
      scan_devices callback bus (device + 1) left s (scan_device callback bus device s a)

  unfoldable pub scan_buses : {A : Type 0} → (A → PciDevice → A) → (bus left : ℕ) → Space → A → A
  unfolding scan_devices
  scan_buses callback bus zero s a = a
  scan_buses callback bus (suc left) s a =
      scan_buses callback (bus + 1) left s (scan_devices callback bus 0 32 s a)

  unfoldable pub scan : {A : Type 0} → (A → PciDevice → A) → Space → A → A
  unfolding scan_buses
  scan callback s a = scan_buses callback 0 256 s a

  -- The closure of `find_e1000`.
  unfoldable pub keep_first : Option PciDevice → PciDevice → Option PciDevice
  unfolding is_e1000
  keep_first result dev = if not (is_some result) && is_e1000 dev then some dev else result

  unfoldable pub find_e1000 : Space → Option PciDevice
  unfolding scan keep_first
  find_e1000 s = scan keep_first s none
