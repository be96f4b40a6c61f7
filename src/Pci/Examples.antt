-- ===== src/Pci/Examples.antt =====
-- A space with one register, and one where an e1000 controller sits at device 3 of bus 0.
use sovelma_os.Prelude.{ℕ, ◌/◌, ◌^◌, ◌≡◌, refl, ◌==◌, if◌then◌else◌, some, arith}
use sovelma_os.Pci.{
  PciSpace, PciAddress, PciDevice, config_address, read_config_u16, write_config_u16, find_e1000,
  scan, enable, read_config_u16, reg_command, read_device,
}
use sovelma_os.Pci.Registers.{read_config_u16-write_config_u16}
use sovelma_os.Pci.Search.{fold, devices, first_e1000, find_e1000_lem}

abbrev nic : PciAddress
nic = record { bus = 0; device = 3; function = 0 }

-- One register answers under every address.
abbrev one : PciSpace
one = record { Space = ℕ; load = λ s c. s; store = λ c v s. v }

addressed : config_address nic 0x06 ≡ 0x8000_1804
unfolding config_address
addressed = refl

-- The command register beside the status register.
read_config_u16-write_config_u16_example :
    let s' = write_config_u16 one nic 0x04 0x0006 0x0210_0000 in
    (read_config_u16 one nic 0x04 s' ≡ 0x0006)
    × (read_config_u16 one nic 0x06 s' ≡ read_config_u16 one nic 0x06 0x0210_0000)
read_config_u16-write_config_u16_example =
    read_config_u16-write_config_u16 one nic 0x04 0x06 0x0006 0x0210_0000 (λ v. refl) (omega arith)
      (omega arith) refl (λ z. absurd (ground arith))

enabled :
    read_config_u16 one nic reg_command (
      enable one
        (record {
          addr = nic;
          vendor_id = 0x8086;
          device_id = 0x100E;
          class_code = 0x020000;
          bar0 = 0xFEB0_0000;
          bar1 = 0;
          irq = 11;
        })
        0x0210_0001)
    ≡ 0x0007
unfolding enable read_config_u16
enabled = refl

-- The registers of one controller at device 3 of bus 0: 0xFFFF elsewhere.
abbrev one_nic : PciSpace
one_nic = record {
  Space = Unit {0};
  load = λ s c.
      if c == 0x8000_1800 then 0x100E_8086 else if c / 2 ^ 8 == 0x80_0018 then 0 else 0xFFFF_FFFF;
  store = λ c v s. s;
}

found : (d : PciDevice) × (read_device one_nic nic tt ≡ some d) × (d.device_id ≡ 0x100E)
unfolding read_device read_config_u16
found = (_, refl, refl)

find_e1000_lem_example :
    ((A : Type 0) (f : A → PciDevice → A) (a : A)
      → scan one_nic f tt a ≡ fold f a (devices one_nic tt))
    × (find_e1000 one_nic tt ≡ first_e1000 (devices one_nic tt))
find_e1000_lem_example = find_e1000_lem one_nic tt
