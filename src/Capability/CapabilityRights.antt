-- ===== src/Capability/CapabilityRights.antt =====
-- The constants of `CapabilityRights` (common/src/capability.rs), as bits of a 32-bit word.
use sovelma_os.Prelude.{ℕ}

abbrev pub read : ℕ
read = 1

abbrev pub write : ℕ
write = 2

abbrev pub execute : ℕ
execute = 4

abbrev pub grant : ℕ
grant = 8

abbrev pub call : ℕ
call = 16
