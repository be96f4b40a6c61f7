-- ===== src/Wasm/Error.antt =====
-- kernel/src/wasm/host.rs: the error codes, the fuel costs and the traps of the host functions.
use sovelma_os.Prelude.{ℕ}
use sovelma_os.Prelude.Words.{ℤ, negsuc}

abbrev pub cap_not_found : ℤ
cap_not_found = negsuc 0

abbrev pub no_memory_export : ℤ
no_memory_export = negsuc 1

abbrev pub memory_read_failed : ℤ
memory_read_failed = negsuc 2

abbrev pub invalid_utf8 : ℤ
invalid_utf8 = negsuc 3

abbrev pub permission_denied : ℤ
permission_denied = negsuc 4

abbrev pub not_a_directory : ℤ
not_a_directory = negsuc 5

abbrev pub fs_error : ℤ
fs_error = negsuc 6

abbrev pub buffer_too_small : ℤ
buffer_too_small = negsuc 7

abbrev pub memory_write_failed : ℤ
memory_write_failed = negsuc 8

abbrev pub not_a_file : ℤ
not_a_file = negsuc 9

abbrev pub mutex_locked : ℤ
mutex_locked = negsuc 10

abbrev pub sem_no_permits : ℤ
sem_no_permits = negsuc 11

abbrev pub invalid_handle : ℤ
invalid_handle = negsuc 12

abbrev pub cap_lookup : ℕ
cap_lookup = 10

abbrev pub fs_operation : ℕ
fs_operation = 100

abbrev pub memory_io : ℕ
memory_io = 50

abbrev pub yield_threshold : ℕ
yield_threshold = 500

abbrev pub sync_create : ℕ
sync_create = 50

abbrev pub sync_operation : ℕ
sync_operation = 20

pub data HostTrap : Type 0 where
  yield : HostTrap
  sleep mutex_wait sem_wait : ℕ → HostTrap
