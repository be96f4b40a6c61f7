-- ===== src/Wasm/Host/Files.antt =====
-- kernel/src/wasm/host.rs: `sp_get_capabilities` and the file system calls. What follows the first
-- fuel check of a call is a definition of its own.
use sovelma_os.Prelude.{
  ℕ, zero, suc, ◌+◌, ◌*◌, ◌/◌, ◌%◌, ◌^◌, Bool, true, false, List, [], ◌∷◌, none, some, length,
  if◌then◌else◌, ltb,
}
use sovelma_os.Prelude.Words.{ℤ, pos, as_u64, as_i32, as_i64}
use sovelma_os.Prelude.Maps.{lookup, remove, values}
use sovelma_os.Capability.{
  CapId, cap_id_ord, from_u64, Capability, CapabilityType, directory, file, mutex, semaphore,
  new_capability,
}
use sovelma_os.Capability
use sovelma_os.Capability.CapabilityRights
use sovelma_os.Fs.RamFs
use sovelma_os.Fs.RamFs.{RamFs, ok, err}
use sovelma_os.Wasm.Error.{
  yield, cap_not_found, no_memory_export, memory_read_failed, invalid_utf8, not_a_directory,
  fs_error, buffer_too_small, memory_write_failed, not_a_file, cap_lookup, fs_operation, memory_io,
}
use sovelma_os.Wasm.Platform.{Platform}
use sovelma_os.Wasm.Host.{
  World, Outcome, returned, done, panicked, trapped, Flow, go, stop, charged, authorize,
  get_capability, add_capability, as_directory, as_file, as_file_or_directory,
}

-- `to_le_bytes` of a word of n bytes.
unfoldable pub to_le_bytes : ℕ → ℕ → List ℕ
to_le_bytes zero w = []
to_le_bytes (suc n) w = w % 256 ∷ to_le_bytes n (w / 256)

unfoldable pub type_val : CapabilityType → ℕ
type_val (file h) = 0
type_val (directory h) = 1
type_val (mutex h) = 2
type_val (semaphore h) = 3
type_val _ = 255

module _ (p : Platform) where
  -- One capability in the module's memory, and whether every write worked.
  unfoldable pub write_capability : p.Mem → ℕ → Capability → Bool × p.Mem
  write_capability m offset cap =
      elim (p.write m offset (to_le_bytes 8 (Capability.as_u64 cap.id))) [
        | none ↦ (false, m)
        | some m₁ ↦
            elim (p.write m₁ ((offset + 8) % 2 ^ 64) (to_le_bytes 4 (type_val cap.object))) [
              | none ↦ (false, m₁)
              | some m₂ ↦ elim (p.write m₂ ((offset + 12) % 2 ^ 64) (to_le_bytes 4 cap.rights)) [
                | none ↦ (false, m₂)
                | some m₃ ↦ (true, m₃)
              ]
            ]
      ]

  -- The loop over the capabilities, which stops at the first write that fails.
  unfoldable pub write_capabilities : p.Mem → ℕ → List Capability → Bool × p.Mem
  unfolding write_capability
  write_capabilities m offset [] = (true, m)
  write_capabilities m offset (cap ∷ caps) =
      let (fine, m') = write_capability m offset cap in
      let rest = write_capabilities m' ((offset + 16) % 2 ^ 64) caps in
      if fine then rest else (false, m')

  unfoldable pub list_capabilities : ℤ → ℤ → World p → Outcome × World p
  list_capabilities ptr len w = elim w.memory [
    | none ↦ (returned no_memory_export, w)
    | some memory ↦
        let caps = values w.host.capabilities in
        let count = length caps in
        if ltb (as_u64 len) (count * 16)
        then (returned buffer_too_small, w)
        else charged p (memory_io * count) w (λ w.
          let (fine, memory') = write_capabilities memory (as_u64 ptr) caps in
          (
            if fine then returned (as_i32 count) else returned memory_write_failed,
            record w { memory = some memory' },
          ))
  ]

  unfoldable pub sp_get_capabilities : ℤ → ℤ → World p → Outcome × World p
  sp_get_capabilities ptr len w = charged p cap_lookup w (list_capabilities ptr len)

  -- Read a path from the module's memory.
  unfoldable pub path_argument : World p → ℤ → ℤ → Flow (List ℕ)
  path_argument w path_ptr path_len = elim w.memory [
    | none ↦ stop (returned no_memory_export)
    | some memory ↦
        if p.allocates (as_u64 path_len)
        then elim (p.read memory (as_u64 path_ptr) (as_u64 path_len)) [
          | none ↦ stop (returned memory_read_failed)
          | some bytes ↦ if p.is_utf8 bytes then go bytes else stop (returned invalid_utf8)
        ]
        else stop panicked
  ]

  -- The rights that apply to a directory or to a file.
  unfoldable pub applicable_rights : Bool → ℕ
  applicable_rights is_dir =
      if is_dir
      then p.flags.union
          (p.flags.union (p.flags.union CapabilityRights.read CapabilityRights.write)
            CapabilityRights.execute)
          CapabilityRights.grant
      else p.flags.union CapabilityRights.read CapabilityRights.write

  -- The end of `sp_fs_open`: a capability for the new handle, with the parent's rights at most.
  unfoldable pub derive_capability : ℕ → ℕ → World p → Outcome × World p
  unfolding applicable_rights add_capability new_capability
  derive_capability new_handle parent_rights w =
      let is_dir = RamFs.is_dir w.fs new_handle in
      let cap_type = if is_dir then directory new_handle else file new_handle in
      let derived_rights = p.flags.intersection parent_rights (applicable_rights is_dir) in
      let (new_cap, next_index') = new_capability w.next_index cap_type derived_rights in
      let (id, host') = add_capability w.host new_cap in
      (
        returned (as_i64 (Capability.as_u64 id)),
        record w { host = host'; next_index = next_index' },
      )

  unfoldable pub open_directory : ℤ → ℤ → ℤ → World p → Outcome × World p
  unfolding path_argument derive_capability authorize
  open_directory dir_cap path_ptr path_len w = elim (path_argument w path_ptr path_len) [
    | stop o ↦ (o, w)
    | go path ↦
        elim (authorize p w.host dir_cap as_directory CapabilityRights.read not_a_directory) [
          | stop o ↦ (o, w)
          | go (handle, parent_rights) ↦
              let (opened, fs') = RamFs.open_at w.fs (handle % 2 ^ 32) path in
              elim opened [
                | err e ↦ (returned fs_error, record w { fs = fs' })
                | ok new_handle ↦ derive_capability new_handle parent_rights (record w { fs = fs' })
              ]
        ]
  ]

  unfoldable pub sp_fs_open : ℤ → ℤ → ℤ → World p → Outcome × World p
  sp_fs_open dir_cap path_ptr path_len w =
      charged p fs_operation w (open_directory dir_cap path_ptr path_len)

  unfoldable pub read_file : ℤ → ℤ → ℤ → ℤ → World p → Outcome × World p
  unfolding authorize
  read_file file_cap buf_ptr buf_len offset w = elim w.memory [
    | none ↦ (returned no_memory_export, w)
    | some memory ↦ elim (authorize p w.host file_cap as_file CapabilityRights.read not_a_file) [
      | stop o ↦ (o, w)
      | go (handle, rights) ↦
          if p.allocates (as_u64 buf_len)
          then elim (RamFs.read w.fs (handle % 2 ^ 32) (as_u64 buf_len) (as_u64 offset)) [
            | err e ↦ (returned fs_error, w)
            | ok bytes ↦ charged p memory_io w (λ w. elim (p.write memory (as_u64 buf_ptr) bytes) [
              | none ↦ (returned memory_write_failed, w)
              | some memory' ↦
                  (returned (as_i32 (length bytes)), record w { memory = some memory' })
            ])
          ]
          else (panicked, w)
    ]
  ]

  unfoldable pub sp_fs_read : ℤ → ℤ → ℤ → ℤ → World p → Outcome × World p
  sp_fs_read file_cap buf_ptr buf_len offset w =
      charged p fs_operation w (read_file file_cap buf_ptr buf_len offset)

  unfoldable pub size_of : ℤ → World p → Outcome × World p
  unfolding get_capability as_file_or_directory
  size_of file_cap w = elim (get_capability w.host (from_u64 (as_u64 file_cap))) [
    | none ↦ (returned cap_not_found, w)
    | some cap ↦ elim (as_file_or_directory cap.object) [
      | none ↦ (returned not_a_file, w)
      | some val ↦ elim (RamFs.size w.fs (val % 2 ^ 32)) [
        | err e ↦ (returned fs_error, w)
        | ok s ↦ (returned (as_i32 s), w)
      ]
    ]
  ]

  unfoldable pub sp_fs_size : ℤ → World p → Outcome × World p
  sp_fs_size file_cap w = charged p cap_lookup w (size_of file_cap)

  -- `capabilities.remove(&cap_id)` whatever its generation, then close the handle it held.
  unfoldable pub close_capability : ℤ → World p → Outcome × World p
  unfolding as_file_or_directory
  close_capability file_cap w =
      let cap_id = from_u64 (as_u64 file_cap) in
      let host' = record w.host { capabilities = remove cap_id w.host.capabilities } in
      elim (lookup cap_id w.host.capabilities) [
        | none ↦ (done, w)
        | some cap ↦ elim (as_file_or_directory cap.object) [
          | none ↦ (done, record w { host = host' })
          | some val ↦ (done, record w { host = host'; fs = RamFs.close w.fs (val % 2 ^ 32) })
        ]
      ]

  unfoldable pub sp_fs_close : ℤ → World p → Outcome × World p
  sp_fs_close file_cap w = charged p cap_lookup w (close_capability file_cap)

  unfoldable pub make_directory : ℤ → ℤ → ℤ → World p → Outcome × World p
  unfolding path_argument authorize
  make_directory dir_cap path_ptr path_len w = elim (path_argument w path_ptr path_len) [
    | stop o ↦ (o, w)
    | go path ↦
        elim (authorize p w.host dir_cap as_directory CapabilityRights.write not_a_directory) [
          | stop o ↦ (o, w)
          | go (handle, rights) ↦
              let (made, fs') = RamFs.mkdir_at w.fs (handle % 2 ^ 32) path in
              elim made [
                | err e ↦ (returned fs_error, record w { fs = fs' })
                | ok u ↦ (returned (pos 0), record w { fs = fs' })
              ]
        ]
  ]

  unfoldable pub sp_fs_mkdir : ℤ → ℤ → ℤ → World p → Outcome × World p
  sp_fs_mkdir dir_cap path_ptr path_len w =
      charged p fs_operation w (make_directory dir_cap path_ptr path_len)

  unfoldable pub sp_sched_yield : World p → Outcome × World p
  sp_sched_yield w = (trapped yield, w)
