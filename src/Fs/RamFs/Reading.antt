-- ===== src/Fs/RamFs/Reading.antt =====
-- kernel/src/fs/ramfs.rs: which bytes of a file `read` copies into the buffer.
use sovelma_os.Prelude.{
  ℕ, ◌+◌, ◌-◌, min, ◌≡◌, List, none, length, get_elem?, drop, arith, ltb, if◌then◌else◌,
  get_elem?-past, get_elem?-take, get_elem?-drop,
}
use sovelma_os.Fs.RamFs.{read_slice}

-- The byte at each position of the buffer is that of the file, counted from the offset.
pub get_elem?-read_slice :
    (content : List ℕ) (len offset i : ℕ)
    → get_elem? (read_slice content len offset) i
      ≡ (if ltb i len then get_elem? content (offset + i) else none)
get_elem?-read_slice content len offset i = ground (
  arith,
  get_elem?-take (min (offset + len) (length content) - offset) (drop offset content) i,
  get_elem?-drop offset content i,
  get_elem?-past content (offset + i),
)
