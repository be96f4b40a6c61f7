-- ===== src/Fs/RamFs.antt =====
-- kernel/src/fs/mod.rs and kernel/src/fs/ramfs.rs: `RamFs`. An `Arc<RwLock<Node>>` is the index of
-- a node in a store, so that a directory entry and an open handle can share a node; `Arc::new`
-- appends to the store, and the root is node 0. The two static handle counters are fields.
pub mod Store
mod Growth
mod Walks
mod Parents
pub mod Files
pub mod Directories
pub mod Invariant
pub mod Handles
mod Collision
mod Reading
mod Examples
use sovelma_os.Prelude.{
  ℕ, zero, suc, ◌+◌, ◌-◌, ◌%◌, ◌^◌, min, Bool, true, false, ◌==◌, leb, List, [], ◌∷◌, ◌++◌, Option,
  none, some, is_some, length, get_elem?, set, take, drop, if◌then◌else◌,
}
use sovelma_os.Prelude.Maps.{BTreeMap, lookup, insert, remove, nat_ord}
use sovelma_os.Fs.Path.{Name, name_ord, parts, split_last}

pub data FsError : Type 0 where
  not_found permission_denied invalid_handle : FsError

pub data Result (A : Type 0) : Type 0 where
  ok : A → Result A
  err : FsError → Result A

-- An `Arc` of a node.
abbrev pub NodeId : Type 0
NodeId = ℕ

abbrev pub FileHandle : Type 0
FileHandle = ℕ

pub data Node : Type 0 where
  file : List ℕ → Node
  directory : BTreeMap Name NodeId → Node

pub record RamFs : Type 0 where
  pub nodes : List Node
  pub open_handles : BTreeMap FileHandle NodeId
  pub next_handle : ℕ
  pub next_handle_at : ℕ

abbrev pub root : NodeId
root = 0

unfoldable pub new : RamFs
new = record {
  nodes = directory [] ∷ [];
  open_handles = [];
  next_handle = 1;
  next_handle_at = 10000;
}

-- The node behind an `Arc`, which never dangles.
abbrev pub deref : List Node → NodeId → Node
deref nodes id = elim (get_elem? nodes id) [ none ↦ file [] | some n ↦ n ]

-- Link a new node under a name into the directory `id`, whose entries are `entries`.
abbrev pub link : List Node → NodeId → BTreeMap Name NodeId → Name → Node → List Node
link nodes id entries name n =
    set nodes id (directory (insert name (length nodes) entries)) ++ n ∷ []

-- `map.entry(part).or_insert_with(..)` in the node `id`; `none` if it is no directory.
unfoldable pub enter_or_create : List Node → NodeId → Name → Option (NodeId × List Node)
enter_or_create nodes id part = elim (deref nodes id) [
  | file content ↦ none
  | directory entries ↦ elim (lookup part entries) [
    | some child ↦ some (child, nodes)
    | none ↦ some (length nodes, link nodes id entries part (directory []))
  ]
]

-- The loop of `add_file` over the parent components: where it stops, and the store by then.
unfoldable pub make_parents : List Name → NodeId → List Node → Option NodeId × List Node
make_parents [] id nodes = (some id, nodes)
make_parents (part ∷ rest) id nodes = elim (enter_or_create nodes id part) [
  | none ↦ (none, nodes)
  | some (child, nodes') ↦ make_parents rest child nodes'
]

-- The end of `add_file`: `map.insert(filename, file)`, which replaces an entry of that name.
unfoldable pub put_file : Option NodeId × List Node → Name → List ℕ → List Node
put_file (none, nodes) name content = nodes
put_file (some id, nodes) name content = elim (deref nodes id) [
  | file old ↦ nodes
  | directory entries ↦ link nodes id entries name (file content)
]

unfoldable pub add_file : RamFs → List ℕ → List ℕ → RamFs
unfolding put_file
add_file fs path content = elim (split_last (parts path)) [
  | none ↦ fs
  | some (parents, filename) ↦ record fs {
    nodes = put_file (make_parents parents root fs.nodes) filename content;
  }
]

-- The loop of `resolve_path`, of `open_at` and of `mkdir_at`.
unfoldable pub walk : List Node → NodeId → List Name → Result NodeId
walk nodes id [] = ok id
walk nodes id (part ∷ rest) = elim (deref nodes id) [
  | file content ↦ err not_found
  | directory entries ↦ elim (lookup part entries) [
    | some child ↦ walk nodes child rest
    | none ↦ err not_found
  ]
]

unfoldable pub resolve_path : RamFs → List ℕ → Result NodeId
resolve_path fs path = walk fs.nodes root (parts path)

-- `fetch_add(1)` on an `AtomicU32`.
abbrev pub bump : ℕ → ℕ
bump n = (n + 1) % 2 ^ 32

unfoldable pub open_path : RamFs → List ℕ → Result FileHandle × RamFs
unfolding resolve_path
open_path fs path = elim (resolve_path fs path) [
  | err e ↦ (err e, fs)
  | ok id ↦ (
    ok fs.next_handle,
    record fs {
      open_handles = insert fs.next_handle id fs.open_handles;
      next_handle = bump fs.next_handle;
    },
  )
]

-- The source releases the table of handles for the walk and locks it again. Here the call is one
-- step: it does not wait on the way, and tasks are scheduled cooperatively.
unfoldable pub open_at : RamFs → FileHandle → List ℕ → Result FileHandle × RamFs
open_at fs base path = elim (lookup base fs.open_handles) [
  | none ↦ (err invalid_handle, fs)
  | some base_node ↦ elim (walk fs.nodes base_node (parts path)) [
    | err e ↦ (err e, fs)
    | ok id ↦ (
      ok fs.next_handle_at,
      record fs {
        open_handles = insert fs.next_handle_at id fs.open_handles;
        next_handle_at = bump fs.next_handle_at;
      },
    )
  ]
]

-- The node that a base handle stands for in `mkdir_at`: 0 is the root.
abbrev pub base_of : RamFs → FileHandle → Option NodeId
base_of fs base = if base == 0 then some root else lookup base fs.open_handles

-- The end of `mkdir_at`: create the directory in its parent.
unfoldable pub make_dir : RamFs → NodeId → Name → Result (Unit {0}) × RamFs
make_dir fs parent dirname = elim (deref fs.nodes parent) [
  | file content ↦ (err invalid_handle, fs)
  | directory entries ↦
      if is_some (lookup dirname entries)
      then (err permission_denied, fs)
      else (ok tt, record fs { nodes = link fs.nodes parent entries dirname (directory []) })
]

unfoldable pub mkdir_at : RamFs → FileHandle → List ℕ → Result (Unit {0}) × RamFs
unfolding make_dir
mkdir_at fs base path = elim (split_last (parts path)) [
  | none ↦ (err permission_denied, fs)
  | some (parents, dirname) ↦ elim (base_of fs base) [
    | none ↦ (err invalid_handle, fs)
    | some start ↦ elim (walk fs.nodes start parents) [
      | err e ↦ (err e, fs)
      | ok parent ↦ make_dir fs parent dirname
    ]
  ]
]

unfoldable pub mkdir : RamFs → List ℕ → Result (Unit {0}) × RamFs
unfolding mkdir_at
mkdir fs path = mkdir_at fs 0 path

-- `read` into a buffer of `len` bytes: the bytes that are copied to its front. Both summands are
-- lengths of slices, so that their sum does not wrap.
abbrev pub read_slice : List ℕ → ℕ → ℕ → List ℕ
read_slice content len offset =
    if leb (length content) offset
    then []
    else take (min (offset + len) (length content) - offset) (drop offset content)

unfoldable pub read : RamFs → FileHandle → ℕ → ℕ → Result (List ℕ)
read fs handle len offset = elim (lookup handle fs.open_handles) [
  | none ↦ err invalid_handle
  | some id ↦ elim (deref fs.nodes id) [
    | file content ↦ ok (read_slice content len offset)
    | directory entries ↦ err invalid_handle
  ]
]

unfoldable pub size : RamFs → FileHandle → Result ℕ
size fs handle = elim (lookup handle fs.open_handles) [
  | none ↦ err invalid_handle
  | some id ↦ elim (deref fs.nodes id) [
    | file content ↦ ok (length content)
    | directory entries ↦ ok 0
  ]
]

unfoldable pub is_dir : RamFs → FileHandle → Bool
is_dir fs handle = elim (lookup handle fs.open_handles) [
  | none ↦ false
  | some id ↦ elim (deref fs.nodes id) [ file content ↦ false | directory entries ↦ true ]
]

unfoldable pub close : RamFs → FileHandle → RamFs
close fs handle = record fs { open_handles = remove handle fs.open_handles }
