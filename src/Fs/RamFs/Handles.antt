-- ===== src/Fs/RamFs/Handles.antt =====
-- Any sequence of operations on a file system: well-formedness, and what an open handle reads.
use sovelma_os.Prelude.{
  ℕ, ◌≡◌, refl, List, [], ◌∷◌, some, get_elem?, get_elem?-total, arith, Option-cases, inl, inr,
}
use sovelma_os.Prelude.Maps.{lookup, nat_ord}
use sovelma_os.Fs.Path.{Name, parts}
use sovelma_os.Fs.RamFs.{
  RamFs, Node, file, directory, NodeId, FileHandle, Result, ok, add_file, open_path, open_at,
  mkdir_at, close, read,
}
use sovelma_os.Fs.RamFs.Files.{KeepsFiles, add_file-KeepsFiles}
use sovelma_os.Fs.RamFs.Directories.{MkdirOutcome, made, failed, mkdir_at-MkdirOutcome}
use sovelma_os.Fs.RamFs.Invariant.{
  IsWellFormed, handles-longer, open_path-IsWellFormed, open_at-IsWellFormed, close-IsWellFormed,
  add_file-IsWellFormed, handles-add_file,
}

-- The files are all kept, and every handle names the node that it named.
pub record Keeps (fs fs' : RamFs) : Type 0 where
  pub files : KeepsFiles fs.nodes fs'.nodes
  pub same_handles : fs'.open_handles ≡ fs.open_handles

MkdirOutcome-Keeps :
    (fs : RamFs) (start : NodeId) (ps : List Name) (r : Result (Unit {0}) × RamFs)
    → IsWellFormed fs
    → MkdirOutcome fs start ps r
    → IsWellFormed r.1 × Keeps fs r.1
MkdirOutcome-Keeps fs start ps _ v (made nodes' m) = (
  record { store = m.store; handles = handles-longer fs nodes' m.grows.longer v.handles },
  record { files = record { longer = m.grows.longer; files = m.grows.files }; same_handles = refl },
)
MkdirOutcome-Keeps fs start ps _ v (failed e) =
    (v, record { files = record { longer = omega arith; files = λ i c h. h }; same_handles = refl })

mkdir_at-Keeps :
    (fs : RamFs) (base : FileHandle) (path : List ℕ)
    → IsWellFormed fs
    → IsWellFormed (mkdir_at fs base path).1 × Keeps fs (mkdir_at fs base path).1
mkdir_at-Keeps fs base path v = elim (mkdir_at-MkdirOutcome fs base path v.store) [
  | inl (start, at, outcome) ↦
      MkdirOutcome-Keeps fs start (parts path) (mkdir_at fs base path) v outcome
  | inr (_, same, _) ↦ rw same (
    v,
    record { files = record { longer = omega arith; files = λ i c h. h }; same_handles = refl },
  )
]

-- The operations that change the file system.
pub data Operation : Type 0 where
  adds : (path content : List ℕ) → Operation
  opens : (path : List ℕ) → Operation
  opens_at makes_at : (base : FileHandle) (path : List ℕ) → Operation
  closes : FileHandle → Operation

unfoldable pub step : Operation → RamFs → RamFs
step (adds path content) fs = add_file fs path content
step (opens path) fs = (open_path fs path).1
step (opens_at base path) fs = (open_at fs base path).1
step (makes_at base path) fs = (mkdir_at fs base path).1
step (closes handle) fs = close fs handle

unfoldable pub run : List Operation → RamFs → RamFs
run [] fs = fs
run (o ∷ os) fs = run os (step o fs)

step-IsWellFormed : (o : Operation) (fs : RamFs) → IsWellFormed fs → IsWellFormed (step o fs)
unfolding step
step-IsWellFormed (adds path content) fs v = add_file-IsWellFormed fs path content v
step-IsWellFormed (opens path) fs v = open_path-IsWellFormed fs path v
step-IsWellFormed (opens_at base path) fs v = open_at-IsWellFormed fs base path v
step-IsWellFormed (makes_at base path) fs v = (mkdir_at-Keeps fs base path v).0
step-IsWellFormed (closes handle) fs v = close-IsWellFormed fs handle v

-- Whatever is added, opened, made and closed in a well-formed file system, in any order, it stays
-- well formed: the root is a directory, the entries of every directory point to later nodes of the
-- store, so that there is no cycle and no entry dangles, and every open handle names a node.
pub run-IsWellFormed :
    (os : List Operation) (fs : RamFs) → IsWellFormed fs → IsWellFormed (run os fs)
unfolding run
run-IsWellFormed [] fs v = v
run-IsWellFormed (o ∷ os) fs v = run-IsWellFormed os (step o fs) (step-IsWellFormed o fs v)

-- An open file is read as it was.
read_node-Keeps :
    (fs fs' : RamFs) (handle id len offset : ℕ) (bytes : List ℕ) (n : Node)
    → Keeps fs fs'
    → lookup handle fs.open_handles ≡ some id
    → get_elem? fs.nodes id ≡ some n
    → read fs handle len offset ≡ ok bytes
    → read fs' handle len offset ≡ ok bytes
unfolding read
read_node-Keeps fs fs' handle id len offset bytes (directory es) k l at e = absurd (ground arith)
read_node-Keeps fs fs' handle id len offset bytes (file c) k l at e =
    let kept = k.files.files id c at in ground (arith, k.same_handles)

read-Keeps :
    (fs fs' : RamFs) (handle len offset : ℕ) (bytes : List ℕ)
    → Keeps fs fs'
    → IsWellFormed fs
    → read fs handle len offset ≡ ok bytes
    → read fs' handle len offset ≡ ok bytes
unfolding read
read-Keeps fs fs' handle len offset bytes k v e =
    elim (Option-cases (lookup handle fs.open_handles)) [
      | inl missing ↦ absurd (ground arith)
      | inr (id, l) ↦
          let (n, at) = get_elem?-total fs.nodes id (v.handles handle id l) in
          read_node-Keeps fs fs' handle id len offset bytes n k l at e
    ]

-- Replacing a file or making a directory does not disturb a reader: what a read through an open
-- handle returns, the same read returns after any `add_file`, that of the very path that was opened
-- included, and after any `mkdir_at`.
pub read-undisturbed :
    (fs : RamFs) (path content : List ℕ) (base handle len offset : ℕ) (bytes : List ℕ)
    → IsWellFormed fs
    → read fs handle len offset ≡ ok bytes
    → (read (add_file fs path content) handle len offset ≡ ok bytes)
      × (read (mkdir_at fs base path).1 handle len offset ≡ ok bytes)
read-undisturbed fs path content base handle len offset bytes v e = (
  read-Keeps fs (add_file fs path content) handle len offset bytes
      (record {
        files = add_file-KeepsFiles fs path content v.store;
        same_handles = handles-add_file fs path content;
      })
      v e,
  read-Keeps fs (mkdir_at fs base path).1 handle len offset bytes (mkdir_at-Keeps fs base path v).1
      v e,
)
