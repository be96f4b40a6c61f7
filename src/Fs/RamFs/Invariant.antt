-- ===== src/Fs/RamFs/Invariant.antt =====
-- Well-formedness under every operation, and what an open handle reads meanwhile.
use sovelma_os.Prelude.{
  ℕ, zero, suc, ◌≤◌, ◌<◌, ◌≡◌, refl, List, [], ◌∷◌, none, some, length, get_elem?, arith,
  Option-cases, inl, inr, ◌⊎◌, get_elem?-lt,
}
use sovelma_os.Prelude.Maps.{lookup, insert, nat_ord, AllValues, AllValues-insert, AllValues-remove}
use sovelma_os.Fs.Path.{Name, name_ord, parts, split_last}
use sovelma_os.Fs.RamFs.{
  RamFs, Node, file, directory, NodeId, FileHandle, Result, ok, err, root, new, add_file, walk,
  open_path, open_at, close,
}
use sovelma_os.Fs.RamFs.Store.{IsStore}
use sovelma_os.Fs.RamFs.Store.{PointsDown}
use sovelma_os.Fs.RamFs.Walks.{walk_iff, Walks-lt}
use sovelma_os.Fs.RamFs.{FsError, bump, close, open_at, new}
use sovelma_os.Fs.RamFs.Files.{add_file-Placed, add_file-KeepsFiles}

-- Handles too point into the store.
pub record IsWellFormed (fs : RamFs) : Type 0 where
  pub store : IsStore fs.nodes
  pub handles : AllValues (λ id. id < length fs.nodes) fs.open_handles

abbrev pub InStore : RamFs → NodeId → Type 0
InStore fs id = id < length fs.nodes

pub Result-cases :
    {A : Type 0} (r : Result A) → ((a : A) × (r ≡ ok a)) ⊎ ((e : FsError) × (r ≡ err e))
Result-cases (ok a) = inl (a, refl)
Result-cases (err e) = inr (e, refl)

root-InStore : (fs : RamFs) → IsStore fs.nodes → InStore fs root
root-InStore fs v = let (es, at) = v.rooted in get_elem?-lt fs.nodes root (directory es) at

-- A new handle for a node of the store.
opened-IsWellFormed :
    (fs : RamFs) (handle id next next_at : ℕ)
    → IsWellFormed fs
    → InStore fs id
    → IsWellFormed (record {
      nodes = fs.nodes;
      open_handles = insert handle id fs.open_handles;
      next_handle = next;
      next_handle_at = next_at;
    })
opened-IsWellFormed fs handle id next next_at v lt = record {
  store = v.store;
  handles = AllValues-insert (InStore fs) handle id fs.open_handles lt v.handles;
}

pub new-IsWellFormed : IsWellFormed new
unfolding new lookup
new-IsWellFormed = record {
  store = record { rooted = ([], refl); down = down };
  handles = λ h id e. absurd (ground arith);
}
  where
    down : (i : ℕ) (n : Node) → get_elem? (directory [] ∷ []) i ≡ some n → PointsDown 1 i n
    down zero (file c) e = tt
    down zero (directory es) e = λ name child l. absurd (ground arith)
    down (suc i) n e = absurd (ground arith)

pub open_path-IsWellFormed :
    (fs : RamFs) (path : List ℕ) → IsWellFormed fs → IsWellFormed (open_path fs path).1
unfolding open_path
open_path-IsWellFormed fs path v = elim (Result-cases (walk fs.nodes root (parts path))) [
  | inr (e, w) ↦ rw (w, open_path) v
  | inl (id, w) ↦
      rw (w, open_path)
        (opened-IsWellFormed fs fs.next_handle id (bump fs.next_handle) fs.next_handle_at v (
          Walks-lt v.store (root-InStore fs v.store)
            ((walk_iff fs.nodes root id (parts path)).0 w)))
]

pub open_at-IsWellFormed :
    (fs : RamFs) (base : FileHandle) (path : List ℕ)
    → IsWellFormed fs
    → IsWellFormed (open_at fs base path).1
unfolding open_at
open_at-IsWellFormed fs base path v = elim (Option-cases (lookup base fs.open_handles)) [
  | inl missing ↦ rw (missing, open_at) v
  | inr (start, l) ↦ elim (Result-cases (walk fs.nodes start (parts path))) [
    | inr (e, w) ↦ rw (l, w, open_at) v
    | inl (id, w) ↦
        rw (l, w, open_at)
          (opened-IsWellFormed fs fs.next_handle_at id fs.next_handle (bump fs.next_handle_at) v (
            Walks-lt v.store (v.handles base start l)
              ((walk_iff fs.nodes start id (parts path)).0 w)))
  ]
]

pub close-IsWellFormed :
    (fs : RamFs) (handle : FileHandle) → IsWellFormed fs → IsWellFormed (close fs handle)
unfolding close
close-IsWellFormed fs handle v = record {
  store = v.store;
  handles = AllValues-remove (InStore fs) handle fs.open_handles v.handles;
}

pub handles-longer :
    (fs : RamFs) (nodes : List Node)
    → length fs.nodes ≤ length nodes
    → AllValues (InStore fs) fs.open_handles
    → AllValues (λ id. id < length nodes) fs.open_handles
handles-longer fs nodes h v = λ handle id l. omega (arith, v handle id l)

pub handles-add_file :
    (fs : RamFs) (path content : List ℕ) → (add_file fs path content).open_handles ≡ fs.open_handles
unfolding add_file
handles-add_file fs path content = ground arith

pub add_file-IsWellFormed :
    (fs : RamFs) (path content : List ℕ) → IsWellFormed fs → IsWellFormed (add_file fs path content)
unfolding add_file
add_file-IsWellFormed fs path content v = record {
  store = store (Option-cases (split_last (parts path)));
  handles = rw (handles-add_file fs path content) (
      handles-longer fs (add_file fs path content).nodes
        (add_file-KeepsFiles fs path content v.store).longer v.handles);
}
  where
    store :
        (split_last (parts path) ≡ none)
          ⊎ ((x : List Name × Name) × (split_last (parts path) ≡ some x))
        → IsStore (add_file fs path content).nodes
    store (inl e) = rw (e, add_file) v.store
    store (inr (x, e)) = (add_file-Placed fs path content x.0 x.1 v.store e).0
