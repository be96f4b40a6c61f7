-- ===== src/Fs/RamFs/Directories.antt =====
-- `mkdir_at` and `mkdir`: the new directory, and what a failure leaves alone.
use sovelma_os.Prelude.{
  ℕ, ◌+◌, ◌≡◌, ◌≢◌, refl, sym, subst, List, [], ◌∷◌, ◌++◌, Option, none, some, length, get_elem?,
  arith, inl, inr, ◌⊎◌,
}
use sovelma_os.Prelude.Maps.{BTreeMap, lookup, nat_ord}
use sovelma_os.Fs.Path.{Name, name_ord, parts, split_last}
use sovelma_os.Fs.RamFs.{
  RamFs, Node, file, directory, NodeId, Result, ok, err, deref, link, walk, base_of, make_dir,
  mkdir_at,
}
use sovelma_os.Fs.RamFs.Store.{IsStore, directory_at}
use sovelma_os.Fs.RamFs.Growth.{Grows}
use sovelma_os.Fs.RamFs.Store.{directory_at, link-IsStore, link-new}
use sovelma_os.Fs.RamFs.Growth.{link-Grows}
use sovelma_os.Fs.RamFs.Walks.{Walks, walk_iff}
use sovelma_os.Fs.RamFs.{FsError, make_dir, mkdir_at, base_of, permission_denied, invalid_handle}
use sovelma_os.Fs.RamFs.Parents.{empty_directory-PointsDown}
use sovelma_os.Fs.RamFs.Files.{link-Walks}
use sovelma_os.Fs.Path.{split_last_lem}

-- A directory was made: the names lead to a new node, which is an empty directory, and everything
-- that the store held is still there.
pub record Made (nodes nodes' : List Node) (start : NodeId) (ps : List Name) : Type 0 where
  pub store : IsStore nodes'
  pub grows : Grows nodes nodes'
  pub way : Walks nodes' start ps (length nodes)
  pub is_empty : get_elem? nodes' (length nodes) ≡ some (directory [])

-- What `mkdir_at` may do: make the directory, or fail and change nothing.
pub data MkdirOutcome (fs : RamFs) (start : NodeId) (ps : List Name)
    : Result (Unit {0}) × RamFs → Type 0 where
  made :
      (nodes' : List Node)
      → Made fs.nodes nodes' start ps
      → MkdirOutcome fs start ps (ok tt, record fs { nodes = nodes' })
  failed : (e : FsError) → MkdirOutcome fs start ps (err e, fs)

make_dir-MkdirOutcome :
    (fs : RamFs) (start parent : NodeId) (ps : List Name) (name : Name)
    → IsStore fs.nodes
    → Walks fs.nodes start ps parent
    → MkdirOutcome fs start (ps ++ name ∷ []) (make_dir fs parent name)
unfolding make_dir
make_dir-MkdirOutcome fs start parent ps name v w = at_node (deref fs.nodes parent) refl
  where
    at_entry :
        (es : BTreeMap Name NodeId)
        → deref fs.nodes parent ≡ directory es
        → (o : Option NodeId) → lookup name es ≡ o
        → MkdirOutcome fs start (ps ++ name ∷ []) (make_dir fs parent name)
    at_entry es d (some child) l = rw (d, make_dir) (rw l (failed permission_denied))
    at_entry es d none l =
        rw (d, make_dir)
          (rw l (
            made (link fs.nodes parent es name (directory [])) (record {
              store =
                  link-IsStore fs.nodes parent es name (directory []) v at
                    (empty_directory-PointsDown (length fs.nodes + 1) (length fs.nodes));
              grows = link-Grows fs.nodes parent es name (directory []) at l;
              way = link-Walks fs.nodes parent es name (directory []) v at w;
              is_empty = link-new fs.nodes parent es name (directory []);
            })))
      where
        at : get_elem? fs.nodes parent ≡ some (directory es)
        at = directory_at fs.nodes parent es d

    at_node :
        (n : Node)
        → deref fs.nodes parent ≡ n
        → MkdirOutcome fs start (ps ++ name ∷ []) (make_dir fs parent name)
    at_node (file c) d = rw (d, make_dir) (failed invalid_handle)
    at_node (directory es) d = at_entry es d (lookup name es) refl

-- Where `mkdir_at` starts: at the root for the handle 0, else at the node of the base handle. With
-- such a node, it either makes an empty directory under the path, beside everything that was
-- there, or fails and changes nothing; with an unknown base it fails and changes nothing.
pub mkdir_at-MkdirOutcome :
    (fs : RamFs) (base : ℕ) (path : List ℕ)
    → IsStore fs.nodes
    → ((start : NodeId) × (base_of fs base ≡ some start)
        × MkdirOutcome fs start (parts path) (mkdir_at fs base path))
      ⊎ ((base_of fs base ≡ none)
          × ((mkdir_at fs base path).1 ≡ fs)
          × ((mkdir_at fs base path).0 ≢ ok tt))
unfolding mkdir_at
mkdir_at-MkdirOutcome fs base path v = go (split_last (parts path)) refl (base_of fs base) refl
  where
    onward :
        (ps : List Name) (name : Name) (start : NodeId) (r : Result NodeId)
        → walk fs.nodes start ps ≡ r
        → MkdirOutcome fs start
            (ps ++ name ∷ [])
            (elim r [ err e ↦ (err e, fs) | ok parent ↦ make_dir fs parent name ])
    onward ps name start (err e) w = failed e
    onward ps name start (ok parent) w =
        make_dir-MkdirOutcome fs start parent ps name v ((walk_iff fs.nodes start parent ps).0 w)

    go :
        (x : Option (List Name × Name))
        → split_last (parts path) ≡ x
        → (b : Option NodeId) → base_of fs base ≡ b
        → ((start : NodeId) × (base_of fs base ≡ some start)
            × MkdirOutcome fs start (parts path) (mkdir_at fs base path))
          ⊎ ((base_of fs base ≡ none)
              × ((mkdir_at fs base path).1 ≡ fs)
              × ((mkdir_at fs base path).0 ≢ ok tt))
    go none e none b = inr (b, ground arith, ground arith)
    go none e (some start) b = inl (start, b, rw (e, mkdir_at) (failed permission_denied))
    go (some x) e none b = inr (b, ground arith, ground arith)
    go (some x) e (some start) b = inl (
      start,
      b,
      subst (λ qs. MkdirOutcome fs start qs (mkdir_at fs base path))
          (sym (split_last_lem (parts path) x.0 x.1 e))
          (rw (e, mkdir_at) (rw b (onward x.0 x.1 start (walk fs.nodes start x.0) refl))),
    )
