-- ===== src/Fs/RamFs/Files.antt =====
-- `add_file`: where the file ends up, and reading it back.
use sovelma_os.Prelude.{
  append-nil, ℕ, ◌+◌, ap, ltb, if◌then◌else◌, ◌≤◌, ◌<◌, ◌≡◌, refl, sym, ◌∙◌, subst, List, [], ◌∷◌,
  ◌++◌, Option, none, some, length, get_elem?, arith, Option-cases, inl, inr, ◌⊎◌, get_elem?-lt,
  get_elem?-total,
}
use sovelma_os.Prelude.Maps.{BTreeMap, insert, nat_ord, lookup-insert_self}
use sovelma_os.Fs.Path.{Name, name_ord, parts, split_last}
use sovelma_os.Fs.RamFs.{
  RamFs, Node, file, directory, NodeId, ok, root, deref, link, make_parents, put_file, add_file,
  open_path,
}
use sovelma_os.Fs.RamFs.Store.{IsStore, directory_at}
use sovelma_os.Fs.RamFs.Growth.{Grows}
use sovelma_os.Fs.RamFs.Store.{link-IsStore, length-link, link-new, link_self, link-other}
use sovelma_os.Fs.RamFs.Walks.{Walks, stop, enter, walk_iff, Walks-lt, Walks-before, Walks-append}
use sovelma_os.Fs.Path.{split_last_lem}
use sovelma_os.Fs.RamFs.{read, read_slice}
use sovelma_os.Fs.RamFs.Reading.{get_elem?-read_slice}
use sovelma_os.Fs.RamFs.Parents.{Parents, Outcome, IsBlocked, make_parents-Parents}

-- Replacing or adding an entry of a directory keeps the way to that directory.
pub link-Walks :
    (nodes : List Node) (j : NodeId) (es : BTreeMap Name NodeId) (name : Name) (n : Node)
    {i : NodeId} {ps : List Name}
    → IsStore nodes
    → get_elem? nodes j ≡ some (directory es)
    → Walks nodes i ps j
    → Walks (link nodes j es name n) i (ps ++ name ∷ []) (length nodes)
link-Walks nodes j es name n v at w =
    Walks-append
      (Walks-before v
        (λ k m lt e.
          link-other nodes j es name n k (get_elem?-lt nodes k m e) (λ p. omega arith) ∙ e)
        w)
      (enter (insert name (length nodes) es)
        (link_self nodes j es name n (get_elem?-lt nodes j (directory es) at))
        (lookup-insert_self name (length nodes) es) stop)

-- Where a file was put: under its path there is now a new node with its content, unless in the
-- store before a file stood on the way, and then the loop over the parents was all that happened.
pub data Placed (old nodes : List Node) (ps : List Name) (name : Name) (content : List ℕ)
    : Type 0 where
  placed :
      (id : NodeId)
      → Walks nodes root (ps ++ name ∷ []) id
      → get_elem? nodes id ≡ some (file content)
      → Placed old nodes ps name content
  refused : IsBlocked old root ps → Placed old nodes ps name content

put_file-Placed :
    (nodes : List Node) (ps : List Name) (name : Name) (content : List ℕ)
    (r : Option NodeId × List Node)
    → 0 < length nodes
    → Parents nodes root ps r
    → IsStore (put_file r name content) × Placed nodes (put_file r name content) ps name content
unfolding put_file
put_file-Placed nodes ps name content (none, nodes') lt p = (p.store, go p.outcome)
  where
    go : Outcome nodes root ps (none, nodes') → Placed nodes nodes' ps name content
    go (inl (e, b)) = refused b
    go (inr (j, e, w, end)) = absurd (ground arith)
put_file-Placed nodes ps name content (some id, nodes') lt p = go p.outcome
  where
    at_file :
        (c : List ℕ)
        → Walks nodes' root ps id
        → get_elem? nodes' id ≡ some (file c)
        → (nodes' ≡ nodes) ⊎ (get_elem? nodes' id ≡ some (directory []))
        → IsBlocked nodes root ps
    at_file c w at (inr empty) = absurd (ground arith)
    at_file c w at (inl same) = record {
      front = ps;
      rest = [];
      at = id;
      content = c;
      split = sym (append-nil ps);
      way = subst (λ ns. Walks ns root ps id) same w;
      is_file = subst (λ ns. get_elem? ns id ≡ some (file c)) same at;
    }

    at_node :
        Walks nodes' root ps id
        → (nodes' ≡ nodes) ⊎ (get_elem? nodes' id ≡ some (directory []))
        → (n : Node) → get_elem? nodes' id ≡ some n
        → IsStore (put_file (some id, nodes') name content)
          × Placed nodes (put_file (some id, nodes') name content) ps name content
    at_node w end (file c) at = rw (at, put_file) (p.store, refused (at_file c w at end))
    at_node w end (directory es) at =
        rw (at, put_file)
          (
            link-IsStore nodes' id es name (file content) p.store at tt,
            placed (length nodes') (link-Walks nodes' id es name (file content) p.store at w)
                (link-new nodes' id es name (file content)),
          )

    go :
        Outcome nodes root ps (some id, nodes')
        → IsStore (put_file (some id, nodes') name content)
          × Placed nodes (put_file (some id, nodes') name content) ps name content
    go (inl (e, b)) = absurd (ground arith)
    go (inr (j, e, w, end)) =
        let same : j ≡ id = ground arith in
        let w' : Walks nodes' root ps id = subst (Walks nodes' root ps) same w in
        let (n, at) =
          get_elem?-total nodes' id (Walks-lt p.store (omega (arith, p.grows.longer)) w') in
        at_node w'
          (subst (λ k. (nodes' ≡ nodes) ⊎ (get_elem? nodes' k ≡ some (directory []))) same end) n at

-- A store in which every file is as it was.
pub record KeepsFiles (old new : List Node) : Type 0 where
  pub longer : length old ≤ length new
  pub files :
      (i : NodeId) (c : List ℕ) → get_elem? old i ≡ some (file c) → get_elem? new i ≡ some (file c)

put_file-KeepsFiles :
    (nodes : List Node) (name : Name) (content : List ℕ) (r : Option NodeId × List Node)
    → Grows nodes r.1
    → KeepsFiles nodes (put_file r name content)
unfolding put_file
put_file-KeepsFiles nodes name content (none, nodes') g = record {
  longer = g.longer;
  files = g.files;
}
put_file-KeepsFiles nodes name content (some id, nodes') g = at_node (deref nodes' id) refl
  where
    at_node :
        (n : Node)
        → deref nodes' id ≡ n
        → KeepsFiles nodes (put_file (some id, nodes') name content)
    at_node (file c) e = rw (e, put_file) (record { longer = g.longer; files = g.files })
    at_node (directory es) e =
        rw (e, put_file)
          (record {
            longer = omega (arith, g.longer, length-link nodes' id es name (file content));
            files = λ i c at.
                let at' = g.files i c at in
                link-other nodes' id es name (file content) i (get_elem?-lt nodes' i (file c) at')
                  (λ p. ground (arith, directory_at nodes' id es e))
                ∙ at';
          })

pub add_file-KeepsFiles :
    (fs : RamFs) (path content : List ℕ)
    → IsStore fs.nodes
    → KeepsFiles fs.nodes (add_file fs path content).nodes
unfolding add_file
add_file-KeepsFiles fs path content v = elim (Option-cases (split_last (parts path))) [
  | inl e ↦ rw (e, add_file) (record { longer = omega arith; files = λ i c h. h })
  | inr (x, e) ↦
      let (es, at) = v.rooted in
      rw (e, add_file)
        (put_file-KeepsFiles fs.nodes x.1 content (make_parents x.0 root fs.nodes)
          (make_parents-Parents x.0 root fs.nodes v
            (get_elem?-lt fs.nodes root (directory es) at)).grows)
]

-- What `add_file` does to a well-formed store, by the components of the path.
pub add_file-Placed :
    (fs : RamFs) (path content : List ℕ) (ps : List Name) (name : Name)
    → IsStore fs.nodes
    → split_last (parts path) ≡ some (ps, name)
    → let fs' = add_file fs path content in
      IsStore fs'.nodes × Placed fs.nodes fs'.nodes ps name content
unfolding add_file
add_file-Placed fs path content ps name v e =
    let (es, at) = v.rooted in
    let lt : 0 < length fs.nodes = get_elem?-lt fs.nodes root (directory es) at in
    rw (e, add_file)
      (put_file-Placed fs.nodes ps name content (make_parents ps root fs.nodes) lt
        (make_parents-Parents ps root fs.nodes v lt))

-- A path that leads to a file opens, and the new handle reads that file.
pub read-open_path :
    (fs : RamFs) (path content : List ℕ) (id : NodeId) (len offset : ℕ)
    → Walks fs.nodes root (parts path) id
    → get_elem? fs.nodes id ≡ some (file content)
    → let (r, fs') = open_path fs path in
      (r ≡ ok fs.next_handle)
      × (read fs' fs.next_handle len offset ≡ ok (read_slice content len offset))
unfolding open_path read
read-open_path fs path content id len offset w at = ground (
  arith,
  (walk_iff fs.nodes root id (parts path)).1 w,
  lookup-insert_self fs.next_handle id fs.open_handles,
)

next_handle-add_file :
    (fs : RamFs) (path content : List ℕ) → (add_file fs path content).next_handle ≡ fs.next_handle
unfolding add_file
next_handle-add_file fs path content = ground arith

-- A file that was added can be read back. Whatever a well-formed file system held, after `add_file`
-- of a path with at least one component either a file stood in the way of its parents before, or
-- opening the path succeeds with the next handle, and a read of any length at any offset through that
-- handle succeeds: the byte that it puts at a position of the buffer below the length is the byte
-- that the new content has that far past the offset, and past the end of the content there is none.
pub read-open_path-add_file :
    (fs : RamFs) (path content : List ℕ) (ps : List Name) (name : Name) (len offset : ℕ)
    → IsStore fs.nodes
    → split_last (parts path) ≡ some (ps, name)
    → let (r, fs'') = open_path (add_file fs path content) path in
      IsBlocked fs.nodes root ps
      ⊎ ((r ≡ ok fs.next_handle)
          × (bytes : List ℕ) × (read fs'' fs.next_handle len offset ≡ ok bytes)
          × ((i : ℕ)
              → get_elem? bytes i ≡ (if ltb i len then get_elem? content (offset + i) else none)))
read-open_path-add_file fs path content ps name len offset v e =
    go (add_file-Placed fs path content ps name v e).1
  where
    fs' : RamFs
    fs' = add_file fs path content

    go :
        Placed fs.nodes fs'.nodes ps name content
        → IsBlocked fs.nodes root ps
          ⊎ (((open_path fs' path).0 ≡ ok fs.next_handle)
              × (bytes : List ℕ) × (read (open_path fs' path).1 fs.next_handle len offset
                  ≡ ok bytes)
              × ((i : ℕ)
                  → get_elem? bytes i
                    ≡ (if ltb i len then get_elem? content (offset + i) else none)))
    go (refused b) = inl b
    go (placed id w at) =
        let opened =
          read-open_path fs' path content id len offset
            (subst (λ qs. Walks fs'.nodes root qs id) (sym (split_last_lem (parts path) ps name e))
              w)
            at in
        let same = next_handle-add_file fs path content in
        inr (
          opened.0 ∙ ap ok same,
          read_slice content len offset,
          subst (λ h. read (open_path fs' path).1 h len offset ≡ ok (read_slice content len offset))
              same opened.1,
          get_elem?-read_slice content len offset,
        )
