-- ===== src/Fs/RamFs/Store.antt =====
-- The store of nodes: what links point to, and what linking a new node does to it.
use sovelma_os.Prelude.{
  ℕ, ◌+◌, ◌≤◌, ◌<◌, ◌≡◌, ◌≢◌, sym, ◌∙◌, subst, true, false, ◌==◌, List, [], ◌∷◌, some, length,
  get_elem?, set, arith, Bool-cases, inl, inr, ◌⊎◌, length-append, length-set, get_elem?-set_self,
  get_elem?-set_ne, get_elem?-lt, get_elem?-append_left, get_elem?-append_last,
}
use sovelma_os.Prelude.Maps.{BTreeMap, insert, nat_ord, AllValues, AllValues-insert}
use sovelma_os.Fs.Path.{Name, name_ord}
use sovelma_os.Fs.RamFs.{Node, file, directory, NodeId, root, new, deref, link}

-- The entries of a directory point to later nodes of the store.
abbrev pub PointsDown : ℕ → ℕ → Node → Type 0
PointsDown n i (file content) = Unit
PointsDown n i (directory entries) = AllValues (λ child. (i < child) × (child < n)) entries

-- The root exists and every directory points down: so the nodes form a finite forest, no path is
-- a cycle, and no entry dangles.
pub record IsStore (nodes : List Node) : Type 0 where
  pub rooted : (entries : BTreeMap Name NodeId) × (get_elem? nodes root ≡ some (directory entries))
  pub down : (i : ℕ) (n : Node) → get_elem? nodes i ≡ some n → PointsDown (length nodes) i n

pub deref_lem :
    (nodes : List Node) (id : ℕ) (n : Node) → get_elem? nodes id ≡ some n → deref nodes id ≡ n
deref_lem nodes id n h = ground arith

-- What a directory's node is, from its contents.
pub directory_at :
    (nodes : List Node) (id : ℕ) (entries : BTreeMap Name NodeId)
    → deref nodes id ≡ directory entries
    → get_elem? nodes id ≡ some (directory entries)
directory_at nodes id entries h = ground arith

module _ (nodes : List Node) (id : ℕ) (entries : BTreeMap Name NodeId) (name : Name)
    (n : Node) where
  pub length-link : length (link nodes id entries name n) ≡ length nodes + 1
  length-link = omega (
    arith,
    length-append (set nodes id (directory (insert name (length nodes) entries))) (n ∷ []),
    length-set nodes id (directory (insert name (length nodes) entries)),
  )

  -- A link adds the new node, changes its directory, and leaves every other node alone.
  pub link-new : get_elem? (link nodes id entries name n) (length nodes) ≡ some n
  link-new =
      subst (λ k. get_elem? (link nodes id entries name n) k ≡ some n)
        (length-set nodes id (directory (insert name (length nodes) entries)))
        (get_elem?-append_last (set nodes id (directory (insert name (length nodes) entries))) n)

  link-old :
      (j : ℕ)
      → j < length nodes
      → get_elem? (link nodes id entries name n) j
        ≡ get_elem? (set nodes id (directory (insert name (length nodes) entries))) j
  link-old j h =
      get_elem?-append_left (set nodes id (directory (insert name (length nodes) entries))) (n ∷ [])
        j (omega (arith, length-set nodes id (directory (insert name (length nodes) entries))))

  pub link_self :
      id < length nodes
      → get_elem? (link nodes id entries name n) id
        ≡ some (directory (insert name (length nodes) entries))
  link_self h =
      link-old id h ∙ get_elem?-set_self nodes id (directory (insert name (length nodes) entries)) h

  pub link-other :
      (j : ℕ)
      → j < length nodes
      → id ≢ j
      → get_elem? (link nodes id entries name n) j ≡ get_elem? nodes j
  link-other j h apart =
      link-old j h
      ∙ get_elem?-set_ne nodes id j (directory (insert name (length nodes) entries)) apart

  -- Every node of the new store is the new one, the changed directory, or an old one.
  link-cases :
      (j : ℕ) (m : Node)
      → id < length nodes
      → get_elem? (link nodes id entries name n) j ≡ some m
      → ((j ≡ length nodes) × (m ≡ n))
        ⊎ ((j ≡ id) × (m ≡ directory (insert name (length nodes) entries)))
        ⊎ (get_elem? nodes j ≡ some m)
  link-cases j m h e = elim (Bool-cases (j == length nodes)) [
    | inl new ↦ let at : j ≡ length nodes = ground arith in inl (at, ground (arith, link-new))
    | inr old ↦
        let lt : j < length nodes =
          ground (arith, length-link, get_elem?-lt (link nodes id entries name n) j m e) in
        elim (Bool-cases (id == j)) [
          | inl same ↦
              let at : id ≡ j = ground arith in inr (inl (sym at, ground (arith, link_self h)))
          | inr other ↦ inr (inr (sym (link-other j lt (λ p. ground arith)) ∙ e))
        ]
  ]

PointsDown-mono : (n m i : ℕ) (x : Node) → n ≤ m → PointsDown n i x → PointsDown m i x
PointsDown-mono n m i (file content) h p = tt
PointsDown-mono n m i (directory entries) h p =
    λ name child e. let (a, b) = p name child e in (a, omega arith)

-- Linking a file or an empty directory keeps the store well formed.
pub link-IsStore :
    (nodes : List Node) (id : ℕ) (entries : BTreeMap Name NodeId) (name : Name) (n : Node)
    → IsStore nodes
    → get_elem? nodes id ≡ some (directory entries)
    → PointsDown (length nodes + 1) (length nodes) n
    → IsStore (link nodes id entries name n)
link-IsStore nodes id entries name n v at fine = record {
  rooted = root_at (Bool-cases (id == root));
  down = λ j m e. down_at j m (link-cases nodes id entries name n j m here e);
}
  where
    here : id < length nodes
    here = get_elem?-lt nodes id (directory entries) at

    grown : length nodes ≤ length (link nodes id entries name n)
    grown = omega (arith, length-link nodes id entries name n)

    root_at :
        ((id == root) ≡ true) ⊎ ((id == root) ≡ false)
        → (es : BTreeMap Name NodeId) × (get_elem? (link nodes id entries name n) root
            ≡ some (directory es))
    root_at (inl e) =
        let same : id ≡ root = ground arith in
        (
          insert name (length nodes) entries,
          subst
              (λ k.
                get_elem? (link nodes id entries name n) k
                ≡ some (directory (insert name (length nodes) entries)))
              same (link_self nodes id entries name n here),
        )
    root_at (inr e) =
        let (es, r) = v.rooted in
        (
          es,
          link-other nodes id entries name n root (get_elem?-lt nodes root (directory es) r)
                (λ p. ground arith)
              ∙ r,
        )

    down_at :
        (j : ℕ) (m : Node)
        → ((j ≡ length nodes) × (m ≡ n))
          ⊎ ((j ≡ id) × (m ≡ directory (insert name (length nodes) entries)))
          ⊎ (get_elem? nodes j ≡ some m)
        → PointsDown (length (link nodes id entries name n)) j m
    down_at j m (inl (ej, em)) = rw (ej, em, length-link nodes id entries name n) fine
    down_at j m (inr (inl (ej, em))) =
        rw (ej, em)
          (AllValues-insert
            (λ child. (id < child) × (child < length (link nodes id entries name n))) name
            (length nodes) entries (here, omega (arith, length-link nodes id entries name n))
            (PointsDown-mono (length nodes) (length (link nodes id entries name n)) id
              (directory entries) grown (v.down id (directory entries) at)))
    down_at j m (inr (inr e)) =
        PointsDown-mono (length nodes) (length (link nodes id entries name n)) j m grown
          (v.down j m e)
