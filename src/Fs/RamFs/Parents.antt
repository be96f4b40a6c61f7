-- ===== src/Fs/RamFs/Parents.antt =====
-- The loop of `add_file` over the parent components: the directories that it makes on the way.
use sovelma_os.Prelude.{
  ℕ, ◌+◌, ◌<◌, ◌≡◌, refl, sym, subst, ap, List, [], ◌∷◌, ◌++◌, Option, none, some, length,
  get_elem?, arith, inl, inr, ◌⊎◌, get_elem?-total,
}
use sovelma_os.Prelude.Maps.{BTreeMap, lookup, insert, nat_ord, lookup-insert_self}
use sovelma_os.Fs.Path.{Name, name_ord}
use sovelma_os.Fs.RamFs.{Node, file, directory, NodeId, link, enter_or_create, make_parents}
use sovelma_os.Fs.RamFs.Store.{IsStore}
use sovelma_os.Fs.RamFs.Growth.{Grows}
use sovelma_os.Fs.RamFs.Store.{PointsDown, link-IsStore, length-link, link_self, link-new}
use sovelma_os.Fs.RamFs.Growth.{Grows-refl, Grows-trans, link-Grows}
use sovelma_os.Fs.RamFs.Walks.{Walks, stop, enter}

pub empty_directory-PointsDown : (n i : ℕ) → PointsDown n i (directory [])
unfolding lookup
empty_directory-PointsDown n i = λ name child e. absurd (ground arith)

-- What one step of `add_file` down to a child may find.
pub data Entered (nodes : List Node) (i : NodeId) (name : Name)
    : Option (NodeId × List Node) → Type 0 where
  blocked : (c : List ℕ) → get_elem? nodes i ≡ some (file c) → Entered nodes i name none
  found :
      (es : BTreeMap Name NodeId) (child : NodeId)
      → get_elem? nodes i ≡ some (directory es)
      → lookup name es ≡ some child
      → Entered nodes i name (some (child, nodes))
  created :
      (es : BTreeMap Name NodeId)
      → get_elem? nodes i ≡ some (directory es)
      → lookup name es ≡ none
      → Entered nodes i name (some (length nodes, link nodes i es name (directory [])))

enter_or_create-Entered :
    (nodes : List Node) (i : NodeId) (name : Name)
    → i < length nodes
    → Entered nodes i name (enter_or_create nodes i name)
unfolding enter_or_create
enter_or_create-Entered nodes i name lt = let (n, at) = get_elem?-total nodes i lt in at_node n at
  where
    at_entry :
        (es : BTreeMap Name NodeId) (o : Option NodeId)
        → get_elem? nodes i ≡ some (directory es)
        → lookup name es ≡ o
        → Entered nodes i name (elim o [
          | some child ↦ some (child, nodes)
          | none ↦ some (length nodes, link nodes i es name (directory []))
        ])
    at_entry es none at l = created es at l
    at_entry es (some child) at l = found es child at l

    at_node :
        (n : Node)
        → get_elem? nodes i ≡ some n
        → Entered nodes i name (enter_or_create nodes i name)
    at_node (file c) at = rw (at, enter_or_create) (blocked c at)
    at_node (directory es) at = rw (at, enter_or_create) (at_entry es (lookup name es) at refl)

-- Some node on the way is a file, so that the way cannot go on.
pub record IsBlocked (nodes : List Node) (i : NodeId) (ps : List Name) : Type 0 where
  pub front : List Name
  pub rest : List Name
  pub at : NodeId
  pub content : List ℕ
  pub split : ps ≡ front ++ rest
  pub way : Walks nodes i front at
  pub is_file : get_elem? nodes at ≡ some (file content)

-- The loop stopped at a file that stood on the way before, or the names now lead to its end; the
-- loop has changed nothing then, or the end is a directory that it has made.
abbrev pub Outcome : List Node → NodeId → List Name → Option NodeId × List Node → Type 0
Outcome nodes i ps r =
    ((r.0 ≡ none) × IsBlocked nodes i ps)
    ⊎ ((j : NodeId) × (r.0 ≡ some j)
        × Walks r.1 i ps j
        × ((r.1 ≡ nodes) ⊎ (get_elem? r.1 j ≡ some (directory []))))

-- Nothing lies below an empty directory.
Walks-empty :
    {nodes : List Node} {i j : NodeId} {ps : List Name}
    → get_elem? nodes i ≡ some (directory [])
    → Walks nodes i ps j
    → j ≡ i
unfolding lookup
Walks-empty at stop = refl
Walks-empty at (enter es at' below w) = absurd (ground arith)

-- What the loop over the parents leaves: a well-formed store that has only grown.
pub record Parents (nodes : List Node) (i : NodeId) (ps : List Name) (r : Option NodeId × List Node)
    : Type 0 where
  pub store : IsStore r.1
  pub grows : Grows nodes r.1
  pub outcome : Outcome nodes i ps r

IsBlocked-enter :
    {nodes : List Node} {i child : NodeId} {name : Name} {rest : List Name}
    (es : BTreeMap Name NodeId)
    → get_elem? nodes i ≡ some (directory es)
    → lookup name es ≡ some child
    → IsBlocked nodes child rest
    → IsBlocked nodes i (name ∷ rest)
IsBlocked-enter {name = name} es at l b = record {
  front = name ∷ b.front;
  rest = b.rest;
  at = b.at;
  content = b.content;
  split = ap (◌∷◌ name) b.split;
  way = enter es at l b.way;
  is_file = b.is_file;
}

-- One round of the loop over the parents, from what the rest of the loop leaves.
Parents-step :
    (name : Name) (rest : List Name) (i : NodeId) (nodes : List Node)
    → IsStore nodes
    → i < length nodes
    → ((j : NodeId) (nodes' : List Node)
        → IsStore nodes'
        → j < length nodes'
        → Parents nodes' j rest (make_parents rest j nodes'))
    → (r : Option (NodeId × List Node)) → Entered nodes i name r
    → Parents nodes i
        (name ∷ rest)
        (elim r [ none ↦ (none, nodes) | some (child, nodes') ↦ make_parents rest child nodes' ])
Parents-step name rest i nodes v lt onward none (blocked c at) = record {
  store = v;
  grows = Grows-refl nodes;
  outcome = inl (
    refl,
    record {
      front = [];
      rest = name ∷ rest;
      at = i;
      content = c;
      split = refl;
      way = stop;
      is_file = at;
    },
  );
}
Parents-step name rest i nodes v lt onward (some r) (found es child at l) = record {
  store = p.store;
  grows = p.grows;
  outcome = outcome p.outcome;
}
  where
    p : Parents nodes child rest (make_parents rest child nodes)
    p = onward child nodes v ((v.down i (directory es) at name child l).1)

    outcome :
        Outcome nodes child rest (make_parents rest child nodes)
        → Outcome nodes i (name ∷ rest) (make_parents rest child nodes)
    outcome (inl (e, b)) = inl (e, IsBlocked-enter es at l b)
    outcome (inr (j, e, w, end)) =
        let (es', at', keep) = p.grows.entries i es at in
        inr (j, e, enter es' at' (keep name child l) w, end)
Parents-step name rest i nodes v lt onward (some r) (created es at l) = record {
  store = p.store;
  grows = Grows-trans (link-Grows nodes i es name (directory []) at l) p.grows;
  outcome = outcome p.outcome;
}
  where
    nodes' : List Node
    nodes' = link nodes i es name (directory [])

    fresh : get_elem? nodes' (length nodes) ≡ some (directory [])
    fresh = link-new nodes i es name (directory [])

    p : Parents nodes' (length nodes) rest (make_parents rest (length nodes) nodes')
    p =
        onward (length nodes) nodes'
          (link-IsStore nodes i es name (directory []) v at
            (empty_directory-PointsDown (length nodes + 1) (length nodes)))
          (omega (arith, length-link nodes i es name (directory [])))

    entered :
        (es' : BTreeMap Name NodeId) × (get_elem? (make_parents rest (length nodes) nodes').1 i
          ≡ some (directory es'))
        × (lookup name es' ≡ some (length nodes))
    entered =
        let (es', at', keep) =
          p.grows.entries i (insert name (length nodes) es)
            (link_self nodes i es name (directory []) lt) in
        (es', at', keep name (length nodes) (lookup-insert_self name (length nodes) es))

    outcome :
        Outcome nodes' (length nodes) rest (make_parents rest (length nodes) nodes')
        → Outcome nodes i (name ∷ rest) (make_parents rest (length nodes) nodes')
    outcome (inl (e, b)) = absurd (ground (arith, fresh, Walks-empty fresh b.way, b.is_file))
    outcome (inr (j, e, w, inl same)) =
        let (es', at', l') = entered in
        let at_end : j ≡ length nodes =
          Walks-empty
            (subst (λ ns. get_elem? ns (length nodes) ≡ some (directory [])) (sym same) fresh) w in
        inr (j, e, enter es' at' l' w, inr (ground (arith, same, fresh, at_end)))
    outcome (inr (j, e, w, inr empty)) =
        let (es', at', l') = entered in inr (j, e, enter es' at' l' w, inr empty)

pub make_parents-Parents :
    (ps : List Name) (i : NodeId) (nodes : List Node)
    → IsStore nodes
    → i < length nodes
    → Parents nodes i ps (make_parents ps i nodes)
unfolding make_parents
make_parents-Parents [] i nodes v lt = record {
  store = v;
  grows = Grows-refl nodes;
  outcome = inr (i, refl, stop, inl refl);
}
make_parents-Parents (name ∷ rest) i nodes v lt =
    Parents-step name rest i nodes v lt (make_parents-Parents rest) (enter_or_create nodes i name)
      (enter_or_create-Entered nodes i name lt)
