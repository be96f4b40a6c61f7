-- ===== src/Fs/RamFs/Walks.antt =====
-- Path resolution against an inductive account of it.
use sovelma_os.Prelude.{
  ◌≤◌, ◌<◌, ◌≡◌, ◌↔◌, refl, subst, List, [], ◌∷◌, ◌++◌, Option, none, some, length, get_elem?,
  arith,
}
use sovelma_os.Prelude.Maps.{BTreeMap, lookup, nat_ord}
use sovelma_os.Fs.Path.{Name, name_ord}
use sovelma_os.Fs.RamFs.{Node, file, directory, NodeId, ok, deref, walk}
use sovelma_os.Fs.RamFs.Store.{IsStore, directory_at}
use sovelma_os.Fs.RamFs.Growth.{Grows}

-- From node `i` the names lead, each through a directory, to a node.
pub data Walks (nodes : List Node) : NodeId → List Name → NodeId → Type 0 where
  stop : {i : NodeId} → Walks nodes i [] i
  enter :
      {i j child : NodeId} {name : Name} {rest : List Name} (es : BTreeMap Name NodeId)
      → get_elem? nodes i ≡ some (directory es)
      → lookup name es ≡ some child
      → Walks nodes child rest j
      → Walks nodes i (name ∷ rest) j

walk_complete :
    {nodes : List Node} {i j : NodeId} {ps : List Name}
    → Walks nodes i ps j
    → walk nodes i ps ≡ ok j
unfolding walk
walk_complete stop = refl
walk_complete (enter es at found w) = ground (arith, walk_complete w)

walk_sound :
    (nodes : List Node) (i j : NodeId) (ps : List Name)
    → walk nodes i ps ≡ ok j
    → Walks nodes i ps j
unfolding walk
walk_sound nodes i j [] h = let e : i ≡ j = ground arith in subst (Walks nodes i []) e stop
walk_sound nodes i j (name ∷ rest) h = at_node (λ c. walk_sound nodes c j rest) (deref nodes i) refl
  where
    at_child :
        (es : BTreeMap Name NodeId)
        → deref nodes i ≡ directory es
        → (o : Option NodeId) → lookup name es ≡ o
        → ((c : NodeId) → walk nodes c rest ≡ ok j → Walks nodes c rest j)
        → Walks nodes i (name ∷ rest) j
    at_child es e none l rec = absurd (ground arith)
    at_child es e (some c) l rec = enter es (directory_at nodes i es e) l (rec c (ground arith))

    at_node :
        ((c : NodeId) → walk nodes c rest ≡ ok j → Walks nodes c rest j)
        → (n : Node) → deref nodes i ≡ n
        → Walks nodes i (name ∷ rest) j
    at_node rec (file c) e = absurd (ground arith)
    at_node rec (directory es) e = at_child es e (lookup name es) refl rec

-- The loop of path resolution finds a node exactly when the names lead there.
pub walk_iff :
    (nodes : List Node) (i j : NodeId) (ps : List Name)
    → (walk nodes i ps ≡ ok j) ↔ Walks nodes i ps j
walk_iff nodes i j ps = (walk_sound nodes i j ps, walk_complete)

-- Nodes on a way are numbered upwards.
Walks-le :
    {nodes : List Node} {i j : NodeId} {ps : List Name} → IsStore nodes → Walks nodes i ps j → i ≤ j
Walks-le v stop = omega arith
Walks-le v (enter {i} {child = c} {name} es at found w) =
    omega (arith, (v.down i (directory es) at name c found).0, Walks-le v w)

-- A way ends inside the store.
pub Walks-lt :
    {nodes : List Node} {i j : NodeId} {ps : List Name}
    → IsStore nodes
    → i < length nodes
    → Walks nodes i ps j
    → j < length nodes
Walks-lt v h stop = h
Walks-lt v h (enter {i} {child = c} {name} es at found w) =
    Walks-lt v ((v.down i (directory es) at name c found).1) w

-- A way needs only the nodes before its end.
pub Walks-before :
    {nodes nodes' : List Node} {i j : NodeId} {ps : List Name}
    → IsStore nodes
    → ((k : NodeId) (n : Node) → k < j → get_elem? nodes k ≡ some n → get_elem? nodes' k ≡ some n)
    → Walks nodes i ps j
    → Walks nodes' i ps j
Walks-before v same stop = stop
Walks-before v same (enter {i} {child = c} {name} es at found w) =
    enter es
      (same i (directory es)
        (omega (arith, (v.down i (directory es) at name c found).0, Walks-le v w)) at)
      found (Walks-before v same w)

-- What could be reached stays reachable as the store grows.
pub Walks-Grows :
    {nodes nodes' : List Node} {i j : NodeId} {ps : List Name}
    → Grows nodes nodes'
    → Walks nodes i ps j
    → Walks nodes' i ps j
Walks-Grows g stop = stop
Walks-Grows g (enter {i} {child = c} {name} es at found w) =
    let (es', at', keep) = g.entries i es at in enter es' at' (keep name c found) (Walks-Grows g w)

pub Walks-append :
    {nodes : List Node} {i j k : NodeId} {ps qs : List Name}
    → Walks nodes i ps j
    → Walks nodes j qs k
    → Walks nodes i (ps ++ qs) k
Walks-append stop w = w
Walks-append (enter es at found u) w = enter es at found (Walks-append u w)
