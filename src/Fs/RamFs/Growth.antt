-- ===== src/Fs/RamFs/Growth.antt =====
-- Stores that only grow: what one store holds, the next one holds too.
use sovelma_os.Prelude.{
  ℕ, ◌≤◌, ◌≡◌, ◌∙◌, subst, true, false, ◌==◌, List, none, some, length, get_elem?, arith,
  Bool-cases, inl, inr, ◌⊎◌, get_elem?-lt,
}
use sovelma_os.Prelude.Maps.{BTreeMap, lookup, insert, nat_ord, lookup-insert}
use sovelma_os.Fs.Path.{Name, name_ord}
use sovelma_os.Fs.RamFs.{Node, file, directory, NodeId, link}
use sovelma_os.Fs.RamFs.Store.{length-link, link_self, link-other}

-- A store that holds what another held: files keep their bytes, and directories their entries.
pub record Grows (old new : List Node) : Type 0 where
  pub longer : length old ≤ length new
  pub files :
      (i : NodeId) (c : List ℕ) → get_elem? old i ≡ some (file c) → get_elem? new i ≡ some (file c)
  pub entries :
      (i : NodeId) (es : BTreeMap Name NodeId)
      → get_elem? old i ≡ some (directory es)
      → (es' : BTreeMap Name NodeId) × (get_elem? new i ≡ some (directory es'))
        × ((name : Name) (child : NodeId)
            → lookup name es ≡ some child
            → lookup name es' ≡ some child)

pub Grows-refl : (nodes : List Node) → Grows nodes nodes
Grows-refl nodes = record {
  longer = omega arith;
  files = λ i c h. h;
  entries = λ i es h. (es, h, λ name child e. e);
}

pub Grows-trans : {a b c : List Node} → Grows a b → Grows b c → Grows a c
Grows-trans {a} {b} {c} g h = record {
  longer = omega (arith, g.longer, h.longer);
  files = λ i x e. h.files i x (g.files i x e);
  entries = λ i es e.
      let (es', e', keep) = g.entries i es e in
      let (es'', e'', keep') = h.entries i es' e' in
      (es'', e'', λ name child l. keep' name child (keep name child l));
}

-- A link under an unused name loses nothing.
pub link-Grows :
    (nodes : List Node) (id : ℕ) (entries : BTreeMap Name NodeId) (name : Name) (n : Node)
    → get_elem? nodes id ≡ some (directory entries)
    → lookup name entries ≡ none
    → Grows nodes (link nodes id entries name n)
link-Grows nodes id entries name n at unused = record {
  longer = omega (arith, length-link nodes id entries name n);
  files = λ i c e.
      link-other nodes id entries name n i (get_elem?-lt nodes i (file c) e) (λ p. ground arith)
      ∙ e;
  entries = λ i es e. kept i es e (Bool-cases (id == i));
}
  where
    kept :
        (i : ℕ) (es : BTreeMap Name NodeId)
        → get_elem? nodes i ≡ some (directory es)
        → ((id == i) ≡ true) ⊎ ((id == i) ≡ false)
        → (es' : BTreeMap Name NodeId) × (get_elem? (link nodes id entries name n) i
            ≡ some (directory es'))
          × ((key : Name) (child : NodeId)
              → lookup key es ≡ some child
              → lookup key es' ≡ some child)
    kept i es e (inl same) =
        let p : id ≡ i = ground arith in
        let q : es ≡ entries = ground arith in
        (
          insert name (length nodes) entries,
          subst
              (λ k.
                get_elem? (link nodes id entries name n) k
                ≡ some (directory (insert name (length nodes) entries)))
              p (link_self nodes id entries name n (get_elem?-lt nodes id (directory entries) at)),
          λ key child l.
              ground
                (arith, lookup-insert name key (length nodes) entries, name_ord.beq_iff name key),
        )
    kept i es e (inr other) = (
      es,
      link-other nodes id entries name n i (get_elem?-lt nodes i (directory es) e)
            (λ p. ground arith)
          ∙ e,
      λ key child l. l,
    )
