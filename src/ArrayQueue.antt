-- ===== src/ArrayQueue.antt =====
-- `crossbeam_queue::ArrayQueue`, a bounded queue that the kernel takes from a third-party crate:
-- its operations with the behaviour that the crate documents, as a parameter of the modules that
-- use it, and a list that meets this interface.
use sovelma_os.Prelude.{
  ℕ, ◌≤◌, ◌<◌, ◌≡◌, refl, ltb, List, [], ◌∷◌, ◌++◌, Option, none, some, length, arith,
  if◌then◌else◌, ◌⊎◌, inl, inr, ◌∙◌, ap, sym,
}

pub record ArrayQueue (A : Type 0) : Type 1 where
  pub Queue : Type 0
  pub new : ℕ → Queue
  -- `none` is the `Err` of a full queue.
  pub push : Queue → A → Option Queue
  pub pop : Queue → Option (A × Queue)
  -- The queued items, oldest first, and the capacity that the queue was made with.
  pub items : Queue → List A
  pub capacity : Queue → ℕ
  pub items-new : (n : ℕ) → items (new n) ≡ []
  pub capacity-new : (n : ℕ) → capacity (new n) ≡ n
  pub push_full : (q : Queue) (a : A) → capacity q ≤ length (items q) → push q a ≡ none
  pub push_room :
      (q : Queue) (a : A)
      → length (items q) < capacity q
      → (q' : Queue) × (push q a ≡ some q')
        × (items q' ≡ items q ++ a ∷ [])
        × (capacity q' ≡ capacity q)
  pub pop_empty : (q : Queue) → items q ≡ [] → pop q ≡ none
  pub pop_front :
      (q : Queue) (a : A) (rest : List A)
      → items q ≡ a ∷ rest
      → (q' : Queue) × (pop q ≡ some (a, q')) × (items q' ≡ rest) × (capacity q' ≡ capacity q)

-- A bounded list with the queue's operations.
pub record Bounded (A : Type 0) : Type 0 where
  pub contents : List A
  pub bound : ℕ

module _ {A : Type 0} where
  abbrev pub bounded_push : Bounded A → A → Option (Bounded A)
  bounded_push q a =
      if ltb (length q.contents) q.bound
      then some (record q { contents = q.contents ++ a ∷ [] })
      else none

  abbrev pub bounded_pop : Bounded A → Option (A × Bounded A)
  bounded_pop q = elim q.contents [ [] ↦ none | a ∷ rest ↦ some (a, record q { contents = rest }) ]

  pub bounded_push_full :
      (q : Bounded A) (a : A) → q.bound ≤ length q.contents → bounded_push q a ≡ none
  bounded_push_full q a h = ground arith

  pub bounded_push_room :
      (q : Bounded A) (a : A)
      → length q.contents < q.bound
      → (q' : Bounded A) × (bounded_push q a ≡ some q')
        × (q'.contents ≡ q.contents ++ a ∷ [])
        × (q'.bound ≡ q.bound)
  bounded_push_room q a h = (record q { contents = q.contents ++ a ∷ [] }, ground arith, refl, refl)

  pub bounded_pop_empty : (q : Bounded A) → q.contents ≡ [] → bounded_pop q ≡ none
  bounded_pop_empty q h = ground arith

  pub bounded_pop_front :
      (q : Bounded A) (a : A) (rest : List A)
      → q.contents ≡ a ∷ rest
      → (q' : Bounded A) × (bounded_pop q ≡ some (a, q'))
        × (q'.contents ≡ rest)
        × (q'.bound ≡ q.bound)
  bounded_pop_front q a rest h = (record q { contents = rest }, ground arith, refl, refl)

abbrev pub list_queue : (A : Type 0) → ArrayQueue A
list_queue A = record {
  Queue = Bounded A;
  new = λ n. record { contents = []; bound = n };
  push = bounded_push;
  pop = bounded_pop;
  items = λ q. q.contents;
  capacity = λ q. q.bound;
  items-new = λ n. refl;
  capacity-new = λ n. refl;
  push_full = bounded_push_full;
  push_room = bounded_push_room;
  pop_empty = bounded_pop_empty;
  pop_front = bounded_pop_front;
}

module _ {A : Type 0} (crate : ArrayQueue A) where
  open crate use {Queue, push, pop, items}

  -- `let _ = queue.push(a)`: a full queue drops the item.
  unfoldable pub push_or_drop : Queue → A → Queue
  push_or_drop q a = elim (push q a) [ none ↦ q | some q' ↦ q' ]

  pub items-push_or_drop :
      (q : Queue) (a : A)
      → items (push_or_drop q a)
        ≡ (if ltb (length (items q)) (crate.capacity q) then items q ++ a ∷ [] else items q)
  unfolding push_or_drop
  items-push_or_drop q a = ground (arith, crate.push_full q a, crate.push_room q a)

  pub capacity-push_or_drop :
      (q : Queue) (a : A) → crate.capacity (push_or_drop q a) ≡ crate.capacity q
  unfolding push_or_drop
  capacity-push_or_drop q a = ground (arith, crate.push_full q a, crate.push_room q a)

  -- Either the queue was empty, or its oldest item came out and the others stay.
  abbrev pub PopsOldest : Queue → Option (A × Queue) → Type 0
  PopsOldest q r =
      ((r ≡ none) × (items q ≡ []))
      ⊎ ((a : A) × (q' : Queue) × (r ≡ some (a, q'))
          × (items q ≡ a ∷ items q')
          × (crate.capacity q' ≡ crate.capacity q))

  pops_oldest : (q : Queue) (l : List A) → items q ≡ l → PopsOldest q (pop q)
  pops_oldest q [] e = inl (crate.pop_empty q e, e)
  pops_oldest q (a ∷ rest) e =
      let (q', p, i, c) = crate.pop_front q a rest e in inr (a, q', p, e ∙ ap (◌∷◌ a) (sym i), c)

  pub pop-PopsOldest : (q : Queue) → PopsOldest q (pop q)
  pop-PopsOldest q = pops_oldest q (items q) refl
