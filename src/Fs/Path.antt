-- ===== src/Fs/Path.antt =====
-- Paths as the file system cuts them up: `path.split('/').filter(|s| !s.is_empty())`, over the
-- bytes of the path.
use sovelma_os.Prelude.{
  ℕ, ◌≡◌, refl, ◌↔◌, Bool, true, false, ◌&&◌, ◌||◌, ◌==◌, ltb, List, [], ◌∷◌, ◌++◌, Option, none,
  some, is_empty, arith, if◌then◌else◌, Option-cases, inl, inr,
}
use sovelma_os.Prelude.Maps.{Ord}

-- A name is the list of its bytes.
abbrev pub Name : Type 0
Name = List ℕ

-- Equality and order of strings: byte by byte.
unfoldable pub Name-beq : Name → Name → Bool
Name-beq [] [] = true
Name-beq [] (b ∷ bs) = false
Name-beq (a ∷ as') [] = false
Name-beq (a ∷ as') (b ∷ bs) = a == b && Name-beq as' bs

unfoldable pub Name-blt : Name → Name → Bool
Name-blt [] [] = false
Name-blt [] (b ∷ bs) = true
Name-blt (a ∷ as') [] = false
Name-blt (a ∷ as') (b ∷ bs) = ltb a b || (a == b && Name-blt as' bs)

Name-beq_sound : (a b : Name) → Name-beq a b ≡ true → a ≡ b
unfolding Name-beq
Name-beq_sound [] [] h = refl
Name-beq_sound [] (b ∷ bs) h = cc
Name-beq_sound (a ∷ as') [] h = cc
Name-beq_sound (a ∷ as') (b ∷ bs) h = ground (arith, Name-beq_sound as' bs)

Name-beq_refl : (a : Name) → Name-beq a a ≡ true
unfolding Name-beq
Name-beq_refl [] = refl
Name-beq_refl (a ∷ as') = ground (arith, Name-beq_refl as')

pub Name-beq_iff : (a b : Name) → (Name-beq a b ≡ true) ↔ (a ≡ b)
Name-beq_iff a b = (Name-beq_sound a b, λ e. rw (← e) (Name-beq_refl a))

instance abbrev pub name_ord : Ord Name
name_ord = record { beq = Name-beq; blt = Name-blt; beq_iff = Name-beq_iff }

-- `split(sep)`: the pieces between separators, empty ones included.
abbrev pub extend_head : ℕ → List Name → List Name
extend_head c [] = (c ∷ []) ∷ []
extend_head c (p ∷ ps) = (c ∷ p) ∷ ps

unfoldable pub split : ℕ → List ℕ → List Name
split sep [] = [] ∷ []
split sep (c ∷ cs) = let rest = split sep cs in if c == sep then [] ∷ rest else extend_head c rest

unfoldable pub drop_empty : List Name → List Name
drop_empty [] = []
drop_empty (p ∷ ps) = let rest = drop_empty ps in if is_empty p then rest else p ∷ rest

-- The components of a path; 47 is the slash.
unfoldable pub parts : List ℕ → List Name
unfolding split drop_empty
parts path = drop_empty (split b'/' path)

-- `&parts[..parts.len() - 1]` and `parts.last()`.
unfoldable pub split_last : List Name → Option (List Name × Name)
split_last [] = none
split_last (p ∷ ps) = elim (split_last ps) [
  | none ↦ some ([], p)
  | some (front, last) ↦ some (p ∷ front, last)
]

-- `split_last` fails on the empty list only, and otherwise takes the list apart.
pub split_last-none : (ps : List Name) → split_last ps ≡ none → ps ≡ []
unfolding split_last
split_last-none [] h = refl
split_last-none (p ∷ ps) h = absurd (ground arith)

pub split_last_lem :
    (ps front : List Name) (last : Name)
    → split_last ps ≡ some (front, last)
    → ps ≡ front ++ last ∷ []
unfolding split_last
split_last_lem [] front last h = absurd (ground arith)
split_last_lem (p ∷ ps) front last h = elim (Option-cases (split_last ps)) [
  | inl e ↦ ground (arith, split_last-none ps e)
  | inr (x, e) ↦ ground (arith, split_last_lem ps x.0 x.1 e)
]

-- Rejoining what `split_last` took apart.
pub split_last-snoc :
    (front : List Name) (last : Name) → split_last (front ++ last ∷ []) ≡ some (front, last)
unfolding split_last
split_last-snoc [] last = refl
split_last-snoc (p ∷ front) last = ground (arith, split_last-snoc front last)
