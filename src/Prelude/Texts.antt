-- ===== src/Prelude/Texts.antt =====
-- Texts as lists of code points, with the operations of `str` that the kernel uses. They are given
-- for ASCII, which is all that the line editor takes in.
use Prim.Native.Nat.{ℕ, ◌+◌}
use Prim.Native.Char.{code}
use Prim.Native.String.{String}
use mathlib.Core.Bool.{Bool, ◌&&◌, ◌||◌}
use mathlib.Core.List.{List, [], ◌∷◌, ◌++◌}
use sovelma_os.Prelude.Tests.{leb, ◌==◌, if◌then◌else◌}
use sovelma_os.Prelude.Lists.{is_empty}

abbrev pub codes : String → List ℕ
codes String.[] = []
codes (String.◌∷◌ c s) = code c ∷ codes s

abbrev pub is_whitespace : ℕ → Bool
is_whitespace c = c == 32 || (leb 9 c && leb c 13)

abbrev pub to_lower : ℕ → ℕ
to_lower c = if leb b'A' c && leb c b'Z' then c + 32 else c

-- The words from a word that has begun on.
abbrev pub words_from : (begun : List ℕ) → List ℕ → List (List ℕ)
words_from begun [] = if is_empty begun then [] else begun ∷ []
words_from begun (c ∷ s) =
    let rest = words_from [] s in
    let longer = words_from (begun ++ c ∷ []) s in
    if is_whitespace c then (if is_empty begun then rest else begun ∷ rest) else longer

abbrev pub split_whitespace : List ℕ → List (List ℕ)
split_whitespace s = words_from [] s

abbrev pub trim_start : List ℕ → List ℕ
trim_start [] = []
trim_start (c ∷ s) = let rest = trim_start s in if is_whitespace c then rest else c ∷ s

abbrev pub trim_end : List ℕ → List ℕ
trim_end [] = []
trim_end (c ∷ s) =
    let rest = trim_end s in if is_empty rest && is_whitespace c then [] else c ∷ rest

abbrev pub trim : List ℕ → List ℕ
trim s = trim_end (trim_start s)

-- `join(" ")`.
abbrev pub join_spaces : List (List ℕ) → List ℕ
join_spaces [] = []
join_spaces (w ∷ []) = w
join_spaces (w ∷ v ∷ ws) = w ++ 32 ∷ join_spaces (v ∷ ws)
