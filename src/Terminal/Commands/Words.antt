-- ===== src/Terminal/Commands/Words.antt =====
-- A line and its words.
use sovelma_os.Prelude.{
  ℕ, ◌≡◌, refl, sym, ◌∙◌, ap, true, false, ◌&&◌, List, [], ◌∷◌, ◌++◌, append_assoc, append-nil, All,
  is_empty, arith, Bool-cases, inl, inr, &&-true,
}
use sovelma_os.Prelude.Texts.{
  is_whitespace, words_from, split_whitespace, trim_start, trim_end, trim, join_spaces,
}
use sovelma_os.Terminal.Commands.{Parsed, nothing, parse, parse_command}

abbrev pub Blank : List ℕ → Type 0
Blank = All (λ c. is_whitespace c ≡ true)

abbrev pub Solid : List ℕ → Type 0
Solid = All (λ c. is_whitespace c ≡ false)

-- A word has a character, and no white space.
abbrev pub IsWord : List ℕ → Type 0
IsWord w = (is_empty w ≡ false) × Solid w

words_from-Solid :
    (begun w s : List ℕ) → Solid w → words_from begun (w ++ s) ≡ words_from (begun ++ w) s
words_from-Solid begun [] s h = ap (λ b. words_from b s) (sym (append-nil begun))
words_from-Solid begun (c ∷ w) s (n, h) =
    rw (n, words_from)
      (words_from-Solid (begun ++ c ∷ []) w s h
        ∙ ap (λ b. words_from b s) (append_assoc begun (c ∷ []) w))

words_from-Blank : (s : List ℕ) → Blank s → words_from [] s ≡ []
words_from-Blank [] h = refl
words_from-Blank (c ∷ s) (n, h) = ground (arith, words_from-Blank s h)

words_from-lead : (lead s : List ℕ) → Blank lead → words_from [] (lead ++ s) ≡ words_from [] s
words_from-lead [] s h = refl
words_from-lead (c ∷ lead) s (n, h) = ground (arith, words_from-lead lead s h)

-- A word before white space, or before the end.
words_from-last :
    (begun trail : List ℕ)
    → is_empty begun ≡ false
    → Blank trail
    → words_from begun trail ≡ begun ∷ []
words_from-last begun [] e h = ground (arith, e)
words_from-last begun (c ∷ trail) e (n, h) = ground (arith, e, words_from-Blank trail h)

words_from-join :
    (w : List ℕ) (ws : List (List ℕ)) (trail : List ℕ)
    → All IsWord (w ∷ ws)
    → Blank trail
    → words_from [] (join_spaces (w ∷ ws) ++ trail) ≡ w ∷ ws
words_from-join w [] trail ((e, h), _) b =
    words_from-Solid [] w trail h ∙ words_from-last w trail e b
words_from-join w (v ∷ ws) trail ((e, h), all) b =
    let rest = words_from-join v ws trail all b in
    ap (words_from []) (append_assoc w (32 ∷ join_spaces (v ∷ ws)) trail)
    ∙ (words_from-Solid [] w ((32 ∷ join_spaces (v ∷ ws)) ++ trail) h ∙ ground (arith, e, rest))

is_empty-nil : (s : List ℕ) → is_empty s ≡ true → s ≡ []
is_empty-nil [] h = refl
is_empty-nil (c ∷ s) h = absurd (ground arith)

words_from-trim_end : (begun s : List ℕ) → words_from begun (trim_end s) ≡ words_from begun s
words_from-trim_end begun [] = refl
words_from-trim_end begun (c ∷ s) =
    let later = words_from-trim_end [] s in
    let longer = words_from-trim_end (begun ++ c ∷ []) s in
    elim (Bool-cases (is_empty (trim_end s) && is_whitespace c)) [
      | inr kept ↦ ground (arith, kept, later, longer)
      | inl cut ↦
          let (empty, blank) = &&-true (is_empty (trim_end s)) (is_whitespace c) cut in
          let over : words_from [] s ≡ [] =
            sym later ∙ ap (words_from []) (is_empty-nil (trim_end s) empty) in
          rw cut (ground (arith, blank, over))
    ]

words_from-trim_start : (s : List ℕ) → words_from [] (trim_start s) ≡ words_from [] s
words_from-trim_start [] = refl
words_from-trim_start (c ∷ s) = ground (arith, words_from-trim_start s)

split_whitespace-trim : (line : List ℕ) → split_whitespace (trim line) ≡ split_whitespace line
split_whitespace-trim line = words_from-trim_end [] (trim_start line) ∙ words_from-trim_start line

-- A command and its arguments, as a list of words.
abbrev pub parse_words : List (List ℕ) → Parsed
parse_words [] = nothing
parse_words (cmd ∷ args) = parse cmd args

parse_command-words : (line : List ℕ) → parse_command line ≡ parse_words (split_whitespace line)
unfolding parse_command
parse_command-words line = elim (Bool-cases (is_empty (trim line))) [
  | inr some_text ↦ rw some_text (ap parse_words (split_whitespace-trim line))
  | inl no_text ↦
      let none_left : split_whitespace line ≡ [] =
        sym (split_whitespace-trim line) ∙ ap split_whitespace (is_empty-nil (trim line) no_text) in
      rw no_text (sym (ap parse_words none_left))
]

-- A line that consists of words with a space between them, and of white space before and after, is
-- parsed as its first word with the others as arguments.
pub parse_command-join_spaces :
    (lead trail cmd : List ℕ) (args : List (List ℕ))
    → Blank lead
    → Blank trail
    → All IsWord (cmd ∷ args)
    → parse_command (lead ++ (join_spaces (cmd ∷ args) ++ trail)) ≡ parse cmd args
parse_command-join_spaces lead trail cmd args b b' h =
    parse_command-words (lead ++ (join_spaces (cmd ∷ args) ++ trail))
    ∙ ap parse_words (
        words_from-lead lead (join_spaces (cmd ∷ args) ++ trail) b
        ∙ words_from-join cmd args trail h b')
