-- ===== src/Terminal/Shell/Keys.antt =====
-- Enter, and any sequence of keys.
use sovelma_os.Prelude.{
  ℕ, ◌+◌, ◌-◌, ◌≤◌, ◌≡◌, refl, ◌∙◌, sym, ◌&&◌, ◌||◌, ◌==◌, ltb, leb, List, [], ◌∷◌, ◌++◌, Option,
  none, some, length, get_elem?, drop, arith, length-append, length-drop, get_elem?-lt, Bool-cases,
  inl, inr, ◌⊎◌,
}
use sovelma_os.Terminal.Shell.{
  Terminal, DecodedKey, unicode, raw_key, KeyCode, arrow_up, arrow_down, arrow_left, arrow_right,
  home, end, delete, other, prompt, add_to_history, handle_raw_key, enter, handle_char, handle_key,
  handle_keys, is_last, max_line_length, max_history, emit, Print,
}
use sovelma_os.Prelude.{get_elem?-append_left, get_elem?-append_last, get_elem?-drop}
use sovelma_os.Terminal.Shell.Editing.{
  IsValid, Fine, type_char-Fine, backspace-Fine, history_up-Fine, history_down-Fine, remove-Fine,
  relined, moved,
}

-- An entry after a line was added is an old one or the line.
get_elem?-added :
    (h : List (List ℕ)) (line s : List ℕ) (i : ℕ)
    → get_elem? (h ++ line ∷ []) i ≡ some s
    → (get_elem? h i ≡ some s) ⊎ (s ≡ line)
get_elem?-added h line s i e = elim (Bool-cases (ltb i (length h))) [
  | inl q ↦ inl (sym (get_elem?-append_left h (line ∷ []) i (ground arith)) ∙ e)
  | inr q ↦
      let lt = get_elem?-lt (h ++ line ∷ []) i s e in
      let at : i ≡ length h = ground (arith, length-append h (line ∷ [])) in
      inr (ground (arith, get_elem?-append_last h line))
]

abbrev Entries : List (List ℕ) → Type 0
Entries h = (i : ℕ) (s : List ℕ) → get_elem? h i ≡ some s → length s ≤ max_line_length

added-Entries :
    (h : List (List ℕ)) (line : List ℕ)
    → length line ≤ max_line_length
    → Entries h
    → Entries (h ++ line ∷ [])
added-Entries h line fits v i s e = elim (get_elem?-added h line s i e) [
  | inl old ↦ v i s old
  | inr same ↦ ground arith
]

-- The history after a line was added is bounded in both directions.
pub add_to_history-bounds :
    (line : List ℕ) (t : Terminal)
    → length line ≤ max_line_length
    → Entries t.history
    → length t.history ≤ max_history
    → Entries (add_to_history line t).history
      × (length (add_to_history line t).history ≤ max_history)
unfolding add_to_history
add_to_history-bounds line t fits v few = elim (Bool-cases (is_last t.history line)) [
  | inl q ↦ rw (q, add_to_history) (v, few)
  | inr q ↦ elim (Bool-cases (leb max_history (length t.history))) [
    | inl full ↦
        rw (q, add_to_history)
          (rw full (
            added-Entries (drop 1 t.history) line fits
                (λ i s e. v (1 + i) s (sym (get_elem?-drop 1 t.history i) ∙ e)),
            ground (arith, length-append (drop 1 t.history) (line ∷ []), length-drop 1 t.history),
          ))
    | inr room ↦
        rw (q, add_to_history)
          (rw room (
            added-Entries t.history line fits v,
            ground (arith, length-append t.history (line ∷ [])),
          ))
  ]
]

add_to_history-rest :
    (line : List ℕ) (t : Terminal) → ((add_to_history line t).saved_input ≡ t.saved_input)
unfolding add_to_history
add_to_history-rest line t = ground arith

handle_raw_key-Fine : (k : KeyCode) (t : Terminal) → IsValid t → Fine (handle_raw_key k t)
unfolding handle_raw_key
handle_raw_key-Fine arrow_up t v = history_up-Fine t v
handle_raw_key-Fine arrow_down t v = history_down-Fine t v
handle_raw_key-Fine arrow_left t v = elim (Bool-cases (ltb 0 t.cursor)) [
  | inl q ↦
      rw (q, handle_raw_key)
        (_, refl, moved t _ t.input_buffer (t.cursor - 1) (omega (arith, v.cursor_in)) v.line v)
  | inr q ↦ rw (q, handle_raw_key) (t, refl, v)
]
handle_raw_key-Fine arrow_right t v = elim (Bool-cases (ltb t.cursor (length t.input_buffer))) [
  | inl q ↦
      rw (q, handle_raw_key)
        (_, refl, moved t _ t.input_buffer (t.cursor + 1) (ground arith) v.line v)
  | inr q ↦ rw (q, handle_raw_key) (t, refl, v)
]
handle_raw_key-Fine home t v = (_, refl, relined t t.input_buffer 0 (omega arith) v.line v)
handle_raw_key-Fine end t v =
    (_, refl, relined t t.input_buffer (length t.input_buffer) (omega arith) v.line v)
handle_raw_key-Fine delete t v = elim (Bool-cases (ltb t.cursor (length t.input_buffer))) [
  | inl q ↦ rw (q, handle_raw_key) (remove-Fine t.cursor t v (ground arith))
  | inr q ↦ rw (q, handle_raw_key) (t, refl, v)
]
handle_raw_key-Fine other t v = (t, refl, v)

module _ {Command : Type 0} (parse_command : List ℕ → Option Command) where
  enter-IsValid : (t : Terminal) → IsValid t → IsValid (enter parse_command t).1
  unfolding enter prompt
  enter-IsValid t v =
      let (entries, few) =
        add_to_history-bounds t.input_buffer (emit (Print.text (10 ∷ []) ∷ []) t) v.line v.entries
          v.few in
      let kept = add_to_history-rest t.input_buffer (emit (Print.text (10 ∷ []) ∷ []) t) in
      record {
        cursor_in = ground arith;
        line = ground arith;
        saved = ground (arith, v.saved, kept);
        entries = λ i s e. ground (arith, entries i s, v.entries i s);
        few = ground (arith, few, v.few);
        index_in = λ i e. absurd (ground arith);
      }

  handle_key-Fine :
      (k : DecodedKey) (t : Terminal)
      → IsValid t
      → (command : Option Command) × (t' : Terminal) × (handle_key parse_command k t
          ≡ some (command, t'))
        × IsValid t'
  unfolding handle_key handle_char
  handle_key-Fine (raw_key k) t v =
      let (t', e, v') = handle_raw_key-Fine k t v in (none, t', rw (e, handle_key) refl, v')
  handle_key-Fine (unicode c) t v = elim (Bool-cases (c == 10 || c == 13)) [
    | inl q ↦ rw (q, handle_char) (_, _, refl, enter-IsValid t v)
    | inr q ↦ elim (Bool-cases (c == 8 || c == 127)) [
      | inl q' ↦
          let (t', e, v') = backspace-Fine t v in
          (none, t', rw (q, handle_char) (rw q' (rw (e) refl)), v')
      | inr q' ↦ elim (Bool-cases (leb 32 c && leb c 126)) [
        | inl q'' ↦
            let (t', e, v') = type_char-Fine c t v in
            (none, t', rw (q, handle_char) (rw q' (rw q'' (rw (e) refl))), v')
        | inr q'' ↦ (none, t, rw (q, handle_char) (rw q' (rw q'' refl)), v)
      ]
    ]
  ]

  -- No sequence of keys makes the terminal panic, whichever lines are commands: from any valid
  -- state it ends in a valid state, where the cursor is in the line, the line, the saved line and
  -- every entry of the history have at most 256 characters, the history at most 16 entries, and
  -- its index is one of them.
  pub handle_keys-IsValid :
      (ks : List DecodedKey) (t : Terminal)
      → IsValid t
      → (t' : Terminal) × (handle_keys parse_command ks t ≡ some t') × IsValid t'
  unfolding handle_keys
  handle_keys-IsValid [] t v = (t, refl, v)
  handle_keys-IsValid (k ∷ ks) t v =
      let (command, t₁, e, v₁) = handle_key-Fine k t v in
      let (t₂, e₂, v₂) = handle_keys-IsValid ks t₁ v₁ in (t₂, rw (e, handle_keys) e₂, v₂)
