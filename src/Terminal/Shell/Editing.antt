-- ===== src/Terminal/Shell/Editing.antt =====
-- The invariant of the line editor: no key, in any order, makes it panic or outgrow its bounds.
use sovelma_os.Prelude.{
  ℕ, ◌+◌, ◌-◌, ◌≤◌, ◌<◌, ◌≡◌, refl, true, ◌==◌, ltb, leb, List, ◌∷◌, ◌++◌, Option, some, is_empty,
  length, get_elem?, take, drop, arith, length-append, length-take, length-drop, get_elem?-total,
  Option-cases, Bool-cases, inl, inr,
}
use sovelma_os.Terminal.Shell.{
  Terminal, new, insert_at, remove_at, redraw_line, show_entry, history_up, history_down, type_char,
  backspace, edited, max_line_length, max_history, emit, Print,
}

-- What the editor never leaves.
pub record IsValid (t : Terminal) : Type 0 where
  pub cursor_in : t.cursor ≤ length t.input_buffer
  pub line : length t.input_buffer ≤ max_line_length
  pub saved : length t.saved_input ≤ max_line_length
  pub entries : (i : ℕ) (s : List ℕ) → get_elem? t.history i ≡ some s → length s ≤ max_line_length
  pub few : length t.history ≤ max_history
  pub index_in : (i : ℕ) → t.history_index ≡ some i → i < length t.history

-- A step that does not panic, and ends in a valid state.
abbrev pub Fine : Option Terminal → Type 0
Fine r = (t : Terminal) × (r ≡ some t) × IsValid t

pub new-IsValid : IsValid new
unfolding new
new-IsValid = record {
  cursor_in = omega arith;
  line = omega arith;
  saved = omega arith;
  entries = λ i s e. absurd (ground arith);
  few = omega arith;
  index_in = λ i e. absurd (ground arith);
}

-- Another line and cursor.
pub relined :
    (t : Terminal) (s : List ℕ) (cursor : ℕ)
    → cursor ≤ length s
    → length s ≤ max_line_length
    → IsValid t
    → IsValid (redraw_line (record t { input_buffer = s; cursor = cursor }))
unfolding redraw_line
relined t s cursor h h' v = record {
  cursor_in = h;
  line = h';
  saved = v.saved;
  entries = v.entries;
  few = v.few;
  index_in = v.index_in;
}

-- The same of a step that only moves the cursor, whatever it prints.
pub moved :
    (t : Terminal) (ps : List Print) (s : List ℕ) (cursor : ℕ)
    → cursor ≤ length s
    → length s ≤ max_line_length
    → IsValid t
    → IsValid (emit ps (record t { input_buffer = s; cursor = cursor }))
moved t ps s cursor h h' v = record {
  cursor_in = h;
  line = h';
  saved = v.saved;
  entries = v.entries;
  few = v.few;
  index_in = v.index_in;
}

length-insert :
    (i c : ℕ) (s : List ℕ) → i ≤ length s → length (take i s ++ c ∷ drop i s) ≡ length s + 1
length-insert i c s h =
    ground (arith, length-append (take i s) (c ∷ drop i s), length-take i s, length-drop i s)

length-remove :
    (i : ℕ) (s : List ℕ) → i < length s → length (take i s ++ drop (i + 1) s) + 1 ≡ length s
length-remove i s h =
    ground
      (arith, length-append (take i s) (drop (i + 1) s), length-take i s, length-drop (i + 1) s)

pub type_char-Fine : (c : ℕ) (t : Terminal) → IsValid t → Fine (type_char c t)
unfolding type_char insert_at
type_char-Fine c t v = elim (Bool-cases (ltb (length t.input_buffer) max_line_length)) [
  | inr full ↦ rw (full, type_char) (t, refl, v)
  | inl room ↦
      let s = take t.cursor t.input_buffer ++ c ∷ drop t.cursor t.input_buffer in
      let inside : leb t.cursor (length t.input_buffer) ≡ true = ground (arith, v.cursor_in) in
      let longer = length-insert t.cursor c t.input_buffer v.cursor_in in
      let fits : length s ≤ max_line_length = ground (arith, longer) in
      let at : t.cursor + 1 ≤ length s = ground (arith, longer, v.cursor_in) in
      elim (Bool-cases (t.cursor + 1 == length s)) [
        | inl q ↦
            rw (room, type_char) (rw inside (rw q (_, refl, moved t _ s (t.cursor + 1) at fits v)))
        | inr q ↦
            rw (room, type_char) (rw inside (rw q (_, refl, relined t s (t.cursor + 1) at fits v)))
      ]
]

pub remove-Fine :
    (i : ℕ) (t : Terminal)
    → IsValid t
    → i < length t.input_buffer
    → Fine (edited (remove_at i t.input_buffer) i t)
unfolding remove_at
remove-Fine i t v h =
    let s = take i t.input_buffer ++ drop (i + 1) t.input_buffer in
    let shorter = length-remove i t.input_buffer h in
    let inside : ltb i (length t.input_buffer) ≡ true = ground arith in
    rw (inside, remove_at)
      (_, refl, relined t s i (omega (arith, shorter)) (omega (arith, shorter, v.line)) v)

pub backspace-Fine : (t : Terminal) → IsValid t → Fine (backspace t)
unfolding backspace
backspace-Fine t v = elim (Bool-cases (ltb 0 t.cursor)) [
  | inr q ↦ rw (q, backspace) (t, refl, v)
  | inl q ↦ rw (q, backspace) (remove-Fine (t.cursor - 1) t v (ground (arith, v.cursor_in)))
]

show_entry-Fine :
    (t : Terminal) (idx : ℕ)
    → IsValid t
    → idx < length t.history
    → Fine (show_entry (get_elem? t.history idx) idx t)
unfolding show_entry redraw_line
show_entry-Fine t idx v h =
    let (s, at) = get_elem?-total t.history idx h in
    rw (at, show_entry)
      (
        _,
        refl,
        record {
          cursor_in = omega arith;
          line = v.entries idx s at;
          saved = v.saved;
          entries = v.entries;
          few = v.few;
          index_in = λ i e. ground arith;
        },
      )

saved_line : (t : Terminal) → IsValid t → IsValid (record t { saved_input = t.input_buffer })
saved_line t v = record {
  cursor_in = v.cursor_in;
  line = v.line;
  saved = v.line;
  entries = v.entries;
  few = v.few;
  index_in = v.index_in;
}

pub history_up-Fine : (t : Terminal) → IsValid t → Fine (history_up t)
unfolding history_up
history_up-Fine t v = elim (Bool-cases (is_empty t.history)) [
  | inl q ↦ rw (q, history_up) (t, refl, v)
  | inr q ↦ elim (Option-cases t.history_index) [
    | inl e ↦
        rw (q, history_up)
          (rw e (
            show_entry-Fine (record t { saved_input = t.input_buffer }) (length t.history - 1)
              (saved_line t v) (ground arith)))
    | inr (idx, e) ↦ elim (Bool-cases (idx == 0)) [
      | inl z ↦ rw (q, history_up) (rw e (rw z (t, refl, v)))
      | inr z ↦
          rw (q, history_up)
            (rw e (rw z (show_entry-Fine t (idx - 1) v (ground (arith, v.index_in idx e)))))
    ]
  ]
]

pub history_down-Fine : (t : Terminal) → IsValid t → Fine (history_down t)
unfolding history_down redraw_line
history_down-Fine t v = elim (Option-cases t.history_index) [
  | inl e ↦ rw (e, history_down) (t, refl, v)
  | inr (idx, e) ↦ elim (Bool-cases (leb (length t.history) (idx + 1))) [
    | inl q ↦
        rw (e, history_down)
          (rw q (
            _,
            refl,
            record {
              cursor_in = omega arith;
              line = v.saved;
              saved = v.saved;
              entries = v.entries;
              few = v.few;
              index_in = λ i e. absurd (ground arith);
            },
          ))
    | inr q ↦ rw (e, history_down) (rw q (show_entry-Fine t (idx + 1) v (ground arith)))
  ]
]
