-- ===== src/Terminal/Shell/History.antt =====
-- Undoing a key: backspace after a character, and down after up.
use sovelma_os.Prelude.{
  ℕ, zero, suc, ◌+◌, ◌-◌, ◌≤◌, ◌<◌, ◌≡◌, refl, ◌∙◌, ap, true, ◌==◌, ltb, leb, List, [], ◌∷◌, ◌++◌,
  none, some, is_empty, length, take, drop, arith, if◌then◌else◌, length-append, length-take,
  length-drop, get_elem?-total, Bool-cases, inl, inr,
}
use sovelma_os.Terminal.Shell.{
  Terminal, insert_at, remove_at, redraw_line, show_entry, history_up, history_down, type_char,
  backspace, text, max_line_length, emit,
}
use sovelma_os.Terminal.Shell.Editing.{IsValid}

-- Removing what was inserted.
remove_inserted :
    (i c : ℕ) (s : List ℕ)
    → i ≤ length s
    → take i (take i s ++ c ∷ drop i s) ++ drop (i + 1) (take i s ++ c ∷ drop i s) ≡ s
remove_inserted zero c s h = refl
remove_inserted (suc i) c [] h = absurd (ground arith)
remove_inserted (suc i) c (x ∷ s) h =
    let next : suc i + 1 ≡ suc (i + 1) = omega arith in
    rw next (ap (◌∷◌ x) (remove_inserted i c s (ground arith)))

-- A backspace after an insertion.
backspace_inserted :
    (i c : ℕ) (s : List ℕ) (t : Terminal)
    → i ≤ length s
    → t.cursor ≡ i + 1
    → t.input_buffer ≡ take i s ++ c ∷ drop i s
    → (t' : Terminal) × (backspace t ≡ some t')
      × (t'.input_buffer ≡ s)
      × (t'.cursor ≡ i)
      × (t'.history ≡ t.history)
unfolding backspace remove_at redraw_line
backspace_inserted i c s t h at line =
    let removed : remove_at (t.cursor - 1) t.input_buffer ≡ some s = ground (
      arith,
      remove_inserted i c s h,
      length-append (take i s) (c ∷ drop i s),
      length-take i s,
      length-drop i s,
    ) in
    let right : ltb 0 t.cursor ≡ true = ground arith in
    (
      redraw_line (record t { input_buffer = s; cursor = t.cursor - 1 }),
      rw (right, backspace) (rw removed refl),
      refl,
      omega (arith, at),
      refl,
    )

-- The state after a character was typed into a line with room.
abbrev typed_state : ℕ → Terminal → Terminal
typed_state c t =
    let s = take t.cursor t.input_buffer ++ c ∷ drop t.cursor t.input_buffer in
    let t' = record t { input_buffer = s; cursor = t.cursor + 1 } in
    if t'.cursor == length s then emit (text (c ∷ []) ∷ []) t' else redraw_line t'

-- A printable character and then a backspace give back the line and the cursor, wherever the cursor
-- stands in a line with room for the character.
pub backspace-type_char :
    (c : ℕ) (t : Terminal)
    → IsValid t
    → length t.input_buffer < max_line_length
    → (t₁ : Terminal) × (t₂ : Terminal) × (type_char c t ≡ some t₁)
      × (backspace t₁ ≡ some t₂)
      × (t₂.input_buffer ≡ t.input_buffer)
      × (t₂.cursor ≡ t.cursor)
      × (t₂.history ≡ t.history)
unfolding type_char insert_at redraw_line
backspace-type_char c t v room =
    let typed = typed_state c t in
    let (t₂, undone, line, cursor, history) =
      backspace_inserted t.cursor c t.input_buffer typed v.cursor_in (ground arith)
        (ground arith) in
    let full : ltb (length t.input_buffer) max_line_length ≡ true = ground arith in
    let inside : leb t.cursor (length t.input_buffer) ≡ true = ground (arith, v.cursor_in) in
    (typed, t₂, rw (full, type_char) (rw inside refl), undone, line, cursor, history ∙ ground arith)

-- Up and then down, from a line that is being edited, neither panics; they give the line back,
-- leave the history mode, and leave the history.
pub history_down-history_up :
    (t : Terminal)
    → t.history_index ≡ none
    → (t₁ : Terminal) × (t₂ : Terminal) × (history_up t ≡ some t₁)
      × (history_down t₁ ≡ some t₂)
      × (t₂.input_buffer ≡ t.input_buffer)
      × (t₂.history_index ≡ none)
      × (t₂.history ≡ t.history)
unfolding history_up history_down show_entry redraw_line
history_down-history_up t e = elim (Bool-cases (is_empty t.history)) [
  | inl q ↦ rw (q, history_up) (t, t, refl, ground arith, refl, e, refl)
  | inr q ↦
      let (s, at) = get_elem?-total t.history (length t.history - 1) (ground arith) in
      let over : leb (length t.history) (length t.history - 1 + 1) ≡ true = ground arith in
      let shown = redraw_line (record t {
        saved_input = t.input_buffer;
        history_index = some (length t.history - 1);
        input_buffer = s;
        cursor = length s;
      }) in
      let back = redraw_line (record shown {
        history_index = none;
        input_buffer = t.input_buffer;
        cursor = length t.input_buffer;
      }) in
      (
        shown,
        back,
        rw (q, history_up) (rw e (rw at refl)),
        rw (over, history_down) refl,
        refl,
        refl,
        refl,
      )
]
