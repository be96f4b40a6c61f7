-- ===== src/Terminal/Shell.antt =====
-- kernel/src/terminal/shell.rs: `Terminal`, the line editor with its history. Characters are code
-- points; the buffer holds ASCII only, so that byte positions are character positions. What is
-- printed is a log. `None` is a panic: an insertion, a removal or an index out of range. Which lines
-- are commands (commands.rs) is a parameter, `parse_command`.
pub mod Editing
pub mod Keys
pub mod History
mod Examples
use sovelma_os.Prelude.{
  ℕ, ◌+◌, ◌-◌, Bool, true, false, ◌&&◌, ◌||◌, not, ◌==◌, ltb, leb, List, [], ◌∷◌, ◌++◌, Option,
  none, some, is_some, is_empty, length, get_elem?, take, drop, if◌then◌else◌,
}
use sovelma_os.Fs.Path.{name_ord}

abbrev pub max_line_length : ℕ
max_line_length = 256

abbrev pub max_history : ℕ
max_history = 16

-- What is sent to the screen: bytes, or a change of the foreground and background colors.
pub data Print : Type 0 where
  text : List ℕ → Print
  color : (foreground background : ℕ) → Print

pub data KeyCode : Type 0 where
  arrow_up arrow_down arrow_left arrow_right home end delete other : KeyCode

pub data DecodedKey : Type 0 where
  unicode : ℕ → DecodedKey
  raw_key : KeyCode → DecodedKey

pub record Terminal : Type 0 where
  pub input_buffer : List ℕ
  pub cursor : ℕ
  pub history : List (List ℕ)
  pub history_index : Option ℕ
  pub saved_input : List ℕ
  -- Not a field of the source: what was printed so far.
  pub printed : List Print

unfoldable pub new : Terminal
new = record {
  input_buffer = [];
  cursor = 0;
  history = [];
  history_index = none;
  saved_input = [];
  printed = [];
}

-- `String::insert` and `String::remove`, which panic out of range.
unfoldable pub insert_at : ℕ → ℕ → List ℕ → Option (List ℕ)
insert_at i c s = if leb i (length s) then some (take i s ++ c ∷ drop i s) else none

unfoldable pub remove_at : ℕ → List ℕ → Option (List ℕ)
remove_at i s = if ltb i (length s) then some (take i s ++ drop (i + 1) s) else none

abbrev pub emit : List Print → Terminal → Terminal
emit ps t = record t { printed = t.printed ++ ps }

abbrev pub sovelma : List ℕ
sovelma = 115 ∷ 111 ∷ 118 ∷ 101 ∷ 108 ∷ 109 ∷ 97 ∷ []

unfoldable pub prompt : Terminal → Terminal
prompt t = emit (color 10 0 ∷ text sovelma ∷ color 15 0 ∷ text (62 ∷ 32 ∷ []) ∷ []) t

unfoldable pub redraw_line : Terminal → Terminal
redraw_line t =
    emit
      (text (13 ∷ [])
        ∷ color 10 0
        ∷ text sovelma
        ∷ color 15 0
        ∷ text (62 ∷ 32 ∷ t.input_buffer)
        ∷ text (32 ∷ 32 ∷ 13 ∷ [])
        ∷ color 10 0
        ∷ text sovelma
        ∷ color 15 0
        ∷ text (62 ∷ 32 ∷ t.input_buffer)
        ∷ [])
      t

unfoldable pub last : List (List ℕ) → Option (List ℕ)
last h = get_elem? h (length h - 1)

abbrev pub is_last : List (List ℕ) → List ℕ → Bool
is_last h cmd = elim (last h) [ none ↦ false | some l ↦ name_ord.beq l cmd ]

unfoldable pub add_to_history : List ℕ → Terminal → Terminal
unfolding last
add_to_history cmd t = if is_last t.history cmd then t else record t {
  history =
      (if leb max_history (length t.history) then drop 1 t.history else t.history) ++ cmd ∷ [];
}

-- Show an entry of the history, which is out of range or not.
unfoldable pub show_entry : Option (List ℕ) → ℕ → Terminal → Option Terminal
show_entry none idx t = none
show_entry (some line) idx t =
    some (
      redraw_line
        (record t { history_index = some idx; input_buffer = line; cursor = length line }))

unfoldable pub history_up : Terminal → Option Terminal
unfolding show_entry
history_up t = if is_empty t.history then some t else elim t.history_index [
  | none ↦
      show_entry (get_elem? t.history (length t.history - 1)) (length t.history - 1)
        (record t { saved_input = t.input_buffer })
  | some idx ↦ if idx == 0 then some t else show_entry (get_elem? t.history (idx - 1)) (idx - 1) t
]

unfoldable pub history_down : Terminal → Option Terminal
unfolding show_entry
history_down t = elim t.history_index [
  | none ↦ some t
  | some idx ↦
      if leb (length t.history) (idx + 1)
      then some (
          redraw_line (record t {
            history_index = none;
            input_buffer = t.saved_input;
            cursor = length t.saved_input;
          }))
      else show_entry (get_elem? t.history (idx + 1)) (idx + 1) t
]

-- Redraw with a new line, if its edit did not panic.
abbrev pub edited : Option (List ℕ) → ℕ → Terminal → Option Terminal
edited none cursor t = none
edited (some s) cursor t = some (redraw_line (record t { input_buffer = s; cursor = cursor }))

unfoldable pub handle_raw_key : KeyCode → Terminal → Option Terminal
handle_raw_key arrow_up t = history_up t
handle_raw_key arrow_down t = history_down t
handle_raw_key arrow_left t =
    if ltb 0 t.cursor
    then some (emit (text (27 ∷ 91 ∷ 68 ∷ []) ∷ []) (record t { cursor = t.cursor - 1 }))
    else some t
handle_raw_key arrow_right t =
    if ltb t.cursor (length t.input_buffer)
    then some (emit (text (27 ∷ 91 ∷ 67 ∷ []) ∷ []) (record t { cursor = t.cursor + 1 }))
    else some t
handle_raw_key home t = some (redraw_line (record t { cursor = 0 }))
handle_raw_key end t = some (redraw_line (record t { cursor = length t.input_buffer }))
handle_raw_key delete t =
    if ltb t.cursor (length t.input_buffer)
    then edited (remove_at t.cursor t.input_buffer) t.cursor t
    else some t
handle_raw_key other t = some t

-- A printable character: at the end of the line it is printed, else the line is redrawn.
unfoldable pub type_char : ℕ → Terminal → Option Terminal
unfolding insert_at
type_char c t =
    if ltb (length t.input_buffer) max_line_length
    then elim (insert_at t.cursor c t.input_buffer) [
      | none ↦ none
      | some s ↦
          let t' = record t { input_buffer = s; cursor = t.cursor + 1 } in
          some (if t'.cursor == length s then emit (text (c ∷ []) ∷ []) t' else redraw_line t')
    ]
    else some t

unfoldable pub backspace : Terminal → Option Terminal
unfolding remove_at
backspace t =
    if ltb 0 t.cursor
    then edited (remove_at (t.cursor - 1) t.input_buffer) (t.cursor - 1) t
    else some t

module _ {Command : Type 0} (parse_command : List ℕ → Option Command) where
  -- Enter: the command of the line, if it is one, and the terminal for the next line.
  unfoldable pub enter : Terminal → Option Command × Terminal
  unfolding add_to_history prompt
  enter t =
      let command = parse_command t.input_buffer in
      let t₁ = emit (text (10 ∷ []) ∷ []) t in
      let t₂ = if is_empty t.input_buffer then t₁ else add_to_history t.input_buffer t₁ in
      let t₃ = record t₂ { input_buffer = []; cursor = 0; history_index = none } in
      (command, if is_some command then t₃ else prompt t₃)

  abbrev pub without_command : Option Terminal → Option (Option Command × Terminal)
  without_command none = none
  without_command (some t) = some (none, t)

  -- `\n`, `\r`; backspace and delete; tab; printable ASCII; anything else.
  unfoldable pub handle_char : ℕ → Terminal → Option (Option Command × Terminal)
  unfolding type_char backspace enter
  handle_char c t =
      if c == 10 || c == 13
      then some (enter t)
      else if c == 8 || c == 127
      then without_command (backspace t)
      else if leb 32 c && leb c 126
      then without_command (type_char c t)
      else some (none, t)

  unfoldable pub handle_key : DecodedKey → Terminal → Option (Option Command × Terminal)
  handle_key (unicode c) t = handle_char c t
  handle_key (raw_key k) t = without_command (handle_raw_key k t)

  -- Keys one after another; a panic stops.
  unfoldable pub handle_keys : List DecodedKey → Terminal → Option Terminal
  handle_keys [] t = some t
  handle_keys (k ∷ ks) t = elim (handle_key k t) [
    | none ↦ none
    | some (command, t') ↦ handle_keys ks t'
  ]
