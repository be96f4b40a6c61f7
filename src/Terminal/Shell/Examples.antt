-- ===== src/Terminal/Shell/Examples.antt =====
-- The line editor at work, where no line is a command.
use sovelma_os.Prelude.{ℕ, ◌≡◌, List, [], ◌∷◌, Option, none, some}
use sovelma_os.Terminal.Shell.{
  Terminal, DecodedKey, unicode, raw_key, arrow_up, arrow_left, delete, new, handle_keys,
}
use sovelma_os.Terminal.Shell.Editing.{IsValid, new-IsValid}
use sovelma_os.Terminal.Shell.Keys.{handle_keys-IsValid}

abbrev no_command : List ℕ → Option ℕ
no_command line = none

-- "ab", a step to the left, delete, Enter, and the last line again.
abbrev keys : List DecodedKey
keys =
    unicode 97
    ∷ unicode 98
    ∷ raw_key arrow_left
    ∷ raw_key delete
    ∷ unicode 10
    ∷ raw_key arrow_up
    ∷ []

handle_keys-IsValid_example :
    (t' : Terminal) × (handle_keys no_command keys new ≡ some t') × IsValid t'
handle_keys-IsValid_example = handle_keys-IsValid no_command keys new new-IsValid

-- A line "a" is being edited after an earlier line "b".
abbrev editing : Terminal
editing = record {
  input_buffer = 97 ∷ [];
  cursor = 0;
  history = (98 ∷ []) ∷ [];
  history_index = none;
  saved_input = [];
  printed = [];
}
