-- ===== src/Vga.antt =====
-- kernel/src/arch/x86_64/vga.rs: `Writer`, the text console. The buffer is 25 rows of 80 cells; `None`
-- is an index out of the buffer's bounds, which is a panic. A volatile access is an access.
pub mod Screen
mod Examples
use sovelma_os.Prelude.{
  ℕ, zero, suc, ◌+◌, ◌-◌, ◌*◌, ◌%◌, ◌^◌, bit_or, Bool, true, false, ◌&&◌, ◌||◌, ◌==◌, ltb, leb,
  List, [], ◌∷◌, Option, none, some, length, get_elem?, set, replicate, if◌then◌else◌,
}

abbrev pub buffer_height : ℕ
buffer_height = 25

abbrev pub buffer_width : ℕ
buffer_width = 80

-- `(background as u8) << 4 | (foreground as u8)`, over the numbers of the colors.
unfoldable pub color_code : ℕ → ℕ → ℕ
color_code foreground background = bit_or (background * 2 ^ 4 % 2 ^ 8) foreground

pub record ScreenChar : Type 0 where
  pub ascii_character : ℕ
  pub color_code : ℕ

abbrev pub Buffer : Type 0
Buffer = List (List ScreenChar)

pub record Writer : Type 0 where
  pub column_position : ℕ
  pub color_code : ℕ
  pub buffer : Buffer

-- The screen as the machine leaves it is an argument.
unfoldable pub new : Buffer → Writer
new buffer = record { column_position = 0; color_code = color_code 15 0; buffer = buffer }

unfoldable pub set_color : ℕ → ℕ → Writer → Writer
set_color foreground background w = record w { color_code = color_code foreground background }

-- `chars[row][col] = c`.
unfoldable pub write_cell : Buffer → ℕ → ℕ → ScreenChar → Option Buffer
write_cell b row col c = elim (get_elem? b row) [
  | none ↦ none
  | some cells ↦ if ltb col (length cells) then some (set b row (set cells col c)) else none
]

-- The loop of `clear_row` over the last `n` columns.
unfoldable pub fill : ℕ → Buffer → ℕ → ScreenChar → Option Buffer
fill zero b row blank = some b
fill (suc n) b row blank = elim (write_cell b row (buffer_width - suc n) blank) [
  | none ↦ none
  | some b' ↦ fill n b' row blank
]

unfoldable pub clear_row : ℕ → Writer → Option Writer
clear_row row w =
    elim (fill buffer_width w.buffer row
      (record { ascii_character = 32; color_code = w.color_code })) [
        | none ↦ none
        | some b ↦ some (record w { buffer = b })
      ]

-- The inner loop of `new_line` over the last `n` columns: copy the row to the one above.
unfoldable pub copy_row : ℕ → Buffer → ℕ → Option Buffer
copy_row zero b row = some b
copy_row (suc n) b row = elim (get_elem? b row) [
  | none ↦ none
  | some cells ↦ elim (get_elem? cells (buffer_width - suc n)) [
    | none ↦ none
    | some c ↦ elim (write_cell b (row - 1) (buffer_width - suc n) c) [
      | none ↦ none
      | some b' ↦ copy_row n b' row
    ]
  ]
]

-- The outer loop over the last `n` rows.
unfoldable pub scroll : ℕ → Buffer → Option Buffer
scroll zero b = some b
scroll (suc n) b = elim (copy_row buffer_width b (buffer_height - suc n)) [
  | none ↦ none
  | some b' ↦ scroll n b'
]

unfoldable pub new_line : Writer → Option Writer
new_line w = elim (scroll (buffer_height - 1) w.buffer) [
  | none ↦ none
  | some b ↦ elim (clear_row (buffer_height - 1) (record w { buffer = b })) [
    | none ↦ none
    | some w' ↦ some (record w' { column_position = 0 })
  ]
]

-- The end of `write_byte`, once there is room in the row.
unfoldable pub put_byte : ℕ → Writer → Option Writer
put_byte byte w =
    elim (write_cell w.buffer (buffer_height - 1) w.column_position
      (record { ascii_character = byte; color_code = w.color_code })) [
        | none ↦ none
        | some b ↦ some (record w { buffer = b; column_position = w.column_position + 1 })
      ]

unfoldable pub write_byte : ℕ → Writer → Option Writer
unfolding put_byte
write_byte byte w =
    if byte == 10
    then new_line w
    else if leb buffer_width w.column_position
    then elim (new_line w) [ none ↦ none | some w' ↦ put_byte byte w' ]
    else put_byte byte w

-- The loop of `clear_screen` over the last `n` rows.
unfoldable pub clear_rows : ℕ → Writer → Option Writer
clear_rows zero w = some w
clear_rows (suc n) w = elim (clear_row (buffer_height - suc n) w) [
  | none ↦ none
  | some w' ↦ clear_rows n w'
]

unfoldable pub clear_screen : Writer → Option Writer
clear_screen w = elim (clear_rows buffer_height w) [
  | none ↦ none
  | some w' ↦ some (record w' { column_position = 0 })
]

-- Printable ASCII and newlines are written, anything else shows as a placeholder.
unfoldable pub visible : ℕ → ℕ
visible byte = if (leb 0x20 byte && leb byte 0x7e) || byte == 10 then byte else 0xfe

unfoldable pub write_str : List ℕ → Writer → Option Writer
unfolding visible
write_str [] w = some w
write_str (byte ∷ bytes) w = elim (write_byte (visible byte) w) [
  | none ↦ none
  | some w' ↦ write_str bytes w'
]
