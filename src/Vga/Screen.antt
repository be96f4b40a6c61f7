-- ===== src/Vga/Screen.antt =====
-- The writer never leaves the screen.
use sovelma_os.Prelude.{
  ℕ, zero, suc, ◌-◌, ◌≤◌, ◌<◌, ◌≡◌, refl, sym, ◌∙◌, subst, true, ◌==◌, ltb, leb, List, [], ◌∷◌,
  Option, some, length, get_elem?, set, arith, length-set, get_elem?-set_self, get_elem?-set_ne,
  get_elem?-total, Bool-cases, inl, inr,
}
use sovelma_os.Vga.{
  Buffer, Writer, ScreenChar, buffer_height, buffer_width, write_cell, fill, clear_row, copy_row,
  scroll, new_line, put_byte, write_byte, visible, write_str,
}

-- A buffer of 25 rows of 80 cells.
pub record IsScreen (b : Buffer) : Type 0 where
  pub height : length b ≡ buffer_height
  pub width :
      (row : ℕ) (cells : List ScreenChar)
      → get_elem? b row ≡ some cells
      → length cells ≡ buffer_width

pub record IsValid (w : Writer) : Type 0 where
  pub screen : IsScreen w.buffer
  pub column : w.column_position ≤ buffer_width

abbrev Kept : Option Buffer → Type 0
Kept r = (b : Buffer) × (r ≡ some b) × IsScreen b

write_cell-Kept :
    (b : Buffer) (row col : ℕ) (c : ScreenChar)
    → IsScreen b
    → row < buffer_height
    → col < buffer_width
    → Kept (write_cell b row col c)
unfolding write_cell
write_cell-Kept b row col c v h h' =
    let (cells, at) = get_elem?-total b row (omega (arith, v.height)) in
    let inside : ltb col (length cells) ≡ true = ground (arith, v.width row cells at) in
    rw (at, write_cell)
      (rw inside (
        set b row (set cells col c),
        refl,
        record {
          height = length-set b row (set cells col c) ∙ v.height;
          width = λ r cs e. elim (Bool-cases (row == r)) [
            | inl q ↦
                let same : row ≡ r = ground arith in
                let here : get_elem? (set b row (set cells col c)) row ≡ some cs =
                  subst (λ r. get_elem? (set b row (set cells col c)) r ≡ some cs) (sym same) e in
                ground (
                  arith,
                  get_elem?-set_self b row (set cells col c),
                  length-set cells col c,
                  v.width row cells at,
                  v.height,
                )
            | inr q ↦
                v.width r cs
                  (sym (get_elem?-set_ne b row r (set cells col c) (λ p. ground arith)) ∙ e)
          ];
        },
      ))

fill-Kept :
    (n : ℕ) (b : Buffer) (row : ℕ) (blank : ScreenChar)
    → n ≤ buffer_width
    → IsScreen b
    → row < buffer_height
    → Kept (fill n b row blank)
unfolding fill
fill-Kept zero b row blank h v lt = (b, refl, v)
fill-Kept (suc n) b row blank h v lt =
    let (b', e, v') = write_cell-Kept b row (buffer_width - suc n) blank v lt (omega arith) in
    rw (e, fill) (fill-Kept n b' row blank (omega arith) v' lt)

copy_row-Kept :
    (n : ℕ) (b : Buffer) (row : ℕ)
    → n ≤ buffer_width
    → IsScreen b
    → row < buffer_height
    → Kept (copy_row n b row)
unfolding copy_row
copy_row-Kept zero b row h v lt = (b, refl, v)
copy_row-Kept (suc n) b row h v lt =
    let (cells, at) = get_elem?-total b row (omega (arith, v.height)) in
    let (c, at') =
      get_elem?-total cells (buffer_width - suc n) (omega (arith, v.width row cells at)) in
    let (b', e, v') =
      write_cell-Kept b (row - 1) (buffer_width - suc n) c v (omega arith) (omega arith) in
    rw (at, copy_row) (rw at' (rw e (copy_row-Kept n b' row (omega arith) v' lt)))

scroll-Kept : (n : ℕ) (b : Buffer) → n ≤ buffer_height → IsScreen b → Kept (scroll n b)
unfolding scroll
scroll-Kept zero b h v = (b, refl, v)
scroll-Kept (suc n) b h v =
    let (b', e, v') =
      copy_row-Kept buffer_width b (buffer_height - suc n) (omega arith) v (omega arith) in
    rw (e, scroll) (scroll-Kept n b' (omega arith) v')

abbrev pub Fine : Option Writer → Type 0
Fine r = (w : Writer) × (r ≡ some w) × IsValid w

clear_row-Fine : (row : ℕ) (w : Writer) → row < buffer_height → IsValid w → Fine (clear_row row w)
unfolding clear_row
clear_row-Fine row w lt v =
    let (b, e, s) =
      fill-Kept buffer_width w.buffer row
        (record { ascii_character = 32; color_code = w.color_code }) (omega arith) v.screen lt in
    rw (e, clear_row) (_, refl, record { screen = s; column = v.column })

-- After a line break there is room in the row.
new_line-Fine :
    (w : Writer)
    → IsValid w
    → (w' : Writer) × (new_line w ≡ some w') × IsValid w' × (w'.column_position ≡ 0)
unfolding new_line
new_line-Fine w v =
    let (b, e, s) = scroll-Kept (buffer_height - 1) w.buffer (omega arith) v.screen in
    let (w', e', v') =
      clear_row-Fine (buffer_height - 1) (record w { buffer = b }) (omega arith)
        (record { screen = s; column = v.column }) in
    (
      record w' { column_position = 0 },
      rw (e, new_line) (rw e' refl),
      record { screen = v'.screen; column = omega arith },
      refl,
    )

put_byte-Fine :
    (byte : ℕ) (w : Writer) → w.column_position < buffer_width → IsValid w → Fine (put_byte byte w)
unfolding put_byte
put_byte-Fine byte w lt v =
    let (b, e, s) =
      write_cell-Kept w.buffer (buffer_height - 1) w.column_position
        (record { ascii_character = byte; color_code = w.color_code }) v.screen (omega arith) lt in
    rw (e, put_byte) (_, refl, record { screen = s; column = omega arith })

write_byte-Fine : (byte : ℕ) (w : Writer) → IsValid w → Fine (write_byte byte w)
unfolding write_byte
write_byte-Fine byte w v =
    let (w', e, v', z) = new_line-Fine w v in
    elim (Bool-cases (byte == 10)) [
      | inl q ↦ rw (q, write_byte) (w', e, v')
      | inr q ↦ elim (Bool-cases (leb buffer_width w.column_position)) [
        | inl q' ↦ rw (q, write_byte) (rw q' (rw e (put_byte-Fine byte w' (omega (arith, z)) v')))
        | inr q' ↦ rw (q, write_byte) (rw q' (put_byte-Fine byte w (ground arith) v))
      ]
    ]

-- No text is written outside the screen: on a screen of 25 rows of 80 cells, with the column at
-- most 80, writing any bytes, line breaks and wrapped lines included, never indexes out of bounds,
-- and leaves such a screen and such a column.
pub write_str-Fine : (bytes : List ℕ) (w : Writer) → IsValid w → Fine (write_str bytes w)
unfolding write_str
write_str-Fine [] w v = (w, refl, v)
write_str-Fine (byte ∷ bytes) w v =
    let (w', e, v') = write_byte-Fine (visible byte) w v in
    rw (e, write_str) (write_str-Fine bytes w' v')
