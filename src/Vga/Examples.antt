-- ===== src/Vga/Examples.antt =====
-- The writer at work on a blank screen.
use sovelma_os.Prelude.{
  ℕ, zero, suc, ◌≡◌, List, [], ◌∷◌, some, length, get_elem?, replicate, arith, length-replicate,
  subst,
}
use sovelma_os.Vga.{Buffer, ScreenChar, new, write_str, buffer_height, buffer_width}
use sovelma_os.Vga.Screen.{IsScreen, Fine, write_str-Fine}

abbrev blank_cell : ScreenChar
blank_cell = record { ascii_character = 32; color_code = 15 }

abbrev blank_row : List ScreenChar
blank_row = replicate buffer_width blank_cell

abbrev blank : Buffer
blank = replicate buffer_height blank_row

-- Every element of a constant list is that constant.
get_elem?-replicate :
    {A : Type 0} (n : ℕ) (a b : A) (i : ℕ) → get_elem? (replicate n a) i ≡ some b → a ≡ b
get_elem?-replicate zero a b i e = absurd (ground arith)
get_elem?-replicate (suc n) a b zero e = ground arith
get_elem?-replicate (suc n) a b (suc i) e = get_elem?-replicate n a b i e

blank-IsScreen : IsScreen blank
blank-IsScreen = record {
  height = length-replicate buffer_height blank_row;
  width = λ row cells e.
      let same : blank_row ≡ cells = get_elem?-replicate buffer_height blank_row cells row e in
      subst (λ cs. length cs ≡ buffer_width) same (length-replicate buffer_width blank_cell);
}

-- "A", a line break and a byte that is not printable.
write_str-Fine_example : Fine (write_str (65 ∷ 10 ∷ 200 ∷ []) (new blank))
unfolding new
write_str-Fine_example =
    write_str-Fine (65 ∷ 10 ∷ 200 ∷ []) (new blank)
      (record { screen = blank-IsScreen; column = omega arith })
