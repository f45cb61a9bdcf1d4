-- ===== src/Kernel/VgaBuffer/Tests.antt =====
-- kernel/src/drivers/vga_buffer.rs: a screen of dots.
use yacuri.Base.{
  ℕ, zero, suc, ◌+◌, ◌-◌, ◌<◌, ◌≡◌, refl, arith, ◌&&◌, some, List, [], ◌∷◌, ◌++◌, replicate,
  if◌then◌else◌, ltb, leb, ◌==◌, get_or,
}
use yacuri.Kernel.VgaBuffer.{
  text_height, buffer_width, shell_row, Writer, blank, new_color, black, magenta, new_line,
  write_string, write_shell_line,
}
use yacuri.Kernel.VgaBuffer.Scrolling.{new_line-scrolls}
use yacuri.Kernel.VgaBuffer.Lines.{IsLine, char_of, Written, write_string-row, write_string-Written}
use yacuri.Kernel.VgaBuffer.ShellRow.{write_shell_line-shows, write_shell_line-scrolls}

abbrev writer : Writer
writer = record {
  row_position = 23;
  column_position = 0;
  color_code = 5;
  buffer = λ r k. char_of 0x2E 7;
}

color : new_color magenta black ≡ 5
color = refl

abbrev word : List ℕ
word = 0x6C ∷ 0x73 ∷ []

word-IsLine : IsLine word
word-IsLine = (omega arith, omega arith, (omega arith, omega arith, tt))

new_line-scrolls_example :
    ((new_line writer).buffer 23 4 ≡ blank 5) × ((new_line writer).column_position ≡ 0)
new_line-scrolls_example = new_line-scrolls writer 23 4 (omega arith)

write_string-row_example :
    (w' : Writer) × (write_string (0x6C ∷ 10 ∷ 0xC3 ∷ []) writer ≡ some w') × (w'.row_position ≡ 23)
write_string-row_example = write_string-row (0x6C ∷ 10 ∷ 0xC3 ∷ []) writer (omega arith)

write_string-Written_example :
    (w' : Writer) × (write_string word writer ≡ some w') × Written word writer w'
write_string-Written_example =
    write_string-Written word writer word-IsLine (omega arith) (omega arith)

write_shell_line-shows_example :
    (w' : Writer) × (write_shell_line word writer ≡ some w')
    × (w'.row_position ≡ 23)
    × (w'.column_position ≡ 0)
    × ((r k : ℕ)
        → k < buffer_width
        → w'.buffer r k ≡ (
            if (r == shell_row) && leb 2 k
            then (if ltb k 4 then char_of (get_or word (k - 2) 0) 5 else blank 5)
            else char_of 0x2E 7))
write_shell_line-shows_example = write_shell_line-shows word writer word-IsLine (omega arith)

abbrev letters : List ℕ
letters = replicate 78 0x61

letters-IsLine : IsLine letters
letters-IsLine = letters_of 78
  where
    letters_of : (n : ℕ) → IsLine (replicate n 0x61)
    letters_of zero = tt
    letters_of (suc n) = (omega arith, omega arith, letters_of n)

write_shell_line-scrolls_example :
    (w' : Writer) × (write_shell_line (letters ++ 0x62 ∷ []) writer ≡ some w')
    × ((r k : ℕ) → r + 1 < text_height → k < buffer_width → w'.buffer r k ≡ char_of 0x2E 7)
    × (w'.buffer shell_row 0 ≡ char_of 0x62 5)
write_shell_line-scrolls_example =
    write_shell_line-scrolls letters 0x62 writer letters-IsLine refl (omega arith, omega arith, tt)
