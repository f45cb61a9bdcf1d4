-- ===== src/Kernel/VgaBuffer/ShellRow.antt =====
-- kernel/src/drivers/vga_buffer.rs: the shell's row.
use yacuri.Base.{
  ℕ, ◌+◌, ◌-◌, ◌≤◌, ◌<◌, ◌≡◌, refl, ap, ◌∙◌, arith, true, false, ◌&&◌, if◌then◌else◌, ltb, leb,
  ◌==◌, Option-cases, inl, inr, some, List, [], ◌∷◌, ◌++◌, length, get_or,
}
use yacuri.Kernel.VgaBuffer.{
  text_height, buffer_width, buffer_height, shell_row, Writer, blank, clear_row, new_line,
  write_byte, printable, and_then, write_string, back_to, write_shell_line,
}
use yacuri.Kernel.VgaBuffer.Scrolling.{clear_cols-at, new_line-scrolls}
use yacuri.Kernel.VgaBuffer.Lines.{
  IsLine, char_of, with_char, write_char-with_char, new_line-row, write_string-Written,
}

clear_row-at :
    (w : Writer) (r k : ℕ)
    → k < buffer_width
    → (clear_row shell_row 2 w).buffer r k
      ≡ (if (r == shell_row) && leb 2 k then blank w.color_code else w.buffer r k)
unfolding clear_row
clear_row-at w r k on_screen =
    clear_cols-at (buffer_width - 2) shell_row 2 (blank w.color_code) w.buffer r k ∙ ground arith

-- The shell's row, cleared, with the writer at its start.
abbrev at_shell : Writer → Writer
at_shell w = record (clear_row shell_row 2 w) { row_position = shell_row; column_position = 2 }

-- A line of 78 characters at most is shown behind the shell's prompt, with blanks behind it, the
-- rows of the text are as they were, and the writer is back where it was.
pub write_shell_line-shows :
    (text : List ℕ) (w : Writer)
    → IsLine text
    → length text ≤ 78
    → (w' : Writer) × (write_shell_line text w ≡ some w')
      × (w'.row_position ≡ w.row_position)
      × (w'.column_position ≡ w.column_position)
      × ((r k : ℕ)
          → k < buffer_width
          → w'.buffer r k ≡ (
              if (r == shell_row) && leb 2 k
              then (if ltb k (2 + length text)
                  then char_of (get_or text (k - 2) 0) w.color_code
                  else blank w.color_code)
              else w.buffer r k))
unfolding write_shell_line clear_row
write_shell_line-shows text w is_line fits =
    let (w', e, written) =
      write_string-Written text (at_shell w) is_line (omega arith) (omega arith) in
    (
      record w' { row_position = w.row_position; column_position = w.column_position },
      ap (back_to w.row_position w.column_position) e,
      refl,
      refl,
      λ r k on_screen. written.chars r k ∙ ground (arith, clear_row-at w r k on_screen),
    )

write_string-append :
    (xs ys : List ℕ) (w : Writer)
    → write_string (xs ++ ys) w ≡ and_then (write_string xs w) (write_string ys)
unfolding write_string
write_string-append [] ys w = refl
write_string-append (x ∷ xs) ys w = elim (Option-cases (write_byte (printable x) w)) [
  | inl panics ↦ rw panics refl
  | inr (w', e) ↦ rw e (write_string-append xs ys w')
]

new_line-color : (w : Writer) → (new_line w).color_code ≡ w.color_code
unfolding new_line clear_row
new_line-color w = refl

-- A character behind the last column.
write_string-full :
    (byte : ℕ) (w : Writer)
    → IsLine (byte ∷ [])
    → w.row_position < buffer_height
    → buffer_width ≤ w.column_position
    → write_string (byte ∷ []) w ≡ some (with_char byte (new_line w))
unfolding write_string write_byte
write_string-full byte w (low, high, rest) on_row full =
    let ascii : printable byte ≡ byte = ground (arith, low, high) in
    let char : (byte == 10) ≡ false = ground (arith, low) in
    let no_room : leb buffer_width w.column_position ≡ true = ground (arith, full) in
    let written : write_byte (printable byte) w ≡ some (with_char byte (new_line w)) =
      rw (ascii, char, no_room)
        (write_char-with_char byte (new_line w) (omega (arith, new_line-row w, on_row))
          (omega (arith, (new_line-scrolls w 0 0 (omega arith)).1))) in
    ap (λ o. and_then o some) written

-- One character more than the 78 that fit scrolls the text above by a row, and stands on the prompt.
pub write_shell_line-scrolls :
    (text : List ℕ) (byte : ℕ) (w : Writer)
    → IsLine text
    → length text ≡ 78
    → IsLine (byte ∷ [])
    → (w' : Writer) × (write_shell_line (text ++ byte ∷ []) w ≡ some w')
      × ((r k : ℕ) → r + 1 < text_height → k < buffer_width → w'.buffer r k ≡ w.buffer (r + 1) k)
      × (w'.buffer shell_row 0 ≡ char_of byte w.color_code)
unfolding write_shell_line clear_row
write_shell_line-scrolls text byte w is_line full is_char =
    let (w', e, written) =
      write_string-Written text (at_shell w) is_line (omega arith) (omega arith) in
    let next = with_char byte (new_line w') in
    let row : (new_line w').row_position ≡ shell_row =
      omega (arith, new_line-row w', written.same_row) in
    let column : (new_line w').column_position ≡ 0 = (new_line-scrolls w' 0 0 (omega arith)).1 in
    let color : char_of byte (new_line w').color_code ≡ char_of byte w.color_code =
      ap (char_of byte) (new_line-color w' ∙ written.same_color) in
    (
      record next { row_position = w.row_position; column_position = w.column_position },
      ap (back_to w.row_position w.column_position) (
          write_string-append text (byte ∷ []) (at_shell w)
          ∙ ap (λ o. and_then o (write_string (byte ∷ []))) e
          ∙ write_string-full byte w' is_char (omega (arith, written.same_row))
              (omega (arith, written.behind, full))),
      (λ r k inside on_screen. ground (
        arith,
        row,
        (new_line-scrolls w' r k on_screen).0,
        written.chars (r + 1) k,
        clear_row-at w (r + 1) k on_screen,
      )),
      ground (arith, row, column, color),
    )
