-- ===== src/Kernel/VgaBuffer/Lines.antt =====
-- kernel/src/drivers/vga_buffer.rs: text in the rows of the screen.
use yacuri.Base.{
  ℕ, suc, ◌+◌, ◌-◌, ◌≤◌, ◌<◌, ◌≡◌, refl, ap, ◌∙◌, arith, true, false, ◌&&◌, if◌then◌else◌, ltb, leb,
  ◌==◌, Bool-cases, inl, inr, some, List, [], ◌∷◌, length, get_or,
}
use yacuri.Kernel.VgaBuffer.{
  ScreenChar, buffer_width, buffer_height, put, Writer, clear_row, new_line, write_char, write_byte,
  printable, and_then, write_string,
}
use yacuri.Kernel.VgaBuffer.Scrolling.{new_line-scrolls}

-- A text of printable ASCII, on one line.
abbrev pub IsLine : List ℕ → Type 0
IsLine [] = Unit
IsLine (byte ∷ bytes) = (0x20 ≤ byte) × (byte ≤ 0x7e) × IsLine bytes

pub new_line-row : (w : Writer) → (new_line w).row_position ≡ w.row_position
unfolding new_line clear_row
new_line-row w = refl

abbrev pub char_of : ℕ → ℕ → ScreenChar
char_of byte color = record { ascii_character = byte; color_code = color }

-- The writer behind one character more.
abbrev pub with_char : ℕ → Writer → Writer
with_char byte w = record w {
  buffer = put w.row_position w.column_position (char_of byte w.color_code) w.buffer;
  column_position = w.column_position + 1;
}

pub write_char-with_char :
    (byte : ℕ) (w : Writer)
    → w.row_position < buffer_height
    → w.column_position < buffer_width
    → write_char byte w ≡ some (with_char byte w)
write_char-with_char byte w on_row on_column =
    let row : ltb w.row_position buffer_height ≡ true = ground (arith, on_row) in
    let column : ltb w.column_position buffer_width ≡ true = ground (arith, on_column) in
    rw (row, column) refl

write_byte-row :
    (byte : ℕ) (w : Writer)
    → w.row_position < buffer_height
    → (w' : Writer) × (write_byte byte w ≡ some w') × (w'.row_position ≡ w.row_position)
unfolding write_byte
write_byte-row byte w on_screen = elim (Bool-cases (byte == 10)) [
  | inl ends ↦ (new_line w, rw ends refl, new_line-row w)
  | inr char ↦ elim (Bool-cases (leb buffer_width w.column_position)) [
    | inl full ↦ (
      with_char byte (new_line w),
      rw (char, full)
          (write_char-with_char byte (new_line w) (omega (arith, new_line-row w, on_screen))
            (omega (arith, (new_line-scrolls w 0 0 (omega arith)).1))),
      new_line-row w,
    )
    | inr room ↦ (
      with_char byte w,
      rw (char, room) (write_char-with_char byte w on_screen (ground (arith, room))),
      refl,
    )
  ]
]

-- On a row of the screen, any text is written without a panic, and the writer stays on its row.
pub write_string-row :
    (text : List ℕ) (w : Writer)
    → w.row_position < buffer_height
    → (w' : Writer) × (write_string text w ≡ some w') × (w'.row_position ≡ w.row_position)
unfolding write_string
write_string-row [] w on_screen = (w, refl, refl)
write_string-row (byte ∷ text) w on_screen =
    let (w₁, e₁, row₁) = write_byte-row (printable byte) w on_screen in
    let (w₂, e₂, row₂) = write_string-row text w₁ (omega (arith, row₁)) in
    (w₂, ap (λ o. and_then o (write_string text)) e₁ ∙ e₂, row₂ ∙ row₁)

write_byte-printable :
    (byte : ℕ) (w : Writer)
    → 0x20 ≤ byte
    → byte ≤ 0x7e
    → w.row_position < buffer_height
    → w.column_position < buffer_width
    → write_byte (printable byte) w ≡ some (with_char byte w)
unfolding write_byte
write_byte-printable byte w low high on_row on_column =
    let ascii : printable byte ≡ byte = ground (arith, low, high) in
    let char : (byte == 10) ≡ false = ground (arith, low) in
    let room : leb buffer_width w.column_position ≡ false = ground (arith, on_column) in
    rw (ascii, char, room) (write_char-with_char byte w on_row on_column)

-- What a line leaves.
pub record Written (text : List ℕ) (w w' : Writer) : Type 0 where
  pub same_row : w'.row_position ≡ w.row_position
  pub behind : w'.column_position ≡ w.column_position + length text
  pub same_color : w'.color_code ≡ w.color_code
  pub chars :
      (r k : ℕ)
      → w'.buffer r k ≡ (
          if (r == w.row_position)
            && (leb w.column_position k && ltb k (w.column_position + length text))
          then char_of (get_or text (k - w.column_position) 0) w.color_code
          else w.buffer r k)

char_at :
    (byte : ℕ) (text : List ℕ) (col k color : ℕ)
    → k ≡ col
    → char_of (get_or (byte ∷ text) (k - col) 0) color ≡ char_of byte color
char_at byte text col k color e = ap (λ i. char_of (get_or (byte ∷ text) i 0) color) first
  where
    first : k - col ≡ 0
    first = omega arith

char_behind :
    (byte : ℕ) (text : List ℕ) (col k color : ℕ)
    → col < k
    → char_of (get_or (byte ∷ text) (k - col) 0) color
      ≡ char_of (get_or text (k - (col + 1)) 0) color
char_behind byte text col k color lt = ap (λ i. char_of (get_or (byte ∷ text) i 0) color) further
  where
    further : k - col ≡ suc (k - (col + 1))
    further = omega arith

-- A line that fits in its row stands in the row, and the rest of the screen is as it was.
pub write_string-Written :
    (text : List ℕ) (w : Writer)
    → IsLine text
    → w.row_position < buffer_height
    → w.column_position + length text ≤ buffer_width
    → (w' : Writer) × (write_string text w ≡ some w') × Written text w w'
unfolding write_string
write_string-Written [] w is_line on_screen fits = (
  w,
  refl,
  record { same_row = refl; behind = omega arith; same_color = refl; chars = λ r k. ground arith },
)
write_string-Written (byte ∷ text) w (low, high, is_line) on_screen fits =
    let (w', e, written) =
      write_string-Written text (with_char byte w) is_line on_screen (omega (arith, fits)) in
    (
      w',
      ap (λ o. and_then o (write_string text))
            (write_byte-printable byte w low high on_screen (omega (arith, fits)))
          ∙ e,
      record {
        same_row = written.same_row;
        behind = omega (arith, written.behind);
        same_color = written.same_color;
        chars = λ r k.
            written.chars r k
            ∙ ground (
              arith,
              char_at byte text w.column_position k w.color_code,
              char_behind byte text w.column_position k w.color_code,
            );
      },
    )
