-- ===== src/Kernel/VgaBuffer.antt =====
-- kernel/src/drivers/vga_buffer.rs: the text screen. The hardware cursor is left out.
pub mod Scrolling
pub mod Lines
pub mod ShellRow
mod Tests
use Prim.Native.Nat.{bit_or}
use yacuri.Base.{
  ℕ, zero, suc, ◌+◌, ◌-◌, ◌*◌, ◌%◌, Bool, true, false, ◌&&◌, ◌||◌, Option, none, some, List, [],
  ◌∷◌, if◌then◌else◌, ltb, leb, ◌==◌,
}

-- `Color`, by its discriminants
abbrev pub black : ℕ
black = 0

abbrev pub magenta : ℕ
magenta = 5

-- `ColorCode::new`
abbrev pub new_color : (foreground background : ℕ) → ℕ
new_color foreground background = bit_or (background * 16 % 256) foreground

pub record ScreenChar : Type 0 where
  pub ascii_character : ℕ
  pub color_code : ℕ

abbrev pub buffer_height : ℕ
buffer_height = 25

abbrev pub text_height : ℕ
text_height = 24

abbrev pub shell_row : ℕ
shell_row = 24

abbrev pub buffer_width : ℕ
buffer_width = 80

-- `Buffer`: the character at a row and a column
abbrev pub Buffer : Type 0
Buffer = ℕ → ℕ → ScreenChar

abbrev pub put : (row col : ℕ) → ScreenChar → Buffer → Buffer
put row col c buffer = λ r k. if (r == row) && (k == col) then c else buffer r k

-- `Writer`, less its cursor
pub record Writer : Type 0 where
  pub row_position : ℕ
  pub column_position : ℕ
  pub color_code : ℕ
  pub buffer : Buffer

-- The inner loop of `new_line`, with `n` columns to go.
unfoldable pub copy_cols : (n row col : ℕ) → Buffer → Buffer
copy_cols zero row col buffer = buffer
copy_cols (suc n) row col buffer =
    copy_cols n row (col + 1) (put (row - 1) col (buffer row col) buffer)

-- The outer loop of `new_line`, with `n` rows to go.
unfoldable pub copy_rows : (n row : ℕ) → Buffer → Buffer
copy_rows zero row buffer = buffer
copy_rows (suc n) row buffer = copy_rows n (row + 1) (copy_cols buffer_width row 0 buffer)

-- The loop of `clear_row`, with `n` columns to go.
unfoldable pub clear_cols : (n row col : ℕ) → ScreenChar → Buffer → Buffer
clear_cols zero row col blank buffer = buffer
clear_cols (suc n) row col blank buffer =
    clear_cols n row (col + 1) blank (put row col blank buffer)

abbrev pub blank : ℕ → ScreenChar
blank color = record { ascii_character = 0x20; color_code = color }

unfoldable pub clear_row : (row start : ℕ) → Writer → Writer
clear_row row start w = record w {
  buffer = clear_cols (buffer_width - start) row start (blank w.color_code) w.buffer;
}

unfoldable pub new_line : Writer → Writer
new_line w =
    let scrolled : Writer = record w { buffer = copy_rows (text_height - 1) 1 w.buffer } in
    record (clear_row (text_height - 1) 0 scrolled) { column_position = 0 }

-- The write to the buffer in `write_byte`: a row or a column out of range panics.
abbrev pub write_char : ℕ → Writer → Option Writer
write_char byte w =
    if ltb w.row_position buffer_height && ltb w.column_position buffer_width
    then some (record w {
      buffer =
          put w.row_position w.column_position
            (record { ascii_character = byte; color_code = w.color_code }) w.buffer;
      column_position = w.column_position + 1;
    })
    else none

unfoldable pub write_byte : ℕ → Writer → Option Writer
write_byte byte w =
    if byte == 10
    then some (new_line w)
    else write_char byte (if leb buffer_width w.column_position then new_line w else w)

-- What `write_string` writes for a byte.
abbrev pub printable : ℕ → ℕ
printable byte = if (leb 0x20 byte && leb byte 0x7e) || (byte == 10) then byte else 0xfe

abbrev pub and_then : Option Writer → (Writer → Option Writer) → Option Writer
and_then none k = none
and_then (some w) k = k w

unfoldable pub write_string : List ℕ → Writer → Option Writer
write_string [] w = some w
write_string (byte ∷ bytes) w = and_then (write_byte (printable byte) w) (write_string bytes)

abbrev pub back_to : (row col : ℕ) → Option Writer → Option Writer
back_to row col none = none
back_to row col (some w) = some (record w { row_position = row; column_position = col })

unfoldable pub write_shell_line : List ℕ → Writer → Option Writer
write_shell_line text w = back_to w.row_position w.column_position (
    write_string text
      (record (clear_row shell_row 2 w) { row_position = shell_row; column_position = 2 }))

-- `set_color` and `reset_color`
abbrev pub set_color : ℕ → Writer → Writer
set_color color w = record w { color_code = new_color color black }

abbrev pub reset_color : Writer → Writer
reset_color = set_color magenta
