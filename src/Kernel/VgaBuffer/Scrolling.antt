-- ===== src/Kernel/VgaBuffer/Scrolling.antt =====
-- kernel/src/drivers/vga_buffer.rs: what a new line does to the screen.
use yacuri.Base.{
  ℕ, zero, suc, ◌+◌, ◌-◌, ◌<◌, ◌≡◌, refl, ap, sym, ◌∙◌, arith, ◌&&◌, if◌then◌else◌, ltb, leb, ◌==◌,
}
use yacuri.Kernel.VgaBuffer.{
  ScreenChar, text_height, buffer_width, Buffer, put, Writer, copy_cols, copy_rows, clear_cols,
  blank, clear_row, new_line,
}

copy_cols-at :
    (n row col : ℕ) (buffer : Buffer) (r k : ℕ)
    → 0 < row
    → copy_cols n row col buffer r k
      ≡ (if (r + 1 == row) && (leb col k && ltb k (col + n)) then buffer row k else buffer r k)
unfolding copy_cols
copy_cols-at zero row col buffer r k h = ground arith
copy_cols-at (suc n) row col buffer r k h =
    let same : k ≡ col → buffer row k ≡ buffer row col = λ e. ap (buffer row) e in
    copy_cols-at n row (col + 1) (put (row - 1) col (buffer row col) buffer) r k h
    ∙ ground (arith, same)

pub clear_cols-at :
    (n row col : ℕ) (c : ScreenChar) (buffer : Buffer) (r k : ℕ)
    → clear_cols n row col c buffer r k
      ≡ (if (r == row) && (leb col k && ltb k (col + n)) then c else buffer r k)
unfolding clear_cols
clear_cols-at zero row col c buffer r k = ground arith
clear_cols-at (suc n) row col c buffer r k =
    clear_cols-at n row (col + 1) c (put row col c buffer) r k ∙ ground arith

copy_rows-at :
    (n row : ℕ) (buffer : Buffer) (r k : ℕ)
    → 0 < row
    → copy_rows n row buffer r k ≡ (
        if (leb row (r + 1) && ltb (r + 1) (row + n)) && ltb k buffer_width
        then buffer (r + 1) k
        else buffer r k)
unfolding copy_rows
copy_rows-at zero row buffer r k h = ground arith
copy_rows-at (suc n) row buffer r k h =
    let same : r + 1 ≡ row → buffer row k ≡ buffer (r + 1) k = λ e. ap (λ x. buffer x k) (sym e) in
    copy_rows-at n (row + 1) (copy_cols buffer_width row 0 buffer) r k (omega arith)
    ∙ ground (
      arith,
      same,
      copy_cols-at buffer_width row 0 buffer (r + 1) k h,
      copy_cols-at buffer_width row 0 buffer r k h,
    )

-- On the columns of the screen, a new line moves the text up by a row, blanks the last row of the
-- text in the writer's colour, and leaves the rows below it; the column starts over.
pub new_line-scrolls :
    (w : Writer) (r k : ℕ)
    → k < buffer_width
    → ((new_line w).buffer r k ≡ (
        if ltb (r + 1) text_height
        then w.buffer (r + 1) k
        else if r + 1 == text_height
        then blank w.color_code
        else w.buffer r k))
      × ((new_line w).column_position ≡ 0)
unfolding new_line clear_row
new_line-scrolls w r k on_screen = (
  clear_cols-at buffer_width (text_height - 1) 0 (blank w.color_code)
        (copy_rows (text_height - 1) 1 w.buffer) r k
      ∙ ground (arith, copy_rows-at (text_height - 1) 1 w.buffer r k (omega arith)),
  refl,
)
