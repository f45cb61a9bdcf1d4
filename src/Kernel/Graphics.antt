-- ===== src/Kernel/Graphics.antt =====
-- kernel/src/graphics/mod.rs: the frame buffer. The lock and the one-time cell around it hold one value,
-- which is passed along; `none` is a panic, of an assertion or of an index out of range.
use yacuri.Base.{
  ℕ, zero, suc, ◌+◌, ◌*◌, ◌/◌, ◌%◌, ◌^◌, Option, none, some, List, if◌then◌else◌, length, set, ltb,
  leb,
}
pub mod Drawing
pub mod Rect
mod Tests

pub record Framebuffer : Type 0 where
  pub buffer : List ℕ
  -- In pixels
  pub height : ℕ
  pub width : ℕ
  -- In bytes
  pub stride : ℕ
  pub bytes_per_pixel : ℕ

pub record Color : Type 0 where
  pub red : ℕ
  pub green : ℕ
  pub blue : ℕ

-- `Color::hex`
abbrev pub hex : ℕ → Color
hex number = record { red = number / 65536 % 256; green = number / 256 % 256; blue = number % 256 }

abbrev pub store : ℕ → ℕ → List ℕ → Option (List ℕ)
store i v buf = if ltb i (length buf) then some (set buf i v) else none

abbrev pub and_then : Option (List ℕ) → (List ℕ → Option (List ℕ)) → Option (List ℕ)
and_then none f = none
and_then (some buf) f = f buf

unfoldable pub set_pixel : List ℕ → ℕ → Color → Option (List ℕ)
set_pixel buf offset color = and_then (store offset color.blue buf) λ buf₁.
    and_then (store ((offset + 1) % 2 ^ 64) color.green buf₁)
      λ buf₂. store ((offset + 2) % 2 ^ 64) color.red buf₂

-- The offset of the pixel (x, y)
abbrev pub offset_of : Framebuffer → ℕ → ℕ → ℕ
offset_of fb x y = (y * fb.stride % 2 ^ 64 + x * fb.bytes_per_pixel % 2 ^ 64) % 2 ^ 64

-- The loop over the pixels of a line, `n` of them still to go
abbrev pub draw_line : ℕ → ℕ → Color → ℕ → List ℕ → Option (List ℕ)
draw_line bytes_per_pixel offset color zero buf = some buf
draw_line bytes_per_pixel offset color (suc n) buf =
    and_then (set_pixel buf offset color)
      λ buf'. draw_line bytes_per_pixel ((offset + bytes_per_pixel) % 2 ^ 64) color n buf'

-- The loop over the lines of a rectangle, `n` of them still to go
abbrev pub draw_lines : Framebuffer → ℕ → Color → ℕ → ℕ → List ℕ → Option (List ℕ)
draw_lines fb line_offset color w zero buf = some buf
draw_lines fb line_offset color w (suc n) buf =
    and_then (draw_line fb.bytes_per_pixel line_offset color w buf)
      λ buf'. draw_lines fb ((line_offset + fb.stride) % 2 ^ 64) color w n buf'

-- The frame buffer with the bytes that were drawn
abbrev pub back : Framebuffer → Option (List ℕ) → Option Framebuffer
back fb none = none
back fb (some buf) = some (record fb { buffer = buf })

unfoldable pub draw_pixel : ℕ → ℕ → Color → Framebuffer → Option Framebuffer
draw_pixel x y color fb = back fb (set_pixel fb.buffer (offset_of fb x y) color)

unfoldable pub draw_hori_line : ℕ → ℕ → ℕ → Color → Framebuffer → Option Framebuffer
draw_hori_line x y len color fb =
    if leb ((x + len) % 2 ^ 64) fb.width
    then back fb (draw_line fb.bytes_per_pixel (offset_of fb x y) color len fb.buffer)
    else none

-- Both assertions compare to the width.
unfoldable pub draw_rect : ℕ → ℕ → ℕ → ℕ → Color → Framebuffer → Option Framebuffer
draw_rect x y w h color fb =
    if leb ((x + w) % 2 ^ 64) fb.width
    then if leb ((y + h) % 2 ^ 64) fb.width
      then back fb (draw_lines fb (offset_of fb x y) color w h fb.buffer)
      else none
    else none

-- The bootloader's `FrameBufferInfo`: the stride is in pixels.
pub record FrameBufferInfo : Type 0 where
  pub horizontal_resolution : ℕ
  pub vertical_resolution : ℕ
  pub stride : ℕ
  pub bytes_per_pixel : ℕ

-- `info` and buffer of the bootloader, in the driver's form
abbrev pub framebuffer_of : FrameBufferInfo → List ℕ → Framebuffer
framebuffer_of info buffer = record {
  buffer = buffer;
  height = info.vertical_resolution;
  width = info.horizontal_resolution;
  stride = info.stride * info.bytes_per_pixel % 2 ^ 64;
  bytes_per_pixel = info.bytes_per_pixel;
}

-- The first call, which fills the cell
unfoldable pub init_graphics : FrameBufferInfo → List ℕ → Option Framebuffer
init_graphics info buffer =
    draw_rect 0 0 info.horizontal_resolution info.vertical_resolution (hex 0x111111)
      (framebuffer_of info buffer)
