-- ===== src/Kernel/Graphics/Tests.antt =====
-- Two small screens: two pixels by two, and one that is higher than wide.
use yacuri.Base.{◌≡◌, refl, none, some, [], ◌∷◌, replicate, arith}
use yacuri.Kernel.Graphics.{
  Framebuffer, Color, FrameBufferInfo, framebuffer_of, set_pixel, draw_pixel, draw_hori_line,
  draw_rect,
}
use yacuri.Kernel.Graphics.Drawing.{Fits, Succeeds}
use yacuri.Kernel.Graphics.Rect.{Drawn, draw_rect-Drawn}

abbrev orange : Color
orange = record { red = 255; green = 128; blue = 7 }

abbrev screen : Framebuffer
screen = record { buffer = replicate 12 0; height = 2; width = 2; stride = 6; bytes_per_pixel = 3 }

abbrev screen-Fits : Fits screen
screen-Fits = record {
  pixel = omega arith;
  line = omega arith;
  lines = omega arith;
  pixel_small = omega arith;
  stride_small = omega arith;
  small = omega arith;
}

abbrev portrait : FrameBufferInfo
portrait = record {
  horizontal_resolution = 1;
  vertical_resolution = 2;
  stride = 1;
  bytes_per_pixel = 3;
}

abbrev portrait-Fits : Fits (framebuffer_of portrait (replicate 6 0))
portrait-Fits = record {
  pixel = omega arith;
  line = omega arith;
  lines = omega arith;
  pixel_small = omega arith;
  stride_small = omega arith;
  small = omega arith;
}

-- The right column of the screen
draws_column :
    draw_rect 1 0 1 2 orange screen
    ≡ some (record screen { buffer = 0 ∷ 0 ∷ 0 ∷ 7 ∷ 128 ∷ 255 ∷ 0 ∷ 0 ∷ 0 ∷ 7 ∷ 128 ∷ 255 ∷ [] })
unfolding draw_rect set_pixel
draws_column = refl

draws_line :
    draw_hori_line 0 1 1 orange screen
    ≡ some (record screen { buffer = 0 ∷ 0 ∷ 0 ∷ 0 ∷ 0 ∷ 0 ∷ 7 ∷ 128 ∷ 255 ∷ 0 ∷ 0 ∷ 0 ∷ [] })
unfolding draw_hori_line set_pixel
draws_line = refl

-- A pixel outside of the memory panics.
draws_outside : draw_pixel 0 2 orange screen ≡ none
unfolding draw_pixel set_pixel
draws_outside = refl

draw_rect-Drawn_example : Succeeds (Drawn screen 1 0 1 2 orange) (draw_rect 1 0 1 2 orange screen)
draw_rect-Drawn_example =
    draw_rect-Drawn 1 0 1 2 orange screen screen-Fits (omega arith) (omega arith) (omega arith)
