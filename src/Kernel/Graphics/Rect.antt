-- ===== src/Kernel/Graphics/Rect.antt =====
-- `draw_rect` and `init_graphics` of kernel/src/graphics/mod.rs: what they draw, and when they panic.
use yacuri.Base.{
  ℕ, ◌+◌, ◌*◌, ◌%◌, ◌^◌, ◌≤◌, ◌<◌, ◌≡◌, ◌⊎◌, refl, subst, Option, none, some, List, true, length,
  get_elem?, leb, arith,
}
use native.Mathlib.Nat.{mul-le-mul_right}
use yacuri.Kernel.Graphics.{Framebuffer, Color, offset_of, back, draw_rect}
use yacuri.Kernel.Graphics.Drawing.{HasPixel, Fits, Succeeds, Lines, draw_lines-Lines}

-- A frame buffer with the colour in the three bytes of each pixel of the rectangle, and else as it was
pub record Drawn (fb : Framebuffer) (x y w h : ℕ) (color : Color) (fb' : Framebuffer) : Type 0 where
  pub same : fb' ≡ record fb { buffer = fb'.buffer }
  pub same_length : length fb'.buffer ≡ length fb.buffer
  pub outside :
      (k : ℕ)
      → ((i j : ℕ)
          → i < h
          → j < w
          → (k < (y + i) * fb.stride + (x + j) * fb.bytes_per_pixel)
            ⊎ ((y + i) * fb.stride + (x + j) * fb.bytes_per_pixel + 3 ≤ k))
      → get_elem? fb'.buffer k ≡ get_elem? fb.buffer k
  pub pixels :
      (i j : ℕ)
      → i < h
      → j < w
      → HasPixel fb'.buffer ((y + i) * fb.stride + (x + j) * fb.bytes_per_pixel) color

width_small : (fb : Framebuffer) → Fits fb → fb.width < 2 ^ 63
width_small fb fits =
    let m : 3 * fb.width ≤ fb.bytes_per_pixel * fb.width = mul-le-mul_right fb.width fits.pixel in
    omega (arith, m, fits.line, fits.stride_small)

back-Drawn :
    (fb : Framebuffer) (x y w h : ℕ) (color : Color) (o : Option (List ℕ))
    → Succeeds
        (Lines fb.bytes_per_pixel fb.stride
          (y * fb.stride + x * fb.bytes_per_pixel)
          color
          w
          h
          fb.buffer)
        o
    → Succeeds (Drawn fb x y w h color) (back fb o)
unfolding Succeeds
back-Drawn fb x y w h color none l = absurd l
back-Drawn fb x y w h color (some buf) l = record {
  same = refl;
  same_length = l.same_length;
  outside = λ k o. l.outside k (λ i j e e'. ground (arith, o i j e e'));
  pixels = λ i j e k. subst (λ o. HasPixel buf o color) (omega arith) (l.pixels i j e k);
}

offset_of_lem :
    (fb : Framebuffer) (x y : ℕ)
    → y * fb.stride + x * fb.bytes_per_pixel < 2 ^ 64
    → offset_of fb x y ≡ y * fb.stride + x * fb.bytes_per_pixel
offset_of_lem fb x y h = omega arith

-- Over a memory that holds the screen's lines, with pixels of at least 3 bytes, a rectangle inside the
-- screen whose lower end is no lower than the screen is wide is drawn: each of its pixels has the colour
-- in its first 3 bytes, and every other byte and the form of the frame buffer are as they were.
pub draw_rect-Drawn :
    (x y w h : ℕ) (color : Color) (fb : Framebuffer)
    → Fits fb
    → x + w ≤ fb.width
    → y + h ≤ fb.height
    → y + h ≤ fb.width
    → Succeeds (Drawn fb x y w h color) (draw_rect x y w h color fb)
unfolding draw_rect
draw_rect-Drawn x y w h color fb fits right low quirk =
    let b = fb.bytes_per_pixel in
    let s = fb.stride in
    let small = width_small fb fits in
    let mx : (x + w) * b ≤ fb.width * b = mul-le-mul_right b right in
    let my : (y + h) * s ≤ fb.height * s = mul-le-mul_right s low in
    let c₁ : leb ((x + w) % 2 ^ 64) fb.width ≡ true = ground arith in
    let c₂ : leb ((y + h) % 2 ^ 64) fb.width ≡ true = ground arith in
    rw c₁ (
      rw c₂ (
        rw
          (offset_of_lem fb x y
            (omega (arith, mx, my, fits.line, fits.lines, fits.stride_small, fits.small)))
          (back-Drawn fb x y w h color _ (
            draw_lines-Lines fb (y * s + x * b) color w h fb.buffer fits refl
              (omega (arith, mx, fits.line)) (omega (arith, mx, my, fits.line, fits.lines))))))
