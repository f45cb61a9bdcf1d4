-- ===== src/Kernel/Graphics/Drawing.antt =====
-- The bytes that kernel/src/graphics/mod.rs draws, and when it panics.
use yacuri.Base.{
  ℕ, zero, suc, ◌+◌, ◌*◌, ◌%◌, ◌^◌, ◌≤◌, ◌<◌, ◌≡◌, ◌⊎◌, refl, subst, ◌∙◌, Option, none, some, List,
  length, set, get_elem?, length-set, get_elem?-set_self, get_elem?-set_ne, arith,
}
use native.Mathlib.Nat.{mul-le-mul_right}
use yacuri.Kernel.Graphics.{Framebuffer, Color, store, and_then, set_pixel, draw_line, draw_lines}

abbrev pub HasPixel : List ℕ → ℕ → Color → Type 0
HasPixel buf i color =
    (get_elem? buf i ≡ some color.blue)
    × (get_elem? buf (i + 1) ≡ some color.green)
    × (get_elem? buf (i + 2) ≡ some color.red)

-- The memory behind the screen holds its lines, each line its pixels.
pub record Fits (fb : Framebuffer) : Type 0 where
  pub pixel : 3 ≤ fb.bytes_per_pixel
  pub line : fb.width * fb.bytes_per_pixel ≤ fb.stride
  pub lines : fb.height * fb.stride ≤ length fb.buffer
  pub pixel_small : fb.bytes_per_pixel < 2 ^ 63
  pub stride_small : fb.stride < 2 ^ 63
  pub small : length fb.buffer < 2 ^ 63

unfoldable pub Succeeds : {A : Type 0} → (A → Type 0) → Option A → Type 0
Succeeds P none = ⊥
Succeeds P (some a) = P a

unfoldable pixels_of : List ℕ → ℕ → Color → List ℕ
pixels_of buf i color = set (set (set buf i color.blue) (i + 1) color.green) (i + 2) color.red

store_lem : (i v : ℕ) (buf : List ℕ) → i < length buf → store i v buf ≡ some (set buf i v)
store_lem i v buf h = ground arith

set_pixel_lem :
    (buf : List ℕ) (i : ℕ) (color : Color)
    → i + 3 ≤ length buf
    → length buf < 2 ^ 63
    → set_pixel buf i color ≡ some (pixels_of buf i color)
unfolding set_pixel pixels_of
set_pixel_lem buf i color h small =
    let n₁ = length-set buf i color.blue in
    let n₂ = length-set (set buf i color.blue) (i + 1) color.green in
    let m₁ : (i + 1) % 2 ^ 64 ≡ i + 1 = omega arith in
    let m₂ : (i + 2) % 2 ^ 64 ≡ i + 2 = omega arith in
    rw (store_lem i color.blue buf (omega arith)) (
      rw m₁ (
        rw (store_lem (i + 1) color.green (set buf i color.blue) (omega (arith, n₁)))
          (rw m₂ (store_lem (i + 2) color.red _ (omega (arith, n₁, n₂))))))

length-pixels_of :
    (buf : List ℕ) (i : ℕ) (color : Color) → length (pixels_of buf i color) ≡ length buf
unfolding pixels_of
length-pixels_of buf i color =
    length-set (set (set buf i color.blue) (i + 1) color.green) (i + 2) color.red
    ∙ length-set (set buf i color.blue) (i + 1) color.green
    ∙ length-set buf i color.blue

pixels_of-below :
    (buf : List ℕ) (i : ℕ) (color : Color) (k : ℕ)
    → k < i
    → get_elem? (pixels_of buf i color) k ≡ get_elem? buf k
unfolding pixels_of
pixels_of-below buf i color k h =
    get_elem?-set_ne (set (set buf i color.blue) (i + 1) color.green) color.red (omega arith)
    ∙ get_elem?-set_ne (set buf i color.blue) color.green (omega arith)
    ∙ get_elem?-set_ne buf color.blue (omega arith)

-- A byte beside the three of a pixel is as it was.
pixels_of-outside :
    (buf : List ℕ) (i : ℕ) (color : Color) (k : ℕ)
    → (k < i) ⊎ (i + 3 ≤ k)
    → get_elem? (pixels_of buf i color) k ≡ get_elem? buf k
unfolding pixels_of
pixels_of-outside buf i color k h =
    get_elem?-set_ne (set (set buf i color.blue) (i + 1) color.green) color.red (ground (arith, h))
    ∙ get_elem?-set_ne (set buf i color.blue) color.green (ground (arith, h))
    ∙ get_elem?-set_ne buf color.blue (ground (arith, h))

pixels_of-HasPixel :
    (buf : List ℕ) (i : ℕ) (color : Color)
    → i + 3 ≤ length buf
    → HasPixel (pixels_of buf i color) i color
unfolding pixels_of
pixels_of-HasPixel buf i color h =
    let n₁ = length-set buf i color.blue in
    let n₂ = length-set (set buf i color.blue) (i + 1) color.green in
    (
      get_elem?-set_ne (set (set buf i color.blue) (i + 1) color.green) color.red (omega arith)
          ∙ get_elem?-set_ne (set buf i color.blue) color.green (omega arith)
          ∙ get_elem?-set_self buf i color.blue (omega arith),
      get_elem?-set_ne (set (set buf i color.blue) (i + 1) color.green) color.red (omega arith)
          ∙ get_elem?-set_self (set buf i color.blue) (i + 1) color.green (omega (arith, n₁)),
      get_elem?-set_self (set (set buf i color.blue) (i + 1) color.green) (i + 2) color.red
          (omega (arith, n₁, n₂)),
    )

-- `n` pixels from the offset on are drawn, and no byte beside their colours.
record Line (bpp offset : ℕ) (color : Color) (n : ℕ) (buf buf' : List ℕ) : Type 0 where
  pub same_length : length buf' ≡ length buf
  pub before : (k : ℕ) → k < offset → get_elem? buf' k ≡ get_elem? buf k
  pub outside :
      (k : ℕ)
      → ((j : ℕ) → j < n → (k < offset + j * bpp) ⊎ (offset + j * bpp + 3 ≤ k))
      → get_elem? buf' k ≡ get_elem? buf k
  pub pixels : (j : ℕ) → j < n → HasPixel buf' (offset + j * bpp) color

and_then-Succeeds :
    (P Q : List ℕ → Type 0) (o : Option (List ℕ)) (f : List ℕ → Option (List ℕ))
    → Succeeds P o
    → ((buf : List ℕ) → P buf → Succeeds Q (f buf))
    → Succeeds Q (and_then o f)
unfolding Succeeds
and_then-Succeeds P Q none f h k = absurd h
and_then-Succeeds P Q (some buf) f h k = k buf h

Succeeds-map :
    (P Q : List ℕ → Type 0) (o : Option (List ℕ))
    → Succeeds P o
    → ((buf : List ℕ) → P buf → Q buf)
    → Succeeds Q o
unfolding Succeeds
Succeeds-map P Q none h k = absurd h
Succeeds-map P Q (some buf) h k = k buf h

HasPixel-before :
    (buf buf' : List ℕ) (offset : ℕ) (color : Color) (i : ℕ)
    → ((k : ℕ) → k < offset → get_elem? buf' k ≡ get_elem? buf k)
    → i + 3 ≤ offset
    → HasPixel buf i color
    → HasPixel buf' i color
HasPixel-before buf buf' offset color i before h p = (
  before i (omega arith) ∙ p.0,
  before (i + 1) (omega arith) ∙ p.1,
  before (i + 2) (omega arith) ∙ p.2,
)

-- The first pixel, with the line behind it
Line-suc :
    (bpp offset : ℕ) (color : Color) (n : ℕ) (buf buf' : List ℕ)
    → 3 ≤ bpp
    → offset + 3 ≤ length buf
    → Line bpp (offset + bpp) color n (pixels_of buf offset color) buf'
    → Line bpp offset color (suc n) buf buf'
Line-suc bpp offset color n buf buf' three room l = record {
  same_length = l.same_length ∙ length-pixels_of buf offset color;
  before = λ k h. l.before k (omega arith) ∙ pixels_of-below buf offset color k h;
  outside = λ k o.
      l.outside k (λ j h. ground (arith, o (suc j) (omega arith)))
      ∙ pixels_of-outside buf offset color k (ground (arith, o 0 (omega arith)));
  pixels = at;
}
  where
    at : (j : ℕ) → j < suc n → HasPixel buf' (offset + j * bpp) color
    at zero h =
        HasPixel-before _ buf' (offset + bpp) color (offset + 0 * bpp) l.before (omega arith) (
          subst (λ i. HasPixel (pixels_of buf offset color) i color) (omega arith)
            (pixels_of-HasPixel buf offset color room))
    at (suc j) h = subst (λ i. HasPixel buf' i color) (omega arith) (l.pixels j (omega arith))

draw_line-Line :
    (bpp offset : ℕ) (color : Color) (n : ℕ) (buf : List ℕ)
    → 3 ≤ bpp
    → bpp < 2 ^ 63
    → offset + n * bpp ≤ length buf
    → length buf < 2 ^ 63
    → Succeeds (Line bpp offset color n buf) (draw_line bpp offset color n buf)
unfolding Succeeds
draw_line-Line bpp offset color zero buf three low room small = record {
  same_length = refl;
  before = λ k h. refl;
  outside = λ k o. refl;
  pixels = λ j h. absurd (omega arith);
}
draw_line-Line bpp offset color (suc n) buf three low room small =
    let m : (offset + bpp) % 2 ^ 64 ≡ offset + bpp = omega arith in
    let here : offset + 3 ≤ length buf = omega arith in
    let same = length-pixels_of buf offset color in
    rw (set_pixel_lem buf offset color here small) (
      rw m (
        Succeeds-map (Line bpp (offset + bpp) color n (pixels_of buf offset color))
          (Line bpp offset color (suc n) buf) _
          (draw_line-Line bpp (offset + bpp) color n (pixels_of buf offset color) three low
            (omega arith) (omega arith))
          λ buf' l. Line-suc bpp offset color n buf buf' three here l))

-- The same of `n` lines of `w` pixels
pub record Lines (bpp stride offset : ℕ) (color : Color) (w n : ℕ) (buf buf' : List ℕ)
    : Type 0 where
  pub same_length : length buf' ≡ length buf
  pub before : (k : ℕ) → k < offset → get_elem? buf' k ≡ get_elem? buf k
  pub outside :
      (k : ℕ)
      → ((i j : ℕ)
          → i < n
          → j < w
          → (k < offset + i * stride + j * bpp) ⊎ (offset + i * stride + j * bpp + 3 ≤ k))
      → get_elem? buf' k ≡ get_elem? buf k
  pub pixels : (i j : ℕ) → i < n → j < w → HasPixel buf' (offset + i * stride + j * bpp) color

Lines-suc :
    (bpp stride offset : ℕ) (color : Color) (w n : ℕ) (buf buf₁ buf' : List ℕ)
    → 3 ≤ bpp
    → w * bpp ≤ stride
    → Line bpp offset color w buf buf₁
    → Lines bpp stride (offset + stride) color w n buf₁ buf'
    → Lines bpp stride offset color w (suc n) buf buf'
Lines-suc bpp stride offset color w n buf buf₁ buf' three narrow first l = record {
  same_length = l.same_length ∙ first.same_length;
  before = λ k h. l.before k (omega arith) ∙ first.before k h;
  outside = λ k o.
      l.outside k (λ i j h h'. ground (arith, o (suc i) j (omega arith) h'))
      ∙ first.outside k (λ j h. ground (arith, o 0 j (omega arith) h));
  pixels = at;
}
  where
    at : (i j : ℕ) → i < suc n → j < w → HasPixel buf' (offset + i * stride + j * bpp) color
    at zero j h k =
        let end : (j + 1) * bpp ≤ w * bpp = mul-le-mul_right bpp (omega arith) in
        subst (λ o. HasPixel buf' o color) (omega arith)
          (HasPixel-before buf₁ buf' (offset + stride) color (offset + j * bpp) l.before
            (omega arith) (first.pixels j k))
    at (suc i) j h k =
        subst (λ o. HasPixel buf' o color) (omega arith) (l.pixels i j (omega arith) k)

pub draw_lines-Lines :
    (fb : Framebuffer) (offset : ℕ) (color : Color) (w n : ℕ) (buf : List ℕ)
    → Fits fb
    → length buf ≡ length fb.buffer
    → w * fb.bytes_per_pixel ≤ fb.stride
    → offset + w * fb.bytes_per_pixel + n * fb.stride ≤ length buf + fb.stride
    → Succeeds
        (Lines fb.bytes_per_pixel fb.stride offset color w n buf)
        (draw_lines fb offset color w n buf)
unfolding Succeeds
draw_lines-Lines fb offset color w zero buf fits same narrow room = record {
  same_length = refl;
  before = λ k h. refl;
  outside = λ k o. refl;
  pixels = λ i j h k. absurd (omega arith);
}
draw_lines-Lines fb offset color w (suc n) buf fits same narrow room =
    let m : (offset + fb.stride) % 2 ^ 64 ≡ offset + fb.stride =
      omega (arith, fits.small, fits.stride_small) in
    and_then-Succeeds (Line fb.bytes_per_pixel offset color w buf)
      (Lines fb.bytes_per_pixel fb.stride offset color w (suc n) buf) _ _
      (draw_line-Line fb.bytes_per_pixel offset color w buf fits.pixel fits.pixel_small
        (omega arith) (omega (arith, fits.small)))
      λ buf₁ first. rw m (
        Succeeds-map (Lines fb.bytes_per_pixel fb.stride (offset + fb.stride) color w n buf₁)
          (Lines fb.bytes_per_pixel fb.stride offset color w (suc n) buf) _
          (draw_lines-Lines fb (offset + fb.stride) color w n buf₁ fits (first.same_length ∙ same)
            narrow (omega (arith, first.same_length)))
          λ buf' l.
            Lines-suc fb.bytes_per_pixel fb.stride offset color w n buf buf₁ buf' fits.pixel narrow
              first l)
