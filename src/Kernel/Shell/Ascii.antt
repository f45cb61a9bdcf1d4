-- ===== src/Kernel/Shell/Ascii.antt =====
-- The strings of kernel/src/shell/mod.rs where every character is one byte, and indices outside of them.
use yacuri.Base.{ℕ, ◌-◌, ◌≤◌, ◌<◌, ◌≡◌, refl, ap, none, some, [], ◌∷◌, ◌++◌, length, arith}
use yacuri.Kernel.Shell.Line.{Str, len_utf8, len, pop, push, insert, remove}

-- Characters of one byte
abbrev pub IsAscii : Str → Type 0
IsAscii [] = Unit
IsAscii (c ∷ cs) = (c < 128) × IsAscii cs

pub IsAscii-append : (cs ds : Str) → IsAscii cs → IsAscii ds → IsAscii (cs ++ ds)
IsAscii-append [] ds h k = k
IsAscii-append (c ∷ cs) ds (h, hs) k = (h, IsAscii-append cs ds hs k)

len_utf8-ascii : (c : ℕ) → c < 128 → len_utf8 c ≡ 1
len_utf8-ascii c h = ground arith

len_utf8-pos : (c : ℕ) → 1 ≤ len_utf8 c
len_utf8-pos c = ground arith

pub len-IsAscii : (cs : Str) → IsAscii cs → len cs ≡ length cs
len-IsAscii [] h = refl
len-IsAscii (c ∷ cs) (h, hs) = omega (arith, len_utf8-ascii c h, len-IsAscii cs hs)

pub push-append : (cs : Str) (c : ℕ) → push cs c ≡ cs ++ c ∷ []
push-append [] c = refl
push-append (d ∷ cs) c = ap (λ l. d ∷ l) (push-append cs c)

pub pop-append : (cs : Str) (c : ℕ) → pop (cs ++ c ∷ []) ≡ cs
pop-append [] c = refl
pop-append (d ∷ []) c = refl
pop-append (d ∷ e ∷ cs) c = ap (λ l. d ∷ l) (pop-append (e ∷ cs) c)

-- An insertion at the cursor, in a line whose part before it is ASCII.
pub insert-append :
    (cs ds : Str) (i c : ℕ)
    → IsAscii cs
    → i ≡ length cs
    → insert (cs ++ ds) i c ≡ some (cs ++ c ∷ ds)
insert-append [] [] i c h e = ground arith
insert-append [] (d ∷ ds) i c h e = ground arith
insert-append (b ∷ cs) ds i c (h, hs) e =
    let ih = insert-append cs ds (i - len_utf8 b) c hs (omega (arith, len_utf8-ascii b h)) in
    ground (arith, ih, len_utf8-ascii b h)

pub remove-append :
    (cs ds : Str) (i c : ℕ) → IsAscii cs → i ≡ length cs → remove (cs ++ c ∷ ds) i ≡ some (cs ++ ds)
remove-append [] ds i c h e = ground arith
remove-append (b ∷ cs) ds i c (h, hs) e =
    let ih = remove-append cs ds (i - len_utf8 b) c hs (omega (arith, len_utf8-ascii b h)) in
    ground (arith, ih, len_utf8-ascii b h)

-- An index behind the end is a panic.
pub insert-beyond : (cs : Str) (i c : ℕ) → len cs < i → insert cs i c ≡ none
insert-beyond [] i c h = ground arith
insert-beyond (b ∷ cs) i c h =
    let ih : len cs < i - len_utf8 b → insert cs (i - len_utf8 b) c ≡ none =
      insert-beyond cs (i - len_utf8 b) c in
    let lt : len cs < i - len_utf8 b = omega arith in ground (arith, ih lt)

pub remove-beyond : (cs : Str) (i : ℕ) → len cs ≤ i → remove cs i ≡ none
remove-beyond [] i h = refl
remove-beyond (b ∷ cs) i h =
    let le : len cs ≤ i - len_utf8 b = omega arith in
    ground (arith, remove-beyond cs (i - len_utf8 b) le, len_utf8-pos b)
