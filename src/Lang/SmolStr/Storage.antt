-- ===== src/Lang/SmolStr/Storage.antt =====
-- lang/src/smol_str.rs: every representation gives back its text.
use yacuri.Base.{
  ℕ, zero, suc, ◌+◌, ◌-◌, ◌%◌, ◌≤◌, ◌<◌, min, ◌≡◌, refl, ap, ap₂, sym, ◌∙◌, true, ◌&&◌, none, some,
  [], ◌∷◌, ◌++◌, if◌then◌else◌, leb, ◌==◌, ==_iff, length, take, drop, replicate, length-drop,
  Bool-cases, inl, inr, arith,
}
use yacuri.Lang.Token.{Text}
use yacuri.Lang.SmolStr.{
  inline_cap, n_newlines, n_spaces, newline, space, ws, heap, inline, substring, count_newlines,
  all_spaces, slice, inline_buf, whitespace, or_heap, new, new_inline, len, is_empty, as_str,
}

take-length : (xs ys : Text) → take (length xs) (xs ++ ys) ≡ xs
take-length [] ys = refl
take-length (x ∷ xs) ys = ap (◌∷◌ x) (take-length xs ys)

-- The newlines that are counted in front are there.
count_newlines-split :
    (m : ℕ) (text : Text)
    → replicate (count_newlines (take m text)) newline ++ drop (count_newlines (take m text)) text
      ≡ text
count_newlines-split zero text = refl
count_newlines-split (suc m) [] = refl
count_newlines-split (suc m) (b ∷ bs) = elim (Bool-cases (b == newline)) [
  | inl same ↦ rw same (ap₂ ◌∷◌ (sym ((==_iff b newline).0 same)) (count_newlines-split m bs))
  | inr other ↦ rw other refl
]

count_newlines_le : (m : ℕ) (text : Text) → count_newlines (take m text) ≤ m
count_newlines_le zero text = omega arith
count_newlines_le (suc m) [] = omega arith
count_newlines_le (suc m) (b ∷ bs) = ground (arith, count_newlines_le m bs)

count_newlines_le_length : (m : ℕ) (text : Text) → count_newlines (take m text) ≤ length text
count_newlines_le_length zero text = omega arith
count_newlines_le_length (suc m) [] = omega arith
count_newlines_le_length (suc m) (b ∷ bs) = ground (arith, count_newlines_le_length m bs)

all_spaces-replicate : (text : Text) → all_spaces text ≡ true → replicate (length text) space ≡ text
all_spaces-replicate [] h = refl
all_spaces-replicate (b ∷ bs) h = elim (Bool-cases (b == space)) [
  | inl same ↦
      ap₂ ◌∷◌ (sym ((==_iff b space).0 same))
        (all_spaces-replicate bs (sym (ap (λ t. t && all_spaces bs) same) ∙ h))
  | inr other ↦ absurd (ground (arith, h, other))
]

drop-replicate :
    (k n t b : ℕ) (rest : Text) → t ≡ k + n → drop k (replicate t b ++ rest) ≡ replicate n b ++ rest
drop-replicate zero n t b rest h = ap (λ m. replicate m b ++ rest) (omega arith)
drop-replicate (suc k) n zero b rest h = absurd (omega arith)
drop-replicate (suc k) n (suc t) b rest h = drop-replicate k n t b rest (omega arith)

take-replicate : (k t b : ℕ) → k ≤ t → take k (replicate t b) ≡ replicate k b
take-replicate zero t b h = refl
take-replicate (suc k) zero b h = absurd (omega arith)
take-replicate (suc k) (suc t) b h = ap (◌∷◌ b) (take-replicate k t b (omega arith))

take-append :
    (n m t b : ℕ) (rest : Text)
    → t ≡ n + m
    → take t (replicate n b ++ rest) ≡ replicate n b ++ take m rest
take-append zero m t b rest h = ap (λ k. take k rest) (omega arith)
take-append (suc n) m zero b rest h = absurd (omega arith)
take-append (suc n) m (suc t) b rest h = ap (◌∷◌ b) (take-append n m t b rest (omega arith))

-- The part of `WS` around its border.
slice-ws :
    (newlines spaces : ℕ)
    → newlines ≤ n_newlines
    → spaces ≤ n_spaces
    → slice ws (n_newlines - newlines) (n_newlines + spaces)
      ≡ replicate newlines newline ++ replicate spaces space
slice-ws newlines spaces few some_ =
    ap (take (n_newlines + spaces - (n_newlines - newlines))) (
      drop-replicate (n_newlines - newlines) newlines n_newlines newline (replicate n_spaces space)
        (omega arith))
    ∙ take-append newlines spaces (n_newlines + spaces - (n_newlines - newlines)) newline
        (replicate n_spaces space) (omega arith)
    ∙ ap (λ rest. replicate newlines newline ++ rest) (take-replicate spaces n_spaces space some_)

as_str-substring :
    (newlines spaces : ℕ)
    → newlines ≤ n_newlines
    → spaces ≤ n_spaces
    → as_str (substring newlines spaces)
      ≡ some (replicate newlines newline ++ replicate spaces space)
unfolding as_str
as_str-substring newlines spaces few some_ =
    let few_fit : leb newlines n_newlines ≡ true = ground arith in
    let some_fit : leb spaces n_spaces ≡ true = ground arith in
    rw (few_fit, some_fit) (ap some (slice-ws newlines spaces few some_))

-- Newlines in front, and nothing but spaces behind them.
blank-replicate :
    (m : ℕ) (text : Text)
    → all_spaces (drop (count_newlines (take m text)) text) ≡ true
    → replicate (count_newlines (take m text)) newline
        ++ replicate (length text - count_newlines (take m text)) space
      ≡ text
blank-replicate m text blank =
    let newlines = count_newlines (take m text) in
    ap (λ rest. replicate newlines newline ++ rest)
      (ap (λ n. replicate n space) (sym (length-drop newlines text))
        ∙ all_spaces-replicate (drop newlines text) blank)
    ∙ count_newlines-split m text

as_str-whitespace : (text : Text) → as_str (or_heap text (whitespace text)) ≡ some text
unfolding as_str
as_str-whitespace text =
    let m = min (length text) n_newlines in
    let newlines = count_newlines (take m text) in
    let few : newlines ≤ n_newlines = omega (arith, count_newlines_le m text) in
    elim (Bool-cases (leb (length text - newlines) n_spaces)) [
      | inl fit ↦ elim (Bool-cases (all_spaces (drop newlines text))) [
        | inl blank ↦
            rw (fit, blank)
              (as_str-substring newlines (length text - newlines) few (ground (arith, fit))
                ∙ ap some (blank-replicate m text blank))
        | inr other ↦ rw (fit, other) refl
      ]
      | inr long ↦ rw long refl
    ]

as_str-heap : (text : Text) → as_str (heap text) ≡ some text
unfolding as_str
as_str-heap text = refl

as_str-inline :
    (text : Text)
    → length text ≤ inline_cap
    → as_str (inline (length text % 256) (inline_buf text)) ≡ some text
unfolding as_str
as_str-inline text short =
    let whole : length text % 256 ≡ length text = omega arith in
    rw whole (ap some (take-length text (replicate (inline_cap - length text) 0)))

-- A string gives back the text that it was made of, whichever way it is stored.
pub as_str-new : (text : Text) → as_str (new text) ≡ some text
unfolding new
as_str-new text = elim (Bool-cases (leb (length text) inline_cap)) [
  | inl short ↦ rw short (as_str-inline text (ground (arith, short)))
  | inr longer ↦ elim (Bool-cases (leb (length text) (n_newlines + n_spaces))) [
    | inl small ↦ rw (longer, small) (as_str-whitespace text)
    | inr large ↦ rw (longer, large) (as_str-heap text)
  ]
]

-- A text of 22 bytes at most is stored in place by `new_inline` as by `new`, and a longer one makes
-- `new_inline` panic.
pub new_inline-new :
    (text : Text)
    → new_inline text ≡ (if leb (length text) inline_cap then some (new text) else none)
unfolding new new_inline
new_inline-new text = ground arith

len-whitespace :
    (text : Text)
    → 0 < length text
    → (len (or_heap text (whitespace text)) ≡ length text)
      × (is_empty (or_heap text (whitespace text)) ≡ (length text == 0))
unfolding len is_empty
len-whitespace text some_byte =
    let m = min (length text) n_newlines in
    let newlines = count_newlines (take m text) in
    let few = count_newlines_le_length m text in
    elim (Bool-cases (leb (length text - newlines) n_spaces)) [
      | inl fit ↦ elim (Bool-cases (all_spaces (drop newlines text))) [
        | inl blank ↦ rw (fit, blank) (omega arith, ground arith)
        | inr other ↦ rw (fit, other) (refl, refl)
      ]
      | inr long ↦ rw long (refl, refl)
    ]

-- Length and emptiness are those of the text.
pub len-new :
    (text : Text) → (len (new text) ≡ length text) × (is_empty (new text) ≡ (length text == 0))
unfolding len is_empty new
len-new text = elim (Bool-cases (leb (length text) inline_cap)) [
  | inl short ↦ rw short (ground (arith, short), ground (arith, short))
  | inr longer ↦ elim (Bool-cases (leb (length text) (n_newlines + n_spaces))) [
    | inl small ↦ rw (longer, small) (len-whitespace text (ground (arith, longer)))
    | inr large ↦ rw (longer, large) (refl, refl)
  ]
]
