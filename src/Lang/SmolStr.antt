-- ===== src/Lang/SmolStr.antt =====
-- lang/src/smol_str.rs: the string type of tokens and names. A string is its bytes.
pub mod Storage
mod Tests
use yacuri.Base.{
  ℕ, zero, suc, ◌+◌, ◌-◌, ◌%◌, min, Bool, true, false, ◌&&◌, Option, none, some, List, [], ◌∷◌,
  ◌++◌, if◌then◌else◌, leb, ltb, ◌==◌, length, take, drop, replicate,
}
use yacuri.Lang.Token.{Text}

abbrev pub inline_cap : ℕ
inline_cap = 22

abbrev pub n_newlines : ℕ
n_newlines = 32

abbrev pub n_spaces : ℕ
n_spaces = 128

abbrev pub newline : ℕ
newline = 10

abbrev pub space : ℕ
space = 32

-- `WS`
abbrev pub ws : Text
ws = replicate n_newlines newline ++ replicate n_spaces space

pub data Repr : Type 0 where
  heap : Text → Repr
  inline : (len : ℕ) (buf : Text) → Repr
  substring : (newlines spaces : ℕ) → Repr

-- `.iter().take_while(|&&b| b == b'\n').count()`
abbrev pub count_newlines : Text → ℕ
count_newlines [] = 0
count_newlines (b ∷ bs) = if b == newline then suc (count_newlines bs) else 0

-- `.iter().all(|&b| b == b' ')`
abbrev pub all_spaces : Text → Bool
all_spaces [] = true
all_spaces (b ∷ bs) = b == space && all_spaces bs

-- `&text[start..end]`, in range
abbrev pub slice : Text → (start end : ℕ) → Text
slice text start end = take (end - start) (drop start text)

-- `buf[..len].copy_from_slice(text)` on a buffer of zeros
abbrev pub inline_buf : Text → Text
inline_buf text = text ++ replicate (inline_cap - length text) 0

abbrev pub whitespace : Text → Option Repr
whitespace text =
    let newlines = count_newlines (take (min (length text) n_newlines) text) in
    let spaces = length text - newlines in
    if leb spaces n_spaces && all_spaces (drop newlines text)
    then some (substring newlines spaces)
    else none

abbrev pub or_heap : Text → Option Repr → Repr
or_heap text none = heap text
or_heap text (some repr) = repr

-- `Repr::new`
unfoldable pub new : Text → Repr
new text =
    if leb (length text) inline_cap
    then inline (length text % 256) (inline_buf text)
    else if leb (length text) (n_newlines + n_spaces)
    then or_heap text (whitespace text)
    else heap text

-- `SmolStr::new_inline`: a byte past the buffer panics.
unfoldable pub new_inline : Text → Option Repr
new_inline text =
    if ltb inline_cap (length text)
    then none
    else some (inline (length text % 256) (inline_buf text))

-- `Repr::len`
unfoldable pub len : Repr → ℕ
len (heap data_) = length data_
len (inline n buf) = n
len (substring newlines spaces) = newlines + spaces

-- `Repr::is_empty`
unfoldable pub is_empty : Repr → Bool
is_empty (heap data_) = length data_ == 0
is_empty (inline n buf) = n == 0
is_empty (substring newlines spaces) = false

-- `Repr::as_str`, with its assertion
unfoldable pub as_str : Repr → Option Text
as_str (heap data_) = some data_
as_str (inline n buf) = some (take n buf)
as_str (substring newlines spaces) =
    if leb newlines n_newlines && leb spaces n_spaces
    then some (slice ws (n_newlines - newlines) (n_newlines + spaces))
    else none
