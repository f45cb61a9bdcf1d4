-- ===== src/Kernel/Shell/Line.antt =====
-- The operations of `String` that kernel/src/shell/mod.rs calls. A string is the list of its code
-- points; an index counts bytes of UTF-8, and one that is no boundary of a character is a panic.
use yacuri.Base.{
  ℕ, ◌+◌, ◌-◌, Bool, Option, none, some, List, [], ◌∷◌, if◌then◌else◌, ltb, leb, ◌==◌, zero, suc,
  ◌*◌, ◌&&◌, ◌||◌,
}

abbrev pub Str : Type 0
Str = List ℕ

abbrev pub len_utf8 : ℕ → ℕ
len_utf8 c = if ltb c 0x80 then 1 else if ltb c 0x800 then 2 else if ltb c 0x10000 then 3 else 4

-- `String::len`
abbrev pub len : Str → ℕ
len [] = 0
len (c ∷ cs) = len_utf8 c + len cs

-- `String::pop`, on a string that it leaves as it is when empty
abbrev pub pop : Str → Str
pop [] = []
pop (c ∷ []) = []
pop (c ∷ d ∷ cs) = c ∷ pop (d ∷ cs)

abbrev pub push : Str → ℕ → Str
push [] c = c ∷ []
push (d ∷ cs) c = d ∷ push cs c

abbrev pub cons_some : ℕ → Option Str → Option Str
cons_some c none = none
cons_some c (some cs) = some (c ∷ cs)

-- `String::insert`
abbrev pub insert : Str → ℕ → ℕ → Option Str
insert [] index c = if index == 0 then some (c ∷ []) else none
insert (d ∷ cs) index c =
    let deeper = cons_some d (insert cs (index - len_utf8 d) c) in
    if index == 0 then some (c ∷ d ∷ cs) else if ltb index (len_utf8 d) then none else deeper

-- `String::remove`
abbrev pub remove : Str → ℕ → Option Str
remove [] index = none
remove (d ∷ cs) index =
    let deeper = cons_some d (remove cs (index - len_utf8 d)) in
    if index == 0 then some cs else if ltb index (len_utf8 d) then none else deeper

-- The trailing bytes that a first byte announces, its own bits, and the least value so encoded.
abbrev lead : ℕ → ℕ × ℕ × ℕ
lead b =
    if ltb b 0xE0
    then (1, b - 0xC0, 0x80)
    else if ltb b 0xF0
    then (2, b - 0xE0, 0x800)
    else (3, b - 0xF0, 0x10000)

abbrev is_scalar : ℕ → Bool
is_scalar c = ltb c 0xD800 || (leb 0xE000 c && ltb c 0x110000)

-- `String::from_utf8`, with `n` trailing bytes still to come of a character with the bits `bits`.
abbrev decode : (n bits least : ℕ) → List ℕ → Option Str
decode zero bits least [] = some []
decode (suc n) bits least [] = none
decode zero bits least (b ∷ bs) =
    let ascii = cons_some b (decode 0 0 0 bs) in
    let longer = decode (lead b).0 (lead b).1 (lead b).2 bs in
    if ltb b 0x80 then ascii else if leb 0xC0 b && ltb b 0xF8 then longer else none
decode (suc zero) bits least (b ∷ bs) =
    let c = 64 * bits + (b - 0x80) in
    let rest = cons_some c (decode 0 0 0 bs) in
    if leb 0x80 b && (ltb b 0xC0 && (leb least c && is_scalar c)) then rest else none
decode (suc (suc n)) bits least (b ∷ bs) =
    let rest = decode (suc n) (64 * bits + (b - 0x80)) least bs in
    if leb 0x80 b && ltb b 0xC0 then rest else none

unfoldable pub from_utf8 : List ℕ → Option Str
from_utf8 bytes = decode 0 0 0 bytes
