-- ===== src/Lang/Parser/State.antt =====
-- lang/src/parser/mod.rs: the parser's state, its outcomes, and the primitives that read a token.
use yacuri.Base.{
  ℕ, zero, suc, ◌+◌, ◌*◌, ◌-◌, ◌^◌, Bool, true, false, ◌&&◌, ◌||◌, Option, none, some, List, [],
  ◌∷◌, if◌then◌else◌, length, ltb, leb, ◌==◌ as nat_beq, ℤ, pos, neg,
}
use yacuri.Lang.Token.{Text, TKind, ◌==◌, Token, SourceError, error_at, e100, error, fun_kw}

-- `Parser { lexer, current, errors }`; the lexer is the list of the tokens not yet taken.
pub record Parser : Type 0 where
  pub lexer : List Token
  pub current : Token
  pub errors : List SourceError

-- `Res<A>` beside the parser that the call leaves behind, which an error keeps too. `panic` is a
-- Rust panic; `out_of_fuel` has no counterpart in the program.
pub data Run {ℓ} (A : Type ℓ) : Type ℓ where
  ok : A → Parser → Run A
  err : SourceError → Parser → Run A
  panic out_of_fuel : Run A

abbrev pub Parse {ℓ} : Type ℓ → Type ℓ
Parse A = Parser → Run A

abbrev pub bind {ℓ κ} : {A : Type ℓ} {B : Type κ} → Run A → (A → Parse B) → Run B
bind (ok a p) f = f a p
bind (err e p) f = err e p
bind panic f = panic
bind out_of_fuel f = out_of_fuel

abbrev pub pure {ℓ} : {A : Type ℓ} → A → Parse A
pure a p = ok a p

module _ {ℓ κ} {A : Type ℓ} {B : Type κ} where
  infixl 1 ◌>>=◌ ◌>>◌
  abbrev pub ◌>>=◌ : Parse A → (A → Parse B) → Parse B
  m >>= f = λ p. bind (m p) f

  abbrev pub ◌>>◌ : Parse A → Parse B → Parse B
  m >> k = m >>= λ _. k

abbrev pub run {ℓ} : {A : Type ℓ} → Parser → Parse A → Run A
run p m = m p

abbrev pub check : TKind → Parser → Bool
check kind p = p.current.kind == kind

abbrev pub check_any : List TKind → Parser → Bool
check_any [] p = false
check_any (kind ∷ kinds) p = check kind p || check_any kinds p

abbrev pub is_at_end : Parser → Bool
is_at_end p = p.current.kind == error

-- The token that `advance` makes up at the end of the input.
abbrev pub end_token : Token → Token
end_token current = record { kind = error; lex = 0 ∷ []; start = current.start + 1 }

abbrev pub next_token : List Token → Token → Token
next_token [] current = end_token current
next_token (t ∷ ts) current = t

abbrev pub tail {ℓ} : {A : Type ℓ} → List A → List A
tail [] = []
tail (x ∷ xs) = xs

-- The state after `advance`, which returns the token that was current.
unfoldable pub step : Parser → Parser
step p = record p { lexer = tail p.lexer; current = next_token p.lexer p.current }

unfoldable pub advance : Parse Token
advance p = ok p.current (step p)

unfoldable pub consume : TKind → Parse Token
consume kind p =
    if check kind p then advance p else err (error_at p.current.start (e100 kind p.current.kind)) p

unfoldable pub matches : TKind → Parse Bool
matches kind p = if check kind p then ok true (step p) else ok false p

-- `while !self.is_at_end() { match self.advance().kind { Fun => return, _ => () } }`
unfoldable pub synchronize_fuel : ℕ → Parser → Parser
synchronize_fuel zero p = p
synchronize_fuel (suc f) p =
    let rest = synchronize_fuel f (step p) in
    if is_at_end p then p else if p.current.kind == fun_kw then step p else rest

unfoldable pub synchronize : Parser → Parser
unfolding synchronize_fuel
synchronize p = synchronize_fuel (length p.lexer + 1) p

-- `i64::from_str`, of the standard library
abbrev is_digit : ℕ → Bool
is_digit c = leb b'0' c && leb c b'9'

abbrev decimal_from : ℕ → Text → Option ℕ
decimal_from acc [] = some acc
decimal_from acc (c ∷ cs) =
    let rest = decimal_from (10 * acc + (c - b'0')) cs in if is_digit c then rest else none

abbrev decimal : Text → Option ℕ
decimal [] = none
decimal (c ∷ cs) = decimal_from 0 (c ∷ cs)

abbrev in_i64 : (ℕ → ℤ) → ℕ → Option ℕ → Option ℤ
in_i64 sign limit none = none
in_i64 sign limit (some n) = if ltb n limit then some (sign n) else none

unfoldable pub i64_from_str : Text → Option ℤ
i64_from_str [] = none
i64_from_str (c ∷ cs) =
    if nat_beq c b'+'
    then in_i64 pos (2 ^ 63) (decimal cs)
    else if nat_beq c b'-'
    then in_i64 neg (2 ^ 63 + 1) (decimal cs)
    else in_i64 pos (2 ^ 63) (decimal (c ∷ cs))
