-- ===== src/Lang/Parser/Budget.antt =====
-- What a parsing call may cost: how many tokens are left to take, and rules to bound it.
use yacuri.Base.{
  ℕ, suc, ◌+◌, ◌≤◌, ◌≡◌, refl, Bool, true, false, List, [], ◌∷◌, if◌then◌else◌, length, arith, ◌≢◌,
  Bool-cases, inl, inr,
}
use yacuri.Lang.Token.{TKind, ◌==◌, Token, SourceError, error}
use yacuri.Lang.Parser.State.{
  Parser, Run, ok, err, panic, out_of_fuel, Parse, bind, check, is_at_end, step, advance, consume,
  matches,
}

-- The tokens left to take. A lexed `error` token ends the input only while it is current.
abbrev pub left : Parser → ℕ
left p = length p.lexer + (if is_at_end p then 0 else 1)

-- The run kept within its fuel. If it gave a value, it took `k` tokens of the `n` at least; if it
-- gave an error, no more than `n` are left.
pub data Costs {ℓ} {A : Type ℓ} (k n : ℕ) : Run A → Type ℓ where
  gave : (a : A) (p : Parser) → k + left p ≤ n → Costs k n (ok a p)
  failed : (e : SourceError) (p : Parser) → left p ≤ n → Costs k n (err e p)
  panicked : Costs k n panic

pub Costs-out_of_fuel {ℓ} : {A : Type ℓ} {k n : ℕ} {r : Run A} → Costs k n r → r ≢ out_of_fuel
Costs-out_of_fuel (gave a p h) = cc
Costs-out_of_fuel (failed e p h) = cc
Costs-out_of_fuel panicked = cc

module _ {ℓ} {A : Type ℓ} where
  pub Costs-if :
      {k n : ℕ} (b : Bool) {x y : Run A}
      → (b ≡ true → Costs k n x)
      → (b ≡ false → Costs k n y)
      → Costs k n (if b then x else y)
  Costs-if true hx hy = hx refl
  Costs-if false hx hy = hy refl

  pub Costs-choose :
      {k n : ℕ} (b : Bool) (x y : Parse A) {p : Parser}
      → Costs k n (x p)
      → Costs k n (y p)
      → Costs k n ((if b then x else y) p)
  Costs-choose true x y hx hy = hx
  Costs-choose false x y hx hy = hy

  -- A step of a chain: the rest of it is bounded by what the step leaves.
  pub Costs-then {κ} :
      {B : Type κ} {j k m n : ℕ} {r : Run A} {f : A → Parse B}
      → Costs j m r
      → m ≤ n
      → ((a : A) (p : Parser) → j + left p ≤ m → Costs k n (f a p))
      → Costs k n (bind r f)
  Costs-then (gave a p h) le next = next a p h
  Costs-then (failed e p h) le next = failed e p (omega arith)
  Costs-then panicked le next = panicked

-- The bound and the count of a run may be loosened.
pub Costs-weaken {ℓ} :
    {A : Type ℓ} {j k m n : ℕ} {r : Run A}
    → Costs j m r
    → ((x : ℕ) → j + x ≤ m → k + x ≤ n)
    → m ≤ n
    → Costs k n r
Costs-weaken (gave a p h) up le = gave a p (up (left p) h)
Costs-weaken (failed e p h) up le = failed e p (omega arith)
Costs-weaken panicked up le = panicked

-- Taking a token never raises the count, and lowers it before the end.
pub left-step : (p : Parser) → left (step p) ≤ left p
unfolding step
left-step p = elim (Bool-cases (is_at_end p)) [ inl e ↦ go (p.lexer) | inr e ↦ go (p.lexer) ]
  where
    go : (ts : List Token) → left (step (record p { lexer = ts })) ≤ left (record p { lexer = ts })
    go [] = ground arith
    go (t ∷ ts) = ground arith

pub left-step_lt : (p : Parser) → is_at_end p ≡ false → suc (left (step p)) ≤ left p
unfolding step
left-step_lt p e = go (p.lexer)
  where
    go :
        (ts : List Token)
        → suc (left (step (record p { lexer = ts }))) ≤ left (record p { lexer = ts })
    go [] = ground arith
    go (t ∷ ts) = ground arith

-- A test for a kind other than `error` that passes is no end.
pub check-not_end :
    (kind : TKind) (p : Parser)
    → (kind == error) ≡ false
    → check kind p ≡ true
    → is_at_end p ≡ false
check-not_end kind p h e = ground arith

pub consume-Costs :
    (kind : TKind) (p : Parser) → (kind == error) ≡ false → Costs 1 (left p) (consume kind p)
unfolding consume advance
consume-Costs kind p h =
    Costs-if (check kind p)
      (λ e. gave p.current (step p) (omega (arith, left-step_lt p (check-not_end kind p h e))))
      (λ e. failed _ p (omega arith))

pub matches-Costs : (kind : TKind) (p : Parser) → Costs 0 (left p) (matches kind p)
unfolding matches
matches-Costs kind p =
    Costs-if (check kind p) (λ e. gave true (step p) (omega (arith, left-step p)))
      (λ e. gave false p (omega arith))
