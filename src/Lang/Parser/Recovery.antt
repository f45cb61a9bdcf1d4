-- ===== src/Lang/Parser/Recovery.antt =====
-- What `synchronize` skips, and what the loop of `parse` makes of it.
use yacuri.Base.{
  ℕ, zero, suc, ◌+◌, ◌≤◌, ◌≡◌, inl, inr, refl, true, false, List, [], ◌∷◌, ◌++◌, arith, length,
  if◌then◌else◌, Bool-cases, Option,
}
use native.Mathlib.Numerals.{add-one}
use yacuri.Lang.Token.{
  Text, ◌==◌, Token, SourceError, error_at, e102, fun_kw, class_kw, extern_kw, error,
}
use yacuri.Lang.Parser.State.{Parser, is_at_end, step, advance, synchronize_fuel, synchronize}
use yacuri.Lang.Parser.Decl.{Read, unexpected, declaration, parse_loop, push_error}

-- The tokens that the parser will still take: a lexed error is where the input ends for it.
abbrev pub until_error : List Token → List Token
until_error [] = []
until_error (t ∷ ts) = if t.kind == error then [] else t ∷ ts

abbrev pub live : Parser → List Token
live p = until_error (p.current ∷ p.lexer)

-- What stands behind the first `fun`, if no lexed error precedes it.
abbrev pub behind_fun : List Token → List Token
behind_fun [] = []
behind_fun (t ∷ ts) =
    if t.kind == error then [] else if t.kind == fun_kw then until_error ts else behind_fun ts

ended : (f : ℕ) (p : Parser) → is_at_end p ≡ true → live (synchronize_fuel f p) ≡ []
unfolding synchronize_fuel
ended zero p e = rw e
ended (suc f) p e = rw e (rw e)

live-synchronize_fuel :
    (f : ℕ) (current : Token) (lexer : List Token) (errors : List SourceError)
    → length lexer + 1 ≤ f
    → live (synchronize_fuel f (record { lexer = lexer; current = current; errors = errors }))
      ≡ behind_fun (current ∷ lexer)
unfolding synchronize_fuel step
live-synchronize_fuel zero current lexer errors h = absurd (omega arith)
live-synchronize_fuel (suc f) current [] errors h = elim (Bool-cases (current.kind == error)) [
  | inl e ↦ rw e (rw e)
  | inr e ↦
      rw e (elim (Bool-cases (current.kind == fun_kw)) [
        | inl g ↦ rw g
        | inr g ↦ rw g (ended f _ refl)
      ])
]
live-synchronize_fuel (suc f) current (t ∷ ts) errors h =
    elim (Bool-cases (current.kind == error)) [
      | inl e ↦ rw e (rw e)
      | inr e ↦ rw e (elim (Bool-cases (current.kind == fun_kw)) [
        | inl g ↦ rw g
        | inr g ↦ rw g (live-synchronize_fuel f t ts errors (omega arith))
      ])
    ]

-- Error recovery resumes exactly behind the next `fun` of the input, or at the end where a lexed
-- error or nothing more comes first.
pub live-synchronize : (p : Parser) → live (synchronize p) ≡ behind_fun (p.current ∷ p.lexer)
unfolding synchronize
live-synchronize p =
    live-synchronize_fuel (length p.lexer + 1) p.current p.lexer p.errors (omega arith)

synchronize-at_fun : (p : Parser) → p.current.kind ≡ fun_kw → synchronize p ≡ step p
unfolding synchronize
synchronize-at_fun p h = rw add-one (simp h)

-- Where a declaration is expected and the token `junk` begins none, a function that comes next is
-- not read: one error is reported, at its `fun`, which is dropped, and the loop takes up the name
-- behind it as the next declaration.
pub parse_loop-skips_fun :
    (from_str : Text → Option ℕ) (f : ℕ) (read : Read) (junk g name : Token) (ts : List Token)
    (errors : List SourceError)
    → (junk.kind == error) ≡ false
    → (junk.kind == class_kw) ≡ false
    → (junk.kind == fun_kw) ≡ false
    → (junk.kind == extern_kw) ≡ false
    → g.kind ≡ fun_kw
    → parse_loop from_str
        (suc f)
        read
        (record { lexer = g ∷ name ∷ ts; current = junk; errors = errors })
      ≡ parse_loop from_str f read
          (record { lexer = ts; current = name; errors = errors ++ error_at g.start e102 ∷ [] })
unfolding parse_loop advance step declaration unexpected
parse_loop-skips_fun from_str f read junk g name ts errors h₁ h₂ h₃ h₄ h₅ = rw h₁ (
    rw h₂ (
      rw h₃ (
        rw h₄ (
          rw (
            synchronize-at_fun
              (push_error (error_at g.start e102)
                (record { lexer = name ∷ ts; current = g; errors = errors }))
              h₅)))))
