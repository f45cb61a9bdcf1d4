-- ===== src/Lang/Parser/Total.antt =====
-- The fuel that `parse` hands out suffices for every file.
use yacuri.Base.{
  ℕ, zero, suc, ◌+◌, ◌*◌, ◌≤◌, ◌≢◌, refl, Bool, true, false, Option, none, List, [], ◌∷◌, arith,
  if◌then◌else◌, length,
}
use yacuri.Lang.Token.{
  Text, TKind, ◌==◌, Token, fun_kw, identifier, class_kw, error, extern_kw, static_kw, val_kw,
  var_kw, right_brace, right_paren,
}
use yacuri.Lang.Ast.{Function}
use yacuri.Lang.Parser.State.{
  Parser, Run, check, is_at_end, step, advance, synchronize_fuel, synchronize,
}
use yacuri.Lang.Parser.Decl.{
  typ, member, parameter, param_list, params, ret_type, function, Parts, static_item, class_item,
  class_loop, class, push_error, recover, make_cls, make_fn, Read, unexpected, unexpected_item,
  extern_item, declaration, parse_loop, ran_out, finish, new_parser, parse,
}
use yacuri.Lang.Parser.Budget.{
  left, Costs, gave, Costs-out_of_fuel, Costs-if, Costs-choose, Costs-then, Costs-weaken, left-step,
  left-step_lt, consume-Costs, matches-Costs,
}
use yacuri.Lang.Parser.Budget
use yacuri.Lang.Parser.Fuel.{expression_fits}

-- A run that may have taken tokens before it took `k` of them.
Costs-more {ℓ} : {A : Type ℓ} {j n : ℕ} {r : Run A} → Costs j n r → Costs 0 n r
Costs-more c = Costs-weaken c (λ x h. omega arith) (omega arith)

Costs-from {ℓ} : {A : Type ℓ} {k m n : ℕ} {r : Run A} → Costs k m r → m ≤ n → Costs k n r
Costs-from c h = Costs-weaken c (λ x k. omega arith) h

left-if :
    {n : ℕ} (b : Bool) (x y : Parser) → left x ≤ n → left y ≤ n → left (if b then x else y) ≤ n
left-if true x y hx hy = hx
left-if false x y hx hy = hy

left-synchronize_fuel : (f : ℕ) (p : Parser) → left (synchronize_fuel f p) ≤ left p
unfolding synchronize_fuel
left-synchronize_fuel zero p = omega arith
left-synchronize_fuel (suc f) p = left-if (is_at_end p) _ _ (omega arith) (
    left-if (p.current.kind == fun_kw) _ _ (left-step p)
      (omega (arith, left-step p, left-synchronize_fuel f (step p))))

-- Skipping ahead never raises the count of tokens left.
pub left-synchronize : (p : Parser) → left (synchronize p) ≤ left p
unfolding synchronize
left-synchronize p = left-synchronize_fuel (length p.lexer + 1) p

typ-Costs : (p : Parser) → Costs 1 (left p) (typ p)
unfolding typ
typ-Costs p = Costs-then (consume-Costs identifier p refl) (omega arith) λ t p₁ h. gave _ p₁ h

member-Costs : (mutable : Bool) (p : Parser) → Costs 1 (left p) (member mutable p)
unfolding member
member-Costs mutable p = Costs-then (consume-Costs _ p refl) (omega arith) λ t p₁ h₁.
    Costs-then (consume-Costs _ p₁ refl) (omega arith)
      λ t p₂ h₂. Costs-then (typ-Costs p₂) (omega arith) λ t p₃ h₃. gave _ p₃ (omega arith)

parameter-Costs : (p : Parser) → Costs 1 (left p) (parameter p)
unfolding parameter
parameter-Costs p = Costs-then (consume-Costs _ p refl) (omega arith) λ t p₁ h₁.
    Costs-then (consume-Costs _ p₁ refl) (omega arith)
      λ t p₂ h₂. Costs-then (typ-Costs p₂) (omega arith) λ t p₃ h₃. gave _ p₃ (omega arith)

param_list-Costs : (f : ℕ) (p : Parser) → left p + 1 ≤ f → Costs 0 (left p) (param_list f p)
unfolding param_list
param_list-Costs zero p h = absurd (omega arith)
param_list-Costs (suc f) p h = Costs-then (parameter-Costs p) (omega arith) λ param p₁ h₁.
    Costs-then (matches-Costs _ p₁) (omega arith) λ more p₂ h₂.
      Costs-then
        (Costs-choose more _ _ (param_list-Costs f p₂ (omega arith)) (gave [] p₂ (omega arith)))
        (omega arith) λ ps p₃ h₃. gave _ p₃ (omega arith)

params-Costs : (f : ℕ) (p : Parser) → left p + 1 ≤ f → Costs 0 (left p) (params f p)
unfolding params
params-Costs f p h =
    Costs-if (check right_paren p) (λ e. gave [] p (omega arith)) λ e. param_list-Costs f p h

ret_type-Costs : (p : Parser) → Costs 0 (left p) (ret_type p)
unfolding ret_type
ret_type-Costs p = Costs-then (matches-Costs _ p) (omega arith) λ given p₁ h₁.
    Costs-choose given _ _
      (Costs-then (typ-Costs p₁) (omega arith) λ t p₂ h₂. gave _ p₂ (omega arith)) (gave none p₁ h₁)

module _ (from_str : Text → Option ℕ) where
  function-Costs :
      (f : ℕ) (is_ext : Bool) (p : Parser)
      → 10 * left p + 7 ≤ f
      → Costs 1 (left p) (function from_str f is_ext p)
  unfolding function
  function-Costs f is_ext p h = Costs-then (consume-Costs _ p refl) (omega arith) λ name p₁ h₁.
      Costs-then (consume-Costs _ p₁ refl) (omega arith) λ t p₂ h₂.
        Costs-then (params-Costs f p₂ (omega arith)) (omega arith) λ ps p₃ h₃.
          Costs-then (consume-Costs _ p₃ refl) (omega arith) λ t p₄ h₄.
            Costs-then (ret_type-Costs p₄) (omega arith) λ ret p₅ h₅.
              Costs-then
                (Costs-choose {k = 0} {n = left p₅} is_ext _ _ (gave none p₅ (omega arith)) (
                  Costs-then (expression_fits from_str f p₅ (omega arith)) (omega arith)
                    λ e p₆ h₆. gave _ p₆ (omega arith)))
                (omega arith) λ body p₇ h₇. gave _ p₇ (omega arith)

  unexpected_item-Costs : {k : ℕ} (p : Parser) → Costs k (left p) (unexpected_item p)
  unfolding unexpected_item
  unexpected_item-Costs p = Budget.failed _ p (omega arith)

  static_item-Costs :
      (f : ℕ) (parts : Parts) (p : Parser)
      → 10 * left p + 7 ≤ f
      → Costs 1 (left p) (static_item from_str f parts p)
  unfolding static_item
  static_item-Costs f parts p h = Costs-then (matches-Costs _ p) (omega arith) λ given p₁ h₁.
      Costs-choose given _ _
        (Costs-then (function-Costs f false p₁ (omega arith)) (omega arith)
          λ g p₂ h₂. gave _ p₂ (omega arith))
        (Costs-from (unexpected_item-Costs p₁) (omega arith))

  class_item-Costs :
      (f : ℕ) (kind : TKind) (parts : Parts) (p : Parser)
      → 10 * left p + 7 ≤ f
      → Costs 1 (left p) (class_item from_str f kind parts p)
  unfolding class_item
  class_item-Costs f kind parts p h =
      Costs-choose (kind == val_kw) _ _
        (Costs-then (member-Costs false p) (omega arith) λ m p₁ h₁. gave _ p₁ h₁)
        (Costs-choose (kind == var_kw) _ _
          (Costs-then (member-Costs true p) (omega arith) λ m p₁ h₁. gave _ p₁ h₁)
          (Costs-choose (kind == fun_kw) _ _
            (Costs-then (function-Costs f false p h) (omega arith) λ g p₁ h₁. gave _ p₁ h₁)
            (Costs-choose (kind == static_kw) _ _ (static_item-Costs f parts p h)
              (unexpected_item-Costs p))))

  class_loop-Costs :
      (f : ℕ) (parts : Parts) (p : Parser)
      → 10 * left p + 8 ≤ f
      → Costs 0 (left p) (class_loop from_str f parts p)
  unfolding class_loop advance
  class_loop-Costs zero parts p h = absurd (omega arith)
  class_loop-Costs (suc f) parts p h =
      let h₀ = left-step p in
      Costs-if (check right_brace p) (λ e. gave parts p (omega arith))
        λ e.
          Costs-then (class_item-Costs f p.current.kind parts (step p) (omega arith)) (omega arith)
            λ parts' p₁ h₁. Costs-from (class_loop-Costs f parts' p₁ (omega arith)) (omega arith)

  class-Costs : (f : ℕ) (p : Parser) → 10 * left p + 7 ≤ f → Costs 1 (left p) (class from_str f p)
  unfolding class
  class-Costs f p h = Costs-then (consume-Costs _ p refl) (omega arith) λ name p₁ h₁.
      Costs-then (consume-Costs _ p₁ refl) (omega arith) λ t p₂ h₂.
        Costs-then (class_loop-Costs f _ p₂ (omega arith)) (omega arith) λ parts p₃ h₃.
          Costs-then (consume-Costs _ p₃ refl) (omega arith) λ t p₄ h₄. gave _ p₄ (omega arith)

  recover-Costs :
      {A : Type 0} {k n : ℕ} {r : Run A} (xs : List A) → Costs k n r → Costs 0 n (recover r xs)
  recover-Costs xs (gave a p h) = gave _ p (omega arith)
  recover-Costs xs (Budget.failed e p h) =
      gave xs _ (omega (arith, left-synchronize (push_error e p)))
  recover-Costs xs Budget.panicked = Budget.panicked

  make_fn-Costs :
      (f : ℕ) (functions : List Function) (is_ext : Bool) (p : Parser)
      → 10 * left p + 7 ≤ f
      → Costs 0 (left p) (make_fn from_str f functions is_ext p)
  unfolding make_fn
  make_fn-Costs f functions is_ext p h = recover-Costs functions (function-Costs f is_ext p h)

  unexpected-Costs : (read : Read) (p : Parser) → Costs 0 (left p) (unexpected read p)
  unfolding unexpected
  unexpected-Costs read p = gave read _ (omega (arith, left-synchronize (push_error _ p)))

  extern_item-Costs :
      (f : ℕ) (read : Read) (p : Parser)
      → 10 * left p + 7 ≤ f
      → Costs 0 (left p) (extern_item from_str f read p)
  unfolding extern_item
  extern_item-Costs f (fns, cls) p h = Costs-then (matches-Costs _ p) (omega arith) λ given p₁ h₁.
      Costs-choose given _ _
        (Costs-then (make_fn-Costs f fns true p₁ (omega arith)) (omega arith)
          λ g p₂ h₂. gave _ p₂ (omega arith))
        (Costs-from (unexpected-Costs (fns, cls) p₁) (omega arith))

  declaration-Costs :
      (f : ℕ) (kind : TKind) (read : Read) (p : Parser)
      → 10 * left p + 7 ≤ f
      → Costs 0 (left p) (declaration from_str f kind read p)
  unfolding declaration make_cls
  declaration-Costs f kind (fns, cls) p h =
      Costs-choose (kind == class_kw) _ _
        (Costs-then (recover-Costs cls (class-Costs f p h)) (omega arith)
          λ cls' p₁ h₁. gave _ p₁ h₁)
        (Costs-choose (kind == fun_kw) _ _
          (Costs-then (make_fn-Costs f fns false p h) (omega arith) λ fns' p₁ h₁. gave _ p₁ h₁)
          (Costs-choose (kind == extern_kw) _ _ (extern_item-Costs f (fns, cls) p h)
            (unexpected-Costs (fns, cls) p)))

  parse_loop-Costs :
      (f : ℕ) (read : Read) (p : Parser)
      → 10 * left p + 1 ≤ f
      → Costs 0 (left p) (parse_loop from_str f read p)
  unfolding parse_loop advance
  parse_loop-Costs zero read p h = absurd (omega arith)
  parse_loop-Costs (suc f) read p h =
      Costs-if (is_at_end p) (λ e. gave read p (omega arith))
        λ e.
          let h₀ = left-step_lt p e in
          Costs-then (declaration-Costs f p.current.kind read (step p) (omega arith)) (omega arith)
            λ read' p₁ h₁. Costs-from (parse_loop-Costs f read' p₁ (omega arith)) (omega arith)

  finish-ne-ran_out :
      {n : ℕ} {r : Run Read} (path : List Text) → Costs 0 n r → finish path r ≢ ran_out
  finish-ne-ran_out path (gave (fns, cls) p h) = ground arith
  finish-ne-ran_out path (Budget.failed e p h) = cc
  finish-ne-ran_out path Budget.panicked = cc

  -- Whatever the tokens of a file are, the parser stops within the fuel that the model hands it: it
  -- gives a module, errors, or a panic, and is never cut short.
  pub parse-ne-ran_out :
      (path : List Text) (tokens : List Token) → parse from_str path tokens ≢ ran_out
  unfolding parse
  parse-ne-ran_out path [] = cc
  parse-ne-ran_out path (t ∷ ts) = finish-ne-ran_out path (
      parse_loop-Costs (10 * length (t ∷ ts) + 10) ([], []) (new_parser t ts)
        (budget (t.kind == error)))
    where
      budget : (b : Bool) → 10 * (length ts + (if b then 0 else 1)) + 1 ≤ 10 * length (t ∷ ts) + 10
      budget true = omega arith
      budget false = omega arith
