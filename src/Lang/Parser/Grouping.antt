-- ===== src/Lang/Parser/Grouping.antt =====
-- How a chain of binary operators groups: `binary` and `binary_loop` against the binding powers.
use yacuri.Base.{
  ℕ, zero, suc, ◌+◌, ◌*◌, ◌≤◌, ◌≡◌, refl, true, false, some, none, List, [], ◌∷◌, arith, length,
  ltb, if◌then◌else◌, Option, Bool-cases, inl, inr, subst, ◌-◌, Bool-cases, inl, inr, subst, ◌-◌,
}
use yacuri.Lang.Token.{
  Text, TKind, ◌==◌, Token, identifier, left_paren, infix_binding_power, prefix_binding_power,
  SourceError,
}
use yacuri.Lang.Ast.{Expr, expr, EExpr}
use yacuri.Lang.Parser.State.{Parser, ok, bind, step, advance}
use yacuri.Lang.Parser.Expr.{mk_binary, expression, binary, binary_loop, unary}

-- An operand: an identifier.
pub record Operand : Type 0 where
  pub lex : Text
  pub start : ℕ

abbrev pub operand_token : Operand → Token
operand_token x = record { kind = identifier; lex = x.lex; start = x.start }

abbrev pub operand_expr : Operand → Expr
operand_expr x = expr (EExpr.identifier (operand_token x)) x.start

-- `x`, then the operators with the operands behind them, then the tokens that follow
abbrev pub chain_tokens : List (Token × Operand) → List Token → List Token
chain_tokens [] rest = rest
chain_tokens ((op, y) ∷ more) rest = op ∷ operand_token y ∷ chain_tokens more rest

abbrev pub at_chain : Operand → List (Token × Operand) → List Token → List SourceError → Parser
at_chain x more rest errors = record {
  lexer = chain_tokens more rest;
  current = operand_token x;
  errors = errors;
}

abbrev pub at_rest : Token → List Token → List SourceError → Parser
at_rest t rest errors = record { lexer = rest; current = t; errors = errors }

-- Grouping to the right: x₀ op₁ (x₁ op₂ (x₂ …)).
unfoldable pub right_nested : Operand → List (Token × Operand) → Expr
right_nested x [] = operand_expr x
right_nested x ((op, y) ∷ more) = mk_binary (operand_expr x) op (right_nested y more)

-- Grouping to the left: ((x₀ op₁ x₁) op₂ x₂) ….
unfoldable pub left_nested : Expr → List (Token × Operand) → Expr
left_nested e [] = e
left_nested e ((op, y) ∷ more) = left_nested (mk_binary e op (operand_expr y)) more

-- Every operator of the chain has these binding powers.
abbrev pub AllBind : ℕ → ℕ → List (Token × Operand) → Type 0
AllBind l r [] = Unit
AllBind l r ((op, y) ∷ more) = (infix_binding_power op.kind ≡ some (l, r)) × AllBind l r more

-- A token that ends an expression: no operator, and no argument list.
abbrev pub Ends : Token → Type 0
Ends t = (infix_binding_power t.kind ≡ none) × ((t.kind == left_paren) ≡ false)

infix-not_paren :
    (k : TKind) (x : ℕ × ℕ) → infix_binding_power k ≡ some x → (k == left_paren) ≡ false
unfolding infix_binding_power
infix-not_paren left_paren x h = cc
infix-not_paren _ x h = refl

enough : (f : ℕ) → 9 ≤ f → suc (suc (suc (suc (suc (suc (suc (suc (suc (f - 9))))))))) ≡ f
enough f h = omega arith

module _ (from_str : Text → Option ℕ) where
  -- An operand is read whole where no argument list follows.
  unary-operand :
      (f : ℕ) (x : Operand) (t : Token) (ts : List Token) (errors : List SourceError)
      → (t.kind == left_paren) ≡ false
      → unary from_str
          (suc (suc (suc f)))
          (record { lexer = t ∷ ts; current = operand_token x; errors = errors })
        ≡ ok (operand_expr x) (at_rest t ts errors)
  unfolding unary step infix_binding_power prefix_binding_power
  unary-operand f x t ts errors h = rw h

  module _ (t : Token) (rest : List Token) (errors : List SourceError) (ends : Ends t) where
    -- The loop stops in front of a token that is no operator,
    loop-stop :
        (f m : ℕ) (e : Expr)
        → binary_loop from_str (suc f) m e (at_rest t rest errors) ≡ ok e (at_rest t rest errors)
    unfolding binary_loop
    loop-stop f m e = rw (ends.0, binary_loop)

    operand-end :
        (f m : ℕ) (x : Operand)
        → binary from_str (suc (suc (suc (suc f)))) m (at_chain x [] (t ∷ rest) errors)
          ≡ ok (operand_expr x) (at_rest t rest errors)
    unfolding binary
    operand-end f m x = rw (unary-operand f x t rest errors ends.1) (loop-stop (suc (suc f)) m _)

  -- and in front of an operator that binds weaker than the minimum;
  loop-weaker :
      (f m l r : ℕ) (e : Expr) (op : Token) (ts : List Token) (errors : List SourceError)
      → infix_binding_power op.kind ≡ some (l, r)
      → ltb l m ≡ true
      → binary_loop from_str (suc f) m e (at_rest op ts errors) ≡ ok e (at_rest op ts errors)
  unfolding binary_loop
  loop-weaker f m l r e op ts errors h lt = rw (h, binary_loop) (rw lt)

  -- any other operator takes the chain behind it with the operator's right power.
  loop-takes :
      (f m l r : ℕ) (e : Expr) (op : Token) (y : Operand) (more : List (Token × Operand))
      (ts : List Token) (errors : List SourceError)
      → infix_binding_power op.kind ≡ some (l, r)
      → ltb l m ≡ false
      → binary_loop from_str
          (suc f)
          m
          e
          (at_rest op (operand_token y ∷ chain_tokens more ts) errors)
        ≡ bind
            (binary from_str f r (at_chain y more ts errors))
            (λ right. binary_loop from_str f m (mk_binary e op right))
  unfolding binary_loop advance step
  loop-takes f m l r e op y more ts errors h lt = rw (h, binary_loop) (rw lt)

  binary-operand :
      (f m l r : ℕ) (x : Operand) (op : Token) (ts : List Token) (errors : List SourceError)
      → infix_binding_power op.kind ≡ some (l, r)
      → binary from_str
          (suc (suc (suc (suc f))))
          m
          (record { lexer = op ∷ ts; current = operand_token x; errors = errors })
        ≡ binary_loop from_str (suc (suc (suc f))) m (operand_expr x) (at_rest op ts errors)
  unfolding binary
  binary-operand f m l r x op ts errors h =
      rw (unary-operand f x op ts errors (infix-not_paren op.kind (l, r) h))

  module _ (t : Token) (rest : List Token) (errors : List SourceError) (ends : Ends t) where
    binary-chain :
        (f m l r : ℕ) (x : Operand) (more : List (Token × Operand))
        → m ≤ l
        → r ≤ l
        → AllBind l r more
        → 2 * length more + 4 ≤ f
        → binary from_str f m (at_chain x more (t ∷ rest) errors)
          ≡ ok (right_nested x more) (at_rest t rest errors)
    unfolding right_nested
    binary-chain zero m l r x more hm hr hs hf = absurd (omega arith)
    binary-chain (suc zero) m l r x more hm hr hs hf = absurd (omega arith)
    binary-chain (suc (suc zero)) m l r x more hm hr hs hf = absurd (omega arith)
    binary-chain (suc (suc (suc zero))) m l r x more hm hr hs hf = absurd (omega arith)
    binary-chain (suc (suc (suc (suc f)))) m l r x [] hm hr hs hf =
        operand-end t rest errors ends f m x
    binary-chain (suc (suc (suc (suc f)))) m l r x ((op, y) ∷ more) hm hr hs hf =
        rw
          (
            binary-operand f m l r x op (operand_token y ∷ chain_tokens more (t ∷ rest)) errors
                hs.0,
            loop-takes (suc (suc f)) m l r (operand_expr x) op y more (t ∷ rest) errors hs.0
                (ground arith),
            binary-chain (suc (suc f)) r l r y more hr hr hs.1 (omega arith),
          )
          (loop-stop t rest errors ends (suc f) m _)

    -- A chain of operators that share one binding power groups to the right, however long it is,
    -- where the right power does not exceed the left one; the parser stops at the token behind it.
    pub expression-right_nested :
        (f l r : ℕ) (x : Operand) (more : List (Token × Operand))
        → r ≤ l
        → AllBind l r more
        → 2 * length more + 5 ≤ f
        → expression from_str f (at_chain x more (t ∷ rest) errors)
          ≡ ok (right_nested x more) (at_rest t rest errors)
    unfolding expression
    expression-right_nested zero l r x more hr hs hf = absurd (omega arith)
    expression-right_nested (suc f) l r x more hr hs hf =
        binary-chain f 0 l r x more (omega arith) hr hs (omega arith)

    -- The loop at the first of two operators, with fuel to spare.
    loop-two :
        (g l₁ r₁ l₂ r₂ : ℕ) (x y z : Operand) (op₁ op₂ : Token)
        → infix_binding_power op₁.kind ≡ some (l₁, r₁)
        → infix_binding_power op₂.kind ≡ some (l₂, r₂)
        → binary from_str
            (suc (suc (suc (suc (suc (suc (suc (suc g))))))))
            0
            (at_chain x ((op₁, y) ∷ (op₂, z) ∷ []) (t ∷ rest) errors)
          ≡ ok
              (if ltb l₂ r₁
                then left_nested (operand_expr x) ((op₁, y) ∷ (op₂, z) ∷ [])
                else right_nested x ((op₁, y) ∷ (op₂, z) ∷ []))
              (at_rest t rest errors)
    unfolding right_nested left_nested
    loop-two g l₁ r₁ l₂ r₂ x y z op₁ op₂ h₁ h₂ =
        rw
          (
            binary-operand (suc (suc (suc (suc g)))) 0 l₁ r₁ x op₁
                (operand_token y ∷ op₂ ∷ operand_token z ∷ t ∷ rest) errors h₁,
            loop-takes (suc (suc (suc (suc (suc (suc g)))))) 0 l₁ r₁ (operand_expr x) op₁ y
                ((op₂, z) ∷ []) (t ∷ rest) errors h₁ (ground arith),
            binary-operand (suc (suc g)) r₁ l₂ r₂ y op₂ (operand_token z ∷ t ∷ rest) errors h₂,
          )
          (elim (Bool-cases (ltb l₂ r₁)) [
            | inl lt ↦ rw (
              loop-weaker (suc (suc (suc (suc g)))) r₁ l₂ r₂ (operand_expr y) op₂
                  (operand_token z ∷ t ∷ rest) errors h₂ lt,
              loop-takes (suc (suc (suc (suc (suc g))))) 0 l₂ r₂
                  (mk_binary (operand_expr x) op₁ (operand_expr y)) op₂ z [] (t ∷ rest) errors h₂
                  (ground arith),
              operand-end t rest errors ends (suc g) r₂ z,
              loop-stop t rest errors ends (suc (suc (suc (suc g)))) 0 _,
              lt,
            )
            | inr ge ↦ rw (
              loop-takes (suc (suc (suc (suc g)))) r₁ l₂ r₂ (operand_expr y) op₂ z [] (t ∷ rest)
                  errors h₂ ge,
              operand-end t rest errors ends g r₂ z,
              loop-stop t rest errors ends (suc (suc (suc g))) r₁ _,
              loop-stop t rest errors ends (suc (suc (suc (suc (suc g))))) 0 _,
              ge,
            )
          ])

    -- Of two operators with three operands, the second takes the middle operand exactly when its
    -- left power reaches the right power of the first.
    pub expression-two_operators :
        (f l₁ r₁ l₂ r₂ : ℕ) (x y z : Operand) (op₁ op₂ : Token)
        → infix_binding_power op₁.kind ≡ some (l₁, r₁)
        → infix_binding_power op₂.kind ≡ some (l₂, r₂)
        → 9 ≤ f
        → expression from_str f (at_chain x ((op₁, y) ∷ (op₂, z) ∷ []) (t ∷ rest) errors)
          ≡ ok
              (if ltb l₂ r₁
                then left_nested (operand_expr x) ((op₁, y) ∷ (op₂, z) ∷ [])
                else right_nested x ((op₁, y) ∷ (op₂, z) ∷ []))
              (at_rest t rest errors)
    unfolding expression
    expression-two_operators f l₁ r₁ l₂ r₂ x y z op₁ op₂ h₁ h₂ hf =
        subst
          (λ n.
            expression from_str n (at_chain x ((op₁, y) ∷ (op₂, z) ∷ []) (t ∷ rest) errors)
            ≡ ok
                (if ltb l₂ r₁
                  then left_nested (operand_expr x) ((op₁, y) ∷ (op₂, z) ∷ [])
                  else right_nested x ((op₁, y) ∷ (op₂, z) ∷ []))
                (at_rest t rest errors))
          (enough f hf) (loop-two (f - 9) l₁ r₁ l₂ r₂ x y z op₁ op₂ h₁ h₂)
