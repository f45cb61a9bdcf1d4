-- ===== src/Lang/Parser/Fuel.antt =====
-- The fuel of an expression parser suffices, and what it reads lowers the count of tokens.
use yacuri.Base.{
  ℕ, zero, suc, ◌+◌, ◌*◌, ◌≤◌, ◌≡◌, refl, false, ◌||◌, Option, none, some, [], ◌∷◌, arith,
  Option-cases, inl, inr, ltb, ℤ,
}
use yacuri.Lang.Token.{
  Text, TKind, ◌==◌, error, comma, else_kw, false_kw, float, if_kw, int, left_brace, left_paren,
  right_brace, right_paren, true_kw, val_kw, var_kw, while_kw, infix_binding_power,
  prefix_binding_power,
}
use yacuri.Lang.Ast.{Expr, EExpr, nil, absent}
use yacuri.Lang.Parser.State.{Parser, check, check_any, is_at_end, step, advance}
use yacuri.Lang.Parser.Expr.{
  higher_expr, var_decl, expression, block, block_items, if_expr, else_branch, while_stmt, binary,
  binary_loop, unary, call, call_loop, call_args, arg_list, more_args, primary, leaf, int_leaf,
  float_leaf,
}
use yacuri.Lang.Parser.Budget.{
  left, Costs, gave, failed, panicked, Costs-if, Costs-then, Costs-weaken, left-step, left-step_lt,
  check-not_end, consume-Costs,
}

-- An operator is no end.
infix-not_error : (k : TKind) (x : ℕ × ℕ) → infix_binding_power k ≡ some x → (k == error) ≡ false
unfolding infix_binding_power
infix-not_error error x h = cc
infix-not_error _ x h = refl

prefix-not_error : (k : TKind) (x : ℕ) → prefix_binding_power k ≡ some x → (k == error) ≡ false
unfolding prefix_binding_power
prefix-not_error error x h = cc
prefix-not_error _ x h = refl

leaf-Costs : (e : EExpr) (p : Parser) → is_at_end p ≡ false → Costs 1 (left p) (leaf e p)
leaf-Costs e p h = gave _ (step p) (omega (arith, left-step_lt p h))

int_leaf-Costs : (n : Option ℤ) (p : Parser) → is_at_end p ≡ false → Costs 1 (left p) (int_leaf n p)
int_leaf-Costs none p h = panicked
int_leaf-Costs (some n) p h = leaf-Costs _ p h

float_leaf-Costs :
    (x : Option ℕ) (p : Parser) → is_at_end p ≡ false → Costs 1 (left p) (float_leaf x p)
float_leaf-Costs none p h = panicked
float_leaf-Costs (some n) p h = leaf-Costs _ p h

module _ (from_str : Text → Option ℕ) where
  mutual
    unfolding expression advance

    higher_expr-Costs :
        (f : ℕ) (p : Parser) → 10 * left p + 8 ≤ f → Costs 1 (left p) (higher_expr from_str f p)
    higher_expr-Costs zero p h = absurd (omega arith)
    higher_expr-Costs (suc f) p h =
        Costs-if (check_any (var_kw ∷ val_kw ∷ []) p) (λ e. var_decl-Costs f p (omega arith))
          (λ e. expression-Costs f p (omega arith))

    var_decl-Costs :
        (f : ℕ) (p : Parser) → 10 * left p + 1 ≤ f → Costs 1 (left p) (var_decl from_str f p)
    var_decl-Costs zero p h = absurd (omega arith)
    var_decl-Costs (suc f) p h =
        let h₀ = left-step p in
        Costs-then (consume-Costs _ (step p) refl) h₀ λ name p₁ h₁.
          Costs-then (consume-Costs _ p₁ refl) (omega arith) λ eq p₂ h₂.
            Costs-then (expression-Costs f p₂ (omega arith)) (omega arith)
              λ value p₃ h₃. gave _ p₃ (omega arith)

    expression-Costs :
        (f : ℕ) (p : Parser) → 10 * left p + 7 ≤ f → Costs 1 (left p) (expression from_str f p)
    expression-Costs zero p h = absurd (omega arith)
    expression-Costs (suc f) p h =
        Costs-if (check left_brace p)
          (λ e. block-Costs f p (check-not_end left_brace p refl e) (omega arith))
          λ e₁.
            Costs-if (check if_kw p) (λ e. if_expr-Costs f p (omega arith))
              λ e₂.
                Costs-if (check while_kw p) (λ e. while_stmt-Costs f p (omega arith))
                  λ e₃. binary-Costs f 0 p (omega arith)

    block-Costs :
        (f : ℕ) (p : Parser)
        → is_at_end p ≡ false
        → 10 * left p + 1 ≤ f
        → Costs 1 (left p) (block from_str f p)
    block-Costs zero p ne h = absurd (omega arith)
    block-Costs (suc f) p ne h =
        let h₀ = left-step_lt p ne in
        Costs-then (block_items-Costs f (step p) (omega arith)) (omega arith) λ es p₁ h₁.
          Costs-then (consume-Costs _ p₁ refl) (omega arith) λ t p₂ h₂. gave _ p₂ (omega arith)

    block_items-Costs :
        (f : ℕ) (p : Parser) → 10 * left p + 9 ≤ f → Costs 0 (left p) (block_items from_str f p)
    block_items-Costs zero p h = absurd (omega arith)
    block_items-Costs (suc f) p h =
        Costs-if (is_at_end p || check right_brace p) (λ e. gave nil p (omega arith))
          λ e. Costs-then (higher_expr-Costs f p (omega arith)) (omega arith) λ x p₁ h₁.
            Costs-then (block_items-Costs f p₁ (omega arith)) (omega arith)
              λ xs p₂ h₂. gave _ p₂ (omega arith)

    if_expr-Costs :
        (f : ℕ) (p : Parser) → 10 * left p + 1 ≤ f → Costs 1 (left p) (if_expr from_str f p)
    if_expr-Costs zero p h = absurd (omega arith)
    if_expr-Costs (suc f) p h =
        let h₀ = left-step p in
        Costs-then (consume-Costs _ (step p) refl) h₀ λ t p₁ h₁.
          Costs-then (expression-Costs f p₁ (omega arith)) (omega arith) λ c p₂ h₂.
            Costs-then (consume-Costs _ p₂ refl) (omega arith) λ t p₃ h₃.
              Costs-then (expression-Costs f p₃ (omega arith)) (omega arith) λ a p₄ h₄.
                Costs-then (else_branch-Costs f p₄ (omega arith)) (omega arith)
                  λ b p₅ h₅. gave _ p₅ (omega arith)

    else_branch-Costs :
        (f : ℕ) (p : Parser) → 10 * left p + 1 ≤ f → Costs 0 (left p) (else_branch from_str f p)
    else_branch-Costs zero p h = absurd (omega arith)
    else_branch-Costs (suc f) p h =
        Costs-if (check else_kw p)
          (λ e.
            let h₀ = left-step_lt p (check-not_end else_kw p refl e) in
            Costs-then (expression-Costs f (step p) (omega arith)) (omega arith)
              λ x p₁ h₁. gave _ p₁ (omega arith))
          (λ e. gave absent p (omega arith))

    while_stmt-Costs :
        (f : ℕ) (p : Parser) → 10 * left p + 1 ≤ f → Costs 1 (left p) (while_stmt from_str f p)
    while_stmt-Costs zero p h = absurd (omega arith)
    while_stmt-Costs (suc f) p h =
        let h₀ = left-step p in
        Costs-then (consume-Costs _ (step p) refl) h₀ λ t p₁ h₁.
          Costs-then (expression-Costs f p₁ (omega arith)) (omega arith) λ c p₂ h₂.
            Costs-then (consume-Costs _ p₂ refl) (omega arith) λ t p₃ h₃.
              Costs-then (expression-Costs f p₃ (omega arith)) (omega arith)
                λ a p₄ h₄. gave _ p₄ (omega arith)

    binary-Costs :
        (f minimum : ℕ) (p : Parser)
        → 10 * left p + 6 ≤ f
        → Costs 1 (left p) (binary from_str f minimum p)
    binary-Costs zero minimum p h = absurd (omega arith)
    binary-Costs (suc f) minimum p h =
        Costs-then (unary-Costs f p (omega arith)) (omega arith) λ e p₁ h₁.
          Costs-weaken {j = 0} (binary_loop-Costs f minimum e p₁ (omega arith)) (λ x k. omega arith)
            (omega arith)

    binary_loop-Costs :
        (f minimum : ℕ) (e : Expr) (p : Parser)
        → 10 * left p + 1 ≤ f
        → Costs 0 (left p) (binary_loop from_str f minimum e p)
    binary_loop-Costs zero minimum e p h = absurd (omega arith)
    binary_loop-Costs (suc f) minimum e p h =
        elim (Option-cases (infix_binding_power p.current.kind)) [
          | inl q ↦ rw (q, binary_loop) (gave e p (omega arith))
          | inr ((lbp, rbp), q) ↦
              let h₀ = left-step_lt p (infix-not_error p.current.kind (lbp, rbp) q) in
              rw (q, binary_loop)
                (Costs-if (ltb lbp minimum) (λ _. gave e p (omega arith))
                  λ _.
                    Costs-then (binary-Costs f rbp (step p) (omega arith)) (omega arith)
                      λ right p₁ h₁.
                        Costs-weaken {j = 0} (binary_loop-Costs f minimum _ p₁ (omega arith))
                          (λ x k. omega arith) (omega arith))
        ]

    unary-Costs : (f : ℕ) (p : Parser) → 10 * left p + 5 ≤ f → Costs 1 (left p) (unary from_str f p)
    unary-Costs zero p h = absurd (omega arith)
    unary-Costs (suc f) p h = elim (Option-cases (prefix_binding_power p.current.kind)) [
      | inl q ↦ rw (q, unary) (call-Costs f p (omega arith))
      | inr (rbp, q) ↦
          let h₀ = left-step_lt p (prefix-not_error p.current.kind rbp q) in
          rw (q, unary)
            (Costs-then (binary-Costs f rbp (step p) (omega arith)) (omega arith)
              λ right p₁ h₁. gave _ p₁ (omega arith))
    ]

    call-Costs : (f : ℕ) (p : Parser) → 10 * left p + 4 ≤ f → Costs 1 (left p) (call from_str f p)
    call-Costs zero p h = absurd (omega arith)
    call-Costs (suc f) p h = Costs-then (primary-Costs f p (omega arith)) (omega arith) λ e p₁ h₁.
        Costs-weaken {j = 0} (call_loop-Costs f e p₁ (omega arith)) (λ x k. omega arith)
          (omega arith)

    call_loop-Costs :
        (f : ℕ) (e : Expr) (p : Parser)
        → 10 * left p + 1 ≤ f
        → Costs 0 (left p) (call_loop from_str f e p)
    call_loop-Costs zero e p h = absurd (omega arith)
    call_loop-Costs (suc f) e p h =
        Costs-if (check left_paren p)
          (λ c.
            let h₀ = left-step_lt p (check-not_end left_paren p refl c) in
            Costs-then (call_args-Costs f (step p) (omega arith)) (omega arith) λ args p₁ h₁.
              Costs-then (consume-Costs _ p₁ refl) (omega arith) λ t p₂ h₂.
                Costs-weaken {j = 0} (call_loop-Costs f _ p₂ (omega arith)) (λ x k. omega arith)
                  (omega arith))
          (λ c. gave e p (omega arith))

    call_args-Costs :
        (f : ℕ) (p : Parser) → 10 * left p + 9 ≤ f → Costs 0 (left p) (call_args from_str f p)
    call_args-Costs zero p h = absurd (omega arith)
    call_args-Costs (suc f) p h =
        Costs-if (check right_paren p) (λ e. gave nil p (omega arith))
          (λ e. arg_list-Costs f p (omega arith))

    arg_list-Costs :
        (f : ℕ) (p : Parser) → 10 * left p + 8 ≤ f → Costs 0 (left p) (arg_list from_str f p)
    arg_list-Costs zero p h = absurd (omega arith)
    arg_list-Costs (suc f) p h =
        Costs-then (expression-Costs f p (omega arith)) (omega arith) λ e p₁ h₁.
          Costs-then (more_args-Costs f p₁ (omega arith)) (omega arith)
            λ es p₂ h₂. gave _ p₂ (omega arith)

    more_args-Costs :
        (f : ℕ) (p : Parser) → 10 * left p + 1 ≤ f → Costs 0 (left p) (more_args from_str f p)
    more_args-Costs zero p h = absurd (omega arith)
    more_args-Costs (suc f) p h =
        Costs-if (check comma p)
          (λ e.
            let h₀ = left-step_lt p (check-not_end comma p refl e) in
            Costs-weaken {j = 0} (arg_list-Costs f (step p) (omega arith)) (λ x k. omega arith)
              (omega arith))
          (λ e. gave nil p (omega arith))

    primary-Costs :
        (f : ℕ) (p : Parser) → 10 * left p + 3 ≤ f → Costs 1 (left p) (primary from_str f p)
    primary-Costs zero p h = absurd (omega arith)
    primary-Costs (suc f) p h =
        Costs-if (check false_kw p) (λ e. leaf-Costs _ p (check-not_end false_kw p refl e))
          λ _.
            Costs-if (check true_kw p) (λ e. leaf-Costs _ p (check-not_end true_kw p refl e))
              λ _.
                Costs-if (check TKind.string p)
                  (λ e. leaf-Costs _ p (check-not_end TKind.string p refl e))
                  λ _.
                    Costs-if (check int p) (λ e. int_leaf-Costs _ p (check-not_end int p refl e))
                      λ _.
                        Costs-if (check float p)
                          (λ e. float_leaf-Costs _ p (check-not_end float p refl e))
                          λ _.
                            Costs-if (check TKind.identifier p)
                              (λ e. leaf-Costs _ p (check-not_end TKind.identifier p refl e))
                              λ _.
                                Costs-if (check left_paren p)
                                  (λ e.
                                    let h₀ = left-step_lt p (check-not_end left_paren p refl e) in
                                    Costs-then (expression-Costs f (step p) (omega arith))
                                      (omega arith)
                                      λ x p₁ h₁.
                                        Costs-then (consume-Costs _ p₁ refl) (omega arith)
                                          λ t p₂ h₂. gave _ p₂ (omega arith))
                                  (λ _. failed _ p (omega arith))

  -- With ten units of fuel for a token left and seven more, an expression is read or refused.
  pub expression_fits :
      (f : ℕ) (p : Parser) → 10 * left p + 7 ≤ f → Costs 1 (left p) (expression from_str f p)
  expression_fits f p h = expression-Costs f p h
