-- ===== src/Lang/Compiler/ExprCompiler/Sound.antt =====
-- lang/src/compiler/module/expr_compiler.rs: an expression that is compiled without a report is well
-- typed.
use yacuri.Base.{ℕ, ◌≤◌, refl, none, some, List, length, arith}
use yacuri.Lang.Ast as Ast
use yacuri.Lang.Compiler.Ir.{Ty, into_fn, nil, cons, typ, Module, if_expr}
use yacuri.Lang.Compiler.ExprCompiler.{
  Debug, State, identifier, find_local, expr, eexpr, exprs, option_expr, begin_scope,
}
use yacuri.Lang.Compiler.ExprCompiler.Checked.{
  Checked, Checked-bind, Checked-pure, lift-Checked, scope-Checked,
}
use yacuri.Lang.Compiler.ExprCompiler.Typing.{
  Typed, AllTyped, Args, typ-Typed, Typed-unique, ==→eq, variable_typed, constant_typed,
}
use yacuri.Lang.Compiler.ExprCompiler.Typing
use yacuri.Lang.Compiler.ExprCompiler.Plain.{Plain, PlainInner, PlainAll, PlainOption}
use yacuri.Lang.Compiler.ExprCompiler.Judged.{
  Checked-map, HasTy, EachTyped, all_typed, check_binary-Checked, check_condition-Checked,
  identifier-HasTy, declare-Checked, OptionTyped, if_expr-HasTy, literal-HasTy,
}
use yacuri.Lang.Compiler.ExprCompiler.JudgedCalls.{call_or_poison-Checked}

module _ (modules : List Module) (id : ℕ) (debug : Debug) where
  -- Each expression, the expressions of a block or of a call, and the branch of an `if`.
  mutual
    unfolding expr eexpr exprs option_expr begin_scope identifier OptionTyped Plain PlainInner
        PlainAll PlainOption

    pub expr-Checked :
        (e : Ast.Expr) {n : ℕ} (s : State)
        → Plain e
        → n ≤ length s.reported
        → Checked (HasTy modules id debug) n s (expr modules id debug e s)
    expr-Checked (Ast.expr ty start) s p h = eexpr-Checked ty s p h

    eexpr-Checked :
        (e : Ast.EExpr) {n : ℕ} (s : State)
        → PlainInner e
        → n ≤ length s.reported
        → Checked (HasTy modules id debug) n s (eexpr modules id debug e s)
    eexpr-Checked (Ast.EExpr.literal lit) s p h =
        Checked-pure _ s λ k. literal-HasTy modules id debug lit p
    eexpr-Checked (Ast.EExpr.binary left op right) s (p, p') h =
        Checked-bind (expr-Checked left s p h) λ left_ s₁ l₁ q₁.
          Checked-bind (expr-Checked right s₁ p' (omega (arith, l₁.kept))) λ right_ s₂ l₂ q₂.
            Checked-bind (lift-Checked (typ left_) s₂) λ lty s₃ l₃ q₃.
              Checked-bind (lift-Checked (typ right_) s₃) λ rty s₄ l₄ q₄.
                check_binary-Checked modules id debug left_ op right_ lty rty s₄
                  (omega (arith, l₁.kept, l₂.kept, l₃.kept, l₄.kept))
                  (λ k.
                    Typed-unique modules (q₁ (omega (arith, l₂.kept, l₃.kept, l₄.kept))).1
                      (q₃ (omega (arith, l₄.kept))))
                  (λ k. Typed-unique modules (q₂ (omega (arith, l₃.kept, l₄.kept))).1 (q₄ k))
    eexpr-Checked (Ast.EExpr.block es) s p h =
        scope-Checked _ (exprs-Checked es _ p h)
          λ es_ q. let r = all_typed modules id debug es_ q in (r.0, Typing.block_typed es_ r.0 r.1)
    eexpr-Checked (Ast.EExpr.if_ cond_ taken els) s (p, p', p'') h =
        Checked-bind (expr-Checked cond_ s p h) λ condition s₁ l₁ q₁.
          Checked-bind
            (check_condition-Checked modules id debug condition (Ast.start_of cond_) s₁
              (omega (arith, l₁.kept)) q₁)
            λ u s₂ l₂ q₂.
              Checked-bind (expr-Checked taken s₂ p' (omega (arith, l₁.kept, l₂.kept)))
                λ taken_ s₃ l₃ q₃.
                  Checked-bind
                    (option_expr-Checked els s₃ p'' (omega (arith, l₁.kept, l₂.kept, l₃.kept)))
                    λ els_ s₄ l₄ q₄.
                      Checked-map (lift-Checked (if_expr condition taken_ els_) s₄) λ e k q.
                        if_expr-HasTy modules id debug condition taken_ els_ e
                          (q₂ (omega (arith, l₃.kept, l₄.kept))) (q₃ (omega (arith, l₄.kept)))
                          (q₄ k) q
    eexpr-Checked (Ast.EExpr.while_ cond_ body) s (p, p') h =
        Checked-bind (expr-Checked cond_ s p h) λ condition s₁ l₁ q₁.
          Checked-bind
            (check_condition-Checked modules id debug condition (Ast.start_of cond_) s₁
              (omega (arith, l₁.kept)) q₁)
            λ u s₂ l₂ q₂.
              Checked-bind (expr-Checked body s₂ p' (omega (arith, l₁.kept, l₂.kept)))
                λ body_ s₃ l₃ q₃. Checked-pure _ s₃ λ k.
                  let b : HasTy modules id debug body_ = q₃ k in
                  (Ty.void, Typing.loop condition body_ b.0 (q₂ (omega (arith, l₃.kept))) b.1)
    eexpr-Checked (Ast.EExpr.identifier ident) s p h =
        identifier-HasTy modules id debug ident (find_local ident.lex s) s h
    eexpr-Checked (Ast.EExpr.variable final_ name value) s p h =
        Checked-bind (expr-Checked value s p h) λ value_ s₁ l₁ q₁.
          declare-Checked modules id debug final_ name value_ s₁ (omega (arith, l₁.kept)) q₁
    eexpr-Checked (Ast.EExpr.call callee args) s (p, p') h =
        Checked-bind (expr-Checked callee s p h) λ callee_ s₁ l₁ q₁.
          Checked-bind (lift-Checked (typ callee_) s₁) λ ty s₂ l₂ q₂.
            call_or_poison-Checked modules id debug (Ast.start_of callee) callee_ ty _ (into_fn ty)
              s₂ refl (omega (arith, l₁.kept, l₂.kept))
              (λ k. Typed-unique modules (q₁ (omega (arith, l₂.kept))).1 (q₂ k))
              (exprs-Checked args s₂ p' (omega (arith, l₁.kept, l₂.kept)))
    eexpr-Checked (Ast.EExpr.unary op right) s p h = absurd p

    pub exprs-Checked :
        (es : Ast.Exprs) {n : ℕ} (s : State)
        → PlainAll es
        → n ≤ length s.reported
        → Checked (EachTyped modules id debug) n s (exprs modules id debug es s)
    exprs-Checked Ast.Exprs.nil s p h = Checked-pure nil s λ k. tt
    exprs-Checked (Ast.Exprs.cons e es) s (p, p') h =
        Checked-bind (expr-Checked e s p h) λ e_ s₁ l₁ q₁.
          Checked-bind (exprs-Checked es s₁ p' (omega (arith, l₁.kept)))
            λ es_ s₂ l₂ q₂. Checked-pure (cons e_ es_) s₂ λ k. (q₁ (omega (arith, l₂.kept)), q₂ k)

    option_expr-Checked :
        (o : Ast.OptionExpr) {n : ℕ} (s : State)
        → PlainOption o
        → n ≤ length s.reported
        → Checked (OptionTyped modules id debug) n s (option_expr modules id debug o s)
    option_expr-Checked Ast.OptionExpr.absent s p h = Checked-pure none s λ k. tt
    option_expr-Checked (Ast.OptionExpr.present e) s p h =
        Checked-bind (expr-Checked e s p h) λ e_ s₁ l₁ q₁. Checked-pure (some e_) s₁ q₁
