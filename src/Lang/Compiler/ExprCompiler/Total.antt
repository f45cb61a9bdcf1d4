-- ===== src/Lang/Compiler/ExprCompiler/Total.antt =====
-- lang/src/compiler/module/expr_compiler.rs: what compiles without a panic.
use yacuri.Base.{
  ℕ, suc, ◌≡◌, refl, sym, ap, subst, ◌∙◌, Bool, true, false, Option, none, some, List, [], ◌∷◌, ap₂,
  length, arith,
}
use yacuri.Lang.Token.{Text}
use yacuri.Lang.Ast as Ast
use yacuri.Lang.Compiler.Ir.{
  Ty, into_fn, from_literal, constant, Expr, Exprs, nil, cons, new, typ, get_type, last_type,
  Module, if_expr, if_, while_, block, zero_expr, phi_of, ◌==◌,
}
use yacuri.Lang.Compiler.ExprCompiler.{
  Debug, State, find_local, first_some, identifier, expr, eexpr, exprs, option_expr, begin_scope,
  end_scope, tail, pure, ◌>>◌, Scope, lift,
}
use yacuri.Lang.Compiler.ExprCompiler.Plain.{
  IsNumberOrBool, Direct, DirectInner, DirectAll, DirectOption,
}
use yacuri.Lang.Compiler.ExprCompiler.Ready.{
  Gives, gives, Gives-bind, ScopesScalar, Ready, HasScalar, EachScalar, GoodTree, GoodTrees,
  lift-Gives, find_local-Scalar,
}
use yacuri.Lang.Compiler.ExprCompiler.Steps.{
  check_binary-Gives, check_condition-Gives, declare-Gives,
}
use yacuri.Lang.Compiler.ExprCompiler.Callee.{
  AllCallable, Callee, found-Gives, identifier-Gives, lift_called-Gives, call-Gives,
}

module _ (names : List Text) (modules : List Module) where
  OptionScalar : Option Expr → Type 0
  OptionScalar none = Unit
  OptionScalar (some e) = HasScalar e

  last-Scalar : (es : Exprs) → EachScalar es → HasScalar (new (block es))
  unfolding HasScalar typ get_type last_type into_fn
  last-Scalar nil h = (Ty.void, refl, tt)
  last-Scalar (cons e nil) (h, h') = h
  last-Scalar (cons e (cons e' es)) (h, h') = last-Scalar (cons e' es) h'

  literal-Scalar :
      (lit : Ast.Literal) → IsNumberOrBool lit → HasScalar (new (constant (from_literal lit)))
  unfolding HasScalar typ get_type into_fn from_literal
  literal-Scalar (Ast.Literal.bool b) h = (Ty.bool, refl, tt)
  literal-Scalar (Ast.Literal.int i) h = (Ty.i64, refl, tt)
  literal-Scalar (Ast.Literal.float f) h = (Ty.f64, refl, tt)
  literal-Scalar (Ast.Literal.string s) h = absurd h

  phi-Scalar :
      (cond_ then_ els : Expr) (phi : Bool)
      → HasScalar then_
      → HasScalar (new (if_ cond_ then_ els phi))
  unfolding HasScalar typ get_type into_fn
  phi-Scalar cond_ then_ els true h = h
  phi-Scalar cond_ then_ els false h = (Ty.void, refl, tt)

  if_expr-Gives :
      (n : ℕ) (cond_ then_ : Expr) (els : Option Expr) (s : State)
      → HasScalar then_
      → OptionScalar els
      → Ready n s
      → Gives (GoodTree n) (lift (if_expr cond_ then_ els) s)
  unfolding if_expr GoodTree OptionScalar HasScalar
  if_expr-Gives n cond_ then_ none s h k r =
      gives (new (if_ cond_ then_ zero_expr false)) s (phi-Scalar cond_ then_ zero_expr false h, r)
  if_expr-Gives n cond_ then_ (some els) s (ty, h, l) (ty', h', l') r = rw (ap₂ phi_of h h') (
      gives (new (if_ cond_ then_ els (ty == ty'))) s
        (phi-Scalar cond_ then_ els (ty == ty') (ty, h, l), r))

  -- The end of the scope of a block.
  end-Gives :
      (n : ℕ) (es : Exprs) (s : State)
      → GoodTrees (suc n) es s
      → Gives (GoodTree n) ((end_scope >> pure (new (block es))) s)
  unfolding end_scope GoodTrees GoodTree Ready
  end-Gives n es s (h, (e, k)) = ended s.environments e k
    where
      ended :
          (envs : List Scope)
          → length envs ≡ suc (suc n)
          → ScopesScalar envs
          → Gives (GoodTree n) (some (new (block es), record s { environments = tail envs }))
      ended [] e k = absurd (omega arith)
      ended (env ∷ envs) e (k, k') =
          gives (new (block es)) (record s { environments = envs })
            (last-Scalar es h, (omega arith, k'))

  mutual
    unfolding expr eexpr exprs option_expr begin_scope end_scope identifier find_local Direct
        DirectInner DirectAll DirectOption Ready HasScalar GoodTree GoodTrees Callee OptionScalar
        typ get_type last_type into_fn

    expr-Gives :
        (e : Ast.Expr) (n id : ℕ) (debug : Debug) (s : State)
        → AllCallable names modules
        → Direct names e
        → Ready n s
        → Gives (GoodTree n) (expr modules id debug e s)
    expr-Gives (Ast.expr ty start) n id debug s all p r = eexpr-Gives ty n id debug s all p r

    eexpr-Gives :
        (e : Ast.EExpr) (n id : ℕ) (debug : Debug) (s : State)
        → AllCallable names modules
        → DirectInner names e
        → Ready n s
        → Gives (GoodTree n) (eexpr modules id debug e s)
    eexpr-Gives (Ast.EExpr.literal lit) n id debug s all p r = gives _ s (literal-Scalar lit p, r)
    eexpr-Gives (Ast.EExpr.binary left op right) n id debug s all (p, p') r =
        Gives-bind (expr-Gives left n id debug s all p r) λ left_ s₁ q₁.
          Gives-bind (expr-Gives right n id debug s₁ all p' q₁.1) λ right_ s₂ q₂.
            Gives-bind (lift-Gives left_ s₂ q₁.0) λ lty s₃ q₃.
              Gives-bind (lift-Gives right_ s₃ q₂.0) λ rty s₄ q₄.
                check_binary-Gives modules id debug n left_ op right_ lty rty s₄
                  (subst (Ready n) (sym (q₄.0 ∙ q₃.0)) q₂.1) q₃.2 q₄.2 q₃.1 q₂.0
    eexpr-Gives (Ast.EExpr.block es) n id debug s all p r =
        Gives-bind
          (exprs-Gives es (suc n) id debug (record s { environments = [] ∷ s.environments }) all p
            (ap suc r.0, (tt, r.1)))
          λ es_ s₁ q₁. end-Gives n es_ s₁ q₁
    eexpr-Gives (Ast.EExpr.if_ cond_ taken els) n id debug s all (p, p', p'') r =
        Gives-bind (expr-Gives cond_ n id debug s all p r) λ condition s₁ q₁.
          Gives-bind
            (check_condition-Gives modules id debug n condition (Ast.start_of cond_) s₁ q₁.0 q₁.1)
            λ u s₂ r₂. Gives-bind (expr-Gives taken n id debug s₂ all p' r₂) λ taken_ s₃ q₃.
              Gives-bind (option_expr-Gives els n id debug s₃ all p'' q₃.1)
                λ els_ s₄ q₄. if_expr-Gives n condition taken_ els_ s₄ q₃.0 q₄.0 q₄.1
    eexpr-Gives (Ast.EExpr.while_ cond_ body) n id debug s all (p, p') r =
        Gives-bind (expr-Gives cond_ n id debug s all p r) λ condition s₁ q₁.
          Gives-bind
            (check_condition-Gives modules id debug n condition (Ast.start_of cond_) s₁ q₁.0 q₁.1)
            λ u s₂ r₂.
              Gives-bind (expr-Gives body n id debug s₂ all p' r₂)
                λ body_ s₃ q₃. gives (new (while_ condition body_)) s₃ ((Ty.void, refl, tt), q₃.1)
    eexpr-Gives (Ast.EExpr.identifier ident) n id debug s all p r =
        identifier-Gives names modules id debug n ident (first_some s.environments ident.lex) s all
          p (find_local-Scalar s.environments ident.lex r.1) r
    eexpr-Gives (Ast.EExpr.variable final_ name value) n id debug s all p r =
        Gives-bind (expr-Gives value n id debug s all p r)
          λ value_ s₁ q₁. declare-Gives modules id debug n final_ name value_ s₁ q₁.0 q₁.1
    eexpr-Gives (Ast.EExpr.call (Ast.expr (Ast.EExpr.identifier ident) start) args) n id debug s all
          (p, p') r =
        Gives-bind
          (found-Gives names modules id debug n ident (first_some s.environments ident.lex) s
            (find_local-Scalar s.environments ident.lex r.1) r)
          λ callee_ s₁ q₁.
            Gives-bind (lift_called-Gives names modules id debug callee_ s₁ q₁.0) λ ty s₂ q₂.
              let r₂ = subst (Ready n) (sym q₂.0) q₁.1 in
              call-Gives names modules id debug n start callee_ ty _ s₂ all q₂.1 r₂
                (exprs-Gives args n id debug s₂ all p' r₂)
    eexpr-Gives (Ast.EExpr.call callee args) n id debug s all (p, p') r = absurd p
    eexpr-Gives (Ast.EExpr.unary op right) n id debug s all p r = absurd p

    exprs-Gives :
        (es : Ast.Exprs) (n id : ℕ) (debug : Debug) (s : State)
        → AllCallable names modules
        → DirectAll names es
        → Ready n s
        → Gives (GoodTrees n) (exprs modules id debug es s)
    exprs-Gives Ast.Exprs.nil n id debug s all p r = gives nil s (tt, r)
    exprs-Gives (Ast.Exprs.cons e es) n id debug s all (p, p') r =
        Gives-bind (expr-Gives e n id debug s all p r) λ e_ s₁ q₁.
          Gives-bind (exprs-Gives es n id debug s₁ all p' q₁.1)
            λ es_ s₂ q₂. gives (cons e_ es_) s₂ ((q₁.0, q₂.0), q₂.1)

    option_expr-Gives :
        (o : Ast.OptionExpr) (n id : ℕ) (debug : Debug) (s : State)
        → AllCallable names modules
        → DirectOption names o
        → Ready n s
        → Gives (λ o t. OptionScalar o × Ready n t) (option_expr modules id debug o s)
    option_expr-Gives Ast.OptionExpr.absent n id debug s all p r = gives none s (tt, r)
    option_expr-Gives (Ast.OptionExpr.present e) n id debug s all p r =
        Gives-bind (expr-Gives e n id debug s all p r) λ e_ s₁ q₁. gives (some e_) s₁ q₁
