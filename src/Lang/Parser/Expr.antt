-- ===== src/Lang/Parser/Expr.antt =====
-- lang/src/parser/mod.rs: expressions. Each call costs a unit of fuel, since what a call leaves of
-- the input is no structural part of it. A `let` holds a branch back until its test is known.
use yacuri.Base.{
  ℕ, zero, suc, true, false, ◌||◌, Option, none, some, [], ◌∷◌, if◌then◌else◌, ltb, ℤ,
}
use yacuri.Lang.Token.{
  Text, TKind, ◌==◌, Token, error_at, e101, infix_binding_power, prefix_binding_power, left_paren,
  right_paren, left_brace, right_brace, comma, equal, int, float, else_kw, false_kw, if_kw, true_kw,
  val_kw, var_kw, while_kw,
}
use yacuri.Lang.Ast.{
  Expr, expr, EExpr, Exprs, nil, cons, OptionExpr, absent, present, start_of, Literal, variable,
  block as block_, if_, while_, literal, unary as unary_,
}
use yacuri.Lang.Parser.State.{
  ok, err, panic, out_of_fuel, Parse, pure, ◌>>=◌, ◌>>◌, run, check, check_any, is_at_end, step,
  advance, consume, i64_from_str,
}

abbrev pub mk_binary : Expr → Token → Expr → Expr
mk_binary left op right = expr (EExpr.binary left op right) (start_of left)

abbrev pub mk_call : Expr → Exprs → Expr
mk_call callee args = expr (EExpr.call callee args) (start_of callee)

-- A token that is an expression by itself.
abbrev pub leaf : EExpr → Parse Expr
leaf e p = ok (expr e p.current.start) (step p)

abbrev pub int_leaf : Option ℤ → Parse Expr
int_leaf none p = panic
int_leaf (some n) p = leaf (literal (Literal.int n)) p

abbrev pub float_leaf : Option ℕ → Parse Expr
float_leaf none p = panic
float_leaf (some x) p = leaf (literal (Literal.float x)) p

-- `f64::from_str`: there are no floats here, so it is a parameter, into the value's bit pattern.
module _ (f64_from_str : Text → Option ℕ) where
  unfoldable mutual
    pub higher_expr : ℕ → Parse Expr
    higher_expr zero p = out_of_fuel
    higher_expr (suc f) p =
        let decl = var_decl f p in
        let other = expression f p in if check_any (var_kw ∷ val_kw ∷ []) p then decl else other

    pub var_decl : ℕ → Parse Expr
    var_decl zero p = out_of_fuel
    var_decl (suc f) p = run p do
      keyword ← advance
      name ← consume TKind.identifier
      consume equal
      value ← expression f
      pure (expr (variable (keyword.kind == val_kw) name value) name.start)

    pub expression : ℕ → Parse Expr
    expression zero p = out_of_fuel
    expression (suc f) p =
        let braced = block f p in
        let conditional = if_expr f p in
        let loop = while_stmt f p in
        let operators = binary f 0 p in
        if check left_brace p
        then braced
        else if check if_kw p
        then conditional
        else if check while_kw p
        then loop
        else operators

    pub block : ℕ → Parse Expr
    block zero p = out_of_fuel
    block (suc f) p = run p do
      brace ← advance
      exprs ← block_items f
      consume right_brace
      pure (expr (block_ exprs) brace.start)

    -- `while !self.is_at_end() && !self.check(RightBrace) { exprs.push(self.higher_expr()?) }`
    pub block_items : ℕ → Parse Exprs
    block_items zero p = out_of_fuel
    block_items (suc f) p =
        let more = run p do e ← higher_expr f; es ← block_items f; pure (cons e es)
        in if is_at_end p || check right_brace p then ok nil p else more

    pub if_expr : ℕ → Parse Expr
    if_expr zero p = out_of_fuel
    if_expr (suc f) p = run p do
      keyword ← advance
      consume left_paren
      condition ← expression f
      consume right_paren
      taken ← expression f
      els ← else_branch f
      pure (expr (if_ condition taken els) keyword.start)

    -- `if self.matches(Else) { Some(self.expression()?) } else { None }`
    pub else_branch : ℕ → Parse OptionExpr
    else_branch zero p = out_of_fuel
    else_branch (suc f) p =
        let given = run (step p) do e ← expression f; pure (present e)
        in if check else_kw p then given else ok absent p

    pub while_stmt : ℕ → Parse Expr
    while_stmt zero p = out_of_fuel
    while_stmt (suc f) p = run p do
      keyword ← advance
      consume left_paren
      condition ← expression f
      consume right_paren
      body ← expression f
      pure (expr (while_ condition body) keyword.start)

    pub binary : ℕ → ℕ → Parse Expr
    binary zero minimum p = out_of_fuel
    binary (suc f) minimum p = run p do e ← unary f; binary_loop f minimum e

    -- `while let Some((lbp, rbp)) = self.current.kind.infix_binding_power() { … }`
    pub binary_loop : ℕ → ℕ → Expr → Parse Expr
    binary_loop zero minimum e p = out_of_fuel
    binary_loop (suc f) minimum e p = elim (infix_binding_power p.current.kind) [
      | none ↦ ok e p
      | some (lbp, rbp) ↦
          let more =
            run p
              do op ← advance; right ← binary f rbp; binary_loop f minimum (mk_binary e op right)
          in if ltb lbp minimum then ok e p else more
    ]

    pub unary : ℕ → Parse Expr
    unary zero p = out_of_fuel
    unary (suc f) p = elim (prefix_binding_power p.current.kind) [
      | none ↦ call f p
      | some rbp ↦
          run p do op ← advance; right ← binary f rbp; pure (expr (unary_ op right) op.start)
    ]

    pub call : ℕ → Parse Expr
    call zero p = out_of_fuel
    call (suc f) p = run p do e ← primary f; call_loop f e

    -- `loop { match self.current.kind { LeftParen => …, _ => break } }`
    pub call_loop : ℕ → Expr → Parse Expr
    call_loop zero e p = out_of_fuel
    call_loop (suc f) e p =
        let more =
          run p do advance; args ← call_args f; consume right_paren; call_loop f (mk_call e args)
        in if check left_paren p then more else ok e p

    pub call_args : ℕ → Parse Exprs
    call_args zero p = out_of_fuel
    call_args (suc f) p =
        let given = arg_list f p in if check right_paren p then ok nil p else given

    -- `loop { args.push(self.expression()?); if !self.matches(Comma) { break; } }`
    pub arg_list : ℕ → Parse Exprs
    arg_list zero p = out_of_fuel
    arg_list (suc f) p = run p do e ← expression f; es ← more_args f; pure (cons e es)

    pub more_args : ℕ → Parse Exprs
    more_args zero p = out_of_fuel
    more_args (suc f) p =
        let given = arg_list f (step p) in if check comma p then given else ok nil p

    pub primary : ℕ → Parse Expr
    primary zero p = out_of_fuel
    primary (suc f) p =
        let grouped = run p do advance; e ← expression f; consume right_paren; pure e
        in if check false_kw p
          then leaf (literal (Literal.bool false)) p
          else if check true_kw p
          then leaf (literal (Literal.bool true)) p
          else if check TKind.string p
          then leaf (literal (Literal.string p.current.lex)) p
          else if check int p
          then int_leaf (i64_from_str p.current.lex) p
          else if check float p
          then float_leaf (f64_from_str p.current.lex) p
          else if check TKind.identifier p
          then leaf (EExpr.identifier p.current) p
          else if check left_paren p
          then grouped
          else err (error_at p.current.start e101) p
