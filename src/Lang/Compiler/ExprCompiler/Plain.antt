-- ===== src/Lang/Compiler/ExprCompiler/Plain.antt =====
-- The expressions that lang/src/compiler/module/expr_compiler.rs means to compile: those with no unary
-- operator, for which it has no case, and no string, whose type lang/src/compiler/ir/mod.rs leaves
-- `unimplemented!()`.
use yacuri.Base.{◌≡◌, false, List}
use yacuri.Lang.Token.{Text}
use yacuri.Lang.Compiler.Ir.{contains}
use yacuri.Lang.Ast.{
  Expr, expr, EExpr, Exprs, nil, cons, OptionExpr, absent, present, Literal, bool, int, float,
  string, literal, identifier, variable, block, if_, while_, binary, unary, call,
}

abbrev pub IsNumberOrBool : Literal → Type 0
IsNumberOrBool (string s) = ⊥
IsNumberOrBool (bool b) = Unit
IsNumberOrBool (int i) = Unit
IsNumberOrBool (float f) = Unit

abbrev pub IsIdentifier : Expr → Type 0
IsIdentifier (expr (identifier ident) start) = Unit
IsIdentifier _ = ⊥

unfoldable mutual
  pub Plain : Expr → Type 0
  Plain (expr ty start) = PlainInner ty

  pub PlainInner : EExpr → Type 0
  PlainInner (literal lit) = IsNumberOrBool lit
  PlainInner (identifier ident) = Unit
  PlainInner (variable final_ name value) = Plain value
  PlainInner (block es) = PlainAll es
  PlainInner (if_ cond_ then_ els) = Plain cond_ × Plain then_ × PlainOption els
  PlainInner (while_ cond_ body) = Plain cond_ × Plain body
  PlainInner (binary left op right) = Plain left × Plain right
  PlainInner (unary op right) = ⊥
  PlainInner (call callee args) = Plain callee × PlainAll args

  pub PlainAll : Exprs → Type 0
  PlainAll nil = Unit
  PlainAll (cons e es) = Plain e × PlainAll es

  pub PlainOption : OptionExpr → Type 0
  PlainOption absent = Unit
  PlainOption (present e) = Plain e

-- An expression with neither a string nor a unary operator, where what is called is an identifier, and
-- every other identifier is none of the names.
unfoldable mutual
  pub Direct : List Text → Expr → Type 0
  Direct names (expr ty start) = DirectInner names ty

  pub DirectInner : List Text → EExpr → Type 0
  DirectInner names (literal lit) = IsNumberOrBool lit
  DirectInner names (identifier ident) = contains names ident.lex ≡ false
  DirectInner names (variable final_ name value) = Direct names value
  DirectInner names (block es) = DirectAll names es
  DirectInner names (if_ cond_ then_ els) =
      Direct names cond_ × Direct names then_ × DirectOption names els
  DirectInner names (while_ cond_ body) = Direct names cond_ × Direct names body
  DirectInner names (binary left op right) = Direct names left × Direct names right
  DirectInner names (unary op right) = ⊥
  DirectInner names (call callee args) = IsIdentifier callee × DirectAll names args

  pub DirectAll : List Text → Exprs → Type 0
  DirectAll names nil = Unit
  DirectAll names (cons e es) = Direct names e × DirectAll names es

  pub DirectOption : List Text → OptionExpr → Type 0
  DirectOption names absent = Unit
  DirectOption names (present e) = Direct names e
