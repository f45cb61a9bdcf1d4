-- ===== src/Lang/Compiler/ExprCompiler/Tests.antt =====
-- The expression compiler on a small function, and its theorems at concrete inputs.
use yacuri.Base.{ℕ, ◌≡◌, refl, true, false, none, some, List, [], ◌∷◌, ◌++◌, pos}
use yacuri.Lang.Token.{Text, Token, ErrorKind, identifier, plus, is_binary_logic}
use yacuri.Lang.Ast as Ast
use yacuri.Lang.Compiler.Ir.{
  display, Module, Ty, i64, VarStore, Constant, from_literal, Expr, cons, nil, new, constant,
  variable, binary, assign, block, typ, get_type, assign_local, new_local, allow_math,
  allow_assignment, Function, poison_expr,
}
use yacuri.Lang.Compiler.ExprCompiler.{
  Debug, to_string, State, expr, eexpr, exprs, identifier as identifier_, find_local, begin_scope,
  end_scope, declare, add_local, add_to_scope, check_binary, tail,
}
use yacuri.Lang.Compiler.ExprCompiler.Checked.{IsNumbered}
use yacuri.Lang.Compiler.ExprCompiler.Plain.{Plain, PlainInner, PlainAll}
use yacuri.Lang.Compiler.ExprCompiler.Typing.{Typed}
use yacuri.Lang.Compiler.ExprCompiler.Slots.{
  expr-Typed, expr-IsNumbered, block_restores_scopes, declare-assign_local,
}

-- No reference is rendered.
abbrev no_text : Debug
no_text modules s ty = none

abbrev name_token : ℕ → ℕ → Token
name_token c start = record { kind = identifier; lex = c ∷ []; start = start }

abbrev plus_token : Token
plus_token = record { kind = plus; lex = b'+' ∷ []; start = 12 }

abbrev number : ℕ → ℕ → Ast.Expr
number n start = Ast.expr (Ast.EExpr.literal (Ast.Literal.int (pos n))) start

abbrev read : ℕ → ℕ → Ast.Expr
read c start = Ast.expr (Ast.EExpr.identifier (name_token c start)) start

-- val x = 1 + p
abbrev sum_declared : Ast.Expr
sum_declared =
    Ast.expr
      (Ast.EExpr.variable true (name_token b'x' 6)
        (Ast.expr (Ast.EExpr.binary (number 1 10) plus_token (read b'p' 14)) 10))
      6

abbrev body_items : Ast.Exprs
body_items = Ast.Exprs.cons sum_declared (Ast.Exprs.cons (read b'x' 17) Ast.Exprs.nil)

-- { val x = 1 + p; x }
abbrev body : Ast.Expr
body = Ast.expr (Ast.EExpr.block body_items) 0

abbrev parameter : VarStore
parameter = record { ty = i64; name = b'p' ∷ []; index = 0; is_mutable = false }

abbrev function : Function
function = record {
  name = b'f' ∷ [];
  params = parameter ∷ [];
  ret_type = i64;
  locals = [];
  body = poison_expr;
  ast = record { name = name_token b'f' 0; params = []; ret_type = none; body = some body };
}

abbrev start : State
start = record { locals = []; environments = ((b'p' ∷ [], parameter) ∷ []) ∷ []; reported = [] }

abbrev x_local : VarStore
x_local = record { ty = i64; name = b'x' ∷ []; index = 0; is_mutable = false }

abbrev sum : Expr
sum = new (binary (new (constant (Constant.int (pos 1)))) plus_token (new (variable 0 i64)))

abbrev tree : Expr
tree =
    new (block (cons (new (assign (new (variable 0 i64)) sum)) (cons (new (variable 0 i64)) nil)))

abbrev finish : State
finish = record start { locals = x_local ∷ [] }

body_runs : expr [] 0 no_text body start ≡ some (tree, finish)
unfolding expr eexpr exprs begin_scope end_scope identifier_ find_local declare add_local new_local
    add_to_scope check_binary typ get_type is_binary_logic allow_math allow_assignment from_literal
body_runs = refl

body-Plain : Plain body
unfolding Plain PlainInner PlainAll
body-Plain = ((tt, tt), (tt, tt))

expr-Typed_example : (ty : Ty) × Typed [] tree ty × (typ tree ≡ some ty)
expr-Typed_example = expr-Typed [] 0 no_text body start finish tree body-Plain body_runs refl

expr-IsNumbered_example :
    IsNumbered 0 (x_local ∷ [])
    × ((added : List VarStore) × (finish.locals ≡ start.locals ++ added))
    × (tail finish.environments ≡ tail start.environments)
    × ((reports : List (ℕ × ErrorKind)) × (finish.reported ≡ reports ++ start.reported))
expr-IsNumbered_example =
    expr-IsNumbered [] 0 no_text body start finish tree body-Plain tt body_runs

items-Plain : PlainAll body_items
unfolding Plain PlainInner PlainAll
items-Plain = ((tt, tt), (tt, tt))

block_restores_scopes_example : finish.environments ≡ start.environments
block_restores_scopes_example =
    block_restores_scopes [] 0 no_text body_items 0 start finish tree items-Plain body_runs

declared : State
declared = record {
  locals = x_local ∷ [];
  environments = ((b'x' ∷ [], x_local) ∷ (b'p' ∷ [], parameter) ∷ []) ∷ [];
  reported = [];
}

declare_runs :
    declare [] 0 no_text true (name_token b'x' 6) (new (constant (Constant.int (pos 1)))) start
    ≡ some (assign_local x_local (new (constant (Constant.int (pos 1)))), declared)
unfolding declare add_local new_local add_to_scope typ get_type allow_assignment declared
declare_runs = refl

one_typ : typ (new (constant (Constant.int (pos 1)))) ≡ some i64
unfolding typ get_type
one_typ = refl

-- The local `x` of `f(p)` is the parameter `p`.
declare-assign_local_example :
    assign_local x_local (new (constant (Constant.int (pos 1))))
    ≡ assign_local parameter (new (constant (Constant.int (pos 1))))
declare-assign_local_example =
    declare-assign_local [] 0 no_text (parameter ∷ []) parameter true (name_token b'x' 6)
      (new (constant (Constant.int (pos 1))))
      (assign_local x_local (new (constant (Constant.int (pos 1))))) start declared (refl, tt) refl
      one_typ declare_runs

-- { val x = 1 + p; f(x) + true }, which is ill typed
abbrev calling_body : Ast.Expr
calling_body =
    Ast.expr
      (Ast.EExpr.block (
        Ast.Exprs.cons sum_declared (
          Ast.Exprs.cons
            (Ast.expr
              (Ast.EExpr.binary
                (Ast.expr
                  (Ast.EExpr.call (read b'f' 17) (Ast.Exprs.cons (read b'x' 19) Ast.Exprs.nil)) 17)
                plus_token (Ast.expr (Ast.EExpr.literal (Ast.Literal.bool true)) 24))
              17)
            Ast.Exprs.nil)))
      0

abbrev names : List Text
names = (b'f' ∷ []) ∷ []

abbrev module_ : Module
module_ = record {
  funcs = function ∷ [];
  classes = [];
  reserved_names = names;
  ast = record { path = []; functions = function.ast ∷ []; classes = [] };
}

-- p + 1, where `p` is of a class: the message would render the class, whose module holds what is compiled.
abbrev class_parameter : VarStore
class_parameter = record parameter { ty = Ty.class_ (record { module_ = 0; index = 0 }) }

class_is_rendered :
    expr
      (module_ ∷ [])
      0
      no_text
      (Ast.expr (Ast.EExpr.binary (read b'p' 0) plus_token (number 1 4)) 0)
      (record start { environments = ((b'p' ∷ [], class_parameter) ∷ []) ∷ [] })
    ≡ none
unfolding expr eexpr identifier_ find_local check_binary to_string display typ get_type from_literal
class_is_rendered = refl
