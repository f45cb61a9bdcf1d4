-- ===== src/Lang/Compiler/Ir.antt =====
-- lang/src/compiler/ir/mod.rs: the intermediate form. A module behind an `Rc` is known by a number,
-- which `Rc::ptr_eq` compares. The cache of an expression's type is not stored: it only remembers
-- what `get_type` gives.
use yacuri.Base.{
  ℕ, ◌-◌, Bool, true, false, ◌&&◌, ◌||◌, not, Option, none, some, List, [], ◌∷◌, ℤ, if◌then◌else◌,
  ◌==◌ as nat_beq, length, get_elem?,
}
use yacuri.Lang.Token.{Text, Token, is_binary_logic, SourceError, error_at, e201}
use yacuri.Lang.Ast as Ast

-- `FuncRef` and `ClassRef`
pub record FuncRef : Type 0 where
  pub module_ : ℕ
  pub index : ℕ

pub record ClassRef : Type 0 where
  pub module_ : ℕ
  pub index : ℕ

-- `Type`
pub data Ty : Type 0 where
  void poison bool i64 f64 : Ty
  function : FuncRef → Ty
  class_ : ClassRef → Ty

-- `#[derive(PartialEq)]`, with the two instances for references
infix 50 ◌==◌
abbrev pub ◌==◌ : Ty → Ty → Bool
void == void = true
poison == poison = true
bool == bool = true
i64 == i64 = true
f64 == f64 = true
function f == function g = nat_beq f.index g.index && nat_beq f.module_ g.module_
class_ c == class_ d = nat_beq c.index d.index && nat_beq c.module_ d.module_
_ == _ = false

-- `Display for Type`, by the derived `Debug`: of a reference it is given, with `none` where it never ends.
unfoldable pub display : (Ty → Option Text) → Ty → Option Text
display debug void = some (b'V' ∷ b'o' ∷ b'i' ∷ b'd' ∷ [])
display debug poison = some (b'P' ∷ b'o' ∷ b'i' ∷ b's' ∷ b'o' ∷ b'n' ∷ [])
display debug bool = some (b'B' ∷ b'o' ∷ b'o' ∷ b'l' ∷ [])
display debug i64 = some (b'I' ∷ b'6' ∷ b'4' ∷ [])
display debug f64 = some (b'F' ∷ b'6' ∷ b'4' ∷ [])
display debug (function f) = debug (function f)
display debug (class_ c) = debug (class_ c)

unfoldable pub is_int : Ty → Bool
is_int ty = ty == i64 || ty == poison

unfoldable pub allow_math : Ty → Bool
allow_math ty = ty == i64 || (ty == f64 || ty == poison)

unfoldable pub allow_logic : Ty → Bool
allow_logic ty = ty == bool || ty == poison

unfoldable pub allow_assignment : Ty → Bool
allow_assignment ty = not (ty == void)

-- `into_fn`; `none` is a panic.
unfoldable pub into_fn : Ty → Option FuncRef
into_fn (function f) = some f
into_fn _ = none

pub record VarStore : Type 0 where
  pub ty : Ty
  pub name : Text
  pub index : ℕ
  pub is_mutable : Bool

pub data Constant : Type 0 where
  bool : Bool → Constant
  int : ℤ → Constant
  float : ℕ → Constant
  string : Text → Constant
  function : FuncRef → Constant
  class_ : ClassRef → Constant

unfoldable pub from_literal : Ast.Literal → Constant
from_literal (Ast.Literal.bool b) = Constant.bool b
from_literal (Ast.Literal.int i) = Constant.int i
from_literal (Ast.Literal.float f) = Constant.float f
from_literal (Ast.Literal.string s) = Constant.string s

mutual
  -- `Expr`, with the type that `with_typ` gives
  pub data Expr : Type 0 where
    expr : IExpr → Option Ty → Expr

  pub data IExpr : Type 0 where
    poison : IExpr
    binary : (left : Expr) (op : Token) (right : Expr) → IExpr
    constant : Constant → IExpr
    block : Exprs → IExpr
    if_ : (cond_ then_ els : Expr) (phi : Bool) → IExpr
    while_ : (cond_ body : Expr) → IExpr
    variable : (index : ℕ) (typ : Ty) → IExpr
    assign : (store value : Expr) → IExpr
    call : (callee : Expr) (args : Exprs) → IExpr

  -- `Vec<Expr>`
  pub data Exprs : Type 0 where
    nil : Exprs
    cons : Expr → Exprs → Exprs

abbrev pub constant_type : Constant → Option Ty
constant_type (Constant.bool b) = some Ty.bool
constant_type (Constant.int i) = some i64
constant_type (Constant.float f) = some f64
constant_type (Constant.string s) = none
constant_type (Constant.function f) = some (Ty.function f)
constant_type (Constant.class_ c) = some (Ty.class_ c)

unfoldable mutual
  -- `typ` and `get_type`; `none` is a panic.
  pub typ : Expr → Option Ty
  typ (expr inner (some ty)) = some ty
  typ (expr inner none) = get_type inner

  pub get_type : IExpr → Option Ty
  get_type IExpr.poison = some Ty.poison
  get_type (binary left op right) =
      let left_type = typ left in if is_binary_logic op.kind then some Ty.bool else left_type
  get_type (constant c) = constant_type c
  get_type (block exprs) = last_type exprs
  get_type (if_ cond_ then_ els phi) =
      let then_type = typ then_ in if phi then then_type else some void
  get_type (while_ cond_ body) = some void
  get_type (variable index ty) = some ty
  get_type (assign store value) = typ value
  get_type (call callee args) = none

  -- `expr.last().map(|e| e.typ()).unwrap_or(Type::Void)`
  pub last_type : Exprs → Option Ty
  last_type nil = some void
  last_type (cons e nil) = typ e
  last_type (cons e (cons e' es)) = last_type (cons e' es)

abbrev pub new : IExpr → Expr
new inner = expr inner none

abbrev pub with_typ : IExpr → Ty → Expr
with_typ inner ty = expr inner (some ty)

-- `Expr::zero`
abbrev pub zero_expr : Expr
zero_expr = new (constant (Constant.int (ℤ.pos 0)))

-- `Expr::poison`
abbrev pub poison_expr : Expr
poison_expr = new IExpr.poison

-- `Expr::local`
abbrev pub local : VarStore → Expr
local variable_ = new (variable variable_.index variable_.ty)

-- `Expr::assign_local`
abbrev pub assign_local : VarStore → Expr → Expr
assign_local variable_ value = new (assign (local variable_) value)

abbrev pub phi_of : Option Ty → Option Ty → Option Bool
phi_of (some t) (some e) = some (t == e)
phi_of _ _ = none

abbrev pub with_phi : Expr → Expr → Expr → Option Bool → Option Expr
with_phi cond_ then_ els none = none
with_phi cond_ then_ els (some phi) = some (new (if_ cond_ then_ els phi))

-- `Expr::if_`; `none` is a panic in `typ`.
unfoldable pub if_expr : (cond_ then_ : Expr) → Option Expr → Option Expr
if_expr cond_ then_ none = some (new (if_ cond_ then_ zero_expr false))
if_expr cond_ then_ (some els) = with_phi cond_ then_ els (phi_of (typ then_) (typ els))

unfoldable pub assignable : Expr → Bool
assignable (expr (variable index ty) cached) = true
assignable _ = false

pub record Function : Type 0 where
  pub name : Text
  pub params : List VarStore
  pub ret_type : Ty
  pub locals : List VarStore
  pub body : Expr
  pub ast : Ast.Function

pub data ClassContent : Type 0 where
  member : VarStore → ClassContent
  method function : FuncRef → ClassContent

pub record Class : Type 0 where
  pub name : Text
  pub content : List (Text × ClassContent)
  pub ast : Ast.Class

pub record Module : Type 0 where
  pub funcs : List Function
  pub classes : List Class
  pub reserved_names : List Text
  pub ast : Ast.Module

-- `Module::from_ast`
abbrev pub from_ast : Ast.Module → Module
from_ast ast = record { funcs = []; classes = []; reserved_names = []; ast = ast }

abbrev pub text_eq : Text → Text → Bool
text_eq [] [] = true
text_eq (a ∷ as_) (b ∷ bs) = nat_beq a b && text_eq as_ bs
text_eq _ _ = false

abbrev pub contains : List Text → Text → Bool
contains [] name = false
contains (n ∷ names) name = text_eq n name || contains names name

-- `try_reserve_name`: the error, or the module with the name reserved.
unfoldable pub try_reserve_name : Text → ℕ → Module → Option SourceError × Module
try_reserve_name name pos module_ =
    if contains module_.reserved_names name
    then (some (error_at pos (e201 name)), module_)
    else (none, record module_ { reserved_names = name ∷ module_.reserved_names })

-- `Function::add_local`: the function with the local at its end, and the local.
unfoldable pub new_local : List VarStore → Text → Ty → Bool → VarStore
new_local locals name ty is_mutable = record {
  ty = ty;
  name = name;
  index = length locals;
  is_mutable = is_mutable;
}

-- `FuncRef::new_last`
abbrev pub new_last : ℕ → Module → FuncRef
new_last id module_ = record { module_ = id; index = length module_.funcs - 1 }

abbrev pub func_at : Option Module → ℕ → Option Function
func_at none index = none
func_at (some module_) index = get_elem? module_.funcs index

-- `FuncRef::resolve`, over the modules that the references are numbers of; `none` is a panic.
unfoldable pub resolve : List Module → FuncRef → Option Function
resolve modules f = func_at (get_elem? modules f.module_) f.index
