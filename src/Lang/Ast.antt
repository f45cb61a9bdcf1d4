-- ===== src/Lang/Ast.antt =====
-- lang/src/parser/ast.rs: the syntax tree. A vector or an option of expressions inside an expression
-- is a data type of the block. An `f64` is its bit pattern.
use yacuri.Base.{ℕ, Bool, Option, List, ℤ}
use yacuri.Lang.Token.{Text, Token}

pub data Literal : Type 0 where
  bool : Bool → Literal
  int : ℤ → Literal
  float : ℕ → Literal
  string : Text → Literal

mutual
  -- `Expr { ty, start }`
  pub data Expr : Type 0 where
    expr : EExpr → ℕ → Expr

  pub data EExpr : Type 0 where
    literal : Literal → EExpr
    identifier : Token → EExpr
    variable : (final_ : Bool) (name : Token) (value : Expr) → EExpr
    block : Exprs → EExpr
    if_ : (cond_ then_ : Expr) (els : OptionExpr) → EExpr
    while_ : (cond_ body : Expr) → EExpr
    binary : (left : Expr) (op : Token) (right : Expr) → EExpr
    unary : (op : Token) (right : Expr) → EExpr
    call : (callee : Expr) (args : Exprs) → EExpr

  -- `Vec<Expr>`
  pub data Exprs : Type 0 where
    nil : Exprs
    cons : Expr → Exprs → Exprs

  -- `Option<Expr>`
  pub data OptionExpr : Type 0 where
    absent : OptionExpr
    present : Expr → OptionExpr

abbrev pub start_of : Expr → ℕ
start_of (expr ty start) = start

-- `Type`, a name to be resolved
pub record TypeName : Type 0 where
  pub name : Token

pub record Parameter : Type 0 where
  pub name : Text
  pub ty : TypeName

pub record Function : Type 0 where
  pub name : Token
  pub params : List Parameter
  pub ret_type : Option TypeName
  pub body : Option Expr

pub record Member : Type 0 where
  pub name : Token
  pub ty : TypeName
  pub is_mutable : Bool

pub record Class : Type 0 where
  pub name : Token
  pub members : List Member
  pub methods : List Function
  pub functions : List Function

pub record Module : Type 0 where
  pub path : List Text
  pub functions : List Function
  pub classes : List Class
