-- ===== src/Lang/Compiler/Passes/Bodies.antt =====
-- lang/src/compiler/module/passes/mod.rs: `generate_functions` over bodies that the expression compiler
-- means to compile.
use yacuri.Base.{ℕ, ◌≡◌, Option, none, some, List, [], ◌∷◌, length}
use yacuri.Lang.Token.{Text}
use yacuri.Lang.Ast as Ast
use yacuri.Lang.Compiler.Ir.{Function, Module}
use yacuri.Lang.Compiler.ExprCompiler.Plain.{Direct}
use yacuri.Lang.Compiler.ExprCompiler.Callee.{IsCallable}
use yacuri.Lang.Compiler.Pass.{State, Outcome, done}
use yacuri.Lang.Compiler.Passes.Kept.{IsDeclared}

-- A function as `stage_1` declares it, that is called by one of the names, with no type of a function or
-- class among its parameters or for its result.
abbrev pub IsPlainFunction : List Text → Function → Type 0
IsPlainFunction names func = IsDeclared func × IsCallable names func

abbrev pub AllPlainFunctions : List Text → List Function → Type 0
AllPlainFunctions names [] = Unit
AllPlainFunctions names (f ∷ fs) = IsPlainFunction names f × AllPlainFunctions names fs

abbrev pub EachPlainFunctions : List Text → List Module → Type 0
EachPlainFunctions names [] = Unit
EachPlainFunctions names (m ∷ ms) = AllPlainFunctions names m.funcs × EachPlainFunctions names ms

abbrev DirectBody : List Text → Option Ast.Expr → Type 0
DirectBody names none = Unit
DirectBody names (some body) = Direct names body

-- The bodies that are there call identifiers only, and have none of the names elsewhere, no string and no
-- unary operator.
abbrev pub AllDirect : List Text → List Function → Type 0
AllDirect names [] = Unit
AllDirect names (f ∷ fs) = DirectBody names f.ast.body × AllDirect names fs

-- A run that is done, with as many functions as before and the borrows of before.
data Ended (names : List Text) (n b : ℕ) : Outcome Unit → Type 0 where
  ended :
      (st : State)
      → length st.module_.funcs ≡ n
      → st.borrows ≡ b
      → AllPlainFunctions names st.module_.funcs
      → Ended names n b (done tt st)
