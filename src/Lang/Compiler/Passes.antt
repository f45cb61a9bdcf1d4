-- ===== src/Lang/Compiler/Passes.antt =====
-- lang/src/compiler/module/passes/mod.rs and resolver.rs, and lang/src/compiler/mod.rs: the passes of one
-- module, and the compiler over all of them.
use yacuri.Base.{
  ℕ, zero, suc, ◌-◌, Bool, true, false, Option, none, some, List, [], ◌∷◌, ◌++◌, if◌then◌else◌,
  length, get_elem?, set, ◌==◌ as nat_beq,
}
use yacuri.Lang.Token.{Text, Token, SourceError, error_at, e200}
use yacuri.Lang.Ast as Ast
use yacuri.Lang.Compiler.ExprCompiler.{Debug}
use yacuri.Lang.Compiler.Ir.{
  FuncRef, Ty, VarStore, Expr, poison_expr, Function, ClassContent, Class, Module, from_ast,
  text_eq, try_reserve_name, new_last,
}
use yacuri.Lang.Compiler.ExprCompiler as ExprCompiler
use yacuri.Lang.Compiler.Pass.{
  State, Outcome, Pass, bind, pure, ◌>>=◌, ◌>>◌, borrow_mut, release, borrowing, bool_name,
  i64_name, f64_name, bump, position, class_at, find_class, reserved, reserve, set_module,
  push_class, push_func, take_classes, take_functions, insert, on_class, change_class,
  insert_content, new_class, new_function, done, failed, panicked,
}
pub mod Held
pub mod Borrowing
pub mod Kept
pub mod Errors
pub mod Consume
pub mod Bodies
mod Tests

module _ (id : ℕ) where
  unfoldable pub resolve_ty_name : (name : Text) (pos : ℕ) → Pass Ty
  resolve_ty_name name pos =
      if text_eq name bool_name
      then pure Ty.bool
      else if text_eq name i64_name
      then pure Ty.i64
      else if text_eq name f64_name
      then pure Ty.f64
      else borrow_mut (find_class id name pos)

  abbrev pub resolve_ty : Ast.TypeName → Pass Ty
  resolve_ty ty = resolve_ty_name ty.name.lex ty.name.start

  unfoldable pub declare_classes_loop : List Ast.Class → Pass Unit
  declare_classes_loop [] = pure tt
  declare_classes_loop (cls ∷ rest) = do
    borrow_mut (reserve cls.name)
    borrow_mut (push_class (new_class cls))
    declare_classes_loop rest

  unfoldable pub declare_classes : Pass Unit
  declare_classes = do classes ← borrow_mut take_classes; declare_classes_loop classes

  unfoldable pub declare_params : ℕ → List Ast.Parameter → Pass (List VarStore)
  declare_params index [] = pure []
  declare_params index (param ∷ rest) = do
    ty ← resolve_ty param.ty
    params ← declare_params (suc index) rest
    pure (record { ty = ty; name = param.name; index = index; is_mutable = false } ∷ params)

  abbrev pub declare_ret : Option Ast.TypeName → Pass Ty
  declare_ret none = pure Ty.void
  declare_ret (some ty) = resolve_ty ty

  unfoldable pub declare_function : Ast.Function → Pass FuncRef
  declare_function func = do
    params ← declare_params 0 func.params
    ret_type ← declare_ret func.ret_type
    borrow_mut (push_func (new_function func params ret_type))
    λ st. done (new_last id st.module_) st

  unfoldable pub declare_functions_loop : List Ast.Function → Pass Unit
  declare_functions_loop [] = pure tt
  declare_functions_loop (func ∷ rest) = do
    borrow_mut (reserve func.name)
    declare_function func
    declare_functions_loop rest

  unfoldable pub declare_functions : Pass Unit
  declare_functions = do functions ← borrow_mut take_functions; declare_functions_loop functions

  unfoldable pub generate_members : ℕ → ℕ → List Ast.Member → Pass Unit
  generate_members i index [] = pure tt
  generate_members i index (member ∷ rest) = do
    ty ← resolve_ty member.ty
    insert_content i member.name.lex (
        ClassContent.member
          record { ty = ty; name = member.name.lex; index = index; is_mutable = member.is_mutable })
    generate_members i (suc index) rest

  -- `for method in ast.methods.drain(..)`, and the same for the functions.
  unfoldable pub generate_methods : ℕ → (FuncRef → ClassContent) → List Ast.Function → Pass Unit
  generate_methods i content [] = pure tt
  generate_methods i content (method ∷ rest) = do
    fun ← declare_function method
    insert_content i method.name.lex (content fun)
    generate_methods i content rest

  unfoldable pub generate_class : ℕ → Ast.Class → Pass Unit
  generate_class i ast = do
    generate_members i 0 ast.members
    generate_methods i ClassContent.method ast.methods
    change_class i (λ cls. record cls { ast = record cls.ast { methods = [] } })
    generate_methods i ClassContent.function ast.functions
    change_class i (λ cls. record cls { ast = record cls.ast { functions = [] } })

  unfoldable pub generate_each : ℕ → List Class → Pass Unit
  generate_each i [] = pure tt
  generate_each i (cls ∷ rest) = do generate_class i cls.ast; generate_each (suc i) rest

  -- The module is borrowed for the whole loop.
  unfoldable pub generate_classes : Pass Unit
  generate_classes = borrowing (λ st. generate_each 0 st.module_.classes st)

  module _ (modules : List Module) (debug : Debug) where
    -- The function with its body and the locals that the body declares.
    abbrev pub compiled : Function → ExprCompiler.Run Expr → Option Function
    compiled func none = none
    compiled func (some (body, s)) = some (record func { locals = s.locals; body = body })

    -- A function with no body is left out by the filter.
    abbrev pub generate_function : Module → Function → Option Ast.Expr → Option Function
    generate_function module_ func none = some func
    generate_function module_ func (some body) =
        compiled func (
          ExprCompiler.expr (set modules id module_) id debug body (ExprCompiler.new_compiler func))

    abbrev pub set_func : ℕ → Option Function → Pass Unit
    set_func i none st = panicked
    set_func i (some func) st =
        set_module (record st.module_ { funcs = set st.module_.funcs i func }) st

    unfoldable pub generate_funcs : ℕ → List Function → Pass Unit
    generate_funcs i [] = pure tt
    generate_funcs i (func ∷ rest) = do
      λ st. set_func i (generate_function st.module_ func func.ast.body) st
      generate_funcs (suc i) rest

    unfoldable pub generate_functions : Pass Unit
    generate_functions = borrowing (λ st. generate_funcs 0 st.module_.funcs st)

    -- `Result::unwrap`
    abbrev pub unwrap : Outcome Unit → Option State
    unwrap (done u st) = some st
    unwrap (failed e st) = none
    unwrap panicked = none

    abbrev pub then_run : Option State → Pass Unit → Option State
    then_run none m = none
    then_run (some st) m = unwrap (m st)

    -- `none` is a panic.
    unfoldable pub stage_1 : State → Option State
    stage_1 st =
        then_run
          (then_run (then_run (then_run (some st) declare_classes) declare_functions)
            generate_classes)
          generate_functions

abbrev pub new_compiler : Module → State
new_compiler module_ = record { module_ = module_; borrows = 0; errors = [] }

-- `Result<Vec<MutRc<Module>>, Vec<Errors>>`
pub data Compiled : Type 0 where
  ok : List Module → Compiled
  err : List (List SourceError) → Compiled

abbrev pub kept : List SourceError → List (List SourceError) → List (List SourceError)
kept [] rest = rest
kept (e ∷ es) rest = (e ∷ es) ∷ rest

-- The errors of the compilers that have some.
abbrev pub collect : List State → List (List SourceError)
collect [] = []
collect (st ∷ sts) = kept st.errors (collect sts)

abbrev pub result : List (List SourceError) → List Module → Compiled
result [] modules = ok modules
result (e ∷ es) modules = err (e ∷ es)

abbrev pub modules_of : List State → List Module
modules_of [] = []
modules_of (st ∷ sts) = st.module_ ∷ modules_of sts

unfoldable pub finish : List State → Compiled
finish sts = result (collect sts) (modules_of sts)

abbrev pub new_compilers : List Module → List State
new_compilers [] = []
new_compilers (m ∷ ms) = new_compiler m ∷ new_compilers ms

abbrev pub from_asts : List Ast.Module → List Module
from_asts [] = []
from_asts (a ∷ as_) = from_ast a ∷ from_asts as_

abbrev pub and_then : {A B : Type 0} → Option A → (A → Option B) → Option B
and_then none f = none
and_then (some a) f = f a

module _ (debug : Debug) where
  -- `all_mods(ModuleCompiler::stage_1)`: the compiler of each module in turn, beside the others.
  unfoldable pub all_mods : (id : ℕ) → List Module → List State → Option (List State)
  all_mods id modules [] = some []
  all_mods id modules (st ∷ sts) =
      and_then (stage_1 id modules debug st) λ st'.
        and_then (all_mods (suc id) (set modules id st'.module_) sts) λ sts'. some (st' ∷ sts')

  -- `Compiler::new` and `consume`; `none` is a panic.
  unfoldable pub consume : List Ast.Module → Option Compiled
  consume asts =
      let modules = from_asts asts in
      and_then (all_mods 0 modules (new_compilers modules)) λ sts. some (finish sts)

-- `Result<MutRc<Module>, Errors>` of one module
pub data OneCompiled : Type 0 where
  ok : Module → OneCompiled
  err : List SourceError → OneCompiled

abbrev pub one_result : List SourceError → Module → OneCompiled
one_result [] module_ = OneCompiled.ok module_
one_result (e ∷ es) module_ = OneCompiled.err (e ∷ es)

-- `ModuleCompiler::consume`; `run_all` is `stage_1`.
unfoldable pub consume_module : (id : ℕ) → List Module → Debug → State → Option OneCompiled
consume_module id modules debug st =
    and_then (stage_1 id modules debug st) λ st'. some (one_result st'.errors st'.module_)
