-- ===== src/Lang/Compiler/Passes/Tests.antt =====
-- The passes on a small module, and their theorems at concrete inputs.
use yacuri.Base.{ℕ, ◌≡◌, ◌≢◌, refl, false, none, some, List, [], ◌∷◌, pos, length}
use yacuri.Lang.Token.{Token, identifier, SourceError}
use yacuri.Lang.Ast as Ast
use yacuri.Lang.Compiler.Ir.{
  i64, Constant, from_literal, new, constant, Function, Module, poison_expr, try_reserve_name,
}
use yacuri.Lang.Compiler.ExprCompiler.{Debug, expr, eexpr, new_compiler as new_expr_compiler}
use yacuri.Lang.Compiler.Pass.{State, done, failed, panicked}
use yacuri.Lang.Compiler.Passes.{
  Compiled, ok, stage_1, declare_classes, declare_classes_loop, declare_functions,
  declare_functions_loop, declare_function, declare_params, resolve_ty_name, generate_classes,
  generate_class, generate_members, generate_methods, generate_each, generate_funcs,
  generate_functions, all_mods, finish, consume,
}
use yacuri.Lang.Compiler.Passes.Held.{AllBare}
use yacuri.Lang.Compiler.Passes.Borrowing.{generate_classes-done}
use yacuri.Lang.Compiler.Passes.Consume.{EachDeclared, consume-ok}

-- No reference is rendered.
abbrev no_text : Debug
no_text modules s ty = none

abbrev name_token : ℕ → ℕ → Token
name_token c start = record { kind = identifier; lex = c ∷ []; start = start }

abbrev i64_type : Ast.TypeName
i64_type = record { name = record { kind = identifier; lex = b'i' ∷ b'6' ∷ b'4' ∷ []; start = 9 } }

-- fun f(a: i64) -> i64 { 7 }
abbrev f_ast : Ast.Function
f_ast = record {
  name = name_token b'f' 4;
  params = record { name = b'a' ∷ []; ty = i64_type } ∷ [];
  ret_type = some i64_type;
  body = some (Ast.expr (Ast.EExpr.literal (Ast.Literal.int (pos 7))) 20);
}

abbrev file : Ast.Module
file = record { path = []; functions = f_ast ∷ []; classes = [] }

abbrev taken : Ast.Module
taken = record file { functions = [] }

abbrev f_declared : Function
f_declared = record {
  name = b'f' ∷ [];
  params = record { ty = i64; name = b'a' ∷ []; index = 0; is_mutable = false } ∷ [];
  ret_type = i64;
  locals = [];
  body = poison_expr;
  ast = f_ast;
}

abbrev f_compiled : Function
f_compiled = record f_declared { body = new (constant (Constant.int (pos 7))) }

abbrev module_of : Function → Module
module_of f = record {
  funcs = f ∷ [];
  classes = [];
  reserved_names = (b'f' ∷ []) ∷ [];
  ast = taken;
}

abbrev answer : Compiled
answer = ok (module_of f_compiled ∷ [])

consume_runs : consume no_text (file ∷ []) ≡ some answer
unfolding consume all_mods stage_1 declare_classes declare_classes_loop declare_functions
    declare_functions_loop declare_function declare_params resolve_ty_name generate_classes
    generate_each generate_funcs generate_functions finish try_reserve_name expr eexpr
    new_expr_compiler from_literal
consume_runs = refl

consume-ok_example :
    (ms : List Module) × (answer ≡ ok ms) × (length ms ≡ length (file ∷ [])) × EachDeclared ms
consume-ok_example = consume-ok no_text (file ∷ []) answer consume_runs

-- class C { fun f(a: i64) -> i64 { 7 } }
abbrev class_ast : Ast.Class
class_ast = record { name = name_token b'C' 6; members = []; methods = f_ast ∷ []; functions = [] }

abbrev with_class : State
with_class = record {
  module_ = record {
    funcs = [];
    classes = record { name = b'C' ∷ []; content = []; ast = class_ast } ∷ [];
    reserved_names = (b'C' ∷ []) ∷ [];
    ast = taken;
  };
  borrows = 0;
  errors = [];
}

method_panics : generate_classes 0 with_class ≡ panicked
unfolding generate_classes generate_each generate_class generate_members generate_methods
    declare_function declare_params resolve_ty_name
method_panics = refl

generate_classes-done_example :
    (((u : Unit {0}) (st' : State)
        → generate_classes 0 with_class ≡ done u st'
        → AllBare with_class.module_.classes)
      × (AllBare with_class.module_.classes
          → (st' : State) × (generate_classes 0 with_class ≡ done tt st')
            × (st'.borrows ≡ with_class.borrows))
      × ((err : SourceError) (st' : State) → generate_classes 0 with_class ≢ failed err st'))
generate_classes-done_example = generate_classes-done 0 with_class

abbrev f_state : State
f_state = record { module_ = module_of f_declared; borrows = 0; errors = [] }
