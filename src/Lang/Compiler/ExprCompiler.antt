-- ===== src/Lang/Compiler/ExprCompiler.antt =====
-- lang/src/compiler/module/expr_compiler.rs: from the syntax tree to the intermediate form. `err` does
-- nothing in the program; the model logs its calls, newest first, and nothing reads the log. The
-- modules behind the `Rc`s are a list. A type is rendered for a message by its derived `Debug`, which for a
-- function or a class prints the module behind it, and whatever that leads to.
use yacuri.Base.{
  ℕ, zero, suc, Bool, true, false, ◌&&◌, ◌||◌, not, Option, none, some, List, [], ◌∷◌, ◌++◌, map,
  if◌then◌else◌, length, get_elem?, ◌==◌ as nat_beq,
}
use yacuri.Lang.Token.{
  Text, Token, TKind, equal, is_binary_logic, ErrorKind, e500, e501, e502, e503, e504, e505, e506,
  e507, e508,
}
use yacuri.Lang.Token as Token
use yacuri.Lang.Ast as Ast
use yacuri.Lang.Compiler.Ir.{
  FuncRef, Ty, ◌==◌, display, allow_math, allow_logic, allow_assignment, into_fn, VarStore,
  Constant, from_literal, Expr, expr as expr_, Exprs, nil, cons, binary, block as block_,
  while_ as while__, assign as assign_, call as call_, constant, typ, new, with_typ, poison_expr,
  local, assign_local, if_expr, assignable, Function, Module, text_eq, new_local, resolve,
}
pub mod Checked
pub mod Plain
pub mod Typing
pub mod Judged
pub mod JudgedCalls
pub mod Sound
pub mod Ready
pub mod Steps
pub mod Callee
pub mod Total
pub mod Slots
mod Tests

-- `Environment`: a later entry of a name hides an earlier one.
abbrev pub Scope : Type 0
Scope = List (Text × VarStore)

abbrev pub get : Scope → Text → Option VarStore
get [] name = none
get ((n, v) ∷ env) name = if text_eq n name then some v else get env name

-- `ExprCompiler`: the locals of its function, and the environments, the innermost first.
pub record State : Type 0 where
  pub locals : List VarStore
  pub environments : List Scope
  pub reported : List (ℕ × ErrorKind)

-- `none` is a panic.
abbrev pub Run : Type 0 → Type 0
Run A = Option (A × State)

abbrev pub Compile : Type 0 → Type 0
Compile A = State → Run A

abbrev pub bind : {A B : Type 0} → Run A → (A → Compile B) → Run B
bind none f = none
bind (some (a, s)) f = f a s

abbrev pub pure : {A : Type 0} → A → Compile A
pure a s = some (a, s)

module _ {A B : Type 0} where
  infixl 1 ◌>>=◌ ◌>>◌
  abbrev pub ◌>>=◌ : Compile A → (A → Compile B) → Compile B
  m >>= f = λ s. bind (m s) f

  abbrev pub ◌>>◌ : Compile A → Compile B → Compile B
  m >> k = m >>= λ _. k

-- A result of a function that may panic.
abbrev pub lift : {A : Type 0} → Option A → Compile A
lift none s = none
lift (some a) s = some (a, s)

unfoldable pub err : ℕ → ErrorKind → Compile Unit
err pos kind s = some (tt, record s { reported = (pos, kind) ∷ s.reported })

-- A call of `err` where a test holds.
abbrev pub err_if : Bool → ℕ → ErrorKind → Compile Unit
err_if true pos kind = err pos kind
err_if false pos kind = pure tt

abbrev pub or_else : Option VarStore → Option VarStore → Option VarStore
or_else (some v) o = some v
or_else none o = o

abbrev pub first_some : List Scope → Text → Option VarStore
first_some [] name = none
first_some (env ∷ envs) name = or_else (get env name) (first_some envs name)

unfoldable pub find_local : Text → State → Option VarStore
find_local name s = first_some s.environments name

abbrev pub bump : Option ℕ → Option ℕ
bump none = none
bump (some i) = some (suc i)

-- `funcs.iter().position(|func| func.name == name)`
abbrev pub position : List Function → Text → Option ℕ
position [] name = none
position (f ∷ fs) name = if text_eq f.name name then some 0 else bump (position fs name)

abbrev pub funcs_of : Option Module → List Function
funcs_of none = []
funcs_of (some module_) = module_.funcs

abbrev pub func_ref : ℕ → Option ℕ → Option FuncRef
func_ref id none = none
func_ref id (some index) = some (record { module_ = id; index = index })

unfoldable pub find_function : List Module → ℕ → Text → Option FuncRef
find_function modules id name = func_ref id (position (funcs_of (get_elem? modules id)) name)

unfoldable pub add_local : Text → Ty → Bool → Compile VarStore
add_local name ty is_mutable s =
    let local_ = new_local s.locals name ty is_mutable in
    some (local_, record s { locals = s.locals ++ local_ ∷ [] })

-- `last_mut().unwrap()`
abbrev pub insert_in : List Scope → VarStore → Option (List Scope)
insert_in [] var_ = none
insert_in (env ∷ envs) var_ = some (((var_.name, var_) ∷ env) ∷ envs)

abbrev pub with_scopes : State → Option (List Scope) → Run Unit
with_scopes s none = none
with_scopes s (some envs) = some (tt, record s { environments = envs })

unfoldable pub add_to_scope : VarStore → Compile Unit
add_to_scope var_ s = with_scopes s (insert_in s.environments var_)

unfoldable pub begin_scope : Compile Unit
begin_scope s = some (tt, record s { environments = [] ∷ s.environments })

abbrev pub tail : List Scope → List Scope
tail [] = []
tail (env ∷ envs) = envs

unfoldable pub end_scope : Compile Unit
end_scope s = some (tt, record s { environments = tail s.environments })

abbrev pub scope_of : List VarStore → Scope → Scope
scope_of [] env = env
scope_of (p ∷ ps) env = scope_of ps ((p.name, p) ∷ env)

-- `ExprCompiler::new`
unfoldable pub new_compiler : Function → State
new_compiler function = record {
  locals = function.locals;
  environments = scope_of function.params [] ∷ [];
  reported = [];
}

abbrev pub count : Exprs → ℕ
count nil = 0
count (cons e es) = suc (count es)

-- The derived `Debug` of a reference, with the modules and the state that it prints; `none` where the
-- print never ends, but runs out of stack.
abbrev pub Debug : Type 0
Debug = List Module → State → Ty → Option Text

-- A run where a test holds.
abbrev pub when : Bool → Compile Unit → Compile Unit
when true m = m
when false m = pure tt

module _ (modules : List Module) (id : ℕ) (debug : Debug) where
  -- `to_string`, by `Display for Type`
  unfoldable pub to_string : Ty → Compile Text
  to_string ty s = lift (display (debug modules s) ty) s

  -- A call of `err` with one rendered type, and with two.
  abbrev pub err_type : ℕ → Ty → (Text → ErrorKind) → Compile Unit
  err_type pos ty kind = do t ← to_string ty; err pos (kind t)

  abbrev pub err_types : ℕ → Ty → Ty → (Text → Text → ErrorKind) → Compile Unit
  err_types pos a b kind = do t ← to_string a; u ← to_string b; err pos (kind t u)

  -- The tests of a binary expression on the types of its sides.
  unfoldable pub check_binary : (left : Expr) (op : Token) (right : Expr) → Ty → Ty → Compile Expr
  check_binary left op right lty rty =
      let logic = is_binary_logic op.kind in
      if not (lty == rty)
      then (err_types op.start lty rty e500 >> pure (new (binary left op right)))
      else if Token.◌==◌ op.kind equal
      then (err_if (not (assignable left)) op.start e505 >> pure (new (assign_ left right)))
      else if (logic && not (allow_logic lty)) || (not logic && not (allow_math lty))
      then (err_type op.start lty (λ t. e501 op.lex t) >> pure (new (binary left op right)))
      else pure (new (binary left op right))

  -- `if condition.typ() != Type::Bool`
  unfoldable pub check_condition : Expr → ℕ → Compile Unit
  check_condition condition start = do
    ty ← lift (typ condition)
    err_if (not (ty == Ty.bool)) start e502

  abbrev pub function_or_poison : Token → Option FuncRef → Compile Expr
  function_or_poison ident (some func) = pure (new (constant (Constant.function func)))
  function_or_poison ident none = do err ident.start (e503 ident.lex); pure poison_expr

  abbrev pub local_or_function : Token → Option VarStore → Compile Expr
  local_or_function ident (some local_) = pure (local local_)
  local_or_function ident none = function_or_poison ident (find_function modules id ident.lex)

  unfoldable pub identifier : Token → Compile Expr
  identifier ident s = local_or_function ident (find_local ident.lex s) s

  -- A declaration, from its compiled value.
  unfoldable pub declare : Bool → Token → Expr → Compile Expr
  declare final_ name value = do
    ty ← lift (typ value)
    when (not (allow_assignment ty)) (err_type name.start ty e504)
    local_ ← add_local name.lex ty (not final_)
    add_to_scope local_
    pure (assign_local local_ value)

  -- `for (i, (arg, param)) in args.iter().zip(func.params.iter()).enumerate()`
  unfoldable pub check_args : ℕ → ℕ → Exprs → List VarStore → Compile Unit
  check_args start i nil params = pure tt
  check_args start i (cons arg args) [] = pure tt
  check_args start i (cons arg args) (param ∷ params) = do
    ty ← lift (typ arg)
    when (not (ty == param.ty)) (err_types start param.ty ty (λ t u. e508 t u i))
    check_args start (suc i) args params

  -- A call of a resolved function, with the run that compiles the arguments.
  unfoldable pub call_function : ℕ → Expr → Compile Exprs → Function → Compile Expr
  call_function start callee compile_args func = do
    args ← compile_args
    err_if (not (nat_beq (count args) (length func.params))) start
        (e507 (length func.params) (count args))
    check_args start 0 args func.params
    pure (with_typ (call_ callee args) func.ret_type)

  unfoldable pub call_or_poison : ℕ → Expr → Ty → Compile Exprs → Option FuncRef → Compile Expr
  call_or_poison start callee ty compile_args none = do err_type start ty e506; pure poison_expr
  call_or_poison start callee ty compile_args (some fn_ref) = do
    func ← lift (resolve modules fn_ref)
    call_function start callee compile_args func

  unfoldable mutual
    pub expr : Ast.Expr → Compile Expr
    expr (Ast.expr ty start) = eexpr ty

    pub eexpr : Ast.EExpr → Compile Expr
    eexpr (Ast.EExpr.literal lit) = pure (new (constant (from_literal lit)))
    eexpr (Ast.EExpr.binary left op right) = do
      left_ ← expr left
      right_ ← expr right
      lty ← lift (typ left_)
      rty ← lift (typ right_)
      check_binary left_ op right_ lty rty
    eexpr (Ast.EExpr.block es) = do begin_scope; es_ ← exprs es; end_scope; pure (new (block_ es_))
    eexpr (Ast.EExpr.if_ cond_ taken els) = do
      condition ← expr cond_
      check_condition condition (Ast.start_of cond_)
      taken_ ← expr taken
      els_ ← option_expr els
      lift (if_expr condition taken_ els_)
    eexpr (Ast.EExpr.while_ cond_ body) = do
      condition ← expr cond_
      check_condition condition (Ast.start_of cond_)
      body_ ← expr body
      pure (new (while__ condition body_))
    eexpr (Ast.EExpr.identifier ident) = identifier ident
    eexpr (Ast.EExpr.variable final_ name value) = do
      value_ ← expr value
      declare final_ name value_
    eexpr (Ast.EExpr.call callee args) = do
      callee_ ← expr callee
      ty ← lift (typ callee_)
      call_or_poison (Ast.start_of callee) callee_ ty (exprs args) (into_fn ty)
    eexpr (Ast.EExpr.unary op right) = λ s. none

    -- `exprs.iter().map(|e| self.expr(e)).collect()`
    pub exprs : Ast.Exprs → Compile Exprs
    exprs Ast.Exprs.nil = pure nil
    exprs (Ast.Exprs.cons e es) = do e_ ← expr e; es_ ← exprs es; pure (cons e_ es_)

    pub option_expr : Ast.OptionExpr → Compile (Option Expr)
    option_expr Ast.OptionExpr.absent = pure none
    option_expr (Ast.OptionExpr.present e) = do e_ ← expr e; pure (some e_)
