-- ===== src/Lang/Compiler/ExprCompiler/Typing.antt =====
-- A typing judgement for the intermediate form of lang/src/compiler/ir/mod.rs, independent of the
-- compiler: what a tree that the back end may translate has to look like.
use yacuri.Base.{ℕ, subst, ◌≡◌, refl, sym, ◌∙◌, true, false, some, List, [], ◌∷◌, arith}
use yacuri.Lang.Token.{Token, is_binary_logic}
use yacuri.Lang.Compiler.Ir.{
  FuncRef, Ty, void, poison, bool, i64, f64, function, class_, ◌==◌, allow_math, allow_logic,
  VarStore, Constant, Expr, Exprs, nil, cons, binary, block, if_, while_, variable, assign, call,
  constant, constant_type, typ, get_type, last_type, new, with_typ, assignable, Function, Module,
  resolve,
}

module _ (modules : List Module) where
  mutual
    pub data Typed : Expr → Ty → Type 0 where
      constant_typed :
          (c : Constant) (ty : Ty) → constant_type c ≡ some ty → Typed (new (constant c)) ty
      variable_typed : (index : ℕ) (ty : Ty) → Typed (new (variable index ty)) ty
      arithmetic :
          (left : Expr) (op : Token) (right : Expr) (ty : Ty)
          → is_binary_logic op.kind ≡ false
          → allow_math ty ≡ true
          → Typed left ty
          → Typed right ty
          → Typed (new (binary left op right)) ty
      logic :
          (left : Expr) (op : Token) (right : Expr) (ty : Ty)
          → is_binary_logic op.kind ≡ true
          → allow_logic ty ≡ true
          → Typed left ty
          → Typed right ty
          → Typed (new (binary left op right)) bool
      assigned :
          (store value : Expr) (ty : Ty)
          → assignable store ≡ true
          → Typed store ty
          → Typed value ty
          → Typed (new (assign store value)) ty
      block_typed : (es : Exprs) (ty : Ty) → AllTyped es ty → Typed (new (block es)) ty
      both :
          (cond_ then_ els : Expr) (ty : Ty)
          → Typed cond_ bool
          → Typed then_ ty
          → Typed els ty
          → Typed (new (if_ cond_ then_ els true)) ty
      either :
          (cond_ then_ els : Expr) (ty ty' : Ty)
          → Typed cond_ bool
          → Typed then_ ty
          → Typed els ty'
          → Typed (new (if_ cond_ then_ els false)) void
      loop :
          (cond_ body : Expr) (ty : Ty)
          → Typed cond_ bool
          → Typed body ty
          → Typed (new (while_ cond_ body)) void
      called :
          (callee : Expr) (args : Exprs) (f : FuncRef) (func : Function)
          → Typed callee (function f)
          → resolve modules f ≡ some func
          → Args args func.params
          → Typed (with_typ (call callee args) func.ret_type) func.ret_type

    -- Expressions in a row, with the type of the last, or void where there is none.
    pub data AllTyped : Exprs → Ty → Type 0 where
      empty : AllTyped nil void
      last : (e : Expr) (ty : Ty) → Typed e ty → AllTyped (cons e nil) ty
      next :
          (e e' : Expr) (es : Exprs) (ty ty' : Ty)
          → Typed e ty
          → AllTyped (cons e' es) ty'
          → AllTyped (cons e (cons e' es)) ty'

    -- One argument for each parameter, of its type.
    pub data Args : Exprs → List VarStore → Type 0 where
      no_args : Args nil []
      arg :
          (e : Expr) (es : Exprs) (p : VarStore) (ps : List VarStore)
          → Typed e p.ty
          → Args es ps
          → Args (cons e es) (p ∷ ps)

  mutual
    unfolding typ get_type last_type

    -- The judgement gives the type that `typ` computes.
    pub typ-Typed : {e : Expr} {ty : Ty} → Typed e ty → typ e ≡ some ty
    typ-Typed (constant_typed c ty h) = h
    typ-Typed (variable_typed index ty) = refl
    typ-Typed (arithmetic left op right ty l m a b) = rw l (typ-Typed a)
    typ-Typed (logic left op right ty l m a b) = rw l refl
    typ-Typed (assigned store value ty h a b) = typ-Typed b
    typ-Typed (block_typed es ty a) = last_type-AllTyped a
    typ-Typed (both c t e ty a b d) = typ-Typed b
    typ-Typed (either c t e ty ty' a b d) = refl
    typ-Typed (loop c b ty a d) = refl
    typ-Typed (called callee args f func a h b) = refl

    last_type-AllTyped : {es : Exprs} {ty : Ty} → AllTyped es ty → last_type es ≡ some ty
    last_type-AllTyped empty = refl
    last_type-AllTyped (last e ty a) = typ-Typed a
    last_type-AllTyped (next e e' es ty ty' a b) = last_type-AllTyped b

some_inj : {a b : Ty} → some a ≡ some b → a ≡ b
some_inj h = cc

-- A tree has at most one type.
pub Typed-unique :
    (modules : List Module) {e : Expr} {a b : Ty}
    → Typed modules e a
    → typ e ≡ some b
    → Typed modules e b
Typed-unique modules {e} t h = subst (Typed modules e) (some_inj (sym (typ-Typed modules t) ∙ h)) t

pub ==→eq : (a b : Ty) → (a == b) ≡ true → a ≡ b
==→eq void void h = refl
==→eq poison poison h = refl
==→eq bool bool h = refl
==→eq i64 i64 h = refl
==→eq f64 f64 h = refl
==→eq (function f) (function g) h = ground arith
==→eq (class_ c) (class_ d) h = ground arith
==→eq _ _ h = cc
