-- ===== src/Lang/Compiler/Passes/Kept.antt =====
-- lang/src/compiler/module/passes/mod.rs and resolver.rs: an invariant of a module and its errors, and the
-- passes that declare one name.
use yacuri.Base.{
  ℕ, zero, suc, ◌≡◌, refl, Bool, true, false, Option, none, some, List, [], ◌∷◌, ◌++◌,
  if◌then◌else◌, set, ◌==◌ as nat_beq,
}
use yacuri.Lang.Token.{Text, Token, SourceError, error_at, e201}
use yacuri.Lang.Ast as Ast
use yacuri.Lang.Compiler.Ir.{
  Ty, into_fn, VarStore, Function, text_eq, new_last, try_reserve_name, contains,
}
use yacuri.Lang.Compiler.ExprCompiler.Checked.{IsNumbered}
use yacuri.Lang.Compiler.Pass.{
  State, Outcome, done, failed, panicked, Pass, bind, borrow_mut, release, bool_name, i64_name,
  f64_name, position, class_at, find_class, reserved, reserve, push_func, new_function, pure,
}
use yacuri.Lang.Compiler.Passes.{resolve_ty_name, declare_params, declare_ret, declare_function}

-- A type that a declaration can name: no reference to a function.
abbrev pub IsValue : Ty → Type 0
IsValue ty = into_fn ty ≡ none

abbrev pub AllValues : List VarStore → Type 0
AllValues [] = Unit
AllValues (v ∷ vs) = IsValue v.ty × AllValues vs

-- Parameters numbered from 0, and no function among the types.
abbrev pub IsDeclared : Function → Type 0
IsDeclared func = IsNumbered 0 func.params × AllValues func.params × IsValue func.ret_type

abbrev pub AllDeclared : List Function → Type 0
AllDeclared [] = Unit
AllDeclared (f ∷ fs) = IsDeclared f × AllDeclared fs

-- The errors, and the functions of the module.
abbrev pub Inv : List SourceError → State → Type 0
Inv errs st = (st.errors ≡ errs) × AllDeclared st.module_.funcs

-- A run that keeps the invariant where it ends, with `Q` of its result.
pub data Keeps {A : Type 0} (Q : A → Type 0) (errs : List SourceError) : Outcome A → Type 0 where
  panics : Keeps Q errs panicked
  fails : (e : SourceError) (st : State) → Keeps Q errs (failed e st)
  keeps : (a : A) (st : State) → Q a → Inv errs st → Keeps Q errs (done a st)

module _ {A B : Type 0} {Q : A → Type 0} {R : B → Type 0} {errs : List SourceError} where
  pub Keeps-bind :
      {m : Outcome A} {f : A → Pass B}
      → Keeps Q errs m
      → ((a : A) (st : State) → Q a → Inv errs st → Keeps R errs (f a st))
      → Keeps R errs (bind m f)
  Keeps-bind panics k = panics
  Keeps-bind (fails e st) k = fails e st
  Keeps-bind (keeps a st q h) k = k a st q h

module _ {A : Type 0} {Q : A → Type 0} {errs : List SourceError} where
  pub borrow_mut-Keeps :
      (m : Pass A) (st : State) → Keeps Q errs (m st) → Keeps Q errs (borrow_mut m st)
  borrow_mut-Keeps m st h = chosen (nat_beq st.borrows 0)
    where
      chosen : (b : Bool) → Keeps Q errs (if b then m st else panicked)
      chosen true = h
      chosen false = panics

  pub release-Keeps : {r : Outcome A} → Keeps Q errs r → Keeps Q errs (release r)
  release-Keeps panics = panics
  release-Keeps (fails e st) = fails e _
  release-Keeps (keeps a st q h) = keeps a _ q h

AllDeclared-append :
    (fs : List Function) (f : Function) → AllDeclared fs → IsDeclared f → AllDeclared (fs ++ f ∷ [])
AllDeclared-append [] f h k = (k, tt)
AllDeclared-append (g ∷ fs) f (h, h') k = (h, AllDeclared-append fs f h' k)

pub AllDeclared-set :
    (fs : List Function) (i : ℕ) (f : Function)
    → AllDeclared fs
    → IsDeclared f
    → AllDeclared (set fs i f)
AllDeclared-set [] i f h k = tt
AllDeclared-set (g ∷ fs) zero f (h, h') k = (k, h')
AllDeclared-set (g ∷ fs) (suc i) f (h, h') k = (h, AllDeclared-set fs i f h' k)

abbrev pub Any : {A : Type 0} → A → Type 0
Any a = Unit {0}

module _ (errs : List SourceError) where
  pub reserve-Keeps : (name : Token) (st : State) → Inv errs st → Keeps Any errs (reserve name st)
  unfolding try_reserve_name
  reserve-Keeps name st h = chosen (contains st.module_.reserved_names name.lex)
    where
      chosen :
          (b : Bool)
          → Keeps Any errs (
              reserved
                (if b then (some (error_at name.start (e201 name.lex)), st.module_) else (
                  none,
                  record st.module_ { reserved_names = name.lex ∷ st.module_.reserved_names },
                ))
                st)
      chosen true = fails _ _
      chosen false = keeps tt _ tt h

  module _ (id : ℕ) where
    class_at-Keeps :
        (name : Text) (pos : ℕ) (o : Option ℕ) (st : State)
        → Inv errs st
        → Keeps IsValue errs (class_at id name pos o st)
    unfolding into_fn
    class_at-Keeps name pos none st h = fails _ st
    class_at-Keeps name pos (some i) st h = keeps _ st refl h

    pub resolve_ty_name-Keeps :
        (name : Text) (pos : ℕ) (st : State)
        → Inv errs st
        → Keeps IsValue errs (resolve_ty_name id name pos st)
    unfolding resolve_ty_name into_fn
    resolve_ty_name-Keeps name pos st h =
        chosen (text_eq name bool_name) (text_eq name i64_name) (text_eq name f64_name)
      where
        chosen :
            (x y z : Bool)
            → Keeps IsValue errs (
                (if x
                    then pure Ty.bool
                    else if y
                    then pure Ty.i64
                    else if z
                    then pure Ty.f64
                    else borrow_mut (find_class id name pos))
                  st)
        chosen true y z = keeps _ st refl h
        chosen false true z = keeps _ st refl h
        chosen false false true = keeps _ st refl h
        chosen false false false =
            borrow_mut-Keeps (find_class id name pos) st
              (class_at-Keeps name pos (position st.module_.classes name) st h)

    declare_params-Keeps :
        (index : ℕ) (params : List Ast.Parameter) (st : State)
        → Inv errs st
        → Keeps (λ vs. IsNumbered index vs × AllValues vs) errs (declare_params id index params st)
    unfolding declare_params
    declare_params-Keeps index [] st h = keeps [] st (tt, tt) h
    declare_params-Keeps index (p ∷ ps) st h =
        Keeps-bind (resolve_ty_name-Keeps p.ty.name.lex p.ty.name.start st h) λ ty st₁ q h₁.
          Keeps-bind (declare_params-Keeps (suc index) ps st₁ h₁)
            λ rest st₂ q' h₂. keeps _ st₂ ((refl, q'.0), (q, q'.1)) h₂

    declare_ret-Keeps :
        (ret : Option Ast.TypeName) (st : State)
        → Inv errs st
        → Keeps IsValue errs (declare_ret id ret st)
    unfolding into_fn
    declare_ret-Keeps none st h = keeps _ st refl h
    declare_ret-Keeps (some ty) st h = resolve_ty_name-Keeps ty.name.lex ty.name.start st h

    pub declare_function-Keeps :
        (func : Ast.Function) (st : State)
        → Inv errs st
        → Keeps Any errs (declare_function id func st)
    unfolding declare_function
    declare_function-Keeps func st h =
        Keeps-bind (declare_params-Keeps 0 func.params st h) λ params st₁ q₁ h₁.
          Keeps-bind (declare_ret-Keeps func.ret_type st₁ h₁) λ ret st₂ q₂ h₂.
            Keeps-bind {f = λ u st₃. done (new_last id st₃.module_) st₃}
              (borrow_mut-Keeps {Q = Any} (push_func (new_function func params ret)) st₂ (
                keeps tt _ tt (
                  h₂.0,
                  AllDeclared-append st₂.module_.funcs (new_function func params ret) h₂.1
                      (q₁.0, q₁.1, q₂),
                )))
              λ u st₃ q₃ h₃. keeps _ st₃ tt h₃
