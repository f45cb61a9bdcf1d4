-- ===== src/Lang/Compiler/Passes/Errors.antt =====
-- lang/src/compiler/module/passes/mod.rs: what every pass leaves of the compiler's errors, and what the
-- functions that it declares look like.
use yacuri.Base.{ℕ, suc, ◌≡◌, refl, subst, Option, none, some, List, [], ◌∷◌}
use yacuri.Lang.Token.{SourceError}
use yacuri.Lang.Ast as Ast
use yacuri.Lang.Compiler.ExprCompiler.{Debug}
use yacuri.Lang.Compiler.Ir.{FuncRef, Expr, ClassContent, Class, Function, Module}
use yacuri.Lang.Compiler.ExprCompiler as ExprCompiler
use yacuri.Lang.Compiler.ExprCompiler.Checked.{some_inj}
use yacuri.Lang.Compiler.Pass.{
  State, Outcome, Pass, reserve, push_class, take_classes, take_functions, new_class,
}
use yacuri.Lang.Compiler.Passes.{
  declare_classes, declare_classes_loop, declare_functions, declare_functions_loop,
  generate_members, generate_methods, generate_class, generate_each, generate_classes, compiled,
  generate_function, set_func, generate_funcs, generate_functions, unwrap, then_run, stage_1,
}
use yacuri.Lang.Compiler.Passes.Kept.{
  IsDeclared, AllDeclared, Inv, Keeps, panics, fails, keeps, Keeps-bind, borrow_mut-Keeps,
  release-Keeps, AllDeclared-set, Any, reserve-Keeps, resolve_ty_name-Keeps, declare_function-Keeps,
}

module _ (errs : List SourceError) where
  module _ (id : ℕ) where
    declare_classes_loop-Keeps :
        (classes : List Ast.Class) (st : State)
        → Inv errs st
        → Keeps Any errs (declare_classes_loop id classes st)
    unfolding declare_classes_loop
    declare_classes_loop-Keeps [] st h = keeps tt st tt h
    declare_classes_loop-Keeps (cls ∷ rest) st h =
        Keeps-bind (borrow_mut-Keeps (reserve cls.name) st (reserve-Keeps errs cls.name st h))
          λ u st₁ q₁ h₁.
            Keeps-bind
              (borrow_mut-Keeps {Q = Any} (push_class (new_class cls)) st₁ (keeps tt _ tt h₁))
              λ u st₂ q₂ h₂. declare_classes_loop-Keeps rest st₂ h₂

    declare_classes-Keeps : (st : State) → Inv errs st → Keeps Any errs (declare_classes id st)
    unfolding declare_classes
    declare_classes-Keeps st h =
        Keeps-bind (borrow_mut-Keeps {Q = Any} take_classes st (keeps _ _ tt h))
          λ classes st₁ q₁ h₁. declare_classes_loop-Keeps classes st₁ h₁

    declare_functions_loop-Keeps :
        (functions : List Ast.Function) (st : State)
        → Inv errs st
        → Keeps Any errs (declare_functions_loop id functions st)
    unfolding declare_functions_loop
    declare_functions_loop-Keeps [] st h = keeps tt st tt h
    declare_functions_loop-Keeps (func ∷ rest) st h =
        Keeps-bind (borrow_mut-Keeps (reserve func.name) st (reserve-Keeps errs func.name st h))
          λ u st₁ q₁ h₁.
            Keeps-bind (declare_function-Keeps errs id func st₁ h₁)
              λ f st₂ q₂ h₂. declare_functions_loop-Keeps rest st₂ h₂

    declare_functions-Keeps : (st : State) → Inv errs st → Keeps Any errs (declare_functions id st)
    unfolding declare_functions
    declare_functions-Keeps st h =
        Keeps-bind (borrow_mut-Keeps {Q = Any} take_functions st (keeps _ _ tt h))
          λ functions st₁ q₁ h₁. declare_functions_loop-Keeps functions st₁ h₁

    generate_members-Keeps :
        (i index : ℕ) (members : List Ast.Member) (st : State)
        → Inv errs st
        → Keeps Any errs (generate_members id i index members st)
    unfolding generate_members
    generate_members-Keeps i index [] st h = keeps tt st tt h
    generate_members-Keeps i index (m ∷ ms) st h =
        Keeps-bind (resolve_ty_name-Keeps errs id m.ty.name.lex m.ty.name.start st h)
          λ ty st₁ q₁ h₁. generate_members-Keeps i (suc index) ms _ h₁

    generate_methods-Keeps :
        (i : ℕ) (content : FuncRef → ClassContent) (methods : List Ast.Function) (st : State)
        → Inv errs st
        → Keeps Any errs (generate_methods id i content methods st)
    unfolding generate_methods
    generate_methods-Keeps i content [] st h = keeps tt st tt h
    generate_methods-Keeps i content (m ∷ ms) st h =
        Keeps-bind (declare_function-Keeps errs id m st h)
          λ f st₁ q₁ h₁. generate_methods-Keeps i content ms _ h₁

    generate_each-Keeps :
        (i : ℕ) (classes : List Class) (st : State)
        → Inv errs st
        → Keeps Any errs (generate_each id i classes st)
    unfolding generate_each generate_class
    generate_each-Keeps i [] st h = keeps tt st tt h
    generate_each-Keeps i (cls ∷ rest) st h =
        Keeps-bind {Q = Any}
          (Keeps-bind (generate_members-Keeps i 0 cls.ast.members st h) λ u st₁ q₁ h₁.
            Keeps-bind (generate_methods-Keeps i _ cls.ast.methods st₁ h₁) λ u st₂ q₂ h₂.
              Keeps-bind (generate_methods-Keeps i _ cls.ast.functions _ h₂)
                λ u st₃ q₃ h₃. keeps tt _ tt h₃)
          λ u st₄ q₄ h₄. generate_each-Keeps (suc i) rest st₄ h₄

    generate_classes-Keeps : (st : State) → Inv errs st → Keeps Any errs (generate_classes id st)
    unfolding generate_classes
    generate_classes-Keeps st h =
        release-Keeps
          (generate_each-Keeps 0 st.module_.classes (record st { borrows = suc st.borrows }) h)

    module _ (modules : List Module) (debug : Debug) where
      set_func-Keeps :
          (i : ℕ) (func : Function) (r : ExprCompiler.Run Expr) (st : State)
          → IsDeclared func
          → Inv errs st
          → Keeps Any errs (set_func id modules debug i (compiled id modules debug func r) st)
      set_func-Keeps i func none st d h = panics
      set_func-Keeps i func (some (body, s)) st d h = keeps tt _ tt (
        h.0,
        AllDeclared-set st.module_.funcs i (record func { locals = s.locals; body = body }) h.1 d,
      )

      generate_function-Keeps :
          (i : ℕ) (func : Function) (body : Option Ast.Expr) (st : State)
          → IsDeclared func
          → Inv errs st
          → Keeps Any errs (
              set_func id modules debug i
                (generate_function id modules debug st.module_ func body)
                st)
      generate_function-Keeps i func none st d h =
          keeps tt _ tt (h.0, AllDeclared-set st.module_.funcs i func h.1 d)
      generate_function-Keeps i func (some body) st d h = set_func-Keeps i func _ st d h

      generate_funcs-Keeps :
          (i : ℕ) (funcs : List Function) (st : State)
          → AllDeclared funcs
          → Inv errs st
          → Keeps Any errs (generate_funcs id modules debug i funcs st)
      unfolding generate_funcs
      generate_funcs-Keeps i [] st d h = keeps tt st tt h
      generate_funcs-Keeps i (func ∷ rest) st (d, ds) h =
          Keeps-bind (generate_function-Keeps i func func.ast.body st d h)
            λ u st₁ q₁ h₁. generate_funcs-Keeps (suc i) rest st₁ ds h₁

      generate_functions-Keeps :
          (st : State) → Inv errs st → Keeps Any errs (generate_functions id modules debug st)
      unfolding generate_functions
      generate_functions-Keeps st h =
          release-Keeps
            (generate_funcs-Keeps 0 st.module_.funcs (record st { borrows = suc st.borrows }) h.1 h)

      InvOption : Option State → Type 0
      InvOption none = Unit
      InvOption (some st) = Inv errs st

      unwrap-Inv : {r : Outcome Unit} → Keeps Any errs r → InvOption (unwrap id modules debug r)
      unfolding InvOption
      unwrap-Inv panics = tt
      unwrap-Inv (fails e st) = tt
      unwrap-Inv (keeps a st q h) = h

      then_run-Inv :
          (o : Option State) (m : Pass Unit)
          → InvOption o
          → ((st : State) → Inv errs st → Keeps Any errs (m st))
          → InvOption (then_run id modules debug o m)
      unfolding InvOption
      then_run-Inv none m h k = tt
      then_run-Inv (some st) m h k = unwrap-Inv (k st h)

      stage_1-InvOption : (st : State) → Inv errs st → InvOption (stage_1 id modules debug st)
      unfolding stage_1 InvOption
      stage_1-InvOption st h =
          then_run-Inv _ _
            (then_run-Inv _ _
              (then_run-Inv _ _ (unwrap-Inv (declare_classes-Keeps st h)) declare_functions-Keeps)
              generate_classes-Keeps)
            generate_functions-Keeps

      Inv-some : (o : Option State) (st : State) → InvOption o → o ≡ some st → Inv errs st
      unfolding InvOption
      Inv-some none st h e = absurd (cc)
      Inv-some (some st') st h e = subst (Inv errs) (some_inj e) h

-- A stage that ends leaves the errors of the compiler as they were, and keeps every function of the
-- module declared as the later passes need it: the parameters numbered from 0, and no reference to a
-- function among the types of the parameters and of the result.
pub stage_1-IsDeclared :
    (id : ℕ) (modules : List Module) (debug : Debug) (st st' : State)
    → AllDeclared st.module_.funcs
    → stage_1 id modules debug st ≡ some st'
    → (st'.errors ≡ st.errors) × AllDeclared st'.module_.funcs
stage_1-IsDeclared id modules debug st st' h e =
    Inv-some st.errors id modules debug _ st'
      (stage_1-InvOption st.errors id modules debug st (refl, h)) e
