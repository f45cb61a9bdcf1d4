-- ===== src/Lang/Compiler/Passes/Held.antt =====
-- lang/src/compiler/module/passes/mod.rs: what a run of `generate_classes` that does not panic tells of the
-- classes, with its borrow of the module.
use yacuri.Base.{
  ℕ, suc, ◌≡◌, refl, Bool, true, false, ◌||◌, Option, none, some, List, [], ◌∷◌, if◌then◌else◌,
  arith, ◌==◌ as nat_beq,
}
use yacuri.Lang.Token.{Text}
use yacuri.Lang.Ast as Ast
use yacuri.Lang.Compiler.Ir.{FuncRef, Ty, ClassContent, Class, text_eq, new_last}
use yacuri.Lang.Compiler.Pass.{
  State, Outcome, done, panicked, Pass, bind, borrow_mut, bool_name, i64_name, f64_name, pure,
  push_func, new_function, find_class,
}
use yacuri.Lang.Compiler.Passes.{
  resolve_ty_name, declare_params, declare_ret, declare_function, generate_members,
  generate_methods, generate_class, generate_each,
}

abbrev pub is_builtin : Text → Bool
is_builtin name = text_eq name bool_name || (text_eq name i64_name || text_eq name f64_name)

abbrev pub AllBuiltin : List Ast.Member → Type 0
AllBuiltin [] = Unit
AllBuiltin (m ∷ ms) = (is_builtin m.ty.name.lex ≡ true) × AllBuiltin ms

-- Members of built-in types only, and neither methods nor functions.
abbrev pub IsBare : Class → Type 0
IsBare cls = AllBuiltin cls.ast.members × (cls.ast.methods ≡ []) × (cls.ast.functions ≡ [])

abbrev pub AllBare : List Class → Type 0
AllBare [] = Unit
AllBare (cls ∷ rest) = IsBare cls × AllBare rest

-- A run that panics, or ends with `b + 1` borrows and the fact `P`.
pub data Held {A : Type 0} (P : Type 0) (b : ℕ) : Outcome A → Type 0 where
  panics : Held P b panicked
  held : (a : A) (st : State) → st.borrows ≡ suc b → P → Held P b (done a st)

Held-bind :
    {A B : Type 0} {P Q : Type 0} {b : ℕ} {m : Outcome A} {f : A → Pass B}
    → Held P b m
    → ((a : A) (st : State) → st.borrows ≡ suc b → P → Held Q b (f a st))
    → Held Q b (bind m f)
Held-bind panics k = panics
Held-bind (held a st e p) k = k a st e p

Held-and : {A : Type 0} {P Q : Type 0} {b : ℕ} {r : Outcome A} → P → Held Q b r → Held (P × Q) b r
Held-and p panics = panics
Held-and p (held a st e q) = held a st e (p, q)

Held-forget : {A : Type 0} {P : Type 0} {b : ℕ} {r : Outcome A} → Held P b r → Held (Unit {0}) b r
Held-forget panics = panics
Held-forget (held a st e p) = held a st e tt

refused :
    {A : Type 0} {P : Type 0} {b : ℕ} (t : Bool) (x : Outcome A)
    → t ≡ false
    → Held P b (if t then x else panicked)
refused true x h = absurd (cc)
refused false x h = panics

borrow_mut-Held :
    {A : Type 0} {P : Type 0} {b : ℕ} (m : Pass A) (st : State)
    → st.borrows ≡ suc b
    → Held P b (borrow_mut m st)
borrow_mut-Held m st e = refused (nat_beq st.borrows 0) (m st) (ground arith)

module _ (id : ℕ) where
  resolve_ty_name-Held :
      {b : ℕ} (name : Text) (pos : ℕ) (st : State)
      → st.borrows ≡ suc b
      → Held (is_builtin name ≡ true) b (resolve_ty_name id name pos st)
  unfolding resolve_ty_name
  resolve_ty_name-Held {b} name pos st e =
      chosen (text_eq name bool_name) (text_eq name i64_name) (text_eq name f64_name)
    where
      chosen :
          (x y z : Bool)
          → Held ((x || (y || z)) ≡ true) b (
              (if x
                  then pure Ty.bool
                  else if y
                  then pure Ty.i64
                  else if z
                  then pure Ty.f64
                  else borrow_mut (find_class id name pos))
                st)
      chosen true y z = held _ st e refl
      chosen false true z = held _ st e refl
      chosen false false true = held _ st e refl
      chosen false false false = borrow_mut-Held (find_class id name pos) st e

  declare_params-Held :
      {b : ℕ} (index : ℕ) (params : List Ast.Parameter) (st : State)
      → st.borrows ≡ suc b
      → Held (Unit {0}) b (declare_params id index params st)
  unfolding declare_params
  declare_params-Held index [] st e = held [] st e tt
  declare_params-Held index (p ∷ ps) st e =
      Held-bind (resolve_ty_name-Held p.ty.name.lex p.ty.name.start st e) λ ty st₁ e₁ h.
        Held-bind (declare_params-Held (suc index) ps st₁ e₁) λ rest st₂ e₂ h'. held _ st₂ e₂ tt

  declare_ret-Held :
      {b : ℕ} (ret : Option Ast.TypeName) (st : State)
      → st.borrows ≡ suc b
      → Held (Unit {0}) b (declare_ret id ret st)
  declare_ret-Held none st e = held _ st e tt
  declare_ret-Held (some ty) st e =
      Held-forget (resolve_ty_name-Held ty.name.lex ty.name.start st e)

  -- A function is never declared while the module is borrowed.
  declare_function-Held :
      {b : ℕ} (func : Ast.Function) (st : State)
      → st.borrows ≡ suc b
      → Held ⊥ b (declare_function id func st)
  unfolding declare_function
  declare_function-Held func st e =
      Held-bind (declare_params-Held 0 func.params st e) λ params st₁ e₁ h.
        Held-bind (declare_ret-Held func.ret_type st₁ e₁) λ ret st₂ e₂ h'.
          Held-bind {P = ⊥} {f = λ u st₃. done (new_last id st₃.module_) st₃}
            (borrow_mut-Held (push_func (new_function func params ret)) st₂ e₂)
            λ u st₃ e₃ h''. absurd h''

  generate_members-Held :
      {b : ℕ} (i index : ℕ) (members : List Ast.Member) (st : State)
      → st.borrows ≡ suc b
      → Held (AllBuiltin members) b (generate_members id i index members st)
  unfolding generate_members
  generate_members-Held i index [] st e = held tt st e tt
  generate_members-Held i index (m ∷ ms) st e =
      Held-bind (resolve_ty_name-Held m.ty.name.lex m.ty.name.start st e)
        λ ty st₁ e₁ h. Held-and h (generate_members-Held i (suc index) ms _ e₁)

  generate_methods-Held :
      {b : ℕ} (i : ℕ) (content : FuncRef → ClassContent) (methods : List Ast.Function) (st : State)
      → st.borrows ≡ suc b
      → Held (methods ≡ []) b (generate_methods id i content methods st)
  unfolding generate_methods
  generate_methods-Held i content [] st e = held tt st e refl
  generate_methods-Held i content (m ∷ ms) st e =
      Held-bind (declare_function-Held m st e) λ fun st₁ e₁ h. absurd h

  generate_class-Held :
      {b : ℕ} (i : ℕ) (cls : Class) (st : State)
      → st.borrows ≡ suc b
      → Held (IsBare cls) b (generate_class id i cls.ast st)
  unfolding generate_class
  generate_class-Held i cls st e =
      Held-bind (generate_members-Held i 0 cls.ast.members st e) λ u st₁ e₁ members.
        Held-bind (generate_methods-Held i _ cls.ast.methods st₁ e₁) λ u st₂ e₂ methods.
          Held-bind (generate_methods-Held i _ cls.ast.functions _ e₂)
            λ u st₃ e₃ functions. held tt _ e₃ (members, methods, functions)

  pub generate_each-Held :
      {b : ℕ} (i : ℕ) (classes : List Class) (st : State)
      → st.borrows ≡ suc b
      → Held (AllBare classes) b (generate_each id i classes st)
  unfolding generate_each
  generate_each-Held i [] st e = held tt st e tt
  generate_each-Held i (cls ∷ rest) st e =
      Held-bind (generate_class-Held i cls st e)
        λ u st₁ e₁ h. Held-and h (generate_each-Held (suc i) rest st₁ e₁)
