-- ===== src/Lang/Compiler/Passes/Borrowing.antt =====
-- lang/src/compiler/module/passes/mod.rs: `generate_classes` keeps the module borrowed while it runs.
use yacuri.Base.{
  ℕ, suc, ◌-◌, ◌≡◌, ◌≢◌, refl, Bool, true, false, ◌||◌, List, [], ◌∷◌, if◌then◌else◌, arith,
}
use yacuri.Lang.Token.{Text, SourceError}
use yacuri.Lang.Ast as Ast
use yacuri.Lang.Compiler.Ir.{FuncRef, Ty, ClassContent, Class, text_eq}
use yacuri.Lang.Compiler.Pass.{
  State, Outcome, done, failed, Pass, bind, borrow_mut, release, bool_name, i64_name, f64_name,
  pure, find_class,
}
use yacuri.Lang.Compiler.Passes.{
  resolve_ty_name, generate_members, generate_methods, generate_class, generate_each,
  generate_classes,
}
use yacuri.Lang.Compiler.Passes.Held.{
  is_builtin, AllBuiltin, AllBare, Held, panics, held, generate_each-Held,
}

-- A run that ends with `b + 1` borrows.
data Ends {A : Type 0} (b : ℕ) : Outcome A → Type 0 where
  ends : (a : A) (st : State) → st.borrows ≡ suc b → Ends b (done a st)

Ends-bind :
    {A B : Type 0} {b : ℕ} {m : Outcome A} {f : A → Pass B}
    → Ends b m
    → ((a : A) (st : State) → st.borrows ≡ suc b → Ends b (f a st))
    → Ends b (bind m f)
Ends-bind (ends a st e) k = k a st e

module _ (id : ℕ) where
  resolve_ty_name-Ends :
      {b : ℕ} (name : Text) (pos : ℕ) (st : State)
      → is_builtin name ≡ true
      → st.borrows ≡ suc b
      → Ends b (resolve_ty_name id name pos st)
  unfolding resolve_ty_name
  resolve_ty_name-Ends {b} name pos st h e =
      chosen (text_eq name bool_name) (text_eq name i64_name) (text_eq name f64_name) h
    where
      chosen :
          (x y z : Bool)
          → (x || (y || z)) ≡ true
          → Ends b (
              (if x
                  then pure Ty.bool
                  else if y
                  then pure Ty.i64
                  else if z
                  then pure Ty.f64
                  else borrow_mut (find_class id name pos))
                st)
      chosen true y z h = ends _ st e
      chosen false true z h = ends _ st e
      chosen false false true h = ends _ st e
      chosen false false false h = absurd (cc)

  generate_members-Ends :
      {b : ℕ} (i index : ℕ) (members : List Ast.Member) (st : State)
      → AllBuiltin members
      → st.borrows ≡ suc b
      → Ends b (generate_members id i index members st)
  unfolding generate_members
  generate_members-Ends i index [] st h e = ends tt st e
  generate_members-Ends i index (m ∷ ms) st (h, h') e =
      Ends-bind (resolve_ty_name-Ends m.ty.name.lex m.ty.name.start st h e)
        λ ty st₁ e₁. generate_members-Ends i (suc index) ms _ h' e₁

  generate_methods-Ends :
      {b : ℕ} (i : ℕ) (content : FuncRef → ClassContent) (methods : List Ast.Function) (st : State)
      → methods ≡ []
      → st.borrows ≡ suc b
      → Ends b (generate_methods id i content methods st)
  unfolding generate_methods
  generate_methods-Ends i content [] st h e = ends tt st e
  generate_methods-Ends i content (m ∷ ms) st h e = absurd (cc)

  generate_each-Ends :
      {b : ℕ} (i : ℕ) (classes : List Class) (st : State)
      → AllBare classes
      → st.borrows ≡ suc b
      → Ends b (generate_each id i classes st)
  unfolding generate_each generate_class
  generate_each-Ends i [] st h e = ends tt st e
  generate_each-Ends i (cls ∷ rest) st (h, h') e =
      Ends-bind
        (Ends-bind (generate_members-Ends i 0 cls.ast.members st h.0 e) λ u st₁ e₁.
          Ends-bind (generate_methods-Ends i _ cls.ast.methods st₁ h.1 e₁) λ u st₂ e₂.
            Ends-bind (generate_methods-Ends i _ cls.ast.functions _ h.2 e₂)
              λ u st₃ e₃. ends tt _ e₃)
        λ u st₄ e₄. generate_each-Ends (suc i) rest st₄ h' e₄

  Held-done :
      {b : ℕ} {P : Type 0} {r : Outcome Unit} (u : Unit {0}) (st : State)
      → Held P b r
      → release r ≡ done u st
      → P
  Held-done u st panics e = absurd (cc)
  Held-done u st (held a st' e p) h = p

  Held-ne-failed :
      {b : ℕ} {P : Type 0} {r : Outcome Unit} (err : SourceError) (st : State)
      → Held P b r
      → release r ≢ failed err st
  Held-ne-failed err st panics = cc
  Held-ne-failed err st (held a st' e p) = cc

  Ends-done :
      {b : ℕ} {r : Outcome Unit}
      → Ends b r
      → (st : State) × (release r ≡ done tt st) × (st.borrows ≡ b)
  Ends-done (ends a st e) = (record st { borrows = st.borrows - 1 }, refl, omega arith)

  -- The pass that generates classes never returns an error, and it ends without a panic exactly where
  -- every class has neither a method nor a function and only members of the types `bool`, `i64` and
  -- `f64`: whatever else a class holds needs the module that the pass itself keeps borrowed. Where it
  -- ends, as many borrows are out as before.
  pub generate_classes-done :
      (st : State)
      → (((u : Unit {0}) (st' : State)
            → generate_classes id st ≡ done u st'
            → AllBare st.module_.classes)
          × (AllBare st.module_.classes
              → (st' : State) × (generate_classes id st ≡ done tt st') × (st'.borrows ≡ st.borrows))
          × ((err : SourceError) (st' : State) → generate_classes id st ≢ failed err st'))
  unfolding generate_classes
  generate_classes-done st =
      let st₁ = record st { borrows = suc st.borrows } in
      let all : Held (AllBare st.module_.classes) st.borrows
          (generate_each id 0 st.module_.classes st₁) =
        generate_each-Held id 0 st.module_.classes st₁ refl in
      (
        (λ u st' e. Held-done u st' all e),
        (λ bare. Ends-done (generate_each-Ends 0 st.module_.classes st₁ bare refl)),
        (λ err st'. Held-ne-failed err st' all),
      )
