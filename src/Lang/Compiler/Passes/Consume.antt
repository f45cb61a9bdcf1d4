-- ===== src/Lang/Compiler/Passes/Consume.antt =====
-- lang/src/compiler/mod.rs: what the compiler over all modules returns.
use yacuri.Base.{ℕ, suc, ◌≡◌, refl, ap, subst, ◌∙◌, Option, none, some, List, [], ◌∷◌, length, set}
use yacuri.Lang.Ast as Ast
use yacuri.Lang.Compiler.ExprCompiler.{Debug}
use yacuri.Lang.Compiler.Ir.{Module}
use yacuri.Lang.Compiler.ExprCompiler.Checked.{some_inj}
use yacuri.Lang.Compiler.Pass.{State}
use yacuri.Lang.Compiler.Passes.{
  stage_1, Compiled, ok, collect, result, modules_of, finish, new_compilers, from_asts, and_then,
  all_mods, consume,
}
use yacuri.Lang.Compiler.Passes.Kept.{AllDeclared}
use yacuri.Lang.Compiler.Passes.Errors.{stage_1-IsDeclared}

-- A predicate on what an option holds.
abbrev Holds : {A : Type 0} → (A → Type 0) → Option A → Type 0
Holds P none = Unit
Holds P (some a) = P a

and_then-Holds :
    {A B : Type 0} (P : A → Type 0) (Q : B → Type 0) (o : Option A) (f : A → Option B)
    → Holds P o
    → ((a : A) → P a → Holds Q (f a))
    → Holds Q (and_then o f)
and_then-Holds P Q none f h k = tt
and_then-Holds P Q (some a) f h k = k a h

Holds-some : {A : Type 0} (P : A → Type 0) (o : Option A) → ((a : A) → o ≡ some a → P a) → Holds P o
Holds-some P none k = tt
Holds-some P (some a) k = k a refl

Holds-inv : {A : Type 0} (P : A → Type 0) (o : Option A) (a : A) → Holds P o → o ≡ some a → P a
Holds-inv P none a h e = absurd (cc)
Holds-inv P (some b) a h e = subst P (some_inj e) h

-- A compiler with no errors, whose functions are declared.
Clean : State → Type 0
Clean st = (st.errors ≡ []) × AllDeclared st.module_.funcs

abbrev AllClean : List State → Type 0
AllClean [] = Unit
AllClean (st ∷ sts) = Clean st × AllClean sts

abbrev AllCleaned : List State → List State → Type 0
AllCleaned sts sts' = AllClean sts' × (length sts' ≡ length sts)

abbrev pub EachDeclared : List Module → Type 0
EachDeclared [] = Unit
EachDeclared (m ∷ ms) = AllDeclared m.funcs × EachDeclared ms

abbrev Answers : List Ast.Module → Compiled → Type 0
Answers asts c = (ms : List Module) × (c ≡ ok ms) × (length ms ≡ length asts) × EachDeclared ms

collected : (sts : List State) → AllClean sts → collect sts ≡ []
unfolding Clean
collected [] h = refl
collected (st ∷ sts) ((h, d), hs) = rw h (collected sts hs)

declared : (sts : List State) → AllClean sts → EachDeclared (modules_of sts)
unfolding Clean
declared [] h = tt
declared (st ∷ sts) ((h, d), hs) = (d, declared sts hs)

new_compilers-Clean : (asts : List Ast.Module) → AllClean (new_compilers (from_asts asts))
unfolding Clean
new_compilers-Clean [] = tt
new_compilers-Clean (a ∷ asts) = ((refl, tt), new_compilers-Clean asts)

length-new_compilers :
    (asts : List Ast.Module) → length (new_compilers (from_asts asts)) ≡ length asts
length-new_compilers [] = refl
length-new_compilers (a ∷ asts) = ap suc (length-new_compilers asts)

length-modules_of : (sts : List State) → length (modules_of sts) ≡ length sts
length-modules_of [] = refl
length-modules_of (st ∷ sts) = ap suc (length-modules_of sts)

module _ (debug : Debug) where
  all_mods-Clean :
      (id : ℕ) (modules : List Module) (sts : List State)
      → AllClean sts
      → Holds (AllCleaned sts) (all_mods debug id modules sts)
  unfolding all_mods Clean
  all_mods-Clean id modules [] h = (tt, refl)
  all_mods-Clean id modules (st ∷ sts) ((h, d), hs) =
      and_then-Holds Clean _ (stage_1 id modules debug st) _
        (Holds-some Clean _
          λ st' e. let r = stage_1-IsDeclared id modules debug st st' d e in (r.0 ∙ h, r.1))
        λ st' c.
          and_then-Holds (AllCleaned sts) _
            (all_mods debug (suc id) (set modules id st'.module_) sts) _
            (all_mods-Clean (suc id) (set modules id st'.module_) sts hs)
            λ sts' q. ((c, q.0), ap suc q.1)

  finish-Clean :
      (sts : List State)
      → AllClean sts
      → (finish sts ≡ ok (modules_of sts)) × EachDeclared (modules_of sts)
  unfolding finish
  finish-Clean sts h =
      (ap (λ errors. result errors (modules_of sts)) (collected sts h), declared sts h)

  -- What the compiler returns is never a list of errors, whatever is wrong with the modules: where it
  -- does not panic it gives one compiled module for each that it was given, and every function in them
  -- has its parameters numbered from 0 and no reference to a function among its declared types.
  pub consume-ok :
      (asts : List Ast.Module) (c : Compiled)
      → consume debug asts ≡ some c
      → (ms : List Module) × (c ≡ ok ms) × (length ms ≡ length asts) × EachDeclared ms
  unfolding consume
  consume-ok asts c e =
      Holds-inv (Answers asts) _ c
        (and_then-Holds (AllCleaned (new_compilers (from_asts asts))) (Answers asts) _ _
          (all_mods-Clean 0 (from_asts asts) (new_compilers (from_asts asts))
            (new_compilers-Clean asts))
          λ sts q.
            let f = finish-Clean sts q.0 in
            (modules_of sts, f.0, length-modules_of sts ∙ q.1 ∙ length-new_compilers asts, f.1))
        e
