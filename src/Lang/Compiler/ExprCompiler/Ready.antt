-- ===== src/Lang/Compiler/ExprCompiler/Ready.antt =====
-- lang/src/compiler/module/expr_compiler.rs: the states from which each step of the compiler gives a
-- result, and the trees whose type `typ` gives.
use yacuri.Base.{
  ℕ, suc, ◌≡◌, refl, Bool, true, false, Option, none, some, List, [], ◌∷◌, length, if◌then◌else◌,
}
use yacuri.Lang.Token.{Text, ErrorKind}
use yacuri.Lang.Compiler.Ir.{Ty, VarStore, Expr, Exprs, nil, cons, typ, text_eq}
use yacuri.Lang.Compiler.ExprCompiler.{
  when, State, Scope, get, or_else, first_some, Run, Compile, bind, lift, err, err_if, pure, ◌>>◌,
}

-- A run that gave a result, of which `Q` holds.
pub data Gives {A : Type 0} (Q : A → State → Type 0) : Run A → Type 0 where
  gives : (a : A) (s : State) → Q a s → Gives Q (some (a, s))

pub Gives-bind :
    {A B : Type 0} {Q : A → State → Type 0} {R : B → State → Type 0} {m : Run A} {f : A → Compile B}
    → Gives Q m
    → ((a : A) (s : State) → Q a s → Gives R (f a s))
    → Gives R (bind m f)
Gives-bind (gives a s q) k = k a s q

pub Gives-if :
    {A : Type 0} {Q : A → State → Type 0} {s : State} (b : Bool) (x y : Compile A)
    → Gives Q (x s)
    → Gives Q (y s)
    → Gives Q ((if b then x else y) s)
Gives-if true x y f g = f
Gives-if false x y f g = g

Gives-result :
    {A : Type 0} {Q : A → State → Type 0} {r : Run A} → Gives Q r → (p : A × State) × (r ≡ some p)
Gives-result (gives a s q) = ((a, s), refl)

if-holds {ℓ} :
    {A : Type 0} (P : A → Type ℓ) {x y : A} (b : Bool) → P x → P y → P (if b then x else y)
if-holds P true p q = p
if-holds P false p q = q

-- A type that is no reference; a message can show it.
abbrev pub IsScalar : Ty → Type 0
IsScalar Ty.void = Unit
IsScalar Ty.poison = Unit
IsScalar Ty.bool = Unit
IsScalar Ty.i64 = Unit
IsScalar Ty.f64 = Unit
IsScalar (Ty.function f) = ⊥
IsScalar (Ty.class_ c) = ⊥

abbrev pub AllScalar : List VarStore → Type 0
AllScalar [] = Unit
AllScalar (v ∷ vs) = IsScalar v.ty × AllScalar vs

abbrev pub ScopeScalar : Scope → Type 0
ScopeScalar [] = Unit
ScopeScalar ((n, v) ∷ env) = IsScalar v.ty × ScopeScalar env

abbrev pub ScopesScalar : List Scope → Type 0
ScopesScalar [] = Unit
ScopesScalar (env ∷ envs) = ScopeScalar env × ScopesScalar envs

-- There are `n + 1` scopes, and no reference is a variable's type in them.
unfoldable pub Ready : ℕ → State → Type 0
Ready n s = (length s.environments ≡ suc n) × ScopesScalar s.environments

abbrev pub ReadyAfter : ℕ → Unit {0} → State → Type 0
ReadyAfter n u s = Ready n s

unfoldable pub HasScalar : Expr → Type 0
HasScalar e = (ty : Ty) × (typ e ≡ some ty) × IsScalar ty

abbrev pub EachScalar : Exprs → Type 0
EachScalar nil = Unit
EachScalar (cons e es) = HasScalar e × EachScalar es

unfoldable pub GoodTree : ℕ → Expr → State → Type 0
GoodTree n e s = HasScalar e × Ready n s

unfoldable pub GoodTrees : ℕ → Exprs → State → Type 0
GoodTrees n es s = EachScalar es × Ready n s

abbrev pub ScalarVar : Option VarStore → Type 0
ScalarVar none = Unit
ScalarVar (some v) = IsScalar v.ty

get-Scalar : (env : Scope) (name : Text) → ScopeScalar env → ScalarVar (get env name)
get-Scalar [] name h = tt
get-Scalar ((n, w) ∷ env) name (k, h) =
    if-holds ScalarVar (text_eq n name) k (get-Scalar env name h)

or_else-Scalar : (o o' : Option VarStore) → ScalarVar o → ScalarVar o' → ScalarVar (or_else o o')
or_else-Scalar none o' h k = k
or_else-Scalar (some v) o' h k = h

pub find_local-Scalar :
    (envs : List Scope) (name : Text) → ScopesScalar envs → ScalarVar (first_some envs name)
find_local-Scalar [] name h = tt
find_local-Scalar (env ∷ envs) name (k, h) =
    or_else-Scalar (get env name) _ (get-Scalar env name k) (find_local-Scalar envs name h)

pub err-Gives :
    (n pos : ℕ) (kind : ErrorKind) (s : State) → Ready n s → Gives (ReadyAfter n) (err pos kind s)
unfolding err Ready
err-Gives n pos kind s r = gives tt _ r

pub err_if-Gives :
    (n : ℕ) (b : Bool) (pos : ℕ) (kind : ErrorKind) (s : State)
    → Ready n s
    → Gives (ReadyAfter n) (err_if b pos kind s)
err_if-Gives n true pos kind s r = err-Gives n pos kind s r
err_if-Gives n false pos kind s r = gives tt s r

pub when-Gives :
    (n : ℕ) (b : Bool) (m : Compile Unit) (s : State)
    → Ready n s
    → Gives (ReadyAfter n) (m s)
    → Gives (ReadyAfter n) (when b m s)
when-Gives n true m s r h = h
when-Gives n false m s r h = gives tt s r

pub then-Gives :
    (n : ℕ) (m : Compile Unit) (e : Expr) (s : State)
    → HasScalar e
    → Gives (ReadyAfter n) (m s)
    → Gives (GoodTree n) ((m >> pure e) s)
unfolding GoodTree
then-Gives n m e s h k = Gives-bind k λ u t r. gives e t (h, r)

-- The type of a tree that has one.
pub lift-Gives :
    (e : Expr) (s : State)
    → HasScalar e
    → Gives (λ ty t. (t ≡ s) × (typ e ≡ some ty) × IsScalar ty) (lift (typ e) s)
unfolding HasScalar
lift-Gives e s (ty, h, k) = rw h (gives ty s (refl, refl, k))
