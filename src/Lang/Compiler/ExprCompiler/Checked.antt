-- ===== src/Lang/Compiler/ExprCompiler/Checked.antt =====
-- What a run of lang/src/compiler/module/expr_compiler.rs leaves: the state that follows, and a fact of
-- its result that holds where `err` was not called.
use yacuri.Base.{
  ℕ, suc, subst, ◌+◌, ◌≤◌, ◌≡◌, refl, sym, ap, ◌∙◌, Bool, true, false, Option, none, some, List, [],
  ◌∷◌, ◌++◌, append_assoc, append-nil, length, length-append, arith,
}
use yacuri.Lang.Token.{Text, ErrorKind}
use yacuri.Lang.Compiler.Ir.{Ty, VarStore, new_local, Module, display}
use yacuri.Lang.Compiler.ExprCompiler.{
  Debug, State, Run, Compile, to_string, err_type, err_types, when, bind, lift, err, err_if,
  add_local, add_to_scope, tail, insert_in, with_scopes, end_scope, Scope, pure, ◌>>◌,
}

-- Each variable's index is its place in the list.
abbrev pub IsNumbered : ℕ → List VarStore → Type 0
IsNumbered n [] = Unit
IsNumbered n (v ∷ vs) = (v.index ≡ n) × IsNumbered (suc n) vs

pub IsNumbered-append :
    (n m : ℕ) (vs ws : List VarStore)
    → m ≡ length vs + n
    → IsNumbered n vs
    → IsNumbered m ws
    → IsNumbered n (vs ++ ws)
IsNumbered-append n m [] ws e h k = subst (λ i. IsNumbered i ws) (omega arith) k
IsNumbered-append n m (v ∷ vs) ws e (f, h) k =
    (f, IsNumbered-append (suc n) m vs ws (omega arith) h k)

-- A state that a run from `s` may leave: locals are added at the end, numbered on, the outer scopes
-- stand, and what was reported stays, behind what is reported.
pub record Later (s s' : State) : Type 0 where
  pub added : List VarStore
  pub grown : s'.locals ≡ s.locals ++ added
  pub numbered : IsNumbered (length s.locals) added
  pub outer : tail s'.environments ≡ tail s.environments
  pub reports : List (ℕ × ErrorKind)
  pub logged : s'.reported ≡ reports ++ s.reported
  pub kept : length s.reported ≤ length s'.reported

Later-refl : (s : State) → Later s s
Later-refl s = record {
  added = [];
  grown = sym (append-nil s.locals);
  numbered = tt;
  outer = refl;
  reports = [];
  logged = refl;
  kept = omega arith;
}

Later-trans : {s t u : State} → Later s t → Later t u → Later s u
Later-trans {s} {t} {u} a b = record {
  added = a.added ++ b.added;
  grown = b.grown ∙ ap (λ l. l ++ b.added) a.grown ∙ append_assoc s.locals a.added b.added;
  numbered =
      IsNumbered-append _ _ a.added b.added
        (omega (arith, ap length a.grown, length-append s.locals a.added)) a.numbered b.numbered;
  outer = b.outer ∙ a.outer;
  reports = b.reports ++ a.reports;
  logged =
      b.logged
      ∙ ap (λ l. b.reports ++ l) a.logged
      ∙ sym (append_assoc b.reports a.reports s.reported);
  kept = omega (arith, a.kept, b.kept);
}

-- `Q` holds of the result where at most `n` errors were reported by the end.
pub data Checked {A : Type 0} (Q : A → Type 0) (n : ℕ) (s : State) : Run A → Type 0 where
  panicked : Checked Q n s none
  gave :
      (a : A) (s' : State)
      → Later s s'
      → (length s'.reported ≤ n → Q a)
      → Checked Q n s (some (a, s'))

module _ {A : Type 0} {Q : A → Type 0} {n : ℕ} where
  Checked-after : {s t : State} {r : Run A} → Later s t → Checked Q n t r → Checked Q n s r
  Checked-after l panicked = panicked
  Checked-after l (gave a s' k q) = gave a s' (Later-trans l k) q

  pub Checked-pure : (a : A) (s : State) → (length s.reported ≤ n → Q a) → Checked Q n s (pure a s)
  Checked-pure a s q = gave a s (Later-refl s) q

pub Checked-bind :
    {A B : Type 0} {Q : A → Type 0} {R : B → Type 0} {n : ℕ} {s : State} {m : Run A}
    {f : A → Compile B}
    → Checked Q n s m
    → ((a : A) (s' : State) → Later s s' → (length s'.reported ≤ n → Q a) → Checked R n s' (f a s'))
    → Checked R n s (bind m f)
Checked-bind panicked k = panicked
Checked-bind (gave a s' l q) k = Checked-after l (k a s' l q)

pub lift-Checked :
    {A : Type 0} {n : ℕ} (o : Option A) (s : State) → Checked (λ a. o ≡ some a) n s (lift o s)
lift-Checked none s = panicked
lift-Checked (some a) s = gave a s (Later-refl s) (λ h. refl)

report-Later :
    (s : State) (more : List (ℕ × ErrorKind)) → Later s (record s { reported = more ++ s.reported })
report-Later s more = record {
  added = [];
  grown = sym (append-nil s.locals);
  numbered = tt;
  outer = refl;
  reports = more;
  logged = refl;
  kept = omega (arith, length-append more s.reported);
}

pub err-Checked :
    {P : Type 0} {n : ℕ} (pos : ℕ) (kind : ErrorKind) (s : State)
    → n ≤ length s.reported
    → Checked (λ u. P) n s (err pos kind s)
unfolding err
err-Checked pos kind s h = gave tt _ (report-Later s ((pos, kind) ∷ [])) (λ k. absurd (omega arith))

pub err_if-Checked :
    {n : ℕ} (b : Bool) (pos : ℕ) (kind : ErrorKind) (s : State)
    → n ≤ length s.reported
    → Checked (λ u. b ≡ false) n s (err_if b pos kind s)
err_if-Checked true pos kind s h = err-Checked pos kind s h
err_if-Checked false pos kind s h = gave tt s (Later-refl s) (λ k. refl)

-- A report that first renders types is the end of good results too.
rendered-Checked :
    {P : Type 0} {n : ℕ} (o : Option Text) (f : Text → Compile Unit) (s : State)
    → ((t : Text) → Checked (λ u. P) n s (f t s))
    → Checked (λ u. P) n s (bind (lift o s) f)
rendered-Checked none f s h = panicked
rendered-Checked (some t) f s h = h t

pub err_type-Checked :
    {P : Type 0} {n : ℕ} (modules : List Module) (debug : Debug) (id pos : ℕ) (ty : Ty)
    (kind : Text → ErrorKind) (s : State)
    → n ≤ length s.reported
    → Checked (λ u. P) n s (err_type modules id debug pos ty kind s)
unfolding to_string
err_type-Checked modules debug id pos ty kind s h =
    rendered-Checked (display (debug modules s) ty) _ s λ t. err-Checked pos (kind t) s h

pub err_types-Checked :
    {P : Type 0} {n : ℕ} (modules : List Module) (debug : Debug) (id pos : ℕ) (a b : Ty)
    (kind : Text → Text → ErrorKind) (s : State)
    → n ≤ length s.reported
    → Checked (λ u. P) n s (err_types modules id debug pos a b kind s)
unfolding to_string
err_types-Checked modules debug id pos a b kind s h =
    rendered-Checked (display (debug modules s) a) _ s
      λ t. rendered-Checked (display (debug modules s) b) _ s λ u. err-Checked pos (kind t u) s h

pub when-Checked :
    {n : ℕ} (b : Bool) (m : Compile Unit) (s : State)
    → Checked (λ u. b ≡ false) n s (m s)
    → Checked (λ u. b ≡ false) n s (when b m s)
when-Checked true m s h = h
when-Checked false m s h = gave tt s (Later-refl s) (λ k. refl)

pub add_local-Checked :
    {n : ℕ} (name : Text) (ty : Ty) (is_mutable : Bool) (s : State)
    → Checked (λ v. v.ty ≡ ty) n s (add_local name ty is_mutable s)
unfolding add_local new_local
add_local-Checked name ty is_mutable s =
    gave _ _
      (record {
        added = new_local s.locals name ty is_mutable ∷ [];
        grown = refl;
        numbered = (refl, tt);
        outer = refl;
        reports = [];
        logged = refl;
        kept = omega arith;
      })
      (λ h. refl)

scopes-Checked :
    {n : ℕ} (v : VarStore) (s : State) (envs : List Scope)
    → s.environments ≡ envs
    → Checked (λ u. Unit {0}) n s (with_scopes s (insert_in envs v))
scopes-Checked v s [] e = panicked
scopes-Checked v s (env ∷ envs) e =
    gave tt _
      (record {
        added = [];
        grown = sym (append-nil s.locals);
        numbered = tt;
        outer = sym (ap tail e);
        reports = [];
        logged = refl;
        kept = omega arith;
      })
      (λ h. tt)

pub add_to_scope-Checked :
    {n : ℕ} (v : VarStore) (s : State) → Checked (λ u. Unit {0}) n s (add_to_scope v s)
unfolding add_to_scope
add_to_scope-Checked v s = scopes-Checked v s s.environments refl

-- A run inside a scope of its own, which ends with it.
pub scope-Checked :
    {A B : Type 0} {Q : A → Type 0} {R : B → Type 0} {n : ℕ} {s : State} {r : Run A} (f : A → B)
    → Checked Q n (record s { environments = [] ∷ s.environments }) r
    → ((a : A) → Q a → R (f a))
    → Checked R n s (bind r (λ a. end_scope >> pure (f a)))
unfolding end_scope
scope-Checked f panicked k = panicked
scope-Checked f (gave a s' l q) k =
    gave (f a) _
      (record {
        added = l.added;
        grown = l.grown;
        numbered = l.numbered;
        outer = ap tail l.outer;
        reports = l.reports;
        logged = l.logged;
        kept = l.kept;
      })
      (λ h. k a (q h))

pub some_inj : {A : Type 0} {a b : A} → some a ≡ some b → a ≡ b
some_inj h = cc

-- What a checked run that gave a result says of it.
pub Checked-gave :
    {A : Type 0} {Q : A → Type 0} {n : ℕ} {s : State} {r : Run A} (a : A) (s' : State)
    → Checked Q n s r
    → r ≡ some (a, s')
    → Later s s' × (length s'.reported ≤ n → Q a)
Checked-gave a s' panicked e = cc
Checked-gave {Q = Q} {n = n} {s = s} a s' (gave b t l q) e =
    subst (λ p. Later s p.1 × (length p.1.reported ≤ n → Q p.0)) (some_inj e) (l, q)
