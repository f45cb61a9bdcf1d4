-- ===== src/Lang/Compiler/ExprCompiler/Slots.antt =====
-- lang/src/compiler/module/expr_compiler.rs: the scopes and the slots of the locals, over whole
-- expressions.
use yacuri.Base.{
  ℕ, zero, suc, ◌+◌, ◌≡◌, sym, ap, subst, ◌∙◌, Bool, true, false, Option, none, some, List, [], ◌∷◌,
  ◌++◌, length, arith, get_elem?,
}
use yacuri.Lang.Token.{Text, Token, ErrorKind}
use yacuri.Lang.Ast as Ast
use yacuri.Lang.Compiler.Ir.{display, Ty, VarStore, Expr, Module, typ, assign_local, new_local}
use yacuri.Lang.Compiler.ExprCompiler.{
  Debug, when, err_type, to_string, lift, State, Scope, Run, bind, pure, ◌>>=◌, ◌>>◌, err,
  add_local, add_to_scope, with_scopes, declare, expr, tail, begin_scope, end_scope, eexpr,
}
use yacuri.Lang.Compiler.ExprCompiler.Checked.{
  IsNumbered, IsNumbered-append, Checked, panicked, gave, Checked-gave, some_inj,
}
use yacuri.Lang.Compiler.ExprCompiler.Plain.{Plain, PlainAll}
use yacuri.Lang.Compiler.ExprCompiler.Typing.{Typed, typ-Typed}
use yacuri.Lang.Compiler.ExprCompiler.Sound.{expr-Checked, exprs-Checked}

module _ (modules : List Module) (id : ℕ) (debug : Debug) where
  -- An expression with no string and no unary operator that the compiler turns into a tree without a
  -- call of `err` gets a well-typed tree, of the type that `typ` gives: in every operation both sides
  -- have one type that the operator allows, every condition is a boolean, only a variable is assigned
  -- to, and every call has an argument of the parameter's type for each parameter of the function.
  pub expr-Typed :
      (e : Ast.Expr) (s s' : State) (tree : Expr)
      → Plain e
      → expr modules id debug e s ≡ some (tree, s')
      → s'.reported ≡ s.reported
      → (ty : Ty) × Typed modules tree ty × (typ tree ≡ some ty)
  expr-Typed e s s' tree p run quiet =
      let r =
        (Checked-gave {n = length s.reported} tree s'
            (expr-Checked modules id debug e s p (omega arith)) run).1
          (omega (arith, ap length quiet)) in
      (r.0, r.1, typ-Typed modules r.1)

  -- An expression with no string and no unary operator that compiles leaves every local's index equal
  -- to its place in the function's list when it was so before; the list only grows at its end, every
  -- scope but the innermost is left as it was, and the reports of before stay, behind new ones.
  pub expr-IsNumbered :
      (e : Ast.Expr) (s s' : State) (tree : Expr)
      → Plain e
      → IsNumbered 0 s.locals
      → expr modules id debug e s ≡ some (tree, s')
      → IsNumbered 0 s'.locals
        × ((added : List VarStore) × (s'.locals ≡ s.locals ++ added))
        × (tail s'.environments ≡ tail s.environments)
        × ((reports : List (ℕ × ErrorKind)) × (s'.reported ≡ reports ++ s.reported))
  expr-IsNumbered e s s' tree p h run =
      let l =
        (Checked-gave {n = length s.reported} tree s'
          (expr-Checked modules id debug e s p (omega arith)) run).0 in
      (
        subst (IsNumbered 0) (sym l.grown)
            (IsNumbered-append 0 _ s.locals l.added (omega arith) h l.numbered),
        (l.added, l.grown),
        l.outer,
        (l.reports, l.logged),
      )

scope_restored :
    {A B : Type 0} {Q : A → Type 0} {n : ℕ} {s : State} {r : Run A} (f : A → B) (b : B) (s' : State)
    → Checked Q n (record s { environments = [] ∷ s.environments }) r
    → bind r (λ a. end_scope >> pure (f a)) ≡ some (b, s')
    → s'.environments ≡ s.environments
unfolding end_scope
scope_restored f b s' panicked e = cc
scope_restored f b s' (gave a t l q) e = sym (ap (λ p. p.1.environments) (some_inj e)) ∙ l.outer

module _ (modules : List Module) (id : ℕ) (debug : Debug) where
  -- A block with no string and no unary operator in it leaves the scopes exactly as it found them:
  -- what it declares is not seen after it.
  pub block_restores_scopes :
      (es : Ast.Exprs) (start : ℕ) (s s' : State) (tree : Expr)
      → PlainAll es
      → expr modules id debug (Ast.expr (Ast.block es) start) s ≡ some (tree, s')
      → s'.environments ≡ s.environments
  unfolding expr eexpr begin_scope
  block_restores_scopes es start s s' tree p run =
      scope_restored _ tree s'
        (exprs-Checked modules id debug es {n = length s.reported} _ p (omega arith)) run

scoped :
    (var_ : VarStore) (value tree : Expr) (s s' : State) (o : Option (List Scope))
    → bind (with_scopes s o) (λ u. pure (assign_local var_ value)) ≡ some (tree, s')
    → tree ≡ assign_local var_ value
scoped var_ value tree s s' none e = cc
scoped var_ value tree s s' (some envs) e = sym (ap (λ p. p.0) (some_inj e))

stored :
    (name : Text) (ty : Ty) (is_mutable : Bool) (value tree : Expr) (s s' : State)
    → (add_local name ty is_mutable >>= λ v. add_to_scope v >>= λ u. pure (assign_local v value)) s
      ≡ some (tree, s')
    → tree ≡ assign_local (new_local s.locals name ty is_mutable) value
unfolding add_local add_to_scope
stored name ty is_mutable value tree s s' e =
    let v = new_local s.locals name ty is_mutable in
    scoped v value tree (record s { locals = s.locals ++ v ∷ [] }) s' _ e

reported_first :
    (modules : List Module) (debug : Debug) (id : ℕ) (b : Bool) (pos : ℕ) (kind : Text → ErrorKind)
    (name : Text) (ty : Ty) (is_mutable : Bool) (value tree : Expr) (s s' : State)
    → (when b (err_type modules id debug pos ty kind) >>= λ u.
          add_local name ty is_mutable >>= λ v. add_to_scope v >>= λ u. pure (assign_local v value))
        s
      ≡ some (tree, s')
    → tree ≡ assign_local (new_local s.locals name ty is_mutable) value
unfolding err to_string
reported_first modules debug id true pos kind name ty is_mutable value tree s s' e =
    rendered (display (debug modules s) ty) e
  where
    rendered :
        (o : Option Text)
        → bind (bind (lift o s) (λ t. err pos (kind t))) (λ u.
          add_local name ty is_mutable >>= λ v. add_to_scope v >>= λ u. pure (assign_local v value))
          ≡ some (tree, s')
        → tree ≡ assign_local (new_local s.locals name ty is_mutable) value
    rendered none e = cc
    rendered (some t) e =
        stored name ty is_mutable value tree (record s { reported = (pos, kind t) ∷ s.reported }) s'
          e
reported_first modules debug id false pos kind name ty is_mutable value tree s s' e =
    stored name ty is_mutable value tree s s' e

index_at :
    (n k : ℕ) (vs : List VarStore) (v : VarStore)
    → IsNumbered n vs
    → get_elem? vs k ≡ some v
    → v.index ≡ k + n
index_at n k [] v h e = cc
index_at n zero (w ∷ vs) v h e = subst (λ u. u.index ≡ 0 + n) (some_inj e) (h.0 ∙ omega arith)
index_at n (suc k) (w ∷ vs) v h e = index_at (suc n) k vs v h.1 e ∙ omega arith

module _ (modules : List Module) (id : ℕ) (debug : Debug) where
  -- Parameters and locals share one numbering: where the parameters are numbered from 0, a declaration
  -- that comes when the function has as many locals as stand before the parameter `p`, with a value of
  -- the type of `p`, compiles to the assignment of the value to `p` itself.
  pub declare-assign_local :
      (params : List VarStore) (p : VarStore) (final_ : Bool) (name : Token) (value tree : Expr)
      (s s' : State)
      → IsNumbered 0 params
      → get_elem? params (length s.locals) ≡ some p
      → typ value ≡ some p.ty
      → declare modules id debug final_ name value s ≡ some (tree, s')
      → tree ≡ assign_local p value
  unfolding declare new_local
  declare-assign_local params p final_ name value tree s s' h e t run =
      reported_first modules debug id _ _ _ _ p.ty _ value tree s s' (rw t at run)
      ∙ rw (index_at 0 _ params p h e) (ground arith)
