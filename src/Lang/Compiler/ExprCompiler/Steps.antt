-- ===== src/Lang/Compiler/ExprCompiler/Steps.antt =====
-- lang/src/compiler/module/expr_compiler.rs: the steps of the compiler over types that are no references.
use yacuri.Base.{
  ℕ, suc, ◌≡◌, refl, sym, subst, ◌∙◌, Bool, not, ◌&&◌, ◌||◌, some, List, [], ◌∷◌, ◌++◌, length,
  arith, Bool-cases, inl, inr,
}
use yacuri.Lang.Token.{Text, Token, ErrorKind, equal, is_binary_logic}
use yacuri.Lang.Token as Token
use yacuri.Lang.Compiler.Ir.{
  display, Ty, ◌==◌, allow_math, allow_logic, allow_assignment, VarStore, Expr, Exprs, nil, cons,
  new, binary, typ, get_type, Module, assign_local, new_local, assignable,
}
use yacuri.Lang.Compiler.ExprCompiler.{
  Debug, to_string, err_type, err_types, State, Scope, add_local, add_to_scope, insert_in,
  with_scopes, check_binary, check_condition, declare, check_args, pure, ◌>>◌, ◌>>=◌,
}
use yacuri.Lang.Compiler.ExprCompiler.Ready.{
  Gives, gives, Gives-bind, Gives-if, IsScalar, AllScalar, ScopesScalar, Ready, ReadyAfter,
  HasScalar, EachScalar, GoodTree, err-Gives, err_if-Gives, when-Gives, then-Gives, lift-Gives,
}

module _ (modules : List Module) (id : ℕ) (debug : Debug) where
  to_string-Gives :
      (ty : Ty) (s : State) → IsScalar ty → Gives (λ t s'. s' ≡ s) (to_string modules id debug ty s)
  unfolding to_string display
  to_string-Gives Ty.void s k = gives _ s refl
  to_string-Gives Ty.poison s k = gives _ s refl
  to_string-Gives Ty.bool s k = gives _ s refl
  to_string-Gives Ty.i64 s k = gives _ s refl
  to_string-Gives Ty.f64 s k = gives _ s refl
  to_string-Gives (Ty.function f) s k = absurd k
  to_string-Gives (Ty.class_ c) s k = absurd k

  pub err_type-Gives :
      (n pos : ℕ) (ty : Ty) (kind : Text → ErrorKind) (s : State)
      → IsScalar ty
      → Ready n s
      → Gives (ReadyAfter n) (err_type modules id debug pos ty kind s)
  err_type-Gives n pos ty kind s k r =
      Gives-bind (to_string-Gives ty s k)
        λ t s₁ e. err-Gives n pos (kind t) s₁ (subst (Ready n) (sym e) r)

  err_types-Gives :
      (n pos : ℕ) (a b : Ty) (kind : Text → Text → ErrorKind) (s : State)
      → IsScalar a
      → IsScalar b
      → Ready n s
      → Gives (ReadyAfter n) (err_types modules id debug pos a b kind s)
  err_types-Gives n pos a b kind s k k' r = Gives-bind (to_string-Gives a s k) λ t s₁ e.
      Gives-bind (to_string-Gives b s₁ k')
        λ u s₂ e'. err-Gives n pos (kind t u) s₂ (subst (Ready n) (sym (e' ∙ e)) r)

  pub check_binary-Gives :
      (n : ℕ) (left : Expr) (op : Token) (right : Expr) (lty rty : Ty) (s : State)
      → Ready n s
      → IsScalar lty
      → IsScalar rty
      → typ left ≡ some lty
      → HasScalar right
      → Gives (GoodTree n) (check_binary modules id debug left op right lty rty s)
  unfolding check_binary typ get_type HasScalar GoodTree
  check_binary-Gives n left op right lty rty s r k k' l h =
      Gives-if (not (lty == rty)) _ _
        (then-Gives n (err_types modules id debug op.start lty rty Token.e500)
          (new (binary left op right)) s tree
          (err_types-Gives n op.start lty rty Token.e500 s k k' r))
        (Gives-if (Token.◌==◌ op.kind equal) _ _
          (Gives-bind (err_if-Gives n (not (assignable left)) op.start _ s r)
            (λ u t r'. gives _ t (h, r')))
          (Gives-if {s = s}
            ((is_binary_logic op.kind && not (allow_logic lty))
              || (not (is_binary_logic op.kind) && not (allow_math lty)))
            (err_type modules id debug op.start lty (Token.e501 op.lex)
              >> pure (new (binary left op right)))
            (pure (new (binary left op right)))
            (then-Gives n (err_type modules id debug op.start lty (Token.e501 op.lex))
              (new (binary left op right)) s tree
              (err_type-Gives n op.start lty (Token.e501 op.lex) s k r))
            (gives _ s (tree, r))))
    where
      tree : HasScalar (new (binary left op right))
      tree = elim (Bool-cases (is_binary_logic op.kind)) [
        | inl e ↦ (Ty.bool, rw e refl, tt)
        | inr e ↦ (lty, rw e l, k)
      ]

  pub check_condition-Gives :
      (n : ℕ) (condition : Expr) (start : ℕ) (s : State)
      → HasScalar condition
      → Ready n s
      → Gives (ReadyAfter n) (check_condition modules id debug condition start s)
  unfolding check_condition
  check_condition-Gives n condition start s h r =
      Gives-bind (lift-Gives condition s h)
        λ ty t q. err_if-Gives n _ start _ t (subst (Ready n) (sym q.0) r)

  -- A scope is there to take a variable.
  add_to_scope-Gives :
      (n : ℕ) (v : VarStore) (s : State)
      → IsScalar v.ty
      → Ready n s
      → Gives (ReadyAfter n) (add_to_scope v s)
  unfolding add_to_scope Ready
  add_to_scope-Gives n v s k r = into s.environments r.0 r.1
    where
      into :
          (envs : List Scope)
          → length envs ≡ suc n
          → ScopesScalar envs
          → Gives (ReadyAfter n) (with_scopes s (insert_in envs v))
      into [] e h = absurd (omega arith)
      into (env ∷ envs) e (h, h') =
          gives tt (record s { environments = ((v.name, v) ∷ env) ∷ envs }) (e, ((k, h), h'))

  stored-Gives :
      (n : ℕ) (name : Text) (ty : Ty) (is_mutable : Bool) (value : Expr) (s : State)
      → IsScalar ty
      → HasScalar value
      → Ready n s
      → Gives
          (GoodTree n)
          ((add_local name ty is_mutable >>= λ v. add_to_scope v >> pure (assign_local v value)) s)
  unfolding add_local new_local GoodTree Ready HasScalar typ get_type
  stored-Gives n name ty is_mutable value s k h r =
      let v = new_local s.locals name ty is_mutable in
      Gives-bind (add_to_scope-Gives n v (record s { locals = s.locals ++ v ∷ [] }) k r)
        λ u' t₂ r₂. gives (assign_local v value) t₂ (h, r₂)

  pub declare-Gives :
      (n : ℕ) (final_ : Bool) (name : Token) (value : Expr) (s : State)
      → HasScalar value
      → Ready n s
      → Gives (GoodTree n) (declare modules id debug final_ name value s)
  unfolding declare
  declare-Gives n final_ name value s h r = Gives-bind (lift-Gives value s h) λ ty t q.
      let r' = subst (Ready n) (sym q.0) r in
      Gives-bind
        (when-Gives n (not (allow_assignment ty))
          (err_type modules id debug name.start ty Token.e504) t r'
          (err_type-Gives n name.start ty Token.e504 t q.2 r'))
        λ u t₁ r₁. stored-Gives n name.lex ty (not final_) value t₁ q.2 h r₁

  pub check_args-Gives :
      (n start i : ℕ) (args : Exprs) (params : List VarStore) (s : State)
      → EachScalar args
      → AllScalar params
      → Ready n s
      → Gives (ReadyAfter n) (check_args modules id debug start i args params s)
  unfolding check_args
  check_args-Gives n start i nil [] s h k r = gives tt s r
  check_args-Gives n start i nil (p ∷ ps) s h k r = gives tt s r
  check_args-Gives n start i (cons e es) [] s h k r = gives tt s r
  check_args-Gives n start i (cons e es) (p ∷ ps) s (h, h') (k, k') r =
      Gives-bind (lift-Gives e s h) λ ty t q.
        let r' = subst (Ready n) (sym q.0) r in
        Gives-bind
          (when-Gives n (not (ty == p.ty))
            (err_types modules id debug start p.ty ty (λ a b. Token.e508 a b i)) t r'
            (err_types-Gives n start p.ty ty (λ a b. Token.e508 a b i) t k q.2 r'))
          λ u t₁ r₁. check_args-Gives n start (suc i) es ps t₁ h' k' r₁
