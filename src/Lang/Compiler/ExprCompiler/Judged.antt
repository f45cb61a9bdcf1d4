-- ===== src/Lang/Compiler/ExprCompiler/Judged.antt =====
-- lang/src/compiler/module/expr_compiler.rs: each step of the compiler gives a well-typed tree where its
-- parts are, unless it reports something.
use yacuri.Base.{
  ℕ, ◌≤◌, ◌≡◌, refl, sym, ap, subst, ap₂, ◌∙◌, Bool, true, false, not, ◌&&◌, ◌||◌, Option, none,
  some, List, length, if◌then◌else◌, arith,
}
use yacuri.Lang.Token.{Text, Token, ErrorKind, e500, e501, e504, e506, equal, is_binary_logic}
use yacuri.Lang.Token as Token
use yacuri.Lang.Ast as Ast
use yacuri.Lang.Compiler.Ir.{
  allow_assignment, FuncRef, Ty, ◌==◌, allow_math, allow_logic, into_fn, VarStore, Constant,
  from_literal, Expr, Exprs, nil, cons, new, typ, constant, Module, if_expr, local, assignable, if_,
  zero_expr, phi_of, with_phi, binary,
}
use yacuri.Lang.Compiler.ExprCompiler.{
  Debug, err_type, err_types, State, Run, Compile, err, check_binary, check_condition,
  local_or_function, function_or_poison, find_function, declare, pure, ◌>>◌,
}
use yacuri.Lang.Compiler.ExprCompiler.Checked.{
  Checked, Checked-bind, Checked-pure, lift-Checked, err-Checked, err_if-Checked, err_type-Checked,
  err_types-Checked, when-Checked, add_local-Checked, add_to_scope-Checked,
}
use yacuri.Lang.Compiler.ExprCompiler.Typing.{
  Typed, AllTyped, Args, typ-Typed, Typed-unique, ==→eq, variable_typed, constant_typed,
}
use yacuri.Lang.Compiler.ExprCompiler.Typing
use yacuri.Lang.Compiler.ExprCompiler.Plain.{IsNumberOrBool}

Checked-if :
    {A : Type 0} {Q : A → Type 0} {n : ℕ} {s : State} (b : Bool) (x y : Compile A)
    → (b ≡ true → Checked Q n s (x s))
    → (b ≡ false → Checked Q n s (y s))
    → Checked Q n s ((if b then x else y) s)
Checked-if true x y f g = f refl
Checked-if false x y f g = g refl

pub then-Checked :
    {A : Type 0} {Q : A → Type 0} {n : ℕ} (m : Compile Unit) (a : A) (s : State)
    → Checked (λ u. Q a) n s (m s)
    → Checked Q n s ((m >> pure a) s)
then-Checked m a s h = Checked-bind h (λ u s' l q. Checked-pure a s' q)

report-Checked :
    {A : Type 0} {Q : A → Type 0} {n : ℕ} (pos : ℕ) (kind : ErrorKind) (a : A) (s : State)
    → n ≤ length s.reported
    → Checked Q n s ((err pos kind >> pure a) s)
report-Checked {Q = Q} pos kind a s h =
    then-Checked (err pos kind) a s (err-Checked {P = Q a} pos kind s h)

pub Checked-map :
    {A : Type 0} {Q R : A → Type 0} {n : ℕ} {s : State} {r : Run A}
    → Checked Q n s r
    → ((a : A) → length s.reported ≤ n → Q a → R a)
    → Checked R n s r
Checked-map Checked.panicked k = Checked.panicked
Checked-map (Checked.gave a s' l q) k = Checked.gave a s' l (λ h. k a (omega (arith, l.kept)) (q h))

cons-some : {A : Type 0} {a b : A} → some a ≡ some b → a ≡ b
cons-some h = cc

pub of_into_fn : (ty : Ty) (f : FuncRef) → into_fn ty ≡ some f → ty ≡ Ty.function f
unfolding into_fn
of_into_fn (Ty.function g) f e = ap Ty.function (cons-some e)
of_into_fn _ f e = cc

pub unnegate : {b : Bool} → not b ≡ false → b ≡ true
unnegate {b = true} h = refl
unnegate {b = false} h = cc

module _ (modules : List Module) (id : ℕ) (debug : Debug) where
  abbrev pub HasTy : Expr → Type 0
  HasTy e = (ty : Ty) × Typed modules e ty

  abbrev pub EachTyped : Exprs → Type 0
  EachTyped nil = Unit
  EachTyped (cons e es) = HasTy e × EachTyped es

  pub all_typed : (es : Exprs) → EachTyped es → (ty : Ty) × AllTyped modules es ty
  all_typed nil h = (Ty.void, Typing.empty)
  all_typed (cons e nil) ((ty, t), h) = (ty, Typing.last e ty t)
  all_typed (cons e (cons e' es)) ((ty, t), h) =
      let r = all_typed (cons e' es) h in (r.0, Typing.next e e' es ty r.0 t r.1)

  -- What the tests of a binary expression leave to be well typed.
  binary-HasTy :
      (left : Expr) (op : Token) (right : Expr) (ty : Ty) (logic : Bool)
      → is_binary_logic op.kind ≡ logic
      → ((logic && not (allow_logic ty)) || (not logic && not (allow_math ty))) ≡ false
      → Typed modules left ty
      → Typed modules right ty
      → HasTy (new (binary left op right))
  binary-HasTy left op right ty true l h a b =
      (Ty.bool, Typing.logic left op right ty l (ground arith) a b)
  binary-HasTy left op right ty false l h a b =
      (ty, Typing.arithmetic left op right ty l (ground arith) a b)

  pub check_binary-Checked :
      {n : ℕ} (left : Expr) (op : Token) (right : Expr) (lty rty : Ty) (s : State)
      → n ≤ length s.reported
      → (length s.reported ≤ n → Typed modules left lty)
      → (length s.reported ≤ n → Typed modules right rty)
      → Checked HasTy n s (check_binary modules id debug left op right lty rty s)
  unfolding check_binary
  check_binary-Checked left op right lty rty s h l r =
      Checked-if (not (lty == rty)) _ _
        (λ e.
          then-Checked (err_types modules id debug op.start lty rty e500)
            (new (binary left op right)) s
            (err_types-Checked modules debug id op.start lty rty e500 s h))
        λ e.
          let same = ==→eq lty rty (unnegate e) in
          let r' : length s.reported ≤ _ → Typed modules right lty =
            λ k. subst (Typed modules right) (sym same) (r k) in
          Checked-if (Token.◌==◌ op.kind equal) _ _
            (λ e'. Checked-bind (err_if-Checked (not (assignable left)) _ _ s h) λ u s' t q.
              Checked-pure _ s' λ k. (
                lty,
                Typing.assigned left right lty (unnegate (q k)) (l (omega (arith, t.kept)))
                    (r' (omega (arith, t.kept))),
              ))
            λ e'.
              Checked-if _ _ _
                (λ e''.
                  then-Checked (err_type modules id debug op.start lty (e501 op.lex))
                    (new (binary left op right)) s
                    (err_type-Checked modules debug id op.start lty (e501 op.lex) s h))
                λ e''. Checked-pure _ s λ k. binary-HasTy left op right lty _ refl e'' (l k) (r' k)

  pub check_condition-Checked :
      {n : ℕ} (condition : Expr) (start : ℕ) (s : State)
      → n ≤ length s.reported
      → (length s.reported ≤ n → HasTy condition)
      → Checked
          (λ u. Typed modules condition Ty.bool)
          n
          s
          (check_condition modules id debug condition start s)
  unfolding check_condition
  check_condition-Checked condition start s h c =
      Checked-bind (lift-Checked (typ condition) s) λ ty s₁ l₁ q₁.
        Checked-map (err_if-Checked (not (ty == Ty.bool)) start _ s₁ (omega (arith, l₁.kept)))
          λ u k q.
            Typed-unique modules (c (omega (arith, l₁.kept))).1
              (q₁ k ∙ ap some (==→eq ty Ty.bool (unnegate q)))

  pub identifier-HasTy :
      {n : ℕ} (ident : Token) (o : Option VarStore) (s : State)
      → n ≤ length s.reported
      → Checked HasTy n s (local_or_function modules id debug ident o s)
  identifier-HasTy ident (some v) s h = Checked-pure _ s λ k. (v.ty, variable_typed v.index v.ty)
  identifier-HasTy {n} ident none s h = function_found (find_function modules id ident.lex)
    where
      function_found :
          (o : Option FuncRef) → Checked HasTy n s (function_or_poison modules id debug ident o s)
      function_found (some f) =
          Checked-pure _ s λ k. (Ty.function f, constant_typed (Constant.function f) _ refl)
      function_found none = report-Checked _ _ _ s h

  pub declare-Checked :
      {n : ℕ} (final_ : Bool) (name : Token) (value : Expr) (s : State)
      → n ≤ length s.reported
      → (length s.reported ≤ n → HasTy value)
      → Checked HasTy n s (declare modules id debug final_ name value s)
  unfolding declare assignable
  declare-Checked final_ name value s h v = Checked-bind (lift-Checked (typ value) s) λ ty s₁ l₁ q₁.
      Checked-bind
        (when-Checked (not (allow_assignment ty)) (err_type modules id debug name.start ty e504) s₁
          (err_type-Checked modules debug id name.start ty e504 s₁ (omega (arith, l₁.kept))))
        λ u s₂ l₂ q₂.
          Checked-bind (add_local-Checked name.lex ty (not final_) s₂) λ local_ s₃ l₃ q₃.
            Checked-bind (add_to_scope-Checked local_ s₃) λ u' s₄ l₄ q₄. Checked-pure _ s₄ λ k. (
              local_.ty,
              Typing.assigned (local local_) value local_.ty refl
                  (variable_typed local_.index local_.ty)
                  (Typed-unique modules (v (omega (arith, l₁.kept, l₂.kept, l₃.kept, l₄.kept))).1 (
                    q₁ (omega (arith, l₂.kept, l₃.kept, l₄.kept))
                    ∙ ap some (sym (q₃ (omega (arith, l₄.kept)))))),
            )

  unfoldable pub OptionTyped : Option Expr → Type 0
  OptionTyped none = Unit
  OptionTyped (some e) = HasTy e

  phi-HasTy :
      (cond_ then_ els : Expr) (ty ty' : Ty) (phi : Bool)
      → (ty == ty') ≡ phi
      → Typed modules cond_ Ty.bool
      → Typed modules then_ ty
      → Typed modules els ty'
      → HasTy (new (if_ cond_ then_ els phi))
  phi-HasTy cond_ then_ els ty ty' true e c t l =
      (ty, Typing.both cond_ then_ els ty c t (subst (Typed modules els) (sym (==→eq ty ty' e)) l))
  phi-HasTy cond_ then_ els ty ty' false e c t l =
      (Ty.void, Typing.either cond_ then_ els ty ty' c t l)

  pub if_expr-HasTy :
      (cond_ then_ : Expr) (els : Option Expr) (e : Expr)
      → Typed modules cond_ Ty.bool
      → HasTy then_
      → OptionTyped els
      → if_expr cond_ then_ els ≡ some e
      → HasTy e
  unfolding if_expr OptionTyped
  if_expr-HasTy cond_ then_ none e c (ty, t) l h =
      subst HasTy (cons-some h)
        (Ty.void, Typing.either cond_ then_ zero_expr ty Ty.i64 c t (constant_typed _ Ty.i64 refl))
  if_expr-HasTy cond_ then_ (some els) e c (ty, t) (ty', l) h =
      subst HasTy
        (cons-some (
          sym
            (ap (with_phi cond_ then_ els) (ap₂ phi_of (typ-Typed modules t) (typ-Typed modules l)))
          ∙ h))
        (phi-HasTy cond_ then_ els ty ty' _ refl c t l)

  pub literal-HasTy :
      (lit : Ast.Literal) → IsNumberOrBool lit → HasTy (new (constant (from_literal lit)))
  unfolding from_literal
  literal-HasTy (Ast.Literal.bool b) p = (Ty.bool, constant_typed _ _ refl)
  literal-HasTy (Ast.Literal.int i) p = (Ty.i64, constant_typed _ _ refl)
  literal-HasTy (Ast.Literal.float f) p = (Ty.f64, constant_typed _ _ refl)
  literal-HasTy (Ast.Literal.string b) p = absurd p
