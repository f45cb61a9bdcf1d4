-- ===== src/Lang/Compiler/ExprCompiler/Callee.antt =====
-- lang/src/compiler/module/expr_compiler.rs: a function that is called by its name, where functions take
-- and give no references.
use yacuri.Base.{
  ℕ, ◌≡◌, refl, ap, ap₂, ◌∙◌, Bool, true, false, not, Option, none, some, List, [], ◌∷◌, length,
  get_elem?, arith, ◌==◌ as nat_beq, if◌then◌else◌,
}
use yacuri.Lang.Token.{Text, Token}
use yacuri.Lang.Token as Token
use yacuri.Lang.Compiler.Ir.{
  FuncRef, Ty, VarStore, into_fn, Expr, Exprs, new, constant, Constant, call, with_typ, poison_expr,
  typ, get_type, Function, Module, resolve, func_at, text_eq, contains,
}
use yacuri.Lang.Compiler.ExprCompiler.{
  Debug, State, Compile, position, bump, funcs_of, func_ref, find_function, function_or_poison,
  local_or_function, call_or_poison, call_function, count, err_type, err, lift,
}
use yacuri.Lang.Compiler.ExprCompiler.Ready.{
  Gives, gives, Gives-bind, IsScalar, AllScalar, Ready, HasScalar, GoodTree, GoodTrees, ScalarVar,
  err-Gives, err_if-Gives, then-Gives,
}
use yacuri.Lang.Compiler.ExprCompiler.Steps.{err_type-Gives, check_args-Gives}

text_eq-eq : (a b : Text) → text_eq a b ≡ true → a ≡ b
text_eq-eq [] [] h = refl
text_eq-eq [] (y ∷ b) h = absurd (cc)
text_eq-eq (x ∷ a) [] h = absurd (cc)
text_eq-eq (x ∷ a) (y ∷ b) h =
    let first : x ≡ y = ground arith in
    let rest : text_eq a b ≡ true = ground arith in ap₂ (λ z zs. z ∷ zs) first (text_eq-eq a b rest)

-- What is found by its name has the name.
abbrev IsNamed : Text → List Function → Option ℕ → Type 0
IsNamed name fs none = Unit
IsNamed name fs (some i) =
    (func : Function) × (get_elem? fs i ≡ some func) × (text_eq func.name name ≡ true)

bump-IsNamed :
    (f : Function) (fs : List Function) (name : Text) (o : Option ℕ)
    → IsNamed name fs o
    → IsNamed name (f ∷ fs) (bump o)
bump-IsNamed f fs name none h = tt
bump-IsNamed f fs name (some i) h = h

position-IsNamed : (fs : List Function) (name : Text) → IsNamed name fs (position fs name)
position-IsNamed [] name = tt
position-IsNamed (f ∷ fs) name = first (text_eq f.name name) refl (position-IsNamed fs name)
  where
    first :
        (b : Bool)
        → text_eq f.name name ≡ b
        → IsNamed name fs (position fs name)
        → IsNamed name (f ∷ fs) (if b then some 0 else bump (position fs name))
    first true e h = (f, refl, e)
    first false e h = bump-IsNamed f fs name _ h

-- A function of one of the names, with neither a reference among the types of its parameters nor one
-- for its result
abbrev pub IsCallable : List Text → Function → Type 0
IsCallable names func =
    AllScalar func.params × IsScalar func.ret_type × (contains names func.name ≡ true)

module _ (names : List Text) (modules : List Module) where
  unfoldable pub AllCallable : Type 0
  AllCallable =
      (f : FuncRef) (func : Function) → resolve modules f ≡ some func → IsCallable names func

  -- A reference leads to a function of the name.
  abbrev FoundRef : Text → Option FuncRef → Type 0
  FoundRef name none = Unit
  FoundRef name (some f) =
      (func : Function) × (resolve modules f ≡ some func) × (text_eq func.name name ≡ true)

  find_function-FoundRef : (id : ℕ) (name : Text) → FoundRef name (find_function modules id name)
  unfolding find_function resolve
  find_function-FoundRef id name = found (get_elem? modules id) refl
    where
      found :
          (o : Option Module)
          → get_elem? modules id ≡ o
          → FoundRef name (func_ref id (position (funcs_of o) name))
      found none e = tt
      found (some m) e = at (position m.funcs name) (position-IsNamed m.funcs name)
        where
          at : (i : Option ℕ) → IsNamed name m.funcs i → FoundRef name (func_ref id i)
          at none h = tt
          at (some i) h = (h.0, ap (λ o. func_at o i) e ∙ h.1, h.2)

  -- A name that no function has finds none.
  unnamed :
      (name : Text) (o : Option FuncRef)
      → AllCallable
      → contains names name ≡ false
      → FoundRef name o
      → o ≡ none
  unfolding AllCallable
  unnamed name none all h k = refl
  unnamed name (some f) all h (func, r, e) =
      let c = (all f func r).2 in let same = text_eq-eq func.name name e in absurd (cc)

  module _ (id : ℕ) (debug : Debug) where
    -- An identifier that is no function's name
    pub identifier-Gives :
        (n : ℕ) (ident : Token) (o : Option VarStore) (s : State)
        → AllCallable
        → contains names ident.lex ≡ false
        → ScalarVar o
        → Ready n s
        → Gives (GoodTree n) (local_or_function modules id debug ident o s)
    unfolding GoodTree HasScalar typ get_type
    identifier-Gives n ident (some v) s all c h r = gives _ s ((v.ty, refl, h), r)
    identifier-Gives n ident none s all c h r =
        rw (unnamed ident.lex _ all c (find_function-FoundRef id ident.lex)) (
          then-Gives n (err ident.start (Token.e503 ident.lex)) poison_expr s (Ty.poison, refl, tt)
            (err-Gives n ident.start (Token.e503 ident.lex) s r))

    -- The type of what is called: no reference, or one to a function
    abbrev pub CalleeTy : Ty → Type 0
    CalleeTy (Ty.function f) = (func : Function) × (resolve modules f ≡ some func)
    CalleeTy ty = IsScalar ty

    unfoldable pub Callee : ℕ → Expr → State → Type 0
    Callee n e s = ((ty : Ty) × (typ e ≡ some ty) × CalleeTy ty) × Ready n s

    CalleeTy-scalar : (ty : Ty) → IsScalar ty → CalleeTy ty
    CalleeTy-scalar Ty.void h = h
    CalleeTy-scalar Ty.poison h = h
    CalleeTy-scalar Ty.bool h = h
    CalleeTy-scalar Ty.i64 h = h
    CalleeTy-scalar Ty.f64 h = h
    CalleeTy-scalar (Ty.function f) h = absurd h
    CalleeTy-scalar (Ty.class_ c) h = h

    -- An identifier that is called
    pub found-Gives :
        (n : ℕ) (ident : Token) (o : Option VarStore) (s : State)
        → ScalarVar o
        → Ready n s
        → Gives (Callee n) (local_or_function modules id debug ident o s)
    unfolding Callee typ get_type err Ready
    found-Gives n ident (some v) s h r = gives _ s ((v.ty, refl, CalleeTy-scalar v.ty h), r)
    found-Gives n ident none s h r =
        found (find_function modules id ident.lex) (find_function-FoundRef id ident.lex)
      where
        found :
            (o : Option FuncRef)
            → FoundRef ident.lex o
            → Gives (Callee n) (function_or_poison modules id debug ident o s)
        found none k = gives poison_expr _ ((Ty.poison, refl, tt), r)
        found (some f) k =
            gives (new (constant (Constant.function f))) s ((Ty.function f, refl, (k.0, k.1)), r)

    pub lift_called-Gives :
        (e : Expr) (s : State)
        → (ty : Ty) × (typ e ≡ some ty) × CalleeTy ty
        → Gives (λ ty t. (t ≡ s) × CalleeTy ty) (lift (typ e) s)
    lift_called-Gives e s (ty, h, k) = rw h (gives ty s (refl, k))

    uncalled-Gives :
        (n start : ℕ) (callee : Expr) (ty : Ty) (compile_args : Compile Exprs) (s : State)
        → IsScalar ty
        → Ready n s
        → Gives (GoodTree n) (call_or_poison modules id debug start callee ty compile_args none s)
    unfolding call_or_poison HasScalar typ get_type
    uncalled-Gives n start callee ty compile_args s k r =
        then-Gives n (err_type modules id debug start ty Token.e506) poison_expr s
          (Ty.poison, refl, tt) (err_type-Gives modules id debug n start ty Token.e506 s k r)

    pub call-Gives :
        (n start : ℕ) (callee : Expr) (ty : Ty) (compile_args : Compile Exprs) (s : State)
        → AllCallable
        → CalleeTy ty
        → Ready n s
        → Gives (GoodTrees n) (compile_args s)
        → Gives
            (GoodTree n)
            (call_or_poison modules id debug start callee ty compile_args (into_fn ty) s)
    unfolding call_or_poison call_function AllCallable GoodTrees GoodTree HasScalar typ get_type
        into_fn
    call-Gives n start callee Ty.void compile_args s all k r a =
        uncalled-Gives n start callee Ty.void compile_args s k r
    call-Gives n start callee Ty.poison compile_args s all k r a =
        uncalled-Gives n start callee Ty.poison compile_args s k r
    call-Gives n start callee Ty.bool compile_args s all k r a =
        uncalled-Gives n start callee Ty.bool compile_args s k r
    call-Gives n start callee Ty.i64 compile_args s all k r a =
        uncalled-Gives n start callee Ty.i64 compile_args s k r
    call-Gives n start callee Ty.f64 compile_args s all k r a =
        uncalled-Gives n start callee Ty.f64 compile_args s k r
    call-Gives n start callee (Ty.class_ c) compile_args s all k r a = absurd k
    call-Gives n start callee (Ty.function f) compile_args s all (func, e) r a =
        let known = all f func e in
        rw e (
          Gives-bind a λ args t q.
            Gives-bind
              (err_if-Gives n (not (nat_beq (count args) (length func.params))) start _ t q.1)
              λ u t₁ r₁.
                Gives-bind
                  (check_args-Gives modules id debug n start 0 args func.params t₁ q.0 known.0 r₁)
                  λ u' t₂ r₂.
                    gives (with_typ (call callee args) func.ret_type) t₂
                      ((func.ret_type, refl, known.1), r₂))
