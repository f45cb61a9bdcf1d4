-- ===== src/Lang/Compiler/ExprCompiler/JudgedCalls.antt =====
-- lang/src/compiler/module/expr_compiler.rs: a call gives a well-typed tree where its parts are, unless it
-- reports something.
use yacuri.Base.{
  ℕ, suc, ◌≤◌, ◌≡◌, refl, ap, subst, ◌∙◌, not, Option, none, some, List, [], ◌∷◌, length, arith,
  ==_iff,
}
use yacuri.Lang.Token.{e506}
use yacuri.Lang.Compiler.Ir.{
  poison_expr, FuncRef, Ty, ◌==◌, into_fn, VarStore, Expr, Exprs, nil, cons, typ, Function, Module,
  resolve,
}
use yacuri.Lang.Compiler.ExprCompiler.{
  Debug, err_type, State, Compile, lift, check_args, call_function, call_or_poison, count, ◌>>=◌,
}
use yacuri.Lang.Compiler.ExprCompiler.Checked.{
  Checked, Checked-bind, Checked-pure, lift-Checked, err_if-Checked, err_type-Checked,
  err_types-Checked, when-Checked,
}
use yacuri.Lang.Compiler.ExprCompiler.Typing.{
  Typed, AllTyped, Args, typ-Typed, Typed-unique, ==→eq, variable_typed, constant_typed,
}
use yacuri.Lang.Compiler.ExprCompiler.Typing
use yacuri.Lang.Compiler.ExprCompiler.Judged.{
  HasTy, EachTyped, Checked-map, then-Checked, of_into_fn, unnegate,
}

module _ (modules : List Module) (id : ℕ) (debug : Debug) where
  check_args-Checked :
      {n : ℕ} (start i : ℕ) (args : Exprs) (params : List VarStore) (s : State)
      → n ≤ length s.reported
      → (length s.reported ≤ n → EachTyped modules id debug args)
      → Checked
          (λ u. count args ≡ length params → Args modules args params)
          n
          s
          (check_args modules id debug start i args params s)
  unfolding check_args
  check_args-Checked start i nil [] s h a = Checked-pure _ s λ k e. Typing.no_args
  check_args-Checked start i nil (p ∷ ps) s h a = Checked-pure _ s λ k e. absurd (omega arith)
  check_args-Checked start i (cons arg args) [] s h a = Checked-pure _ s λ k e. absurd (omega arith)
  check_args-Checked start i (cons arg args) (p ∷ ps) s h a =
      Checked-bind (lift-Checked (typ arg) s) λ ty s₁ l₁ q₁.
        Checked-bind
          (when-Checked (not (ty == p.ty)) _ s₁
            (err_types-Checked modules debug id start p.ty ty _ s₁ (omega (arith, l₁.kept))))
          λ u s₂ l₂ q₂.
            Checked-map
              (check_args-Checked start (suc i) args ps s₂ (omega (arith, l₁.kept, l₂.kept))
                (λ k. (a (omega (arith, l₁.kept, l₂.kept))).1))
              λ u' k q e.
                Typing.arg arg args p ps
                  (Typed-unique modules (a (omega (arith, l₁.kept, l₂.kept))).0.1
                    (q₁ (omega (arith, l₂.kept)) ∙ ap some (==→eq ty p.ty (unnegate (q₂ k)))))
                  (q (omega arith))

  call_function-Checked :
      {n : ℕ} (start : ℕ) (callee : Expr) (compile_args : Compile Exprs) (f : FuncRef)
      (func : Function) (s : State)
      → n ≤ length s.reported
      → (length s.reported ≤ n → Typed modules callee (Ty.function f))
      → resolve modules f ≡ some func
      → Checked (EachTyped modules id debug) n s (compile_args s)
      → Checked
          (HasTy modules id debug)
          n
          s
          (call_function modules id debug start callee compile_args func s)
  unfolding call_function
  call_function-Checked start callee compile_args f func s h c r a = Checked-bind a λ args s₁ l₁ q₁.
      Checked-bind (err_if-Checked _ _ _ s₁ (omega (arith, l₁.kept))) λ u s₂ l₂ q₂.
        Checked-bind
          (check_args-Checked start 0 args func.params s₂ (omega (arith, l₁.kept, l₂.kept))
            (λ k. q₁ (omega (arith, l₂.kept))))
          λ u' s₃ l₃ q₃. Checked-pure _ s₃ λ k. (
            func.ret_type,
            Typing.called callee args f func (c (omega (arith, l₁.kept, l₂.kept, l₃.kept))) r
                (q₃ k ((==_iff _ _).0 (unnegate (q₂ (omega (arith, l₃.kept)))))),
          )

  pub call_or_poison-Checked :
      {n : ℕ} (start : ℕ) (callee : Expr) (ty : Ty) (compile_args : Compile Exprs)
      (o : Option FuncRef) (s : State)
      → into_fn ty ≡ o
      → n ≤ length s.reported
      → (length s.reported ≤ n → Typed modules callee ty)
      → Checked (EachTyped modules id debug) n s (compile_args s)
      → Checked
          (HasTy modules id debug)
          n
          s
          (call_or_poison modules id debug start callee ty compile_args o s)
  unfolding call_or_poison
  call_or_poison-Checked start callee ty compile_args none s e h c a =
      then-Checked (err_type modules id debug start ty e506) poison_expr s
        (err_type-Checked modules debug id start ty e506 s h)
  call_or_poison-Checked {n} start callee ty compile_args (some f) s e h c a =
      resolved (resolve modules f) refl
    where
      resolved :
          (o : Option Function)
          → resolve modules f ≡ o
          → Checked
              (HasTy modules id debug)
              n
              s
              ((lift o >>= call_function modules id debug start callee compile_args) s)
      resolved none r = Checked.panicked
      resolved (some func) r =
          call_function-Checked start callee compile_args f func s h
            (λ k. subst (Typed modules callee) (of_into_fn ty f e) (c k)) r a
