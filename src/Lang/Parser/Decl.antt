-- ===== src/Lang/Parser/Decl.antt =====
-- lang/src/parser/mod.rs: declarations, and the loop over a file with its error recovery.
use yacuri.Base.{
  ℕ, zero, suc, ◌+◌, ◌*◌, Bool, true, false, Option, none, some, List, [], ◌∷◌, ◌++◌, if◌then◌else◌,
  length,
}
use yacuri.Lang.Token.{
  Text, TKind, ◌==◌, Token, SourceError, error_at, e102, identifier, left_paren, right_paren,
  left_brace, right_brace, colon, comma, arrow, class_kw, extern_kw, fun_kw, static_kw, val_kw,
  var_kw,
}
use yacuri.Lang.Ast.{TypeName, Parameter, Function, Member, Class, Module}
use yacuri.Lang.Parser.State.{
  Parser, Run, ok, err, panic, out_of_fuel, Parse, pure, ◌>>=◌, ◌>>◌, run, check, is_at_end,
  advance, consume, matches, synchronize,
}
use yacuri.Lang.Parser.Expr.{expression}

unfoldable pub typ : Parse TypeName
typ = do name ← consume identifier; pure (record { name = name })

unfoldable pub member : Bool → Parse Member
member is_mutable = do
  name ← consume identifier
  consume colon
  ty ← typ
  pure (record { name = name; ty = ty; is_mutable = is_mutable })

unfoldable pub parameter : Parse Parameter
parameter = do
  name ← consume identifier
  consume colon
  ty ← typ
  pure (record { name = name.lex; ty = ty })

-- `loop { …; params.push(…); if !self.matches(Comma) { break; } }`
unfoldable pub param_list : ℕ → Parse (List Parameter)
param_list zero p = out_of_fuel
param_list (suc f) p = run p do
  param ← parameter
  more ← matches comma
  params ← if more then param_list f else pure []
  pure (param ∷ params)

unfoldable pub params : ℕ → Parse (List Parameter)
params f p = if check right_paren p then ok [] p else param_list f p

unfoldable pub ret_type : Parse (Option TypeName)
ret_type = do given ← matches arrow; if given then typ >>= (λ ty. pure (some ty)) else pure none

-- What the loop of `class` has pushed so far.
pub record Parts : Type 0 where
  pub members : List Member
  pub methods : List Function
  pub functions : List Function

abbrev pub no_parts : Parts
no_parts = record { members = []; methods = []; functions = [] }

abbrev pub add_member : Parts → Member → Parts
add_member parts m = record parts { members = parts.members ++ m ∷ [] }

abbrev pub add_method : Parts → Function → Parts
add_method parts g = record parts { methods = parts.methods ++ g ∷ [] }

abbrev pub add_function : Parts → Function → Parts
add_function parts g = record parts { functions = parts.functions ++ g ∷ [] }

abbrev pub push_error : SourceError → Parser → Parser
push_error e p = record p { errors = p.errors ++ e ∷ [] }

-- `make_cls` and `make_fn`: push what was read, or the error, and then skip ahead.
abbrev pub recover {ℓ} : {A : Type ℓ} → Run A → List A → Run (List A)
recover (ok a p) as_ = ok (as_ ++ a ∷ []) p
recover (err e p) as_ = ok as_ (synchronize (push_error e p))
recover panic as_ = panic
recover out_of_fuel as_ = out_of_fuel

-- The functions and classes read so far.
abbrev pub Read : Type 0
Read = List Function × List Class

-- `Result<Module, Errors>`, with the two outcomes that are no result.
pub data Parsed : Type 0 where
  module_ : Module → Parsed
  failed : List SourceError → Parsed
  panicked ran_out : Parsed

abbrev pub finish : List Text → Run Read → Parsed
finish path (ok (fns, cls) p) = elim p.errors [
  | [] ↦ module_ (record { path = path; functions = fns; classes = cls })
  | e ∷ es ↦ failed (e ∷ es)
]
finish path (err e p) = failed (e ∷ [])
finish path panic = panicked
finish path out_of_fuel = ran_out

abbrev pub new_parser : Token → List Token → Parser
new_parser t ts = record { lexer = ts; current = t; errors = [] }

-- The last arm of the loop of `class`.
unfoldable pub unexpected_item : Parse Parts
unexpected_item p = err (error_at p.current.start e102) p

-- The last arm of the loop of `parse`.
unfoldable pub unexpected : Read → Parse Read
unexpected read p = ok read (synchronize (push_error (error_at p.current.start e102) p))

module _ (f64_from_str : Text → Option ℕ) where
  unfoldable pub function : ℕ → Bool → Parse Function
  function f is_ext = do
    name ← consume identifier
    consume left_paren
    ps ← params f
    consume right_paren
    ret ← ret_type
    body ← if is_ext then pure none else (expression f64_from_str f >>= λ e. pure (some e))
    pure (record { name = name; params = ps; ret_type = ret; body = body })

  -- `Static if self.matches(Fun)`, whose failed guard falls to the last arm
  unfoldable pub static_item : ℕ → Parts → Parse Parts
  static_item f parts = do
    fun ← matches fun_kw
    if fun then (function f false >>= λ g. pure (add_function parts g)) else unexpected_item

  -- One round of the loop of `class`, behind the token that it has advanced over.
  unfoldable pub class_item : ℕ → TKind → Parts → Parse Parts
  class_item f kind parts =
      if kind == val_kw
      then (member false >>= λ m. pure (add_member parts m))
      else if kind == var_kw
      then (member true >>= λ m. pure (add_member parts m))
      else if kind == fun_kw
      then (function f false >>= λ g. pure (add_method parts g))
      else if kind == static_kw
      then static_item f parts
      else unexpected_item

  -- `while !self.check(RightBrace) { match self.advance().kind { … } }`
  unfoldable pub class_loop : ℕ → Parts → Parse Parts
  class_loop zero parts p = out_of_fuel
  class_loop (suc f) parts p =
      let more = run p do t ← advance; parts' ← class_item f t.kind parts; class_loop f parts'
      in if check right_brace p then ok parts p else more

  unfoldable pub class : ℕ → Parse Class
  class f = do
    name ← consume identifier
    consume left_brace
    parts ← class_loop f no_parts
    consume right_brace
    pure (record {
      name = name;
      members = parts.members;
      methods = parts.methods;
      functions = parts.functions;
    })

  unfoldable pub make_cls : ℕ → List Class → Parse (List Class)
  make_cls f cls p = recover (class f p) cls

  unfoldable pub make_fn : ℕ → List Function → Bool → Parse (List Function)
  make_fn f functions is_ext p = recover (function f is_ext p) functions

  -- `Extern if self.matches(Fun)`, whose failed guard falls to the last arm
  unfoldable pub extern_item : ℕ → Read → Parse Read
  extern_item f (fns, cls) = do
    fun ← matches fun_kw
    if fun then (make_fn f fns true >>= λ fns'. pure (fns', cls)) else unexpected (fns, cls)

  -- One round of the loop of `parse`, behind the token that it has advanced over.
  unfoldable pub declaration : ℕ → TKind → Read → Parse Read
  declaration f kind (fns, cls) =
      if kind == class_kw
      then (make_cls f cls >>= λ cls'. pure (fns, cls'))
      else if kind == fun_kw
      then (make_fn f fns false >>= λ fns'. pure (fns', cls))
      else if kind == extern_kw
      then extern_item f (fns, cls)
      else unexpected (fns, cls)

  -- `while !self.is_at_end() { match self.advance().kind { … } }`
  unfoldable pub parse_loop : ℕ → Read → Parse Read
  parse_loop zero read p = out_of_fuel
  parse_loop (suc f) read p =
      let more = run p do t ← advance; read' ← declaration f t.kind read; parse_loop f read'
      in if is_at_end p then ok read p else more

  -- `Parser::new(src).parse(path)`: a file without a token makes `new` panic.
  unfoldable pub parse : List Text → List Token → Parsed
  parse path [] = panicked
  parse path (t ∷ ts) =
      finish path (parse_loop (10 * length (t ∷ ts) + 10) ([], []) (new_parser t ts))
