-- ===== src/Lang/Compiler/Pass.antt =====
-- lang/src/compiler/module/passes/mod.rs, resolver.rs and mod.rs beside it: the state of a pass over one
-- module, its outcomes, and the changes that passes make. The module stands behind a `RefCell`, whose
-- shared borrows are counted: `borrow_mut` panics where one is out.
use yacuri.Base.{
  ℕ, zero, suc, ◌-◌, Option, none, some, List, [], ◌∷◌, ◌++◌, if◌then◌else◌, ◌==◌ as nat_beq,
}
use yacuri.Lang.Token.{Text, Token, SourceError, error_at, e200}
use yacuri.Lang.Ast as Ast
use yacuri.Lang.Compiler.Ir.{
  Ty, VarStore, poison_expr, Function, ClassContent, Class, Module, text_eq, try_reserve_name,
}

-- `ModuleCompiler`, with the number of the shared borrows of its module that are out.
pub record State : Type 0 where
  pub module_ : Module
  pub borrows : ℕ
  pub errors : List SourceError

-- `Res<A>`, or a panic.
pub data Outcome (A : Type 0) : Type 0 where
  done : A → State → Outcome A
  failed : SourceError → State → Outcome A
  panicked : Outcome A

abbrev pub Pass : Type 0 → Type 0
Pass A = State → Outcome A

abbrev pub bind : {A B : Type 0} → Outcome A → (A → Pass B) → Outcome B
bind (done a st) f = f a st
bind (failed e st) f = failed e st
bind panicked f = panicked

abbrev pub pure : {A : Type 0} → A → Pass A
pure a st = done a st

module _ {A B : Type 0} where
  infixl 1 ◌>>=◌ ◌>>◌
  abbrev pub ◌>>=◌ : Pass A → (A → Pass B) → Pass B
  m >>= f = λ st. bind (m st) f

  abbrev pub ◌>>◌ : Pass A → Pass B → Pass B
  m >> k = m >>= λ _. k

-- `self.module.borrow_mut()` for as long as a pass runs.
abbrev pub borrow_mut : {A : Type 0} → Pass A → Pass A
borrow_mut m st = if nat_beq st.borrows 0 then m st else panicked

abbrev pub release : {A : Type 0} → Outcome A → Outcome A
release (done a st) = done a (record st { borrows = st.borrows - 1 })
release (failed e st) = failed e (record st { borrows = st.borrows - 1 })
release panicked = panicked

-- `module.borrow()` for as long as a pass runs.
abbrev pub borrowing : {A : Type 0} → Pass A → Pass A
borrowing m st = release (m (record st { borrows = suc st.borrows }))

abbrev pub bool_name : Text
bool_name = b'b' ∷ b'o' ∷ b'o' ∷ b'l' ∷ []

abbrev pub i64_name : Text
i64_name = b'i' ∷ b'6' ∷ b'4' ∷ []

abbrev pub f64_name : Text
f64_name = b'f' ∷ b'6' ∷ b'4' ∷ []

abbrev pub bump : Option ℕ → Option ℕ
bump none = none
bump (some i) = some (suc i)

-- `classes.iter().position(|cls| cls.name == *name)`
abbrev pub position : List Class → Text → Option ℕ
position [] name = none
position (c ∷ cs) name = if text_eq c.name name then some 0 else bump (position cs name)

abbrev pub class_at : (id : ℕ) (name : Text) (pos : ℕ) → Option ℕ → Pass Ty
class_at id name pos none st = failed (error_at pos (e200 name)) st
class_at id name pos (some index) st = done (Ty.class_ (record { module_ = id; index = index })) st

abbrev pub find_class : (id : ℕ) (name : Text) (pos : ℕ) → Pass Ty
find_class id name pos st = class_at id name pos (position st.module_.classes name) st

abbrev pub reserved : Option SourceError × Module → Pass Unit
reserved (none, module_) st = done tt (record st { module_ = module_ })
reserved (some e, module_) st = failed e (record st { module_ = module_ })

abbrev pub reserve : Token → Pass Unit
reserve name st = reserved (try_reserve_name name.lex name.start st.module_) st

abbrev pub set_module : Module → Pass Unit
set_module module_ st = done tt (record st { module_ = module_ })

abbrev pub push_class : Class → Pass Unit
push_class cls st = set_module (record st.module_ { classes = st.module_.classes ++ cls ∷ [] }) st

abbrev pub push_func : Function → Pass Unit
push_func func st = set_module (record st.module_ { funcs = st.module_.funcs ++ func ∷ [] }) st

-- `mem::replace(&mut self.module.borrow_mut().ast.classes, Vec::new())`
abbrev pub take_classes : Pass (List Ast.Class)
take_classes st =
    done st.module_.ast.classes
      (record st { module_ = record st.module_ { ast = record st.module_.ast { classes = [] } } })

abbrev pub take_functions : Pass (List Ast.Function)
take_functions st =
    done st.module_.ast.functions
      (record st { module_ = record st.module_ { ast = record st.module_.ast { functions = [] } } })

-- `IndexMap::insert`: a key that is there keeps its place.
abbrev pub insert : Text → ClassContent → List (Text × ClassContent) → List (Text × ClassContent)
insert name c [] = (name, c) ∷ []
insert name c ((n, d) ∷ rest) =
    let more = (n, d) ∷ insert name c rest in if text_eq n name then (n, c) ∷ rest else more

abbrev pub on_class : (Class → Class) → List Class → ℕ → List Class
on_class f [] i = []
on_class f (c ∷ cs) zero = f c ∷ cs
on_class f (c ∷ cs) (suc i) = c ∷ on_class f cs i

-- A change of the `i`-th class through the `RefCell`s inside it.
abbrev pub change_class : ℕ → (Class → Class) → Pass Unit
change_class i f st =
    set_module (record st.module_ { classes = on_class f st.module_.classes i }) st

abbrev pub insert_content : ℕ → Text → ClassContent → Pass Unit
insert_content i name c = change_class i (λ cls. record cls { content = insert name c cls.content })

abbrev pub new_class : Ast.Class → Class
new_class cls = record { name = cls.name.lex; content = []; ast = cls }

abbrev pub new_function : Ast.Function → List VarStore → Ty → Function
new_function func params ret_type = record {
  name = func.name.lex;
  params = params;
  ret_type = ret_type;
  locals = [];
  body = poison_expr;
  ast = func;
}
