-- ===== src/Lang/Token.antt =====
-- lang/src/lexer.rs and lang/src/error.rs: tokens, their binding powers, and the errors.
-- The lexer itself is generated by the `logos` crate; a lexed file enters as its list of tokens.
use yacuri.Base.{
  ℕ, Bool, true, false, Option, none, some, List, [], ◌∷◌, ◌==◌ as nat_beq, ◌≡◌, refl, get_or,
  ==_iff, ap, ◌∙◌, sym,
}

-- A text is the list of its bytes.
abbrev pub Text : Type 0
Text = List ℕ

-- `TKind`
pub data TKind : Type 0 where
  left_paren right_paren left_bracket right_bracket left_brace right_brace : TKind
  tilde comma dot minus plus semicolon colon colon_colon slash star arrow question_mark : TKind
  bang bang_equal equal equal_equal greater greater_equal less less_equal : TKind
  identifier string int float : TKind
  and_kw break_kw class_kw else_kw enum_kw extern_kw false_kw for_kw fun_kw if_kw import_kw : TKind
  in_kw interface_kw is_kw null_kw or_kw return_kw static_kw true_kw var_kw val_kw : TKind
  when_kw while_kw comment whitespace newline error : TKind

-- `#[derive(PartialEq)]` on `TKind` compares discriminants.
abbrev pub discriminant : TKind → ℕ
discriminant left_paren = 0
discriminant right_paren = 1
discriminant left_bracket = 2
discriminant right_bracket = 3
discriminant left_brace = 4
discriminant right_brace = 5
discriminant tilde = 6
discriminant comma = 7
discriminant dot = 8
discriminant minus = 9
discriminant plus = 10
discriminant semicolon = 11
discriminant colon = 12
discriminant colon_colon = 13
discriminant slash = 14
discriminant star = 15
discriminant arrow = 16
discriminant question_mark = 17
discriminant bang = 18
discriminant bang_equal = 19
discriminant equal = 20
discriminant equal_equal = 21
discriminant greater = 22
discriminant greater_equal = 23
discriminant less = 24
discriminant less_equal = 25
discriminant identifier = 26
discriminant string = 27
discriminant int = 28
discriminant float = 29
discriminant and_kw = 30
discriminant break_kw = 31
discriminant class_kw = 32
discriminant else_kw = 33
discriminant enum_kw = 34
discriminant extern_kw = 35
discriminant false_kw = 36
discriminant for_kw = 37
discriminant fun_kw = 38
discriminant if_kw = 39
discriminant import_kw = 40
discriminant in_kw = 41
discriminant interface_kw = 42
discriminant is_kw = 43
discriminant null_kw = 44
discriminant or_kw = 45
discriminant return_kw = 46
discriminant static_kw = 47
discriminant true_kw = 48
discriminant var_kw = 49
discriminant val_kw = 50
discriminant when_kw = 51
discriminant while_kw = 52
discriminant comment = 53
discriminant whitespace = 54
discriminant newline = 55
discriminant error = 56

infix 50 ◌==◌
abbrev pub ◌==◌ : TKind → TKind → Bool
j == k = nat_beq (discriminant j) (discriminant k)

all_kinds : List TKind
all_kinds =
    left_paren ∷ right_paren ∷ left_bracket ∷ right_bracket ∷ left_brace ∷ right_brace ∷ tilde
    ∷ comma ∷ dot ∷ minus ∷ plus ∷ semicolon ∷ colon ∷ colon_colon ∷ slash ∷ star ∷ arrow
    ∷ question_mark ∷ bang ∷ bang_equal ∷ equal ∷ equal_equal ∷ greater ∷ greater_equal ∷ less
    ∷ less_equal ∷ identifier ∷ string ∷ int ∷ float ∷ and_kw ∷ break_kw ∷ class_kw ∷ else_kw
    ∷ enum_kw ∷ extern_kw ∷ false_kw ∷ for_kw ∷ fun_kw ∷ if_kw ∷ import_kw ∷ in_kw ∷ interface_kw
    ∷ is_kw ∷ null_kw ∷ or_kw ∷ return_kw ∷ static_kw ∷ true_kw ∷ var_kw ∷ val_kw ∷ when_kw
    ∷ while_kw ∷ comment ∷ whitespace ∷ newline ∷ error ∷ []

kind_at-discriminant : (k : TKind) → get_or all_kinds (discriminant k) error ≡ k
unfolding all_kinds
kind_at-discriminant left_paren = refl
kind_at-discriminant _ = refl

pub ==→eq : (j k : TKind) → (j == k) ≡ true → j ≡ k
==→eq j k h =
    sym (kind_at-discriminant j)
    ∙ ap (λ n. get_or all_kinds n error) ((==_iff (discriminant j) (discriminant k)).0 h)
    ∙ kind_at-discriminant k

-- `Token`
pub record Token : Type 0 where
  pub kind : TKind
  pub lex : Text
  pub start : ℕ

-- `TKind::infix_binding_power`
unfoldable pub infix_binding_power : TKind → Option (ℕ × ℕ)
infix_binding_power equal = some (6, 5)
infix_binding_power or_kw = some (10, 9)
infix_binding_power and_kw = some (12, 11)
infix_binding_power bang_equal = some (14, 13)
infix_binding_power equal_equal = some (14, 13)
infix_binding_power less = some (16, 15)
infix_binding_power less_equal = some (16, 15)
infix_binding_power greater = some (16, 15)
infix_binding_power greater_equal = some (16, 15)
infix_binding_power plus = some (16, 15)
infix_binding_power minus = some (16, 15)
infix_binding_power star = some (18, 17)
infix_binding_power slash = some (18, 17)
infix_binding_power is_kw = some (20, 19)
infix_binding_power _ = none

-- `TKind::prefix_binding_power`
unfoldable pub prefix_binding_power : TKind → Option ℕ
prefix_binding_power minus = some 30
prefix_binding_power bang = some 30
prefix_binding_power _ = none

-- `TKind::is_binary_logic`
unfoldable pub is_binary_logic : TKind → Bool
is_binary_logic equal_equal = true
is_binary_logic bang_equal = true
is_binary_logic less = true
is_binary_logic less_equal = true
is_binary_logic greater = true
is_binary_logic greater_equal = true
is_binary_logic and_kw = true
is_binary_logic or_kw = true
is_binary_logic _ = false

-- `ErrorKind`; the texts of E500 to E508 are rendered types.
pub data ErrorKind : Type 0 where
  e100 : (expected found : TKind) → ErrorKind
  e101 e102 : ErrorKind
  e200 e201 : Text → ErrorKind
  e500 : (left right : Text) → ErrorKind
  e501 : (op ty : Text) → ErrorKind
  e502 : ErrorKind
  e503 e504 : Text → ErrorKind
  e505 : ErrorKind
  e506 : Text → ErrorKind
  e507 : (expected found : ℕ) → ErrorKind
  e508 : (expected found : Text) → ℕ → ErrorKind

-- `Error`; the record takes another name beside the kind `error`.
pub record SourceError : Type 0 where
  pub kind : ErrorKind
  pub start : ℕ

abbrev pub error_at : ℕ → ErrorKind → SourceError
error_at start kind = record { kind = kind; start = start }
