-- ===== src/Lang/Parser/Tests.antt =====
-- The parser on small inputs, and its theorems at concrete inputs.
use yacuri.Base.{ℕ, ◌≡◌, ◌≢◌, refl, Option, none, some, List, [], ◌∷◌, arith, pos}
use yacuri.Lang.Token.{
  Text, TKind, Token, error_at, e102, fun_kw, identifier, int, left_paren, right_paren, left_brace,
  right_brace, minus, star, plus, infix_binding_power, prefix_binding_power,
}
use yacuri.Lang.Ast.{expr, EExpr, nil, cons, Literal}
use yacuri.Lang.Parser.State.{
  Parser, ok, step, advance, consume, matches, synchronize, i64_from_str,
}
use yacuri.Lang.Parser.Expr.{expression}
use yacuri.Lang.Parser.Decl.{
  module_, ran_out, parse, parse_loop, function, params, ret_type, make_fn, declaration,
}
use yacuri.Lang.Parser.Budget.{Costs}
use yacuri.Lang.Parser.Fuel.{expression_fits}
use yacuri.Lang.Parser.Total.{parse-ne-ran_out}
use yacuri.Lang.Parser.Grouping.{
  Operand, at_chain, at_rest, right_nested, left_nested, operand_expr, expression-right_nested,
  expression-two_operators,
}
use yacuri.Lang.Parser.Recovery.{live, live-synchronize, parse_loop-skips_fun}

abbrev no_floats : Text → Option ℕ
no_floats t = none

abbrev token : TKind → Text → ℕ → Token
token kind lex start = record { kind = kind; lex = lex; start = start }

abbrev operand : ℕ → ℕ → Operand
operand name start = record { lex = name ∷ []; start = start }

-- fun main ( ) { 12 }
abbrev main_tokens : List Token
main_tokens =
    token fun_kw [] 0
    ∷ token identifier (b'm' ∷ []) 4
    ∷ token left_paren [] 8
    ∷ token right_paren [] 9
    ∷ token left_brace [] 11
    ∷ token int (b'1' ∷ b'2' ∷ []) 13
    ∷ token right_brace [] 16
    ∷ []

main_parses :
    parse no_floats [] main_tokens
    ≡ module_ (record {
      path = [];
      functions =
          (record {
            name = token identifier (b'm' ∷ []) 4;
            params = [];
            ret_type = none;
            body =
                some (
                  expr
                    (EExpr.block (cons (expr (EExpr.literal (Literal.int (pos 12))) 13) nil))
                    11);
          })
          ∷ [];
      classes = [];
    })
unfolding parse parse_loop declaration make_fn function params ret_type expression step advance
    consume matches i64_from_str infix_binding_power prefix_binding_power
main_parses = refl

parse-ne-ran_out_example : parse no_floats [] main_tokens ≢ ran_out
parse-ne-ran_out_example = parse-ne-ran_out no_floats [] main_tokens

-- a - b - c, before `}`
abbrev differences : List (Token × Operand)
differences = (token minus [] 2, operand b'b' 4) ∷ (token minus [] 6, operand b'c' 8) ∷ []

expression-right_nested_example :
    expression no_floats 9 (at_chain (operand b'a' 0) differences (token right_brace [] 10 ∷ []) [])
    ≡ ok (right_nested (operand b'a' 0) differences) (at_rest (token right_brace [] 10) [] [])
unfolding infix_binding_power
expression-right_nested_example =
    expression-right_nested no_floats (token right_brace [] 10) [] [] (refl, refl) 9 16 15
      (operand b'a' 0) differences (omega arith) (refl, (refl, tt)) (omega arith)

-- a * b + c groups to the left, since the 16 of `+` falls short of the 17 of `*`
expression-two_operators_example :
    expression no_floats 9 (
      at_chain
        (operand b'a' 0)
        ((token star [] 2, operand b'b' 4) ∷ (token plus [] 6, operand b'c' 8) ∷ [])
        (token right_brace [] 10 ∷ [])
        [])
    ≡ ok
        (left_nested
          (operand_expr (operand b'a' 0))
          ((token star [] 2, operand b'b' 4) ∷ (token plus [] 6, operand b'c' 8) ∷ []))
        (at_rest (token right_brace [] 10) [] [])
unfolding infix_binding_power
expression-two_operators_example =
    expression-two_operators no_floats (token right_brace [] 10) [] [] (refl, refl) 9 18 17 16 15
      (operand b'a' 0) (operand b'b' 4) (operand b'c' 8) (token star [] 2) (token plus [] 6) refl
      refl (omega arith)

expression_fits_example : Costs 1 2 (
    expression no_floats 27 (record {
      lexer = token right_brace [] 1 ∷ [];
      current = token int (b'1' ∷ []) 0;
      errors = [];
    }))
expression_fits_example =
    expression_fits no_floats 27
      (record {
        lexer = token right_brace [] 1 ∷ [];
        current = token int (b'1' ∷ []) 0;
        errors = [];
      })
      (omega arith)

-- } fun x
abbrev broken : Parser
broken = record {
  lexer = token fun_kw [] 2 ∷ token identifier (b'x' ∷ []) 6 ∷ [];
  current = token right_brace [] 0;
  errors = [];
}

live-synchronize_example : live (synchronize broken) ≡ token identifier (b'x' ∷ []) 6 ∷ []
live-synchronize_example = live-synchronize broken

parse_loop-skips_fun_example :
    parse_loop no_floats 5 ([], []) broken
    ≡ parse_loop no_floats 4
        ([], [])
        (record {
          lexer = [];
          current = token identifier (b'x' ∷ []) 6;
          errors = error_at 2 e102 ∷ [];
        })
parse_loop-skips_fun_example =
    parse_loop-skips_fun no_floats 4 ([], []) (token right_brace [] 0) (token fun_kw [] 2)
      (token identifier (b'x' ∷ []) 6) [] [] refl refl refl refl refl
