-- ===== src/Kernel/Shell/Command.antt =====
-- kernel/src/shell/command.rs: from the words of a line to a command. The lexer is generated by the
-- crate logos; a lexed line is the list of its tokens, each with its slice.
use yacuri.Base.{ℕ, ◌-◌, Option, none, some, List, [], ◌∷◌, length, take, drop}

abbrev pub Slice : Type 0
Slice = List ℕ

pub data Token : Type 0 where
  ls cat cd mkdir put exec exit word path quote int float error : Token

pub data Command : Type 0 where
  ls : (directory : Option Slice) → Command
  cat cd mkdir exec : Slice → Command
  put : (file text : Slice) → Command
  exit : Command

-- The messages of `Command::from`, before they are formatted.
pub data CommandError : Type 0 where
  expected_command : (slice : Slice) (found : Token) → CommandError
  expected_path : (slice : Slice) → CommandError

-- A result, beside the tokens that the lexer has left.
pub data Parsed (A : Type 0) : Type 0 where
  ok : A → List (Token × Slice) → Parsed A
  err : CommandError → Parsed A

-- `lexer.slice()[1..lexer.slice().len() - 1]`
abbrev pub unquoted : Slice → Slice
unquoted s = take (length s - 2) (drop 1 s)

unfoldable pub path_arg : List (Token × Slice) → Parsed Slice
path_arg ((Token.word, s) ∷ rest) = ok s rest
path_arg ((Token.path, s) ∷ rest) = ok s rest
path_arg ((Token.int, s) ∷ rest) = ok s rest
path_arg ((Token.quote, s) ∷ rest) = ok (unquoted s) rest
path_arg ((token, s) ∷ rest) = err (expected_path s)
path_arg [] = err (expected_path [])

unfoldable pub optional_path_arg : List (Token × Slice) → Parsed (Option Slice)
optional_path_arg ((Token.word, s) ∷ rest) = ok (some s) rest
optional_path_arg ((Token.path, s) ∷ rest) = ok (some s) rest
optional_path_arg ((Token.int, s) ∷ rest) = ok (some s) rest
optional_path_arg ((Token.quote, s) ∷ rest) = ok (some (unquoted s)) rest
optional_path_arg ((token, s) ∷ rest) = err (expected_path s)
optional_path_arg [] = ok none []

abbrev pub then_ : {A B : Type 0} → Parsed A → (A → List (Token × Slice) → Parsed B) → Parsed B
then_ (ok a rest) f = f a rest
then_ (err e) f = err e

abbrev pub with_path : (Slice → Command) → List (Token × Slice) → Parsed (Option Command)
with_path f rest = then_ (path_arg rest) λ s rest'. ok (some (f s)) rest'

-- `Command::from`; what stands behind a command is not read.
unfoldable pub from : List (Token × Slice) → Parsed (Option Command)
from [] = ok none []
from ((Token.ls, s) ∷ rest) =
    then_ (optional_path_arg rest) λ d rest'. ok (some (Command.ls d)) rest'
from ((Token.cat, s) ∷ rest) = with_path Command.cat rest
from ((Token.cd, s) ∷ rest) = with_path Command.cd rest
from ((Token.mkdir, s) ∷ rest) = with_path Command.mkdir rest
from ((Token.put, s) ∷ rest) =
    then_ (path_arg rest)
      λ f rest'. then_ (path_arg rest') λ t rest''. ok (some (Command.put f t)) rest''
from ((Token.exec, s) ∷ rest) = with_path Command.exec rest
from ((Token.exit, s) ∷ rest) = ok (some Command.exit) rest
from ((token, s) ∷ rest) = err (expected_command s token)
