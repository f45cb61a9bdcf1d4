-- ===== src/Kernel/Shell/Words.antt =====
-- kernel/src/shell/command.rs: the lines that are commands, and the commands that they are.
use yacuri.Base.{
  ◌-◌, ◌≡◌, refl, ap, none, some, List, [], ◌∷◌, ◌++◌, length, take, length-append, arith,
}
use yacuri.Kernel.Shell.Command.{
  Slice, Token, Command, ok, unquoted, path_arg, optional_path_arg, from,
}

-- A word of a line that stands for a path: three kinds of tokens as they are, or a quoted text.
pub data Arg : Type 0 where
  word path int quoted : Slice → Arg

abbrev pub in_quotes : Slice → Slice
in_quotes s = b'"' ∷ s ++ b'"' ∷ []

abbrev pub arg_token : Arg → Token × Slice
arg_token (word s) = (Token.word, s)
arg_token (path s) = (Token.path, s)
arg_token (int s) = (Token.int, s)
arg_token (quoted s) = (Token.quote, in_quotes s)

abbrev pub arg_text : Arg → Slice
arg_text (word s) = s
arg_text (path s) = s
arg_text (int s) = s
arg_text (quoted s) = s

pub data Line : Type 0 where
  ls exit : Line
  ls_in cat cd mkdir exec : Arg → Line
  put : (file text : Arg) → Line

-- The tokens of a line; `k` is the slice of the keyword, which is not read.
abbrev pub words : Slice → Line → List (Token × Slice)
words k ls = (Token.ls, k) ∷ []
words k exit = (Token.exit, k) ∷ []
words k (ls_in a) = (Token.ls, k) ∷ arg_token a ∷ []
words k (cat a) = (Token.cat, k) ∷ arg_token a ∷ []
words k (cd a) = (Token.cd, k) ∷ arg_token a ∷ []
words k (mkdir a) = (Token.mkdir, k) ∷ arg_token a ∷ []
words k (exec a) = (Token.exec, k) ∷ arg_token a ∷ []
words k (put f t) = (Token.put, k) ∷ arg_token f ∷ arg_token t ∷ []

abbrev pub meaning : Line → Command
meaning ls = Command.ls none
meaning exit = Command.exit
meaning (ls_in a) = Command.ls (some (arg_text a))
meaning (cat a) = Command.cat (arg_text a)
meaning (cd a) = Command.cd (arg_text a)
meaning (mkdir a) = Command.mkdir (arg_text a)
meaning (exec a) = Command.exec (arg_text a)
meaning (put f t) = Command.put (arg_text f) (arg_text t)

take-append : (s t : Slice) → take (length s) (s ++ t) ≡ s
take-append [] t = refl
take-append (c ∷ s) t = ap (λ l. c ∷ l) (take-append s t)

unquoted-in_quotes : (s : Slice) → unquoted (in_quotes s) ≡ s
unquoted-in_quotes s =
    let e : length (in_quotes s) - 2 ≡ length s = omega (arith, length-append s (b'"' ∷ [])) in
    rw e (take-append s (b'"' ∷ []))

path_arg-arg_token :
    (a : Arg) (rest : List (Token × Slice)) → path_arg (arg_token a ∷ rest) ≡ ok (arg_text a) rest
unfolding path_arg
path_arg-arg_token (word s) rest = refl
path_arg-arg_token (path s) rest = refl
path_arg-arg_token (int s) rest = refl
path_arg-arg_token (quoted s) rest = ap (λ t. ok t rest) (unquoted-in_quotes s)

optional_path_arg-arg_token :
    (a : Arg) (rest : List (Token × Slice))
    → optional_path_arg (arg_token a ∷ rest) ≡ ok (some (arg_text a)) rest
unfolding optional_path_arg
optional_path_arg-arg_token (word s) rest = refl
optional_path_arg-arg_token (path s) rest = refl
optional_path_arg-arg_token (int s) rest = refl
optional_path_arg-arg_token (quoted s) rest = ap (λ t. ok (some t) rest) (unquoted-in_quotes s)

-- Every form of a command is read back from its words, with quotes taken off a quoted path or text, and
-- what stands behind it is left unread; `ls` with no directory is read where nothing stands behind it.
pub from-words :
    (k : Slice) (l : Line) (rest : List (Token × Slice))
    → (l ≡ ls → rest ≡ [])
    → from (words k l ++ rest) ≡ ok (some (meaning l)) rest
unfolding from
from-words k ls rest h = rw (h refl) (unfold optional_path_arg in refl)
from-words k exit rest h = refl
from-words k (ls_in a) rest h = rw (optional_path_arg-arg_token a rest) refl
from-words k (cat a) rest h = rw (path_arg-arg_token a rest) refl
from-words k (cd a) rest h = rw (path_arg-arg_token a rest) refl
from-words k (mkdir a) rest h = rw (path_arg-arg_token a rest) refl
from-words k (exec a) rest h = rw (path_arg-arg_token a rest) refl
from-words k (put f t) rest h =
    rw (path_arg-arg_token f (arg_token t ∷ rest)) (rw (path_arg-arg_token t rest) refl)
