-- ===== src/Kernel/Shell/Tests.antt =====
-- The shell on small inputs, and its theorems at concrete inputs.
use yacuri.Base.{ℕ, ◌-◌, ◌^◌, ◌≡◌, ◌≢◌, refl, none, some, List, [], ◌∷◌, ◌++◌, arith}
use yacuri.Kernel.Shell.Line.{Str, from_utf8, insert}
use yacuri.Kernel.Shell.Command.{Slice, Token, Command, ok, from}
use yacuri.Kernel.Shell.Run.{
  Shell, ran, panicked, Fat, good, bad, unicode, raw_key, arrow_right, key_pressed,
}
use yacuri.Kernel.Shell.Editing.{IsAt, typed}
use yacuri.Kernel.Shell.Keys.{key_pressed-Edits, key_pressed-panics}
use yacuri.Kernel.Shell.Words.{Line, words, put, word, quoted, from-words}

-- A filesystem with an empty root and nothing else.
abbrev empty_fat : Fat (Unit {0}) (Unit {0}) (Unit {0})
empty_fat = record {
  root_dir = λ fs. tt;
  open_dir = λ fs dir name. bad 1;
  entries = λ fs dir. [];
  create_dir = λ fs dir name. (fs, bad 2);
  create_file = λ fs dir name. (fs, bad 2);
  write_all = λ fs file text. (fs, bad 2);
  open_file = λ fs dir name. bad 1;
  seek_end = λ fs file. good 0;
  seek_start = λ fs file. good 0;
  read = λ fs file size. good [];
  unmount = λ fs. good tt;
}

abbrev no_bytes : ℕ → List ℕ
no_bytes n = []

abbrev no_tokens : Str → List (Token × Slice)
no_tokens line = []

-- The line `ls`, the cursor between its letters
abbrev shell : Shell (Unit {0})
shell = record {
  filesystem = some tt;
  working_dir = none;
  current_command = b'l' ∷ b's' ∷ [];
  cursor_pos = 1;
  screen = [];
}

abbrev at_letters : IsAt (b'l' ∷ []) (b's' ∷ []) shell
at_letters = record {
  line = refl;
  cursor = refl;
  ascii_before = (omega arith, tt);
  ascii_after = (omega arith, tt);
  fits = omega arith;
}

key_pressed-Edits_example :
    (shell' : Shell (Unit {0})) × (key_pressed
        (Unit {0})
        (Unit {0})
        empty_fat
        no_bytes
        no_tokens
        (unicode b'x')
        shell
      ≡ ran shell')
    × IsAt (b'l' ∷ b'x' ∷ []) (b's' ∷ []) shell'
key_pressed-Edits_example =
    key_pressed-Edits empty_fat no_bytes no_tokens shell
      (typed b'x' (b'l' ∷ []) (b's' ∷ []) (omega arith) (omega arith) (omega arith) (omega arith))
      at_letters

abbrev line : Str
line = b'l' ∷ b's' ∷ []

abbrev ended : Shell (Unit {0})
ended = record shell { cursor_pos = 2 }

abbrev started : Shell (Unit {0})
started = record shell { cursor_pos = 0 }

abbrev empty : Shell (Unit {0})
empty = record shell { current_command = []; cursor_pos = 0 }

at_end_of_line : IsAt line [] ended
at_end_of_line = record {
  line = refl;
  cursor = refl;
  ascii_before = (omega arith, (omega arith, tt));
  ascii_after = tt;
  fits = omega arith;
}

at_start_of_line : IsAt [] line started
at_start_of_line = record {
  line = refl;
  cursor = refl;
  ascii_before = tt;
  ascii_after = (omega arith, (omega arith, tt));
  fits = omega arith;
}

at_empty_line : IsAt [] [] empty
at_empty_line = record {
  line = refl;
  cursor = refl;
  ascii_before = tt;
  ascii_after = tt;
  fits = omega arith;
}

line_is_there : line ≢ []
line_is_there e = absurd (cc)

key_pressed-panics_example :
    ((shell' : Shell (Unit {0})) × (key_pressed
          (Unit {0})
          (Unit {0})
          empty_fat
          no_bytes
          no_tokens
          (raw_key arrow_right)
          ended
        ≡ ran shell')
      × (key_pressed (Unit {0}) (Unit {0}) empty_fat no_bytes no_tokens (unicode b'x') shell'
          ≡ panicked))
    × (key_pressed (Unit {0}) (Unit {0}) empty_fat no_bytes no_tokens (unicode 8) started
        ≡ panicked)
    × ((shell' : Shell (Unit {0})) × (key_pressed
            (Unit {0})
            (Unit {0})
            empty_fat
            no_bytes
            no_tokens
            (unicode 8)
            empty
          ≡ ran shell')
        × (shell'.cursor_pos ≡ 2 ^ 64 - 1)
        × (key_pressed (Unit {0}) (Unit {0}) empty_fat no_bytes no_tokens (unicode b'x') shell'
            ≡ panicked))
key_pressed-panics_example =
    key_pressed-panics empty_fat no_bytes no_tokens ended started empty line b'x' (omega arith)
      (omega arith) at_end_of_line (omega arith) at_start_of_line line_is_there at_empty_line

-- put a "b c"
abbrev put_line : Line
put_line = put (word (b'a' ∷ [])) (quoted (b'b' ∷ b' ' ∷ b'c' ∷ []))

put_is_not_ls : put_line ≡ Line.ls → ◌≡◌ {A = List (Token × Slice)} [] []
put_is_not_ls e = refl

from-words_example :
    from (words (b'p' ∷ []) put_line ++ [])
    ≡ ok (some (Command.put (b'a' ∷ []) (b'b' ∷ b' ' ∷ b'c' ∷ []))) []
from-words_example = from-words (b'p' ∷ []) put_line [] put_is_not_ls

-- A character of two bytes cannot be split.
inside_a_character : insert (0xE9 ∷ []) 1 b'x' ≡ none
inside_a_character = refl

e_acute : from_utf8 (0xC3 ∷ 0xA9 ∷ []) ≡ some (0xE9 ∷ [])
unfolding from_utf8
e_acute = refl
