-- ===== src/Kernel/Shell/Moves.antt =====
-- kernel/src/shell/mod.rs: the steps of single keys on an edited line, inside of it and outside.
use yacuri.Base.{
  ℕ, ◌+◌, ◌-◌, ◌^◌, ◌%◌, ◌<◌, ◌≡◌, ◌≢◌, refl, sym, ap, ◌∙◌, List, [], ◌∷◌, ◌++◌, append_assoc, ◌==◌,
  length, length-append, arith,
}
use yacuri.Kernel.Shell.Line.{Str, len, pop}
use yacuri.Kernel.Shell.Ascii.{IsAscii-append, insert-beyond, remove-beyond}
use yacuri.Kernel.Shell.Command.{Token, Slice}
use yacuri.Kernel.Shell.Run.{
  Shell, Ran, ran, panicked, then_, Fat, unicode, raw_key, arrow_left, arrow_right, with_line,
  back_one, cursor_at_end, redraw, backspace, type_character, move_left, move_right, handle_key,
}
use yacuri.Kernel.Shell.Editing.{
  IsAt, length-snoc, IsAscii-before, if_true, if_false, at_end, at_end-nil, at_end-cons,
}

module _ {Fs : Type 0} where
  IsAt-redraw :
      (before after : Str) (shell : Shell Fs)
      → IsAt before after shell
      → IsAt before after (redraw shell)
  unfolding redraw
  IsAt-redraw before after shell at = record {
    line = at.line;
    cursor = at.cursor;
    ascii_before = at.ascii_before;
    ascii_after = at.ascii_after;
    fits = at.fits;
  }

  pub IsAt-move_left :
      (c : ℕ) (before after : Str) (shell : Shell Fs)
      → IsAt (before ++ c ∷ []) after shell
      → IsAt before (c ∷ after) (move_left shell)
  unfolding move_left
  IsAt-move_left c before after shell at =
      let ascii = IsAscii-before before (c ∷ []) at.ascii_before in
      record {
        line = at.line ∙ append_assoc before (c ∷ []) after;
        cursor = omega (arith, at.cursor, length-snoc before c);
        ascii_before = ascii.0;
        ascii_after = (ascii.1.0, at.ascii_after);
        fits = omega (
          arith,
          at.fits,
          length-append (before ++ c ∷ []) after,
          length-snoc before c,
          length-append before (c ∷ after),
        );
      }

  pub IsAt-move_left_of_all :
      (after : Str) (shell : Shell Fs) → IsAt [] after shell → IsAt [] after (move_left shell)
  unfolding move_left
  IsAt-move_left_of_all after shell at = record {
    line = at.line;
    cursor = omega (arith, at.cursor);
    ascii_before = tt;
    ascii_after = at.ascii_after;
    fits = at.fits;
  }

  pub IsAt-move_right :
      (c : ℕ) (before after : Str) (shell : Shell Fs)
      → length before < 78
      → IsAt before (c ∷ after) shell
      → IsAt (before ++ c ∷ []) after (move_right shell)
  unfolding move_right
  IsAt-move_right c before after shell h at = record {
    line = at.line ∙ sym (append_assoc before (c ∷ []) after);
    cursor = omega (arith, at.cursor, length-snoc before c);
    ascii_before = IsAscii-append before (c ∷ []) at.ascii_before (at.ascii_after.0, tt);
    ascii_after = at.ascii_after.1;
    fits = omega (
      arith,
      at.fits,
      length-append (before ++ c ∷ []) after,
      length-snoc before c,
      length-append before (c ∷ after),
    );
  }

  -- A character behind the end of the line
  pub type_character-beyond :
      (c : ℕ) (shell : Shell Fs)
      → len shell.current_command < shell.cursor_pos
      → type_character c shell ≡ panicked
  unfolding type_character cursor_at_end
  type_character-beyond c shell h =
      ap
        (λ (r : Ran (Shell Fs)).
          then_ r λ s. ran (record s { cursor_pos = (s.cursor_pos + 1) % 2 ^ 64 }))
        (if_false {b = shell.cursor_pos == len shell.current_command} _ _ (ground arith)
          ∙ ap (λ o. with_line o shell) (insert-beyond shell.current_command shell.cursor_pos c h))

  pub backspace-at_start :
      (d : ℕ) (line : Str) (shell : Shell Fs)
      → IsAt [] (d ∷ line) shell
      → backspace shell ≡ panicked
  unfolding backspace
  backspace-at_start d line shell at =
      ap
        (λ (r : Ran (Shell Fs)). then_ r λ s. ran (record s { cursor_pos = back_one s.cursor_pos }))
        (if_false _ _ (at_end-cons [] d line shell at)
          ∙ ap (λ o. with_line o shell)
              (remove-beyond shell.current_command (back_one shell.cursor_pos)
                (omega (arith, at_end [] (d ∷ line) shell at, at.cursor, at.fits))))

  pub backspace-empty :
      (shell : Shell Fs)
      → IsAt [] [] shell
      → backspace shell
        ≡ ran (record shell { current_command = []; cursor_pos = back_one shell.cursor_pos })
  unfolding backspace
  backspace-empty shell at =
      ap
        (λ (r : Ran (Shell Fs)). then_ r λ s. ran (record s { cursor_pos = back_one s.cursor_pos }))
        (if_true _ _ (at_end-nil [] shell at)
          ∙ ap (λ l. ran (record shell { current_command = l })) (ap pop at.line))

  pub right_beyond :
      (line : Str) (shell : Shell Fs)
      → IsAt line [] shell
      → length line < 78
      → len (redraw (move_right shell)).current_command < (redraw (move_right shell)).cursor_pos
  unfolding redraw move_right
  right_beyond line shell at h = omega (arith, at_end line [] shell at, at.cursor)

  pub wrapped :
      (shell : Shell Fs)
      → IsAt [] [] shell
      → (redraw (record shell {
        current_command = [];
        cursor_pos = back_one shell.cursor_pos;
      })).cursor_pos
        ≡ 2 ^ 64 - 1
  unfolding redraw
  wrapped shell at = omega (arith, at.cursor)

  pub wrapped_beyond :
      (shell : Shell Fs)
      → IsAt [] [] shell
      → 0
        < (redraw (record shell {
          current_command = [];
          cursor_pos = back_one shell.cursor_pos;
        })).cursor_pos
  unfolding redraw
  wrapped_beyond shell at = omega (arith, at.cursor)

  module _ {Dir File : Type 0} (fat : Fat Fs Dir File) (uninit : ℕ → List ℕ)
      (tokens : Str → List (Token × Slice)) where
    pub redrawn :
        (before after : Str) (r : Ran (Shell Fs)) (s : Shell Fs)
        → r ≡ ran s
        → IsAt before after s
        → (shell' : Shell Fs) × (then_ r (λ t. ran (redraw t)) ≡ ran shell')
          × IsAt before after shell'
    redrawn before after r s e at =
        (redraw s, ap (λ q. then_ q (λ t. ran (redraw t))) e, IsAt-redraw before after s at)

    pub handle_key-character :
        (c : ℕ) (shell : Shell Fs)
        → c ≢ 8
        → c ≢ 10
        → handle_key Dir File fat uninit tokens (unicode c) shell ≡ type_character c shell
    unfolding handle_key
    handle_key-character c shell h k =
        if_false {b = c == 8} _ _ (ground arith) ∙ if_false {b = c == 10} _ _ (ground arith)

    pub handle_key-backspace :
        (shell : Shell Fs)
        → handle_key Dir File fat uninit tokens (unicode 8) shell ≡ backspace shell
    unfolding handle_key
    handle_key-backspace shell = refl

    pub moved_left :
        (shell : Shell Fs)
        → handle_key Dir File fat uninit tokens (raw_key arrow_left) shell ≡ ran (move_left shell)
    unfolding handle_key
    moved_left shell = refl

    pub moved_right :
        (shell : Shell Fs)
        → handle_key Dir File fat uninit tokens (raw_key arrow_right) shell ≡ ran (move_right shell)
    unfolding handle_key
    moved_right shell = refl
