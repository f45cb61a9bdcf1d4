-- ===== src/Kernel/Shell/Keys.antt =====
-- kernel/src/shell/mod.rs: what each key does to the edited line, and the keys that end the shell.
use yacuri.Base.{ℕ, ◌-◌, ◌^◌, ◌<◌, ◌≡◌, ◌≢◌, refl, ap, subst, ◌∙◌, List, [], ◌∷◌, ◌++◌, length}
use yacuri.Kernel.Shell.Line.{Str, len}
use yacuri.Kernel.Shell.Command.{Token, Slice}
use yacuri.Kernel.Shell.Run.{
  Shell, Ran, ran, panicked, then_, Fat, DecodedKey, unicode, raw_key, arrow_right, back_one,
  redraw, move_left, move_right, handle_key, key_pressed,
}
use yacuri.Kernel.Shell.Editing.{
  IsAt, Edits, typed, erased, left, left_of_all, right, type_character-IsAt, backspace-IsAt,
}
use yacuri.Kernel.Shell.Moves.{
  IsAt-move_left, IsAt-move_left_of_all, IsAt-move_right, type_character-beyond, backspace-at_start,
  backspace-empty, right_beyond, wrapped, wrapped_beyond, redrawn, handle_key-character,
  handle_key-backspace, moved_left, moved_right,
}

module _ {Fs Dir File : Type 0} (fat : Fat Fs Dir File) (uninit : ℕ → List ℕ)
    (tokens : Str → List (Token × Slice)) where
  -- On a line of ASCII characters with the cursor between two parts of it, these keys do not panic: a
  -- character is put in at the cursor; the erasing key takes away the character before it, where there
  -- is one; and the arrows move it by one character, to the left also at the start of the line, where it
  -- stays, and to the right where there is a character and fewer than 78 are before the cursor.
  pub key_pressed-Edits :
      {key : DecodedKey} {before after before' after' : Str} (shell : Shell Fs)
      → Edits key before after before' after'
      → IsAt before after shell
      → (shell' : Shell Fs) × (key_pressed Dir File fat uninit tokens key shell ≡ ran shell')
        × IsAt before' after' shell'
  unfolding key_pressed
  key_pressed-Edits shell (typed c before after h k l fits) at =
      let r = type_character-IsAt c before after shell h fits at in
      redrawn fat uninit tokens (before ++ c ∷ []) after _ r.0
        (handle_key-character fat uninit tokens c shell k l ∙ r.1) r.2
  key_pressed-Edits shell (erased before before' after c e) at =
      let r = backspace-IsAt c before' after shell (subst (λ b. IsAt b after shell) e at) in
      redrawn fat uninit tokens before' after _ r.0
        (handle_key-backspace fat uninit tokens shell ∙ r.1) r.2
  key_pressed-Edits shell (left before before' after c e) at =
      redrawn fat uninit tokens before' (c ∷ after) _ (move_left shell)
        (moved_left fat uninit tokens shell)
        (IsAt-move_left c before' after shell (subst (λ b. IsAt b after shell) e at))
  key_pressed-Edits shell (left_of_all after) at =
      redrawn fat uninit tokens [] after _ (move_left shell) (moved_left fat uninit tokens shell)
        (IsAt-move_left_of_all after shell at)
  key_pressed-Edits shell (right before after c h) at =
      redrawn fat uninit tokens (before ++ c ∷ []) after _ (move_right shell)
        (moved_right fat uninit tokens shell) (IsAt-move_right c before after shell h at)

  pressed_right :
      (shell : Shell Fs)
      → key_pressed Dir File fat uninit tokens (raw_key arrow_right) shell
        ≡ ran (redraw (move_right shell))
  unfolding key_pressed handle_key
  pressed_right shell = refl

  pressed_beyond :
      (c : ℕ) (shell : Shell Fs)
      → c ≢ 8
      → c ≢ 10
      → len shell.current_command < shell.cursor_pos
      → key_pressed Dir File fat uninit tokens (unicode c) shell ≡ panicked
  unfolding key_pressed
  pressed_beyond c shell h k lt =
      ap (λ (r : Ran (Shell Fs)). then_ r (λ t. ran (redraw t)))
        (handle_key-character fat uninit tokens c shell h k ∙ type_character-beyond c shell lt)

  pressed_at_start :
      (line : Str) (shell : Shell Fs)
      → IsAt [] line shell
      → line ≢ []
      → key_pressed Dir File fat uninit tokens (unicode 8) shell ≡ panicked
  unfolding key_pressed
  pressed_at_start [] shell at h = absurd (h refl)
  pressed_at_start (d ∷ line) shell at h =
      ap (λ (r : Ran (Shell Fs)). then_ r (λ t. ran (redraw t)))
        (handle_key-backspace fat uninit tokens shell ∙ backspace-at_start d line shell at)

  pressed_empty :
      (shell : Shell Fs)
      → IsAt [] [] shell
      → key_pressed Dir File fat uninit tokens (unicode 8) shell
        ≡ ran
            (redraw (record shell { current_command = []; cursor_pos = back_one shell.cursor_pos }))
  unfolding key_pressed
  pressed_empty shell at =
      ap (λ (r : Ran (Shell Fs)). then_ r (λ t. ran (redraw t)))
        (handle_key-backspace fat uninit tokens shell ∙ backspace-empty shell at)

  -- Three keys leave the cursor outside of the line, on ASCII lines. An arrow to the right at the end of
  -- a line of fewer than 78 characters moves it behind the end, and the next character panics. The
  -- erasing key panics at the start of a line that is not empty; on an empty line it wraps the cursor
  -- round, and the next character panics.
  pub key_pressed-panics :
      (ended started empty : Shell Fs) (line : Str) (c : ℕ)
      → c ≢ 8
      → c ≢ 10
      → IsAt line [] ended
      → length line < 78
      → IsAt [] line started
      → line ≢ []
      → IsAt [] [] empty
      → ((shell' : Shell Fs) × (key_pressed Dir File fat uninit tokens (raw_key arrow_right) ended
            ≡ ran shell')
          × (key_pressed Dir File fat uninit tokens (unicode c) shell' ≡ panicked))
        × (key_pressed Dir File fat uninit tokens (unicode 8) started ≡ panicked)
        × ((shell' : Shell Fs) × (key_pressed Dir File fat uninit tokens (unicode 8) empty
              ≡ ran shell')
            × (shell'.cursor_pos ≡ 2 ^ 64 - 1)
            × (key_pressed Dir File fat uninit tokens (unicode c) shell' ≡ panicked))
  unfolding redraw
  key_pressed-panics ended started empty line c h k at short at' nonempty at'' =
      let s = redraw (move_right ended) in
      let t =
        redraw (record empty { current_command = []; cursor_pos = back_one empty.cursor_pos }) in
      (
        (s, pressed_right ended, pressed_beyond c s h k (right_beyond line ended at short)),
        pressed_at_start line started at' nonempty,
        (
          t,
          pressed_empty empty at'',
          wrapped empty at'',
          pressed_beyond c t h k (wrapped_beyond empty at''),
        ),
      )
