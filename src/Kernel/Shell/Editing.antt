-- ===== src/Kernel/Shell/Editing.antt =====
-- kernel/src/shell/mod.rs: the edited line against a line with a cursor between two parts, and the keys
-- that leave the cursor outside of the line.
use yacuri.Base.{
  ℕ, suc, ◌+◌, ◌^◌, ◌%◌, ◌<◌, ◌≡◌, ◌≢◌, refl, sym, ap, ◌∙◌, Bool, true, false, [], ◌∷◌, ◌++◌,
  append-nil, append_assoc, if◌then◌else◌, length, length-append, arith,
}
use yacuri.Kernel.Shell.Line.{Str, len, pop, push, insert, remove}
use yacuri.Kernel.Shell.Ascii.{
  IsAscii, IsAscii-append, len-IsAscii, push-append, pop-append, insert-append, remove-append,
}
use yacuri.Kernel.Shell.Run.{
  Shell, Ran, ran, then_, DecodedKey, unicode, raw_key, arrow_left, arrow_right, with_line,
  back_one, cursor_at_end, backspace, type_character,
}

-- The line is the two parts, and the cursor stands between them; the line fits the address space.
pub record IsAt {Fs : Type 0} (before after : Str) (shell : Shell Fs) : Type 0 where
  pub line : shell.current_command ≡ before ++ after
  pub cursor : shell.cursor_pos ≡ length before
  pub ascii_before : IsAscii before
  pub ascii_after : IsAscii after
  pub fits : length (before ++ after) + 1 < 2 ^ 64

-- What a key does to the parts before and after the cursor.
pub data Edits : DecodedKey → (before after before' after' : Str) → Type 0 where
  typed :
      (c : ℕ) (before after : Str)
      → c < 128
      → c ≢ 8
      → c ≢ 10
      → length (before ++ after) + 2 < 2 ^ 64
      → Edits (unicode c) before after (before ++ c ∷ []) after
  erased :
      (before before' after : Str) (c : ℕ)
      → before ≡ before' ++ c ∷ []
      → Edits (unicode 8) before after before' after
  left :
      (before before' after : Str) (c : ℕ)
      → before ≡ before' ++ c ∷ []
      → Edits (raw_key arrow_left) before after before' (c ∷ after)
  left_of_all : (after : Str) → Edits (raw_key arrow_left) [] after [] after
  right :
      (before after : Str) (c : ℕ)
      → length before < 78
      → Edits (raw_key arrow_right) before (c ∷ after) (before ++ c ∷ []) after

pub length-snoc : (cs : Str) (c : ℕ) → length (cs ++ c ∷ []) ≡ suc (length cs)
length-snoc cs c = omega (arith, length-append cs (c ∷ []))

pub IsAscii-before : (cs ds : Str) → IsAscii (cs ++ ds) → IsAscii cs × IsAscii ds
IsAscii-before [] ds h = (tt, h)
IsAscii-before (c ∷ cs) ds (h, hs) = let r = IsAscii-before cs ds hs in ((h, r.0), r.1)

pub if_true : {A : Type 0} {b : Bool} (x y : A) → b ≡ true → (if b then x else y) ≡ x
if_true x y e = rw e refl

pub if_false : {A : Type 0} {b : Bool} (x y : A) → b ≡ false → (if b then x else y) ≡ y
if_false x y e = rw e refl

module _ {Fs : Type 0} where
  -- The test of `cursor_at_end`.
  pub at_end :
      (before after : Str) (shell : Shell Fs)
      → IsAt before after shell
      → len shell.current_command ≡ length before + length after
  at_end before after shell at =
      ap len at.line
      ∙ len-IsAscii (before ++ after) (IsAscii-append before after at.ascii_before at.ascii_after)
      ∙ length-append before after

  pub at_end-nil :
      (before : Str) (shell : Shell Fs) → IsAt before [] shell → cursor_at_end shell ≡ true
  unfolding cursor_at_end
  at_end-nil before shell at = ground (arith, at_end before [] shell at, at.cursor)

  pub at_end-cons :
      (before : Str) (d : ℕ) (after : Str) (shell : Shell Fs)
      → IsAt before (d ∷ after) shell
      → cursor_at_end shell ≡ false
  unfolding cursor_at_end
  at_end-cons before d after shell at =
      ground (arith, at_end before (d ∷ after) shell at, at.cursor)

  back_one-snoc :
      (before : Str) (c : ℕ) (after : Str) (shell : Shell Fs)
      → IsAt (before ++ c ∷ []) after shell
      → back_one shell.cursor_pos ≡ length before
  back_one-snoc before c after shell at =
      omega
        (arith, at.cursor, at.fits, length-snoc before c, length-append (before ++ c ∷ []) after)

  -- The line after a character is put in at the cursor, by either branch.
  typed_line :
      (c : ℕ) (before after : Str) (shell : Shell Fs)
      → IsAt before after shell
      → (if cursor_at_end shell
          then ran (record shell { current_command = push shell.current_command c })
          else with_line (insert shell.current_command shell.cursor_pos c) shell)
        ≡ ran (record shell { current_command = before ++ c ∷ after })
  typed_line c before [] shell at =
      if_true _ _ (at_end-nil before shell at)
      ∙ ap (λ l. ran (record shell { current_command = l }))
          (ap (λ l. push l c) (at.line ∙ append-nil before) ∙ push-append before c)
  typed_line c before (d ∷ after) shell at =
      if_false _ _ (at_end-cons before d after shell at)
      ∙ ap (λ o. with_line o shell)
          (ap (λ l. insert l shell.cursor_pos c) at.line
            ∙ insert-append before (d ∷ after) shell.cursor_pos c at.ascii_before at.cursor)

  pub type_character-IsAt :
      (c : ℕ) (before after : Str) (shell : Shell Fs)
      → c < 128
      → length (before ++ after) + 2 < 2 ^ 64
      → IsAt before after shell
      → (shell' : Shell Fs) × (type_character c shell ≡ ran shell')
        × IsAt (before ++ c ∷ []) after shell'
  unfolding type_character
  type_character-IsAt c before after shell h fits at = (
    record shell {
      current_command = before ++ c ∷ after;
      cursor_pos = (shell.cursor_pos + 1) % 2 ^ 64;
    },
    ap
        (λ (r : Ran (Shell Fs)).
          then_ r λ s. ran (record s { cursor_pos = (s.cursor_pos + 1) % 2 ^ 64 }))
        (typed_line c before after shell at),
    record {
      line = sym (append_assoc before (c ∷ []) after);
      cursor = omega (arith, at.cursor, length-snoc before c, length-append before after);
      ascii_before = IsAscii-append before (c ∷ []) at.ascii_before (h, tt);
      ascii_after = at.ascii_after;
      fits = omega (
        arith,
        length-append (before ++ c ∷ []) after,
        length-snoc before c,
        length-append before after,
      );
    },
  )

  erased_line :
      (c : ℕ) (before after : Str) (shell : Shell Fs)
      → IsAt (before ++ c ∷ []) after shell
      → (if cursor_at_end shell
          then ran (record shell { current_command = pop shell.current_command })
          else with_line (remove shell.current_command (back_one shell.cursor_pos)) shell)
        ≡ ran (record shell { current_command = before ++ after })
  erased_line c before [] shell at =
      if_true _ _ (at_end-nil (before ++ c ∷ []) shell at)
      ∙ ap (λ l. ran (record shell { current_command = l }))
          (ap pop (at.line ∙ append-nil (before ++ c ∷ []))
            ∙ pop-append before c
            ∙ sym (append-nil before))
  erased_line c before (d ∷ after) shell at =
      if_false _ _ (at_end-cons (before ++ c ∷ []) d after shell at)
      ∙ ap (λ o. with_line o shell)
          (ap (λ l. remove l (back_one shell.cursor_pos))
              (at.line ∙ append_assoc before (c ∷ []) (d ∷ after))
            ∙ remove-append before (d ∷ after) (back_one shell.cursor_pos) c
                (IsAscii-before before (c ∷ []) at.ascii_before).0
                (back_one-snoc before c (d ∷ after) shell at))

  pub backspace-IsAt :
      (c : ℕ) (before after : Str) (shell : Shell Fs)
      → IsAt (before ++ c ∷ []) after shell
      → (shell' : Shell Fs) × (backspace shell ≡ ran shell') × IsAt before after shell'
  unfolding backspace
  backspace-IsAt c before after shell at = (
    record shell { current_command = before ++ after; cursor_pos = back_one shell.cursor_pos },
    ap (λ (r : Ran (Shell Fs)). then_ r λ s. ran (record s { cursor_pos = back_one s.cursor_pos }))
        (erased_line c before after shell at),
    record {
      line = refl;
      cursor = back_one-snoc before c after shell at;
      ascii_before = (IsAscii-before before (c ∷ []) at.ascii_before).0;
      ascii_after = at.ascii_after;
      fits = omega (
        arith,
        at.fits,
        length-append (before ++ c ∷ []) after,
        length-snoc before c,
        length-append before after,
      );
    },
  )
