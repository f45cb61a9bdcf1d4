-- ===== src/Kernel/Shell/Run.antt =====
-- kernel/src/shell/mod.rs: the shell. What it writes to the screen is a list of events, the newest
-- first. The filesystem is the crate fatfs, the program runner the crate yacari, and both are
-- parameters, as are the bytes that a fresh buffer holds and the lexer of commands.
use yacuri.Base.{
  ℕ, suc, ◌+◌, ◌-◌, ◌%◌, ◌^◌, Bool, Option, none, some, List, [], ◌∷◌, ◌++◌, if◌then◌else◌, length,
  drop, min, ◌==◌,
}
use yacuri.Kernel.Shell.Line.{Str, len, pop, push, insert, remove, from_utf8}
use yacuri.Kernel.Shell.Command.{
  Slice, Token, Command, CommandError, Parsed, from, ls, cat, cd, mkdir, put, exec, exit, ok, err,
}

-- `KeyCode` and `DecodedKey`, of the crate pc-keyboard
pub data KeyCode : Type 0 where
  arrow_left arrow_right : KeyCode
  other : ℕ → KeyCode

pub data DecodedKey : Type 0 where
  unicode : ℕ → DecodedKey
  raw_key : KeyCode → DecodedKey

pub data Event : Type 0 where
  set_yellow reset_color blank_line : Event
  echo : Str → Event
  parse_failed : CommandError → Event
  key_name : ℕ → Event
  set_cursor_x : ℕ → Event
  write_shell_line : Str → Event
  entry_name : Str → Event
  total : ℕ → Event
  ls_unknown cd_unknown put_unopened no_file not_utf8 : Event
  mkdir_failed put_failed read_failed : (error : ℕ) → Event
  contents : (file : Str) (bytes : ℕ) (content : Str) → Event
  executing : (name : Str) (bytes : ℕ) → Event
  executed : Str → Event

-- `Result<A, Error>` of the filesystem
pub data Res (A : Type 0) : Type 0 where
  good : A → Res A
  bad : (error : ℕ) → Res A

-- The calls of the crate fatfs that the shell makes.
pub record Fat (Fs Dir File : Type 0) : Type 0 where
  pub root_dir : Fs → Dir
  pub open_dir : Fs → Dir → Str → Res Dir
  pub entries : Fs → Dir → List (Res Str)
  pub create_dir : Fs → Dir → Str → Fs × Res (Unit {0})
  pub create_file : Fs → Dir → Str → Fs × Res File
  pub write_all : Fs → File → Str → Fs × Res (Unit {0})
  pub open_file : Fs → Dir → Str → Res File
  pub seek_end : Fs → File → Res ℕ
  pub seek_start : Fs → File → Res ℕ
  pub read : Fs → File → ℕ → Res (List ℕ)
  pub unmount : Fs → Res (Unit {0})

pub record Shell (Fs : Type 0) : Type 0 where
  pub filesystem : Option Fs
  pub working_dir : Option Str
  pub current_command : Str
  pub cursor_pos : ℕ
  pub screen : List Event

-- A panic, and the halt after `exit_qemu`, end the run.
pub data Ran (A : Type 0) : Type 0 where
  ran : A → Ran A
  panicked exited : Ran A

abbrev pub then_ : {A B : Type 0} → Ran A → (A → Ran B) → Ran B
then_ (ran a) f = f a
then_ panicked f = panicked
then_ exited f = exited

abbrev pub or_panic : {A : Type 0} → Option A → Ran A
or_panic none = panicked
or_panic (some a) = ran a

abbrev pub unwrap : {A : Type 0} → Res A → Ran A
unwrap (good a) = ran a
unwrap (bad e) = panicked

-- `usize` wraps where overflow is not checked.
abbrev pub back_one : ℕ → ℕ
back_one n = (n + (2 ^ 64 - 1)) % 2 ^ 64

module _ {Fs : Type 0} where
  abbrev pub print : Event → Shell Fs → Shell Fs
  print event shell = record shell { screen = event ∷ shell.screen }

  unfoldable pub cursor_at_end : Shell Fs → Bool
  cursor_at_end shell = shell.cursor_pos == len shell.current_command

  unfoldable pub redraw : Shell Fs → Shell Fs
  redraw shell =
      print (write_shell_line shell.current_command) (print (set_cursor_x shell.cursor_pos) shell)

  abbrev pub with_line : Option Str → Shell Fs → Ran (Shell Fs)
  with_line none shell = panicked
  with_line (some line) shell = ran (record shell { current_command = line })

  unfoldable pub backspace : Shell Fs → Ran (Shell Fs)
  backspace shell =
      then_
        (if cursor_at_end shell
          then ran (record shell { current_command = pop shell.current_command })
          else with_line (remove shell.current_command (back_one shell.cursor_pos)) shell)
        λ shell'. ran (record shell' { cursor_pos = back_one shell'.cursor_pos })

  unfoldable pub type_character : ℕ → Shell Fs → Ran (Shell Fs)
  type_character c shell =
      then_
        (if cursor_at_end shell
          then ran (record shell { current_command = push shell.current_command c })
          else with_line (insert shell.current_command shell.cursor_pos c) shell)
        λ shell'. ran (record shell' { cursor_pos = (shell'.cursor_pos + 1) % 2 ^ 64 })

  -- `checked_sub(1).unwrap_or(self.cursor_pos)`
  unfoldable pub move_left : Shell Fs → Shell Fs
  move_left shell = record shell { cursor_pos = shell.cursor_pos - 1 }

  unfoldable pub move_right : Shell Fs → Shell Fs
  move_right shell = record shell { cursor_pos = min 78 ((shell.cursor_pos + 1) % 2 ^ 64) }

  -- `Shell::new`; `init_shell` of the screen comes before.
  unfoldable pub new : Fs → Shell Fs
  new fs = record {
    filesystem = some fs;
    working_dir = none;
    current_command = [];
    cursor_pos = 0;
    screen = [];
  }

  module _ (Dir File : Type 0) (fat : Fat Fs Dir File) (uninit : ℕ → List ℕ) where
    unfoldable pub workdir : Shell Fs → Ran (Fs × Dir)
    workdir shell = then_ (or_panic shell.filesystem) λ fs. elim shell.working_dir [
      | none ↦ ran (fs, fat.root_dir fs)
      | some name ↦ then_ (unwrap (fat.open_dir fs (fat.root_dir fs) name)) λ dir. ran (fs, dir)
    ]

    abbrev pub print_entries : List (Res Str) → ℕ → Shell Fs → Ran (Shell Fs)
    print_entries [] count shell = ran (print (total count) shell)
    print_entries (bad e ∷ rest) count shell = panicked
    print_entries (good name ∷ rest) count shell =
        print_entries rest (suc count) (print (entry_name name) shell)

    abbrev pub list_dir : Fs → Res Dir → Shell Fs → Ran (Shell Fs)
    list_dir fs (good dir) shell = print_entries (fat.entries fs dir) 0 shell
    list_dir fs (bad e) shell = ran (print ls_unknown shell)

    abbrev pub chosen_dir : Fs → Dir → Option Str → Res Dir
    chosen_dir fs dir none = good dir
    chosen_dir fs dir (some d) = fat.open_dir fs dir d

    -- The text of a buffer whose first bytes were read; the rest is what the buffer held.
    abbrev pub text_of : Option Str → Shell Fs → Ran (Option Str × Shell Fs)
    text_of none shell = ran (none, print not_utf8 shell)
    text_of (some s) shell = ran (some s, shell)

    abbrev pub filled : ℕ → Res (List ℕ) → Shell Fs → Ran (Option Str × Shell Fs)
    filled size (bad e) shell = ran (none, print (read_failed e) shell)
    filled size (good bytes) shell =
        text_of (from_utf8 (bytes ++ drop (length bytes) (uninit size))) shell

    abbrev pub opened : Fs → Res File → Shell Fs → Ran (Option Str × Shell Fs)
    opened fs (bad e) shell = ran (none, print no_file shell)
    opened fs (good file) shell = then_ (unwrap (fat.seek_end fs file)) λ size.
        then_ (unwrap (fat.seek_start fs file)) λ start. filled size (fat.read fs file size) shell

    unfoldable pub read_file : Str → Shell Fs → Ran (Option Str × Shell Fs)
    read_file path shell =
        then_ (workdir shell) λ at. opened at.0 (fat.open_file at.0 at.1 path) shell

    abbrev pub set_fs : Fs → Shell Fs → Shell Fs
    set_fs fs shell = record shell { filesystem = some fs }

    abbrev pub report_mkdir : Res (Unit {0}) → Shell Fs → Shell Fs
    report_mkdir (good u) shell = shell
    report_mkdir (bad e) shell = print (mkdir_failed e) shell

    abbrev pub report_put : Res (Unit {0}) → Shell Fs → Shell Fs
    report_put (good u) shell = shell
    report_put (bad e) shell = print (put_failed e) shell

    abbrev pub put_into : Fs → Res File → Str → Shell Fs → Shell Fs
    put_into fs (bad e) text shell = print put_unopened (set_fs fs shell)
    put_into fs (good file) text shell =
        let r = fat.write_all fs file text in report_put r.1 (set_fs r.0 shell)

    -- `format!("{}/{}", workd, directory)`
    abbrev pub enter_dir : Res Dir → Str → Option Str → Shell Fs → Shell Fs
    enter_dir (bad e) directory workd shell = print cd_unknown shell
    enter_dir (good d) directory none shell = record shell { working_dir = some directory }
    enter_dir (good d) directory (some workd) shell = record shell {
      working_dir = some (workd ++ b'/' ∷ directory);
    }

    abbrev pub show_contents : Str → Option Str × Shell Fs → Ran (Shell Fs)
    show_contents file (none, shell) = ran shell
    show_contents file (some content, shell) =
        ran (print (contents file (len content) content) shell)

    -- The content stands where the message wants the file's name.
    abbrev pub run_contents : Option Str × Shell Fs → Ran (Shell Fs)
    run_contents (none, shell) = ran shell
    run_contents (some content, shell) =
        ran (print (executed content) (print (executing content (len content)) shell))

    -- `self.filesystem.take().unwrap().unmount().unwrap()`, and the end of the machine
    abbrev pub leave : Shell Fs → Ran (Shell Fs)
    leave shell =
        then_ (or_panic shell.filesystem) λ fs. then_ (unwrap (fat.unmount fs)) λ u. exited

    unfoldable pub run_command : Command → Shell Fs → Ran (Shell Fs)
    run_command (ls directory) shell =
        then_ (workdir shell) λ at. list_dir at.0 (chosen_dir at.0 at.1 directory) shell
    run_command (cat file) shell = then_ (read_file file shell) (show_contents file)
    run_command (cd directory) shell =
        then_ (workdir shell)
          λ at. ran (enter_dir (fat.open_dir at.0 at.1 directory) directory shell.working_dir shell)
    run_command (mkdir directory) shell = then_ (workdir shell) λ at.
        let r = fat.create_dir at.0 at.1 directory in ran (report_mkdir r.1 (set_fs r.0 shell))
    run_command (put file text) shell =
        then_ (workdir shell)
          λ at. let r = fat.create_file at.0 at.1 file in ran (put_into r.0 r.1 text shell)
    run_command (exec file) shell = then_ (read_file file shell) run_contents
    run_command exit shell = leave shell

    unfoldable pub execute_command : Command → Shell Fs → Ran (Shell Fs)
    execute_command command shell =
        then_ (run_command command shell) λ shell'. ran (print blank_line shell')

    module _ (tokens : Str → List (Token × Slice)) where
      abbrev pub obey : Parsed (Option Command) → Shell Fs → Ran (Shell Fs)
      obey (ok (some command) rest) shell = execute_command command shell
      obey (ok none rest) shell = ran shell
      obey (err e) shell = ran (print (parse_failed e) shell)

      unfoldable pub enter_pressed : Shell Fs → Ran (Shell Fs)
      enter_pressed shell =
          let shown =
            print reset_color (print (echo shell.current_command) (print set_yellow shell)) in
          then_ (obey (from (tokens shell.current_command)) shown)
            λ shell'. ran (record shell' { current_command = []; cursor_pos = 0 })

      unfoldable pub handle_key : DecodedKey → Shell Fs → Ran (Shell Fs)
      handle_key (unicode c) shell =
          if c == 8
          then backspace shell
          else if c == 10
          then enter_pressed shell
          else type_character c shell
      handle_key (raw_key arrow_left) shell = ran (move_left shell)
      handle_key (raw_key arrow_right) shell = ran (move_right shell)
      handle_key (raw_key (other key)) shell = ran (print (key_name key) shell)

      unfoldable pub key_pressed : DecodedKey → Shell Fs → Ran (Shell Fs)
      key_pressed key shell = then_ (handle_key key shell) λ shell'. ran (redraw shell')
