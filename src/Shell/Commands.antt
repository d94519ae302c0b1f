-- ===== src/Shell/Commands.antt =====
-- src/user/user-shell.c: the command line, the choice of the command, and the path that is shown.
pub mod Typed
pub mod Sessions
use loss_os.Prelude.{
  ℕ, zero, suc, ◌+◌, ◌-◌, ◌*◌, Bool, true, false, not, ◌&&◌, ◌||◌, Bytes, poke, Option, none, some,
  List, [], ◌∷◌, ◌++◌, length, codes, ltb, leb, ◌==◌, if◌then◌else◌,
}
use loss_os.Ext2.Layout.{entry_inode, entry_rec_len, entry_name_len, get_entry_name}
use loss_os.Process.{Machine}
use loss_os.Shell.{Str, Session, files, say, is_word, read_dot, directory_buffer_size}
use loss_os.Shell.Entries.{is_dots}
use loss_os.Shell.Remove.{rm}
use loss_os.Shell.Copy.{cp, mv}
use loss_os.Shell.Files.{ls, mkdir, touch, cat, echo, exec, kill, name_bytes, text_in}
use loss_os.Shell.Paths.{cd, get_parent_inode}
use loss_os.Shell.Find.{find}
use loss_os.Shell.Tokens.{argv}

-- The shell's variables beside the session.
pub record Shell : Type 0 where
  pub session : Session
  pub current_inode : ℕ
  pub current_path : Str

-- The loop of `update_path_display` that looks for the name of an inode in its parent.
unfoldable pub name_of : ℕ → Bytes → ℕ → ℕ → Option Str
name_of zero b off inode = none
name_of (suc fuel) b off inode =
    let rest = name_of fuel b (off + entry_rec_len b off) inode in
    let len = entry_name_len b off in
    if leb directory_buffer_size off
    then none
    else if entry_rec_len b off == 0
    then none
    else if (entry_inode b off == inode) && ltb 0 len && ltb len 63 && not (is_dots b off)
    then some (name_bytes len b (get_entry_name off))
    else rest

-- The loop that goes up to the root; `room` is the number of names that can still be kept. The
-- names come in the order from the root down, with those below it.
unfoldable pub parts_above : ℕ → Session → ℕ → List Str → List Str
parts_above zero s inode below = below
parts_above (suc room) s inode below =
    let parent = get_parent_inode s inode in
    let (ret_code, b) = read_dot s 0 (files s).stack parent in
    elim ((inode == 1) || (parent == inode) || not (ret_code == 0)) [
      | true ↦ below
      | false ↦ elim (name_of directory_buffer_size b 0 inode) [
        | none ↦ below
        | some part ↦ parts_above room s parent (part ∷ below)
      ]
    ]

unfoldable pub path_text : List Str → Str
path_text [] = codes "/"
path_text (part ∷ []) = codes "/" ++ part
path_text (part ∷ next ∷ parts) = codes "/" ++ part ++ path_text (next ∷ parts)

unfoldable pub update_path_display : Shell → Shell
update_path_display sh = record sh {
  current_path =
      if sh.current_inode == 1
      then codes "/"
      else path_text (parts_above 31 sh.session sh.current_inode []);
}

unfoldable pub with_session : Shell → Session → Shell
with_session sh s = record sh { session = s }

unfoldable pub change_directory : Shell → List Str → Shell
change_directory sh args =
    let (inode, s) = cd sh.current_inode args sh.session in
    let moved = record sh { session = s; current_inode = inode } in
    if inode == sh.current_inode then moved else update_path_display moved

-- The commands `flex`, `clear` and `ps` only draw on the screen; what they draw is not kept.
unfoldable pub run : ℕ → Shell → Str → List Str → Shell
run fuel sh cmd args =
    let s = sh.session in
    let cwd = sh.current_inode in
    if is_word cmd (codes "cd")
    then change_directory sh args
    else if is_word cmd (codes "ls")
    then with_session sh (ls cwd s)
    else if is_word cmd (codes "mkdir")
    then with_session sh (mkdir cwd args s)
    else if is_word cmd (codes "cat")
    then with_session sh (cat cwd args s)
    else if is_word cmd (codes "cp")
    then with_session sh (cp fuel cwd args s)
    else if is_word cmd (codes "rm")
    then with_session sh (rm fuel cwd args s)
    else if is_word cmd (codes "mv")
    then with_session sh (mv fuel cwd args s)
    else if is_word cmd (codes "find")
    then with_session sh (find fuel args s)
    else if is_word cmd (codes "echo")
    then with_session sh (echo cwd args s)
    else if is_word cmd (codes "flex") || is_word cmd (codes "clear") || is_word cmd (codes "ps")
    then sh
    else if is_word cmd (codes "touch")
    then with_session sh (touch cwd args s)
    else if is_word cmd (codes "kill")
    then with_session sh (kill args s)
    else if is_word cmd (codes "exec")
    then with_session sh (exec args s)
    else with_session sh (
        say s (
          (codes "Error: Command ", 0x4)
          ∷ (cmd, 0xF)
          ∷ (codes " is not available !!\n\n", 0x4)
          ∷ []))

unfoldable pub process_command : ℕ → Shell → Str → Shell
process_command fuel sh command = elim (argv command) [
  | [] ↦ sh
  | cmd ∷ args ↦ run fuel sh cmd args
]

-- The loop of `terminal` over the characters that the keyboard yields, 0 if there is none: the
-- line, with its newline, in the buffer. It ends with a newline, which may be missing.
unfoldable pub typed_line : List ℕ → Bytes → ℕ → Option (Bytes × ℕ)
typed_line [] command index = none
typed_line (c ∷ cs) command index = elim (c == 10) [
  | true ↦ some (poke command index c, index + 1)
  | false ↦ elim (c == 8) [
    | true ↦ elim (index == 0) [
      | true ↦ typed_line cs command index
      | false ↦ typed_line cs (poke command index 0) (index - 1)
    ]
    | false ↦ elim (c == 0) [
      | true ↦ typed_line cs command index
      | false ↦ typed_line cs (poke command index c) (index + 1)
    ]
  ]
]

-- What `terminal` prints while it reads keys: each character that it keeps, and each backspace that
-- takes one back.
unfoldable pub echoed : List ℕ → ℕ → List (Str × ℕ)
echoed [] index = []
echoed (c ∷ cs) index = elim (c == 10) [
  | true ↦ (c ∷ [], 0xF) ∷ []
  | false ↦ elim (c == 8) [
    | true ↦ elim (index == 0) [
      | true ↦ echoed cs index
      | false ↦ (c ∷ [], 0xF) ∷ echoed cs (index - 1)
    ]
    | false ↦ elim (c == 0) [
      | true ↦ echoed cs index
      | false ↦ (c ∷ [], 0xF) ∷ echoed cs (index + 1)
    ]
  ]
]

unfoldable pub prompt : Str → List (Str × ℕ)
prompt path =
    (codes "Atmint", 0xA)
    ∷ (codes "@LOSS-2025", 0xF)
    ∷ (codes ":", 0xF)
    ∷ (path, 0xB)
    ∷ (codes " $ ", 0xF)
    ∷ []

-- What is on the screen once a line has been typed.
unfoldable pub prompted : Shell → List ℕ → Shell
prompted sh keys =
    with_session sh
      (say sh.session (prompt sh.current_path ++ echoed keys 0 ++ (10 ∷ [], 0xF) ∷ []))

abbrev pub row_size : ℕ
row_size = 100

-- The rows of `command`, and the first of them.
abbrev pub command_size : ℕ
command_size = 10 * row_size

unfoldable pub clear_row : Bytes → Bytes
clear_row command i = if ltb i row_size then 0 else command i

-- The end of `terminal`, with the line that was read: the shell afterwards, and its buffer. What
-- `process_command` writes into the first row is gone when the row is cleared.
unfoldable pub finish_line : ℕ → Shell → List ℕ → Option (Bytes × ℕ) → Option (Shell × Bytes)
finish_line fuel sh keys none = none
finish_line fuel sh keys (some (command, index)) =
    some
      (process_command fuel (prompted sh keys) (text_in command_size command 0), clear_row command)

-- `keys` are the characters that the keyboard yields.
unfoldable pub terminal : ℕ → Shell → Bytes → List ℕ → Option (Shell × Bytes)
terminal fuel sh buffer keys = finish_line fuel sh keys (typed_line keys buffer 0)

-- The loop of `main`, for as many lines as are typed.
unfoldable pub terminals : ℕ → Shell → Bytes → List (List ℕ) → Option (Shell × Bytes)
terminals fuel sh buffer [] = some (sh, buffer)
terminals fuel sh buffer (keys ∷ lines) = elim (terminal fuel sh buffer keys) [
  | none ↦ none
  | some (sh1, buffer1) ↦ terminals fuel sh1 buffer1 lines
]
