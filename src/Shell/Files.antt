-- ===== src/Shell/Files.antt =====
-- src/commands: ls.c, mkdir.c, touch.c, cat.c, echo.c, exec.c and kill.c.
pub mod Reports
use mathlib.Core.Option
use loss_os.Prelude.{
  ℕ, zero, suc, ◌+◌, ◌-◌, ◌*◌, ◌%◌, ◌^◌, Bool, true, false, not, ◌&&◌, ◌||◌, ℤ, pos, negsuc, Bytes,
  zeroes, List, [], ◌∷◌, ◌++◌, length, get_or, as_bytes, codes, u8, u32, ltb, leb, ◌==◌,
  if◌then◌else◌, Option, none, some,
}
use loss_os.Text.{memcmp, is_zero}
use loss_os.Ext2.Layout.{
  entry_inode, entry_rec_len, entry_name_len, entry_file_type, get_entry_name, ft_dir,
}
use loss_os.Process.{CreateCode, process_create_user_process, process_destroy}
use loss_os.Shell.{
  Str, Session, files, say, request, return_word, minus_one, sys_read, sys_write, read_dot,
  directory_buffer_size,
}
use loss_os.Shell.Entries.{is_dots}

-- The bytes of an entry's name, all `name_len` of them.
unfoldable pub name_bytes : ℕ → Bytes → ℕ → Str
name_bytes zero b at = []
name_bytes (suc rounds) b at = b at ∷ name_bytes rounds b (at + 1)

-- The loop of `ls`, from `off` on: what it prints. A loop that goes on after its rounds has no
-- answer.
unfoldable pub ls_from : ℕ → Bytes → ℕ → Option (List (Str × ℕ))
ls_from zero b off = none
ls_from (suc fuel) b off =
    let rec_len = entry_rec_len b off in
    let rest = ls_from fuel b (off + rec_len) in
    let name = name_bytes (entry_name_len b off) b (get_entry_name off) in
    let suffix = if entry_file_type b off == ft_dir then (codes "/ ", 0xA) else (codes "  ", 0xF) in
    if leb directory_buffer_size off
    then some []
    else if (rec_len == 0) || ltb directory_buffer_size (off + rec_len)
    then some []
    else if (entry_inode b off == 0) || is_dots b off
    then rest
    else Option.map (λ texts. (name, 0xF) ∷ suffix ∷ texts) rest

unfoldable pub ls : ℕ → Session → Session
ls current_inode s =
    let (ret_code, b) = read_dot s 0 (files s).stack current_inode in
    if ret_code == 0
    then elim (ls_from (directory_buffer_size + 1) b 0) [
      | none ↦ s
      | some texts ↦ say s (texts ++ (codes "\n\n", 0xF) ∷ [])
    ]
    else say s ((codes "ls: cannot access directory\n\n", 0x7) ∷ [])

unfoldable pub mkdir : ℕ → List Str → Session → Session
mkdir current_inode [] s =
    if current_inode == 2
    then say s ((codes "mkdir: cannot add new folder in /bin directory\n\n", 0xC) ∷ [])
    else say s ((codes "Usage: mkdir <dir>\n\n", 0x7) ∷ [])
mkdir current_inode (dirname ∷ args) s =
    let (ret_code, s1) = sys_write s 0 (request zeroes dirname current_inode 0 true) in
    if current_inode == 2
    then say s ((codes "mkdir: cannot add new folder in /bin directory\n\n", 0xC) ∷ [])
    else if ret_code == minus_one
    then say s1 ((codes "mkdir failed\n\n", 0x7) ∷ [])
    else if ret_code == 1
    then say s1 ((codes "mkdir: directory already exists\n\n", 0x7) ∷ [])
    else say s1 ((codes "mkdir success\n\n", 0x7) ∷ [])

unfoldable pub touch : ℕ → List Str → Session → Session
touch current_inode [] s =
    if current_inode == 2
    then say s ((codes "touch: cannot add new file in /bin directory\n\n", 0xC) ∷ [])
    else say s ((codes "Usage: touch <filename>\n\n", 0xF) ∷ [])
touch current_inode (name ∷ args) s =
    let (ret_code, s1) = sys_write s s.junk (request zeroes name current_inode 0 false) in
    if current_inode == 2
    then say s ((codes "touch: cannot add new file in /bin directory\n\n", 0xC) ∷ [])
    else if ret_code == 1
    then say s1 ((codes "File already exists.\n\n", 0xC) ∷ [])
    else if ret_code == 2
    then say s1 ((codes "Parent directory not found.\n\n", 0xC) ∷ [])
    else if ret_code == 3
    then say s1 ((codes "Failed to create file.\n\n", 0xC) ∷ [])
    else s1

-- `strlen` of the buffer that was read, and the text: up to a terminator, or to the end of the
-- buffer's sixteen blocks, where the source would read on.
unfoldable pub text_in : ℕ → Bytes → ℕ → Str
text_in zero b at = []
text_in (suc rounds) b at =
    let rest = text_in rounds b (at + 1) in if b at == 0 then [] else b at ∷ rest

unfoldable pub cat : ℕ → List Str → Session → Session
cat current_inode [] s =
    if current_inode == 2
    then say s ((codes "cat: cannot access /bin directory\n\n", 0xC) ∷ [])
    else say s ((codes "Usage: cat <file>\n\n", 0xF) ∷ [])
cat current_inode (filename ∷ args) s =
    let (ret_code, buf) =
      sys_read s 0 (request (files s).stack filename current_inode 0x100000 false) in
    if current_inode == 2
    then say s ((codes "cat: cannot access /bin directory\n\n", 0xC) ∷ [])
    else if ret_code == 0
    then say s ((text_in directory_buffer_size buf 0, 0xF) ∷ (codes "\n\n", 0) ∷ [])
    else if ret_code == 1
    then say s ((codes "cat: read failure\n\n", 0xC) ∷ [])
    else if ret_code == 2
    then say s ((codes "cat: file not found: ", 0x4) ∷ (filename, 0xF) ∷ (codes "\n\n", 0) ∷ [])
    else if ret_code == minus_one
    then say s ((codes "cat: invalid error\n\n", 0xC) ∷ [])
    else s

unfoldable pub echo_usage : Session → Session
echo_usage s = say s ((codes "Usage: echo <text> [> <file_name>]\n\n", 0x7) ∷ [])

-- The words behind the command's name are `args`. The address of the return code is 0 here.
unfoldable pub echo : ℕ → List Str → Session → Session
echo current_inode [] s = echo_usage s
echo current_inode (text ∷ []) s = say s ((text, 0xF) ∷ (codes "\n", 0xF) ∷ [])
echo current_inode (text ∷ b ∷ []) s = echo_usage s
echo current_inode (text ∷ arrow ∷ file ∷ args) s =
    let s1 = (sys_write s 0 (request (as_bytes text) file current_inode (length text) false)).1 in
    if current_inode == 2
    then say s ((codes "echo: cannot add file in /bin directory\n\n", 0xC) ∷ [])
    else if (get_or arrow 0 0 == b'>') && ltb 0 (length file)
    then say s1 ((codes "\n", 0xF) ∷ [])
    else echo_usage s

abbrev pub code_number : CreateCode → ℕ
code_number CreateCode.success = 0
code_number CreateCode.max_process_exceeded = 1
code_number CreateCode.invalid_entrypoint = 2
code_number CreateCode.not_enough_memory = 3
code_number CreateCode.fs_read_failure = 4

unfoldable pub exec : List Str → Session → Session
exec [] s = say s ((codes "Usage: exec <program> [args...]\n\n", 0x7) ∷ [])
exec (program ∷ args) s =
    let (code, m, image) =
      process_create_user_process s.machine (request (files s).stack program 2 0x100000 false) 0 in
    let ret_code = return_word s.junk (pos (code_number code)) in
    let s1 = record s { machine = m } in
    if ret_code == 1
    then say s1 ((codes "exec: max process\n\n", 0xC) ∷ [])
    else if ret_code == 2
    then say s1 ((codes "exec: invalid entrypoint\n\n", 0xC) ∷ [])
    else if ret_code == 3
    then say s1 ((codes "exec: not enough memory\n\n", 0xC) ∷ [])
    else if ret_code == 4
    then say s1 ((codes "exec: read failure\n\n", 0xC) ∷ [])
    else s1

unfoldable pub skip_blanks : Str → Str
skip_blanks [] = []
skip_blanks (c ∷ cs) = if (c == b' ') || (c == 9) then skip_blanks cs else c ∷ cs

-- The loop of `atoi` over the digits, with the number so far; `none` is a character that is no
-- digit.
unfoldable pub digits_value : ℕ → Str → Option ℕ
digits_value result [] = some result
digits_value result (c ∷ cs) =
    let rest = digits_value (result * 10 + (c - b'0')) cs in
    if leb b'0' c && leb c b'9' then rest else none

-- The digits, of which there is one at least; -1 stands for an invalid number. An `int` that
-- overflows is not modelled.
unfoldable pub unsigned : Str → Option ℕ
unsigned [] = none
unsigned (c ∷ cs) = digits_value 0 (c ∷ cs)

unfoldable pub negate : ℕ → ℤ
negate zero = pos 0
negate (suc n) = negsuc n

unfoldable pub signed : Str → ℤ
signed [] = negsuc 0
signed (c ∷ cs) =
    if c == b'-'
    then elim (unsigned cs) [ none ↦ negsuc 0 | some n ↦ negate n ]
    else elim (unsigned (if c == b'+' then cs else c ∷ cs)) [ none ↦ negsuc 0 | some n ↦ pos n ]

unfoldable pub atoi : Str → ℤ
atoi string = signed (skip_blanks string)

-- An `int` as a `uint32_t`
unfoldable pub as_unsigned : ℤ → ℕ
as_unsigned (pos n) = u32 n
as_unsigned (negsuc n) = 2 ^ 32 - 1 - u32 n

unfoldable pub kill : List Str → Session → Session
kill [] s = say s ((codes "Usage: kill <pid>\n\n", 0xC) ∷ [])
kill (arg ∷ args) s =
    let pid = as_unsigned (atoi arg) in
    let (ret_code, m) = process_destroy s.machine pid in
    if pid == minus_one
    then say s ((codes "Invalid PID\n\n", 0xC) ∷ [])
    else if not ret_code
    then say (record s { machine = m }) ((codes "No such process\n\n", 0xC) ∷ [])
    else record s { machine = m }
