-- ===== src/Shell/Remove.antt =====
-- src/commands/rm.c. The recursion into directories takes fuel, one unit for each level.
use loss_os.Prelude.{
  ℕ, zero, suc, true, false, not, Bytes, zeroes, List, [], ◌∷◌, codes, ltb, ◌==◌, if◌then◌else◌,
}
use loss_os.Ext2.Layout.{entry_name_len}
use loss_os.Shell.{Str, Session, say, is_word, minus_one, request, sys_delete, read_dot}
use loss_os.Shell.Entries.{listing, is_dots, child_name, get_inode_by_name}

-- The names that are collected for removal, `room` of them at most.
unfoldable pub collect : ℕ → Bytes → List ℕ → List Str
collect zero b offs = []
collect (suc room) b [] = []
collect (suc room) b (off ∷ offs) =
    let kept = child_name b off ∷ collect room b offs in
    let passed = collect (suc room) b offs in
    if is_dots b off then passed else if ltb (entry_name_len b off) 255 then kept else passed

unfoldable pub for_each : (Str → Session → Session) → List Str → Session → Session
for_each f [] s = s
for_each f (name ∷ names) s = for_each f names (f name s)

unfoldable pub reason : ℕ → Str
reason code =
    if code == 1
    then codes " (not found)"
    else if code == 2
    then codes " (not empty)"
    else codes " (unknown error)"

-- The removal of the directory itself, after its content. `before` is the code of the first
-- attempt.
unfoldable pub remove_directory : Session → ℕ → ℕ → Str → Session
remove_directory s before parent_inode name =
    let (code, s1) = sys_delete s before (request zeroes name parent_inode 0 true) in
    if not (code == 0)
    then say s1 (
        (codes "rm: failed to remove directory ", 0x4)
        ∷ (name, 0xF)
        ∷ (reason code, 0x4)
        ∷ (codes "\n\n", 0xF)
        ∷ [])
    else s1

unfoldable pub remove_recursive : ℕ → ℕ → Str → Session → Session
remove_recursive zero parent_inode name s = s
remove_recursive (suc fuel) parent_inode name s =
    let (code, s1) = sys_delete s s.junk (request zeroes name parent_inode 0 false) in
    let target = get_inode_by_name s1 parent_inode name in
    let (ret_code, b) = read_dot s1 s1.junk zeroes target in
    let s2 = for_each (remove_recursive fuel target) (collect 64 b (listing b)) s1 in
    if code == 0
    then s1
    else if target == 0
    then say s1 ((codes "rm: cannot find ", 0x4) ∷ (name, 0xF) ∷ (codes "\n\n", 0xF) ∷ [])
    else if not (ret_code == 0)
    then say s1 ((codes "rm: cannot access ", 0x4) ∷ (name, 0xF) ∷ (codes "\n\n", 0xF) ∷ [])
    else remove_directory s2 code parent_inode name

-- What `rm` prints for one target, by the code of the second attempt.
unfoldable pub rm_report : Session → Str → ℕ → Session
rm_report s target code =
    if code == 2
    then say s (
        (codes "rm: directory not empty (use -r for recursive removal): ", 0x4)
        ∷ (target, 0xF)
        ∷ (codes "\n\n", 0xF)
        ∷ [])
    else if code == 1
    then say s (
        (codes "rm: cannot remove '", 0x4)
        ∷ (target, 0xF)
        ∷ (codes "': No such file or directory\n\n", 0x4)
        ∷ [])
    else if code == minus_one
    then say s ((codes "rm: failed to remove ", 0x4) ∷ (target, 0xF) ∷ (codes "\n\n", 0xF) ∷ [])
    else if code == 0
    then say s ((codes "Removed directory: ", 0x7) ∷ (target, 0xF) ∷ (codes "\n\n", 0xF) ∷ [])
    else s

unfoldable pub rm_target : ℕ → Str → Session → Session
rm_target current_inode target s =
    let (code, s1) = sys_delete s s.junk (request zeroes target current_inode 0 false) in
    let (code2, s2) = sys_delete s1 code (request zeroes target current_inode 0 true) in
    if not (code == 0)
    then rm_report s2 target code2
    else say s1 ((codes "Removed: ", 0x7) ∷ (target, 0xF) ∷ (codes "\n\n", 0xF) ∷ [])

unfoldable pub rm_usage : Session → Session
rm_usage s = say s ((codes "Usage: rm [-r] <file|directory>\n\n", 0x7) ∷ [])

-- The targets behind the command's name and its flag.
unfoldable pub rm_targets : ℕ → ℕ → List Str → Session → Session
rm_targets fuel current_inode [] s = rm_usage s
rm_targets fuel current_inode (arg ∷ args) s =
    if is_word arg (codes "-r")
    then elim args [
      | [] ↦ rm_usage s
      | target ∷ targets ↦ for_each (remove_recursive fuel current_inode) (target ∷ targets) s
    ]
    else for_each (rm_target current_inode) (arg ∷ args) s

-- The words behind the command's name are `args`.
unfoldable pub rm : ℕ → ℕ → List Str → Session → Session
rm fuel current_inode args s =
    if current_inode == 2
    then say s ((codes "rm: cannot remove file from /bin directory\n\n", 0xC) ∷ [])
    else rm_targets fuel current_inode args s
