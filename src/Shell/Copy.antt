-- ===== src/Shell/Copy.antt =====
-- src/commands/cp.c and src/commands/mv.c. The recursion into directories takes fuel, one unit for
-- each level. A function that the source answers -1 or 0 answers whether it succeeded.
use loss_os.Prelude.{
  ℕ, zero, suc, Bool, true, false, not, ◌&&◌, Bytes, zeroes, List, [], ◌∷◌, codes, ltb, ◌==◌,
  if◌then◌else◌,
}
use loss_os.Ext2.Layout.{block_size, entry_name_len, entry_file_type, ft_dir, ft_reg_file}
use loss_os.Shell.{
  Str, Session, files, say, is_word, request, sys_read, sys_read_directory, sys_write, sys_delete,
  read_dot, directory_buffer_size,
}
use loss_os.Shell.Entries.{listing, is_dots, child_name, get_inode_by_name}
use loss_os.Shell.Remove.{remove_recursive}

unfoldable pub complain : Session → Str → Str → Session
complain s message name = say s ((message, 0x4) ∷ (name, 0xF) ∷ (codes "\n\n", 0xF) ∷ [])

-- `copy_file`: its buffer is not initialised.
unfoldable pub copy_one_file : ℕ → Str → ℕ → Str → Session → Bool × Session
copy_one_file src_inode src_name dest_inode dest_name s =
    let (read_code, buf) =
      sys_read s s.junk (request (files s).stack src_name src_inode directory_buffer_size false) in
    let (write_code, s1) =
      sys_write s s.junk (request buf dest_name dest_inode directory_buffer_size false) in
    if not (read_code == 0)
    then (false, complain s (codes "cp: cannot read source file ") src_name)
    else if not (write_code == 0)
    then (false, complain s1 (codes "cp: cannot write to destination ") dest_name)
    else (true, s1)

-- The loop of `copy_dir_recursive` over the entries of the source; `dir` copies a directory.
unfoldable pub copy_entries : (Str → Session → Session) → ℕ → ℕ → Bytes → List ℕ → Session → Session
copy_entries dir src dest b [] s = s
copy_entries dir src dest b (off ∷ offs) s =
    let child = child_name b off in
    let s1 =
      if entry_file_type b off == ft_dir
      then dir child s
      else if entry_file_type b off == ft_reg_file
      then (copy_one_file src child dest child s).1
      else s in
    copy_entries dir src dest b offs
      (if is_dots b off then s else if ltb (entry_name_len b off) 255 then s1 else s)

unfoldable pub copy_dir_recursive : ℕ → ℕ → Str → ℕ → Str → Session → Bool × Session
copy_dir_recursive zero src_inode src_name dest_inode dest_name s = (false, s)
copy_dir_recursive (suc fuel) src_inode src_name dest_inode dest_name s =
    let (mkdir_code, s1) = sys_write s s.junk (request zeroes dest_name dest_inode 0 true) in
    let src = get_inode_by_name s1 src_inode src_name in
    let dest = get_inode_by_name s1 dest_inode dest_name in
    let (ret_code, b) = read_dot s1 s1.junk zeroes src in
    let s2 =
      copy_entries (λ child t. (copy_dir_recursive fuel src child dest child t).1) src dest b
        (listing b) s1 in
    if not (mkdir_code == 0)
    then (false, complain s1 (codes "cp: cannot create destination directory ") dest_name)
    else if src == 0
    then (false, complain s1 (codes "cp: source directory not found ") src_name)
    else if dest == 0
    then (false, complain s1 (codes "cp: destination directory creation failed ") dest_name)
    else if not (ret_code == 0)
    then (false, complain s1 (codes "cp: cannot read source directory ") src_name)
    else (true, s2)

unfoldable pub cp_usage : Session → Session
cp_usage s = say s ((codes "Usage: cp [-r] <source> <destination>\n\n", 0x7) ∷ [])

-- Whether an inode can be read as a directory through its entry `.`, into a buffer of one block.
unfoldable pub opens_as_directory : Session → ℕ → Bool
opens_as_directory s inode =
    (sys_read_directory s s.junk (request (files s).stack (codes ".") inode block_size false)).0
    == 0

-- The part of `cp` behind its arguments.
unfoldable pub cp_source : ℕ → ℕ → Bool → Str → Str → Session → Session
cp_source fuel current_inode recursive source destination s =
    let src_inode = get_inode_by_name s current_inode source in
    let is_directory = opens_as_directory s src_inode in
    let (dir_copied, s1) =
      copy_dir_recursive fuel current_inode source current_inode destination s in
    let (file_copied, s2) = copy_one_file current_inode source current_inode destination s in
    if src_inode == 0
    then complain s (codes "cp: source not found: ") source
    else if src_inode == 2
    then say s ((codes "cp: cannot copy from /bin directory\n\n", 0xC) ∷ [])
    else if is_directory && not recursive
    then say s (
        (codes "cp: ", 0x4)
        ∷ (source, 0xF)
        ∷ (codes " is a directory (use -r for recursive copy)\n\n", 0x4)
        ∷ [])
    else if is_directory
    then (if dir_copied then say s1 ((codes "Directory copied successfully\n\n", 0x7) ∷ []) else s1)
    else if file_copied
    then say s2 ((codes "File copied successfully\n\n", 0x7) ∷ [])
    else s2

-- The words behind the command's name are `args`; further words are ignored.
unfoldable pub cp : ℕ → ℕ → List Str → Session → Session
cp fuel current_inode [] s = cp_usage s
cp fuel current_inode (a ∷ []) s = cp_usage s
cp fuel current_inode (a ∷ b ∷ []) s =
    if is_word a (codes "-r") then cp_usage s else cp_source fuel current_inode false a b s
cp fuel current_inode (a ∷ b ∷ c ∷ args) s =
    if is_word a (codes "-r")
    then cp_source fuel current_inode true b c s
    else cp_source fuel current_inode false a b s

-- The part of `mv` that removes the source after the copy.
unfoldable pub remove_source : ℕ → ℕ → Bool → Str → Session → Session
remove_source fuel current_inode is_directory source s =
    let (code, s1) = sys_delete s s.junk (request zeroes source current_inode 0 false) in
    let done = (codes "Move completed successfully\n\n", 0x7) ∷ [] in
    if is_directory
    then say (remove_recursive fuel current_inode source s) done
    else if not (code == 0)
    then say s1 (
        (codes "mv: failed to remove source after copy: ", 0x4)
        ∷ (source, 0xF)
        ∷ (codes "\n", 0xF)
        ∷ [])
    else say s1 done

unfoldable pub mv_source : ℕ → ℕ → Str → Str → Session → Session
mv_source fuel current_inode source destination s =
    let src_inode = get_inode_by_name s current_inode source in
    let dest_inode = get_inode_by_name s current_inode destination in
    let is_directory = opens_as_directory s src_inode in
    let (copied, s1) =
      if is_directory
      then copy_dir_recursive fuel current_inode source current_inode destination s
      else copy_one_file current_inode source current_inode destination s in
    if src_inode == 0
    then complain s (codes "mv: source not found: ") source
    else if not (dest_inode == 0)
    then complain s (codes "mv: destination already exists: ") destination
    else if src_inode == 2
    then say s ((codes "mv: cannot access /bin directory\n\n", 0xC) ∷ [])
    else if copied
    then remove_source fuel current_inode is_directory source s1
    else say s1 ((codes "mv: failed to copy source to destination\n\n", 0x4) ∷ [])

unfoldable pub mv : ℕ → ℕ → List Str → Session → Session
mv fuel current_inode [] s = say s ((codes "Usage: mv <source> <destination>\n\n", 0x7) ∷ [])
mv fuel current_inode (a ∷ []) s = say s ((codes "Usage: mv <source> <destination>\n\n", 0x7) ∷ [])
mv fuel current_inode (a ∷ b ∷ args) s = mv_source fuel current_inode a b s
