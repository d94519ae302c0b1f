-- ===== src/Shell/Find.antt =====
-- src/commands/find.c. The recursion into directories takes fuel, one unit for each level.
use loss_os.Prelude.{
  ℕ, zero, suc, ◌+◌, Bool, not, ◌&&◌, ◌||◌, Bytes, zeroes, Option, none, some, List, [], ◌∷◌, ◌++◌,
  length, as_bytes, codes, ltb, ◌==◌, if◌then◌else◌,
}
use loss_os.Text.{memcmp, is_zero}
use loss_os.Ext2.Layout.{
  entry_inode, entry_name_len, entry_file_type, get_entry_name, ft_dir, ft_reg_file,
}
use loss_os.Shell.{Str, Session, say, is_word, read_dot, directory_buffer_size}
use loss_os.Shell.Entries.{listing}
use loss_os.Shell.Files.{text_in}

-- `append` on two strings: none if the buffer of `size` bytes is too small.
unfoldable pub append_text : Str → Str → ℕ → Option Str
append_text dest src size =
    if ltb size (length dest + length src + 1) then none else some (dest ++ src)

-- The name as the string functions see it: they read on until a terminator.
unfoldable pub name_string : Bytes → ℕ → Str
name_string b off = text_in directory_buffer_size b (get_entry_name off)

unfoldable pub path_size : Str → Bytes → ℕ → ℕ
path_size path b off = length path + entry_name_len b off + 5

-- The path of an entry; a slash that does not fit is left away.
unfoldable pub entry_path : Str → Bytes → ℕ → Option Str
entry_path path b off = append_text path (name_string b off) (path_size path b off)

unfoldable pub with_slash : Str → ℕ → Str
with_slash path size = elim (append_text path (codes "/") size) [ none ↦ path | some p ↦ p ]

unfoldable pub is_target : Str → Bytes → ℕ → Bool
is_target target b off =
    is_zero (memcmp (as_bytes target) 0 b (get_entry_name off) (entry_name_len b off))

unfoldable pub starts_with_dot : Bytes → ℕ → Bool
starts_with_dot b off = b (get_entry_name off) == b'.'

unfoldable pub found : Session → Str → Session
found s path = say s ((path, 0xF) ∷ (codes "\n\n", 0xF) ∷ [])

-- One directory of the walk; `inner` walks through it.
unfoldable pub find_directory :
    (Str → Session → Session) → Str → Str → Bytes → ℕ → Session → Session
find_directory inner target path b off s = elim (entry_path path b off) [
  | none ↦ say s ((codes "Error when appending folder name to path\n\n", 0xC) ∷ [])
  | some p ↦
      let new_path = with_slash p (path_size path b off) in
      inner new_path (if is_target target b off then found s new_path else s)
]

unfoldable pub find_file : Str → Str → Bytes → ℕ → Session → Session
find_file target path b off s = elim (entry_path path b off) [
  | none ↦ say s ((codes "Error when appending file name to path\n\n", 0xC) ∷ [])
  | some new_path ↦ if is_target target b off then found s new_path else s
]

-- The loop over the entries; `inner` walks through the directory of an inode.
unfoldable pub find_entries :
    (ℕ → Str → Session → Session) → Str → Str → Bytes → List ℕ → Session → Session
find_entries inner target path b [] s = s
find_entries inner target path b (off ∷ offs) s = find_entries inner target path b offs (
    if (entry_file_type b off == ft_dir) && not (starts_with_dot b off)
    then find_directory (inner (entry_inode b off)) target path b off s
    else if entry_file_type b off == ft_reg_file
    then find_file target path b off s
    else s)

unfoldable pub find_recursive : ℕ → Str → ℕ → Str → Session → Session
find_recursive zero target parent_inode path s = s
find_recursive (suc fuel) target parent_inode path s =
    let (ret_code, b) = read_dot s s.junk zeroes parent_inode in
    let walked =
      find_entries (λ inode p t. find_recursive fuel target inode p t) target path b (listing b)
        s in
    if ret_code == 0 then walked else say s ((codes "find: cannot access directory\n\n", 0x7) ∷ [])

-- The second text is printed with the length of the first, so with what stands behind it in memory;
-- only the text itself is kept here.
unfoldable pub find : ℕ → List Str → Session → Session
find fuel [] s = say s ((codes "Usage: find <name>\n\n", 0x7) ∷ [])
find fuel (arg ∷ args) s =
    if is_word arg (codes "-h") || is_word arg (codes "--help")
    then say s (
        (codes "Find any file/folder with name specified.\n", 0xF)
        ∷ (codes "\n\nUsage: find <name>\n\n", 0xB)
        ∷ [])
    else find_recursive fuel arg 1 (codes "/") s
