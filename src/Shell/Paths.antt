-- ===== src/Shell/Paths.antt =====
-- src/commands/cd.c: the walk along a path.
pub mod Split
pub mod Parents
use loss_os.Prelude.{
  ℕ, zero, suc, ◌+◌, ◌-◌, Bool, true, false, not, ◌&&◌, ◌||◌, Bytes, List, [], ◌∷◌, ◌++◌, length,
  get_or, as_bytes, codes, u8, ltb, leb, ◌==◌, if◌then◌else◌, Option, none, some,
}
use loss_os.Ext2.Layout.{
  entry_inode, entry_rec_len, entry_name_len, entry_file_type, get_entry_name, ft_dir,
}
use loss_os.Shell.{Str, Session, files, say, read_dot, directory_buffer_size}

-- The string test of cd.c: no difference up to the end of both.
unfoldable pub str_eq : Str → Str → Bool
str_eq [] [] = true
str_eq [] (d ∷ ds) = false
str_eq (c ∷ cs) [] = false
str_eq (c ∷ cs) (d ∷ ds) = (c == d) && str_eq cs ds

-- A component is stored if it has fewer than 63 characters, and if there is one at all.
unfoldable pub stored : Str → List Str
stored comp = if (length comp == 0) || leb 63 (length comp) then [] else comp ∷ []

-- The loop of `split_path`. `comp` is the component that has been started, `room` the number of
-- components that can still be stored. A slash behind another one is passed over.
unfoldable pub split_from : ℕ → Str → Str → List Str
split_from zero comp path = []
split_from (suc room) comp [] = stored comp
split_from (suc room) comp (c ∷ cs) = elim (c == b'/') [
  | true ↦ elim ((length comp == 0) || leb 63 (length comp)) [
    | true ↦ split_from (suc room) [] cs
    | false ↦ comp ∷ split_from room [] cs
  ]
  | false ↦ split_from (suc room) (comp ++ c ∷ []) cs
]

unfoldable pub split_path : Str → ℕ → List Str
split_path path max_components = split_from max_components [] path

unfoldable pub second_entry : Bytes → ℕ
second_entry b =
    let offset = entry_rec_len b 0 in
    if entry_rec_len b 0 == 0
    then 1
    else if leb directory_buffer_size offset
    then 1
    else if (entry_name_len b offset == 2)
        && (b (get_entry_name offset) == b'.')
        && (b (get_entry_name offset + 1) == b'.')
    then entry_inode b offset
    else 1

-- The buffers of cd.c are not initialised.
unfoldable pub get_parent_inode : Session → ℕ → ℕ
get_parent_inode s inode =
    let (ret_code, b) = read_dot s 0 (files s).stack inode in
    if inode == 1 then 1 else if not (ret_code == 0) then 1 else second_entry b

-- The loop that compares two names of `rounds` characters, at index `i`.
unfoldable pub same_chars : ℕ → ℕ → Bytes → ℕ → Bytes → Bool
same_chars zero i b at name = true
same_chars (suc rounds) i b at name =
    let rest = same_chars rounds (i + 1) b at name in if b (at + i) == name i then rest else false

-- The loop of `find_child_inode`, from `off` on: the child's inode, or 0. A loop that goes on after
-- its rounds has no answer.
unfoldable pub child_from : ℕ → Bytes → ℕ → Bytes → ℕ → Option ℕ
child_from zero b off name name_len = none
child_from (suc fuel) b off name name_len =
    let rec_len = entry_rec_len b off in
    let rest = child_from fuel b (off + rec_len) name name_len in
    if leb directory_buffer_size off
    then some 0
    else if (rec_len == 0) || ltb directory_buffer_size (off + rec_len)
    then some 0
    else if not (entry_inode b off == 0)
        && (entry_file_type b off == ft_dir)
        && (entry_name_len b off == name_len)
        && same_chars name_len 0 b (get_entry_name off) name
    then some (entry_inode b off)
    else rest

unfoldable pub find_child_inode : Session → ℕ → Str → ℕ
find_child_inode s parent_inode name =
    let (ret_code, b) = read_dot s 0 (files s).stack parent_inode in
    let found = child_from (directory_buffer_size + 1) b 0 (as_bytes name) (u8 (length name)) in
    if parent_inode == 0
    then 0
    else if not (ret_code == 0)
    then 0
    else elim found [ none ↦ 0 | some child ↦ child ]

-- The loop of `cd` over the components. The answer is the inode that was reached, or the component
-- at which the walk failed.
pub data Walk : Type 0 where
  reached : ℕ → Walk
  failed_at : Str → Walk

unfoldable pub walk : Session → List Str → ℕ → Walk
walk s [] target = reached target
walk s (comp ∷ comps) target =
    let parent = get_parent_inode s target in
    let up = if parent == 0 then target else parent in
    let child = find_child_inode s target comp in
    elim ((length comp == 0) || str_eq comp (codes ".")) [
      | true ↦ walk s comps target
      | false ↦ elim (str_eq comp (codes "..")) [
        | true ↦ walk s comps up
        | false ↦ elim (child == 0) [ true ↦ failed_at comp | false ↦ walk s comps child ]
      ]
    ]

-- `cd`: the new current inode beside what was printed.
unfoldable pub cd : ℕ → List Str → Session → ℕ × Session
cd current_inode [] s = (current_inode, say s ((codes "Usage: cd <path>\n\n", 0x7) ∷ []))
cd current_inode (path ∷ args) s =
    let start = if get_or path 0 0 == b'/' then 1 else current_inode in
    elim (walk s (split_path path 16) start) [
      | reached target ↦ (target, s)
      | failed_at comp ↦ (
        current_inode,
        say s ((codes "cd: ", 0x4) ∷ (comp, 0xF) ∷ (codes ": No such directory\n\n", 0x4) ∷ []),
      )
    ]
