-- ===== src/Shell/Entries.antt =====
-- The walk through a directory's entries that rm.c, cp.c and find.c of src/commands write out, and
-- the functions of rm.c that look for one.
pub mod Lookup
use mathlib.Core.Option
use loss_os.Prelude.{
  Option, none, some, ℕ, zero, suc, ◌+◌, ◌-◌, ◌*◌, ◌/◌, ◌%◌, Bool, true, false, not, ◌&&◌, ◌||◌,
  Bytes, zeroes, List, [], ◌∷◌, ◌++◌, length, as_bytes, ltb, leb, ◌==◌, if◌then◌else◌,
}
use loss_os.Text.{memcmp, is_zero}
use loss_os.Ext2.Layout.{
  directory_entry_size, entry_inode, entry_rec_len, entry_name_len, get_entry_name,
}
use loss_os.Shell.{Str, Session, directory_buffer_size, sys_read_directory, read_dot, request}

-- The offsets, from `off` on, of the entries that the walk visits. An entry that is not in use is
-- skipped; one whose record does not fit ends the walk. A walk that goes on after its rounds has no
-- answer.
unfoldable pub entries : ℕ → Bytes → ℕ → Option (List ℕ)
entries zero b off = none
entries (suc fuel) b off =
    let rec_len = entry_rec_len b off in
    let rest = entries fuel b (off + rec_len) in
    if leb directory_buffer_size off
    then some []
    else if entry_inode b off == 0
    then (if rec_len == 0 then some [] else rest)
    else if ltb directory_buffer_size (off + rec_len)
        || ltb rec_len (directory_entry_size + entry_name_len b off)
    then some []
    else Option.map (λ offs. off ∷ offs) rest

abbrev pub offsets : Option (List ℕ) → List ℕ
offsets none = []
offsets (some offs) = offs

-- One round more than the buffer has bytes.
abbrev pub listing : Bytes → List ℕ
listing b = offsets (entries (directory_buffer_size + 1) b 0)

-- `.` and `..`
unfoldable pub is_dots : Bytes → ℕ → Bool
is_dots b off =
    (entry_name_len b off == 1) && (b (get_entry_name off) == b'.')
    || (entry_name_len b off == 2)
      && (b (get_entry_name off) == b'.')
      && (b (get_entry_name off + 1) == b'.')

-- The loop of `is_dir_empty` that counts.
unfoldable pub count_entries : Bytes → List ℕ → ℕ
count_entries b [] = 0
count_entries b (off ∷ offs) =
    if is_dots b off then count_entries b offs else count_entries b offs + 1

unfoldable pub is_dir_empty : Session → ℕ → Str → Bool
is_dir_empty s parent_inode dirname =
    let (ret_code, b) =
      sys_read_directory s s.junk
        (request zeroes dirname parent_inode directory_buffer_size false) in
    if not (ret_code == 0) then false else count_entries b (listing b) == 0

unfoldable pub bears : Bytes → Str → ℕ → Bool
bears b name off =
    (entry_name_len b off == length name)
    && is_zero (memcmp b (get_entry_name off) (as_bytes name) 0 (entry_name_len b off))

-- The loop of `get_inode_by_name`.
unfoldable pub named_inode : Bytes → Str → List ℕ → ℕ
named_inode b name [] = 0
named_inode b name (off ∷ offs) =
    if bears b name off then entry_inode b off else named_inode b name offs

unfoldable pub get_inode_by_name : Session → ℕ → Str → ℕ
get_inode_by_name s parent_inode name =
    let (ret_code, b) = read_dot s s.junk zeroes parent_inode in
    if not (ret_code == 0) then 0 else named_inode b name (listing b)

-- The bytes of an entry's name up to a terminator: `memcpy(name, entry_name, name_len)` with a
-- terminator put behind, read as a string.
unfoldable pub chars_from : ℕ → Bytes → ℕ → Str
chars_from zero b at = []
chars_from (suc rounds) b at =
    let rest = chars_from rounds b (at + 1) in if b at == 0 then [] else b at ∷ rest

unfoldable pub child_name : Bytes → ℕ → Str
child_name b off = chars_from (entry_name_len b off) b (get_entry_name off)
