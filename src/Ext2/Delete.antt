-- ===== src/Ext2/Delete.antt =====
-- `delete` of src/filesystem/ext2.c.
pub mod Located
pub mod Answers
pub mod Found
pub mod Merged
pub mod Removed
use loss_os.Prelude.{
  ℕ, zero, suc, ◌+◌, Bytes, not, Option, none, some, ℤ, pos, negsuc, poke, poke16, poke32, u16, leb,
  ◌==◌, if◌then◌else◌,
}
use loss_os.Ext2.Layout.{
  DriverRequest, block_size, ft_dir, ft_reg_file, entry_inode, entry_rec_len, entry_name_len,
  entry_file_type, get_entry_name,
}
use loss_os.Ext2.Device.{Fs, read_blocks, write_blocks, sync_metadata, load_node}
use loss_os.Ext2.Nodes.{is_dir_mode, deallocate_node}
use loss_os.Ext2.Directory.{entry_matches, is_directory_empty}

-- The entry that bears the name, and the one before it in the block.
pub record Hit : Type 0 where
  pub offset : ℕ
  pub prev : Option ℕ

-- The loop over the entries of a block. Here a record length of 0 is tested first.
unfoldable pub locate : ℕ → Bytes → ℕ → Option ℕ → Bytes → ℕ → Option Hit
locate zero b off prev name name_len = none
locate (suc fuel) b off prev name name_len =
    let rec_len = entry_rec_len b off in
    let rest = locate fuel b (off + rec_len) (some off) name name_len in
    if leb block_size off
    then none
    else if rec_len == 0
    then none
    else if entry_matches b off name name_len
    then some (record { offset = off; prev = prev })
    else rest

-- Over the blocks of the directory; a zero pointer is passed over.
unfoldable pub locate_block : ℕ → ℕ → Fs → (ℕ → ℕ) → Bytes → ℕ → Option (ℕ × Hit)
locate_block zero bi s pointers name name_len = none
locate_block (suc rounds) bi s pointers name name_len =
    let block_id = pointers bi in
    let rest = locate_block rounds (bi + 1) s pointers name name_len in
    if block_id == 0
    then rest
    else elim (locate block_size (read_blocks s block_id) 0 none name name_len) [
      | some hit ↦ some (block_id, hit)
      | none ↦ rest
    ]

-- `get_entry_name(entry)[i] = 0`, for `n` bytes of the name from `i` on. The counter is a byte, and
-- so is the length of a name that `write` has stored.
unfoldable pub wipe_name : ℕ → ℕ → Bytes → ℕ → Bytes
wipe_name zero i b entry = b
wipe_name (suc n) i b entry = wipe_name n (i + 1) (poke b (get_entry_name entry + i) 0) entry

-- The entry's record goes to the entry before it; the first entry of a block only loses its inode.
unfoldable pub remove_entry : Bytes → Hit → Bytes
remove_entry b hit =
    let off = hit.offset in
    elim hit.prev [
      | none ↦ poke32 b off 0
      | some p ↦
          let b1 = poke16 b (p + 4) (u16 (entry_rec_len b p + entry_rec_len b off)) in
          let b2 = poke16 (poke32 b1 off 0) (off + 4) 0 in
          let b3 = wipe_name (entry_name_len b2 off) 0 b2 off in
          poke16 (poke b3 (off + 8) 0) (off + 6) 0
    ]

-- `delete`, once the entry has been found.
unfoldable pub delete_entry : Fs → DriverRequest → ℕ → Hit → ℤ × Fs
delete_entry s r block_id hit =
    let b = read_blocks s block_id in
    let target = entry_inode b hit.offset in
    let file_type = entry_file_type b hit.offset in
    let gone =
      sync_metadata (write_blocks (deallocate_node s target) (remove_entry b hit) block_id) in
    if target == 0
    then (pos 1, s)
    else if r.is_directory
    then if not (file_type == ft_dir)
      then (pos 1, s)
      else if not (is_directory_empty s target)
      then (pos 2, s)
      else (pos 0, gone)
    else if not (file_type == ft_reg_file)
    then (pos 1, s)
    else (pos 0, gone)

unfoldable pub delete : Fs → DriverRequest → ℤ × Fs
delete s r =
    let parent = load_node s r.parent_inode in
    if r.parent_inode == 0
    then (negsuc 0, s)
    else if not (is_dir_mode parent)
    then (negsuc 0, s)
    else elim (locate_block parent.i_blocks 0 s parent.i_block r.name r.name_len) [
      | none ↦ (pos 1, s)
      | some (block_id, hit) ↦ delete_entry s r block_id hit
    ]
