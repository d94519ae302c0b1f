-- ===== src/Ext2/Directory.antt =====
-- Directory blocks in src/filesystem/ext2.c: how one is laid out, and the loops that walk through
-- its entries. A walk takes one unit of fuel for an entry; a block has at most 512.
pub mod Blocks
pub mod Chain
pub mod Walk
pub mod Entries
pub mod Dots
pub mod Made
use loss_os.Prelude.{
  ℕ, zero, suc, ◌+◌, ◌-◌, ◌*◌, Bytes, Bool, not, ◌&&◌, Option, none, some, poke, poke16, poke32,
  leb, ◌==◌, if◌then◌else◌,
}
use loss_os.Text.{memcmp, is_zero}
use loss_os.Ext2.Layout.{
  Inode, block_size, blocks_per_group, inodes_table_block_count, ifdir, ft_dir, entry_inode,
  entry_rec_len, entry_name_len, entry_file_type, get_entry_name, get_next_directory_entry,
  get_entry_record_len, inode_to_bgd,
}
use loss_os.Ext2.Device.{Fs, read_blocks, write_blocks, zeroed, sync_metadata, load_node}
use loss_os.Ext2.Bitmap.{allocate_block, block_bitmap}
use loss_os.Ext2.Nodes.{is_dir_mode}

-- The fields of an entry, without its name.
unfoldable pub put_entry : Bytes → ℕ → ℕ → ℕ → ℕ → ℕ → Bytes
put_entry b off inode rec_len name_len file_type =
    poke (poke16 (poke16 (poke32 b off inode) (off + 4) rec_len) (off + 6) name_len) (off + 8)
      file_type

-- The block of a new directory: `.` and `..`.
unfoldable pub dot_entries : Bytes → ℕ → ℕ → Bytes
dot_entries b inode parent_inode =
    let first = get_entry_record_len 1 in
    let b1 = poke (put_entry b 0 inode first 1 ft_dir) (get_entry_name 0) b'.' in
    let b2 = put_entry b1 first parent_inode (block_size - first) 2 ft_dir in
    poke (poke b2 (get_entry_name first) b'.') (get_entry_name first + 1) b'.'

-- Where a directory goes if the file system has no bitmap yet or no block is free.
unfoldable pub fallback_block : ℕ → ℕ
fallback_block bgd = (if bgd == 0 then 5 else bgd * blocks_per_group + 2) + inodes_table_block_count

unfoldable pub directory_block : Fs → ℕ → ℕ × Fs
directory_block s bgd =
    if block_bitmap s 0 == 0
    then (fallback_block bgd, s)
    else elim (allocate_block s bgd) [ none ↦ (fallback_block bgd, s) | some (num, s1) ↦ (num, s1) ]

-- The new node beside the new state.
unfoldable pub init_directory_table : Fs → Inode → ℕ → ℕ → Fs × Inode
init_directory_table s node inode parent_inode =
    let (dir_block, s1) = directory_block s (inode_to_bgd inode) in
    let s2 = write_blocks s1 (dot_entries (zeroed s1) inode parent_inode) dir_block in
    let pointers = λ (j : ℕ). if j == 0 then dir_block else node.i_block j in
    (
      if block_bitmap s2 0 == 0 then s2 else sync_metadata s2,
      record { i_mode = ifdir; i_size = block_size; i_blocks = 1; i_block = pointers },
    )

-- An entry in use that bears the name.
unfoldable pub entry_matches : Bytes → ℕ → Bytes → ℕ → Bool
entry_matches b off name name_len =
    not (entry_inode b off == 0)
    && (entry_name_len b off == name_len)
    && is_zero (memcmp b (get_entry_name off) name 0 name_len)

-- The loop of `read`, `read_directory` and `get_inode_for_path` over one block, from offset `off`
-- on: the offset of the first entry that bears the name.
unfoldable pub search_block : ℕ → Bytes → ℕ → Bytes → ℕ → Option ℕ
search_block zero b off name name_len = none
search_block (suc fuel) b off name name_len =
    let rec_len = entry_rec_len b off in
    let rest = search_block fuel b (off + rec_len) name name_len in
    if leb block_size off
    then none
    else if entry_matches b off name name_len
    then some off
    else if rec_len == 0
    then none
    else rest

-- The loop over the blocks of a directory; a zero pointer ends it. The answer is the entry's inode
-- and file type.
unfoldable pub search_blocks : ℕ → ℕ → Fs → (ℕ → ℕ) → Bytes → ℕ → Option (ℕ × ℕ)
search_blocks zero bi s pointers name name_len = none
search_blocks (suc rounds) bi s pointers name name_len =
    let block_id = pointers bi in
    let b = read_blocks s block_id in
    let rest = search_blocks rounds (bi + 1) s pointers name name_len in
    if block_id == 0 then none else elim (search_block block_size b 0 name name_len) [
      | some off ↦ some (entry_inode b off, entry_file_type b off)
      | none ↦ rest
    ]

unfoldable pub find_entry : Fs → Inode → Bytes → ℕ → Option (ℕ × ℕ)
find_entry s parent name name_len = search_blocks parent.i_blocks 0 s parent.i_block name name_len

-- `get_next_directory_entry` is never NULL here: its argument is not.
unfoldable pub is_directory_empty : Fs → ℕ → Bool
is_directory_empty s inode =
    let node = load_node s inode in
    let b = read_blocks s (node.i_block 0) in
    let third = get_next_directory_entry b (get_next_directory_entry b 0) in
    is_dir_mode node && (entry_inode b third == 0)
