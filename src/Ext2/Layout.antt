-- ===== src/Ext2/Layout.antt =====
-- The on-disk structures of src/header/filesystem/ext2.h and the helpers at the head of
-- src/filesystem/ext2.c that compute with them. The macros are written as the preprocessor expands
-- them.
use loss_os.Prelude.{
  ℕ, ◌+◌, ◌-◌, ◌*◌, ◌/◌, ◌%◌, ◌^◌, bit_and, Bool, Bytes, u8, u16, u32, peek16, peek32, poke16,
  poke32, ◌==◌, if◌then◌else◌,
}

abbrev pub block_size : ℕ
block_size = 512

abbrev pub disk_space : ℕ
disk_space = 4194304

-- `sizeof` of the packed structures
abbrev pub group_descriptor_size : ℕ
group_descriptor_size = 32

abbrev pub inode_size : ℕ
inode_size = 70

abbrev pub directory_entry_size : ℕ
directory_entry_size = 9

-- `(BLOCK_SIZE / sizeof(struct EXT2BlockGroupDescriptor)) / 2u`
abbrev pub groups_count : ℕ
groups_count = block_size / group_descriptor_size / 2

-- `(DISK_SPACE / BLOCK_SIZE / GROUPS_COUNT)`: the text of `GROUPS_COUNT` has no parentheses of its
-- own, so the division by two is done last.
abbrev pub blocks_per_group : ℕ
blocks_per_group = disk_space / block_size / (block_size / group_descriptor_size) / 2

abbrev pub inodes_per_table : ℕ
inodes_per_table = block_size / inode_size

abbrev pub inodes_table_block_count : ℕ
inodes_table_block_count = 16

abbrev pub inodes_per_group : ℕ
inodes_per_group = inodes_per_table * inodes_table_block_count

abbrev pub ifreg : ℕ
ifreg = 0x8000

abbrev pub ifdir : ℕ
ifdir = 0x4000

abbrev pub ft_reg_file : ℕ
ft_reg_file = 1

abbrev pub ft_dir : ℕ
ft_dir = 2

pub record Superblock : Type 0 where
  pub s_inodes_count : ℕ
  pub s_blocks_count : ℕ
  pub s_r_blocks_count : ℕ
  pub s_free_blocks_count : ℕ
  pub s_free_inodes_count : ℕ
  pub s_first_data_block : ℕ
  pub s_first_ino : ℕ
  pub s_blocks_per_group : ℕ
  pub s_frags_per_group : ℕ
  pub s_inodes_per_group : ℕ
  pub s_magic : ℕ
  pub s_prealloc_blocks : ℕ
  pub s_prealloc_dir_blocks : ℕ

pub record GroupDescriptor : Type 0 where
  pub bg_block_bitmap : ℕ
  pub bg_inode_bitmap : ℕ
  pub bg_inode_table : ℕ
  pub bg_free_blocks_count : ℕ
  pub bg_free_inodes_count : ℕ
  pub bg_used_dirs_count : ℕ
  pub bg_pad : ℕ
  pub bg_reserved : ℕ → ℕ

-- A value of `struct EXT2Inode`. `i_block` is read as the bytes behind the struct past its end.
pub record Inode : Type 0 where
  pub i_mode : ℕ
  pub i_size : ℕ
  pub i_blocks : ℕ
  pub i_block : ℕ → ℕ

-- `struct EXT2DriverRequest`, with the memory that its two pointers lead to.
pub record DriverRequest : Type 0 where
  pub buf : Bytes
  pub name : Bytes
  pub name_len : ℕ
  pub parent_inode : ℕ
  pub buffer_size : ℕ
  pub is_directory : Bool

-- The fields of the directory entry at byte `off` of a buffer.
abbrev pub entry_inode : Bytes → ℕ → ℕ
entry_inode b off = peek32 b off

abbrev pub entry_rec_len : Bytes → ℕ → ℕ
entry_rec_len b off = peek16 b (off + 4)

abbrev pub entry_name_len : Bytes → ℕ → ℕ
entry_name_len b off = peek16 b (off + 6)

abbrev pub entry_file_type : Bytes → ℕ → ℕ
entry_file_type b off = b (off + 8)

-- `get_entry_name`
abbrev pub get_entry_name : ℕ → ℕ
get_entry_name entry = entry + directory_entry_size

-- `get_next_directory_entry`
abbrev pub get_next_directory_entry : Bytes → ℕ → ℕ
get_next_directory_entry b entry = entry + entry_rec_len b entry

-- The argument is a `uint8_t`.
unfoldable pub get_entry_record_len : ℕ → ℕ
get_entry_record_len name_len =
    let size = u16 (directory_entry_size + u8 name_len) in
    let rec_len = u16 (bit_and (size + 3) (2 ^ 32 - 4)) in
    if rec_len == 0 then block_size else rec_len

unfoldable pub inode_to_bgd : ℕ → ℕ
inode_to_bgd inode = if inode == 0 then 0 else (inode - 1) / inodes_per_group

unfoldable pub inode_to_local : ℕ → ℕ
inode_to_local inode = if inode == 0 then 0 else (inode - 1) % inodes_per_group

-- `get_dir_first_child_offset`: the record lengths of the first two entries.
unfoldable pub get_dir_first_child_offset : Bytes → ℕ
get_dir_first_child_offset b =
    u32 (entry_rec_len b 0 + entry_rec_len b (get_next_directory_entry b 0))

-- The inode of index `k` in an inode-table block, read and written.
unfoldable pub get_inode : Bytes → ℕ → Inode
get_inode b k = record {
  i_mode = peek16 b (inode_size * k);
  i_size = peek32 b (inode_size * k + 2);
  i_blocks = peek32 b (inode_size * k + 6);
  i_block = λ j. peek32 b (inode_size * k + 10 + 4 * j);
}

unfoldable pub put_pointers : ℕ → ℕ → (ℕ → ℕ) → Bytes → ℕ → Bytes
put_pointers ℕ.zero j p b at = b
put_pointers (ℕ.suc n) j p b at = put_pointers n (j + 1) p (poke32 b (at + 4 * j) (p j)) at

-- `table[k] = *node`
unfoldable pub put_inode : Bytes → ℕ → Inode → Bytes
put_inode b k node =
    let at = inode_size * k in
    put_pointers 15 0 node.i_block
      (poke32 (poke32 (poke16 b at node.i_mode) (at + 2) node.i_size) (at + 6) node.i_blocks)
      (at + 10)

-- `memset(&table[k], 0, sizeof(struct EXT2Inode))`
unfoldable pub erase_inode : Bytes → ℕ → Bytes
erase_inode b k = put_inode b k (record { i_mode = 0; i_size = 0; i_blocks = 0; i_block = λ _. 0 })
