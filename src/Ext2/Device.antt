-- ===== src/Ext2/Device.antt =====
-- The state of src/filesystem/ext2.c: the disk behind `read_blocks` and `write_blocks`, and the two
-- static caches. Every call moves one block.
pub mod Access
pub mod Serial
pub mod Caches
pub mod InodeBytes
pub mod Inodes
use loss_os.Prelude.{
  ℕ, zero, suc, ◌+◌, ◌*◌, ◌%◌, ◌/◌, Bytes, update, ltb, if◌then◌else◌, u32, peek16, peek32, poke,
  poke16, poke32,
}
use loss_os.Ext2.Layout.{
  Superblock, GroupDescriptor, Inode, block_size, group_descriptor_size, groups_count,
  inodes_per_table, inode_to_bgd, inode_to_local, get_inode, put_inode,
}

-- `stack` is what an uninitialised buffer holds: a `struct BlockBuffer` has 16 blocks and a read
-- fills the first. Bytes of a disk block past 512 do not exist: no read returns them.
pub record Fs : Type 0 where
  pub disk : ℕ → Bytes
  pub stack : Bytes
  pub super_block : Superblock
  pub bgdt_cache : ℕ → GroupDescriptor

unfoldable pub read_blocks : Fs → ℕ → Bytes
read_blocks s lba i = if ltb i block_size then s.disk lba i else s.stack i

unfoldable pub write_blocks : Fs → Bytes → ℕ → Fs
write_blocks s buf lba = record s { disk = update s.disk lba buf }

-- A buffer after `memset(&buf, 0, BLOCK_SIZE)`.
unfoldable pub zeroed : Fs → Bytes
zeroed s i = if ltb i block_size then 0 else s.stack i

-- `memcpy(buf.buf, &superBlock, sizeof(superBlock))` and back
unfoldable pub put_superblock : Bytes → Superblock → Bytes
put_superblock b0 sb =
    let b1 = poke32 b0 0 sb.s_inodes_count in
    let b2 = poke32 b1 4 sb.s_blocks_count in
    let b3 = poke32 b2 8 sb.s_r_blocks_count in
    let b4 = poke32 b3 12 sb.s_free_blocks_count in
    let b5 = poke32 b4 16 sb.s_free_inodes_count in
    let b6 = poke32 b5 20 sb.s_first_data_block in
    let b7 = poke32 b6 24 sb.s_first_ino in
    let b8 = poke32 b7 28 sb.s_blocks_per_group in
    let b9 = poke32 b8 32 sb.s_frags_per_group in
    let b10 = poke32 b9 36 sb.s_inodes_per_group in
    let b11 = poke16 b10 40 sb.s_magic in
    let b12 = poke b11 42 sb.s_prealloc_blocks in poke b12 43 sb.s_prealloc_dir_blocks

unfoldable pub get_superblock : Bytes → Superblock
get_superblock b = record {
  s_inodes_count = peek32 b 0;
  s_blocks_count = peek32 b 4;
  s_r_blocks_count = peek32 b 8;
  s_free_blocks_count = peek32 b 12;
  s_free_inodes_count = peek32 b 16;
  s_first_data_block = peek32 b 20;
  s_first_ino = peek32 b 24;
  s_blocks_per_group = peek32 b 28;
  s_frags_per_group = peek32 b 32;
  s_inodes_per_group = peek32 b 36;
  s_magic = peek16 b 40;
  s_prealloc_blocks = b 42;
  s_prealloc_dir_blocks = b 43;
}

-- One descriptor of the table.
unfoldable pub put_descriptor : Bytes → ℕ → GroupDescriptor → Bytes
put_descriptor b0 at d =
    let b1 = poke32 b0 at d.bg_block_bitmap in
    let b2 = poke32 b1 (at + 4) d.bg_inode_bitmap in
    let b3 = poke32 b2 (at + 8) d.bg_inode_table in
    let b4 = poke16 b3 (at + 12) d.bg_free_blocks_count in
    let b5 = poke16 b4 (at + 14) d.bg_free_inodes_count in
    let b6 = poke16 b5 (at + 16) d.bg_used_dirs_count in
    let b7 = poke16 b6 (at + 18) d.bg_pad in
    poke32 (poke32 (poke32 b7 (at + 20) (d.bg_reserved 0)) (at + 24) (d.bg_reserved 1)) (at + 28)
      (d.bg_reserved 2)

unfoldable pub get_descriptor : Bytes → ℕ → GroupDescriptor
get_descriptor b at = record {
  bg_block_bitmap = peek32 b at;
  bg_inode_bitmap = peek32 b (at + 4);
  bg_inode_table = peek32 b (at + 8);
  bg_free_blocks_count = peek16 b (at + 12);
  bg_free_inodes_count = peek16 b (at + 14);
  bg_used_dirs_count = peek16 b (at + 16);
  bg_pad = peek16 b (at + 18);
  bg_reserved = λ k. peek32 b (at + 20 + 4 * k);
}

-- `memcpy(buf.buf, &bgdtCache, sizeof(bgdtCache))`: `rounds` descriptors, from index `i` on.
unfoldable pub put_table : ℕ → ℕ → (ℕ → GroupDescriptor) → Bytes → Bytes
put_table zero i t b = b
put_table (suc rounds) i t b =
    put_table rounds (i + 1) t (put_descriptor b (group_descriptor_size * i) (t i))

unfoldable pub get_table : Bytes → ℕ → GroupDescriptor
get_table b i = get_descriptor b (group_descriptor_size * i)

-- The buffer keeps the superblock's bytes where the table, written second, does not cover them.
unfoldable pub sync_metadata : Fs → Fs
sync_metadata s =
    let buf = put_superblock s.stack s.super_block in
    let s1 = write_blocks s buf 1 in write_blocks s1 (put_table groups_count 0 s.bgdt_cache buf) 2

-- `initialize_filesystem_ext2` after the test for an empty storage.
unfoldable pub load_metadata : Fs → Fs
load_metadata s = record s {
  super_block = get_superblock (read_blocks s 1);
  bgdt_cache = get_table (read_blocks s 2);
}

-- The block of the inode table that holds an inode, and the inode's index in it.
unfoldable pub inode_block : Fs → ℕ → ℕ
inode_block s inode =
    u32
      ((s.bgdt_cache (inode_to_bgd inode)).bg_inode_table + inode_to_local inode / inodes_per_table)

unfoldable pub inode_index : ℕ → ℕ
inode_index inode = inode_to_local inode % inodes_per_table

unfoldable pub load_node : Fs → ℕ → Inode
load_node s inode = get_inode (read_blocks s (inode_block s inode)) (inode_index inode)

-- `node` is not NULL at any call.
unfoldable pub sync_node : Fs → Inode → ℕ → Fs
sync_node s node zero = s
sync_node s node (suc n) =
    let at = inode_block s (suc n) in
    write_blocks s (put_inode (read_blocks s at) (inode_index (suc n)) node) at
