-- ===== src/Ext2/Format.antt =====
-- Formatting and mounting in src/filesystem/ext2.c.
use Prim.Native.Char.{code}
use Prim.Native.String.{String}
use loss_os.Prelude.{
  List, [], ◌∷◌, ◌++◌, get_or, ℕ, zero, suc, ◌+◌, ◌-◌, ◌*◌, ◌/◌, Bytes, Bool, poke, set_bit, ltb,
  ◌==◌, if◌then◌else◌, peek16, zeroes, not,
}
use loss_os.Ext2.Layout.{
  Superblock, GroupDescriptor, block_size, disk_space, groups_count, blocks_per_group,
  inodes_per_group, inodes_table_block_count, get_inode, put_inode,
}
use loss_os.Ext2.Device.{
  Fs, read_blocks, write_blocks, zeroed, put_superblock, put_table, load_metadata,
}
use loss_os.Ext2.Bitmap.{mark}
use loss_os.Ext2.Directory.{init_directory_table}

abbrev codes : String → List ℕ
codes String.[] = []
codes (String.◌∷◌ c s) = code c ∷ codes s

abbrev signature_text : List ℕ
signature_text =
    codes "Course          Designed by     Lab Sister ITB  Made with <3    -----------2025"
    ++ (10 ∷ [])

unfoldable pub fs_signature : Bytes
fs_signature i =
    if i == block_size - 2
    then b'O'
    else if i == block_size - 1
    then b'k'
    else get_or signature_text i 0

-- Only the first two bytes are compared.
unfoldable pub is_empty_storage : Fs → Bool
is_empty_storage s = not (peek16 (read_blocks s 0) 0 == peek16 fs_signature 0)

unfoldable pub initial_superblock : Superblock
initial_superblock =
    let total = disk_space / block_size in
    let used : ℕ = 148 in
    record {
      s_inodes_count = groups_count * inodes_per_group;
      s_blocks_count = total;
      s_r_blocks_count = 0;
      s_free_blocks_count = if ltb used total then total - used else 0;
      s_free_inodes_count = groups_count * inodes_per_group - 1;
      s_first_data_block = 1;
      s_first_ino = 1;
      s_blocks_per_group = blocks_per_group;
      s_frags_per_group = blocks_per_group;
      s_inodes_per_group = inodes_per_group;
      s_magic = 0xEF53;
      s_prealloc_blocks = 0;
      s_prealloc_dir_blocks = 0;
    }

unfoldable pub initial_descriptor : ℕ → GroupDescriptor
initial_descriptor i =
    let first = i == 0 in
    let base = i * blocks_per_group in
    record {
      bg_block_bitmap = if first then 3 else base;
      bg_inode_bitmap = if first then 4 else base + 1;
      bg_inode_table = if first then 5 else base + 2;
      bg_free_blocks_count = blocks_per_group - (if first then 22 else 18);
      bg_free_inodes_count = if first then inodes_per_group - 1 else inodes_per_group;
      bg_used_dirs_count = if first then 1 else 0;
      bg_pad = 0;
      bg_reserved = zeroes;
    }

-- `for (b = 0; b < n; b++) buf[b / 8] |= (1 << (b % 8))`, at bit `i`.
unfoldable pub mark_first : ℕ → ℕ → Bytes → Bytes
mark_first zero i b = b
mark_first (suc n) i b = mark_first n (i + 1) (mark b i)

-- Empty inode-table blocks, from block `blk` on.
unfoldable pub clear_table : ℕ → ℕ → Fs → Fs
clear_table zero blk s = s
clear_table (suc n) blk s = clear_table n (blk + 1) (write_blocks s (zeroed s) blk)

-- The bitmaps of the groups from `i` on.
unfoldable pub format_groups : ℕ → ℕ → Fs → Fs
format_groups zero i s = s
format_groups (suc n) i s =
    let base = i * blocks_per_group in
    let s1 = write_blocks s (mark_first 18 0 (zeroed s)) base in
    format_groups n (i + 1) (write_blocks s1 (zeroed s1) (base + 1))

-- `create_ext2`. The caches are zero when the kernel boots, and formatting leaves them so.
unfoldable pub create_ext2 : Fs → Fs
create_ext2 s0 =
    let s1 = write_blocks s0 (λ i. if ltb i block_size then fs_signature i else s0.stack i) 0 in
    let sb_buf = put_superblock (zeroed s1) initial_superblock in
    let s2 = write_blocks s1 sb_buf 1 in
    let s3 = write_blocks s2 (put_table groups_count 0 initial_descriptor sb_buf) 2 in
    let table = zeroed s3 in
    let (s4, root) = init_directory_table s3 (get_inode table 0) 1 1 in
    let s5 = write_blocks s4 (put_inode table 0 root) 5 in
    let s6 = clear_table (inodes_table_block_count - 1) 6 s5 in
    let s7 = write_blocks s6 (mark_first 22 0 (zeroed s6)) 3 in
    let s8 = write_blocks s7 (poke (zeroed s7) 0 (set_bit 0 0)) 4 in
    format_groups (groups_count - 1) 1 s8

unfoldable pub initialize_filesystem_ext2 : Fs → Fs
initialize_filesystem_ext2 s = load_metadata (if is_empty_storage s then create_ext2 s else s)
