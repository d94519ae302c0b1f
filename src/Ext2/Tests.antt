-- ===== src/Ext2/Tests.antt =====
-- A small disk on which the theorems on src/filesystem/ext2.c are run.
use loss_os.Prelude.{
  ◌^◌, peek32, as_bytes, codes, ℕ, ◌+◌, ◌*◌, ◌<◌, ◌≡◌, ◌≢◌, refl, sym, zeroes, true, false, arith,
  ◌==◌, ◌&&◌, not, test_bit,
}
use loss_os.Ext2.Layout.{
  Superblock, GroupDescriptor, Inode, DriverRequest, get_inode, inode_to_bgd, inode_to_local,
  groups_count, blocks_per_group, inodes_per_group,
}
use loss_os.Ext2.Device.{
  Fs, read_blocks, inode_block, load_node, sync_node, load_metadata, sync_metadata,
}
use loss_os.Ext2.Device.Serial.{IsDescriptor, IsSuperblock, SameDescriptor}
use loss_os.Ext2.Device.Caches.{load-sync_metadata}
use loss_os.Ext2.Device.InodeBytes.{IsInode, SameInode}
use loss_os.Ext2.Device.Inodes.{IsTabled, IsInodeNumber, load-sync_node}
use loss_os.Ext2.Bitmap.{
  allocate_block, allocate_from, find_clear, scan_bytes, scan_bits, claim_block, release_block,
}
use loss_os.Ext2.Directory.{directory_block}
use loss_os.Ext2.Directory.Made.{IsNewDirectory, dir_block}
use loss_os.Ext2.Write.{create_node}
use loss_os.Ext2.Write.Directories.{create_node-IsNewDirectory}
use loss_os.Ext2.Bitmap.Search.{bit_at}
use loss_os.Ext2.Bitmap.Count.{count_clear}
use loss_os.Ext2.Bitmap.Blocks.{IsConsistent, group_bits, block_used}
use loss_os.Ext2.Bitmap.Claims.{
  block_used-claim_block, claim_block-IsConsistent, release_block-IsConsistent,
  block_used-release_block,
}
use loss_os.Ext2.Bitmap.Allocation.{Allocated, allocate_block_lem}

abbrev pub blank_superblock : Superblock
blank_superblock = record {
  s_inodes_count = 0;
  s_blocks_count = 8192;
  s_r_blocks_count = 0;
  s_free_blocks_count = 2048;
  s_free_inodes_count = 0;
  s_first_data_block = 1;
  s_first_ino = 1;
  s_blocks_per_group = blocks_per_group;
  s_frags_per_group = blocks_per_group;
  s_inodes_per_group = inodes_per_group;
  s_magic = 0xEF53;
  s_prealloc_blocks = 0;
  s_prealloc_dir_blocks = 0;
}

abbrev pub blank_descriptor : ℕ → GroupDescriptor
blank_descriptor bg = record {
  bg_block_bitmap = bg + 3;
  bg_inode_bitmap = bg + 20;
  bg_inode_table = 16 * bg + 40;
  bg_free_blocks_count = 256;
  bg_free_inodes_count = 112;
  bg_used_dirs_count = 0;
  bg_pad = 0;
  bg_reserved = zeroes;
}

-- Nothing is used.
abbrev pub blank : Fs
blank = record {
  disk = λ lba. zeroes;
  stack = zeroes;
  super_block = blank_superblock;
  bgdt_cache = blank_descriptor;
}

blank_bits : (bg : ℕ) → count_clear (group_bits blank bg) blocks_per_group ≡ 256
unfolding group_bits read_blocks count_clear bit_at test_bit
blank_bits bg = refl

abbrev blank-IsConsistent : IsConsistent blank
blank-IsConsistent = record {
  bytes = λ lba i. omega arith;
  stack_bytes = λ i. omega arith;
  apart = λ a b ha hb e. omega arith;
  counted = λ bg h. sym (blank_bits bg);
}

allocate_block_example : Allocated blank 1 (allocate_block blank 1)
allocate_block_example = allocate_block_lem blank 1 blank-IsConsistent (omega arith)

-- Block 5 of group 2 is used.
abbrev one_used : Fs
one_used = claim_block blank 2 5

blank_free : block_used blank 517 ≡ false
unfolding block_used group_bits read_blocks bit_at test_bit
blank_free = refl

blank_bit : bit_at (group_bits blank 2) 5 ≡ false
unfolding group_bits read_blocks bit_at test_bit
blank_bit = refl

one_used-IsConsistent : IsConsistent one_used
one_used-IsConsistent =
    claim_block-IsConsistent blank 2 5 blank-IsConsistent (omega arith) (omega arith) blank_bit

one_used_bit : block_used one_used 517 ≡ true
one_used_bit =
    block_used-claim_block blank 2 5 blank-IsConsistent (omega arith) (omega arith) 517
      (omega arith)

release_block-IsConsistent_example : IsConsistent (release_block one_used 517)
release_block-IsConsistent_example =
    release_block-IsConsistent one_used 517 one_used-IsConsistent (omega arith) one_used_bit

block_used-release_block_example :
    block_used (release_block one_used 517) 517 ≡ not (517 == 517) && block_used one_used 517
block_used-release_block_example =
    block_used-release_block one_used 517 one_used-IsConsistent (omega arith) 517 (omega arith)

blank-IsSuperblock : IsSuperblock blank_superblock
blank-IsSuperblock = record {
  inodes_in = omega arith;
  blocks_in = omega arith;
  r_blocks_in = omega arith;
  free_blocks_in = omega arith;
  free_inodes_in = omega arith;
  first_data_in = omega arith;
  first_ino_in = omega arith;
  per_group_in = omega arith;
  frags_in = omega arith;
  inodes_per_group_in = omega arith;
  magic_in = omega arith;
}

blank-IsDescriptor : (i : ℕ) → i < groups_count → IsDescriptor (blank_descriptor i)
blank-IsDescriptor i h = record {
  block_bitmap_in = omega arith;
  inode_bitmap_in = omega arith;
  inode_table_in = omega arith;
  free_blocks_in = omega arith;
  free_inodes_in = omega arith;
  used_dirs_in = omega arith;
  pad_in = omega arith;
  reserved0_in = omega arith;
  reserved1_in = omega arith;
  reserved2_in = omega arith;
}

load-sync_metadata_example :
    ((load_metadata (sync_metadata blank)).super_block ≡ blank_superblock)
    × ((i : ℕ)
        → i < groups_count
        → SameDescriptor ((load_metadata (sync_metadata blank)).bgdt_cache i) (blank_descriptor i))
load-sync_metadata_example = load-sync_metadata blank blank-IsSuperblock blank-IsDescriptor

pub blank-IsTabled : IsTabled blank
blank-IsTabled = record { fits = λ bg h. omega arith; tables_apart = λ a b ha hb ne. omega arith }

abbrev pub a_file : Inode
a_file = record { i_mode = 0x8000; i_size = 700; i_blocks = 2; i_block = λ j. j + 60 }

pub a_file-IsInode : IsInode a_file
a_file-IsInode = record {
  mode_in = omega arith;
  size_in = omega arith;
  blocks_in = omega arith;
  block_in = λ j h. omega arith;
}

load-sync_node_example :
    SameInode (load_node (sync_node blank a_file 130) 130) a_file
    × ((j : ℕ)
        → IsInodeNumber j
        → 130 ≢ j
        → SameInode (load_node (sync_node blank a_file 130) j) (load_node blank j))
load-sync_node_example =
    load-sync_node blank a_file 130 blank-IsTabled (omega arith, omega arith) a_file-IsInode

-- A directory for inode 130, which lies in group 1, takes that group's first block.
made_in_256 : dir_block blank 130 ≡ 256
unfolding directory_block inode_to_bgd allocate_block allocate_from claim_block find_clear
    scan_bytes scan_bits read_blocks test_bit
made_in_256 = refl

abbrev src_request : DriverRequest
src_request = record {
  buf = zeroes;
  name = as_bytes (codes "src");
  name_len = 3;
  parent_inode = 1;
  buffer_size = 0;
  is_directory = true;
}

no_pointers : (j : ℕ) → j < 15 → (load_node blank 130).i_block j < 2 ^ 32
unfolding load_node get_inode read_blocks peek32
no_pointers j h = ground arith

in_table : inode_block blank 130 ≡ 58
unfolding inode_block inode_to_bgd inode_to_local
in_table = refl

create_node-IsNewDirectory_example : IsNewDirectory (create_node blank src_request 130) 130 1
create_node-IsNewDirectory_example =
    create_node-IsNewDirectory blank src_request 130 refl blank-IsTabled (omega arith, omega arith)
      (omega (arith, made_in_256, in_table)) (omega (arith, made_in_256))
      (omega (arith, made_in_256)) (omega (arith, made_in_256)) (omega (arith, made_in_256))
      no_pointers (omega arith)
