-- ===== src/Ext2/FileTests.antt =====
-- Runs of the theorems on the content of files in src/filesystem/ext2.c.
use loss_os.Prelude.{
  ◌*◌, ℕ, ◌+◌, ◌%◌, ◌≤◌, ◌<◌, ◌≡◌, ◌==◌, refl, zeroes, Bytes, true, false, arith, pos, ltb,
  if◌then◌else◌, test_bit, Bool, holds_under, ◌⊎◌, holds_under_lem, ==_iff,
}
use loss_os.Ext2.Layout.{Inode, DriverRequest, ft_reg_file, blocks_per_group}
use loss_os.Ext2.Device.{Fs, load_node, sync_node, read_blocks}
use loss_os.Ext2.Device.InodeBytes.{SameInode}
use loss_os.Ext2.Device.Inodes.{load-sync_node}
use loss_os.Ext2.Bitmap.Search.{bit_at}
use loss_os.Ext2.Bitmap.Count.{count_clear}
use loss_os.Ext2.Bitmap.Blocks.{group_bits, block_used}
use loss_os.Ext2.Read.{read_entry, copy_file}
use loss_os.Ext2.Read.Transfer.{IsWhole, file_block, file_byte}
use loss_os.Ext2.Read.Whole.{read_entry_lem}
use loss_os.Ext2.Content.{fill_direct, allocate_node_blocks}
use loss_os.Ext2.Content.Roundtrip.{copy_file-allocate_node_blocks}
use loss_os.Ext2.Bitmap.Allocation.{AllUsed}
use loss_os.Ext2.Content.Fresh.{IsSafe, all_blocks}
use loss_os.Ext2.Content.Filled.{Filled, fill_direct-IsFilled}
use loss_os.Ext2.Tests.{
  blank, a_file, a_file-IsInode, blank-IsTabled, blank_superblock, blank_descriptor,
}

-- A disk with a file of 700 bytes as inode 130.
abbrev with_file : Fs
with_file = sync_node blank a_file 130

file_there : SameInode (load_node with_file 130) a_file
file_there =
    (load-sync_node blank a_file 130 blank-IsTabled (omega arith, omega arith) a_file-IsInode).0

file_size : (load_node with_file 130).i_size ≡ 700
file_size = file_there.1

first_blocks : (k : ℕ) → k < 12 → file_block with_file (load_node with_file 130) k ≡ k + 60
first_blocks k h = let e : ltb k 12 ≡ true = ground arith in rw e (file_there.3 k (omega arith))

file-IsWhole : IsWhole with_file (load_node with_file 130)
file-IsWhole = record {
  fits = omega (arith, file_size);
  blocks = λ k lt z. absurd (omega (arith, file_size, first_blocks k (omega (arith, file_size))));
  single = λ lt z. absurd (omega (arith, file_size));
  double = λ lt z. absurd (omega (arith, file_size));
  inner = λ q h lt z. absurd (omega (arith, file_size));
}

abbrev a_read : DriverRequest
a_read = record {
  buf = zeroes;
  name = zeroes;
  name_len = 3;
  parent_inode = 1;
  buffer_size = 1024;
  is_directory = false;
}

read_entry_example :
    ((read_entry with_file a_read 130 ft_reg_file).0 ≡ pos 0)
    × ((o : ℕ)
        → o < (load_node with_file 130).i_size
        → (read_entry with_file a_read 130 ft_reg_file).1 o
          ≡ file_byte with_file (load_node with_file 130) o)
    × ((i : ℕ)
        → (load_node with_file 130).i_size ≤ i
        → (read_entry with_file a_read 130 ft_reg_file).1 i ≡ a_read.buf i)
read_entry_example = read_entry_lem with_file a_read 130 file-IsWhole (omega (arith, file_size))

-- The first eleven blocks are used; the bitmaps of the groups stand in the last eight of them.
abbrev safe_disk : Fs
safe_disk = record {
  disk = λ lba i. if lba == 3 then (if i == 0 then 255 else if i == 1 then 7 else 0) else 0;
  stack = zeroes;
  super_block = blank_superblock;
  bgdt_cache = λ bg.
      let d = blank_descriptor bg in
      record d { bg_free_blocks_count = if bg == 0 then 245 else 256 };
}

abbrev safe_row : ℕ → Bool
safe_row bg =
    (if bg == 0 then 245 else 256) == count_clear (group_bits safe_disk bg) blocks_per_group

safe_table : holds_under safe_row 8 ≡ true
unfolding holds_under group_bits read_blocks count_clear bit_at test_bit
safe_table = refl

used_table : holds_under (λ g. block_used safe_disk (g + 3)) 8 ≡ true
unfolding holds_under block_used group_bits read_blocks bit_at test_bit
used_table = refl

safe_disk-IsSafe : IsSafe safe_disk
safe_disk-IsSafe = record {
  consistent = record {
    bytes = λ lba i. ground arith;
    stack_bytes = λ i. omega arith;
    apart = λ a b ha hb e. omega arith;
    counted = λ bg h. (==_iff _ _).0 (holds_under_lem safe_row h safe_table);
  };
  bitmap_in = λ g h. omega arith;
  bitmap_used = λ g h. holds_under_lem (λ g. block_used safe_disk (g + 3)) h used_table;
}

abbrev some_text : Bytes
some_text i = i % 256

fill_direct-IsFilled_example :
    Filled some_text 700 2 1 safe_disk zeroes 0 12
      (fill_direct some_text 700 2 1 12 0 safe_disk zeroes 0)
fill_direct-IsFilled_example =
    fill_direct-IsFilled some_text 700 2 1 (omega arith) (λ i. omega arith) 12 0 safe_disk zeroes
      safe_disk-IsSafe (omega arith)

low_used : (b : ℕ) → b < 3 → block_used safe_disk b ≡ true
low_used b h = holds_under_lem (block_used safe_disk) h low_table
  where
    low_table : holds_under (block_used safe_disk) 3 ≡ true
    low_table = unfold holds_under block_used group_bits read_blocks bit_at test_bit in refl

abbrev new_node : Inode
new_node = record { i_mode = 0x8000; i_size = 700; i_blocks = 2; i_block = zeroes }

copy_file-allocate_node_blocks_example :
    ((o : ℕ)
      → o < 700
      → (copy_file
            (allocate_node_blocks safe_disk some_text new_node 1).0
            (allocate_node_blocks safe_disk some_text new_node 1).1
            (record { to = zeroes; copied = 0; to_read = 700 })).to
          o
        ≡ some_text o)
    ⊎ AllUsed
        (fill_direct some_text 700 2 1 12 0 safe_disk zeroes 0).0
        (1 * blocks_per_group)
        all_blocks
copy_file-allocate_node_blocks_example =
    copy_file-allocate_node_blocks safe_disk some_text new_node 1 safe_disk-IsSafe
      (low_used 0 (omega arith)) (low_used 1 (omega arith)) (low_used 2 (omega arith)) (omega arith)
      (λ i. omega arith) (omega arith) (omega arith) zeroes
