-- ===== src/Ext2/Bitmap.antt =====
-- Block and inode bitmaps of src/filesystem/ext2.c: the search for a clear bit, which the source
-- writes out eight times, and the release of a block, which it writes out seven times.
pub mod Search
pub mod Count
pub mod Blocks
pub mod Claims
pub mod Allocation
pub mod Exhausted
use loss_os.Prelude.{
  ℕ, zero, suc, ◌+◌, ◌-◌, ◌*◌, ◌/◌, ◌%◌, ◌^◌, Bytes, Bool, true, false, Option, none, some, update,
  poke, ltb, leb, ◌==◌, if◌then◌else◌, u16, u32, test_bit, set_bit, clear_bit,
}
use loss_os.Ext2.Layout.{
  Superblock, GroupDescriptor, block_size, groups_count, blocks_per_group, inodes_per_group,
}
use loss_os.Ext2.Device.{Fs, read_blocks, write_blocks, sync_metadata}

-- The loop over the bits of a byte, at bit `bit`.
unfoldable pub scan_bits : ℕ → Bytes → ℕ → ℕ → ℕ → Option ℕ
scan_bits limit m byte zero bit = none
scan_bits limit m byte (suc rounds) bit =
    let idx = byte * 8 + bit in
    let rest = scan_bits limit m byte rounds (bit + 1) in
    if leb limit idx then none else if test_bit (m byte) bit then rest else some idx

-- The loop over the bytes of a bitmap, at byte `byte`.
unfoldable pub scan_bytes : ℕ → Bytes → ℕ → ℕ → Option ℕ
scan_bytes limit m zero byte = none
scan_bytes limit m (suc rounds) byte =
    let rest = scan_bytes limit m rounds (byte + 1) in
    if m byte == 0xFF
    then rest
    else elim (scan_bits limit m byte 8 0) [ some idx ↦ some idx | none ↦ rest ]

unfoldable pub find_clear : ℕ → Bytes → Option ℕ
find_clear limit m = scan_bytes limit m block_size 0

-- `bmp.buf[byte] |= (1 << bit)` at `byte * 8 + bit`, and `bmp.buf[off/8] &= ~(1 << (off % 8))`
unfoldable pub mark : Bytes → ℕ → Bytes
mark m idx = poke m (idx / 8) (set_bit (m (idx / 8)) (idx % 8))

unfoldable pub unmark : Bytes → ℕ → Bytes
unmark m off = poke m (off / 8) (clear_bit (m (off / 8)) (off % 8))

-- Counters are `uint16_t` in a group and `uint32_t` in the superblock.
abbrev pub decrement16 : ℕ → ℕ
decrement16 n = u16 (n + 2 ^ 16 - 1)

abbrev pub decrement32 : ℕ → ℕ
decrement32 n = u32 (n + 2 ^ 32 - 1)

abbrev pub increment16 : ℕ → ℕ
increment16 n = u16 (n + 1)

abbrev pub increment32 : ℕ → ℕ
increment32 n = u32 (n + 1)

abbrev pub block_bitmap : Fs → ℕ → ℕ
block_bitmap s bg = (s.bgdt_cache bg).bg_block_bitmap

abbrev pub set_free_blocks : Fs → ℕ → ℕ → ℕ → Fs
set_free_blocks s bg in_group in_super =
    let d = s.bgdt_cache bg in
    record s {
      bgdt_cache = update s.bgdt_cache bg (record d { bg_free_blocks_count = in_group });
      super_block = record s.super_block { s_free_blocks_count = in_super };
    }

abbrev pub set_free_inodes : Fs → ℕ → ℕ → ℕ → Fs
set_free_inodes s bg in_group in_super =
    let d = s.bgdt_cache bg in
    record s {
      bgdt_cache = update s.bgdt_cache bg (record d { bg_free_inodes_count = in_group });
      super_block = record s.super_block { s_free_inodes_count = in_super };
    }

-- What happens when the search has found bit `idx` of the block bitmap of group `bg`.
unfoldable pub claim_block : Fs → ℕ → ℕ → Fs
claim_block s bg idx =
    let at = block_bitmap s bg in
    let s1 = write_blocks s (mark (read_blocks s at) idx) at in
    set_free_blocks s1 bg (decrement16 (s.bgdt_cache bg).bg_free_blocks_count)
      (decrement32 s.super_block.s_free_blocks_count)

-- The loop over the groups, at group `bg`.
unfoldable pub allocate_from : ℕ → ℕ → Fs → Option (ℕ × Fs)
allocate_from zero bg s = none
allocate_from (suc rounds) bg s =
    let next = allocate_from rounds (bg + 1) s in
    if ltb 0 (s.bgdt_cache bg).bg_free_blocks_count
    then elim (find_clear blocks_per_group (read_blocks s (block_bitmap s bg))) [
      | some idx ↦ some (bg * blocks_per_group + idx, claim_block s bg idx)
      | none ↦ next
    ]
    else next

-- One block, from the first group with a clear bit, from group `bg` on.
unfoldable pub allocate_block : Fs → ℕ → Option (ℕ × Fs)
allocate_block s bg = allocate_from (groups_count - bg) bg s

unfoldable pub release_block : Fs → ℕ → Fs
release_block s block_id =
    let grp = block_id / blocks_per_group in
    let at = block_bitmap s grp in
    let s1 = write_blocks s (unmark (read_blocks s at) (block_id % blocks_per_group)) at in
    set_free_blocks s1 grp (increment16 (s.bgdt_cache grp).bg_free_blocks_count)
      (increment32 s.super_block.s_free_blocks_count)

abbrev pub inode_bitmap : Fs → ℕ → ℕ
inode_bitmap s bg = (s.bgdt_cache bg).bg_inode_bitmap

unfoldable pub claim_inode : Fs → ℕ → ℕ → Fs
claim_inode s bg idx =
    let at = inode_bitmap s bg in
    let s1 = write_blocks s (mark (read_blocks s at) idx) at in
    sync_metadata (
      set_free_inodes s1 bg (decrement16 (s.bgdt_cache bg).bg_free_inodes_count)
        (decrement32 s.super_block.s_free_inodes_count))

unfoldable pub allocate_node_from : ℕ → ℕ → Fs → ℕ × Fs
allocate_node_from zero i s = (0, s)
allocate_node_from (suc rounds) i s =
    let next = allocate_node_from rounds (i + 1) s in
    if ltb 0 (s.bgdt_cache i).bg_free_inodes_count
    then elim (find_clear inodes_per_group (read_blocks s (inode_bitmap s i))) [
      | some idx ↦ (i * inodes_per_group + idx + 1, claim_inode s i idx)
      | none ↦ next
    ]
    else next

-- The number of a fresh inode, or 0 if there is none.
unfoldable pub allocate_node : Fs → ℕ × Fs
allocate_node s = allocate_node_from groups_count 0 s
