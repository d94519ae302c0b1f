-- ===== src/Ext2/Nodes.antt =====
-- Inodes and their blocks in src/filesystem/ext2.c: `deallocate_node`, `deallocate_blocks`,
-- `allocate_node_blocks`.
use loss_os.Prelude.{
  ℕ, zero, suc, ◌+◌, ◌-◌, ◌*◌, ◌/◌, Bytes, Bool, not, ◌&&◌, update, peek32, bit_and, ltb, ◌==◌,
  if◌then◌else◌,
}
use loss_os.Ext2.Layout.{Inode, block_size, ifdir, inode_to_bgd, inode_to_local, erase_inode}
use loss_os.Ext2.Device.{
  Fs, read_blocks, write_blocks, sync_metadata, inode_block, inode_index, load_node,
}
use loss_os.Ext2.Bitmap.{
  release_block, unmark, inode_bitmap, set_free_inodes, increment16, increment32, decrement16,
}

-- `BLOCK_SIZE/4`
abbrev pub pointers_per_block : ℕ
pointers_per_block = block_size / 4

-- `if (block_id != 0) { ... }`
abbrev pub release_if : Fs → ℕ → Fs
release_if s block_id = if block_id == 0 then s else release_block s block_id

-- The loop over the direct blocks: the state, and what remains to be freed.
unfoldable pub release_direct : ℕ → ℕ → (ℕ → ℕ) → ℕ → Fs → Fs × ℕ
release_direct zero i blocks remain s = (s, remain)
release_direct (suc rounds) i blocks zero s = (s, zero)
release_direct (suc rounds) i blocks (suc remain) s =
    release_direct rounds (i + 1) blocks remain (release_if s (blocks i))

-- `count` pointers of an indirect block, from pointer `j` on.
unfoldable pub release_pointers : ℕ → ℕ → Bytes → Fs → Fs
release_pointers zero j ptrs s = s
release_pointers (suc count) j ptrs s =
    release_pointers count (j + 1) ptrs (release_if s (peek32 ptrs (4 * j)))

-- The part under `if (remain > 0 && node->i_block[12] != 0)`.
unfoldable pub release_indirect : Inode → ℕ → Fs → Fs × ℕ
release_indirect node remain s =
    let ind = node.i_block 12 in
    let count = if ltb remain pointers_per_block then remain else pointers_per_block in
    let s1 = release_pointers count 0 (read_blocks s ind) s in
    if ltb 0 remain && not (ind == 0)
    then (release_block s1 ind, if ltb count remain then remain - count else 0)
    else (s, remain)

-- The loop over the pointers of the double indirect block.
unfoldable pub release_double_from : ℕ → ℕ → Bytes → ℕ → Fs → Fs
release_double_from zero k ptrs total s = s
release_double_from (suc rounds) k ptrs zero s = s
release_double_from (suc rounds) k ptrs (suc n) s =
    let total = suc n in
    let ind = peek32 ptrs (4 * k) in
    let cnt = if ltb total pointers_per_block then total else pointers_per_block in
    let s1 = release_block (release_pointers cnt 0 (read_blocks s ind) s) ind in
    let skip = ind == 0 in
    release_double_from rounds (k + 1) ptrs (if skip then total else total - cnt)
      (if skip then s else s1)

unfoldable pub release_double : Inode → ℕ → Fs → Fs
release_double node remain s =
    let dbl = node.i_block 13 in
    let s1 = release_double_from pointers_per_block 0 (read_blocks s dbl) remain s in
    if ltb 0 remain && not (dbl == 0) then release_block s1 dbl else s

-- `node->i_mode & EXT2_S_IFDIR`
abbrev pub is_dir_mode : Inode → Bool
is_dir_mode node = not (bit_and node.i_mode ifdir == 0)

abbrev pub set_used_dirs : Fs → ℕ → ℕ → Fs
set_used_dirs s bg n =
    let d = s.bgdt_cache bg in
    record s { bgdt_cache = update s.bgdt_cache bg (record d { bg_used_dirs_count = n }) }

unfoldable pub forget_dir : Fs → ℕ → Fs
forget_dir s bg =
    let n = (s.bgdt_cache bg).bg_used_dirs_count in
    if ltb 0 n then set_used_dirs s bg (decrement16 n) else s

-- The blocks of an inode: direct, indirect, double indirect.
unfoldable pub release_blocks : Inode → Fs → Fs
release_blocks node s =
    let (s1, r1) = release_direct 12 0 node.i_block node.i_blocks s in
    let (s2, r2) = release_indirect node r1 s1 in release_double node r2 s2

-- The end of `deallocate_node`: the inode is erased and its bit cleared. `buf` was read before the
-- blocks were released.
unfoldable pub release_inode : Bytes → ℕ → Fs → Fs
release_inode buf inode s =
    let bg = inode_to_bgd inode in
    let s1 = write_blocks s (erase_inode buf (inode_index inode)) (inode_block s inode) in
    let at = inode_bitmap s1 bg in
    let s2 = write_blocks s1 (unmark (read_blocks s1 at) (inode_to_local inode)) at in
    sync_metadata (
      set_free_inodes s2 bg (increment16 (s2.bgdt_cache bg).bg_free_inodes_count)
        (increment32 s2.super_block.s_free_inodes_count))

unfoldable pub deallocate_node : Fs → ℕ → Fs
deallocate_node s zero = s
deallocate_node s (suc n) =
    let inode = suc n in
    let node = load_node s inode in
    let s1 = if is_dir_mode node then forget_dir s (inode_to_bgd inode) else s in
    release_inode (read_blocks s (inode_block s inode)) inode (release_blocks node s1)

-- `deallocate_blocks` frees direct blocks only.
unfoldable pub deallocate_blocks : Fs → (ℕ → ℕ) → ℕ → Fs
deallocate_blocks s addrs blocks = sync_metadata (release_direct 12 0 addrs blocks s).0
