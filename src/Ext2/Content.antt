-- ===== src/Ext2/Content.antt =====
-- `allocate_node_blocks` of src/filesystem/ext2.c: the blocks of a new file are claimed and filled.
pub mod Fresh
pub mod Filled
pub mod Roundtrip
use loss_os.Prelude.{
  ℕ, zero, suc, ◌+◌, ◌-◌, ◌*◌, ◌%◌, Bytes, none, some, update, poke32, ltb, ◌==◌, if◌then◌else◌,
}
use loss_os.Ext2.Layout.{Inode, block_size}
use loss_os.Ext2.Device.{Fs, write_blocks, zeroed, sync_metadata}
use loss_os.Ext2.Bitmap.{allocate_block}
use loss_os.Ext2.Nodes.{pointers_per_block}

-- The length of the piece of the file that goes into its block number `allocated`.
unfoldable pub copy_length : ℕ → ℕ → ℕ → ℕ
copy_length size blocks_needed allocated =
    let to_copy = if allocated == blocks_needed - 1 then size % block_size else block_size in
    if to_copy == 0 then block_size else to_copy

-- `dataBuf`: zeroes with the piece of the file in front.
unfoldable pub data_block : Fs → Bytes → ℕ → ℕ → ℕ → Bytes
data_block s content size blocks_needed allocated i =
    if ltb i (copy_length size blocks_needed allocated)
    then content (allocated * block_size + i)
    else zeroed s i

-- The arguments of `allocate_node_blocks`: the file's bytes, `node->i_size`, `node->i_blocks` and
-- the preferred group.
module _ (content : Bytes) (size blocks_needed preferred_bgd : ℕ) where
  -- The loop over the direct pointers, at pointer `i`.
  unfoldable pub fill_direct : ℕ → ℕ → Fs → (ℕ → ℕ) → ℕ → Fs × (ℕ → ℕ) × ℕ
  fill_direct zero i s pointers allocated = (s, pointers, allocated)
  fill_direct (suc rounds) i s pointers allocated =
      if ltb allocated blocks_needed
      then elim (allocate_block s preferred_bgd) [
        | none ↦ (s, pointers, allocated)
        | some (num, s1) ↦
            fill_direct rounds (i + 1)
              (write_blocks s1 (data_block s1 content size blocks_needed allocated) num)
              (update pointers i num) (allocated + 1)
      ]
      else (s, pointers, allocated)

  -- The loop that fills a block of pointers, at pointer `ptr_idx`.
  unfoldable pub fill_pointers : ℕ → ℕ → Fs → Bytes → ℕ → Fs × Bytes × ℕ
  fill_pointers zero ptr_idx s ptr_buf allocated = (s, ptr_buf, allocated)
  fill_pointers (suc rounds) ptr_idx s ptr_buf allocated =
      if ltb allocated blocks_needed
      then elim (allocate_block s preferred_bgd) [
        | none ↦ (s, ptr_buf, allocated)
        | some (num, s1) ↦
            fill_pointers rounds (ptr_idx + 1)
              (write_blocks s1 (data_block s1 content size blocks_needed allocated) num)
              (poke32 ptr_buf (ptr_idx * 4) num) (allocated + 1)
      ]
      else (s, ptr_buf, allocated)

  -- The part for the single indirect block, when one has been claimed.
  unfoldable pub fill_single : ℕ → Fs → ℕ → Fs × ℕ
  fill_single pointer_block s allocated =
      let (s1, ptr_buf, n) = fill_pointers pointers_per_block 0 s (zeroed s) allocated in
      (write_blocks s1 ptr_buf pointer_block, n)

  -- The loop over the pointers of the double indirect block, at pointer `dbl_idx`.
  unfoldable pub fill_double : ℕ → ℕ → Fs → Bytes → ℕ → Fs × Bytes × ℕ
  fill_double zero dbl_idx s dbl_buf allocated = (s, dbl_buf, allocated)
  fill_double (suc rounds) dbl_idx s dbl_buf allocated =
      if ltb allocated blocks_needed
      then elim (allocate_block s preferred_bgd) [
        | none ↦ (s, dbl_buf, allocated)
        | some (ind, s1) ↦
            let (s2, n) = fill_single ind s1 allocated in
            fill_double rounds (dbl_idx + 1) s2 (poke32 dbl_buf (dbl_idx * 4) ind) n
      ]
      else (s, dbl_buf, allocated)

  -- `if (allocated < blocks_needed) { ... }` for pointer 12.
  unfoldable pub single_part : Fs → (ℕ → ℕ) → ℕ → Fs × (ℕ → ℕ) × ℕ
  single_part s pointers allocated =
      if ltb allocated blocks_needed
      then elim (allocate_block s preferred_bgd) [
        | none ↦ (s, pointers, allocated)
        | some (num, s1) ↦
            let (s2, n) = fill_single num s1 allocated in
            let skip = num == 0 in
            (if skip then s1 else s2, update pointers 12 num, if skip then allocated else n)
      ]
      else (s, pointers, allocated)

  -- The same for pointer 13.
  unfoldable pub double_part : Fs → (ℕ → ℕ) → ℕ → Fs × (ℕ → ℕ) × ℕ
  double_part s pointers allocated =
      if ltb allocated blocks_needed
      then elim (allocate_block s preferred_bgd) [
        | none ↦ (s, pointers, allocated)
        | some (num, s1) ↦
            let (s2, dbl_buf, n) = fill_double pointers_per_block 0 s1 (zeroed s1) allocated in
            let skip = num == 0 in
            (
              if skip then s1 else write_blocks s2 dbl_buf num,
              update pointers 13 num,
              if skip then allocated else n,
            )
      ]
      else (s, pointers, allocated)

unfoldable pub allocate_node_blocks : Fs → Bytes → Inode → ℕ → Fs × Inode
allocate_node_blocks s content node bgd =
    let (s1, p1, n1) = fill_direct content node.i_size node.i_blocks bgd 12 0 s node.i_block 0 in
    let (s2, p2, n2) = single_part content node.i_size node.i_blocks bgd s1 p1 n1 in
    let (s3, p3, n3) = double_part content node.i_size node.i_blocks bgd s2 p2 n2 in
    (sync_metadata s3, record node { i_block = p3 })
