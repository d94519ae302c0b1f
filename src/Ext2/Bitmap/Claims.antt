-- ===== src/Ext2/Bitmap/Claims.antt =====
-- Claiming and releasing one block, in src/filesystem/ext2.c, against the set of used blocks.
use loss_os.Prelude.{
  ℕ, ◌+◌, ◌*◌, ◌/◌, ◌%◌, ◌<◌, ◌≡◌, refl, ◌∙◌, Bytes, true, false, not, ◌&&◌, ◌||◌, ◌==◌,
  if◌then◌else◌, arith, ℕ_discrete, eq→==, poke_ne,
}
use loss_os.Ext2.Layout.{groups_count, blocks_per_group}
use loss_os.Ext2.Device.{Fs}
use loss_os.Ext2.Device.Access.{OnStack, read_blocks-OnStack}
use loss_os.Ext2.Bitmap.{
  mark, unmark, block_bitmap, claim_block, release_block, decrement16, increment16, decrement32,
  increment32,
}
use loss_os.Ext2.Bitmap.Search.{
  bit_at, IsBytes, bit_at-mark, bit_at-unmark, mark-IsBytes, unmark-IsBytes,
}
use loss_os.Ext2.Bitmap.Count.{count_clear, count_clear-mark, count_clear-unmark, count_clear-le}
use loss_os.Ext2.Bitmap.Blocks.{
  group_bits, block_used, IsConsistent, rewritten, rewritten-IsConsistent, block_used-rewritten,
  read_blocks-IsBytes,
}

-- The state that a claim or a release leaves is such a rewriting.
claim_block_lem :
    (s : Fs) (bg idx : ℕ)
    → claim_block s bg idx
      ≡ rewritten s bg
          (decrement16 (s.bgdt_cache bg).bg_free_blocks_count)
          (decrement32 s.super_block.s_free_blocks_count)
          (mark (group_bits s bg) idx)
unfolding claim_block rewritten group_bits
claim_block_lem s bg idx = refl

release_block_lem :
    (s : Fs) (b : ℕ)
    → release_block s b
      ≡ rewritten s
          (b / blocks_per_group)
          (increment16 (s.bgdt_cache (b / blocks_per_group)).bg_free_blocks_count)
          (increment32 s.super_block.s_free_blocks_count)
          (unmark (group_bits s (b / blocks_per_group)) (b % blocks_per_group))
unfolding release_block rewritten group_bits
release_block_lem s b = refl

mark-OnStack :
    (s : Fs) (b : Bytes) (idx : ℕ) → idx < blocks_per_group → OnStack s b → OnStack s (mark b idx)
unfolding mark
mark-OnStack s b idx h on i hi = poke_ne b (idx / 8) _ i (omega arith) ∙ on i hi

unmark-OnStack :
    (s : Fs) (b : Bytes) (idx : ℕ) → idx < blocks_per_group → OnStack s b → OnStack s (unmark b idx)
unfolding unmark
unmark-OnStack s b idx h on i hi = poke_ne b (idx / 8) _ i (omega arith) ∙ on i hi

group_bits-OnStack : (s : Fs) (bg : ℕ) → OnStack s (group_bits s bg)
unfolding group_bits
group_bits-OnStack s bg = read_blocks-OnStack s (block_bitmap s bg)

group_bits-IsBytes : (s : Fs) (bg : ℕ) → IsConsistent s → IsBytes (group_bits s bg)
unfolding group_bits
group_bits-IsBytes s bg c = read_blocks-IsBytes s (block_bitmap s bg) c

-- `block_used` of a number splits it into group and bit.
pub used_in_group :
    (s : Fs) (bg b : ℕ)
    → bg ≡ b / blocks_per_group
    → block_used s b ≡ bit_at (group_bits s bg) (b % blocks_per_group)
unfolding block_used
used_in_group s bg b e = rw e

module _ (s : Fs) (bg idx : ℕ) (c : IsConsistent s) (lt : bg < groups_count)
    (within : idx < blocks_per_group) where
  on : OnStack s (group_bits s bg)
  on = group_bits-OnStack s bg

  is_bytes : IsBytes (group_bits s bg)
  is_bytes = group_bits-IsBytes s bg c

  claim_count :
      bit_at (group_bits s bg) idx ≡ false
      → decrement16 (s.bgdt_cache bg).bg_free_blocks_count
        ≡ count_clear (mark (group_bits s bg) idx) blocks_per_group
  claim_count clear = omega (
    arith,
    c.counted bg lt,
    count_clear-mark (group_bits s bg) idx blocks_per_group is_bytes within clear,
    count_clear-le (group_bits s bg) blocks_per_group,
  )

  -- Claiming a clear bit keeps the counts right.
  pub claim_block-IsConsistent :
      bit_at (group_bits s bg) idx ≡ false → IsConsistent (claim_block s bg idx)
  claim_block-IsConsistent clear = rw (claim_block_lem s bg idx) (
      rewritten-IsConsistent s bg _ _ (mark (group_bits s bg) idx) c lt
        (mark-OnStack s (group_bits s bg) idx within on)
        (mark-IsBytes (group_bits s bg) idx is_bytes) (claim_count clear))

  mark_number :
      (b : ℕ)
      → (if bg == b / blocks_per_group
          then bit_at (mark (group_bits s bg) idx) (b % blocks_per_group)
          else block_used s b)
        ≡ (bg * blocks_per_group + idx == b) || block_used s b
  mark_number b = elim (ℕ_discrete bg (b / blocks_per_group)) [
    | yes e ↦
        rw
          (
            eq→== _ _ e,
            used_in_group s bg b e,
            bit_at-mark (group_bits s bg) idx (b % blocks_per_group) is_bytes,
          )
          (ground arith)
    | no ne ↦ ground arith
  ]

  -- Claiming a bit makes one more block used.
  pub block_used-claim_block :
      (b : ℕ)
      → b < groups_count * blocks_per_group
      → block_used (claim_block s bg idx) b ≡ (bg * blocks_per_group + idx == b) || block_used s b
  block_used-claim_block b hb = rw (claim_block_lem s bg idx) (
      block_used-rewritten s bg _ _ (mark (group_bits s bg) idx) c lt
        (mark-OnStack s (group_bits s bg) idx within on) b hb
      ∙ mark_number b)

module _ (s : Fs) (b : ℕ) (c : IsConsistent s) (lt : b < groups_count * blocks_per_group) where
  grp : ℕ
  grp = b / blocks_per_group

  off : ℕ
  off = b % blocks_per_group

  release_on : OnStack s (group_bits s grp)
  release_on = group_bits-OnStack s grp

  release-IsBytes : IsBytes (group_bits s grp)
  release-IsBytes = group_bits-IsBytes s grp c

  release_count :
      block_used s b ≡ true
      → increment16 (s.bgdt_cache grp).bg_free_blocks_count
        ≡ count_clear (unmark (group_bits s grp) off) blocks_per_group
  unfolding grp off block_used
  release_count used = omega (
    arith,
    c.counted grp (omega arith),
    count_clear-unmark (group_bits s grp) off blocks_per_group release-IsBytes (omega arith) used,
    count_clear-le (group_bits s grp) blocks_per_group,
  )

  -- In a consistent state, the release of a used block in the range of the groups leaves a
  -- consistent state: each free count is the number of clear bits again.
  pub release_block-IsConsistent : block_used s b ≡ true → IsConsistent (release_block s b)
  unfolding grp off
  release_block-IsConsistent used = rw (release_block_lem s b) (
      rewritten-IsConsistent s grp _ _ (unmark (group_bits s grp) off) c (omega arith)
        (unmark-OnStack s (group_bits s grp) off (omega arith) release_on)
        (unmark-IsBytes (group_bits s grp) off release-IsBytes) (release_count used))

  unmark_number :
      (x : ℕ)
      → (if grp == x / blocks_per_group
          then bit_at (unmark (group_bits s grp) off) (x % blocks_per_group)
          else block_used s x)
        ≡ not (b == x) && block_used s x
  unfolding grp off
  unmark_number x = elim (ℕ_discrete grp (x / blocks_per_group)) [
    | yes e ↦
        rw
          (
            eq→== _ _ e,
            used_in_group s grp x e,
            bit_at-unmark (group_bits s grp) off (x % blocks_per_group) release-IsBytes,
          )
          (ground arith)
    | no ne ↦ ground arith
  ]

  -- In a consistent state, after the release of a block in range, a block in range is used exactly
  -- if it was used before and is not the released one.
  pub block_used-release_block :
      (x : ℕ)
      → x < groups_count * blocks_per_group
      → block_used (release_block s b) x ≡ not (b == x) && block_used s x
  unfolding grp off
  block_used-release_block x hx = rw (release_block_lem s b) (
      block_used-rewritten s grp _ _ (unmark (group_bits s grp) off) c (omega arith)
        (unmark-OnStack s (group_bits s grp) off (omega arith) release_on) x hx
      ∙ unmark_number x)
