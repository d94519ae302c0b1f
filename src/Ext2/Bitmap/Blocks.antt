-- ===== src/Ext2/Bitmap/Blocks.antt =====
-- Block allocation of src/filesystem/ext2.c against the set of used blocks.
use loss_os.Prelude.{
  ℕ, ◌*◌, ◌/◌, ◌%◌, ◌<◌, ◌≡◌, ◌≢◌, ap, sym, subst, ◌∙◌, Bytes, Bool, ◌==◌, if◌then◌else◌, arith,
  ℕ_discrete, eq→==, ne→==,
}
use loss_os.Ext2.Layout.{groups_count, blocks_per_group}
use loss_os.Ext2.Device.{Fs, read_blocks, write_blocks}
use loss_os.Ext2.Device.Access.{OnStack, read_blocks-write_blocks_self, read_blocks-write_blocks_ne}
use loss_os.Ext2.Bitmap.{block_bitmap, set_free_blocks}
use loss_os.Ext2.Bitmap.Search.{bit_at, IsBytes}
use loss_os.Ext2.Bitmap.Count.{count_clear}

-- The block bitmap of group `bg` as it stands on the disk.
unfoldable pub group_bits : Fs → ℕ → Bytes
group_bits s bg = read_blocks s (block_bitmap s bg)

-- The bit of block `b`.
unfoldable pub block_used : Fs → ℕ → Bool
block_used s b = bit_at (group_bits s (b / blocks_per_group)) (b % blocks_per_group)

-- The free count of each group is the number of clear bits in its bitmap, and no two groups share a
-- bitmap.
pub record IsConsistent (s : Fs) : Type 0 where
  pub bytes : (lba : ℕ) → IsBytes (s.disk lba)
  pub stack_bytes : IsBytes s.stack
  pub apart :
      (a b : ℕ) → a < groups_count → b < groups_count → block_bitmap s a ≡ block_bitmap s b → a ≡ b
  pub counted :
      (bg : ℕ)
      → bg < groups_count
      → (s.bgdt_cache bg).bg_free_blocks_count ≡ count_clear (group_bits s bg) blocks_per_group

pub read_blocks-IsBytes : (s : Fs) (lba : ℕ) → IsConsistent s → IsBytes (read_blocks s lba)
unfolding read_blocks
read_blocks-IsBytes s lba c i = ground (arith, c.bytes lba i, c.stack_bytes i)

block_bitmap-set_free_blocks :
    (s : Fs) (bg n k g : ℕ) → block_bitmap (set_free_blocks s bg n k) g ≡ block_bitmap s g
block_bitmap-set_free_blocks s bg n k g = ground arith

-- What a change of one bitmap leaves of the bitmaps.
module _ (s : Fs) (bg n k : ℕ) (b : Bytes) where
  unfoldable pub rewritten : Fs
  rewritten = set_free_blocks (write_blocks s b (block_bitmap s bg)) bg n k

  abbrev at : ℕ
  at = block_bitmap s bg

  rewritten_bitmap : (g : ℕ) → block_bitmap rewritten g ≡ block_bitmap s g
  unfolding rewritten write_blocks
  rewritten_bitmap g = ground arith

  group_bits-rewritten_self : OnStack s b → group_bits rewritten bg ≡ b
  unfolding rewritten group_bits write_blocks read_blocks
  group_bits-rewritten_self h =
      ap (read_blocks rewritten) (rewritten_bitmap bg) ∙ read_blocks-write_blocks_self s b at h

  group_bits-rewritten_ne :
      (g : ℕ) → block_bitmap s bg ≢ block_bitmap s g → group_bits rewritten g ≡ group_bits s g
  unfolding rewritten group_bits write_blocks read_blocks
  group_bits-rewritten_ne g h =
      ap (read_blocks rewritten) (rewritten_bitmap g)
      ∙ read_blocks-write_blocks_ne s b at (block_bitmap s g) h

  rewritten_count_self : (rewritten.bgdt_cache bg).bg_free_blocks_count ≡ n
  unfolding rewritten write_blocks
  rewritten_count_self = ground arith

  rewritten_count_ne :
      (g : ℕ)
      → bg ≢ g
      → (rewritten.bgdt_cache g).bg_free_blocks_count ≡ (s.bgdt_cache g).bg_free_blocks_count
  unfolding rewritten write_blocks
  rewritten_count_ne g h = ground arith

  rewritten_counted :
      IsConsistent s
      → bg < groups_count
      → OnStack s b
      → n ≡ count_clear b blocks_per_group
      → (g : ℕ) → g < groups_count
      → (rewritten.bgdt_cache g).bg_free_blocks_count
        ≡ count_clear (group_bits rewritten g) blocks_per_group
  rewritten_counted c lt on e g hg = elim (ℕ_discrete bg g) [
    | yes same ↦
        subst
          (λ g.
            (rewritten.bgdt_cache g).bg_free_blocks_count
            ≡ count_clear (group_bits rewritten g) blocks_per_group)
          same (rw (rewritten_count_self, group_bits-rewritten_self on) e)
    | no ne ↦
        rw (rewritten_count_ne g ne, group_bits-rewritten_ne g (λ p. ne (c.apart bg g lt hg p)))
          (c.counted g hg)
  ]

  pub rewritten-IsConsistent :
      IsConsistent s
      → bg < groups_count
      → OnStack s b
      → IsBytes b
      → n ≡ count_clear b blocks_per_group
      → IsConsistent rewritten
  rewritten-IsConsistent c lt on is_bytes e = record {
    bytes = unfold rewritten write_blocks in λ lba i. ground (arith, c.bytes lba i, is_bytes i);
    stack_bytes = unfold rewritten write_blocks in c.stack_bytes;
    apart = λ x y hx hy p. c.apart x y hx hy (sym (rewritten_bitmap x) ∙ p ∙ rewritten_bitmap y);
    counted = rewritten_counted c lt on e;
  }

  -- Only the bits of group `bg` have changed.
  pub block_used-rewritten :
      IsConsistent s
      → bg < groups_count
      → OnStack s b
      → (c : ℕ) → c < groups_count * blocks_per_group
      → block_used rewritten c
        ≡ (if bg == c / blocks_per_group then bit_at b (c % blocks_per_group) else block_used s c)
  unfolding block_used
  block_used-rewritten cons lt on c hc = elim (ℕ_discrete bg (c / blocks_per_group)) [
    | yes same ↦ rw (eq→== _ _ same, ← same, group_bits-rewritten_self on)
    | no ne ↦ rw (
      ne→== _ _ ne,
      group_bits-rewritten_ne (c / blocks_per_group)
          (λ p. ne (cons.apart bg (c / blocks_per_group) lt (omega arith) p)),
    )
  ]
