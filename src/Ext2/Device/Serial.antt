-- ===== src/Ext2/Device/Serial.antt =====
-- The superblock and the group descriptors, written to a block and read back.
use loss_os.Prelude.{
  ℕ, zero, suc, ◌+◌, ◌*◌, ◌^◌, ◌≤◌, ◌<◌, ◌≡◌, refl, ◌⊎◌, Bytes, arith, words, ◌∙◌, poke_ne,
  poke16_outside, poke32_outside, subst, ℕ_discrete,
}
use loss_os.Ext2.Layout.{Superblock, GroupDescriptor, group_descriptor_size}
use loss_os.Ext2.Device.{
  put_descriptor, get_descriptor, put_table, get_table, put_superblock, get_superblock,
}

abbrev pub SameDescriptor : GroupDescriptor → GroupDescriptor → Type 0
SameDescriptor d e =
    (d.bg_block_bitmap ≡ e.bg_block_bitmap)
    × (d.bg_inode_bitmap ≡ e.bg_inode_bitmap)
    × (d.bg_inode_table ≡ e.bg_inode_table)
    × (d.bg_free_blocks_count ≡ e.bg_free_blocks_count)
    × (d.bg_free_inodes_count ≡ e.bg_free_inodes_count)
    × (d.bg_used_dirs_count ≡ e.bg_used_dirs_count)
    × (d.bg_pad ≡ e.bg_pad)
    × (d.bg_reserved 0 ≡ e.bg_reserved 0)
    × (d.bg_reserved 1 ≡ e.bg_reserved 1)
    × (d.bg_reserved 2 ≡ e.bg_reserved 2)

pub record IsDescriptor (d : GroupDescriptor) : Type 0 where
  pub block_bitmap_in : d.bg_block_bitmap < 2 ^ 32
  pub inode_bitmap_in : d.bg_inode_bitmap < 2 ^ 32
  pub inode_table_in : d.bg_inode_table < 2 ^ 32
  pub free_blocks_in : d.bg_free_blocks_count < 2 ^ 16
  pub free_inodes_in : d.bg_free_inodes_count < 2 ^ 16
  pub used_dirs_in : d.bg_used_dirs_count < 2 ^ 16
  pub pad_in : d.bg_pad < 2 ^ 16
  pub reserved0_in : d.bg_reserved 0 < 2 ^ 32
  pub reserved1_in : d.bg_reserved 1 < 2 ^ 32
  pub reserved2_in : d.bg_reserved 2 < 2 ^ 32

get-put_descriptor :
    (b : Bytes) (at : ℕ) (d : GroupDescriptor)
    → IsDescriptor d
    → SameDescriptor (get_descriptor (put_descriptor b at d) at) d
unfolding get_descriptor put_descriptor
get-put_descriptor b at d h = (
  grind words,
  grind words,
  grind words,
  grind words,
  grind words,
  grind words,
  grind words,
  grind words,
  grind words,
  grind words,
)

get-put_descriptor_ne :
    (b : Bytes) (at c : ℕ) (d : GroupDescriptor)
    → (c + group_descriptor_size ≤ at) ⊎ (at + group_descriptor_size ≤ c)
    → SameDescriptor (get_descriptor (put_descriptor b at d) c) (get_descriptor b c)
unfolding get_descriptor put_descriptor
get-put_descriptor_ne b at c d h = (
  grind words,
  grind words,
  grind words,
  grind words,
  grind words,
  grind words,
  grind words,
  grind words,
  grind words,
  grind words,
)

pub record IsSuperblock (sb : Superblock) : Type 0 where
  pub inodes_in : sb.s_inodes_count < 2 ^ 32
  pub blocks_in : sb.s_blocks_count < 2 ^ 32
  pub r_blocks_in : sb.s_r_blocks_count < 2 ^ 32
  pub free_blocks_in : sb.s_free_blocks_count < 2 ^ 32
  pub free_inodes_in : sb.s_free_inodes_count < 2 ^ 32
  pub first_data_in : sb.s_first_data_block < 2 ^ 32
  pub first_ino_in : sb.s_first_ino < 2 ^ 32
  pub per_group_in : sb.s_blocks_per_group < 2 ^ 32
  pub frags_in : sb.s_frags_per_group < 2 ^ 32
  pub inodes_per_group_in : sb.s_inodes_per_group < 2 ^ 32
  pub magic_in : sb.s_magic < 2 ^ 16

pub get-put_superblock :
    (b : Bytes) (sb : Superblock) → IsSuperblock sb → get_superblock (put_superblock b sb) ≡ sb
unfolding get_superblock put_superblock
get-put_superblock b sb h = grind words

Same-trans :
    (a b c : GroupDescriptor) → SameDescriptor a b → SameDescriptor b c → SameDescriptor a c
Same-trans a b c h k = omega arith

-- The table, written whole: descriptor `i` is read back.
pub put_table_lem :
    (rounds k : ℕ) (t : ℕ → GroupDescriptor) (b : Bytes) (i : ℕ)
    → ((j : ℕ) → j < k + rounds → IsDescriptor (t j))
    → i < k + rounds
    → (i < k → SameDescriptor (get_table b i) (t i))
    → SameDescriptor (get_table (put_table rounds k t b) i) (t i)
unfolding put_table get_table
put_table_lem zero k t b i h lt before = before (omega arith)
put_table_lem (suc rounds) k t b i h lt before =
    put_table_lem rounds (k + 1) t b' i (λ j hj. h j (omega arith)) (omega arith)
      (λ below. elim (ℕ_discrete k i) [
        | yes e ↦
            subst (λ i. SameDescriptor (get_descriptor b' (group_descriptor_size * i)) (t i)) e
              (get-put_descriptor b (group_descriptor_size * k) (t k) (h k (omega arith)))
        | no ne ↦
            Same-trans (get_descriptor b' (group_descriptor_size * i))
              (get_descriptor b (group_descriptor_size * i)) (t i)
              (get-put_descriptor_ne b (group_descriptor_size * k) (group_descriptor_size * i) (t k)
                (omega arith))
              (before (omega arith))
      ])
  where
    b' : Bytes
    b' = put_descriptor b (group_descriptor_size * k) (t k)

pub put_superblock_outside :
    (b : Bytes) (sb : Superblock) (i : ℕ) → 44 ≤ i → put_superblock b sb i ≡ b i
unfolding put_superblock
put_superblock_outside b sb i h = grind (arith, poke_ne, poke16_outside, poke32_outside)

put_descriptor_outside :
    (b : Bytes) (at : ℕ) (d : GroupDescriptor) (i : ℕ)
    → at + group_descriptor_size ≤ i
    → put_descriptor b at d i ≡ b i
unfolding put_descriptor
put_descriptor_outside b at d i h = grind (arith, poke_ne, poke16_outside, poke32_outside)

pub put_table_outside :
    (rounds k : ℕ) (t : ℕ → GroupDescriptor) (b : Bytes) (i : ℕ)
    → group_descriptor_size * (k + rounds) ≤ i
    → put_table rounds k t b i ≡ b i
unfolding put_table
put_table_outside zero k t b i h = refl
put_table_outside (suc rounds) k t b i h =
    put_table_outside rounds (k + 1) t (put_descriptor b (group_descriptor_size * k) (t k)) i
      (omega arith)
    ∙ put_descriptor_outside b (group_descriptor_size * k) (t k) i (omega arith)
