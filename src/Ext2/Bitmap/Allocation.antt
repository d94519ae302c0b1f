-- ===== src/Ext2/Bitmap/Allocation.antt =====
-- `allocate_block`: the search over the groups for a block to claim, in src/filesystem/ext2.c.
use loss_os.Prelude.{
  ℕ, zero, suc, ◌+◌, ◌-◌, ◌*◌, ◌%◌, ◌≤◌, ◌<◌, ◌≡◌, subst, ◌∙◌, true, false, ◌||◌, Option, none,
  some, inl, inr, ltb, ◌==◌, arith, Bool-cases, Option-cases, dec_lt,
}
use loss_os.Ext2.Layout.{groups_count, blocks_per_group}
use loss_os.Ext2.Device.{Fs, read_blocks}
use loss_os.Ext2.Bitmap.{find_clear, block_bitmap, claim_block, allocate_from, allocate_block}
use loss_os.Ext2.Bitmap.Search.{bit_at, Searched, find_clear_lem}
use loss_os.Ext2.Bitmap.Count.{bit_at_of_count_zero}
use loss_os.Ext2.Bitmap.Blocks.{group_bits, block_used, IsConsistent}
use loss_os.Ext2.Bitmap.Claims.{used_in_group, claim_block-IsConsistent, block_used-claim_block}

-- Every block from `lo` up to `hi` is used.
abbrev pub AllUsed : Fs → ℕ → ℕ → Type 0
AllUsed s lo hi = (b : ℕ) → lo ≤ b → b < hi → block_used s b ≡ true

-- What the answer of an allocation from group `bg` on promises.
abbrev pub Allocated : Fs → ℕ → Option (ℕ × Fs) → Type 0
Allocated s bg none = AllUsed s (bg * blocks_per_group) (groups_count * blocks_per_group)
Allocated s bg (some (n, s')) =
    (bg * blocks_per_group ≤ n)
    × (n < groups_count * blocks_per_group)
    × (block_used s n ≡ false)
    × AllUsed s (bg * blocks_per_group) n
    × ((b : ℕ) → b < groups_count * blocks_per_group → block_used s' b ≡ (n == b) || block_used s b)
    × IsConsistent s'

AllUsed-join : (s : Fs) (lo mid hi : ℕ) → AllUsed s lo mid → AllUsed s mid hi → AllUsed s lo hi
AllUsed-join s lo mid hi a b x h1 h2 = elim (dec_lt x mid) [
  | yes p ↦ a x h1 p
  | no p ↦ b x (omega arith) h2
]

Allocated-next :
    (s : Fs) (bg : ℕ) (r : Option (ℕ × Fs))
    → AllUsed s (bg * blocks_per_group) ((bg + 1) * blocks_per_group)
    → Allocated s (bg + 1) r
    → Allocated s bg r
Allocated-next s bg none full rest =
    AllUsed-join s (bg * blocks_per_group) ((bg + 1) * blocks_per_group)
      (groups_count * blocks_per_group) full rest
Allocated-next s bg (some (n, s')) full (h1, h2, h3, h4, h5, h6) = (
  omega arith,
  h2,
  h3,
  AllUsed-join s (bg * blocks_per_group) ((bg + 1) * blocks_per_group) n full h4,
  h5,
  h6,
)

-- The bits of one group, as blocks.
bits-AllUsed :
    (s : Fs) (bg k : ℕ)
    → k ≤ blocks_per_group
    → ((j : ℕ) → j < k → bit_at (group_bits s bg) j ≡ true)
    → AllUsed s (bg * blocks_per_group) (bg * blocks_per_group + k)
bits-AllUsed s bg k le h b h1 h2 =
    used_in_group s bg b (omega arith) ∙ h (b % blocks_per_group) (omega arith)

group_full :
    (s : Fs) (bg : ℕ)
    → ((j : ℕ) → j < blocks_per_group → bit_at (group_bits s bg) j ≡ true)
    → AllUsed s (bg * blocks_per_group) ((bg + 1) * blocks_per_group)
group_full s bg h b h1 h2 = bits-AllUsed s bg blocks_per_group (omega arith) h b h1 (omega arith)

-- The search of one group's bitmap found a bit.
found :
    (s : Fs) (bg idx : ℕ)
    → IsConsistent s
    → bg < groups_count
    → Searched (group_bits s bg) blocks_per_group 0 blocks_per_group (some idx)
    → Allocated s bg (some (bg * blocks_per_group + idx, claim_block s bg idx))
found s bg idx c lt (h1, h2, h3, h4, h5) = (
  omega arith,
  omega arith,
  used_in_group s bg (bg * blocks_per_group + idx) (omega arith)
      ∙ subst (λ k. bit_at (group_bits s bg) k ≡ false) at_idx h4,
  bits-AllUsed s bg idx (omega arith) (λ j hj. h5 j (omega arith) hj (omega arith)),
  block_used-claim_block s bg idx c lt h2,
  claim_block-IsConsistent s bg idx c lt h2 h4,
)
  where
    at_idx : idx ≡ (bg * blocks_per_group + idx) % blocks_per_group
    at_idx = omega arith

module _ (s : Fs) (bg rounds : ℕ) (c : IsConsistent s) (lt : bg < groups_count)
    (rest : Allocated s (bg + 1) (allocate_from rounds (bg + 1) s)) where
  onwards :
      ((j : ℕ) → j < blocks_per_group → bit_at (group_bits s bg) j ≡ true)
      → Allocated s bg (allocate_from rounds (bg + 1) s)
  onwards h = Allocated-next s bg (allocate_from rounds (bg + 1) s) (group_full s bg h) rest

  bits :
      (r : Option ℕ)
      → find_clear blocks_per_group (read_blocks s (block_bitmap s bg)) ≡ r
      → Searched (group_bits s bg) blocks_per_group 0 blocks_per_group r
  unfolding group_bits
  bits r e =
      subst (Searched (group_bits s bg) blocks_per_group 0 blocks_per_group) e
        (find_clear_lem blocks_per_group (group_bits s bg) (omega arith))

  allocate_step : Allocated s bg (allocate_from (suc rounds) bg s)
  unfolding allocate_from
  allocate_step = elim (Bool-cases (ltb 0 (s.bgdt_cache bg).bg_free_blocks_count)) [
    | inl some_free ↦
        elim (Option-cases (find_clear blocks_per_group (read_blocks s (block_bitmap s bg)))) [
          | inl nothing ↦
              rw (some_free, nothing) (onwards (λ j hj. bits none nothing j (omega arith) hj hj))
          | inr (idx, hit) ↦ rw (some_free, hit) (found s bg idx c lt (bits (some idx) hit))
        ]
    | inr none_free ↦ rw none_free (
        onwards (λ j hj.
          bit_at_of_count_zero (group_bits s bg) blocks_per_group j
            (ground (arith, c.counted bg lt)) hj))
  ]

allocate_from-Allocated :
    (rounds bg : ℕ) (s : Fs)
    → IsConsistent s
    → rounds + bg ≡ groups_count
    → Allocated s bg (allocate_from rounds bg s)
allocate_from-Allocated zero bg s c e = unfold allocate_from in λ b h1 h2. absurd (omega arith)
allocate_from-Allocated (suc rounds) bg s c e =
    allocate_step s bg rounds c (omega arith)
      (allocate_from-Allocated rounds (bg + 1) s c (omega arith))

-- From a consistent state, with a group number in range, an allocation answers the first free block
-- from that group on and makes just that block used, and the state is consistent again; it fails
-- only if every block from that group on is used.
pub allocate_block_lem :
    (s : Fs) (bg : ℕ) → IsConsistent s → bg ≤ groups_count → Allocated s bg (allocate_block s bg)
unfolding allocate_block
allocate_block_lem s bg c h = allocate_from-Allocated (groups_count - bg) bg s c (omega arith)
