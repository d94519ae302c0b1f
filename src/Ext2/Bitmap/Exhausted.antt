-- ===== src/Ext2/Bitmap/Exhausted.antt =====
-- When the allocations of src/filesystem/ext2.c fail.
use loss_os.Prelude.{
  ℕ, zero, suc, ◌+◌, ◌-◌, ◌*◌, ◌≤◌, ◌<◌, ◌≡◌, ◌⊎◌, inl, inr, refl, subst, arith, Bytes, Option,
  none, some, true, false, Bool-cases, Option-cases, dec_lt, ltb,
}
use loss_os.Ext2.Layout.{block_size, groups_count, blocks_per_group, inodes_per_group}
use loss_os.Ext2.Device.{Fs, read_blocks}
use loss_os.Ext2.Bitmap.{
  block_bitmap, inode_bitmap, find_clear, allocate_from, allocate_block, allocate_node_from,
  allocate_node,
}
use loss_os.Ext2.Bitmap.Search.{bit_at, Searched, find_clear_lem}

-- A group that has nothing to give: its counter says so, or every bit of its bitmap is set.
abbrev pub IsSpent : ℕ → Bytes → ℕ → Type 0
IsSpent free bits limit = (free ≡ 0) ⊎ ((j : ℕ) → j < limit → bit_at bits j ≡ true)

abbrev BlocksSpent : Fs → ℕ → Type 0
BlocksSpent s i =
    IsSpent (s.bgdt_cache i).bg_free_blocks_count (read_blocks s (block_bitmap s i))
      blocks_per_group

abbrev InodesSpent : Fs → ℕ → Type 0
InodesSpent s i =
    IsSpent (s.bgdt_cache i).bg_free_inodes_count (read_blocks s (inode_bitmap s i))
      inodes_per_group

-- No group from `bg` on has a free block, and no group has a free inode.
abbrev pub NoBlocks : Fs → ℕ → Type 0
NoBlocks s bg = (i : ℕ) → bg ≤ i → i < groups_count → BlocksSpent s i

abbrev pub NoInodes : Fs → Type 0
NoInodes s = (i : ℕ) → i < groups_count → InodesSpent s i

-- What an allocation of a block answers, by number: the bit of a group from `bg` on that was clear.
abbrev pub BlockAnswer : Fs → ℕ → Option (ℕ × Fs) → Type 0
BlockAnswer s bg none = NoBlocks s bg
BlockAnswer s bg (some (num, s1)) =
    (i : ℕ) × (idx : ℕ) × (bg ≤ i)
    × (i * blocks_per_group + idx ≡ num)
    × (bit_at (read_blocks s (block_bitmap s i)) idx ≡ false)

BlockAnswer-next :
    (s : Fs) (bg : ℕ) (r : Option (ℕ × Fs))
    → BlocksSpent s bg
    → BlockAnswer s (bg + 1) r
    → BlockAnswer s bg r
BlockAnswer-next s bg none spent h = λ i le lt. elim (dec_lt bg i) [
  | yes p ↦ h i (omega arith) lt
  | no p ↦ let same : bg ≡ i = omega arith in subst (BlocksSpent s) same spent
]
BlockAnswer-next s bg (some (num, s1)) spent (i, idx, le, e, clear) =
    (i, idx, omega arith, e, clear)

all_set :
    (m : Bytes) (limit : ℕ)
    → limit ≤ block_size * 8
    → find_clear limit m ≡ none
    → (j : ℕ) → j < limit
    → bit_at m j ≡ true
all_set m limit le e j h =
    subst (Searched m limit 0 limit) e (find_clear_lem limit m le) j (omega arith) h h

clear_bit_found :
    (m : Bytes) (limit idx : ℕ)
    → limit ≤ block_size * 8
    → find_clear limit m ≡ some idx
    → bit_at m idx ≡ false
clear_bit_found m limit idx le e =
    let (h1, h2, h3, h4, h5) = subst (Searched m limit 0 limit) e (find_clear_lem limit m le) in h4

allocate_from-answer :
    (rounds bg : ℕ) (s : Fs)
    → rounds + bg ≡ groups_count
    → BlockAnswer s bg (allocate_from rounds bg s)
unfolding allocate_from
allocate_from-answer zero bg s e = λ i le lt. absurd (omega arith)
allocate_from-answer (suc rounds) bg s e =
    let m = read_blocks s (block_bitmap s bg) in
    let rest = allocate_from-answer rounds (bg + 1) s (omega arith) in
    elim (Bool-cases (ltb 0 (s.bgdt_cache bg).bg_free_blocks_count)) [
      | inl some_free ↦ elim (Option-cases (find_clear blocks_per_group m)) [
        | inl nothing ↦
            rw (some_free, nothing)
              (BlockAnswer-next s bg (allocate_from rounds (bg + 1) s)
                (inr (all_set m blocks_per_group (omega arith) nothing)) rest)
        | inr (idx, hit) ↦
            rw (some_free, hit)
              (bg, idx, omega arith, refl, clear_bit_found m blocks_per_group idx (omega arith) hit)
      ]
      | inr none_free ↦
          rw none_free
            (BlockAnswer-next s bg (allocate_from rounds (bg + 1) s) (inl (ground arith)) rest)
    ]

pub allocate_block-answer :
    (s : Fs) (bg : ℕ) → bg ≤ groups_count → BlockAnswer s bg (allocate_block s bg)
unfolding allocate_block
allocate_block-answer s bg h = allocate_from-answer (groups_count - bg) bg s (omega arith)

allocate_node_from-fails :
    (rounds i : ℕ) (s : Fs)
    → rounds + i ≡ groups_count
    → (allocate_node_from rounds i s).0 ≡ 0
    → (k : ℕ) → i ≤ k
    → k < groups_count
    → InodesSpent s k
unfolding allocate_node_from
allocate_node_from-fails zero i s e = λ h k le lt. absurd (omega arith)
allocate_node_from-fails (suc rounds) i s e =
    let m = read_blocks s (inode_bitmap s i) in
    let rest = allocate_node_from-fails rounds (i + 1) s (omega arith) in
    let onwards : InodesSpent s i
        → (allocate_node_from rounds (i + 1) s).0 ≡ 0
        → (k : ℕ) → i ≤ k
        → k < groups_count
        → InodesSpent s k =
      λ spent h k le lt. elim (dec_lt i k) [
        | yes p ↦ rest h k (omega arith) lt
        | no p ↦ let same : i ≡ k = omega arith in subst (InodesSpent s) same spent
      ] in
    elim (Bool-cases (ltb 0 (s.bgdt_cache i).bg_free_inodes_count)) [
      | inl some_free ↦ elim (Option-cases (find_clear inodes_per_group m)) [
        | inl nothing ↦
            rw (some_free, nothing)
              (onwards (inr (all_set m inodes_per_group (omega arith) nothing)))
        | inr (idx, hit) ↦ rw (some_free, hit) (λ h. absurd (omega arith))
      ]
      | inr none_free ↦ rw none_free (onwards (inl (ground arith)))
    ]

-- No inode is answered only if no group has one.
pub allocate_node-fails : (s : Fs) → (allocate_node s).0 ≡ 0 → NoInodes s
unfolding allocate_node
allocate_node-fails s h k lt = allocate_node_from-fails groups_count 0 s refl h k (omega arith) lt

allocate_node_from_fails_state :
    (rounds i : ℕ) (s : Fs)
    → (allocate_node_from rounds i s).0 ≡ 0
    → (allocate_node_from rounds i s).1 ≡ s
unfolding allocate_node_from
allocate_node_from_fails_state zero i s = λ h. refl
allocate_node_from_fails_state (suc rounds) i s =
    let m = read_blocks s (inode_bitmap s i) in
    let rest = allocate_node_from_fails_state rounds (i + 1) s in
    elim (Bool-cases (ltb 0 (s.bgdt_cache i).bg_free_inodes_count)) [
      | inl some_free ↦ elim (Option-cases (find_clear inodes_per_group m)) [
        | inl nothing ↦ rw (some_free, nothing) rest
        | inr (idx, hit) ↦ rw (some_free, hit) (λ h. absurd (omega arith))
      ]
      | inr none_free ↦ rw none_free rest
    ]

-- A failed search for an inode changes nothing.
pub allocate_node_fails_state : (s : Fs) → (allocate_node s).0 ≡ 0 → (allocate_node s).1 ≡ s
unfolding allocate_node
allocate_node_fails_state s h = allocate_node_from_fails_state groups_count 0 s h
