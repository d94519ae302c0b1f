-- ===== src/Ext2/Device/Inodes.antt =====
-- The inode table of src/filesystem/ext2.c: what `sync_node` stores and a later load finds.
use loss_os.Prelude.{
  ℕ, zero, suc, ◌+◌, ◌*◌, ◌^◌, ◌≤◌, ◌<◌, ◌≡◌, ◌≢◌, refl, ◌∙◌, ◌⊎◌, Bytes, ap, arith, ℕ_discrete,
}
use loss_os.Ext2.Layout.{
  Inode, groups_count, inodes_per_group, inodes_per_table, inodes_table_block_count, put_inode,
  inode_to_bgd, inode_to_local,
}
use loss_os.Ext2.Device.{
  Fs, read_blocks, write_blocks, inode_block, inode_index, load_node, sync_node,
}
use loss_os.Ext2.Device.Access.{
  OnStack, read_blocks-OnStack, read_blocks-write_blocks_self, read_blocks-write_blocks_ne,
}
use loss_os.Ext2.Device.InodeBytes.{
  SameInode, IsInode, get-put_inode_self, get-put_inode_ne, put_inode_outside,
}

-- The inode tables of two groups share no block, and no block number wraps.
pub record IsTabled (s : Fs) : Type 0 where
  pub fits :
      (bg : ℕ)
      → bg < groups_count
      → (s.bgdt_cache bg).bg_inode_table + inodes_table_block_count < 2 ^ 32
  pub tables_apart :
      (a b : ℕ)
      → a < groups_count
      → b < groups_count
      → a ≢ b
      → ((s.bgdt_cache a).bg_inode_table + inodes_table_block_count
          ≤ (s.bgdt_cache b).bg_inode_table)
        ⊎ ((s.bgdt_cache b).bg_inode_table + inodes_table_block_count
            ≤ (s.bgdt_cache a).bg_inode_table)

abbrev pub IsInodeNumber : ℕ → Type 0
IsInodeNumber i = (1 ≤ i) × (i ≤ groups_count * inodes_per_group)

-- Every inode number has its place in its group.
pub inode_number :
    (i : ℕ)
    → IsInodeNumber i
    → (inode_to_bgd i < groups_count)
      × (inode_to_local i < inodes_per_group)
      × (inode_to_bgd i * inodes_per_group + inode_to_local i + 1 ≡ i)
unfolding inode_to_bgd inode_to_local
inode_number i h = ground arith

-- Two inode numbers with the same block and the same index are the same.
place_injective :
    (s : Fs) (i j : ℕ)
    → IsTabled s
    → IsInodeNumber i
    → IsInodeNumber j
    → inode_block s i ≡ inode_block s j
    → inode_index i ≡ inode_index j
    → i ≡ j
unfolding inode_block inode_index
place_injective s i j t hi hj eb ei = elim (ℕ_discrete (inode_to_bgd i) (inode_to_bgd j)) [
  | yes e ↦ omega (
    arith,
    ap (λ g. (s.bgdt_cache g).bg_inode_table) e,
    inode_number i hi,
    inode_number j hj,
    t.fits (inode_to_bgd i) (inode_number i hi).0,
  )
  | no ne ↦ absurd (
      omega (
        arith,
        inode_number i hi,
        inode_number j hj,
        t.fits (inode_to_bgd i) (inode_number i hi).0,
        t.fits (inode_to_bgd j) (inode_number j hj).0,
        t.tables_apart (inode_to_bgd i) (inode_to_bgd j) (inode_number i hi).0 (inode_number j hj).0
            ne,
      ))
]

inode_index-lt : (i : ℕ) → inode_index i < inodes_per_table
unfolding inode_index
inode_index-lt i = omega arith

pub sync_node_pos :
    (s : Fs) (node : Inode) (i : ℕ)
    → 1 ≤ i
    → sync_node s node i
      ≡ write_blocks s
          (put_inode (read_blocks s (inode_block s i)) (inode_index i) node)
          (inode_block s i)
unfolding sync_node
sync_node_pos s node zero h = absurd (omega arith)
sync_node_pos s node (suc n) h = refl

module _ (s : Fs) (node : Inode) (i : ℕ) (t : IsTabled s) (hi : IsInodeNumber i) where
  abbrev stored : Bytes
  stored = put_inode (read_blocks s (inode_block s i)) (inode_index i) node

  stored-OnStack : OnStack s stored
  stored-OnStack k h =
      put_inode_outside (read_blocks s (inode_block s i)) (inode_index i) node k
        (omega (arith, inode_index-lt i))
      ∙ read_blocks-OnStack s (inode_block s i) k h

  abbrev after : Fs
  after = write_blocks s stored (inode_block s i)

  inode_block-after : (j : ℕ) → inode_block after j ≡ inode_block s j
  unfolding inode_block write_blocks
  inode_block-after j = refl

  stored_self : IsInode node → SameInode (load_node after i) node
  unfolding load_node
  stored_self ok =
      rw
        (
          inode_block-after i,
          read_blocks-write_blocks_self s stored (inode_block s i) stored-OnStack,
        )
        (get-put_inode_self (read_blocks s (inode_block s i)) (inode_index i) node ok)

  stored_ne : (j : ℕ) → IsInodeNumber j → i ≢ j → SameInode (load_node after j) (load_node s j)
  unfolding load_node
  stored_ne j hj ne = elim (ℕ_discrete (inode_block s i) (inode_block s j)) [
    | yes e ↦
        rw
          (
            inode_block-after j,
            ← e,
            read_blocks-write_blocks_self s stored (inode_block s i) stored-OnStack,
          )
          (get-put_inode_ne (read_blocks s (inode_block s i)) (inode_index i) (inode_index j) node
            (λ same. ne (place_injective s i j t hi hj e same)))
    | no other ↦
        rw
          (
            inode_block-after j,
            read_blocks-write_blocks_ne s stored (inode_block s i) (inode_block s j) other,
          )
          (refl, refl, refl, λ k lt. refl)
  ]

  -- If the groups' inode tables do not overlap, the number is in range and the inode's fields fit,
  -- `sync_node` stores the inode under its number, where the next load finds it, and every other
  -- inode is loaded as before.
  pub load-sync_node :
      IsInode node
      → SameInode (load_node (sync_node s node i) i) node
        × ((j : ℕ)
            → IsInodeNumber j
            → i ≢ j
            → SameInode (load_node (sync_node s node i) j) (load_node s j))
  load-sync_node ok = rw (sync_node_pos s node i hi.0) (stored_self ok, stored_ne)
