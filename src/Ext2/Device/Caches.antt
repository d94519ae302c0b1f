-- ===== src/Ext2/Device/Caches.antt =====
-- `sync_metadata` against the mount that reads what it wrote.
use loss_os.Prelude.{ℕ, ◌<◌, ◌≡◌, Bytes, arith, ◌∙◌}
use loss_os.Ext2.Layout.{groups_count}
use loss_os.Ext2.Device.{
  Fs, put_table, put_superblock, read_blocks, write_blocks, sync_metadata, load_metadata,
}
use loss_os.Ext2.Device.Access.{OnStack, read_blocks-write_blocks_self, read_blocks-write_blocks_ne}
use loss_os.Ext2.Device.Serial.{
  SameDescriptor, IsDescriptor, IsSuperblock, get-put_superblock, put_table_lem,
  put_superblock_outside, put_table_outside,
}

module _ (s : Fs) (sb_ok : IsSuperblock s.super_block)
    (table_ok : (i : ℕ) → i < groups_count → IsDescriptor (s.bgdt_cache i)) where
  buf1 : Bytes
  buf1 = put_superblock s.stack s.super_block

  buf2 : Bytes
  buf2 = put_table groups_count 0 s.bgdt_cache buf1

  on1 : OnStack s buf1
  unfolding buf1
  on1 i h = put_superblock_outside s.stack s.super_block i (omega arith)

  on2 : OnStack s buf2
  unfolding buf2
  on2 i h = put_table_outside groups_count 0 s.bgdt_cache buf1 i (omega arith) ∙ on1 i h

  block1 : read_blocks (sync_metadata s) 1 ≡ buf1
  unfolding sync_metadata buf1 buf2
  block1 =
      read_blocks-write_blocks_ne (write_blocks s buf1 1) buf2 2 1 (omega arith)
      ∙ read_blocks-write_blocks_self s buf1 1 on1

  on2' : OnStack (write_blocks s buf1 1) buf2
  unfolding write_blocks
  on2' = on2

  block2 : read_blocks (sync_metadata s) 2 ≡ buf2
  unfolding sync_metadata buf1 buf2
  block2 = read_blocks-write_blocks_self (write_blocks s buf1 1) buf2 2 on2'

  -- What `sync_metadata` writes, the next mount reads: the superblock and every group descriptor
  -- come back as they were in the caches, if their fields fit.
  pub load-sync_metadata :
      ((load_metadata (sync_metadata s)).super_block ≡ s.super_block)
      × ((i : ℕ)
          → i < groups_count
          → SameDescriptor ((load_metadata (sync_metadata s)).bgdt_cache i) (s.bgdt_cache i))
  unfolding load_metadata
  load-sync_metadata = (
    rw block1 (unfold buf1 in get-put_superblock s.stack s.super_block sb_ok),
    λ i lt. rw block2 (
        unfold buf2 in
        put_table_lem groups_count 0 s.bgdt_cache buf1 i (λ j hj. table_ok j (omega arith))
          (omega arith) (λ no. absurd (omega arith))),
  )
