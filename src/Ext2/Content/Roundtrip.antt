-- ===== src/Ext2/Content/Roundtrip.antt =====
-- A small file stored by `allocate_node_blocks` of src/filesystem/ext2.c and read again.
use loss_os.Prelude.{
  ℕ, ◌+◌, ◌-◌, ◌*◌, ◌/◌, ◌%◌, ◌≤◌, ◌<◌, ◌≡◌, ◌≢◌, ◌⊎◌, refl, sym, ap, subst, ◌∙◌, Bytes, true,
  false, inl, inr, arith, ltb, ne→==,
}
use loss_os.Ext2.Layout.{Inode, block_size, groups_count, blocks_per_group}
use loss_os.Ext2.Device.{Fs, write_blocks, sync_metadata}
use loss_os.Ext2.Bitmap.Search.{IsBytes}
use loss_os.Ext2.Bitmap.Blocks.{block_used}
use loss_os.Ext2.Bitmap.Allocation.{AllUsed}
use loss_os.Ext2.Content.{copy_length, fill_direct, single_part, double_part, allocate_node_blocks}
use loss_os.Ext2.Content.Fresh.{all_blocks, IsSafe}
use loss_os.Ext2.Content.Filled.{IsFilled, IsPlaced, fill_direct-IsFilled}
use loss_os.Ext2.Read.{copy_file}
use loss_os.Ext2.Read.Transfer.{file_byte, IsWhole}
use loss_os.Ext2.Read.Whole.{copy_file-IsCopied, direct_block}

disk-sync_metadata : (s : Fs) (b : ℕ) → 1 ≢ b → 2 ≢ b → (sync_metadata s).disk b ≡ s.disk b
unfolding sync_metadata write_blocks
disk-sync_metadata s b h1 h2 = rw (ne→== 2 b h2, ne→== 1 b h1) refl

-- Every byte of the file lies in the piece that goes into its block.
in_piece :
    (size needed o : ℕ)
    → needed ≡ (size + block_size - 1) / block_size
    → o < size
    → o % block_size < copy_length size needed (o / block_size)
unfolding copy_length
in_piece size needed o e lt = ground arith

module _ (s : Fs) (content : Bytes) (node : Inode) (bgd : ℕ) (safe : IsSafe s)
    (boot : block_used s 0 ≡ true) (meta1 : block_used s 1 ≡ true) (meta2 : block_used s 2 ≡ true)
    (in_groups : bgd ≤ groups_count) (is_bytes : IsBytes content) (small : node.i_blocks ≤ 12)
    (sized : node.i_blocks ≡ (node.i_size + block_size - 1) / block_size) where
  abbrev filled : Fs × (ℕ → ℕ) × ℕ
  filled = fill_direct content node.i_size node.i_blocks bgd 12 0 s node.i_block 0

  fill :
      IsFilled content node.i_size node.i_blocks bgd s node.i_block 0 12 filled.0 filled.1 filled.2
  fill =
      fill_direct-IsFilled content node.i_size node.i_blocks bgd in_groups is_bytes 12 0 s
        node.i_block safe (omega arith)

  finished :
      filled.2 ≡ node.i_blocks
      → allocate_node_blocks s content node bgd
        ≡ (sync_metadata filled.0, record node { i_block = filled.1 })
  unfolding allocate_node_blocks single_part double_part
  finished e =
      let done : ltb filled.2 node.i_blocks ≡ false = ground arith in rw done (rw done refl)

  not_meta :
      (m num : ℕ) → m < all_blocks → block_used s m ≡ true → block_used s num ≡ false → m ≢ num
  not_meta m num lt on off e =
      absurd (ground (arith, on, subst (λ k. block_used s k ≡ false) (sym e) off))

  byte_back :
      filled.2 ≡ node.i_blocks
      → (o : ℕ) → o < node.i_size
      → file_byte (sync_metadata filled.0) (record node { i_block = filled.1 }) o ≡ content o
  unfolding sync_metadata write_blocks
  byte_back e o lt = rw near (
      ap (λ b. b (o % block_size))
        (disk-sync_metadata filled.0 num (not_meta 1 num (omega arith) meta1 piece.was_free)
          (not_meta 2 num (omega arith) meta2 piece.was_free))
      ∙ piece.holds (o % block_size) (in_piece node.i_size node.i_blocks o sized lt)
      ∙ ap content whole)
    where
      num : ℕ
      num = filled.1 (o / block_size)

      near : ltb (o / block_size) 12 ≡ true
      near = ground (arith, lt, sized, small)

      piece : IsPlaced content node.i_size node.i_blocks bgd s filled.0 (o / block_size) num
      piece = fill.placed (o / block_size) (omega arith) (omega (arith, e, sized))

      whole : o / block_size * block_size + o % block_size ≡ o
      whole = omega arith

  -- The pointers that the file's size calls for are there.
  IsWhole-file :
      filled.2 ≡ node.i_blocks
      → IsWhole (sync_metadata filled.0) (record node { i_block = filled.1 })
  IsWhole-file e = record {
    fits = omega (arith, sized, small);
    blocks = λ k lt z.
        let piece : IsPlaced content node.i_size node.i_blocks bgd s filled.0 k (filled.1 k) =
          fill.placed k (omega arith) (omega (arith, e, sized)) in
        let at =
          direct_block (sync_metadata filled.0) (record node { i_block = filled.1 }) k
            (omega (arith, sized, small)) in
        not_meta 0 (filled.1 k) (omega arith) boot piece.was_free (sym z ∙ at);
    single = λ lt. absurd (omega (arith, sized, small));
    double = λ lt. absurd (omega (arith, sized, small));
    inner = λ q h lt. absurd (omega (arith, sized, small));
  }

  read_back :
      filled.2 ≡ node.i_blocks
      → (buf : Bytes) (o : ℕ) → o < node.i_size
      → (copy_file
            (sync_metadata filled.0)
            (record node { i_block = filled.1 })
            (record { to = buf; copied = 0; to_read = node.i_size })).to
          o
        ≡ content o
  read_back e buf o lt =
      let c =
        copy_file-IsCopied (sync_metadata filled.0) (record node { i_block = filled.1 }) buf
          (IsWhole-file e) in
      let here : o ≡ 0 + o = omega arith in
      ap
        ((copy_file (sync_metadata filled.0) (record node { i_block = filled.1 })
          (record { to = buf; copied = 0; to_read = node.i_size })).to)
        here
      ∙ c.inside o lt
      ∙ byte_back e o lt

  -- A file of bytes with at most twelve blocks, their number fitting its size, that is stored in a
  -- safe state in which the blocks 0, 1 and 2 are used: the loops of `read` then copy it byte for
  -- byte into whatever buffer, unless the loop stopped because every block from the preferred group
  -- on is used.
  pub copy_file-allocate_node_blocks :
      (buf : Bytes)
      → ((o : ℕ)
          → o < node.i_size
          → (copy_file
                (allocate_node_blocks s content node bgd).0
                (allocate_node_blocks s content node bgd).1
                (record { to = buf; copied = 0; to_read = node.i_size })).to
              o
            ≡ content o)
        ⊎ AllUsed
            (fill_direct content node.i_size node.i_blocks bgd 12 0 s node.i_block 0).0
            (bgd * blocks_per_group)
            all_blocks
  copy_file-allocate_node_blocks buf = elim fill.complete [
    | inl e ↦
        let n : filled.2 ≡ node.i_blocks = omega (arith, e) in
        inl (λ o lt. rw (finished n) (read_back n buf o lt))
    | inr all ↦ inr all
  ]
