-- ===== src/Ext2/Write/NewBlock.antt =====
-- The block that `write` of src/filesystem/ext2.c adds to a directory: when there is none.
use loss_os.Prelude.{
  ◌==◌, none, some, ℕ, true, false, ◌≡◌, ◌≤◌, inl, inr, refl, arith, sym, ◌∙◌, subst, Option-cases,
  Bool-cases, ap,
}
use loss_os.Ext2.Layout.{groups_count}
use loss_os.Ext2.Device.{Fs, read_blocks}
use loss_os.Ext2.Bitmap.{block_bitmap, allocate_block}
use loss_os.Ext2.Bitmap.Search.{bit_at}
use loss_os.Ext2.Bitmap.Exhausted.{NoBlocks, BlockAnswer, allocate_block-answer}
use loss_os.Ext2.Write.{allocate_newblock, settle_newblock}

module _ (s : Fs) where
  abbrev pub BootUsed : Type 0
  BootUsed = bit_at (read_blocks s (block_bitmap s 0)) 0 ≡ true

  block_of_zero :
      (bg : ℕ) (num : ℕ × Fs) → BootUsed → BlockAnswer s bg (some num) → (num.0 == 0) ≡ false
  block_of_zero bg (num, s1) boot (i, idx, le, e, clear) = elim (Bool-cases (num == 0)) [
    | inr nz ↦ nz
    | inl z ↦
        let i0 : 0 ≡ i = ground arith in
        let idx0 : 0 ≡ idx = ground arith in
        let at0 : bit_at (read_blocks s (block_bitmap s 0)) idx ≡ false =
          subst (λ k. bit_at (read_blocks s (block_bitmap s k)) idx ≡ false) (sym i0) clear in
        let q : bit_at (read_blocks s (block_bitmap s 0)) 0 ≡ false =
          subst (λ k. bit_at (read_blocks s (block_bitmap s 0)) k ≡ false) (sym idx0) at0 in
        ground (arith, q, boot)
  ]

  allocate_newblock_number :
      (bg num : ℕ) (s1 : Fs)
      → allocate_block s bg ≡ some (num, s1)
      → (num == 0) ≡ false
      → (allocate_newblock s bg).0 ≡ num
  unfolding allocate_newblock settle_newblock
  allocate_newblock_number bg num s1 e nz = ap (λ o. (settle_newblock s o).0) e ∙ rw nz refl

  settled_none : (bg : ℕ) → allocate_block s bg ≡ none → (allocate_newblock s bg).1 ≡ s
  unfolding allocate_newblock settle_newblock
  settled_none bg e = ap (λ o. (settle_newblock s o).1) e

  -- With block 0 in use, a new block's number is 0 only if there is none, and nothing has changed.
  pub newblock_fails :
      (bg : ℕ)
      → bg ≤ groups_count
      → BootUsed
      → (allocate_newblock s bg).0 ≡ 0
      → NoBlocks s bg × ((allocate_newblock s bg).1 ≡ s)
  newblock_fails bg le boot h = elim (Option-cases (allocate_block s bg)) [
    | inl e ↦ (subst (BlockAnswer s bg) e (allocate_block-answer s bg le), settled_none bg e)
    | inr ((num, s1), e) ↦
        let nz =
          block_of_zero bg (num, s1) boot
            (subst (BlockAnswer s bg) e (allocate_block-answer s bg le)) in
        let z : num ≡ 0 = sym (allocate_newblock_number bg num s1 e nz) ∙ h in
        absurd (ground (arith, z, nz))
  ]
