-- ===== src/Ext2/Delete/Found.antt =====
-- The search of `delete` in src/filesystem/ext2.c through all blocks of a directory.
use loss_os.Prelude.{
  ℕ, zero, suc, ◌+◌, ◌≡◌, refl, ap, ◌∙◌, sym, subst, inl, inr, ◌≤◌, arith, Bytes, Option, none,
  some, true, false, Option-cases, Bool-cases, leb, ◌==◌,
}
use loss_os.Ext2.Layout.{
  block_size, entry_inode, entry_rec_len, entry_file_type, directory_entry_size,
}
use loss_os.Ext2.Device.{Fs, read_blocks}
use loss_os.Ext2.Directory.{search_block, search_blocks, entry_matches}
use loss_os.Ext2.Directory.Chain.{IsChain, lookup, entry_at}
use loss_os.Ext2.Directory.Blocks.{IsDirectory, search_blocks_later, search_blocks_here}
use loss_os.Ext2.Delete.{Hit, locate, locate_block}
use loss_os.Ext2.Delete.Located.{Located, locate_lem}

abbrev offset_of : Option Hit → Option ℕ
offset_of none = none
offset_of (some hit) = some hit.offset

module _ (b name : Bytes) (len : ℕ) where
  offset_of-locate_step :
      (fuel e : ℕ) (prev : Option ℕ)
      → directory_entry_size ≤ entry_rec_len b e
      → e + entry_rec_len b e ≤ block_size
      → offset_of (locate fuel b (e + entry_rec_len b e) (some e) name len)
        ≡ search_block fuel b (e + entry_rec_len b e) name len
      → offset_of (locate (suc fuel) b e prev name len) ≡ search_block (suc fuel) b e name len
  unfolding locate search_block
  offset_of-locate_step fuel e prev h within later =
      let inside : leb block_size e ≡ false = ground arith in
      let sized : (entry_rec_len b e == 0) ≡ false = ground arith in
      elim (Bool-cases (entry_matches b e name len)) [
        | inl hit ↦ rw (inside, sized, hit) refl
        | inr miss ↦ rw (inside, sized, miss) later
      ]

  -- In a chain of records `delete` finds the entry that the searches of the other handlers find.
  offset_of-locate :
      (fuel e : ℕ) (prev : Option ℕ)
      → IsChain b e
      → offset_of (locate fuel b e prev name len) ≡ search_block fuel b e name len
  offset_of-locate zero e prev c = unfold locate search_block in refl
  offset_of-locate (suc fuel) e prev (IsChain.end _ p) =
      let past : leb block_size e ≡ true = ground arith in
      unfold locate search_block in rw past refl
  offset_of-locate (suc fuel) e prev (IsChain.link _ h within roomy rest) =
      offset_of-locate_step fuel e prev h within
        (offset_of-locate fuel (e + entry_rec_len b e) (some e) rest)

module _ (s : Fs) (pointers : ℕ → ℕ) (name : Bytes) (len : ℕ) where
  -- What the search over the blocks says of the file system's own search.
  abbrev pub Found : ℕ → ℕ → Option (ℕ × Hit) → Type 0
  Found rounds bi none = search_blocks rounds bi s pointers name len ≡ none
  Found rounds bi (some (block_id, hit)) =
      let b = read_blocks s block_id in
      (search_blocks rounds bi s pointers name len
        ≡ some (entry_inode b hit.offset, entry_file_type b hit.offset))
      × (entry_matches b hit.offset name len ≡ true)

  abbrev in_block_at : ℕ → Option Hit
  in_block_at bi = locate block_size (read_blocks s (pointers bi)) 0 none name len

  lookup_of_hit :
      (bi : ℕ) (r : Option Hit)
      → IsChain (read_blocks s (pointers bi)) 0
      → in_block_at bi ≡ r
      → lookup block_size (read_blocks s (pointers bi)) 0 name len
        ≡ entry_at (read_blocks s (pointers bi)) (offset_of r)
  lookup_of_hit bi r c e =
      let b = read_blocks s (pointers bi) in
      ap (entry_at b) (sym (offset_of-locate b name len block_size 0 none c) ∙ ap offset_of e)

  pub locate_block_lem :
      (rounds bi count : ℕ)
      → bi + rounds ≡ count
      → IsDirectory s pointers count
      → Found rounds bi (locate_block rounds bi s pointers name len)
  unfolding locate_block
  locate_block_lem zero bi count h d = unfold search_blocks in refl
  locate_block_lem (suc rounds) bi count h d = elim (Option-cases (in_block_at bi)) [
    | inl nothing ↦
        rw (nz, nothing)
          (later nothing (locate_block rounds (bi + 1) s pointers name len)
            (locate_block_lem rounds (bi + 1) count (omega arith) d))
    | inr (hit, at) ↦
        rw (nz, at)
          (
            search_blocks_here rounds bi s pointers name len _ nz
                (lookup_of_hit bi (some hit) c at),
            (subst (Located b name len block_size 0 none) at
                (locate_lem b name len block_size 0 none c)).0,
          )
  ]
    where
      b : Bytes
      b = read_blocks s (pointers bi)

      nz : (pointers bi == 0) ≡ false
      nz = d.nonzero bi (omega arith)

      c : IsChain (read_blocks s (pointers bi)) 0
      c = d.chain bi (omega arith)

      later :
          in_block_at bi ≡ none
          → (r : Option (ℕ × Hit)) → Found rounds (bi + 1) r
          → Found (suc rounds) bi r
      later e none p =
          search_blocks_later rounds bi s pointers name len nz (lookup_of_hit bi none c e) ∙ p
      later e (some (block_id, hit)) (p, m) =
          (search_blocks_later rounds bi s pointers name len nz (lookup_of_hit bi none c e) ∙ p, m)
