-- ===== src/Ext2/Content/Fresh.antt =====
-- A freshly allocated block of src/filesystem/ext2.c, and the data that is written to it.
use loss_os.Prelude.{
  ℕ, zero, suc, ◌+◌, ◌-◌, ◌*◌, ◌/◌, ◌≤◌, ◌<◌, ◌≡◌, ◌≢◌, refl, sym, ap, subst, ◌∙◌, Bytes, true,
  false, ◌||◌, Option, none, some, inl, inr, arith, Bool-cases, Option-cases, ltb, ◌==◌, ne→==,
  eq→==,
}
use loss_os.Ext2.Layout.{groups_count, blocks_per_group}
use loss_os.Ext2.Device.{Fs, read_blocks, write_blocks}
use loss_os.Ext2.Device.Access.{read_blocks-write_blocks_ne}
use loss_os.Ext2.Bitmap.{block_bitmap, find_clear, claim_block, allocate_from, allocate_block}
use loss_os.Ext2.Bitmap.Search.{IsBytes}
use loss_os.Ext2.Bitmap.Blocks.{IsConsistent, group_bits, block_used}
use loss_os.Ext2.Bitmap.Allocation.{Allocated, allocate_block_lem}

abbrev pub all_blocks : ℕ
all_blocks = groups_count * blocks_per_group

-- The state is consistent, and the bitmaps themselves stand in used blocks.
pub record IsSafe (s : Fs) : Type 0 where
  pub consistent : IsConsistent s
  pub bitmap_in : (g : ℕ) → g < groups_count → block_bitmap s g < all_blocks
  pub bitmap_used : (g : ℕ) → g < groups_count → block_used s (block_bitmap s g) ≡ true

abbrev pub NotBitmap : Fs → ℕ → Type 0
NotBitmap s b = (g : ℕ) → g < groups_count → block_bitmap s g ≢ b

-- Used blocks stay used and keep their content, the bitmaps excepted, which stay where they are.
pub record IsKept (s s' : Fs) : Type 0 where
  pub bitmaps : (g : ℕ) → block_bitmap s' g ≡ block_bitmap s g
  pub used : (b : ℕ) → b < all_blocks → block_used s b ≡ true → block_used s' b ≡ true
  pub content :
      (b : ℕ) → b < all_blocks → block_used s b ≡ true → NotBitmap s b → s'.disk b ≡ s.disk b

pub IsKept-refl : (s : Fs) → IsKept s s
IsKept-refl s = record { bitmaps = λ g. refl; used = λ b lt e. e; content = λ b lt e n. refl }

pub NotBitmap-kept : (s s' : Fs) (b : ℕ) → IsKept s s' → NotBitmap s b → NotBitmap s' b
NotBitmap-kept s s' b k n g lt e = n g lt (sym (k.bitmaps g) ∙ e)

pub IsKept-trans : (s s' s'' : Fs) → IsKept s s' → IsKept s' s'' → IsKept s s''
IsKept-trans s s' s'' a b = record {
  bitmaps = λ g. b.bitmaps g ∙ a.bitmaps g;
  used = λ n lt e. b.used n lt (a.used n lt e);
  content = λ n lt e not_one.
      b.content n lt (a.used n lt e) (NotBitmap-kept s s' n a not_one) ∙ a.content n lt e not_one;
}

-- An allocation that succeeds claims a bit in one group, and nothing else changes.
abbrev Claimed : Fs → Option (ℕ × Fs) → Type 0
Claimed s none = s ≡ s
Claimed s (some (n, s1)) = (g : ℕ) × (idx : ℕ) × (g < groups_count) × (s1 ≡ claim_block s g idx)

claim_step :
    (s : Fs) (rounds bg : ℕ)
    → bg < groups_count
    → Claimed s (allocate_from rounds (bg + 1) s)
    → Claimed s (allocate_from (suc rounds) bg s)
unfolding allocate_from
claim_step s rounds bg lt rest = elim (Bool-cases (ltb 0 (s.bgdt_cache bg).bg_free_blocks_count)) [
  | inr e ↦ rw e rest
  | inl e ↦ elim (Option-cases (find_clear blocks_per_group (read_blocks s (block_bitmap s bg)))) [
    | inl nothing ↦ rw (e, nothing) rest
    | inr (idx, hit) ↦ rw (e, hit) (bg, idx, lt, refl)
  ]
]

allocate_from-Claimed :
    (s : Fs) (rounds bg : ℕ) → rounds + bg ≡ groups_count → Claimed s (allocate_from rounds bg s)
allocate_from-Claimed s zero bg e = unfold allocate_from in refl
allocate_from-Claimed s (suc rounds) bg e =
    claim_step s rounds bg (omega arith) (allocate_from-Claimed s rounds (bg + 1) (omega arith))

bitmap-claim_block :
    (s : Fs) (bg idx g : ℕ) → block_bitmap (claim_block s bg idx) g ≡ block_bitmap s g
unfolding claim_block write_blocks
bitmap-claim_block s bg idx g = ground arith

disk-claim_block :
    (s : Fs) (bg idx b : ℕ) → block_bitmap s bg ≢ b → (claim_block s bg idx).disk b ≡ s.disk b
unfolding claim_block write_blocks
disk-claim_block s bg idx b h = rw (ne→== (block_bitmap s bg) b h) refl

-- Writing to a block that is no bitmap leaves the set of used blocks as it is.
module _ (s : Fs) (data_buf : Bytes) (num : ℕ) (c : IsConsistent s) (n : NotBitmap s num) where
  same_bits :
      (g : ℕ) → g < groups_count → group_bits (write_blocks s data_buf num) g ≡ group_bits s g
  unfolding group_bits write_blocks
  same_bits g lt =
      read_blocks-write_blocks_ne s data_buf num (block_bitmap s g) (λ e. n g lt (sym e))

  block_used-write :
      (b : ℕ) → b < all_blocks → block_used (write_blocks s data_buf num) b ≡ block_used s b
  unfolding block_used
  block_used-write b lt = rw (same_bits (b / blocks_per_group) (omega arith)) refl

  write-IsConsistent : IsBytes data_buf → IsConsistent (write_blocks s data_buf num)
  write-IsConsistent is_bytes = record {
    bytes = unfold write_blocks in λ lba i. ground (arith, c.bytes lba i, is_bytes i);
    stack_bytes = unfold write_blocks in c.stack_bytes;
    apart = unfold write_blocks in c.apart;
    counted = λ g lt. rw (same_bits g lt) (unfold write_blocks in c.counted g lt);
  }

-- One block allocated and written: the new block was unused and holds the data, and everything that
-- was in use is as it was.
pub record IsStored (s : Fs) (data_buf : Bytes) (num : ℕ) (s' : Fs) : Type 0 where
  pub safe : IsSafe s'
  pub kept : IsKept s s'
  pub in_range : num < all_blocks
  pub was_free : block_used s num ≡ false
  pub now_used : block_used s' num ≡ true
  pub no_bitmap : NotBitmap s' num
  pub holds : s'.disk num ≡ data_buf

module _ (s : Fs) (bgd num : ℕ) (s1 : Fs) (data_buf : Bytes) (safe : IsSafe s)
    (in_groups : bgd ≤ groups_count) (done : allocate_block s bgd ≡ some (num, s1)) where
  promised : Allocated s bgd (some (num, s1))
  promised = subst (Allocated s bgd) done (allocate_block_lem s bgd safe.consistent in_groups)

  claimed : Claimed s (some (num, s1))
  unfolding allocate_block
  claimed = subst (Claimed s) done (allocate_from-Claimed s (groups_count - bgd) bgd (omega arith))

  same_bitmap : (g : ℕ) → block_bitmap s1 g ≡ block_bitmap s g
  same_bitmap g = ap (λ x. block_bitmap x g) claimed.3 ∙ bitmap-claim_block s claimed.0 claimed.1 g

  num_no_bitmap : NotBitmap s num
  num_no_bitmap g lt e = absurd (ground (arith, free, taken))
    where
      free : block_used s (block_bitmap s g) ≡ false
      free = subst (λ b. block_used s b ≡ false) (sym e) promised.2

      taken : block_used s (block_bitmap s g) ≡ true
      taken = safe.bitmap_used g lt

  num_no_bitmap1 : NotBitmap s1 num
  num_no_bitmap1 g lt e = num_no_bitmap g lt (sym (same_bitmap g) ∙ e)

  abbrev stored : Fs
  stored = write_blocks s1 data_buf num

  used_now : (b : ℕ) → b < all_blocks → block_used stored b ≡ (num == b) || block_used s b
  used_now b lt = block_used-write s1 data_buf num promised.5 num_no_bitmap1 b lt ∙ promised.4 b lt

  still_used : (b : ℕ) → b < all_blocks → block_used s b ≡ true → block_used stored b ≡ true
  still_used b lt e = used_now b lt ∙ ground arith

  bitmap_stored : (g : ℕ) → block_bitmap stored g ≡ block_bitmap s g
  unfolding write_blocks
  bitmap_stored g = same_bitmap g

  other_content :
      (b : ℕ) → b < all_blocks → block_used s b ≡ true → NotBitmap s b → stored.disk b ≡ s.disk b
  unfolding write_blocks
  other_content b lt e n = rw (ne→== num b num_ne) (
      ap (λ x. x.disk b) claimed.3
      ∙ disk-claim_block s claimed.0 claimed.1 b (n claimed.0 claimed.2))
    where
      num_ne : num ≢ b
      num_ne q = absurd (ground (arith, subst (λ x. block_used s x ≡ false) q promised.2))

  pub store-IsStored : IsBytes data_buf → IsStored s data_buf num stored
  store-IsStored is_bytes = record {
    safe = record {
      consistent = write-IsConsistent s1 data_buf num promised.5 num_no_bitmap1 is_bytes;
      bitmap_in = λ g lt. rw (bitmap_stored g) (safe.bitmap_in g lt);
      bitmap_used = λ g lt.
          rw (bitmap_stored g)
            (still_used (block_bitmap s g) (safe.bitmap_in g lt) (safe.bitmap_used g lt));
    };
    kept = record { bitmaps = bitmap_stored; used = still_used; content = other_content };
    in_range = promised.1;
    was_free = promised.2;
    now_used = used_now num promised.1 ∙ rw (eq→== num num refl) refl;
    no_bitmap = λ g lt e. num_no_bitmap g lt (sym (bitmap_stored g) ∙ e);
    holds = unfold write_blocks in rw (eq→== num num refl) refl;
  }
