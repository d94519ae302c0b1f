-- ===== src/Ext2/Content/Filled.antt =====
-- The direct blocks of a new file in `allocate_node_blocks` of src/filesystem/ext2.c.
use loss_os.Prelude.{
  ℕ, zero, suc, ◌+◌, ◌*◌, ◌≤◌, ◌<◌, ◌≡◌, ◌⊎◌, refl, sym, ap, subst, ◌∙◌, Bytes, true, false, some,
  inl, inr, arith, Bool-cases, Option-cases, ltb, update, ne→==, eq→==, min, ℕ_discrete,
}
use loss_os.Ext2.Layout.{block_size, groups_count, blocks_per_group}
use loss_os.Ext2.Device.{Fs, write_blocks, zeroed}
use loss_os.Ext2.Bitmap.{allocate_block}
use loss_os.Ext2.Bitmap.Search.{IsBytes}
use loss_os.Ext2.Bitmap.Blocks.{IsConsistent, block_used}
use loss_os.Ext2.Bitmap.Allocation.{AllUsed, Allocated, allocate_block_lem}
use loss_os.Ext2.Content.{copy_length, data_block, fill_direct}
use loss_os.Ext2.Content.Fresh.{
  all_blocks, IsSafe, IsKept, IsKept-refl, IsKept-trans, NotBitmap, NotBitmap-kept, IsStored,
  store-IsStored,
}

module _ (content : Bytes) (size needed bgd : ℕ) where
  -- Block `k` of the file stands in block `num`, which was free in `s` and is used in `s'`.
  pub record IsPlaced (s s' : Fs) (k num : ℕ) : Type 0 where
    pub in_range : num < all_blocks
    pub was_free : block_used s num ≡ false
    pub now_used : block_used s' num ≡ true
    pub no_bitmap : NotBitmap s' num
    pub holds :
        (j : ℕ) → j < copy_length size needed k → s'.disk num j ≡ content (k * block_size + j)

  -- What the loop has done when it has come from pointer `i` to pointer `n`.
  pub record IsFilled (s : Fs) (pointers : ℕ → ℕ) (i rounds : ℕ) (s' : Fs) (pointers' : ℕ → ℕ)
      (n : ℕ) : Type 0 where
    pub safe : IsSafe s'
    pub kept : IsKept s s'
    pub forward : i ≤ n
    pub within : n ≤ i + rounds
    pub before : (k : ℕ) → k < i → pointers' k ≡ pointers k
    pub placed : (k : ℕ) → i ≤ k → k < n → IsPlaced s s' k (pointers' k)
    pub complete : (n ≡ min (i + rounds) needed) ⊎ AllUsed s' (bgd * blocks_per_group) all_blocks

  nothing-IsFilled :
      (s : Fs) (pointers : ℕ → ℕ) (i rounds : ℕ)
      → IsSafe s
      → (i ≡ min (i + rounds) needed) ⊎ AllUsed s (bgd * blocks_per_group) all_blocks
      → IsFilled s pointers i rounds s pointers i
  nothing-IsFilled s pointers i rounds safe why = record {
    safe = safe;
    kept = IsKept-refl s;
    forward = omega arith;
    within = omega arith;
    before = λ k lt. refl;
    placed = λ k h1 h2. absurd (omega arith);
    complete = why;
  }

  data_block-IsBytes :
      (s : Fs) (k : ℕ)
      → IsBytes content
      → IsBytes s.stack
      → IsBytes (data_block s content size needed k)
  unfolding data_block zeroed
  data_block-IsBytes s k h g i = ground (arith, h (k * block_size + i), g i)

  data_block-front :
      (s : Fs) (k j : ℕ)
      → j < copy_length size needed k
      → data_block s content size needed k j ≡ content (k * block_size + j)
  unfolding data_block
  data_block-front s k j lt =
      let e : ltb j (copy_length size needed k) ≡ true = ground arith in rw e refl

  -- A block placed by one step stays placed.
  IsPlaced-later :
      (s s2 s' : Fs) (k num : ℕ) → IsPlaced s s2 k num → IsKept s2 s' → IsPlaced s s' k num
  IsPlaced-later s s2 s' k num p kept = record {
    in_range = p.in_range;
    was_free = p.was_free;
    now_used = kept.used num p.in_range p.now_used;
    no_bitmap = NotBitmap-kept s2 s' num kept p.no_bitmap;
    holds =
        λ j lt. ap (λ b. b j) (kept.content num p.in_range p.now_used p.no_bitmap) ∙ p.holds j lt;
  }

  -- A block that is free after a step was free before it.
  IsPlaced-earlier :
      (s s2 s' : Fs) (k num : ℕ) → IsKept s s2 → IsPlaced s2 s' k num → IsPlaced s s' k num
  IsPlaced-earlier s s2 s' k num kept p = record {
    in_range = p.in_range;
    was_free = free;
    now_used = p.now_used;
    no_bitmap = p.no_bitmap;
    holds = p.holds;
  }
    where
      free : block_used s num ≡ false
      free = elim (Bool-cases (block_used s num)) [
        | inl on ↦ absurd (ground (arith, kept.used num p.in_range on, p.was_free))
        | inr off ↦ off
      ]

  IsFilled-step :
      (s s2 s' : Fs) (pointers pointers' : ℕ → ℕ) (i rounds n num : ℕ) (s1 : Fs)
      → IsStored s (data_block s1 content size needed i) num s2
      → IsFilled s2 (update pointers i num) (i + 1) rounds s' pointers' n
      → IsFilled s pointers i (suc rounds) s' pointers' n
  IsFilled-step s s2 s' pointers pointers' i rounds n num s1 st f = record {
    safe = f.safe;
    kept = IsKept-trans s s2 s' st.kept f.kept;
    forward = omega (arith, f.forward);
    within = omega (arith, f.within);
    before = λ k lt. f.before k (omega arith) ∙ rw (ne→== i k (omega arith)) refl;
    placed = λ k h1 h2. elim (ℕ_discrete i k) [
      | no ne ↦ IsPlaced-earlier s s2 s' k (pointers' k) st.kept (f.placed k (omega arith) h2)
      | yes e ↦ subst (λ k. IsPlaced s s' k (pointers' k)) e at_i
    ];
    complete = omega_complete f.complete;
  }
    where
      here : IsPlaced s s2 i num
      here = record {
        in_range = st.in_range;
        was_free = st.was_free;
        now_used = st.now_used;
        no_bitmap = st.no_bitmap;
        holds = λ j lt. ap (λ b. b j) st.holds ∙ data_block-front s1 i j lt;
      }

      pointer_i : num ≡ pointers' i
      pointer_i = sym (f.before i (omega arith) ∙ rw (eq→== i i refl) refl)

      at_i : IsPlaced s s' i (pointers' i)
      at_i = subst (IsPlaced s s' i) pointer_i (IsPlaced-later s s2 s' i num here f.kept)

      omega_complete :
          (n ≡ min (i + 1 + rounds) needed) ⊎ AllUsed s' (bgd * blocks_per_group) all_blocks
          → (n ≡ min (i + suc rounds) needed) ⊎ AllUsed s' (bgd * blocks_per_group) all_blocks
      omega_complete (inl e) = inl (omega arith)
      omega_complete (inr full) = inr full

  -- The loop over the direct pointers, from pointer `i` on, with as many blocks allocated.
  abbrev pub Filled : Fs → (ℕ → ℕ) → ℕ → ℕ → Fs × (ℕ → ℕ) × ℕ → Type 0
  Filled s pointers i rounds r = IsFilled s pointers i rounds r.0 r.1 r.2

  module _ (in_groups : bgd ≤ groups_count) (is_bytes : IsBytes content) where
    fill_step :
        (rounds i : ℕ) (s : Fs) (pointers : ℕ → ℕ)
        → IsSafe s
        → i ≤ needed
        → ((s2 : Fs) (p2 : ℕ → ℕ)
            → IsSafe s2
            → i + 1 ≤ needed
            → Filled s2 p2
                (i + 1)
                rounds
                (fill_direct content size needed bgd rounds (i + 1) s2 p2 (i + 1)))
        → Filled s pointers i
            (suc rounds)
            (fill_direct content size needed bgd (suc rounds) i s pointers i)
    unfolding fill_direct
    fill_step rounds i s pointers safe le later = elim (Bool-cases (ltb i needed)) [
      | inr done ↦ rw done (nothing-IsFilled s pointers i (suc rounds) safe (inl (ground arith)))
      | inl more ↦ elim (Option-cases (allocate_block s bgd)) [
        | inl nothing ↦
            rw (more, nothing)
              (nothing-IsFilled s pointers i (suc rounds) safe (
                inr (
                  subst (Allocated s bgd) nothing
                    (allocate_block_lem s bgd safe.consistent in_groups))))
        | inr ((num, s1), hit) ↦
            rw (more, hit)
              (IsFilled-step s _ _ pointers _ i rounds _ num s1 (stored num s1 hit)
                (later _ (update pointers i num) (stored num s1 hit).safe (ground arith)))
      ]
    ]
      where
        consistent : (num : ℕ) (s1 : Fs) → allocate_block s bgd ≡ some (num, s1) → IsConsistent s1
        consistent num s1 hit =
            (subst (Allocated s bgd) hit (allocate_block_lem s bgd safe.consistent in_groups)).5

        stored :
            (num : ℕ) (s1 : Fs)
            → allocate_block s bgd ≡ some (num, s1)
            → IsStored s
                (data_block s1 content size needed i)
                num
                (write_blocks s1 (data_block s1 content size needed i) num)
        stored num s1 hit =
            store-IsStored s bgd num s1 (data_block s1 content size needed i) safe in_groups hit
              (data_block-IsBytes s1 i is_bytes (consistent num s1 hit).stack_bytes)

    -- From a safe state, with no more blocks done than are needed, the loop puts the pieces of the
    -- file, one after the other, into blocks that were free; every block that was in use stays in
    -- use, and keeps its content unless it is a bitmap; it stops short only when no block from the
    -- preferred group on is free.
    pub fill_direct-IsFilled :
        (rounds i : ℕ) (s : Fs) (pointers : ℕ → ℕ)
        → IsSafe s
        → i ≤ needed
        → Filled s pointers i rounds (fill_direct content size needed bgd rounds i s pointers i)
    fill_direct-IsFilled zero i s pointers safe le =
        unfold fill_direct in nothing-IsFilled s pointers i zero safe (inl (omega arith))
    fill_direct-IsFilled (suc rounds) i s pointers safe le =
        fill_step rounds i s pointers safe le
          (λ s2 p2 safe2 le2. fill_direct-IsFilled rounds (i + 1) s2 p2 safe2 le2)
