-- ===== src/Ext2/Delete/Removed.antt =====
-- A directory block before and after `delete` of src/filesystem/ext2.c has removed an entry.
use loss_os.Prelude.{
  ℕ, ◌+◌, ◌≤◌, ◌≡◌, inl, inr, refl, sym, subst, ◌∙◌, Bytes, true, false, Option, none, some, arith,
  poke32, poke32_outside, peek32-poke32_self, peek16_of_eq,
}
use loss_os.Ext2.Layout.{block_size, entry_inode, entry_rec_len}
use loss_os.Ext2.Directory.{entry_matches}
use loss_os.Ext2.Directory.Chain.{IsChain, lookup}
use loss_os.Ext2.Directory.Walk.{lookup_step, lookup_tail, IsChain-tail}
use loss_os.Ext2.Directory.Entries.{Differ}
use loss_os.Ext2.Delete.{Hit, remove_entry, locate}
use loss_os.Ext2.Delete.Located.{IsLink, Located, locate_lem}
use loss_os.Ext2.Delete.Merged.{matched_once, merged-IsChain, lookup-merged_self, lookup-merged_ne}

-- What the removal of entry `off` makes of the block.
pub record IsRemoved (b name : Bytes) (len off : ℕ) (c : Bytes) : Type 0 where
  pub is_chain : IsChain c 0
  pub next_one :
      lookup block_size c 0 name len ≡ lookup block_size b (off + entry_rec_len b off) name len
  pub others :
      (m : Bytes) (n : ℕ)
      → Differ m n name len
      → lookup block_size c 0 m n ≡ lookup block_size b 0 m n

-- The first entry of a block stays as an unused record.
module _ (b name : Bytes) (len : ℕ) (hit : entry_matches b 0 name len ≡ true) (l : IsLink b 0) where
  abbrev cleared : Bytes
  cleared = poke32 b 0 0

  abbrev behind : ℕ
  behind = 0 + entry_rec_len b 0

  cleared_tail : (i : ℕ) → behind ≤ i → cleared i ≡ b i
  cleared_tail i h = poke32_outside b 0 0 i (omega (arith, l.sized))

  same_len : entry_rec_len cleared 0 ≡ entry_rec_len b 0
  same_len = peek16_of_eq cleared b 4 (λ i h k. poke32_outside b 0 0 i (omega arith))

  free : entry_inode cleared 0 ≡ 0
  free = peek32-poke32_self b 0 0 (omega arith)

  never : (m : Bytes) (n : ℕ) → entry_matches cleared 0 m n ≡ false
  unfolding entry_matches
  never m n = rw free refl

  cleared_step : (m : Bytes) (n : ℕ) → lookup block_size cleared 0 m n ≡ lookup 511 b behind m n
  cleared_step m n =
      lookup_step 511 cleared 0 m n (omega arith) (omega (arith, same_len, l.sized))
      ∙ rw (never m n, same_len)
          (lookup_tail b cleared m n behind 511 511 l.more cleared_tail (omega (arith, l.sized))
            (omega (arith, l.sized)))

  cleared-IsRemoved : IsRemoved b name len 0 cleared
  cleared-IsRemoved = record {
    is_chain =
        IsChain.link 0 (omega (arith, same_len, l.sized)) (omega (arith, same_len, l.within))
          (inl free) (rw same_len (IsChain-tail b cleared name len behind l.more cleared_tail));
    next_one =
        cleared_step name len
        ∙ lookup_tail b b name len behind 511 block_size l.more (λ i h. refl)
            (omega (arith, l.sized)) (omega arith);
    others = λ m n d.
        cleared_step m n
        ∙ sym (
            lookup_step 511 b 0 m n (omega arith) (omega (arith, l.sized))
            ∙ rw (matched_once b 0 name len m n hit d) refl);
  }

remove_entry-IsRemoved :
    (b name : Bytes) (len off : ℕ) (prev : Option ℕ)
    → Located b name len block_size 0 none (some (record { offset = off; prev = prev }))
    → IsRemoved b name len off (remove_entry b (record { offset = off; prev = prev }))
unfolding remove_entry
remove_entry-IsRemoved b name len off prev (hit, l, inl (at, first)) =
    subst (λ q. IsRemoved b name len off (remove_entry b (record { offset = off; prev = q })))
      (sym first)
      (subst (λ e. IsRemoved b name len e (poke32 b e 0)) (sym at)
        (cleared-IsRemoved b name len (subst (λ e. entry_matches b e name len ≡ true) at hit)
          (subst (IsLink b) at l)))
remove_entry-IsRemoved b name len off prev (hit, l, inr (p, prev_is, before)) =
    subst (λ q. IsRemoved b name len off (remove_entry b (record { offset = off; prev = q })))
      (sym prev_is)
      (record {
        is_chain = merged-IsChain b name len p off before hit l;
        next_one = lookup-merged_self b name len p off before hit l;
        others = lookup-merged_ne b name len p off before hit l;
      })

-- The entry that `delete` locates in a well-formed block is removed: the block stays well-formed,
-- the name is looked up from the next record on, and every other name is found as before.
pub remove_entry_lem :
    (b name : Bytes) (len : ℕ) (h : Hit)
    → IsChain b 0
    → locate block_size b 0 none name len ≡ some h
    → IsRemoved b name len h.offset (remove_entry b h)
remove_entry_lem b name len h c e =
    remove_entry-IsRemoved b name len h.offset h.prev
      (subst (Located b name len block_size 0 none) e (locate_lem b name len block_size 0 none c))
