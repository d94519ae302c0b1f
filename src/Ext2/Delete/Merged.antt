-- ===== src/Ext2/Delete/Merged.antt =====
-- The record of a deleted entry joined to the record before it, in `delete` of
-- src/filesystem/ext2.c.
use loss_os.Prelude.{
  ℕ, zero, suc, ◌+◌, ◌≤◌, ◌<◌, ◌≡◌, ◌≢◌, ◌⊎◌, inl, inr, refl, sym, ap, ◌∙◌, Bytes, true, false,
  some, arith, if◌then◌else◌, u16, poke, poke16, poke32, poke_ne, poke16_outside, poke32_outside,
  peek16-poke16_self, peek16_of_eq, peek32_of_eq,
}
use loss_os.Text.{memcmp, is_zero}
use loss_os.Text.Copy.{memcmp_iff}
use loss_os.Ext2.Layout.{
  block_size, directory_entry_size, entry_inode, entry_rec_len, entry_name_len, entry_file_type,
  get_entry_name,
}
use loss_os.Ext2.Directory.{entry_matches}
use loss_os.Ext2.Directory.Chain.{IsChain, lookup, SameEntry, entry_matches-SameEntry}
use loss_os.Ext2.Directory.Walk.{
  lookup_step, lookup_tail, lookup-Passed, lookup_other, IsChain-tail, IsChain-Passed,
}
use loss_os.Ext2.Directory.Entries.{Differ, entry_matches-Differ}
use loss_os.Ext2.Delete.{remove_entry, wipe_name}
use loss_os.Ext2.Delete.Located.{IsLink, IsBefore}

-- An entry that bears the name is in use, and bears no other.
pub matched :
    (b : Bytes) (e : ℕ) (name : Bytes) (len : ℕ)
    → entry_matches b e name len ≡ true
    → (entry_inode b e ≢ 0)
      × (entry_name_len b e ≡ len)
      × (is_zero (memcmp b (get_entry_name e) name 0 len) ≡ true)
unfolding entry_matches
matched b e name len h = (ground arith, ground arith, ground arith)

from_zero : (i : ℕ) → 0 + i ≡ i
from_zero i = omega arith

pub matched_once :
    (b : Bytes) (e : ℕ) (name : Bytes) (len : ℕ) (other : Bytes) (n : ℕ)
    → entry_matches b e name len ≡ true
    → Differ other n name len
    → entry_matches b e other n ≡ false
matched_once b e name len other n h d =
    entry_matches-Differ b e name other n
      (record {
        inode_is = refl;
        rec_len_is = refl;
        name_len_is = (matched b e name len h).1;
        type_is = refl;
      })
      (λ i lt.
        (memcmp_iff b (get_entry_name e) name 0 len).0 (matched b e name len h).2 i lt
        ∙ ap name (from_zero i))
      d

wipe_name_outside :
    (n i : ℕ) (b : Bytes) (e j : ℕ)
    → (j < get_entry_name e + i) ⊎ (get_entry_name e + i + n ≤ j)
    → wipe_name n i b e j ≡ b j
unfolding wipe_name
wipe_name_outside zero i b e j h = refl
wipe_name_outside (suc n) i b e j h =
    wipe_name_outside n (i + 1) (poke b (get_entry_name e + i) 0) e j (omega arith)
    ∙ poke_ne b (get_entry_name e + i) 0 j (omega arith)

module _ (b name : Bytes) (len p off : ℕ) (before : IsBefore b name len 0 p off)
    (hit : entry_matches b off name len ≡ true) (l : IsLink b off) where
  abbrev result : Bytes
  result = remove_entry b (record { offset = off; prev = some p })

  abbrev behind : ℕ
  behind = off + entry_rec_len b off

  abbrev joined : Bytes
  joined = poke16 b (p + 4) (u16 (entry_rec_len b p + entry_rec_len b off))

  abbrev unused : Bytes
  unused = poke16 (poke32 joined off 0) (off + 4) 0

  room : directory_entry_size + entry_name_len b off ≤ entry_rec_len b off
  room = omega (arith, l.roomy, (matched b off name len hit).0)

  front : p + directory_entry_size ≤ off
  front = omega (arith, before.next, (before.is_link).sized)

  same_name_len : entry_name_len unused off ≡ entry_name_len b off
  same_name_len = peek16_of_eq unused b (off + 6) (λ i h k.
      poke16_outside (poke32 joined off 0) (off + 4) 0 i (omega arith)
      ∙ poke32_outside joined off 0 i (omega arith)
      ∙ poke16_outside b (p + 4) _ i (omega (arith, front)))

  -- In front of the deleted record only the length before it changes, behind it nothing.
  outside : (i : ℕ) → (i < off) ⊎ (behind ≤ i) → result i ≡ joined i
  unfolding remove_entry
  outside i h =
      poke16_outside (poke (wipe_name (entry_name_len unused off) 0 unused off) (off + 8) 0)
        (off + 6) 0 i (omega (arith, l.sized))
      ∙ poke_ne (wipe_name (entry_name_len unused off) 0 unused off) (off + 8) 0 i
          (omega (arith, l.sized))
      ∙ wipe_name_outside (entry_name_len unused off) 0 unused off i
          (omega (arith, room, same_name_len))
      ∙ poke16_outside (poke32 joined off 0) (off + 4) 0 i (omega (arith, l.sized))
      ∙ poke32_outside joined off 0 i (omega (arith, l.sized))

  kept_byte : (i : ℕ) → (i < off) ⊎ (behind ≤ i) → (i < p + 4) ⊎ (p + 6 ≤ i) → result i ≡ b i
  kept_byte i h k = outside i h ∙ poke16_outside b (p + 4) _ i (omega arith)

  result_below : (i : ℕ) → i < p → result i ≡ b i
  result_below i h = kept_byte i (omega (arith, front)) (omega arith)

  result_tail : (i : ℕ) → behind ≤ i → result i ≡ b i
  result_tail i h = kept_byte i (omega arith) (omega (arith, front))

  grown : entry_rec_len result p ≡ entry_rec_len b p + entry_rec_len b off
  grown =
      peek16_of_eq result joined (p + 4) (λ i h k. outside i (omega (arith, front)))
      ∙ peek16-poke16_self b (p + 4) (u16 (entry_rec_len b p + entry_rec_len b off)) (omega arith)
      ∙ omega (arith, before.next, l.within)

  kept : SameEntry b result p
  kept = record {
    same_inode =
        peek32_of_eq result b p (λ i h k. kept_byte i (omega (arith, front)) (omega arith));
    same_name_len =
        peek16_of_eq result b (p + 6) (λ i h k. kept_byte i (omega (arith, front)) (omega arith));
    same_type = kept_byte (p + 8) (omega (arith, front)) (omega arith);
    same_name = elim (before.is_link).roomy [
      | inl free ↦ inl free
      | inr fits ↦ inr (λ i h k. kept_byte i (omega (arith, before.next, fits)) (omega arith))
    ];
  }

  inside : p < block_size
  inside = omega (arith, front, l.sized, l.within)

  next_to_grown : p + entry_rec_len result p ≡ behind
  next_to_grown = omega (arith, grown, before.next)

  -- What a search sees from the entry before the deleted one on.
  one_step :
      (f : ℕ) (m : Bytes) (n : ℕ)
      → lookup (suc f) result p m n ≡ (
          if entry_matches b p m n
          then some (entry_inode b p, entry_file_type b p)
          else lookup f result behind m n)
  one_step f m n =
      lookup_step f result p m n inside (omega (arith, grown, l.sized))
      ∙ rw
          (
            entry_matches-SameEntry b result p m n kept,
            kept.same_inode,
            kept.same_type,
            next_to_grown,
          )
          refl

  pub merged-IsChain : IsChain result 0
  merged-IsChain = IsChain-Passed b result name len p result_below inside name len 0 before.passed (
      IsChain.link p (omega (arith, grown, l.sized)) (omega (arith, next_to_grown, l.within))
        (omega (arith, (before.is_link).roomy, kept.same_inode, kept.same_name_len, grown))
        (rw next_to_grown (IsChain-tail b result name len behind l.more result_tail)))

  self_at :
      (g : ℕ)
      → block_size ≤ p + g
      → lookup g result p name len ≡ lookup block_size b behind name len
  self_at zero h = absurd (omega (arith, inside))
  self_at (suc f) h =
      one_step f name len
      ∙ rw before.miss (
          lookup_tail b result name len behind f block_size l.more result_tail
            (omega (arith, front, l.sized)) (omega arith))

  pub lookup-merged_self : lookup block_size result 0 name len ≡ lookup block_size b behind name len
  lookup-merged_self =
      lookup-Passed b result name len p result_below inside (lookup block_size b behind name len) 0
        block_size before.passed self_at (omega arith)

  module _ (m : Bytes) (n : ℕ) (d : Differ m n name len) where
    two_steps :
        (k : ℕ)
        → lookup (suc (suc k)) b p m n ≡ (
            if entry_matches b p m n
            then some (entry_inode b p, entry_file_type b p)
            else lookup k b behind m n)
    two_steps k =
        lookup_step (suc k) b p m n inside (omega (arith, (before.is_link).sized))
        ∙ rw
            (
              before.next,
              lookup_step k b off m n (omega (arith, l.sized, l.within)) (omega (arith, l.sized)),
              matched_once b off name len m n hit d,
            )
            refl

    ne_at :
        (g k : ℕ)
        → block_size ≤ p + g
        → block_size ≤ p + k
        → lookup g result p m n ≡ lookup k b p m n
    ne_at zero k hg hk = absurd (omega (arith, inside))
    ne_at (suc f) zero hg hk = absurd (omega (arith, inside))
    ne_at (suc f) (suc zero) hg hk = absurd (omega (arith, front, l.sized, l.within))
    ne_at (suc f) (suc (suc k)) hg hk =
        one_step f m n
        ∙ rw
            (lookup_tail b result m n behind f k l.more result_tail (omega (arith, front, l.sized))
              (omega (arith, front, l.sized)))
            refl
        ∙ sym (two_steps k)

    pub lookup-merged_ne : lookup block_size result 0 m n ≡ lookup block_size b 0 m n
    lookup-merged_ne =
        lookup_other b result m n p result_below inside name len 0 block_size before.passed ne_at
          (omega arith)
