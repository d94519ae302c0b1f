-- ===== src/Ext2/Bitmap/Count.antt =====
-- The number of clear bits of a bitmap, which the free counts of src/filesystem/ext2.c record.
use loss_os.Prelude.{
  ℕ, zero, suc, ◌+◌, ◌≤◌, ◌<◌, ◌≡◌, refl, Bytes, true, false, if◌then◌else◌, arith, ℕ_discrete,
  subst, sym,
}
use loss_os.Ext2.Bitmap.{mark, unmark}
use loss_os.Ext2.Bitmap.Search.{bit_at, IsBytes, AllSet, bit_at-mark, bit_at-unmark}

unfoldable pub count_clear : Bytes → ℕ → ℕ
count_clear m zero = 0
count_clear m (suc n) = (if bit_at m n then 0 else 1) + count_clear m n

pub count_clear-le : (m : Bytes) (n : ℕ) → count_clear m n ≤ n
unfolding count_clear
count_clear-le m zero = omega arith
count_clear-le m (suc n) = ground (arith, count_clear-le m n)

-- Beyond the bit, marking leaves the count as it was.
count_clear-mark_above :
    (m : Bytes) (idx n : ℕ) → IsBytes m → n ≤ idx → count_clear (mark m idx) n ≡ count_clear m n
unfolding count_clear
count_clear-mark_above m idx zero h le = refl
count_clear-mark_above m idx (suc n) h le =
    ground (arith, bit_at-mark m idx n h, count_clear-mark_above m idx n h (omega arith))

count_clear-unmark_above :
    (m : Bytes) (idx n : ℕ) → IsBytes m → n ≤ idx → count_clear (unmark m idx) n ≡ count_clear m n
unfolding count_clear
count_clear-unmark_above m idx zero h le = refl
count_clear-unmark_above m idx (suc n) h le =
    ground (arith, bit_at-unmark m idx n h, count_clear-unmark_above m idx n h (omega arith))

-- Marking a clear bit takes one from the count.
pub count_clear-mark :
    (m : Bytes) (idx n : ℕ)
    → IsBytes m
    → idx < n
    → bit_at m idx ≡ false
    → count_clear (mark m idx) n + 1 ≡ count_clear m n
unfolding count_clear
count_clear-mark m idx zero h lt e = elim lt [ ]
count_clear-mark m idx (suc n) h lt e = elim (ℕ_discrete idx n) [
  | yes p ↦
      subst (λ k. count_clear (mark m idx) (suc k) + 1 ≡ count_clear m (suc k)) p
        (ground (arith, bit_at-mark m idx idx h, count_clear-mark_above m idx idx h (omega arith)))
  | no p ↦ ground (arith, bit_at-mark m idx n h, count_clear-mark m idx n h (omega arith) e)
]

-- Unmarking a set bit adds one.
pub count_clear-unmark :
    (m : Bytes) (idx n : ℕ)
    → IsBytes m
    → idx < n
    → bit_at m idx ≡ true
    → count_clear (unmark m idx) n ≡ count_clear m n + 1
unfolding count_clear
count_clear-unmark m idx zero h lt e = elim lt [ ]
count_clear-unmark m idx (suc n) h lt e = elim (ℕ_discrete idx n) [
  | yes p ↦
      subst (λ k. count_clear (unmark m idx) (suc k) ≡ count_clear m (suc k) + 1) p
        (ground
          (arith, bit_at-unmark m idx idx h, count_clear-unmark_above m idx idx h (omega arith)))
  | no p ↦ ground (arith, bit_at-unmark m idx n h, count_clear-unmark m idx n h (omega arith) e)
]

-- With all bits set nothing is counted.
pub count_clear-AllSet :
    (m : Bytes) (limit n : ℕ) → AllSet m limit 0 limit → n ≤ limit → count_clear m n ≡ 0
unfolding count_clear
count_clear-AllSet m limit zero h le = refl
count_clear-AllSet m limit (suc n) h le = ground (
  arith,
  h n (omega arith) (omega arith) (omega arith),
  count_clear-AllSet m limit n h (omega arith),
)

-- A count of zero means that all bits are set.
pub bit_at_of_count_zero : (m : Bytes) (n j : ℕ) → count_clear m n ≡ 0 → j < n → bit_at m j ≡ true
unfolding count_clear
bit_at_of_count_zero m zero j e lt = elim lt [ ]
bit_at_of_count_zero m (suc n) j e lt = elim (ℕ_discrete j n) [
  | yes p ↦ subst (λ k. bit_at m k ≡ true) (sym p) (ground arith)
  | no p ↦ bit_at_of_count_zero m n j (ground arith) (omega arith)
]
