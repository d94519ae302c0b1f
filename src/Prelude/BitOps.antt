-- ===== src/Prelude/BitOps.antt =====
-- Single bits of a byte: `x & (1 << k)`, `x |= 1 << k`, `x &= ~(1 << k)`.
use Prim.Native.Nat.{ℕ, zero, suc, ◌-◌, ◌^◌, ◌<◌, bit_and, bit_or}
use mathlib.Core.Path.{◌≡◌, refl, sym, subst}
use mathlib.Core.Bool.{Bool, true, false, not, ◌&&◌, ◌||◌}
use native.Mathlib.Omega.{arith}
use native.Mathlib.Decide.{ℕ_discrete}
use loss_os.Prelude.Tests.{◌==◌, ltb}

unfoldable pub test_bit : ℕ → ℕ → Bool
test_bit x k = not (bit_and x (2 ^ k) == 0)

unfoldable pub set_bit : ℕ → ℕ → ℕ
set_bit x k = bit_or x (2 ^ k)

unfoldable pub clear_bit : ℕ → ℕ → ℕ
clear_bit x k = bit_and x (2 ^ 32 - 1 - 2 ^ k)

-- `p` on every number under a bound, so that a claim about bytes is settled by evaluation.
unfoldable pub holds_under : (ℕ → Bool) → ℕ → Bool
holds_under p zero = true
holds_under p (suc bound) = holds_under p bound && p bound

pub holds_under_lem :
    (p : ℕ → Bool) {bound x : ℕ} → x < bound → holds_under p bound ≡ true → p x ≡ true
unfolding holds_under
holds_under_lem p {bound = zero} {x = x} lt h = absurd (omega arith)
holds_under_lem p {bound = suc b} {x = x} lt h = elim (ℕ_discrete x b) [
  | yes e ↦ subst (λ y. p y ≡ true) (sym e) (ground arith)
  | no ne ↦ holds_under_lem p {bound = b} (omega arith) (ground arith)
]

abbrev pub same : Bool → Bool → Bool
same true b = b
same false b = not b

pub same→eq : (a b : Bool) → same a b ≡ true → a ≡ b
same→eq a b h = ground arith

module _ (p : ℕ → ℕ → ℕ → Bool) where
  unfoldable pub table3 : Bool
  table3 = holds_under (λ x. holds_under (λ k. holds_under (p x k) 8) 8) 256

  pub table3_sound : table3 ≡ true → (x k j : ℕ) → x < 256 → k < 8 → j < 8 → p x k j ≡ true
  unfolding table3
  table3_sound h x k j hx hk hj =
      holds_under_lem (p x k) hj (holds_under_lem _ hk (holds_under_lem _ hx h))

abbrev set_row : ℕ → ℕ → ℕ → Bool
set_row x k j = same (test_bit (set_bit x k) j) ((k == j) || test_bit x j)

abbrev clear_row : ℕ → ℕ → ℕ → Bool
clear_row x k j = same (test_bit (clear_bit x k) j) (not (k == j) && test_bit x j)

abbrev range_row : ℕ → ℕ → ℕ → Bool
range_row x k j = ltb (set_bit x k) 256 && ltb (clear_bit x k) 256

set_table : table3 set_row ≡ true
unfolding table3 holds_under test_bit set_bit
set_table = refl

clear_table : table3 clear_row ≡ true
unfolding table3 holds_under test_bit clear_bit
clear_table = refl

range_table : table3 range_row ≡ true
unfolding table3 holds_under set_bit clear_bit
range_table = refl

pub test_bit-set_bit :
    (x k j : ℕ) → x < 256 → k < 8 → j < 8 → test_bit (set_bit x k) j ≡ (k == j) || test_bit x j
test_bit-set_bit x k j hx hk hj = same→eq _ _ (table3_sound set_row set_table x k j hx hk hj)

pub test_bit-clear_bit :
    (x k j : ℕ)
    → x < 256
    → k < 8
    → j < 8
    → test_bit (clear_bit x k) j ≡ not (k == j) && test_bit x j
test_bit-clear_bit x k j hx hk hj = same→eq _ _ (table3_sound clear_row clear_table x k j hx hk hj)

pub set_bit-lt : (x k : ℕ) → x < 256 → k < 8 → set_bit x k < 256
set_bit-lt x k hx hk = ground (arith, table3_sound range_row range_table x k 0 hx hk (omega arith))

pub clear_bit-lt : (x k : ℕ) → x < 256 → k < 8 → clear_bit x k < 256
clear_bit-lt x k hx hk =
    ground (arith, table3_sound range_row range_table x k 0 hx hk (omega arith))

-- Every bit of 0xFF is set.
pub test_bit_full : (k : ℕ) → k < 8 → test_bit 0xFF k ≡ true
test_bit_full k h = holds_under_lem (test_bit 0xFF) h full
  where
    full : holds_under (test_bit 0xFF) 8 ≡ true
    full = unfold holds_under test_bit in refl

pub test_bit-zero : (k : ℕ) → k < 8 → test_bit 0 k ≡ false
test_bit-zero k h = ground (arith, holds_under_lem (λ j. not (test_bit 0 j)) h empty)
  where
    empty : holds_under (λ j. not (test_bit 0 j)) 8 ≡ true
    empty = unfold holds_under test_bit in refl
