-- ===== src/Prelude/Memory.antt =====
-- A byte-addressed memory, its stores, and the little-endian words in it.
use Prim.Native.Nat.{ℕ, ◌+◌, ◌*◌, ◌/◌, ◌%◌, ◌^◌, ◌≤◌, ◌<◌}
use mathlib.Core.Path.{◌≡◌}
use mathlib.Core.Logic.{◌⊎◌, ◌≢◌}
use native.Mathlib.Omega.{arith}
use loss_os.Prelude.Tests.{◌==◌, if◌then◌else◌}

abbrev pub Bytes : Type 0
Bytes = ℕ → ℕ

abbrev pub zeroes : Bytes
zeroes i = 0

-- A table with one entry replaced.
abbrev pub update {ℓ} : {A : Type ℓ} → (ℕ → A) → ℕ → A → ℕ → A
update f i v j = if i == j then v else f j

unfoldable pub poke : Bytes → ℕ → ℕ → Bytes
poke m a v = update m a v

abbrev pub u8 : ℕ → ℕ
u8 n = n % 2 ^ 8

abbrev pub u16 : ℕ → ℕ
u16 n = n % 2 ^ 16

abbrev pub u32 : ℕ → ℕ
u32 n = n % 2 ^ 32

unfoldable pub peek16 : Bytes → ℕ → ℕ
peek16 m a = m a + 256 * m (a + 1)

unfoldable pub peek32 : Bytes → ℕ → ℕ
peek32 m a = m a + 256 * m (a + 1) + 65536 * m (a + 2) + 16777216 * m (a + 3)

unfoldable pub poke16 : Bytes → ℕ → ℕ → Bytes
unfolding poke
poke16 m a v = poke (poke m a (v % 256)) (a + 1) (v / 256 % 256)

unfoldable pub poke32 : Bytes → ℕ → ℕ → Bytes
unfolding poke
poke32 m a v =
    poke (poke (poke (poke m a (v % 256)) (a + 1) (v / 256 % 256)) (a + 2) (v / 65536 % 256))
      (a + 3) (v / 16777216 % 256)

pub poke_self : (m : Bytes) (a v : ℕ) → poke m a v a ≡ v
unfolding poke
poke_self m a v = ground arith

pub poke_ne : (m : Bytes) (a v b : ℕ) → a ≢ b → poke m a v b ≡ m b
unfolding poke
poke_ne m a v b h = ground arith

pub poke16_outside : (m : Bytes) (a v b : ℕ) → (b < a) ⊎ (a + 2 ≤ b) → poke16 m a v b ≡ m b
unfolding poke16
poke16_outside m a v b h = ground arith

pub poke32_outside : (m : Bytes) (a v b : ℕ) → (b < a) ⊎ (a + 4 ≤ b) → poke32 m a v b ≡ m b
unfolding poke32
poke32_outside m a v b h = ground arith

pub peek16-poke16_self : (m : Bytes) (a v : ℕ) → v < 2 ^ 16 → peek16 (poke16 m a v) a ≡ v
unfolding peek16 poke16
peek16-poke16_self m a v h = ground arith

pub peek32-poke32_self : (m : Bytes) (a v : ℕ) → v < 2 ^ 32 → peek32 (poke32 m a v) a ≡ v
unfolding peek32 poke32
peek32-poke32_self m a v h = ground arith

-- A store leaves the words that it does not touch.
pub peek32-poke32_ne :
    (m : Bytes) (a v b : ℕ) → (b + 4 ≤ a) ⊎ (a + 4 ≤ b) → peek32 (poke32 m a v) b ≡ peek32 m b
unfolding peek32 poke32
peek32-poke32_ne m a v b h = ground arith

pub peek32-poke16_ne :
    (m : Bytes) (a v b : ℕ) → (b + 4 ≤ a) ⊎ (a + 2 ≤ b) → peek32 (poke16 m a v) b ≡ peek32 m b
unfolding peek32 poke16
peek32-poke16_ne m a v b h = ground arith

pub peek16-poke32_ne :
    (m : Bytes) (a v b : ℕ) → (b + 2 ≤ a) ⊎ (a + 4 ≤ b) → peek16 (poke32 m a v) b ≡ peek16 m b
unfolding peek16 poke32
peek16-poke32_ne m a v b h = ground arith

pub peek16-poke16_ne :
    (m : Bytes) (a v b : ℕ) → (b + 2 ≤ a) ⊎ (a + 2 ≤ b) → peek16 (poke16 m a v) b ≡ peek16 m b
unfolding peek16 poke16
peek16-poke16_ne m a v b h = ground arith

pub peek32-poke_ne :
    (m : Bytes) (a v b : ℕ) → (b + 4 ≤ a) ⊎ (a < b) → peek32 (poke m a v) b ≡ peek32 m b
unfolding peek32 poke
peek32-poke_ne m a v b h = ground arith

pub peek16-poke_ne :
    (m : Bytes) (a v b : ℕ) → (b + 2 ≤ a) ⊎ (a < b) → peek16 (poke m a v) b ≡ peek16 m b
unfolding peek16 poke
peek16-poke_ne m a v b h = ground arith

-- Two memories that agree on a word's bytes hold the same word.
pub peek16_of_eq :
    (m n : Bytes) (a : ℕ) → ((i : ℕ) → a ≤ i → i < a + 2 → m i ≡ n i) → peek16 m a ≡ peek16 n a
unfolding peek16
peek16_of_eq m n a h =
    omega (arith, h a (omega arith) (omega arith), h (a + 1) (omega arith) (omega arith))

pub peek32_of_eq :
    (m n : Bytes) (a : ℕ) → ((i : ℕ) → a ≤ i → i < a + 4 → m i ≡ n i) → peek32 m a ≡ peek32 n a
unfolding peek32
peek32_of_eq m n a h = omega (
  arith,
  h a (omega arith) (omega arith),
  h (a + 1) (omega arith) (omega arith),
  h (a + 2) (omega arith) (omega arith),
  h (a + 3) (omega arith) (omega arith),
)

pub ruleset words = (
  arith, peek32-poke32_self, peek16-poke16_self, peek32-poke32_ne, peek32-poke16_ne,
  peek16-poke32_ne, peek16-poke16_ne, peek32-poke_ne, peek16-poke_ne, poke_self, poke_ne,
)
