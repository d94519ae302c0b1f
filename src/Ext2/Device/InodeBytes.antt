-- ===== src/Ext2/Device/InodeBytes.antt =====
-- One inode in a block of the inode table of src/filesystem/ext2.c, written and read back.
use loss_os.Prelude.{
  ℕ, zero, suc, ◌+◌, ◌*◌, ◌^◌, ◌≤◌, ◌<◌, ◌≡◌, ◌≢◌, refl, ◌∙◌, subst, ◌⊎◌, Bytes, poke32, peek32,
  poke16_outside, poke32_outside, peek16_of_eq, peek32_of_eq, arith, words, ℕ_discrete,
  peek32-poke32_self, peek32-poke32_ne,
}
use loss_os.Ext2.Layout.{Inode, inode_size, get_inode, put_inode, put_pointers}

-- Two inodes with the same fields.
abbrev pub SameInode : Inode → Inode → Type 0
SameInode n m =
    (n.i_mode ≡ m.i_mode)
    × (n.i_size ≡ m.i_size)
    × (n.i_blocks ≡ m.i_blocks)
    × ((j : ℕ) → j < 15 → n.i_block j ≡ m.i_block j)

pub record IsInode (n : Inode) : Type 0 where
  pub mode_in : n.i_mode < 2 ^ 16
  pub size_in : n.i_size < 2 ^ 32
  pub blocks_in : n.i_blocks < 2 ^ 32
  pub block_in : (j : ℕ) → j < 15 → n.i_block j < 2 ^ 32

-- The pointers from `k` on, `n` of them, are stored; the words in front and behind stay.
put_pointers_self :
    (n k : ℕ) (p : ℕ → ℕ) (b : Bytes) (at j : ℕ)
    → ((i : ℕ) → i < k + n → p i < 2 ^ 32)
    → j < k + n
    → (j < k → peek32 b (at + 4 * j) ≡ p j)
    → peek32 (put_pointers n k p b at) (at + 4 * j) ≡ p j
unfolding put_pointers
put_pointers_self zero k p b at j h lt before = before (omega arith)
put_pointers_self (suc n) k p b at j h lt before =
    put_pointers_self n (k + 1) p (poke32 b (at + 4 * k) (p k)) at j (λ i hi. h i (omega arith))
      (omega arith)
      (λ below. elim (ℕ_discrete k j) [
        | yes e ↦
            subst (λ j. peek32 (poke32 b (at + 4 * k) (p k)) (at + 4 * j) ≡ p j) e
              (peek32-poke32_self b (at + 4 * k) (p k) (h k (omega arith)))
        | no ne ↦
            peek32-poke32_ne b (at + 4 * k) (p k) (at + 4 * j) (omega arith) ∙ before (omega arith)
      ])

put_pointers_outside :
    (n k : ℕ) (p : ℕ → ℕ) (b : Bytes) (at i : ℕ)
    → (i < at + 4 * k) ⊎ (at + 4 * (k + n) ≤ i)
    → put_pointers n k p b at i ≡ b i
unfolding put_pointers
put_pointers_outside zero k p b at i h = refl
put_pointers_outside (suc n) k p b at i h =
    put_pointers_outside n (k + 1) p (poke32 b (at + 4 * k) (p k)) at i (omega arith)
    ∙ poke32_outside b (at + 4 * k) (p k) i (omega arith)

-- `put_inode` writes the 70 bytes of one inode.
pub put_inode_outside :
    (b : Bytes) (k : ℕ) (node : Inode) (i : ℕ)
    → (i < inode_size * k) ⊎ (inode_size * k + inode_size ≤ i)
    → put_inode b k node i ≡ b i
unfolding put_inode
put_inode_outside b k node i h =
    put_pointers_outside 15 0 node.i_block _ (inode_size * k + 10) i (omega arith)
    ∙ poke32_outside _ (inode_size * k + 6) node.i_blocks i (omega arith)
    ∙ poke32_outside _ (inode_size * k + 2) node.i_size i (omega arith)
    ∙ poke16_outside b (inode_size * k) node.i_mode i (omega arith)

pub get-put_inode_self :
    (b : Bytes) (k : ℕ) (node : Inode)
    → IsInode node
    → SameInode (get_inode (put_inode b k node) k) node
unfolding get_inode put_inode
get-put_inode_self b k node h = (
  peek16_of_eq _ _ at
        (λ i h1 h2. put_pointers_outside 15 0 node.i_block _ (at + 10) i (omega arith))
      ∙ grind words,
  peek32_of_eq _ _ (at + 2)
        (λ i h1 h2. put_pointers_outside 15 0 node.i_block _ (at + 10) i (omega arith))
      ∙ grind words,
  peek32_of_eq _ _ (at + 6)
        (λ i h1 h2. put_pointers_outside 15 0 node.i_block _ (at + 10) i (omega arith))
      ∙ grind words,
  λ j lt.
      put_pointers_self 15 0 node.i_block _ (at + 10) j (λ i hi. h.block_in i (omega arith))
        (omega arith) (λ no. absurd (omega arith)),
)
  where
    at : ℕ
    at = inode_size * k

-- Another index of the block is another 70 bytes.
other_inode :
    (b : Bytes) (k l : ℕ) (node : Inode)
    → k ≢ l
    → (i : ℕ) → inode_size * l ≤ i
    → i < inode_size * l + inode_size
    → put_inode b k node i ≡ b i
other_inode b k l node ne i h1 h2 = put_inode_outside b k node i (omega arith)

pub get-put_inode_ne :
    (b : Bytes) (k l : ℕ) (node : Inode)
    → k ≢ l
    → SameInode (get_inode (put_inode b k node) l) (get_inode b l)
unfolding get_inode
get-put_inode_ne b k l node ne = (
  peek16_of_eq _ _ _ (λ i h1 h2. other_inode b k l node ne i (omega arith) (omega arith)),
  peek32_of_eq _ _ _ (λ i h1 h2. other_inode b k l node ne i (omega arith) (omega arith)),
  peek32_of_eq _ _ _ (λ i h1 h2. other_inode b k l node ne i (omega arith) (omega arith)),
  λ j lt. peek32_of_eq _ _ _ (λ i h1 h2. other_inode b k l node ne i (omega arith) (omega arith)),
)
