-- ===== src/Ext2/Read/Transfer.antt =====
-- A whole file, through its direct, indirect and double indirect blocks, in `read` of
-- src/filesystem/ext2.c.
use loss_os.Prelude.{
  ne→==, ℕ, zero, suc, ◌+◌, ◌-◌, ◌*◌, ◌/◌, ◌%◌, ◌≤◌, ◌<◌, ◌≡◌, ◌≢◌, refl, ap, ◌∙◌, Bytes, arith,
  Bool-cases, inl, inr, ltb, ◌==◌, if◌then◌else◌, min,
}
use loss_os.Ext2.Layout.{Inode, block_size}
use loss_os.Ext2.Device.{Fs}
use loss_os.Ext2.Nodes.{pointers_per_block}
use loss_os.Ext2.Read.{Copy, pointers_in, copy_indirect, copy_double}
use loss_os.Ext2.Read.Copied.{
  IsCopied, nothing-IsCopied, IsCopied-join, IsCopied-source, byte_of, copy_blocks-IsCopied,
}

-- Bytes behind one pointer of a double indirect block.
abbrev pub span : ℕ
span = pointers_per_block * block_size

-- The byte at offset `o` behind pointer `k` of a double indirect block.
abbrev pub double_byte : Fs → (ℕ → ℕ) → ℕ → Bytes
double_byte s pointers k o =
    s.disk (pointers_in s (pointers (k + o / span)) (o % span / block_size)) (o % block_size)

pub copy_indirect-IsCopied :
    (s : Fs) (ind : ℕ) (c : Copy)
    → ((e : ℕ) → e < pointers_per_block → e * block_size < c.to_read → pointers_in s ind e ≢ 0)
    → IsCopied c (min span c.to_read) (byte_of s (pointers_in s ind) 0) (copy_indirect s ind c)
unfolding copy_indirect
copy_indirect-IsCopied s ind c h =
    copy_blocks-IsCopied s (pointers_in s ind) pointers_per_block 0 c
      (λ d lt left e. h d lt left (ap (pointers_in s ind) (from_zero d) ∙ e))
  where
    from_zero : (d : ℕ) → d ≡ 0 + d
    from_zero d = omega arith

module _ (s : Fs) (pointers : ℕ → ℕ) where
  -- No pointer that the loops come to is zero.
  abbrev pub Present : ℕ → ℕ → ℕ → Type 0
  Present rounds k left =
      ((d : ℕ) → d < rounds → d * span < left → pointers (k + d) ≢ 0)
      × ((d e : ℕ)
          → d < rounds
          → e < pointers_per_block
          → d * span + e * block_size < left
          → pointers_in s (pointers (k + d)) e ≢ 0)

  from_zero : (k : ℕ) → k + 0 ≡ k
  from_zero k = omega arith

  first_span :
      (rounds k : ℕ) (c : Copy)
      → Present (suc rounds) k c.to_read
      → IsCopied c
          (min span c.to_read)
          (byte_of s (pointers_in s (pointers k)) 0)
          (copy_indirect s (pointers k) c)
  first_span rounds k c present = copy_indirect-IsCopied s (pointers k) c (λ e lt left z.
      present.1 0 e (omega arith) lt (omega arith)
        (ap (λ b. pointers_in s (pointers b) e) (from_zero k) ∙ z))

  Present-later :
      (rounds k : ℕ) (c : Copy)
      → Present (suc rounds) k c.to_read
      → Present rounds (k + 1) (copy_indirect s (pointers k) c).to_read
  Present-later rounds k c present =
      let one = first_span rounds k c present in
      (
        λ d lt left z.
            present.0 (suc d) (omega arith) (omega (arith, one.to_read_is))
              (ap pointers (shift d) ∙ z),
        λ d e lt lt' left z.
            present.1 (suc d) e (omega arith) lt' (omega (arith, one.to_read_is))
              (ap (λ b. pointers_in s (pointers b) e) (shift d) ∙ z),
      )
    where
      shift : (d : ℕ) → k + suc d ≡ k + 1 + d
      shift d = omega arith

  double_step :
      (rounds k : ℕ) (c : Copy)
      → Present (suc rounds) k c.to_read
      → IsCopied
          (copy_indirect s (pointers k) c)
          (min (rounds * span) (copy_indirect s (pointers k) c).to_read)
          (double_byte s pointers (k + 1))
          (copy_double rounds (k + 1) s pointers (copy_indirect s (pointers k) c))
      → IsCopied c
          (min (suc rounds * span) c.to_read)
          (double_byte s pointers k)
          (copy_double (suc rounds) k s pointers c)
  unfolding copy_double
  double_step rounds k c present rest = elim (Bool-cases (c.to_read == 0)) [
    | inl done ↦ rw done (
        IsCopied-source c c 0 _ (double_byte s pointers k) (double_byte s pointers k) (ground arith)
          (λ o lt. refl) (nothing-IsCopied c (double_byte s pointers k)))
    | inr more ↦
        rw
          (
            more,
            ne→== (pointers k) 0
                (λ e. present.0 0 (omega arith) (ground arith) (ap pointers (from_zero k) ∙ e)),
          )
          (IsCopied-source c _ (first + then_more) _ (double_byte s pointers k)
            (double_byte s pointers k) sum (λ o lt. refl)
            (IsCopied-join c next _ first then_more (double_byte s pointers k)
              (byte_of s (pointers_in s (pointers k)) 0) (double_byte s pointers (k + 1)) one rest
              in_first in_rest))
  ]
    where
      next : Copy
      next = copy_indirect s (pointers k) c

      first : ℕ
      first = min span c.to_read

      then_more : ℕ
      then_more = min (rounds * span) next.to_read

      one : IsCopied c first (byte_of s (pointers_in s (pointers k)) 0) next
      one = first_span rounds k c present

      sum : first + then_more ≡ min (suc rounds * span) c.to_read
      sum = omega (arith, one.to_read_is)

      in_first :
          (o : ℕ)
          → o < first
          → double_byte s pointers k o ≡ byte_of s (pointers_in s (pointers k)) 0 o
      in_first o lt =
          let e1 : k + o / span ≡ k = omega arith in
          let e2 : o % span / block_size ≡ 0 + o / block_size = omega arith in
          ap (λ b. s.disk (pointers_in s (pointers b) (o % span / block_size)) (o % block_size)) e1
          ∙ ap (λ j. s.disk (pointers_in s (pointers k) j) (o % block_size)) e2

      in_rest :
          (o : ℕ)
          → o < then_more
          → double_byte s pointers k (first + o) ≡ double_byte s pointers (k + 1) o
      in_rest o lt =
          let full : first ≡ span = omega (arith, one.to_read_is) in
          let e1 : k + (span + o) / span ≡ k + 1 + o / span = omega arith in
          let e2 : (span + o) % span ≡ o % span = omega arith in
          let e3 : (span + o) % block_size ≡ o % block_size = omega arith in
          ap (λ f. double_byte s pointers k (f + o)) full
          ∙ ap
              (λ b.
                s.disk (pointers_in s (pointers b) ((span + o) % span / block_size))
                  ((span + o) % block_size))
              e1
          ∙ ap
              (λ r.
                s.disk (pointers_in s (pointers (k + 1 + o / span)) (r / block_size))
                  ((span + o) % block_size))
              e2
          ∙ ap (s.disk (pointers_in s (pointers (k + 1 + o / span)) (o % span / block_size))) e3

  pub copy_double-IsCopied :
      (rounds k : ℕ) (c : Copy)
      → Present rounds k c.to_read
      → IsCopied c
          (min (rounds * span) c.to_read)
          (double_byte s pointers k)
          (copy_double rounds k s pointers c)
  copy_double-IsCopied zero k c h =
      unfold copy_double in
      IsCopied-source c c 0 _ (double_byte s pointers k) (double_byte s pointers k) (omega arith)
        (λ o lt. refl) (nothing-IsCopied c (double_byte s pointers k))
  copy_double-IsCopied (suc rounds) k c h = double_step rounds k c h (
      copy_double-IsCopied rounds (k + 1) (copy_indirect s (pointers k) c)
        (Present-later rounds k c h))

-- The number of the file's block `k`, by the layout of the pointers.
abbrev pub file_block : Fs → Inode → ℕ → ℕ
file_block s node k =
    if ltb k 12
    then node.i_block k
    else if ltb k 140
    then pointers_in s (node.i_block 12) (k - 12)
    else pointers_in s (pointers_in s (node.i_block 13) ((k - 140) / 128)) ((k - 140) % 128)

-- The byte at offset `o` of the file.
abbrev pub file_byte : Fs → Inode → Bytes
file_byte s node o = s.disk (file_block s node (o / block_size)) (o % block_size)

-- Every block that the size calls for is there, and so are the blocks of pointers.
pub record IsWhole (s : Fs) (node : Inode) : Type 0 where
  pub fits : node.i_size ≤ (140 + 128 * 128) * block_size
  pub blocks : (k : ℕ) → k * block_size < node.i_size → file_block s node k ≢ 0
  pub single : 12 * block_size < node.i_size → node.i_block 12 ≢ 0
  pub double : 140 * block_size < node.i_size → node.i_block 13 ≢ 0
  pub inner :
      (q : ℕ)
      → q < 128
      → (140 + 128 * q) * block_size < node.i_size
      → pointers_in s (node.i_block 13) q ≢ 0
