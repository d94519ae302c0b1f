-- ===== src/Ext2/Read/Copied.antt =====
-- Pieces of a file put one behind the other, in the copy loops of src/filesystem/ext2.c.
use loss_os.Prelude.{
  ne→==, ◌⊎◌, ℕ, zero, suc, ◌+◌, ◌-◌, ◌*◌, ◌/◌, ◌%◌, ◌≤◌, ◌<◌, ◌≡◌, ◌≢◌, inl, inr, refl, sym, ap,
  ◌∙◌, Bytes, true, ◌&&◌, arith, Bool-cases, ltb, leb, ◌==◌, if◌then◌else◌, min, dec_lt,
}
use loss_os.Ext2.Layout.{block_size}
use loss_os.Ext2.Device.{Fs, read_blocks}
use loss_os.Ext2.Read.{Copy, copy_into, copy_block, copy_blocks}

pub copy_into_inside :
    (to : Bytes) (at : ℕ) (from : Bytes) (n i : ℕ)
    → i < n
    → copy_into to at from n (at + i) ≡ from i
unfolding copy_into
copy_into_inside to at from n i h =
    let e : at + i - at ≡ i = omega arith in
    let p : (leb at (at + i) && ltb (at + i) (at + n)) ≡ true = ground arith in rw (p, e) refl

pub copy_into_outside :
    (to : Bytes) (at : ℕ) (from : Bytes) (n i : ℕ)
    → (i < at) ⊎ (at + n ≤ i)
    → copy_into to at from n i ≡ to i
unfolding copy_into
copy_into_outside to at from n i h = ground arith

-- From `c` to `c'`, the first `m` bytes of `src` have been copied.
pub record IsCopied (c : Copy) (m : ℕ) (src : Bytes) (c' : Copy) : Type 0 where
  pub copied_is : c'.copied ≡ c.copied + m
  pub to_read_is : c'.to_read + m ≡ c.to_read
  pub inside : (o : ℕ) → o < m → c'.to (c.copied + o) ≡ src o
  pub below : (i : ℕ) → i < c.copied → c'.to i ≡ c.to i
  pub above : (i : ℕ) → c.copied + m ≤ i → c'.to i ≡ c.to i

pub nothing-IsCopied : (c : Copy) (src : Bytes) → IsCopied c 0 src c
nothing-IsCopied c src = record {
  copied_is = omega arith;
  to_read_is = omega arith;
  inside = λ o lt. absurd (omega arith);
  below = λ i lt. refl;
  above = λ i le. refl;
}

pub IsCopied-join :
    (c c1 c2 : Copy) (m n : ℕ) (src src1 src2 : Bytes)
    → IsCopied c m src1 c1
    → IsCopied c1 n src2 c2
    → ((o : ℕ) → o < m → src o ≡ src1 o)
    → ((o : ℕ) → o < n → src (m + o) ≡ src2 o)
    → IsCopied c (m + n) src c2
IsCopied-join c c1 c2 m n src src1 src2 a b h1 h2 = record {
  copied_is = omega (arith, a.copied_is, b.copied_is);
  to_read_is = omega (arith, a.to_read_is, b.to_read_is);
  inside = λ o lt. elim (dec_lt o m) [
    | yes p ↦ b.below (c.copied + o) (omega (arith, a.copied_is)) ∙ a.inside o p ∙ sym (h1 o p)
    | no p ↦
        let e1 : c.copied + o ≡ c1.copied + (o - m) = omega (arith, a.copied_is) in
        let e2 : m + (o - m) ≡ o = omega arith in
        ap (c2.to) e1 ∙ b.inside (o - m) (omega arith) ∙ sym (h2 (o - m) (omega arith)) ∙ ap src e2
  ];
  below = λ i lt. b.below i (omega (arith, a.copied_is)) ∙ a.below i lt;
  above = λ i le. b.above i (omega (arith, a.copied_is)) ∙ a.above i (omega arith);
}

-- Which bytes, seen at another source that agrees with the first.
pub IsCopied-source :
    (c c' : Copy) (m n : ℕ) (src src' : Bytes)
    → m ≡ n
    → ((o : ℕ) → o < m → src' o ≡ src o)
    → IsCopied c m src c'
    → IsCopied c n src' c'
IsCopied-source c c' m n src src' e h a = record {
  copied_is = omega (arith, a.copied_is);
  to_read_is = omega (arith, a.to_read_is);
  inside = λ o lt. a.inside o (omega arith) ∙ sym (h o (omega arith));
  below = a.below;
  above = λ i le. a.above i (omega arith);
}

read_blocks-inside : (s : Fs) (lba o : ℕ) → o < block_size → read_blocks s lba o ≡ s.disk lba o
unfolding read_blocks
read_blocks-inside s lba o h = let e : ltb o block_size ≡ true = ground arith in rw e refl

-- One block.
pub copy_block-IsCopied :
    (s : Fs) (block_id : ℕ) (c : Copy)
    → IsCopied c (min block_size c.to_read) (s.disk block_id) (copy_block s block_id c)
unfolding copy_block
copy_block-IsCopied s block_id c = record {
  copied_is = ap (λ k. c.copied + k) (sym len);
  to_read_is = rw (sym len) (omega arith);
  inside = λ o lt.
      copy_into_inside c.to c.copied (read_blocks s block_id) taken o (rw (sym len) lt)
      ∙ first o (omega arith);
  below = λ i lt. copy_into_outside c.to c.copied (read_blocks s block_id) taken i (inl lt);
  above = λ i le.
      copy_into_outside c.to c.copied (read_blocks s block_id) taken i (inr (rw (sym len) le));
}
  where
    taken : ℕ
    taken = if ltb block_size c.to_read then block_size else c.to_read

    len : min block_size c.to_read ≡ taken
    len = ground arith

    first : (o : ℕ) → o < block_size → read_blocks s block_id o ≡ s.disk block_id o
    first o h = read_blocks-inside s block_id o h

-- The byte at offset `o` behind pointer `j`.
abbrev pub byte_of : Fs → (ℕ → ℕ) → ℕ → Bytes
byte_of s pointers j o = s.disk (pointers (j + o / block_size)) (o % block_size)

copy_step :
    (s : Fs) (pointers : ℕ → ℕ) (rounds j : ℕ) (c : Copy)
    → (0 < c.to_read → pointers j ≢ 0)
    → IsCopied
        (copy_block s (pointers j) c)
        (min (rounds * block_size) (copy_block s (pointers j) c).to_read)
        (byte_of s pointers (j + 1))
        (copy_blocks rounds (j + 1) s pointers (copy_block s (pointers j) c))
    → IsCopied c
        (min (suc rounds * block_size) c.to_read)
        (byte_of s pointers j)
        (copy_blocks (suc rounds) j s pointers c)
unfolding copy_blocks
copy_step s pointers rounds j c present rest = elim (Bool-cases (c.to_read == 0)) [
  | inl done ↦ rw done (
      IsCopied-source c c 0 _ (byte_of s pointers j) (byte_of s pointers j) (ground arith)
        (λ o lt. refl) (nothing-IsCopied c (byte_of s pointers j)))
  | inr more ↦
      rw (more, ne→== (pointers j) 0 (present (ground arith)))
        (IsCopied-source c _ (first + then_more) _ (byte_of s pointers j) (byte_of s pointers j) sum
          (λ o lt. refl)
          (IsCopied-join c next _ first then_more (byte_of s pointers j) (s.disk (pointers j))
            (byte_of s pointers (j + 1)) one rest in_first in_rest))
]
  where
    next : Copy
    next = copy_block s (pointers j) c

    first : ℕ
    first = min block_size c.to_read

    then_more : ℕ
    then_more = min (rounds * block_size) next.to_read

    one : IsCopied c first (s.disk (pointers j)) next
    one = copy_block-IsCopied s (pointers j) c

    sum : first + then_more ≡ min (suc rounds * block_size) c.to_read
    sum = omega (arith, one.to_read_is)

    in_first : (o : ℕ) → o < first → byte_of s pointers j o ≡ s.disk (pointers j) o
    in_first o lt =
        let e1 : j + o / block_size ≡ j = omega arith in
        let e2 : o % block_size ≡ o = omega arith in
        ap (λ b. s.disk (pointers b) (o % block_size)) e1 ∙ ap (s.disk (pointers j)) e2

    in_rest :
        (o : ℕ) → o < then_more → byte_of s pointers j (first + o) ≡ byte_of s pointers (j + 1) o
    in_rest o lt =
        let e1 : j + (first + o) / block_size ≡ j + 1 + o / block_size =
          omega (arith, one.to_read_is) in
        let e2 : (first + o) % block_size ≡ o % block_size = omega (arith, one.to_read_is) in
        ap (λ b. s.disk (pointers b) ((first + o) % block_size)) e1
        ∙ ap (s.disk (pointers (j + 1 + o / block_size))) e2

-- The loop over `rounds` pointers copies that many blocks or all that is left, if no pointer that
-- it comes to is zero.
pub copy_blocks-IsCopied :
    (s : Fs) (pointers : ℕ → ℕ) (rounds j : ℕ) (c : Copy)
    → ((d : ℕ) → d < rounds → d * block_size < c.to_read → pointers (j + d) ≢ 0)
    → IsCopied c
        (min (rounds * block_size) c.to_read)
        (byte_of s pointers j)
        (copy_blocks rounds j s pointers c)
copy_blocks-IsCopied s pointers zero j c h =
    unfold copy_blocks in
    IsCopied-source c c 0 _ (byte_of s pointers j) (byte_of s pointers j) (omega arith)
      (λ o lt. refl) (nothing-IsCopied c (byte_of s pointers j))
copy_blocks-IsCopied s pointers (suc rounds) j c h =
    copy_step s pointers rounds j c
      (λ some_left e. h 0 (omega arith) (omega arith) (ap pointers from_zero ∙ e))
      (copy_blocks-IsCopied s pointers rounds (j + 1) (copy_block s (pointers j) c) (λ d lt left e.
        h (suc d) (omega arith) (omega (arith, (copy_block-IsCopied s (pointers j) c).to_read_is))
          (ap pointers (shift d) ∙ e)))
  where
    from_zero : j + 0 ≡ j
    from_zero = omega arith

    shift : (d : ℕ) → j + suc d ≡ j + 1 + d
    shift d = omega arith
