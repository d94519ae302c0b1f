-- ===== src/Ext2/Read/Whole.antt =====
-- What `read` of src/filesystem/ext2.c hands out of a file.
use loss_os.Prelude.{
  ne→==, ℕ, ◌+◌, ◌-◌, ◌*◌, ◌/◌, ◌%◌, ◌≤◌, ◌<◌, ◌≡◌, ◌≢◌, refl, ap, ◌∙◌, Bytes, true, false, not,
  ◌&&◌, arith, Bool-cases, inl, inr, ltb, ◌==◌, if◌then◌else◌, min, pos,
}
use loss_os.Ext2.Layout.{Inode, DriverRequest, block_size, ft_reg_file}
use loss_os.Ext2.Device.{Fs, load_node}
use loss_os.Ext2.Nodes.{pointers_per_block}
use loss_os.Ext2.Read.{
  Copy, copy_blocks, pointers_in, copy_indirect, copy_double, copy_file, read_entry,
}
use loss_os.Ext2.Read.Copied.{
  IsCopied, nothing-IsCopied, IsCopied-join, IsCopied-source, byte_of, copy_blocks-IsCopied,
}
use loss_os.Ext2.Read.Transfer.{
  span, IsWhole, file_block, file_byte, double_byte, Present, copy_indirect-IsCopied,
  copy_double-IsCopied,
}

module _ (s : Fs) (node : Inode) where
  pub direct_block : (k : ℕ) → k < 12 → file_block s node k ≡ node.i_block k
  direct_block k h = let e : ltb k 12 ≡ true = ground arith in rw e refl

  single_block : (k : ℕ) → k < 128 → file_block s node (12 + k) ≡ pointers_in s (node.i_block 12) k
  single_block k h =
      let e : ltb (12 + k) 12 ≡ false = ground arith in
      let e' : ltb (12 + k) 140 ≡ true = ground arith in
      let d : 12 + k - 12 ≡ k = omega arith in rw (e, e') (ap (pointers_in s (node.i_block 12)) d)

  double_block :
      (q k : ℕ)
      → k < 128
      → file_block s node (140 + 128 * q + k) ≡ pointers_in s (pointers_in s (node.i_block 13) q) k
  double_block q k h =
      let e : ltb (140 + 128 * q + k) 12 ≡ false = ground arith in
      let e' : ltb (140 + 128 * q + k) 140 ≡ false = ground arith in
      let d : (140 + 128 * q + k - 140) / 128 ≡ q = omega arith in
      let r : (140 + 128 * q + k - 140) % 128 ≡ k = omega arith in
      rw (e, e')
        (ap
            (λ x.
              pointers_in s (pointers_in s (node.i_block 13) x) ((140 + 128 * q + k - 140) % 128))
            d
          ∙ ap (pointers_in s (pointers_in s (node.i_block 13) q)) r)

module _ (s : Fs) (node : Inode) (to : Bytes) (w : IsWhole s node) where
  abbrev c0 : Copy
  c0 = record { to = to; copied = 0; to_read = node.i_size }

  abbrev c1 : Copy
  c1 = copy_blocks 12 0 s node.i_block c0

  abbrev c2 : Copy
  c2 =
      if ltb 0 c1.to_read && not (node.i_block 12 == 0)
      then copy_indirect s (node.i_block 12) c1
      else c1

  abbrev c3 : Copy
  c3 =
      if ltb 0 c2.to_read && not (node.i_block 13 == 0)
      then copy_double pointers_per_block 0 s (pointers_in s (node.i_block 13)) c2
      else c2

  direct : IsCopied c0 (min (12 * block_size) node.i_size) (byte_of s node.i_block 0) c1
  direct = copy_blocks-IsCopied s node.i_block 12 0 c0 (λ d lt left z.
      w.blocks d left (direct_block s node d lt ∙ ap node.i_block (zero_plus d) ∙ z))
    where
      zero_plus : (d : ℕ) → d ≡ 0 + d
      zero_plus d = omega arith

  single_there : ltb 0 c1.to_read ≡ true → node.i_block 12 ≢ 0
  single_there more = w.single (ground (arith, direct.to_read_is))

  singles :
      (e : ℕ)
      → e < pointers_per_block
      → e * block_size < c1.to_read
      → pointers_in s (node.i_block 12) e ≢ 0
  singles e lt left z =
      w.blocks (12 + e) (omega (arith, direct.to_read_is)) (single_block s node e lt ∙ z)

  single : IsCopied c1 (min span c1.to_read) (byte_of s (pointers_in s (node.i_block 12)) 0) c2
  single = elim (Bool-cases (ltb 0 c1.to_read)) [
    | inr done ↦ rw done (
        IsCopied-source c1 c1 0 _ (byte_of s (pointers_in s (node.i_block 12)) 0)
          (byte_of s (pointers_in s (node.i_block 12)) 0) (ground arith) (λ o lt. refl)
          (nothing-IsCopied c1 (byte_of s (pointers_in s (node.i_block 12)) 0)))
    | inl more ↦
        rw (more, ne→== (node.i_block 12) 0 (single_there more))
          (copy_indirect-IsCopied s (node.i_block 12) c1 singles)
  ]

  double_there : ltb 0 c2.to_read ≡ true → node.i_block 13 ≢ 0
  double_there more = w.double (ground (arith, direct.to_read_is, single.to_read_is))

  inners : Present s (pointers_in s (node.i_block 13)) pointers_per_block 0 c2.to_read
  inners = (
    λ d lt left z.
        w.inner d lt (omega (arith, direct.to_read_is, single.to_read_is))
          (ap (pointers_in s (node.i_block 13)) (zero_plus d) ∙ z),
    λ d e lt lt' left z.
        w.blocks (140 + 128 * d + e) (omega (arith, direct.to_read_is, single.to_read_is)) (
          double_block s node d e lt'
          ∙ ap (λ x. pointers_in s (pointers_in s (node.i_block 13) x) e) (zero_plus d)
          ∙ z),
  )
    where
      zero_plus : (d : ℕ) → d ≡ 0 + d
      zero_plus d = omega arith

  double :
      IsCopied c2
        (min (pointers_per_block * span) c2.to_read)
        (double_byte s (pointers_in s (node.i_block 13)) 0)
        c3
  double = elim (Bool-cases (ltb 0 c2.to_read)) [
    | inr done ↦ rw done (
        IsCopied-source c2 c2 0 _ (double_byte s (pointers_in s (node.i_block 13)) 0)
          (double_byte s (pointers_in s (node.i_block 13)) 0) (ground arith) (λ o lt. refl)
          (nothing-IsCopied c2 (double_byte s (pointers_in s (node.i_block 13)) 0)))
    | inl more ↦
        rw (more, ne→== (node.i_block 13) 0 (double_there more))
          (copy_double-IsCopied s (pointers_in s (node.i_block 13)) pointers_per_block 0 c2 inners)
  ]

  abbrev n1 : ℕ
  n1 = min (12 * block_size) node.i_size

  abbrev n2 : ℕ
  n2 = min span c1.to_read

  abbrev n3 : ℕ
  n3 = min (pointers_per_block * span) c2.to_read

  in_direct : (o : ℕ) → o < n1 → file_byte s node o ≡ byte_of s node.i_block 0 o
  in_direct o lt =
      let e : o / block_size ≡ 0 + o / block_size = omega arith in
      ap (λ b. s.disk b (o % block_size))
        (direct_block s node (o / block_size) (omega arith) ∙ ap node.i_block e)

  in_single :
      (o : ℕ) → o < n2 → file_byte s node (n1 + o) ≡ byte_of s (pointers_in s (node.i_block 12)) 0 o
  in_single o lt =
      let e : (n1 + o) / block_size ≡ 12 + o / block_size = omega (arith, direct.to_read_is) in
      let r : (n1 + o) % block_size ≡ o % block_size = omega (arith, direct.to_read_is) in
      let z : o / block_size ≡ 0 + o / block_size = omega arith in
      ap (λ k. s.disk (file_block s node k) ((n1 + o) % block_size)) e
      ∙ ap (λ b. s.disk b ((n1 + o) % block_size))
          (single_block s node (o / block_size) (omega arith)
            ∙ ap (pointers_in s (node.i_block 12)) z)
      ∙ ap (s.disk (pointers_in s (node.i_block 12) (0 + o / block_size))) r

  in_double :
      (o : ℕ)
      → o < n3
      → file_byte s node (n1 + n2 + o) ≡ double_byte s (pointers_in s (node.i_block 13)) 0 o
  in_double o lt =
      let e : (n1 + n2 + o) / block_size ≡ 140 + 128 * (0 + o / span) + o % span / block_size =
        omega (arith, direct.to_read_is, single.to_read_is) in
      let r : (n1 + n2 + o) % block_size ≡ o % block_size =
        omega (arith, direct.to_read_is, single.to_read_is) in
      ap (λ k. s.disk (file_block s node k) ((n1 + n2 + o) % block_size)) e
      ∙ ap (λ b. s.disk b ((n1 + n2 + o) % block_size))
          (double_block s node (0 + o / span) (o % span / block_size) (omega arith))
      ∙ ap
          (s.disk (
            pointers_in s (pointers_in s (node.i_block 13) (0 + o / span)) (o % span / block_size)))
          r

  all : n1 + n2 + n3 ≡ node.i_size
  all = omega (arith, direct.to_read_is, single.to_read_is, double.to_read_is, w.fits)

  -- The copy loops copy the whole file.
  pub copy_file-IsCopied : IsCopied c0 node.i_size (file_byte s node) (copy_file s node c0)
  unfolding copy_file
  copy_file-IsCopied =
      IsCopied-source c0 c3 (n1 + n2 + n3) node.i_size (file_byte s node) (file_byte s node) all
        (λ o lt. refl)
        (IsCopied-join c0 c2 c3 (n1 + n2) n3 (file_byte s node) (file_byte s node)
          (double_byte s (pointers_in s (node.i_block 13)) 0)
          (IsCopied-join c0 c1 c2 n1 n2 (file_byte s node) (byte_of s node.i_block 0)
            (byte_of s (pointers_in s (node.i_block 12)) 0) direct single in_direct in_single)
          double (λ o lt. refl) in_double)

-- Reading a whole file into a buffer that is large enough succeeds: the buffer holds the file's
-- bytes in order, from the direct, the indirect and the double indirect blocks, and behind them
-- what it held before.
pub read_entry_lem :
    (s : Fs) (r : DriverRequest) (inode : ℕ)
    → IsWhole s (load_node s inode)
    → (load_node s inode).i_size ≤ r.buffer_size
    → ((read_entry s r inode ft_reg_file).0 ≡ pos 0)
      × ((o : ℕ)
          → o < (load_node s inode).i_size
          → (read_entry s r inode ft_reg_file).1 o ≡ file_byte s (load_node s inode) o)
      × ((i : ℕ)
          → (load_node s inode).i_size ≤ i
          → (read_entry s r inode ft_reg_file).1 i ≡ r.buf i)
unfolding read_entry
read_entry_lem s r inode w h =
    let c = copy_file-IsCopied s (load_node s inode) r.buf w in
    let e : ltb r.buffer_size (load_node s inode).i_size ≡ false = ground arith in
    rw e (
      refl,
      λ o lt.
          ap ((copy_file s (load_node s inode) (c0 s (load_node s inode) r.buf w)).to) (zero_plus o)
          ∙ c.inside o lt,
      λ i le. c.above i (omega arith),
    )
  where
    zero_plus : (d : ℕ) → d ≡ 0 + d
    zero_plus d = omega arith
