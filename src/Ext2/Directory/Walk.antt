-- ===== src/Ext2/Directory/Walk.antt =====
-- Walks through a directory block of src/filesystem/ext2.c that has changed in one place.
use loss_os.Prelude.{
  ℕ, zero, suc, ◌+◌, ◌≤◌, ◌<◌, ◌≡◌, refl, ◌∙◌, ap, sym, subst, Bytes, Bool, true, false, Option,
  none, some, arith, if◌then◌else◌,
}
use loss_os.Ext2.Layout.{block_size, entry_inode, entry_rec_len, entry_file_type}
use loss_os.Ext2.Directory.{entry_matches, search_block}
use loss_os.Ext2.Directory.Chain.{
  entry_at, lookup, IsChain, Passed, entry_matches-SameEntry, SameEntry-of_eq, entry_rec_len-of_eq,
  Roomy-of_eq,
}

-- Behind the last entry a search ends.
pub search_end :
    (fuel : ℕ) (b : Bytes) (e : ℕ) (name : Bytes) (len : ℕ)
    → block_size ≤ e
    → search_block fuel b e name len ≡ none
unfolding search_block
search_end zero b e name len h = refl
search_end (suc fuel) b e name len h = ground arith

search_step :
    (fuel : ℕ) (b : Bytes) (e : ℕ) (name : Bytes) (len : ℕ)
    → e < block_size
    → 1 ≤ entry_rec_len b e
    → search_block (suc fuel) b e name len ≡ (
        if entry_matches b e name len
        then some e
        else search_block fuel b (e + entry_rec_len b e) name len)
unfolding search_block
search_step fuel b e name len h pos = ground arith

pub lookup_end :
    (fuel : ℕ) (b : Bytes) (e : ℕ) (name : Bytes) (len : ℕ)
    → block_size ≤ e
    → lookup fuel b e name len ≡ none
lookup_end fuel b e name len h = ap (entry_at b) (search_end fuel b e name len h)

entry_at-if :
    (b : Bytes) (m : Bool) (e : ℕ) (rest : Option ℕ)
    → entry_at b (if m then some e else rest)
      ≡ (if m then some (entry_inode b e, entry_file_type b e) else entry_at b rest)
entry_at-if b true e rest = refl
entry_at-if b false e rest = refl

-- One step of a search, where the entry is in the block and its record is not empty.
pub lookup_step :
    (fuel : ℕ) (b : Bytes) (e : ℕ) (name : Bytes) (len : ℕ)
    → e < block_size
    → 1 ≤ entry_rec_len b e
    → lookup (suc fuel) b e name len ≡ (
        if entry_matches b e name len
        then some (entry_inode b e, entry_file_type b e)
        else lookup fuel b (e + entry_rec_len b e) name len)
lookup_step fuel b e name len h pos =
    ap (entry_at b) (search_step fuel b e name len h pos)
    ∙ entry_at-if b (entry_matches b e name len) e _

module _ (b c name : Bytes) (len : ℕ) where
  -- From an entry on whose bytes and those behind it have not changed, a search finds the same.
  pub lookup_tail :
      (e f g : ℕ)
      → IsChain b e
      → ((i : ℕ) → e ≤ i → c i ≡ b i)
      → block_size ≤ e + f
      → block_size ≤ e + g
      → lookup f c e name len ≡ lookup g b e name len
  lookup_tail e f g (IsChain.end _ p) eq hf hg =
      lookup_end f c e name len (omega arith) ∙ sym (lookup_end g b e name len (omega arith))
  lookup_tail e zero g (IsChain.link _ h within roomy rest) eq hf hg = absurd (omega arith)
  lookup_tail e (suc f) zero (IsChain.link _ h within roomy rest) eq hf hg = absurd (omega arith)
  lookup_tail e (suc f) (suc g) (IsChain.link _ h within roomy rest) eq hf hg =
      let near = λ (i : ℕ) (h1 : e ≤ i) (h2 : i < e + entry_rec_len b e). eq i h1 in
      let same_len = entry_rec_len-of_eq b c e h near in
      let kept = SameEntry-of_eq b c e h roomy near in
      let same = entry_matches-SameEntry b c e name len kept in
      lookup_step f c e name len (omega arith) (omega arith)
      ∙ rw
          (
            same,
            kept.same_inode,
            kept.same_type,
            same_len,
            lookup_tail (e + entry_rec_len b e) f g rest (λ i h1. eq i (omega arith)) (omega arith)
                (omega arith),
          )
          refl
      ∙ sym (lookup_step g b e name len (omega arith) (omega arith))

  pub IsChain-tail : (e : ℕ) → IsChain b e → ((i : ℕ) → e ≤ i → c i ≡ b i) → IsChain c e
  IsChain-tail e (IsChain.end _ p) eq = IsChain.end e p
  IsChain-tail e (IsChain.link _ h within roomy rest) eq =
      let near = λ (i : ℕ) (h1 : e ≤ i) (h2 : i < e + entry_rec_len b e). eq i h1 in
      let same_len = entry_rec_len-of_eq b c e h near in
      IsChain.link e (omega arith) (omega arith) (Roomy-of_eq b c e h roomy near)
        (rw same_len (IsChain-tail (e + entry_rec_len b e) rest (λ i h1. eq i (omega arith))))

  -- The entries in front of `off` have not changed.
  module _ (off : ℕ) (below : (i : ℕ) → i < off → c i ≡ b i) (inside : off < block_size) where
    pub IsChain-Passed : (p : Bytes) (n e : ℕ) → Passed b p n e off → IsChain c off → IsChain c e
    IsChain-Passed p n e (Passed.here _ _ q) rest = subst (IsChain c) (sym q) rest
    IsChain-Passed p n e (Passed.there _ _ h within roomy miss more) rest =
        let near = λ (i : ℕ) (h1 : e ≤ i) (h2 : i < e + entry_rec_len b e). below i (omega arith) in
        let same_len = entry_rec_len-of_eq b c e h near in
        IsChain.link e (omega arith) (omega arith) (Roomy-of_eq b c e h roomy near)
          (rw same_len (IsChain-Passed p n (e + entry_rec_len b e) more rest))

    -- A search for the name goes on at `off`.
    pub lookup-Passed :
        (r : Option (ℕ × ℕ)) (e f : ℕ)
        → Passed b name len e off
        → ((g : ℕ) → block_size ≤ off + g → lookup g c off name len ≡ r)
        → block_size ≤ e + f
        → lookup f c e name len ≡ r
    lookup-Passed r e f (Passed.here _ _ q) rest hf = rw q (rest f (omega arith))
    lookup-Passed r e zero (Passed.there _ _ h within roomy miss more) rest hf =
        absurd (omega arith)
    lookup-Passed r e (suc f) (Passed.there _ _ h within roomy miss more) rest hf =
        let near = λ (i : ℕ) (h1 : e ≤ i) (h2 : i < e + entry_rec_len b e). below i (omega arith) in
        let same_len = entry_rec_len-of_eq b c e h near in
        let kept = SameEntry-of_eq b c e h roomy near in
        let same = entry_matches-SameEntry b c e name len kept in
        lookup_step f c e name len (omega arith) (omega arith)
        ∙ rw (same, miss, same_len)
            (lookup-Passed r (e + entry_rec_len b e) f more rest (omega arith))

    -- A search for any name finds what it found, if it does so from `off` on.
    pub lookup_other :
        (p : Bytes) (n e f : ℕ)
        → Passed b p n e off
        → ((g k : ℕ)
            → block_size ≤ off + g
            → block_size ≤ off + k
            → lookup g c off name len ≡ lookup k b off name len)
        → block_size ≤ e + f
        → lookup f c e name len ≡ lookup f b e name len
    lookup_other p n e f (Passed.here _ _ q) rest hf = rw q (rest f f (omega arith) (omega arith))
    lookup_other p n e zero (Passed.there _ _ h within roomy miss more) rest hf =
        absurd (omega arith)
    lookup_other p n e (suc f) (Passed.there _ _ h within roomy miss more) rest hf =
        let near = λ (i : ℕ) (h1 : e ≤ i) (h2 : i < e + entry_rec_len b e). below i (omega arith) in
        let same_len = entry_rec_len-of_eq b c e h near in
        let kept = SameEntry-of_eq b c e h roomy near in
        let same = entry_matches-SameEntry b c e name len kept in
        lookup_step f c e name len (omega arith) (omega arith)
        ∙ rw
            (
              same,
              kept.same_inode,
              kept.same_type,
              same_len,
              lookup_other p n (e + entry_rec_len b e) f more rest (omega arith),
            )
            refl
        ∙ sym (lookup_step f b e name len (omega arith) (omega arith))
