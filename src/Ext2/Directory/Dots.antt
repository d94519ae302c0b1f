-- ===== src/Ext2/Directory/Dots.antt =====
-- The block that `init_directory_table` of src/filesystem/ext2.c lays out for a new directory.
use loss_os.Prelude.{
  ℕ, zero, suc, ◌+◌, ◌^◌, ◌≤◌, ◌<◌, ◌≡◌, ◌≢◌, inl, inr, refl, ◌∙◌, Bytes, none, some, arith, poke,
  poke_self, poke_ne, peek16_of_eq, peek32_of_eq, if◌then◌else◌,
}
use loss_os.Ext2.Layout.{block_size, get_entry_record_len, ft_dir}
use loss_os.Ext2.Directory.{put_entry, dot_entries, entry_matches}
use loss_os.Ext2.Directory.Chain.{IsChain, lookup}
use loss_os.Ext2.Directory.Walk.{lookup_step, lookup_end}
use loss_os.Ext2.Directory.Entries.{
  IsEntry, put_entry-IsEntry, put_entry_outside, Differ, entry_matches-IsEntry,
  entry_matches-Differ,
}

abbrev pub dot : Bytes
dot i = b'.'

first_len : get_entry_record_len 1 ≡ 12
unfolding get_entry_record_len
first_len = refl

module _ (b : Bytes) (inode parent_inode : ℕ) (in_range : inode < 2 ^ 32)
    (parent_in_range : parent_inode < 2 ^ 32) where
  abbrev block : Bytes
  block = dot_entries b inode parent_inode

  abbrev first : Bytes
  first = poke (put_entry b 0 inode 12 1 ft_dir) 9 b'.'

  abbrev second : Bytes
  second = put_entry first 12 parent_inode 500 2 ft_dir

  block_is : block ≡ poke (poke second 21 b'.') 22 b'.'
  unfolding dot_entries
  block_is = rw first_len refl

  front_is : (i : ℕ) → i < 12 → block i ≡ first i
  front_is i h = rw block_is (
      poke_ne (poke second 21 b'.') 22 b'.' i (omega arith)
      ∙ poke_ne second 21 b'.' i (omega arith)
      ∙ put_entry_outside first 12 parent_inode 500 2 ft_dir i (omega arith))

  fields_are : (i : ℕ) → i < 9 → first i ≡ put_entry b 0 inode 12 1 ft_dir i
  fields_are i h = poke_ne (put_entry b 0 inode 12 1 ft_dir) 9 b'.' i (omega arith)

  second_is : (i : ℕ) → 12 ≤ i → i < 21 → block i ≡ second i
  second_is i h k = rw block_is (
      poke_ne (poke second 21 b'.') 22 b'.' i (omega arith)
      ∙ poke_ne second 21 b'.' i (omega arith))

  pub self-IsEntry : IsEntry block 0 inode 12 1 ft_dir
  self-IsEntry =
      let f = put_entry-IsEntry b 0 inode 12 1 ft_dir in_range (omega arith) (omega arith) in
      record {
        inode_is =
            peek32_of_eq block (put_entry b 0 inode 12 1 ft_dir) 0
              (λ i h k. front_is i (omega arith) ∙ fields_are i (omega arith))
            ∙ f.inode_is;
        rec_len_is =
            peek16_of_eq block (put_entry b 0 inode 12 1 ft_dir) 4
              (λ i h k. front_is i (omega arith) ∙ fields_are i (omega arith))
            ∙ f.rec_len_is;
        name_len_is =
            peek16_of_eq block (put_entry b 0 inode 12 1 ft_dir) 6
              (λ i h k. front_is i (omega arith) ∙ fields_are i (omega arith))
            ∙ f.name_len_is;
        type_is = front_is 8 (omega arith) ∙ fields_are 8 (omega arith) ∙ f.type_is;
      }

  pub parent-IsEntry : IsEntry block 12 parent_inode 500 2 ft_dir
  parent-IsEntry =
      let f =
        put_entry-IsEntry first 12 parent_inode 500 2 ft_dir parent_in_range (omega arith)
          (omega arith) in
      record {
        inode_is =
            peek32_of_eq block second 12 (λ i h k. second_is i (omega arith) (omega arith))
            ∙ f.inode_is;
        rec_len_is =
            peek16_of_eq block second 16 (λ i h k. second_is i (omega arith) (omega arith))
            ∙ f.rec_len_is;
        name_len_is =
            peek16_of_eq block second 18 (λ i h k. second_is i (omega arith) (omega arith))
            ∙ f.name_len_is;
        type_is = second_is 20 (omega arith) (omega arith) ∙ f.type_is;
      }

  self_name : (i : ℕ) → i < 1 → block (9 + i) ≡ b'.'
  self_name i h =
      let e : 9 + i ≡ 9 = omega arith in
      rw e (front_is 9 (omega arith) ∙ poke_self (put_entry b 0 inode 12 1 ft_dir) 9 b'.')

  pub parent_name : (i : ℕ) → i < 2 → block (21 + i) ≡ b'.'
  parent_name zero h =
      rw block_is
        (poke_ne (poke second 21 b'.') 22 b'.' 21 (omega arith) ∙ poke_self second 21 b'.')
  parent_name (suc zero) h = rw block_is (poke_self (poke second 21 b'.') 22 b'.')
  parent_name (suc (suc i)) h = absurd (omega arith)

  -- For two inode numbers that fit 32 bits, the block of a new directory is a chain of records.
  pub dot_entries-IsChain : IsChain (dot_entries b inode parent_inode) 0
  dot_entries-IsChain =
      IsChain.link 0 (omega (arith, self-IsEntry.rec_len_is))
        (omega (arith, self-IsEntry.rec_len_is))
        (inr (
          omega (arith, self-IsEntry.name_len_is),
          omega (arith, self-IsEntry.name_len_is, self-IsEntry.rec_len_is),
        ))
        (rw self-IsEntry.rec_len_is (
          IsChain.link 12 (omega (arith, parent-IsEntry.rec_len_is))
            (omega (arith, parent-IsEntry.rec_len_is))
            (inr (
              omega (arith, parent-IsEntry.name_len_is),
              omega (arith, parent-IsEntry.name_len_is, parent-IsEntry.rec_len_is),
            ))
            (rw parent-IsEntry.rec_len_is (IsChain.end 512 refl))))

  -- What a search in the block sees.
  lookup_dots :
      (name : Bytes) (len : ℕ)
      → lookup block_size block 0 name len ≡ (
          if entry_matches block 0 name len
          then some (inode, ft_dir)
          else if entry_matches block 12 name len
          then some (parent_inode, ft_dir)
          else none)
  lookup_dots name len =
      lookup_step 511 block 0 name len (omega arith) (omega (arith, self-IsEntry.rec_len_is))
      ∙ rw
          (
            self-IsEntry.inode_is,
            self-IsEntry.type_is,
            self-IsEntry.rec_len_is,
            lookup_step 510 block 12 name len (omega arith)
                (omega (arith, parent-IsEntry.rec_len_is)),
            parent-IsEntry.inode_is,
            parent-IsEntry.type_is,
            parent-IsEntry.rec_len_is,
            lookup_end 510 block 512 name len (omega arith),
          )
          refl

  -- A search for `.`, written in whatever buffer, ends at the first entry.
  pub lookup-dot_entries_self :
      (name : Bytes)
      → inode ≢ 0
      → name 0 ≡ b'.'
      → lookup block_size block 0 name 1 ≡ some (inode, ft_dir)
  lookup-dot_entries_self name h at_first =
      let named : (i : ℕ) → i < 1 → block (9 + i) ≡ name i =
        λ i lt. let e : i ≡ 0 = omega arith in rw (e, at_first) (self_name 0 (omega arith)) in
      lookup_dots name 1 ∙ rw (entry_matches-IsEntry block 0 name self-IsEntry h named) refl

  -- For two inode numbers other than 0 that fit 32 bits, a lookup in the block of a new directory
  -- finds the directory under `.`, its parent under `..`, and nothing under any other name.
  pub lookup-dot_entries :
      inode ≢ 0
      → parent_inode ≢ 0
      → (lookup block_size (dot_entries b inode parent_inode) 0 dot 1 ≡ some (inode, ft_dir))
        × (lookup block_size (dot_entries b inode parent_inode) 0 dot 2
            ≡ some (parent_inode, ft_dir))
        × ((name : Bytes) (len : ℕ)
            → Differ name len dot 1
            → Differ name len dot 2
            → lookup block_size (dot_entries b inode parent_inode) 0 name len ≡ none)
  lookup-dot_entries h k = (
    lookup_dots dot 1 ∙ rw (entry_matches-IsEntry block 0 dot self-IsEntry h self_name) refl,
    lookup_dots dot 2
        ∙ rw
            (
              entry_matches-Differ block 0 dot dot 2 self-IsEntry self_name (inl (omega arith)),
              entry_matches-IsEntry block 12 dot parent-IsEntry k parent_name,
            )
            refl,
    λ name len d1 d2.
        lookup_dots name len
        ∙ rw
            (
              entry_matches-Differ block 0 dot name len self-IsEntry self_name d1,
              entry_matches-Differ block 12 dot name len parent-IsEntry parent_name d2,
            )
            refl,
  )
