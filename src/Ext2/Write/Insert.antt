-- ===== src/Ext2/Write/Insert.antt =====
-- The entry that `write` of src/filesystem/ext2.c puts into a directory block.
use loss_os.Prelude.{
  ℕ, ◌+◌, ◌-◌, ◌^◌, ◌≤◌, ◌<◌, ◌≡◌, ◌⊎◌, inl, inr, ◌∙◌, Bytes, arith, poke16_outside,
  peek16-poke16_self, peek16_of_eq, peek32_of_eq,
}
use loss_os.Ext2.Layout.{
  DriverRequest, directory_entry_size, entry_rec_len, entry_name_len, get_entry_name,
  get_entry_record_len,
}
use loss_os.Ext2.Directory.{put_entry}
use loss_os.Ext2.Directory.Chain.{SameEntry, get_entry_record_len_lem}
use loss_os.Ext2.Directory.Entries.{IsEntry, put_entry-IsEntry, put_entry_outside}
use loss_os.Ext2.Read.{copy_into}
use loss_os.Ext2.Read.Copied.{copy_into_inside, copy_into_outside}
use loss_os.Ext2.Write.{insert_entry, entry_type}
use loss_os.Ext2.Write.Scan.{HasGap}

module _ (b : Bytes) (off : ℕ) (r : DriverRequest) (new_ino : ℕ) where
  abbrev pub actual : ℕ
  actual = get_entry_record_len (entry_name_len b off)

  abbrev pub new_off : ℕ
  new_off = off + actual

  abbrev pub left : ℕ
  left = entry_rec_len b off - actual

  abbrev with_fields : Bytes
  with_fields = put_entry b new_off new_ino left r.name_len (entry_type r)

  abbrev with_name : Bytes
  with_name = copy_into with_fields (get_entry_name new_off) r.name r.name_len

  abbrev pub after : Bytes
  after = insert_entry b off r new_ino

  module _ (gap : HasGap b off (get_entry_record_len r.name_len)) (short : r.name_len < 256) where
    pub front_size : directory_entry_size + entry_name_len b off ≤ actual
    front_size = elim gap.roomy [
      | inl free ↦ absurd (gap.in_use free)
      | inr (byte, room) ↦ (get_entry_record_len_lem (entry_name_len b off) byte).0
    ]

    pub sizes :
        (directory_entry_size ≤ actual)
        × (actual + directory_entry_size + r.name_len ≤ entry_rec_len b off)
    sizes = omega (
      arith,
      gap.gap,
      gap.in_use,
      gap.roomy,
      get_entry_record_len_lem r.name_len short,
      front_size,
    )

    small : actual < 2 ^ 16
    small = omega (arith, gap.strict, gap.within)

    -- The bytes that stay.
    pub after_outside :
        (i : ℕ)
        → (i < off + 4) ⊎ (off + 6 ≤ i)
        → (i < new_off) ⊎ (get_entry_name new_off + r.name_len ≤ i)
        → after i ≡ b i
    unfolding insert_entry
    after_outside i h1 h2 =
        poke16_outside with_name (off + 4) actual i (omega arith)
        ∙ copy_into_outside with_fields (get_entry_name new_off) r.name r.name_len i (omega arith)
        ∙ put_entry_outside b new_off new_ino left r.name_len (entry_type r) i (omega arith)

    pub after_below : (i : ℕ) → i < off → after i ≡ b i
    after_below i h = after_outside i (omega arith) (omega arith)

    pub shrunk : entry_rec_len after off ≡ actual
    unfolding insert_entry
    shrunk = peek16-poke16_self with_name (off + 4) actual small

    -- The entry in front of the hole is as it was, but for its length.
    pub front : SameEntry b after off
    front = record {
      same_inode =
          peek32_of_eq after b off
            (λ i h1 h2. after_outside i (omega arith) (omega (arith, sizes)));
      same_name_len =
          peek16_of_eq after b (off + 6)
            (λ i h1 h2. after_outside i (omega arith) (omega (arith, sizes)));
      same_type = after_outside (off + 8) (omega arith) (omega (arith, sizes));
      same_name = inr (λ i h1 h2. after_outside i (omega arith) (omega (arith, front_size)));
    }

    -- The new entry.
    pub fresh_name : (i : ℕ) → i < r.name_len → after (get_entry_name new_off + i) ≡ r.name i
    unfolding insert_entry
    fresh_name i h =
        poke16_outside with_name (off + 4) actual (get_entry_name new_off + i)
          (omega (arith, sizes))
        ∙ copy_into_inside with_fields (get_entry_name new_off) r.name r.name_len i h

    after_fields : (i : ℕ) → new_off ≤ i → i < get_entry_name new_off → after i ≡ with_fields i
    unfolding insert_entry
    after_fields i h1 h2 =
        poke16_outside with_name (off + 4) actual i (omega (arith, sizes))
        ∙ copy_into_outside with_fields (get_entry_name new_off) r.name r.name_len i (omega arith)

    pub fresh : new_ino < 2 ^ 32 → IsEntry after new_off new_ino left r.name_len (entry_type r)
    fresh h =
        let f =
          put_entry-IsEntry b new_off new_ino left r.name_len (entry_type r) h
            (omega (arith, gap.within)) (omega arith) in
        record {
          inode_is =
              peek32_of_eq after with_fields new_off (λ i h1 h2. after_fields i h1 (omega arith))
              ∙ f.inode_is;
          rec_len_is =
              peek16_of_eq after with_fields (new_off + 4)
                (λ i h1 h2. after_fields i (omega arith) (omega arith))
              ∙ f.rec_len_is;
          name_len_is =
              peek16_of_eq after with_fields (new_off + 6)
                (λ i h1 h2. after_fields i (omega arith) (omega arith))
              ∙ f.name_len_is;
          type_is = after_fields (new_off + 8) (omega arith) (omega arith) ∙ f.type_is;
        }
