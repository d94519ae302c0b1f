-- ===== src/Ext2/Write/Inserted.antt =====
-- A directory block before and after `write` of src/filesystem/ext2.c has put an entry into it.
use loss_os.Prelude.{
  ℕ, zero, suc, ◌+◌, ◌^◌, ◌≤◌, ◌<◌, ◌≡◌, ◌≢◌, inr, refl, ◌∙◌, sym, subst, Bytes, true, false, some,
  arith, if◌then◌else◌,
}
use loss_os.Ext2.Layout.{
  DriverRequest, block_size, entry_inode, entry_rec_len, entry_file_type, get_entry_record_len,
}
use loss_os.Ext2.Directory.{entry_matches}
use loss_os.Ext2.Directory.Chain.{Roomy, IsChain, lookup, SameEntry, entry_matches-SameEntry}
use loss_os.Ext2.Directory.Walk.{
  lookup_step, lookup_tail, IsChain-tail, IsChain-Passed, lookup-Passed, lookup_other,
}
use loss_os.Ext2.Directory.Entries.{IsEntry, Differ, entry_matches-IsEntry, entry_matches-Differ}
use loss_os.Ext2.Write.{Room, scan_room, insert_entry, entry_type}
use loss_os.Ext2.Write.Insert.{
  new_off, left, after, front_size, sizes, after_outside, after_below, shrunk, front, fresh_name,
  fresh,
}
use loss_os.Ext2.Write.Scan.{HasGap, Scanned, scan_room_lem}

module _ (b : Bytes) (off : ℕ) (r : DriverRequest) (new_ino : ℕ) (is_chain : IsChain b 0)
    (room : scan_room block_size b 0 r.name r.name_len (get_entry_record_len r.name_len)
      ≡ Room.hole off)
    (short : r.name_len < 256) where
  scanned :
      Scanned b r.name r.name_len (get_entry_record_len r.name_len) block_size 0 (Room.hole off)
  scanned =
      subst (Scanned b r.name r.name_len (get_entry_record_len r.name_len) block_size 0) room
        (scan_room_lem b r.name r.name_len (get_entry_record_len r.name_len) block_size 0 is_chain)

  gap : HasGap b off (get_entry_record_len r.name_len)
  gap = scanned.2

  abbrev result : Bytes
  result = after b off r new_ino

  abbrev at_new : ℕ
  at_new = new_off b off r new_ino

  abbrev behind : ℕ
  behind = off + entry_rec_len b off

  result_tail : (i : ℕ) → behind ≤ i → result i ≡ b i
  result_tail i h =
      after_outside b off r new_ino gap short i (omega (arith, gap.sized))
        (omega (arith, sizes b off r new_ino gap short))

  inside : off < block_size
  inside = omega (arith, gap.sized, gap.within)

  module _ (numbered : new_ino < 2 ^ 32) where
    new-IsEntry : IsEntry result at_new new_ino (left b off r new_ino) r.name_len (entry_type r)
    new-IsEntry = fresh b off r new_ino gap short numbered

    next_to_new : at_new + entry_rec_len result at_new ≡ behind
    next_to_new = omega (arith, new-IsEntry.rec_len_is, gap.strict)

    front_matches :
        (name : Bytes) (len : ℕ) → entry_matches result off name len ≡ entry_matches b off name len
    front_matches name len =
        entry_matches-SameEntry b result off name len (front b off r new_ino gap short)

    -- What a search sees from the entry in front of the hole on.
    two_steps :
        (f : ℕ) (name : Bytes) (len : ℕ)
        → lookup (suc (suc f)) result off name len ≡ (
            if entry_matches b off name len
            then some (entry_inode b off, entry_file_type b off)
            else if entry_matches result at_new name len
            then some (new_ino, entry_type r)
            else lookup f result behind name len)
    two_steps f name len =
        lookup_step (suc f) result off name len inside
          (omega (arith, shrunk b off r new_ino gap short, sizes b off r new_ino gap short))
        ∙ rw
            (
              front_matches name len,
              kept.same_inode,
              kept.same_type,
              shrunk b off r new_ino gap short,
              lookup_step f result at_new name len (omega (arith, gap.strict, gap.within))
                  (omega (arith, new-IsEntry.rec_len_is, gap.strict)),
              new-IsEntry.inode_is,
              new-IsEntry.type_is,
              next_to_new,
            )
            refl
      where
        kept : SameEntry b result off
        kept = front b off r new_ino gap short

    new-IsChain : IsChain result at_new
    new-IsChain =
        IsChain.link at_new (omega (arith, new-IsEntry.rec_len_is, sizes b off r new_ino gap short))
          (omega (arith, next_to_new, gap.within))
          (inr (
            omega (arith, new-IsEntry.name_len_is),
            omega (
              arith,
              new-IsEntry.rec_len_is,
              new-IsEntry.name_len_is,
              sizes b off r new_ino gap short,
            ),
          ))
          (rw next_to_new (IsChain-tail b result r.name r.name_len behind gap.more result_tail))

    front-Roomy : Roomy result off
    front-Roomy =
        let kept = front b off r new_ino gap short in
        omega (
          arith,
          gap.roomy,
          kept.same_name_len,
          kept.same_inode,
          shrunk b off r new_ino gap short,
          front_size b off r new_ino gap short,
        )

    -- In a block that is a chain of records, behind the entry that the scan for room has answered,
    -- an entry is put for a name shorter than 256 bytes and an inode that fits 32 bits: the block
    -- is a chain of records again.
    pub insert_entry-IsChain : IsChain (insert_entry b off r new_ino) 0
    insert_entry-IsChain =
        IsChain-Passed b result r.name r.name_len off (after_below b off r new_ino gap short) inside
          r.name r.name_len 0 scanned.0
          (IsChain.link off
            (omega (arith, shrunk b off r new_ino gap short, sizes b off r new_ino gap short))
            (omega (arith, shrunk b off r new_ino gap short, gap.strict, gap.within)) front-Roomy
            (rw (shrunk b off r new_ino gap short) new-IsChain))

    new_matches : new_ino ≢ 0 → entry_matches result at_new r.name r.name_len ≡ true
    new_matches h =
        entry_matches-IsEntry result at_new r.name new-IsEntry h
          (fresh_name b off r new_ino gap short)

    new_differs :
        (name : Bytes) (len : ℕ)
        → Differ name len r.name r.name_len
        → entry_matches result at_new name len ≡ false
    new_differs name len h =
        entry_matches-Differ result at_new r.name name len new-IsEntry
          (fresh_name b off r new_ino gap short) h

    self_at_off :
        new_ino ≢ 0
        → (g : ℕ) → block_size ≤ off + g
        → lookup g result off r.name r.name_len ≡ some (new_ino, entry_type r)
    self_at_off h zero hg = absurd (omega (arith, inside))
    self_at_off h (suc zero) hg = absurd (omega (arith, gap.sized, gap.within))
    self_at_off h (suc (suc f)) hg =
        two_steps f r.name r.name_len ∙ rw (scanned.1, new_matches h) refl

    ne_at_off :
        (name : Bytes) (len : ℕ)
        → Differ name len r.name r.name_len
        → (g k : ℕ) → block_size ≤ off + g
        → block_size ≤ off + k
        → lookup g result off name len ≡ lookup k b off name len
    ne_at_off name len h zero k hg hk = absurd (omega (arith, inside))
    ne_at_off name len h (suc zero) k hg hk = absurd (omega (arith, gap.sized, gap.within))
    ne_at_off name len h (suc (suc f)) zero hg hk = absurd (omega (arith, inside))
    ne_at_off name len h (suc (suc f)) (suc k) hg hk =
        two_steps f name len
        ∙ rw
            (
              new_differs name len h,
              lookup_tail b result name len behind f k gap.more result_tail
                  (omega (arith, sizes b off r new_ino gap short)) (omega (arith, gap.sized)),
            )
            refl
        ∙ sym (lookup_step k b off name len inside (omega (arith, gap.sized)))

    -- In a block that is a chain of records, behind the entry that the scan for room has answered,
    -- an entry is put for a name shorter than 256 bytes and an inode other than 0 that fits 32
    -- bits: a lookup of the name then finds the new inode and its type.
    pub lookup-insert_entry_self :
        new_ino ≢ 0
        → lookup block_size (insert_entry b off r new_ino) 0 r.name r.name_len
          ≡ some (new_ino, entry_type r)
    lookup-insert_entry_self h =
        lookup-Passed b result r.name r.name_len off (after_below b off r new_ino gap short) inside
          (some (new_ino, entry_type r)) 0 block_size scanned.0 (self_at_off h) (omega arith)

    -- In a block that is a chain of records, behind the entry that the scan for room has answered,
    -- an entry is put for a name shorter than 256 bytes and an inode that fits 32 bits: a lookup of
    -- any name that differs from the new one finds the same inode and type as before, or nothing as
    -- before.
    pub lookup-insert_entry_ne :
        (name : Bytes) (len : ℕ)
        → Differ name len r.name r.name_len
        → lookup block_size (insert_entry b off r new_ino) 0 name len
          ≡ lookup block_size b 0 name len
    lookup-insert_entry_ne name len h =
        lookup_other b result name len off (after_below b off r new_ino gap short) inside r.name
          r.name_len 0 block_size scanned.0 (ne_at_off name len h) (omega arith)
