-- ===== src/Ext2/Write/Scan.antt =====
-- The search for room in a directory block, in `write` of src/filesystem/ext2.c.
use loss_os.Prelude.{
  ℕ, zero, suc, ◌+◌, ◌-◌, ◌≤◌, ◌<◌, ◌≡◌, ◌≢◌, inl, inr, refl, ◌∙◌, ap, Bytes, Bool, true, false,
  not, ◌&&◌, none, some, arith, Bool-cases, leb, ltb, ◌==◌,
}
use loss_os.Ext2.Layout.{
  block_size, directory_entry_size, entry_inode, entry_rec_len, entry_name_len, entry_file_type,
  get_entry_record_len,
}
use loss_os.Ext2.Directory.{entry_matches, search_block}
use loss_os.Ext2.Directory.Chain.{Roomy, lookup, entry_at, IsChain, Passed, Passed-le}
use loss_os.Ext2.Directory.Walk.{search_end, lookup_step}
use loss_os.Ext2.Write.{Room, scan_room}

-- The entry at `off` has room behind it for `need` bytes.
pub record HasGap (b : Bytes) (off need : ℕ) : Type 0 where
  pub sized : directory_entry_size ≤ entry_rec_len b off
  pub within : off + entry_rec_len b off ≤ block_size
  pub roomy : Roomy b off
  pub in_use : entry_inode b off ≢ 0
  pub gap : get_entry_record_len (entry_name_len b off) + need ≤ entry_rec_len b off
  pub strict : get_entry_record_len (entry_name_len b off) < entry_rec_len b off
  pub more : IsChain b (off + entry_rec_len b off)

module _ (b name : Bytes) (len need : ℕ) where
  -- What the search for room from entry `e` on says.
  abbrev pub Scanned : ℕ → ℕ → Room → Type 0
  Scanned fuel e Room.duplicate = (found : ℕ × ℕ) × (lookup fuel b e name len ≡ some found)
  Scanned fuel e (Room.hole off) =
      Passed b name len e off × (entry_matches b off name len ≡ false) × HasGap b off need
  Scanned fuel e Room.full = lookup fuel b e name len ≡ none

  scan_end : (fuel e : ℕ) → block_size ≤ e → Scanned fuel e (scan_room fuel b e name len need)
  unfolding scan_room search_block
  scan_end zero e h = refl
  scan_end (suc fuel) e h =
      let p : leb block_size e ≡ true = ground arith in
      rw p (ap (entry_at b) (search_end (suc fuel) b e name len h))

  Scanned-later :
      (fuel e : ℕ) (r : Room)
      → e < block_size
      → directory_entry_size ≤ entry_rec_len b e
      → e + entry_rec_len b e ≤ block_size
      → Roomy b e
      → entry_matches b e name len ≡ false
      → Scanned fuel (e + entry_rec_len b e) r
      → Scanned (suc fuel) e r
  Scanned-later fuel e Room.duplicate lt h within roomy miss (off, p) =
      (off, lookup_step fuel b e name len lt (omega arith) ∙ rw miss p)
  Scanned-later fuel e (Room.hole off) lt h within roomy miss (passed, free, gap) = (
    Passed.there e off h (Passed-le b name len (e + entry_rec_len b e) off passed) roomy miss
        passed,
    free,
    gap,
  )
  Scanned-later fuel e Room.full lt h within roomy miss p =
      lookup_step fuel b e name len lt (omega arith) ∙ rw miss p

  abbrev fits : ℕ → Bool
  fits e =
      not (entry_inode b e == 0)
      && ltb (get_entry_record_len (entry_name_len b e)) (entry_rec_len b e)
      && leb need (entry_rec_len b e - get_entry_record_len (entry_name_len b e))

  gap_of_fits :
      (e : ℕ)
      → directory_entry_size ≤ entry_rec_len b e
      → e + entry_rec_len b e ≤ block_size
      → Roomy b e
      → IsChain b (e + entry_rec_len b e)
      → fits e ≡ true
      → HasGap b e need
  gap_of_fits e h within roomy rest fit = record {
    sized = h;
    within = within;
    roomy = roomy;
    in_use = ground arith;
    gap = ground arith;
    strict = ground arith;
    more = rest;
  }

  scan_step :
      (fuel e : ℕ)
      → directory_entry_size ≤ entry_rec_len b e
      → e + entry_rec_len b e ≤ block_size
      → Roomy b e
      → IsChain b (e + entry_rec_len b e)
      → Scanned fuel
          (e + entry_rec_len b e)
          (scan_room fuel b (e + entry_rec_len b e) name len need)
      → Scanned (suc fuel) e (scan_room (suc fuel) b e name len need)
  unfolding scan_room
  scan_step fuel e h within roomy rest later = elim (Bool-cases (entry_matches b e name len)) [
    | inl hit ↦
        rw (inside, hit)
          (
            (entry_inode b e, entry_file_type b e),
            lookup_step fuel b e name len (omega arith) (omega arith) ∙ rw hit refl,
          )
    | inr miss ↦ elim (Bool-cases (fits e)) [
      | inl fit ↦
          rw (inside, miss, fit) (Passed.here e e refl, miss, gap_of_fits e h within roomy rest fit)
      | inr tight ↦
          rw (inside, miss, tight, sized)
            (Scanned-later fuel e _ (omega arith) h within roomy miss later)
    ]
  ]
    where
      inside : leb block_size e ≡ false
      inside = ground arith

      sized : (entry_rec_len b e == 0) ≡ false
      sized = ground arith

  -- In a chain of records, the search answers a duplicate only where a lookup finds the name, a
  -- full block only where none does, and a hole at an entry in use that leaves room for the new
  -- one, with no entry of the name up to it.
  pub scan_room_lem : (fuel e : ℕ) → IsChain b e → Scanned fuel e (scan_room fuel b e name len need)
  scan_room_lem fuel e (IsChain.end _ p) = scan_end fuel e (omega arith)
  scan_room_lem zero e (IsChain.link _ h within roomy rest) = unfold scan_room search_block in refl
  scan_room_lem (suc fuel) e (IsChain.link _ h within roomy rest) =
      scan_step fuel e h within roomy rest (scan_room_lem fuel (e + entry_rec_len b e) rest)
