-- ===== src/Ext2/Delete/Located.antt =====
-- The search of `delete` in src/filesystem/ext2.c for the entry and the one before it.
use loss_os.Prelude.{
  ℕ, zero, suc, ◌+◌, ◌≤◌, ◌<◌, ◌≡◌, ◌⊎◌, inl, inr, refl, sym, ap, ◌∙◌, Bytes, true, false, Option,
  none, some, arith, Bool-cases, leb, ◌==◌,
}
use loss_os.Ext2.Layout.{block_size, directory_entry_size, entry_rec_len}
use loss_os.Ext2.Directory.{entry_matches, search_block}
use loss_os.Ext2.Directory.Chain.{Roomy, IsChain, lookup, entry_at, Passed, Passed-le}
use loss_os.Ext2.Directory.Walk.{lookup_step, search_end}
use loss_os.Ext2.Delete.{Hit, locate}

-- A record of a chain and what follows it.
pub record IsLink (b : Bytes) (e : ℕ) : Type 0 where
  pub sized : directory_entry_size ≤ entry_rec_len b e
  pub within : e + entry_rec_len b e ≤ block_size
  pub roomy : Roomy b e
  pub more : IsChain b (e + entry_rec_len b e)

module _ (b name : Bytes) (len : ℕ) where
  -- Entry `p` stands right before entry `off`.
  pub record IsBefore (e p off : ℕ) : Type 0 where
    pub passed : Passed b name len e p
    pub miss : entry_matches b p name len ≡ false
    pub is_link : IsLink b p
    pub next : p + entry_rec_len b p ≡ off

  -- What the search from entry `e` on, with `prev` in front of it, says.
  abbrev pub Located : ℕ → ℕ → Option ℕ → Option Hit → Type 0
  Located fuel e prev none = lookup fuel b e name len ≡ none
  Located fuel e prev (some hit) =
      (entry_matches b hit.offset name len ≡ true)
      × IsLink b hit.offset
      × (((hit.offset ≡ e) × (hit.prev ≡ prev))
          ⊎ ((p : ℕ) × (hit.prev ≡ some p) × IsBefore e p hit.offset))

  locate_end :
      (fuel e : ℕ) (prev : Option ℕ)
      → block_size ≤ e
      → Located fuel e prev (locate fuel b e prev name len)
  unfolding locate search_block
  locate_end zero e prev h = refl
  locate_end (suc fuel) e prev h =
      let p : leb block_size e ≡ true = ground arith in
      rw p (ap (entry_at b) (search_end (suc fuel) b e name len h))

  Located-later :
      (fuel e : ℕ) (prev : Option ℕ) (r : Option Hit)
      → e < block_size
      → IsLink b e
      → entry_matches b e name len ≡ false
      → Located fuel (e + entry_rec_len b e) (some e) r
      → Located (suc fuel) e prev r
  Located-later fuel e prev none lt l miss p =
      lookup_step fuel b e name len lt (omega (arith, l.sized)) ∙ rw miss p
  Located-later fuel e prev (some hit) lt l miss (hits, hl, inl (at, before)) = (
    hits,
    hl,
    inr (
      e,
      before,
      record { passed = Passed.here e e refl; miss = miss; is_link = l; next = sym at },
    ),
  )
  Located-later fuel e prev (some hit) lt l miss (hits, hl, inr (p, before, i)) = (
    hits,
    hl,
    inr (
      p,
      before,
      record {
        passed =
            Passed.there e p l.sized (Passed-le b name len (e + entry_rec_len b e) p i.passed)
              l.roomy miss i.passed;
        miss = i.miss;
        is_link = i.is_link;
        next = i.next;
      },
    ),
  )

  locate_step :
      (fuel e : ℕ) (prev : Option ℕ)
      → IsLink b e
      → Located fuel
          (e + entry_rec_len b e)
          (some e)
          (locate fuel b (e + entry_rec_len b e) (some e) name len)
      → Located (suc fuel) e prev (locate (suc fuel) b e prev name len)
  unfolding locate
  locate_step fuel e prev l later = elim (Bool-cases (entry_matches b e name len)) [
    | inl hit ↦ rw (inside, sized, hit) (hit, l, inl (refl, refl))
    | inr miss ↦
        rw (inside, sized, miss)
          (Located-later fuel e prev _ (omega (arith, l.sized, l.within)) l miss later)
  ]
    where
      inside : leb block_size e ≡ false
      inside = ground (arith, l.sized, l.within)

      sized : (entry_rec_len b e == 0) ≡ false
      sized = ground (arith, l.sized)

  -- In a chain of records, `delete` finds nothing only if a lookup of the name finds nothing; the
  -- entry that it finds bears the name, and the one in front of it is the last of those passed,
  -- none of which bears the name.
  pub locate_lem :
      (fuel e : ℕ) (prev : Option ℕ)
      → IsChain b e
      → Located fuel e prev (locate fuel b e prev name len)
  locate_lem fuel e prev (IsChain.end _ p) = locate_end fuel e prev (omega arith)
  locate_lem zero e prev (IsChain.link _ h within roomy rest) = unfold locate search_block in refl
  locate_lem (suc fuel) e prev (IsChain.link _ h within roomy rest) =
      locate_step fuel e prev (record { sized = h; within = within; roomy = roomy; more = rest })
        (locate_lem fuel (e + entry_rec_len b e) (some e) rest)
