-- ===== src/Ext2/Write/Placed.antt =====
-- The search of `write` in src/filesystem/ext2.c for room in all blocks of a directory.
use loss_os.Prelude.{
  ℕ, zero, suc, ◌+◌, ◌≤◌, ◌<◌, ◌≡◌, refl, ◌∙◌, subst, arith, Bytes, none, some, false, ◌==◌, dec_lt,
}
use loss_os.Ext2.Layout.{block_size}
use loss_os.Ext2.Device.{Fs, read_blocks}
use loss_os.Ext2.Directory.{search_blocks}
use loss_os.Ext2.Directory.Chain.{lookup}
use loss_os.Ext2.Directory.Blocks.{IsDirectory, search_blocks_later, search_blocks_here}
use loss_os.Ext2.Write.{Room, duplicate, hole, full, scan_room, Place, find_room}
use loss_os.Ext2.Write.Scan.{Scanned, scan_room_lem}

module _ (s : Fs) (pointers : ℕ → ℕ) (name : Bytes) (len need : ℕ) where
  abbrev block_at : ℕ → Bytes
  block_at k = read_blocks s (pointers k)

  -- Block `index` of the directory, `block`, has room behind its entry at `off`, and no entry in a
  -- block from `bi` on or in this one, up to `off`, bears the name.
  pub record HasRoom (bi block off : ℕ) : Type 0 where
    pub index : ℕ
    pub later : bi ≤ index
    pub at : pointers index ≡ block
    pub earlier :
        (k : ℕ)
        → bi ≤ k
        → k < index
        → lookup block_size (read_blocks s (pointers k)) 0 name len ≡ none
    pub scanned : Scanned (read_blocks s block) name len need block_size 0 (Room.hole off)

  -- What the search over the blocks says.
  abbrev pub Placed : ℕ → ℕ → Place → Type 0
  Placed rounds bi Place.exists_already =
      (found : ℕ × ℕ) × (search_blocks rounds bi s pointers name len ≡ some found)
  Placed rounds bi (Place.in_block block off) = HasRoom bi block off
  Placed rounds bi Place.no_room = search_blocks rounds bi s pointers name len ≡ none

  Placed-later :
      (rounds bi : ℕ) (place : Place)
      → (pointers bi == 0) ≡ false
      → lookup block_size (block_at bi) 0 name len ≡ none
      → Placed rounds (bi + 1) place
      → Placed (suc rounds) bi place
  Placed-later rounds bi Place.exists_already nz miss (found, p) =
      (found, search_blocks_later rounds bi s pointers name len nz miss ∙ p)
  Placed-later rounds bi (Place.in_block block off) nz miss r = record {
    index = r.index;
    later = omega (arith, r.later);
    at = r.at;
    earlier = λ k h lt. elim (dec_lt bi k) [
      | yes p ↦ r.earlier k (omega arith) lt
      | no p ↦
          let same : bi ≡ k = omega arith in
          subst (λ j. lookup block_size (block_at j) 0 name len ≡ none) same miss
    ];
    scanned = r.scanned;
  }
  Placed-later rounds bi Place.no_room nz miss p =
      search_blocks_later rounds bi s pointers name len nz miss ∙ p

  Placed-step :
      (rounds bi : ℕ) (room : Room) (rest : Place)
      → (pointers bi == 0) ≡ false
      → Scanned (block_at bi) name len need block_size 0 room
      → Placed rounds (bi + 1) rest
      → Placed (suc rounds) bi (elim room [
        | duplicate ↦ Place.exists_already
        | hole off ↦ Place.in_block (pointers bi) off
        | full ↦ rest
      ])
  Placed-step rounds bi Room.duplicate rest nz (found, hit) later =
      (found, search_blocks_here rounds bi s pointers name len found nz hit)
  Placed-step rounds bi (Room.hole off) rest nz scanned later = record {
    index = bi;
    later = omega arith;
    at = refl;
    earlier = λ k h lt. absurd (omega arith);
    scanned = scanned;
  }
  Placed-step rounds bi Room.full rest nz miss later = Placed-later rounds bi rest nz miss later

  -- In a directory whose blocks are chains of records, the search answers a duplicate only where
  -- the file system's search finds the name, no room only where that does not, and else a hole.
  pub find_room_lem :
      (rounds bi count : ℕ)
      → bi + rounds ≡ count
      → IsDirectory s pointers count
      → Placed rounds bi (find_room rounds bi s pointers name len need)
  unfolding find_room
  find_room_lem zero bi count h d = unfold search_blocks in refl
  find_room_lem (suc rounds) bi count h d =
      let nz : (pointers bi == 0) ≡ false = d.nonzero bi (omega arith) in
      rw nz (
        Placed-step rounds bi (scan_room block_size (block_at bi) 0 name len need) _ nz
          (scan_room_lem (block_at bi) name len need block_size 0 (d.chain bi (omega arith)))
          (find_room_lem rounds (bi + 1) count (omega arith) d))
