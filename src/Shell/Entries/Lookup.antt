-- ===== src/Shell/Entries/Lookup.antt =====
-- The walk of src/commands/rm.c finds what the kernel's search finds in the directory's block.
use mathlib.Core.Option
use loss_os.Prelude.{
  ap, ℕ, zero, suc, ◌+◌, ◌≤◌, ◌<◌, ◌≡◌, ◌≢◌, refl, sym, ◌∙◌, inl, inr, Bytes, zeroes, true, false,
  [], ◌∷◌, length, as_bytes, arith, Option, none, some, Bool-cases, ℕ_discrete, peek16, peek32,
  ne→==, lt→leb, le→leb,
}
use loss_os.Ext2.Layout.{
  block_size, directory_entry_size, entry_inode, entry_rec_len, entry_name_len,
}
use loss_os.Ext2.Directory.{entry_matches, search_block}
use loss_os.Ext2.Directory.Chain.{
  IsChain, end, link, lookup, SameEntry, SameEntry-of_eq, entry_rec_len-of_eq,
  entry_matches-SameEntry,
}
use loss_os.Ext2.Read.{copy_into}
use loss_os.Shell.{Str, Session, read_dot, directory_buffer_size}
use loss_os.Shell.Walks.{entries-Ended}
use loss_os.Shell.Entries.{entries, offsets, named_inode, bears, get_inode_by_name}

-- A found entry's inode, and 0 for none.
abbrev pub inode_of : Option (ℕ × ℕ) → ℕ
inode_of none = 0
inode_of (some (inode, file_type)) = inode

-- A buffer of zeroes with the block at its start.
abbrev pub in_buffer : Bytes → Bytes
in_buffer b = copy_into zeroes 0 b block_size

in_buffer-within : (b : Bytes) (i : ℕ) → i < block_size → in_buffer b i ≡ b i
unfolding copy_into
in_buffer-within b i h = ground arith

behind_block :
    (b : Bytes)
    → (entry_inode (in_buffer b) block_size ≡ 0) × (entry_rec_len (in_buffer b) block_size ≡ 0)
unfolding copy_into peek16 peek32
behind_block b = (refl, refl)

bears-entry_matches :
    (b : Bytes) (name : Str) (e : ℕ)
    → entry_inode b e ≢ 0
    → bears b name e ≡ entry_matches b e (as_bytes name) (length name)
unfolding bears entry_matches
bears-entry_matches b name e used = elim (ℕ_discrete (entry_name_len b e) (length name)) [
  | yes p ↦ rw (p, ne→== (entry_inode b e) 0 used) refl
  | no ne ↦ rw (ne→== (entry_name_len b e) (length name) ne, ne→== (entry_inode b e) 0 used) refl
]

module _ (c : Bytes) (fuel e : ℕ) (inside : e < directory_buffer_size) where
  entries-skip :
      entry_inode c e ≡ 0
      → entry_rec_len c e ≢ 0
      → entries (suc fuel) c e ≡ entries fuel c (e + entry_rec_len c e)
  unfolding entries
  entries-skip free some_len = ground arith

  entries-stop : entry_inode c e ≡ 0 → entry_rec_len c e ≡ 0 → entries (suc fuel) c e ≡ some []
  unfolding entries
  entries-stop free no_len = ground arith

  entries-visit :
      entry_inode c e ≢ 0
      → e + entry_rec_len c e ≤ directory_buffer_size
      → directory_entry_size + entry_name_len c e ≤ entry_rec_len c e
      → entries (suc fuel) c e
        ≡ Option.map (λ offs. e ∷ offs) (entries fuel c (e + entry_rec_len c e))
  unfolding entries
  entries-visit used within room = ground arith

module _ (b : Bytes) (fuel e : ℕ) (name : Bytes) (len : ℕ) where
  lookup-hit :
      e < block_size
      → entry_matches b e name len ≡ true
      → inode_of (lookup (suc fuel) b e name len) ≡ entry_inode b e
  unfolding search_block
  lookup-hit inside hit = rw (hit, lt→leb block_size e inside) refl

  lookup-miss :
      e < block_size
      → entry_matches b e name len ≡ false
      → entry_rec_len b e ≢ 0
      → lookup (suc fuel) b e name len ≡ lookup fuel b (e + entry_rec_len b e) name len
  unfolding search_block
  lookup-miss inside miss some_len =
      rw (miss, lt→leb block_size e inside, ne→== (entry_rec_len b e) 0 some_len) refl

  lookup-end : block_size ≤ e → inode_of (lookup (suc fuel) b e name len) ≡ 0
  unfolding search_block
  lookup-end outside = rw (le→leb block_size e outside) refl

free-miss :
    (b : Bytes) (e : ℕ) (name : Bytes) (len : ℕ)
    → entry_inode b e ≡ 0
    → entry_matches b e name len ≡ false
unfolding entry_matches
free-miss b e name len free = rw free refl

module _ (b : Bytes) (name : Str) where
  named_at : ℕ → ℕ → ℕ
  named_at fuel e = named_inode (in_buffer b) name (offsets (entries fuel (in_buffer b) e))

  looked_up : ℕ → ℕ → ℕ
  looked_up fuel e = inode_of (lookup fuel b e (as_bytes name) (length name))

  visit :
      (fuel e : ℕ)
      → directory_buffer_size < e + suc fuel
      → e < block_size
      → e + entry_rec_len b e ≤ block_size
      → directory_entry_size ≤ entry_rec_len b e
      → directory_entry_size + entry_name_len b e ≤ entry_rec_len b e
      → entry_inode b e ≢ 0
      → SameEntry b (in_buffer b) e
      → entry_rec_len (in_buffer b) e ≡ entry_rec_len b e
      → named_at fuel (e + entry_rec_len b e) ≡ looked_up fuel (e + entry_rec_len b e)
      → named_at (suc fuel) e ≡ looked_up (suc fuel) e
  unfolding named_at looked_up named_inode
  visit fuel e rounds inside within least room used same same_len ih =
      let c = in_buffer b in
      let used_c : entry_inode c e ≢ 0 = λ z. used (sym same.same_inode ∙ z) in
      let test =
        bears-entry_matches c name e used_c
        ∙ entry_matches-SameEntry b c e (as_bytes name) (length name) same in
      let next = e + entry_rec_len c e in
      let (rest, tail) = entries-Ended c fuel next (omega (arith, same_len)) in
      let listed =
        entries-visit c fuel e (omega arith) used_c (omega (arith, same_len))
          (omega (arith, same_len, same.same_name_len))
        ∙ ap (Option.map (λ offs. e ∷ offs)) tail in
      let later : named_inode c name rest ≡ looked_up fuel (e + entry_rec_len b e) =
        ap (λ o. named_inode c name (offsets o)) (sym tail)
        ∙ ap (λ len. named_at fuel (e + len)) same_len
        ∙ ih in
      elim (Bool-cases (entry_matches b e (as_bytes name) (length name))) [
        | inl hit ↦
            rw (listed, test, hit, lookup-hit b fuel e (as_bytes name) (length name) inside hit)
              same.same_inode
        | inr miss ↦
            rw
              (
                listed,
                test,
                miss,
                lookup-miss b fuel e (as_bytes name) (length name) inside miss
                    (λ z. absurd (omega arith)),
              )
              later
      ]

  pass_over :
      (fuel e : ℕ)
      → e < block_size
      → directory_entry_size ≤ entry_rec_len b e
      → entry_inode b e ≡ 0
      → SameEntry b (in_buffer b) e
      → entry_rec_len (in_buffer b) e ≡ entry_rec_len b e
      → named_at fuel (e + entry_rec_len b e) ≡ looked_up fuel (e + entry_rec_len b e)
      → named_at (suc fuel) e ≡ looked_up (suc fuel) e
  unfolding named_at looked_up
  pass_over fuel e inside least free same same_len ih =
      rw
        (
          entries-skip (in_buffer b) fuel e (omega arith) (same.same_inode ∙ free)
              (λ z. absurd (omega (arith, same_len))),
          lookup-miss b fuel e (as_bytes name) (length name) inside
              (free-miss b e (as_bytes name) (length name) free) (λ z. absurd (omega arith)),
          same_len,
        )
        ih

  named-lookup :
      (fuel e : ℕ)
      → directory_buffer_size < e + fuel
      → IsChain b e
      → named_at fuel e ≡ looked_up fuel e
  unfolding named_at looked_up named_inode
  named-lookup zero e room (end _ p) = absurd (omega arith)
  named-lookup zero e room (link _ least within roomy rest) = absurd (omega arith)
  named-lookup (suc fuel) e room (end _ p) = rw p (
      rw
        (
          entries-stop (in_buffer b) fuel block_size (omega arith) (behind_block b).0
              (behind_block b).1,
          lookup-end b fuel block_size (as_bytes name) (length name) (omega arith),
        )
        refl)
  named-lookup (suc fuel) e room (link _ least within roomy rest) =
      let c = in_buffer b in
      let agree : (i : ℕ) → e ≤ i → i < e + entry_rec_len b e → c i ≡ b i =
        λ i h1 h2. in_buffer-within b i (omega arith) in
      let same = SameEntry-of_eq b c e least roomy agree in
      let same_len = entry_rec_len-of_eq b c e least agree in
      let ih = named-lookup fuel (e + entry_rec_len b e) (omega arith) rest in
      elim (ℕ_discrete (entry_inode b e) 0) [
        | yes free ↦ pass_over fuel e (omega arith) least free same same_len ih
        | no used ↦ elim roomy [
          | inl free ↦ absurd (used free)
          | inr fits ↦ visit fuel e room (omega arith) within least fits.1 used same same_len ih
        ]
      ]

-- Where a directory's first block is a chain of records and the system call reads it, `rm`, `cp`
-- and `mv` find for every name the inode that the kernel's search finds in the block, or 0 for
-- none.
pub get_inode_by_name-lookup :
    (s : Session) (parent_inode : ℕ) (name : Str) (b : Bytes)
    → read_dot s s.junk zeroes parent_inode ≡ (0, in_buffer b)
    → IsChain b 0
    → get_inode_by_name s parent_inode name
      ≡ inode_of (lookup (directory_buffer_size + 1) b 0 (as_bytes name) (length name))
unfolding get_inode_by_name named_at looked_up
get_inode_by_name-lookup s parent_inode name b reads chain =
    rw reads (named-lookup b name (directory_buffer_size + 1) 0 (omega arith) chain)
