-- ===== src/Paging/Directories.antt =====
-- The page directories of src/memory/paging.c: creation and release.
use loss_os.Prelude.{
  ℕ, zero, suc, ◌+◌, ◌≤◌, ◌<◌, ◌≡◌, ◌≢◌, refl, subst, ◌∙◌, true, false, Option, none, some, inl,
  inr, update, leb, arith, Bool-cases, ℕ_discrete, eq→==, ne→==,
}
use loss_os.Paging.{
  Paging, PageDirectoryEntry, paging_directory_table_max_count, page_entry_count, kernel_entry,
  create_from, paging_create_new_page_directory, clear_flags, clear_entries,
  paging_free_page_directory,
}

-- What a creation from directory `lo` on answers.
abbrev pub Created : Paging → ℕ → Option (ℕ × Paging) → Type 0
Created p lo none =
    (d : ℕ) → lo ≤ d → d < paging_directory_table_max_count → p.page_directory_used d ≡ true
Created p lo (some (i, q)) =
    (lo ≤ i)
    × (i < paging_directory_table_max_count)
    × (p.page_directory_used i ≡ false)
    × ((d : ℕ) → lo ≤ d → d < i → p.page_directory_used d ≡ true)
    × (q.page_directory_used i ≡ true)
    × (q.page_directory_list i 0x300 ≡ kernel_entry)
    × ((d : ℕ)
        → i ≢ d
        → (q.page_directory_used d ≡ p.page_directory_used d)
          × (q.page_directory_list d ≡ p.page_directory_list d))

Created-next :
    (p : Paging) (lo : ℕ) (r : Option (ℕ × Paging))
    → p.page_directory_used lo ≡ true
    → Created p (lo + 1) r
    → Created p lo r
Created-next p lo none e h = λ d h1 h2. elim (ℕ_discrete lo d) [
  | yes q ↦ subst (λ k. p.page_directory_used k ≡ true) q e
  | no ne ↦ h d (omega arith) h2
]
Created-next p lo (some (i, q)) e (h1, h2, h3, h4, h5, h6, h7) = (
  omega arith,
  h2,
  h3,
  λ d k1 k2. elim (ℕ_discrete lo d) [
    | yes q ↦ subst (λ k. p.page_directory_used k ≡ true) q e
    | no ne ↦ h4 d (omega arith) k2
  ],
  h5,
  h6,
  h7,
)

create_step :
    (p : Paging) (rounds lo : ℕ)
    → lo < paging_directory_table_max_count
    → Created p (lo + 1) (create_from rounds (lo + 1) p)
    → Created p lo (create_from (suc rounds) lo p)
unfolding create_from
create_step p rounds lo lt rest = elim (Bool-cases (p.page_directory_used lo)) [
  | inl used ↦ rw used (Created-next p lo _ used rest)
  | inr free ↦ rw free (
    omega arith,
    lt,
    free,
    λ d h1 h2. absurd (omega arith),
    rw (eq→== lo lo refl) refl,
    rw (eq→== lo lo refl) refl,
    λ d ne. (rw (ne→== lo d ne) refl, rw (ne→== lo d ne) refl),
  )
]

create_from-Created :
    (p : Paging) (rounds lo : ℕ)
    → lo + rounds ≡ paging_directory_table_max_count
    → Created p lo (create_from rounds lo p)
create_from-Created p zero lo e = unfold create_from in λ d h1 h2. absurd (omega arith)
create_from-Created p (suc rounds) lo e =
    create_step p rounds lo (omega arith) (create_from-Created p rounds (lo + 1) (omega arith))

-- A creation takes the first directory that is not used, maps the kernel in it and leaves all
-- others as they were; it answers NULL only if all are used.
pub paging_create_new_page_directory_lem :
    (p : Paging) → Created p 0 (paging_create_new_page_directory p)
unfolding paging_create_new_page_directory
paging_create_new_page_directory_lem p =
    create_from-Created p paging_directory_table_max_count 0 refl

clear_entries_outside :
    (rounds j : ℕ) (table : ℕ → PageDirectoryEntry) (k : ℕ)
    → k < j
    → clear_entries rounds j table k ≡ table k
unfolding clear_entries
clear_entries_outside zero j table k h = refl
clear_entries_outside (suc rounds) j table k h =
    clear_entries_outside rounds (j + 1) (update table j (clear_flags (table j))) k (omega arith)
    ∙ rw (ne→== j k (omega arith)) refl

clear_entries_lem :
    (rounds j : ℕ) (table : ℕ → PageDirectoryEntry) (k : ℕ)
    → j ≤ k
    → k < j + rounds
    → clear_entries rounds j table k ≡ clear_flags (table k)
unfolding clear_entries
clear_entries_lem zero j table k h1 h2 = absurd (omega arith)
clear_entries_lem (suc rounds) j table k h1 h2 = elim (ℕ_discrete j k) [
  | yes e ↦
      subst
        (λ k.
          clear_entries rounds (j + 1) (update table j (clear_flags (table j))) k
          ≡ clear_flags (table k))
        e
        (clear_entries_outside rounds (j + 1) (update table j (clear_flags (table j))) j
            (omega arith)
          ∙ rw (eq→== j j refl) refl)
  | no ne ↦
      clear_entries_lem rounds (j + 1) (update table j (clear_flags (table j))) k (omega arith)
        (omega arith)
      ∙ rw (ne→== j k ne) refl
]

-- A release of a directory of the list makes it free to be created again, unmaps all its entries
-- and leaves the other directories as they were.
pub paging_free_page_directory_lem :
    (p : Paging) (dir : ℕ)
    → dir < paging_directory_table_max_count
    → ((paging_free_page_directory p dir).0 ≡ true)
      × ((paging_free_page_directory p dir).1.page_directory_used dir ≡ false)
      × ((k : ℕ)
          → k < page_entry_count
          → (((paging_free_page_directory p dir).1.page_directory_list dir k).flag).present_bit
            ≡ false)
      × ((d : ℕ)
          → dir ≢ d
          → ((paging_free_page_directory p dir).1.page_directory_used d ≡ p.page_directory_used d)
            × ((paging_free_page_directory p dir).1.page_directory_list d
                ≡ p.page_directory_list d))
unfolding paging_free_page_directory
paging_free_page_directory_lem p dir h = rw inside (
  refl,
  rw (eq→== dir dir refl) refl,
  λ k lt.
      rw
        (
          eq→== dir dir refl,
          clear_entries_lem page_entry_count 0 (p.page_directory_list dir) k (omega arith) lt,
        )
        refl,
  λ d ne. (rw (ne→== dir d ne) refl, rw (ne→== dir d ne) refl),
)
  where
    inside : leb paging_directory_table_max_count dir ≡ false
    inside = ground arith
