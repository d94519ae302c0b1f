-- ===== src/Paging/Grants.antt =====
-- What a user gets from `paging_allocate_user_page_frame` of src/memory/paging.c, and what
-- `paging_free_user_page_frame` gives back.
use loss_os.Prelude.{
  ℕ, zero, suc, ◌-◌, ◌*◌, ◌^◌, ◌≤◌, ◌<◌, ◌≡◌, ◌≢◌, ◌⊎◌, refl, subst, Bool, true, false, ◌||◌, inl,
  inr, update, ◌==◌, arith, Bool-cases, Option-cases, eq→==,
}
use loss_os.Paging.{
  Paging, page_frame_max_count, page_frame_size, page_index, flag_bits, find_frame,
  update_page_directory_entry, paging_allocate_user_page_frame, paging_free_user_page_frame,
}
use loss_os.Paging.Frames.{
  count_free, AllTaken, Sought, find_frame_lem, count_free-update, count_free-AllTaken,
  count_zero-AllTaken,
}

-- The counter is the number of free frames; frame 0 is the kernel's.
pub record IsCounted (p : Paging) : Type 0 where
  pub kernel_frame : p.page_frame_map 0 ≡ true
  pub counted : p.free_page_frame_count ≡ count_free p.page_frame_map (page_frame_max_count - 1)

-- The entry of an address after frame `i` has been mapped there.
pub record IsMapped (p : Paging) (dir virtual_addr i : ℕ) : Type 0 where
  pub frame : (p.page_directory_list dir (page_index virtual_addr)).lower_address ≡ i
  pub flags : (p.page_directory_list dir (page_index virtual_addr)).flag ≡ flag_bits true true

-- Entry `index` of directory `d` is another one than that of the address.
abbrev pub Elsewhere : ℕ → ℕ → ℕ → ℕ → Type 0
Elsewhere dir virtual_addr d index = (dir ≢ d) ⊎ (page_index virtual_addr ≢ index)

-- What the answer of an allocation promises.
abbrev pub Granted : Paging → ℕ → ℕ → Bool × Paging → Type 0
Granted p dir virtual_addr (false, q) = AllTaken p.page_frame_map 0 page_frame_max_count × (q ≡ p)
Granted p dir virtual_addr (true, q) =
    (i : ℕ) × (i < page_frame_max_count)
    × (p.page_frame_map i ≡ false)
    × AllTaken p.page_frame_map 0 i
    × ((j : ℕ) → q.page_frame_map j ≡ (i == j) || p.page_frame_map j)
    × IsMapped q dir virtual_addr i
    × ((d index : ℕ)
        → Elsewhere dir virtual_addr d index
        → q.page_directory_list d index ≡ p.page_directory_list d index)
    × IsCounted q

with_zero :
    (frames : ℕ → Bool) (hi : ℕ) → frames 0 ≡ true → AllTaken frames 1 hi → AllTaken frames 0 hi
with_zero frames hi e h zero h1 h2 = e
with_zero frames hi e h (suc j) h1 h2 = h (suc j) (omega arith) h2

module _ (p : Paging) (dir virtual_addr i : ℕ) (c : IsCounted p) (lo : 1 ≤ i)
    (hi : i < page_frame_max_count) (free : p.page_frame_map i ≡ false) where
  abbrev marked : Paging
  marked = record p { page_frame_map = update p.page_frame_map i true }

  abbrev mapped : Paging
  mapped =
      update_page_directory_entry marked dir (page_frame_size * i) virtual_addr
        (flag_bits true true)

  abbrev granted : Paging
  granted = record mapped { free_page_frame_count = mapped.free_page_frame_count - 1 }

  granted-IsMapped : IsMapped granted dir virtual_addr i
  unfolding update_page_directory_entry
  granted-IsMapped = record {
    frame =
        rw (eq→== dir dir refl, eq→== (page_index virtual_addr) (page_index virtual_addr) refl)
          (omega arith);
    flags =
        rw (eq→== dir dir refl, eq→== (page_index virtual_addr) (page_index virtual_addr) refl)
          refl;
  }

  granted-Elsewhere :
      (d index : ℕ)
      → Elsewhere dir virtual_addr d index
      → granted.page_directory_list d index ≡ p.page_directory_list d index
  unfolding update_page_directory_entry
  granted-Elsewhere d index h = ground arith

  granted-IsCounted : IsCounted granted
  unfolding update_page_directory_entry
  granted-IsCounted = record {
    kernel_frame = ground (arith, c.kernel_frame);
    counted = omega (
      arith,
      c.counted,
      count_free-update p.page_frame_map i (page_frame_max_count - 1) lo (omega arith) free,
    );
  }

  granted_frames : (j : ℕ) → granted.page_frame_map j ≡ (i == j) || p.page_frame_map j
  unfolding update_page_directory_entry
  granted_frames j = ground arith

-- With the counter right, an allocation fails only if all frames are in use, and then changes
-- nothing; otherwise it takes the first free frame, maps it at the address and nowhere else, and
-- the counter is right again.
pub paging_allocate_user_page_frame_lem :
    (p : Paging) (dir virtual_addr : ℕ)
    → IsCounted p
    → Granted p dir virtual_addr (paging_allocate_user_page_frame p dir virtual_addr)
unfolding paging_allocate_user_page_frame
paging_allocate_user_page_frame_lem p dir virtual_addr c =
    elim (Bool-cases (p.free_page_frame_count == 0)) [
      | inl zero_left ↦ rw zero_left (
        with_zero p.page_frame_map 32 c.kernel_frame
            (count_zero-AllTaken p.page_frame_map 31 (ground (arith, c.counted))),
        refl,
      )
      | inr some_left ↦ elim (Option-cases (find_frame 31 1 p.page_frame_map)) [
        | inl nothing ↦ absurd (
            ground (
              arith,
              c.counted,
              count_free-AllTaken p.page_frame_map 31 (
                  subst (Sought p.page_frame_map 1 32) nothing
                    (find_frame_lem p.page_frame_map 31 1 32 refl)),
            ))
        | inr (i, hit) ↦
            let found =
              subst (Sought p.page_frame_map 1 32) hit
                (find_frame_lem p.page_frame_map 31 1 32 refl) in
            rw (some_left, hit)
              (
                i,
                found.1,
                found.2,
                with_zero p.page_frame_map i c.kernel_frame found.3,
                granted_frames p dir virtual_addr i c found.0 found.1 found.2,
                granted-IsMapped p dir virtual_addr i c found.0 found.1 found.2,
                granted-Elsewhere p dir virtual_addr i c found.0 found.1 found.2,
                granted-IsCounted p dir virtual_addr i c found.0 found.1 found.2,
              )
      ]
    ]

-- A release does not return the frame: whatever address of ten bits an entry holds, after the
-- release the same frames are in use and the counter is the same.
pub paging_free_user_page_frame_leaks :
    (p : Paging) (dir virtual_addr j : ℕ)
    → (p.page_directory_list dir (page_index virtual_addr)).lower_address < 2 ^ 10
    → j < page_frame_max_count
    → ((paging_free_user_page_frame p dir virtual_addr).1.page_frame_map j ≡ p.page_frame_map j)
      × ((paging_free_user_page_frame p dir virtual_addr).1.free_page_frame_count
          ≡ p.free_page_frame_count)
unfolding paging_free_user_page_frame
paging_free_user_page_frame_leaks p dir virtual_addr j h lt = ground arith
