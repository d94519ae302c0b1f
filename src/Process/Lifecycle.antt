-- ===== src/Process/Lifecycle.antt =====
-- Creation and destruction of processes in src/process/process.c.
use loss_os.Prelude.{
  ℕ, zero, suc, ◌+◌, ◌≤◌, ◌<◌, ◌≡◌, ◌≢◌, refl, subst, Bool, true, false, inl, inr, ◌⊎◌, update,
  if◌then◌else◌, arith, Bool-cases, ℕ_discrete, eq→==, ne→==,
}
use loss_os.Process.{
  ProcessTable, Machine, process_count_max, inactive_from, process_list_get_inactive_index,
  process_destroy, blank_pcb,
}

-- The number of active slots below `n`.
unfoldable pub count_active : (ℕ → Bool) → ℕ → ℕ
count_active active zero = 0
count_active active (suc n) = (if active n then 1 else 0) + count_active active n

-- The counter is the number of active slots.
abbrev pub IsCounted : ProcessTable → Type 0
IsCounted t = t.active_process_count ≡ count_active t.is_process_active process_count_max

pub count_active-le : (active : ℕ → Bool) (n : ℕ) → count_active active n ≤ n
unfolding count_active
count_active-le active zero = omega arith
count_active-le active (suc n) = ground (arith, count_active-le active n)

count_above :
    (active : ℕ → Bool) (i n : ℕ) (v : Bool)
    → n ≤ i
    → count_active (update active i v) n ≡ count_active active n
unfolding count_active
count_above active i zero v h = refl
count_above active i (suc n) v h = ground (arith, count_above active i n v (omega arith))

-- Turning a slot on or off moves the count by one.
count_active-on :
    (active : ℕ → Bool) (i n : ℕ)
    → i < n
    → active i ≡ false
    → count_active (update active i true) n ≡ count_active active n + 1
unfolding count_active
count_active-on active i zero h e = absurd (omega arith)
count_active-on active i (suc n) h e = elim (ℕ_discrete i n) [
  | yes p ↦
      ground (arith, count_above active i n true (omega arith), subst (λ k. active k ≡ false) p e)
  | no ne ↦ ground (arith, count_active-on active i n (omega arith) e)
]

count_active-off :
    (active : ℕ → Bool) (i n : ℕ)
    → i < n
    → active i ≡ true
    → count_active (update active i false) n + 1 ≡ count_active active n
unfolding count_active
count_active-off active i zero h e = absurd (omega arith)
count_active-off active i (suc n) h e = elim (ℕ_discrete i n) [
  | yes p ↦
      ground (arith, count_above active i n false (omega arith), subst (λ k. active k ≡ true) p e)
  | no ne ↦ ground (arith, count_active-off active i n (omega arith) e)
]

-- With fewer active slots than slots, one is inactive, and the search finds the first.
abbrev Vacant : (ℕ → Bool) → ℕ → ℕ → Type 0
Vacant active lo i =
    (lo ≤ i)
    × (i < process_count_max)
    × (active i ≡ false)
    × ((j : ℕ) → lo ≤ j → j < i → active j ≡ true)

count_full :
    (active : ℕ → Bool) (n : ℕ) → ((j : ℕ) → j < n → active j ≡ true) → count_active active n ≡ n
unfolding count_active
count_full active zero h = refl
count_full active (suc n) h =
    ground (arith, h n (omega arith), count_full active n (λ j lt. h j (omega arith)))

inactive_step :
    (active : ℕ → Bool) (rounds lo : ℕ)
    → lo < process_count_max
    → (Vacant active (lo + 1) (inactive_from rounds (lo + 1) active)
        ⊎ ((j : ℕ) → lo + 1 ≤ j → j < process_count_max → active j ≡ true))
    → Vacant active lo (inactive_from (suc rounds) lo active)
      ⊎ ((j : ℕ) → lo ≤ j → j < process_count_max → active j ≡ true)
unfolding inactive_from
inactive_step active rounds lo lt rest = elim (Bool-cases (active lo)) [
  | inr off ↦ rw off (inl (omega arith, lt, off, λ j h1 h2. absurd (omega arith)))
  | inl on ↦ elim rest [
    | inl (h1, h2, h3, h4) ↦ rw on (inl (omega arith, h2, h3, from on h4))
    | inr full ↦ inr (from on full)
  ]
]
  where
    from :
        {hi : ℕ}
        → active lo ≡ true
        → ((j : ℕ) → lo + 1 ≤ j → j < hi → active j ≡ true)
        → (j : ℕ) → lo ≤ j
        → j < hi
        → active j ≡ true
    from on h j h1 h2 = elim (ℕ_discrete lo j) [
      | yes e ↦ subst (λ k. active k ≡ true) e on
      | no ne ↦ h j (omega arith) h2
    ]

inactive_from-Vacant :
    (active : ℕ → Bool) (rounds lo : ℕ)
    → lo + rounds ≡ process_count_max
    → Vacant active lo (inactive_from rounds lo active)
      ⊎ ((j : ℕ) → lo ≤ j → j < process_count_max → active j ≡ true)
inactive_from-Vacant active zero lo e = inr (λ j h1 h2. absurd (omega arith))
inactive_from-Vacant active (suc rounds) lo e =
    inactive_step active rounds lo (omega arith)
      (inactive_from-Vacant active rounds (lo + 1) (omega arith))

-- With the counter right and below the number of slots, the slot that is handed out lies in the
-- table, was inactive and is the first such; it is active afterwards, and the counter is right
-- again.
pub process_list_get_inactive_index_lem :
    (t : ProcessTable)
    → IsCounted t
    → t.active_process_count < process_count_max
    → ((process_list_get_inactive_index t).0 < process_count_max)
      × (t.is_process_active (process_list_get_inactive_index t).0 ≡ false)
      × ((j : ℕ) → j < (process_list_get_inactive_index t).0 → t.is_process_active j ≡ true)
      × ((process_list_get_inactive_index t).1.is_process_active
            (process_list_get_inactive_index t).0
          ≡ true)
      × IsCounted (process_list_get_inactive_index t).1
unfolding process_list_get_inactive_index
process_list_get_inactive_index_lem t c lt =
    elim (inactive_from-Vacant t.is_process_active 16 0 refl) [
      | inr full ↦
          absurd
            (omega (arith, c, count_full t.is_process_active 16 (λ j h. full j (omega arith) h)))
      | inl (h1, h2, h3, h4) ↦ (
        h2,
        h3,
        λ j h. h4 j (omega arith) h,
        rw (eq→== at at refl) refl,
        omega (
          arith,
          c,
          count_active-on t.is_process_active at 16 h2 h3,
          count_active-le t.is_process_active 16,
        ),
      )
    ]
  where
    at : ℕ
    at = inactive_from 16 0 t.is_process_active

-- With the counter right, destroying an active process of the table frees its slot, blanks its
-- block, keeps the counter right and leaves the other processes as they were; for an inactive one
-- nothing changes.
pub process_destroy_lem :
    (m : Machine) (pid : ℕ)
    → pid < process_count_max
    → IsCounted m.table
    → (((m.table).is_process_active pid ≡ false) × (process_destroy m pid ≡ (false, m)))
      ⊎ (((process_destroy m pid).0 ≡ true)
          × ((process_destroy m pid).1.table.is_process_active pid ≡ false)
          × ((process_destroy m pid).1.table.process_list pid ≡ blank_pcb)
          × IsCounted (process_destroy m pid).1.table
          × ((j : ℕ)
              → pid ≢ j
              → ((process_destroy m pid).1.table.is_process_active j
                  ≡ (m.table).is_process_active j)
                × ((process_destroy m pid).1.table.process_list j ≡ (m.table).process_list j)))
unfolding process_destroy
process_destroy_lem m pid lt c = elim (Bool-cases ((m.table).is_process_active pid)) [
  | inr off ↦ rw off (inl (refl, refl))
  | inl on ↦ rw on (
      inr (
        refl,
        rw (eq→== pid pid refl) refl,
        rw (eq→== pid pid refl) refl,
        omega (
          arith,
          c,
          count_active-off (m.table).is_process_active pid 16 lt on,
          count_active-le (m.table).is_process_active 16,
        ),
        λ j ne. (rw (ne→== pid j ne) refl, rw (ne→== pid j ne) refl),
      ))
]
