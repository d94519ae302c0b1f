-- ===== src/Process/Creation.antt =====
-- The branches of `process_create_user_process` in src/process/process.c.
use loss_os.Prelude.{
  ℕ, ◌+◌, ◌<◌, ◌≡◌, ◌≢◌, refl, Bytes, Bool, true, false, not, ◌||◌, Option, inl, inr, ◌∙◌, ap, u32,
  ltb, leb, arith, Bool-cases, eq→==, ne→==,
}
use loss_os.Text.{is_zero}
use loss_os.Ext2.Layout.{DriverRequest}
use loss_os.Ext2.Read.{read}
use loss_os.Paging.{paging_allocate_check, page_frame_size}
use loss_os.Process.{
  ProcessTable, ProcessState, Machine, CreateCode, process_count_max, kernel_virtual_address_base,
  ceil_div, process_list_get_inactive_index, prepare, process_create_user_process,
}
use loss_os.Process.Lifecycle.{IsCounted, process_list_get_inactive_index_lem}

-- Slot `p` was inactive and is the only one that has changed.
pub record IsTaken (before after : ProcessTable) (p : ℕ) : Type 0 where
  pub in_table : p < process_count_max
  pub was_free : before.is_process_active p ≡ false
  pub now_active : after.is_process_active p ≡ true
  pub counted : IsCounted after
  pub others :
      (j : ℕ)
      → p ≢ j
      → (after.is_process_active j ≡ before.is_process_active j)
        × (after.process_list j ≡ before.process_list j)

-- What each return code stands for.
abbrev pub Outcome : Machine → ℕ → CreateCode × Machine × Option Bytes → Type 0
Outcome m entry (CreateCode.success, m', image) =
    (p : ℕ) × IsTaken m.table m'.table p
    × ((m'.table.process_list p).pid ≡ p)
    × ((m'.table.process_list p).process_state ≡ ProcessState.ready)
    × (((m'.table.process_list p).context).eip ≡ entry)
    × (m'.directory ≡ m.directory)
Outcome m entry (CreateCode.fs_read_failure, m', image) =
    (p : ℕ) × IsTaken m.table m'.table p
    × (((m'.table.process_list p).context) ≡ ((m.table).process_list p).context)
Outcome m entry (CreateCode.max_process_exceeded, m', image) = m' ≡ m
Outcome m entry (CreateCode.invalid_entrypoint, m', image) = m' ≡ m
Outcome m entry (CreateCode.not_enough_memory, m', image) = m' ≡ m

module _ (m : Machine) (c : IsCounted m.table)
    (room : (m.table).active_process_count < process_count_max) where
  abbrev slot : ℕ
  slot = (process_list_get_inactive_index m.table).0

  abbrev reserved : ProcessTable
  reserved = (process_list_get_inactive_index m.table).1

  reserved_lists : (j : ℕ) → reserved.process_list j ≡ (m.table).process_list j
  unfolding process_list_get_inactive_index
  reserved_lists j = refl

  reserved_active :
      (j : ℕ) → slot ≢ j → reserved.is_process_active j ≡ (m.table).is_process_active j
  unfolding process_list_get_inactive_index
  reserved_active j ne = rw (ne→== _ j ne) refl

  reserved-IsTaken :
      (after : ProcessTable)
      → after.is_process_active ≡ reserved.is_process_active
      → after.active_process_count ≡ reserved.active_process_count
      → ((j : ℕ) → slot ≢ j → after.process_list j ≡ reserved.process_list j)
      → IsTaken m.table after slot
  reserved-IsTaken after e1 e2 lists =
      let f = process_list_get_inactive_index_lem m.table c room in
      record {
        in_table = f.0;
        was_free = f.1;
        now_active = rw e1 f.3;
        counted = rw (e1, e2) f.4;
        others = λ j ne. (rw e1 (reserved_active j ne), lists j ne ∙ reserved_lists j);
      }

abbrev short_of_memory : Machine → DriverRequest → Bool
short_of_memory m request =
    let needed = ceil_div (u32 (request.buffer_size + page_frame_size)) page_frame_size in
    not (paging_allocate_check m.paging needed) || ltb 8 needed

-- With the counter right, a success takes an inactive slot for a ready process that starts at the
-- entry point, and touches no other; the three errors that are found first change nothing; but a
-- failing read leaves an inactive slot taken, with the context that the slot held before.
pub process_create_user_process_lem :
    (m : Machine) (request : DriverRequest) (entry : ℕ)
    → IsCounted m.table
    → Outcome m entry (process_create_user_process m request entry)
unfolding process_create_user_process
process_create_user_process_lem m request entry c =
    elim (Bool-cases (leb process_count_max (m.table).active_process_count)) [
      | inl full ↦ rw full refl
      | inr room ↦ elim (Bool-cases (leb kernel_virtual_address_base entry)) [
        | inl high ↦ rw (room, high) refl
        | inr low ↦ elim (Bool-cases (short_of_memory m request)) [
          | inl short ↦ rw (room, low, short) refl
          | inr enough ↦ elim (Bool-cases (not (is_zero (read m.file_system request).0))) [
            | inl failed ↦
                rw (room, low, enough, failed)
                  (
                    slot m c (ground arith),
                    reserved-IsTaken m c (ground arith) _ refl refl
                        (λ j ne. rw (ne→== (process_list_get_inactive_index m.table).0 j ne) refl),
                    rw (eq→== (slot m c (ground arith)) (slot m c (ground arith)) refl) (
                        ap (λ b. b.context)
                          (reserved_lists m c (ground arith) (slot m c (ground arith)))),
                  )
            | inr loaded ↦
                rw (room, low, enough, loaded)
                  (
                    slot m c (ground arith),
                    reserved-IsTaken m c (ground arith) _ refl refl
                        (λ j ne. rw (ne→== (process_list_get_inactive_index m.table).0 j ne) refl),
                    unfold prepare in
                        rw (eq→== (slot m c (ground arith)) (slot m c (ground arith)) refl) refl,
                    unfold prepare in
                        rw (eq→== (slot m c (ground arith)) (slot m c (ground arith)) refl) refl,
                    unfold prepare in
                        rw (eq→== (slot m c (ground arith)) (slot m c (ground arith)) refl) refl,
                    refl,
                  )
          ]
        ]
      ]
    ]
