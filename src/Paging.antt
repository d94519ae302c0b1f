-- ===== src/Paging.antt =====
-- Page frames and page directories of src/memory/paging.c. A directory is named by its index in
-- `page_directory_list`.
pub mod Frames
pub mod Grants
pub mod Directories
mod Tests
use loss_os.Prelude.{
  ℕ, zero, suc, ◌+◌, ◌-◌, ◌*◌, ◌/◌, ◌%◌, ◌^◌, Bool, true, false, not, Option, none, some, update,
  u32, leb, ◌==◌, if◌then◌else◌,
}

abbrev pub page_entry_count : ℕ
page_entry_count = 1024

abbrev pub page_frame_size : ℕ
page_frame_size = 2 ^ 22

abbrev pub page_frame_max_count : ℕ
page_frame_max_count = 128 * 2 ^ 20 / page_frame_size

abbrev pub paging_directory_table_max_count : ℕ
paging_directory_table_max_count = 32

pub record PageDirectoryEntryFlag : Type 0 where
  pub present_bit : Bool
  pub write_bit : Bool
  pub user_supervisor : Bool
  pub pwt : Bool
  pub pcd : Bool
  pub accessed : Bool
  pub dirty : Bool
  pub use_pagesize_4_mb : Bool

pub record PageDirectoryEntry : Type 0 where
  pub flag : PageDirectoryEntryFlag
  pub global_page : ℕ
  pub ignored : ℕ
  pub pat : ℕ
  pub higher_address : ℕ
  pub reserved_2 : ℕ
  pub lower_address : ℕ

-- `page_manager_state`, `page_directory_list` and `page_directory_manager`. A write to
-- `page_frame_map` past its last frame is kept at its index.
pub record Paging : Type 0 where
  pub page_frame_map : ℕ → Bool
  pub free_page_frame_count : ℕ
  pub page_directory_list : ℕ → ℕ → PageDirectoryEntry
  pub page_directory_used : ℕ → Bool

-- The flags that an initialiser does not name are 0.
abbrev pub flag_bits : Bool → Bool → PageDirectoryEntryFlag
flag_bits on user = record {
  present_bit = on;
  write_bit = on;
  user_supervisor = user;
  pwt = false;
  pcd = false;
  accessed = false;
  dirty = false;
  use_pagesize_4_mb = on;
}

-- `((uint32_t) addr >> 22) & 0x3FF`
abbrev pub page_index : ℕ → ℕ
page_index addr = addr / 2 ^ 22 % 1024

abbrev pub set_entry : Paging → ℕ → ℕ → PageDirectoryEntry → Paging
set_entry p dir index entry = record p {
  page_directory_list =
      update p.page_directory_list dir (update (p.page_directory_list dir) index entry);
}

-- The flush of the TLB is not modelled.
unfoldable pub update_page_directory_entry : Paging → ℕ → ℕ → ℕ → PageDirectoryEntryFlag → Paging
update_page_directory_entry p dir physical_addr virtual_addr flag =
    let old = p.page_directory_list dir (page_index virtual_addr) in
    set_entry p dir (page_index virtual_addr)
      (record old { flag = flag; lower_address = page_index physical_addr })

unfoldable pub paging_allocate_check : Paging → ℕ → Bool
paging_allocate_check p amount =
    leb (u32 (amount + page_frame_size - 1) / page_frame_size) p.free_page_frame_count

-- The first frame from `i` on that is not in use.
unfoldable pub find_frame : ℕ → ℕ → (ℕ → Bool) → Option ℕ
find_frame zero i frames = none
find_frame (suc rounds) i frames =
    let rest = find_frame rounds (i + 1) frames in if frames i then rest else some i

-- Without a free frame behind a count that is not 0 the answer is true all the same.
unfoldable pub paging_allocate_user_page_frame : Paging → ℕ → ℕ → Bool × Paging
paging_allocate_user_page_frame p dir virtual_addr =
    if p.free_page_frame_count == 0
    then (false, p)
    else elim (find_frame (page_frame_max_count - 1) 1 p.page_frame_map) [
      | none ↦ (true, p)
      | some i ↦
          let p1 = record p { page_frame_map = update p.page_frame_map i true } in
          let p2 =
            update_page_directory_entry p1 dir (page_frame_size * i) virtual_addr
              (flag_bits true true) in
          (true, record p2 { free_page_frame_count = p2.free_page_frame_count - 1 })
    ]

-- `i` is decremented from 0, and the count is not touched.
unfoldable pub paging_free_user_page_frame : Paging → ℕ → ℕ → Bool × Paging
paging_free_user_page_frame p dir virtual_addr =
    let entry = p.page_directory_list dir (page_index virtual_addr) in
    let i = u32 (entry.lower_address / 2 ^ 22 + 2 ^ 32 - 1) in
    let p1 = record p { page_frame_map = update p.page_frame_map i false } in
    if (entry.flag).present_bit
    then (
      true,
      set_entry p1 dir (page_index virtual_addr) (record entry { flag = flag_bits false false }),
    )
    else (false, p)

-- `newEntry`
abbrev pub kernel_entry : PageDirectoryEntry
kernel_entry = record {
  flag = flag_bits true false;
  global_page = 0;
  ignored = 0;
  pat = 0;
  higher_address = 0;
  reserved_2 = 0;
  lower_address = 0;
}

unfoldable pub create_from : ℕ → ℕ → Paging → Option (ℕ × Paging)
create_from zero i p = none
create_from (suc rounds) i p =
    let rest = create_from rounds (i + 1) p in
    if p.page_directory_used i
    then rest
    else some (
      i,
      set_entry (record p { page_directory_used = update p.page_directory_used i true }) i 0x300
          kernel_entry,
    )

-- `none` is NULL.
unfoldable pub paging_create_new_page_directory : Paging → Option (ℕ × Paging)
paging_create_new_page_directory p = create_from paging_directory_table_max_count 0 p

-- Three flags are cleared; the rest of an entry stays.
abbrev pub clear_flags : PageDirectoryEntry → PageDirectoryEntry
clear_flags entry =
    let flag = entry.flag in
    record entry {
      flag = record flag { present_bit = false; write_bit = false; use_pagesize_4_mb = false };
    }

unfoldable pub clear_entries : ℕ → ℕ → (ℕ → PageDirectoryEntry) → ℕ → PageDirectoryEntry
clear_entries zero j table = table
clear_entries (suc rounds) j table =
    clear_entries rounds (j + 1) (update table j (clear_flags (table j)))

-- A pointer that is no directory of the list is an index past its end.
unfoldable pub paging_free_page_directory : Paging → ℕ → Bool × Paging
paging_free_page_directory p dir =
    let table = clear_entries page_entry_count 0 (p.page_directory_list dir) in
    if leb paging_directory_table_max_count dir then (false, p) else (
      true,
      record p {
        page_directory_used = update p.page_directory_used dir false;
        page_directory_list = update p.page_directory_list dir table;
      },
    )
