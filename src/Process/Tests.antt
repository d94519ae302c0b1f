-- ===== src/Process/Tests.antt =====
-- Runs of the theorems on src/process/process.c and src/process/scheduler.c.
use loss_os.Prelude.{
  ℕ, ◌<◌, ◌≡◌, ◌≢◌, refl, zeroes, true, false, some, ◌==◌, if◌then◌else◌, arith, ◌⊎◌,
}
use loss_os.Ext2.Layout.{DriverRequest}
use loss_os.Paging.{kernel_entry, clear_flags}
use loss_os.Process.{
  ProcessTable, Machine, process_count_max, no_running_process, blank_pcb,
  process_create_user_process, process_destroy,
}
use loss_os.Process.Scheduler.{switch_to, scheduler_switch_to_next_process}
use loss_os.Process.Rotation.{slot, scheduler_switch_to_next_process_lem}
use loss_os.Process.Lifecycle.{IsCounted, count_active, process_destroy_lem}
use loss_os.Process.Creation.{Outcome, process_create_user_process_lem}

-- Processes 0 and 2 are active, and nothing runs yet.
abbrev pub two_active : ProcessTable
two_active = record {
  process_list = λ i. blank_pcb;
  is_process_active = λ i. if i == 0 then true else i == 2;
  active_process_count = 2;
  current_running_pid = no_running_process;
}

two_active-IsCounted : IsCounted two_active
unfolding count_active
two_active-IsCounted = refl

scheduler_switch_to_next_process_example :
    (d : ℕ) × (d < process_count_max)
    × (scheduler_switch_to_next_process process_count_max two_active
        ≡ some (switch_to two_active (slot no_running_process d)))
    × (two_active.is_process_active (slot no_running_process d) ≡ true)
    × ((e : ℕ) → e < d → two_active.is_process_active (slot no_running_process e) ≡ false)
scheduler_switch_to_next_process_example =
    scheduler_switch_to_next_process_lem two_active 2 (omega arith) refl

-- A kernel with an empty file system.
abbrev pub kernel : Machine
kernel = record {
  file_system = record {
    disk = λ lba. zeroes;
    stack = zeroes;
    super_block = record {
      s_inodes_count = 0;
      s_blocks_count = 0;
      s_r_blocks_count = 0;
      s_free_blocks_count = 0;
      s_free_inodes_count = 0;
      s_first_data_block = 0;
      s_first_ino = 0;
      s_blocks_per_group = 0;
      s_frags_per_group = 0;
      s_inodes_per_group = 0;
      s_magic = 0;
      s_prealloc_blocks = 0;
      s_prealloc_dir_blocks = 0;
    };
    bgdt_cache = λ i. record {
      bg_block_bitmap = 3;
      bg_inode_bitmap = 4;
      bg_inode_table = 5;
      bg_free_blocks_count = 0;
      bg_free_inodes_count = 0;
      bg_used_dirs_count = 0;
      bg_pad = 0;
      bg_reserved = zeroes;
    };
  };
  paging = record {
    page_frame_map = λ i. i == 0;
    free_page_frame_count = 31;
    page_directory_list = λ d k. clear_flags kernel_entry;
    page_directory_used = λ d. false;
  };
  table = two_active;
  directory = 0;
}

abbrev a_program : DriverRequest
a_program = record {
  buf = zeroes;
  name = λ i. b's';
  name_len = 5;
  parent_inode = 1;
  buffer_size = 1000;
  is_directory = false;
}

process_create_user_process_example :
    Outcome kernel 0 (process_create_user_process kernel a_program 0)
process_create_user_process_example =
    process_create_user_process_lem kernel a_program 0 two_active-IsCounted

process_destroy_example :
    ((two_active.is_process_active 2 ≡ false) × (process_destroy kernel 2 ≡ (false, kernel)))
    ⊎ (((process_destroy kernel 2).0 ≡ true)
        × ((process_destroy kernel 2).1.table.is_process_active 2 ≡ false)
        × ((process_destroy kernel 2).1.table.process_list 2 ≡ blank_pcb)
        × IsCounted (process_destroy kernel 2).1.table
        × ((j : ℕ)
            → 2 ≢ j
            → ((process_destroy kernel 2).1.table.is_process_active j
                ≡ two_active.is_process_active j)
              × ((process_destroy kernel 2).1.table.process_list j ≡ blank_pcb)))
process_destroy_example = process_destroy_lem kernel 2 (omega arith) two_active-IsCounted
