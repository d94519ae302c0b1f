-- ===== src/Paging/Tests.antt =====
-- Runs of the theorems on src/memory/paging.c.
use loss_os.Prelude.{◌<◌, ◌≡◌, refl, false, ◌==◌, arith}
use loss_os.Paging.{
  Paging, find_frame, update_page_directory_entry, kernel_entry, clear_flags, page_index,
  paging_allocate_user_page_frame, paging_free_user_page_frame, paging_create_new_page_directory,
}
use loss_os.Paging.Frames.{count_free}
use loss_os.Paging.Grants.{
  IsCounted, Granted, paging_allocate_user_page_frame_lem, paging_free_user_page_frame_leaks,
}
use loss_os.Paging.Directories.{Created, paging_create_new_page_directory_lem}

-- The state at boot.
abbrev at_boot : Paging
at_boot = record {
  page_frame_map = λ i. i == 0;
  free_page_frame_count = 31;
  page_directory_list = λ d k. clear_flags kernel_entry;
  page_directory_used = λ d. false;
}

at_boot-IsCounted : IsCounted at_boot
unfolding count_free
at_boot-IsCounted = record { kernel_frame = refl; counted = refl }

paging_allocate_user_page_frame_example :
    Granted at_boot 0 0x400000 (paging_allocate_user_page_frame at_boot 0 0x400000)
paging_allocate_user_page_frame_example =
    paging_allocate_user_page_frame_lem at_boot 0 0x400000 at_boot-IsCounted

abbrev one_taken : Paging
one_taken = (paging_allocate_user_page_frame at_boot 0 0x400000).1

one_taken_entry : (one_taken.page_directory_list 0 (page_index 0x400000)).lower_address < 1024
unfolding paging_allocate_user_page_frame find_frame update_page_directory_entry
one_taken_entry = omega arith

paging_free_user_page_frame_leaks_example :
    ((paging_free_user_page_frame one_taken 0 0x400000).1.page_frame_map 1
      ≡ one_taken.page_frame_map 1)
    × ((paging_free_user_page_frame one_taken 0 0x400000).1.free_page_frame_count
        ≡ one_taken.free_page_frame_count)
paging_free_user_page_frame_leaks_example =
    paging_free_user_page_frame_leaks one_taken 0 0x400000 1 one_taken_entry (omega arith)

paging_create_new_page_directory_example :
    Created at_boot 0 (paging_create_new_page_directory at_boot)
paging_create_new_page_directory_example = paging_create_new_page_directory_lem at_boot
