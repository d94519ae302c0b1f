-- ===== src/Ext2/EntryTests.antt =====
-- Runs of the theorems on directory blocks of src/filesystem/ext2.c.
use loss_os.Prelude.{
  ◌≡◌, refl, zeroes, Bytes, false, none, some, arith, inl, poke, poke16, poke32, peek16, peek32,
}
use loss_os.Text.{memcmp}
use loss_os.Ext2.Layout.{DriverRequest, block_size, ft_reg_file, get_entry_record_len}
use loss_os.Ext2.Directory.{dot_entries, put_entry, entry_matches}
use loss_os.Ext2.Directory.Chain.{IsChain, lookup}
use loss_os.Ext2.Directory.Dots.{dot, dot_entries-IsChain}
use loss_os.Ext2.Read.{copy_into}
use loss_os.Ext2.Write.{Room, scan_room, insert_entry}
use loss_os.Ext2.Write.Scan.{Scanned, scan_room_lem}
use loss_os.Ext2.Write.Inserted.{
  insert_entry-IsChain, lookup-insert_entry_self, lookup-insert_entry_ne,
}
use loss_os.Ext2.Delete.{locate, remove_entry}
use loss_os.Ext2.Delete.Located.{Located, locate_lem}
use loss_os.Ext2.Delete.Removed.{IsRemoved, remove_entry_lem}

-- The root directory when it is new.
abbrev root_block : Bytes
root_block = dot_entries zeroes 1 1

root_block-IsChain : IsChain (dot_entries zeroes 1 1) 0
root_block-IsChain = dot_entries-IsChain zeroes 1 1 (omega arith) (omega arith)

-- A file `aaa` of no bytes.
abbrev new_file : DriverRequest
new_file = record {
  buf = zeroes;
  name = λ i. b'a';
  name_len = 3;
  parent_inode = 1;
  buffer_size = 0;
  is_directory = false;
}

room_after_dots :
    scan_room block_size root_block 0 new_file.name new_file.name_len
      (get_entry_record_len new_file.name_len)
    ≡ Room.hole 12
unfolding scan_room dot_entries put_entry entry_matches memcmp get_entry_record_len poke poke16
    poke32 peek16 peek32
room_after_dots = refl

scan_room_example :
    Scanned root_block new_file.name 3 12 512 0 (scan_room 512 root_block 0 new_file.name 3 12)
scan_room_example = scan_room_lem root_block new_file.name 3 12 512 0 root_block-IsChain

abbrev with_file : Bytes
with_file = insert_entry root_block 12 new_file 2

insert_entry-IsChain_example : IsChain (insert_entry root_block 12 new_file 2) 0
insert_entry-IsChain_example =
    insert_entry-IsChain root_block 12 new_file 2 root_block-IsChain room_after_dots (omega arith)
      (omega arith)

lookup-insert_entry_self_example :
    lookup block_size (insert_entry root_block 12 new_file 2) 0 new_file.name 3
    ≡ some (2, ft_reg_file)
lookup-insert_entry_self_example =
    lookup-insert_entry_self root_block 12 new_file 2 root_block-IsChain room_after_dots
      (omega arith) (omega arith) (omega arith)

lookup-insert_entry_ne_example :
    lookup block_size (insert_entry root_block 12 new_file 2) 0 dot 1
    ≡ lookup block_size root_block 0 dot 1
lookup-insert_entry_ne_example =
    lookup-insert_entry_ne root_block 12 new_file 2 root_block-IsChain room_after_dots (omega arith)
      (omega arith) dot 1 (inl (omega arith))

file_located :
    locate block_size with_file 0 none new_file.name 3
    ≡ some (record { offset = 24; prev = some 12 })
unfolding locate insert_entry copy_into dot_entries put_entry entry_matches memcmp
    get_entry_record_len poke poke16 poke32 peek16 peek32
file_located = refl

locate_example :
    Located with_file new_file.name 3 512 0 none (locate 512 with_file 0 none new_file.name 3)
locate_example = locate_lem with_file new_file.name 3 512 0 none insert_entry-IsChain_example

remove_entry_example :
    IsRemoved with_file new_file.name 3 24
      (remove_entry with_file (record { offset = 24; prev = some 12 }))
remove_entry_example =
    remove_entry_lem with_file new_file.name 3 (record { offset = 24; prev = some 12 })
      insert_entry-IsChain_example file_located
