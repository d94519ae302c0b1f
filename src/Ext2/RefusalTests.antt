-- ===== src/Ext2/RefusalTests.antt =====
-- A run of the theorem on the errors of src/filesystem/ext2.c.
use loss_os.Prelude.{ℕ, true, codes, as_bytes, Bytes, zeroes, ◌==◌, if◌then◌else◌}
use loss_os.Ext2.Layout.{Inode, DriverRequest, ifdir, put_inode}
use loss_os.Ext2.Device.{Fs}
use loss_os.Ext2.Directory.{dot_entries}
use loss_os.Process.Tests.{kernel}

abbrev root_node : Inode
root_node = record { i_mode = ifdir; i_size = 512; i_blocks = 1; i_block = λ j. 20 }

-- Block 3 is the bitmap of group 0, in which block 0 is in use; the root directory is in block 20.
abbrev root_disk : ℕ → Bytes
root_disk lba =
    if lba == 3
    then (λ i. 1)
    else if lba == 5
    then put_inode zeroes 0 root_node
    else if lba == 20
    then dot_entries zeroes 1 1
    else zeroes

abbrev rooted : Fs
rooted = let fs = kernel.file_system in record fs { disk = root_disk }

-- A directory `src` in the root.
abbrev of_src : DriverRequest
of_src = record {
  buf = zeroes;
  name = as_bytes (codes "src");
  name_len = 3;
  parent_inode = 1;
  buffer_size = 0;
  is_directory = true;
}
