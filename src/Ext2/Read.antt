-- ===== src/Ext2/Read.antt =====
-- `read_directory` and `read` of src/filesystem/ext2.c. The answer is the return code and what the
-- request's buffer then holds.
pub mod Copied
pub mod Transfer
pub mod Whole
use loss_os.Prelude.{
  ℕ, zero, suc, ◌+◌, ◌-◌, ◌*◌, Bytes, not, ◌&&◌, none, some, ℤ, pos, negsuc, peek32, ltb, leb, ◌==◌,
  if◌then◌else◌,
}
use loss_os.Ext2.Layout.{Inode, DriverRequest, block_size, ft_dir, ft_reg_file}
use loss_os.Ext2.Device.{Fs, read_blocks, load_node}
use loss_os.Ext2.Nodes.{pointers_per_block, is_dir_mode}
use loss_os.Ext2.Directory.{find_entry}

-- `memcpy(to + at, from, n)`
unfoldable pub copy_into : Bytes → ℕ → Bytes → ℕ → Bytes
copy_into to at from n i = if leb at i && ltb i (at + n) then from (i - at) else to i

-- `read_directory`, once the entry has been found.
unfoldable pub read_directory_entry : Fs → DriverRequest → ℕ → ℕ → ℤ × Bytes
read_directory_entry s r inode file_type =
    let node = load_node s inode in
    let dir_block = node.i_block 0 in
    if not (file_type == ft_dir)
    then (pos 1, r.buf)
    else if node.i_blocks == 0
    then (negsuc 0, r.buf)
    else if dir_block == 0
    then (negsuc 0, r.buf)
    else if ltb r.buffer_size node.i_size
    then (negsuc 0, r.buf)
    else (pos 0, copy_into r.buf 0 (read_blocks s dir_block) node.i_size)

unfoldable pub read_directory : Fs → DriverRequest → ℤ × Bytes
read_directory s r =
    let parent = load_node s r.parent_inode in
    if r.parent_inode == 0
    then (negsuc 0, r.buf)
    else if not (is_dir_mode parent)
    then (negsuc 0, r.buf)
    else elim (find_entry s parent r.name r.name_len) [
      | none ↦ (pos 2, r.buf)
      | some (inode, file_type) ↦ read_directory_entry s r inode file_type
    ]

-- A copy in progress: the buffer, `copied` and `to_read`.
pub record Copy : Type 0 where
  pub to : Bytes
  pub copied : ℕ
  pub to_read : ℕ

-- One block of the file.
unfoldable pub copy_block : Fs → ℕ → Copy → Copy
copy_block s block_id c =
    let len = if ltb block_size c.to_read then block_size else c.to_read in
    record {
      to = copy_into c.to c.copied (read_blocks s block_id) len;
      copied = c.copied + len;
      to_read = c.to_read - len;
    }

-- The loops over pointers, at pointer `j`; a zero pointer ends one.
unfoldable pub copy_blocks : ℕ → ℕ → Fs → (ℕ → ℕ) → Copy → Copy
copy_blocks zero j s pointers c = c
copy_blocks (suc rounds) j s pointers c =
    let rest = copy_blocks rounds (j + 1) s pointers (copy_block s (pointers j) c) in
    if c.to_read == 0 then c else if pointers j == 0 then c else rest

-- The pointers in a block.
unfoldable pub pointers_in : Fs → ℕ → ℕ → ℕ
pointers_in s block_id j = peek32 (read_blocks s block_id) (4 * j)

unfoldable pub copy_indirect : Fs → ℕ → Copy → Copy
copy_indirect s ind c = copy_blocks pointers_per_block 0 s (pointers_in s ind) c

unfoldable pub copy_double : ℕ → ℕ → Fs → (ℕ → ℕ) → Copy → Copy
copy_double zero k s pointers c = c
copy_double (suc rounds) k s pointers c =
    let rest = copy_double rounds (k + 1) s pointers (copy_indirect s (pointers k) c) in
    if c.to_read == 0 then c else if pointers k == 0 then c else rest

-- The content of a file.
unfoldable pub copy_file : Fs → Inode → Copy → Copy
copy_file s node c0 =
    let c1 = copy_blocks 12 0 s node.i_block c0 in
    let ind = node.i_block 12 in
    let c2 = if ltb 0 c1.to_read && not (ind == 0) then copy_indirect s ind c1 else c1 in
    let dbl = node.i_block 13 in
    if ltb 0 c2.to_read && not (dbl == 0)
    then copy_double pointers_per_block 0 s (pointers_in s dbl) c2
    else c2

-- `read`, once the entry has been found.
unfoldable pub read_entry : Fs → DriverRequest → ℕ → ℕ → ℤ × Bytes
read_entry s r inode file_type =
    let node = load_node s inode in
    if not (file_type == ft_reg_file)
    then (pos 1, r.buf)
    else if ltb r.buffer_size node.i_size
    then (negsuc 0, r.buf)
    else (pos 0, (copy_file s node (record { to = r.buf; copied = 0; to_read = node.i_size })).to)

unfoldable pub read : Fs → DriverRequest → ℤ × Bytes
read s r =
    let parent = load_node s r.parent_inode in
    if r.parent_inode == 0
    then (negsuc 0, r.buf)
    else if not (is_dir_mode parent)
    then (negsuc 0, r.buf)
    else elim (find_entry s parent r.name r.name_len) [
      | none ↦ (pos 2, r.buf)
      | some (inode, file_type) ↦ read_entry s r inode file_type
    ]
