-- ===== src/Ext2/Write.antt =====
-- `write` of src/filesystem/ext2.c: a new file or directory.
pub mod Scan
pub mod Answers
pub mod Directories
pub mod NewBlock
pub mod Placed
pub mod Insert
pub mod Inserted
use loss_os.Prelude.{
  ℕ, zero, suc, ◌+◌, ◌-◌, ◌*◌, ◌/◌, Bytes, Bool, not, ◌&&◌, Option, none, some, ℤ, pos, negsuc,
  poke16, poke32, u32, ltb, leb, ◌==◌, if◌then◌else◌,
}
use loss_os.Ext2.Layout.{
  Inode, DriverRequest, block_size, groups_count, blocks_per_group, inode_size, ifreg, ft_dir,
  ft_reg_file, entry_inode, entry_rec_len, entry_name_len, get_entry_name, get_entry_record_len,
  inode_to_bgd, get_inode,
}
use loss_os.Ext2.Device.{
  Fs, read_blocks, write_blocks, zeroed, sync_metadata, inode_block, inode_index, load_node,
  sync_node,
}
use loss_os.Ext2.Bitmap.{
  allocate_block, allocate_from, allocate_node, scan_bytes, block_bitmap, claim_block, increment16,
}
use loss_os.Ext2.Nodes.{is_dir_mode, set_used_dirs}
use loss_os.Ext2.Content.{allocate_node_blocks}
use loss_os.Ext2.Directory.{put_entry, init_directory_table, entry_matches}
use loss_os.Ext2.Read.{copy_into}

abbrev pub makes_dir : DriverRequest → Bool
makes_dir r = r.buffer_size == 0 && r.is_directory

-- What the search for room in a directory block comes to.
pub data Room : Type 0 where
  duplicate : Room
  hole : ℕ → Room
  full : Room

-- The loop over the entries of a block, from offset `off` on. A hole is named by the entry in front
-- of it. The loop stops at the first hole that is large enough.
unfoldable pub scan_room : ℕ → Bytes → ℕ → Bytes → ℕ → ℕ → Room
scan_room zero b off name name_len need = full
scan_room (suc fuel) b off name name_len need =
    let rec_len = entry_rec_len b off in
    let actual = get_entry_record_len (entry_name_len b off) in
    let rest = scan_room fuel b (off + rec_len) name name_len need in
    if leb block_size off
    then full
    else if entry_matches b off name name_len
    then duplicate
    else if not (entry_inode b off == 0) && ltb actual rec_len && leb need (rec_len - actual)
    then hole off
    else if rec_len == 0
    then full
    else rest

-- The same over the blocks of the directory; a zero pointer is passed over.
pub data Place : Type 0 where
  exists_already : Place
  in_block : ℕ → ℕ → Place
  no_room : Place

unfoldable pub find_room : ℕ → ℕ → Fs → (ℕ → ℕ) → Bytes → ℕ → ℕ → Place
find_room zero bi s pointers name name_len need = no_room
find_room (suc rounds) bi s pointers name name_len need =
    let blk = pointers bi in
    let rest = find_room rounds (bi + 1) s pointers name name_len need in
    if blk == 0
    then rest
    else elim (scan_room block_size (read_blocks s blk) 0 name name_len need) [
      | duplicate ↦ exists_already
      | hole off ↦ in_block blk off
      | full ↦ rest
    ]

-- The new inode is initialised, its content is stored, and it is written to the inode table.
unfoldable pub create_node : Fs → DriverRequest → ℕ → Fs
create_node s r new_ino =
    let bgd = inode_to_bgd new_ino in
    let ni = load_node s new_ino in
    let (dir_s, dir_ni) = init_directory_table s ni new_ino r.parent_inode in
    let dirs = increment16 (dir_s.bgdt_cache bgd).bg_used_dirs_count in
    let as_dir = sync_node (set_used_dirs dir_s bgd dirs) dir_ni new_ino in
    let file : Inode = record ni {
      i_mode = ifreg;
      i_size = r.buffer_size;
      i_blocks = u32 (r.buffer_size + block_size - 1) / block_size;
    } in
    let (file_s, file_ni) = allocate_node_blocks s r.buf file bgd in
    let as_file = sync_node file_s file_ni new_ino in if makes_dir r then as_dir else as_file

abbrev pub entry_type : DriverRequest → ℕ
entry_type r = if makes_dir r then ft_dir else ft_reg_file

-- The new entry goes behind the entry at `off`, which shrinks to its own length.
unfoldable pub insert_entry : Bytes → ℕ → DriverRequest → ℕ → Bytes
insert_entry b off r new_ino =
    let actual = get_entry_record_len (entry_name_len b off) in
    let new_off = off + actual in
    let b1 = put_entry b new_off new_ino (entry_rec_len b off - actual) r.name_len (entry_type r) in
    let b2 = copy_into b1 (get_entry_name new_off) r.name r.name_len in poke16 b2 (off + 4) actual

-- `write` when there is a hole behind the entry at `off` of block `blk`. The directory's block is
-- the one that was read during the search.
unfoldable pub write_in_block : Fs → DriverRequest → ℕ → ℕ → ℤ × Fs
write_in_block s r blk off =
    let (new_ino, s1) = allocate_node s in
    let s2 = create_node s1 r new_ino in
    let s3 = write_blocks s2 (insert_entry (read_blocks s blk) off r new_ino) blk in
    if new_ino == 0 then (negsuc 0, s1) else (pos 0, sync_metadata s3)

-- The parent, in the buffer of its inode-table block: one more block.
unfoldable pub append_block : Bytes → ℕ → ℕ → Bytes
append_block buf k newblock =
    let parent = get_inode buf k in
    let at = inode_size * k in
    let b1 = poke32 buf (at + 10 + 4 * parent.i_blocks) newblock in
    let b2 = poke32 b1 (at + 6) (u32 (parent.i_blocks + 1)) in
    poke32 b2 (at + 2) (u32 (parent.i_size + block_size))

-- The only entry of the new block.
unfoldable pub lone_entry : Bytes → DriverRequest → ℕ → Bytes
lone_entry b r new_ino =
    copy_into (put_entry b 0 new_ino block_size r.name_len (entry_type r)) (get_entry_name 0) r.name
      r.name_len

-- The block that `write` adds to a directory. Its loops end on a block number other than 0, so if
-- block 0 is claimed they go on behind the first byte of that bitmap. The answer 0 is a failure.
unfoldable pub settle_newblock : Fs → Option (ℕ × Fs) → ℕ × Fs
settle_newblock s none = (0, s)
settle_newblock s (some (num, s1)) =
    let beyond : ℕ × Fs = elim (allocate_from (groups_count - 1) 1 s1) [
      | none ↦ (0, s1)
      | some (n, s2) ↦ (n, s2)
    ] in
    let again : ℕ × Fs =
      elim (scan_bytes blocks_per_group (read_blocks s1 (block_bitmap s1 0)) (block_size - 1) 1) [
        | some idx ↦ (idx, claim_block s1 0 idx)
        | none ↦ beyond
      ] in
    if num == 0 then again else (num, s1)

unfoldable pub allocate_newblock : Fs → ℕ → ℕ × Fs
allocate_newblock s bg = settle_newblock s (allocate_block s bg)

-- `write` when no block has room. `buf`, the parent's inode-table block, was read at the start and
-- is written back at the end.
unfoldable pub write_new_block : Fs → DriverRequest → ℤ × Fs
write_new_block s r =
    let at = inode_block s r.parent_inode in
    let buf = read_blocks s at in
    let (newblock, s1) = allocate_newblock s (inode_to_bgd r.parent_inode) in
    let (new_ino, s2) = allocate_node s1 in
    let s3 = create_node s2 r new_ino in
    let s4 = write_blocks s3 (lone_entry (zeroed s3) r new_ino) newblock in
    let s5 = write_blocks s4 (append_block buf (inode_index r.parent_inode) newblock) at in
    if newblock == 0
    then (negsuc 0, s1)
    else if new_ino == 0
    then (negsuc 0, s2)
    else (pos 0, sync_metadata s5)

unfoldable pub write : Fs → DriverRequest → ℤ × Fs
write s r =
    let parent = load_node s r.parent_inode in
    let need = get_entry_record_len r.name_len in
    if r.parent_inode == 0
    then (pos 2, s)
    else if not (is_dir_mode parent)
    then (pos 2, s)
    else elim (find_room parent.i_blocks 0 s parent.i_block r.name r.name_len need) [
      | exists_already ↦ (pos 1, s)
      | in_block blk off ↦ write_in_block s r blk off
      | no_room ↦ write_new_block s r
    ]
