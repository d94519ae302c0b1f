-- ===== src/Ext2/Write/Answers.antt =====
-- What `write` of src/filesystem/ext2.c answers, and when.
use loss_os.Prelude.{
  pick_by, not, ℤ, pos, negsuc, ◌==◌, none, some, ℕ, true, false, ◌≡◌, ◌≤◌, inl, inr, arith, sym,
  subst,
}
use loss_os.Ext2.Layout.{DriverRequest, get_entry_record_len, inode_to_bgd, groups_count}
use loss_os.Ext2.Device.{
  Fs, read_blocks, write_blocks, zeroed, sync_metadata, inode_block, inode_index,
}
use loss_os.Ext2.Nodes.{is_dir_mode}
use loss_os.Ext2.Bitmap.{block_bitmap, allocate_node}
use loss_os.Ext2.Bitmap.Search.{bit_at}
use loss_os.Ext2.Bitmap.Exhausted.{
  NoBlocks, NoInodes, allocate_node-fails, allocate_node_fails_state,
}
use loss_os.Ext2.Directory.{find_entry}
use loss_os.Ext2.Directory.Blocks.{
  IsDirectory, parent_of, named, HasParent, HasNoParent, with_parent,
}
use loss_os.Ext2.Write.{
  Place, write, create_node, insert_entry, lone_entry, append_block, write_in_block,
  write_new_block, allocate_newblock, exists_already, in_block, no_room,
}
use loss_os.Ext2.Write.Placed.{HasRoom, Placed, find_room_lem}
use loss_os.Ext2.Write.NewBlock.{newblock_fails}

module _ (s : Fs) (r : DriverRequest) where
  -- The block that the directory would get, and the state behind it.
  abbrev new_block : ℕ × Fs
  new_block = allocate_newblock s (inode_to_bgd r.parent_inode)

  -- The number of the new inode, and the state behind it.
  abbrev new_inode : ℕ × Fs
  new_inode = allocate_node s

  -- The state with the new node, and its entry behind the one at `off` of `block`.
  abbrev with_entry : ℕ → ℕ → Fs
  with_entry block off = sync_metadata (
      write_blocks (create_node new_inode.1 r new_inode.0)
        (insert_entry (read_blocks s block) off r new_inode.0) block)

  -- The state with a new block of the directory, which holds the new node's entry alone. The parent
  -- is put back as it was at the start, but for the block.
  abbrev with_block : Fs
  with_block =
      let at = inode_block s r.parent_inode in
      let (new_ino, s2) = allocate_node new_block.1 in
      let s3 = create_node s2 r new_ino in
      let s4 = write_blocks s3 (lone_entry (zeroed s3) r new_ino) new_block.0 in
      sync_metadata (
        write_blocks s4 (append_block (read_blocks s at) (inode_index r.parent_inode) new_block.0)
          at)

  -- The answers of `write`. An error changes nothing, but where no inode is left for an entry in a
  -- new block that block stays claimed.
  pub data WriteAnswer : ℤ × Fs → Type 0 where
    no_parent : HasNoParent s r → WriteAnswer (pos 2, s)
    exists : (found : ℕ × ℕ) → HasParent s r → named s r ≡ some found → WriteAnswer (pos 1, s)
    no_inode : HasParent s r → NoInodes s → WriteAnswer (negsuc 0, s)
    no_block :
        HasParent s r
        → named s r ≡ none
        → NoBlocks s (inode_to_bgd r.parent_inode)
        → WriteAnswer (negsuc 0, s)
    no_inode_behind :
        HasParent s r
        → named s r ≡ none
        → (new_block.0 == 0) ≡ false
        → NoInodes new_block.1
        → WriteAnswer (negsuc 0, new_block.1)
    inserted :
        (block off : ℕ)
        → HasParent s r
        → HasRoom s
            (parent_of s r).i_block
            r.name
            r.name_len
            (get_entry_record_len r.name_len)
            0
            block
            off
        → (new_inode.0 == 0) ≡ false
        → WriteAnswer (pos 0, with_entry block off)
    appended :
        HasParent s r
        → named s r ≡ none
        → (new_block.0 == 0) ≡ false
        → ((allocate_node new_block.1).0 == 0) ≡ false
        → WriteAnswer (pos 0, with_block)

  write_in_block_lem :
      (blk off : ℕ)
      → HasParent s r
      → HasRoom s
          (parent_of s r).i_block
          r.name
          r.name_len
          (get_entry_record_len r.name_len)
          0
          blk
          off
      → WriteAnswer (write_in_block s r blk off)
  unfolding write_in_block
  write_in_block_lem blk off parent room =
      pick_by WriteAnswer ((allocate_node s).0 == 0) _ _
        (λ none_left.
          let z : new_inode.0 ≡ 0 = ground (arith, none_left) in
          subst (λ s1. WriteAnswer (negsuc 0, s1)) (sym (allocate_node_fails_state s z))
            (no_inode parent (allocate_node-fails s z)))
        (λ some_left. inserted blk off parent room some_left)

  write_new_block_lem :
      inode_to_bgd r.parent_inode ≤ groups_count
      → bit_at (read_blocks s (block_bitmap s 0)) 0 ≡ true
      → HasParent s r
      → named s r ≡ none
      → WriteAnswer (write_new_block s r)
  unfolding write_new_block
  write_new_block_lem le boot parent absent =
      let bg = inode_to_bgd r.parent_inode in
      let s1 = (allocate_newblock s bg).1 in
      pick_by WriteAnswer ((allocate_newblock s bg).0 == 0) _ _
        (λ failed.
          let (spent, same) = newblock_fails s bg le boot (ground (arith, failed)) in
          subst (λ s2. WriteAnswer (negsuc 0, s2)) (sym same) (no_block parent absent spent))
        (λ num.
          pick_by WriteAnswer ((allocate_node s1).0 == 0) _ _
            (λ failed.
              let z : (allocate_node s1).0 ≡ 0 = ground (arith, failed) in
              subst (λ s2. WriteAnswer (negsuc 0, s2)) (sym (allocate_node_fails_state s1 z))
                (no_inode_behind parent absent num (allocate_node-fails s1 z)))
            (λ ino. appended parent absent num ino))

  write_found :
      (place : Place)
      → inode_to_bgd r.parent_inode ≤ groups_count
      → bit_at (read_blocks s (block_bitmap s 0)) 0 ≡ true
      → HasParent s r
      → Placed s
          (parent_of s r).i_block
          r.name
          r.name_len
          (get_entry_record_len r.name_len)
          (parent_of s r).i_blocks
          0
          place
      → WriteAnswer (elim place [
        | exists_already ↦ (pos 1, s)
        | in_block blk off ↦ write_in_block s r blk off
        | no_room ↦ write_new_block s r
      ])
  unfolding find_entry
  write_found exists_already le boot parent (found, h) = exists found parent h
  write_found (in_block blk off) le boot parent room = write_in_block_lem blk off parent room
  write_found no_room le boot parent h = write_new_block_lem le boot parent h

  pub write_answer :
      inode_to_bgd r.parent_inode ≤ groups_count
      → bit_at (read_blocks s (block_bitmap s 0)) 0 ≡ true
      → IsDirectory s (parent_of s r).i_block (parent_of s r).i_blocks
      → WriteAnswer (write s r)
  unfolding write
  write_answer le boot d =
      let P = WriteAnswer in
      pick_by P (r.parent_inode == 0) _ _ (λ zero. no_parent (inl zero))
        (λ nz.
          pick_by P (not (is_dir_mode (parent_of s r))) _ _
            (λ file. no_parent (inr (ground (arith, file))))
            (λ dir. write_found _ le boot (with_parent s r nz dir) (
              find_room_lem s (parent_of s r).i_block r.name r.name_len
                (get_entry_record_len r.name_len) (parent_of s r).i_blocks 0
                (parent_of s r).i_blocks (omega arith) d)))
