-- ===== src/Ext2/Delete/Answers.antt =====
-- What `delete` of src/filesystem/ext2.c answers, and when.
use loss_os.Prelude.{
  refl, pick_by, not, ℤ, pos, negsuc, ◌==◌, none, some, ℕ, Option, Bool, true, false, ◌≡◌, ◌⊎◌, inl,
  inr, arith, if◌then◌else◌,
}
use loss_os.Ext2.Layout.{DriverRequest, entry_inode, entry_file_type, ft_dir, ft_reg_file}
use loss_os.Ext2.Device.{Fs, read_blocks, write_blocks, sync_metadata}
use loss_os.Ext2.Nodes.{is_dir_mode, deallocate_node}
use loss_os.Ext2.Directory.{find_entry, entry_matches, is_directory_empty}
use loss_os.Ext2.Directory.Blocks.{
  IsDirectory, parent_of, named, HasParent, HasNoParent, with_parent,
}
use loss_os.Ext2.Delete.{remove_entry, delete, delete_entry, Hit}
use loss_os.Ext2.Delete.Found.{Found, locate_block_lem}

module _ (s : Fs) (r : DriverRequest) where
  -- The entry is of the kind that is to be removed.
  abbrev pub is_wanted : ℕ → Bool
  is_wanted file_type = file_type == (if r.is_directory then ft_dir else ft_reg_file)

  -- The state without the inode and without its entry.
  abbrev without : ℕ → Hit → ℕ → Fs
  without block_id hit inode =
      sync_metadata (
        write_blocks (deallocate_node s inode) (remove_entry (read_blocks s block_id) hit) block_id)

  -- The answers of `delete`; an error changes nothing.
  pub data DeleteAnswer : ℤ × Fs → Type 0 where
    no_directory : HasNoParent s r → DeleteAnswer (negsuc 0, s)
    not_found : HasParent s r → named s r ≡ none → DeleteAnswer (pos 1, s)
    other_type :
        (inode file_type : ℕ)
        → HasParent s r
        → named s r ≡ some (inode, file_type)
        → is_wanted file_type ≡ false
        → DeleteAnswer (pos 1, s)
    not_empty :
        (inode file_type : ℕ)
        → HasParent s r
        → named s r ≡ some (inode, file_type)
        → is_wanted file_type ≡ true
        → r.is_directory ≡ true
        → is_directory_empty s inode ≡ false
        → DeleteAnswer (pos 2, s)
    deleted :
        (inode file_type block_id : ℕ) (hit : Hit)
        → HasParent s r
        → named s r ≡ some (inode, file_type)
        → entry_matches (read_blocks s block_id) hit.offset r.name r.name_len ≡ true
        → entry_inode (read_blocks s block_id) hit.offset ≡ inode
        → is_wanted file_type ≡ true
        → (r.is_directory ≡ false) ⊎ (is_directory_empty s inode ≡ true)
        → DeleteAnswer (pos 0, without block_id hit inode)

  entry_in_use :
      (block_id : ℕ) (hit : Hit)
      → entry_matches (read_blocks s block_id) hit.offset r.name r.name_len ≡ true
      → (entry_inode (read_blocks s block_id) hit.offset == 0) ≡ false
  unfolding entry_matches
  entry_in_use block_id hit h = ground (arith, h)

  delete_entry_lem :
      (block_id : ℕ) (hit : Hit)
      → HasParent s r
      → named s r
        ≡ some (
          entry_inode (read_blocks s block_id) hit.offset,
          entry_file_type (read_blocks s block_id) hit.offset,
        )
      → entry_matches (read_blocks s block_id) hit.offset r.name r.name_len ≡ true
      → DeleteAnswer (delete_entry s r block_id hit)
  unfolding delete_entry
  delete_entry_lem block_id hit parent found matches =
      let b = read_blocks s block_id in
      let target = entry_inode b hit.offset in
      let kind = entry_file_type b hit.offset in
      let P = DeleteAnswer in
      rw (entry_in_use block_id hit matches) (
        pick_by P r.is_directory _ _
          (λ dir.
            pick_by P (not (kind == ft_dir)) _ _
              (λ other. other_type target kind parent found (rw dir (ground (arith, other))))
              (λ right.
                let wanted : is_wanted kind ≡ true = rw dir (ground (arith, right)) in
                pick_by P (not (is_directory_empty s target)) _ _
                  (λ full. not_empty target kind parent found wanted dir (ground (arith, full)))
                  (λ empty.
                    deleted target kind block_id hit parent found matches refl wanted
                      (inr (ground (arith, empty))))))
          (λ file.
            pick_by P (not (kind == ft_reg_file)) _ _
              (λ other. other_type target kind parent found (rw file (ground (arith, other))))
              (λ right.
                deleted target kind block_id hit parent found matches refl
                  (rw file (ground (arith, right))) (inl file))))

  delete-Found :
      (found : Option (ℕ × Hit))
      → HasParent s r
      → Found s (parent_of s r).i_block r.name r.name_len (parent_of s r).i_blocks 0 found
      → DeleteAnswer
          (elim found [ none ↦ (pos 1, s) | some (block_id, hit) ↦ delete_entry s r block_id hit ])
  unfolding find_entry
  delete-Found none parent h = not_found parent h
  delete-Found (some (block_id, hit)) parent (h, m) = delete_entry_lem block_id hit parent h m

  pub delete_answer :
      IsDirectory s (parent_of s r).i_block (parent_of s r).i_blocks → DeleteAnswer (delete s r)
  unfolding delete
  delete_answer d =
      let P = DeleteAnswer in
      pick_by P (r.parent_inode == 0) _ _ (λ zero. no_directory (inl zero))
        (λ nz.
          pick_by P (not (is_dir_mode (parent_of s r))) _ _
            (λ file. no_directory (inr (ground (arith, file))))
            (λ dir. delete-Found _ (with_parent s r nz dir) (
              locate_block_lem s (parent_of s r).i_block r.name r.name_len (parent_of s r).i_blocks
                0 (parent_of s r).i_blocks (omega arith) d)))
