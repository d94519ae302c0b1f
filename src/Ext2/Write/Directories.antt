-- ===== src/Ext2/Write/Directories.antt =====
-- The step of src/filesystem/ext2.c in which `write` fills a new inode as a directory, before it
-- enters the name and, where it appends a block, puts the parent's inode-table block back.
use loss_os.Prelude.{ℕ, ◌^◌, ◌<◌, ◌≡◌, ◌≢◌, ◌∙◌, sym, refl, true, arith}
use loss_os.Ext2.Layout.{Inode, DriverRequest, inode_to_bgd}
use loss_os.Ext2.Device.{Fs, load_node, read_blocks, sync_node, inode_block, zeroed}
use loss_os.Ext2.Device.Inodes.{IsTabled, IsInodeNumber}
use loss_os.Ext2.Nodes.{set_used_dirs}
use loss_os.Ext2.Directory.{init_directory_table, directory_block}
use loss_os.Ext2.Directory.Made.{
  IsNewDirectory, SameTables, dir_block, made_block, stored-IsNewDirectory,
  init_directory_table-SameTables, IsTabled-SameTables, inode_block-SameTables,
}
use loss_os.Ext2.Write.{makes_dir, create_node}

set_used_dirs-SameTables : (s : Fs) (bg n : ℕ) → SameTables s (set_used_dirs s bg n)
set_used_dirs-SameTables s bg n b = ground arith

-- The state in which the inode is stored, with the group's counter of directories set.
module _ (s : Fs) (node : Inode) (inode parent n : ℕ) where
  abbrev counted : Fs
  counted = set_used_dirs (init_directory_table s node inode parent).0 (inode_to_bgd inode) n

  counted-SameTables : SameTables s counted
  counted-SameTables b =
      set_used_dirs-SameTables (init_directory_table s node inode parent).0 (inode_to_bgd inode) n b
      ∙ init_directory_table-SameTables s node inode parent b

  -- The directory that `create_node` stores.
  counted-IsNewDirectory :
      IsTabled s
      → IsInodeNumber inode
      → inode_block s inode ≢ dir_block s inode
      → dir_block s inode ≢ 0
      → dir_block s inode ≢ 1
      → dir_block s inode ≢ 2
      → dir_block s inode < 2 ^ 32
      → ((j : ℕ) → j < 15 → node.i_block j < 2 ^ 32)
      → parent < 2 ^ 32
      → IsNewDirectory
          (sync_node counted (init_directory_table s node inode parent).1 inode)
          inode
          parent
  unfolding init_directory_table read_blocks
  counted-IsNewDirectory t hi apart h0 h1 h2 small pointers in_range =
      stored-IsNewDirectory counted (init_directory_table s node inode parent).1 inode parent
        (zeroed (directory_block s (inode_to_bgd inode)).1)
        (IsTabled-SameTables s counted counted-SameTables t) hi
        (record {
          mode_in = omega arith;
          size_in = omega arith;
          blocks_in = omega arith;
          block_in = λ j lt. ground (arith, pointers j lt);
        })
        (λ e. apart (sym (inode_block-SameTables s counted inode counted-SameTables) ∙ e)) refl refl
        refl h0 (made_block s node inode parent h1 h2) in_range

-- The step of `write` that initialises a new inode (`create_node`), asked for a directory, makes
-- one: right after this step the inode is loaded as a directory of one block, and the block holds
-- `.` for the inode and `..` for the parent of the request. The block that is taken must lie
-- outside the caches' blocks and the inode's own block, the inode tables must not overlap, and the
-- numbers must fit.
pub create_node-IsNewDirectory :
    (s : Fs) (r : DriverRequest) (new_ino : ℕ)
    → makes_dir r ≡ true
    → IsTabled s
    → IsInodeNumber new_ino
    → inode_block s new_ino ≢ dir_block s new_ino
    → dir_block s new_ino ≢ 0
    → dir_block s new_ino ≢ 1
    → dir_block s new_ino ≢ 2
    → dir_block s new_ino < 2 ^ 32
    → ((j : ℕ) → j < 15 → (load_node s new_ino).i_block j < 2 ^ 32)
    → r.parent_inode < 2 ^ 32
    → IsNewDirectory (create_node s r new_ino) new_ino r.parent_inode
unfolding create_node
create_node-IsNewDirectory s r new_ino dir t hi apart h0 h1 h2 small pointers in_range = rw dir (
    counted-IsNewDirectory s (load_node s new_ino) new_ino r.parent_inode _ t hi apart h0 h1 h2
      small pointers in_range)
