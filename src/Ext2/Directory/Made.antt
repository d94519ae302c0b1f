-- ===== src/Ext2/Directory/Made.antt =====
-- A directory as `init_directory_table` of src/filesystem/ext2.c makes it, once its inode is
-- stored.
use loss_os.Prelude.{
  pick, Option, none, some, zero, suc, ◌*◌, ◌-◌, ℕ, ◌+◌, ◌^◌, ◌<◌, ◌≡◌, ◌≢◌, ◌∙◌, sym, refl, Bytes,
  true, ltb, arith, poke_ne, Bool-cases, inl, inr, ◌==◌,
}
use loss_os.Ext2.Layout.{
  Inode, blocks_per_group, groups_count, get_entry_record_len, ft_dir, inode_to_bgd, ifdir,
}
use loss_os.Ext2.Device.{
  Fs, load_node, read_blocks, write_blocks, sync_metadata, sync_node, zeroed, inode_block,
}
use loss_os.Ext2.Device.Access.{OnStack, read_blocks-write_blocks_self, read_blocks-write_blocks_ne}
use loss_os.Ext2.Device.InodeBytes.{IsInode, SameInode}
use loss_os.Ext2.Device.Inodes.{IsTabled, IsInodeNumber, load-sync_node, sync_node_pos}
use loss_os.Ext2.Bitmap.{block_bitmap, claim_block, allocate_from, allocate_block, find_clear}
use loss_os.Ext2.Nodes.{is_dir_mode}
use loss_os.Ext2.Directory.{dot_entries, directory_block, fallback_block, init_directory_table}
use loss_os.Ext2.Directory.Entries.{put_entry_outside}

-- The inode of a directory as `init_directory_table` leaves it.
pub record IsNewDirectory (s : Fs) (inode parent : ℕ) : Type 0 where
  pub is_dir : is_dir_mode (load_node s inode) ≡ true
  pub one_block : (load_node s inode).i_blocks ≡ 1
  pub one_size : (load_node s inode).i_size ≡ 512
  pub has_block : (load_node s inode).i_block 0 ≢ 0
  pub before : Bytes
  pub content : read_blocks s ((load_node s inode).i_block 0) ≡ dot_entries before inode parent
  pub in_range : inode < 2 ^ 32
  pub parent_in_range : parent < 2 ^ 32
  pub used : inode ≢ 0

dot_entries-OnStack : (s : Fs) (inode parent : ℕ) → OnStack s (dot_entries (zeroed s) inode parent)
unfolding dot_entries zeroed get_entry_record_len
dot_entries-OnStack s inode parent i h =
    poke_ne _ 22 b'.' i (omega arith)
    ∙ poke_ne _ 21 b'.' i (omega arith)
    ∙ put_entry_outside _ 12 parent 500 2 ft_dir i (inr (omega arith))
    ∙ poke_ne _ 9 b'.' i (omega arith)
    ∙ put_entry_outside _ 0 inode 12 1 ft_dir i (inr (omega arith))
    ∙ ground arith

-- Writing the caches back leaves every block but the first two behind the boot block.
read_blocks-sync_metadata :
    (s : Fs) (lba : ℕ) → lba ≢ 1 → lba ≢ 2 → read_blocks (sync_metadata s) lba ≡ read_blocks s lba
unfolding sync_metadata
read_blocks-sync_metadata s lba h1 h2 =
    read_blocks-write_blocks_ne _ _ 2 lba (λ e. h2 (sym e))
    ∙ read_blocks-write_blocks_ne s _ 1 lba (λ e. h1 (sym e))

-- The directory's block after `init_directory_table`.
pub made_block :
    (s : Fs) (node : Inode) (inode parent : ℕ)
    → (directory_block s (inode_to_bgd inode)).0 ≢ 1
    → (directory_block s (inode_to_bgd inode)).0 ≢ 2
    → read_blocks
        (init_directory_table s node inode parent).0
        (directory_block s (inode_to_bgd inode)).0
      ≡ dot_entries (zeroed (directory_block s (inode_to_bgd inode)).1) inode parent
unfolding init_directory_table
made_block s node inode parent h1 h2 =
    let d = (directory_block s (inode_to_bgd inode)).0 in
    let s1 = (directory_block s (inode_to_bgd inode)).1 in
    let w = write_blocks s1 (dot_entries (zeroed s1) inode parent) d in
    let kept =
      read_blocks-write_blocks_self s1 (dot_entries (zeroed s1) inode parent) d
        (dot_entries-OnStack s1 inode parent) in
    elim (Bool-cases (block_bitmap w 0 == 0)) [
      | inl none_yet ↦ rw none_yet kept
      | inr some_bitmap ↦ rw some_bitmap (read_blocks-sync_metadata w d h1 h2 ∙ kept)
    ]

module _ (s : Fs) (dir : Inode) (inode parent : ℕ) (before : Bytes) (t : IsTabled s)
    (hi : IsInodeNumber inode) (ok : IsInode dir)
    (apart : inode_block s inode ≢ dir.i_block 0) where
  loaded : SameInode (load_node (sync_node s dir inode) inode) dir
  loaded = (load-sync_node s dir inode t hi ok).0

  block_kept : read_blocks (sync_node s dir inode) (dir.i_block 0) ≡ read_blocks s (dir.i_block 0)
  block_kept =
      rw (sync_node_pos s dir inode hi.0)
        (read_blocks-write_blocks_ne s _ (inode_block s inode) (dir.i_block 0) apart)

  pub stored-IsNewDirectory :
      dir.i_mode ≡ ifdir
      → dir.i_size ≡ 512
      → dir.i_blocks ≡ 1
      → dir.i_block 0 ≢ 0
      → read_blocks s (dir.i_block 0) ≡ dot_entries before inode parent
      → parent < 2 ^ 32
      → IsNewDirectory (sync_node s dir inode) inode parent
  stored-IsNewDirectory mode size blocks used content in_range =
      let at = loaded.3 0 (omega arith) in
      record {
        is_dir = rw (loaded.0, mode) refl;
        one_block = loaded.2 ∙ blocks;
        one_size = loaded.1 ∙ size;
        has_block = rw at used;
        before = before;
        content = rw at (block_kept ∙ content);
        in_range = omega (arith, hi);
        parent_in_range = in_range;
        used = omega (arith, hi);
      }

-- The block that is taken for the directory of an inode.
abbrev pub dir_block : Fs → ℕ → ℕ
dir_block s inode = (directory_block s (inode_to_bgd inode)).0

-- The inode tables stand where they stood.
abbrev pub SameTables : Fs → Fs → Type 0
SameTables s s1 = (bg : ℕ) → (s1.bgdt_cache bg).bg_inode_table ≡ (s.bgdt_cache bg).bg_inode_table

abbrev AnswerKeeps : Fs → Option (ℕ × Fs) → Type 0
AnswerKeeps s none = Unit {0}
AnswerKeeps s (some (num, s1)) = SameTables s s1

claim_block-SameTables : (s : Fs) (bg idx : ℕ) → SameTables s (claim_block s bg idx)
unfolding claim_block write_blocks
claim_block-SameTables s bg idx b = ground arith

found-SameTables :
    (s : Fs) (bg : ℕ) (found : Option ℕ) (next : Option (ℕ × Fs))
    → AnswerKeeps s next
    → AnswerKeeps s (elim found [
      | some idx ↦ some (bg * blocks_per_group + idx, claim_block s bg idx)
      | none ↦ next
    ])
found-SameTables s bg none next h = h
found-SameTables s bg (some idx) next h = claim_block-SameTables s bg idx

allocate_from-SameTables : (rounds bg : ℕ) (s : Fs) → AnswerKeeps s (allocate_from rounds bg s)
unfolding allocate_from
allocate_from-SameTables zero bg s = tt
allocate_from-SameTables (suc rounds) bg s =
    let later = allocate_from-SameTables rounds (bg + 1) s in
    pick (AnswerKeeps s) (ltb 0 (s.bgdt_cache bg).bg_free_blocks_count) _ _
      (found-SameTables s bg (find_clear blocks_per_group (read_blocks s (block_bitmap s bg))) _
        later)
      later

answer-SameTables :
    (s : Fs) (bgd : ℕ) (answer : Option (ℕ × Fs))
    → AnswerKeeps s answer
    → SameTables s
        (elim answer as (λ x. ℕ × Fs) [
          | none ↦ (fallback_block bgd, s)
          | some (num, s1) ↦ (num, s1)
        ]).1
answer-SameTables s bgd none h bg = refl
answer-SameTables s bgd (some (num, s1)) h bg = h bg

directory_block-SameTables : (s : Fs) (bgd : ℕ) → SameTables s (directory_block s bgd).1
unfolding directory_block allocate_block
directory_block-SameTables s bgd =
    pick (λ (r : ℕ × Fs). SameTables s r.1) (block_bitmap s 0 == 0) _ _ (λ bg. refl)
      (answer-SameTables s bgd (allocate_block s bgd)
        (allocate_from-SameTables (groups_count - bgd) bgd s))

pub init_directory_table-SameTables :
    (s : Fs) (node : Inode) (inode parent : ℕ)
    → SameTables s (init_directory_table s node inode parent).0
unfolding init_directory_table sync_metadata write_blocks
init_directory_table-SameTables s node inode parent bg =
    let kept = directory_block-SameTables s (inode_to_bgd inode) bg in
    let s1 = (directory_block s (inode_to_bgd inode)).1 in
    let w = write_blocks s1 (dot_entries (zeroed s1) inode parent) (dir_block s inode) in
    pick (λ (x : Fs). (x.bgdt_cache bg).bg_inode_table ≡ (s.bgdt_cache bg).bg_inode_table)
      (block_bitmap w 0 == 0) w (sync_metadata w) kept kept

pub IsTabled-SameTables : (s s1 : Fs) → SameTables s s1 → IsTabled s → IsTabled s1
IsTabled-SameTables s s1 same t = record {
  fits = λ bg h. rw (same bg) (t.fits bg h);
  tables_apart = λ a b ha hb ne. rw (same a, same b) (t.tables_apart a b ha hb ne);
}

pub inode_block-SameTables :
    (s s1 : Fs) (inode : ℕ) → SameTables s s1 → inode_block s1 inode ≡ inode_block s inode
unfolding inode_block
inode_block-SameTables s s1 inode same = rw (same (inode_to_bgd inode)) refl
