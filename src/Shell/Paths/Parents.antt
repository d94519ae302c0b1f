-- ===== src/Shell/Paths/Parents.antt =====
-- What `..` leads to in src/commands/cd.c, by way of the file system's `read_directory`.
use loss_os.Prelude.{
  ℕ, ◌^◌, ◌<◌, ◌≡◌, ◌≢◌, ◌∙◌, refl, Bytes, List, ◌∷◌, codes, as_bytes, arith, Option, none, some,
  peek16_of_eq, peek32_of_eq, ne→==,
}
use loss_os.Ext2.Layout.{
  Inode, DriverRequest, block_size, ft_dir, entry_inode, entry_rec_len, entry_name_len,
}
use loss_os.Ext2.Device.{Fs, load_node, read_blocks}
use loss_os.Ext2.Directory.{dot_entries, find_entry, search_blocks, search_block}
use loss_os.Ext2.Directory.Chain.{entry_at}
use loss_os.Ext2.Directory.Made.{IsNewDirectory}
use loss_os.Ext2.Directory.Dots.{lookup-dot_entries_self, self-IsEntry, parent-IsEntry, parent_name}
use loss_os.Ext2.Read.{copy_into, read_directory, read_directory_entry}
use loss_os.Shell.{Str, Session, files, read_dot, sys_read_directory, return_word, request}
use loss_os.Shell.Paths.{
  get_parent_inode, second_entry, cd, walk, split_path, split_from, stored, str_eq,
}

-- The buffer that `read_directory` fills with the block.
abbrev filled : Bytes → Bytes → Bytes
filled buf b = copy_into buf 0 b 512

filled-within : (buf b : Bytes) (i : ℕ) → i < 512 → filled buf b i ≡ b i
unfolding copy_into
filled-within buf b i h = ground arith

second_entry-dot_entries :
    (buf before : Bytes) (inode parent : ℕ)
    → inode < 2 ^ 32
    → parent < 2 ^ 32
    → second_entry (filled buf (dot_entries before inode parent)) ≡ parent
unfolding second_entry
second_entry-dot_entries buf before inode parent h hp =
    let b = dot_entries before inode parent in
    let own = self-IsEntry before inode parent h hp in
    let up = parent-IsEntry before inode parent h hp in
    let c = filled buf b in
    let len0 =
      peek16_of_eq c b 4 (λ i h1 h2. filled-within buf b i (omega arith)) ∙ own.rec_len_is in
    let len12 =
      peek16_of_eq c b 18 (λ i h1 h2. filled-within buf b i (omega arith)) ∙ up.name_len_is in
    let ino12 =
      peek32_of_eq c b 12 (λ i h1 h2. filled-within buf b i (omega arith)) ∙ up.inode_is in
    let c21 =
      filled-within buf b 21 (omega arith) ∙ parent_name before inode parent h hp 0 (omega arith) in
    let c22 =
      filled-within buf b 22 (omega arith) ∙ parent_name before inode parent h hp 1 (omega arith) in
    rw (len0, len12, c21, c22, ino12) refl

found_at :
    (b : Bytes) (o : Option ℕ) (x : ℕ × ℕ) (rest : Option (ℕ × ℕ))
    → entry_at b o ≡ some x
    → elim o [
      | some off ↦ some (entry_inode b off, loss_os.Ext2.Layout.entry_file_type b off)
      | none ↦ rest
    ]
      ≡ some x
found_at b none x rest h = absurd (ground arith)
found_at b (some off) x rest h = h

find_entry-dot :
    (s : Fs) (inode parent : ℕ) (name : Bytes)
    → IsNewDirectory s inode parent
    → name 0 ≡ b'.'
    → find_entry s (load_node s inode) name 1 ≡ some (inode, ft_dir)
unfolding find_entry search_blocks
find_entry-dot s inode parent name d at_first =
    let blk = (load_node s inode).i_block 0 in
    let b = read_blocks s blk in
    rw (d.one_block, ne→== blk 0 d.has_block)
      (found_at b (search_block block_size b 0 name 1) (inode, ft_dir) none
        (rw d.content (
          lookup-dot_entries_self d.before inode parent d.in_range d.parent_in_range name d.used
            at_first)))

read_dot-IsNewDirectory :
    (t : Session) (buf : Bytes) (inode parent : ℕ)
    → (d : IsNewDirectory (files t) inode parent)
    → read_dot t 0 buf inode ≡ (0, filled buf (dot_entries d.before inode parent))
unfolding read_dot sys_read_directory read_directory read_directory_entry request return_word
read_dot-IsNewDirectory t buf inode parent d =
    let found = find_entry-dot (files t) inode parent (as_bytes (codes ".")) d refl in
    rw
      (
        ne→== inode 0 d.used,
        d.is_dir,
        found,
        d.one_block,
        ne→== ((load_node (files t) inode).i_block 0) 0 d.has_block,
        d.one_size,
        d.content,
      )
      refl

-- From a directory other than the root, as it is made, the entry `..` leads to its parent.
get_parent_inode-IsNewDirectory :
    (t : Session) (inode parent : ℕ)
    → IsNewDirectory (files t) inode parent
    → inode ≢ 1
    → get_parent_inode t inode ≡ parent
unfolding get_parent_inode
get_parent_inode-IsNewDirectory t inode parent d h =
    rw (ne→== inode 1 h, read_dot-IsNewDirectory t (files t).stack inode parent d)
      (second_entry-dot_entries (files t).stack d.before inode parent d.in_range d.parent_in_range)

-- `cd ..` in a directory other than the root, as `init_directory_table` leaves it, goes to the
-- parent that its second entry names, if that is an inode other than 0, and prints nothing.
pub cd-up :
    (t : Session) (inode parent : ℕ) (args : List Str)
    → IsNewDirectory (files t) inode parent
    → inode ≢ 1
    → parent ≢ 0
    → cd inode (codes ".." ∷ args) t ≡ (parent, t)
unfolding cd walk split_path split_from stored str_eq
cd-up t inode parent args d h hp =
    rw (get_parent_inode-IsNewDirectory t inode parent d h, ne→== parent 0 hp) refl
