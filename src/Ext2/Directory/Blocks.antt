-- ===== src/Ext2/Directory/Blocks.antt =====
-- A directory of several blocks in src/filesystem/ext2.c.
use loss_os.Prelude.{
  ℕ, suc, ◌+◌, ◌<◌, ◌≡◌, refl, arith, Bytes, Option, none, some, ◌==◌, false, inl, inr, ap, sym,
  ◌∙◌, Option-cases, not, true, ◌⊎◌,
}
use loss_os.Ext2.Layout.{block_size, Inode, DriverRequest}
use loss_os.Ext2.Device.{Fs, read_blocks, load_node}
use loss_os.Ext2.Nodes.{is_dir_mode}
use loss_os.Ext2.Directory.{search_block, search_blocks, find_entry}
use loss_os.Ext2.Directory.Chain.{IsChain, lookup, entry_at}

-- Each of the `count` blocks has a number other than 0 and is a chain of records.
pub record IsDirectory (s : Fs) (pointers : ℕ → ℕ) (count : ℕ) : Type 0 where
  pub nonzero : (k : ℕ) → k < count → (pointers k == 0) ≡ false
  pub chain : (k : ℕ) → k < count → IsChain (read_blocks s (pointers k)) 0

module _ (rounds bi : ℕ) (s : Fs) (pointers : ℕ → ℕ) (name : Bytes) (len : ℕ) where
  abbrev b : Bytes
  b = read_blocks s (pointers bi)

  abbrev searched : Option ℕ
  searched = search_block block_size b 0 name len

  -- The file system's search goes on behind a block without the name.
  pub search_blocks_later :
      (pointers bi == 0) ≡ false
      → lookup block_size (read_blocks s (pointers bi)) 0 name len ≡ none
      → search_blocks (suc rounds) bi s pointers name len
        ≡ search_blocks rounds (bi + 1) s pointers name len
  unfolding search_blocks
  search_blocks_later nz miss = elim (Option-cases searched) [
    | inl e ↦ rw (nz, e) refl
    | inr (off, e) ↦ let q = ap (entry_at b) (sym e) ∙ miss in ground (arith, q)
  ]

  -- It ends at the first block with it.
  pub search_blocks_here :
      (found : ℕ × ℕ)
      → (pointers bi == 0) ≡ false
      → lookup block_size (read_blocks s (pointers bi)) 0 name len ≡ some found
      → search_blocks (suc rounds) bi s pointers name len ≡ some found
  unfolding search_blocks
  search_blocks_here found nz hit = elim (Option-cases searched) [
    | inl e ↦ let q = ap (entry_at b) (sym e) ∙ hit in ground (arith, q)
    | inr (off, e) ↦ let q = ap (entry_at b) (sym e) ∙ hit in rw (nz, e) q
  ]

module _ (s : Fs) (r : DriverRequest) where
  abbrev pub parent_of : Inode
  parent_of = load_node s r.parent_inode

  -- What the file system's search finds under the request's name: an inode and a file type.
  abbrev pub named : Option (ℕ × ℕ)
  named = find_entry s parent_of r.name r.name_len

  -- The parent is an inode's number, and that inode is a directory.
  abbrev pub HasParent : Type 0
  HasParent = (r.parent_inode == 0 ≡ false) × (is_dir_mode parent_of ≡ true)

  abbrev pub HasNoParent : Type 0
  HasNoParent = (r.parent_inode == 0 ≡ true) ⊎ (is_dir_mode parent_of ≡ false)

  pub with_parent : r.parent_inode == 0 ≡ false → not (is_dir_mode parent_of) ≡ false → HasParent
  with_parent nz d = (nz, ground (arith, d))
