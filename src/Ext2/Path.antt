-- ===== src/Ext2/Path.antt =====
-- `get_inode_for_path` of src/filesystem/ext2.c. A path is the list of its characters before the
-- terminator.
use loss_os.Prelude.{
  ℕ, zero, suc, ◌+◌, Bytes, Bool, ◌||◌, Option, none, some, List, [], ◌∷◌, length, get_or, ltb,
  ◌==◌, if◌then◌else◌, zeroes, true,
}
use loss_os.Text.{is_zero}
use loss_os.Ext2.Layout.{DriverRequest, block_size, entry_inode}
use loss_os.Ext2.Device.{Fs, read_blocks, load_node}
use loss_os.Ext2.Directory.{search_block}
use loss_os.Ext2.Read.{read_directory}

-- `while (*end && *end != '/') end++`: the characters passed over.
unfoldable pub component : List ℕ → List ℕ
component [] = []
component (c ∷ cs) = if c == b'/' then [] else c ∷ component cs

-- What follows them.
unfoldable pub after_component : List ℕ → List ℕ
after_component [] = []
after_component (c ∷ cs) = if c == b'/' then c ∷ cs else after_component cs

-- `if (*end == '/') end++`
unfoldable pub skip_slash : List ℕ → List ℕ
skip_slash [] = []
skip_slash (c ∷ cs) = if c == b'/' then cs else c ∷ cs

-- The search of this function goes on behind a zero pointer.
unfoldable pub search_all : ℕ → ℕ → Fs → (ℕ → ℕ) → Bytes → ℕ → Option ℕ
search_all zero i s pointers name len = none
search_all (suc rounds) i s pointers name len =
    let block = pointers i in
    let b = read_blocks s block in
    let rest = search_all rounds (i + 1) s pointers name len in
    if block == 0 then rest else elim (search_block block_size b 0 name len) [
      | some off ↦ some (entry_inode b off)
      | none ↦ rest
    ]

unfoldable pub path_request : List ℕ → ℕ → DriverRequest
path_request temp current_inode = record {
  buf = zeroes;
  name = λ i. get_or temp i 0;
  name_len = length temp;
  parent_inode = current_inode;
  buffer_size = 0;
  is_directory = true;
}

-- The loop over the components; each takes at least one character.
unfoldable pub resolve : ℕ → Fs → List ℕ → ℕ → ℕ
resolve zero s start current_inode = current_inode
resolve (suc fuel) s [] current_inode = current_inode
resolve (suc fuel) s (c ∷ cs) current_inode =
    let start = c ∷ cs in
    let temp = component start in
    let r = path_request temp current_inode in
    let node = load_node s current_inode in
    if length temp == 0 || ltb 64 (length temp) then 0 else elim (is_zero (read_directory s r).0) [
      | Bool.false ↦ 0
      | true ↦ elim (search_all node.i_blocks 0 s node.i_block r.name r.name_len) [
        | none ↦ 0
        | some inode ↦ resolve fuel s (skip_slash (after_component start)) inode
      ]
    ]

unfoldable pub get_inode_for_path : Fs → List ℕ → ℕ
get_inode_for_path s [] = 0
get_inode_for_path s (c ∷ []) = if c == b'/' then 1 else 0
get_inode_for_path s (c ∷ d ∷ cs) = if c == b'/' then resolve (length (d ∷ cs)) s (d ∷ cs) 1 else 0
