-- ===== src/Shell/Tests.antt =====
-- Runs of the theorems on src/user/user-shell.c and src/commands.
use mathlib.Core.Path.{fun_ext}
use loss_os.Prelude.{
  ◌+◌, ℕ, ◌≡◌, refl, true, inr, List, [], ◌∷◌, ◌++◌, codes, as_bytes, some, Bytes, zeroes, poke,
  poke16, poke32, peek16, peek32, ◌==◌, if◌then◌else◌, arith,
}
use loss_os.Text.{memcmp}
use loss_os.Ext2.Layout.{
  Inode, get_entry_record_len, put_inode, get_inode, put_pointers, inode_to_bgd, inode_to_local,
  ifdir,
}
use loss_os.Ext2.Device.{read_blocks, load_node, inode_block, inode_index}
use loss_os.Ext2.Directory.{
  dot_entries, put_entry, entry_matches, search_block, search_blocks, find_entry,
}
use loss_os.Ext2.Directory.Chain.{IsChain, link, end, lookup}
use loss_os.Ext2.Read.{copy_into, read_directory, read_directory_entry}
use loss_os.Ext2.Write.{write}
use loss_os.Process.Tests.{kernel}
use loss_os.Shell.{
  Session, files, set_files, say, request, return_word, sys_read_directory, read_dot,
  directory_buffer_size,
}
use loss_os.Shell.Entries.{entries, get_inode_by_name}
use loss_os.Shell.Entries.Lookup.{in_buffer, inode_of, get_inode_by_name-lookup}
use loss_os.Shell.Files.{mkdir, ls_from}
use loss_os.Shell.Files.Reports.{answered, mkdir_lem}
use loss_os.Shell.Paths.{split_path, child_from, cd}
use loss_os.Shell.Paths.Parents.{cd-up}
use loss_os.Ext2.Directory.Made.{IsNewDirectory}
use loss_os.Shell.Paths.Split.{joined, split_path-joined}
use loss_os.Shell.Commands.{Shell, terminal, terminals, prompted, run}
use loss_os.Shell.Commands.Typed.{edited, drop_last}
use loss_os.Shell.Commands.Sessions.{executed, all_executed, terminals-executed, terminal-run}
use loss_os.Shell.Walks.{Ended, walks_end}

split_path-joined_example :
    split_path (joined (codes "usr" ∷ codes "local" ∷ [])) 16 ≡ codes "usr" ∷ codes "local" ∷ []
split_path-joined_example =
    split_path-joined 16 (codes "usr" ∷ codes "local" ∷ []) (omega arith) (omega arith)

walks_end_example :
    Ended (entries (directory_buffer_size + 1) zeroes 0)
    × Ended (ls_from (directory_buffer_size + 1) zeroes 0)
    × Ended (child_from (directory_buffer_size + 1) zeroes 0 zeroes 1)
walks_end_example = walks_end zeroes zeroes 1

-- A disk with a root directory in block 20.
abbrev root_node : Inode
root_node = record { i_mode = ifdir; i_size = 512; i_blocks = 1; i_block = λ j. 20 }

abbrev small_disk : ℕ → Bytes
small_disk lba =
    if lba == 5
    then put_inode zeroes 0 root_node
    else if lba == 20
    then dot_entries zeroes 1 1
    else zeroes

abbrev session : Session
session =
    let fs = kernel.file_system in
    record {
      machine = record kernel { file_system = record fs { disk = small_disk } };
      shown = [];
      junk = 0;
    }

mkdir_example : mkdir 1 (codes "src" ∷ []) session ≡ (
    let r = write (files session) (request zeroes (codes "src") 1 0 true) in
    say (set_files session r.1) (
      (
        if answered r.0 == 1
            then codes "mkdir: directory already exists\n\n"
            else codes "mkdir success\n\n",
        0x7,
      )
      ∷ []))
mkdir_example = mkdir_lem 1 (codes "src") [] session (λ e. absurd (omega arith))

abbrev root_block : Bytes
root_block = read_blocks (files session) 20

root_read : read_dot session 0 zeroes 1 ≡ (0, in_buffer root_block)
unfolding read_dot sys_read_directory return_word request read_directory read_directory_entry
    load_node inode_block inode_index inode_to_bgd inode_to_local get_inode put_inode put_pointers
    read_blocks find_entry search_blocks search_block entry_matches memcmp dot_entries put_entry
    get_entry_record_len poke poke16 poke32 peek16 peek32 copy_into
root_read = refl

root_block-IsChain : IsChain root_block 0
unfolding read_blocks dot_entries put_entry get_entry_record_len poke poke16 poke32 peek16 peek32
root_block-IsChain =
    link 0 (omega arith) (omega arith) (inr (omega arith, omega arith))
      (link 12 (omega arith) (omega arith) (inr (omega arith, omega arith)) (end 512 refl))

get_inode_by_name_example :
    get_inode_by_name session 1 (codes "..")
    ≡ inode_of (lookup (directory_buffer_size + 1) root_block 0 (as_bytes (codes "..")) 2)
get_inode_by_name_example =
    get_inode_by_name-lookup session 1 (codes "..") root_block root_read root_block-IsChain

abbrev at_root : Shell
at_root = record { session = session; current_inode = 1; current_path = codes "/" }

-- `mkdij`, backspace, `r src`, with a moment in which no key was down.
abbrev making : List ℕ
making = codes "mkdij" ++ 8 ∷ 0 ∷ codes "r src"

-- `lx`, backspace, `s`.
abbrev listing : List ℕ
listing = b'l' ∷ b'x' ∷ 8 ∷ b's' ∷ []

making_text : edited [] making ≡ codes "mkdir src"
unfolding edited drop_last
making_text = refl

listing_text : edited [] listing ≡ codes "ls"
unfolding edited drop_last
listing_text = refl

terminals-executed_example :
    terminals 3 at_root zeroes ((making ++ 10 ∷ []) ∷ (listing ++ 10 ∷ []) ∷ [])
    ≡ some (executed 3 (executed 3 at_root making) listing, zeroes)
unfolding all_executed
terminals-executed_example =
    terminals-executed 3 at_root (making ∷ listing ∷ [])
      (omega arith, rw making_text (omega arith), (omega arith, rw listing_text (omega arith), tt))

terminal-run_example :
    terminal 3 at_root zeroes (making ++ 10 ∷ [])
    ≡ some (run 3 (prompted at_root (making ++ 10 ∷ [])) (codes "mkdir") (codes "src" ∷ []), zeroes)
terminal-run_example =
    terminal-run 3 at_root making [] (codes "mkdir") (codes "src" ∷ []) (omega arith)
      (rw making_text (omega arith)) (rw making_text refl) (omega arith) (omega arith) (omega arith)

-- The same disk with a directory in inode 3 and block 21.
abbrev inner_node : Inode
inner_node = record { i_mode = ifdir; i_size = 512; i_blocks = 1; i_block = λ j. 21 }

abbrev nested : Session
nested =
    let m = kernel in
    let fs = kernel.file_system in
    record {
      machine = record m {
        file_system = record fs {
          disk = λ lba.
              if lba == 5
              then put_inode (put_inode zeroes 0 root_node) 2 inner_node
              else if lba == 21
              then dot_entries zeroes 3 1
              else zeroes;
        };
      };
      shown = [];
      junk = 0;
    }

inner-IsNewDirectory : IsNewDirectory (files nested) 3 1
unfolding load_node inode_block inode_index inode_to_bgd inode_to_local get_inode put_inode
    put_pointers read_blocks poke poke16 poke32 peek16 peek32 dot_entries put_entry
    get_entry_record_len
inner-IsNewDirectory = record {
  is_dir = refl;
  one_block = refl;
  one_size = refl;
  has_block = λ e. absurd (omega (arith, e));
  before = zeroes;
  content = fun_ext (λ i. ground arith);
  in_range = omega arith;
  parent_in_range = omega arith;
  used = omega arith;
}

cd-up_example : cd 3 (codes ".." ∷ []) nested ≡ (1, nested)
cd-up_example = cd-up nested 3 1 [] inner-IsNewDirectory (omega arith) (omega arith)
