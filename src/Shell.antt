-- ===== src/Shell.antt =====
-- The user's shell: src/user/user-shell.c and src/commands. A command sees the file system through
-- system calls, and what it prints is kept as a list of texts with their colours.
pub mod Entries
pub mod Remove
pub mod Copy
pub mod Files
pub mod Paths
pub mod Tokens
pub mod Find
pub mod Commands
pub mod Walks
mod Tests
use loss_os.Prelude.{
  ℕ, ◌+◌, ◌-◌, ◌*◌, ◌/◌, ◌%◌, ◌^◌, Bool, true, false, ◌&&◌, ℤ, pos, negsuc, Bytes, zeroes, u8, u32,
  List, [], ◌∷◌, ◌++◌, length, as_bytes, codes, ◌==◌, if◌then◌else◌,
}
use loss_os.Text.{memcmp, is_zero}
use loss_os.Ext2.Layout.{DriverRequest, block_size}
use loss_os.Ext2.Device.{Fs}
use loss_os.Ext2.Read.{read, read_directory}
use loss_os.Ext2.Write.{write}
use loss_os.Ext2.Delete.{delete}
use loss_os.Process.{Machine}

abbrev pub Str : Type 0
Str = List ℕ

-- The kernel's state, what was printed so far, and `junk`: what an `int32_t` variable holds that is
-- not initialised.
pub record Session : Type 0 where
  pub machine : Machine
  pub shown : List (Str × ℕ)
  pub junk : ℕ

abbrev pub files : Session → Fs
files s = (s.machine).file_system

unfoldable pub set_files : Session → Fs → Session
set_files s fs1 = let m = s.machine in record s { machine = record m { file_system = fs1 } }

-- System call 6, for one text after the other.
unfoldable pub say : Session → List (Str × ℕ) → Session
say s texts = record s { shown = s.shown ++ texts }

-- The system calls store one byte, an `int8_t`, into the `int32_t` that the caller then reads.
unfoldable pub return_word : ℕ → ℤ → ℕ
return_word before (pos n) = before / 256 * 256 + u8 n
return_word before (negsuc n) = before / 256 * 256 + (255 - u8 n)

-- -1, as the bit pattern of an `int32_t`
abbrev pub minus_one : ℕ
minus_one = 2 ^ 32 - 1

-- `memcmp(arg, word, n) == 0 && strlen(arg) == n`, for a word of `n` characters
unfoldable pub is_word : Str → Str → Bool
is_word arg word =
    is_zero (memcmp (as_bytes arg) 0 (as_bytes word) 0 (length word)) && (length arg == length word)

abbrev pub directory_buffer_size : ℕ
directory_buffer_size = block_size * 16

unfoldable pub request : Bytes → Str → ℕ → ℕ → Bool → DriverRequest
request buf name parent_inode buffer_size is_directory = record {
  buf = buf;
  name = as_bytes name;
  name_len = u8 (length name);
  parent_inode = parent_inode;
  buffer_size = buffer_size;
  is_directory = is_directory;
}

-- System calls 0 to 3, with what the return variable held before.
unfoldable pub sys_read : Session → ℕ → DriverRequest → ℕ × Bytes
sys_read s before r = let (code, buf) = read (files s) r in (return_word before code, buf)

unfoldable pub sys_read_directory : Session → ℕ → DriverRequest → ℕ × Bytes
sys_read_directory s before r =
    let (code, buf) = read_directory (files s) r in (return_word before code, buf)

unfoldable pub sys_write : Session → ℕ → DriverRequest → ℕ × Session
sys_write s before r =
    let (code, fs1) = write (files s) r in (return_word before code, set_files s fs1)

unfoldable pub sys_delete : Session → ℕ → DriverRequest → ℕ × Session
sys_delete s before r =
    let (code, fs1) = delete (files s) r in (return_word before code, set_files s fs1)

-- The directory itself, read into a buffer of sixteen blocks.
unfoldable pub read_dot : Session → ℕ → Bytes → ℕ → ℕ × Bytes
read_dot s before buf inode =
    sys_read_directory s before (request buf (codes ".") inode directory_buffer_size false)
