-- ===== src/Ext2/Device/Access.antt =====
-- What a block read returns after a block write.
use mathlib.Core.Path.{fun_ext}
use loss_os.Prelude.{ℕ, ◌≤◌, ◌≡◌, ◌≢◌, Bytes, arith}
use loss_os.Ext2.Layout.{block_size}
use loss_os.Ext2.Device.{Fs, read_blocks, write_blocks}

-- A buffer that was filled by a read, or zeroed: past the first block it is the bare stack.
abbrev pub OnStack : Fs → Bytes → Type 0
OnStack s b = (i : ℕ) → block_size ≤ i → b i ≡ s.stack i

pub read_blocks-OnStack : (s : Fs) (lba : ℕ) → OnStack s (read_blocks s lba)
unfolding read_blocks
read_blocks-OnStack s lba i h = ground arith

pub read_blocks-write_blocks_self :
    (s : Fs) (b : Bytes) (lba : ℕ) → OnStack s b → read_blocks (write_blocks s b lba) lba ≡ b
unfolding read_blocks write_blocks
read_blocks-write_blocks_self s b lba h = fun_ext λ i. ground (arith, h i)

pub read_blocks-write_blocks_ne :
    (s : Fs) (b : Bytes) (at lba : ℕ)
    → at ≢ lba
    → read_blocks (write_blocks s b at) lba ≡ read_blocks s lba
unfolding read_blocks write_blocks
read_blocks-write_blocks_ne s b at lba h = fun_ext λ i. ground arith
