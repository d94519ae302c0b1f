-- ===== src/Prelude/Chars.antt =====
-- C strings as lists of characters, without the terminator.
use Prim.Native.Nat.{ℕ}
use Prim.Native.Char.{code}
use Prim.Native.String.{String}
use mathlib.Core.List.{List, [], ◌∷◌}
use loss_os.Prelude.Lists.{get_or}
use loss_os.Prelude.Memory.{Bytes}

-- The characters of a literal.
abbrev pub codes : String → List ℕ
codes String.[] = []
codes (String.◌∷◌ c s) = code c ∷ codes s

-- The memory that a string points to; the terminator follows its characters.
abbrev pub as_bytes : List ℕ → Bytes
as_bytes string i = get_or string i 0
