-- ===== src/Text.antt =====
-- The C string and memory routines of src/lib/string.c. A pointer is an address in a byte memory;
-- a loop that C bounds by a terminator takes fuel.
pub mod Copy
pub mod Strings
mod Tests
use loss_os.Prelude.{
  ℕ, zero, suc, ◌+◌, ◌-◌, ◌≤◌, ◌<◌, Bool, true, false, ℤ, pos, negsuc, Bytes, poke, u8, ltb, ◌==◌,
  if◌then◌else◌, Option, none, some, List, [], ◌∷◌, ◌||◌, ◌&&◌, not, leb,
}

-- `memset`, at index `i` with `rounds` bytes to go.
memset_from : ℕ → ℕ → Bytes → ℕ → ℕ → Bytes
memset_from zero i m s c = m
memset_from (suc rounds) i m s c = memset_from rounds (i + 1) (poke m (s + i) (u8 c)) s c

unfoldable pub memset : Bytes → ℕ → ℕ → ℕ → Bytes
unfolding memset_from poke
memset m s c n = memset_from n 0 m s c

-- The ascending loop of `memcpy` and `memmove`.
unfoldable pub copy_up : ℕ → ℕ → Bytes → ℕ → ℕ → Bytes
copy_up zero i m dest src = m
copy_up (suc rounds) i m dest src =
    copy_up rounds (i + 1) (poke m (dest + i) (m (src + i))) dest src

unfoldable pub memcpy : Bytes → ℕ → ℕ → ℕ → Bytes
unfolding copy_up poke
memcpy m dest src n = copy_up n 0 m dest src

-- The descending loop of `memmove`; its argument is `i`.
unfoldable pub copy_down : ℕ → Bytes → ℕ → ℕ → Bytes
copy_down zero m dest src = m
copy_down (suc i) m dest src = copy_down i (poke m (dest + i) (m (src + i))) dest src

unfoldable pub memmove : Bytes → ℕ → ℕ → ℕ → Bytes
unfolding copy_up copy_down poke
memmove m dest src n = if ltb dest src then copy_up n 0 m dest src else copy_down n m dest src

-- `memcmp` of `n` bytes at `p` in `m1` and at `q` in `m2`.
unfoldable pub memcmp : Bytes → ℕ → Bytes → ℕ → ℕ → ℤ
memcmp m1 p m2 q zero = pos 0
memcmp m1 p m2 q (suc n) =
    let rest = memcmp m1 (p + 1) m2 (q + 1) n in
    if ltb (m1 p) (m2 q) then negsuc 0 else if ltb (m2 q) (m1 p) then pos 1 else rest

-- `memcmp(...) == 0`
abbrev pub is_zero : ℤ → Bool
is_zero (pos zero) = true
is_zero (pos (suc n)) = false
is_zero (negsuc n) = false

-- `strlen` counts from `len`; `none` is a string with no terminator within the fuel.
unfoldable pub strlen_from : ℕ → Bytes → ℕ → ℕ → Option ℕ
strlen_from zero m str len = none
strlen_from (suc fuel) m str len =
    let rest = strlen_from fuel m str (len + 1) in if m (str + len) == 0 then some len else rest

unfoldable pub strlen : ℕ → Bytes → ℕ → Option ℕ
unfolding strlen_from
strlen fuel m str = strlen_from fuel m str 0

-- `while ((*dest++ = *src++))`, after `i` characters.
unfoldable pub copy_string : ℕ → ℕ → Bytes → ℕ → ℕ → Option Bytes
copy_string zero i m dest src = none
copy_string (suc fuel) i m dest src =
    let m1 = poke m (dest + i) (m (src + i)) in
    let rest = copy_string fuel (i + 1) m1 dest src in if m (src + i) == 0 then some m1 else rest

unfoldable pub strcpy : ℕ → Bytes → ℕ → ℕ → Option Bytes
strcpy fuel m dest src = copy_string fuel 0 m dest src

unfoldable pub strcat : ℕ → Bytes → ℕ → ℕ → Option Bytes
strcat fuel m dest src = elim (strlen fuel m dest) [
  | none ↦ none
  | some n ↦ copy_string fuel 0 m (dest + n) src
]

-- The loop of `split`, at `p`, with room for `room` more tokens: the memory and the tokens that
-- start behind `p`.
unfoldable pub split_from : ℕ → ℕ → Bytes → ℕ → ℕ → Option (Bytes × List ℕ)
split_from zero room m p delim = none
split_from (suc fuel) room m p delim =
    let cut = poke m p 0 in
    let starts = (m p == delim) && not (cut (p + 1) == 0) in
    let rest =
      split_from fuel (if starts then room - 1 else room) (if m p == delim then cut else m) (p + 1)
        delim in
    if (m p == 0) || (room == 0) then some (m, []) else elim rest [
      | none ↦ none
      | some (m1, tokens) ↦ some (m1, if starts then (p + 1) ∷ tokens else tokens)
    ]

-- `split` of a string that is not NULL: the memory and the addresses of the tokens.
unfoldable pub split : ℕ → Bytes → ℕ → ℕ → ℕ → Option (Bytes × List ℕ)
split fuel m str delim max_tokens =
    if max_tokens == 0 then some (m, []) else elim (split_from fuel (max_tokens - 1) m str delim) [
      | none ↦ none
      | some (m1, tokens) ↦ some (m1, str ∷ tokens)
    ]

-- `append`: the answer and the memory.
unfoldable pub append : ℕ → Bytes → ℕ → ℕ → ℕ → Option (ℤ × Bytes)
append fuel m dest src bufsize = elim (strlen fuel m dest) [
  | none ↦ none
  | some dlen ↦ elim (strlen fuel m src) [
    | none ↦ none
    | some slen ↦ some (
        if ltb bufsize (dlen + slen + 1)
        then (negsuc 0, m)
        else (pos 0, memcpy m (dest + dlen) src (slen + 1)))
  ]
]
