-- ===== src/Text/Strings.antt =====
-- What `strlen` and `append` of src/lib/string.c do with strings.
use loss_os.Prelude.{
  ℕ, zero, suc, ◌+◌, ◌-◌, ◌≤◌, ◌<◌, ◌≡◌, ◌≢◌, refl, ◌∙◌, ◌⊎◌, inl, inr, Bytes, ltb, leb, ◌&&◌,
  if◌then◌else◌, arith, Option, some, ℤ, pos, negsuc, dec_lt, lt→ltb, le→ltb,
}
use loss_os.Text.{strlen_from, strlen, memcpy, append}
use loss_os.Text.Copy.{memcpy_lem}

-- A string of `n` characters stands at `a`.
pub record IsString (m : Bytes) (a n : ℕ) : Type 0 where
  pub filled : (i : ℕ) → i < n → m (a + i) ≢ 0
  pub ended : m (a + n) ≡ 0

strlen_from-IsString :
    (fuel : ℕ) (m : Bytes) (str len n : ℕ)
    → IsString m str n
    → len ≤ n
    → n < len + fuel
    → strlen_from fuel m str len ≡ some n
unfolding strlen_from
strlen_from-IsString zero m str len n h lo hi = absurd (omega arith)
strlen_from-IsString (suc fuel) m str len n h lo hi = elim (dec_lt len n) [
  | yes before ↦ ground (
    arith,
    h.filled len before,
    strlen_from-IsString fuel m str (len + 1) n h (omega arith) (omega arith),
  )
  | no at_end ↦ let e : len ≡ n = omega arith in rw e (ground (arith, h.ended))
]

pub strlen-IsString :
    (fuel : ℕ) (m : Bytes) (str n : ℕ) → IsString m str n → n < fuel → strlen fuel m str ≡ some n
unfolding strlen
strlen-IsString fuel m str n h hi =
    strlen_from-IsString fuel m str 0 n h (omega arith) (omega arith)

-- A refusal leaves the memory; otherwise both texts fit in the buffer, and the second, with its
-- terminator, follows the first.
abbrev pub Appended : Bytes → ℕ → ℕ → ℕ → ℕ → ℕ → Option (ℤ × Bytes) → Type 0
Appended m dest src dlen slen bufsize r =
    ((bufsize < dlen + slen + 1) × (r ≡ some (negsuc 0, m)))
    ⊎ ((dlen + slen + 1 ≤ bufsize)
        × (m' : Bytes) × (r ≡ some (pos 0, m'))
        × IsString m' dest (dlen + slen)
        × ((j : ℕ)
            → m' j ≡ (
                if leb (dest + dlen) j && ltb j (dest + dlen + slen + 1)
                then m (src + (j - (dest + dlen)))
                else m j)))

append-eq :
    (fuel : ℕ) (m : Bytes) (dest src dlen slen bufsize : ℕ)
    → IsString m dest dlen
    → IsString m src slen
    → dlen < fuel
    → slen < fuel
    → append fuel m dest src bufsize
      ≡ some (
          if ltb bufsize (dlen + slen + 1)
          then (negsuc 0, m)
          else (pos 0, memcpy m (dest + dlen) src (slen + 1)))
unfolding append
append-eq fuel m dest src dlen slen bufsize hd hs fd fs =
    rw (strlen-IsString fuel m dest dlen hd fd, strlen-IsString fuel m src slen hs fs, append) refl

joined_byte :
    (m : Bytes) (dest src dlen slen j : ℕ)
    → (dest + dlen < src) ⊎ (src + slen + 1 ≤ dest + dlen)
    → memcpy m (dest + dlen) src (slen + 1) j ≡ (
        if leb (dest + dlen) j && ltb j (dest + dlen + slen + 1)
        then m (src + (j - (dest + dlen)))
        else m j)
joined_byte m dest src dlen slen j apart =
    memcpy_lem m (dest + dlen) src (slen + 1) j (omega arith) ∙ ground arith

joined-IsString :
    (m : Bytes) (dest src dlen slen : ℕ)
    → IsString m dest dlen
    → IsString m src slen
    → (dest + dlen < src) ⊎ (src + slen + 1 ≤ dest + dlen)
    → IsString (memcpy m (dest + dlen) src (slen + 1)) dest (dlen + slen)
joined-IsString m dest src dlen slen hd hs apart = record {
  filled = λ i h. elim (dec_lt i dlen) [
    | yes first ↦
        ground (arith, joined_byte m dest src dlen slen (dest + i) apart, hd.filled i first)
    | no second ↦
        let e : dest + i - (dest + dlen) ≡ i - dlen = omega arith in
        rw (joined_byte m dest src dlen slen (dest + i) apart, e)
          (ground (arith, hs.filled (i - dlen) (omega arith)))
  ];
  ended =
      let e : dest + (dlen + slen) - (dest + dlen) ≡ slen = omega arith in
      rw (joined_byte m dest src dlen slen (dest + (dlen + slen)) apart, e)
        (ground (arith, hs.ended));
}

-- With enough fuel for both strings, `append` of a string that does not overlap the end of the
-- buffer's text refuses exactly if the joined string and its terminator do not fit; otherwise the
-- buffer then holds the joined string, and no byte outside the place of the second text changes.
pub append_lem :
    (fuel : ℕ) (m : Bytes) (dest src dlen slen bufsize : ℕ)
    → IsString m dest dlen
    → IsString m src slen
    → dlen < fuel
    → slen < fuel
    → (dest + dlen < src) ⊎ (src + slen + 1 ≤ dest + dlen)
    → Appended m dest src dlen slen bufsize (append fuel m dest src bufsize)
append_lem fuel m dest src dlen slen bufsize hd hs fd fs apart =
    elim (dec_lt bufsize (dlen + slen + 1)) [
      | yes big ↦ inl (
        big,
        append-eq fuel m dest src dlen slen bufsize hd hs fd fs
            ∙ rw (lt→ltb bufsize (dlen + slen + 1) big) refl,
      )
      | no fits ↦ inr (
        omega arith,
        memcpy m (dest + dlen) src (slen + 1),
        append-eq fuel m dest src dlen slen bufsize hd hs fd fs
            ∙ rw (le→ltb bufsize (dlen + slen + 1) (omega arith)) refl,
        joined-IsString m dest src dlen slen hd hs apart,
        λ j. joined_byte m dest src dlen slen j apart,
      )
    ]
