-- ===== src/Ext2/Bitmap/Search.antt =====
-- The search for a clear bit and the marking of one, against the bits of the bitmap.
use loss_os.Prelude.{
  ℕ, zero, suc, ◌+◌, ◌*◌, ◌/◌, ◌%◌, ◌≤◌, ◌<◌, ◌≡◌, refl, subst, ◌∙◌, Bytes, Bool, true, false, not,
  ◌&&◌, ◌||◌, Option, none, some, inl, inr, poke, poke_self, poke_ne, leb, ◌==◌, test_bit, set_bit,
  clear_bit, test_bit-set_bit, test_bit-clear_bit, set_bit-lt, clear_bit-lt, test_bit_full, arith,
  Bool-cases, Option-cases, ==_iff, ℕ_discrete, dec_lt,
}
use loss_os.Ext2.Layout.{block_size}
use loss_os.Ext2.Bitmap.{scan_bits, scan_bytes, find_clear, mark, unmark}

-- Bit `j` of a bitmap.
unfoldable pub bit_at : Bytes → ℕ → Bool
bit_at m j = test_bit (m (j / 8)) (j % 8)

-- Every cell is a byte.
abbrev pub IsBytes : Bytes → Type 0
IsBytes m = (i : ℕ) → m i < 256

abbrev pub AllSet : Bytes → ℕ → ℕ → ℕ → Type 0
AllSet m limit lo hi = (j : ℕ) → lo ≤ j → j < hi → j < limit → bit_at m j ≡ true

-- What a search of the bits from `lo` to `hi` answers: the first clear bit below the limit.
abbrev pub Searched : Bytes → ℕ → ℕ → ℕ → Option ℕ → Type 0
Searched m limit lo hi none = AllSet m limit lo hi
Searched m limit lo hi (some idx) =
    (lo ≤ idx) × (idx < limit) × (idx < hi) × (bit_at m idx ≡ false) × AllSet m limit lo idx

AllSet-join :
    (m : Bytes) (limit lo mid hi : ℕ)
    → AllSet m limit lo mid
    → AllSet m limit mid hi
    → AllSet m limit lo hi
AllSet-join m limit lo mid hi a b j h1 h2 h3 = elim (dec_lt j mid) [
  | yes p ↦ a j h1 p h3
  | no p ↦ b j (omega arith) h2 h3
]

Searched-join :
    (m : Bytes) (limit lo mid hi : ℕ) (r : Option ℕ)
    → lo ≤ mid
    → AllSet m limit lo mid
    → Searched m limit mid hi r
    → Searched m limit lo hi r
Searched-join m limit lo mid hi none h a rest = AllSet-join m limit lo mid hi a rest
Searched-join m limit lo mid hi (some idx) h a (h1, h2, h3, h4, h5) =
    (omega arith, h2, h3, h4, AllSet-join m limit lo mid idx a h5)

AllSet-one : (m : Bytes) (limit lo : ℕ) → bit_at m lo ≡ true → AllSet m limit lo (lo + 1)
AllSet-one m limit lo e j h1 h2 h3 =
    let p : lo ≡ j = omega arith in subst (λ k. bit_at m k ≡ true) p e

bit_at_byte :
    (m : Bytes) (byte bit : ℕ) → bit < 8 → bit_at m (byte * 8 + bit) ≡ test_bit (m byte) bit
unfolding bit_at
bit_at_byte m byte bit h =
    let e : (byte * 8 + bit) / 8 ≡ byte = omega arith in
    let e' : (byte * 8 + bit) % 8 ≡ bit = omega arith in rw (e, e')

scan_bits-Searched :
    (limit : ℕ) (m : Bytes) (byte rounds bit : ℕ)
    → bit + rounds ≡ 8
    → Searched m limit (byte * 8 + bit) (byte * 8 + 8) (scan_bits limit m byte rounds bit)
unfolding scan_bits
scan_bits-Searched limit m byte zero bit h = λ j h1 h2 h3. absurd (omega arith)
scan_bits-Searched limit m byte (suc rounds) bit h =
    elim (Bool-cases (leb limit (byte * 8 + bit))) [
      | inl out ↦ rw out (λ j h1 h2 h3. absurd (ground arith))
      | inr within ↦ elim (Bool-cases (test_bit (m byte) bit)) [
        | inl e ↦
            rw (within, e)
              (Searched-join m limit (byte * 8 + bit) (byte * 8 + bit + 1) (byte * 8 + 8) _
                (omega arith)
                (AllSet-one m limit (byte * 8 + bit) (bit_at_byte m byte bit (omega arith) ∙ e))
                (let assoc : byte * 8 + (bit + 1) ≡ byte * 8 + bit + 1 = omega arith in
                  subst
                    (λ lo.
                      Searched m limit lo (byte * 8 + 8) (scan_bits limit m byte rounds (bit + 1)))
                    assoc (scan_bits-Searched limit m byte rounds (bit + 1) (omega arith))))
        | inr e ↦
            rw (within, e)
              (
                omega arith,
                ground arith,
                omega arith,
                bit_at_byte m byte bit (omega arith) ∙ e,
                λ j h1 h2 h3. absurd (omega arith),
              )
      ]
    ]

-- A byte 0xFF is skipped: all its bits are set.
full_byte :
    (limit : ℕ) (m : Bytes) (byte : ℕ) → m byte ≡ 0xFF → AllSet m limit (byte * 8) (byte * 8 + 8)
unfolding bit_at
full_byte limit m byte e j h1 h2 h3 =
    let same : j / 8 ≡ byte = omega arith in rw (same, e) (test_bit_full (j % 8) (omega arith))

Searched-widen :
    (m : Bytes) (limit lo mid hi idx : ℕ)
    → mid ≤ hi
    → Searched m limit lo mid (some idx)
    → Searched m limit lo hi (some idx)
Searched-widen m limit lo mid hi idx h (h1, h2, h3, h4, h5) = (h1, h2, omega arith, h4, h5)

Searched-next :
    (m : Bytes) (limit byte rounds : ℕ) (r : Option ℕ)
    → Searched m limit ((byte + 1) * 8) ((byte + 1 + rounds) * 8) r
    → AllSet m limit (byte * 8) (byte * 8 + 8)
    → Searched m limit (byte * 8) ((byte + suc rounds) * 8) r
Searched-next m limit byte rounds r rest a =
    let e1 : (byte + 1) * 8 ≡ byte * 8 + 8 = omega arith in
    let e2 : (byte + 1 + rounds) * 8 ≡ (byte + suc rounds) * 8 = omega arith in
    Searched-join m limit (byte * 8) (byte * 8 + 8) ((byte + suc rounds) * 8) r (omega arith) a (
      subst (λ lo. Searched m limit lo ((byte + suc rounds) * 8) r) e1
        (subst (λ hi. Searched m limit ((byte + 1) * 8) hi r) e2 rest))

scan_bytes-Searched :
    (limit : ℕ) (m : Bytes) (rounds byte : ℕ)
    → Searched m limit (byte * 8) ((byte + rounds) * 8) (scan_bytes limit m rounds byte)
unfolding scan_bytes
scan_bytes-Searched limit m zero byte = λ j h1 h2 h3. absurd (omega arith)
scan_bytes-Searched limit m (suc rounds) byte = elim (Bool-cases (m byte == 0xFF)) [
  | inl e ↦ rw e (
      Searched-next m limit byte rounds _ (scan_bytes-Searched limit m rounds (byte + 1))
        (full_byte limit m byte ((==_iff _ _).0 e)))
  | inr e ↦ elim (Option-cases (scan_bits limit m byte 8 0)) [
    | inl ne ↦
        rw (e, ne)
          (Searched-next m limit byte rounds _ (scan_bytes-Searched limit m rounds (byte + 1))
            (subst (λ r. Searched m limit (byte * 8) (byte * 8 + 8) r) ne bits))
    | inr (idx, found) ↦
        rw (e, found)
          (Searched-widen m limit (byte * 8) (byte * 8 + 8) ((byte + suc rounds) * 8) idx
            (omega arith) (subst (λ r. Searched m limit (byte * 8) (byte * 8 + 8) r) found bits))
  ]
]
  where
    bits : Searched m limit (byte * 8) (byte * 8 + 8) (scan_bits limit m byte 8 0)
    bits =
        let e : byte * 8 + 0 ≡ byte * 8 = omega arith in
        subst (λ lo. Searched m limit lo (byte * 8 + 8) (scan_bits limit m byte 8 0)) e
          (scan_bits-Searched limit m byte 8 0 refl)

-- If the bitmap's block has as many bits as the limit, the search answers the first clear bit below
-- the limit, and nothing only if every bit below the limit is set.
pub find_clear_lem :
    (limit : ℕ) (m : Bytes) → limit ≤ block_size * 8 → Searched m limit 0 limit (find_clear limit m)
unfolding find_clear
find_clear_lem limit m h =
    Searched-limit (scan_bytes limit m block_size 0) h (scan_bytes-Searched limit m block_size 0)
  where
    Searched-limit :
        (r : Option ℕ)
        → limit ≤ block_size * 8
        → Searched m limit 0 (block_size * 8) r
        → Searched m limit 0 limit r
    Searched-limit none h a = λ j h1 h2 h3. a j h1 (omega arith) h3
    Searched-limit (some idx) h (h1, h2, h3, h4, h5) = (h1, h2, h2, h4, h5)

-- Marking sets one bit, and unmarking clears one.
pub bit_at-mark :
    (m : Bytes) (idx j : ℕ) → IsBytes m → bit_at (mark m idx) j ≡ (idx == j) || bit_at m j
unfolding bit_at mark
bit_at-mark m idx j h = elim (ℕ_discrete (idx / 8) (j / 8)) [
  | yes e ↦
      rw
        (
          ← e,
          poke_self m (idx / 8) (set_bit (m (idx / 8)) (idx % 8)),
          test_bit-set_bit (m (idx / 8)) (idx % 8) (j % 8) (h _) (omega arith) (omega arith),
        )
        (ground arith)
  | no ne ↦ rw (poke_ne m (idx / 8) (set_bit (m (idx / 8)) (idx % 8)) (j / 8) ne) (ground arith)
]

pub bit_at-unmark :
    (m : Bytes) (off j : ℕ) → IsBytes m → bit_at (unmark m off) j ≡ not (off == j) && bit_at m j
unfolding bit_at unmark
bit_at-unmark m idx j h = elim (ℕ_discrete (idx / 8) (j / 8)) [
  | yes e ↦
      rw
        (
          ← e,
          poke_self m (idx / 8) (clear_bit (m (idx / 8)) (idx % 8)),
          test_bit-clear_bit (m (idx / 8)) (idx % 8) (j % 8) (h _) (omega arith) (omega arith),
        )
        (ground arith)
  | no ne ↦ rw (poke_ne m (idx / 8) (clear_bit (m (idx / 8)) (idx % 8)) (j / 8) ne) (ground arith)
]

pub mark-IsBytes : (m : Bytes) (idx : ℕ) → IsBytes m → IsBytes (mark m idx)
unfolding mark poke
mark-IsBytes m idx h i =
    ground (arith, h i, set_bit-lt (m (idx / 8)) (idx % 8) (h (idx / 8)) (omega arith))

pub unmark-IsBytes : (m : Bytes) (off : ℕ) → IsBytes m → IsBytes (unmark m off)
unfolding unmark poke
unmark-IsBytes m off h i =
    ground (arith, h i, clear_bit-lt (m (off / 8)) (off % 8) (h (off / 8)) (omega arith))
