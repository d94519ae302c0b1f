-- ===== src/Text/Copy.antt =====
-- What the block routines of src/lib/string.c move and compare.
use loss_os.Prelude.{
  ℕ, zero, suc, ◌+◌, ◌-◌, ◌≤◌, ◌<◌, ◌≡◌, refl, ◌≢◌, ◌⊎◌, inl, inr, Bytes, poke, poke_self, poke_ne,
  ltb, if◌then◌else◌, arith, Bool-cases, true, ◌↔◌, pos, negsuc, ℤ, ◌∙◌, dec_lt, ℕ_discrete, subst,
  ap, sym,
}
use loss_os.Text.{copy_up, memcpy, copy_down, memmove, memcmp, is_zero}

-- The bytes at `dest + i` onwards, `rounds` of them, are those at `src + i` onwards.
abbrev pub copied : ℕ → ℕ → Bytes → ℕ → ℕ → ℕ → ℕ
copied i rounds m dest src j =
    if ltb j (dest + i)
    then m j
    else if ltb j (dest + i + rounds)
    then m (src + (j - dest))
    else m j

copy_up_lem :
    (rounds i : ℕ) (m : Bytes) (dest src j : ℕ)
    → (dest < src) ⊎ (src + i + rounds ≤ dest)
    → copy_up rounds i m dest src j ≡ copied i rounds m dest src j
unfolding copy_up
copy_up_lem zero i m dest src j h = ground arith
copy_up_lem (suc rounds) i m dest src j h = ground (
  arith,
  copy_up_lem rounds (i + 1) (poke m (dest + i) (m (src + i))) dest src j,
  poke_self m (dest + i) (m (src + i)),
  poke_ne m (dest + i) (m (src + i)) j,
  poke_ne m (dest + i) (m (src + i)) (src + (j - dest)),
)

copied_step_down :
    (i : ℕ) (m m' : Bytes) (dest src j : ℕ)
    → m' (dest + i) ≡ m (src + i)
    → (dest + i ≢ j → m' j ≡ m j)
    → (dest ≤ j → j < dest + i → m' (src + (j - dest)) ≡ m (src + (j - dest)))
    → copied 0 i m' dest src j ≡ copied 0 (suc i) m dest src j
copied_step_down i m m' dest src j top other read = elim (dec_lt j (dest + i)) [
  | yes p ↦ elim (dec_lt j dest) [
    | yes below ↦ ground (arith, other (omega arith))
    | no above ↦ ground (arith, other (omega arith), read (omega arith) p)
  ]
  | no p ↦ elim (ℕ_discrete (dest + i) j) [
    | yes e ↦ subst (λ k. copied 0 i m' dest src k ≡ copied 0 (suc i) m dest src k) e at_top
    | no ne ↦ ground (arith, other ne)
  ]
]
  where
    at_top : copied 0 i m' dest src (dest + i) ≡ copied 0 (suc i) m dest src (dest + i)
    at_top = let e : src + (dest + i - dest) ≡ src + i = omega arith in rw e (ground arith)

copy_down_lem :
    (n : ℕ) (m : Bytes) (dest src j : ℕ)
    → src ≤ dest
    → copy_down n m dest src j ≡ copied 0 n m dest src j
unfolding copy_down
copy_down_lem zero m dest src j h = ground arith
copy_down_lem (suc i) m dest src j h =
    copy_down_lem i (poke m (dest + i) (m (src + i))) dest src j h
    ∙ copied_step_down i m (poke m (dest + i) (m (src + i))) dest src j
        (poke_self m (dest + i) (m (src + i))) (poke_ne m (dest + i) (m (src + i)) j)
        (λ le lt. poke_ne m (dest + i) (m (src + i)) (src + (j - dest)) (omega arith))

-- `memmove` copies `n` bytes whichever way the two ranges overlap: afterwards every byte of the
-- destination is the byte that the source held before the call, and no other byte has changed.
pub memmove_lem : (m : Bytes) (dest src n j : ℕ) → memmove m dest src n j ≡ copied 0 n m dest src j
unfolding memmove
memmove_lem m dest src n j = elim (Bool-cases (ltb dest src)) [
  | inl e ↦ rw e (copy_up_lem n 0 m dest src j (inl (ground arith)))
  | inr e ↦ rw e (copy_down_lem n m dest src j (ground arith))
]

-- `memcpy` copies `n` bytes and changes no other, if the destination lies below the source or not
-- before the end of the source's range.
pub memcpy_lem :
    (m : Bytes) (dest src n j : ℕ)
    → (dest < src) ⊎ (src + n ≤ dest)
    → memcpy m dest src n j ≡ copied 0 n m dest src j
unfolding memcpy
memcpy_lem m dest src n j h = copy_up_lem n 0 m dest src j (omega arith)

-- Two ranges of `n` bytes are equal.
abbrev pub Agree : Bytes → ℕ → Bytes → ℕ → ℕ → Type 0
Agree m1 p m2 q n = (i : ℕ) → i < n → m1 (p + i) ≡ m2 (q + i)

Agree-tail :
    (m1 : Bytes) (p : ℕ) (m2 : Bytes) (q n : ℕ)
    → Agree m1 p m2 q (suc n)
    → Agree m1 (p + 1) m2 (q + 1) n
Agree-tail m1 p m2 q n h i lt =
    let e1 : p + 1 + i ≡ p + (i + 1) = omega arith in
    let e2 : q + 1 + i ≡ q + (i + 1) = omega arith in rw (e1, e2) (h (i + 1) (omega arith))

Agree-cons :
    (m1 : Bytes) (p : ℕ) (m2 : Bytes) (q n : ℕ)
    → m1 p ≡ m2 q
    → Agree m1 (p + 1) m2 (q + 1) n
    → Agree m1 p m2 q (suc n)
Agree-cons m1 p m2 q n e h zero lt =
    let e1 : p + 0 ≡ p = omega arith in let e2 : q + 0 ≡ q = omega arith in rw (e1, e2) e
Agree-cons m1 p m2 q n e h (suc i) lt =
    let e1 : p + suc i ≡ p + 1 + i = omega arith in
    let e2 : q + suc i ≡ q + 1 + i = omega arith in rw (e1, e2) (h i (omega arith))

Agree-head : (m1 : Bytes) (p : ℕ) (m2 : Bytes) (q n : ℕ) → Agree m1 p m2 q (suc n) → m1 p ≡ m2 q
Agree-head m1 p m2 q n h =
    let e1 : p ≡ p + 0 = omega arith in
    let e2 : q ≡ q + 0 = omega arith in ap m1 e1 ∙ h 0 (omega arith) ∙ ap m2 (sym e2)

memcmp_step :
    (a b : ℕ) (r : ℤ)
    → (is_zero (if ltb a b then negsuc 0 else if ltb b a then pos 1 else r) ≡ true)
      ↔ ((a ≡ b) × (is_zero r ≡ true))
memcmp_step a b r = ground arith

-- `memcmp` is 0 exactly for equal ranges.
pub memcmp_iff :
    (m1 : Bytes) (p : ℕ) (m2 : Bytes) (q n : ℕ)
    → (is_zero (memcmp m1 p m2 q n) ≡ true) ↔ Agree m1 p m2 q n
unfolding memcmp
memcmp_iff m1 p m2 q zero = (λ e i lt. elim lt [ ], λ _. refl)
memcmp_iff m1 p m2 q (suc n) = (
  λ e.
      let parts = (memcmp_step (m1 p) (m2 q) _).0 e in
      Agree-cons m1 p m2 q n parts.0 ((memcmp_iff m1 (p + 1) m2 (q + 1) n).0 parts.1),
  λ agree. (memcmp_step (m1 p) (m2 q) _).1 (
    Agree-head m1 p m2 q n agree,
    (memcmp_iff m1 (p + 1) m2 (q + 1) n).1 (Agree-tail m1 p m2 q n agree),
  ),
)
