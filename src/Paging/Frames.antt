-- ===== src/Paging/Frames.antt =====
-- The free frames that src/memory/paging.c counts.
use loss_os.Prelude.{
  ℕ, zero, suc, ◌+◌, ◌≤◌, ◌<◌, ◌≡◌, refl, sym, subst, Bool, true, false, Option, none, some, inl,
  inr, update, if◌then◌else◌, arith, Bool-cases, ℕ_discrete,
}
use loss_os.Paging.{find_frame}

-- The frames from 1 to `n` that are not in use.
unfoldable pub count_free : (ℕ → Bool) → ℕ → ℕ
count_free frames zero = 0
count_free frames (suc n) = (if frames (suc n) then 0 else 1) + count_free frames n

-- All frames from `lo` up to `hi` are in use.
abbrev pub AllTaken : (ℕ → Bool) → ℕ → ℕ → Type 0
AllTaken frames lo hi = (j : ℕ) → lo ≤ j → j < hi → frames j ≡ true

-- What the search from `lo` up to `hi` answers.
abbrev pub Sought : (ℕ → Bool) → ℕ → ℕ → Option ℕ → Type 0
Sought frames lo hi none = AllTaken frames lo hi
Sought frames lo hi (some i) = (lo ≤ i) × (i < hi) × (frames i ≡ false) × AllTaken frames lo i

Sought-next :
    (frames : ℕ → Bool) (lo hi : ℕ) (r : Option ℕ)
    → frames lo ≡ true
    → Sought frames (lo + 1) hi r
    → Sought frames lo hi r
Sought-next frames lo hi none e h = λ j h1 h2. elim (ℕ_discrete lo j) [
  | yes p ↦ subst (λ k. frames k ≡ true) p e
  | no ne ↦ h j (omega arith) h2
]
Sought-next frames lo hi (some i) e (h1, h2, h3, h4) = (
  omega arith,
  h2,
  h3,
  λ j k1 k2. elim (ℕ_discrete lo j) [
    | yes p ↦ subst (λ k. frames k ≡ true) p e
    | no ne ↦ h4 j (omega arith) k2
  ],
)

find_step :
    (frames : ℕ → Bool) (rounds lo hi : ℕ)
    → lo < hi
    → Sought frames (lo + 1) hi (find_frame rounds (lo + 1) frames)
    → Sought frames lo hi (find_frame (suc rounds) lo frames)
unfolding find_frame
find_step frames rounds lo hi lt rest = elim (Bool-cases (frames lo)) [
  | inl taken ↦ rw taken (Sought-next frames lo hi _ taken rest)
  | inr free ↦ rw free (omega arith, lt, free, λ j h1 h2. absurd (omega arith))
]

pub find_frame_lem :
    (frames : ℕ → Bool) (rounds lo hi : ℕ)
    → lo + rounds ≡ hi
    → Sought frames lo hi (find_frame rounds lo frames)
find_frame_lem frames zero lo hi e = unfold find_frame in λ j h1 h2. absurd (omega arith)
find_frame_lem frames (suc rounds) lo hi e =
    find_step frames rounds lo hi (omega arith)
      (find_frame_lem frames rounds (lo + 1) hi (omega arith))

pub count_free-AllTaken :
    (frames : ℕ → Bool) (n : ℕ) → AllTaken frames 1 (suc n) → count_free frames n ≡ 0
unfolding count_free
count_free-AllTaken frames zero h = refl
count_free-AllTaken frames (suc n) h = ground (
  arith,
  h (suc n) (omega arith) (omega arith),
  count_free-AllTaken frames n (λ j h1 h2. h j h1 (omega arith)),
)

pub count_zero-AllTaken :
    (frames : ℕ → Bool) (n : ℕ) → count_free frames n ≡ 0 → AllTaken frames 1 (suc n)
unfolding count_free
count_zero-AllTaken frames zero e j h1 h2 = absurd (omega arith)
count_zero-AllTaken frames (suc n) e j h1 h2 = elim (ℕ_discrete j (suc n)) [
  | yes p ↦ subst (λ k. frames k ≡ true) (sym p) (ground arith)
  | no ne ↦ count_zero-AllTaken frames n (ground arith) j h1 (omega arith)
]

count_above :
    (frames : ℕ → Bool) (i n : ℕ)
    → n < i
    → count_free (update frames i true) n ≡ count_free frames n
unfolding count_free
count_above frames i zero h = refl
count_above frames i (suc n) h = ground (arith, count_above frames i n (omega arith))

-- Taking a free frame takes one from the count.
pub count_free-update :
    (frames : ℕ → Bool) (i n : ℕ)
    → 1 ≤ i
    → i ≤ n
    → frames i ≡ false
    → count_free (update frames i true) n + 1 ≡ count_free frames n
unfolding count_free
count_free-update frames i zero h1 h2 e = absurd (omega arith)
count_free-update frames i (suc n) h1 h2 e = elim (ℕ_discrete i (suc n)) [
  | yes p ↦ ground (arith, count_above frames i n (omega arith), subst (λ k. frames k ≡ false) p e)
  | no ne ↦ ground (arith, count_free-update frames i n h1 (omega arith) e)
]
