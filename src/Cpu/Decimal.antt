-- ===== src/Cpu/Decimal.antt =====
-- `itoa` of src/cpu/interrupt.c, and `atoi` of src/commands/kill.c that reads what it prints.
use loss_os.Prelude.{
  ℕ, zero, suc, ◌+◌, ◌-◌, ◌*◌, ◌/◌, ◌%◌, ◌^◌, ◌≤◌, ◌<◌, ◌≡◌, refl, ◌∙◌, ℤ, pos, negsuc, List, [],
  ◌∷◌, length, ◌==◌, if◌then◌else◌, arith, some, Bool-cases, inl, inr, ne→==,
}
use loss_os.Shell.Files.{atoi, skip_blanks, signed, unsigned, negate, digits_value}

-- The loop over the digits of a positive number. `slots` is the number of bytes of the static
-- buffer in front of the terminator that are still free.
unfoldable pub emit : ℕ → ℕ → List ℕ → List ℕ
emit zero i out = out
emit (suc slots) i out =
    let rest = emit slots (i / 10) ((i % 10 + b'0') ∷ out) in if i == 0 then out else rest

-- An `int` of 32 bits; the text is what stands in the buffer of twelve bytes before its terminator.
unfoldable pub itoa : ℤ → List ℕ
itoa (pos zero) = b'0' ∷ []
itoa (pos (suc n)) = emit 11 (suc n) []
itoa (negsuc n) = b'-' ∷ emit 11 (suc n) []

-- The numbers that fit in so many digits.
capacity : ℕ → ℕ
capacity zero = 1
capacity (suc slots) = 10 * capacity slots

digits_value-digit :
    (d result : ℕ) (out : List ℕ)
    → d < 10
    → digits_value result ((d + b'0') ∷ out) ≡ digits_value (result * 10 + d) out
unfolding digits_value
digits_value-digit d result out h = let e : d + b'0' - b'0' ≡ d = omega arith in rw e (ground arith)

-- Reading the digits that the loop has put in front of others.
digits_value-emit :
    (slots i : ℕ) (out : List ℕ)
    → i < capacity slots
    → digits_value 0 (emit slots i out) ≡ digits_value i out
unfolding emit capacity
digits_value-emit zero i out h = let e : i ≡ 0 = omega arith in rw e refl
digits_value-emit (suc slots) i out h = elim (Bool-cases (i == 0)) [
  | inl e ↦ let e0 : i ≡ 0 = ground arith in rw e0 refl
  | inr more ↦
      let back : i / 10 * 10 + i % 10 ≡ i = omega arith in
      rw more (
        digits_value-emit slots (i / 10) ((i % 10 + b'0') ∷ out) (omega arith)
        ∙ digits_value-digit (i % 10) (i / 10) out (omega arith)
        ∙ rw back refl)
]

-- A number below `capacity k` has no more than `k` digits.
length-emit :
    (k slots i : ℕ) (out : List ℕ) → i < capacity k → length (emit slots i out) ≤ k + length out
unfolding emit capacity
length-emit k zero i out h = omega arith
length-emit zero (suc slots) i out h = let e : i ≡ 0 = omega arith in rw e (omega arith)
length-emit (suc k) (suc slots) i out h =
    ground (arith, length-emit k slots (i / 10) ((i % 10 + b'0') ∷ out))

-- The text of a positive number starts with a digit.
abbrev StartsWithDigit : List ℕ → Type 0
StartsWithDigit [] = ⊥
StartsWithDigit (c ∷ cs) = (b'0' ≤ c) × (c ≤ b'9')

emit-StartsWithDigit :
    (slots i : ℕ) (out : List ℕ) → StartsWithDigit out → StartsWithDigit (emit slots i out)
unfolding emit
emit-StartsWithDigit zero i out h = h
emit-StartsWithDigit (suc slots) i out h = elim (Bool-cases (i == 0)) [
  | inl e ↦ rw e h
  | inr e ↦
      rw e (emit-StartsWithDigit slots (i / 10) ((i % 10 + b'0') ∷ out) (omega arith, omega arith))
]

emit-first : (slots n : ℕ) → StartsWithDigit (emit (suc slots) (suc n) [])
unfolding emit
emit-first slots n =
    rw (ne→== (suc n) 0 (λ e. absurd (omega arith))) (
      emit-StartsWithDigit slots (suc n / 10) ((suc n % 10 + b'0') ∷ []) (omega arith, omega arith))

unsigned-digits : (cs : List ℕ) → StartsWithDigit cs → unsigned cs ≡ digits_value 0 cs
unfolding unsigned
unsigned-digits [] h = elim h [ ]
unsigned-digits (c ∷ cs) h = refl

atoi-digits :
    (cs : List ℕ) (n : ℕ) → StartsWithDigit cs → digits_value 0 cs ≡ some n → atoi cs ≡ pos n
unfolding atoi skip_blanks signed unsigned
atoi-digits [] n h e = elim h [ ]
atoi-digits (c ∷ cs) n h e =
    rw
      (
        ne→== c b' ' (λ k. absurd (omega arith)),
        ne→== c 9 (λ k. absurd (omega arith)),
        ne→== c b'-' (λ k. absurd (omega arith)),
        ne→== c b'+' (λ k. absurd (omega arith)),
      )
      (rw e refl)

-- An `int` other than the least one.
abbrev pub IsInt : ℤ → Type 0
IsInt (pos n) = n < 2 ^ 31
IsInt (negsuc n) = n + 1 < 2 ^ 31

fits_digits : (n : ℕ) → n < 2 ^ 31 → (n < capacity 10) × (n < capacity 11)
unfolding capacity
fits_digits n h = (omega arith, omega arith)

positive_digits : (n : ℕ) → suc n < 2 ^ 31 → digits_value 0 (emit 11 (suc n) []) ≡ some (suc n)
positive_digits n h = digits_value-emit 11 (suc n) [] (fits_digits (suc n) h).1 ∙ empty (suc n)
  where
    empty : (k : ℕ) → digits_value k [] ≡ some k
    empty k = unfold digits_value in refl

atoi-minus :
    (cs : List ℕ) (n : ℕ)
    → StartsWithDigit cs
    → digits_value 0 cs ≡ some n
    → atoi (b'-' ∷ cs) ≡ negate n
unfolding atoi skip_blanks signed
atoi-minus cs n h e = rw (unsigned-digits cs h, e) refl

-- For every `int` but the least, the text of `itoa` fits in the twelve bytes of its buffer with the
-- terminator, and `atoi` reads the same number from it.
pub atoi-itoa : (z : ℤ) → IsInt z → (atoi (itoa z) ≡ z) × (length (itoa z) ≤ 11)
unfolding itoa
atoi-itoa (pos zero) h = (zero_text, omega arith)
  where
    zero_text : atoi (b'0' ∷ []) ≡ pos 0
    zero_text = unfold atoi skip_blanks signed unsigned digits_value in refl
atoi-itoa (pos (suc n)) h = (
  atoi-digits (emit 11 (suc n) []) (suc n) (emit-first 10 n) (positive_digits n h),
  omega (arith, length-emit 10 11 (suc n) [] (fits_digits (suc n) h).0),
)
atoi-itoa (negsuc n) h = (
  atoi-minus (emit 11 (suc n) []) (suc n) (emit-first 10 n) (positive_digits n (omega arith))
      ∙ back n,
  omega (arith, length-emit 10 11 (suc n) [] (fits_digits (suc n) (omega arith)).0),
)
  where
    back : (n : ℕ) → negate (suc n) ≡ negsuc n
    back n = unfold negate in refl
