-- ===== src/Shell/Commands/Typed.antt =====
-- The command line of src/user/user-shell.c: what stands in the buffer after a run of keys.
use loss_os.Prelude.{
  ℕ, zero, suc, ◌+◌, ◌-◌, ◌<◌, ◌≡◌, ◌≢◌, refl, Bytes, zeroes, poke, Option, some, List, [], ◌∷◌,
  ◌++◌, length, get_or, as_bytes, ltb, ◌==◌, if◌then◌else◌, arith, ne→==, ℕ_discrete,
}
use loss_os.Shell.{Str}
use loss_os.Shell.Commands.{typed_line}

unfoldable pub drop_last : Str → Str
drop_last [] = []
drop_last (c ∷ []) = []
drop_last (c ∷ d ∷ cs) = c ∷ drop_last (d ∷ cs)

-- The line that is meant: backspace takes the last character back.
unfoldable pub edited : Str → List ℕ → Str
edited text [] = text
edited text (c ∷ cs) =
    edited (if c == 8 then drop_last text else if c == 0 then text else text ++ c ∷ []) cs

abbrev pub NoNewline : List ℕ → Type 0
NoNewline [] = Unit {0}
NoNewline (c ∷ cs) = (c ≢ 10) × NoNewline cs

pub get_or-snoc :
    (text : Str) (c i : ℕ)
    → get_or (text ++ c ∷ []) i 0
      ≡ (if ltb i (length text) then get_or text i 0 else if i == length text then c else 0)
get_or-snoc [] c zero = refl
get_or-snoc [] c (suc i) = ground arith
get_or-snoc (d ∷ text) c zero = ground arith
get_or-snoc (d ∷ text) c (suc i) = ground (arith, get_or-snoc text c i)

pub length-snoc : (text : Str) (c : ℕ) → length (text ++ c ∷ []) ≡ length text + 1
length-snoc [] c = omega arith
length-snoc (d ∷ text) c = omega (arith, length-snoc text c)

length-drop_last : (text : Str) → length (drop_last text) ≡ length text - 1
unfolding drop_last
length-drop_last [] = refl
length-drop_last (c ∷ []) = omega arith
length-drop_last (c ∷ d ∷ cs) = omega (arith, length-drop_last (d ∷ cs))

get_or-drop_last :
    (text : Str) (i : ℕ) → i + 1 < length text → get_or (drop_last text) i 0 ≡ get_or text i 0
unfolding drop_last
get_or-drop_last [] i h = absurd (omega arith)
get_or-drop_last (c ∷ []) i h = absurd (omega arith)
get_or-drop_last (c ∷ d ∷ cs) zero h = refl
get_or-drop_last (c ∷ d ∷ cs) (suc i) h = get_or-drop_last (d ∷ cs) i (omega arith)

-- The buffer holds the text, and nothing behind the place of the next character.
record Holds (command : Bytes) (text : Str) : Type 0 where
  text_there : (i : ℕ) → i < length text → command i ≡ get_or text i 0
  clear_behind : (i : ℕ) → length text < i → command i ≡ 0

Holds-poke :
    (command : Bytes) (text : Str) (c : ℕ)
    → Holds command text
    → Holds (poke command (length text) c) (text ++ c ∷ [])
unfolding poke
Holds-poke command text c h = record {
  text_there = λ i lt. ground (arith, get_or-snoc text c i, length-snoc text c, h.text_there i);
  clear_behind = λ i lt. ground (arith, length-snoc text c, h.clear_behind i);
}

Holds-back :
    (command : Bytes) (text : Str)
    → Holds command text
    → Holds (poke command (length text) 0) (drop_last text)
unfolding poke
Holds-back command text h = record {
  text_there =
      λ i lt. ground (arith, get_or-drop_last text i, length-drop_last text, h.text_there i);
  clear_behind = λ i lt. ground (arith, length-drop_last text, h.clear_behind i);
}

abbrev LineOf : Option (Bytes × ℕ) → Str → Type 0
LineOf r text =
    (m : Bytes) × (r ≡ some (m, length text + 1)) × ((i : ℕ) → m i ≡ as_bytes (text ++ 10 ∷ []) i)

typed-end :
    (rest : List ℕ) (command : Bytes) (text : Str)
    → Holds command text
    → LineOf (typed_line (10 ∷ rest) command (length text)) text
unfolding typed_line poke
typed-end rest command text h = (
  poke command (length text) 10,
  refl,
  λ i. ground (arith, get_or-snoc text 10 i, h.text_there i, h.clear_behind i),
)

typed-char :
    (c : ℕ) (cs : List ℕ) (command : Bytes) (index : ℕ)
    → c ≢ 10
    → c ≢ 8
    → c ≢ 0
    → typed_line (c ∷ cs) command index ≡ typed_line cs (poke command index c) (index + 1)
unfolding typed_line
typed-char c cs command index h10 h8 h0 =
    rw (ne→== c 10 h10, ne→== c 8 h8, ne→== c 0 h0, typed_line) refl

typed-none :
    (cs : List ℕ) (command : Bytes) (index : ℕ)
    → typed_line (0 ∷ cs) command index ≡ typed_line cs command index
unfolding typed_line
typed-none cs command index = refl

typed-back :
    (cs : List ℕ) (command : Bytes) (index : ℕ)
    → typed_line (8 ∷ cs) command index ≡ (
        if index == 0
        then typed_line cs command index
        else typed_line cs (poke command index 0) (index - 1))
unfolding typed_line
typed-back cs command index = ground arith

-- Backspace leads on to a buffer that holds the shorter text.
back_step :
    (cs : List ℕ) (command : Bytes) (text result : Str)
    → Holds command text
    → ((command' : Bytes)
        → Holds command' (drop_last text)
        → LineOf (typed_line cs command' (length (drop_last text))) result)
    → LineOf (typed_line (8 ∷ cs) command (length text)) result
unfolding drop_last
back_step cs command [] result h further = rw (typed-back cs command 0) (further command (empty h))
  where
    empty : Holds command [] → Holds command (drop_last [])
    empty k = k
back_step cs command (d ∷ text) result h further =
    rw
      (
        typed-back cs command (length (d ∷ text)),
        ne→== (length (d ∷ text)) 0 (λ e. absurd (omega arith)),
        ← length-drop_last (d ∷ text),
      )
      (further (poke command (length (d ∷ text)) 0) (Holds-back command (d ∷ text) h))

typed_line-Holds :
    (cs rest : List ℕ) (command : Bytes) (text : Str)
    → NoNewline cs
    → Holds command text
    → LineOf (typed_line (cs ++ 10 ∷ rest) command (length text)) (edited text cs)
unfolding edited
typed_line-Holds [] rest command text plain h = typed-end rest command text h
typed_line-Holds (c ∷ cs) rest command text (h10, plain) h = elim (ℕ_discrete c 8) [
  | yes back ↦ rw back (
      back_step (cs ++ 10 ∷ rest) command text (edited (drop_last text) cs) h
        (λ command' h'. typed_line-Holds cs rest command' (drop_last text) plain h'))
  | no other ↦ elim (ℕ_discrete c 0) [
    | yes nothing ↦
        rw (nothing, typed-none (cs ++ 10 ∷ rest) command (length text))
          (typed_line-Holds cs rest command text plain h)
    | no char ↦
        rw
          (
            ne→== c 8 other,
            ne→== c 0 char,
            typed-char c (cs ++ 10 ∷ rest) command (length text) h10 other char,
            ← length-snoc text c,
          )
          (typed_line-Holds cs rest (poke command (length text) c) (text ++ c ∷ []) plain
            (Holds-poke command text c h))
  ]
]

-- From an empty buffer, keys that end with the first newline leave the edited line with its
-- newline, and a terminator behind it, whatever was typed and taken back.
pub typed_line-edited :
    (cs rest : List ℕ)
    → NoNewline cs
    → (m : Bytes) × (typed_line (cs ++ 10 ∷ rest) zeroes 0 ≡ some (m, length (edited [] cs) + 1))
      × ((i : ℕ) → m i ≡ as_bytes (edited [] cs ++ 10 ∷ []) i)
typed_line-edited cs rest plain =
    typed_line-Holds cs rest zeroes [] plain
      (record { text_there = λ i lt. absurd (omega arith); clear_behind = λ i lt. refl })
