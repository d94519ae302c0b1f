-- ===== src/Shell/Tokens/Words.antt =====
-- What the tokeniser of src/user/user-shell.c makes of a line of words.
use loss_os.Prelude.{
  ℕ, zero, suc, ◌<◌, ◌≡◌, ◌≢◌, refl, ap, ◌∙◌, List, [], ◌∷◌, ◌++◌, length, arith, ne→==, ◌⊎◌, inl,
  inr,
}
use loss_os.Shell.{Str}
use loss_os.Shell.Tokens.{
  skip_start, skip_spaces, word, after_word, argument, arguments, argv, argv_size,
}

-- No space and no newline.
abbrev pub IsUnbroken : Str → Type 0
IsUnbroken [] = Unit {0}
IsUnbroken (c ∷ cs) = (c ≢ b' ') × (c ≢ 10) × IsUnbroken cs

-- A word that the shell takes as it stands.
abbrev pub IsWord : Str → Type 0
IsWord [] = ⊥
IsWord (c ∷ cs) = (c ≢ b'"') × IsUnbroken (c ∷ cs)

abbrev pub AreWords : List Str → Type 0
AreWords [] = Unit {0}
AreWords (w ∷ ws) = IsWord w × AreWords ws

-- The words with a space between two of them, and the newline of the key that ends the line.
abbrev pub line : Str → List Str → Str
line w [] = w ++ 10 ∷ []
line w (v ∷ ws) = w ++ b' ' ∷ line v ws

word_lem :
    (w : Str) (c : ℕ) (rest : Str)
    → IsUnbroken w
    → (c ≡ b' ') ⊎ (c ≡ 10)
    → (word (w ++ c ∷ rest) ≡ w) × (after_word (w ++ c ∷ rest) ≡ rest)
unfolding word after_word
word_lem [] c rest h end = ground arith
word_lem (d ∷ w) c rest (h1, h2, h) end = ground (arith, word_lem w c rest h end)

open_argument :
    (room c : ℕ) (cs : Str)
    → c ≢ b'"'
    → c ≢ b' '
    → arguments (suc room) (c ∷ cs) ≡ word (c ∷ cs) ∷ arguments room (after_word (c ∷ cs))
unfolding arguments skip_spaces argument
open_argument room c cs hq hs = rw (ne→== c b' ' hs, ne→== c b'"' hq, arguments) refl

arguments-nil : (room : ℕ) → arguments room [] ≡ []
unfolding arguments skip_spaces
arguments-nil zero = refl
arguments-nil (suc room) = refl

first_argument :
    (room : ℕ) (w : Str) (c : ℕ) (rest : Str)
    → IsWord w
    → (c ≡ b' ') ⊎ (c ≡ 10)
    → arguments (suc room) (w ++ c ∷ rest) ≡ w ∷ arguments room rest
first_argument room [] c rest h end = elim h [ ]
first_argument room (d ∷ w) c rest (hq, plain) end =
    let split = word_lem (d ∷ w) c rest plain end in
    open_argument room d (w ++ c ∷ rest) hq plain.0 ∙ rw (split.0, split.1) refl

-- A line of at most ten words gives these words as arguments.
arguments-line :
    (room : ℕ) (w : Str) (ws : List Str)
    → length ws < room
    → IsWord w
    → AreWords ws
    → arguments room (line w ws) ≡ w ∷ ws
arguments-line zero w ws h hw hws = absurd (omega arith)
arguments-line (suc room) w [] h hw hws =
    first_argument room w 10 [] hw (inr refl) ∙ ap (λ rest. w ∷ rest) (arguments-nil room)
arguments-line (suc room) w (v ∷ ws) h hw (hv, hws) =
    first_argument room w b' ' (line v ws) hw (inl refl)
    ∙ ap (λ rest. w ∷ rest) (arguments-line room v ws (omega arith) hv hws)

skip_start-line : (w : Str) (ws : List Str) → IsWord w → skip_start (line w ws) ≡ line w ws
unfolding skip_start
skip_start-line [] ws h = elim h [ ]
skip_start-line (c ∷ w) [] h = ground arith
skip_start-line (c ∷ w) (v ∷ ws) h = ground arith

-- A line of at most ten words, with one space between two of them and a newline at its end, gives
-- these words as arguments.
pub argv-line :
    (w : Str) (ws : List Str)
    → length ws < argv_size
    → IsWord w
    → AreWords ws
    → argv (line w ws) ≡ w ∷ ws
unfolding argv
argv-line w ws h hw hws = rw (skip_start-line w ws hw) (arguments-line argv_size w ws h hw hws)
