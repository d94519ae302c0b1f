-- ===== src/Shell/Commands/Sessions.antt =====
-- A session of src/user/user-shell.c: each line that is typed is run, and the buffer is clear
-- again.
use mathlib.Core.Path.{fun_ext}
use loss_os.Prelude.{
  ℕ, zero, suc, ◌+◌, ◌<◌, ◌≡◌, ◌≢◌, ◌∙◌, ap, refl, Bytes, zeroes, none, some, List, [], ◌∷◌, ◌++◌,
  map, length, as_bytes, arith, ne→==, ℕ_discrete,
}
use loss_os.Shell.{Str}
use loss_os.Shell.Files.{text_in}
use loss_os.Shell.Commands.{
  Shell, process_command, prompted, command_size, row_size, clear_row, terminal, terminals, run,
  finish_line,
}
use loss_os.Shell.Tokens.{argv_size}
use loss_os.Shell.Tokens.Words.{line, IsWord, AreWords, argv-line}
use loss_os.Shell.Commands.Typed.{
  drop_last, edited, NoNewline, typed_line-edited, get_or-snoc, length-snoc,
}

abbrev NoNull : Str → Type 0
NoNull [] = Unit {0}
NoNull (c ∷ cs) = (c ≢ 0) × NoNull cs

NoNull-snoc : (text : Str) (c : ℕ) → NoNull text → c ≢ 0 → NoNull (text ++ c ∷ [])
NoNull-snoc [] c h hc = (hc, h)
NoNull-snoc (d ∷ text) c (hd, h) hc = (hd, NoNull-snoc text c h hc)

NoNull-drop_last : (text : Str) → NoNull text → NoNull (drop_last text)
unfolding drop_last
NoNull-drop_last [] h = h
NoNull-drop_last (c ∷ []) h = h.1
NoNull-drop_last (c ∷ d ∷ cs) (hc, h) = (hc, NoNull-drop_last (d ∷ cs) h)

NoNull-edited : (cs : List ℕ) (text : Str) → NoNull text → NoNull (edited text cs)
unfolding edited
NoNull-edited [] text h = h
NoNull-edited (c ∷ cs) text h = elim (ℕ_discrete c 8) [
  | yes back ↦ rw back (NoNull-edited cs (drop_last text) (NoNull-drop_last text h))
  | no other ↦ elim (ℕ_discrete c 0) [
    | yes nothing ↦ rw nothing (NoNull-edited cs text h)
    | no char ↦
        rw (ne→== c 8 other, ne→== c 0 char)
          (NoNull-edited cs (text ++ c ∷ []) (NoNull-snoc text c h char))
  ]
]

-- A string is read back from the bytes that hold it.
text_in-as_bytes :
    (text : Str) (rounds : ℕ) (b : Bytes) (at : ℕ)
    → length text < rounds
    → NoNull text
    → ((i : ℕ) → b (at + i) ≡ as_bytes text i)
    → text_in rounds b at ≡ text
unfolding text_in
text_in-as_bytes text zero b at h plain same = absurd (omega arith)
text_in-as_bytes [] (suc rounds) b at h plain same =
    let here : at ≡ at + 0 = omega arith in rw (ap b here ∙ same 0) refl
text_in-as_bytes (c ∷ cs) (suc rounds) b at h (hc, plain) same =
    let rest =
      text_in-as_bytes cs rounds b (at + 1) (omega arith) plain
        (λ i. let next : at + 1 + i ≡ at + suc i = omega arith in ap b next ∙ same (suc i)) in
    let here : at ≡ at + 0 = omega arith in rw (ap b here ∙ same 0, ne→== c 0 hc, rest) refl

clear_row-line :
    (m : Bytes) (text : Str)
    → length text + 1 < row_size
    → ((i : ℕ) → m i ≡ as_bytes (text ++ 10 ∷ []) i)
    → clear_row m ≡ zeroes
unfolding clear_row
clear_row-line m text short same = fun_ext (λ i. ground (arith, same i, get_or-snoc text 10 i))

-- A line that fits into its row is run as it was edited, with its newline, and the buffer is clear
-- for the next one.
terminal-edited :
    (fuel : ℕ) (sh : Shell) (cs rest : List ℕ)
    → NoNewline cs
    → length (edited [] cs) + 1 < row_size
    → terminal fuel sh zeroes (cs ++ 10 ∷ rest)
      ≡ some
          (process_command fuel (prompted sh (cs ++ 10 ∷ rest)) (edited [] cs ++ 10 ∷ []), zeroes)
unfolding terminal finish_line
terminal-edited fuel sh cs rest plain short =
    let (m, typed, same) = typed_line-edited cs rest plain in
    let text = edited [] cs in
    ap (finish_line fuel sh (cs ++ 10 ∷ rest)) typed
    ∙ rw
        (
          clear_row-line m text short same,
          text_in-as_bytes (text ++ 10 ∷ []) command_size m 0 (omega (arith, length-snoc text 10))
              (NoNull-snoc text 10 (NoNull-edited cs [] tt) (λ e. absurd (omega arith)))
              (λ i. let here : 0 + i ≡ i = omega arith in ap m here ∙ same i),
        )
        refl

-- What a typed line does to the shell.
unfoldable pub executed : ℕ → Shell → List ℕ → Shell
executed fuel sh cs = process_command fuel (prompted sh (cs ++ 10 ∷ [])) (edited [] cs ++ 10 ∷ [])

unfoldable pub all_executed : ℕ → Shell → List (List ℕ) → Shell
all_executed fuel sh [] = sh
all_executed fuel sh (cs ∷ lines) = all_executed fuel (executed fuel sh cs) lines

abbrev pub AreLines : List (List ℕ) → Type 0
AreLines [] = Unit {0}
AreLines (cs ∷ lines) = NoNewline cs × (length (edited [] cs) + 1 < row_size) × AreLines lines

-- Lines that are typed one after the other, each with fewer than 99 characters once it is edited,
-- are run in this order, each as it was edited, and the buffer is clear at the end.
pub terminals-executed :
    (fuel : ℕ) (sh : Shell) (lines : List (List ℕ))
    → AreLines lines
    → terminals fuel sh zeroes (map (λ cs. cs ++ 10 ∷ []) lines)
      ≡ some (all_executed fuel sh lines, zeroes)
unfolding terminals all_executed executed
terminals-executed fuel sh [] h = refl
terminals-executed fuel sh (cs ∷ lines) (plain, short, h) =
    ap
      (λ r. elim r [
        | none ↦ none
        | some (sh1, buffer1) ↦ terminals fuel sh1 buffer1 (map (λ ds. ds ++ 10 ∷ []) lines)
      ])
      (terminal-edited fuel sh cs [] plain short)
    ∙ terminals-executed fuel (executed fuel sh cs) lines h

-- A command of at most ten words, none of which begins with a quote, is typed with one space
-- between two words and in fewer than 99 characters once it is edited: it runs with these words as
-- its arguments, whatever was typed and taken back before, and the buffer is clear.
pub terminal-run :
    (fuel : ℕ) (sh : Shell) (cs rest : List ℕ) (w : Str) (ws : List Str)
    → NoNewline cs
    → length (edited [] cs) + 1 < row_size
    → edited [] cs ++ 10 ∷ [] ≡ line w ws
    → length ws < argv_size
    → IsWord w
    → AreWords ws
    → terminal fuel sh zeroes (cs ++ 10 ∷ rest)
      ≡ some (run fuel (prompted sh (cs ++ 10 ∷ rest)) w ws, zeroes)
unfolding process_command
terminal-run fuel sh cs rest w ws plain short meant room hw hws =
    terminal-edited fuel sh cs rest plain short
    ∙ rw (meant, process_command, argv-line w ws room hw hws) refl
