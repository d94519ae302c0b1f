-- ===== src/Shell/Tokens.antt =====
-- How `process_command` of src/user/user-shell.c takes a command line apart. The line is the list
-- of its characters before the terminator; a word is terminated in place, so it ends where its
-- delimiter stood.
pub mod Words
use loss_os.Prelude.{ℕ, zero, suc, ◌||◌, List, [], ◌∷◌, ◌==◌, if◌then◌else◌}
use loss_os.Shell.{Str}

unfoldable pub skip_start : Str → Str
skip_start [] = []
skip_start (c ∷ cs) = if (c == b' ') || (c == 10) then skip_start cs else c ∷ cs

unfoldable pub skip_spaces : Str → Str
skip_spaces [] = []
skip_spaces (c ∷ cs) = if c == b' ' then skip_spaces cs else c ∷ cs

-- A word and what follows behind its delimiter.
unfoldable pub word : Str → Str
word [] = []
word (c ∷ cs) = if (c == b' ') || (c == 10) then [] else c ∷ word cs

unfoldable pub after_word : Str → Str
after_word [] = []
after_word (c ∷ cs) = if (c == b' ') || (c == 10) then cs else after_word cs

-- The same for a text in quotes, from behind the opening one.
unfoldable pub quoted : Str → Str
quoted [] = []
quoted (c ∷ cs) = if c == b'"' then [] else c ∷ quoted cs

unfoldable pub after_quoted : Str → Str
after_quoted [] = []
after_quoted (c ∷ cs) = if c == b'"' then cs else after_quoted cs

-- One argument, from its first character on, and the rest of the line.
unfoldable pub argument : ℕ → Str → Str × Str
argument c cs =
    if c == b'"'
    then (quoted cs, skip_spaces (after_quoted cs))
    else (word (c ∷ cs), after_word (c ∷ cs))

-- The loop; `room` is the number of arguments that `argv` has still room for.
unfoldable pub arguments : ℕ → Str → List Str
arguments zero p = []
arguments (suc room) p = elim (skip_spaces p) [
  | [] ↦ []
  | c ∷ cs ↦ (argument c cs).0 ∷ arguments room (argument c cs).1
]

abbrev pub argv_size : ℕ
argv_size = 10

unfoldable pub argv : Str → List Str
argv command = arguments argv_size (skip_start command)
