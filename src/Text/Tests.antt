-- ===== src/Text/Tests.antt =====
-- Runs of the theorems on src/lib/string.c.
use loss_os.Prelude.{◌≡◌, Bytes}
use loss_os.Text.{memmove}
use loss_os.Text.Copy.{memmove_lem, copied}

abbrev counting : Bytes
counting i = i

memmove_example : memmove counting 5 3 4 7 ≡ copied 0 4 counting 5 3 7
memmove_example = memmove_lem counting 5 3 4 7
