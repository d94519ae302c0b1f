-- ===== src/Shell/Files/Reports.antt =====
-- What `mkdir` of src/commands/mkdir.c says of the kernel's answer.
use loss_os.Prelude.{
  ℕ, ◌-◌, ◌≡◌, ◌≢◌, true, ℤ, pos, negsuc, zeroes, List, [], ◌∷◌, codes, u8, ◌==◌, if◌then◌else◌,
  arith, ne→==, ◌<◌,
}
use loss_os.Ext2.Write.{write}
use loss_os.Shell.{Str, Session, files, set_files, say, request, return_word, minus_one, sys_write}
use loss_os.Shell.Files.{mkdir}

-- The answer as the byte that the system call stores.
abbrev pub answered : ℤ → ℕ
answered (pos n) = u8 n
answered (negsuc n) = 255 - u8 n

return_word-answered : (code : ℤ) → return_word 0 code ≡ answered code
unfolding return_word
return_word-answered (pos n) = omega arith
return_word-answered (negsuc n) = omega arith

answered-lt : (code : ℤ) → answered code < 256
answered-lt (pos n) = omega arith
answered-lt (negsuc n) = omega arith

-- Outside of `/bin`, `mkdir` carries out the kernel's `write` and tells a directory that exists
-- already by the answer 1; every other answer, also the -1 of a failure, it reports as a success.
pub mkdir_lem :
    (current_inode : ℕ) (dirname : Str) (args : List Str) (s : Session)
    → current_inode ≢ 2
    → mkdir current_inode (dirname ∷ args) s ≡ (
        let r = write (files s) (request zeroes dirname current_inode 0 true) in
        say (set_files s r.1) (
          (
            if answered r.0 == 1
                then codes "mkdir: directory already exists\n\n"
                else codes "mkdir success\n\n",
            0x7,
          )
          ∷ []))
unfolding mkdir sys_write
mkdir_lem current_inode dirname args s ne =
    let r = write (files s) (request zeroes dirname current_inode 0 true) in
    rw
      (
        ne→== current_inode 2 ne,
        return_word-answered r.0,
        ne→== (answered r.0) minus_one (λ e. absurd (omega (arith, answered-lt r.0))),
      )
      (ground arith)
