-- ===== src/Shell/Walks.antt =====
-- The loops of src/commands over a directory's buffer end, whatever the buffer holds.
use mathlib.Core.Option
use loss_os.Prelude.{
  ℕ, zero, suc, ◌+◌, ◌-◌, ◌<◌, ◌≡◌, ap, refl, not, ◌||◌, ◌&&◌, Bytes, arith, Option, some, [], pick,
  pick_by, ltb, leb, ◌==◌,
}
use loss_os.Ext2.Layout.{
  entry_rec_len, entry_inode, entry_name_len, entry_file_type, get_entry_name, ft_dir,
  directory_entry_size,
}
use loss_os.Shell.{directory_buffer_size}
use loss_os.Shell.Entries.{entries, is_dots}
use loss_os.Shell.Files.{ls_from}
use loss_os.Shell.Paths.{child_from, same_chars}

-- A loop has come to an end.
abbrev pub Ended {ℓ} : {A : Type ℓ} → Option A → Type ℓ
Ended {A = A} o = (a : A) × (o ≡ some a)

Ended-map : {A B : Type 0} (f : A → B) (o : Option A) → Ended o → Ended (Option.map f o)
Ended-map f o (a, e) = (f a, ap (Option.map f) e)

pub entries-Ended :
    (b : Bytes) (fuel off : ℕ) → directory_buffer_size - off < fuel → Ended (entries fuel b off)
unfolding entries
entries-Ended b zero off h = absurd (omega arith)
entries-Ended b (suc fuel) off h =
    let next = off + entry_rec_len b off in
    pick_by Ended (leb directory_buffer_size off) _ _ (λ past. ([], refl))
      (λ inside.
        pick_by Ended (entry_inode b off == 0) _ _
          (λ free.
            pick_by Ended (entry_rec_len b off == 0) _ _ (λ stop. ([], refl))
              (λ len. entries-Ended b fuel next (ground arith)))
          (λ used.
            pick_by Ended
              (ltb directory_buffer_size next
                || ltb (entry_rec_len b off) (directory_entry_size + entry_name_len b off))
              _ _ (λ stop. ([], refl))
              (λ fits. Ended-map _ _ (entries-Ended b fuel next (ground arith)))))

pub ls_from-Ended :
    (b : Bytes) (fuel off : ℕ) → directory_buffer_size - off < fuel → Ended (ls_from fuel b off)
unfolding ls_from
ls_from-Ended b zero off h = absurd (omega arith)
ls_from-Ended b (suc fuel) off h =
    let next = off + entry_rec_len b off in
    pick_by Ended (leb directory_buffer_size off) _ _ (λ past. ([], refl))
      (λ inside.
        pick_by Ended ((entry_rec_len b off == 0) || ltb directory_buffer_size next) _ _
          (λ stop. ([], refl))
          (λ len.
            let rest = ls_from-Ended b fuel next (ground arith) in
            pick Ended ((entry_inode b off == 0) || is_dots b off) _ _ rest (Ended-map _ _ rest)))

pub child_from-Ended :
    (b name : Bytes) (name_len fuel off : ℕ)
    → directory_buffer_size - off < fuel
    → Ended (child_from fuel b off name name_len)
unfolding child_from
child_from-Ended b name name_len zero off h = absurd (omega arith)
child_from-Ended b name name_len (suc fuel) off h =
    let next = off + entry_rec_len b off in
    pick_by Ended (leb directory_buffer_size off) _ _ (λ past. (0, refl))
      (λ inside.
        pick_by Ended ((entry_rec_len b off == 0) || ltb directory_buffer_size next) _ _
          (λ stop. (0, refl))
          (λ len.
            let rest = child_from-Ended b name name_len fuel next (ground arith) in
            pick Ended
              (not (entry_inode b off == 0)
                && (entry_file_type b off == ft_dir)
                && (entry_name_len b off == name_len)
                && same_chars name_len 0 b (get_entry_name off) name)
              _ _ (entry_inode b off, refl) rest))

-- Whatever bytes a directory's buffer holds, the walks of rm.c, cp.c and find.c, of `ls` and of
-- `cd` come to an end, each in at most one round more than the buffer has bytes.
pub walks_end :
    (b name : Bytes) (name_len : ℕ)
    → Ended (entries (directory_buffer_size + 1) b 0)
      × Ended (ls_from (directory_buffer_size + 1) b 0)
      × Ended (child_from (directory_buffer_size + 1) b 0 name name_len)
walks_end b name name_len = (
  entries-Ended b (directory_buffer_size + 1) 0 (omega arith),
  ls_from-Ended b (directory_buffer_size + 1) 0 (omega arith),
  child_from-Ended b name name_len (directory_buffer_size + 1) 0 (omega arith),
)
