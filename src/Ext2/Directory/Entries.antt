-- ===== src/Ext2/Directory/Entries.antt =====
-- The fields of one directory entry of src/filesystem/ext2.c, written and read back.
use loss_os.Prelude.{
  ℕ, ◌+◌, ◌^◌, ◌≤◌, ◌<◌, ◌≡◌, ◌⊎◌, inl, inr, ◌≢◌, refl, ap, sym, Bool-cases, true, false, ◌==◌,
  eq→==, ne→==, Bytes, arith, words, ◌∙◌, poke_ne, poke16_outside, poke32_outside,
}
use loss_os.Text.{memcmp, is_zero}
use loss_os.Text.Copy.{memcmp_iff}
use loss_os.Ext2.Layout.{
  get_entry_name, directory_entry_size, entry_inode, entry_rec_len, entry_name_len, entry_file_type,
}
use loss_os.Ext2.Directory.{put_entry, entry_matches}

-- What an entry says.
pub record IsEntry (b : Bytes) (e inode rec_len name_len file_type : ℕ) : Type 0 where
  pub inode_is : entry_inode b e ≡ inode
  pub rec_len_is : entry_rec_len b e ≡ rec_len
  pub name_len_is : entry_name_len b e ≡ name_len
  pub type_is : entry_file_type b e ≡ file_type

pub put_entry-IsEntry :
    (b : Bytes) (e inode rec_len name_len file_type : ℕ)
    → inode < 2 ^ 32
    → rec_len < 2 ^ 16
    → name_len < 2 ^ 16
    → IsEntry (put_entry b e inode rec_len name_len file_type) e inode rec_len name_len file_type
unfolding put_entry
put_entry-IsEntry b e inode rec_len name_len file_type h1 h2 h3 = record {
  inode_is = grind words;
  rec_len_is = grind words;
  name_len_is = grind words;
  type_is = grind words;
}

pub put_entry_outside :
    (b : Bytes) (e inode rec_len name_len file_type i : ℕ)
    → (i < e) ⊎ (e + directory_entry_size ≤ i)
    → put_entry b e inode rec_len name_len file_type i ≡ b i
unfolding put_entry
put_entry_outside b e inode rec_len name_len file_type i h =
    poke_ne _ (e + 8) file_type i (omega arith)
    ∙ poke16_outside _ (e + 6) name_len i (omega arith)
    ∙ poke16_outside _ (e + 4) rec_len i (omega arith)
    ∙ poke32_outside b e inode i (omega arith)

-- Two names that differ.
abbrev pub Differ : Bytes → ℕ → Bytes → ℕ → Type 0
Differ m n name len = (n ≢ len) ⊎ ((i : ℕ) × (i < len) × (name i ≢ m i))

from_zero : (i : ℕ) → 0 + i ≡ i
from_zero i = omega arith

module _ (b : Bytes) (e : ℕ) (name : Bytes) {inode rec_len len file_type : ℕ} where
  -- An entry in use bears the name that stands behind it.
  pub entry_matches-IsEntry :
      IsEntry b e inode rec_len len file_type
      → inode ≢ 0
      → ((i : ℕ) → i < len → b (get_entry_name e + i) ≡ name i)
      → entry_matches b e name len ≡ true
  unfolding entry_matches
  entry_matches-IsEntry f used named =
      rw (f.inode_is, f.name_len_is, same_name, ne→== inode 0 used, eq→== len len refl) refl
    where
      same_name : is_zero (memcmp b (get_entry_name e) name 0 len) ≡ true
      same_name =
          (memcmp_iff b (get_entry_name e) name 0 len).1
            (λ i h. named i h ∙ ap name (sym (from_zero i)))

  -- It bears no other.
  pub entry_matches-Differ :
      (other : Bytes) (n : ℕ)
      → IsEntry b e inode rec_len len file_type
      → ((i : ℕ) → i < len → b (get_entry_name e + i) ≡ name i)
      → Differ other n name len
      → entry_matches b e other n ≡ false
  unfolding entry_matches
  entry_matches-Differ other n f named h = elim (Bool-cases (len == n)) [
    | inr ne ↦ rw (f.name_len_is, ne) (ground arith)
    | inl same ↦ elim (Bool-cases (is_zero (memcmp b (get_entry_name e) other 0 n))) [
      | inr ne ↦ rw ne (ground arith)
      | inl equal ↦ elim h [
        | inl ne ↦ absurd (ground arith)
        | inr (i, lt, ne) ↦ absurd (
            ne (
              sym (named i lt)
              ∙ (memcmp_iff b (get_entry_name e) other 0 n).0 equal i (ground arith)
              ∙ ap other (from_zero i)))
      ]
    ]
  ]
