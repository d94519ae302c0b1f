-- ===== src/Ext2/Directory/Chain.antt =====
-- A directory block of src/filesystem/ext2.c as a chain of entries.
use loss_os.Prelude.{
  ℕ, zero, suc, ◌+◌, ◌≤◌, ◌<◌, ◌≡◌, ◌⊎◌, inl, inr, refl, Bytes, Bool, true, false, ◌&&◌, Option,
  none, some, arith, leb, peek16_of_eq, peek32_of_eq, holds_under, holds_under_lem, ℕ_discrete,
}
use loss_os.Text.{memcmp}
use loss_os.Ext2.Layout.{
  block_size, directory_entry_size, entry_inode, entry_rec_len, entry_name_len, entry_file_type,
  get_entry_name, get_entry_record_len,
}
use loss_os.Ext2.Directory.{entry_matches, search_block}

-- The record of an entry in use has room for the name that it says it holds, whose length is a
-- byte.
abbrev pub Roomy : Bytes → ℕ → Type 0
Roomy b e =
    (entry_inode b e ≡ 0)
    ⊎ ((entry_name_len b e < 256) × (directory_entry_size + entry_name_len b e ≤ entry_rec_len b e))

-- The records from `e` on fill the block.
pub data IsChain (b : Bytes) : ℕ → Type 0 where
  end : (e : ℕ) → e ≡ block_size → IsChain b e
  link :
      (e : ℕ)
      → directory_entry_size ≤ entry_rec_len b e
      → e + entry_rec_len b e ≤ block_size
      → Roomy b e
      → IsChain b (e + entry_rec_len b e)
      → IsChain b e

-- A walk comes from entry `e` to entry `off` past entries that do not bear the name.
pub data Passed (b name : Bytes) (len : ℕ) : ℕ → ℕ → Type 0 where
  here : (e off : ℕ) → e ≡ off → Passed b name len e off
  there :
      (e off : ℕ)
      → directory_entry_size ≤ entry_rec_len b e
      → e + entry_rec_len b e ≤ off
      → Roomy b e
      → entry_matches b e name len ≡ false
      → Passed b name len (e + entry_rec_len b e) off
      → Passed b name len e off

-- What a search finds from offset `e` on: the entry's inode and file type.
abbrev pub entry_at : Bytes → Option ℕ → Option (ℕ × ℕ)
entry_at b none = none
entry_at b (some off) = some (entry_inode b off, entry_file_type b off)

abbrev pub lookup : ℕ → Bytes → ℕ → Bytes → ℕ → Option (ℕ × ℕ)
lookup fuel b e name len = entry_at b (search_block fuel b e name len)

-- The record length that `write` reserves holds the name and is at most three bytes longer.
unfoldable record_len_row : ℕ → Bool
record_len_row n =
    leb (directory_entry_size + n) (get_entry_record_len n)
    && leb (get_entry_record_len n) (directory_entry_size + n + 3)

record_len_table : holds_under record_len_row 256 ≡ true
unfolding holds_under record_len_row get_entry_record_len
record_len_table = refl

pub get_entry_record_len_lem :
    (n : ℕ)
    → n < 256
    → (directory_entry_size + n ≤ get_entry_record_len n)
      × (get_entry_record_len n ≤ directory_entry_size + n + 3)
unfolding record_len_row
get_entry_record_len_lem n h = row (holds_under_lem record_len_row h record_len_table)
  where
    row :
        record_len_row n ≡ true
        → (directory_entry_size + n ≤ get_entry_record_len n)
          × (get_entry_record_len n ≤ directory_entry_size + n + 3)
    row e = ground arith

memcmp_of_eq :
    (b c : Bytes) (p : ℕ) (m : Bytes) (q n : ℕ)
    → ((i : ℕ) → p ≤ i → i < p + n → c i ≡ b i)
    → memcmp c p m q n ≡ memcmp b p m q n
unfolding memcmp
memcmp_of_eq b c p m q zero h = refl
memcmp_of_eq b c p m q (suc n) h =
    rw
      (
        h p (omega arith) (omega arith),
        memcmp_of_eq b c (p + 1) m (q + 1) n (λ i h1 h2. h i (omega arith) (omega arith)),
      )
      refl

-- Two blocks hold the same entry at `e`, up to the length of its record.
pub record SameEntry (b c : Bytes) (e : ℕ) : Type 0 where
  pub same_inode : entry_inode c e ≡ entry_inode b e
  pub same_name_len : entry_name_len c e ≡ entry_name_len b e
  pub same_type : entry_file_type c e ≡ entry_file_type b e
  pub same_name :
      (entry_inode b e ≡ 0)
      ⊎ ((i : ℕ) → get_entry_name e ≤ i → i < get_entry_name e + entry_name_len b e → c i ≡ b i)

pub entry_matches-SameEntry :
    (b c : Bytes) (e : ℕ) (name : Bytes) (len : ℕ)
    → SameEntry b c e
    → entry_matches c e name len ≡ entry_matches b e name len
unfolding entry_matches
entry_matches-SameEntry b c e name len s = elim s.same_name [
  | inl free ↦ rw (s.same_inode, free) refl
  | inr same ↦ elim (ℕ_discrete (entry_name_len b e) len) [
    | yes p ↦
        rw
          (
            s.same_inode,
            s.same_name_len,
            memcmp_of_eq b c (get_entry_name e) name 0 len (λ i h1 h2. same i h1 (omega arith)),
          )
          refl
    | no ne ↦ rw (s.same_inode, s.same_name_len) (ground arith)
  ]
]

-- Bytes that agree on a whole record.
pub SameEntry-of_eq :
    (b c : Bytes) (e : ℕ)
    → directory_entry_size ≤ entry_rec_len b e
    → Roomy b e
    → ((i : ℕ) → e ≤ i → i < e + entry_rec_len b e → c i ≡ b i)
    → SameEntry b c e
SameEntry-of_eq b c e h roomy eq = record {
  same_inode = peek32_of_eq c b e (λ i h1 h2. eq i h1 (omega arith));
  same_name_len = peek16_of_eq c b (e + 6) (λ i h1 h2. eq i (omega arith) (omega arith));
  same_type = eq (e + 8) (omega arith) (omega arith);
  same_name = elim roomy [
    | inl free ↦ inl free
    | inr room ↦ inr (λ i h1 h2. eq i (omega arith) (omega arith))
  ];
}

pub entry_rec_len-of_eq :
    (b c : Bytes) (e : ℕ)
    → directory_entry_size ≤ entry_rec_len b e
    → ((i : ℕ) → e ≤ i → i < e + entry_rec_len b e → c i ≡ b i)
    → entry_rec_len c e ≡ entry_rec_len b e
entry_rec_len-of_eq b c e h eq =
    peek16_of_eq c b (e + 4) (λ i h1 h2. eq i (omega arith) (omega arith))

pub Roomy-of_eq :
    (b c : Bytes) (e : ℕ)
    → directory_entry_size ≤ entry_rec_len b e
    → Roomy b e
    → ((i : ℕ) → e ≤ i → i < e + entry_rec_len b e → c i ≡ b i)
    → Roomy c e
Roomy-of_eq b c e h roomy eq =
    let s = SameEntry-of_eq b c e h roomy eq in
    omega (arith, roomy, s.same_inode, s.same_name_len, entry_rec_len-of_eq b c e h eq)

pub Passed-le : (b name : Bytes) (len e off : ℕ) → Passed b name len e off → e ≤ off
Passed-le b name len e off (Passed.here _ _ p) = omega arith
Passed-le b name len e off (Passed.there _ _ h within roomy miss rest) = omega arith
