-- ===== src/Shell/Paths/Split.antt =====
-- `split_path` of src/commands/cd.c takes apart what slashes join.
use loss_os.Prelude.{
  ℕ, zero, suc, ◌≤◌, ◌<◌, ◌≡◌, ◌≢◌, refl, ap, ◌∙◌, false, ◌||◌, List, [], ◌∷◌, ◌++◌, length, leb,
  ◌==◌, arith, ne→==,
}
use mathlib.Core.List.{append_assoc, append-nil}
use loss_os.Shell.{Str}
use loss_os.Shell.Paths.{split_from, split_path, stored}

-- No slash.
abbrev pub IsPlain : Str → Type 0
IsPlain [] = Unit {0}
IsPlain (c ∷ cs) = (c ≢ b'/') × IsPlain cs

-- A component that `cd` can store.
abbrev pub IsComponent : Str → Type 0
IsComponent comp = IsPlain comp × (0 < length comp) × (length comp < 63)

abbrev pub AreComponents : List Str → Type 0
AreComponents [] = Unit {0}
AreComponents (comp ∷ comps) = IsComponent comp × AreComponents comps

-- A path with a slash in front of each component.
abbrev pub joined : List Str → Str
joined [] = []
joined (comp ∷ comps) = b'/' ∷ comp ++ joined comps

split_from-plain :
    (room : ℕ) (comp : Str) (c : ℕ) (cs : Str)
    → c ≢ b'/'
    → split_from (suc room) comp (c ∷ cs) ≡ split_from (suc room) (comp ++ c ∷ []) cs
unfolding split_from
split_from-plain room comp c cs h = rw (ne→== c b'/' h, split_from) refl

split_from-empty :
    (room : ℕ) (cs : Str) → split_from (suc room) [] (b'/' ∷ cs) ≡ split_from (suc room) [] cs
unfolding split_from
split_from-empty room cs = refl

split_from-slash :
    (room : ℕ) (comp cs : Str)
    → 0 < length comp
    → length comp < 63
    → split_from (suc room) comp (b'/' ∷ cs) ≡ comp ∷ split_from room [] cs
unfolding split_from
split_from-slash room comp cs lo hi = rw (keep, split_from) refl
  where
    keep : (length comp == 0) || leb 63 (length comp) ≡ false
    keep = ground arith

split_from-end :
    (room : ℕ) (comp : Str)
    → 0 < length comp
    → length comp < 63
    → split_from (suc room) comp [] ≡ comp ∷ []
unfolding split_from stored
split_from-end room comp lo hi = ground arith

-- The characters of a component are gathered.
gather :
    (room : ℕ) (comp more path : Str)
    → IsPlain more
    → split_from (suc room) comp (more ++ path) ≡ split_from (suc room) (comp ++ more) path
gather room comp [] path h = rw append-nil refl
gather room comp (c ∷ more) path (hc, h) =
    split_from-plain room comp c (more ++ path) hc
    ∙ gather room (comp ++ c ∷ []) more path h
    ∙ ap (λ w. split_from (suc room) w path) (append_assoc comp (c ∷ []) more)

behind :
    (room : ℕ) (comp : Str) (comps : List Str)
    → length comps ≤ room
    → IsComponent comp
    → AreComponents comps
    → split_from (suc room) comp (joined comps) ≡ comp ∷ comps
behind room comp [] h part parts = split_from-end room comp part.1 part.2
behind zero comp (next ∷ comps) h part parts = absurd (omega arith)
behind (suc room) comp (next ∷ comps) h part (next_part, parts) =
    split_from-slash (suc room) comp (next ++ joined comps) part.1 part.2
    ∙ ap (λ rest. comp ∷ rest)
        (gather room [] next (joined comps) next_part.0
          ∙ behind room next comps (omega arith) next_part parts)

-- A path that is joined of components that can be stored, as many as there is room for, is taken
-- apart into the same components.
pub split_path-joined :
    (max_components : ℕ) (comps : List Str)
    → length comps ≤ max_components
    → AreComponents comps
    → split_path (joined comps) max_components ≡ comps
unfolding split_path split_from stored
split_path-joined zero [] h parts = refl
split_path-joined (suc room) [] h parts = refl
split_path-joined zero (comp ∷ comps) h parts = absurd (omega arith)
split_path-joined (suc room) (comp ∷ comps) h (part, parts) =
    split_from-empty room (comp ++ joined comps)
    ∙ gather room [] comp (joined comps) part.0
    ∙ behind room comp comps (omega arith) part parts
