-- ===== src/Drivers/Clock/Samples.antt =====
-- When the sampling loop of src/drivers/cmos.c ends.
use loss_os.Prelude.{◌≡◌, refl, true, false, some, List, [], ◌∷◌, ◌++◌, arith}
use loss_os.Drivers.Clock.{Sample, same_sample, stable_from}

-- No two samples that follow one another agree.
abbrev pub Restless : Sample → List Sample → Type 0
Restless last [] = Unit {0}
Restless last (now ∷ rest) = (same_sample last now ≡ false) × Restless now rest

abbrev pub final : Sample → List Sample → Sample
final last [] = last
final last (now ∷ rest) = final now rest

same_sample_self : (s : Sample) → same_sample s s ≡ true
unfolding same_sample
same_sample_self s = ground arith

same_sample→eq : (s t : Sample) → same_sample s t ≡ true → s ≡ t
unfolding same_sample
same_sample→eq s t h = ground arith

-- The loop ends with the first sample that repeats the one before it.
pub stable_from_lem :
    (first : Sample) (passed later : List Sample)
    → Restless first passed
    → stable_from first (passed ++ final first passed ∷ later) ≡ some (final first passed)
unfolding stable_from
stable_from_lem first [] later h = rw (same_sample_self first) refl
stable_from_lem first (now ∷ passed) later (move, rest) =
    rw (move) (stable_from_lem now passed later rest)
