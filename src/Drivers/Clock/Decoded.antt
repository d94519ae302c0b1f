-- ===== src/Drivers/Clock/Decoded.antt =====
-- What the conversions of src/drivers/cmos.c make of the registers of the clock's chip.
use loss_os.Prelude.{
  ℕ, ◌+◌, ◌*◌, ◌/◌, ◌%◌, ◌<◌, ◌≡◌, refl, Bool, true, false, ltb, leb, ◌==◌, ==_iff, if◌then◌else◌,
  arith, holds_under, holds_under_lem, test_bit, some, List, ◌∷◌, ◌++◌,
}
use loss_os.Drivers.Clock.{
  Sample, converted, binary, from_bcd, hour_from_bcd, hour_of_day, full_year, read_rtc,
}
use loss_os.Drivers.Clock.Samples.{Restless, final, stable_from_lem}

-- The chip's format: register B has bit 1 for 24 hours and bit 2 for binary numbers.
abbrev pub register_b : Bool → Bool → ℕ
register_b hours24 plain = (if hours24 then 2 else 0) + (if plain then 4 else 0)

abbrev pub encoded : Bool → ℕ → ℕ
encoded plain n = if plain then n else n / 10 * 16 + n % 10

-- With 12 hours the noon and midnight hours are 12, and bit 7 stands for the afternoon.
abbrev pub hour_register : Bool → Bool → ℕ → ℕ
hour_register hours24 plain h =
    if hours24
    then encoded plain h
    else encoded plain (if h % 12 == 0 then 12 else h % 12) + (if leb 12 h then 128 else 0)

abbrev number_row : Bool → ℕ → Bool
number_row plain n = (if plain then encoded plain n else from_bcd (encoded plain n)) == n

number_table : (plain : Bool) → holds_under (number_row plain) 100 ≡ true
unfolding holds_under from_bcd
number_table true = refl
number_table false = refl

-- The hour that comes out: in the format of 12 hours, noon and midnight are exchanged.
abbrev pub hour_read : Bool → ℕ → ℕ
hour_read hours24 h = if hours24 then h else if h == 0 then 12 else if h == 12 then 0 else h

abbrev hour_row : Bool → Bool → ℕ → Bool
hour_row hours24 plain h =
    let r = hour_register hours24 plain h in
    hour_of_day (register_b hours24 plain) (if plain then r else hour_from_bcd r)
    == hour_read hours24 h

hour_table : (hours24 plain : Bool) → holds_under (hour_row hours24 plain) 24 ≡ true
unfolding holds_under hour_of_day hour_from_bcd test_bit
hour_table true true = refl
hour_table true false = refl
hour_table false true = refl
hour_table false false = refl

from_bcd-encoded : (n : ℕ) → n < 100 → from_bcd (encoded false n) ≡ n
from_bcd-encoded n h = (==_iff _ _).0 (holds_under_lem (number_row false) h (number_table false))

hour_lem :
    (hours24 plain : Bool) (h : ℕ)
    → h < 24
    → hour_of_day (register_b hours24 plain) (
        if plain
        then hour_register hours24 plain h
        else hour_from_bcd (hour_register hours24 plain h))
      ≡ hour_read hours24 h
hour_lem hours24 plain h lt =
    (==_iff _ _).0 (holds_under_lem (hour_row hours24 plain) lt (hour_table hours24 plain))

-- A time of day and a date, whose year is given within its century.
pub record IsTime (t : Sample) : Type 0 where
  pub second_lt : t.second < 60
  pub minute_lt : t.minute < 60
  pub hour_lt : t.hour < 24
  pub day_lt : t.day < 32
  pub month_lt : t.month < 13
  pub year_lt : t.year < 100

-- The registers that show the time.
abbrev pub on_chip : Bool → Bool → Sample → Sample
on_chip hours24 plain t = record {
  second = encoded plain t.second;
  minute = encoded plain t.minute;
  hour = hour_register hours24 plain t.hour;
  day = encoded plain t.day;
  month = encoded plain t.month;
  year = encoded plain t.year;
  century = t.century;
}

-- The time that the driver reports: years before 25 are taken for the next century.
abbrev pub reported : Bool → Sample → Sample
reported hours24 t = record t {
  hour = hour_read hours24 t.hour;
  year = if ltb t.year 25 then 2100 + t.year else 2000 + t.year;
}

converted-on_chip :
    (hours24 plain : Bool) (t : Sample)
    → IsTime t
    → converted 0 (register_b hours24 plain) (on_chip hours24 plain t) ≡ reported hours24 t
unfolding converted binary full_year test_bit
converted-on_chip true true t h = ground (arith, hour_lem true true t.hour h.hour_lt)
converted-on_chip false true t h = ground (arith, hour_lem false true t.hour h.hour_lt)
converted-on_chip true false t h = ground (
  arith,
  hour_lem true false t.hour h.hour_lt,
  from_bcd-encoded t.second,
  from_bcd-encoded t.minute,
  from_bcd-encoded t.day,
  from_bcd-encoded t.month,
  from_bcd-encoded t.year,
)
converted-on_chip false false t h = ground (
  arith,
  hour_lem false false t.hour h.hour_lt,
  from_bcd-encoded t.second,
  from_bcd-encoded t.minute,
  from_bcd-encoded t.day,
  from_bcd-encoded t.month,
  from_bcd-encoded t.year,
)

-- In each of the chip's four formats, without a century register: when after any number of passes
-- that all differ from the one before a pass repeats the registers of a time, `read_rtc` ends with
-- that time, with the year between 2025 and 2124; but in the format of 12 hours it reports noon as
-- 0 and midnight as 12.
pub read_rtc-on_chip :
    (hours24 plain : Bool) (t first : Sample) (passed later : List Sample)
    → IsTime t
    → Restless first passed
    → final first passed ≡ on_chip hours24 plain t
    → read_rtc 0 first (passed ++ final first passed ∷ later) (register_b hours24 plain)
      ≡ some (reported hours24 t)
unfolding read_rtc
read_rtc-on_chip hours24 plain t first passed later time moving now =
    rw (stable_from_lem first passed later moving, now, converted-on_chip hours24 plain t time) refl
