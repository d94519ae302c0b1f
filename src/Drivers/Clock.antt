-- ===== src/Drivers/Clock.antt =====
-- src/drivers/cmos.c: the real-time clock. What the chip answers is an argument: one sample for
-- each pass over its registers, and register B. The wait for the end of an update before a pass is
-- left out.
pub mod Samples
pub mod Decoded
use mathlib.Core.Option
use loss_os.Prelude.{
  ℕ, ◌+◌, ◌*◌, ◌/◌, ◌%◌, bit_and, bit_or, Bool, not, ◌&&◌, Option, none, some, List, [], ◌∷◌, ltb,
  ◌==◌, if◌then◌else◌, test_bit,
}

abbrev pub current_year : ℕ
current_year = 2025

-- The variables that a pass over the registers sets.
pub record Sample : Type 0 where
  pub second : ℕ
  pub minute : ℕ
  pub hour : ℕ
  pub day : ℕ
  pub month : ℕ
  pub year : ℕ
  pub century : ℕ

unfoldable pub same_sample : Sample → Sample → Bool
same_sample last now =
    (last.second == now.second)
    && (last.minute == now.minute)
    && (last.hour == now.hour)
    && (last.day == now.day)
    && (last.month == now.month)
    && (last.year == now.year)
    && (last.century == now.century)

-- The `do` loop, which ends when a pass has read what the one before it read; `last` is the sample
-- of the pass before. It has no end if the samples that come never agree.
unfoldable pub stable_from : Sample → List Sample → Option Sample
stable_from last [] = none
stable_from last (now ∷ rest) =
    let later = stable_from now rest in if same_sample last now then some now else later

unfoldable pub from_bcd : ℕ → ℕ
from_bcd n = bit_and n 0x0F + n / 16 * 10

unfoldable pub hour_from_bcd : ℕ → ℕ
hour_from_bcd n = bit_or (bit_and n 0x0F + bit_and n 0x70 / 16 * 10) (bit_and n 0x80)

unfoldable pub binary : ℕ → ℕ → Sample → Sample
binary century_register register_b s =
    if not (test_bit register_b 2)
    then record {
      second = from_bcd s.second;
      minute = from_bcd s.minute;
      hour = hour_from_bcd s.hour;
      day = from_bcd s.day;
      month = from_bcd s.month;
      year = from_bcd s.year;
      century = if century_register == 0 then s.century else from_bcd s.century;
    }
    else s

unfoldable pub hour_of_day : ℕ → ℕ → ℕ
hour_of_day register_b hour =
    if not (test_bit register_b 1) && test_bit hour 7 then (bit_and hour 0x7F + 12) % 24 else hour

unfoldable pub full_year : ℕ → ℕ → ℕ → ℕ
full_year century_register century year =
    let this_century = year + current_year / 100 * 100 in
    if not (century_register == 0)
    then year + century * 100
    else if ltb this_century current_year
    then this_century + 100
    else this_century

unfoldable pub converted : ℕ → ℕ → Sample → Sample
converted century_register register_b s =
    let b = binary century_register register_b s in
    record b {
      hour = hour_of_day register_b b.hour;
      year = full_year century_register b.century b.year;
    }

-- `first` is the sample before the loop.
unfoldable pub read_rtc : ℕ → Sample → List Sample → ℕ → Option Sample
read_rtc century_register first samples register_b =
    Option.map (converted century_register register_b) (stable_from first samples)
