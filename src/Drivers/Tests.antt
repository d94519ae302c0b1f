-- ===== src/Drivers/Tests.antt =====
-- Runs of the theorems on src/drivers.
use loss_os.Prelude.{ℕ, ◌+◌, ◌≡◌, refl, true, false, pos, List, [], ◌∷◌, some, Bytes, arith}
use loss_os.Drivers.Graphics.{Vga, vga_fill8x8, draw_rows}
use loss_os.Drivers.Graphics.Pixels.{pixel}
use loss_os.Drivers.Graphics.Fill.{vga_fill8x8-draw_rows}
use loss_os.Drivers.Keyboard.{KeyboardDriverState, keyboard_isr, lower_char}
use loss_os.Drivers.Keyboard.Modifiers.{
  interrupts, interrupts_lem, last_shift, announced, toggled, plain_codes,
}
use loss_os.Drivers.Keyboard.Characters.{typed, keyboard_isr-typed}
use loss_os.Drivers.Console.{Console, puts}
use loss_os.Drivers.Console.Cells.{IsOnScreen}
use loss_os.Drivers.Console.Shown.{Shown, puts-Shown, puts-IsOnScreen}
use loss_os.Drivers.Clock.{Sample, read_rtc, same_sample}
use loss_os.Drivers.Clock.Decoded.{IsTime, on_chip, reported, register_b, read_rtc-on_chip}

abbrev dark : Vga
dark plane i = 0

vga_fill8x8-draw_rows_example :
    pixel (vga_fill8x8 dark (pos 13) (pos 20) 5) 2 15 22
    ≡ pixel (draw_rows 8 0 dark (pos 13) (pos 20) 5) 2 15 22
vga_fill8x8-draw_rows_example =
    vga_fill8x8-draw_rows dark 13 20 5 2 15 22 (λ plane i. omega arith) (omega arith) (omega arith)
      (omega arith) (omega arith) (omega arith)

-- The keyboard with the input on.
abbrev pub listening : KeyboardDriverState
listening = record {
  read_extended_mode = false;
  keyboard_input_on = true;
  keyboard_buffer = 0;
  shift_pressed = false;
  caps_lock_on = true;
  special_key = 0;
}

-- Shift is pressed, an arrow key behind its prefix byte, and shift is released.
abbrev keys : List ℕ
keys = 0x2A ∷ 0x36 ∷ 0xE0 ∷ 0x4B ∷ 0x1E ∷ 0xAA ∷ []

interrupts_example :
    ((interrupts listening keys).read_extended_mode ≡ announced false keys)
    × ((interrupts listening keys).shift_pressed ≡ last_shift false (plain_codes false keys))
    × ((interrupts listening keys).caps_lock_on ≡ toggled true (plain_codes false keys))
interrupts_example = interrupts_lem listening keys (omega arith) refl

digit_key : lower_char 2 ≡ b'1'
unfolding lower_char
digit_key = refl

keyboard_isr-typed_example : (keyboard_isr listening 2).keyboard_buffer ≡ typed false true 2
keyboard_isr-typed_example =
    keyboard_isr-typed listening 2 (omega arith) (λ e. absurd (omega (arith, digit_key))) refl refl

abbrev pub fresh_console : Console
fresh_console = record { row = 1; col = 79; vga = dark; keyboard = listening }

-- `ABCDE` and so on.
abbrev letters : Bytes
letters i = b'A' + i

puts-Shown_example : Shown fresh_console (puts fresh_console letters 5 0xF) letters 0 5 0xF
puts-Shown_example =
    puts-Shown fresh_console letters 5 0xF (omega arith, omega arith) (λ plane i. omega arith) refl
      (omega arith) (λ j h1 h2. (omega arith, omega arith))

puts-IsOnScreen_example : IsOnScreen (puts fresh_console letters 5 0xF)
puts-IsOnScreen_example = puts-IsOnScreen fresh_console letters 5 0xF (omega arith, omega arith)

-- A minute past noon.
abbrev pub noon : Sample
noon = record { second = 0; minute = 1; hour = 12; day = 26; month = 11; year = 26; century = 0 }

noon-IsTime : IsTime noon
noon-IsTime = record {
  second_lt = omega arith;
  minute_lt = omega arith;
  hour_lt = omega arith;
  day_lt = omega arith;
  month_lt = omega arith;
  year_lt = omega arith;
}

-- The pass before the minute changed.
abbrev before : Sample
before = record {
  second = 89;
  minute = 0;
  hour = 146;
  day = 38;
  month = 17;
  year = 38;
  century = 0;
}

moved : same_sample before (on_chip false false noon) ≡ false
unfolding same_sample
moved = refl

read_rtc-on_chip_example :
    read_rtc 0 before
      (on_chip false false noon ∷ on_chip false false noon ∷ [])
      (register_b false false)
    ≡ some (reported false noon)
read_rtc-on_chip_example =
    read_rtc-on_chip false false noon before (on_chip false false noon ∷ []) [] noon-IsTime
      (moved, tt) refl
