-- ===== src/Drivers/Keyboard/Modifiers.antt =====
-- What the keyboard driver of src/drivers/keyboard.c remembers of a run of interrupts.
use loss_os.Prelude.{
  ℕ, ◌<◌, ◌≡◌, refl, Bool, true, false, not, ◌||◌, List, [], ◌∷◌, test_bit, ◌==◌, if◌then◌else◌,
  arith, holds_under, holds_under_lem, same, same→eq, leb, Bool-cases, inl, inr,
}
use loss_os.Drivers.Keyboard.{
  KeyboardDriverState, keyboard_isr, plain_key, extended_key, extended_scancode_byte,
}

-- The interrupts of a list of scancodes, one after the other.
unfoldable pub interrupts : KeyboardDriverState → List ℕ → KeyboardDriverState
interrupts k [] = k
interrupts k (c ∷ cs) = interrupts (keyboard_isr k c) cs

-- Whether the next code is announced by a prefix byte.
unfoldable pub announced : Bool → List ℕ → Bool
announced before [] = before
announced before (c ∷ cs) = announced (c == extended_scancode_byte) cs

-- A prefix byte and the first other byte behind it are a key of their own.
unfoldable pub plain_codes : Bool → List ℕ → List ℕ
plain_codes prefixed [] = []
plain_codes prefixed (c ∷ cs) =
    let rest = plain_codes (c == extended_scancode_byte) cs in
    if (c == extended_scancode_byte) || prefixed then rest else c ∷ rest

-- Shift is down if the last of its codes is one of pressing.
unfoldable pub last_shift : Bool → List ℕ → Bool
last_shift held [] = held
last_shift held (c ∷ cs) =
    last_shift
      (if (c == 0x2A) || (c == 0x36)
        then true
        else if (c == 0xAA) || (c == 0xB6)
        then false
        else held)
      cs

-- Each press of the caps lock key toggles it.
unfoldable pub toggled : Bool → List ℕ → Bool
toggled on [] = on
toggled on (c ∷ cs) = toggled (if c == 0x3A then not on else on) cs

-- The codes of releasing are those of pressing plus 128.
abbrev code_row : ℕ → Bool
code_row c = same (test_bit c 7) (leb 128 c)

code_table : holds_under code_row 256 ≡ true
unfolding holds_under test_bit
code_table = refl

pub test_bit_7 : (c : ℕ) → c < 256 → test_bit c 7 ≡ leb 128 c
test_bit_7 c h = same→eq _ _ (holds_under_lem code_row h code_table)

abbrev pub AllBytes : List ℕ → Type 0
AllBytes [] = Unit {0}
AllBytes (c ∷ cs) = (c < 256) × AllBytes cs

-- One interrupt, as the history of the codes has it.
keyboard_isr_lem :
    (k : KeyboardDriverState) (c : ℕ)
    → c < 256
    → k.keyboard_input_on ≡ true
    → ((keyboard_isr k c).keyboard_input_on ≡ true)
      × ((keyboard_isr k c).read_extended_mode ≡ (c == extended_scancode_byte))
      × ((keyboard_isr k c).shift_pressed ≡ (
          if (c == extended_scancode_byte) || k.read_extended_mode
          then k.shift_pressed
          else if (c == 0x2A) || (c == 0x36)
          then true
          else if (c == 0xAA) || (c == 0xB6)
          then false
          else k.shift_pressed))
      × ((keyboard_isr k c).caps_lock_on ≡ (
          if (c == extended_scancode_byte) || k.read_extended_mode
          then k.caps_lock_on
          else if c == 0x3A
          then not k.caps_lock_on
          else k.caps_lock_on))
unfolding keyboard_isr plain_key extended_key
keyboard_isr_lem k c h on = rw (test_bit_7 c h) (ground arith)

-- After any run of interrupts with the input on: the extended mode is on exactly if the last code
-- is the prefix byte; shift is what the last code of either shift key says that no prefix
-- announces, down for a press and up for a release, also while the other key is still down; and
-- caps lock is the state before, toggled by every press of its key that no prefix announces.
pub interrupts_lem :
    (k : KeyboardDriverState) (cs : List ℕ)
    → AllBytes cs
    → k.keyboard_input_on ≡ true
    → ((interrupts k cs).read_extended_mode ≡ announced k.read_extended_mode cs)
      × ((interrupts k cs).shift_pressed
          ≡ last_shift k.shift_pressed (plain_codes k.read_extended_mode cs))
      × ((interrupts k cs).caps_lock_on
          ≡ toggled k.caps_lock_on (plain_codes k.read_extended_mode cs))
unfolding interrupts last_shift toggled plain_codes announced
interrupts_lem k [] h on = (refl, refl, refl)
interrupts_lem k (c ∷ cs) (hc, hs) on =
    let (on', prefixed, shift, caps) = keyboard_isr_lem k c hc on in
    let rest = interrupts_lem (keyboard_isr k c) cs hs on' in
    elim (Bool-cases ((c == extended_scancode_byte) || k.read_extended_mode)) [
      | inl skip ↦ rw (rest.0, rest.1, rest.2, prefixed, shift, caps, skip) (refl, refl, refl)
      | inr plain ↦ rw (rest.0, rest.1, rest.2, prefixed, shift, caps, plain) (refl, refl, refl)
    ]
