-- ===== src/Drivers/Keyboard/Characters.antt =====
-- The characters that the keyboard driver of src/drivers/keyboard.c puts into its buffer.
use loss_os.Prelude.{
  ℕ, ◌-◌, ◌<◌, ◌≡◌, ◌≢◌, refl, Bool, true, false, not, ◌&&◌, ◌||◌, leb, ◌==◌, if◌then◌else◌, arith,
  holds_under, holds_under_lem,
}
use loss_os.Drivers.Keyboard.Modifiers.{test_bit_7}
use loss_os.Drivers.Keyboard.{
  KeyboardDriverState, keyboard_isr, plain_key, key_char, lower_char, upper_char,
}

abbrev pub is_letter : ℕ → Bool
is_letter c = leb b'a' c && leb c b'z'

-- The character that is meant: a letter is a capital under one of shift and caps lock; any other
-- key has its upper character under shift, if caps lock is off.
unfoldable pub typed : Bool → Bool → ℕ → ℕ
typed shift caps c =
    if is_letter (lower_char c)
    then (if shift && not caps || not shift && caps then lower_char c - 32 else lower_char c)
    else if shift && not caps
    then upper_char c
    else lower_char c

abbrev char_row : Bool → Bool → ℕ → Bool
char_row shift caps c =
    (lower_char c == 0)
    || (key_char shift caps c 0 == typed shift caps c)
      && not (typed shift caps c == 0)
      && not (c == 0x2A)
      && not (c == 0x36)
      && not (c == 0x3A)

char_table : (shift caps : Bool) → holds_under (char_row shift caps) 128 ≡ true
unfolding holds_under key_char typed lower_char upper_char
char_table true true = refl
char_table true false = refl
char_table false true = refl
char_table false false = refl

key_char-buffer :
    (shift caps : Bool) (c buffer : ℕ)
    → key_char shift caps c 0 ≢ 0
    → key_char shift caps c buffer ≡ key_char shift caps c 0
unfolding key_char
key_char-buffer shift caps c buffer h = ground arith

-- A press of a key that has a character, while the input is on and no prefix came before: the
-- buffer then holds the letter, as a capital under exactly one of shift and caps lock; for any
-- other key the upper character under shift, but with caps lock on the lower one, whether or not
-- shift is down.
pub keyboard_isr-typed :
    (k : KeyboardDriverState) (c : ℕ)
    → c < 128
    → lower_char c ≢ 0
    → k.keyboard_input_on ≡ true
    → k.read_extended_mode ≡ false
    → (keyboard_isr k c).keyboard_buffer ≡ typed k.shift_pressed k.caps_lock_on c
unfolding keyboard_isr plain_key
keyboard_isr-typed k c h char on plain =
    let row = holds_under_lem (char_row shift caps) h (char_table shift caps) in
    rw (on, plain, test_bit_7 c (omega arith))
      (ground (arith, row, key_char-buffer shift caps c k.keyboard_buffer))
  where
    shift : Bool
    shift = k.shift_pressed

    caps : Bool
    caps = k.caps_lock_on
