-- ===== src/Drivers/Keyboard.antt =====
-- src/drivers/keyboard.c: the state of the keyboard driver and its interrupt routine. The scancode
-- that a port read yields is an argument; the acknowledgement to the interrupt controller is left
-- out.
pub mod Modifiers
pub mod Characters
use loss_os.Prelude.{
  ℕ, ◌+◌, ◌-◌, ◌%◌, Bool, true, false, not, ◌&&◌, ◌||◌, List, [], ◌∷◌, get_or, test_bit, leb, ◌==◌,
  if◌then◌else◌,
}

-- The printable characters of the scancodes; every code behind the end of a list has none.
abbrev pub keyboard_scancode_1_to_ascii_map : List ℕ
keyboard_scancode_1_to_ascii_map =
    0 ∷ 0x1B ∷ 49 ∷ 50 ∷ 51 ∷ 52 ∷ 53 ∷ 54 ∷ 55 ∷ 56 ∷ 57 ∷ 48 ∷ 45 ∷ 61 ∷ 8 ∷ 9 ∷ 113 ∷ 119 ∷ 101
    ∷ 114 ∷ 116 ∷ 121 ∷ 117 ∷ 105 ∷ 111 ∷ 112 ∷ 91 ∷ 93 ∷ 10 ∷ 0 ∷ 97 ∷ 115 ∷ 100 ∷ 102 ∷ 103 ∷ 104
    ∷ 106 ∷ 107 ∷ 108 ∷ 59 ∷ 39 ∷ 96 ∷ 0 ∷ 92 ∷ 122 ∷ 120 ∷ 99 ∷ 118 ∷ 98 ∷ 110 ∷ 109 ∷ 44 ∷ 46 ∷ 47
    ∷ 0 ∷ 42 ∷ 0 ∷ 32 ∷ 0 ∷ 0 ∷ 0 ∷ 0 ∷ 0 ∷ 0 ∷ 0 ∷ 0 ∷ 0 ∷ 0 ∷ 0 ∷ 0 ∷ 0 ∷ 0 ∷ 0 ∷ 0 ∷ 45 ∷ 0 ∷ 0
    ∷ 0 ∷ 43 ∷ []

abbrev pub keyboard_scancode_1_to_ascii_uppercase_map : List ℕ
keyboard_scancode_1_to_ascii_uppercase_map =
    0 ∷ 0x1B ∷ 33 ∷ 64 ∷ 35 ∷ 36 ∷ 37 ∷ 94 ∷ 38 ∷ 42 ∷ 40 ∷ 41 ∷ 95 ∷ 43 ∷ 8 ∷ 9 ∷ 81 ∷ 87 ∷ 69 ∷ 82
    ∷ 84 ∷ 89 ∷ 85 ∷ 73 ∷ 79 ∷ 80 ∷ 123 ∷ 125 ∷ 10 ∷ 0 ∷ 65 ∷ 83 ∷ 68 ∷ 70 ∷ 71 ∷ 72 ∷ 74 ∷ 75 ∷ 76
    ∷ 58 ∷ 34 ∷ 126 ∷ 0 ∷ 124 ∷ 90 ∷ 88 ∷ 67 ∷ 86 ∷ 66 ∷ 78 ∷ 77 ∷ 60 ∷ 62 ∷ 63 ∷ 0 ∷ 42 ∷ 0 ∷ 32
    ∷ 0 ∷ 0 ∷ 0 ∷ 0 ∷ 0 ∷ 0 ∷ 0 ∷ 0 ∷ 0 ∷ 0 ∷ 0 ∷ 0 ∷ 0 ∷ 0 ∷ 0 ∷ 0 ∷ 45 ∷ 0 ∷ 0 ∷ 0 ∷ 43 ∷ []

unfoldable pub lower_char : ℕ → ℕ
lower_char scancode = get_or keyboard_scancode_1_to_ascii_map scancode 0

unfoldable pub upper_char : ℕ → ℕ
upper_char scancode = get_or keyboard_scancode_1_to_ascii_uppercase_map scancode 0

abbrev pub scancode_shift_left : ℕ
scancode_shift_left = 0x2A

abbrev pub scancode_shift_right : ℕ
scancode_shift_right = 0x36

abbrev pub scancode_caps_lock : ℕ
scancode_caps_lock = 0x3A

abbrev pub extended_scancode_byte : ℕ
extended_scancode_byte = 0xE0

abbrev pub key_none : ℕ
key_none = 0

abbrev pub key_left : ℕ
key_left = 3

abbrev pub key_right : ℕ
key_right = 4

pub record KeyboardDriverState : Type 0 where
  pub read_extended_mode : Bool
  pub keyboard_input_on : Bool
  pub keyboard_buffer : ℕ
  pub shift_pressed : Bool
  pub caps_lock_on : Bool
  pub special_key : ℕ

unfoldable pub keyboard_state_activate : KeyboardDriverState → KeyboardDriverState
keyboard_state_activate k = record {
  read_extended_mode = false;
  keyboard_input_on = true;
  keyboard_buffer = 0;
  shift_pressed = false;
  caps_lock_on = false;
  special_key = key_none;
}

unfoldable pub keyboard_state_deactivate : KeyboardDriverState → KeyboardDriverState
keyboard_state_deactivate k = record k { keyboard_input_on = false }

unfoldable pub get_keyboard_buffer : KeyboardDriverState → ℕ × KeyboardDriverState
get_keyboard_buffer k = (k.keyboard_buffer, record k { keyboard_buffer = 0 })

unfoldable pub get_special_key : KeyboardDriverState → ℕ × KeyboardDriverState
get_special_key k = (k.special_key, record k { special_key = key_none })

-- A key is pressed: the branch that puts a character into the buffer.
unfoldable pub key_char : Bool → Bool → ℕ → ℕ → ℕ
key_char shift caps scancode buffer =
    let c = lower_char scancode in
    let mapped = if shift && not caps || not shift && caps then upper_char scancode else c in
    if caps && not shift
    then (if leb b'a' c && leb c b'z' then c - 32 else c)
    else if mapped == 0
    then buffer
    else mapped

-- A scancode that is not extended; `code` is the scancode without its highest bit.
unfoldable pub plain_key : KeyboardDriverState → Bool → ℕ → ℕ → KeyboardDriverState
plain_key k is_break_code code scancode =
    if (code == scancode_shift_left) || (code == scancode_shift_right)
    then record k { shift_pressed = not is_break_code }
    else if (code == scancode_caps_lock) && not is_break_code
    then record k { caps_lock_on = not k.caps_lock_on }
    else if not is_break_code
    then record k {
      keyboard_buffer = key_char k.shift_pressed k.caps_lock_on scancode k.keyboard_buffer;
    }
    else k

-- The key value of an extended scancode, or what was there.
unfoldable pub arrow_key : ℕ → ℕ → ℕ
arrow_key code old =
    if code == 0x48
    then 1
    else if code == 0x50
    then 2
    else if code == 0x4B
    then key_left
    else if code == 0x4D
    then key_right
    else old

unfoldable pub extended_key : KeyboardDriverState → Bool → ℕ → KeyboardDriverState
extended_key k is_break_code code =
    if not is_break_code
    then record k { special_key = arrow_key code k.special_key; read_extended_mode = false }
    else record k { read_extended_mode = false }

unfoldable pub keyboard_isr : KeyboardDriverState → ℕ → KeyboardDriverState
keyboard_isr k scancode =
    let is_break_code = test_bit scancode 7 in
    let code = scancode % 128 in
    if not k.keyboard_input_on
    then k
    else if scancode == extended_scancode_byte
    then record k { read_extended_mode = true }
    else if not k.read_extended_mode
    then plain_key k is_break_code code scancode
    else extended_key k is_break_code code
