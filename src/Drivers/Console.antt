-- ===== src/Drivers/Console.antt =====
-- src/drivers/console.c with the cursor of src/drivers/framebuffer.c: text on the graphics screen.
pub mod Cells
pub mod Shown
use loss_os.Prelude.{
  ℕ, zero, suc, ◌+◌, ◌-◌, ◌*◌, ◌/◌, ◌<◌, Bool, ◌&&◌, ◌||◌, pos, Bytes, ltb, leb, ◌==◌,
  if◌then◌else◌,
}
use loss_os.Drivers.Graphics.{Vga, vga_clear, vga_draw_char, vga_draw_cursor, vga_clear_cursor}
use loss_os.Drivers.Keyboard.{
  KeyboardDriverState, keyboard_state_activate, get_special_key, key_left, key_right,
}

abbrev pub max_cols : ℕ
max_cols = 640 / 8

abbrev pub max_rows : ℕ
max_rows = 480 / 8

-- `framebuffer_state`, whose row and column are never negative, the screen and the keyboard.
pub record Console : Type 0 where
  pub row : ℕ
  pub col : ℕ
  pub vga : Vga
  pub keyboard : KeyboardDriverState

unfoldable pub update_cursor : Console → ℕ → Console
update_cursor t color = record t { vga = vga_draw_cursor t.vga (pos t.col) (pos t.row) color }

unfoldable pub hide_cursor : Console → Console
hide_cursor t = record t { vga = vga_clear_cursor t.vga (pos t.col) (pos t.row) }

unfoldable pub draw_at_cursor : Console → ℕ → ℕ → Console
draw_at_cursor t c color = record t { vga = vga_draw_char t.vga (pos t.col) (pos t.row) c color }

-- One cell back, over the end of the row above.
unfoldable pub step_back : Console → Console
step_back t =
    if ltb 0 t.col
    then record t { col = t.col - 1 }
    else if ltb 0 t.row
    then record t { row = t.row - 1; col = max_cols - 1 }
    else t

-- The start of the next row; the last row is not left.
unfoldable pub next_row : Console → Console
next_row t = record t {
  row = if leb max_rows (t.row + 1) then max_rows - 1 else t.row + 1;
  col = 0;
}

unfoldable pub advance : Console → Console
advance t = if leb max_cols (t.col + 1) then next_row t else record t { col = t.col + 1 }

-- The part of `putchar` for a character other than 0.
unfoldable pub put : Console → ℕ → ℕ → Console
put t c color =
    let moved =
      if c == 8
      then draw_at_cursor (step_back (hide_cursor t)) b' ' color
      else if c == 10
      then next_row (hide_cursor t)
      else advance (draw_at_cursor t c color) in
    update_cursor moved color

-- The arrow keys to the left and to the right.
unfoldable pub arrow : Console → ℕ → ℕ → Console
arrow t key color =
    if key == key_left
    then update_cursor (step_back (hide_cursor t)) color
    else if key == key_right
    then update_cursor
        (let u = hide_cursor t in
          if ltb u.col (max_cols - 1) then record u { col = u.col + 1 } else u)
        color
    else t

unfoldable pub putchar : Console → ℕ → ℕ → Console
putchar t c color =
    let t1 = if c == 0 then t else put t c color in
    let (key, keyboard1) = get_special_key t1.keyboard in
    arrow (record t1 { keyboard = keyboard1 }) key color

-- The loop of `puts` over the characters from `i` on.
unfoldable pub puts_from : ℕ → ℕ → Console → Bytes → ℕ → Console
puts_from zero i t string color = t
puts_from (suc rounds) i t string color =
    let rest = puts_from rounds (i + 1) (putchar t (string i) color) string color in
    if string i == 0 then t else rest

unfoldable pub puts : Console → Bytes → ℕ → ℕ → Console
puts t string count color = puts_from count 0 t string color

unfoldable pub clear_screen : Console → Console
clear_screen t = update_cursor (record t { vga = vga_clear t.vga 0; col = 0; row = 1 }) 0xF

-- `console_init`; the port sequence of `vga_init` ends with a clear screen.
unfoldable pub console_init : Console → Console
console_init t = record t { vga = vga_clear t.vga 0; keyboard = keyboard_state_activate t.keyboard }
