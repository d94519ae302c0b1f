-- ===== src/Drivers/Console/Cells.antt =====
-- Where the console of src/drivers/console.c writes: the cursor stays on the screen, and text fills
-- the cells behind it.
use loss_os.Prelude.{
  ℕ, zero, suc, ◌+◌, ◌-◌, ◌*◌, ◌/◌, ◌%◌, ◌<◌, ◌≤◌, ◌≡◌, ◌&&◌, pos, Bytes, ◌==◌, if◌then◌else◌,
  arith, test_bit, Bool-cases, inl, inr, ℤ, ℕ_discrete,
}
use loss_os.Drivers.Font.{font8x8}
use loss_os.Drivers.Graphics.{Vga, vga_width, vga_height, vga_draw_char, vga_draw_cursor, times8}
use loss_os.Drivers.Graphics.Pixels.{pixel, IsScreen}
use loss_os.Drivers.Graphics.Squares.{
  pixel-draw_rows, pixel-vga_draw_char, draw_rows-IsScreen, vga_draw_char-IsScreen,
}
use loss_os.Drivers.Keyboard.{get_special_key, key_none}
use loss_os.Drivers.Console.{
  Console, max_cols, max_rows, update_cursor, hide_cursor, draw_at_cursor, step_back, next_row,
  advance, put, arrow, putchar, puts_from,
}

abbrev pub IsOnScreen : Console → Type 0
IsOnScreen t = (t.row < max_rows) × (t.col < max_cols)

put-IsOnScreen : (t : Console) (c color : ℕ) → IsOnScreen t → IsOnScreen (put t c color)
unfolding put update_cursor hide_cursor draw_at_cursor step_back next_row advance
put-IsOnScreen t c color h = ground arith

arrow-IsOnScreen : (t : Console) (key color : ℕ) → IsOnScreen t → IsOnScreen (arrow t key color)
unfolding arrow update_cursor hide_cursor step_back
arrow-IsOnScreen t key color h = ground arith

put_or_stay : Console → ℕ → ℕ → Console
put_or_stay t c color = if c == 0 then t else put t c color

put_or_stay-IsOnScreen :
    (t : Console) (c color : ℕ) → IsOnScreen t → IsOnScreen (put_or_stay t c color)
unfolding put_or_stay
put_or_stay-IsOnScreen t c color h = elim (Bool-cases (c == 0)) [
  | inl e ↦ rw e h
  | inr e ↦ rw e (put-IsOnScreen t c color h)
]

pub putchar-IsOnScreen : (t : Console) (c color : ℕ) → IsOnScreen t → IsOnScreen (putchar t c color)
unfolding putchar get_special_key put_or_stay
putchar-IsOnScreen t c color h =
    let t1 = put_or_stay t c color in
    let k = t1.keyboard in
    arrow-IsOnScreen (record t1 { keyboard = record k { special_key = key_none } }) k.special_key
      color (put_or_stay-IsOnScreen t c color h)

pub puts_from-IsOnScreen :
    (rounds i : ℕ) (t : Console) (string : Bytes) (color : ℕ)
    → IsOnScreen t
    → IsOnScreen (puts_from rounds i t string color)
unfolding puts_from
puts_from-IsOnScreen zero i t string color h = h
puts_from-IsOnScreen (suc rounds) i t string color h = elim (Bool-cases (string i == 0)) [
  | inl e ↦ rw e h
  | inr e ↦ rw e (
      puts_from-IsOnScreen rounds (i + 1) (putchar t (string i) color) string color
        (putchar-IsOnScreen t (string i) color h))
]

-- The cell of a pixel, counted along the rows.
abbrev pub cell : ℕ → ℕ → ℕ
cell a b = b / 8 * max_cols + a / 8

-- The cell of the cursor.
abbrev pub position : Console → ℕ
position t = t.row * max_cols + t.col

-- A printable character, with no arrow key waiting, before the last cell of the screen: what
-- `putchar` leaves.
pub record Typed (t : Console) (c color : ℕ) : Type 0 where
  pub on_screen : IsOnScreen (putchar t c color)
  pub moved : position (putchar t c color) ≡ position t + 1
  pub quiet : ((putchar t c color).keyboard).special_key ≡ key_none
  pub screen : IsScreen (putchar t c color).vga
  pub shows :
      (plane a b : ℕ)
      → plane < 4
      → a < vga_width
      → b < vga_height
      → pixel (putchar t c color).vga plane a b ≡ (
          if cell a b == position t
          then test_bit (font8x8 (c - 32) (b % 8)) (a % 8) && test_bit color plane
          else if (cell a b == (position t + 1)) && (b % 8 == 7)
          then test_bit color plane
          else pixel t.vga plane a b)

-- The character is drawn at the cursor, and the cursor where it then stands.
putchar-vga :
    (t : Console) (c color : ℕ)
    → (t.keyboard).special_key ≡ key_none
    → 32 ≤ c
    → (putchar t c color).vga
      ≡ vga_draw_cursor
          (vga_draw_char t.vga (pos t.col) (pos t.row) c color)
          (pos (putchar t c color).col)
          (pos (putchar t c color).row)
          color
unfolding putchar get_special_key put arrow update_cursor draw_at_cursor advance next_row
putchar-vga t c color quiet low = ground arith

putchar-position :
    (t : Console) (c color : ℕ)
    → (t.keyboard).special_key ≡ key_none
    → IsOnScreen t
    → position t + 1 < max_rows * max_cols
    → 32 ≤ c
    → (position (putchar t c color) ≡ position t + 1)
      × (((putchar t c color).keyboard).special_key ≡ key_none)
unfolding putchar get_special_key put arrow update_cursor draw_at_cursor advance next_row
putchar-position t c color quiet h room low = (ground arith, ground arith)

vga_draw_cursor-IsScreen :
    (v : Vga) (cx cy : ℤ) (color : ℕ) → IsScreen v → IsScreen (vga_draw_cursor v cx cy color)
unfolding vga_draw_cursor
vga_draw_cursor-IsScreen v cx cy color h = draw_rows-IsScreen 1 7 v (times8 cx) (times8 cy) color h

module _ (plane a b : ℕ) (hp : plane < 4) (ha : a < vga_width) (hb : b < vga_height) where
  pixel-in_cell :
      (v : Vga) (x y c color : ℕ)
      → IsScreen v
      → x < max_cols
      → 32 ≤ c
      → c ≤ 126
      → pixel (vga_draw_char v (pos x) (pos y) c color) plane a b ≡ (
          if cell a b == (y * max_cols + x)
          then test_bit (font8x8 (c - 32) (b % 8)) (a % 8) && test_bit color plane
          else pixel v plane a b)
  pixel-in_cell v x y c color h hx low high = elim (ℕ_discrete (cell a b) (y * max_cols + x)) [
    | yes e ↦
        let ea : a - x * 8 ≡ a % 8 = omega arith in
        let eb : b - y * 8 ≡ b % 8 = omega arith in
        rw (pixel-vga_draw_char v x y c color plane a b h low high hp ha hb, ea, eb) (ground arith)
    | no ne ↦ rw (pixel-vga_draw_char v x y c color plane a b h low high hp ha hb) (ground arith)
  ]

  pixel-cursor :
      (v : Vga) (x y color : ℕ)
      → IsScreen v
      → x < max_cols
      → pixel (vga_draw_cursor v (pos x) (pos y) color) plane a b ≡ (
          if (cell a b == (y * max_cols + x)) && (b % 8 == 7)
          then test_bit color plane
          else pixel v plane a b)
  unfolding vga_draw_cursor times8
  pixel-cursor v x y color h hx =
      rw (pixel-draw_rows color plane a b hp ha hb 1 7 v (x * 8) (y * 8) h) (ground arith)

pub putchar-Typed :
    (t : Console) (c color : ℕ)
    → IsOnScreen t
    → IsScreen t.vga
    → (t.keyboard).special_key ≡ key_none
    → position t + 1 < max_rows * max_cols
    → 32 ≤ c
    → c ≤ 126
    → Typed t c color
putchar-Typed t c color h screen quiet room low high =
    let u = putchar t c color in
    let on = putchar-IsOnScreen t c color h in
    let drawn = vga_draw_char-IsScreen t.vga (pos t.col) (pos t.row) c color screen in
    let next = putchar-position t c color quiet h room low in
    record {
      on_screen = on;
      moved = next.0;
      quiet = next.1;
      screen =
          rw (putchar-vga t c color quiet low)
            (vga_draw_cursor-IsScreen _ (pos u.col) (pos u.row) color drawn);
      shows = λ plane a b hp ha hb.
          rw
            (
              putchar-vga t c color quiet low,
              pixel-cursor plane a b hp ha hb (vga_draw_char t.vga (pos t.col) (pos t.row) c color)
                  u.col u.row color drawn on.1,
              pixel-in_cell plane a b hp ha hb t.vga t.col t.row c color screen h.1 low high,
            )
            (ground (arith, next.0));
    }
