-- ===== src/Drivers/Console/Shown.antt =====
-- What `puts` of src/drivers/console.c leaves on the screen.
use loss_os.Prelude.{
  ℕ, zero, suc, ◌+◌, ◌-◌, ◌*◌, ◌%◌, ◌<◌, ◌≤◌, ◌≡◌, ◌∙◌, Bool, ◌&&◌, Bytes, ltb, ◌==◌, if◌then◌else◌,
  arith, test_bit, ℕ_discrete, ne→==, dec_lt,
}
use loss_os.Drivers.Font.{font8x8}
use loss_os.Drivers.Graphics.{vga_width, vga_height}
use loss_os.Drivers.Graphics.Pixels.{pixel, IsScreen}
use loss_os.Drivers.Graphics.Squares.{among}
use loss_os.Drivers.Keyboard.{key_none}
use loss_os.Drivers.Console.{Console, max_cols, max_rows, putchar, puts_from, puts}
use loss_os.Drivers.Console.Cells.{IsOnScreen, cell, position, putchar-Typed, puts_from-IsOnScreen}

abbrev pub ArePrintable : Bytes → ℕ → ℕ → Type 0
ArePrintable string i n = (j : ℕ) → i ≤ j → j < i + n → (32 ≤ string j) × (string j ≤ 126)

-- A pixel of the screen that shows the characters from `i` on, `n` of them, from cell `p` on.
abbrev pub text_pixel : Bytes → ℕ → ℕ → ℕ → ℕ → ℕ → ℕ → ℕ → Bool → Bool
text_pixel string i n p color plane a b old =
    if among (cell a b) p n
    then test_bit (font8x8 (string (i + (cell a b - p)) - 32) (b % 8)) (a % 8)
      && test_bit color plane
    else if (cell a b == (p + n)) && (b % 8 == 7) && ltb 0 n
    then test_bit color plane
    else old

text_step :
    (string : Bytes) (i n p color plane a b : ℕ) (old : Bool)
    → text_pixel string (i + 1) n (p + 1) color plane a b (
        if cell a b == p
        then test_bit (font8x8 (string i - 32) (b % 8)) (a % 8) && test_bit color plane
        else if (cell a b == (p + 1)) && (b % 8 == 7)
        then test_bit color plane
        else old)
      ≡ text_pixel string i (suc n) p color plane a b old
text_step string i n p color plane a b old = elim (ℕ_discrete (cell a b) p) [
  | yes e ↦ let d : i + (cell a b - p) ≡ i = omega arith in rw d (ground arith)
  | no ne ↦ elim (dec_lt (cell a b) p) [
    | yes before ↦ ground arith
    | no after ↦
        let d : i + 1 + (cell a b - (p + 1)) ≡ i + (cell a b - p) = omega arith in
        rw d (ground arith)
  ]
]

pub record Shown (t u : Console) (string : Bytes) (i n color : ℕ) : Type 0 where
  pub moved : position u ≡ position t + n
  pub shows :
      (plane a b : ℕ)
      → plane < 4
      → a < vga_width
      → b < vga_height
      → pixel u.vga plane a b
        ≡ text_pixel string i n (position t) color plane a b (pixel t.vga plane a b)

puts_from-Shown :
    (rounds i : ℕ) (t : Console) (string : Bytes) (color : ℕ)
    → IsOnScreen t
    → IsScreen t.vga
    → (t.keyboard).special_key ≡ key_none
    → position t + rounds < max_rows * max_cols
    → ArePrintable string i rounds
    → Shown t (puts_from rounds i t string color) string i rounds color
unfolding puts_from
puts_from-Shown zero i t string color h screen quiet room text = record {
  moved = omega arith;
  shows = λ plane a b hp ha hb. ground arith;
}
puts_from-Shown (suc rounds) i t string color h screen quiet room text =
    let printable = text i (omega arith) (omega arith) in
    let first =
      putchar-Typed t (string i) color h screen quiet (omega arith) printable.0 printable.1 in
    let t1 = putchar t (string i) color in
    let rest =
      puts_from-Shown rounds (i + 1) t1 string color first.on_screen first.screen first.quiet
        (omega (arith, first.moved)) (λ j h1 h2. text j (omega arith) (omega arith)) in
    rw (ne→== (string i) 0 (λ e. absurd (omega arith))) (record {
      moved = omega (arith, rest.moved, first.moved);
      shows = λ plane a b hp ha hb.
          rest.shows plane a b hp ha hb
          ∙ rw (first.moved, first.shows plane a b hp ha hb)
              (text_step string i rounds (position t) color plane a b (pixel t.vga plane a b));
    })

-- A text of printable characters that ends before the last cell of the screen, with no arrow key
-- waiting: the cursor stands behind it, the cells from the old cursor on show its glyphs in the
-- colour, the line of the cursor stands in the next cell, and every other pixel is as before.
pub puts-Shown :
    (t : Console) (string : Bytes) (count color : ℕ)
    → IsOnScreen t
    → IsScreen t.vga
    → (t.keyboard).special_key ≡ key_none
    → position t + count < max_rows * max_cols
    → ArePrintable string 0 count
    → Shown t (puts t string count color) string 0 count color
unfolding puts
puts-Shown t string count color = puts_from-Shown count 0 t string color

-- Whatever is put, the cursor stays on the screen.
pub puts-IsOnScreen :
    (t : Console) (string : Bytes) (count color : ℕ)
    → IsOnScreen t
    → IsOnScreen (puts t string count color)
unfolding puts
puts-IsOnScreen t string count color = puts_from-IsOnScreen count 0 t string color
