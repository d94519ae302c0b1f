-- ===== src/Drivers/Graphics/Squares.antt =====
-- What the drawing loops of src/drivers/graphics.c show: rows and squares of pixels, and glyphs.
use loss_os.Prelude.{
  ℕ, zero, suc, ◌+◌, ◌-◌, ◌*◌, ◌<◌, ◌≤◌, ◌≡◌, Bool, ◌&&◌, ◌||◌, ℤ, pos, test_bit, test_bit-zero,
  ltb, leb, ◌==◌, if◌then◌else◌, arith, Bool-cases, inl, inr, le→ltb, ℕ_discrete, ◌∙◌,
}
use loss_os.Drivers.Font.{font8x8}
use loss_os.Drivers.Graphics.{
  Vga, vga_width, vga_height, plus, times8, vga_draw_pixel, draw_row, draw_rows, glyph_row,
  glyph_rows, vga_draw_char,
}
use loss_os.Drivers.Graphics.Pixels.{pixel, IsScreen, vga_draw_pixel-IsScreen, pixel-vga_draw_pixel}

-- `a` is one of `n` numbers from `lo` on.
abbrev pub among : ℕ → ℕ → ℕ → Bool
among a lo n = leb lo a && ltb a (lo + n)

pub draw_row-IsScreen :
    (rounds dx : ℕ) (v : Vga) (px py : ℤ) (color : ℕ)
    → IsScreen v
    → IsScreen (draw_row rounds dx v px py color)
unfolding draw_row
draw_row-IsScreen zero dx v px py color h = h
draw_row-IsScreen (suc rounds) dx v px py color h =
    draw_row-IsScreen rounds (dx + 1) _ px py color
      (vga_draw_pixel-IsScreen v (plus px dx) py color h)

pub draw_rows-IsScreen :
    (rounds dy : ℕ) (v : Vga) (px py : ℤ) (color : ℕ)
    → IsScreen v
    → IsScreen (draw_rows rounds dy v px py color)
unfolding draw_rows
draw_rows-IsScreen zero dy v px py color h = h
draw_rows-IsScreen (suc rounds) dy v px py color h =
    draw_rows-IsScreen rounds (dy + 1) _ px py color
      (draw_row-IsScreen 8 0 v px (plus py dy) color h)

module _ (color plane a b : ℕ) (hp : plane < 4) (ha : a < vga_width) (hb : b < vga_height) where
  pixel-draw_row :
      (rounds dx : ℕ) (v : Vga) (px py : ℕ)
      → IsScreen v
      → pixel (draw_row rounds dx v (pos px) (pos py) color) plane a b ≡ (
          if among a (px + dx) rounds && (b == py) then test_bit color plane else pixel v plane a b)
  unfolding draw_row plus
  pixel-draw_row zero dx v px py h = ground arith
  pixel-draw_row (suc rounds) dx v px py h =
      let v1 = vga_draw_pixel v (pos (px + dx)) (pos py) color in
      ground (
        arith,
        pixel-draw_row rounds (dx + 1) v1 px py
            (vga_draw_pixel-IsScreen v (pos (px + dx)) (pos py) color h),
        pixel-vga_draw_pixel v (px + dx) py color plane a b h hp ha hb,
      )

  pub pixel-draw_rows :
      (rounds dy : ℕ) (v : Vga) (px py : ℕ)
      → IsScreen v
      → pixel (draw_rows rounds dy v (pos px) (pos py) color) plane a b ≡ (
          if among a px 8 && among b (py + dy) rounds
          then test_bit color plane
          else pixel v plane a b)
  unfolding draw_rows plus
  pixel-draw_rows zero dy v px py h = ground arith
  pixel-draw_rows (suc rounds) dy v px py h =
      let v1 = draw_row 8 0 v (pos px) (pos (py + dy)) color in
      ground (
        arith,
        pixel-draw_rows rounds (dy + 1) v1 px py
            (draw_row-IsScreen 8 0 v (pos px) (pos (py + dy)) color h),
        pixel-draw_row 8 0 v px (py + dy) h,
      )

  glyph_pixel-IsScreen :
      (col bits : ℕ) (v : Vga) (x y : ℤ)
      → IsScreen v
      → IsScreen (if test_bit bits col then vga_draw_pixel v x y color else v)
  glyph_pixel-IsScreen col bits v x y h = elim (Bool-cases (test_bit bits col)) [
    | inl lit ↦ rw lit (vga_draw_pixel-IsScreen v x y color h)
    | inr dark ↦ rw dark h
  ]

  pixel-glyph_pixel :
      (col bits : ℕ) (v : Vga) (px py : ℕ)
      → IsScreen v
      → pixel
          (if test_bit bits col then vga_draw_pixel v (pos (px + col)) (pos py) color else v)
          plane
          a
          b
        ≡ (if (a == (px + col)) && (b == py) && test_bit bits col
            then test_bit color plane
            else pixel v plane a b)
  pixel-glyph_pixel col bits v px py h = elim (Bool-cases (test_bit bits col)) [
    | inl lit ↦
        rw lit (pixel-vga_draw_pixel v (px + col) py color plane a b h hp ha hb ∙ ground arith)
    | inr dark ↦ rw dark (ground arith)
  ]

  glyph_row-IsScreen :
      (rounds col bits : ℕ) (v : Vga) (px py : ℤ)
      → IsScreen v
      → IsScreen (glyph_row rounds col bits v px py color)
  unfolding glyph_row
  glyph_row-IsScreen zero col bits v px py h = h
  glyph_row-IsScreen (suc rounds) col bits v px py h =
      glyph_row-IsScreen rounds (col + 1) bits _ px py
        (glyph_pixel-IsScreen col bits v (plus px col) py h)

  pixel-glyph_row :
      (rounds col bits : ℕ) (v : Vga) (px py : ℕ)
      → IsScreen v
      → pixel (glyph_row rounds col bits v (pos px) (pos py) color) plane a b ≡ (
          if among a (px + col) rounds && (b == py) && test_bit bits (a - px)
          then test_bit color plane
          else pixel v plane a b)
  unfolding glyph_row plus
  pixel-glyph_row zero col bits v px py h = ground arith
  pixel-glyph_row (suc rounds) col bits v px py h =
      let v1 = if test_bit bits col then vga_draw_pixel v (pos (px + col)) (pos py) color else v in
      let rest =
        pixel-glyph_row rounds (col + 1) bits v1 px py
          (glyph_pixel-IsScreen col bits v (pos (px + col)) (pos py) h) in
      let first = pixel-glyph_pixel col bits v px py h in
      elim (ℕ_discrete a (px + col)) [
        | yes e ↦ let d : a - px ≡ col = omega arith in rest ∙ rw (first, d) (ground arith)
        | no ne ↦ rest ∙ rw first (ground arith)
      ]

  glyph_rows-IsScreen :
      (rounds row : ℕ) (glyph : ℕ → ℕ) (v : Vga) (px py : ℤ)
      → IsScreen v
      → IsScreen (glyph_rows rounds row glyph v px py color)
  unfolding glyph_rows
  glyph_rows-IsScreen zero row glyph v px py h = h
  glyph_rows-IsScreen (suc rounds) row glyph v px py h =
      glyph_rows-IsScreen rounds (row + 1) glyph _ px py
        (glyph_row-IsScreen 8 0 (glyph row) v px (plus py row) h)

  pixel-glyph_rows :
      (rounds row : ℕ) (glyph : ℕ → ℕ) (v : Vga) (px py : ℕ)
      → IsScreen v
      → pixel (glyph_rows rounds row glyph v (pos px) (pos py) color) plane a b ≡ (
          if among a px 8 && among b (py + row) rounds && test_bit (glyph (b - py)) (a - px)
          then test_bit color plane
          else pixel v plane a b)
  unfolding glyph_rows plus
  pixel-glyph_rows zero row glyph v px py h = ground arith
  pixel-glyph_rows (suc rounds) row glyph v px py h =
      let v1 = glyph_row 8 0 (glyph row) v (pos px) (pos (py + row)) color in
      let rest =
        pixel-glyph_rows rounds (row + 1) glyph v1 px py
          (glyph_row-IsScreen 8 0 (glyph row) v (pos px) (pos (py + row)) h) in
      let first = pixel-glyph_row 8 0 (glyph row) v px (py + row) h in
      elim (ℕ_discrete b (py + row)) [
        | yes e ↦ let d : b - py ≡ row = omega arith in rest ∙ rw (first, d) (ground arith)
        | no ne ↦ rest ∙ rw first (ground arith)
      ]

-- A printable character covers its square of eight by eight pixels: the pixels of the glyph get the
-- colour, the others of the square are dark, and the rest of the screen stays as it was.
pub pixel-vga_draw_char :
    (v : Vga) (x y c color plane a b : ℕ)
    → IsScreen v
    → 32 ≤ c
    → c ≤ 126
    → plane < 4
    → a < vga_width
    → b < vga_height
    → pixel (vga_draw_char v (pos x) (pos y) c color) plane a b ≡ (
        if among a (x * 8) 8 && among b (y * 8) 8
        then test_bit (font8x8 (c - 32) (b - y * 8)) (a - x * 8) && test_bit color plane
        else pixel v plane a b)
unfolding vga_draw_char times8
pixel-vga_draw_char v x y c color plane a b h low high hp ha hb =
    let v1 = draw_rows 8 0 v (pos (x * 8)) (pos (y * 8)) 0 in
    rw (le→ltb c 32 low, le→ltb 126 c high)
      (pixel-glyph_rows color plane a b hp ha hb 8 0 (font8x8 (c - 32)) v1 (x * 8) (y * 8)
          (draw_rows-IsScreen 8 0 v (pos (x * 8)) (pos (y * 8)) 0 h)
        ∙ rw
            (
              pixel-draw_rows 0 plane a b hp ha hb 8 0 v (x * 8) (y * 8) h,
              test_bit-zero plane (omega arith),
            )
            (ground arith))

pub vga_draw_char-IsScreen :
    (v : Vga) (x y : ℤ) (c color : ℕ) → IsScreen v → IsScreen (vga_draw_char v x y c color)
unfolding vga_draw_char
vga_draw_char-IsScreen v x y c color h = elim (Bool-cases (ltb c 32 || ltb 126 c)) [
  | inl out ↦ rw out h
  | inr within ↦ rw within (
      glyph_rows-IsScreen color 0 0 0 (omega arith) (omega arith) (omega arith) 8 0
        (font8x8 (c - 32)) _ (times8 x) (times8 y)
        (draw_rows-IsScreen 8 0 v (times8 x) (times8 y) 0 h))
]
