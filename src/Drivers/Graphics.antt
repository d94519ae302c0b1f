-- ===== src/Drivers/Graphics.antt =====
-- src/drivers/graphics.c: the planes of the VGA adapter in mode 12h. A loop round first selects one
-- plane through the ports, for reading and for writing; the model names that plane. A coordinate is
-- an `int`; a product of coordinates that overflows is not modelled.
pub mod Pixels
pub mod Squares
pub mod Fill
use loss_os.Prelude.{
  ℕ, zero, suc, ◌+◌, ◌-◌, ◌*◌, ◌/◌, ◌%◌, ◌^◌, bit_and, bit_or, Bool, ◌||◌, true, false, ℤ, pos,
  negsuc, Bytes, poke, update, u8, test_bit, set_bit, clear_bit, ltb, leb, ◌==◌, if◌then◌else◌,
}
use loss_os.Drivers.Font.{font8x8}

abbrev pub vga_width : ℕ
vga_width = 640

abbrev pub vga_height : ℕ
vga_height = 480

abbrev pub vga_pitch : ℕ
vga_pitch = vga_width / 8

abbrev pub vga_plane_size : ℕ
vga_plane_size = vga_pitch * vga_height

-- The bytes of each of the four planes.
abbrev pub Vga : Type 0
Vga = ℕ → Bytes

-- The loop over the planes; `f` is what a round does to the plane's bytes.
unfoldable pub each_plane : (ℕ → Bytes → Bytes) → Vga → Vga
each_plane f v =
    let v0 = update v 0 (f 0 (v 0)) in
    let v1 = update v0 1 (f 1 (v0 1)) in
    let v2 = update v1 2 (f 2 (v1 2)) in update v2 3 (f 3 (v2 3))

-- An `int` plus or times a number.
unfoldable pub plus : ℤ → ℕ → ℤ
plus (pos a) n = pos (a + n)
plus (negsuc a) n = if ltb a n then pos (n - a - 1) else negsuc (a - n)

unfoldable pub times8 : ℤ → ℤ
times8 (pos a) = pos (a * 8)
times8 (negsuc a) = negsuc (a * 8 + 7)

-- A round of `vga_draw_pixel`.
unfoldable pub pixel_round : ℕ → ℕ → ℕ → ℕ → Bytes → Bytes
pixel_round x y color plane vga =
    let byte_index = y * vga_pitch + x / 8 in
    let current = vga byte_index in
    if test_bit color plane
    then poke vga byte_index (set_bit current (7 - x % 8))
    else poke vga byte_index (clear_bit current (7 - x % 8))

unfoldable pub vga_draw_pixel : Vga → ℤ → ℤ → ℕ → Vga
vga_draw_pixel v (negsuc x) y color = v
vga_draw_pixel v (pos x) (negsuc y) color = v
vga_draw_pixel v (pos x) (pos y) color =
    if leb vga_width x || leb vga_height y then v else each_plane (pixel_round x y color) v

-- The loop of `vga_clear` over the bytes, at byte `i`.
unfoldable pub fill_bytes : ℕ → ℕ → ℕ → Bytes → Bytes
fill_bytes zero i value vga = vga
fill_bytes (suc rounds) i value vga = fill_bytes rounds (i + 1) value (poke vga i value)

unfoldable pub vga_clear : Vga → ℕ → Vga
vga_clear v color =
    each_plane (λ plane. fill_bytes vga_plane_size 0 (if test_bit color plane then 0xFF else 0x00))
      v

-- The loops that draw pixel after pixel in one colour: a row from column `dx` on, and rows of eight
-- pixels from `dy` on.
unfoldable pub draw_row : ℕ → ℕ → Vga → ℤ → ℤ → ℕ → Vga
draw_row zero dx v px py color = v
draw_row (suc rounds) dx v px py color =
    draw_row rounds (dx + 1) (vga_draw_pixel v (plus px dx) py color) px py color

unfoldable pub draw_rows : ℕ → ℕ → Vga → ℤ → ℤ → ℕ → Vga
draw_rows zero dy v px py color = v
draw_rows (suc rounds) dy v px py color =
    draw_rows rounds (dy + 1) (draw_row 8 0 v px (plus py dy) color) px py color

unfoldable pub vga_draw_cursor : Vga → ℤ → ℤ → ℕ → Vga
vga_draw_cursor v cx cy color = draw_rows 1 7 v (times8 cx) (times8 cy) color

unfoldable pub vga_clear_cursor : Vga → ℤ → ℤ → Vga
vga_clear_cursor v cx cy = draw_rows 9 7 v (times8 cx) (times8 cy) 0

-- The loops that draw a glyph.
unfoldable pub glyph_row : ℕ → ℕ → ℕ → Vga → ℤ → ℤ → ℕ → Vga
glyph_row zero col bits v px py color = v
glyph_row (suc rounds) col bits v px py color =
    glyph_row rounds (col + 1) bits
      (if test_bit bits col then vga_draw_pixel v (plus px col) py color else v) px py color

unfoldable pub glyph_rows : ℕ → ℕ → (ℕ → ℕ) → Vga → ℤ → ℤ → ℕ → Vga
glyph_rows zero row glyph v px py color = v
glyph_rows (suc rounds) row glyph v px py color =
    glyph_rows rounds (row + 1) glyph (glyph_row 8 0 (glyph row) v px (plus py row) color) px py
      color

-- `c` is the byte of a `char`; one above 127 is negative there, and is not drawn either.
unfoldable pub vga_draw_char : Vga → ℤ → ℤ → ℕ → ℕ → Vga
vga_draw_char v x y c color =
    let px = times8 x in
    let py = times8 y in
    if ltb c 32 || ltb 126 c
    then v
    else glyph_rows 8 0 (font8x8 (c - 32)) (draw_rows 8 0 v px py 0) px py color

unfoldable pub left_mask : ℕ → ℕ
left_mask start_bit = 0xFF / 2 ^ start_bit

unfoldable pub right_mask : ℕ → ℕ
right_mask start_bit = u8 (0xFF * 2 ^ (8 - start_bit))

-- `current | mask` or `current & ~mask`
unfoldable pub merge : Bool → ℕ → ℕ → ℕ
merge lit current mask = if lit then bit_or current mask else bit_and current (2 ^ 32 - 1 - mask)

-- The rows of `vga_fill8x8` in one plane, from `row` on.
unfoldable pub fill_aligned : ℕ → ℕ → Bool → ℕ → ℕ → Bytes → Bytes
fill_aligned zero row lit x y vga = vga
fill_aligned (suc rounds) row lit x y vga =
    fill_aligned rounds (row + 1) lit x y
      (poke vga ((y + row) * vga_pitch + x / 8) (if lit then 0xFF else 0x00))

unfoldable pub fill_split : ℕ → ℕ → Bool → ℕ → ℕ → Bytes → Bytes
fill_split zero row lit x y vga = vga
fill_split (suc rounds) row lit x y vga =
    let at = (y + row) * vga_pitch + x / 8 in
    let vga1 = poke vga at (merge lit (vga at) (left_mask (x % 8))) in
    let vga2 = poke vga1 (at + 1) (merge lit (vga1 (at + 1)) (right_mask (x % 8))) in
    fill_split rounds (row + 1) lit x y vga2

unfoldable pub fill_round : ℕ → ℕ → ℕ → ℕ → Bytes → Bytes
fill_round x y color plane vga =
    if x % 8 == 0
    then fill_aligned 8 0 (test_bit color plane) x y vga
    else fill_split 8 0 (test_bit color plane) x y vga

unfoldable pub vga_fill8x8 : Vga → ℤ → ℤ → ℕ → Vga
vga_fill8x8 v (negsuc x) y color = v
vga_fill8x8 v (pos x) (negsuc y) color = v
vga_fill8x8 v (pos x) (pos y) color =
    if ltb vga_width (x + 8) || ltb vga_height (y + 8)
    then v
    else each_plane (fill_round x y color) v
