-- ===== src/Drivers/Graphics/Fill.antt =====
-- `vga_fill8x8` of src/drivers/graphics.c against the drawing of the square pixel by pixel.
use loss_os.Prelude.{
  ℕ, zero, suc, ◌+◌, ◌-◌, ◌*◌, ◌/◌, ◌%◌, ◌<◌, ◌≤◌, ◌≡◌, ◌≢◌, refl, Bool, true, false, ◌&&◌, pos,
  Bytes, poke, poke_self, poke_ne, test_bit, test_bit-zero, test_bit_full, table3, table3_sound,
  same, same→eq, holds_under, ltb, leb, ◌==◌, if◌then◌else◌, arith, Bool-cases, inl, inr,
  ℕ_discrete, le→ltb, eq→==, ne→==,
}
use loss_os.Drivers.Graphics.{
  Vga, vga_width, vga_height, vga_pitch, draw_rows, merge, left_mask, right_mask, fill_aligned,
  fill_split, fill_round, vga_fill8x8,
}
use loss_os.Drivers.Graphics.Pixels.{bit_at, pixel, IsBytes, IsScreen, poke-IsBytes, each_plane_lem}
use loss_os.Drivers.Graphics.Squares.{among, pixel-draw_rows}

-- The two masks split a byte at `k`: in a byte's bit for column `j`, the left one reaches the
-- columns from `k` on, the right one those before.
abbrev left_row : Bool → ℕ → ℕ → ℕ → Bool
left_row lit x k j =
    same (test_bit (merge lit x (left_mask k)) (7 - j))
      (if leb k j then lit else test_bit x (7 - j))
    && ltb (merge lit x (left_mask k)) 256

abbrev right_row : Bool → ℕ → ℕ → ℕ → Bool
right_row lit x k j =
    same (test_bit (merge lit x (right_mask k)) (7 - j))
      (if ltb j k then lit else test_bit x (7 - j))
    && ltb (merge lit x (right_mask k)) 256

left_table : (lit : Bool) → table3 (left_row lit) ≡ true
unfolding table3 holds_under test_bit merge left_mask
left_table true = refl
left_table false = refl

right_table : (lit : Bool) → table3 (right_row lit) ≡ true
unfolding table3 holds_under test_bit merge right_mask
right_table true = refl
right_table false = refl

module _ (lit : Bool) (x k j : ℕ) (hx : x < 256) (hk : k < 8) (hj : j < 8) where
  left_bit :
      test_bit (merge lit x (left_mask k)) (7 - j) ≡ (if leb k j then lit else test_bit x (7 - j))
  left_bit =
      same→eq _ _ (ground (arith, table3_sound (left_row lit) (left_table lit) x k j hx hk hj))

  left-lt : merge lit x (left_mask k) < 256
  left-lt = ground (arith, table3_sound (left_row lit) (left_table lit) x k j hx hk hj)

  right_bit :
      test_bit (merge lit x (right_mask k)) (7 - j) ≡ (if ltb j k then lit else test_bit x (7 - j))
  right_bit =
      same→eq _ _ (ground (arith, table3_sound (right_row lit) (right_table lit) x k j hx hk hj))

  right-lt : merge lit x (right_mask k) < 256
  right-lt = ground (arith, table3_sound (right_row lit) (right_table lit) x k j hx hk hj)

-- A byte that is stored shows in its eight pixels only.
bit_at-poke :
    (vga : Bytes) (r xb value a b : ℕ)
    → xb < vga_pitch
    → a < vga_width
    → bit_at (poke vga (r * vga_pitch + xb) value) a b
      ≡ (if (a / 8 == xb) && (b == r) then test_bit value (7 - a % 8) else bit_at vga a b)
bit_at-poke vga r xb value a b h ha =
    elim (ℕ_discrete (r * vga_pitch + xb) (b * vga_pitch + a / 8)) [
      | yes e ↦ rw (← e) (ground (arith, poke_self vga (r * vga_pitch + xb) value))
      | no ne ↦ ground (arith, poke_ne vga (r * vga_pitch + xb) value (b * vga_pitch + a / 8) ne)
    ]

-- So does a byte that is merged with a mask.
module _ (lit : Bool) (vga : Bytes) (at r xb k a b : ℕ) (h : IsBytes vga)
    (place : at ≡ r * vga_pitch + xb) (hk : k < 8) (hx : xb < vga_pitch) (ha : a < vga_width) where
  bit_at-left :
      bit_at (poke vga at (merge lit (vga at) (left_mask k))) a b
      ≡ (if (a / 8 == xb) && (b == r) && leb k (a % 8) then lit else bit_at vga a b)
  bit_at-left =
      let value = merge lit (vga at) (left_mask k) in
      elim (ℕ_discrete at (b * vga_pitch + a / 8)) [
        | yes e ↦ rw (← e) (
            ground (
              arith,
              poke_self vga at value,
              left_bit lit (vga at) k (a % 8) (h at) hk (omega arith),
            ))
        | no ne ↦ ground (arith, poke_ne vga at value (b * vga_pitch + a / 8) ne)
      ]

  bit_at-right :
      bit_at (poke vga at (merge lit (vga at) (right_mask k))) a b
      ≡ (if (a / 8 == xb) && (b == r) && ltb (a % 8) k then lit else bit_at vga a b)
  bit_at-right =
      let value = merge lit (vga at) (right_mask k) in
      elim (ℕ_discrete at (b * vga_pitch + a / 8)) [
        | yes e ↦ rw (← e) (
            ground (
              arith,
              poke_self vga at value,
              right_bit lit (vga at) k (a % 8) (h at) hk (omega arith),
            ))
        | no ne ↦ ground (arith, poke_ne vga at value (b * vga_pitch + a / 8) ne)
      ]

module _ (lit : Bool) (x y a b : ℕ) (hx : x + 8 ≤ vga_width) (ha : a < vga_width) where
  full_bit : test_bit (if lit then 0xFF else 0x00) (7 - a % 8) ≡ lit
  full_bit = elim (Bool-cases lit) [
    | inl e ↦ rw e (test_bit_full (7 - a % 8) (omega arith))
    | inr e ↦ rw e (test_bit-zero (7 - a % 8) (omega arith))
  ]

  fill_aligned_lem :
      (rounds row : ℕ) (vga : Bytes)
      → x % 8 ≡ 0
      → bit_at (fill_aligned rounds row lit x y vga) a b
        ≡ (if among a x 8 && among b (y + row) rounds then lit else bit_at vga a b)
  unfolding fill_aligned
  fill_aligned_lem zero row vga h0 = ground arith
  fill_aligned_lem (suc rounds) row vga h0 =
      let value : ℕ = if lit then 0xFF else 0x00 in
      ground (
        arith,
        fill_aligned_lem rounds (row + 1) (poke vga ((y + row) * vga_pitch + x / 8) value) h0,
        bit_at-poke vga (y + row) (x / 8) value a b (omega arith) ha,
        full_bit,
      )

  -- One row that is not aligned.
  split_row : ℕ → Bytes → Bytes
  split_row row vga =
      let at = (y + row) * vga_pitch + x / 8 in
      let vga1 = poke vga at (merge lit (vga at) (left_mask (x % 8))) in
      poke vga1 (at + 1) (merge lit (vga1 (at + 1)) (right_mask (x % 8)))

  split_row-IsBytes : (row : ℕ) (vga : Bytes) → IsBytes vga → IsBytes (split_row row vga)
  unfolding split_row
  split_row-IsBytes row vga h =
      let at = (y + row) * vga_pitch + x / 8 in
      let first =
        poke-IsBytes vga at (merge lit (vga at) (left_mask (x % 8))) h
          (left-lt lit (vga at) (x % 8) 0 (h at) (omega arith) (omega arith)) in
      poke-IsBytes _ (at + 1) _ first
        (right-lt lit _ (x % 8) 0 (first (at + 1)) (omega arith) (omega arith))

  split_row_lem :
      (row : ℕ) (vga : Bytes)
      → IsBytes vga
      → x % 8 ≢ 0
      → bit_at (split_row row vga) a b
        ≡ (if among a x 8 && (b == (y + row)) then lit else bit_at vga a b)
  unfolding split_row
  split_row_lem row vga h h0 =
      let at = (y + row) * vga_pitch + x / 8 in
      let vga1 = poke vga at (merge lit (vga at) (left_mask (x % 8))) in
      let h1 =
        poke-IsBytes vga at (merge lit (vga at) (left_mask (x % 8))) h
          (left-lt lit (vga at) (x % 8) 0 (h at) (omega arith) (omega arith)) in
      ground (
        arith,
        bit_at-left lit vga at (y + row) (x / 8) (x % 8) a b h refl (omega arith) (omega arith) ha,
        bit_at-right lit vga1 (at + 1) (y + row) (x / 8 + 1) (x % 8) a b h1 (omega arith)
            (omega arith) (omega arith) ha,
      )

  fill_split_lem :
      (rounds row : ℕ) (vga : Bytes)
      → IsBytes vga
      → x % 8 ≢ 0
      → bit_at (fill_split rounds row lit x y vga) a b
        ≡ (if among a x 8 && among b (y + row) rounds then lit else bit_at vga a b)
  unfolding fill_split split_row
  fill_split_lem zero row vga h h0 = ground arith
  fill_split_lem (suc rounds) row vga h h0 = ground (
    arith,
    fill_split_lem rounds (row + 1) (split_row row vga) (split_row-IsBytes row vga h) h0,
    split_row_lem row vga h h0,
  )

-- The optimised square is the square that is drawn pixel by pixel: wherever it fits on the screen,
-- every pixel of the screen is the same after either.
pub vga_fill8x8-draw_rows :
    (v : Vga) (x y color plane a b : ℕ)
    → IsScreen v
    → x + 8 ≤ vga_width
    → y + 8 ≤ vga_height
    → plane < 4
    → a < vga_width
    → b < vga_height
    → pixel (vga_fill8x8 v (pos x) (pos y) color) plane a b
      ≡ pixel (draw_rows 8 0 v (pos x) (pos y) color) plane a b
unfolding vga_fill8x8 fill_round
vga_fill8x8-draw_rows v x y color plane a b h hx hy hp ha hb =
    rw
      (
        le→ltb vga_width (x + 8) hx,
        le→ltb vga_height (y + 8) hy,
        each_plane_lem (fill_round x y color) v plane hp,
        pixel-draw_rows color plane a b hp ha hb 8 0 v x y h,
      )
      (elim (ℕ_discrete (x % 8) 0) [
        | yes e ↦
            rw (eq→== (x % 8) 0 e)
              (fill_aligned_lem (test_bit color plane) x y a b hx ha 8 0 (v plane) e)
        | no ne ↦
            rw (ne→== (x % 8) 0 ne)
              (fill_split_lem (test_bit color plane) x y a b hx ha 8 0 (v plane) (h plane) ne)
      ])
