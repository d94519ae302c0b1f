-- ===== src/Drivers/Graphics/Pixels.antt =====
-- What the planes of src/drivers/graphics.c show, and what one pixel of `vga_draw_pixel` changes.
use loss_os.Prelude.{
  ℕ, zero, suc, ◌+◌, ◌-◌, ◌*◌, ◌/◌, ◌%◌, ◌<◌, ◌≡◌, refl, Bool, ◌&&◌, pos, Bytes, poke, poke_self,
  poke_ne, test_bit, set_bit, clear_bit, test_bit-set_bit, test_bit-clear_bit, set_bit-lt,
  clear_bit-lt, ◌==◌, if◌then◌else◌, ℕ_discrete, arith, true, false, ◌||◌, inl, inr, Bool-cases,
  leb, ℤ, negsuc,
}
use loss_os.Drivers.Graphics.{
  Vga, vga_pitch, vga_width, vga_height, each_plane, pixel_round, vga_draw_pixel,
}

-- The bit of the pixel in column `a` of row `b`: the leftmost pixel of a byte is its highest bit.
abbrev pub bit_at : Bytes → ℕ → ℕ → Bool
bit_at vga a b = test_bit (vga (b * vga_pitch + a / 8)) (7 - a % 8)

abbrev pub pixel : Vga → ℕ → ℕ → ℕ → Bool
pixel v plane a b = bit_at (v plane) a b

abbrev pub IsBytes : Bytes → Type 0
IsBytes vga = (i : ℕ) → vga i < 256

abbrev pub IsScreen : Vga → Type 0
IsScreen v = (plane : ℕ) → IsBytes (v plane)

pub each_plane_lem :
    (f : ℕ → Bytes → Bytes) (v : Vga) (plane : ℕ)
    → plane < 4
    → each_plane f v plane ≡ f plane (v plane)
unfolding each_plane
each_plane_lem f v zero h = refl
each_plane_lem f v (suc zero) h = refl
each_plane_lem f v (suc (suc zero)) h = refl
each_plane_lem f v (suc (suc (suc zero))) h = refl
each_plane_lem f v (suc (suc (suc (suc plane)))) h = absurd (omega arith)

pub poke-IsBytes :
    (vga : Bytes) (at value : ℕ) → IsBytes vga → value < 256 → IsBytes (poke vga at value)
unfolding poke
poke-IsBytes vga at value h small i = ground (arith, h i)

pub each_plane-IsScreen :
    (f : ℕ → Bytes → Bytes) (v : Vga)
    → ((plane : ℕ) (vga : Bytes) → IsBytes vga → IsBytes (f plane vga))
    → IsScreen v
    → IsScreen (each_plane f v)
unfolding each_plane
each_plane-IsScreen f v keep h plane i = ground (
  arith,
  h plane i,
  keep 0 (v 0) (h 0) i,
  keep 1 (v 1) (h 1) i,
  keep 2 (v 2) (h 2) i,
  keep 3 (v 3) (h 3) i,
)

-- The byte that a round of `vga_draw_pixel` writes.
abbrev drawn : ℕ → ℕ → Bool → ℕ
drawn current k lit = if lit then set_bit current k else clear_bit current k

drawn-lt : (current k : ℕ) (lit : Bool) → current < 256 → k < 8 → drawn current k lit < 256
drawn-lt current k true h hk = set_bit-lt current k h hk
drawn-lt current k false h hk = clear_bit-lt current k h hk

test_bit-drawn :
    (current k : ℕ) (lit : Bool) (j : ℕ)
    → current < 256
    → k < 8
    → j < 8
    → test_bit (drawn current k lit) j ≡ (if k == j then lit else test_bit current j)
test_bit-drawn current k true j h hk hj = ground (arith, test_bit-set_bit current k j h hk hj)
test_bit-drawn current k false j h hk hj = ground (arith, test_bit-clear_bit current k j h hk hj)

pixel_round-poke :
    (x y color plane : ℕ) (vga : Bytes)
    → pixel_round x y color plane vga
      ≡ poke vga
          (y * vga_pitch + x / 8)
          (drawn (vga (y * vga_pitch + x / 8)) (7 - x % 8) (test_bit color plane))
unfolding pixel_round
pixel_round-poke x y color plane vga = ground arith

pixel_round-IsBytes :
    (x y color plane : ℕ) (vga : Bytes) → IsBytes vga → IsBytes (pixel_round x y color plane vga)
pixel_round-IsBytes x y color plane vga h = rw (pixel_round-poke x y color plane vga) (
    poke-IsBytes vga (y * vga_pitch + x / 8) _ h
      (drawn-lt _ _ (test_bit color plane) (h _) (omega arith)))

pub pixel_round_lem :
    (x y color plane : ℕ) (vga : Bytes) (a b : ℕ)
    → IsBytes vga
    → x < vga_width
    → a < vga_width
    → bit_at (pixel_round x y color plane vga) a b
      ≡ (if (a == x) && (b == y) then test_bit color plane else bit_at vga a b)
pixel_round_lem x y color plane vga a b h hx ha =
    let at = y * vga_pitch + x / 8 in
    let k = 7 - x % 8 in
    let value = drawn (vga at) k (test_bit color plane) in
    rw (pixel_round-poke x y color plane vga) (elim (ℕ_discrete at (b * vga_pitch + a / 8)) [
      | yes e ↦ rw (← e) (
          ground (
            arith,
            poke_self vga at value,
            test_bit-drawn (vga at) k (test_bit color plane) (7 - a % 8) (h at) (omega arith)
                (omega arith),
          ))
      | no ne ↦ ground (arith, poke_ne vga at value (b * vga_pitch + a / 8) ne)
    ])

pub vga_draw_pixel-IsScreen :
    (v : Vga) (x y : ℤ) (color : ℕ) → IsScreen v → IsScreen (vga_draw_pixel v x y color)
unfolding vga_draw_pixel
vga_draw_pixel-IsScreen v (negsuc x) y color h = h
vga_draw_pixel-IsScreen v (pos x) (negsuc y) color h = h
vga_draw_pixel-IsScreen v (pos x) (pos y) color h =
    elim (Bool-cases (leb vga_width x || leb vga_height y)) [
      | inl out ↦ rw out h
      | inr within ↦
          rw within
            (each_plane-IsScreen (pixel_round x y color) v (pixel_round-IsBytes x y color) h)
    ]

-- A pixel on the screen is drawn in all four planes, and no other pixel changes; one outside is not
-- drawn.
pub pixel-vga_draw_pixel :
    (v : Vga) (x y color plane a b : ℕ)
    → IsScreen v
    → plane < 4
    → a < vga_width
    → b < vga_height
    → pixel (vga_draw_pixel v (pos x) (pos y) color) plane a b
      ≡ (if (a == x) && (b == y) then test_bit color plane else pixel v plane a b)
unfolding vga_draw_pixel
pixel-vga_draw_pixel v x y color plane a b h hp ha hb =
    elim (Bool-cases (leb vga_width x || leb vga_height y)) [
      | inl out ↦ rw out (ground arith)
      | inr within ↦
          rw (within, each_plane_lem (pixel_round x y color) v plane hp)
            (pixel_round_lem x y color plane (v plane) a b (h plane) (ground arith) ha)
    ]
