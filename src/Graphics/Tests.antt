-- ===== src/Graphics/Tests.antt =====
-- Rectangles on a canvas (Kernel/graphics.cpp).
use mikanos_copy.Common.{ℕ, ◌+◌, ◌*◌, ◌<◌, ◌≡◌, refl, true, ◌==◌, arith, if◌then◌else◌}
use mikanos_copy.Common.Int.{ℤ, pos, negsuc, ◌+ℤ◌, ◌-ℤ◌, le, plus, minus, sub_nat, add_lem, le_lem}
use mikanos_copy.Graphics.{
  PixelColor, Vector2D, ◌+v◌, Rectangle, intersection, fill_rectangle, draw_rectangle, draw_level,
  draw_upright, to_color,
}
use mikanos_copy.Graphics.Area.{spans, contains}
use mikanos_copy.Graphics.Fill.{read-fill_rectangle, same_point, same_int}

abbrev Canvas : Type 0
Canvas = Vector2D → PixelColor

abbrev write : Vector2D → PixelColor → Canvas → Canvas
write at c w q = if same_point at q then c else w q

abbrev read : Canvas → Vector2D → PixelColor
read w q = w q

abbrev point : ℤ → ℤ → Vector2D
point x y = record { x = x; y = y }

abbrev upper : Rectangle
upper = record { pos = point (negsuc 1) (pos 0); size = point (pos 6) (pos 3) }

abbrev lower : Rectangle
lower = record { pos = point (pos 1) (pos 2); size = point (pos 9) (pos 5) }

blank : Canvas
blank q = to_color 0

shared :
    intersection upper lower ≡ record { pos = point (pos 1) (pos 2); size = point (pos 3) (pos 1) }
unfolding intersection ◌+ℤ◌ ◌-ℤ◌ le sub_nat
shared = refl

-- A frame buffer of 4 rows with 8 pixels to a line, as bytes: `PixelAt`, and the `Write` of
-- `RGBResv8BitPerColorPixelWriter`.
abbrev pixel_at : Vector2D → ℕ
pixel_at p = (8 * plus p.y + plus p.x) * 4

write_rgb : Vector2D → PixelColor → (ℕ → ℕ) → ℕ → ℕ
write_rgb p c buffer a =
    if a == pixel_at p
    then c.r
    else if a == pixel_at p + 1
    then c.g
    else if a == pixel_at p + 2
    then c.b
    else buffer a

read_rgb : (ℕ → ℕ) → Vector2D → PixelColor
read_rgb buffer p = record {
  r = buffer (pixel_at p);
  g = buffer (pixel_at p + 1);
  b = buffer (pixel_at p + 2);
}

abbrev screen : Rectangle
screen = record { pos = point (pos 0) (pos 0); size = point (pos 8) (pos 4) }

inside_screen :
    (p : Vector2D)
    → contains screen p ≡ true
    → (plus p.x < 8) × (plus p.y < 4) × (minus p.x ≡ 0) × (minus p.y ≡ 0)
unfolding contains spans plus minus
inside_screen p h = ground (
  arith,
  h,
  le_lem (pos 0) p.x,
  le_lem (pos 0) p.y,
  le_lem (pos 0 +ℤ pos 8) p.x,
  le_lem (pos 0 +ℤ pos 4) p.y,
  add_lem (pos 0) (pos 8),
  add_lem (pos 0) (pos 4),
)

same_pixel :
    (p q : Vector2D)
    → contains screen p ≡ true
    → contains screen q ≡ true
    → same_point p q ≡ (pixel_at p == pixel_at q)
unfolding same_point same_int
same_pixel p q h k =
    let (px, py, mx, my) = inside_screen p h in
    let (qx, qy, nx, ny) = inside_screen q k in
    ground (
      arith,
      px,
      py,
      mx,
      my,
      qx,
      qy,
      nx,
      ny,
      le_lem p.x q.x,
      le_lem q.x p.x,
      le_lem p.y q.y,
      le_lem q.y p.y,
    )

read_rgb-write_rgb :
    (p : Vector2D) (c : PixelColor) (buffer : ℕ → ℕ) (q : Vector2D)
    → contains screen p ≡ true
    → contains screen q ≡ true
    → read_rgb (write_rgb p c buffer) q ≡ (if same_point p q then c else read_rgb buffer q)
unfolding read_rgb write_rgb
read_rgb-write_rgb p c buffer q h k = rw (same_pixel p q h k) (ground arith)

-- Two columns and three rows.
abbrev patch : Rectangle
patch = record { pos = point (pos 5) (pos 1); size = point (pos 2) (pos 3) }

patch_inside :
    (x y : ℕ)
    → x < 2
    → y < 3
    → contains screen (patch.pos +v record { x = pos x; y = pos y }) ≡ true
unfolding contains spans ◌+ℤ◌ le
patch_inside x y h k = ground (arith, h, k)

black : ℕ → ℕ
black a = 0

read-fill_rectangle_example :
    read_rgb
      (fill_rectangle write_rgb patch.pos patch.size (to_color 255) black)
      (point (pos 6) (pos 3))
    ≡ (if contains patch (point (pos 6) (pos 3))
        then to_color 255
        else read_rgb black (point (pos 6) (pos 3)))
unfolding plus contains le ◌+ℤ◌
read-fill_rectangle_example =
    read-fill_rectangle write_rgb read_rgb screen read_rgb-write_rgb patch (to_color 255) black
      (point (pos 6) (pos 3)) patch_inside refl

-- The inside of a frame is not drawn.
framed :
    draw_rectangle write
      (point (pos 0) (pos 0))
      (point (pos 3) (pos 3))
      (to_color 255)
      blank
      (point (pos 1) (pos 1))
    ≡ to_color 0
unfolding blank draw_rectangle draw_level draw_upright same_point same_int le plus ◌+ℤ◌ ◌-ℤ◌ sub_nat
framed = refl
