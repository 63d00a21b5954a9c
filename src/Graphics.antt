-- ===== src/Graphics.antt =====
-- Points, rectangles and the drawing of rectangles: Kernel/graphics.hpp and Kernel/graphics.cpp, at
-- the type `int`. A colour's parts are bytes.
pub mod Area
pub mod Fill
mod Tests
use mikanos_copy.Common.{
  ℕ, zero, suc, ◌+◌, ◌*◌, ◌/◌, ◌%◌, ◌^◌, Bool, ◌&&◌, ◌||◌, List, [], ◌∷◌, ◌==◌, if◌then◌else◌,
}
use mikanos_copy.Common.Int.{ℤ, pos, negsuc, ◌+ℤ◌, ◌-ℤ◌, lt, le, max, min, plus}

pub record PixelColor : Type 0 where
  pub r : ℕ
  pub g : ℕ
  pub b : ℕ

-- `operator==`.
abbrev pub same_color : PixelColor → PixelColor → Bool
same_color lhs rhs = lhs.r == rhs.r && lhs.g == rhs.g && lhs.b == rhs.b

pub record Vector2D : Type 0 where
  pub x : ℤ
  pub y : ℤ

infixl 6 ◌+v◌ ◌-v◌
abbrev pub ◌+v◌ : Vector2D → Vector2D → Vector2D
lhs +v rhs = record { x = lhs.x +ℤ rhs.x; y = lhs.y +ℤ rhs.y }

abbrev pub ◌-v◌ : Vector2D → Vector2D → Vector2D
lhs -v rhs = record { x = lhs.x -ℤ rhs.x; y = lhs.y -ℤ rhs.y }

abbrev pub element_max : Vector2D → Vector2D → Vector2D
element_max lhs rhs = record { x = max lhs.x rhs.x; y = max lhs.y rhs.y }

abbrev pub element_min : Vector2D → Vector2D → Vector2D
element_min lhs rhs = record { x = min lhs.x rhs.x; y = min lhs.y rhs.y }

pub record Rectangle : Type 0 where
  pub pos : Vector2D
  pub size : Vector2D

abbrev pub origin : Vector2D
origin = record { x = pos 0; y = pos 0 }

-- `operator&`, the part that two rectangles share.
unfoldable pub intersection : Rectangle → Rectangle → Rectangle
intersection lhs rhs =
    let lhs_end = lhs.pos +v lhs.size in
    let rhs_end = rhs.pos +v rhs.size in
    let new_pos = element_max lhs.pos rhs.pos in
    if lt lhs_end.x rhs.pos.x
      || lt lhs_end.y rhs.pos.y
      || lt rhs_end.x lhs.pos.x
      || lt rhs_end.y lhs.pos.y
    then record { pos = origin; size = origin }
    else record { pos = new_pos; size = element_min lhs_end rhs_end -v new_pos }

-- `ToColor` of 0xRRGGBB.
pub to_color : ℕ → PixelColor
to_color c = record { r = c / 2 ^ 16 % 2 ^ 8; g = c / 2 ^ 8 % 2 ^ 8; b = c % 2 ^ 8 }

-- What a `PixelWriter` writes to: a pixel is coloured by a call of `Write`.
module _ {W : Type 0} (write : Vector2D → PixelColor → W → W) where
  -- The inner loop of `FillRectangle` from x on, with the rounds that are left.
  unfoldable pub fill_row : Vector2D → PixelColor → (rounds x y : ℕ) → W → W
  fill_row at color zero x y w = w
  fill_row at color (suc rounds) x y w =
      fill_row at color rounds (suc x) y (write (at +v record { x = pos x; y = pos y }) color w)

  -- Its outer loop from y on.
  unfoldable pub fill_rows : Vector2D → ℤ → PixelColor → (rounds y : ℕ) → W → W
  fill_rows at width color zero y w = w
  fill_rows at width color (suc rounds) y w =
      fill_rows at width color rounds (suc y) (fill_row at color (plus width) 0 y w)

  -- A loop up to a negative number has no round.
  unfoldable pub fill_rectangle : Vector2D → Vector2D → PixelColor → W → W
  fill_rectangle at size color w = fill_rows at size.x color (plus size.y) 0 w

  -- The loops of `DrawRectangle`: the edges at the top and the bottom, and those at the sides.
  unfoldable pub draw_level : Vector2D → Vector2D → PixelColor → (rounds x : ℕ) → W → W
  draw_level at size color zero x w = w
  draw_level at size color (suc rounds) x w = draw_level at size color rounds (suc x) (
      write (at +v record { x = pos x; y = size.y -ℤ pos 1 }) color
        (write (at +v record { x = pos x; y = pos 0 }) color w))

  unfoldable pub draw_upright : Vector2D → Vector2D → PixelColor → (rounds y : ℕ) → W → W
  draw_upright at size color zero y w = w
  draw_upright at size color (suc rounds) y w = draw_upright at size color rounds (suc y) (
      write (at +v record { x = size.x -ℤ pos 1; y = pos y }) color
        (write (at +v record { x = pos 0; y = pos y }) color w))

  unfoldable pub draw_rectangle : Vector2D → Vector2D → PixelColor → W → W
  draw_rectangle at size color w =
      draw_upright at size color (plus size.y) 0 (draw_level at size color (plus size.x) 0 w)
