-- ===== src/FrameBuffer/Move.antt =====
-- `FrameBuffer::Move` (Kernel/frame_buffer.cpp) moves a rectangle as if all of it were read first.
use mikanos_copy.Common.{
  ℕ, zero, suc, ◌+◌, ◌-◌, ◌*◌, ◌≤◌, ◌<◌, ◌≡◌, ◌≢◌, refl, ◌∙◌, Bool, true, false, ◌&&◌, ltb,
  if◌then◌else◌, arith, dec_lt,
}
use native.Mathlib.Nat.{mul-le-mul_left}
use mikanos_copy.Common.Int.{pos, ◌+ℤ◌, ◌-ℤ◌, lt, le, plus, sub_nat}
use mikanos_copy.Graphics.{Vector2D, ◌+v◌}
use mikanos_copy.FrameBuffer.{
  FrameBuffer, FrameBufferConfig, frame_addr_at, length_of, move_down, move_up, move,
}
use mikanos_copy.FrameBuffer.Lines.{
  line_at, line_at_lem, move_down_lem, move_down_before, move_up_lem, move_up_before,
}
use mikanos_copy.FrameBuffer.Pixels.{byte_at, inside, pixel_lem}
use mikanos_copy.FrameBuffer.Positions.{IsSized, frame_addr_at_lem}

-- Positions and sizes that lie in the picture.
abbrev pub point : (x y : ℕ) → Vector2D
point x y = record { x = pos x; y = pos y }

-- One position is before another, when its line is.
line_before :
    (width x y x' y' : ℕ) → x ≤ width → y < y' → byte_at width x y 0 ≤ byte_at width x' y' 0
line_before width x y x' y' h k = omega (arith, h, mul-le-mul_left {m = suc y} {n = y'} width k)

module _ (width x0 y0 w sx sy : ℕ) (m : ℕ → ℕ) (room : x0 + w ≤ width) (n line dst src : ℕ)
    (e1 : n ≡ 4 * w) (e2 : line ≡ 4 * width) (x y b : ℕ) (column : x < width) (byte : b < 4) where
  pixels_down :
      (h : ℕ)
      → dst ≡ byte_at width x0 y0 0
      → src ≡ byte_at width sx sy 0
      → y0 < sy
      → move_down h n line m dst src (byte_at width x y b) ≡ (
          if inside y0 h y && inside x0 w x
          then m (byte_at width (sx + (x - x0)) (sy + (y - y0)) b)
          else m (byte_at width x y b))
  pixels_down h e3 e4 down =
      rw (e1, e2, e3, e4)
        (pixel_lem width width x0 y0 w h sx sy
          (move_down h (4 * w) (4 * width) m (byte_at width x0 y0 0) (byte_at width sx sy 0)) m m
          room
          (λ a before.
            move_down_before (4 * w) (4 * width) h m (byte_at width x0 y0 0) (byte_at width sx sy 0)
              a before)
          (λ k o inner.
            move_down_lem (4 * w) (4 * width) h k o m (byte_at width x0 y0 0)
              (byte_at width sx sy 0) (omega (arith, room)) inner
              (line_before width x0 y0 sx sy (omega (arith, room)) down))
          x y b column byte)

  -- `dst` and `src` are positions in the last line here.
  pixels_up :
      (h : ℕ)
      → dst ≡ line_at (byte_at width x0 y0 0) (4 * width) h
      → src ≡ line_at (byte_at width sx sy 0) (4 * width) h
      → sx ≤ width
      → sy < y0
      → move_up (suc h) n line m dst src (byte_at width x y b) ≡ (
          if inside y0 (suc h) y && inside x0 w x
          then m (byte_at width (sx + (x - x0)) (sy + (y - y0)) b)
          else m (byte_at width x y b))
  pixels_up h e3 e4 source up =
      rw (e1, e2)
        (pixel_lem width width x0 y0 w (suc h) sx sy (move_up (suc h) (4 * w) (4 * width) m dst src)
          m m room
          (λ a before.
            move_up_before (4 * w) (4 * width) h m (byte_at width x0 y0 0) dst src a e3 before)
          (λ k o inner.
            move_up_lem (4 * w) (4 * width) h k o m (byte_at width x0 y0 0) (byte_at width sx sy 0)
              dst src (omega (arith, room)) inner (line_before width sx sy x0 y0 source up) e3 e4)
          x y b column byte)

lower : (y h : ℕ) → plus (pos y +ℤ (pos (suc h) -ℤ pos 1)) ≡ y + h
unfolding ◌+ℤ◌ ◌-ℤ◌ sub_nat plus
lower y h = ground arith

same_column : (x : ℕ) → plus (pos x +ℤ pos 0) ≡ x
unfolding ◌+ℤ◌ plus
same_column x = omega arith

line_below :
    (c : FrameBufferConfig) (p : Vector2D) (x y h : ℕ)
    → IsSized c
    → x < c.horizontal_resolution
    → y + suc h ≤ c.vertical_resolution
    → plus p.x ≡ x
    → plus p.y ≡ y + h
    → frame_addr_at p c
      ≡ line_at (byte_at c.pixels_per_scanline x y 0) (4 * c.pixels_per_scanline) h
line_below c p x y h s column line ex ey =
    (frame_addr_at_lem c p s (omega (arith, column, ex)) (omega (arith, line, ey))).0
    ∙ rw (ex, ey)
        (omega
          (arith, line_at_lem (byte_at c.pixels_per_scanline x y 0) (4 * c.pixels_per_scanline) h))

-- The position of a pixel of the last line of a rectangle.
last_line :
    (c : FrameBufferConfig) (x y h : ℕ)
    → IsSized c
    → x < c.horizontal_resolution
    → y + suc h ≤ c.vertical_resolution
    → frame_addr_at (point x y +v record { x = pos 0; y = pos (suc h) -ℤ pos 1 }) c
      ≡ line_at (byte_at c.pixels_per_scanline x y 0) (4 * c.pixels_per_scanline) h
last_line c x y h s column line = line_below c _ x y h s column line (same_column x) (lower y h)

before_lem : (a b : ℕ) → lt (pos a) (pos b) ≡ ltb a b
unfolding le
before_lem a b = ground arith

nowhere : (start p : ℕ) → inside start 0 p ≡ false
nowhere start p = ground arith

either : (t : Bool) (f : ℕ → ℕ) (a : ℕ) → (if t then f else f) a ≡ f a
either true f a = refl
either false f a = refl

-- Moving a rectangle inside a picture to another place in it, up or down by one line at least: each
-- pixel of the new place has the bytes that the pixel at the same place of the rectangle had before the
-- call, though the places may overlap, and every other pixel of a line keeps its bytes. The rectangle
-- has a column; the picture is no wider than its lines, and fits 32 bits.
pub move_pixels :
    (m : FrameBuffer) (x0 y0 sx sy w h : ℕ)
    → IsSized m.config
    → 0 < w
    → x0 + w ≤ m.config.horizontal_resolution
    → y0 + h ≤ m.config.vertical_resolution
    → sx + w ≤ m.config.horizontal_resolution
    → sy + h ≤ m.config.vertical_resolution
    → y0 ≢ sy
    → (x y b : ℕ) → x < m.config.pixels_per_scanline
    → b < 4
    → (move m (point x0 y0) (record { pos = point sx sy; size = point w h })).byte
        (byte_at m.config.pixels_per_scanline x y b)
      ≡ (if inside y0 h y && inside x0 w x
          then m.byte (byte_at m.config.pixels_per_scanline (sx + (x - x0)) (sy + (y - y0)) b)
          else m.byte (byte_at m.config.pixels_per_scanline x y b))
unfolding move move_down move_up plus length_of
move_pixels m x0 y0 sx sy w zero s some right below source_right source_below apart x y b column
      byte =
    rw (nowhere y0 y)
      (either (lt (pos y0) (pos sy)) m.byte (byte_at m.config.pixels_per_scanline x y b))
move_pixels m x0 y0 sx sy w (suc h) s some right below source_right source_below apart x y b column
      byte =
    let to =
      frame_addr_at_lem m.config (point x0 y0) s (omega (arith, some, right))
        (omega (arith, below)) in
    let from =
      frame_addr_at_lem m.config (point sx sy) s (omega (arith, some, source_right))
        (omega (arith, source_below)) in
    elim (dec_lt y0 sy) [
      | yes down ↦
          let t : ltb y0 sy ≡ true = ground (arith, down) in
          rw (before_lem y0 sy, t)
            (pixels_down m.config.pixels_per_scanline x0 y0 w sx sy m.byte
              (omega (arith, s.wide, right)) _ _ _ _ refl to.1 x y b column byte (suc h) to.0 from.0
              down)
      | no up ↦
          let t : ltb y0 sy ≡ false = ground (arith, up) in
          rw (before_lem y0 sy, t)
            (pixels_up m.config.pixels_per_scanline x0 y0 w sx sy m.byte
              (omega (arith, s.wide, right)) _ _ _ _ refl to.1 x y b column byte h
              (last_line m.config x0 y0 h s (omega (arith, some, right)) below)
              (last_line m.config sx sy h s (omega (arith, some, source_right)) source_below)
              (omega (arith, s.wide, source_right)) (omega (arith, up, apart)))
    ]
