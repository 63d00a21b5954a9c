-- ===== src/FrameBuffer/Positions.antt =====
-- The positions of pixels and of lines of bytes in a buffer (Kernel/frame_buffer.cpp).
use mikanos_copy.Common.{
  ℕ, zero, suc, ◌+◌, ◌-◌, ◌*◌, ◌^◌, ◌≤◌, ◌<◌, ◌≡◌, refl, ◌∙◌, ◌&&◌, if◌then◌else◌, arith, ◌⊎◌, inl,
  inr,
}
use native.Mathlib.Nat.{mul-le-mul_left}
use mikanos_copy.Common.Int.{ℤ, pos, negsuc, plus, minus}
use mikanos_copy.Graphics.{Vector2D, Rectangle, origin}
use mikanos_copy.FrameBuffer.{
  FrameBufferConfig, frame_addr_at, bytes_per_scan_line, frame_buffer_size, memcpy, length_of,
  copy_lines,
}
use mikanos_copy.FrameBuffer.Lines.{copy_lines_lem, copy_lines_before}
use mikanos_copy.FrameBuffer.Pixels.{byte_at, inside, pixel_lem}

-- A line is at least as long as the picture is wide, and the positions of the pixels fit 32 bits.
pub record IsSized (c : FrameBufferConfig) : Type 0 where
  pub wide : c.horizontal_resolution ≤ c.pixels_per_scanline
  pub small : 4 * (c.pixels_per_scanline * c.vertical_resolution) < 2 ^ 32

abbrev pub outline : FrameBufferConfig → Rectangle
outline c = record { pos = origin; size = frame_buffer_size c }

-- No bytes, or no lines.
pub copy_lines_nothing :
    (rounds n dst_line src_line : ℕ) (to from : ℕ → ℕ) (dst src a : ℕ)
    → (rounds ≡ 0) ⊎ (n ≡ 0)
    → copy_lines rounds n dst_line src_line to from dst src a ≡ to a
unfolding copy_lines memcpy
copy_lines_nothing zero n dst_line src_line to from dst src a h = refl
copy_lines_nothing (suc rounds) n dst_line src_line to from dst src a (inl h) =
    absurd (omega (arith, h))
copy_lines_nothing (suc rounds) n dst_line src_line to from dst src a (inr h) =
    copy_lines_nothing rounds n dst_line src_line (memcpy to from dst src n) from (dst + dst_line)
      (src + src_line) a (inr h)
    ∙ ground (arith, h)

-- The position of a pixel of the picture.
pub frame_addr_at_lem :
    (c : FrameBufferConfig) (p : Vector2D)
    → IsSized c
    → plus p.x < c.horizontal_resolution
    → plus p.y < c.vertical_resolution
    → (frame_addr_at p c ≡ byte_at c.pixels_per_scanline (plus p.x) (plus p.y) 0)
      × (bytes_per_scan_line c ≡ 4 * c.pixels_per_scanline)
unfolding frame_addr_at
frame_addr_at_lem c p s h k =
    let line =
      mul-le-mul_left {m = suc (plus p.y)} {n = c.vertical_resolution} c.pixels_per_scanline k in
    (omega (arith, s.wide, s.small, h, line), omega (arith, s.small, line))

pub length_of_lem : (a : ℤ) → minus a ≡ 0 → length_of a ≡ 4 * plus a
unfolding length_of plus minus
length_of_lem (pos n) h = refl
length_of_lem (negsuc n) h = absurd (omega (arith, h))

-- The lines of a rectangle, as pixels.
pub lines_pixels :
    (width src_width x0 y0 w h sx sy : ℕ) (to from : ℕ → ℕ) (n dst_line src_line dst src : ℕ)
    → n ≡ 4 * w
    → dst_line ≡ 4 * width
    → src_line ≡ 4 * src_width
    → dst ≡ byte_at width x0 y0 0
    → src ≡ byte_at src_width sx sy 0
    → x0 + w ≤ width
    → (x y b : ℕ) → x < width
    → b < 4
    → copy_lines h n dst_line src_line to from dst src (byte_at width x y b) ≡ (
        if inside y0 h y && inside x0 w x
        then from (byte_at src_width (sx + (x - x0)) (sy + (y - y0)) b)
        else to (byte_at width x y b))
lines_pixels width src_width x0 y0 w h sx sy to from n dst_line src_line dst src e1 e2 e3 e4 e5 room
      x y b column byte =
    rw (e1, e2, e3, e4, e5)
      (pixel_lem width src_width x0 y0 w h sx sy
        (copy_lines h (4 * w) (4 * width) (4 * src_width) to from (byte_at width x0 y0 0)
          (byte_at src_width sx sy 0))
        to from room
        (λ a before.
          copy_lines_before (4 * w) (4 * width) (4 * src_width) from h to (byte_at width x0 y0 0)
            (byte_at src_width sx sy 0) a before)
        (λ k o inner.
          copy_lines_lem (4 * w) (4 * width) (4 * src_width) from h k o to (byte_at width x0 y0 0)
            (byte_at src_width sx sy 0) (omega (arith, room)) inner)
        x y b column byte)
