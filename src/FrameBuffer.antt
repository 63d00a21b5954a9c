-- ===== src/FrameBuffer.antt =====
-- Kernel/frame_buffer.hpp and Kernel/frame_buffer.cpp: rectangles of pixels that are copied between two
-- buffers, or moved inside one. A position in a buffer is the number of bytes from its start.
pub mod Lines
pub mod Pixels
pub mod Positions
pub mod Axis
pub mod Copy
pub mod Move
mod Tests
use mikanos_copy.Common.{
  ℕ, zero, suc, ◌+◌, ◌-◌, ◌*◌, ◌/◌, ◌%◌, ◌^◌, Bool, true, false, not, ◌&&◌, ltb, leb, ◌==◌,
  if◌then◌else◌,
}
use mikanos_copy.Common.Int.{ℤ, pos, negsuc, ◌+ℤ◌, ◌-ℤ◌, lt, plus}
use mikanos_copy.Error.{Error}
use mikanos_copy.Graphics.{Vector2D, Rectangle, intersection, origin, ◌+v◌, ◌-v◌}

pub data PixelFormat : Type 0 where
  pixel_rgb_resv_8bit_per_color pixel_bgr_resv_8bit_per_color : PixelFormat

abbrev pub same_format : PixelFormat → PixelFormat → Bool
same_format pixel_rgb_resv_8bit_per_color pixel_rgb_resv_8bit_per_color = true
same_format pixel_bgr_resv_8bit_per_color pixel_bgr_resv_8bit_per_color = true
same_format f g = false

-- Both formats have four bytes, so that `BitsPerPixel` is 32, never negative.
abbrev pub bits_per_pixel : PixelFormat → ℕ
bits_per_pixel f = 32

abbrev pub bytes_per_pixel : PixelFormat → ℕ
bytes_per_pixel f = (bits_per_pixel f + 7) / 8

-- `FrameBufferConfig`, without the address.
pub record FrameBufferConfig : Type 0 where
  pub pixels_per_scanline : ℕ
  pub horizontal_resolution : ℕ
  pub vertical_resolution : ℕ
  pub pixel_format : PixelFormat

-- The bytes at the positions of the buffer, and how many `buffer_` has of its own.
pub record FrameBuffer : Type 0 where
  pub config : FrameBufferConfig
  pub byte : ℕ → ℕ
  pub buffer_size : ℕ

-- `Initialize`, of a buffer that is given (`memory` is what it holds) or of one of its own.
pub initialize : FrameBufferConfig → (given : Bool) (memory : ℕ → ℕ) → Error × FrameBuffer
initialize config given memory =
    if given then (Error.success, record { config = config; byte = memory; buffer_size = 0 }) else (
      Error.success,
      record {
        config = record config { pixels_per_scanline = config.horizontal_resolution };
        byte = λ a. 0;
        buffer_size =
            bytes_per_pixel config.pixel_format
            * config.horizontal_resolution
            * config.vertical_resolution
            % 2 ^ 32;
      },
    )

-- `FrameAddrAt`, in 32 bits, for a position that is not negative.
unfoldable pub frame_addr_at : Vector2D → FrameBufferConfig → ℕ
frame_addr_at p config =
    bytes_per_pixel config.pixel_format
    * (config.pixels_per_scanline * plus p.y + plus p.x)
    % 2 ^ 32

abbrev pub bytes_per_scan_line : FrameBufferConfig → ℕ
bytes_per_scan_line config =
    bytes_per_pixel config.pixel_format * config.pixels_per_scanline % 2 ^ 32

abbrev pub frame_buffer_size : FrameBufferConfig → Vector2D
frame_buffer_size config = record {
  x = pos config.horizontal_resolution;
  y = pos config.vertical_resolution;
}

-- `memcpy(dst, src, n)` between positions of two memories.
unfoldable pub memcpy : (to from : ℕ → ℕ) (dst src n : ℕ) → ℕ → ℕ
memcpy to from dst src n a = if leb dst a && ltb a (dst + n) then from (src + (a - dst)) else to a

-- The number of bytes of `n` pixels; a negative one is a large number for `memcpy`.
unfoldable pub length_of : ℤ → ℕ
length_of (pos n) = 4 * n
length_of (negsuc n) = 2 ^ 64 - 4 * suc n

-- The loop of `Copy`.
unfoldable pub copy_lines : (rounds n dst_line src_line : ℕ) (to from : ℕ → ℕ) (dst src : ℕ) → ℕ → ℕ
copy_lines zero n dst_line src_line to from dst src = to
copy_lines (suc rounds) n dst_line src_line to from dst src =
    copy_lines rounds n dst_line src_line (memcpy to from dst src n) from (dst + dst_line)
      (src + src_line)

-- The part of the destination that `Copy` writes.
abbrev pub copy_area : (dst src : FrameBufferConfig) → Vector2D → Rectangle → Rectangle
copy_area dst src dst_pos src_area =
    intersection
      (intersection (record { pos = origin; size = frame_buffer_size dst })
        (record { pos = dst_pos -v src_area.pos; size = frame_buffer_size src }))
      (record { pos = dst_pos; size = src_area.size })

unfoldable pub copy : FrameBuffer → Vector2D → FrameBuffer → Rectangle → Error × FrameBuffer
copy dst dst_pos src src_area =
    let area = copy_area dst.config src.config dst_pos src_area in
    let src_start_pos = area.pos -v (dst_pos -v src_area.pos) in
    if not (same_format dst.config.pixel_format src.config.pixel_format)
    then (Error.unknown_pixel_format, dst)
    else (
      Error.success,
      record dst {
        byte =
            copy_lines (plus area.size.y) (length_of area.size.x) (bytes_per_scan_line dst.config)
              (bytes_per_scan_line src.config) dst.byte src.byte (frame_addr_at area.pos dst.config)
              (frame_addr_at src_start_pos src.config);
      },
    )

-- The loops of `Move`, from the first line down and from the last line up.
unfoldable pub move_down : (rounds n line : ℕ) (m : ℕ → ℕ) (dst src : ℕ) → ℕ → ℕ
move_down zero n line m dst src = m
move_down (suc rounds) n line m dst src =
    move_down rounds n line (memcpy m m dst src n) (dst + line) (src + line)

unfoldable pub move_up : (rounds n line : ℕ) (m : ℕ → ℕ) (dst src : ℕ) → ℕ → ℕ
move_up zero n line m dst src = m
move_up (suc rounds) n line m dst src =
    move_up rounds n line (memcpy m m dst src n) (dst - line) (src - line)

unfoldable pub move : FrameBuffer → Vector2D → Rectangle → FrameBuffer
move b dst_pos src =
    let last : Vector2D = record { x = pos 0; y = src.size.y -ℤ pos 1 } in
    let line = bytes_per_scan_line b.config in
    let n = length_of src.size.x in
    record b {
      byte =
          if lt dst_pos.y src.pos.y
          then move_down (plus src.size.y) n line b.byte (frame_addr_at dst_pos b.config)
              (frame_addr_at src.pos b.config)
          else move_up (plus src.size.y) n line b.byte (frame_addr_at (dst_pos +v last) b.config)
              (frame_addr_at (src.pos +v last) b.config);
    }
