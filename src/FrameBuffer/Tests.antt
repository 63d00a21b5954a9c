-- ===== src/FrameBuffer/Tests.antt =====
-- Pictures of three times three pixels (Kernel/frame_buffer.cpp), with a pixel of padding per line.
use mikanos_copy.Common.{◌+◌, ◌≡◌, refl, ◌&&◌, if◌then◌else◌, arith}
use mikanos_copy.Common.Int.{pos, negsuc, ◌-ℤ◌, plus, minus}
use mikanos_copy.Graphics.{Vector2D, Rectangle, ◌-v◌}
use mikanos_copy.Graphics.Area.{contains}
use mikanos_copy.FrameBuffer.{
  pixel_rgb_resv_8bit_per_color, FrameBufferConfig, FrameBuffer, frame_buffer_size, copy, move,
}
use mikanos_copy.FrameBuffer.Pixels.{byte_at, inside}
use mikanos_copy.FrameBuffer.Positions.{IsSized, outline}
use mikanos_copy.FrameBuffer.Copy.{copy_pixels}
use mikanos_copy.FrameBuffer.Move.{point, move_pixels}

abbrev small_picture : FrameBufferConfig
small_picture = record {
  pixels_per_scanline = 4;
  horizontal_resolution = 3;
  vertical_resolution = 3;
  pixel_format = pixel_rgb_resv_8bit_per_color;
}

abbrev screen : FrameBuffer
screen = record { config = small_picture; byte = λ a. a; buffer_size = 0 }

abbrev shadow : FrameBuffer
shadow = record { config = small_picture; byte = λ a. 1000 + a; buffer_size = 48 }

small_picture-IsSized : IsSized small_picture
small_picture-IsSized = record { wide = omega arith; small = omega arith }

-- A copy of two times two pixels that reaches one column out of the screen on the left.
abbrev corner : Vector2D
corner = record { x = negsuc 0; y = pos 1 }

abbrev block : Rectangle
block = record { pos = point 0 0; size = point 2 2 }

copy_pixels_example : (copy screen corner shadow block).1.byte (byte_at 4 0 1 2) ≡ (
    if (contains (outline small_picture) (record { x = pos 0; y = pos 1 })
        && contains
            (record { pos = corner -v block.pos; size = frame_buffer_size small_picture })
            (record { x = pos 0; y = pos 1 }))
      && contains (record { pos = corner; size = block.size }) (record { x = pos 0; y = pos 1 })
    then shadow.byte (
        byte_at 4
          (plus (pos 0 -ℤ (corner -v block.pos).x))
          (plus (pos 1 -ℤ (corner -v block.pos).y))
          2)
    else screen.byte (byte_at 4 0 1 2))
unfolding minus
copy_pixels_example =
    copy_pixels screen shadow corner block refl small_picture-IsSized small_picture-IsSized refl
      refl 0 1 2 (omega arith) (omega arith)

-- Two lines down by one, so that old and new place overlap.
move_pixels_example :
    (move screen (point 0 1) (record { pos = point 1 0; size = point 2 2 })).byte (byte_at 4 1 2 3)
    ≡ (if inside 1 2 2 && inside 0 2 1 then byte_at 4 2 1 3 else byte_at 4 1 2 3)
move_pixels_example =
    move_pixels screen 0 1 1 0 2 2 small_picture-IsSized (omega arith) (omega arith) (omega arith)
      (omega arith) (omega arith) (λ e. omega (arith, e)) 1 2 3 (omega arith) (omega arith)
