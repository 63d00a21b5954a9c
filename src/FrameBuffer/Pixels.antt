-- ===== src/FrameBuffer/Pixels.antt =====
-- Lines that are copied, as pixels of a rectangle (Kernel/frame_buffer.cpp).
use mikanos_copy.Common.{
  ℕ, suc, ◌+◌, ◌-◌, ◌*◌, ◌≤◌, ◌<◌, ◌≡◌, refl, sym, ap, ◌∙◌, Bool, false, ◌&&◌, ltb, leb,
  if◌then◌else◌, arith, dec_lt, ℕ_discrete,
}
use native.Mathlib.Nat.{mul-le-mul_left}
use mikanos_copy.FrameBuffer.Lines.{line_at, line_at_lem}

-- The position of a byte of a pixel, in lines of `width` pixels.
abbrev pub byte_at : (width x y b : ℕ) → ℕ
byte_at width x y b = 4 * (width * y + x) + b

abbrev pub inside : (start n p : ℕ) → Bool
inside start n p = leb start p && ltb p (start + n)

bytes_inside : (i w b : ℕ) → b < 4 → ltb (4 * i + b) (4 * w) ≡ ltb i w
bytes_inside i w b h = ground (arith, h)

above_out : (start n p : ℕ) → p < start → inside start n p ≡ false
above_out start n p h = ground (arith, h)

left_out : (start n p : ℕ) (t : Bool) → p < start → (t && inside start n p) ≡ false
left_out start n p t h = ground (arith, h)

from_start : (start n p : ℕ) → ¬ (p < start) → ltb (p - start) n ≡ inside start n p
from_start start n p h = ground (arith, h)

-- A rectangle of `w` times `h` pixels that was copied to column `x0` and line `y0`, from column `sx`
-- and line `sy`, one line after the other; `after` is what the memory holds then.
module _ (width src_width x0 y0 w h sx sy : ℕ) (after to from : ℕ → ℕ) (room : x0 + w ≤ width)
    (above : (a : ℕ) → a < byte_at width x0 y0 0 → after a ≡ to a)
    (lines : (k o : ℕ)
      → o < 4 * width
      → after (line_at (byte_at width x0 y0 0) (4 * width) k + o) ≡ (
          if ltb k h && ltb o (4 * w)
          then from (line_at (byte_at src_width sx sy 0) (4 * src_width) k + o)
          else to (line_at (byte_at width x0 y0 0) (4 * width) k + o))) where
  -- Right of the left edge, `k` lines below the upper edge.
  pixel_right :
      (k i b : ℕ)
      → x0 + i < width
      → b < 4
      → after (byte_at width (x0 + i) (y0 + k) b) ≡ (
          if ltb k h && ltb i w
          then from (byte_at src_width (sx + i) (sy + k) b)
          else to (byte_at width (x0 + i) (y0 + k) b))
  pixel_right k i b column byte =
      let here : line_at (byte_at width x0 y0 0) (4 * width) k + (4 * i + b)
          ≡ byte_at width (x0 + i) (y0 + k) b =
        omega (arith, line_at_lem (byte_at width x0 y0 0) (4 * width) k) in
      let there : line_at (byte_at src_width sx sy 0) (4 * src_width) k + (4 * i + b)
          ≡ byte_at src_width (sx + i) (sy + k) b =
        omega (arith, line_at_lem (byte_at src_width sx sy 0) (4 * src_width) k) in
      let same : ltb (4 * i + b) (4 * w) ≡ ltb i w = bytes_inside i w b byte in
      ap after (sym here)
      ∙ lines k (4 * i + b) (omega (arith, column, byte))
      ∙ ap
          (λ t.
            if ltb k h && t
            then from (line_at (byte_at src_width sx sy 0) (4 * src_width) k + (4 * i + b))
            else to (line_at (byte_at width x0 y0 0) (4 * width) k + (4 * i + b)))
          same
      ∙ ap
          (λ t.
            if ltb k h && ltb i w
            then from t
            else to (line_at (byte_at width x0 y0 0) (4 * width) k + (4 * i + b)))
          there
      ∙ ap (λ t. if ltb k h && ltb i w then from (byte_at src_width (sx + i) (sy + k) b) else to t)
          here

  -- Left of the left edge, below the upper edge: behind the part of the line before that was copied.
  pixel_left :
      (k x b : ℕ)
      → x < x0
      → b < 4
      → after (byte_at width x (y0 + suc k) b) ≡ to (byte_at width x (y0 + suc k) b)
  pixel_left k x b left byte =
      let o = 4 * (width - x0 + x) + b in
      let here : line_at (byte_at width x0 y0 0) (4 * width) k + o
          ≡ byte_at width x (y0 + suc k) b =
        omega (arith, line_at_lem (byte_at width x0 y0 0) (4 * width) k, left, room) in
      let behind : (ltb k h && ltb o (4 * w)) ≡ false =
        not_inside _ (ltb k h) (omega (arith, room)) in
      ap after (sym here) ∙ lines k o (omega (arith, left, room, byte)) ∙ rw behind (ap to here)
    where
      not_inside : (n : ℕ) (t : Bool) → 4 * w ≤ n → (t && ltb n (4 * w)) ≡ false
      not_inside n t h = ground (arith, h)

  pub pixel_lem :
      (x y b : ℕ)
      → x < width
      → b < 4
      → after (byte_at width x y b) ≡ (
          if inside y0 h y && inside x0 w x
          then from (byte_at src_width (sx + (x - x0)) (sy + (y - y0)) b)
          else to (byte_at width x y b))
  pixel_lem x y b column byte = elim (dec_lt y y0) [
    | yes up ↦
        let out = above_out y0 h y up in
        above (byte_at width x y b)
          (omega (arith, column, byte, mul-le-mul_left {m = suc y} {n = y0} width up))
        ∙ rw out refl
    | no not_up ↦ elim (dec_lt x x0) [
      | yes left ↦ rw (left_out x0 w x (inside y0 h y) left) (left_column left not_up)
      | no not_left ↦
          let ex : x0 + (x - x0) ≡ x = omega (arith, not_left) in
          let ey : y0 + (y - y0) ≡ y = omega (arith, not_up) in
          ap (λ c. after (byte_at width c y b)) (sym ex)
          ∙ ap (λ l. after (byte_at width (x0 + (x - x0)) l b)) (sym ey)
          ∙ pixel_right (y - y0) (x - x0) b (omega (arith, ex, column)) byte
          ∙ ap
              (λ t.
                if t && ltb (x - x0) w
                then from (byte_at src_width (sx + (x - x0)) (sy + (y - y0)) b)
                else to (byte_at width (x0 + (x - x0)) (y0 + (y - y0)) b))
              (from_start y0 h y not_up)
          ∙ ap
              (λ t.
                if inside y0 h y && t
                then from (byte_at src_width (sx + (x - x0)) (sy + (y - y0)) b)
                else to (byte_at width (x0 + (x - x0)) (y0 + (y - y0)) b))
              (from_start x0 w x not_left)
          ∙ ap
              (λ c.
                if inside y0 h y && inside x0 w x
                then from (byte_at src_width (sx + (x - x0)) (sy + (y - y0)) b)
                else to (byte_at width c (y0 + (y - y0)) b))
              ex
          ∙ ap
              (λ l.
                if inside y0 h y && inside x0 w x
                then from (byte_at src_width (sx + (x - x0)) (sy + (y - y0)) b)
                else to (byte_at width x l b))
              ey
    ]
  ]
    where
      left_column : x < x0 → ¬ (y < y0) → after (byte_at width x y b) ≡ to (byte_at width x y b)
      left_column left not_up = elim (ℕ_discrete y y0) [
        | yes same ↦
            above (byte_at width x y b) (omega (arith, left, byte, ap (λ l. width * l) same))
        | no below ↦
            let e : y0 + suc (y - y0 - 1) ≡ y = omega (arith, not_up, below) in
            ap (λ l. after (byte_at width x l b)) (sym e)
            ∙ pixel_left (y - y0 - 1) x b left byte
            ∙ ap (λ l. to (byte_at width x l b)) e
      ]
