-- ===== src/FrameBuffer/Axis.antt =====
-- What is left of a rectangle along one axis after the cuts of `Copy` (Kernel/frame_buffer.cpp).
use mikanos_copy.Common.{ℕ, ◌+◌, ◌-◌, ◌≤◌, ◌<◌, ◌≡◌, Bool, true, false, ◌&&◌, arith}
use mikanos_copy.Common.Int.{
  ℤ, pos, ◌+ℤ◌, ◌-ℤ◌, le, plus, minus, add_lem, sub_lem, le_lem, sub_le, not_less,
}
use mikanos_copy.Graphics.Area.{spans}
use mikanos_copy.FrameBuffer.Pixels.{inside}

pub spans-true :
    (start size p : ℤ)
    → plus start + minus p ≤ plus p + minus start
    → plus p + minus start + minus size < plus start + plus size + minus p
    → spans start size p ≡ true
unfolding spans
spans-true start size p h k =
    ground (arith, h, k, le_lem start p, le_lem (start +ℤ size) p, add_lem start size)

pub spans_bounds :
    (start size p : ℤ)
    → spans start size p ≡ true
    → (plus start + minus p ≤ plus p + minus start)
      × (plus p + minus start + minus size < plus start + plus size + minus p)
unfolding spans
spans_bounds start size p h =
    ground (arith, h, le_lem start p, le_lem (start +ℤ size) p, add_lem start size)

pub spans-inside :
    (start size : ℤ) (x : ℕ)
    → minus start ≡ 0
    → minus size ≡ 0
    → spans start size (pos x) ≡ inside (plus start) (plus size) x
unfolding spans plus minus
spans-inside start size x h k =
    ground (arith, h, k, le_lem start (pos x), le_lem (start +ℤ size) (pos x), add_lem start size)

pub both_true : (p q : Bool) → (p && q) ≡ true → (p ≡ true) × (q ≡ true)
both_true p q h = ground (arith, h)

-- The shared part along one axis of three stretches, as numbers: where it starts in the destination and
-- in the source, and that it ends inside both.
pub record Stretch (start size shift : ℤ) (n m : ℕ) : Type 0 where
  pub begins : minus start ≡ 0
  pub ends : plus start + plus size ≤ n
  pub source : minus (start -ℤ shift) ≡ 0
  pub source_inside : plus (start -ℤ shift) < m

pub stretch :
    (start size shift : ℤ) (n m : ℕ)
    → minus size ≡ 0
    → 0 < plus size
    → ((p : ℤ)
        → spans start size p ≡ true
        → (spans (pos 0) (pos n) p ≡ true) × (spans shift (pos m) p ≡ true))
    → Stretch start size shift n m
unfolding plus minus
stretch start size shift n m length some_size both =
    let (in_dst, in_src) =
      both start (spans-true start size start (omega arith) (omega (arith, length, some_size))) in
    let (low, high) = spans_bounds (pos 0) (pos n) start in_dst in
    let first : minus start ≡ 0 = not_less start (omega (arith, low)) in
    let (last_dst, last_src) = both (pos (plus start + plus size - 1)) (
      spans-true start size _ (omega (arith, some_size))
        (omega (arith, first, length, some_size))) in
    let (low_dst, high_dst) =
      spans_bounds (pos 0) (pos n) (pos (plus start + plus size - 1)) last_dst in
    let (low_src, high_src) = spans_bounds shift (pos m) start in_src in
    let ahead : minus (start -ℤ shift) ≡ 0 = sub_le start shift (behind low_src) in
    record {
      begins = first;
      ends = omega (arith, high_dst, some_size);
      source = ahead;
      source_inside = omega (arith, high_src, sub_lem start shift, ahead, first);
    }
  where
    behind : plus shift + minus start ≤ plus start + minus shift → le shift start ≡ true
    behind h = ground (arith, h, le_lem shift start)

-- The column or the line that a pixel of the shared part comes from.
pub source_at :
    (start shift : ℤ) (x : ℕ)
    → minus start ≡ 0
    → minus (start -ℤ shift) ≡ 0
    → plus start ≤ x
    → plus (start -ℤ shift) + (x - plus start) ≡ plus (pos x -ℤ shift)
unfolding plus minus
source_at start shift x h k after =
    let ahead : minus (pos x -ℤ shift) ≡ 0 = sub_le (pos x) shift (behind) in
    omega (arith, h, k, after, ahead, sub_lem start shift, sub_lem (pos x) shift)
  where
    behind : le shift (pos x) ≡ true
    behind = ground (arith, le_lem shift (pos x), h, k, after, sub_lem start shift)

pub no_span : (start size p : ℤ) → minus size ≡ 0 → plus size ≡ 0 → spans start size p ≡ false
unfolding spans
no_span start size p h k =
    ground (arith, h, k, le_lem start p, le_lem (start +ℤ size) p, add_lem start size)
