-- ===== src/Graphics/Fill.antt =====
-- The pixels that `FillRectangle` (Kernel/graphics.cpp) writes: those of the rectangle.
use mikanos_copy.Common.{
  ℕ, zero, suc, ◌+◌, ◌≤◌, ◌<◌, ◌≡◌, Bool, true, false, ◌&&◌, ◌||◌, arith, if◌then◌else◌, ◌∙◌,
}
use mikanos_copy.Common.Int.{ℤ, pos, negsuc, ◌+ℤ◌, le, plus, minus, add_lem, le_lem}
use mikanos_copy.Graphics.{
  PixelColor, Vector2D, Rectangle, ◌+v◌, fill_row, fill_rows, fill_rectangle,
}
use mikanos_copy.Graphics.Area.{spans, contains}

unfoldable pub same_int : ℤ → ℤ → Bool
same_int a b = le a b && le b a

unfoldable pub same_point : Vector2D → Vector2D → Bool
same_point a b = same_int a.x b.x && same_int a.y b.y

-- One more column joins the interval on its right.
span_cons :
    (start p : ℤ) (n x : ℕ)
    → (spans (start +ℤ pos (suc x)) (pos n) p || same_int (start +ℤ pos x) p)
      ≡ spans (start +ℤ pos x) (pos (suc n)) p
unfolding spans same_int plus minus
span_cons start p n x = ground (
  arith,
  le_lem (start +ℤ pos (suc x)) p,
  le_lem (start +ℤ pos x) p,
  le_lem p (start +ℤ pos x),
  le_lem (start +ℤ pos (suc x) +ℤ pos n) p,
  le_lem (start +ℤ pos x +ℤ pos (suc n)) p,
  add_lem start (pos (suc x)),
  add_lem start (pos x),
  add_lem (start +ℤ pos (suc x)) (pos n),
  add_lem (start +ℤ pos x) (pos (suc n)),
)

span_none : (start p : ℤ) → spans start (pos 0) p ≡ false
unfolding spans plus minus
span_none start p = ground (arith, le_lem start p, le_lem (start +ℤ pos 0) p, add_lem start (pos 0))

-- The rounds of a loop up to `size` make the interval.
span_sides : (start size p : ℤ) → spans (start +ℤ pos 0) (pos (plus size)) p ≡ spans start size p
unfolding spans plus minus
span_sides start (pos n) p = ground (
  arith,
  le_lem (start +ℤ pos 0) p,
  le_lem start p,
  le_lem (start +ℤ pos 0 +ℤ pos n) p,
  le_lem (start +ℤ pos n) p,
  add_lem start (pos 0),
  add_lem start (pos n),
  add_lem (start +ℤ pos 0) (pos n),
)
span_sides start (negsuc n) p = ground (
  arith,
  le_lem (start +ℤ pos 0) p,
  le_lem start p,
  le_lem (start +ℤ pos 0 +ℤ pos 0) p,
  le_lem (start +ℤ negsuc n) p,
  add_lem start (pos 0),
  add_lem start (negsuc n),
  add_lem (start +ℤ pos 0) (pos 0),
)

-- A surface that can be read at the points of a canvas. There a call of `Write` sets one pixel.
module _ {W : Type 0} (write : Vector2D → PixelColor → W → W) (read : W → Vector2D → PixelColor)
    (canvas : Rectangle)
    (read-write : (at : Vector2D) (c : PixelColor) (w : W) (q : Vector2D)
      → contains canvas at ≡ true
      → contains canvas q ≡ true
      → read (write at c w) q ≡ (if same_point at q then c else read w q)) where
  -- The columns from x on, before x + n, of the rows from y on, before y + m, are in the canvas.
  abbrev AreInside : Vector2D → (n x m y : ℕ) → Type 0
  AreInside at n x m y =
      (i j : ℕ)
      → x ≤ i
      → i < x + n
      → y ≤ j
      → j < y + m
      → contains canvas (at +v record { x = pos i; y = pos j }) ≡ true

  read-fill_row :
      (at : Vector2D) (c : PixelColor) (n x y : ℕ) (w : W) (q : Vector2D)
      → AreInside at n x 1 y
      → contains canvas q ≡ true
      → read (fill_row write at c n x y w) q ≡ (
          if same_int (at.y +ℤ pos y) q.y && spans (at.x +ℤ pos x) (pos n) q.x then c else read w q)
  unfolding fill_row same_point
  read-fill_row at c zero x y w q inside here = ground (arith, span_none (at.x +ℤ pos x) q.x)
  read-fill_row at c (suc n) x y w q inside here =
      let first : contains canvas (at +v record { x = pos x; y = pos y }) ≡ true =
        inside x y (omega arith) (omega arith) (omega arith) (omega arith) in
      read-fill_row at c n (suc x) y (write (at +v record { x = pos x; y = pos y }) c w) q
        (λ i j a b d e. inside i j (omega (arith, a)) (omega (arith, b)) d e) here
      ∙ rw (read-write (at +v record { x = pos x; y = pos y }) c w q first here)
          (ground (arith, span_cons at.x q.x n x))

  read-fill_rows :
      (at : Vector2D) (width : ℤ) (c : PixelColor) (n y : ℕ) (w : W) (q : Vector2D)
      → AreInside at (plus width) 0 n y
      → contains canvas q ≡ true
      → read (fill_rows write at width c n y w) q ≡ (
          if spans (at.y +ℤ pos y) (pos n) q.y && spans (at.x +ℤ pos 0) (pos (plus width)) q.x
          then c
          else read w q)
  unfolding fill_rows
  read-fill_rows at width c zero y w q inside here = ground (arith, span_none (at.y +ℤ pos y) q.y)
  read-fill_rows at width c (suc n) y w q inside here =
      read-fill_rows at width c n (suc y) (fill_row write at c (plus width) 0 y w) q
        (λ i j a b d e. inside i j a b (omega (arith, d)) (omega (arith, e))) here
      ∙ rw
          (read-fill_row at c (plus width) 0 y w q
            (λ i j a b d e. inside i j a b d (omega (arith, e))) here)
          (ground (arith, span_cons at.y q.y n y))

  -- On a rectangle whose pixels all lie in the canvas, `FillRectangle` colours, of the pixels of the
  -- canvas, those that are in the rectangle, and no other, also when a side is negative. It is for a
  -- writer whose `Write` at a point of the canvas sets that pixel and no other of the canvas.
  pub read-fill_rectangle :
      (area : Rectangle) (c : PixelColor) (w : W) (q : Vector2D)
      → ((x y : ℕ)
          → x < plus area.size.x
          → y < plus area.size.y
          → contains canvas (area.pos +v record { x = pos x; y = pos y }) ≡ true)
      → contains canvas q ≡ true
      → read (fill_rectangle write area.pos area.size c w) q
        ≡ (if contains area q then c else read w q)
  unfolding fill_rectangle contains
  read-fill_rectangle area c w q inside here =
      read-fill_rows area.pos area.size.x c (plus area.size.y) 0 w q
        (λ i j a b d e. inside i j (omega (arith, b)) (omega (arith, e))) here
      ∙ rw (span_sides area.pos.x area.size.x q.x)
          (rw (span_sides area.pos.y area.size.y q.y) (ground arith))
