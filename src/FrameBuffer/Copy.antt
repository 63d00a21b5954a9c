-- ===== src/FrameBuffer/Copy.antt =====
-- `FrameBuffer::Copy` (Kernel/frame_buffer.cpp) copies the pixels that both buffers have.
use mikanos_copy.Common.{
  ℕ, ◌≤◌, ◌<◌, ◌≡◌, refl, sym, ap, ◌∙◌, Bool, true, false, ◌&&◌, if◌then◌else◌, arith, ◌⊎◌, inl,
  inr, ℕ_discrete,
}
use mikanos_copy.Common.Int.{pos, ◌-ℤ◌, plus, minus}
use mikanos_copy.Graphics.{Vector2D, Rectangle, intersection, ◌-v◌}
use mikanos_copy.Graphics.Area.{
  spans, contains, contains-intersection, IsLength, intersection-IsLength,
}
use mikanos_copy.FrameBuffer.{
  FrameBuffer, FrameBufferConfig, same_format, frame_addr_at, bytes_per_scan_line,
  frame_buffer_size, length_of, copy_lines, copy_area, copy,
}
use mikanos_copy.FrameBuffer.Pixels.{byte_at, inside}
use mikanos_copy.FrameBuffer.Positions.{
  IsSized, outline, copy_lines_nothing, frame_addr_at_lem, length_of_lem, lines_pixels,
}
use mikanos_copy.FrameBuffer.Axis.{
  spans-true, spans-inside, both_true, Stretch, stretch, source_at, no_span,
}

contains_axes :
    (a : Rectangle) (p : Vector2D)
    → contains a p ≡ (spans a.pos.x a.size.x p.x && spans a.pos.y a.size.y p.y)
unfolding contains
contains_axes a p = refl

and_comm : (p q : Bool) → (p && q) ≡ (q && p)
and_comm p q = ground arith

inside_low : (start n p : ℕ) → inside start n p ≡ true → start ≤ p
inside_low start n p h = ground (arith, h)

same_place :
    (from : ℕ → ℕ) (width x y x' y' b : ℕ)
    → x ≡ x'
    → y ≡ y'
    → from (byte_at width x y b) ≡ from (byte_at width x' y' b)
same_place from width x y x' y' b e f = rw (e, f) refl

same_pixel :
    (below right t : Bool)
    → t ≡ (below && right)
    → (new new' old : ℕ) → (below ≡ true → right ≡ true → new ≡ new')
    → (if below && right then new else old) ≡ (if t then new' else old)
same_pixel true true t e new new' old h = rw e (h refl refl)
same_pixel true false t e new new' old h = rw e refl
same_pixel false right t e new new' old h = rw e refl

-- Two buffers and the rectangle that is copied.
module _ (d s : FrameBufferConfig) (at : Vector2D) (area : Rectangle) (d_sized : IsSized d)
    (s_sized : IsSized s) (wide : IsLength area.size.x) (high : IsLength area.size.y) where
  abbrev shared : Rectangle
  shared = copy_area d s at area

  abbrev moved : Rectangle
  moved = record { pos = at -v area.pos; size = frame_buffer_size s }

  lengths : IsLength shared.size.x × IsLength shared.size.y
  unfolding minus
  lengths =
      intersection-IsLength (intersection (outline d) moved) (record { pos = at; size = area.size })
        (intersection-IsLength (outline d) moved (refl, refl) (refl, refl)) (wide, high)

  contains-shared :
      (p : Vector2D)
      → contains shared p ≡ (
          (contains (outline d) p && contains moved p)
          && contains (record { pos = at; size = area.size }) p)
  contains-shared p =
      contains-intersection (intersection (outline d) moved) (record { pos = at; size = area.size })
        p
      ∙ ap (λ t. t && contains (record { pos = at; size = area.size }) p)
          (contains-intersection (outline d) moved p)

  in_both :
      (p : Vector2D)
      → contains shared p ≡ true
      → (contains (outline d) p ≡ true) × (contains moved p ≡ true)
  in_both p e = let (both, here) = both_true _ _ (sym (contains-shared p) ∙ e) in both_true _ _ both

  -- The shared part along the two axes, when there is any of it.
  module _ (some_x : 0 < plus shared.size.x) (some_y : 0 < plus shared.size.y) where
    along_x :
        Stretch shared.pos.x shared.size.x
          (at -v area.pos).x
          d.horizontal_resolution
          s.horizontal_resolution
    unfolding contains
    along_x = stretch _ _ _ _ _ lengths.0 some_x (λ p e.
        let there =
          spans-true shared.pos.y shared.size.y shared.pos.y (omega arith)
            (omega (arith, lengths.1, some_y)) in
        let (in_d, in_s) = in_both (record { x = p; y = shared.pos.y }) (rw (e, there) refl) in
        ((both_true _ _ in_d).0, (both_true _ _ in_s).0))

    along_y :
        Stretch shared.pos.y shared.size.y
          (at -v area.pos).y
          d.vertical_resolution
          s.vertical_resolution
    unfolding contains
    along_y = stretch _ _ _ _ _ lengths.1 some_y (λ p e.
        let there =
          spans-true shared.pos.x shared.size.x shared.pos.x (omega arith)
            (omega (arith, lengths.0, some_x)) in
        let (in_d, in_s) = in_both (record { x = shared.pos.x; y = p }) (rw (there, e) refl) in
        ((both_true _ _ in_d).1, (both_true _ _ in_s).1))

    copied :
        (to from : ℕ → ℕ) (x y b : ℕ)
        → x < d.pixels_per_scanline
        → b < 4
        → copy_lines
            (plus shared.size.y)
            (length_of shared.size.x)
            (bytes_per_scan_line d)
            (bytes_per_scan_line s)
            to
            from
            (frame_addr_at shared.pos d)
            (frame_addr_at (shared.pos -v (at -v area.pos)) s)
            (byte_at d.pixels_per_scanline x y b)
          ≡ (if contains shared (record { x = pos x; y = pos y })
              then from (
                  byte_at s.pixels_per_scanline
                    (plus (pos x -ℤ (at -v area.pos).x))
                    (plus (pos y -ℤ (at -v area.pos).y))
                    b)
              else to (byte_at d.pixels_per_scanline x y b))
    copied to from x y b column byte =
        let (to_pos, to_line) =
          frame_addr_at_lem d shared.pos d_sized (omega (arith, along_x.ends, some_x))
            (omega (arith, along_y.ends, some_y)) in
        let (from_pos, from_line) =
          frame_addr_at_lem s (shared.pos -v (at -v area.pos)) s_sized along_x.source_inside
            along_y.source_inside in
        lines_pixels d.pixels_per_scanline s.pixels_per_scanline (plus shared.pos.x)
          (plus shared.pos.y) (plus shared.size.x) (plus shared.size.y)
          (plus (shared.pos.x -ℤ (at -v area.pos).x)) (plus (shared.pos.y -ℤ (at -v area.pos).y)) to
          from _ _ _ _ _ (length_of_lem shared.size.x lengths.0) to_line from_line to_pos from_pos
          (omega (arith, along_x.ends, d_sized.wide)) x y b column byte
        ∙ same_pixel (inside (plus shared.pos.y) (plus shared.size.y) y)
            (inside (plus shared.pos.x) (plus shared.size.x) x)
            (contains shared (record { x = pos x; y = pos y })) there _ _ _
            (λ below right.
              same_place from _ _ _ _ _ b
                (source_at shared.pos.x (at -v area.pos).x x along_x.begins along_x.source
                  (inside_low _ _ _ right))
                (source_at shared.pos.y (at -v area.pos).y y along_y.begins along_y.source
                  (inside_low _ _ _ below)))
      where
        there : contains shared (record { x = pos x; y = pos y }) ≡ (
            inside (plus shared.pos.y) (plus shared.size.y) y
            && inside (plus shared.pos.x) (plus shared.size.x) x)
        there =
            contains_axes shared _
            ∙ rw
                (
                  spans-inside shared.pos.x shared.size.x x along_x.begins lengths.0,
                  spans-inside shared.pos.y shared.size.y y along_y.begins lengths.1,
                )
                (and_comm (inside (plus shared.pos.x) (plus shared.size.x) x)
                  (inside (plus shared.pos.y) (plus shared.size.y) y))

  nothing_shared :
      (p : Vector2D)
      → (plus shared.size.y ≡ 0) ⊎ (plus shared.size.x ≡ 0)
      → contains shared p ≡ false
  nothing_shared p (inl e) =
      contains_axes shared p
      ∙ rw (no_span shared.pos.y shared.size.y p.y lengths.1 e) (ground arith)
  nothing_shared p (inr e) =
      contains_axes shared p ∙ rw (no_span shared.pos.x shared.size.x p.x lengths.0 e) refl

  some_or_none :
      ((plus shared.size.y ≡ 0) ⊎ (plus shared.size.x ≡ 0))
      ⊎ ((0 < plus shared.size.x) × (0 < plus shared.size.y))
  some_or_none = elim (ℕ_discrete (plus shared.size.y) 0) [
    | yes e ↦ inl (inl e)
    | no h ↦ elim (ℕ_discrete (plus shared.size.x) 0) [
      | yes e ↦ inl (inr e)
      | no k ↦ inr (omega (arith, k), omega (arith, h))
    ]
  ]

  copied_or_not :
      (to from : ℕ → ℕ) (x y b : ℕ)
      → x < d.pixels_per_scanline
      → b < 4
      → copy_lines
          (plus shared.size.y)
          (length_of shared.size.x)
          (bytes_per_scan_line d)
          (bytes_per_scan_line s)
          to
          from
          (frame_addr_at shared.pos d)
          (frame_addr_at (shared.pos -v (at -v area.pos)) s)
          (byte_at d.pixels_per_scanline x y b)
        ≡ (if contains shared (record { x = pos x; y = pos y })
            then from (
                byte_at s.pixels_per_scanline
                  (plus (pos x -ℤ (at -v area.pos).x))
                  (plus (pos y -ℤ (at -v area.pos).y))
                  b)
            else to (byte_at d.pixels_per_scanline x y b))
  copied_or_not to from x y b column byte = elim some_or_none [
    | inl none ↦
        rw (nothing_shared (record { x = pos x; y = pos y }) none)
          (copy_lines_nothing _ _ _ _ to from _ _ _ (no_bytes none))
    | inr some ↦ copied some.0 some.1 to from x y b column byte
  ]
    where
      no_bytes :
          (plus shared.size.y ≡ 0) ⊎ (plus shared.size.x ≡ 0)
          → (plus shared.size.y ≡ 0) ⊎ (length_of shared.size.x ≡ 0)
      no_bytes (inl e) = inl e
      no_bytes (inr e) = inr (omega (arith, e, length_of_lem shared.size.x lengths.0))

-- Copying the rectangle `area` of a buffer to a position of another of the same format changes a pixel
-- just if the pixel lies in the destination's picture, where the whole source would come to lie, and
-- where the rectangle comes to lie. It then has the bytes of the pixel of the source that comes to lie
-- there, and every other pixel of a line, padding included, keeps its bytes. The sides of the rectangle
-- are not negative; the two pictures are no wider than their lines, and fit 32 bits.
pub copy_pixels :
    (dst src : FrameBuffer) (at : Vector2D) (area : Rectangle)
    → same_format dst.config.pixel_format src.config.pixel_format ≡ true
    → IsSized dst.config
    → IsSized src.config
    → IsLength area.size.x
    → IsLength area.size.y
    → (x y b : ℕ) → x < dst.config.pixels_per_scanline
    → b < 4
    → (copy dst at src area).1.byte (byte_at dst.config.pixels_per_scanline x y b) ≡ (
        if (contains (outline dst.config) (record { x = pos x; y = pos y })
            && contains
                (record { pos = at -v area.pos; size = frame_buffer_size src.config })
                (record { x = pos x; y = pos y }))
          && contains (record { pos = at; size = area.size }) (record { x = pos x; y = pos y })
        then src.byte (
            byte_at src.config.pixels_per_scanline
              (plus (pos x -ℤ (at -v area.pos).x))
              (plus (pos y -ℤ (at -v area.pos).y))
              b)
        else dst.byte (byte_at dst.config.pixels_per_scanline x y b))
unfolding copy
copy_pixels dst src at area same d_sized s_sized wide high x y b column byte =
    rw
      (
        same,
        sym (
            contains-shared dst.config src.config at area d_sized s_sized wide high
              (record { x = pos x; y = pos y })),
      )
      (copied_or_not dst.config src.config at area d_sized s_sized wide high dst.byte src.byte x y b
        column byte)
