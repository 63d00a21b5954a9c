-- ===== src/Graphics/Area.antt =====
-- The points of a rectangle (Kernel/graphics.hpp), and those of what two rectangles share.
use mikanos_copy.Common.{
  ◌≡◌, refl, Bool, true, false, ◌&&◌, ◌||◌, sym, ◌∙◌, arith, Bool-cases, inl, inr, if◌then◌else◌,
}
use mikanos_copy.Common.Int.{
  ℤ, pos, ◌+ℤ◌, ◌-ℤ◌, lt, le, max, min, minus, sub_le, le-add, add_lem, sub_lem, le_lem,
}
use mikanos_copy.Graphics.{
  Vector2D, Rectangle, intersection, element_max, element_min, ◌+v◌, ◌-v◌, origin,
}

-- Whether a point is in an interval: the start is, the end is not.
unfoldable pub spans : (start size p : ℤ) → Bool
spans start size p = le start p && lt p (start +ℤ size)

-- A rectangle holds its left and upper edge, but not the right and the lower end.
unfoldable pub contains : Rectangle → Vector2D → Bool
unfolding spans
contains a p = spans a.pos.x a.size.x p.x && spans a.pos.y a.size.y p.y

le-max : (a b p : ℤ) → le (max a b) p ≡ (le a p && le b p)
le-max a b p = elim (Bool-cases (le b a)) [
  | inl e ↦ rw e (ground (arith, e, le_lem a p, le_lem b p, le_lem b a))
  | inr e ↦ rw e (ground (arith, e, le_lem a p, le_lem b p, le_lem b a))
]

lt-min : (a b p : ℤ) → lt p (min a b) ≡ (lt p a && lt p b)
lt-min a b p = elim (Bool-cases (le a b)) [
  | inl e ↦ rw e (ground (arith, e, le_lem a p, le_lem b p, le_lem a b))
  | inr e ↦ rw e (ground (arith, e, le_lem a p, le_lem b p, le_lem a b))
]

-- From a start to an end is the length between them.
lt_end : (start end p : ℤ) → lt p (start +ℤ (end -ℤ start)) ≡ lt p end
lt_end start end p = ground (
  arith,
  le_lem (start +ℤ (end -ℤ start)) p,
  le_lem end p,
  add_lem start (end -ℤ start),
  sub_lem end start,
)

-- The common part along one axis.
spans_common :
    (a m b n p : ℤ)
    → spans (max a b) (min (a +ℤ m) (b +ℤ n) -ℤ max a b) p ≡ (spans a m p && spans b n p)
unfolding spans
spans_common a m b n p =
    rw (lt_end (max a b) (min (a +ℤ m) (b +ℤ n)) p)
      (rw (le-max a b p) (rw (lt-min (a +ℤ m) (b +ℤ n) p) (ground arith)))

-- A rectangle that ends before another starts has no point of it.
spans_apart : (a m b n p : ℤ) → lt (a +ℤ m) b ≡ true → (spans a m p && spans b n p) ≡ false
unfolding spans
spans_apart a m b n p h = ground (arith, h, le_lem (a +ℤ m) p, le_lem b p, le_lem b (a +ℤ m))

spans_nothing : (p : ℤ) → spans (pos 0) (pos 0) p ≡ false
unfolding spans ◌+ℤ◌
spans_nothing p = ground (arith, le_lem (pos 0) p)

-- The test of `operator&`.
abbrev apart : Rectangle → Rectangle → Bool
apart a b =
    lt (a.pos.x +ℤ a.size.x) b.pos.x
    || lt (a.pos.y +ℤ a.size.y) b.pos.y
    || lt (b.pos.x +ℤ b.size.x) a.pos.x
    || lt (b.pos.y +ℤ b.size.y) a.pos.y

contains-apart :
    (a b : Rectangle) (p : Vector2D) → apart a b ≡ true → (contains a p && contains b p) ≡ false
unfolding contains
contains-apart a b p e = ground (
  arith,
  e,
  spans_apart a.pos.x a.size.x b.pos.x b.size.x p.x,
  spans_apart a.pos.y a.size.y b.pos.y b.size.y p.y,
  spans_apart b.pos.x b.size.x a.pos.x a.size.x p.x,
  spans_apart b.pos.y b.size.y a.pos.y a.size.y p.y,
)

intersection_cases :
    (a b : Rectangle)
    → intersection a b ≡ (
        if apart a b then record { pos = origin; size = origin } else record {
          pos = element_max a.pos b.pos;
          size = element_min (a.pos +v a.size) (b.pos +v b.size) -v element_max a.pos b.pos;
        })
unfolding intersection
intersection_cases a b = refl

contains_nothing : (p : Vector2D) → contains (record { pos = origin; size = origin }) p ≡ false
unfolding contains
contains_nothing p = rw (spans_nothing p.x) refl

contains_common :
    (a b : Rectangle) (p : Vector2D)
    → contains
        (record {
          pos = element_max a.pos b.pos;
          size = element_min (a.pos +v a.size) (b.pos +v b.size) -v element_max a.pos b.pos;
        })
        p
      ≡ (contains a p && contains b p)
unfolding contains
contains_common a b p =
    rw (spans_common a.pos.x a.size.x b.pos.x b.size.x p.x)
      (rw (spans_common a.pos.y a.size.y b.pos.y b.size.y p.y) (ground arith))

-- A point is in the part that `operator&` gives just if it is in both rectangles.
pub contains-intersection :
    (a b : Rectangle) (p : Vector2D)
    → contains (intersection a b) p ≡ (contains a p && contains b p)
contains-intersection a b p = rw (intersection_cases a b) (elim (Bool-cases (apart a b)) [
  | inl e ↦ rw e (contains_nothing p ∙ sym (contains-apart a b p e))
  | inr e ↦ rw e (contains_common a b p)
])

-- A length that is not negative.
abbrev pub IsLength : ℤ → Type 0
IsLength a = minus a ≡ 0

common-IsLength :
    (a m b n : ℤ)
    → IsLength m
    → IsLength n
    → lt (a +ℤ m) b ≡ false
    → lt (b +ℤ n) a ≡ false
    → IsLength (min (a +ℤ m) (b +ℤ n) -ℤ max a b)
common-IsLength a m b n h k e f = elim (Bool-cases (lt a b)) [
  | inl u ↦ elim (Bool-cases (lt (b +ℤ n) (a +ℤ m))) [
    | inl v ↦ rw (u, v) (sub_le (b +ℤ n) b (le-add b n k))
    | inr v ↦ rw (u, v) (sub_le (a +ℤ m) b (not_lt _ _ e))
  ]
  | inr u ↦ elim (Bool-cases (lt (b +ℤ n) (a +ℤ m))) [
    | inl v ↦ rw (u, v) (sub_le (b +ℤ n) a (not_lt _ _ f))
    | inr v ↦ rw (u, v) (sub_le (a +ℤ m) a (le-add a m h))
  ]
]
  where
    not_lt : (p q : ℤ) → lt p q ≡ false → le q p ≡ true
    not_lt p q w = ground (arith, w)

-- What two rectangles share has no negative side, when they have none.
pub intersection-IsLength :
    (a b : Rectangle)
    → IsLength a.size.x × IsLength a.size.y
    → IsLength b.size.x × IsLength b.size.y
    → IsLength (intersection a b).size.x × IsLength (intersection a b).size.y
unfolding minus
intersection-IsLength a b h k = rw (intersection_cases a b) (elim (Bool-cases (apart a b)) [
  | inl e ↦ rw e (refl, refl)
  | inr e ↦
      let (e1, e2, e3, e4) = four _ _ _ _ e in
      rw e (
        common-IsLength a.pos.x a.size.x b.pos.x b.size.x h.0 k.0 e1 e3,
        common-IsLength a.pos.y a.size.y b.pos.y b.size.y h.1 k.1 e2 e4,
      )
])
  where
    four :
        (p q r s : Bool)
        → (p || q || r || s) ≡ false
        → (p ≡ false) × (q ≡ false) × (r ≡ false) × (s ≡ false)
    four p q r s w = ground (arith, w)
