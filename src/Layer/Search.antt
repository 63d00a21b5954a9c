-- ===== src/Layer/Search.antt =====
-- `FindLayerByPosition` (Kernel/layer.cpp): the topmost layer at a point.
use mikanos_copy.Common.{
  ℕ, ◌<◌, ◌≡◌, ◌≢◌, ◌⊎◌, Option, none, some, ◌&&◌, not, refl, subst, sym, ap, ◌∙◌, Bool, true,
  false, List, [], ◌∷◌, ◌++◌, ◌==◌, arith, Bool-cases, Option-cases, inl, inr,
}
use mikanos_copy.Common.Int.{ℤ, pos, ◌+ℤ◌, lt, le, plus, minus, add_lem, le_lem}
use mikanos_copy.Graphics.{Vector2D, ◌+v◌}
use mikanos_copy.Graphics.Area.{spans, contains}
use mikanos_copy.Layer.{
  LayerManager, Layer, Window, find_in, is_at, find_last, find_layer_by_position,
}
use mikanos_copy.Layer.Stack.{count}

-- The test holds for no layer of the list.
abbrev pub NoneOf : (ℕ → Bool) → List ℕ → Type 0
NoneOf p xs = (layer : ℕ) → 0 < count layer xs → p layer ≡ false

-- The last layer of the list that the test holds for, and 0 when there is none.
IsTopmost : (ℕ → Bool) → List ℕ → ℕ → Type 0
IsTopmost p xs x =
    ((x ≡ 0) × NoneOf p xs)
    ⊎ ((below : List ℕ) × (above : List ℕ) × (xs ≡ below ++ x ∷ above)
        × (p x ≡ true)
        × NoneOf p above)

none_cons : (p : ℕ → Bool) (x : ℕ) (xs : List ℕ) → p x ≡ false → NoneOf p xs → NoneOf p (x ∷ xs)
unfolding count
none_cons p x xs h n layer there = elim (Bool-cases (x == layer)) [
  | inl e ↦ subst (λ l. p l ≡ false) (ground (arith, e)) h
  | inr e ↦ n layer (ground (arith, e, there))
]

in_middle : (x : ℕ) (below above : List ℕ) → 0 < count x (below ++ x ∷ above)
unfolding count
in_middle x [] above = ground arith
in_middle x (y ∷ below) above = ground (arith, in_middle x below above)

-- A layer of the list is not null.
found :
    (p : ℕ → Bool) (xs below above : List ℕ)
    → xs ≡ below ++ find_last p xs ∷ above
    → count 0 xs ≡ 0
    → (find_last p xs == 0) ≡ false
found p xs below above e h =
    let inside : 0 < count (find_last p xs) xs =
      subst (λ ys. 0 < count (find_last p xs) ys) (sym e)
        (in_middle (find_last p xs) below above) in
    elim (Bool-cases (find_last p xs == 0)) [
      | inr there ↦ there
      | inl null ↦
          let zero_in : 0 < count 0 xs =
            subst (λ x. 0 < count x xs) (ground (arith, null)) inside in
          absurd (omega (arith, zero_in, h))
    ]

find_last-IsTopmost :
    (p : ℕ → Bool) (xs : List ℕ) → count 0 xs ≡ 0 → IsTopmost p xs (find_last p xs)
unfolding IsTopmost find_last count
find_last-IsTopmost p [] h = inl (refl, λ layer there. ground (arith, there))
find_last-IsTopmost p (x ∷ xs) h = elim (find_last-IsTopmost p xs (ground (arith, h))) [
  | inr (below, above, e, there, over) ↦
      rw (found p xs below above e (ground (arith, h)))
        (inr (x ∷ below, above, ap (λ ys. x ∷ ys) e, there, over))
  | inl (e, over) ↦ elim (Bool-cases (p x)) [
    | inl here ↦ rw e (rw here (inr ([], xs, refl, here, over)))
    | inr not_here ↦ rw e (rw not_here (inl (refl, none_cons p x xs not_here over)))
  ]
]

-- A layer that is shown under a point: its window reaches from its position over the width, and over
-- one row more than the height, and it is not the excluded one.
pub record IsUnder (m : LayerManager) (at : Vector2D) (exclude_id layer : ℕ) : Type 0 where
  pub shown : Layer
  pub pane : Window
  pub known : find_in layer m.layers ≡ some shown
  pub has_window : shown.window ≡ some pane
  pub included : shown.id ≢ exclude_id
  pub reaches :
      contains
        (record {
          pos = shown.position;
          size = record { x = pane.size.x; y = pane.size.y +ℤ pos 1 };
        })
        at
      ≡ true

-- One more row takes the row at the end in.
row_more : (start size p : ℤ) → (le start p && le p (start +ℤ size)) ≡ spans start (size +ℤ pos 1) p
unfolding spans plus minus
row_more start size p = ground (
  arith,
  le_lem start p,
  le_lem p (start +ℤ size),
  le_lem (start +ℤ (size +ℤ pos 1)) p,
  add_lem start size,
  add_lem size (pos 1),
  add_lem start (size +ℤ pos 1),
)

in_window :
    (l : Layer) (win : Window) (at : Vector2D)
    → (le l.position.x at.x
        && lt at.x (l.position +v win.size).x
        && le l.position.y at.y
        && le at.y (l.position +v win.size).y)
      ≡ contains
          (record { pos = l.position; size = record { x = win.size.x; y = win.size.y +ℤ pos 1 } })
          at
unfolding contains spans
in_window l win at = ground (arith, row_more l.position.y win.size.y at.y)

-- The code's test says just that.
under_test :
    (m : LayerManager) (at : Vector2D) (exclude_id layer : ℕ) (l : Layer) (win : Window)
    → find_in layer m.layers ≡ some l
    → l.window ≡ some win
    → is_at m at exclude_id layer ≡ (
        not (l.id == exclude_id)
        && contains
            (record { pos = l.position; size = record { x = win.size.x; y = win.size.y +ℤ pos 1 } })
            at)
unfolding is_at
under_test m at exclude_id layer l win e f = rw (e, is_at) (window_test l.window f)
  where
    window_test :
        (w : Option Window)
        → w ≡ some win
        → elim w [
          | none ↦ false
          | some v ↦
              not (l.id == exclude_id)
              && (le l.position.x at.x
                  && lt at.x (l.position +v v.size).x
                  && le l.position.y at.y
                  && le at.y (l.position +v v.size).y)
        ]
          ≡ (not (l.id == exclude_id)
              && contains
                  (record {
                    pos = l.position;
                    size = record { x = win.size.x; y = win.size.y +ℤ pos 1 };
                  })
                  at)
    window_test w g = rw g (ap (λ t. not (l.id == exclude_id) && t) (in_window l win at))

no_window :
    (m : LayerManager) (at : Vector2D) (exclude_id layer : ℕ) (l : Layer)
    → find_in layer m.layers ≡ some l
    → l.window ≡ none
    → is_at m at exclude_id layer ≡ false
unfolding is_at
no_window m at exclude_id layer l e f =
    rw (e, is_at)
      (ap
        (λ w. elim w [
          | none ↦ false
          | some v ↦
              not (l.id == exclude_id)
              && (le l.position.x at.x
                  && lt at.x (l.position +v v.size).x
                  && le l.position.y at.y
                  && le at.y (l.position +v v.size).y)
        ])
        f)

no_layer :
    (m : LayerManager) (at : Vector2D) (exclude_id layer : ℕ)
    → find_in layer m.layers ≡ none
    → is_at m at exclude_id layer ≡ false
unfolding is_at
no_layer m at exclude_id layer e = rw (e, is_at) refl

is_at-IsUnder :
    (m : LayerManager) (at : Vector2D) (exclude_id layer : ℕ)
    → is_at m at exclude_id layer ≡ true
    → IsUnder m at exclude_id layer
is_at-IsUnder m at exclude_id layer h = elim (Option-cases (find_in layer m.layers)) [
  | inl e ↦ ground (arith, h, no_layer m at exclude_id layer e)
  | inr (l, e) ↦ elim (Option-cases l.window) [
    | inl f ↦ ground (arith, h, no_window m at exclude_id layer l e f)
    | inr (win, f) ↦
        let t = both _ _ (sym (under_test m at exclude_id layer l win e f) ∙ h) in
        record {
          shown = l;
          pane = win;
          known = e;
          has_window = f;
          included = apart l.id exclude_id t.0;
          reaches = t.1;
        }
  ]
]
  where
    both : (p q : Bool) → (not p && q) ≡ true → (p ≡ false) × (q ≡ true)
    both p q t = ground (arith, t)

    apart : (a b : ℕ) → (a == b) ≡ false → a ≢ b
    apart a b t = ground (arith, t)

IsUnder-is_at :
    (m : LayerManager) (at : Vector2D) (exclude_id layer : ℕ)
    → IsUnder m at exclude_id layer
    → is_at m at exclude_id layer ≡ true
IsUnder-is_at m at exclude_id layer u =
    under_test m at exclude_id layer u.shown u.pane u.known u.has_window
    ∙ all (u.shown.id == exclude_id) _ (differ u.shown.id exclude_id u.included) u.reaches
  where
    all : (p q : Bool) → p ≡ false → q ≡ true → (not p && q) ≡ true
    all p q e f = ground (arith, e, f)

    differ : (a b : ℕ) → a ≢ b → (a == b) ≡ false
    differ a b ne = ground (arith, ne)

-- No layer of a list is under the point.
abbrev pub NoneUnder : LayerManager → Vector2D → ℕ → List ℕ → Type 0
NoneUnder m at exclude_id xs = (layer : ℕ) → 0 < count layer xs → ¬ (IsUnder m at exclude_id layer)

-- The last layer of the list that is under the point, and 0 when there is none.
pub IsTopmostUnder : LayerManager → Vector2D → ℕ → List ℕ → ℕ → Type 0
IsTopmostUnder m at exclude_id xs x =
    ((x ≡ 0) × NoneUnder m at exclude_id xs)
    ⊎ ((below : List ℕ) × (above : List ℕ) × (xs ≡ below ++ x ∷ above)
        × IsUnder m at exclude_id x
        × NoneUnder m at exclude_id above)

none_under :
    (m : LayerManager) (at : Vector2D) (exclude_id : ℕ) (xs : List ℕ)
    → NoneOf (is_at m at exclude_id) xs
    → NoneUnder m at exclude_id xs
none_under m at exclude_id xs none_there layer there u =
    no_both _ (none_there layer there) (IsUnder-is_at m at exclude_id layer u)
  where
    no_both : (t : Bool) → t ≡ false → ¬ (t ≡ true)
    no_both t e f = ground (arith, e, f)

-- When no pointer of the stack is null, `FindLayerByPosition` gives the topmost layer of the stack, the
-- excluded one left aside, whose window reaches to the point, over its width and over one row more
-- than its height, and `nullptr` only when there is none.
pub find_layer_by_position_lem :
    (m : LayerManager) (at : Vector2D) (exclude_id : ℕ)
    → count 0 m.stack ≡ 0
    → IsTopmostUnder m at exclude_id m.stack (find_layer_by_position m at exclude_id)
unfolding find_layer_by_position IsTopmostUnder IsTopmost
find_layer_by_position_lem m at exclude_id h =
    elim (find_last-IsTopmost (is_at m at exclude_id) m.stack h) [
      | inl (null, none_there) ↦ inl (null, none_under m at exclude_id m.stack none_there)
      | inr (below, above, e, here, over) ↦ inr (
        below,
        above,
        e,
        is_at-IsUnder m at exclude_id _ here,
        none_under m at exclude_id above over,
      )
    ]
