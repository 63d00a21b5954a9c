-- ===== src/Console/Rows.antt =====
-- Rows of the buffer of a console (Kernel/console.cpp) that are written and moved up.
use mathlib.Core.List.{append_assoc}
use mikanos_copy.Common.{
  ℕ, zero, suc, ◌-◌, ◌<◌, ◌≡◌, refl, sym, ap, ◌∙◌, List, [], ◌∷◌, ◌++◌, length, length-append, set,
  get_or, drop, replicate, arith,
}
use mikanos_copy.Console.{copy_rows}

module _ {ℓ} {A : Type ℓ} where
  pub get_or-middle :
      (above : List A) (x : A) (below : List A) (d : A)
      → get_or (above ++ (x ∷ below)) (length above) d ≡ x
  get_or-middle [] x below d = refl
  get_or-middle (a ∷ above) x below d = get_or-middle above x below d

  pub set-middle :
      (above : List A) (x : A) (below : List A) (y : A)
      → set (above ++ (x ∷ below)) (length above) y ≡ above ++ (y ∷ below)
  set-middle [] x below y = refl
  set-middle (a ∷ above) x below y = ap (λ r. a ∷ r) (set-middle above x below y)

-- A line in its row, with zeros behind it.
unfoldable pub pad : (width : ℕ) → List ℕ → List ℕ
pad width [] = replicate width 0
pad zero (c ∷ cs) = []
pad (suc width) (c ∷ cs) = c ∷ pad width cs

pub set-pad :
    (width : ℕ) (line : List ℕ) (c : ℕ)
    → length line < width
    → set (pad width line) (length line) c ≡ pad width (line ++ (c ∷ []))
unfolding pad
set-pad zero line c h = absurd (omega (arith, h))
set-pad (suc width) [] c h = refl
set-pad (suc width) (x ∷ line) c h = ap (λ r. x ∷ r) (set-pad width line c (omega (arith, h)))

abbrev pub last_of : List ℕ → List (List ℕ) → List ℕ
last_of x [] = x
last_of x (y ∷ ys) = last_of y ys

get_or-next :
    (above : List (List ℕ)) (x y : List ℕ) (below : List (List ℕ))
    → get_or (above ++ (x ∷ y ∷ below)) (suc (length above)) [] ≡ y
get_or-next [] x y below = refl
get_or-next (a ∷ above) x y below = get_or-next above x y below

-- The rows below `x` move up by one, and the last stays as well.
copy_rows_lem :
    (above : List (List ℕ)) (x : List ℕ) (below : List (List ℕ))
    → copy_rows (length below) (length above) (above ++ (x ∷ below))
      ≡ above ++ (below ++ (last_of x below ∷ []))
unfolding copy_rows
copy_rows_lem above x [] = refl
copy_rows_lem above x (y ∷ below) =
    let moved : set (above ++ (x ∷ y ∷ below)) (length above)
          (get_or (above ++ (x ∷ y ∷ below)) (suc (length above)) [])
        ≡ (above ++ (y ∷ [])) ++ (y ∷ below) =
      ap (set (above ++ (x ∷ y ∷ below)) (length above)) (get_or-next above x y below)
      ∙ set-middle above x (y ∷ below) y
      ∙ sym (append_assoc above (y ∷ []) (y ∷ below)) in
    let next : suc (length above) ≡ length (above ++ (y ∷ [])) =
      omega (arith, length-append above (y ∷ [])) in
    ap (copy_rows (length below) (suc (length above))) moved
    ∙ ap (λ n. copy_rows (length below) n ((above ++ (y ∷ [])) ++ (y ∷ below))) next
    ∙ copy_rows_lem (above ++ (y ∷ [])) y below
    ∙ append_assoc above (y ∷ []) (below ++ (last_of y below ∷ []))

-- The rows of a buffer after the copies, when the last is overwritten.
pub scrolled :
    (x blank : List ℕ) (below : List (List ℕ)) (n : ℕ)
    → length below ≡ n
    → set (copy_rows n 0 (x ∷ below)) n blank ≡ below ++ (blank ∷ [])
scrolled x blank below n e =
    ap (λ k. set (copy_rows k 0 (x ∷ below)) k blank) (sym e)
    ∙ ap (λ b. set b (length below) blank) (copy_rows_lem [] x below)
    ∙ set-middle below (last_of x below) [] blank

-- The last of the lines move up by one when a line is added.
pub drop-append :
    (k : ℕ) (l : List (List ℕ)) (y : List ℕ)
    → k < length l
    → (x : List ℕ) × (xs : List (List ℕ)) × (drop k l ≡ x ∷ xs)
      × (drop (suc k) (l ++ (y ∷ [])) ≡ xs ++ (y ∷ []))
drop-append k [] y h = absurd (omega (arith, h))
drop-append zero (x ∷ xs) y h = (x, xs, refl, refl)
drop-append (suc k) (z ∷ l) y h = drop-append k l y (omega (arith, h))

pub length-drop : (k : ℕ) (l : List (List ℕ)) → length (drop k l) ≡ length l - k
length-drop zero l = omega arith
length-drop (suc k) [] = omega arith
length-drop (suc k) (x ∷ l) = omega (arith, length-drop k l)

-- A character that is written into a row.
pub write_row :
    (b above below : List (List ℕ)) (x : List ℕ) (row column c : ℕ)
    → b ≡ above ++ (x ∷ below)
    → row ≡ length above
    → set b row (set (get_or b row []) column c) ≡ above ++ (set x column c ∷ below)
write_row b above below x row column c e h =
    ap (λ n. set b n (set (get_or b n []) column c)) h
    ∙ ap (λ l. set l (length above) (set (get_or l (length above) []) column c)) e
    ∙ ap (λ r. set (above ++ (x ∷ below)) (length above) (set r column c))
        (get_or-middle above x below [])
    ∙ set-middle above x below (set x column c)
