-- ===== src/Layer/Stack.antt =====
-- The vector of pointers that orders the layers (Kernel/layer.cpp): `std::find`, `insert` and
-- `erase` at a position.
use mikanos_copy.Common.{
  ℕ, zero, suc, ◌+◌, ◌-◌, ◌<◌, ◌≤◌, ◌≡◌, ◌≢◌, refl, ap, List, [], ◌∷◌, ◌==◌, ltb, if◌then◌else◌,
  length, arith, Bool-cases, inl, inr,
}

-- The position of the first copy, or the length.
unfoldable pub find : ℕ → List ℕ → ℕ
find x [] = 0
find x (y ∷ ys) = let rest = find x ys in if y == x then 0 else suc rest

-- A position past the end is that of the end.
unfoldable pub insert : ℕ → ℕ → List ℕ → List ℕ
insert zero x ys = x ∷ ys
insert (suc n) x [] = x ∷ []
insert (suc n) x (y ∷ ys) = y ∷ insert n x ys

unfoldable pub remove_at : ℕ → List ℕ → List ℕ
remove_at n [] = []
remove_at zero (y ∷ ys) = ys
remove_at (suc n) (y ∷ ys) = y ∷ remove_at n ys

-- The list without a layer.
unfoldable pub without : ℕ → List ℕ → List ℕ
without x [] = []
without x (y ∷ ys) = let rest = without x ys in if y == x then rest else y ∷ rest

unfoldable pub count : ℕ → List ℕ → ℕ
count x [] = 0
count x (y ∷ ys) = (if y == x then 1 else 0) + count x ys

pub find_le : (x : ℕ) (xs : List ℕ) → find x xs ≤ length xs
unfolding find
find_le x [] = omega arith
find_le x (y ∷ ys) = ground (arith, find_le x ys)

pub find_absent : (x : ℕ) (xs : List ℕ) → count x xs ≡ 0 → find x xs ≡ length xs
unfolding find count
find_absent x [] h = refl
find_absent x (y ∷ ys) h = ground (arith, h, find_absent x ys)

pub find_present : (x : ℕ) (xs : List ℕ) → 0 < count x xs → find x xs < length xs
unfolding find count
find_present x [] h = ground (arith, h)
find_present x (y ∷ ys) h = ground (arith, h, find_present x ys)

pub find-insert :
    (n x : ℕ) (xs : List ℕ) → count x xs ≡ 0 → n ≤ length xs → find x (insert n x xs) ≡ n
unfolding find insert count
find-insert zero x xs h l = ground arith
find-insert (suc n) x [] h l = absurd (omega (arith, l))
find-insert (suc n) x (y ∷ ys) h l = ground (arith, h, l, find-insert n x ys)

pub length-insert : (n x : ℕ) (xs : List ℕ) → length (insert n x xs) ≡ suc (length xs)
unfolding insert
length-insert zero x xs = refl
length-insert (suc n) x [] = refl
length-insert (suc n) x (y ∷ ys) = ap suc (length-insert n x ys)

pub length-remove_at :
    (n : ℕ) (xs : List ℕ) → n < length xs → suc (length (remove_at n xs)) ≡ length xs
unfolding remove_at
length-remove_at n [] h = absurd (omega (arith, h))
length-remove_at zero (y ∷ ys) h = refl
length-remove_at (suc n) (y ∷ ys) h = ap suc (length-remove_at n ys (omega (arith, h)))

pub without-insert : (n x : ℕ) (xs : List ℕ) → without x (insert n x xs) ≡ without x xs
unfolding without insert
without-insert zero x xs = ground arith
without-insert (suc n) x [] = ground arith
without-insert (suc n) x (y ∷ ys) = ground (arith, without-insert n x ys)

pub count-insert :
    (t n x : ℕ) (xs : List ℕ) → count t (insert n x xs) ≡ (if x == t then 1 else 0) + count t xs
unfolding count insert
count-insert t zero x xs = refl
count-insert t (suc n) x [] = refl
count-insert t (suc n) x (y ∷ ys) = ground (arith, count-insert t n x ys)

pub count-remove_at :
    (t x : ℕ) (xs : List ℕ)
    → find x xs < length xs
    → (if x == t then 1 else 0) + count t (remove_at (find x xs) xs) ≡ count t xs
unfolding count remove_at find
count-remove_at t x [] h = absurd (omega (arith, h))
count-remove_at t x (y ∷ ys) h = elim (Bool-cases (y == x)) [
  | inl e ↦ rw e (ground (arith, e))
  | inr e ↦ rw e (ground (arith, e, h, count-remove_at t x ys))
]

pub without-remove_at : (x : ℕ) (xs : List ℕ) → without x (remove_at (find x xs) xs) ≡ without x xs
unfolding without remove_at find
without-remove_at x [] = refl
without-remove_at x (y ∷ ys) = elim (Bool-cases (y == x)) [
  | inl e ↦ rw e refl
  | inr e ↦ rw e (ground (arith, e, without-remove_at x ys))
]

-- A list without a layer is its own.
pub without_absent : (x : ℕ) (xs : List ℕ) → count x xs ≡ 0 → without x xs ≡ xs
unfolding without count
without_absent x [] h = refl
without_absent x (y ∷ ys) h = ground (arith, h, without_absent x ys)

-- Where another layer stands after one is put in, or taken out.
pub find_other-insert :
    (u n x : ℕ) (xs : List ℕ)
    → x ≢ u
    → n ≤ length xs
    → find u (insert n x xs) ≡ (if ltb (find u xs) n then find u xs else suc (find u xs))
unfolding find insert
find_other-insert u zero x xs ne h = ground (arith, ne)
find_other-insert u (suc n) x [] ne h = absurd (omega (arith, h))
find_other-insert u (suc n) x (y ∷ ys) ne h =
    ground (arith, find_other-insert u n x ys ne (omega (arith, h)))

pub find_other-remove_at :
    (u x : ℕ) (xs : List ℕ)
    → x ≢ u
    → find u (remove_at (find x xs) xs)
      ≡ (if ltb (find x xs) (find u xs) then find u xs - 1 else find u xs)
unfolding find remove_at
find_other-remove_at u x [] ne = refl
find_other-remove_at u x (y ∷ ys) ne = elim (Bool-cases (y == x)) [
  | inl e ↦ rw e (ground (arith, e, ne))
  | inr e ↦ rw e (ground (arith, e, ne, find_other-remove_at u x ys ne))
]
