-- ===== src/Usb/ArrayMap/Laws.antt =====
-- What `Get` (Kernel/usb/arraymap.hpp) answers after `Put` and `Delete`.
use mikanos_copy.Common.{
  ℕ, ◌+◌, ◌≤◌, ◌≡◌, ◌↔◌, refl, subst, Bool, true, false, ◌&&◌, Option, none, some, List, [], ◌∷◌,
  arith, Bool-cases, inl, inr, if◌then◌else◌,
}
use mikanos_copy.Usb.ArrayMap.{Table, holds, get, put, delete}

unfoldable pub has_free {ℓ} : {A B : Type ℓ} → List (Option A × B) → Bool
has_free [] = false
has_free ((none, v) ∷ table) = true
has_free ((some k, v) ∷ table) = has_free table

-- In how many slots a key is.
unfoldable pub count : {K V : Type 0} → (K → K → Bool) → Table K V → K → ℕ
count same [] key = 0
count same (slot ∷ table) key = (if holds same slot.0 key then 1 else 0) + count same table key

-- The test of keys is an equality.
module _ {K V : Type 0} (same : K → K → Bool)
    (same_iff : (a b : K) → (same a b ≡ true) ↔ (a ≡ b)) where
  abbrev pub IsDistinct : Table K V → Type 0
  IsDistinct table = (key : K) → count same table key ≤ 1

  put_other :
      (table : Table K V) (key : K) (value : V) (other : K)
      → same key other ≡ false
      → get same (put same table key value) other ≡ get same table other
  unfolding get put
  put_other [] key value other ne = refl
  put_other ((none, v) ∷ table) key value other ne = ground (arith, ne)
  put_other ((some s, v) ∷ table) key value other ne =
      ground (arith, put_other table key value other ne)

  put_self :
      (table : Table K V) (key : K) (value : V)
      → get same table key ≡ none
      → get same (put same table key value) key ≡ (if has_free table then some value else none)
  unfolding get put has_free
  put_self [] key value h = refl
  put_self ((none, v) ∷ table) key value h = ground (arith, same_iff key key, h)
  put_self ((some s, v) ∷ table) key value h = ground (arith, h, put_self table key value)

  -- A key that is not there yet gets the value if a slot is free, and no other key changes.
  pub get-put :
      (table : Table K V) (key : K) (value : V) (other : K)
      → get same table key ≡ none
      → get same (put same table key value) other
        ≡ (if has_free table && same key other then some value else get same table other)
  get-put table key value other h = elim (Bool-cases (same key other)) [
    | inr ne ↦ rw (put_other table key value other ne) (ground (arith, ne))
    | inl e ↦
        subst
          (λ k.
            get same (put same table key value) k
            ≡ (if has_free table && same key k then some value else get same table k))
          ((same_iff key other).0 e)
          (ground (arith, put_self table key value h, h, same_iff key key))
  ]

  get_absent : (table : Table K V) (key : K) → count same table key ≡ 0 → get same table key ≡ none
  unfolding get count
  get_absent [] key h = refl
  get_absent (slot ∷ table) key h = ground (arith, get_absent table key)

  delete_other :
      (table : Table K V) (key other : K)
      → same key other ≡ false
      → get same (delete same table key) other ≡ get same table other
  unfolding get delete
  delete_other [] key other ne = refl
  delete_other ((none, v) ∷ table) key other ne = ground (arith, delete_other table key other ne)
  delete_other ((some s, v) ∷ table) key other ne = elim (Bool-cases (same s key)) [
    | inl e ↦ rw e (ground (arith, ne, e, same_iff s key, same_iff s other, same_iff key other))
    | inr e ↦ rw e (ground (arith, delete_other table key other ne))
  ]

  delete_self :
      (table : Table K V) (key : K)
      → count same table key ≤ 1
      → get same (delete same table key) key ≡ none
  unfolding get delete count
  delete_self [] key h = refl
  delete_self (slot ∷ table) key h = elim (Bool-cases (holds same slot.0 key)) [
    | inl e ↦ rw e (get_absent table key (ground (arith, e, h)))
    | inr e ↦ rw e (ground (arith, e, h, delete_self table key))
  ]

  -- With no key in two slots, a key is not there any more after `Delete`, and no other key changes.
  pub get-delete :
      (table : Table K V) (key other : K)
      → IsDistinct table
      → get same (delete same table key) other
        ≡ (if same key other then none else get same table other)
  get-delete table key other d = elim (Bool-cases (same key other)) [
    | inr ne ↦ rw ne (delete_other table key other ne)
    | inl e ↦ rw e (
        subst (λ k. get same (delete same table key) k ≡ none) ((same_iff key other).0 e)
          (delete_self table key (d key)))
  ]

  count_absent :
      (table : Table K V) (key : K) → get same table key ≡ none → count same table key ≡ 0
  unfolding get count
  count_absent [] key h = refl
  count_absent (slot ∷ table) key h = ground (arith, h, count_absent table key)

  count-put :
      (table : Table K V) (key : K) (value : V) (other : K)
      → count same (put same table key value) other
        ≤ (if same key other then 1 else 0) + count same table other
  unfolding put count
  count-put [] key value other = omega arith
  count-put ((none, v) ∷ table) key value other = ground arith
  count-put ((some s, v) ∷ table) key value other = ground (arith, count-put table key value other)

  count-delete :
      (table : Table K V) (key other : K)
      → count same (delete same table key) other ≤ count same table other
  unfolding delete count
  count-delete [] key other = omega arith
  count-delete ((none, v) ∷ table) key other = ground (arith, count-delete table key other)
  count-delete ((some s, v) ∷ table) key other = elim (Bool-cases (same s key)) [
    | inl e ↦ rw e (ground arith)
    | inr e ↦ rw e (ground (arith, count-delete table key other))
  ]

  -- `Put` of a key that is not there, and `Delete`, keep each key in one slot at most.
  pub put-IsDistinct :
      (table : Table K V) (key : K) (value : V)
      → get same table key ≡ none
      → IsDistinct table
      → IsDistinct (put same table key value)
  put-IsDistinct table key value h d other = elim (Bool-cases (same key other)) [
    | inr ne ↦ ground (arith, ne, count-put table key value other, d other)
    | inl e ↦
        subst (λ k. count same (put same table key value) k ≤ 1) ((same_iff key other).0 e)
          (ground (arith, count-put table key value key, count_absent table key h))
  ]

  pub delete-IsDistinct :
      (table : Table K V) (key : K) → IsDistinct table → IsDistinct (delete same table key)
  delete-IsDistinct table key d other = omega (arith, count-delete table key other, d other)
