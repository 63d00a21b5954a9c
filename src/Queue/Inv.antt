-- ===== src/Queue/Inv.antt =====
-- The representation invariant of `ArrayQueue`, and the elements that a queue holds.
use native.Mathlib.Nat.{mod-eq_of_lt, mod-eq-sub-mod, mod-add-mod}
use mikanos_copy.Common.{
  ℕ, suc, ◌+◌, ◌-◌, ◌%◌, ◌^◌, ◌≤◌, ◌<◌, ◌≡◌, ◌≢◌, ap, ◌∙◌, some, List, [], ◌∷◌, length, get_elem?,
  add64, arith, dec_lt,
}
use mikanos_copy.Queue.{ArrayQueue}

-- The slots from `r` on, going round at `cap`, hold these values.
abbrev pub Holds {ℓ} : {T : Type ℓ} → List T → ℕ → ℕ → List T → Type ℓ
Holds {T} elems cap r [] = Unit
Holds {T} elems cap r (x ∷ xs) = (get_elem? elems r ≡ some x) × Holds elems cap ((r + 1) % cap) xs

-- `q` is in order, and its elements are `xs`, oldest first.
pub record Represents {ℓ} {T : Type ℓ} (q : ArrayQueue T) (xs : List T) : Type ℓ where
  pub storage : q.capacity ≤ length q.elems
  pub small : q.capacity < 2 ^ 64
  pub read_in : q.read_pos < q.capacity
  pub write_at : q.write_pos ≡ (q.read_pos + q.count) % q.capacity
  pub within : q.count ≤ q.capacity
  pub counted : q.count ≡ length xs
  pub held : Holds q.elems q.capacity q.read_pos xs

-- A sum below twice the modulus.
pub wrap_once : (a n : ℕ) → n ≤ a → a < n + n → a % n ≡ a - n
wrap_once a n h k =
    mod-eq-sub-mod {n = a} {m = n} h ∙ mod-eq_of_lt {n = a - n} {m = n} (omega arith)

pub step_in : (a n : ℕ) → a < n → ((a + 1) % n < n)
step_in a n h = omega arith

pub step_add : (r k n : ℕ) → r < n → k < n → ((r + 1) % n + k) % n ≡ (r + suc k) % n
step_add r k n hr hk = elim (dec_lt (r + 1) n) [
  | yes p ↦ rw (mod-eq_of_lt p) (ap (λ t. t % n) (omega arith))
  | no p ↦ rw (wrap_once (r + 1) n (omega arith) (omega arith)) (elim (dec_lt (r + suc k) (n + n)) [
    | yes s ↦
        rw (wrap_once (r + suc k) n (omega arith) s) (mod-eq_of_lt (omega arith) ∙ omega arith)
    | no s ↦ absurd (omega arith)
  ])
]

pub step_ne : (r k n : ℕ) → r < n → suc k < n → (r + suc k) % n ≢ r
step_ne r k n hr hk = elim (dec_lt (r + suc k) n) [
  | yes p ↦ omega (arith, mod-eq_of_lt p)
  | no p ↦ omega (arith, wrap_once (r + suc k) n (omega arith) (omega arith))
]

-- One more slot past the sum of a position and a count: neither `size_t` addition wraps.
pub advance :
    (w r c n : ℕ)
    → w ≡ (r + c) % n
    → n < 2 ^ 64
    → w < n
    → c < n
    → add64 w 1 % n ≡ (r + add64 c 1) % n
advance w r c n e small h hc =
    ap (λ t. t % n) next ∙ mod-add-mod (r + c) n 1 ∙ ap (λ t. t % n) (omega arith)
  where
    next : add64 w 1 ≡ (r + c) % n + 1
    next = omega (arith, e)
