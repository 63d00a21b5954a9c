-- ===== src/Layer/Height.antt =====
-- What `UpDown` and `Hide` (Kernel/layer.cpp) do to the order of the layers.
use mikanos_copy.Common.{
  ℕ, ◌+◌, ◌-◌, ◌<◌, ◌≤◌, ◌≡◌, refl, ap, true, false, List, ◌==◌, ltb, if◌then◌else◌, length, arith,
  Bool-cases, inl, inr, min, ◌∙◌,
}
use mikanos_copy.Common.Int.{pos, negsuc}
use mikanos_copy.Layer.{LayerManager, find_layer, up_down, hide, get_height}
use mikanos_copy.Layer.Stack.{
  find, insert, remove_at, without, count, find_le, find_absent, find_present, find-insert,
  length-insert, length-remove_at, without-insert, count-insert, count-remove_at, without-remove_at,
}

-- No layer is on the stack twice.
abbrev pub IsOrdered : LayerManager → Type 0
IsOrdered m = (layer : ℕ) → count layer m.stack ≤ 1

-- The highest position that the layer can get.
unfoldable pub top : LayerManager → ℕ → ℕ
top m id = if ltb (find id m.stack) (length m.stack) then length m.stack - 1 else length m.stack

-- What a change of the height of a layer leaves.
pub record Placed (m : LayerManager) (id height : ℕ) (m' : LayerManager) : Type 0 where
  pub ordered : IsOrdered m'
  pub placed : get_height m' id ≡ pos height
  -- The others stay, in their order, and no layer changes.
  pub others : without id m'.stack ≡ without id m.stack
  pub layers : m'.layers ≡ m.layers

-- A stack without the layer, which is put in at `n`.
inserted :
    (m : LayerManager) (id n : ℕ) (stack : List ℕ)
    → ((layer : ℕ) → (if id == layer then 1 else 0) + count layer stack ≤ 1)
    → n ≤ length stack
    → without id stack ≡ without id m.stack
    → Placed m id n (record m { stack = insert n id stack })
unfolding get_height
inserted m id n stack h l w = record {
  ordered = λ layer. omega (arith, h layer, count-insert layer n id stack);
  placed =
      rw (find-insert n id stack (ground (arith, h id)) l)
        (rw (length-insert n id stack) (ground (arith, l)));
  others = without-insert n id stack ∙ w;
  layers = refl;
}

shown : LayerManager → ℕ → ℕ → LayerManager
shown m id n = record m { stack = insert n id m.stack }

unfoldable pub moved : LayerManager → ℕ → ℕ → LayerManager
moved m id n = record m { stack = insert n id (remove_at (find id m.stack) m.stack) }

up_down_new :
    (m : LayerManager) (id height : ℕ)
    → find_layer m id ≡ id
    → find id m.stack ≡ length m.stack
    → up_down m id (pos height) ≡ shown m id (min height (length m.stack))
unfolding up_down shown
up_down_new m id height known e =
    let test : (find id m.stack == length m.stack) ≡ true = ground (arith, e) in
    rw known (rw test (ap (λ n. shown m id n) (ground arith)))

pub up_down_old :
    (m : LayerManager) (id height : ℕ)
    → find_layer m id ≡ id
    → find id m.stack < length m.stack
    → up_down m id (pos height) ≡ moved m id (min height (length m.stack - 1))
unfolding up_down moved
up_down_old m id height known e =
    let test : (find id m.stack == length m.stack) ≡ false = ground (arith, e) in
    rw known (rw test (ap (λ n. moved m id n) (ground (arith, e))))

-- A layer that exists is put at the height asked for, or on top when that is too high; the other
-- layers keep their order.
pub up_down-Placed :
    (m : LayerManager) (id height : ℕ)
    → IsOrdered m
    → find_layer m id ≡ id
    → Placed m id (min height (top m id)) (up_down m id (pos height))
unfolding top moved shown
up_down-Placed m id height o known = elim (Bool-cases (ltb (find id m.stack) (length m.stack))) [
  | inl e ↦ rw (up_down_old m id height known (ground (arith, e))) (
      rw e (
        inserted m id (min height (length m.stack - 1)) (remove_at (find id m.stack) m.stack)
          (λ layer. ground (arith, o layer, e, count-remove_at layer id m.stack))
          (ground (arith, e, length-remove_at (find id m.stack) m.stack))
          (without-remove_at id m.stack)))
  | inr e ↦ rw (up_down_new m id height known (ground (arith, e, find_le id m.stack))) (
      rw e (
        inserted m id (min height (length m.stack)) m.stack
          (λ layer. ground (arith, e, o layer, find_present id m.stack)) (omega arith) refl))
]

-- What `Hide` leaves.
pub record Hidden (m : LayerManager) (id : ℕ) (m' : LayerManager) : Type 0 where
  pub ordered : IsOrdered m'
  pub gone : get_height m' id ≡ negsuc 0
  pub others : without id m'.stack ≡ without id m.stack
  pub layers : m'.layers ≡ m.layers

hidden :
    (m : LayerManager) (id : ℕ) (stack : List ℕ)
    → ((layer : ℕ) → count layer stack ≤ 1)
    → count id stack ≡ 0
    → without id stack ≡ without id m.stack
    → Hidden m id (record m { stack = stack })
unfolding get_height
hidden m id stack o h w = record {
  ordered = o;
  gone = rw (find_absent id stack h) (ground arith);
  others = w;
  layers = refl;
}

-- A layer that exists is taken out of the stack, if it is there, and the others keep their order.
pub hide-Hidden :
    (m : LayerManager) (id : ℕ) → IsOrdered m → find_layer m id ≡ id → Hidden m id (hide m id)
unfolding hide
hide-Hidden m id o known = rw known (elim (Bool-cases (ltb (find id m.stack) (length m.stack))) [
  | inl e ↦ rw e (
      hidden m id (remove_at (find id m.stack) m.stack)
        (λ layer. ground (arith, o layer, e, count-remove_at layer id m.stack))
        (ground (arith, o id, e, count-remove_at id id m.stack)) (without-remove_at id m.stack))
  | inr e ↦ rw e (hidden m id m.stack o (ground (arith, e, find_present id m.stack)) refl)
])
