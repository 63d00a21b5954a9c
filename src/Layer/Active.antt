-- ===== src/Layer/Active.antt =====
-- `ActiveLayer::Activate` (Kernel/layer.cpp): where the layer that becomes active goes.
use mikanos_copy.Common.{
  ℕ, suc, ◌-◌, ◌<◌, ◌≤◌, ◌≡◌, ◌≢◌, refl, ap, subst, sym, Bool, true, false, Option, none, some,
  List, [], ◌∷◌, ◌==◌, ltb, length, arith, Bool-cases, inl, inr, ◌∙◌,
}
use mikanos_copy.Common.Int.{pos, ◌-ℤ◌, sub_nat}
use mikanos_copy.Layer.{
  Layer, LayerManager, find_layer, find_in, update_in, modify, set_active, up_down, get_height,
  raise, deactivate, activate, ActiveLayer,
}
use mikanos_copy.Layer.Stack.{
  find, find_other-insert, find_other-remove_at, remove_at, without, count, length-insert,
  length-remove_at,
}
use mikanos_copy.Layer.Height.{IsOrdered, up_down-Placed, up_down_old, moved, top}

pointer : Option Layer → ℕ
pointer none = 0
pointer (some l) = l.id

-- A call of a method that keeps the number leaves what a pointer stands for.
find_in-update_in :
    (id t : ℕ) (f : Layer → Layer) (layers : List Layer)
    → ((l : Layer) → (f l).id ≡ l.id)
    → pointer (find_in t (update_in id f layers)) ≡ pointer (find_in t layers)
unfolding find_in update_in pointer
find_in-update_in id t f [] h = refl
find_in-update_in id t f (l ∷ layers) h = ground (arith, h l, find_in-update_in id t f layers h)

pub find_layer-modify :
    (m : LayerManager) (layer t : ℕ) (active : Bool)
    → find_layer (modify m layer (set_active active)) t ≡ find_layer m t
unfolding find_layer modify pointer
find_layer-modify m layer t active =
    find_in-update_in layer t (set_active active) m.layers (λ l. refl)

-- A layer on the stack that is moved to just under a higher one.
moved_under :
    (m : LayerManager) (id over : ℕ)
    → id ≢ over
    → find id m.stack < find over m.stack
    → find over m.stack < length m.stack
    → get_height (moved m id (find over m.stack - 1)) over ≡ pos (find over m.stack)
unfolding get_height moved
moved_under m id over ne below there =
    let n = find over m.stack - 1 in
    let rest = remove_at (find id m.stack) m.stack in
    let size : suc (length rest) ≡ length m.stack =
      length-remove_at (find id m.stack) m.stack (omega (arith, below, there)) in
    let fits : n ≤ length rest = omega (arith, size, there) in
    rw (find_other-insert over n id rest ne fits) (
      rw (find_other-remove_at over id m.stack ne)
        (rw (length-insert n id rest) (ground (arith, below, there, size))))

-- A height that is not negative is a position of the stack.
height_lem :
    (m : LayerManager) (id k : ℕ)
    → get_height m id ≡ pos k
    → (find id m.stack ≡ k) × (find id m.stack < length m.stack)
unfolding get_height
height_lem m id k e = ground (arith, e)

deactivate-stack : (a : ActiveLayer) (m : LayerManager) → (deactivate a m).stack ≡ m.stack
unfolding deactivate modify
deactivate-stack a m = ground arith

deactivate-find_layer :
    (a : ActiveLayer) (m : LayerManager) (id : ℕ) → find_layer (deactivate a m) id ≡ find_layer m id
unfolding deactivate
deactivate-find_layer a m id = elim (Bool-cases (ltb 0 a.active_layer)) [
  | inl e ↦ rw e (find_layer-modify m (find_layer m a.active_layer) id false)
  | inr e ↦ rw e refl
]

-- What `Activate` leaves, of a layer and of the mouse at a height.
pub record Raised (id over k : ℕ) (m m' : LayerManager) : Type 0 where
  pub under : get_height m' id ≡ pos (k - 1)
  pub mouse : get_height m' over ≡ pos k
  pub others : without id m'.stack ≡ without id m.stack
  pub ordered : IsOrdered m'

abbrev lit : LayerManager → ℕ → LayerManager
lit m id = modify m (find_layer m id) (set_active true)

under_lem : (k : ℕ) → 0 < k → pos k -ℤ pos 1 ≡ pos (k - 1)
unfolding ◌-ℤ◌ sub_nat
under_lem k h = ground (arith, h)

lit-get_height : (m : LayerManager) (id t : ℕ) → get_height (lit m id) t ≡ get_height m t
unfolding get_height modify
lit-get_height m id t = refl

raise_lem :
    (m : LayerManager) (id over k : ℕ)
    → 0 < id
    → 0 < k
    → get_height m over ≡ pos k
    → raise over id m ≡ up_down (lit m id) id (pos (k - 1))
unfolding raise
raise_lem m id over k positive above e =
    let test : ltb 0 id ≡ true = ground (arith, positive) in
    rw test (
      ap (up_down (lit m id) id)
        (ap (λ h. h -ℤ pos 1) (lit-get_height m id over ∙ e) ∙ under_lem k above))

raise-Raised :
    (m : LayerManager) (id over j k : ℕ)
    → IsOrdered m
    → 0 < id
    → id ≢ over
    → find_layer m id ≡ id
    → get_height m id ≡ pos j
    → get_height m over ≡ pos k
    → j < k
    → Raised id over k m (raise over id m)
unfolding modify top
raise-Raised m id over j k o positive ne known at over_at below =
    let (j_eq, j_in) = height_lem m id j at in
    let (k_eq, k_in) = height_lem m over k over_at in
    let known' : find_layer (lit m id) id ≡ id =
      find_layer-modify m (find_layer m id) id true ∙ known in
    let p = up_down-Placed (lit m id) id (k - 1) o known' in
    rw (raise_lem m id over k positive (omega (arith, below)) over_at) (record {
      under = p.placed ∙ ap pos (ground (arith, j_in, k_in, k_eq));
      mouse = rw (up_down_old (lit m id) id (k - 1) known' j_in) (
          ap (λ n. get_height (moved (lit m id) id n) over) (ground (arith, k_eq, k_in, below))
          ∙ moved_under (lit m id) id over ne (omega (arith, j_eq, k_eq, below)) k_in
          ∙ ap pos k_eq);
      others = p.others;
      ordered = p.ordered;
    })

-- A layer on the stack that lies under the mouse, and is not the active one, becomes the active one:
-- it goes just under the mouse, which stays at its height, and the other layers keep their order.
pub activate-Raised :
    (a : ActiveLayer) (m : LayerManager) (id j k : ℕ)
    → IsOrdered m
    → 0 < id
    → id ≢ a.mouse_layer
    → a.active_layer ≢ id
    → find_layer m id ≡ id
    → get_height m id ≡ pos j
    → get_height m a.mouse_layer ≡ pos k
    → j < k
    → ((activate a m id).0.active_layer ≡ id) × Raised id a.mouse_layer k m (activate a m id).1
unfolding activate get_height
activate-Raised a m id j k o positive ne idle known at over_at below =
    let test : (a.active_layer == id) ≡ false = ground (arith, idle) in
    let same = deactivate-stack a m in
    let r =
      raise-Raised (deactivate a m) id a.mouse_layer j k
        (subst (λ s. (layer : ℕ) → count layer s ≤ 1) (sym same) o) positive ne
        (deactivate-find_layer a m id ∙ known)
        (subst (λ s. get_height (record m { stack = s }) id ≡ pos j) (sym same) at)
        (subst (λ s. get_height (record m { stack = s }) a.mouse_layer ≡ pos k) (sym same) over_at)
        below in
    rw test (
      refl,
      record {
        under = r.under;
        mouse = r.mouse;
        others = r.others ∙ ap (without id) same;
        ordered = r.ordered;
      },
    )
