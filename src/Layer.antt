-- ===== src/Layer.antt =====
-- `Layer`, `LayerManager` and `ActiveLayer` of Kernel/layer.hpp and Kernel/layer.cpp: which windows
-- there are, where, and which lies over which. A pointer to a layer is its number, which is not 0,
-- and 0 stands for `nullptr`. Of a window only its size, and whether it is the active one, is kept;
-- what is drawn is left out.
pub mod Stack
pub mod Height
pub mod Active
pub mod Search
mod Tests
use mikanos_copy.Common.{
  ℕ, zero, suc, ◌+◌, ◌-◌, ◌^◌, ◌%◌, Bool, true, false, not, ◌&&◌, Option, none, some, List, [], ◌∷◌,
  ◌++◌, ltb, ◌==◌, if◌then◌else◌, length, map,
}
use mikanos_copy.Common.Int.{ℤ, pos, negsuc, ◌+ℤ◌, ◌-ℤ◌, lt, le}
use mikanos_copy.Graphics.{Vector2D, ◌+v◌, origin}
use Stack.{find, insert, remove_at}

pub record Window : Type 0 where
  pub size : Vector2D
  pub active : Bool

pub record Layer : Type 0 where
  pub id : ℕ
  pub position : Vector2D
  pub window : Option Window
  pub draggable : Bool

abbrev pub blank_layer : ℕ → Layer
blank_layer id = record { id = id; position = origin; window = none; draggable = false }

-- The last of `stack` is drawn last, and lies over the others.
pub record LayerManager : Type 0 where
  pub layers : List Layer
  pub stack : List ℕ
  pub latest_id : ℕ

abbrev pub init : LayerManager
init = record { layers = []; stack = []; latest_id = 0 }

-- The number of the new layer is given with the manager.
pub new_layer : LayerManager → ℕ × LayerManager
new_layer m =
    let id = (m.latest_id + 1) % 2 ^ 32 in
    (id, record m { layers = m.layers ++ blank_layer id ∷ []; latest_id = id })

unfoldable pub find_in : ℕ → List Layer → Option Layer
find_in id [] = none
find_in id (l ∷ layers) = if l.id == id then some l else find_in id layers

-- A pointer: the number that is found, or `nullptr`.
pub find_layer : LayerManager → ℕ → ℕ
find_layer m id = elim (find_in id m.layers) [ none ↦ 0 | some l ↦ l.id ]

-- A method call through a pointer to a layer.
unfoldable pub update_in : ℕ → (Layer → Layer) → List Layer → List Layer
update_in id f [] = []
update_in id f (l ∷ layers) = (if l.id == id then f l else l) ∷ update_in id f layers

pub modify : LayerManager → ℕ → (Layer → Layer) → LayerManager
modify m layer f = record m { layers = update_in layer f m.layers }

abbrev pub set_window : Option Window → Layer → Layer
set_window window l = record l { window = window }

abbrev pub set_position : Vector2D → Layer → Layer
set_position position l = record l { position = position }

abbrev pub set_draggable : Bool → Layer → Layer
set_draggable draggable l = record l { draggable = draggable }

-- `LayerManager::Move`, without what it draws. A number of no layer is ignored.
pub move : LayerManager → ℕ → Vector2D → LayerManager
move m id new_position =
    let layer = find_layer m id in
    if layer == 0 then m else modify m layer (set_position new_position)

pub move_relative : LayerManager → ℕ → Vector2D → LayerManager
move_relative m id pos_diff = elim (find_in id m.layers) [
  | none ↦ m
  | some l ↦ move m id (l.position +v pos_diff)
]

pub hide : LayerManager → ℕ → LayerManager
hide m id =
    let at = find (find_layer m id) m.stack in
    if ltb at (length m.stack) then record m { stack = remove_at at m.stack } else m

-- `UpDown`. The iterators are positions, `end` the length; after `erase` the position to insert at
-- is the same number.
pub up_down : LayerManager → ℕ → ℤ → LayerManager
up_down m id (negsuc _) = hide m id
up_down m id (pos new_height) =
    let height = if ltb (length m.stack) new_height then length m.stack else new_height in
    let layer = find_layer m id in
    let old_pos = find layer m.stack in
    let new_pos = if height == length m.stack then height - 1 else height in
    if old_pos == length m.stack
    then record m { stack = insert height layer m.stack }
    else record m { stack = insert new_pos layer (remove_at old_pos m.stack) }

-- `GetHeight`: the position in the stack, or -1.
pub get_height : LayerManager → ℕ → ℤ
get_height m id = let at = find id m.stack in if ltb at (length m.stack) then pos at else negsuc 0

-- The predicate of `FindLayerByPosition`. A pointer to no layer, which the code does not follow,
-- gives no.
pub is_at : LayerManager → Vector2D → (exclude_id layer : ℕ) → Bool
is_at m at exclude_id layer = elim (find_in layer m.layers) [
  | none ↦ false
  | some l ↦ elim l.window [
    | none ↦ false
    | some win ↦
        let win_end = l.position +v win.size in
        not (l.id == exclude_id)
        && (le l.position.x at.x && lt at.x win_end.x && le l.position.y at.y && le at.y win_end.y)
  ]
]

-- The search goes from the end: the last of the stack that the predicate holds for.
unfoldable pub find_last : (ℕ → Bool) → List ℕ → ℕ
find_last p [] = 0
find_last p (x ∷ xs) =
    let over = find_last p xs in if over == 0 then (if p x then x else 0) else over

pub find_layer_by_position : LayerManager → Vector2D → ℕ → ℕ
find_layer_by_position m at exclude_id = find_last (is_at m at exclude_id) m.stack

pub record ActiveLayer : Type 0 where
  pub active_layer : ℕ
  pub mouse_layer : ℕ

-- `Activate` and `Deactivate` of the window of a layer.
abbrev pub set_active : Bool → Layer → Layer
set_active active l = record l {
  window = elim l.window [ none ↦ none | some w ↦ some (record w { active = active }) ];
}

-- `ActiveLayer::Activate`, the two halves in order.
pub deactivate : ActiveLayer → LayerManager → LayerManager
deactivate a m =
    if ltb 0 a.active_layer then modify m (find_layer m a.active_layer) (set_active false) else m

pub raise : (mouse_layer id : ℕ) → LayerManager → LayerManager
raise mouse_layer id m =
    let m' = modify m (find_layer m id) (set_active true) in
    if ltb 0 id then up_down m' id (get_height m' mouse_layer -ℤ pos 1) else m

pub activate : ActiveLayer → LayerManager → ℕ → ActiveLayer × LayerManager
activate a m id =
    if a.active_layer == id
    then (a, m)
    else (record a { active_layer = id }, raise a.mouse_layer id (deactivate a m))
