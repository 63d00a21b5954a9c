-- ===== src/Layer/Tests.antt =====
-- Three layers, the last of them the mouse's (Kernel/layer.cpp).
use mikanos_copy.Common.{◌≡◌, refl, false, some, [], ◌∷◌, arith}
use mikanos_copy.Common.Int.{pos, ◌+ℤ◌, ◌-ℤ◌, le, sub_nat}
use mikanos_copy.Graphics.{Vector2D}
use mikanos_copy.Layer.{
  LayerManager, ActiveLayer, init, new_layer, find_in, update_in, find_layer, up_down, get_height,
  activate, deactivate, raise, modify, set_window, is_at, find_last, find_layer_by_position,
}
use mikanos_copy.Layer.Stack.{count, find, insert, remove_at}
use mikanos_copy.Layer.Height.{IsOrdered, Placed, up_down-Placed, top}
use mikanos_copy.Layer.Search.{IsTopmostUnder, find_layer_by_position_lem}
use mikanos_copy.Layer.Active.{Raised, activate-Raised}

-- Layers 1, 2 and 3, from the lowest to the highest.
abbrev three : LayerManager
three = record (new_layer (new_layer (new_layer init).1).1).1 { stack = 1 ∷ 2 ∷ 3 ∷ [] }

count_three : IsOrdered three
unfolding count
count_three layer = ground arith

up_down-Placed_example : Placed three 1 2 (up_down three 1 (pos 7))
unfolding new_layer find_layer find_in top find
up_down-Placed_example = up_down-Placed three 1 7 count_three refl

abbrev active : ActiveLayer
active = record { active_layer = 2; mouse_layer = 3 }

activate-Raised_example :
    ((activate active three 1).0.active_layer ≡ 1) × Raised 1 3 2 three (activate active three 1).1
unfolding new_layer find_layer find_in get_height find
activate-Raised_example =
    activate-Raised active three 1 0 2 count_three (omega arith) (omega arith) (omega arith) refl
      refl refl (omega arith)

raised : (activate active three 1).1.stack ≡ 2 ∷ 1 ∷ 3 ∷ []
unfolding activate deactivate raise modify new_layer find_layer find_in update_in get_height up_down
    find insert remove_at ◌-ℤ◌ sub_nat
raised = refl

-- A window of 10 by 5 on layer 2.
abbrev windowed : LayerManager
windowed =
    modify three 2
      (set_window (some (record { size = record { x = pos 10; y = pos 5 }; active = false })))

abbrev below_it : Vector2D
below_it = record { x = pos 9; y = pos 5 }

find_layer_by_position_lem_example :
    IsTopmostUnder windowed below_it 3 windowed.stack (find_layer_by_position windowed below_it 3)
unfolding modify count
find_layer_by_position_lem_example = find_layer_by_position_lem windowed below_it 3 refl

-- The row under the window's last one is taken for a part of it.
row_under : find_layer_by_position windowed below_it 3 ≡ 2
unfolding new_layer modify find_layer_by_position find_last is_at find_in update_in le ◌+ℤ◌
row_under = refl
