-- ===== src/Usb/Hid/Tests.antt =====
-- A keyboard that sends that A (4) is pressed, then B (5) too, then that both are released.
use mikanos_copy.Common.{ℕ, ◌≡◌, refl, List, [], ◌∷◌, ◌++◌, get_or}
use mikanos_copy.Usb.Hid.{init, find_key, notify_key_push}
use mikanos_copy.Usb.Hid.Keys.{typed, tell, pressed, packets_received, keyboard_packets}

abbrev keeper : ℕ → ℕ → List ℕ → List ℕ
keeper modifier key keys = keys ++ key ∷ []

abbrev sent : List (ℕ → ℕ)
sent = (λ i. get_or (0 ∷ 0 ∷ 4 ∷ []) i 0) ∷ (λ i. get_or (0 ∷ 0 ∷ 4 ∷ 5 ∷ []) i 0) ∷ (λ i. 0) ∷ []

keyboard_packets_example :
    ((packets_received (keeper ∷ []) 3 sent init []).1 ≡ typed (keeper ∷ []) (λ i. 0) sent [])
    × ((packets_received (keeper ∷ []) 3 sent init []).0.asked ≡ 4)
keyboard_packets_example = keyboard_packets (keeper ∷ []) 3 refl sent []

keys_once : typed (keeper ∷ []) (λ i. 0) sent [] ≡ 4 ∷ 5 ∷ []
unfolding typed tell pressed find_key notify_key_push
keys_once = refl
