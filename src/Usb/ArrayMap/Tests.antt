-- ===== src/Usb/ArrayMap/Tests.antt =====
-- A map of three slots with numbers as keys (Kernel/usb/arraymap.hpp).
use mikanos_copy.Common.{ℕ, ◌≡◌, refl, some, none, [], ◌∷◌, ◌==◌}
use mikanos_copy.Usb.ArrayMap.{Table, get, put}

abbrev table : Table ℕ ℕ
table = (some 5, 50) ∷ (none, 0) ∷ (some 7, 70) ∷ []

-- A key that is put twice keeps its first slot, and comes back with the old value.
twice : get ◌==◌ (put ◌==◌ table 5 55) 5 ≡ some 50
unfolding get put
twice = refl
