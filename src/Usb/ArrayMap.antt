-- ===== src/Usb/ArrayMap.antt =====
-- Kernel/usb/arraymap.hpp: a map in an array of slots. A slot without a key is free; its value is
-- what an earlier entry left.
pub mod Laws
mod Tests
use mikanos_copy.Common.{
  ℕ, Bool, true, false, Option, none, some, List, [], ◌∷◌, replicate, if◌then◌else◌,
}

abbrev pub Table : Type 0 → Type 0 → Type 0
Table K V = List (Option K × V)

-- `table_{}` of `size` slots, with the value that an empty slot starts with.
abbrev pub init : {K V : Type 0} → ℕ → V → Table K V
init size v = replicate size (none, v)

-- `opt_k && opt_k.value() == key`.
abbrev pub holds : {K : Type 0} → (K → K → Bool) → Option K → K → Bool
holds same none key = false
holds same (some k) key = same k key

module _ {K V : Type 0} (same : K → K → Bool) where
  unfoldable pub get : Table K V → K → Option V
  get [] key = none
  get (slot ∷ table) key = if holds same slot.0 key then some slot.1 else get table key

  -- A full table drops the entry.
  unfoldable pub put : Table K V → K → V → Table K V
  put [] key value = []
  put ((none, v) ∷ table) key value = (some key, value) ∷ table
  put ((some k, v) ∷ table) key value = (some k, v) ∷ put table key value

  unfoldable pub delete : Table K V → K → Table K V
  delete [] key = []
  delete (slot ∷ table) key =
      if holds same slot.0 key then (none, slot.1) ∷ table else slot ∷ delete table key
