-- ===== src/Common/Fields.antt =====
-- The bit fields of a packed structure: `width` bits from bit `lo` on.
use Prim.Native.Nat.{ℕ, ◌+◌, ◌*◌, ◌/◌, ◌%◌, ◌^◌}

abbrev pub field : (lo width x : ℕ) → ℕ
field lo width x = x / 2 ^ lo % 2 ^ width

-- A value that is too wide loses its upper bits.
abbrev pub set_field : (lo width v x : ℕ) → ℕ
set_field lo width v x =
    x / 2 ^ (lo + width) * 2 ^ (lo + width) + v % 2 ^ width * 2 ^ lo + x % 2 ^ lo
