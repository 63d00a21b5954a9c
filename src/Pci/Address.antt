-- ===== src/Pci/Address.antt =====
-- The address of a register in configuration space (Kernel/pci.cpp).
use Prim.Native.Nat.{bit_and}
use mikanos_copy.Common.{ℕ, ◌+◌, ◌*◌, ◌/◌, ◌%◌, ◌^◌, ◌<◌, ◌≡◌, refl, ◌∙◌, arith}
use mikanos_copy.Common.Masks.{bit_and-run, bit_or-add}
use mikanos_copy.Pci.{make_address, shl}

-- On numbers that fit their fields, the address is the sum of its parts; the last two bits of the
-- register's address are dropped.
make_address-eq :
    (bus device function reg_addr : ℕ)
    → bus < 2 ^ 8
    → device < 2 ^ 5
    → function < 2 ^ 3
    → reg_addr < 2 ^ 8
    → make_address bus device function reg_addr
      ≡ 2 ^ 31 + bus * 2 ^ 16 + device * 2 ^ 11 + function * 2 ^ 8 + reg_addr / 4 * 4
unfolding make_address
make_address-eq bus device function reg_addr b d f r =
    rw (bit_or-add 24 (shl 1 31) (shl bus 16) refl (omega (arith, b))) (
      rw
        (bit_or-add 16 (shl 1 31 + shl bus 16) (shl device 11) (omega (arith, b))
          (omega (arith, d)))
        (rw
          (bit_or-add 11 (shl 1 31 + shl bus 16 + shl device 11) (shl function 8)
            (omega (arith, b, d)) (omega (arith, f)))
          (bit_or-add 8 (shl 1 31 + shl bus 16 + shl device 11 + shl function 8)
              (bit_and reg_addr 0xfc) (omega (arith, b, d, f)) (omega (arith, mask, r))
            ∙ omega (arith, b, d, f, mask, r))))
  where
    mask : bit_and reg_addr 0xfc + reg_addr % 4 ≡ reg_addr % 256
    mask = bit_and-run 8 2 reg_addr (omega arith)

-- Two registers of one address are the same: no two functions share a register.
pub make_address_injective :
    (bus device function reg_addr bus' device' function' reg_addr' : ℕ)
    → bus < 2 ^ 8
    → device < 2 ^ 5
    → function < 2 ^ 3
    → reg_addr < 2 ^ 8
    → bus' < 2 ^ 8
    → device' < 2 ^ 5
    → function' < 2 ^ 3
    → reg_addr' < 2 ^ 8
    → make_address bus device function reg_addr ≡ make_address bus' device' function' reg_addr'
    → (bus ≡ bus') × (device ≡ device') × (function ≡ function') × (reg_addr / 4 ≡ reg_addr' / 4)
make_address_injective bus device function reg_addr bus' device' function' reg_addr' b d f r b' d'
      f' r' e =
    omega (
      arith,
      e,
      make_address-eq bus device function reg_addr b d f r,
      make_address-eq bus' device' function' reg_addr' b' d' f' r',
    )
