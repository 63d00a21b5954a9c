-- ===== src/Pci/Msi.antt =====
-- Message signalled interrupts (Kernel/pci.hpp, Kernel/pci.cpp): the search for the capability, and
-- the registers that are written. A write is the address of the register and the value.
use Prim.Native.Nat.{bit_or}
use mikanos_copy.Common.{
  ℕ, zero, suc, ◌+◌, ◌*◌, ◌%◌, ◌^◌, ◌<◌, ◌≡◌, not, Option, none, some, List, [], ◌∷◌, ◌++◌, min,
  leb, ◌==◌, if◌then◌else◌, arith, Bool-cases, inl, inr,
}
use mikanos_copy.Common.Fields.{field, set_field}
use mikanos_copy.Error.{Error}
use mikanos_copy.Pci.{Device, read_conf_reg, make_address}

-- The fields of `CapabilityHeader`, and those that the header of an MSI capability has beside.
abbrev pub cap_id : ℕ → ℕ
cap_id header = field 0 8 header

abbrev pub next_ptr : ℕ → ℕ
next_ptr header = field 8 8 header

abbrev pub msi_enable : ℕ → ℕ
msi_enable header = field 16 1 header

abbrev pub multi_msg_capable : ℕ → ℕ
multi_msg_capable header = field 17 3 header

abbrev pub multi_msg_enable : ℕ → ℕ
multi_msg_enable header = field 20 3 header

abbrev pub addr_64_capable : ℕ → ℕ
addr_64_capable header = field 23 1 header

abbrev pub per_vector_mask_capable : ℕ → ℕ
per_vector_mask_capable header = field 24 1 header

abbrev pub capability_msi : ℕ
capability_msi = 0x05

abbrev pub capability_msix : ℕ
capability_msix = 0x11

pub record MsiCapability : Type 0 where
  pub header : ℕ
  pub msg_addr : ℕ
  pub msg_upper_addr : ℕ
  pub msg_data : ℕ
  pub mask_bits : ℕ
  pub pending_bits : ℕ

-- The addresses are of eight bits.
abbrev pub at : ℕ → ℕ → ℕ
at cap_addr offset = (cap_addr + offset) % 2 ^ 8

abbrev pub msg_data_addr : ℕ → ℕ → ℕ
msg_data_addr cap_addr header =
    if addr_64_capable header == 0 then at cap_addr 8 else at cap_addr 12

abbrev pub Writes : Type 0
Writes = List (ℕ × ℕ)

abbrev pub write_conf_reg : Device → ℕ → ℕ → ℕ × ℕ
write_conf_reg d reg_addr value = (make_address d.bus d.device d.function reg_addr, value)

unfoldable pub write_msi_capability : Device → ℕ → MsiCapability → Writes
write_msi_capability d cap_addr c =
    let upper : Writes =
      if addr_64_capable c.header == 0
      then []
      else write_conf_reg d (at cap_addr 8) c.msg_upper_addr ∷ [] in
    let masks : Writes =
      if per_vector_mask_capable c.header == 0
      then []
      else write_conf_reg d (at (msg_data_addr cap_addr c.header) 4) c.mask_bits
        ∷ write_conf_reg d (at (msg_data_addr cap_addr c.header) 8) c.pending_bits
        ∷ [] in
    write_conf_reg d cap_addr c.header
    ∷ write_conf_reg d (at cap_addr 4) c.msg_addr
    ∷ (upper ++ (write_conf_reg d (msg_data_addr cap_addr c.header) c.msg_data ∷ masks))

-- The header that is written: interrupts on, and as many messages as both sides can do.
unfoldable pub enable_header : ℕ → ℕ → ℕ
enable_header header num_vector_exponent = set_field 16 1 1 (
    set_field 20 3
      (if leb (multi_msg_capable header) num_vector_exponent
        then multi_msg_capable header
        else num_vector_exponent)
      header)

abbrev pub trigger_level : ℕ
trigger_level = 1

-- The address and the data of the message of `ConfigureMSIFixedDestination`.
pub fixed_msg_addr : ℕ → ℕ
fixed_msg_addr apic_id = bit_or 0xfee00000 (apic_id * 2 ^ 12)

pub fixed_msg_data : (trigger_mode delivery_mode vector : ℕ) → ℕ
fixed_msg_data trigger_mode delivery_mode vector =
    let msg_data = bit_or (delivery_mode * 2 ^ 8 % 2 ^ 32) vector in
    if trigger_mode == trigger_level then bit_or msg_data 0xc000 else msg_data

module _ (config : ℕ → ℕ) where
  unfoldable pub read_msi_capability : Device → ℕ → MsiCapability
  read_msi_capability d cap_addr =
      let header = read_conf_reg config d cap_addr in
      let data_addr = msg_data_addr cap_addr header in
      record {
        header = header;
        msg_addr = read_conf_reg config d (at cap_addr 4);
        msg_upper_addr =
            if addr_64_capable header == 0 then 0 else read_conf_reg config d (at cap_addr 8);
        msg_data = read_conf_reg config d data_addr;
        mask_bits =
            if per_vector_mask_capable header == 0
            then 0
            else read_conf_reg config d (at data_addr 4);
        pending_bits =
            if per_vector_mask_capable header == 0
            then 0
            else read_conf_reg config d (at data_addr 8);
      }

  unfoldable pub configure_msi_register :
      Device → (cap_addr msg_addr msg_data num_vector_exponent : ℕ) → Error × Writes
  configure_msi_register d cap_addr msg_addr msg_data num_vector_exponent =
      let c = read_msi_capability d cap_addr in
      (
        Error.success,
        write_msi_capability d cap_addr (record c {
          header = enable_header c.header num_vector_exponent;
          msg_addr = msg_addr;
          msg_data = msg_data;
        }),
      )

  pub configure_msix_register :
      Device → (cap_addr msg_addr msg_data num_vector_exponent : ℕ) → Error × Writes
  configure_msix_register d cap_addr msg_addr msg_data num_vector_exponent =
      (Error.not_implemented, [])

  -- The walk through the list of capabilities on fuel, with the last of each kind seen so far. A list
  -- with a cycle is walked for ever.
  unfoldable pub find_capabilities : (fuel : ℕ) → Device → (cap_addr msi msix : ℕ) → Option (ℕ × ℕ)
  find_capabilities zero d cap_addr msi msix = none
  find_capabilities (suc fuel) d cap_addr msi msix =
      let header = read_conf_reg config d cap_addr in
      let msi' = if cap_id header == capability_msi then cap_addr else msi in
      let msix' =
        if cap_id header == capability_msi
        then msix
        else if cap_id header == capability_msix
        then cap_addr
        else msix in
      let rest = find_capabilities fuel d (next_ptr header) msi' msix' in
      if cap_addr == 0 then some (msi, msix) else rest

  unfoldable pub configure_msi :
      (fuel : ℕ) → Device → (msg_addr msg_data num_vector_exponent : ℕ) → Option (Error × Writes)
  configure_msi fuel d msg_addr msg_data num_vector_exponent =
      elim (find_capabilities fuel d (field 0 8 (read_conf_reg config d 0x34)) 0 0) [
        | none ↦ none
        | some (msi, msix) ↦ some (
            if not (msi == 0)
            then configure_msi_register d msi msg_addr msg_data num_vector_exponent
            else if not (msix == 0)
            then configure_msix_register d msix msg_addr msg_data num_vector_exponent
            else (Error.no_pci_msi, []))
      ]

  pub configure_msi_fixed_destination :
      (fuel : ℕ)
      → Device
      → (apic_id trigger_mode delivery_mode vector num_vector_exponent : ℕ)
      → Option (Error × Writes)
  configure_msi_fixed_destination fuel d apic_id trigger_mode delivery_mode vector
        num_vector_exponent =
      configure_msi fuel d (fixed_msg_addr apic_id)
        (fixed_msg_data trigger_mode delivery_mode vector) num_vector_exponent

-- The header that is written turns interrupts on, asks for at most as many messages as the device can
-- send and as are wanted, and keeps the other fields.
pub enable_header_lem :
    (header num_vector_exponent : ℕ)
    → num_vector_exponent < 8
    → (msi_enable (enable_header header num_vector_exponent) ≡ 1)
      × (multi_msg_enable (enable_header header num_vector_exponent)
          ≡ min (multi_msg_capable header) num_vector_exponent)
      × (multi_msg_capable (enable_header header num_vector_exponent) ≡ multi_msg_capable header)
      × (cap_id (enable_header header num_vector_exponent) ≡ cap_id header)
      × (next_ptr (enable_header header num_vector_exponent) ≡ next_ptr header)
      × (addr_64_capable (enable_header header num_vector_exponent) ≡ addr_64_capable header)
unfolding enable_header
enable_header_lem header n h = elim (Bool-cases (leb (multi_msg_capable header) n)) [
  | inl e ↦ rw e (ground (arith, e))
  | inr e ↦ rw e (ground (arith, e, h))
]
