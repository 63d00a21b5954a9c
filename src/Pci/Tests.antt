-- ===== src/Pci/Tests.antt =====
-- A bus with one bridge, which leads to itself (Kernel/pci.cpp): the scan ends on a full table.
use mikanos_copy.Common.{
  ℕ, ◌+◌, ◌*◌, ◌^◌, ◌≡◌, refl, Option, none, some, List, [], ◌∷◌, map, ◌==◌, if◌then◌else◌,
}
use mikanos_copy.Error.{Error}
use mikanos_copy.Pci.{
  Device, make_address, scan_all_bus, scan_bus, scan_devices, scan_device, scan_function,
  scan_functions, read_vendor_id, read_header_type, read_class_code, read_bus_numbers, add_device,
  read_conf_reg,
}
use mikanos_copy.Pci.Table.{Scanned}
use mikanos_copy.Pci.Scan.{HasAll, scan_all_bus-Scanned}
use mikanos_copy.Pci.Msi.{
  enable_header, configure_msi, find_capabilities, configure_msi_register, write_msi_capability,
  read_msi_capability,
}

-- Device 0 of bus 0 is a bridge, and its bus behind is 0. There is no other device.
abbrev looping : ℕ → ℕ
looping a =
    if a == 0x80000000
    then 0x12348086
    else if a == 0x80000008
    then 0x06040000
    else if a == 0x8000000c
    then 0
    else if a == 0x80000018
    then 0
    else 0xffffffff

-- Device 0 of bus 0 is a bridge to bus 1, which has one device.
abbrev bridged : ℕ → ℕ
bridged a =
    if a == 0x80000000
    then 0x12348086
    else if a == 0x80000008
    then 0x06040000
    else if a == 0x8000000c
    then 0
    else if a == 0x80000018
    then 0x100
    else if a == 0x80010000
    then 0x56788086
    else if a == 0x80010008
    then 0x01060000
    else if a == 0x8001000c
    then 0
    else 0xffffffff

scan_all_bus-Scanned_example : Scanned bridged (HasAll bridged) [] (scan_all_bus bridged)
scan_all_bus-Scanned_example = scan_all_bus-Scanned bridged

buses_of : Option (Error × List Device) → List ℕ
buses_of (some (err, devices)) = map (λ d. d.bus) devices
buses_of none = []

both_buses : buses_of (scan_all_bus bridged) ≡ 0 ∷ 1 ∷ []
unfolding buses_of scan_all_bus scan_bus scan_devices scan_device scan_function scan_functions
    read_vendor_id read_header_type read_class_code read_bus_numbers add_device make_address
both_buses = refl

abbrev error_of : Option (Error × List Device) → Error
error_of (some (err, devices)) = err
error_of none = Error.success

full : error_of (scan_all_bus looping) ≡ Error.full
unfolding scan_all_bus scan_bus scan_devices scan_device scan_function scan_functions read_vendor_id
    read_header_type read_class_code read_bus_numbers add_device make_address
full = refl

-- A device that can send four messages, of which two are wanted.
abbrev header : ℕ
header = 2 * 2 ^ 17 + 0x50 * 2 ^ 8 + 5

-- The header is followed to the capability at 0x50, and from there to the end.
abbrev one_capability : ℕ → ℕ
one_capability a = if a == 0x80000034 then 0x50 else if a == 0x80000050 then 2 * 2 ^ 17 + 5 else 0

abbrev device : Device
device = record {
  bus = 0;
  device = 0;
  function = 0;
  header_type = 0;
  class_code = record { base = 0; sub = 0; interface = 0 };
}

configured :
    configure_msi one_capability 3 device 0xfee00000 0x41 0
    ≡ some (
      Error.success,
      (0x80000050, 2 ^ 16 + 2 * 2 ^ 17 + 5) ∷ (0x80000054, 0xfee00000) ∷ (0x80000058, 0x41) ∷ [],
    )
unfolding configure_msi find_capabilities read_conf_reg make_address configure_msi_register
    write_msi_capability read_msi_capability enable_header
configured = refl
