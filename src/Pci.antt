-- ===== src/Pci.antt =====
-- Kernel/pci.hpp and Kernel/pci.cpp: the addresses of PCI configuration space, the scan of the buses,
-- base addresses, and the set-up of message signalled interrupts. The devices are a parameter:
-- `config a` is what `ReadData` gives when the address register holds `a`.
pub mod Address
pub mod Table
pub mod Scan
pub mod Msi
mod Tests
use Prim.Native.Nat.{bit_and, bit_or}
use mikanos_copy.Common.{
  ℕ, zero, suc, ◌+◌, ◌*◌, ◌%◌, ◌^◌, Bool, true, false, not, ◌&&◌, Option, none, some, List, [], ◌∷◌,
  ◌++◌, length, leb, ◌==◌, if◌then◌else◌,
}
use mikanos_copy.Common.Fields.{field}
use mikanos_copy.Error.{Error, WithError, is_error}

-- `shl`, on 32 bits.
abbrev pub shl : ℕ → ℕ → ℕ
shl x bits = x * 2 ^ bits % 2 ^ 32

-- The enable bit, and the place of a register.
pub make_address : (bus device function reg_addr : ℕ) → ℕ
make_address bus device function reg_addr =
    bit_or (bit_or (bit_or (bit_or (shl 1 31) (shl bus 16)) (shl device 11)) (shl function 8))
      (bit_and reg_addr 0xfc)

pub record ClassCode : Type 0 where
  pub base : ℕ
  pub sub : ℕ
  pub interface : ℕ

-- `Match` with two arguments.
abbrev pub match_class : ClassCode → ℕ → ℕ → Bool
match_class c b s = b == c.base && s == c.sub

pub record Device : Type 0 where
  pub bus : ℕ
  pub device : ℕ
  pub function : ℕ
  pub header_type : ℕ
  pub class_code : ClassCode

-- The size of the array `devices`. The list of devices stands for the array and `num_device`.
abbrev pub max_devices : ℕ
max_devices = 32

pub add_device : List Device → Device → Error × List Device
add_device devices d =
    if length devices == max_devices
    then (Error.full, devices)
    else (Error.success, devices ++ d ∷ [])

abbrev pub is_single_function_device : ℕ → Bool
is_single_function_device header_type = bit_and header_type 0x80 == 0

-- What a scan gives: an error and the devices found so far. `none` is a scan out of fuel.
abbrev pub Scanning : Type 0
Scanning = Option (Error × List Device)

-- `if(auto err = ...) return err;` before the rest.
abbrev pub and_then : Scanning → (List Device → Scanning) → Scanning
and_then none k = none
and_then (some (err, devices)) k = if is_error err then some (err, devices) else k devices

abbrev pub calc_bar_address : ℕ → ℕ
calc_bar_address bar_index = (0x10 + 4 * bar_index) % 2 ^ 8

module _ (config : ℕ → ℕ) where
  pub read_vendor_id : (bus device function : ℕ) → ℕ
  read_vendor_id bus device function = field 0 16 (config (make_address bus device function 0x00))

  pub read_device_id : (bus device function : ℕ) → ℕ
  read_device_id bus device function = field 16 16 (config (make_address bus device function 0x00))

  pub read_header_type : (bus device function : ℕ) → ℕ
  read_header_type bus device function = field 16 8 (config (make_address bus device function 0x0c))

  pub read_class_code : (bus device function : ℕ) → ClassCode
  read_class_code bus device function =
      let reg = config (make_address bus device function 0x08) in
      record { base = field 24 8 reg; sub = field 16 8 reg; interface = field 8 8 reg }

  pub read_bus_numbers : (bus device function : ℕ) → ℕ
  read_bus_numbers bus device function = config (make_address bus device function 0x18)

  pub read_conf_reg : Device → ℕ → ℕ
  read_conf_reg d reg_addr = config (make_address d.bus d.device d.function reg_addr)

  -- The scans, with the scan of a further bus as an argument.
  module _ (scan : ℕ → List Device → Scanning) where
    pub scan_function : (bus device function : ℕ) → List Device → Scanning
    scan_function bus device function devices =
        let class_code = read_class_code bus device function in
        let header_type = read_header_type bus device function in
        let d : Device = record {
          bus = bus;
          device = device;
          function = function;
          header_type = header_type;
          class_code = class_code;
        } in
        and_then (some (add_device devices d)) λ devices'.
          if match_class class_code 0x06 0x04
          then scan (field 8 8 (read_bus_numbers bus device function)) devices'
          else some (Error.success, devices')

    -- The loop over the functions from one on, with the rounds that are left.
    pub scan_functions : (bus device : ℕ) → (rounds function : ℕ) → List Device → Scanning
    scan_functions bus device zero function devices = some (Error.success, devices)
    scan_functions bus device (suc rounds) function devices =
        and_then
          (if read_vendor_id bus device function == 0xffff
            then some (Error.success, devices)
            else scan_function bus device function devices)
          λ devices'. scan_functions bus device rounds (suc function) devices'

    pub scan_device : (bus device : ℕ) → List Device → Scanning
    scan_device bus device devices = and_then (scan_function bus device 0 devices) λ devices'.
        if is_single_function_device (read_header_type bus device 0)
        then some (Error.success, devices')
        else scan_functions bus device 7 1 devices'

    pub scan_devices : (bus : ℕ) → (rounds device : ℕ) → List Device → Scanning
    scan_devices bus zero device devices = some (Error.success, devices)
    scan_devices bus (suc rounds) device devices =
        and_then
          (if read_vendor_id bus device 0 == 0xffff
            then some (Error.success, devices)
            else scan_device bus device devices)
          λ devices'. scan_devices bus rounds (suc device) devices'

  -- `ScanBus` on fuel, one unit for each bus behind another.
  pub scan_bus : (fuel : ℕ) → ℕ → List Device → Scanning
  scan_bus zero bus devices = none
  scan_bus (suc fuel) bus devices = scan_devices (scan_bus fuel) bus 32 0 devices

  -- The loop of `ScanAllBus` over the host bridges.
  pub scan_hosts : (fuel rounds function : ℕ) → List Device → Scanning
  scan_hosts fuel zero function devices = some (Error.success, devices)
  scan_hosts fuel (suc rounds) function devices =
      and_then
        (if read_vendor_id 0 0 function == 0xffff
          then some (Error.success, devices)
          else scan_bus fuel function devices)
        λ devices'. scan_hosts fuel rounds (suc function) devices'

  -- One unit of fuel for each device that the table can take, and one more.
  pub scan_all_bus : Scanning
  scan_all_bus =
      if is_single_function_device (read_header_type 0 0 0)
      then scan_bus (max_devices + 1) 0 []
      else scan_hosts (max_devices + 1) 8 0 []

  pub read_bar : Device → ℕ → WithError ℕ
  read_bar d bar_index =
      let addr = calc_bar_address bar_index in
      let bar = read_conf_reg d addr in
      let bar_upper = read_conf_reg d ((addr + 4) % 2 ^ 8) in
      if leb 6 bar_index
      then record { value = 0; error = Error.index_out_of_range }
      else if bit_and bar 4 == 0
      then record { value = bar; error = Error.success }
      else if leb 5 bar_index
      then record { value = 0; error = Error.index_out_of_range }
      else record { value = bit_or bar (bar_upper * 2 ^ 32); error = Error.success }
