-- ===== src/Usb/Descriptor.antt =====
-- The descriptors that a USB device answers with (Kernel/usb/descriptor.hpp) and the reader of
-- Kernel/usb/device.cpp. A pointer is an address, 0 is `nullptr`; a byte of memory is below 256.
use mikanos_copy.Common.{
  ℕ, zero, suc, ◌+◌, ◌*◌, ◌/◌, ◌%◌, Bool, Option, none, some, ltb, ◌==◌, if◌then◌else◌,
}

abbrev pub Memory : Type 0
Memory = ℕ → ℕ

-- `kType` of the descriptors.
abbrev pub device_type : ℕ
device_type = 1

abbrev pub configuration_type : ℕ
configuration_type = 2

abbrev pub interface_type : ℕ
interface_type = 4

abbrev pub endpoint_type : ℕ
endpoint_type = 5

-- `DescriptorDynamicCast<T>(desc) != nullptr`.
abbrev pub has_type : Memory → ℕ → ℕ → Bool
has_type mem kind desc = mem (desc + 1) == kind

abbrev pub num_configurations_of : Memory → ℕ → ℕ
num_configurations_of mem desc = mem (desc + 17)

abbrev pub configuration_value : Memory → ℕ → ℕ
configuration_value mem desc = mem (desc + 5)

abbrev pub interface_number : Memory → ℕ → ℕ
interface_number mem desc = mem (desc + 2)

abbrev pub num_endpoints : Memory → ℕ → ℕ
num_endpoints mem desc = mem (desc + 4)

abbrev pub interface_class : Memory → ℕ → ℕ
interface_class mem desc = mem (desc + 5)

abbrev pub interface_sub_class : Memory → ℕ → ℕ
interface_sub_class mem desc = mem (desc + 6)

abbrev pub interface_protocol : Memory → ℕ → ℕ
interface_protocol mem desc = mem (desc + 7)

-- `EndpointID`, by its address: the number times two, and 1 for the direction in.
abbrev pub endpoint_id : (ep_num : ℕ) (dir_in : Bool) → ℕ
endpoint_id ep_num dir_in = ep_num * 2 + (if dir_in then 1 else 0)

abbrev pub number_of : ℕ → ℕ
number_of ep_id = ep_id / 2

abbrev pub is_in : ℕ → Bool
is_in ep_id = ep_id % 2 == 1

abbrev pub interrupt_endpoint : ℕ
interrupt_endpoint = 3

pub record EndpointConfig : Type 0 where
  pub ep_id : ℕ
  pub ep_type : ℕ
  pub max_packet_size : ℕ
  pub interval : ℕ

abbrev pub make_ep_config : Memory → ℕ → EndpointConfig
make_ep_config mem desc = record {
  ep_id = endpoint_id (mem (desc + 2) % 16) (mem (desc + 2) / 128 % 2 == 1);
  ep_type = mem (desc + 3) % 4;
  max_packet_size = mem (desc + 4) + 256 * mem (desc + 5);
  interval = mem (desc + 6);
}

-- `Next`: the descriptor behind the one at `p`, and the new `p_`.
unfoldable pub next : Memory → (end p : ℕ) → ℕ × ℕ
next mem end p = (if ltb (p + mem p) end then p + mem p else 0, p + mem p)

-- `Next<InterfaceDescriptor>`; `none` is a loop out of rounds.
unfoldable pub next_interface : Memory → (end rounds p : ℕ) → Option (ℕ × ℕ)
next_interface mem end zero p = none
next_interface mem end (suc rounds) p =
    let (desc, q) = next mem end p in
    let rest = next_interface mem end rounds q in
    if desc == 0
    then some (0, q)
    else if has_type mem interface_type desc
    then some (desc, q)
    else rest
