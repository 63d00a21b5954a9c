-- ===== src/Usb/Device.antt =====
-- How a USB device is initialised: Kernel/usb/device.cpp and Kernel/usb/classdriver/hid.cpp, with
-- Kernel/usb/setupdata.hpp. The transfers that the methods ask for are kept in a list; what the
-- controller's device does with one is not modelled, and it succeeds. A driver is its number, 0 is
-- `nullptr`, and the pool that drivers come from does not run out.
pub mod Chain
pub mod Reading
pub mod Endpoints
pub mod Phases
pub mod Starting
pub mod Stuck
pub mod Polling
mod Tests
use mikanos_copy.Common.{
  ℕ, zero, suc, ◌+◌, ◌*◌, ◌/◌, ◌%◌, Bool, true, false, not, Option, none, some, List, [], ◌∷◌, ltb,
  ◌==◌, ◌&&◌, if◌then◌else◌,
}
use mikanos_copy.Error.{Error, is_error}
use mikanos_copy.Usb.ArrayMap
use mikanos_copy.Usb.ArrayMap.{Table}
use mikanos_copy.Usb.Descriptor.{
  Memory, device_type, configuration_type, endpoint_type, has_type, num_configurations_of,
  configuration_value, interface_number, num_endpoints, interface_class, interface_sub_class,
  interface_protocol, number_of, is_in, interrupt_endpoint, EndpointConfig, make_ep_config, next,
  next_interface,
}
use mikanos_copy.Usb.Setup.{
  SetupData, same_setup, request_type_of, get_descriptor_request, set_configuration_request,
  set_protocol_request, Kind, packet_size, HidDriver, new_hid, Transfer, Device, set_driver,
  wait_for, control_in, control_out, interrupt_in, get_descriptor_setup, set_configuration_setup,
  get_descriptor, set_configuration, set_protocol_setup, keyboard, mouse,
}

-- The size of `buf_`.
abbrev pub buffer_size : ℕ
buffer_size = 256

unfoldable pub start_initialize : Device → Error × Device
start_initialize d =
    get_descriptor device_type 0 buffer_size
      (record d { is_initialized = false; initialize_phase = 1 })

unfoldable pub initialize_phase1 : Memory → (buf : ℕ) → Device → Error × Device
initialize_phase1 mem buf d = get_descriptor configuration_type 0 buffer_size (record d {
  num_configurations = num_configurations_of mem buf;
  config_index = 0;
  initialize_phase = 2;
})

abbrev pub add_driver : HidDriver → Device → ℕ × Device
add_driver h d = (
  suc d.num_drivers,
  record (set_driver d (suc d.num_drivers) h) { num_drivers = suc d.num_drivers },
)

-- Which driver an interface gets.
unfoldable pub kind_of : Memory → ℕ → Option Kind
kind_of mem if_desc =
    if (interface_class mem if_desc == 3) && (interface_sub_class mem if_desc == 1)
    then (if interface_protocol mem if_desc == 1
        then some keyboard
        else if interface_protocol mem if_desc == 2
        then some mouse
        else none)
    else none

unfoldable pub new_class_driver : Memory → ℕ → Device → ℕ × Device
new_class_driver mem if_desc d = elim (kind_of mem if_desc) [
  | none ↦ (0, d)
  | some kind ↦ add_driver (new_hid kind (interface_number mem if_desc)) d
]

unfoldable pub add_endpoint : ℕ → EndpointConfig → Device → Device
add_endpoint class_driver conf d = record d {
  ep_configs = λ i. if i == d.num_ep_configs then conf else d.ep_configs i;
  num_ep_configs = suc d.num_ep_configs;
  class_drivers = λ n. if n == number_of conf.ep_id then class_driver else d.class_drivers n;
}

-- The loop over the endpoints of an interface; `none` is a loop out of rounds.
unfoldable pub read_endpoints :
    Memory → (end num class_driver rounds p : ℕ) → Device → Option Device
read_endpoints mem end num class_driver zero p d = none
read_endpoints mem end num class_driver (suc rounds) p d =
    let (desc, q) = next mem end p in
    let after =
      if has_type mem endpoint_type desc
      then add_endpoint class_driver (make_ep_config mem desc) d
      else d in
    let rest = read_endpoints mem end num class_driver rounds q after in
    if ltb d.num_ep_configs num then rest else some d

abbrev pub with_driver : ℕ → Option Device → Option (ℕ × Device)
with_driver class_driver none = none
with_driver class_driver (some d) = some (class_driver, d)

-- The loop over the interfaces, with the last value of `class_driver`.
unfoldable pub read_interfaces : Memory → (end fuel rounds p : ℕ) → Device → Option (ℕ × Device)
read_interfaces mem end fuel zero p d = none
read_interfaces mem end fuel (suc rounds) p d = elim (next_interface mem end fuel p) [
  | none ↦ none
  | some (if_desc, q) ↦
      let (class_driver, made) = new_class_driver mem if_desc d in
      let rest = read_interfaces mem end fuel rounds q made in
      let found = with_driver class_driver (
        read_endpoints mem end (num_endpoints mem if_desc) class_driver fuel q
          (record made { num_ep_configs = 0 })) in
      if if_desc == 0 then some (0, d) else if class_driver == 0 then rest else found
]

unfoldable pub initialize_phase2 : Memory → (fuel buf len : ℕ) → Device → Option (Error × Device)
initialize_phase2 mem fuel buf len d =
    if not (has_type mem configuration_type buf)
    then some (Error.invalid_descriptor, d)
    else elim (read_interfaces mem (buf + len) fuel fuel buf d) [
      | none ↦ none
      | some (class_driver, read) ↦ some (
          if class_driver == 0
          then (Error.success, read)
          else set_configuration (configuration_value mem buf)
              (record read { initialize_phase = 3 }))
    ]

unfoldable pub set_endpoint : EndpointConfig → HidDriver → HidDriver
set_endpoint config h =
    if (config.ep_type == interrupt_endpoint) && is_in config.ep_id
    then record h { ep_interrupt_in = config.ep_id }
    else if (config.ep_type == interrupt_endpoint) && not (is_in config.ep_id)
    then record h { ep_interrupt_out = config.ep_id }
    else h

-- The loop of `InitializePhase3`.
unfoldable pub set_endpoints : (rounds i : ℕ) → Device → Device
set_endpoints zero i d = d
set_endpoints (suc rounds) i d =
    let config = d.ep_configs i in
    let n = d.class_drivers (number_of config.ep_id) in
    set_endpoints rounds (suc i) (set_driver d n (set_endpoint config (d.driver n)))

unfoldable pub initialize_phase3 : Device → Error × Device
initialize_phase3 d = (
  Error.success,
  record (set_endpoints d.num_ep_configs 0 d) { initialize_phase = 4; is_initialized = true },
)

-- `OnEndpointsConfigured` of a driver.
unfoldable pub on_hid_configured : ℕ → Device → Error × Device
on_hid_configured n d =
    control_out (set_protocol_setup (d.driver n).interface_index) n
      (set_driver d n (record (d.driver n) { hid_phase = 1 }))

-- `OnEndpointsConfigured` of the device, from class driver `i` on.
unfoldable pub on_endpoints_configured : (rounds i : ℕ) → Device → Error × Device
on_endpoints_configured zero i d = (Error.success, d)
on_endpoints_configured (suc rounds) i d =
    let (err, next) = on_hid_configured (d.class_drivers i) d in
    let skip = on_endpoints_configured rounds (suc i) d in
    let rest = on_endpoints_configured rounds (suc i) next in
    if d.class_drivers i == 0 then skip else if is_error err then (err, next) else rest

-- `OnControlCompleted` of a driver.
unfoldable pub on_hid_control_completed : ℕ → Device → Error × Device
on_hid_control_completed n d =
    if (d.driver n).hid_phase == 1
    then interrupt_in (d.driver n).ep_interrupt_in (d.driver n).in_packet_size
        (set_driver d n (record (d.driver n) { hid_phase = 2 }))
    else (Error.not_implemented, d)

-- `OnControlCompleted` of the device, with fuel for the loops of the second phase.
unfoldable pub on_control_completed :
    Memory → (fuel : ℕ) → SetupData → (buf len : ℕ) → Device → Option (Error × Device)
on_control_completed mem fuel setup_data buf len d =
    if d.is_initialized
    then elim (ArrayMap.get same_setup d.event_waiters setup_data) [
      | none ↦ some (Error.no_waiter, d)
      | some w ↦ some (on_hid_control_completed w d)
    ]
    else if d.initialize_phase == 1
    then (if (setup_data.request == get_descriptor_request) && has_type mem device_type buf
        then some (initialize_phase1 mem buf d)
        else some (Error.invalid_phase, d))
    else if d.initialize_phase == 2
    then (if (setup_data.request == get_descriptor_request) && has_type mem configuration_type buf
        then initialize_phase2 mem fuel buf len d
        else some (Error.invalid_phase, d))
    else if d.initialize_phase == 3
    then (if setup_data.request == set_configuration_request
        then some (initialize_phase3 d)
        else some (Error.invalid_phase, d))
    else some (Error.not_implemented, d)
