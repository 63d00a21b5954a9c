-- ===== src/Usb/Setup.antt =====
-- The fields of a USB device and of its drivers (Kernel/usb/device.hpp, Kernel/usb/classdriver/hid.hpp),
-- the set-up data of a transfer (Kernel/usb/setupdata.hpp), and the transfers that a device asks for.
use mikanos_copy.Common.{ℕ, ◌+◌, ◌*◌, Bool, List, ◌∷◌, ◌==◌, ◌&&◌, if◌then◌else◌}
use mikanos_copy.Error.{Error}
use mikanos_copy.Usb.ArrayMap
use mikanos_copy.Usb.ArrayMap.{Table}
use mikanos_copy.Usb.Descriptor.{EndpointConfig}

-- `request_type` is its byte.
pub record SetupData : Type 0 where
  pub request_type : ℕ
  pub request : ℕ
  pub value : ℕ
  pub index : ℕ
  pub length : ℕ

abbrev pub same_setup : SetupData → SetupData → Bool
same_setup lhs rhs =
    lhs.request_type == rhs.request_type
    && lhs.request == rhs.request
    && lhs.value == rhs.value
    && lhs.index == rhs.index
    && lhs.length == rhs.length

-- The byte of a request type: recipient, type and direction.
abbrev pub request_type_of : (recipient kind direction : ℕ) → ℕ
request_type_of recipient kind direction = recipient + 32 * kind + 128 * direction

abbrev pub get_descriptor_request : ℕ
get_descriptor_request = 6

abbrev pub set_configuration_request : ℕ
set_configuration_request = 9

abbrev pub set_protocol_request : ℕ
set_protocol_request = 11

pub data Kind : Type 0 where
  keyboard mouse : Kind

abbrev pub packet_size : Kind → ℕ
packet_size keyboard = 8
packet_size mouse = 3

-- `HIDBaseDriver`, without the buffers.
pub record HidDriver : Type 0 where
  pub kind : Kind
  pub interface_index : ℕ
  pub in_packet_size : ℕ
  pub ep_interrupt_in : ℕ
  pub ep_interrupt_out : ℕ
  pub hid_phase : ℕ

abbrev pub new_hid : Kind → ℕ → HidDriver
new_hid kind interface_index = record {
  kind = kind;
  interface_index = interface_index;
  in_packet_size = packet_size kind;
  ep_interrupt_in = 0;
  ep_interrupt_out = 0;
  hid_phase = 0;
}

pub data Transfer : Type 0 where
  control_in_transfer control_out_transfer : SetupData → Transfer
  interrupt_in_transfer : (ep_id len : ℕ) → Transfer

-- The newest transfer comes first. Driver `n` is `driver n`, for n from 1 to `num_drivers`.
pub record Device : Type 0 where
  pub class_drivers : ℕ → ℕ
  pub num_configurations : ℕ
  pub config_index : ℕ
  pub is_initialized : Bool
  pub initialize_phase : ℕ
  pub ep_configs : ℕ → EndpointConfig
  pub num_ep_configs : ℕ
  pub event_waiters : Table SetupData ℕ
  pub driver : ℕ → HidDriver
  pub num_drivers : ℕ
  pub transfers : List Transfer

abbrev pub set_driver : Device → ℕ → HidDriver → Device
set_driver d n h = record d { driver = λ k. if k == n then h else d.driver k }

-- `ControlIn` and `ControlOut`, with the issuer or 0.
abbrev pub wait_for : Device → SetupData → ℕ → Device
wait_for d setup_data issuer =
    if issuer == 0
    then d
    else record d { event_waiters = ArrayMap.put same_setup d.event_waiters setup_data issuer }

abbrev pub control_in : SetupData → ℕ → Device → Error × Device
control_in setup_data issuer d = (
  Error.success,
  record (wait_for d setup_data issuer) {
    transfers = control_in_transfer setup_data ∷ d.transfers;
  },
)

abbrev pub control_out : SetupData → ℕ → Device → Error × Device
control_out setup_data issuer d = (
  Error.success,
  record (wait_for d setup_data issuer) {
    transfers = control_out_transfer setup_data ∷ d.transfers;
  },
)

abbrev pub interrupt_in : (ep_id len : ℕ) → Device → Error × Device
interrupt_in ep_id len d =
    (Error.success, record d { transfers = interrupt_in_transfer ep_id len ∷ d.transfers })

-- The set-up data of `GetDescriptor` and `SetConfiguration`.
abbrev pub get_descriptor_setup : (desc_type desc_index len : ℕ) → SetupData
get_descriptor_setup desc_type desc_index len = record {
  request_type = request_type_of 0 0 1;
  request = get_descriptor_request;
  value = 256 * desc_type + desc_index;
  index = 0;
  length = len;
}

abbrev pub set_configuration_setup : ℕ → SetupData
set_configuration_setup config_value = record {
  request_type = request_type_of 0 0 0;
  request = set_configuration_request;
  value = config_value;
  index = 0;
  length = 0;
}

-- That of a driver's request for the boot protocol.
abbrev pub set_protocol_setup : ℕ → SetupData
set_protocol_setup interface_index = record {
  request_type = request_type_of 1 1 0;
  request = set_protocol_request;
  value = 0;
  index = interface_index;
  length = 0;
}

abbrev pub get_descriptor : (desc_type desc_index len : ℕ) → Device → Error × Device
get_descriptor desc_type desc_index len =
    control_in (get_descriptor_setup desc_type desc_index len) 0

abbrev pub set_configuration : ℕ → Device → Error × Device
set_configuration config_value = control_out (set_configuration_setup config_value) 0
