-- ===== src/Usb/Xhci.antt =====
-- The events of Kernel/usb/xhci/xhci.cpp: how far each port of the root hub is configured, and which
-- one is given its address. The registers of the ports and the device contexts are written by the
-- controller: `Hardware` is what is read from them while an event is handled.
pub mod Phase
pub mod Addressing
pub mod Events
pub mod Starved
mod Tests
use mikanos_copy.Common.{
  ℕ, zero, suc, ◌+◌, Bool, true, false, not, ◌&&◌, ◌||◌, List, [], ◌∷◌, ◌++◌, ltb, leb, ◌==◌,
  if◌then◌else◌,
}
use mikanos_copy.Error.{Error, is_error}

pub data ConfigPhase : Type 0 where
  not_connected waiting_addressed resetting_port enabling_slot : ConfigPhase
  addressing_device initializing_device configuring_endpoints configured : ConfigPhase

-- The value of the enumeration, for tests.
abbrev pub code : ConfigPhase → ℕ
code not_connected = 0
code waiting_addressed = 1
code resetting_port = 2
code enabling_slot = 3
code addressing_device = 4
code initializing_device = 5
code configuring_endpoints = 6
code configured = 7

-- `IsConnected`, `IsEnabled`, `IsPortResetChanged` and `Speed` of a port.
pub record Port : Type 0 where
  pub is_connected : Bool
  pub is_enabled : Bool
  pub is_port_reset_changed : Bool
  pub speed : ℕ

-- The ports, and the port number in the device context of each slot.
pub record Hardware : Type 0 where
  pub port_at : ℕ → Port
  pub root_hub_port_num : ℕ → ℕ

pub data Command : Type 0 where
  enable_slot_command : Command
  address_device_command configure_endpoint_command : ℕ → Command

-- `port_config_phase` and `addressing_port`; which slots have a device; the commands that were pushed,
-- the last one first, and the ports that were reset.
pub record Xhci : Type 0 where
  pub port_config_phase : ℕ → ConfigPhase
  pub addressing_port : ℕ
  pub has_device : ℕ → Bool
  pub commands : List Command
  pub resets : List ℕ

unfoldable pub init : Xhci
init = record {
  port_config_phase = λ port. not_connected;
  addressing_port = 0;
  has_device = λ slot. false;
  commands = [];
  resets = [];
}

abbrev pub device_size : ℕ
device_size = 8

-- `FindBySlot(slot_id) != nullptr`.
abbrev pub find_by_slot : Xhci → ℕ → Bool
find_by_slot x slot_id = if ltb device_size slot_id then false else x.has_device slot_id

-- `AllocDevice`, with a pool that does not run out.
unfoldable pub alloc_device : Xhci → ℕ → Error × Xhci
alloc_device x slot_id =
    if ltb device_size slot_id
    then (Error.invalid_slot_id, x)
    else if x.has_device slot_id
    then (Error.already_allocated, x)
    else (
      Error.success,
      record x { has_device = λ slot. if slot == slot_id then true else x.has_device slot },
    )

abbrev pub set_phase : Xhci → ℕ → ConfigPhase → Xhci
set_phase x port phase = record x {
  port_config_phase = λ p. if p == port then phase else x.port_config_phase p;
}

abbrev pub push_command : Xhci → Command → Xhci
push_command x c = record x { commands = c ∷ x.commands }

unfoldable pub reset_port : Hardware → ℕ → Xhci → Error × Xhci
reset_port h number x =
    let phase = code (x.port_config_phase number) in
    if not (h.port_at number).is_connected
    then (Error.success, x)
    else if not (x.addressing_port == 0)
    then (Error.success, set_phase x number waiting_addressed)
    else if not (phase == 0) && not (phase == 1)
    then (Error.invalid_phase, x)
    else (
      Error.success,
      record (set_phase x number resetting_port) {
        addressing_port = number;
        resets = number ∷ x.resets;
      },
    )

unfoldable pub enable_slot : Hardware → ℕ → Xhci → Error × Xhci
enable_slot h number x =
    if (h.port_at number).is_enabled && (h.port_at number).is_port_reset_changed
    then (Error.success, push_command (set_phase x number enabling_slot) enable_slot_command)
    else (Error.success, x)

unfoldable pub address_device : (port_id slot_id : ℕ) → Xhci → Error × Xhci
address_device port_id slot_id x =
    let allocated = (alloc_device x slot_id).1 in
    if not (find_by_slot allocated slot_id) then (Error.invalid_slot_id, allocated) else (
      Error.success,
      push_command (set_phase allocated port_id addressing_device) (address_device_command slot_id),
    )

unfoldable pub initialize_device : (port_id slot_id : ℕ) → Xhci → Error × Xhci
initialize_device port_id slot_id x =
    if not (find_by_slot x slot_id)
    then (Error.invalid_slot_id, x)
    else (Error.success, set_phase x port_id initializing_device)

unfoldable pub complete_configuration : (port_id slot_id : ℕ) → Xhci → Error × Xhci
complete_configuration port_id slot_id x =
    if not (find_by_slot x slot_id)
    then (Error.invalid_slot_id, x)
    else (Error.success, set_phase x port_id configured)

-- `ConfigureEndpoints`, without the contexts of the endpoints.
unfoldable pub configure_endpoints : Hardware → ℕ → Xhci → Error × Xhci
configure_endpoints h slot_id x =
    let port_id = h.root_hub_port_num slot_id in
    let port_speed = (h.port_at port_id).speed in
    if (port_speed == 0) || ltb 5 port_speed then (Error.unknown_xhci_speed_id, x) else (
      Error.success,
      push_command (set_phase x port_id configuring_endpoints) (configure_endpoint_command slot_id),
    )

unfoldable pub configure_port : Hardware → ℕ → Xhci → Error × Xhci
configure_port h number x =
    if code (x.port_config_phase number) == 0 then reset_port h number x else (Error.success, x)

-- The loop over the ports from port `i` on, which resets the first that waits.
unfoldable pub reset_waiting : Hardware → (rounds i : ℕ) → Xhci → Error × Xhci
reset_waiting h zero i x = (Error.success, x)
reset_waiting h (suc rounds) i x =
    let rest = reset_waiting h rounds (suc i) x in
    if code (x.port_config_phase i) == 1 then reset_port h i x else rest

-- The type of the command that a completion is for.
pub data Issuer : Type 0 where
  by_enable_slot by_address_device by_configure_endpoint by_other : Issuer

-- A transfer event comes with what `OnTransferEventReceived` returns and with `IsInitialized` after it.
pub data Event : Type 0 where
  port_status_change : (port_id : ℕ) → Event
  transfer : (slot_id : ℕ) (err : Error) (is_initialized : Bool) → Event
  command_completion : Issuer → (slot_id : ℕ) → Event
  other_event : Event

unfoldable pub on_port_status_change : Hardware → ℕ → Xhci → Error × Xhci
on_port_status_change h port_id x =
    let phase = code (x.port_config_phase port_id) in
    if phase == 0
    then reset_port h port_id x
    else if phase == 2
    then enable_slot h port_id x
    else (Error.invalid_phase, x)

unfoldable pub on_transfer : Hardware → ℕ → Error → Bool → Xhci → Error × Xhci
on_transfer h slot_id err is_initialized x =
    if not (find_by_slot x slot_id)
    then (Error.invalid_slot_id, x)
    else if is_error err
    then (err, x)
    else if is_initialized && (code (x.port_config_phase (h.root_hub_port_num slot_id)) == 5)
    then configure_endpoints h slot_id x
    else (Error.success, x)

unfoldable pub on_address_device : Hardware → ℕ → Xhci → Error × Xhci
on_address_device h slot_id x =
    let port_id = h.root_hub_port_num slot_id in
    let (err, next) = reset_waiting h 256 0 (record x { addressing_port = 0 }) in
    if not (find_by_slot x slot_id)
    then (Error.invalid_slot_id, x)
    else if not (port_id == x.addressing_port)
    then (Error.invalid_phase, x)
    else if not (code (x.port_config_phase port_id) == 4)
    then (Error.invalid_phase, x)
    else if is_error err
    then (err, next)
    else initialize_device port_id slot_id next

unfoldable pub on_configure_endpoint : Hardware → ℕ → Xhci → Error × Xhci
on_configure_endpoint h slot_id x =
    let port_id = h.root_hub_port_num slot_id in
    if not (find_by_slot x slot_id)
    then (Error.invalid_slot_id, x)
    else if not (code (x.port_config_phase port_id) == 6)
    then (Error.invalid_phase, x)
    else complete_configuration port_id slot_id x

unfoldable pub on_command_completion : Hardware → Issuer → ℕ → Xhci → Error × Xhci
on_command_completion h by_enable_slot slot_id x =
    if not (code (x.port_config_phase x.addressing_port) == 3)
    then (Error.invalid_phase, x)
    else address_device x.addressing_port slot_id x
on_command_completion h by_address_device slot_id x = on_address_device h slot_id x
on_command_completion h by_configure_endpoint slot_id x = on_configure_endpoint h slot_id x
on_command_completion h by_other slot_id x = (Error.invalid_phase, x)

-- `ProcessEvent`, for the event at the front of the ring.
unfoldable pub process_event : Hardware → Event → Xhci → Error × Xhci
process_event h (port_status_change port_id) x = on_port_status_change h port_id x
process_event h (transfer slot_id err is_initialized) x = on_transfer h slot_id err is_initialized x
process_event h (command_completion issuer slot_id) x = on_command_completion h issuer slot_id x
process_event h other_event x = (Error.not_implemented, x)
