-- ===== src/Usb/Device/Tests.antt =====
-- A keyboard that is plugged in (Kernel/usb/device.cpp): its device descriptor, and a configuration of an
-- interface of another class, one of a keyboard, its class descriptor and an endpoint.
use mikanos_copy.Common.{
  ℕ, ◌-◌, ◌≡◌, refl, true, false, none, some, List, [], ◌∷◌, ◌++◌, take, get_or, ◌==◌,
  if◌then◌else◌, arith,
}
use mikanos_copy.Error.{Error}
use mikanos_copy.Usb.ArrayMap
use mikanos_copy.Usb.Descriptor.{Memory, device_type, configuration_type}
use mikanos_copy.Usb.Setup.{
  Device, keyboard, new_hid, control_in_transfer, control_out_transfer, get_descriptor_setup,
  set_configuration_setup,
}
use mikanos_copy.Usb.Device.{buffer_size, kind_of, start_initialize, initialize_phase2}
use mikanos_copy.Usb.Device.Chain.{Chain, ends, follows, first_supported}
use mikanos_copy.Usb.Device.Reading.{endpoints}
use mikanos_copy.Usb.Device.Stuck.{initialize_phase2_stuck}
use mikanos_copy.Usb.Device.Endpoints.{give}
use mikanos_copy.Usb.Device.{on_control_completed, on_hid_configured}
use mikanos_copy.Usb.Setup.{set_protocol_setup, interrupt_in_transfer}
use mikanos_copy.Usb.Device.Polling.{polling}
use mikanos_copy.Usb.Device.Phases.{complete}
use mikanos_copy.Usb.Device.Starting.{
  device_answer, configuration_answer, set_answer, start_initialize_lem,
}

abbrev bytes : List ℕ
bytes =
    (9 ∷ 2 ∷ 43 ∷ 0 ∷ 2 ∷ 1 ∷ 0 ∷ 160 ∷ 50 ∷ [])
    ++ (9 ∷ 4 ∷ 0 ∷ 0 ∷ 1 ∷ 8 ∷ 6 ∷ 80 ∷ 0 ∷ [])
    ++ (9 ∷ 4 ∷ 1 ∷ 0 ∷ 1 ∷ 3 ∷ 1 ∷ 1 ∷ 0 ∷ [])
    ++ (9 ∷ 33 ∷ 16 ∷ 1 ∷ 0 ∷ 1 ∷ 34 ∷ 63 ∷ 0 ∷ [])
    ++ (7 ∷ 5 ∷ 129 ∷ 3 ∷ 8 ∷ 0 ∷ 10 ∷ [])

abbrev configuration : Memory
configuration a = get_or bytes (a - 100) 0

abbrev device : Memory
device a = if a == 101 then 1 else 18

abbrev parts : List ℕ
parts = 109 ∷ 118 ∷ 127 ∷ 136 ∷ []

parts-Chain : Chain configuration 143 100 parts
parts-Chain = follows (omega arith) (omega arith) (
    follows (omega arith) (omega arith) (
      follows (omega arith) (omega arith)
        (follows (omega arith) (omega arith) (ends (omega arith)))))

abbrev plugged : Device
plugged = record {
  class_drivers = λ n. 0;
  num_configurations = 0;
  config_index = 0;
  is_initialized = false;
  initialize_phase = 0;
  ep_configs = λ i. record { ep_id = 0; ep_type = 0; max_packet_size = 0; interval = 0 };
  num_ep_configs = 0;
  event_waiters = ArrayMap.init 4 0;
  driver = λ n. new_hid keyboard 0;
  num_drivers = 0;
  transfers = [];
}

second_chosen : first_supported configuration parts ≡ some (118, 127 ∷ 136 ∷ [])
unfolding first_supported kind_of
second_chosen = refl

a_keyboard : kind_of configuration 118 ≡ some keyboard
unfolding kind_of
a_keyboard = refl

start_initialize_lem_example :
    (done : Device) × (complete 10
        (device_answer device 100 18
          ∷ configuration_answer configuration 100 43
          ∷ set_answer configuration 1 0 0
          ∷ [])
        (start_initialize plugged).1
      ≡ some (Error.success, done))
    × (done.is_initialized ≡ true)
    × (done.initialize_phase ≡ 4)
    × (done.driver 1
        ≡ give (take 1 (endpoints configuration (127 ∷ 136 ∷ []))) (new_hid keyboard 1))
    × (done.transfers
        ≡ control_out_transfer (set_configuration_setup 1)
          ∷ control_in_transfer (get_descriptor_setup configuration_type 0 buffer_size)
          ∷ control_in_transfer (get_descriptor_setup device_type 0 buffer_size)
          ∷ [])
unfolding endpoints
start_initialize_lem_example =
    start_initialize_lem device configuration configuration 100 100 0 18 43 0 10 118 parts
      (127 ∷ 136 ∷ []) keyboard plugged refl refl parts-Chain (omega arith) second_chosen a_keyboard
      (omega arith, omega arith)

initialize_phase2_stuck_example :
    initialize_phase2 (λ a. if a == 101 then 2 else 0) 1000 100 43 plugged ≡ none
initialize_phase2_stuck_example =
    initialize_phase2_stuck (λ a. if a == 101 then 2 else 0) 100 43 plugged refl refl (omega arith)
      (omega arith) 1000

abbrev ready : Device
ready = record plugged {
  is_initialized = true;
  driver = λ n. record (new_hid keyboard 1) { ep_interrupt_in = 3 };
}

polling_example :
    (done : Device) × (on_control_completed configuration 10
        (set_protocol_setup 1)
        0
        0
        (on_hid_configured 1 ready).1
      ≡ some (Error.success, done))
    × ((done.driver 1).hid_phase ≡ 2)
    × (done.transfers
        ≡ interrupt_in_transfer 3 8 ∷ control_out_transfer (set_protocol_setup 1) ∷ [])
unfolding ArrayMap.get mikanos_copy.Usb.ArrayMap.Laws.has_free
polling_example = polling configuration 10 0 0 1 ready refl (λ e. omega (arith, e)) refl refl
