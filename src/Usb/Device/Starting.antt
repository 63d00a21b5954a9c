-- ===== src/Usb/Device/Starting.antt =====
-- The whole initialisation of a USB device (Kernel/usb/device.cpp), from `StartInitialize` to the
-- completion of `SetConfiguration`.
use mikanos_copy.Common.{
  ℕ, suc, ◌+◌, ◌<◌, ◌≡◌, refl, ap, subst, ◌∙◌, true, some, List, [], ◌∷◌, length, take,
}
use mikanos_copy.Error.{Error}
use mikanos_copy.Usb.Descriptor.{
  Memory, device_type, configuration_type, has_type, configuration_value, interface_number,
  num_endpoints,
}
use mikanos_copy.Usb.Setup.{
  Device, Kind, new_hid, control_in_transfer, control_out_transfer, get_descriptor_setup,
  set_configuration_setup,
}
use mikanos_copy.Usb.Device.{buffer_size, start_initialize, initialize_phase3, kind_of}
use mikanos_copy.Usb.Device.Chain.{Chain, first_supported}
use mikanos_copy.Usb.Device.Reading.{HasEndpoints, endpoints}
use mikanos_copy.Usb.Device.Endpoints.{give}
use mikanos_copy.Usb.Device.Phases.{
  Completion, complete, complete_step, first_phase, second_phase, third_phase, chosen_phase,
  settled_lem, asked_lem, phase3_done, phase1_done, phase3_success, asked, settled,
}

-- What a device answers to the three requests.
abbrev pub device_answer : Memory → (buf len : ℕ) → Completion
device_answer mem buf len = record {
  memory = mem;
  setup_data = get_descriptor_setup device_type 0 buffer_size;
  buf = buf;
  len = len;
}

abbrev pub configuration_answer : Memory → (buf len : ℕ) → Completion
configuration_answer mem buf len = record {
  memory = mem;
  setup_data = get_descriptor_setup configuration_type 0 buffer_size;
  buf = buf;
  len = len;
}

abbrev pub set_answer : Memory → (config_value buf len : ℕ) → Completion
set_answer mem config_value buf len = record {
  memory = mem;
  setup_data = set_configuration_setup config_value;
  buf = buf;
  len = len;
}

-- A device that is started and answers first with a device descriptor, then with a configuration whose
-- descriptors are laid out one behind the other and of which an interface is of a keyboard or a mouse,
-- and then that the configuration is set, ends up initialised, in the last phase, without an error: it
-- has asked for just these three transfers, in this order, and the first such interface has a driver
-- that was given its endpoints, the first ones behind it, in their order. These endpoints are there and
-- fit, and the fuel is more than there are descriptors.
pub start_initialize_lem :
    (first second third : Memory) (b1 b2 b3 len1 len2 len3 fuel desc : ℕ) (descs behind : List ℕ)
    (kind : Kind) (d : Device)
    → has_type first device_type b1 ≡ true
    → has_type second configuration_type b2 ≡ true
    → Chain second (b2 + len2) b2 descs
    → length descs < fuel
    → first_supported second descs ≡ some (desc, behind)
    → kind_of second desc ≡ some kind
    → HasEndpoints second (some (desc, behind))
    → (done : Device) × (complete fuel
          (device_answer first b1 len1
            ∷ configuration_answer second b2 len2
            ∷ set_answer third (configuration_value second b2) b3 len3
            ∷ [])
          (start_initialize d).1
        ≡ some (Error.success, done))
      × (done.is_initialized ≡ true)
      × (done.initialize_phase ≡ 4)
      × (done.driver (suc d.num_drivers)
          ≡ give
              (take (num_endpoints second desc) (endpoints second behind))
              (new_hid kind (interface_number second desc)))
      × (done.transfers
          ≡ control_out_transfer (set_configuration_setup (configuration_value second b2))
            ∷ control_in_transfer (get_descriptor_setup configuration_type 0 buffer_size)
            ∷ control_in_transfer (get_descriptor_setup device_type 0 buffer_size)
            ∷ d.transfers)
unfolding complete
start_initialize_lem first second third b1 b2 b3 len1 len2 len3 fuel desc descs behind kind d t1 t2
      c h found supported enough =
    let d1 = asked first b1 d in
    let d2 = settled second b2 kind desc behind d1 in
    let c2 = configuration_answer second b2 len2 in
    let c3 = set_answer third (configuration_value second b2) b3 len3 in
    let (fresh, phase, same_drivers, asked_transfers) = asked_lem first b1 d in
    let (still, given, transfers) = settled_lem second b2 desc behind kind d1 enough.0 in
    let (initialized, last) = phase3_done d2 in
    (
      (initialize_phase3 d2).1,
      complete_step fuel (device_answer first b1 len1) (c2 ∷ c3 ∷ []) _ d1 (
            first_phase first fuel b1 len1 d t1
            ∙ ap some (phase1_done first b1 (start_initialize d).1))
          ∙ complete_step fuel c2 (c3 ∷ []) d1 d2 (
              second_phase second fuel b2 len2 d1 fresh phase t2
              ∙ chosen_phase second fuel b2 len2 desc descs behind kind d1 t2 c h found supported
                  enough)
          ∙ complete_step fuel c3 [] d2 (initialize_phase3 d2).1 (
              third_phase third fuel b3 len3 (configuration_value second b2) d2 (still ∙ fresh) refl
              ∙ ap some (phase3_success d2)),
      initialized,
      last,
      subst
          (λ n.
            (initialize_phase3 d2).1.driver (suc n)
            ≡ give (take (num_endpoints second desc) (endpoints second behind))
                (new_hid kind (interface_number second desc)))
          same_drivers given,
      transfers
          ∙ ap
              (λ rest.
                control_out_transfer (set_configuration_setup (configuration_value second b2))
                ∷ rest)
              asked_transfers,
    )
