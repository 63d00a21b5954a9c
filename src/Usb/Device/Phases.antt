-- ===== src/Usb/Device/Phases.antt =====
-- The phases of the initialisation of a USB device (Kernel/usb/device.cpp), each from its state.
use mikanos_copy.Common.{
  ℕ, zero, suc, ◌+◌, ◌≤◌, ◌<◌, ◌≡◌, refl, sym, ap, subst, ◌∙◌, true, false, Option, none, some,
  List, [], ◌∷◌, length, take, ==-refl, if◌then◌else◌, arith,
}
use mikanos_copy.Error.{Error, is_error}
use mikanos_copy.Usb.Descriptor.{
  Memory, device_type, configuration_type, has_type, configuration_value, interface_number,
  num_endpoints, EndpointConfig,
}
use mikanos_copy.Usb.Setup.{
  Device, Kind, new_hid, SetupData, control_in_transfer, control_out_transfer, get_descriptor_setup,
  set_configuration_setup, set_configuration,
}
use mikanos_copy.Usb.Device.{
  buffer_size, start_initialize, initialize_phase1, initialize_phase2, initialize_phase3, kind_of,
  add_driver, on_control_completed,
}
use mikanos_copy.Usb.Device.Chain.{Chain, first_supported}
use mikanos_copy.Usb.Device.Reading.{
  HasEndpoints, endpoints, enter, take_interface, choose_supported, initialize_phase2_lem,
}
use mikanos_copy.Usb.Device.Endpoints.{give, enter-Entered, enter_keeps, phase3_lem}

-- A transfer that is done: what is in memory then, its set-up data, and its buffer.
pub record Completion : Type 0 where
  pub memory : Memory
  pub setup_data : SetupData
  pub buf : ℕ
  pub len : ℕ

-- Transfers that are done one after the other, up to the first error.
unfoldable pub complete : ℕ → List Completion → Device → Option (Error × Device)
complete fuel [] d = some (Error.success, d)
complete fuel (c ∷ cs) d = elim (on_control_completed c.memory fuel c.setup_data c.buf c.len d) [
  | none ↦ none
  | some (err, next) ↦
      let rest = complete fuel cs next in if is_error err then some (err, next) else rest
]

pub complete_step :
    (fuel : ℕ) (c : Completion) (cs : List Completion) (d next : Device)
    → on_control_completed c.memory fuel c.setup_data c.buf c.len d ≡ some (Error.success, next)
    → complete fuel (c ∷ cs) d ≡ complete fuel cs next
unfolding complete
complete_step fuel c cs d next e = rw (e, complete) refl

-- Each phase, from its state.
pub first_phase :
    (mem : Memory) (fuel buf len : ℕ) (d : Device)
    → has_type mem device_type buf ≡ true
    → on_control_completed mem fuel
        (get_descriptor_setup device_type 0 buffer_size)
        buf
        len
        (start_initialize d).1
      ≡ some (initialize_phase1 mem buf (start_initialize d).1)
unfolding on_control_completed start_initialize
first_phase mem fuel buf len d t = rw t refl

pub second_phase :
    (mem : Memory) (fuel buf len : ℕ) (d : Device)
    → d.is_initialized ≡ false
    → d.initialize_phase ≡ 2
    → has_type mem configuration_type buf ≡ true
    → on_control_completed mem fuel
        (get_descriptor_setup configuration_type 0 buffer_size)
        buf
        len
        d
      ≡ initialize_phase2 mem fuel buf len d
unfolding on_control_completed
second_phase mem fuel buf len d e f t = rw (e, f, t) refl

pub third_phase :
    (mem : Memory) (fuel buf len config_value : ℕ) (d : Device)
    → d.is_initialized ≡ false
    → d.initialize_phase ≡ 3
    → on_control_completed mem fuel (set_configuration_setup config_value) buf len d
      ≡ some (initialize_phase3 d)
unfolding on_control_completed
third_phase mem fuel buf len config_value d e f = rw (e, f) refl

-- The device in the second phase, and what the second phase makes of it.
abbrev pub asked : Memory → ℕ → Device → Device
asked mem buf d = (initialize_phase1 mem buf (start_initialize d).1).1

abbrev pub settled : Memory → ℕ → Kind → ℕ → List ℕ → Device → Device
settled mem buf kind desc behind d =
    (set_configuration (configuration_value mem buf)
      (record (take_interface mem kind desc behind d).1 { initialize_phase = 3 })).1

pub chosen_phase :
    (mem : Memory) (fuel buf len desc : ℕ) (descs behind : List ℕ) (kind : Kind) (d : Device)
    → has_type mem configuration_type buf ≡ true
    → Chain mem (buf + len) buf descs
    → length descs < fuel
    → first_supported mem descs ≡ some (desc, behind)
    → kind_of mem desc ≡ some kind
    → HasEndpoints mem (some (desc, behind))
    → initialize_phase2 mem fuel buf len d
      ≡ some (Error.success, settled mem buf kind desc behind d)
unfolding take_interface
chosen_phase mem fuel buf len desc descs behind kind d t c h first supported enough =
    initialize_phase2_lem mem fuel buf len descs d t c h
      (subst (HasEndpoints mem) (sym first) enough)
    ∙ rw (first, choose_supported mem desc behind d kind supported) (ground arith)

count_taken : (n : ℕ) (confs : List EndpointConfig) → n ≤ length confs → length (take n confs) ≡ n
count_taken zero confs h = refl
count_taken (suc n) [] h = absurd (omega (arith, h))
count_taken (suc n) (conf ∷ confs) h = ap suc (count_taken n confs (omega (arith, h)))

-- What the settled device holds, and what `InitializePhase3` makes of it.
pub settled_lem :
    (mem : Memory) (buf desc : ℕ) (behind : List ℕ) (kind : Kind) (d : Device)
    → num_endpoints mem desc ≤ length (endpoints mem behind)
    → let done = (initialize_phase3 (settled mem buf kind desc behind d)).1 in
      ((settled mem buf kind desc behind d).is_initialized ≡ d.is_initialized)
      × (done.driver (suc d.num_drivers)
          ≡ give
              (take (num_endpoints mem desc) (endpoints mem behind))
              (new_hid kind (interface_number mem desc)))
      × (done.transfers
          ≡ control_out_transfer (set_configuration_setup (configuration_value mem buf))
            ∷ d.transfers)
unfolding take_interface
settled_lem mem buf desc behind kind d enough =
    let c = suc d.num_drivers in
    let confs = take (num_endpoints mem desc) (endpoints mem behind) in
    let ready : Device = record (add_driver (new_hid kind (interface_number mem desc)) d).1 {
      num_ep_configs = 0;
    } in
    let (count, drivers, transfers, initialized) = enter_keeps c confs ready in
    let all : (enter c confs ready).num_ep_configs ≡ length confs = count ∙ omega arith in
    let (given, same) =
      phase3_lem c confs (settled mem buf kind desc behind d) all (enter-Entered c confs ready) in
    (
      initialized,
      given ∙ ap (λ f. give confs (f c)) drivers ∙ rw (==-refl c) refl,
      same
          ∙ ap
              (λ rest.
                control_out_transfer (set_configuration_setup (configuration_value mem buf)) ∷ rest)
              transfers,
    )

pub asked_lem :
    (mem : Memory) (buf : ℕ) (d : Device)
    → ((asked mem buf d).is_initialized ≡ false)
      × ((asked mem buf d).initialize_phase ≡ 2)
      × ((asked mem buf d).num_drivers ≡ d.num_drivers)
      × ((asked mem buf d).transfers
          ≡ control_in_transfer (get_descriptor_setup configuration_type 0 buffer_size)
            ∷ control_in_transfer (get_descriptor_setup device_type 0 buffer_size)
            ∷ d.transfers)
unfolding initialize_phase1 start_initialize
asked_lem mem buf d = (refl, refl, refl, refl)

pub phase3_done :
    (d : Device)
    → ((initialize_phase3 d).1.is_initialized ≡ true)
      × ((initialize_phase3 d).1.initialize_phase ≡ 4)
unfolding initialize_phase3
phase3_done d = (refl, refl)

pub phase1_done :
    (mem : Memory) (buf : ℕ) (d : Device)
    → initialize_phase1 mem buf d ≡ (Error.success, (initialize_phase1 mem buf d).1)
unfolding initialize_phase1
phase1_done mem buf d = refl

pub phase3_success : (d : Device) → initialize_phase3 d ≡ (Error.success, (initialize_phase3 d).1)
unfolding initialize_phase3
phase3_success d = refl
