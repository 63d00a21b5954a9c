-- ===== src/Usb/Device/Endpoints.antt =====
-- The endpoints that a device has entered, given to their driver (`InitializePhase3` of
-- Kernel/usb/device.cpp).
use mikanos_copy.Common.{
  ℕ, suc, ◌+◌, ◌%◌, ◌<◌, ◌≡◌, refl, ap, ◌∙◌, true, false, ◌&&◌, if◌then◌else◌, List, [], ◌∷◌,
  length, ◌==◌, ==-refl, arith, Bool-cases, inl, inr,
}
use mikanos_copy.Usb.Descriptor.{number_of, EndpointConfig}
use mikanos_copy.Usb.Setup.{Device, HidDriver, set_driver}
use mikanos_copy.Usb.Device.{initialize_phase3, add_endpoint, set_endpoint, set_endpoints}
use mikanos_copy.Usb.Device.Reading.{enter}

-- A driver that was given some endpoints in order: of those of type 3, interrupt, the last with an odd
-- number is its endpoint in, and the last with an even number its endpoint out.
unfoldable pub give : List EndpointConfig → HidDriver → HidDriver
give [] h = h
give (conf ∷ confs) h = give confs (record {
  kind = h.kind;
  interface_index = h.interface_index;
  in_packet_size = h.in_packet_size;
  ep_interrupt_in =
      if conf.ep_type == 3 && conf.ep_id % 2 == 1 then conf.ep_id else h.ep_interrupt_in;
  ep_interrupt_out =
      if conf.ep_type == 3 && conf.ep_id % 2 == 0 then conf.ep_id else h.ep_interrupt_out;
  hid_phase = h.hid_phase;
})

set_endpoint_lem :
    (conf : EndpointConfig) (confs : List EndpointConfig) (h : HidDriver)
    → give confs (set_endpoint conf h) ≡ give (conf ∷ confs) h
unfolding set_endpoint give
set_endpoint_lem conf confs h = elim (Bool-cases (conf.ep_type == 3)) [
  | inr other ↦ rw other refl
  | inl interrupt ↦ elim (Bool-cases (conf.ep_id % 2 == 1)) [
    | inl odd ↦
        let e : (conf.ep_id % 2 == 0) ≡ false = ground (arith, odd) in rw (interrupt, odd, e) refl
    | inr even ↦
        let e : (conf.ep_id % 2 == 0) ≡ true = ground (arith, even) in rw (interrupt, even, e) refl
  ]
]

-- The endpoints stand in `ep_configs_` from `i` on, and belong to a driver.
abbrev pub Entered : ℕ → List EndpointConfig → ℕ → (ℕ → EndpointConfig) → (ℕ → ℕ) → Type 0
Entered class_driver [] i ep_configs class_drivers = Unit
Entered class_driver (conf ∷ confs) i ep_configs class_drivers =
    (ep_configs i ≡ conf)
    × (class_drivers (number_of conf.ep_id) ≡ class_driver)
    × Entered class_driver confs (suc i) ep_configs class_drivers

enter_old :
    (class_driver : ℕ) (confs : List EndpointConfig) (d : Device) (i : ℕ)
    → i < d.num_ep_configs
    → (enter class_driver confs d).ep_configs i ≡ d.ep_configs i
unfolding enter add_endpoint
enter_old class_driver [] d i h = refl
enter_old class_driver (conf ∷ confs) d i h =
    let t : (i == d.num_ep_configs) ≡ false = ground (arith, h) in
    enter_old class_driver confs (add_endpoint class_driver conf d) i (omega (arith, h)) ∙ rw t refl

enter_driver :
    (class_driver : ℕ) (confs : List EndpointConfig) (d : Device) (n : ℕ)
    → d.class_drivers n ≡ class_driver
    → (enter class_driver confs d).class_drivers n ≡ class_driver
unfolding enter add_endpoint
enter_driver class_driver [] d n h = h
enter_driver class_driver (conf ∷ confs) d n h =
    enter_driver class_driver confs (add_endpoint class_driver conf d) n
      (elim (Bool-cases (n == number_of conf.ep_id)) [ inl t ↦ rw t refl | inr t ↦ rw t h ])

pub enter-Entered :
    (class_driver : ℕ) (confs : List EndpointConfig) (d : Device)
    → Entered class_driver confs d.num_ep_configs
        (enter class_driver confs d).ep_configs
        (enter class_driver confs d).class_drivers
unfolding enter add_endpoint
enter-Entered class_driver [] d = record {}
enter-Entered class_driver (conf ∷ confs) d = (
  enter_old class_driver confs (add_endpoint class_driver conf d) d.num_ep_configs (omega arith)
      ∙ rw (==-refl d.num_ep_configs) refl,
  enter_driver class_driver confs (add_endpoint class_driver conf d) (number_of conf.ep_id)
      (rw (==-refl (number_of conf.ep_id)) refl),
  enter-Entered class_driver confs (add_endpoint class_driver conf d),
)

-- What stays as it was when endpoints are entered.
pub enter_keeps :
    (class_driver : ℕ) (confs : List EndpointConfig) (d : Device)
    → ((enter class_driver confs d).num_ep_configs ≡ length confs + d.num_ep_configs)
      × ((enter class_driver confs d).driver ≡ d.driver)
      × ((enter class_driver confs d).transfers ≡ d.transfers)
      × ((enter class_driver confs d).is_initialized ≡ d.is_initialized)
unfolding enter add_endpoint
enter_keeps class_driver [] d = (omega arith, refl, refl, refl)
enter_keeps class_driver (conf ∷ confs) d =
    let (count, driver, transfers, initialized) =
      enter_keeps class_driver confs (add_endpoint class_driver conf d) in
    (omega (arith, count), driver, transfers, initialized)

set_endpoints_step :
    (class_driver : ℕ) (conf : EndpointConfig) (rounds i : ℕ) (d : Device)
    → d.ep_configs i ≡ conf
    → d.class_drivers (number_of conf.ep_id) ≡ class_driver
    → set_endpoints (suc rounds) i d
      ≡ set_endpoints rounds
          (suc i)
          (set_driver d class_driver (set_endpoint conf (d.driver class_driver)))
unfolding set_endpoints
set_endpoints_step class_driver conf rounds i d here mine =
    ap
      (λ config. set_endpoints rounds (suc i) (
        set_driver d (d.class_drivers (number_of config.ep_id))
          (set_endpoint config (d.driver (d.class_drivers (number_of config.ep_id))))))
      here
    ∙ ap (λ n. set_endpoints rounds (suc i) (set_driver d n (set_endpoint conf (d.driver n)))) mine

-- `InitializePhase3` gives a driver the endpoints that were entered for it.
set_endpoints_lem :
    (class_driver : ℕ) (confs : List EndpointConfig) (i : ℕ) (d : Device)
    → Entered class_driver confs i d.ep_configs d.class_drivers
    → ((set_endpoints (length confs) i d).driver class_driver ≡ give confs (d.driver class_driver))
      × ((set_endpoints (length confs) i d).transfers ≡ d.transfers)
unfolding set_endpoints give
set_endpoints_lem class_driver [] i d h = (refl, refl)
set_endpoints_lem class_driver (conf ∷ confs) i d (here, mine, rest) =
    let next = set_driver d class_driver (set_endpoint conf (d.driver class_driver)) in
    let (given, transfers) = set_endpoints_lem class_driver confs (suc i) next rest in
    rw (set_endpoints_step class_driver conf (length confs) i d here mine) (
      given ∙ rw (==-refl class_driver) refl ∙ set_endpoint_lem conf confs (d.driver class_driver),
      transfers,
    )

pub phase3_lem :
    (class_driver : ℕ) (confs : List EndpointConfig) (d : Device)
    → d.num_ep_configs ≡ length confs
    → Entered class_driver confs 0 d.ep_configs d.class_drivers
    → ((initialize_phase3 d).1.driver class_driver ≡ give confs (d.driver class_driver))
      × ((initialize_phase3 d).1.transfers ≡ d.transfers)
unfolding initialize_phase3
phase3_lem class_driver confs d e h =
    let (given, same) = set_endpoints_lem class_driver confs 0 d h in
    (
      ap (λ n. (set_endpoints n 0 d).driver class_driver) e ∙ given,
      ap (λ n. (set_endpoints n 0 d).transfers) e ∙ same,
    )
