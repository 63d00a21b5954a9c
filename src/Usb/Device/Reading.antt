-- ===== src/Usb/Device/Reading.antt =====
-- What a device makes of a configuration that it reads (`InitializePhase2` of Kernel/usb/device.cpp),
-- told on the descriptors in their order.
use mikanos_copy.Common.{
  ℕ, zero, suc, ◌+◌, ◌-◌, ◌≤◌, ◌<◌, ◌≡◌, ◌⊎◌, refl, ap, subst, ◌∙◌, true, false, Option, none, some,
  List, [], ◌∷◌, length, take, ltb, ◌==◌, if◌then◌else◌, arith, Bool-cases, inl, inr, dec_lt,
}
use mikanos_copy.Error.{Error}
use mikanos_copy.Usb.Descriptor.{
  Memory, configuration_type, endpoint_type, has_type, configuration_value, interface_number,
  num_endpoints, EndpointConfig, make_ep_config,
}
use mikanos_copy.Usb.Setup.{Device, Kind, new_hid, set_configuration}
use mikanos_copy.Usb.Device.{
  add_driver, kind_of, new_class_driver, add_endpoint, read_endpoints, read_interfaces, with_driver,
  initialize_phase2,
}
use mikanos_copy.Usb.Device.Chain.{
  Chain, ends, follows, first_supported, next_follows, nothing, interface, next_interface-Searched,
}

-- The endpoints among some descriptors.
unfoldable pub endpoints : Memory → List ℕ → List EndpointConfig
endpoints mem [] = []
endpoints mem (desc ∷ descs) =
    if has_type mem endpoint_type desc
    then make_ep_config mem desc ∷ endpoints mem descs
    else endpoints mem descs

unfoldable pub enter : ℕ → List EndpointConfig → Device → Device
enter class_driver [] d = d
enter class_driver (conf ∷ confs) d = enter class_driver confs (add_endpoint class_driver conf d)

entered_num :
    (class_driver : ℕ) (conf : EndpointConfig) (d : Device)
    → (add_endpoint class_driver conf d).num_ep_configs ≡ suc d.num_ep_configs
unfolding add_endpoint
entered_num class_driver conf d = refl

-- The loop over the endpoints takes the first ones that it meets, as many as the interface says.
read_endpoints_lem :
    (mem : Memory) (end num class_driver rounds p : ℕ) (descs : List ℕ) (d : Device)
    → Chain mem end p descs
    → length descs < rounds
    → num ≤ d.num_ep_configs + length (endpoints mem descs)
    → read_endpoints mem end num class_driver rounds p d
      ≡ some (enter class_driver (take (num - d.num_ep_configs) (endpoints mem descs)) d)
unfolding read_endpoints endpoints enter
read_endpoints_lem mem end num class_driver zero p descs d c h enough = absurd (omega (arith, h))
read_endpoints_lem mem end num class_driver (suc rounds) p [] d (ends far) h enough =
    let t : ltb d.num_ep_configs num ≡ false = ground (arith, enough) in
    let none_left : num - d.num_ep_configs ≡ 0 = omega (arith, enough) in rw (t, none_left) refl
read_endpoints_lem mem end num class_driver (suc rounds) p (desc ∷ descs) d
      (follows some_length near c) h enough =
    rw (next_follows mem end p near) (elim (dec_lt d.num_ep_configs num) [
      | no full ↦
          let t : ltb d.num_ep_configs num ≡ false = ground (arith, full) in
          let none_left : num - d.num_ep_configs ≡ 0 = omega (arith, full) in rw (t, none_left) refl
      | yes room ↦
          let t : ltb d.num_ep_configs num ≡ true = ground (arith, room) in
          rw t (elim (Bool-cases (has_type mem endpoint_type (p + mem p))) [
            | inl e ↦
                let conf = make_ep_config mem (p + mem p) in
                let count : length (endpoints mem ((p + mem p) ∷ descs))
                    ≡ suc (length (endpoints mem descs)) =
                  rw e refl in
                let one_left : num - d.num_ep_configs
                    ≡ suc (num - (add_endpoint class_driver conf d).num_ep_configs) =
                  omega (arith, room, entered_num class_driver conf d) in
                rw (e, one_left)
                  (read_endpoints_lem mem end num class_driver rounds (p + mem p) descs
                    (add_endpoint class_driver conf d) c (omega (arith, h))
                    (omega (arith, enough, count, entered_num class_driver conf d)))
            | inr e ↦
                let count : length (endpoints mem ((p + mem p) ∷ descs))
                    ≡ length (endpoints mem descs) =
                  rw e refl in
                rw e (
                  read_endpoints_lem mem end num class_driver rounds (p + mem p) descs d c
                    (omega (arith, h)) (omega (arith, enough, count)))
          ])
    ])

read_first :
    (mem : Memory) (end num class_driver rounds p : ℕ) (descs : List ℕ) (d : Device)
    → d.num_ep_configs ≡ 0
    → Chain mem end p descs
    → length descs < rounds
    → num ≤ length (endpoints mem descs)
    → read_endpoints mem end num class_driver rounds p d
      ≡ some (enter class_driver (take num (endpoints mem descs)) d)
read_first mem end num class_driver rounds p descs d first c h enough =
    let all : num - d.num_ep_configs ≡ num = omega (arith, first) in
    read_endpoints_lem mem end num class_driver rounds p descs d c h (omega (arith, enough))
    ∙ ap (λ n. some (enter class_driver (take n (endpoints mem descs)) d)) all

-- The interface that is chosen has its endpoints behind it, and they fit into `ep_configs_`.
abbrev pub HasEndpoints : Memory → Option (ℕ × List ℕ) → Type 0
HasEndpoints mem none = Unit
HasEndpoints mem (some (if_desc, behind)) =
    (num_endpoints mem if_desc ≤ length (endpoints mem behind)) × (num_endpoints mem if_desc ≤ 16)

-- The driver for an interface, with its endpoints.
unfoldable pub take_interface : Memory → Kind → ℕ → List ℕ → Device → ℕ × Device
take_interface mem kind if_desc behind d =
    let (class_driver, made) = add_driver (new_hid kind (interface_number mem if_desc)) d in
    (
      class_driver,
      enter class_driver (take (num_endpoints mem if_desc) (endpoints mem behind))
          (record made { num_ep_configs = 0 }),
    )

-- What the device is after it chose among the interfaces, and the driver, 0 for none.
unfoldable pub choose : Memory → Option (ℕ × List ℕ) → Device → ℕ × Device
choose mem none d = (0, d)
choose mem (some (if_desc, behind)) d = elim (kind_of mem if_desc) [
  | none ↦ (0, d)
  | some kind ↦ take_interface mem kind if_desc behind d
]

kind_cases :
    (mem : Memory) (desc : ℕ)
    → (kind_of mem desc ≡ none) ⊎ ((kind : Kind) × kind_of mem desc ≡ some kind)
kind_cases mem desc = cases (kind_of mem desc) refl
  where
    cases :
        (k : Option Kind)
        → kind_of mem desc ≡ k
        → (kind_of mem desc ≡ none) ⊎ ((kind : Kind) × kind_of mem desc ≡ some kind)
    cases none e = inl e
    cases (some kind) e = inr (kind, e)

skipped :
    (mem : Memory) (desc : ℕ) (d : Device)
    → kind_of mem desc ≡ none
    → new_class_driver mem desc d ≡ (0, d)
unfolding new_class_driver
skipped mem desc d e = rw (e, new_class_driver) refl

taken :
    (mem : Memory) (desc : ℕ) (d : Device) (kind : Kind)
    → kind_of mem desc ≡ some kind
    → new_class_driver mem desc d ≡ add_driver (new_hid kind (interface_number mem desc)) d
unfolding new_class_driver
taken mem desc d kind e = rw (e, new_class_driver) refl

pub choose_supported :
    (mem : Memory) (desc : ℕ) (behind : List ℕ) (d : Device) (kind : Kind)
    → kind_of mem desc ≡ some kind
    → choose mem (some (desc, behind)) d ≡ take_interface mem kind desc behind d
unfolding choose
choose_supported mem desc behind d kind e = rw (e, choose) refl

suc_not_zero : (n : ℕ) → (suc n == 0) ≡ false
suc_not_zero n = ground arith

read_interfaces_lem :
    (mem : Memory) (end fuel rounds p : ℕ) (descs : List ℕ) (d : Device)
    → Chain mem end p descs
    → length descs < rounds
    → length descs < fuel
    → HasEndpoints mem (first_supported mem descs)
    → read_interfaces mem end fuel rounds p d ≡ some (choose mem (first_supported mem descs) d)
unfolding read_interfaces choose take_interface
read_interfaces_lem mem end fuel zero p descs d c h k enough = absurd (omega (arith, h))
read_interfaces_lem mem end fuel (suc rounds) p descs d c h k enough =
    elim (next_interface-Searched mem end fuel p descs c k) [
      | nothing q e none_there ↦ rw (e, read_interfaces, none_there) refl
      | interface desc behind e t found short there ↦ elim (kind_cases mem desc) [
        | inl unsupported ↦
            let next_there : first_supported mem descs ≡ first_supported mem behind =
              there ∙ rw unsupported refl in
            let rest =
              read_interfaces_lem mem end fuel rounds desc behind d found (omega (arith, h, short))
                (omega (arith, k, short)) (subst (HasEndpoints mem) next_there enough) in
            rw (e, read_interfaces, t, skipped mem desc d unsupported, next_there) rest
        | inr (kind, supported) ↦
            let chosen : first_supported mem descs ≡ some (desc, behind) =
              there ∙ rw supported refl in
            let (some_there, fits) = subst (HasEndpoints mem) chosen enough in
            let (driver, made) = add_driver (new_hid kind (interface_number mem desc)) d in
            let all =
              read_first mem end (num_endpoints mem desc) driver fuel desc behind
                (record made { num_ep_configs = 0 }) refl found (omega (arith, k, short))
                some_there in
            rw
              (
                e,
                read_interfaces,
                t,
                chosen,
                taken mem desc d kind supported,
                suc_not_zero d.num_drivers,
                choose_supported mem desc behind d kind supported,
              )
              (ap (with_driver driver) all)
      ]
    ]

-- `InitializePhase2` on a configuration whose descriptors are laid out one behind the other, none of
-- them empty: it returns; no driver and no request comes of it when no interface is of a keyboard or a
-- mouse; otherwise the first such interface gets a new driver, the first endpoints behind it, as many
-- as it says, are taken for it in order, and the device asks for the configuration. The endpoints are
-- there, and are no more than the 16 that fit; `fuel` is more than there are descriptors.
pub initialize_phase2_lem :
    (mem : Memory) (fuel buf len : ℕ) (descs : List ℕ) (d : Device)
    → has_type mem configuration_type buf ≡ true
    → Chain mem (buf + len) buf descs
    → length descs < fuel
    → HasEndpoints mem (first_supported mem descs)
    → initialize_phase2 mem fuel buf len d
      ≡ some (
          let (class_driver, read) = choose mem (first_supported mem descs) d in
          if class_driver == 0
          then (Error.success, read)
          else set_configuration
              (configuration_value mem buf)
              (record read { initialize_phase = 3 }))
unfolding initialize_phase2
initialize_phase2_lem mem fuel buf len descs d t c h enough =
    rw (t, read_interfaces_lem mem (buf + len) fuel fuel buf descs d c h h enough) refl
