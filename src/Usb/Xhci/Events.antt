-- ===== src/Usb/Xhci/Events.antt =====
-- The events of the controller (Kernel/usb/xhci/xhci.cpp) keep the ports in order.
use mikanos_copy.Common.{
  ℕ, zero, suc, ◌≡◌, ◌≢◌, refl, sym, ap, subst, Bool, true, false, ◌∷◌, ◌&&◌, ◌==◌, if◌then◌else◌,
  arith, Bool-cases, ℕ_discrete, inl, inr,
}
use mikanos_copy.Error.{Error, is_error}
use mikanos_copy.Usb.Xhci.{
  resetting_port, initializing_device, code, Hardware, Xhci, init, set_phase, find_by_slot,
  reset_port, initialize_device, configure_port, reset_waiting, Event, port_status_change, transfer,
  command_completion, other_event, by_enable_slot, by_address_device, by_configure_endpoint,
  by_other, on_port_status_change, on_transfer, on_address_device, on_configure_endpoint,
  on_command_completion, process_event,
}
use mikanos_copy.Usb.Xhci.Addressing.{
  IsAddressed, Good, unchanged, is_port, reset_port-Good, enable_slot-Good, address_device-Good,
  configure_endpoints-Good, complete_configuration-Good,
}
use mikanos_copy.Usb.Xhci.Phase.{
  Next, Addressed, with_phase, with_phase-Next, enter, leave, update_twice, both-Next, to_resetting,
  Next-step,
}

-- What the loop over the waiting ports leaves, when no port is addressed: it resets the first port that
-- waits, if that is still connected.
data Rested (h : Hardware) (x : Xhci) : Error × Xhci → Type 0 where
  none_reset : Rested h x (Error.success, x)
  one_reset :
      (q : ℕ)
      → code (x.port_config_phase q) ≡ 1
      → Rested h x (
        Error.success,
        record (set_phase x q resetting_port) { addressing_port = q; resets = q ∷ x.resets },
      )

reset_waiting-Rested :
    (h : Hardware) (rounds i : ℕ) (x : Xhci)
    → x.addressing_port ≡ 0
    → Rested h x (reset_waiting h rounds i x)
unfolding reset_waiting reset_port
reset_waiting-Rested h zero i x free = none_reset
reset_waiting-Rested h (suc rounds) i x free =
    elim (Bool-cases (code (x.port_config_phase i) == 1)) [
      | inr other ↦ rw other (reset_waiting-Rested h rounds (suc i) x free)
      | inl waits ↦
          let t : (x.addressing_port == 0) ≡ true = ground (arith, free) in
          let one : code (x.port_config_phase i) ≡ 1 = ground (arith, waits) in
          elim (Bool-cases (h.port_at i).is_connected) [
            | inr off ↦ rw (waits, off) none_reset
            | inl on ↦
                let later : (code (x.port_config_phase i) == 0) ≡ false = ground (arith, one) in
                rw (waits, on, t, later) (one_reset i one)
          ]
    ]

-- The port that has its address, after the waiting ports were looked at.
addressed-Good :
    {h : Hardware} (x : Xhci) {r : Error × Xhci} (slot_id : ℕ)
    → code (x.port_config_phase x.addressing_port) ≡ 4
    → find_by_slot x slot_id ≡ true
    → IsAddressed x
    → Rested h (record x { addressing_port = 0 }) r
    → Good x (if is_error r.0 then r else initialize_device x.addressing_port slot_id r.1)
unfolding initialize_device
addressed-Good x slot_id ready found a none_reset =
    let p = x.addressing_port in
    let port = is_port x p 3 a (omega (arith, ready)) in
    rw found (
      with_phase-Next x.port_config_phase p initializing_device port
          (Next-step _ initializing_device (omega (arith, ready))),
      leave x.port_config_phase p initializing_device port a (λ b. omega (arith, b)),
    )
addressed-Good x slot_id ready found a (one_reset q waits) =
    let p = x.addressing_port in
    let f = x.port_config_phase in
    let port = is_port x p 3 a (omega (arith, ready)) in
    let port_q = is_port x q 0 a (omega (arith, waits)) in
    let apart : p ≢ q = λ e. omega (arith, ready, waits, ap (λ n. code (f n)) e) in
    let left = leave f p initializing_device port a (λ b. omega (arith, b)) in
    let same = update_twice f p q initializing_device resetting_port apart in
    rw found (
      λ r.
          subst (λ g. Next (f r) (g r)) same
            (both-Next f p q initializing_device resetting_port apart port
              (Next-step _ initializing_device (omega (arith, ready)))
              (to_resetting _ (omega (arith, waits))) r),
      subst (λ g. Addressed g q) same
          (enter (with_phase f p initializing_device) q resetting_port port_q left (omega arith)),
    )

on_address_device-Good :
    (h : Hardware) (slot_id : ℕ) (x : Xhci) → IsAddressed x → Good x (on_address_device h slot_id x)
unfolding on_address_device
on_address_device-Good h slot_id x a = elim (Bool-cases (find_by_slot x slot_id)) [
  | inr missing ↦ rw missing (unchanged x Error.invalid_slot_id a)
  | inl found ↦ elim (Bool-cases (h.root_hub_port_num slot_id == x.addressing_port)) [
    | inr wrong ↦ rw (found, wrong) (unchanged x Error.invalid_phase a)
    | inl right ↦
        elim (Bool-cases (code (x.port_config_phase (h.root_hub_port_num slot_id)) == 4)) [
          | inr early ↦ rw (found, right, early) (unchanged x Error.invalid_phase a)
          | inl ready ↦
              let here : h.root_hub_port_num slot_id ≡ x.addressing_port = ground (arith, right) in
              let at : code (x.port_config_phase x.addressing_port) ≡ 4 =
                four_of _ (ap (λ n. code (x.port_config_phase n)) (sym here)) ready in
              let rested = reset_waiting-Rested h 256 0 (record x { addressing_port = 0 }) refl in
              rw (found, right, ready)
                (subst
                  (λ n. Good x (
                    if is_error (reset_waiting h 256 0 (record x { addressing_port = 0 })).0
                    then reset_waiting h 256 0 (record x { addressing_port = 0 })
                    else initialize_device n slot_id
                        (reset_waiting h 256 0 (record x { addressing_port = 0 })).1))
                  (sym here) (addressed-Good x slot_id at found a rested))
        ]
  ]
]
  where
    four_of : {n : ℕ} (m : ℕ) → m ≡ n → (n == 4) ≡ true → m ≡ 4
    four_of m e k = ground (arith, e, k)

on_configure_endpoint-Good :
    (h : Hardware) (slot_id : ℕ) (x : Xhci)
    → IsAddressed x
    → Good x (on_configure_endpoint h slot_id x)
unfolding on_configure_endpoint
on_configure_endpoint-Good h slot_id x a = elim (Bool-cases (find_by_slot x slot_id)) [
  | inr missing ↦ rw missing (unchanged x Error.invalid_slot_id a)
  | inl found ↦ elim (ℕ_discrete (code (x.port_config_phase (h.root_hub_port_num slot_id))) 6) [
    | no early ↦
        let e : (code (x.port_config_phase (h.root_hub_port_num slot_id)) == 6) ≡ false =
          ground (arith, early) in
        rw (found, e) (unchanged x Error.invalid_phase a)
    | yes ready ↦
        let e : (code (x.port_config_phase (h.root_hub_port_num slot_id)) == 6) ≡ true =
          ground (arith, ready) in
        rw (found, e) (complete_configuration-Good (h.root_hub_port_num slot_id) slot_id x ready a)
  ]
]

on_transfer-Good :
    (h : Hardware) (slot_id : ℕ) (err : Error) (is_initialized : Bool) (x : Xhci)
    → IsAddressed x
    → Good x (on_transfer h slot_id err is_initialized x)
unfolding on_transfer
on_transfer-Good h slot_id err is_initialized x a = elim (Bool-cases (find_by_slot x slot_id)) [
  | inr missing ↦ rw missing (unchanged x Error.invalid_slot_id a)
  | inl found ↦ elim (Bool-cases (is_error err)) [
    | inl failed ↦ rw (found, failed) (unchanged x err a)
    | inr fine ↦
        elim (Bool-cases
          (is_initialized && (code (x.port_config_phase (h.root_hub_port_num slot_id)) == 5))) [
            | inr more ↦ rw (found, fine, more) (unchanged x Error.success a)
            | inl done ↦
                rw (found, fine, done)
                  (configure_endpoints-Good h slot_id x (ready_of _ is_initialized done) a)
          ]
  ]
]
  where
    ready_of : (n : ℕ) (b : Bool) → (b && (n == 5)) ≡ true → n ≡ 5
    ready_of n b e = ground (arith, e)

on_port_status_change-Good :
    (h : Hardware) (p : ℕ) (x : Xhci) → p ≢ 0 → IsAddressed x → Good x (on_port_status_change h p x)
unfolding on_port_status_change
on_port_status_change-Good h p x port a = elim (ℕ_discrete (code (x.port_config_phase p)) 0) [
  | yes e ↦
      let t : (code (x.port_config_phase p) == 0) ≡ true = ground (arith, e) in
      rw t (reset_port-Good h p x port (omega (arith, e)) a)
  | no other_phase ↦
      let t : (code (x.port_config_phase p) == 0) ≡ false = ground (arith, other_phase) in
      elim (ℕ_discrete (code (x.port_config_phase p)) 2) [
        | yes e ↦
            let t2 : (code (x.port_config_phase p) == 2) ≡ true = ground (arith, e) in
            rw (t, t2) (enable_slot-Good h p x port e a)
        | no rest ↦
            let t2 : (code (x.port_config_phase p) == 2) ≡ false = ground (arith, rest) in
            rw (t, t2) (unchanged x Error.invalid_phase a)
      ]
]

configure_port-Good :
    (h : Hardware) (p : ℕ) (x : Xhci) → p ≢ 0 → IsAddressed x → Good x (configure_port h p x)
unfolding configure_port
configure_port-Good h p x port a = elim (ℕ_discrete (code (x.port_config_phase p)) 0) [
  | yes e ↦
      let t : (code (x.port_config_phase p) == 0) ≡ true = ground (arith, e) in
      rw t (reset_port-Good h p x port (omega (arith, e)) a)
  | no rest ↦
      let t : (code (x.port_config_phase p) == 0) ≡ false = ground (arith, rest) in
      rw t (unchanged x Error.success a)
]

-- An event of a port is of a port that exists: its number is not 0.
abbrev pub IsOfPort : Event → Type 0
IsOfPort (port_status_change port_id) = port_id ≢ 0
IsOfPort (transfer slot_id err is_initialized) = Unit
IsOfPort (command_completion issuer slot_id) = Unit
IsOfPort other_event = Unit

-- Every event leaves each port in its phase, or takes it to the next one, and keeps to one port at a
-- time between its reset and its address.
pub process_event-Good :
    (h : Hardware) (e : Event) (x : Xhci)
    → IsOfPort e
    → IsAddressed x
    → Good x (process_event h e x)
unfolding process_event on_command_completion
process_event-Good h (port_status_change p) x port a = on_port_status_change-Good h p x port a
process_event-Good h (transfer slot_id err is_initialized) x port a =
    on_transfer-Good h slot_id err is_initialized x a
process_event-Good h (command_completion by_enable_slot slot_id) x port a =
    elim (ℕ_discrete (code (x.port_config_phase x.addressing_port)) 3) [
      | yes e ↦
          let t : (code (x.port_config_phase x.addressing_port) == 3) ≡ true = ground (arith, e) in
          rw t (address_device-Good slot_id x e a)
      | no early ↦
          let t : (code (x.port_config_phase x.addressing_port) == 3) ≡ false =
            ground (arith, early) in
          rw t (unchanged x Error.invalid_phase a)
    ]
process_event-Good h (command_completion by_address_device slot_id) x port a =
    on_address_device-Good h slot_id x a
process_event-Good h (command_completion by_configure_endpoint slot_id) x port a =
    on_configure_endpoint-Good h slot_id x a
process_event-Good h (command_completion by_other slot_id) x port a =
    unchanged x Error.invalid_phase a
process_event-Good h other_event x port a = unchanged x Error.not_implemented a

-- The states that `Initialize` and the events lead to, whatever is read from the hardware.
pub data Reachable : Xhci → Type 0 where
  start : Reachable init
  port_configured :
      {x : Xhci} (h : Hardware) (p : ℕ) → p ≢ 0 → Reachable x → Reachable (configure_port h p x).1
  event_processed :
      {x : Xhci} (h : Hardware) (e : Event)
      → IsOfPort e
      → Reachable x
      → Reachable (process_event h e x).1

pub init-IsAddressed : IsAddressed init
unfolding init
init-IsAddressed = record {
  only = λ p b. omega (arith, b);
  held = λ h. absurd (h refl);
  no_port = refl;
}

-- In every state that is reached, at most one port is between its reset and its address, and that
-- port is `addressing_port`; when no port is, `addressing_port` is 0.
pub Reachable-IsAddressed : {x : Xhci} → Reachable x → IsAddressed x
Reachable-IsAddressed start = init-IsAddressed
Reachable-IsAddressed (port_configured {x = x} h p port r) =
    (configure_port-Good h p x port (Reachable-IsAddressed r)).1
Reachable-IsAddressed (event_processed {x = x} h e port r) =
    (process_event-Good h e x port (Reachable-IsAddressed r)).1
