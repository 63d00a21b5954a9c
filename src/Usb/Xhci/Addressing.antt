-- ===== src/Usb/Xhci/Addressing.antt =====
-- One port at a time is reset and given its address (Kernel/usb/xhci/xhci.cpp).
use mikanos_copy.Common.{
  ℕ, suc, ◌≤◌, ◌≡◌, ◌≢◌, refl, sym, ap, ◌∙◌, subst, true, false, not, ◌&&◌, ◌||◌, ltb, ◌==◌, arith,
  Bool-cases, ℕ_discrete, inl, inr,
}
use mikanos_copy.Error.{Error}
use mikanos_copy.Usb.Xhci.{
  ConfigPhase, waiting_addressed, resetting_port, enabling_slot, addressing_device,
  configuring_endpoints, configured, code, Hardware, Xhci, set_phase, find_by_slot, alloc_device,
  reset_port, enable_slot, address_device, complete_configuration, configure_endpoints,
}
use mikanos_copy.Usb.Xhci.Phase.{
  Next, IsBusy, Addressed, with_phase, with_phase-Next, enter, within, beside, to_waiting,
  to_resetting, Next-step,
}

abbrev pub IsAddressed : Xhci → Type 0
IsAddressed x = Addressed x.port_config_phase x.addressing_port

-- The state after a call: every port is in its phase or in the next, and still only one is addressed.
abbrev pub Good : Xhci → Error × Xhci → Type 0
Good x r = ((p : ℕ) → Next (x.port_config_phase p) (r.1.port_config_phase p)) × IsAddressed r.1

pub unchanged : (x : Xhci) (err : Error) → IsAddressed x → Good x (err, x)
unchanged x err a = (λ p. inl refl, a)

-- A port that is not busy is not the one that is addressed.
apart_from_busy :
    (x : Xhci) (p : ℕ)
    → IsAddressed x
    → ¬ IsBusy (x.port_config_phase p)
    → x.addressing_port ≢ 0
    → p ≢ x.addressing_port
apart_from_busy x p a idle taken e =
    idle (subst (λ n. IsBusy (x.port_config_phase n)) (sym e) (a.held taken))

pub reset_port-Good :
    (h : Hardware) (p : ℕ) (x : Xhci)
    → p ≢ 0
    → code (x.port_config_phase p) ≤ 1
    → IsAddressed x
    → Good x (reset_port h p x)
unfolding reset_port
reset_port-Good h p x port idle a = elim (Bool-cases (h.port_at p).is_connected) [
  | inr off ↦ rw off (unchanged x Error.success a)
  | inl on ↦ elim (ℕ_discrete x.addressing_port 0) [
    | no taken ↦
        let t : (x.addressing_port == 0) ≡ false = ground (arith, taken) in
        rw (on, t)
          (
            with_phase-Next x.port_config_phase p waiting_addressed port (to_waiting _ idle),
            beside x.port_config_phase p waiting_addressed port a
                (apart_from_busy x p a (λ b. omega (arith, b, idle)) taken) (λ b. omega (arith, b)),
          )
    | yes free ↦
        let t : (x.addressing_port == 0) ≡ true = ground (arith, free) in
        let first : (not (code (x.port_config_phase p) == 0)
              && not (code (x.port_config_phase p) == 1))
            ≡ false =
          first_phase _ idle in
        rw (on, t, first)
          (
            with_phase-Next x.port_config_phase p resetting_port port (to_resetting _ idle),
            enter x.port_config_phase p resetting_port port
                (subst (Addressed x.port_config_phase) free a) (omega arith),
          )
  ]
]
  where
    first_phase : (n : ℕ) → n ≤ 1 → (not (n == 0) && not (n == 1)) ≡ false
    first_phase n k = ground (arith, k)

pub enable_slot-Good :
    (h : Hardware) (p : ℕ) (x : Xhci)
    → p ≢ 0
    → code (x.port_config_phase p) ≡ 2
    → IsAddressed x
    → Good x (enable_slot h p x)
unfolding enable_slot
enable_slot-Good h p x port resetting a =
    elim (Bool-cases ((h.port_at p).is_enabled && (h.port_at p).is_port_reset_changed)) [
      | inr wait ↦ rw wait (unchanged x Error.success a)
      | inl done ↦
          let here : p ≡ x.addressing_port = a.only p (omega (arith, resetting)) in
          rw done (
            with_phase-Next x.port_config_phase p enabling_slot port
                (Next-step _ enabling_slot (omega (arith, resetting))),
            subst (Addressed (with_phase x.port_config_phase p enabling_slot)) here (
                within x.port_config_phase p enabling_slot port
                  (subst (Addressed x.port_config_phase) (sym here) a) (omega arith)),
          )
    ]

-- The port of a phase that is not the first is a port.
pub is_port : (x : Xhci) (p n : ℕ) → IsAddressed x → suc n ≤ code (x.port_config_phase p) → p ≢ 0
is_port x p n a h e = omega (arith, h, a.no_port, ap (λ q. code (x.port_config_phase q)) e)

-- Which slots have a device does not matter for the ports.
alloc_device-phases :
    (x : Xhci) (slot_id : ℕ)
    → ((alloc_device x slot_id).1.port_config_phase ≡ x.port_config_phase)
      × ((alloc_device x slot_id).1.addressing_port ≡ x.addressing_port)
unfolding alloc_device
alloc_device-phases x slot_id = elim (Bool-cases (ltb 8 slot_id)) [
  | inl large ↦ rw large (refl, refl)
  | inr small ↦ elim (Bool-cases (x.has_device slot_id)) [
    | inl there ↦ rw (small, there) (refl, refl)
    | inr free ↦ rw (small, free) (refl, refl)
  ]
]

pub address_device-Good :
    (slot_id : ℕ) (x : Xhci)
    → code (x.port_config_phase x.addressing_port) ≡ 3
    → IsAddressed x
    → Good x (address_device x.addressing_port slot_id x)
unfolding address_device
address_device-Good slot_id x enabling a =
    let y = (alloc_device x slot_id).1 in
    let p = x.addressing_port in
    let (same, same_port) = alloc_device-phases x slot_id in
    let port = is_port x p 2 a (omega (arith, enabling)) in
    let before = subst (λ f. Addressed f p) (sym same) a in
    let after = within y.port_config_phase p addressing_device port before (omega arith) in
    elim (Bool-cases (find_by_slot y slot_id)) [
      | inr missing ↦ rw missing (
        λ r. inl (ap (λ f. code (f r)) (sym same)),
        subst (Addressed y.port_config_phase) (sym same_port) before,
      )
      | inl found ↦ rw found (
        λ r.
            subst (λ f. Next (f r) (with_phase y.port_config_phase p addressing_device r)) same
              (with_phase-Next y.port_config_phase p addressing_device port
                (Next-step _ addressing_device (omega (arith, ap (λ f. code (f p)) same, enabling)))
                r),
        subst (Addressed (with_phase y.port_config_phase p addressing_device)) (sym same_port)
            after,
      )
    ]

-- A port past the address is configured further, beside the one that is addressed.
later_phase :
    (x : Xhci) (p : ℕ) (phase : ConfigPhase)
    → code phase ≡ suc (code (x.port_config_phase p))
    → 5 ≤ code (x.port_config_phase p)
    → IsAddressed x
    → Good x (Error.success, set_phase x p phase)
later_phase x p phase step past a =
    let port = is_port x p 4 a (omega (arith, past)) in
    (with_phase-Next x.port_config_phase p phase port (Next-step _ phase step), beside_later port)
  where
    idle : ¬ IsBusy phase
    idle b = omega (arith, b, step, past)

    beside_later : p ≢ 0 → Addressed (with_phase x.port_config_phase p phase) x.addressing_port
    beside_later port = elim (ℕ_discrete x.addressing_port 0) [
      | no taken ↦
          beside x.port_config_phase p phase port a
            (apart_from_busy x p a (λ b. omega (arith, b, past)) taken) idle
      | yes free ↦ beside x.port_config_phase p phase port a (λ e. port (e ∙ free)) idle
    ]

pub configure_endpoints-Good :
    (h : Hardware) (slot_id : ℕ) (x : Xhci)
    → code (x.port_config_phase (h.root_hub_port_num slot_id)) ≡ 5
    → IsAddressed x
    → Good x (configure_endpoints h slot_id x)
unfolding configure_endpoints
configure_endpoints-Good h slot_id x ready a =
    let speed = (h.port_at (h.root_hub_port_num slot_id)).speed in
    let done =
      later_phase x (h.root_hub_port_num slot_id) configuring_endpoints (omega (arith, ready))
        (omega (arith, ready)) a in
    elim (Bool-cases ((speed == 0) || ltb 5 speed)) [
      | inl unknown ↦ rw unknown (unchanged x Error.unknown_xhci_speed_id a)
      | inr known ↦ rw known done
    ]

pub complete_configuration-Good :
    (p slot_id : ℕ) (x : Xhci)
    → code (x.port_config_phase p) ≡ 6
    → IsAddressed x
    → Good x (complete_configuration p slot_id x)
unfolding complete_configuration
complete_configuration-Good p slot_id x ready a =
    let done = later_phase x p configured (omega (arith, ready)) (omega (arith, ready)) a in
    elim (Bool-cases (find_by_slot x slot_id)) [
      | inr missing ↦ rw missing (unchanged x Error.invalid_slot_id a)
      | inl found ↦ rw found done
    ]
