-- ===== src/Usb/Xhci/Starved.antt =====
-- A port that waits and is disconnected keeps the others waiting (Kernel/usb/xhci/xhci.cpp).
use mikanos_copy.Common.{
  ℕ, zero, suc, ◌+◌, ◌≤◌, ◌<◌, ◌≡◌, ◌≢◌, refl, ap, ◌∙◌, true, false, ◌==◌, arith, ℕ_discrete,
}
use mikanos_copy.Error.{Error}
use mikanos_copy.Usb.Xhci.{
  code, initializing_device, Hardware, Xhci, find_by_slot, set_phase, reset_port, reset_waiting,
  initialize_device, on_address_device, on_port_status_change, port_status_change, process_event,
}
use mikanos_copy.Usb.Xhci.Phase.{with_phase, update_off}

-- The loop ends at the first port that waits, also when it does nothing for it.
reset_waiting_off :
    (h : Hardware) (rounds i q : ℕ) (x : Xhci)
    → i ≤ q
    → q < i + rounds
    → code (x.port_config_phase q) ≡ 1
    → ((p : ℕ) → i ≤ p → p < q → code (x.port_config_phase p) ≢ 1)
    → (h.port_at q).is_connected ≡ false
    → reset_waiting h rounds i x ≡ (Error.success, x)
unfolding reset_waiting reset_port
reset_waiting_off h zero i q x low high waits first off = absurd (omega (arith, low, high))
reset_waiting_off h (suc rounds) i q x low high waits first off = elim (ℕ_discrete i q) [
  | yes e ↦
      let t : (code (x.port_config_phase i) == 1) ≡ true =
        one_of _ (ap (λ n. code (x.port_config_phase n)) e ∙ waits) in
      let gone : (h.port_at i).is_connected ≡ false =
        ap (λ n. (h.port_at n).is_connected) e ∙ off in
      rw (t, gone) refl
  | no apart ↦
      let t : (code (x.port_config_phase i) == 1) ≡ false =
        other_of _ (first i (omega arith) (omega (arith, low, apart))) in
      rw t (
        reset_waiting_off h rounds (suc i) q x (omega (arith, low, apart)) (omega (arith, high))
          waits (λ p a b. first p (omega (arith, a)) b) off)
]
  where
    one_of : (n : ℕ) → n ≡ 1 → (n == 1) ≡ true
    one_of n e = ground (arith, e)

    other_of : (n : ℕ) → n ≢ 1 → (n == 1) ≡ false
    other_of n e = ground (arith, e)

refused :
    (h : Hardware) (w : ℕ) (x : Xhci)
    → code (x.port_config_phase w) ≡ 1
    → process_event h (port_status_change w) x ≡ (Error.invalid_phase, x)
unfolding process_event on_port_status_change
refused h w x waits =
    let e0 : (code (x.port_config_phase w) == 0) ≡ false = ground (arith, waits) in
    let e2 : (code (x.port_config_phase w) == 2) ≡ false = ground (arith, waits) in rw (e0, e2) refl

-- A port gets its address while the first port that waits is disconnected: then no port is addressed
-- any more, and whatever port waits goes on waiting, and the events of that port are refused and change
-- nothing.
pub waiting_starved :
    (h later : Hardware) (slot_id q w : ℕ) (x : Xhci)
    → find_by_slot x slot_id ≡ true
    → h.root_hub_port_num slot_id ≡ x.addressing_port
    → code (x.port_config_phase x.addressing_port) ≡ 4
    → q < 256
    → code (x.port_config_phase q) ≡ 1
    → ((p : ℕ) → p < q → code (x.port_config_phase p) ≢ 1)
    → (h.port_at q).is_connected ≡ false
    → code (x.port_config_phase w) ≡ 1
    → let after = (on_address_device h slot_id x).1 in
      (after.addressing_port ≡ 0)
      × (code (after.port_config_phase w) ≡ 1)
      × (process_event later (port_status_change w) after ≡ (Error.invalid_phase, after))
unfolding on_address_device initialize_device
waiting_starved h later slot_id q w x found here ready small waits first off waits_w =
    let port_id = h.root_hub_port_num slot_id in
    let same : (port_id == x.addressing_port) ≡ true = ground (arith, here) in
    let four : code (x.port_config_phase port_id) ≡ 4 =
      ap (λ n. code (x.port_config_phase n)) here ∙ ready in
    let idle =
      reset_waiting_off h 256 0 q (record x { addressing_port = 0 }) (omega arith)
        (omega (arith, small)) waits (λ p a b. first p b) off in
    let apart : w ≢ port_id =
      λ e. omega (arith, waits_w, four, ap (λ n. code (x.port_config_phase n)) e) in
    let still : code (with_phase x.port_config_phase port_id initializing_device w) ≡ 1 =
      ap code (update_off x.port_config_phase port_id w initializing_device apart) ∙ waits_w in
    rw (found, same, four_of _ four, idle, found)
      (
        refl,
        still,
        refused later w (record (set_phase x port_id initializing_device) { addressing_port = 0 })
            still,
      )
  where
    four_of : (n : ℕ) → n ≡ 4 → (n == 4) ≡ true
    four_of n e = ground (arith, e)
