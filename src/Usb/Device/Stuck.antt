-- ===== src/Usb/Device/Stuck.antt =====
-- A descriptor without a length stops the reader of Kernel/usb/device.cpp for ever.
use mikanos_copy.Common.{ℕ, zero, suc, ◌+◌, ◌<◌, ◌≡◌, refl, ap, ◌∙◌, true, false, none, ◌==◌, arith}
use mikanos_copy.Usb.Descriptor.{
  Memory, configuration_type, interface_type, has_type, next, next_interface,
}
use mikanos_copy.Usb.Setup.{Device}
use mikanos_copy.Usb.Device.{read_interfaces, initialize_phase2}
use mikanos_copy.Usb.Device.Chain.{next_follows}

next_same : (mem : Memory) (end p : ℕ) → mem p ≡ 0 → p < end → next mem end p ≡ (p, p)
next_same mem end p e h =
    let same : p + mem p ≡ p = omega (arith, e) in
    next_follows mem end p (omega (arith, same, h)) ∙ ap (λ q. (q, q)) same

no_progress :
    (mem : Memory) (end p rounds : ℕ)
    → mem p ≡ 0
    → 0 < p
    → p < end
    → has_type mem interface_type p ≡ false
    → next_interface mem end rounds p ≡ none
unfolding next_interface
no_progress mem end p zero e b h t = refl
no_progress mem end p (suc rounds) e b h t =
    let null : (p == 0) ≡ false = ground (arith, b) in
    rw (next_same mem end p e h, null, t) (no_progress mem end p rounds e b h t)

no_interface :
    (mem : Memory) (p : ℕ)
    → has_type mem configuration_type p ≡ true
    → has_type mem interface_type p ≡ false
no_interface mem p t = ground (arith, t)

never_read :
    (mem : Memory) (end fuel rounds p : ℕ) (d : Device)
    → next_interface mem end fuel p ≡ none
    → read_interfaces mem end fuel rounds p d ≡ none
unfolding read_interfaces
never_read mem end fuel zero p d e = refl
never_read mem end fuel (suc rounds) p d e = rw (e, read_interfaces) refl

-- On a configuration descriptor that says that it is 0 bytes long, `InitializePhase2` never returns:
-- no number of rounds is enough.
pub initialize_phase2_stuck :
    (mem : Memory) (buf len : ℕ) (d : Device)
    → has_type mem configuration_type buf ≡ true
    → mem buf ≡ 0
    → 0 < buf
    → 0 < len
    → (fuel : ℕ) → initialize_phase2 mem fuel buf len d ≡ none
unfolding initialize_phase2
initialize_phase2_stuck mem buf len d t e b l fuel =
    let stuck =
      no_progress mem (buf + len) buf fuel e b (omega (arith, l)) (no_interface mem buf t) in
    rw (t, never_read mem (buf + len) fuel fuel buf d stuck) refl
