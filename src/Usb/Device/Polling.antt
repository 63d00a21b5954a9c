-- ===== src/Usb/Device/Polling.antt =====
-- How a keyboard or a mouse comes to send its data (Kernel/usb/classdriver/hid.cpp).
use mikanos_copy.Common.{
  ℕ, ◌≡◌, ◌≢◌, ◌↔◌, refl, ap, subst, ◌∙◌, Bool, true, false, ◌&&◌, none, some, ◌∷◌, ◌==◌, ==-refl,
  ==_iff, if◌then◌else◌, arith,
}
use mikanos_copy.Error.{Error}
use mikanos_copy.Usb.ArrayMap
use mikanos_copy.Usb.ArrayMap.Laws.{has_free, get-put}
use mikanos_copy.Usb.Descriptor.{Memory}
use mikanos_copy.Usb.Setup.{
  Device, SetupData, same_setup, set_protocol_setup, interrupt_in_transfer, control_out_transfer,
}
use mikanos_copy.Usb.Device.{on_hid_configured, on_control_completed, on_hid_control_completed}

setup_eq :
    (a b : SetupData)
    → a.request_type ≡ b.request_type
    → a.request ≡ b.request
    → a.value ≡ b.value
    → a.index ≡ b.index
    → a.length ≡ b.length
    → a ≡ b
setup_eq a b e1 e2 e3 e4 e5 =
    λ i. record { request_type = e1 i; request = e2 i; value = e3 i; index = e4 i; length = e5 i }

five :
    (p q r s t : Bool)
    → (p && q && r && s && t) ≡ true
    → (p ≡ true) × (q ≡ true) × (r ≡ true) × (s ≡ true) × (t ≡ true)
five p q r s t h = ground (arith, h)

same_setup_refl : (a : SetupData) → same_setup a a ≡ true
same_setup_refl a =
    rw
      (
        ==-refl a.request_type,
        ==-refl a.request,
        ==-refl a.value,
        ==-refl a.index,
        ==-refl a.length,
      )
      refl

same_setup_iff : (a b : SetupData) → (same_setup a b ≡ true) ↔ (a ≡ b)
same_setup_iff a b = (
  (λ h.
      let (e1, e2, e3, e4, e5) = five _ _ _ _ _ h in
      setup_eq a b ((==_iff _ _).0 e1) ((==_iff _ _).0 e2) ((==_iff _ _).0 e3) ((==_iff _ _).0 e4)
        ((==_iff _ _).0 e5)),
  (λ e. subst (λ c. same_setup a c ≡ true) e (same_setup_refl a)),
)

configured_lem :
    (n : ℕ) (d : Device)
    → n ≢ 0
    → let asked = (on_hid_configured n d).1 in
      (asked.is_initialized ≡ d.is_initialized)
      × (asked.event_waiters
          ≡ ArrayMap.put same_setup d.event_waiters
              (set_protocol_setup (d.driver n).interface_index)
              n)
      × (asked.driver n ≡ record (d.driver n) { hid_phase = 1 })
      × (asked.transfers
          ≡ control_out_transfer (set_protocol_setup (d.driver n).interface_index) ∷ d.transfers)
unfolding on_hid_configured
configured_lem n d issuer =
    let t : (n == 0) ≡ false = ground (arith, issuer) in
    rw t (refl, refl, rw (==-refl n) refl, refl)

completed_lem :
    (n : ℕ) (d : Device)
    → (d.driver n).hid_phase ≡ 1
    → let done = (on_hid_control_completed n d).1 in
      (on_hid_control_completed n d ≡ (Error.success, done))
      × ((done.driver n).hid_phase ≡ 2)
      × (done.transfers
          ≡ interrupt_in_transfer (d.driver n).ep_interrupt_in (d.driver n).in_packet_size
            ∷ d.transfers)
unfolding on_hid_control_completed
completed_lem n d e =
    let t : ((d.driver n).hid_phase == 1) ≡ true = ground (arith, e) in
    rw t (refl, rw (==-refl n) refl, refl)

branch : {A : Type 0} (t : Bool) → t ≡ true → (x y : A) → (if t then x else y) ≡ x
branch t e x y = rw e refl

dispatched :
    (mem : Memory) (fuel : ℕ) (setup_data : SetupData) (buf len n : ℕ) (d : Device)
    → d.is_initialized ≡ true
    → ArrayMap.get same_setup d.event_waiters setup_data ≡ some n
    → on_control_completed mem fuel setup_data buf len d ≡ some (on_hid_control_completed n d)
unfolding on_control_completed
dispatched mem fuel setup_data buf len n d ready found =
    branch d.is_initialized ready _ _ ∙ rw found refl

-- A driver whose endpoints are configured asks for the boot protocol. When that is done, it asks for the
-- data of its endpoint for interrupts, as much as one packet has. The device is initialised, has a
-- free place for one that waits, and nothing waits for the same request.
pub polling :
    (mem : Memory) (fuel buf len n : ℕ) (d : Device)
    → d.is_initialized ≡ true
    → n ≢ 0
    → ArrayMap.get same_setup d.event_waiters (set_protocol_setup (d.driver n).interface_index)
      ≡ none
    → has_free d.event_waiters ≡ true
    → (done : Device) × (on_control_completed mem fuel
          (set_protocol_setup (d.driver n).interface_index)
          buf
          len
          (on_hid_configured n d).1
        ≡ some (Error.success, done))
      × ((done.driver n).hid_phase ≡ 2)
      × (done.transfers
          ≡ interrupt_in_transfer (d.driver n).ep_interrupt_in (d.driver n).in_packet_size
            ∷ control_out_transfer (set_protocol_setup (d.driver n).interface_index)
            ∷ d.transfers)
polling mem fuel buf len n d ready issuer new free =
    let setup = set_protocol_setup (d.driver n).interface_index in
    let asked = (on_hid_configured n d).1 in
    let (same, waiters, mine, transfers) = configured_lem n d issuer in
    let found : ArrayMap.get same_setup asked.event_waiters setup ≡ some n =
      ap (λ t. ArrayMap.get same_setup t setup) waiters
      ∙ get-put same_setup same_setup_iff d.event_waiters setup n setup new
      ∙ rw (free, same_setup_refl setup) refl in
    let (interrupted, hid, sent) = completed_lem n asked (ap (λ h. h.hid_phase) mine) in
    (
      (on_hid_control_completed n asked).1,
      dispatched mem fuel setup buf len n asked (same ∙ ready) found ∙ ap some interrupted,
      hid,
      sent
          ∙ ap (λ h. interrupt_in_transfer h.ep_interrupt_in h.in_packet_size ∷ asked.transfers)
              mine
          ∙ ap
              (λ rest.
                interrupt_in_transfer (d.driver n).ep_interrupt_in (d.driver n).in_packet_size
                ∷ rest)
              transfers,
    )
