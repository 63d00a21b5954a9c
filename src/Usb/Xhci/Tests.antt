-- ===== src/Usb/Xhci/Tests.antt =====
-- Ports of Kernel/usb/xhci/xhci.cpp: port 1 is addressed while ports 2 and 3 wait.
use mikanos_copy.Common.{ℕ, ◌<◌, ◌≡◌, ◌≢◌, refl, true, [], not, ◌==◌, if◌then◌else◌, arith}
use mikanos_copy.Error.{Error}
use mikanos_copy.Usb.Xhci.{
  on_port_status_change, not_connected, waiting_addressed, addressing_device, code, Hardware, Xhci,
  init, configure_port, reset_port, port_status_change, process_event, on_address_device,
}
use mikanos_copy.Usb.Xhci.Addressing.{IsAddressed, Good}
use mikanos_copy.Usb.Xhci.Events.{
  start, port_configured, Reachable-IsAddressed, init-IsAddressed, process_event-Good,
}
use mikanos_copy.Usb.Xhci.Starved.{waiting_starved}

-- All ports but the second are connected.
abbrev hardware : Hardware
hardware = record {
  port_at = λ port. record {
    is_connected = not (port == 2);
    is_enabled = true;
    is_port_reset_changed = true;
    speed = 3;
  };
  root_hub_port_num = λ slot. slot;
}

Reachable-IsAddressed_example :
    IsAddressed (configure_port hardware 3 (configure_port hardware 1 init).1).1
Reachable-IsAddressed_example =
    Reachable-IsAddressed
      (port_configured hardware 3 (omega arith) (port_configured hardware 1 (omega arith) start))

process_event-Good_example : Good init (process_event hardware (port_status_change 1) init)
process_event-Good_example =
    process_event-Good hardware (port_status_change 1) init (omega arith) init-IsAddressed

one_addressed : (process_event hardware (port_status_change 1) init).1.addressing_port ≡ 1
unfolding process_event on_port_status_change reset_port init
one_addressed = refl

abbrev two_wait : Xhci
two_wait = record {
  port_config_phase = λ port.
      if port == 1
      then addressing_device
      else if port == 2
      then waiting_addressed
      else if port == 3
      then waiting_addressed
      else not_connected;
  addressing_port = 1;
  has_device = λ slot. slot == 1;
  commands = [];
  resets = [];
}

before_2 : (p : ℕ) → p < 2 → code (two_wait.port_config_phase p) ≢ 1
before_2 p h = ground (arith, h)

waiting_starved_example :
    let after = (on_address_device hardware 1 two_wait).1 in
    (after.addressing_port ≡ 0)
    × (code (after.port_config_phase 3) ≡ 1)
    × (process_event hardware (port_status_change 3) after ≡ (Error.invalid_phase, after))
waiting_starved_example =
    waiting_starved hardware hardware 1 2 3 two_wait refl refl refl (omega arith) refl before_2 refl
      refl
