-- ===== src/Error.antt =====
-- Kernel/error.hpp: the error codes, and a value beside an error. The file name and line that
-- `MAKE_ERROR` records are for the log only, and an `Error` is modelled by its code.
use mikanos_copy.Common.{Bool, true, false}

pub data Error : Type 0 where
  success full empty no_enough_memory index_out_of_range : Error
  host_controller_not_halted invalid_slot_id port_not_connected : Error
  invalid_endpoint_number transfer_ring_not_set already_allocated : Error
  not_implemented invalid_descriptor buffer_too_small unknown_device : Error
  no_corresponding_setup_stage transfer_failed invalid_phase : Error
  unknown_xhci_speed_id no_waiter no_pci_msi unknown_pixel_format : Error
  no_such_task invalid_format frame_too_small : Error

-- `operator bool`: whether there is an error.
abbrev pub is_error : Error → Bool
is_error Error.success = false
is_error e = true

pub record WithError {ℓ} (A : Type ℓ) : Type ℓ where
  pub value : A
  pub error : Error
