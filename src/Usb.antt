-- ===== src/Usb.antt =====
-- The parts of the USB stack under Kernel/usb/ that do not depend on the controller's registers.
pub mod Pool
pub mod ArrayMap
pub mod Ring
pub mod Xhci
pub mod Descriptor
pub mod Setup
pub mod Device
pub mod Hid
