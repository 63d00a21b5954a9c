-- ===== src/Message.antt =====
-- Kernel/message.hpp: what tasks send to one another. The source keeps the argument in a union;
-- here each kind of argument is a constructor, and a message of another kind has none. A field of
-- type `int` is the bit pattern of 32 bits.
use mikanos_copy.Common.{ℕ}

pub data LayerOperation : Type 0 where
  move move_relative draw draw_area : LayerOperation

pub data MessageType : Type 0 where
  interrupt_xhci timer_timeout key_push layer layer_finish : MessageType

pub data MessageArg : Type 0 where
  no_arg : MessageArg
  timer_arg : (timeout value : ℕ) → MessageArg
  keyboard_arg : (keycode modifier ascii : ℕ) → MessageArg
  layer_arg : (op : LayerOperation) (layer_id x y w h : ℕ) → MessageArg

pub record Message : Type 0 where
  pub type : MessageType
  pub src_task : ℕ
  pub arg : MessageArg
