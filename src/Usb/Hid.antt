-- ===== src/Usb/Hid.antt =====
-- What a keyboard and a mouse send (Kernel/usb/classdriver/hid.cpp, keyboard.cpp and mouse.cpp of the
-- same folder). An observer is a function of what it is told and of the state that it changes.
pub mod Keys
mod Tests
use mikanos_copy.Common.{
  ℕ, zero, suc, ◌+◌, ◌-◌, Bool, true, false, not, ◌&&◌, ◌||◌, List, [], ◌∷◌, ltb, ◌==◌,
  if◌then◌else◌,
}
use mikanos_copy.Common.Int.{ℤ, pos, negsuc}
use mikanos_copy.Error.{Error}
use mikanos_copy.Usb.Descriptor.{is_in}

-- `buf_` and `previous_buf_` of a driver, and how many packets it asked for.
pub record Buffers : Type 0 where
  pub buf : ℕ → ℕ
  pub previous_buf : ℕ → ℕ
  pub asked : ℕ

abbrev pub buffer_size : ℕ
buffer_size = 1024

-- A driver that has asked for its first packet.
abbrev pub init : Buffers
init = record { buf = λ i. 0; previous_buf = λ i. 0; asked = 1 }

-- `std::find` from place `i` on.
unfoldable pub find_key : (previous_buf : ℕ → ℕ) (rounds i key : ℕ) → Bool
find_key previous_buf zero i key = false
find_key previous_buf (suc rounds) i key =
    (previous_buf i == key) || find_key previous_buf rounds (suc i) key

-- `int8_t` of a byte.
abbrev pub int8 : ℕ → ℤ
int8 b = if ltb b 128 then pos b else negsuc (255 - b)

-- The driver after a packet was put into its buffer.
abbrev pub receive : (ℕ → ℕ) → Buffers → Buffers
receive packet b = record b { buf = packet }

module _ {W : Type 0} where
  -- `NotifyKeyPush`.
  unfoldable pub notify_key_push : List (ℕ → ℕ → W → W) → (modifier keycode : ℕ) → W → W
  notify_key_push [] modifier keycode w = w
  notify_key_push (observer ∷ observers) modifier keycode w =
      notify_key_push observers modifier keycode (observer modifier keycode w)

  -- The loop of the keyboard's `OnDataReceived`.
  unfoldable pub keys_loop : List (ℕ → ℕ → W → W) → Buffers → (rounds i : ℕ) → W → W
  keys_loop observers b zero i w = w
  keys_loop observers b (suc rounds) i w =
      let key = b.buf i in
      let skip = keys_loop observers b rounds (suc i) w in
      let told = keys_loop observers b rounds (suc i) (notify_key_push observers (b.buf 0) key w) in
      if key == 0
      then skip
      else if find_key b.previous_buf (buffer_size - 2) 2 key
      then skip
      else told

  abbrev pub on_keyboard_data : List (ℕ → ℕ → W → W) → Buffers → W → W
  on_keyboard_data observers b w = keys_loop observers b 6 2 w

  -- `NotifyMouseMove` and `OnDataReceived` of the mouse.
  unfoldable pub on_mouse_data : List (ℕ → ℤ → ℤ → W → W) → Buffers → W → W
  on_mouse_data [] b w = w
  on_mouse_data (observer ∷ observers) b w =
      on_mouse_data observers b (observer (b.buf 0) (int8 (b.buf 1)) (int8 (b.buf 2)) w)

  -- `OnInterruptCompleted`, for either `OnDataReceived`.
  unfoldable pub on_interrupt_completed :
      (Buffers → W → W) → (ep_id len : ℕ) → Buffers → W → Error × Buffers × W
  on_interrupt_completed on_data_received ep_id len b w =
      if is_in ep_id
      then (
        Error.success,
        record b {
          previous_buf = λ i. if ltb i len then b.buf i else b.previous_buf i;
          asked = suc b.asked;
        },
        on_data_received b w,
      )
      else (Error.not_implemented, b, w)
