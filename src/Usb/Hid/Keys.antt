-- ===== src/Usb/Hid/Keys.antt =====
-- Which keys the observers of a keyboard are told of (Kernel/usb/classdriver/keyboard.cpp).
use mikanos_copy.Common.{
  ℕ, zero, suc, ◌+◌, ◌-◌, ◌≤◌, ◌<◌, ◌≡◌, ◌≢◌, refl, ap, ◌∙◌, Bool, true, false, List, [], ◌∷◌,
  length, ltb, ◌==◌, if◌then◌else◌, arith, Bool-cases, inl, inr,
}
use mikanos_copy.Error.{Error}
use mikanos_copy.Usb.Descriptor.{is_in}
use mikanos_copy.Usb.Hid.{
  Buffers, buffer_size, init, receive, find_key, notify_key_push, keys_loop, on_keyboard_data,
  on_interrupt_completed,
}

-- The keys of a packet, from place `i` on, that are not in the packet before; 0 is no key.
unfoldable pub pressed : (old new : ℕ → ℕ) (rounds i : ℕ) → List ℕ
pressed old new zero i = []
pressed old new (suc rounds) i =
    let rest = pressed old new rounds (suc i) in
    if new i == 0 then rest else if find_key old 6 2 (new i) then rest else new i ∷ rest

-- The places of a packet are those of the packet before, and the others are empty.
record Follows (previous_buf old : ℕ → ℕ) : Type 0 where
  same : (i : ℕ) → i < 8 → previous_buf i ≡ old i
  quiet : (i : ℕ) → 8 ≤ i → previous_buf i ≡ 0

find_key_quiet :
    (f : ℕ → ℕ) (rounds i key : ℕ)
    → key ≢ 0
    → ((j : ℕ) → i ≤ j → f j ≡ 0)
    → find_key f rounds i key ≡ false
unfolding find_key
find_key_quiet f zero i key k h = refl
find_key_quiet f (suc rounds) i key k h =
    let here : (f i == key) ≡ false = ground (arith, h i (omega arith), k) in
    rw here (find_key_quiet f rounds (suc i) key k (λ j later. h j (omega (arith, later))))

-- Empty places behind the ones of a packet do not matter to the search.
find_key_short :
    (f g : ℕ → ℕ) (few rounds i key : ℕ)
    → few ≤ rounds
    → key ≢ 0
    → ((j : ℕ) → j < i + few → f j ≡ g j)
    → ((j : ℕ) → i + few ≤ j → f j ≡ 0)
    → find_key f rounds i key ≡ find_key g few i key
unfolding find_key
find_key_short f g zero rounds i key le k same quiet =
    find_key_quiet f rounds i key k (λ j later. quiet j (omega (arith, later)))
find_key_short f g (suc few) zero i key le k same quiet = absurd (omega (arith, le))
find_key_short f g (suc few) (suc rounds) i key le k same quiet =
    let rest =
      find_key_short f g few rounds (suc i) key (omega (arith, le)) k
        (λ j before. same j (omega (arith, before))) (λ j later. quiet j (omega (arith, later))) in
    rw (same i (omega arith), rest) refl

module _ {W : Type 0} (observers : List (ℕ → ℕ → W → W)) where
  unfoldable pub tell : (modifier : ℕ) → List ℕ → W → W
  tell modifier [] w = w
  tell modifier (key ∷ keys) w = tell modifier keys (notify_key_push observers modifier key w)

  -- What the observers should be told of some packets, each after the one before.
  unfoldable pub typed : (old : ℕ → ℕ) → List (ℕ → ℕ) → W → W
  typed old [] w = w
  typed old (packet ∷ packets) w = typed packet packets (tell (packet 0) (pressed old packet 6 2) w)

  -- Packets of eight bytes that come from an endpoint one after the other.
  unfoldable pub packets_received : (ep_id : ℕ) → List (ℕ → ℕ) → Buffers → W → Buffers × W
  packets_received ep_id [] b w = (b, w)
  packets_received ep_id (packet ∷ packets) b w =
      let (err, next, told) =
        on_interrupt_completed (on_keyboard_data observers) ep_id 8 (receive packet b) w in
      packets_received ep_id packets next told

  keys_loop_lem :
      (old : ℕ → ℕ) (b : Buffers) (rounds i : ℕ) (w : W)
      → Follows b.previous_buf old
      → keys_loop observers b rounds i w ≡ tell (b.buf 0) (pressed old b.buf rounds i) w
  unfolding keys_loop tell pressed
  keys_loop_lem old b zero i w f = refl
  keys_loop_lem old b (suc rounds) i w f = elim (Bool-cases (b.buf i == 0)) [
    | inl e ↦ rw e (keys_loop_lem old b rounds (suc i) w f)
    | inr e ↦
        let found =
          find_key_short b.previous_buf old 6 (buffer_size - 2) 2 (b.buf i) (omega arith)
            (some_key (b.buf i) e) (λ j before. f.same j before) (λ j later. f.quiet j later) in
        elim (Bool-cases (find_key old 6 2 (b.buf i))) [
          | inl held ↦ rw (e, found, held) (keys_loop_lem old b rounds (suc i) w f)
          | inr free ↦
              rw (e, found, free)
                (keys_loop_lem old b rounds (suc i)
                  (notify_key_push observers (b.buf 0) (b.buf i) w) f)
        ]
  ]
    where
      some_key : (key : ℕ) → (key == 0) ≡ false → key ≢ 0
      some_key key t = ground (arith, t)

  received :
      (ep_id : ℕ) (packet : ℕ → ℕ) (b : Buffers) (w : W)
      → is_in ep_id ≡ true
      → on_interrupt_completed (on_keyboard_data observers) ep_id 8 (receive packet b) w ≡ (
        Error.success,
        record b {
          buf = packet;
          previous_buf = λ i. if ltb i 8 then packet i else b.previous_buf i;
          asked = suc b.asked;
        },
        on_keyboard_data observers (receive packet b) w,
      )
  unfolding on_interrupt_completed
  received ep_id packet b w e = rw e refl

  next-Follows :
      (packet previous_buf old : ℕ → ℕ)
      → Follows previous_buf old
      → Follows (λ i. if ltb i 8 then packet i else previous_buf i) packet
  next-Follows packet previous_buf old f = record {
    same = λ i before. first (ltb i 8) (packet i) (previous_buf i) (inside i before);
    quiet =
        λ i later. second (ltb i 8) (packet i) (previous_buf i) (outside i later) ∙ f.quiet i later;
  }
    where
      inside : (i : ℕ) → i < 8 → ltb i 8 ≡ true
      inside i h = ground (arith, h)

      outside : (i : ℕ) → 8 ≤ i → ltb i 8 ≡ false
      outside i h = ground (arith, h)

      first : (t : Bool) (x y : ℕ) → t ≡ true → (if t then x else y) ≡ x
      first t x y e = rw e refl

      second : (t : Bool) (x y : ℕ) → t ≡ false → (if t then x else y) ≡ y
      second t x y e = rw e refl

  packets_received_lem :
      (ep_id : ℕ)
      → is_in ep_id ≡ true
      → (old : ℕ → ℕ) (packets : List (ℕ → ℕ)) (b : Buffers) (w : W) → Follows b.previous_buf old
      → ((packets_received ep_id packets b w).1 ≡ typed old packets w)
        × ((packets_received ep_id packets b w).0.asked ≡ b.asked + length packets)
  unfolding packets_received typed
  packets_received_lem ep_id e old [] b w f = (refl, omega arith)
  packets_received_lem ep_id e old (packet ∷ packets) b w f =
      let now : Buffers = record b {
        buf = packet;
        previous_buf = λ i. if ltb i 8 then packet i else b.previous_buf i;
        asked = suc b.asked;
      } in
      let (rest, asked) =
        packets_received_lem ep_id e packet packets now
          (keys_loop observers (receive packet b) 6 2 w)
          (next-Follows packet b.previous_buf old f) in
      let told = keys_loop_lem old (receive packet b) 6 2 w f in
      let step : packets_received ep_id (packet ∷ packets) b w
          ≡ packets_received ep_id packets now (keys_loop observers (receive packet b) 6 2 w) =
        ap (λ r. packets_received ep_id packets r.1 r.2) (received ep_id packet b w e) in
      (
        ap (λ r. r.1) step ∙ rest ∙ ap (typed packet packets) told,
        ap (λ r. r.0.asked) step ∙ asked ∙ omega arith,
      )

-- A new driver of a keyboard whose packets of eight bytes come from an endpoint for input tells its
-- observers, in order, of the keys of each packet that were not in the packet before, with the
-- modifier of the packet, and asks for one more packet after each.
pub keyboard_packets :
    {W : Type 0} (observers : List (ℕ → ℕ → W → W)) (ep_id : ℕ)
    → is_in ep_id ≡ true
    → (packets : List (ℕ → ℕ)) (w : W)
    → ((packets_received observers ep_id packets init w).1 ≡ typed observers (λ i. 0) packets w)
      × ((packets_received observers ep_id packets init w).0.asked ≡ suc (length packets))
keyboard_packets observers ep_id e packets w =
    let start : Follows init.previous_buf (λ i. 0) = record {
      same = λ i h. refl;
      quiet = λ i h. refl;
    } in
    let (told, asked) = packets_received_lem observers ep_id e (λ i. 0) packets init w start in
    (told, omega (arith, asked))
