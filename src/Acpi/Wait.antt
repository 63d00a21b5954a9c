-- ===== src/Acpi/Wait.antt =====
-- `WaitMilliseconds` (Kernel/acpi.cpp) waits long enough, and ends.
use mikanos_copy.Common.{
  ℕ, zero, suc, ◌+◌, ◌-◌, ◌*◌, ◌/◌, ◌%◌, ◌^◌, ◌≤◌, ◌<◌, ◌≡◌, refl, ap, subst, Bool, true, false,
  some, ltb, leb, ◌==◌, if◌then◌else◌, arith, Bool-cases, ◌⊎◌, inl, inr, dec_lt, ℕ_discrete,
}
use mikanos_copy.Common.Fields.{field}
use mikanos_copy.Acpi.{pm_timer_freq, wait_while, wait_end, wait_milliseconds}

-- A loop ends at the latest at a read whose value ends it.
wait_while_lem :
    (busy : ℕ → Bool) (port : ℕ → ℕ) (fuel k j : ℕ)
    → k ≤ j
    → j < k + fuel
    → busy (port j) ≡ false
    → (i : ℕ) × (wait_while busy port fuel k ≡ some i) × (k ≤ i) × (i ≤ j) × (busy (port i) ≡ false)
unfolding wait_while
wait_while_lem busy port zero k j h b e = absurd (omega (arith, h, b))
wait_while_lem busy port (suc fuel) k j h b e = elim (Bool-cases (busy (port k))) [
  | inr done ↦ rw done (k, refl, omega arith, h, done)
  | inl more ↦ elim (ℕ_discrete k j) [
    | yes same ↦ absurd (ground (arith, more, e, ap (λ n. busy (port n)) same))
    | no apart ↦
        let (i, found, low, high, done) =
          wait_while_lem busy port fuel (suc k) j (omega (arith, h, apart)) (omega (arith, b)) e in
        rw more (i, found, omega (arith, low), high, done)
  ]
]

ltb-false : (a b : ℕ) → b ≤ a → ltb a b ≡ false
ltb-false a b h = ground (arith, h)

leb-false : (a b : ℕ) → b < a → leb a b ≡ false
leb-false a b h = ground (arith, h)

not_ltb : (a b : ℕ) → ltb a b ≡ false → b ≤ a
not_ltb a b h = ground (arith, h)

not_leb : (a b : ℕ) → leb a b ≡ false → b < a
not_leb a b h = ground (arith, h)

-- A timer that counts from `start` up to `size` and then from 0 again, as it is read: `elapsed` ticks
-- after the first read. Between two reads it goes on by at least one tick and at most `gap`.
pub record IsTimer (size start gap : ℕ) (elapsed port : ℕ → ℕ) : Type 0 where
  pub begins : elapsed 0 ≡ 0
  pub inside : start < size
  pub advances : (k : ℕ) → elapsed k < elapsed (suc k)
  pub often : (k : ℕ) → elapsed (suc k) ≤ elapsed k + gap
  pub value : (k : ℕ) → port k ≡ (start + elapsed k) % size

-- What the value says of the time, without the remainder.
record IsClock (size start gap : ℕ) (elapsed port : ℕ → ℕ) : Type 0 where
  begins : elapsed 0 ≡ 0
  inside : start < size
  advances : (k : ℕ) → elapsed k < elapsed (suc k)
  often : (k : ℕ) → elapsed (suc k) ≤ elapsed k + gap
  first_lap : (k : ℕ) → start + elapsed k < size → port k ≡ start + elapsed k
  next_lap :
      (k : ℕ)
      → size ≤ start + elapsed k
      → start + elapsed k < size + size
      → port k + size ≡ start + elapsed k
  later : (k : ℕ) → size ≤ start + elapsed k → port k + size ≤ start + elapsed k
  at_most : (k : ℕ) → port k ≤ start + elapsed k

module _ {size start gap : ℕ} {elapsed port : ℕ → ℕ} (c : IsClock size start gap elapsed port) where
  monotone : (j i : ℕ) → i ≤ j → elapsed i ≤ elapsed j
  monotone zero i h = omega (arith, ap elapsed (zero_only i h))
    where
      zero_only : (n : ℕ) → n ≤ 0 → n ≡ 0
      zero_only n e = omega (arith, e)
  monotone (suc j) i h = elim (ℕ_discrete i (suc j)) [
    | yes same ↦ omega (arith, ap elapsed same)
    | no apart ↦ omega (arith, monotone j i (omega (arith, h, apart)), c.advances j)
  ]

  -- The first read from `k` on at which `ticks` have gone by is not more than `slack` late.
  crossing :
      (n k ticks slack : ℕ)
      → gap ≤ slack
      → elapsed k ≤ ticks + slack
      → ticks ≤ elapsed k + n
      → (j : ℕ) × (k ≤ j) × (j ≤ k + n) × (ticks ≤ elapsed j) × (elapsed j ≤ ticks + slack)
  crossing zero k ticks slack g h e = (k, omega arith, omega arith, omega (arith, e), h)
  crossing (suc n) k ticks slack g h e = elim (dec_lt (elapsed k) ticks) [
    | no reached ↦ (k, omega arith, omega arith, omega (arith, reached), h)
    | yes before ↦
        let (j, low, high, from, to) =
          crossing n (suc k) ticks slack g (omega (arith, g, before, c.often k))
            (omega (arith, e, c.advances k)) in
        (j, omega (arith, low), omega (arith, high), from, to)
  ]

  one_read : elapsed 1 ≤ gap
  one_read = omega (arith, c.begins, c.often 0)

  -- The value to wait for is ahead in the same lap.
  wait_ahead :
      (fuel ticks fin : ℕ)
      → fin ≡ start + ticks
      → fin + gap + gap < size
      → size < fuel
      → (last : ℕ) × (wait_while (λ value. ltb value fin) port fuel 1 ≡ some last)
        × (ticks ≤ elapsed last)
  wait_ahead fuel ticks fin e room enough =
      let (j, low, high, from, to) =
        crossing ticks 1 ticks gap (omega arith) (omega (arith, one_read)) (omega arith) in
      let there : port j ≡ start + elapsed j = c.first_lap j (omega (arith, e, room, to)) in
      let (i, found, after, before, done) =
        wait_while_lem (λ value. ltb value fin) port fuel 1 j low
          (omega (arith, high, e, room, enough))
          (ltb-false (port j) fin (omega (arith, there, e, from))) in
      let reached : fin ≤ port i = not_ltb (port i) fin done in
      (i, found, omega (arith, reached, c.at_most i, e))

  wraps : (k : ℕ) → port k < start → size ≤ start + elapsed k
  wraps k h = elim (dec_lt (start + elapsed k) size) [
    | no beyond ↦ omega (arith, beyond)
    | yes same_lap ↦ absurd (omega (arith, h, c.first_lap k same_lap))
  ]

  -- The first loop leaves the lap of the start.
  wait_wrap :
      (fuel : ℕ)
      → gap < start
      → size < fuel
      → (k : ℕ) × (wait_while (λ value. leb start value) port fuel 1 ≡ some k)
        × (size ≤ start + elapsed k)
        × (start + elapsed k ≤ size + gap)
  wait_wrap fuel small enough =
      let (j, low, high, from, to) =
        crossing (size - start) 1 (size - start) gap (omega arith) (omega (arith, one_read))
          (omega arith) in
      let there : port j + size ≡ start + elapsed j =
        c.next_lap j (omega (arith, from, c.inside)) (omega (arith, to, small, c.inside)) in
      let (k, found, after, before, done) =
        wait_while_lem (λ value. leb start value) port fuel 1 j low
          (omega (arith, high, enough, small))
          (leb-false start (port j) (omega (arith, there, to, small, c.inside))) in
      (
        k,
        found,
        wraps k (not_leb start (port k) done),
        omega (arith, monotone j k before, to, c.inside),
      )

  -- The second loop waits for the value in the next lap.
  wait_next :
      (fuel ticks fin k : ℕ)
      → fin + size ≡ start + ticks
      → size ≤ start + elapsed k
      → start + elapsed k ≤ size + gap
      → fin + gap + gap < size
      → size < fuel
      → (last : ℕ) × (wait_while (λ value. ltb value fin) port fuel (suc k) ≡ some last)
        × (ticks ≤ elapsed last)
  wait_next fuel ticks fin k e wrapped late room enough =
      let (j, low, high, from, to) =
        crossing (ticks - elapsed k) (suc k) ticks (gap + gap) (omega arith)
          (omega (arith, c.often k, late, e)) (omega (arith, c.advances k)) in
      let there : port j + size ≡ start + elapsed j =
        c.next_lap j (omega (arith, from, e)) (omega (arith, to, e, room)) in
      let (last, found, after, before, done) =
        wait_while_lem (λ value. ltb value fin) port fuel (suc k) j low
          (omega (arith, high, e, enough, wrapped, room))
          (ltb-false (port j) fin (omega (arith, there, e, from))) in
      (
        last,
        found,
        long_enough last (not_ltb (port last) fin done) (monotone last k (omega (arith, after))),
      )
    where
      long_enough : (n : ℕ) → fin ≤ port n → elapsed k ≤ elapsed n → ticks ≤ elapsed n
      long_enough n reached more =
          omega (arith, reached, e, c.later n (omega (arith, wrapped, more)))

-- The ticks to wait for.
abbrev pub ticks_of : ℕ → ℕ
ticks_of msec = pm_timer_freq * msec / 1000

-- The size of the timer: 32 bits when the flag says so, and else 24.
abbrev pub timer_size : ℕ → ℕ
timer_size flags = if field 8 1 flags == 1 then 2 ^ 32 else 2 ^ 24

IsTimer-IsClock_24 :
    {start gap : ℕ} {elapsed port : ℕ → ℕ}
    → IsTimer (2 ^ 24) start gap elapsed port
    → IsClock (2 ^ 24) start gap elapsed port
IsTimer-IsClock_24 t = record {
  begins = t.begins;
  inside = t.inside;
  advances = t.advances;
  often = t.often;
  first_lap = λ k h. omega (arith, t.value k, h);
  next_lap = λ k h e. omega (arith, t.value k, h, e);
  later = λ k h. omega (arith, t.value k, h);
  at_most = λ k. omega (arith, t.value k);
}

IsTimer-IsClock_32 :
    {start gap : ℕ} {elapsed port : ℕ → ℕ}
    → IsTimer (2 ^ 32) start gap elapsed port
    → IsClock (2 ^ 32) start gap elapsed port
IsTimer-IsClock_32 t = record {
  begins = t.begins;
  inside = t.inside;
  advances = t.advances;
  often = t.often;
  first_lap = λ k h. omega (arith, t.value k, h);
  next_lap = λ k h e. omega (arith, t.value k, h, e);
  later = λ k h. omega (arith, t.value k, h);
  at_most = λ k. omega (arith, t.value k);
}

-- The wait with a timer of a size, in both cases of its end.
wait_clock :
    {size gap : ℕ} {elapsed port : ℕ → ℕ} (fuel flags msec : ℕ)
    → IsClock size (port 0) gap elapsed port
    → ticks_of msec < size
    → (wait_end flags (port 0) msec ≡ port 0 + ticks_of msec)
      ⊎ (wait_end flags (port 0) msec + size ≡ port 0 + ticks_of msec)
    → wait_end flags (port 0) msec + gap + gap < size
    → gap < port 0
    → size < fuel
    → (last : ℕ) × (wait_milliseconds fuel port flags msec ≡ some last)
      × (ticks_of msec ≤ elapsed last)
unfolding wait_milliseconds
wait_clock {port = port} fuel flags msec c fits (inl ahead) room small enough =
    let not_behind = ltb-false (wait_end flags (port 0) msec) (port 0) (omega (arith, ahead)) in
    rw not_behind
      (wait_ahead c fuel (ticks_of msec) (wait_end flags (port 0) msec) ahead room enough)
wait_clock {port = port} fuel flags msec c fits (inr lap) room small enough =
    let behind : ltb (wait_end flags (port 0) msec) (port 0) ≡ true =
      is_behind _ _ (omega (arith, lap, fits)) in
    let (k, first, wrapped, late) = wait_wrap c fuel small enough in
    let (last, second, long) =
      wait_next c fuel (ticks_of msec) (wait_end flags (port 0) msec) k lap wrapped late room
        enough in
    rw (behind, first, second) (last, refl, long)
  where
    is_behind : (a b : ℕ) → a < b → ltb a b ≡ true
    is_behind a b h = ground (arith, h)

wait_end_32 :
    (flags start msec : ℕ)
    → (field 8 1 flags == 1) ≡ true
    → wait_end flags start msec ≡ (start + pm_timer_freq * msec % 2 ^ 64 / 1000) % 2 ^ 32
unfolding wait_end
wait_end_32 flags start msec wide = rw wide refl

wait_end_24 :
    (flags start msec : ℕ)
    → (field 8 1 flags == 1) ≡ false
    → wait_end flags start msec ≡ (start + pm_timer_freq * msec % 2 ^ 64 / 1000) % 2 ^ 32 % 2 ^ 24
unfolding wait_end
wait_end_24 flags start msec narrow = rw narrow refl

-- The value to wait for is in this lap or in the next.
ends_32 :
    (fin start msec : ℕ)
    → fin ≡ (start + pm_timer_freq * msec % 2 ^ 64 / 1000) % 2 ^ 32
    → start < 2 ^ 32
    → ticks_of msec < 2 ^ 32
    → (fin ≡ start + ticks_of msec) ⊎ (fin + 2 ^ 32 ≡ start + ticks_of msec)
ends_32 fin start msec e h k = elim (dec_lt (start + ticks_of msec) (2 ^ 32)) [
  | yes this_lap ↦ inl (omega (arith, e, this_lap))
  | no next_lap ↦ inr (omega (arith, e, next_lap, h, k))
]

ends_24 :
    (fin start msec : ℕ)
    → fin ≡ (start + pm_timer_freq * msec % 2 ^ 64 / 1000) % 2 ^ 32 % 2 ^ 24
    → start < 2 ^ 24
    → ticks_of msec < 2 ^ 24
    → (fin ≡ start + ticks_of msec) ⊎ (fin + 2 ^ 24 ≡ start + ticks_of msec)
ends_24 fin start msec e h k = elim (dec_lt (start + ticks_of msec) (2 ^ 24)) [
  | yes this_lap ↦ inl (omega (arith, e, this_lap))
  | no next_lap ↦ inr (omega (arith, e, next_lap, h, k))
]

-- `WaitMilliseconds` ends, and at its last read at least as many ticks have gone by since the first as the milliseconds
-- have, when the timer is read so often that it cannot pass by the values that the loops wait for: it goes on by no more
-- than `gap` ticks between two reads, its start is more than `gap` and the value to wait for more than twice `gap` below
-- its size. It is for fewer ticks than the timer counts.
pub wait_milliseconds_long_enough :
    (fuel flags msec gap : ℕ) (elapsed port : ℕ → ℕ)
    → IsTimer (timer_size flags) (port 0) gap elapsed port
    → ticks_of msec < timer_size flags
    → wait_end flags (port 0) msec + gap + gap < timer_size flags
    → gap < port 0
    → 2 ^ 32 < fuel
    → (last : ℕ) × (wait_milliseconds fuel port flags msec ≡ some last)
      × (ticks_of msec ≤ elapsed last)
wait_milliseconds_long_enough fuel flags msec gap elapsed port t fits room small enough =
    elim (Bool-cases (field 8 1 flags == 1)) [
      | inl wide ↦
          let size : timer_size flags ≡ 2 ^ 32 = rw wide refl in
          let timer = subst (λ n. IsTimer n (port 0) gap elapsed port) size t in
          let fits' : ticks_of msec < 2 ^ 32 = omega (arith, fits, size) in
          let fin = wait_end_32 flags (port 0) msec wide in
          wait_clock fuel flags msec (IsTimer-IsClock_32 timer) fits'
            (ends_32 _ (port 0) msec fin timer.inside fits') (omega (arith, room, size)) small
            enough
      | inr narrow ↦
          let size : timer_size flags ≡ 2 ^ 24 = rw narrow refl in
          let timer = subst (λ n. IsTimer n (port 0) gap elapsed port) size t in
          let fits' : ticks_of msec < 2 ^ 24 = omega (arith, fits, size) in
          let fin = wait_end_24 flags (port 0) msec narrow in
          wait_clock fuel flags msec (IsTimer-IsClock_24 timer) fits'
            (ends_24 _ (port 0) msec fin timer.inside fits') (omega (arith, room, size)) small
            (omega (arith, enough))
    ]
