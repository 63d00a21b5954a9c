-- ===== src/Acpi/Tests.antt =====
-- A wait of Kernel/acpi.cpp on a timer of 24 bits.
use mikanos_copy.Common.{ℕ, ◌+◌, ◌*◌, ◌%◌, ◌^◌, ◌≤◌, ◌<◌, ◌≡◌, refl, some, arith}
use mikanos_copy.Acpi.{wait_end, wait_milliseconds}
use mikanos_copy.Acpi.Wait.{IsTimer, ticks_of, timer_size, wait_milliseconds_long_enough}

-- A read every 100 ticks, over the end of a lap.
abbrev elapsed_100 : ℕ → ℕ
elapsed_100 k = 100 * k

abbrev port_100 : ℕ → ℕ
port_100 k = (0xfffff0 + 100 * k) % 2 ^ 24

port_100-IsTimer : IsTimer (timer_size 0) (port_100 0) 100 elapsed_100 port_100
port_100-IsTimer = record {
  begins = refl;
  inside = omega arith;
  advances = λ k. omega arith;
  often = λ k. omega arith;
  value = λ k. refl;
}

end_room : wait_end 0 (port_100 0) 1 + 100 + 100 < timer_size 0
unfolding wait_end
end_room = omega arith

wait_milliseconds_long_enough_example :
    (last : ℕ) × (wait_milliseconds (2 ^ 33) port_100 0 1 ≡ some last)
    × (ticks_of 1 ≤ elapsed_100 last)
wait_milliseconds_long_enough_example =
    wait_milliseconds_long_enough (2 ^ 33) 0 1 100 elapsed_100 port_100 port_100-IsTimer
      (omega arith) end_room (omega arith) (omega arith)
