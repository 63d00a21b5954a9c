-- ===== src/Pci/Scan.antt =====
-- The scan of the PCI buses (Kernel/pci.cpp) ends, since each bus behind a bridge takes a place of
-- the table of devices, and it finds what is present.
use mikanos_copy.Common.{
  ℕ, zero, suc, ◌+◌, ◌-◌, ◌≤◌, ◌<◌, ◌≡◌, ◌≢◌, refl, subst, true, false, some, List, [], ◌∷◌, ◌++◌,
  length, length-append, ◌==◌, if◌then◌else◌, arith, Bool-cases, inl, inr, ℕ_discrete,
}
use mikanos_copy.Common.Fields.{field}
use mikanos_copy.Error.{Error}
use mikanos_copy.Pci.{
  Device, max_devices, add_device, Scanning, match_class, is_single_function_device, read_vendor_id,
  read_header_type, read_class_code, read_bus_numbers, scan_function, scan_functions, scan_device,
  scan_devices, scan_bus, scan_hosts, scan_all_bus,
}
use mikanos_copy.Pci.Table.{
  HasFunction, Grows, Grows-HasFunction, HasFunctions, HasDevice, HasDevices, HasBus, HasBehind,
  Grows-HasDevice, Grows-HasBus, Scanned, unchanged, restated, table_full, one_more,
  Scanned-and_then, if_present, by_test,
}

-- What is said of the functions, or devices, from one on: it holds for that one, and for the rest.
from_first :
    {P : ℕ → Type 0} (first rounds : ℕ)
    → P first
    → ((n : ℕ) → suc first ≤ n → n < suc first + rounds → P n)
    → (n : ℕ) → first ≤ n
    → n < first + suc rounds
    → P n
from_first {P = P} first rounds here rest n a b = elim (ℕ_discrete first n) [
  | yes same ↦ subst P same here
  | no further ↦ rest n (omega (arith, a, further)) (omega (arith, b))
]

Grows_if : (P : Type 0) (has : List Device → Type 0) → Grows has → Grows (λ t. P → has t)
unfolding Grows
Grows_if P has g xs ys h p = g xs ys (h p)

module _ (config : ℕ → ℕ) where
  -- A further bus can be scanned when one more device is there.
  module _ (least : ℕ) (scan : ℕ → List Device → Scanning)
      (good : (bus : ℕ) (devices : List Device)
        → suc least ≤ length devices
        → length devices ≤ max_devices
        → Scanned config (λ t. HasBus config t bus) devices (scan bus devices)) where
    scan_function-Scanned :
        (bus device function : ℕ) (devices : List Device)
        → least ≤ length devices
        → length devices ≤ max_devices
        → read_vendor_id config bus device function ≢ 0xffff
        → Scanned config
            (λ t. HasFunction t bus device function)
            devices
            (scan_function config scan bus device function devices)
    unfolding scan_function add_device
    scan_function-Scanned bus device function devices l h p =
        elim (Bool-cases (length devices == max_devices)) [
          | inl full ↦ rw full (
              table_full config (λ t. HasFunction t bus device function) devices
                (ground (arith, full)))
          | inr free ↦ rw free (
              one_more config devices d (next (devices ++ d ∷ [])) (p, refl, refl) (λ t has. has)
                (bridge (omega (arith, l, length-append devices (d ∷ [])))
                  (ground (arith, free, h, length-append devices (d ∷ [])))))
        ]
      where
        d : Device
        d = record {
          bus = bus;
          device = device;
          function = function;
          header_type = read_header_type config bus device function;
          class_code = read_class_code config bus device function;
        }

        behind : ℕ
        behind = field 8 8 (read_bus_numbers config bus device function)

        next : List Device → Scanning
        next devices' =
            if match_class (read_class_code config bus device function) 0x06 0x04
            then scan behind devices'
            else some (Error.success, devices')

        bridge :
            suc least ≤ length (devices ++ d ∷ [])
            → length (devices ++ d ∷ []) ≤ max_devices
            → Scanned config
                (λ t. HasBehind config t d)
                (devices ++ d ∷ [])
                (next (devices ++ d ∷ []))
        bridge m n =
            restated config (λ t. HasBehind config t d) (λ t both. both.0)
              (by_test config (match_class (read_class_code config bus device function) 0x06 0x04)
                (λ _. good behind (devices ++ d ∷ []) m n)
                (λ _. unchanged config (λ t. Unit {0}) (devices ++ d ∷ []) n tt))

    scan_functions-Scanned :
        (bus device rounds function : ℕ) (devices : List Device)
        → least ≤ length devices
        → length devices ≤ max_devices
        → Scanned config
            (λ t. HasFunctions config t bus device function (function + rounds))
            devices
            (scan_functions config scan bus device rounds function devices)
    unfolding scan_functions
    scan_functions-Scanned bus device zero function devices l h =
        unchanged config (λ t. HasFunctions config t bus device function (function + 0)) devices h
          (λ f a b. absurd (omega (arith, a, b)))
    scan_functions-Scanned bus device (suc rounds) function devices l h =
        let v = read_vendor_id config bus device function in
        let s =
          if_present config (λ t. HasFunction t bus device function) v devices
            (scan_function config scan bus device function devices) h
            (scan_function-Scanned bus device function devices l h) in
        restated config (λ t. HasFunctions config t bus device function (function + suc rounds))
          (λ t both. from_first function rounds both.0 both.1)
          (Scanned-and_then config devices _
            (scan_functions config scan bus device rounds (suc function))
            (Grows_if (v ≢ 0xffff) _ (Grows-HasFunction bus device function)) s
            (λ longer.
              scan_functions-Scanned bus device rounds (suc function) s.after
                (omega (arith, l, longer)) s.room))

    -- The functions from 1 on are those of a device that has several.
    other_functions :
        (bus device : ℕ) (devices : List Device)
        → least ≤ length devices
        → length devices ≤ max_devices
        → Scanned config
            (λ t.
              is_single_function_device (read_header_type config bus device 0) ≡ false
              → HasFunctions config t bus device 1 8)
            devices
            (if is_single_function_device (read_header_type config bus device 0)
              then some (Error.success, devices)
              else scan_functions config scan bus device 7 1 devices)
    other_functions bus device devices l h =
        restated config _ (λ t both. both.1)
          (by_test config (is_single_function_device (read_header_type config bus device 0))
            (λ _. unchanged config (λ t. Unit {0}) devices h tt)
            (λ _. scan_functions-Scanned bus device 7 1 devices l h))

    scan_device-Scanned :
        (bus device : ℕ) (devices : List Device)
        → least ≤ length devices
        → length devices ≤ max_devices
        → read_vendor_id config bus device 0 ≢ 0xffff
        → Scanned config
            (λ t. HasDevice config t bus device)
            devices
            (scan_device config scan bus device devices)
    unfolding scan_device HasDevice
    scan_device-Scanned bus device devices l h p =
        let s = scan_function-Scanned bus device 0 devices l h p in
        Scanned-and_then config devices _ _ (Grows-HasFunction bus device 0) s
          (λ longer. other_functions bus device s.after (omega (arith, l, longer)) s.room)

    scan_devices-Scanned :
        (bus rounds device : ℕ) (devices : List Device)
        → least ≤ length devices
        → length devices ≤ max_devices
        → Scanned config
            (λ t. HasDevices config t bus device (device + rounds))
            devices
            (scan_devices config scan bus rounds device devices)
    unfolding scan_devices
    scan_devices-Scanned bus zero device devices l h =
        unchanged config (λ t. HasDevices config t bus device (device + 0)) devices h
          (λ d a b. absurd (omega (arith, a, b)))
    scan_devices-Scanned bus (suc rounds) device devices l h =
        let v = read_vendor_id config bus device 0 in
        let s =
          if_present config (λ t. HasDevice config t bus device) v devices
            (scan_device config scan bus device devices) h
            (scan_device-Scanned bus device devices l h) in
        restated config (λ t. HasDevices config t bus device (device + suc rounds))
          (λ t both. from_first device rounds both.0 both.1)
          (Scanned-and_then config devices _ (scan_devices config scan bus rounds (suc device))
            (Grows_if (v ≢ 0xffff) _ (Grows-HasDevice config bus device)) s
            (λ longer.
              scan_devices-Scanned bus rounds (suc device) s.after (omega (arith, l, longer))
                s.room))

  scan_bus-Scanned :
      (fuel bus : ℕ) (devices : List Device)
      → max_devices < fuel + length devices
      → length devices ≤ max_devices
      → Scanned config (λ t. HasBus config t bus) devices (scan_bus config fuel bus devices)
  unfolding scan_bus HasBus
  scan_bus-Scanned zero bus devices l h = absurd (omega (arith, l, h))
  scan_bus-Scanned (suc fuel) bus devices l h =
      scan_devices-Scanned (max_devices - fuel) (scan_bus config fuel)
        (λ next found m n. scan_bus-Scanned fuel next found (omega (arith, m, n)) n) bus 32 0
        devices (omega (arith, l)) h

  -- The table has the bus of each of the functions of the host bridge from one on that answers.
  abbrev pub HasHosts : List Device → (first last : ℕ) → Type 0
  HasHosts t first last =
      (function : ℕ)
      → first ≤ function
      → function < last
      → read_vendor_id config 0 0 function ≢ 0xffff
      → HasBus config t function

  scan_hosts-Scanned :
      (rounds function : ℕ) (devices : List Device)
      → length devices ≤ max_devices
      → Scanned config
          (λ t. HasHosts t function (function + rounds))
          devices
          (scan_hosts config (max_devices + 1) rounds function devices)
  unfolding scan_hosts
  scan_hosts-Scanned zero function devices h =
      unchanged config (λ t. HasHosts t function (function + 0)) devices h
        (λ f a b. absurd (omega (arith, a, b)))
  scan_hosts-Scanned (suc rounds) function devices h =
      let v = read_vendor_id config 0 0 function in
      let s =
        if_present config (λ t. HasBus config t function) v devices
          (scan_bus config (max_devices + 1) function devices) h
          (λ _. scan_bus-Scanned (max_devices + 1) function devices (omega arith) h) in
      restated config (λ t. HasHosts t function (function + suc rounds))
        (λ t both. from_first function rounds both.0 both.1)
        (Scanned-and_then config devices _
          (scan_hosts config (max_devices + 1) rounds (suc function))
          (Grows_if (v ≢ 0xffff) _ (Grows-HasBus config function)) s
          (λ longer. scan_hosts-Scanned rounds (suc function) s.after s.room))

  -- The buses that the scan begins with: bus 0, or that of each function of the host bridge.
  abbrev pub HasAll : List Device → Type 0
  HasAll t =
      (is_single_function_device (read_header_type config 0 0 0) ≡ true → HasBus config t 0)
      × (is_single_function_device (read_header_type config 0 0 0) ≡ false → HasHosts t 0 8)

  -- The scan of all buses ends, whatever the bridges say. It puts only devices into its table that
  -- answer, with the header types and classes they have, and fails only when the table is full. When it
  -- succeeds, the table has every device of bus 0 that answers, or of the bus of each function of the
  -- host bridge when that has several, and of the buses behind all bridges in the table: its function 0
  -- and, when it has several, each of the eight that answers.
  pub scan_all_bus-Scanned : Scanned config HasAll [] (scan_all_bus config)
  unfolding scan_all_bus
  scan_all_bus-Scanned =
      by_test config (is_single_function_device (read_header_type config 0 0 0))
        (λ _. scan_bus-Scanned (max_devices + 1) 0 [] (omega arith) (omega arith))
        (λ _. scan_hosts-Scanned 8 0 [] (omega arith))
