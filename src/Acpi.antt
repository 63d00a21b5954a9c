-- ===== src/Acpi.antt =====
-- The ACPI tables and the timer of Kernel/acpi.hpp and Kernel/acpi.cpp. The tables are read from the
-- bytes at their addresses, and the timer is the sequence of the values that its port gives.
pub mod Wait
mod Tests
use mikanos_copy.Common.{
  ℕ, zero, suc, ◌+◌, ◌-◌, ◌*◌, ◌/◌, ◌%◌, ◌^◌, Bool, true, false, List, [], ◌∷◌, Option, none, some,
  ltb, leb, not, ◌&&◌, ◌==◌, if◌then◌else◌,
}
use mikanos_copy.Common.Fields.{field}

abbrev pub Memory : Type 0
Memory = (address : ℕ) → ℕ

-- The loop of `SumBytes` from byte `i` on, with the sum so far.
unfoldable pub sum_bytes : Memory → (first rounds i sum : ℕ) → ℕ
sum_bytes memory first zero i sum = sum
sum_bytes memory first (suc rounds) i sum =
    sum_bytes memory first rounds (suc i) ((sum + memory (first + i)) % 2 ^ 8)

-- The little-endian number in `rounds` bytes.
unfoldable pub number : Memory → (address rounds : ℕ) → ℕ
number memory address zero = 0
number memory address (suc rounds) = memory address + 2 ^ 8 * number memory (address + 1) rounds

-- `strncmp(signature, expected, n) == 0` for the `n` letters of the expected signature.
unfoldable pub has_signature : Memory → ℕ → List ℕ → Bool
has_signature memory address [] = true
has_signature memory address (c ∷ cs) = memory address == c && has_signature memory (address + 1) cs

abbrev pub rsd_ptr : List ℕ
rsd_ptr = 0x52 ∷ 0x53 ∷ 0x44 ∷ 0x20 ∷ 0x50 ∷ 0x54 ∷ 0x52 ∷ 0x20 ∷ []

abbrev pub xsdt : List ℕ
xsdt = 0x58 ∷ 0x53 ∷ 0x44 ∷ 0x54 ∷ []

abbrev pub facp : List ℕ
facp = 0x46 ∷ 0x41 ∷ 0x43 ∷ 0x50 ∷ []

-- `RSDP::IsValid`. The revision is byte 15.
unfoldable pub rsdp_is_valid : Memory → ℕ → Bool
rsdp_is_valid memory rsdp =
    has_signature memory rsdp rsd_ptr
    && (memory (rsdp + 15) == 2)
    && (sum_bytes memory rsdp 20 0 0 == 0)
    && (sum_bytes memory rsdp 36 0 0 == 0)

-- `DescriptionHeader::length`.
abbrev pub header_length : Memory → ℕ → ℕ
header_length memory header = number memory (header + 4) 4

-- `DescriptionHeader::IsValid`.
unfoldable pub header_is_valid : Memory → ℕ → List ℕ → Bool
header_is_valid memory header expected =
    has_signature memory header expected
    && (sum_bytes memory header (header_length memory header) 0 0 == 0)

-- `XSDT::Count` and `XSDT::operator[]`. The header has 36 bytes.
abbrev pub count : Memory → ℕ → ℕ
count memory table = (header_length memory table + 2 ^ 64 - 36) % 2 ^ 64 / 8

abbrev pub entry : Memory → (table i : ℕ) → ℕ
entry memory table i = number memory (table + 36 + 8 * i) 8

-- The loop of `Initialize` over the entries, from entry `i` on.
unfoldable pub find_fadt : Memory → (table rounds i : ℕ) → Option ℕ
find_fadt memory table zero i = none
find_fadt memory table (suc rounds) i =
    let rest = find_fadt memory table rounds (suc i) in
    if header_is_valid memory (entry memory table i) facp then some (entry memory table i) else rest

-- `none` is `exit(1)`.
unfoldable pub initialize : Memory → (rsdp : ℕ) → Option ℕ
initialize memory rsdp =
    let table = number memory (rsdp + 24) 8 in
    if not (rsdp_is_valid memory rsdp)
    then none
    else if not (header_is_valid memory table xsdt)
    then none
    else find_fadt memory table (count memory table) 0

abbrev pub pm_timer_freq : ℕ
pm_timer_freq = 3579545

-- A loop that reads the port until a value ends it, from read `k` on: the read that ended it. `none`
-- is a loop out of fuel.
unfoldable pub wait_while : (busy : ℕ → Bool) (port : ℕ → ℕ) → (fuel k : ℕ) → Option ℕ
wait_while busy port zero k = none
wait_while busy port (suc fuel) k =
    let rest = wait_while busy port fuel (suc k) in if busy (port k) then rest else some k

-- The value of the timer to wait for.
unfoldable pub wait_end : (flags start msec : ℕ) → ℕ
wait_end flags start msec =
    let end = (start + pm_timer_freq * msec % 2 ^ 64 / 1000) % 2 ^ 32 in
    if field 8 1 flags == 1 then end else end % 2 ^ 24

-- `WaitMilliseconds`, as the last read that it makes. Read 0 gives the start.
unfoldable pub wait_milliseconds : (fuel : ℕ) (port : ℕ → ℕ) (flags msec : ℕ) → Option ℕ
wait_milliseconds fuel port flags msec =
    let start = port 0 in
    let end = wait_end flags start msec in
    if ltb end start
    then elim (wait_while (λ value. leb start value) port fuel 1) [
      | none ↦ none
      | some k ↦ wait_while (λ value. ltb value end) port fuel (suc k)
    ]
    else wait_while (λ value. ltb value end) port fuel 1
