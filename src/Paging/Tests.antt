-- ===== src/Paging/Tests.antt =====
-- Page tables of Kernel/paging.cpp that are set up for a few pages.
use mikanos_copy.Common.{
  ℕ, suc, ◌+◌, ◌*◌, ◌^◌, ◌≤◌, ◌≡◌, refl, ap, true, [], ◌∷◌, ◌==◌, if◌then◌else◌, arith, ℕ_discrete,
}
use mikanos_copy.Memory.{get_bit}
use mikanos_copy.Memory.Bitmap.{IsValid}
use mikanos_copy.Paging.{Machine, present, addr, setup_page_maps}
use mikanos_copy.Paging.Linear.{page, span}
use mikanos_copy.Paging.Walk.{upper_half, IsClosed}
use mikanos_copy.Paging.Setup.{MapsSetUp, setup_page_maps-SetUp}

-- The tables that `InitializePagetable` fills, as far as the first gibibyte: entry 0 of the table of
-- level 4, frame 0, leads by way of frame 2 to the large pages of frame 3.
abbrev kernel_tables : Machine
kernel_tables = record {
  manager = record { alloc_map = 13 ∷ 0 ∷ []; range_begin = 0; range_end = 70 };
  word = λ frame entry.
      if frame == 3
      then entry * 2 ^ 21 + 0x83
      else if entry == 0
      then if frame == 0 then 0x2003 else if frame == 2 then 0x3003 else 0
      else 0;
}

abbrev only_top : ℕ → ℕ
only_top frame = if frame == 0 then 4 else 0

kernel_upper : (f i : ℕ) → f ≡ 0 → 256 ≤ i → present (kernel_tables.word f i) ≡ 0
kernel_upper f i top up = ground (arith, top, up)

kernel_leads :
    (f k i : ℕ)
    → only_top f ≡ suc (suc k)
    → (k ≡ 2 → upper_half ≤ i)
    → present (kernel_tables.word f i) ≡ 1
    → only_top (addr (kernel_tables.word f i)) ≡ suc k
kernel_leads f k i e up p = elim (ℕ_discrete f 0) [
  | yes top ↦ absurd (omega (arith, p, kernel_upper f i top (up (ground (arith, e, top)))))
  | no other ↦ absurd (ground (arith, e, other))
]

kernel_tables-IsValid : IsValid kernel_tables.manager
kernel_tables-IsValid = omega arith

top_allocated : (f k : ℕ) → only_top f ≡ suc k → get_bit kernel_tables.manager f ≡ true
unfolding get_bit
top_allocated f k e = elim (ℕ_discrete f 0) [
  | yes here ↦ ap (get_bit kernel_tables.manager) here
  | no other ↦ absurd (ground (arith, e, other))
]

kernel_tables-IsClosed : IsClosed only_top kernel_tables
kernel_tables-IsClosed = record { tables = top_allocated; leads = kernel_leads }

-- Three pages around the end of a table of level 1.
setup_page_maps-SetUp_example :
    MapsSetUp only_top kernel_tables 0
      (page 0xffff8000001fe000)
      3
      (setup_page_maps kernel_tables 0 0xffff8000001fe000 3)
unfolding span
setup_page_maps-SetUp_example =
    setup_page_maps-SetUp only_top kernel_tables 0 0xffff8000001fe000 3 kernel_tables-IsValid
      kernel_tables-IsClosed refl (omega arith)
