-- ===== src/Memory/Tests.antt =====
-- Runs of the frame allocator (Kernel/memory_manager.cpp) on small maps.
use mikanos_copy.Common.{ℕ, ◌*◌, ◌≡◌, refl, List, [], ◌∷◌, ltb, arith, ◌&&◌, not}
use mikanos_copy.Error.{Error}
use mikanos_copy.Memory.{
  Manager, init, get_bit, free, allocate, allocate_from, scan, mark_allocated, set_bits, set_bit,
}
use mikanos_copy.Memory.Bitmap.{IsValid, init-IsValid}
use mikanos_copy.Memory.Alloc.{
  Outcome, manager_of, start_of, error_of, allocate-Outcome, free-allocate,
}
use mikanos_copy.Memory.Boot.{
  MemoryDescriptor, Heap, take_descriptors, available_frame, map_end, initialize_heap,
}
use mikanos_copy.Memory.Boot.Map.{get_bit-take_descriptors}
use mikanos_copy.Memory.Boot.Setup.{HeapResult, initialize_heap_lem}

-- Frames 0, 2 and 3 are taken.
abbrev busy : Manager
busy = record { alloc_map = 13 ∷ 0 ∷ []; range_begin = 0; range_end = 70 }

busy-IsValid : IsValid busy
busy-IsValid = omega arith

-- Three frames do not fit at frame 1.
allocate-busy : start_of (allocate busy 3) ≡ 4
unfolding allocate allocate_from scan get_bit mark_allocated set_bits set_bit
allocate-busy = refl

allocate-too_many : error_of (allocate busy 70) ≡ Error.no_enough_memory
unfolding allocate allocate_from scan get_bit mark_allocated set_bits set_bit
allocate-too_many = refl

busy_success : error_of (allocate busy 3) ≡ Error.success
unfolding allocate allocate_from scan get_bit mark_allocated set_bits set_bit
busy_success = refl

allocate-Outcome_example : Outcome busy 3 (allocate busy 3)
allocate-Outcome_example = allocate-Outcome busy 3 busy-IsValid

free-allocate_example :
    get_bit (free (manager_of busy (allocate busy 3)) (start_of (allocate busy 3)) 3).1 5
    ≡ get_bit busy 5
free-allocate_example = free-allocate busy 3 5 busy-IsValid busy_success

abbrev region : ℕ → ℕ → ℕ → MemoryDescriptor
region type page pages = record {
  type = type;
  physical_start = page * 4096;
  virtual_start = 0;
  number_of_pages = pages;
  attribute = 0;
}

-- One usable region, a gap, a reserved region, and a usable one.
abbrev memory_map : List MemoryDescriptor
memory_map = region 7 0 2 ∷ region 0 3 2 ∷ region 4 5 4 ∷ []

get_bit-take_descriptors_example :
    get_bit (take_descriptors memory_map init 0).0 2
    ≡ (ltb (4096 * 2) (map_end 0 memory_map) && not (available_frame memory_map 2))
get_bit-take_descriptors_example = get_bit-take_descriptors memory_map 2 (omega arith)

abbrev no_heap : Heap
no_heap = record { program_break = 0; program_break_end = 0 }

initialize_heap_lem_example : HeapResult init no_heap (initialize_heap init no_heap)
initialize_heap_lem_example = initialize_heap_lem init no_heap init-IsValid
