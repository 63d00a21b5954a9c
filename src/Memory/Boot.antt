-- ===== src/Memory/Boot.antt =====
-- Kernel/memory_map.hpp, and the functions of Kernel/memory_manager.cpp that run once: they mark
-- what the firmware's memory map does not leave to the kernel, and set the kernel's heap aside.
-- The map is the list of its descriptors, in the order in which the source steps through the buffer.
pub mod Map
pub mod Setup
use mikanos_copy.Common.{
  ℕ, zero, suc, ◌+◌, ◌-◌, ◌*◌, ◌/◌, ◌%◌, ◌^◌, ◌≤◌, ◌<◌, ◌≡◌, refl, sym, ap, ◌∙◌, Bool, true, false,
  not, ◌&&◌, ◌||◌, Option, none, some, List, [], ◌∷◌, add64, leb, ltb, ◌==◌, if◌then◌else◌, arith,
}
use mikanos_copy.Error.{Error, WithError, is_error}
use mikanos_copy.Memory.{
  Manager, bytes_per_frame, frame_count, init, set_memory_range, get_bit, mark_allocated, allocate,
}
use mikanos_copy.Memory.Bitmap.{
  IsValid, frames, among, get_bit-init, init-IsValid, get_bit-mark_allocated,
  mark_allocated-IsValid, frames-mark_allocated,
}

pub record MemoryDescriptor : Type 0 where
  pub type : ℕ
  pub physical_start : ℕ
  pub virtual_start : ℕ
  pub number_of_pages : ℕ
  pub attribute : ℕ

-- The values of `MemoryType` that `IsAvailable` names.
abbrev pub boot_services_code : ℕ
boot_services_code = 3

abbrev pub boot_services_data : ℕ
boot_services_data = 4

abbrev pub conventional_memory : ℕ
conventional_memory = 7

pub is_available : ℕ → Bool
is_available type =
    type == boot_services_code || (type == boot_services_data || type == conventional_memory)

abbrev pub uefi_page_size : ℕ
uefi_page_size = 4096

abbrev pub size_in_bytes : MemoryDescriptor → ℕ
size_in_bytes desc = desc.number_of_pages * uefi_page_size % 2 ^ 64

abbrev pub physical_end : MemoryDescriptor → ℕ
physical_end desc = add64 desc.physical_start (size_in_bytes desc)

-- The first branch of the loop: a gap before the descriptor is marked.
pub mark_gap : Manager → ℕ → ℕ → Manager
mark_gap m available_end physical_start =
    if ltb available_end physical_start
    then mark_allocated m (available_end / bytes_per_frame)
        ((physical_start - available_end) / bytes_per_frame)
    else m

-- The body of the loop: the manager and `available_end`.
pub take_descriptor : MemoryDescriptor → Manager → ℕ → Manager × ℕ
take_descriptor desc m available_end =
    let gap_marked = mark_gap m available_end desc.physical_start in
    if is_available desc.type then (gap_marked, physical_end desc) else (
      mark_allocated gap_marked (desc.physical_start / bytes_per_frame)
          (size_in_bytes desc / bytes_per_frame),
      available_end,
    )

pub take_descriptors : List MemoryDescriptor → Manager → ℕ → Manager × ℕ
take_descriptors [] m available_end = (m, available_end)
take_descriptors (desc ∷ rest) m available_end =
    let (m', available_end') = take_descriptor desc m available_end in
    take_descriptors rest m' available_end'

-- `program_break` and `program_break_end`, as addresses.
pub record Heap : Type 0 where
  pub program_break : ℕ
  pub program_break_end : ℕ

abbrev pub heap_frames : ℕ
heap_frames = 64 * 512

-- `InitializeHeap` after its call of `Allocate`; `none` is a call out of fuel, which
-- `Alloc.allocate-Outcome` rules out.
pub place_heap : Heap → Option (WithError ℕ × Manager) → Option (Error × Manager × Heap)
place_heap heap none = none
place_heap heap (some (r, m)) = some (
    if is_error r.error
    then (r.error, m, heap)
    else let program_break = r.value * bytes_per_frame % 2 ^ 64 in
      (
        Error.success,
        m,
        record {
          program_break = program_break;
          program_break_end = add64 program_break (heap_frames * bytes_per_frame);
        },
      ))

pub initialize_heap : Manager → Heap → Option (Error × Manager × Heap)
unfolding place_heap
initialize_heap m heap = place_heap heap (allocate m heap_frames)

-- An error of `initialize_heap` makes the kernel exit.
pub initialize_memory_manager : List MemoryDescriptor → Heap → Option (Error × Manager × Heap)
initialize_memory_manager descriptors heap =
    let (m, available_end) = take_descriptors descriptors init 0 in
    initialize_heap (set_memory_range m 1 (available_end / bytes_per_frame)) heap

-- Whether a frame belongs to memory that the firmware leaves to the kernel.
unfoldable pub available_frame : List MemoryDescriptor → ℕ → Bool
available_frame [] g = false
available_frame (desc ∷ rest) g =
    (is_available desc.type && among (desc.physical_start / bytes_per_frame) desc.number_of_pages g)
    || available_frame rest g

-- A map as the firmware gives it: whole pages, in order and without overlap, from `low` on and
-- below `limit`.
abbrev pub IsOrdered : ℕ → ℕ → List MemoryDescriptor → Type 0
IsOrdered limit low [] = Unit
IsOrdered limit low (desc ∷ rest) =
    (low ≤ desc.physical_start)
    × (desc.physical_start % 4096 ≡ 0)
    × (desc.physical_start + desc.number_of_pages * 4096 ≤ limit)
    × IsOrdered limit (desc.physical_start + desc.number_of_pages * 4096) rest

-- Where the last descriptor ends.
abbrev pub map_end : ℕ → List MemoryDescriptor → ℕ
map_end low [] = low
map_end low (desc ∷ rest) = map_end (desc.physical_start + desc.number_of_pages * 4096) rest
