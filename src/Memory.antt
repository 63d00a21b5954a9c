-- ===== src/Memory.antt =====
-- Kernel/memory_manager.hpp and Kernel/memory_manager.cpp: the class `BitmapMemoryManager`, which
-- hands out physical frames of 4 KiB. A frame is its number; a word of the map has 64 bits.
pub mod Bitmap
pub mod Alloc
pub mod Boot
mod Tests
use Prim.Native.Nat.{bit_and, bit_or}
use mikanos_copy.Common.{
  ℕ, zero, suc, ◌+◌, ◌-◌, ◌*◌, ◌/◌, ◌%◌, ◌^◌, Bool, true, false, not, Option, none, some, List,
  length, get_or, set, replicate, add64, leb, ◌==◌, if◌then◌else◌,
}
use mikanos_copy.Common.Bits.{shl_one, complement64}
use mikanos_copy.Error.{Error, WithError}

abbrev pub bytes_per_frame : ℕ
bytes_per_frame = 4 * 1024

abbrev pub max_physical_memory_bytes : ℕ
max_physical_memory_bytes = 128 * 1024 * 1024 * 1024

abbrev pub frame_count : ℕ
frame_count = max_physical_memory_bytes / bytes_per_frame

abbrev pub bits_per_map_line : ℕ
bits_per_map_line = 8 * 8

-- `kNullFrame`.
abbrev pub null_frame : ℕ
null_frame = 2 ^ 64 - 1

-- `FrameID::Frame`, as an address.
pub frame_address : ℕ → ℕ
frame_address id = id * bytes_per_frame % 2 ^ 64

pub record Manager : Type 0 where
  pub alloc_map : List ℕ
  pub range_begin : ℕ
  pub range_end : ℕ

-- The words of a map of `lines` words that is all clear.
pub clear_map : ℕ → List ℕ
clear_map lines = replicate lines 0

-- The constructor: every bit is clear.
pub init : Manager
init = record {
  alloc_map = clear_map (frame_count / bits_per_map_line);
  range_begin = 0;
  range_end = frame_count;
}

pub set_memory_range : Manager → ℕ → ℕ → Manager
set_memory_range m range_begin range_end = record m {
  range_begin = range_begin;
  range_end = range_end;
}

-- A read or write out of the map is undefined in the source; here the one gives an empty word and
-- the other changes nothing. The theorems keep inside the map.
unfoldable pub get_bit : Manager → ℕ → Bool
get_bit m frame =
    let line_index = frame / bits_per_map_line in
    let bit_index = frame % bits_per_map_line in
    not (bit_and (get_or m.alloc_map line_index 0) (shl_one bit_index) == 0)

pub set_bit : Manager → ℕ → Bool → Manager
set_bit m frame allocated =
    let line_index = frame / bits_per_map_line in
    let bit_index = frame % bits_per_map_line in
    let mask = shl_one bit_index in
    let line = get_or m.alloc_map line_index 0 in
    record m {
      alloc_map =
          set m.alloc_map line_index
            (if allocated then bit_or line mask else bit_and line (complement64 mask));
    }

-- `for(i = 0; i < num_frames; i++) SetBit(FrameID(start + i), allocated)` from round `i` on, with
-- the rounds that are left.
pub set_bits : Manager → ℕ → Bool → ℕ → ℕ → Manager
set_bits m start allocated i zero = m
set_bits m start allocated i (suc rounds) =
    set_bits (set_bit m (add64 start i) allocated) start allocated (i + 1) rounds

pub mark_allocated : Manager → ℕ → ℕ → Manager
mark_allocated m start num_frames = set_bits m start true 0 num_frames

pub free : Manager → ℕ → ℕ → Error × Manager
free m start num_frames = (Error.success, set_bits m start false 0 num_frames)

-- How the inner loop of `Allocate` ends: past the range, at an allocated frame, or after all rounds.
pub data Scan : Type 0 where
  past_end : Scan
  stopped : ℕ → Scan
  complete : Scan

pub scan : Manager → ℕ → ℕ → ℕ → Scan
scan m start i zero = complete
scan m start i (suc rounds) =
    let rest = scan m start (i + 1) rounds in
    if leb m.range_end (add64 start i)
    then past_end
    else if get_bit m (add64 start i)
    then stopped i
    else rest

-- The outer loop on fuel: `none` means that the fuel ran out.
pub allocate_from : ℕ → Manager → ℕ → ℕ → Option (WithError ℕ × Manager)
allocate_from zero m start num_frames = none
allocate_from (suc fuel) m start num_frames = elim (scan m start 0 num_frames) [
  | past_end ↦ some (record { value = null_frame; error = Error.no_enough_memory }, m)
  | stopped i ↦ allocate_from fuel m (add64 start (i + 1)) num_frames
  | complete ↦
      some (record { value = start; error = Error.success }, mark_allocated m start num_frames)
]

-- Every round of the outer loop moves the start up by one frame at least.
pub allocate : Manager → ℕ → Option (WithError ℕ × Manager)
allocate m num_frames = allocate_from (suc (m.range_end - m.range_begin)) m m.range_begin num_frames
