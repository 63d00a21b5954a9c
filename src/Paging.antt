-- ===== src/Paging.antt =====
-- Kernel/paging.hpp and Kernel/paging.cpp: page tables of four levels, made from frames of the frame
-- allocator. A page table is the number of its frame; the memory gives the words of 64 bits of each
-- frame.
pub mod Linear
pub mod Walk
pub mod Grow
pub mod Enter
pub mod Blocks
pub mod Setup
mod Tests
use mikanos_copy.Common.{
  ℕ, zero, suc, ◌+◌, ◌-◌, ◌*◌, ◌/◌, ◌%◌, ◌^◌, Bool, true, false, not, Option, none, some, leb, ◌==◌,
  if◌then◌else◌,
}
use mikanos_copy.Common.Fields.{field, set_field}
use mikanos_copy.Error.{Error, WithError, is_error}
use mikanos_copy.Memory.{Manager, allocate, free}

-- `LinearAddress4Level::Part`, and `SetPart`.
unfoldable pub part : (page_map_level value : ℕ) → ℕ
part zero value = field 0 12 value
part (suc zero) value = field 12 9 value
part (suc (suc zero)) value = field 21 9 value
part (suc (suc (suc zero))) value = field 30 9 value
part (suc (suc (suc (suc zero)))) value = field 39 9 value
part (suc (suc (suc (suc (suc level))))) value = 0

unfoldable pub set_part : (page_map_level v value : ℕ) → ℕ
set_part zero v value = set_field 0 12 v value
set_part (suc zero) v value = set_field 12 9 v value
set_part (suc (suc zero)) v value = set_field 21 9 v value
set_part (suc (suc (suc zero))) v value = set_field 30 9 v value
set_part (suc (suc (suc (suc zero)))) v value = set_field 39 9 v value
set_part (suc (suc (suc (suc (suc level))))) v value = value

-- The fields of `PageMapEntry`. `Pointer` is the address of frame `addr`.
abbrev pub present : ℕ → ℕ
present entry = field 0 1 entry

abbrev pub addr : ℕ → ℕ
addr entry = field 12 40 entry

unfoldable pub set_present : ℕ → ℕ
set_present entry = set_field 0 1 1 entry

unfoldable pub set_writable : ℕ → ℕ
set_writable entry = set_field 1 1 1 entry

unfoldable pub set_user : ℕ → ℕ
set_user entry = set_field 2 1 1 entry

unfoldable pub set_pointer : (frame entry : ℕ) → ℕ
set_pointer frame entry = set_field 12 40 frame entry

pub record Machine : Type 0 where
  pub manager : Manager
  pub word : (frame index : ℕ) → ℕ

unfoldable pub write : Machine → (frame index value : ℕ) → Machine
write m frame index value = record m {
  word = λ f i. if f == frame then (if i == index then value else m.word f i) else m.word f i;
}

unfoldable pub clear_frame : Machine → ℕ → Machine
clear_frame m frame = record m { word = λ f i. if f == frame then 0 else m.word f i }

-- `none` would be an allocator out of fuel.
abbrev pub Result : Type 0
Result = Option (ℕ × Error × Machine)

pub new_page_map : Machine → Result
new_page_map m = elim (allocate m.manager 1) [
  | none ↦ none
  | some (frame, manager) ↦
      let m' : Machine = record m { manager = manager } in
      some (
        if is_error frame.error
        then (0, frame.error, m')
        else (frame.value, Error.success, clear_frame m' frame.value))
]

pub set_new_page_map_if_not_present : Machine → (table index : ℕ) → Result
set_new_page_map_if_not_present m table index =
    let entry = m.word table index in
    if present entry == 1 then some (addr entry, Error.success, m) else elim (new_page_map m) [
      | none ↦ none
      | some (child_map, err, m') ↦ some (
          if is_error err then (0, err, m') else (
            child_map,
            Error.success,
            write m' table index (set_present (set_pointer child_map (m'.word table index))),
          ))
    ]

-- `for(level = page_map_level - 1; level >= 1; level--) addr.SetPart(level, 0)`.
unfoldable pub clear_parts : (level value : ℕ) → ℕ
clear_parts zero value = value
clear_parts (suc level) value = clear_parts level (set_part (suc level) 0 value)

abbrev pub allow : Machine → (table index : ℕ) → Machine
allow m table index = write m table index (set_user (set_writable (m.word table index)))

-- The loop of `SetupPageMap` at level `below + 1`, with the rounds that are left and with what is
-- done to the table that the entry leads to: nothing at level 1, a further call above it. The number
-- is that of the pages that remain. `none` would be a loop out of rounds.
pub setup_loop :
    (below : ℕ) (child : Machine → (table value num_4kpages : ℕ) → Result)
    → (rounds : ℕ) → Machine
    → (table value num_4kpages : ℕ) → Result
setup_loop below child zero m table value num_4kpages = none
setup_loop below child (suc rounds) m table value num_4kpages =
    let entry_index = part (suc below) value in
    if num_4kpages == 0
    then some (num_4kpages, Error.success, m)
    else elim (set_new_page_map_if_not_present m table entry_index) [
      | none ↦ none
      | some (child_table, err, m1) ↦
          if is_error err
          then some (num_4kpages, err, m1)
          else elim (child (allow m1 table entry_index) child_table value num_4kpages) [
            | none ↦ none
            | some (remain, err2, m2) ↦
                let rest =
                  setup_loop below child rounds m2 table
                    (clear_parts below (set_part (suc below) (entry_index + 1) value)) remain in
                if is_error err2
                then some (num_4kpages, err2, m2)
                else if entry_index == 511
                then some (remain, Error.success, m2)
                else rest
          ]
    ]

-- At level 1 the entry is the page.
abbrev pub take_page : Machine → (table value num_4kpages : ℕ) → Result
take_page m table value num_4kpages = some (num_4kpages - 1, Error.success, m)

-- A table has 512 entries; after the last one the loop is left, so one more round is never begun.
pub setup_page_map : (below : ℕ) → Machine → (table value num_4kpages : ℕ) → Result
setup_page_map zero m table value num_4kpages =
    setup_loop zero take_page 513 m table value num_4kpages
setup_page_map (suc below) m table value num_4kpages =
    setup_loop (suc below) (setup_page_map below) 513 m table value num_4kpages

-- `SetupPageMaps`, with the frame that CR3 points to. The number of remaining pages is dropped.
pub setup_page_maps : Machine → (cr3 value num_4kpages : ℕ) → Option (Error × Machine)
setup_page_maps m cr3 value num_4kpages = elim (setup_page_map 3 m cr3 value num_4kpages) [
  | none ↦ none
  | some (remain, err, m') ↦ some (err, m')
]

-- The loop of `CleanPageMap` at level `below + 1`, with what is done to the table of an entry.
pub clean_loop :
    (clean_child : Machine → (table : ℕ) → Error × Machine)
    → (rounds i : ℕ) → Machine
    → (table : ℕ) → Error × Machine
clean_loop clean_child zero i m table = (Error.success, m)
clean_loop clean_child (suc rounds) i m table =
    let entry = m.word table i in
    let cleaned = clean_child m (addr entry) in
    let freed = free cleaned.1.manager (addr entry) 1 in
    let m' : Machine = record cleaned.1 { manager = freed.1 } in
    let skip = clean_loop clean_child rounds (suc i) m table in
    let rest = clean_loop clean_child rounds (suc i) (write m' table i 0) table in
    if not (present entry == 1)
    then skip
    else if is_error cleaned.0
    then cleaned
    else if is_error freed.0
    then (freed.0, m')
    else rest

-- At level 1 there is no table behind an entry.
pub clean_page_map : (below : ℕ) → Machine → (table : ℕ) → Error × Machine
clean_page_map zero m table = clean_loop (λ m' child. (Error.success, m')) 512 0 m table
clean_page_map (suc below) m table = clean_loop (clean_page_map below) 512 0 m table

pub clean_page_maps : Machine → (cr3 value : ℕ) → Error × Machine
clean_page_maps m cr3 value =
    let pdp_table = addr (m.word cr3 (part 4 value)) in
    let cleaned = clean_page_map 2 (write m cr3 (part 4 value) 0) pdp_table in
    let freed = free cleaned.1.manager pdp_table 1 in
    if is_error cleaned.0 then cleaned else (freed.0, record cleaned.1 { manager = freed.1 })
