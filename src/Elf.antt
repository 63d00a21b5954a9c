-- ===== src/Elf.antt =====
-- The loader of programs, Kernel/elf.hpp and Kernel/elf.cpp.
pub mod Contents
pub mod Load
mod Tests
use mikanos_copy.Common.{
  ℕ, zero, suc, ◌+◌, ◌-◌, ◌*◌, ◌/◌, ◌%◌, ◌^◌, Bool, true, false, Option, none, some, ltb, leb, not,
  ◌&&◌, ◌==◌, if◌then◌else◌,
}
use mikanos_copy.Error.{Error, is_error}
use mikanos_copy.Paging.{Machine, Result, setup_page_maps}

-- `Elf64_Phdr`, the fields that are read.
pub record ProgramHeader : Type 0 where
  pub p_type : ℕ
  pub p_offset : ℕ
  pub p_vaddr : ℕ
  pub p_filesz : ℕ
  pub p_memsz : ℕ

-- A file in memory: the fields of `Elf64_Ehdr` that are read, the bytes, and the program header that
-- stands at a position.
pub record Image : Type 0 where
  pub e_type : ℕ
  pub e_phoff : ℕ
  pub e_phentsize : ℕ
  pub e_phnum : ℕ
  pub byte : (position : ℕ) → ℕ
  pub program_header : (position : ℕ) → ProgramHeader

abbrev pub et_exec : ℕ
et_exec = 2

abbrev pub pt_load : ℕ
pt_load = 1

-- The header that the loops read in round `i`.
abbrev pub header : Image → ℕ → ProgramHeader
header e i = e.program_header (e.e_phoff + e.e_phentsize * i)

-- The page tables, and the bytes at virtual addresses, which are kept apart: a segment is taken not to
-- lie where a page table is.
pub record Loader : Type 0 where
  pub machine : Machine
  pub memory : (address : ℕ) → ℕ

-- `memcpy` of the segment and `memset` behind it, whose size wraps around.
unfoldable pub copy_segment : Image → ProgramHeader → Loader → Loader
copy_segment e ph l = record l {
  memory = λ a.
      if leb ph.p_vaddr a && ltb a (ph.p_vaddr + ph.p_filesz)
      then e.byte (ph.p_offset + (a - ph.p_vaddr))
      else if leb (ph.p_vaddr + ph.p_filesz) a
          && ltb a (ph.p_vaddr + ph.p_filesz + (ph.p_memsz + 2 ^ 64 - ph.p_filesz) % 2 ^ 64)
      then 0
      else l.memory a;
}

-- The pages that a segment needs: those from the start of the first, which the segment need not
-- begin at.
abbrev pub num_4kpages : ProgramHeader → ℕ
num_4kpages ph = (ph.p_vaddr % 4096 + ph.p_memsz + 4095) % 2 ^ 64 / 4096

abbrev pub Loading : Type 0
Loading = Option (Error × Loader)

-- `CopyLoadSegments` from round `i` on. `none` would be page tables out of rounds.
unfoldable pub copy_load_segments : Image → (cr3 rounds i : ℕ) → Loader → Loading
copy_load_segments e cr3 zero i l = some (Error.success, l)
copy_load_segments e cr3 (suc rounds) i l =
    let ph = header e i in
    let skip = copy_load_segments e cr3 rounds (suc i) l in
    if not (ph.p_type == pt_load)
    then skip
    else elim (setup_page_maps l.machine cr3 ph.p_vaddr (num_4kpages ph)) [
      | none ↦ none
      | some (err, machine) ↦
          let mapped = record l { machine = machine } in
          let rest = copy_load_segments e cr3 rounds (suc i) (copy_segment e ph mapped) in
          if is_error err then some (err, mapped) else rest
    ]

-- The loop of `GetFirstLoadAddress` from round `i` on.
unfoldable pub first_load_address : Image → (rounds i : ℕ) → ℕ
first_load_address e zero i = 0
first_load_address e (suc rounds) i =
    let rest = first_load_address e rounds (suc i) in
    if not ((header e i).p_type == pt_load) then rest else (header e i).p_vaddr

unfoldable pub get_first_load_address : Image → ℕ
get_first_load_address e = first_load_address e e.e_phnum 0

unfoldable pub load_elf : Image → (cr3 : ℕ) → Loader → Loading
load_elf e cr3 l =
    let copied = copy_load_segments e cr3 e.e_phnum 0 l in
    if not (e.e_type == et_exec)
    then some (Error.invalid_format, l)
    else if ltb (get_first_load_address e) 0xffff800000000000
    then some (Error.invalid_format, l)
    else copied
