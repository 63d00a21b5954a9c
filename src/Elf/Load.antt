-- ===== src/Elf/Load.antt =====
-- `LoadElf` (Kernel/elf.cpp) maps the pages of every segment that is to be loaded.
use mikanos_copy.Common.{ℕ, ◌+◌, ◌≤◌, ◌<◌, ◌≡◌, some}
use mikanos_copy.Error.{Error}
use mikanos_copy.Paging.{Machine}
use mikanos_copy.Paging.Linear.{page}
use mikanos_copy.Paging.Walk.{Maps, Grown}
use mikanos_copy.Elf.{
  ProgramHeader, Image, pt_load, et_exec, header, Loader, Loading, get_first_load_address,
}
use mikanos_copy.Elf.Contents.{HasContents}

-- The addresses of a segment are mapped.
abbrev pub BytesMapped : Machine → (cr3 : ℕ) → ProgramHeader → Type 0
BytesMapped m cr3 ph =
    (a : ℕ)
    → ph.p_vaddr ≤ a
    → a < ph.p_vaddr + ph.p_memsz
    → (frame : ℕ) × Maps m 3 cr3 (page a) frame

-- The segments from round `i` on are mapped.
abbrev pub SegmentsMapped : Image → (cr3 rounds i : ℕ) → Machine → Type 0
SegmentsMapped e cr3 rounds i m =
    (j : ℕ)
    → i ≤ j
    → j < i + rounds
    → (header e j).p_type ≡ pt_load
    → BytesMapped m cr3 (header e j)

-- What copying the segments gives.
pub data Copied (e : Image) (kind : ℕ → ℕ) (l : Loader) (cr3 rounds i : ℕ) (r : Loading)
    : Type 0 where
  copied :
      (kind' : ℕ → ℕ) (l' : Loader)
      → Grown kind l.machine kind' l'.machine
      → SegmentsMapped e cr3 rounds i l'.machine
      → HasContents e rounds i l.memory l'.memory
      → r ≡ some (Error.success, l')
      → Copied e kind l cr3 rounds i r
  no_memory :
      (kind' : ℕ → ℕ) (l' : Loader)
      → Grown kind l.machine kind' l'.machine
      → r ≡ some (Error.no_enough_memory, l')
      → Copied e kind l cr3 rounds i r

-- What `LoadElf` gives.
pub data Loaded (e : Image) (kind : ℕ → ℕ) (l : Loader) (cr3 : ℕ) (r : Loading) : Type 0 where
  not_program :
      (l' : Loader)
      → l' ≡ l
      → (e.e_type ≡ et_exec → get_first_load_address e < 0xffff800000000000)
      → r ≡ some (Error.invalid_format, l')
      → Loaded e kind l cr3 r
  loaded :
      e.e_type ≡ et_exec
      → 0xffff800000000000 ≤ get_first_load_address e
      → Copied e kind l cr3 e.e_phnum 0 r
      → Loaded e kind l cr3 r
