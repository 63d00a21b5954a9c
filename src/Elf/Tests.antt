-- ===== src/Elf/Tests.antt =====
-- A program of one segment that Kernel/elf.cpp loads.
use mikanos_copy.Common.{ℕ, ◌≡◌, refl, [], ◌∷◌, ◌==◌, if◌then◌else◌}
use mikanos_copy.Elf.{
  Image, Loader, get_first_load_address, first_load_address, num_4kpages, header,
}

-- 5000 bytes at an address 1000 bytes behind the start of a page.
abbrev program : Image
program = record {
  e_type = 2;
  e_phoff = 64;
  e_phentsize = 56;
  e_phnum = 1;
  byte = λ position. 0x90;
  program_header = λ position. record {
    p_type = 1;
    p_offset = 4096;
    p_vaddr = 0xffff8000000003e8;
    p_filesz = 100;
    p_memsz = 5000;
  };
}

-- Frame 0 is the table of level 4, whose entry 0 leads to the tables of the kernel.
abbrev start : Loader
start = record {
  machine = record {
    manager = record { alloc_map = 5 ∷ []; range_begin = 0; range_end = 40 };
    word = λ frame entry. if entry == 0 then 0x2003 else 0;
  };
  memory = λ address. 0;
}

abbrev top_only : ℕ → ℕ
top_only frame = if frame == 0 then 4 else 0

first_address : get_first_load_address program ≡ 0xffff8000000003e8
unfolding get_first_load_address first_load_address
first_address = refl

two_pages : num_4kpages (header program 0) ≡ 2
two_pages = refl
