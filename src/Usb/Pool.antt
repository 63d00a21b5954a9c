-- ===== src/Usb/Pool.antt =====
-- Kernel/usb/memory.hpp and Kernel/usb/memory.cpp: memory for the controller is cut from one pool,
-- in order, and never given back. An address is a number, and 0 is `nullptr`.
pub mod Alloc
mod Tests
use mikanos_copy.Common.{ℕ, ◌+◌, ◌*◌, ◌%◌, ◌^◌, add64, ltb, if◌then◌else◌}
use mikanos_copy.Common.Masks.{ceil}

abbrev pub memory_pool_size : ℕ
memory_pool_size = 4096 * 32

-- The address of the array `memory_pool`, which the linker chooses, and the pointer behind what is
-- in use.
pub record Pool : Type 0 where
  pub memory_pool : ℕ
  pub alloc_ptr : ℕ

unfoldable pub init : ℕ → Pool
init memory_pool = record { memory_pool = memory_pool; alloc_ptr = memory_pool }

-- The pointer after the first test of `AllocMem`, and after the second.
abbrev pub align : ℕ → ℕ → ℕ
align alloc_ptr alignment = if ltb 0 alignment then ceil alloc_ptr alignment else alloc_ptr

abbrev pub skip : ℕ → ℕ → ℕ → ℕ
skip alloc_ptr size boundary =
    if ltb 0 boundary
    then (let next_boundary = ceil alloc_ptr boundary in
        if ltb next_boundary (add64 alloc_ptr size) then next_boundary else alloc_ptr)
    else alloc_ptr

-- A call that fails leaves the pointer where it was moved to.
pub alloc_mem : Pool → (size alignment boundary : ℕ) → ℕ × Pool
alloc_mem pool size alignment boundary =
    let p = skip (align pool.alloc_ptr alignment) size boundary in
    if ltb (add64 pool.memory_pool memory_pool_size) (add64 p size)
    then (0, record pool { alloc_ptr = p })
    else (p, record pool { alloc_ptr = add64 p size })

pub alloc_array : Pool → (size_of num_obj alignment boundary : ℕ) → ℕ × Pool
alloc_array pool size_of num_obj alignment boundary =
    alloc_mem pool (size_of * num_obj % 2 ^ 64) alignment boundary

pub free_mem : Pool → ℕ → Pool
free_mem pool p = pool
