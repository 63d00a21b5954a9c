-- ===== src/Usb/Pool/Tests.antt =====
-- Blocks from a pool at an address that is not a multiple of a page (Kernel/usb/memory.cpp).
use mikanos_copy.Common.{◌+◌, ◌^◌, ◌≡◌, ◌<◌, ◌⊎◌, refl, arith}
use mikanos_copy.Common.Masks.{ceil}
use mikanos_copy.Usb.Pool.{Pool, memory_pool_size, alloc_mem}
use mikanos_copy.Usb.Pool.Alloc.{Allocated, alloc_mem-Allocated}

abbrev pool : Pool
pool = record { memory_pool = 4032; alloc_ptr = 4040 }

alloc_mem-Allocated_example :
    Allocated pool 100 6 12
      (alloc_mem pool 100 (2 ^ 6) (2 ^ 12)).0
      (alloc_mem pool 100 (2 ^ 6) (2 ^ 12)).1
    ⊎ (((alloc_mem pool 100 (2 ^ 6) (2 ^ 12)).0 ≡ 0)
        × (pool.memory_pool + memory_pool_size < pool.alloc_ptr + 100 + 2 ^ 6 + 2 ^ 12))
alloc_mem-Allocated_example =
    alloc_mem-Allocated pool 100 6 12 (omega arith) (omega arith) (omega arith) (omega arith)
      (omega arith)

-- The block does not fit before the boundary at 4096, where it is aligned to 64.
boundary : alloc_mem pool 100 64 4096 ≡ (4096, record { memory_pool = 4032; alloc_ptr = 4196 })
unfolding alloc_mem ceil
boundary = refl

full : (alloc_mem (record pool { alloc_ptr = 135000 }) 200 64 4096).0 ≡ 0
unfolding alloc_mem ceil
full = refl
