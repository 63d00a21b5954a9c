-- ===== src/Usb/Pool/Alloc.antt =====
-- What `AllocMem` (Kernel/usb/memory.cpp) hands out.
use mikanos_copy.Common.{
  ℕ, ◌+◌, ◌%◌, ◌^◌, ◌≤◌, ◌<◌, ◌≡◌, ◌⊎◌, refl, add64, ltb, arith, true, Bool-cases, inl, inr,
}
use mikanos_copy.Common.Masks.{ceil, mod-pow_zero, mod_before, ceil-mod, le-ceil, ceil-lt}
use mikanos_copy.Common.Bits.{pow-pos}
use mikanos_copy.Usb.Pool.{Pool, memory_pool_size, alloc_mem, align, skip}

-- A block of `size` bytes, whose place is a multiple of `2 ^ a` and which lies between two multiples
-- of `2 ^ b` that follow one another.
pub record Allocated (pool : Pool) (size a b p : ℕ) (pool' : Pool) : Type 0 where
  pub aligned : p % 2 ^ a ≡ 0
  pub in_block : p % 2 ^ b + size ≤ 2 ^ b
  pub inside : p + size ≤ pool.memory_pool + memory_pool_size
  -- No block that was handed out before is touched, and no later one touches this.
  pub after : pool.alloc_ptr ≤ p
  pub next : pool'.alloc_ptr ≡ p + size
  pub near : p < pool.alloc_ptr + 2 ^ a + 2 ^ b

-- A multiple of a power of two is one of each smaller power.
pub record Placed (start size a b p : ℕ) : Type 0 where
  pub aligned : p % 2 ^ a ≡ 0
  pub in_block : p % 2 ^ b + size ≤ 2 ^ b
  pub after : start ≤ p
  pub near : p < start + 2 ^ a + 2 ^ b

test_pow : (k : ℕ) → ltb 0 (2 ^ k) ≡ true
test_pow k = ground (arith, pow-pos k)

module _ (start size a b : ℕ) (order : a ≤ b) (small : b ≤ 63)
    (fits : start + size + 2 ^ a + 2 ^ b ≤ 2 ^ 64) (short : size ≤ 2 ^ b) where
  first : ℕ
  first = ceil start (2 ^ a)

  align_lem : align start (2 ^ a) ≡ first
  unfolding first
  align_lem = rw (test_pow a) refl

  -- The boundary, when the block does not fit before it, or the place itself.
  skip-Placed : Placed start size a b (skip first size (2 ^ b))
  unfolding first
  skip-Placed = rw (test_pow b) (
      rw sum (elim (Bool-cases (ltb (ceil first (2 ^ b)) (first + size))) [
        | inl over ↦ rw over (record {
          aligned = mod-pow_zero (ceil first (2 ^ b)) a b order (ceil-mod b first small room);
          in_block = omega (arith, ceil-mod b first small room, short);
          after = omega (arith, le-ceil b first small room, le-ceil a start low room_a);
          near = omega (arith, ceil-lt b first small room, ceil-lt a start low room_a);
        })
        | inr before ↦ rw before (record {
          aligned = ceil-mod a start low room_a;
          in_block =
              mod_before (2 ^ b) first size (ceil first (2 ^ b)) (ceil-mod b first small room)
                (ceil-lt b first small room) (ground (arith, before));
          after = le-ceil a start low room_a;
          near = omega (arith, ceil-lt a start low room_a, pow-pos b);
        })
      ]))
    where
      low : a ≤ 63
      low = omega (arith, order, small)

      room_a : start + 2 ^ a ≤ 2 ^ 64
      room_a = omega (arith, fits)

      room : first + 2 ^ b ≤ 2 ^ 64
      room = omega (arith, fits, ceil-lt a start low room_a)

      sum : add64 first size ≡ first + size
      sum = omega (arith, fits, ceil-lt a start low room_a)

-- On alignments and boundaries that are powers of two, with an alignment up to the boundary, a boundary
-- up to 2 ^ 63, a size up to the boundary, and addresses that do not wrap around, `AllocMem` gives a block that is aligned, inside the pool, behind all earlier ones
-- and in one piece between two boundaries; or `nullptr`, when the pool is almost full.
pub alloc_mem-Allocated :
    (pool : Pool) (size a b : ℕ)
    → a ≤ b
    → b ≤ 63
    → size ≤ 2 ^ b
    → pool.alloc_ptr + size + 2 ^ a + 2 ^ b ≤ 2 ^ 64
    → pool.memory_pool + memory_pool_size < 2 ^ 64
    → Allocated pool size a b
        (alloc_mem pool size (2 ^ a) (2 ^ b)).0
        (alloc_mem pool size (2 ^ a) (2 ^ b)).1
      ⊎ (((alloc_mem pool size (2 ^ a) (2 ^ b)).0 ≡ 0)
          × (pool.memory_pool + memory_pool_size < pool.alloc_ptr + size + 2 ^ a + 2 ^ b))
unfolding alloc_mem first
alloc_mem-Allocated pool size a b order small short fits low =
    rw (align_lem pool.alloc_ptr size a b order small fits short) (
      rw end (elim (Bool-cases (ltb (pool.memory_pool + memory_pool_size) (add64 p size))) [
        | inl full ↦ rw full (inr (refl, ground (arith, full, sum, placed.near)))
        | inr free ↦ rw free (
            inl (record {
              aligned = placed.aligned;
              in_block = placed.in_block;
              inside = ground (arith, free, sum);
              after = placed.after;
              next = sum;
              near = placed.near;
            }))
      ]))
  where
    p : ℕ
    p = skip (ceil pool.alloc_ptr (2 ^ a)) size (2 ^ b)

    placed : Placed pool.alloc_ptr size a b p
    placed = skip-Placed pool.alloc_ptr size a b order small fits short

    sum : add64 p size ≡ p + size
    sum = omega (arith, fits, placed.near)

    end : add64 pool.memory_pool memory_pool_size ≡ pool.memory_pool + memory_pool_size
    end = omega (arith, low)
