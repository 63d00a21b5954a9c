-- ===== src/Paging/Linear.antt =====
-- The parts of a linear address (Kernel/paging.hpp) as digits of its page number.
use mikanos_copy.Common.{ℕ, zero, suc, ◌+◌, ◌*◌, ◌/◌, ◌%◌, ◌^◌, ◌≤◌, ◌<◌, ◌≡◌, arith}
use mikanos_copy.Paging.{part, set_part, clear_parts}

-- The number of the page, in 36 bits.
abbrev pub page : ℕ → ℕ
page value = value / 2 ^ 12 % 2 ^ 36

-- The number of pages behind one entry of level `below + 1`.
unfoldable pub span : ℕ → ℕ
span zero = 1
span (suc below) = span below * 512

pub part-page :
    (below value : ℕ) → below < 4 → part (suc below) value ≡ page value / span below % 512
unfolding part span
part-page zero value h = omega arith
part-page (suc zero) value h = omega arith
part-page (suc (suc zero)) value h = omega arith
part-page (suc (suc (suc zero))) value h = omega arith
part-page (suc (suc (suc (suc below)))) value h = absurd (omega (arith, h))

-- The step to the next entry goes to its first page.
pub next-page :
    (below value index : ℕ)
    → below < 4
    → index ≡ part (suc below) value
    → index < 511
    → page (clear_parts below (set_part (suc below) (index + 1) value))
      ≡ (page value / span below + 1) * span below
unfolding part set_part clear_parts span
next-page zero value index h e l = omega (arith, e, l)
next-page (suc zero) value index h e l = omega (arith, e, l)
next-page (suc (suc zero)) value index h e l = omega (arith, e, l)
next-page (suc (suc (suc zero))) value index h e l = omega (arith, e, l)
next-page (suc (suc (suc (suc below)))) value index h e l = absurd (omega (arith, h))

-- The end of the pages behind the entry, of a table of level `levels + 1`, that page `p` lies behind.
abbrev pub block_end : (levels p : ℕ) → ℕ
block_end levels p = (p / span levels + 1) * span levels

pub before-block_end : (levels p : ℕ) → levels < 5 → p < block_end levels p
unfolding span
before-block_end zero p h = omega arith
before-block_end (suc zero) p h = omega arith
before-block_end (suc (suc zero)) p h = omega arith
before-block_end (suc (suc (suc zero))) p h = omega arith
before-block_end (suc (suc (suc (suc zero)))) p h = omega arith
before-block_end (suc (suc (suc (suc (suc levels))))) p h = absurd (omega (arith, h))

-- The last entry of a table ends where the table ends; any other leads on to the next one.
pub block_end_last :
    (below p : ℕ)
    → below < 4
    → p / span below % 512 ≡ 511
    → block_end below p ≡ block_end (suc below) p
unfolding span
block_end_last zero p h e = omega (arith, e)
block_end_last (suc zero) p h e = omega (arith, e)
block_end_last (suc (suc zero)) p h e = omega (arith, e)
block_end_last (suc (suc (suc zero))) p h e = omega (arith, e)
block_end_last (suc (suc (suc (suc below)))) p h e = absurd (omega (arith, h))

pub block_end_next :
    (below p : ℕ)
    → below < 4
    → p / span below % 512 < 511
    → (block_end below p / span below % 512 ≡ p / span below % 512 + 1)
      × (block_end (suc below) (block_end below p) ≡ block_end (suc below) p)
      × (block_end below p < block_end (suc below) p)
unfolding span
block_end_next zero p h e = omega (arith, e)
block_end_next (suc zero) p h e = omega (arith, e)
block_end_next (suc (suc zero)) p h e = omega (arith, e)
block_end_next (suc (suc (suc zero))) p h e = omega (arith, e)
block_end_next (suc (suc (suc (suc below)))) p h e = absurd (omega (arith, h))

-- The pages up to the end of the block lie behind the same entry.
pub same_block :
    (below p q : ℕ) → below < 4 → p ≤ q → q < block_end below p → q / span below ≡ p / span below
unfolding span
same_block zero p q h a b = omega (arith, a, b)
same_block (suc zero) p q h a b = omega (arith, a, b)
same_block (suc (suc zero)) p q h a b = omega (arith, a, b)
same_block (suc (suc (suc zero))) p q h a b = omega (arith, a, b)
same_block (suc (suc (suc (suc below)))) p q h a b = absurd (omega (arith, h))
