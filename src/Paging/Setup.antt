-- ===== src/Paging/Setup.antt =====
-- `SetupPageMap` and `SetupPageMaps` (Kernel/paging.cpp) map the pages they are asked for.
use mikanos_copy.Common.{
  ℕ, zero, suc, ◌+◌, ◌-◌, ◌≤◌, ◌<◌, ◌≡◌, refl, sym, ◌∙◌, subst, Option, some, true, false, ◌==◌,
  arith, Bool-cases, inl, inr,
}
use mikanos_copy.Error.{Error}
use mikanos_copy.Memory.Bitmap.{IsValid}
use mikanos_copy.Paging.{
  Machine, part, set_part, clear_parts, addr, allow, Result, setup_loop, take_page, setup_page_map,
  setup_page_maps,
}
use mikanos_copy.Paging.Linear.{
  page, span, part-page, next-page, block_end, block_end_last, block_end_next,
}
use mikanos_copy.Paging.Walk.{
  upper_half, index, IsPresent, IsClosed, Grown, Grown_refl, Grown_trans,
}
use mikanos_copy.Paging.Blocks.{
  SetUp, set_up, Mapped, out_of_memory_at, none_asked, DoesChild, entry-Mapped, allowed,
  allowed-Grown, last_entry, moved, after_entry, Behind,
}
use mikanos_copy.Paging.Enter.{entered, out_of_memory, set_new_page_map-Entered}

module _ (below : ℕ) (h : below < 4) (child : Machine → (table value num : ℕ) → Result)
    (does : DoesChild below child) where
  ending :
      {i : ℕ} (p : ℕ)
      → i ≡ index below p
      → (i == 511) ≡ true
      → block_end below p ≡ block_end (suc below) p
  ending p here last = block_end_last below p h (ground (arith, here, last))

  below_last : {i : ℕ} (p : ℕ) → i ≡ index below p → (i == 511) ≡ false → index below p < 511
  below_last p here other = ground (arith, here, other)

  next :
      {i : ℕ} (value : ℕ)
      → i ≡ index below (page value)
      → (i == 511) ≡ false
      → page (clear_parts below (set_part (suc below) (i + 1) value)) ≡ block_end below (page value)
  next {i = i} value here other =
      next-page below value i h (here ∙ sym (part-page below value h))
        (omega (arith, below_last (page value) here other, here))

  enough_after :
      {i : ℕ} (value rounds : ℕ)
      → i ≡ index below (page value)
      → (i == 511) ≡ false
      → 512 ≤ index below (page value) + suc rounds
      → 512 ≤ index below (page (clear_parts below (set_part (suc below) (i + 1) value))) + rounds
  enough_after value rounds here other enough = rw (next value here other) (
      omega
        (arith, enough, block_end_next below (page value) h (below_last (page value) here other)))

  -- The index only grows.
  upper_after :
      {i : ℕ} (p value : ℕ)
      → i ≡ index below (page value)
      → (i == 511) ≡ false
      → upper_half ≤ index below (page value)
      → upper_half ≤ index below (page (clear_parts below (set_part (suc below) (i + 1) value)))
  upper_after p value here other up =
      rw (next value here other) (
        omega (arith, up, block_end_next below (page value) h (below_last (page value) here other)))

  loop-SetUp :
      (rounds : ℕ) {kind : ℕ → ℕ} {m : Machine} (t value num : ℕ)
      → IsValid m.manager
      → IsClosed kind m
      → kind t ≡ suc below
      → (below ≡ 3 → upper_half ≤ index below (page value))
      → 512 ≤ index below (page value) + rounds
      → SetUp kind m (suc below) t (page value) num (setup_loop below child rounds m t value num)
  unfolding setup_loop
  loop-SetUp zero t value num v c level up enough = absurd (omega (arith, enough))
  loop-SetUp (suc rounds) {kind = kind} {m = m} t value num v c level up enough =
      elim (Bool-cases (num == 0)) [
        | inl done ↦
            rw done
              (none_asked (suc below) t (page value) num (omega arith) (ground (arith, done)) v c)
        | inr more ↦
            elim (set_new_page_map-Entered t (part (suc below) value) below v c level
              (λ top. subst (λ j. upper_half ≤ j) (sym (part-page below value h)) (up top))) [
                | out_of_memory m1 g e ↦ rw (more, e) (out_of_memory_at kind m1 num g refl)
                | entered child_table kind1 m1 has e ↦
                    let i = part (suc below) value in
                    let here : i ≡ index below (page value) = part-page below value h in
                    let g1 = allowed-Grown t i below child_table has in
                    let (there, leads) = allowed t i below child_table has in
                    elim (does kind1 (allow m1 t i) child_table value num g1.valid g1.closed
                      has.level (λ top. absurd (omega (arith, h, top)))) [
                        | out_of_memory_at kind2 m2 remain g2 e2 ↦
                            rw (more, e, e2)
                              (out_of_memory_at kind2 m2 num (Grown_trans g1 g2) refl)
                        | set_up kind2 m2 remain g2 er mapped e2 ↦
                            let g = Grown_trans g1 g2 in
                            let first =
                              entry-Mapped below t child_table (page value) num h g2.extends
                                (subst (λ j. IsPresent (allow m1 t i) t j) here there)
                                (subst (λ j. addr ((allow m1 t i).word t j) ≡ child_table) here
                                  leads)
                                mapped in
                            elim (Bool-cases (i == 511)) [
                              | inl last ↦
                                  rw (more, e, e2, last)
                                    (last_entry below t (page value) num
                                      (ending (page value) here last) g first er)
                              | inr other ↦
                                  rw (more, e, e2, other)
                                    (after_entry below t (page value) num h
                                      (below_last (page value) here other) g first
                                      (moved (next value here other) er (
                                        loop-SetUp rounds t _ remain g.valid g.closed
                                          (g.kinds t below level)
                                          (λ top.
                                            upper_after (page value) value here other (up top))
                                          (enough_after value rounds here other enough))))
                            ]
                      ]
              ]
      ]

take_page-SetUp : DoesChild zero take_page
unfolding span Behind
take_page-SetUp kind m table value num v c level up =
    set_up kind m (num - 1) (Grown_refl v c) (omega arith) (λ q a b e. (table, refl)) refl

top_index :
    (below p : ℕ) → suc below ≡ 3 → upper_half ≤ index 3 p → upper_half ≤ index (suc below) p
top_index below p top up = subst (λ b. upper_half ≤ index b p) (sym top) up

setup_page_map-SetUp : (below : ℕ) → below < 4 → DoesChild (suc below) (setup_page_map below)
unfolding setup_page_map
setup_page_map-SetUp zero h kind m table value num v c level up =
    loop-SetUp zero h take_page take_page-SetUp 513 table value num v c (level zero refl)
      (λ top. absurd (omega (arith, top))) (omega arith)
setup_page_map-SetUp (suc below) h kind m table value num v c level up =
    loop-SetUp (suc below) h (setup_page_map below) (setup_page_map-SetUp below (omega (arith, h)))
      513 table value num v c (level (suc below) refl)
      (λ top. top_index below (page value) top (up (omega (arith, top)))) (omega arith)

-- What `SetupPageMaps` gives: the pages asked for that lie behind the table are mapped, or memory ran
-- out.
pub data MapsSetUp (kind : ℕ → ℕ) (m : Machine) (cr3 p num : ℕ) (r : Option (Error × Machine))
    : Type 0 where
  maps_set_up :
      (kind' : ℕ → ℕ) (m' : Machine)
      → Grown kind m kind' m'
      → Mapped m' 4 cr3 p num
      → r ≡ some (Error.success, m')
      → MapsSetUp kind m cr3 p num r
  maps_out_of_memory :
      (kind' : ℕ → ℕ) (m' : Machine)
      → Grown kind m kind' m'
      → r ≡ some (Error.no_enough_memory, m')
      → MapsSetUp kind m cr3 p num r

-- `SetupPageMaps` always returns. When it succeeds, every page asked for that lies behind the table of
-- level 4 is mapped to a frame, and when memory runs out it says so. In both cases, no frame that was
-- allocated is freed and what was mapped before stays mapped to the same frame. It is for pages of the
-- upper half, a valid frame allocator, and tables whose frames are allocated: the entries of the upper
-- half lead to tables of the next level, while those before may hold anything, such as the large pages
-- of the kernel.
pub setup_page_maps-SetUp :
    (kind : ℕ → ℕ) (m : Machine) (cr3 value num : ℕ)
    → IsValid m.manager
    → IsClosed kind m
    → kind cr3 ≡ 4
    → upper_half ≤ index 3 (page value)
    → MapsSetUp kind m cr3 (page value) num (setup_page_maps m cr3 value num)
unfolding setup_page_maps
setup_page_maps-SetUp kind m cr3 value num v c level up =
    elim (setup_page_map-SetUp 3 (omega arith) kind m cr3 value num v c (λ k e. level ∙ e)
      (λ top. up)) [
        | set_up kind' m' remain g count mapped e ↦
            rw (e, setup_page_maps) (maps_set_up kind' m' g mapped refl)
        | out_of_memory_at kind' m' remain g e ↦
            rw (e, setup_page_maps) (maps_out_of_memory kind' m' g refl)
      ]
