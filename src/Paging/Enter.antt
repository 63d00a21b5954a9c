-- ===== src/Paging/Enter.antt =====
-- `SetNewPageMapIfNotPresent` (Kernel/paging.cpp) returns a child or refuses for want of memory.
use mikanos_copy.Common.{
  ℕ, suc, ◌≤◌, ◌≡◌, refl, ap, ◌∙◌, Option, some, ◌==◌, arith, Bool-cases, inl, inr,
}
use mikanos_copy.Error.{Error, WithError}
use mikanos_copy.Memory.{Manager, mark_allocated, null_frame}
use mikanos_copy.Memory.Bitmap.{IsValid}
use mikanos_copy.Memory.Alloc.{FreeRun, Outcome, found, refused, allocate-Outcome}
use mikanos_copy.Paging.{
  Machine, present, addr, write, Result, new_page_map, set_new_page_map_if_not_present,
}
use mikanos_copy.Paging.Walk.{upper_half, IsClosed, Grown, Grown_refl}
use mikanos_copy.Paging.Grow.{HasChild, grown, marked, new_child}

pub data Entered (kind : ℕ → ℕ) (m : Machine) (t i below : ℕ) (r : Result) : Type 0 where
  entered :
      (child : ℕ) (kind' : ℕ → ℕ) (m' : Machine)
      → HasChild kind m t i below child kind' m'
      → r ≡ some (child, Error.success, m')
      → Entered kind m t i below r
  out_of_memory :
      (m' : Machine)
      → Grown kind m kind m'
      → r ≡ some (0, Error.no_enough_memory, m')
      → Entered kind m t i below r

-- The two results of an allocation of one frame.
data OneFrame (m : Manager) (r : Option (WithError ℕ × Manager)) : Type 0 where
  granted :
      (g : ℕ)
      → FreeRun m g 1
      → r ≡ some (record { value = g; error = Error.success }, mark_allocated m g 1)
      → OneFrame m r
  none_left :
      r ≡ some (record { value = null_frame; error = Error.no_enough_memory }, m) → OneFrame m r

one_frame : {m : Manager} {r : Option (WithError ℕ × Manager)} → Outcome m 1 r → OneFrame m r
one_frame (found g b run first) = granted g run refl
one_frame (refused no_run) = none_left refl

pub set_new_page_map-Entered :
    {kind : ℕ → ℕ} {m : Machine} (t i below : ℕ)
    → IsValid m.manager
    → IsClosed kind m
    → kind t ≡ suc below
    → (below ≡ 3 → upper_half ≤ i)
    → Entered kind m t i below (set_new_page_map_if_not_present m t i)
unfolding set_new_page_map_if_not_present new_page_map grown write marked
set_new_page_map-Entered {kind = kind} {m = m} t i below v c level up =
    elim (Bool-cases (present (m.word t i) == 1)) [
      | inl there ↦ rw there (
          entered (addr (m.word t i)) kind m
            (record {
              grown = Grown_refl v c;
              there = (c.tables t below level, ground (arith, there));
              leads = refl;
              level = λ k e.
                  c.leads t k i (level ∙ ap suc e) (λ top. up (omega (arith, e, top)))
                    (ground (arith, there));
            })
            refl)
      | inr absent ↦ rw absent (elim (one_frame (allocate-Outcome m.manager 1 v)) [
        | granted g run e ↦ rw e (entered g _ _ (new_child v c t i below g level absent run) refl)
        | none_left e ↦ rw e (out_of_memory m (Grown_refl v c) refl)
      ])
    ]
