-- ===== src/Queue/Tests.antt =====
-- Runs of a small `ArrayQueue` (Kernel/queue.hpp).
use mikanos_copy.Common.{ℕ, ◌≡◌, refl, List, [], ◌∷◌, arith, some}
use mikanos_copy.Error.{Error}
use mikanos_copy.Queue.Fifo.{Call, Reply}
use mikanos_copy.Queue.Fifo
use mikanos_copy.Queue.{ArrayQueue, of_array, run}
use mikanos_copy.Queue.Inv.{Represents}
use mikanos_copy.Queue.Refine.{run_refines}

-- 8, then 9 round the end of the array.
abbrev wrapped : ArrayQueue ℕ
wrapped = record { elems = 9 ∷ 7 ∷ 8 ∷ []; read_pos = 2; write_pos = 1; count = 2; capacity = 3 }

abbrev script : List (Call ℕ)
script = Call.push 5 ∷ Call.push 6 ∷ Call.front ∷ Call.pop ∷ Call.count ∷ []

wrapped-Represents : Represents wrapped (8 ∷ 9 ∷ [])
wrapped-Represents = record {
  storage = omega arith;
  small = omega arith;
  read_in = omega arith;
  write_at = refl;
  within = omega arith;
  counted = refl;
  held = (refl, (refl, tt));
}

run-wrapped :
    run wrapped script
    ≡ Reply.status Error.success
      ∷ Reply.status Error.full
      ∷ Reply.element (some 8)
      ∷ Reply.status Error.success
      ∷ Reply.number 2
      ∷ []
unfolding run
run-wrapped = refl

run-of_array :
    run {T = ℕ} (of_array (0 ∷ [])) (Call.pop ∷ Call.push 4 ∷ [])
    ≡ Reply.status Error.empty ∷ Reply.status Error.success ∷ []
unfolding run of_array
run-of_array = refl

run_refines_example : run wrapped script ≡ Fifo.run 3 (8 ∷ 9 ∷ []) script
unfolding Fifo.enqueue Fifo.dequeue
run_refines_example = run_refines script wrapped-Represents ((λ e. cc), tt)
