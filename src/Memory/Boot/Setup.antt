-- ===== src/Memory/Boot/Setup.antt =====
-- What `InitializeHeap` and `InitializeMemoryManager` (Kernel/memory_manager.cpp) leave behind.
use mikanos_copy.Common.{
  ℕ, ◌+◌, ◌-◌, ◌*◌, ◌/◌, ◌≤◌, ◌<◌, ◌≡◌, refl, ap, ◌∙◌, true, false, Option, some, ◌⊎◌, inl, inr,
  arith,
}
use mikanos_copy.Error.{Error, WithError}
use mikanos_copy.Memory.{Manager, get_bit, mark_allocated}
use mikanos_copy.Memory.Bitmap.{IsValid, get_bit-mark_allocated}
use mikanos_copy.Memory.Alloc.{Outcome, found, refused, allocate-Outcome}
use mikanos_copy.Memory.Boot.{Heap, heap_frames, place_heap, initialize_heap}

-- A heap of 128 MiB on frames that were free in `m` and are allocated in `m'`.
pub record IsHeapOf (m m' : Manager) (heap : Heap) : Type 0 where
  pub size : heap.program_break_end ≡ heap.program_break + 128 * 1024 * 1024
  pub was_free :
      (a : ℕ) → heap.program_break ≤ a → a < heap.program_break_end → get_bit m (a / 4096) ≡ false
  pub is_taken :
      (a : ℕ) → heap.program_break ≤ a → a < heap.program_break_end → get_bit m' (a / 4096) ≡ true

abbrev pub HeapResult : Manager → Heap → Option (Error × Manager × Heap) → Type 0
HeapResult m heap result =
    ((m' : Manager) × (heap' : Heap) × (result ≡ some (Error.success, m', heap'))
      × IsHeapOf m m' heap')
    ⊎ (result ≡ some (Error.no_enough_memory, m, heap))

place_heap-HeapResult :
    {m : Manager} {heap : Heap} {r : Option (WithError ℕ × Manager)}
    → IsValid m
    → Outcome m heap_frames r
    → HeapResult m heap (place_heap heap r)
unfolding place_heap
place_heap-HeapResult {m} {heap} v (found start b run first) = inl (
  mark_allocated m start heap_frames,
  _,
  refl,
  record {
    size = omega (arith, run.inside, v);
    was_free = λ a low high.
        ap (get_bit m) (omega (arith, run.inside, v))
        ∙ run.clear (a / 4096 - start) (omega (arith, run.inside, v));
    is_taken = λ a low high.
        get_bit-mark_allocated m start heap_frames v (omega (arith, run.inside, v)) (a / 4096)
        ∙ ground (arith, run.inside, v);
  },
)
place_heap-HeapResult v (refused h) = inr refl

-- On a valid manager `InitializeHeap` sets aside a heap of 128 MiB, whose frames were all free and
-- are allocated from then on, or returns `kNoEnoughMemory` and changes nothing.
pub initialize_heap_lem :
    (m : Manager) (heap : Heap) → IsValid m → HeapResult m heap (initialize_heap m heap)
unfolding initialize_heap
initialize_heap_lem m heap v = place_heap-HeapResult v (allocate-Outcome m heap_frames v)
