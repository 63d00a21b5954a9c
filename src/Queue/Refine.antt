-- ===== src/Queue/Refine.antt =====
-- An `ArrayQueue` behaves as the bounded queue of the elements that it holds.
use mikanos_copy.Common.{
  ℕ, zero, suc, ◌+◌, ◌-◌, ◌%◌, ◌^◌, ◌≤◌, ◌<◌, ◌≡◌, ◌≢◌, refl, sym, ap, ◌∙◌, some, List, [], ◌∷◌,
  ◌++◌, length, get_elem?, set, length-set, length-append, add64, ◌==◌, arith, Bool-cases, inl, inr,
  true, false,
}
use mathlib.Core.Path.{ap₂}
use mikanos_copy.Queue.Fifo.{Call, Reply}
use mikanos_copy.Queue.Fifo
use mikanos_copy.Queue.{ArrayQueue, init, push, pop, front, run}
use mikanos_copy.Queue.Inv.{Holds, Represents, step_add, step_ne, step_in, advance}

module _ {ℓ} {T : Type ℓ} where
  get_elem?-set_at :
      (xs : List T) (i : ℕ) (v : T) → i < length xs → get_elem? (set xs i v) i ≡ some v
  get_elem?-set_at [] i v h = absurd (omega arith)
  get_elem?-set_at (x ∷ xs) zero v h = refl
  get_elem?-set_at (x ∷ xs) (suc i) v h = get_elem?-set_at xs i v (omega arith)

  get_elem?-set_other :
      (xs : List T) (i j : ℕ) (v : T) → i ≢ j → get_elem? (set xs i v) j ≡ get_elem? xs j
  get_elem?-set_other [] i j v h = refl
  get_elem?-set_other (x ∷ xs) zero zero v h = absurd (h refl)
  get_elem?-set_other (x ∷ xs) zero (suc j) v h = refl
  get_elem?-set_other (x ∷ xs) (suc i) zero v h = refl
  get_elem?-set_other (x ∷ xs) (suc i) (suc j) v h =
      get_elem?-set_other xs i j v (λ e. h (ap suc e))

  -- A value written just past the held ones joins them.
  Holds-set :
      (elems : List T) (n : ℕ) (v : T) (xs : List T) (r w : ℕ)
      → n ≤ length elems
      → r < n
      → length xs < n
      → w ≡ (r + length xs) % n
      → Holds elems n r xs
      → Holds (set elems w v) n r (xs ++ v ∷ [])
  Holds-set elems n v [] r w hs hr hn e h =
      rw (e ∙ here) (get_elem?-set_at elems r v (omega arith), tt)
    where
      here : (r + 0) % n ≡ r
      here = grind arith
  Holds-set elems n v (x ∷ xs) r w hs hr hn e h = (
    get_elem?-set_other elems w r v (λ same. step_ne r (length xs) n hr hn (sym e ∙ same)) ∙ h.0,
    Holds-set elems n v xs ((r + 1) % n) w hs (step_in r n hr) (omega arith)
        (e ∙ sym (step_add r (length xs) n hr (omega arith))) h.1,
  )

  -- A new queue over `size` slots is in order and empty.
  pub init-Represents :
      (buf : List T) (size : ℕ)
      → 0 < size
      → size ≤ length buf
      → size < 2 ^ 64
      → Represents (init buf size) []
  unfolding init
  init-Represents buf size h k m = record {
    storage = k;
    small = m;
    read_in = h;
    write_at = grind arith;
    within = omega arith;
    counted = refl;
    held = tt;
  }

  -- The write of `push` and the read of `front` fall inside the array.
  pub push_in_bounds :
      {q : ArrayQueue T} {xs : List T}
      → Represents q xs
      → (q.write_pos < length q.elems) × (q.read_pos < length q.elems)
  push_in_bounds r = omega (arith, r.write_at)

  pub push_refines :
      {q : ArrayQueue T} {xs : List T} (v : T)
      → Represents q xs
      → ((push q v).0 ≡ (Fifo.enqueue q.capacity xs v).0)
        × Represents (push q v).1 (Fifo.enqueue q.capacity xs v).1
        × ((push q v).1.capacity ≡ q.capacity)
  unfolding push Fifo.enqueue
  push_refines {q} {xs} v r = elim (Bool-cases (q.count == q.capacity)) [
    | inl full ↦ rw (full, ← r.counted, full) (refl, r, refl)
    | inr room ↦ rw (room, ← r.counted, room) (refl, added (ground arith), refl)
  ]
    where
      added :
          q.count < q.capacity
          → Represents
              (record q {
                elems = set q.elems q.write_pos v;
                count = add64 q.count 1;
                write_pos = add64 q.write_pos 1 % q.capacity;
              })
              (xs ++ v ∷ [])
      added h = record {
        storage = omega (arith, r.storage, length-set q.elems q.write_pos v);
        small = r.small;
        read_in = r.read_in;
        write_at =
            advance q.write_pos q.read_pos q.count q.capacity r.write_at r.small
              (omega (arith, r.write_at)) h;
        within = omega arith;
        counted = omega (arith, r.counted, length-append xs (v ∷ []));
        held =
            Holds-set q.elems q.capacity v xs q.read_pos q.write_pos r.storage r.read_in
              (omega (arith, r.counted)) (rw (← r.counted) r.write_at) r.held;
      }

  pub pop_refines :
      {q : ArrayQueue T} (xs : List T)
      → Represents q xs
      → ((pop q).0 ≡ (Fifo.dequeue xs).0)
        × Represents (pop q).1 (Fifo.dequeue xs).1
        × ((pop q).1.capacity ≡ q.capacity)
  unfolding pop Fifo.dequeue
  pop_refines {q} [] r = rw none_left (refl, r, refl)
    where
      none_left : (q.count == 0) ≡ true
      none_left = ground (arith, r.counted)
  pop_refines {q} (x ∷ xs) r = rw some_left (refl, taken, refl)
    where
      some_left : (q.count == 0) ≡ false
      some_left = ground (arith, r.counted)

      -- Neither addition wraps.
      next : add64 q.read_pos 1 ≡ q.read_pos + 1
      next = omega (arith, r.read_in, r.small)

      same_end :
          (q.read_pos + q.count) % q.capacity
          ≡ ((q.read_pos + 1) % q.capacity + (q.count - 1)) % q.capacity
      same_end =
          ap (λ t. (q.read_pos + t) % q.capacity) (omega (arith, r.counted))
          ∙ sym (
              step_add q.read_pos (q.count - 1) q.capacity r.read_in
                (omega (arith, r.counted, r.within)))

      taken :
          Represents
            (record q { count = q.count - 1; read_pos = add64 q.read_pos 1 % q.capacity })
            xs
      taken = rw next (record {
        storage = r.storage;
        small = r.small;
        read_in = step_in q.read_pos q.capacity r.read_in;
        write_at = r.write_at ∙ same_end;
        within = omega (arith, r.within);
        counted = omega (arith, r.counted);
        held = r.held.1;
      })

  pub front_refines :
      {q : ArrayQueue T} (xs : List T) → Represents q xs → xs ≢ [] → front q ≡ Fifo.oldest xs
  unfolding front Fifo.oldest
  front_refines [] r h = absurd (h refl)
  front_refines (x ∷ xs) r h = r.held.0

  -- No sequence of calls, in which `Front` is not asked of an empty queue, tells a queue in order
  -- from the bounded queue of the elements that it holds.
  pub run_refines :
      (calls : List (Call T)) {q : ArrayQueue T} {xs : List T}
      → Represents q xs
      → Fifo.IsPolite q.capacity xs calls
      → run q calls ≡ Fifo.run q.capacity xs calls
  unfolding run Fifo.run
  run_refines [] r h = refl
  run_refines (Call.push v ∷ calls) {q} {xs} r h =
      let step = push_refines v r in
      ap₂ (λ e rest. Reply.status e ∷ rest) step.0
        (run_refines calls step.1 (rw step.2 h)
          ∙ ap (λ c. Fifo.run c (Fifo.enqueue q.capacity xs v).1 calls) step.2)
  run_refines (Call.pop ∷ calls) {q} {xs} r h =
      let step = pop_refines xs r in
      ap₂ (λ e rest. Reply.status e ∷ rest) step.0
        (run_refines calls step.1 (rw step.2 h)
          ∙ ap (λ c. Fifo.run c (Fifo.dequeue xs).1 calls) step.2)
  run_refines (Call.front ∷ calls) {q} {xs} r h =
      ap₂ (λ e rest. Reply.element e ∷ rest) (front_refines xs r h.0) (run_refines calls r h.1)
  run_refines (Call.count ∷ calls) {q} {xs} r h =
      ap₂ (λ e rest. Reply.number e ∷ rest) r.counted (run_refines calls r h)
  run_refines (Call.capacity ∷ calls) {q} {xs} r h =
      ap (λ rest. Reply.number q.capacity ∷ rest) (run_refines calls r h)
