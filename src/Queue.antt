-- ===== src/Queue.antt =====
-- Kernel/queue.hpp, the class template `ArrayQueue`: a circular queue over an array of the caller's.
-- An operation that changes the queue returns the new queue beside its `Error`.
pub mod Fifo
pub mod Inv
pub mod Refine
mod Tests
use mikanos_copy.Common.{
  ℕ, ◌+◌, ◌-◌, ◌%◌, ◌^◌, Option, List, [], ◌∷◌, length, get_elem?, set, add64, ◌==◌, if◌then◌else◌,
}
use mikanos_copy.Error.{Error}
use Fifo.{Call, Reply}

module _ {ℓ} (T : Type ℓ) where
  pub record ArrayQueue : Type ℓ where
    pub elems : List T
    pub read_pos : ℕ
    pub write_pos : ℕ
    pub count : ℕ
    pub capacity : ℕ

module _ {ℓ} {T : Type ℓ} where
  -- The constructor over a pointer and a size.
  pub init : List T → ℕ → ArrayQueue T
  init buf size = record { elems = buf; read_pos = 0; write_pos = 0; count = 0; capacity = size }

  -- The constructor over a `std::array`, whose size is that of the array.
  pub of_array : List T → ArrayQueue T
  unfolding init
  of_array buf = init buf (length buf)

  -- A `set` out of the array changes nothing; `Refine.push_in_bounds` rules it out.
  pub push : ArrayQueue T → T → Error × ArrayQueue T
  push q value = if q.count == q.capacity then (Error.full, q) else (
    Error.success,
    record q {
      elems = set q.elems q.write_pos value;
      count = add64 q.count 1;
      write_pos = add64 q.write_pos 1 % q.capacity;
    },
  )

  -- `count_--` runs only when the count is not zero, so it does not wrap.
  pub pop : ArrayQueue T → Error × ArrayQueue T
  pop q = if q.count == 0 then (Error.empty, q) else (
    Error.success,
    record q { count = q.count - 1; read_pos = add64 q.read_pos 1 % q.capacity },
  )

  -- `none` is a read out of the array.
  pub front : ArrayQueue T → Option T
  front q = get_elem? q.elems q.read_pos

  -- A client's calls in order, each with what it returns.
  pub run : ArrayQueue T → List (Call T) → List (Reply T)
  unfolding push pop front
  run q [] = []
  run q (Call.push v ∷ calls) = let (e, r) = push q v in Reply.status e ∷ run r calls
  run q (Call.pop ∷ calls) = let (e, r) = pop q in Reply.status e ∷ run r calls
  run q (Call.front ∷ calls) = Reply.element (front q) ∷ run q calls
  run q (Call.count ∷ calls) = Reply.number q.count ∷ run q calls
  run q (Call.capacity ∷ calls) = Reply.number q.capacity ∷ run q calls
