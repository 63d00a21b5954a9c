-- ===== src/Queue/Fifo.antt =====
-- What a client asks of an `ArrayQueue`, and the bounded queue that it expects: a list, oldest first.
use mikanos_copy.Common.{
  ℕ, Option, none, some, List, [], ◌∷◌, ◌++◌, length, ◌==◌, ◌≢◌, if◌then◌else◌,
}
use mikanos_copy.Error.{Error}

module _ {ℓ} (T : Type ℓ) where
  pub data Call : Type ℓ where
    push : T → Call
    pop front count capacity : Call

  pub data Reply : Type ℓ where
    status : Error → Reply
    element : Option T → Reply
    number : ℕ → Reply

module _ {ℓ} {T : Type ℓ} where
  unfoldable pub enqueue : ℕ → List T → T → Error × List T
  enqueue cap q v = if length q == cap then (Error.full, q) else (Error.success, q ++ v ∷ [])

  unfoldable pub dequeue : List T → Error × List T
  dequeue [] = (Error.empty, [])
  dequeue (v ∷ q) = (Error.success, q)

  unfoldable pub oldest : List T → Option T
  oldest [] = none
  oldest (v ∷ q) = some v

  unfoldable pub run : ℕ → List T → List (Call T) → List (Reply T)
  run cap q [] = []
  run cap q (Call.push v ∷ calls) = let (e, r) = enqueue cap q v in Reply.status e ∷ run cap r calls
  run cap q (Call.pop ∷ calls) = let (e, r) = dequeue q in Reply.status e ∷ run cap r calls
  run cap q (Call.front ∷ calls) = Reply.element (oldest q) ∷ run cap q calls
  run cap q (Call.count ∷ calls) = Reply.number (length q) ∷ run cap q calls
  run cap q (Call.capacity ∷ calls) = Reply.number cap ∷ run cap q calls

  -- `Front` is not to be asked of an empty queue.
  abbrev pub IsPolite : ℕ → List T → List (Call T) → Type ℓ
  IsPolite cap q [] = Unit
  IsPolite cap q (Call.push v ∷ calls) = IsPolite cap (enqueue cap q v).1 calls
  IsPolite cap q (Call.pop ∷ calls) = IsPolite cap (dequeue q).1 calls
  IsPolite cap q (Call.front ∷ calls) = (q ≢ []) × IsPolite cap q calls
  IsPolite cap q (Call.count ∷ calls) = IsPolite cap q calls
  IsPolite cap q (Call.capacity ∷ calls) = IsPolite cap q calls
