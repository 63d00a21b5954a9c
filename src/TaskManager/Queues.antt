-- ===== src/TaskManager/Queues.antt =====
-- The containers of Kernel/task.cpp: the array of run queues, and the vector of tasks.
use mikanos_copy.Common.{
  ℕ, ◌+◌, ◌<◌, ◌≡◌, refl, Bool, true, false, Option, none, some, List, [], ◌∷◌, ◌++◌, ◌==◌,
  if◌then◌else◌, arith,
}
use mikanos_copy.Task.{Task}

-- `f[i] = v`.
abbrev pub update {ℓ} : {A : Type ℓ} → (ℕ → A) → ℕ → A → ℕ → A
update f i v j = if i == j then v else f j

abbrev pub is_empty {ℓ} : {A : Type ℓ} → List A → Bool
is_empty [] = true
is_empty (x ∷ xs) = false

-- The template `Erase`: every copy of a pointer is taken out.
unfoldable pub erase : ℕ → List ℕ → List ℕ
erase t [] = []
erase t (x ∷ xs) = let rest = erase t xs in if x == t then rest else x ∷ rest

-- `std::find_if` by the task's number.
unfoldable pub find_task : ℕ → List Task → Option Task
find_task id [] = none
find_task id (task ∷ tasks) = if task.id == id then some task else find_task id tasks

-- A method call through a pointer.
unfoldable pub update_task : ℕ → (Task → Task) → List Task → List Task
update_task id f [] = []
update_task id f (task ∷ tasks) = (if task.id == id then f task else task) ∷ update_task id f tasks

unfoldable pub count : ℕ → List ℕ → ℕ
count t [] = 0
count t (x ∷ xs) = (if x == t then 1 else 0) + count t xs

pub count-append : (t : ℕ) (xs ys : List ℕ) → count t (xs ++ ys) ≡ count t xs + count t ys
unfolding count
count-append t [] ys = omega arith
count-append t (x ∷ xs) ys = omega (arith, count-append t xs ys)

pub count-erase :
    (t u : ℕ) (xs : List ℕ) → count t (erase u xs) ≡ (if u == t then 0 else count t xs)
unfolding count erase
count-erase t u [] = ground arith
count-erase t u (x ∷ xs) = ground (arith, count-erase t u xs)

-- A list that holds something is not empty.
pub is_empty_of_count : (t : ℕ) (xs : List ℕ) → 0 < count t xs → is_empty xs ≡ false
unfolding count
is_empty_of_count t [] h = absurd (omega arith)
is_empty_of_count t (x ∷ xs) h = refl

-- A change that keeps the numbers of the tasks is seen at the task that it is made to.
pub find_task-update_task :
    (t id : ℕ) (f : Task → Task) (tasks : List Task)
    → ((k : Task) → (f k).id ≡ k.id)
    → find_task t (update_task id f tasks) ≡ (
        if id == t
        then elim (find_task t tasks) [ none ↦ none | some k ↦ some (f k) ]
        else find_task t tasks)
unfolding find_task update_task
find_task-update_task t id f [] h = ground arith
find_task-update_task t id f (k ∷ tasks) h =
    ground (arith, h k, find_task-update_task t id f tasks h)

pub find_task-append :
    (t : ℕ) (tasks : List Task) (k : Task)
    → find_task t (tasks ++ k ∷ [])
      ≡ elim (find_task t tasks) [ none ↦ (if k.id == t then some k else none) | some u ↦ some u ]
unfolding find_task
find_task-append t [] k = refl
find_task-append t (u ∷ tasks) k = ground (arith, find_task-append t tasks k)

pub find_task-id : (t : ℕ) (tasks : List Task) (k : Task) → find_task t tasks ≡ some k → k.id ≡ t
unfolding find_task
find_task-id t [] k e = cc
find_task-id t (u ∷ tasks) k e = ground (arith, find_task-id t tasks k)
