-- ===== src/TaskManager/Wake.antt =====
-- `Wakeup`, `Sleep` and `SendMessage` (Kernel/task.cpp) keep the queues in order.
use mikanos_copy.Common.{
  ℕ, ◌+◌, ◌≤◌, ◌≡◌, ◌≢◌, refl, Bool, true, false, Option, none, some, List, [], ◌∷◌, ◌++◌, ltb,
  ◌==◌, if◌then◌else◌, arith, ==-refl, Bool-cases, ℕ_discrete, inl, inr,
}
use mikanos_copy.Task.{Task, set_level, set_running}
use mikanos_copy.TaskManager.{TaskManager, max_level, current_task, level_or, wakeup_task}
use mikanos_copy.TaskManager.Queues.{update, is_empty, find_task, update_task, count, count-append}
use mikanos_copy.TaskManager.Inv.{
  changed-IsConsistent, find_changed_self, find_changed_other, places, IsValid,
}

is_empty-snoc : (xs : List ℕ) (x : ℕ) → is_empty (xs ++ x ∷ []) ≡ false
is_empty-snoc [] x = refl
is_empty-snoc (y ∷ xs) x = refl

pub count-snoc :
    (t x : ℕ) (xs : List ℕ) → count t (xs ++ x ∷ []) ≡ count t xs + (if x == t then 1 else 0)
unfolding count
count-snoc t x xs = omega (arith, count-append t xs (x ∷ []))

-- The front of a queue that is not empty stays when a task is put at its end.
front-snoc :
    (tm : TaskManager) (queues : ℕ → List ℕ) (tasks : List Task) (changed : Bool) (queue : List ℕ)
    (x : ℕ)
    → tm.running tm.current_level ≡ queue
    → is_empty queue ≡ false
    → queues tm.current_level ≡ queue ++ x ∷ []
    → current_task (record tm { tasks = tasks; running = queues; level_changed = changed })
      ≡ current_task tm
unfolding current_task
front-snoc tm queues tasks changed [] x e h q = cc
front-snoc tm queues tasks changed (y ∷ queue) x e h q = rw (e, q, current_task)

same_front :
    (tm : TaskManager) (queues : ℕ → List ℕ) (tasks : List Task) (changed : Bool)
    → queues tm.current_level ≡ tm.running tm.current_level
    → current_task (record tm { tasks = tasks; running = queues; level_changed = changed })
      ≡ current_task tm
unfolding current_task
same_front tm queues tasks changed q = rw (q, current_task)

-- What a call that wakes a task leaves.
pub record Awake (tm : TaskManager) (k : Task) (target : ℕ) (tm' : TaskManager) : Type 0 where
  pub valid : IsValid tm'
  -- The task runs at the level asked for, and is the last of its queue.
  pub runs : find_task k.id tm'.tasks ≡ some (record k { level = target; running = true })
  pub queued : tm'.running target ≡ tm.running target ++ k.id ∷ []
  -- No other task changes, and the current task goes on until the next switch.
  pub others : (t : ℕ) → k.id ≢ t → find_task t tm'.tasks ≡ find_task t tm.tasks
  pub current : current_task tm' ≡ current_task tm

-- A task that sleeps, put at the end of a queue and marked as running.
module _ {tm : TaskManager} (v : IsValid tm) (k : Task) (known : find_task k.id tm.tasks ≡ some k)
    (asleep : k.running ≡ false) (target : ℕ) (inside : target ≤ max_level) where
  queues : ℕ → List ℕ
  queues = update tm.running target (tm.running target ++ k.id ∷ [])

  wake : Task → Task
  wake t = set_running true (set_level target t)

  places_of : (l : ℕ) → places (find_task k.id tm.tasks) l ≡ 0
  places_of l = rw known (ground (arith, asleep))

  own_places : (l : ℕ) → count k.id (queues l) ≡ places (some (wake k)) l
  unfolding queues wake set_running set_level
  own_places l = elim (ℕ_discrete target l) [
    | yes e ↦ rw (← e) (
        ground (
          arith,
          asleep,
          count-snoc k.id k.id (tm.running target),
          v.placed k.id target,
          places_of target,
        ))
    | no ne ↦ ground (arith, asleep, ne, v.placed k.id l, places_of l)
  ]

  other_places : (t l : ℕ) → k.id ≢ t → count t (queues l) ≡ count t (tm.running l)
  unfolding queues
  other_places t l ne = elim (ℕ_discrete target l) [
    | yes e ↦ rw (← e) (ground (arith, ne, count-snoc t k.id (tm.running target)))
    | no apart ↦ ground (arith, apart)
  ]

  woken :
      (changed : Bool)
      → (changed ≡ false → (tm.level_changed ≡ false) × (target ≤ tm.current_level))
      → IsValid (record tm {
        tasks = update_task k.id wake tm.tasks;
        running = queues;
        level_changed = changed;
      })
  unfolding wake queues set_running set_level
  woken changed h = record {
    consistent =
        changed-IsConsistent v.consistent k.id wake k queues (λ u. refl) known inside (λ e. refl)
          own_places other_places tm.current_level changed v.current_in
          (λ e l above. ground (arith, h e, v.top (h e).0 l above));
    busy = elim (ℕ_discrete target tm.current_level) [
      | yes e ↦ ground (arith, e, is_empty-snoc (tm.running target) k.id)
      | no ne ↦ ground (arith, ne, v.busy)
    ];
  }

  woken-Awake :
      (changed : Bool)
      → (changed ≡ false → (tm.level_changed ≡ false) × (target ≤ tm.current_level))
      → Awake tm k target (record tm {
        tasks = update_task k.id wake tm.tasks;
        running = queues;
        level_changed = changed;
      })
  unfolding wake queues set_running set_level current_task
  woken-Awake changed h = record {
    valid = woken changed h;
    runs =
        find_changed_self v.consistent k.id wake k queues (λ u. refl) known inside (λ e. refl)
          own_places other_places;
    queued = rw (==-refl target) refl;
    others =
        find_changed_other v.consistent k.id wake k queues (λ u. refl) known inside (λ e. refl)
          own_places other_places;
    current = elim (ℕ_discrete target tm.current_level) [
      | yes e ↦
          front-snoc tm queues (update_task k.id wake tm.tasks) changed
            (tm.running tm.current_level) k.id refl v.busy
            (rw e (rw (==-refl tm.current_level) refl))
      | no ne ↦ same_front tm queues (update_task k.id wake tm.tasks) changed (ground (arith, ne))
    ];
  }

module _ {tm : TaskManager} (v : IsValid tm) (k : Task) (known : find_task k.id tm.tasks ≡ some k)
    (level : Option ℕ) where
  -- `Wakeup` of a sleeping task.
  pub wakeup_task-Awake :
      k.running ≡ false
      → level_or level k.level ≤ max_level
      → Awake tm k (level_or level k.level) (wakeup_task tm k level)
  unfolding wakeup_task wake queues
  wakeup_task-Awake asleep inside =
      simp asleep (elim (Bool-cases (ltb tm.current_level (level_or level k.level))) [
        | inl up ↦
            rw up (woken-Awake v k known asleep (level_or level k.level) inside true (λ e. cc))
        | inr down ↦ rw down (
            woken-Awake v k known asleep (level_or level k.level) inside tm.level_changed
              (λ e. (e, ground (arith, down))))
      ])

-- A task that runs already is left alone when no level is asked for.
pub wakeup_task_running :
    (tm : TaskManager) (k : Task) → k.running ≡ true → wakeup_task tm k none ≡ tm
unfolding wakeup_task
wakeup_task_running tm k e = ground (arith, e)
