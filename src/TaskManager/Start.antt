-- ===== src/TaskManager/Start.antt =====
-- The constructor of `TaskManager` and `NewTask` (Kernel/task.cpp).
use mikanos_copy.Common.{
  ℕ, ◌+◌, ◌^◌, ◌<◌, ◌≡◌, ◌≢◌, refl, sym, subst, ap, ◌∙◌, true, some, [], ◌∷◌, ◌++◌, add64, ◌==◌,
  if◌then◌else◌, arith, ==-refl, Bool-cases, ℕ_discrete, inl, inr,
}
use mikanos_copy.Task.{
  Task, TaskContext, set_context, set_level, set_running, push_message, receive_message,
}
use mikanos_copy.Task
use mikanos_copy.TaskManager.{TaskManager, new_task, current_task}
use mikanos_copy.TaskManager.Queues.{find_task, update_task, count, find_task-append}
use mikanos_copy.TaskManager.Inv.{places, LevelIn, is_running, idle_id, IsValid}
use mikanos_copy.TaskManager.{init}

-- What `NewTask` leaves.
pub record Created (tm : TaskManager) (r : ℕ × TaskManager) : Type 0 where
  pub valid : IsValid r.1
  pub numbered : r.0 ≡ tm.latest_id + 1
  pub created : find_task r.0 r.1.tasks ≡ some (Task.new r.0)
  pub others : (t : ℕ) → r.0 ≢ t → find_task t r.1.tasks ≡ find_task t tm.tasks

module _ {tm : TaskManager} (v : IsValid tm) (room : tm.latest_id + 1 < 2 ^ 64) where
  id : ℕ
  id = tm.latest_id + 1

  found_after :
      (t : ℕ)
      → find_task t (tm.tasks ++ Task.new id ∷ [])
        ≡ (if id == t then some (Task.new id) else find_task t tm.tasks)
  unfolding id Task.new
  found_after t =
      find_task-append t tm.tasks (Task.new (tm.latest_id + 1)) ∙ ground (arith, v.fresh t)

  no_wrap : id ≡ add64 tm.latest_id 1
  unfolding id
  no_wrap = omega arith

  same_places :
      (t l : ℕ)
      → places (if id == t then some (Task.new id) else find_task t tm.tasks) l
        ≡ places (find_task t tm.tasks) l
  unfolding id Task.new
  same_places t l = elim (ℕ_discrete (tm.latest_id + 1) t) [
    | yes e ↦ rw (v.fresh t (omega arith)) (ground (arith, e))
    | no ne ↦ ground (arith, ne)
  ]

  low : (t : ℕ) → LevelIn (if id == t then some (Task.new id) else find_task t tm.tasks)
  unfolding Task.new
  low t = elim (Bool-cases (id == t)) [ inl e ↦ rw e (omega arith) | inr e ↦ rw e (v.levels t) ]

  same_idle :
      is_running (if id == idle_id then some (Task.new id) else find_task idle_id tm.tasks) ≡ true
  unfolding id Task.new
  same_idle = ground (arith, v.idle_runs, v.fresh idle_id)

  -- `NewTask` gives a task a number that no task had; it sleeps until it is woken.
  pub new_task-Created : Created tm (new_task tm)
  unfolding new_task id
  new_task-Created =
      subst (λ n. Created tm (n, record tm { latest_id = n; tasks = tm.tasks ++ Task.new n ∷ [] }))
        no_wrap
        (record {
          valid = record {
            consistent = record {
              placed = λ t l.
                  v.placed t l ∙ sym (ap (λ o. places o l) (found_after t) ∙ same_places t l);
              levels = λ t. subst LevelIn (sym (found_after t)) (low t);
              fresh = λ t h. found_after t ∙ ground (arith, h, v.fresh t);
              idle_runs = ap is_running (found_after idle_id) ∙ same_idle;
              current_in = v.current_in;
              top = v.top;
            };
            busy = v.busy;
          };
          numbered = refl;
          created = found_after id ∙ rw (==-refl id) refl;
          others = λ t ne. found_after t ∙ ground (arith, ne);
        })

-- The manager that the constructor makes is valid: the main task is the current one, and the idle
-- task waits at level 0.
pub init-IsValid :
    (cr3 stack_end idle : ℕ)
    → IsValid (init cr3 stack_end idle) × (current_task (init cr3 stack_end idle) ≡ some 1)
unfolding init new_task current_task update_task find_task count Task.new set_level set_running
    Task.init_context
init-IsValid cr3 stack_end idle = (
  record {
    consistent = record {
      placed = λ t l. ground arith;
      levels = λ t. elim (Bool-cases (1 == t)) [
        | inl e ↦ rw e (omega arith)
        | inr e ↦ rw e (elim (Bool-cases (2 == t)) [ inl f ↦ rw f (omega arith) | inr f ↦ rw f tt ])
      ];
      fresh = λ t h. ground arith;
      idle_runs = ground arith;
      current_in = omega arith;
      top = λ e l h. ground arith;
    };
    busy = refl;
  },
  refl,
)
