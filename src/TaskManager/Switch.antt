-- ===== src/TaskManager/Switch.antt =====
-- `SwitchTask` (Kernel/task.cpp), which the timer interrupt calls.
use mikanos_copy.Common.{
  ℕ, ◌<◌, ◌≡◌, ◌≢◌, refl, ap, ◌∙◌, true, Option, none, some, List, [], ◌∷◌, ◌++◌, ◌==◌,
  if◌then◌else◌, arith,
}
use mikanos_copy.Task.{Task, TaskContext, set_context}
use mikanos_copy.TaskManager.{TaskManager, modify, current_task, Resume, resume_next, switch_task}
use mikanos_copy.TaskManager.Queues.{is_empty, find_task, find_task-update_task}
use mikanos_copy.TaskManager.Inv.{IsValid, modify-IsValid}
use mikanos_copy.TaskManager.Rotate.{Rotated, rotate_run_queue-Rotated}

-- What `SwitchTask` leaves when task `t` was interrupted with `context`.
pub record Switched (tm : TaskManager) (t : ℕ) (context : TaskContext) (r : Resume × TaskManager)
    : Type 0 where
  pub valid : IsValid r.1
  -- The context of the interrupted task is saved, and no other task changes.
  pub saved :
      (u : ℕ)
      → find_task u r.1.tasks ≡ (
          if t == u
          then elim (find_task u tm.tasks) [ none ↦ none | some k ↦ some (set_context context k) ]
          else find_task u tm.tasks)
  -- A task that goes on in its place is one that waits, with the context it was saved with.
  pub resumes :
      (u : ℕ) (k : Task)
      → current_task r.1 ≡ some u
      → u ≢ t
      → find_task u tm.tasks ≡ some k
      → r.0 ≡ Resume.restore k.context
  -- The same task goes on where it was interrupted.
  pub returns : current_task r.1 ≡ some t → r.0 ≡ Resume.return
  -- No task waits at a higher level than that of the task that goes on.
  pub highest : (l : ℕ) → r.1.current_level < l → is_empty (r.1.running l) ≡ true

module _ {tm : TaskManager} (v : IsValid tm) (t : ℕ) (rest : List ℕ)
    (e : tm.running tm.current_level ≡ t ∷ rest) (context : TaskContext) where
  saved_tm : TaskManager
  saved_tm = modify tm t (set_context context)

  saved_tm-IsValid : IsValid saved_tm
  unfolding saved_tm set_context
  saved_tm-IsValid = modify-IsValid v t (set_context context) (λ k. (refl, refl, refl))

  saved_tasks :
      (u : ℕ)
      → find_task u saved_tm.tasks ≡ (
          if t == u
          then elim (find_task u tm.tasks) [ none ↦ none | some k ↦ some (set_context context k) ]
          else find_task u tm.tasks)
  unfolding saved_tm set_context
  saved_tasks u = find_task-update_task u t (set_context context) tm.tasks (λ k. refl)

  resume_next-Switched :
      (queue : List ℕ) (before : Option ℕ) (tm' : TaskManager)
      → Rotated saved_tm t queue (before, tm')
      → Switched tm t context (resume_next (before, tm'))
  unfolding resume_next
  resume_next-Switched queue before tm' r = record {
    valid = r.valid;
    saved = λ u. ap (find_task u) r.same_tasks ∙ saved_tasks u;
    resumes = λ u k now other found.
        rw (now, r.first) (ground (arith, other, ap (find_task u) r.same_tasks, saved_tasks u));
    returns = λ now. rw (now, r.first) (ground arith);
    highest = r.valid.top r.settled;
  }

  first_of_queue : current_task tm ≡ some t
  unfolding current_task
  first_of_queue = rw (e, current_task)

  -- The interrupted task's context is saved, the manager stays valid, and the next task of the
  -- highest level goes on with the context that it was saved with.
  pub switch_task-Switched : Switched tm t context (switch_task tm context)
  unfolding switch_task saved_tm
  switch_task-Switched = rw first_of_queue (
      resume_next-Switched (rest ++ t ∷ []) _ _
        (rotate_run_queue-Rotated saved_tm-IsValid t rest e))
