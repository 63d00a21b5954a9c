-- ===== src/TaskManager/Sleep.antt =====
-- `Sleep` (Kernel/task.cpp) of any task but the idle task.
use mikanos_copy.Common.{
  ℕ, ◌+◌, ◌<◌, ◌≡◌, ◌≢◌, refl, sym, subst, ap, ◌∙◌, true, false, some, List, [], ◌∷◌, ◌==◌,
  if◌then◌else◌, arith, ==-refl, ℕ_discrete,
}
use mikanos_copy.Task.{Task, TaskContext, set_context, set_running}
use mikanos_copy.TaskManager.{
  TaskManager, modify, current_task, settle_level, rotate_run_queue, Resume, context_of,
  save_context, sleep_current, sleep_task,
}
use mikanos_copy.TaskManager.Queues.{
  update, is_empty, erase, find_task, update_task, count, count-erase, is_empty_of_count,
  find_task-update_task,
}
use mikanos_copy.TaskManager.Inv.{
  changed-IsConsistent, find_changed_self, find_changed_other, places, LevelIn, is_running, idle_id,
  IsConsistent, IsValid, settle_level-IsValid, modify-IsValid,
}
use mikanos_copy.TaskManager.Rotate.{settle_level_same}

is_empty-erase : (t : ℕ) (xs : List ℕ) → is_empty xs ≡ true → is_empty (erase t xs) ≡ true
unfolding erase
is_empty-erase t [] e = refl
is_empty-erase t (x ∷ xs) e = cc

count_front : (t : ℕ) (rest : List ℕ) → 0 < count t (t ∷ rest)
unfolding count
count_front t rest = ground arith

-- What `Sleep` leaves of a running task.
pub record Asleep (tm : TaskManager) (k : Task) (r : Resume × TaskManager) : Type 0 where
  pub valid : IsValid r.1
  -- The task no longer runs, and stands in no queue.
  pub stopped : is_running (find_task k.id r.1.tasks) ≡ false
  pub absent : (l : ℕ) → count k.id (r.1.running l) ≡ 0
  -- No other task changes.
  pub others : (t : ℕ) → k.id ≢ t → find_task t r.1.tasks ≡ find_task t tm.tasks

module _ {tm : TaskManager} (v : IsValid tm) (k : Task) (known : find_task k.id tm.tasks ≡ some k)
    (runs : k.running ≡ true) (not_idle : k.id ≢ idle_id) where
  -- The queues, if the task is taken out of that of its level.
  module _ (queues : ℕ → List ℕ) (gone : (l : ℕ) → count k.id (queues l) ≡ 0)
      (rest : (t l : ℕ) → k.id ≢ t → count t (queues l) ≡ count t (tm.running l))
      (top : tm.level_changed ≡ false
        → (l : ℕ) → tm.current_level < l
        → is_empty (queues l) ≡ true) where
    without :
        IsConsistent
          (record tm { tasks = update_task k.id (set_running false) tm.tasks; running = queues })
    unfolding set_running
    without =
        changed-IsConsistent v.consistent k.id (set_running false) k queues (λ u. refl) known
          (subst LevelIn known (v.levels k.id)) (λ e. absurd (not_idle e)) gone rest
          tm.current_level tm.level_changed v.current_in top

    without_self :
        find_task k.id (update_task k.id (set_running false) tm.tasks) ≡ some (set_running false k)
    unfolding set_running
    without_self =
        find_changed_self v.consistent k.id (set_running false) k queues (λ u. refl) known
          (subst LevelIn known (v.levels k.id)) (λ e. absurd (not_idle e)) gone rest

    without_other :
        (t : ℕ)
        → k.id ≢ t
        → find_task t (update_task k.id (set_running false) tm.tasks) ≡ find_task t tm.tasks
    unfolding set_running
    without_other =
        find_changed_other v.consistent k.id (set_running false) k queues (λ u. refl) known
          (subst LevelIn known (v.levels k.id)) (λ e. absurd (not_idle e)) gone rest

  own : (l : ℕ) → count k.id (tm.running l) ≡ (if k.level == l then 1 else 0)
  own l = v.placed k.id l ∙ ap (λ o. places o l) known ∙ ground (arith, runs)

  -- A task that is not the current one.
  erased : ℕ → List ℕ
  erased = update tm.running k.level (erase k.id (tm.running k.level))

  erased_gone : (l : ℕ) → count k.id (erased l) ≡ 0
  unfolding erased
  erased_gone l = ground (arith, own l, count-erase k.id k.id (tm.running k.level))

  erased_rest : (t l : ℕ) → k.id ≢ t → count t (erased l) ≡ count t (tm.running l)
  unfolding erased
  erased_rest t l ne = elim (ℕ_discrete k.level l) [
    | yes e ↦ rw (← e) (ground (arith, ne, count-erase t k.id (tm.running k.level)))
    | no apart ↦ ground (arith, apart)
  ]

  erased_top :
      tm.level_changed ≡ false → (l : ℕ) → tm.current_level < l → is_empty (erased l) ≡ true
  unfolding erased
  erased_top c l h = elim (ℕ_discrete k.level l) [
    | yes e ↦ rw e (rw (==-refl l) (is_empty-erase k.id (tm.running l) (v.top c l h)))
    | no apart ↦ ground (arith, apart, v.top c l h)
  ]

  -- The current task, which leaves the rest of its queue.
  module _ (rest : List ℕ) (e : tm.running tm.current_level ≡ k.id ∷ rest) where
    shortened : ℕ → List ℕ
    shortened = update tm.running tm.current_level rest

    front_count :
        (t : ℕ)
        → count t (tm.running tm.current_level) ≡ (if k.id == t then 1 else 0) + count t rest
    unfolding count
    front_count t = ap (count t) e

    shortened_gone : (l : ℕ) → count k.id (shortened l) ≡ 0
    unfolding shortened
    shortened_gone l = ground (arith, own l, own tm.current_level, front_count k.id)

    shortened_rest : (t l : ℕ) → k.id ≢ t → count t (shortened l) ≡ count t (tm.running l)
    unfolding shortened
    shortened_rest t l ne = elim (ℕ_discrete tm.current_level l) [
      | yes same ↦ rw (← same) (ground (arith, ne, front_count t))
      | no apart ↦ ground (arith, apart)
    ]

    shortened_top :
        tm.level_changed ≡ false → (l : ℕ) → tm.current_level < l → is_empty (shortened l) ≡ true
    unfolding shortened
    shortened_top c l h = ground (arith, v.top c l h)

    left : TaskManager
    left = record tm { tasks = update_task k.id (set_running false) tm.tasks; running = shortened }

    left-IsConsistent : IsConsistent left
    unfolding left
    left-IsConsistent = without shortened shortened_gone shortened_rest shortened_top

    saved_found :
        (cpu : TaskContext) (t : ℕ)
        → find_task t (modify (settle_level left) k.id (set_context cpu)).tasks ≡ (
            if k.id == t
            then some (set_context cpu (set_running false k))
            else find_task t tm.tasks)
    unfolding left set_context
    saved_found cpu t =
        find_task-update_task t k.id (set_context cpu) (settle_level left).tasks (λ u. refl)
        ∙ rw ((settle_level_same left).0) (elim (ℕ_discrete k.id t) [
          | yes same ↦ rw (← same) (
              rw (without_self shortened shortened_gone shortened_rest shortened_top, ==-refl k.id)
                refl)
          | no ne ↦
              ground (
                arith,
                ne,
                without_other shortened shortened_gone shortened_rest shortened_top t ne,
              )
        ])

    rotated :
        rotate_run_queue (modify tm k.id (set_running false)) true ≡ (some k.id, settle_level left)
    unfolding rotate_run_queue left shortened
    rotated = rw (e, rotate_run_queue) refl

    settled :
        (cpu : TaskContext)
        → Asleep tm k (
          context_of (settle_level left) (current_task (settle_level left)),
          modify (settle_level left) k.id (set_context cpu),
        )
    unfolding set_context set_running left
    settled cpu = record {
      valid =
          modify-IsValid (settle_level-IsValid left-IsConsistent).0 k.id (set_context cpu)
            (λ u. (refl, refl, refl));
      stopped = ap is_running (saved_found cpu k.id) ∙ rw (==-refl k.id) (ground arith);
      absent = λ l. ap (λ q. count k.id (q l)) (settle_level_same left).1 ∙ shortened_gone l;
      others = λ t ne. saved_found cpu t ∙ ground (arith, ne);
    }

    sleep_current-Asleep :
        (cpu : TaskContext) → Asleep tm k (sleep_current (modify tm k.id (set_running false)) cpu)
    unfolding sleep_current
    sleep_current-Asleep cpu =
        subst (λ r. Asleep tm k (context_of r.1 (current_task r.1), save_context r.1 r.0 cpu))
          (sym rotated) (settled cpu)

  sleep_other-Asleep :
      (t : ℕ) (rest : List ℕ)
      → tm.running tm.current_level ≡ t ∷ rest
      → k.id ≢ t
      → Asleep tm k (
        Resume.return,
        record tm { tasks = update_task k.id (set_running false) tm.tasks; running = erased },
      )
  unfolding set_running
  sleep_other-Asleep t rest e ne = record {
    valid = record {
      consistent = without erased erased_gone erased_rest erased_top;
      busy = still_busy;
    };
    stopped = ap is_running (without_self erased erased_gone erased_rest erased_top) ∙ refl;
    absent = erased_gone;
    others = without_other erased erased_gone erased_rest erased_top;
  }
    where
      still_busy : is_empty (erased tm.current_level) ≡ false
      still_busy =
          is_empty_of_count t (erased tm.current_level)
            (omega (arith, erased_rest t tm.current_level ne, ap (count t) e, count_front t rest))

  module _ (cpu : TaskContext) (t : ℕ) (rest : List ℕ)
      (e : tm.running tm.current_level ≡ t ∷ rest) where
    stopped_front : current_task (modify tm k.id (set_running false)) ≡ some t
    unfolding current_task
    stopped_front = rw (e, current_task) refl

    hit : k.id ≡ t → (k.id == t) ≡ true
    hit same = ground (arith, same)

    miss : k.id ≢ t → (k.id == t) ≡ false
    miss ne = ground (arith, ne)

    sleeps_at_front : k.id ≡ t → Asleep tm k (sleep_task tm cpu k)
    unfolding sleep_task
    sleeps_at_front same =
        simp (runs, stopped_front, hit same)
          (sleep_current-Asleep rest (e ∙ ap (λ u. u ∷ rest) (sym same)) cpu)

    sleeps_behind : k.id ≢ t → Asleep tm k (sleep_task tm cpu k)
    unfolding sleep_task erased
    sleeps_behind ne = simp (runs, stopped_front, miss ne) (sleep_other-Asleep t rest e ne)

  front_of : (q : List ℕ) → is_empty q ≡ false → (t : ℕ) × (rest : List ℕ) × (q ≡ t ∷ rest)
  front_of [] e = cc
  front_of (t ∷ rest) e = (t, rest, refl)

  -- `Sleep` of a running task, but the idle task, whether it is the current one or not.
  pub sleep_task-Asleep : (cpu : TaskContext) → Asleep tm k (sleep_task tm cpu k)
  sleep_task-Asleep cpu =
      let (t, rest, e) = front_of (tm.running tm.current_level) v.busy in
      elim (ℕ_discrete k.id t) [
        | yes same ↦ sleeps_at_front cpu t rest e same
        | no ne ↦ sleeps_behind cpu t rest e ne
      ]
