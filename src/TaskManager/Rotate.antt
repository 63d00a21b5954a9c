-- ===== src/TaskManager/Rotate.antt =====
-- `RotateRunQueue` and `SwitchTask` (Kernel/task.cpp): round robin within a level, the highest level
-- first.
use mikanos_copy.Common.{
  ℕ, zero, suc, ◌≡◌, refl, sym, ap, ◌∙◌, false, Option, some, List, [], ◌∷◌, ◌++◌, length, arith,
  ==-refl, ℕ_discrete,
}
use mathlib.Core.List.{append-nil, append_assoc}
use mikanos_copy.TaskManager.{TaskManager, settle_level, rotate_run_queue, current_task}
use mikanos_copy.TaskManager.Queues.{update, is_empty, count, count-append}
use mikanos_copy.TaskManager.Inv.{IsConsistent, IsValid, settle_level-IsValid}

count-rotate : (u t : ℕ) (rest : List ℕ) → count u (rest ++ t ∷ []) ≡ count u (t ∷ rest)
unfolding count
count-rotate u t rest = omega (arith, count-append u rest (t ∷ []))

-- What a rotation leaves: the task that was first, and a manager that is valid, with no change of
-- level pending, in which only the queue of the level that was current has changed.
pub record Rotated (tm : TaskManager) (t : ℕ) (queue : List ℕ) (r : Option ℕ × TaskManager)
    : Type 0 where
  pub first : r.0 ≡ some t
  pub valid : IsValid r.1
  pub settled : r.1.level_changed ≡ false
  pub same_tasks : r.1.tasks ≡ tm.tasks
  pub queues : r.1.running ≡ update tm.running tm.current_level queue
  pub stays :
      tm.level_changed ≡ false → is_empty queue ≡ false → r.1.current_level ≡ tm.current_level

pub settle_level_same :
    (tm : TaskManager)
    → ((settle_level tm).tasks ≡ tm.tasks)
      × ((settle_level tm).running ≡ tm.running)
      × (tm.level_changed ≡ false
          → is_empty (tm.running tm.current_level) ≡ false
          → (settle_level tm).current_level ≡ tm.current_level)
unfolding settle_level
settle_level_same tm = ground arith

module _ {tm : TaskManager} (v : IsValid tm) where
  -- The manager after the queue has been rotated, before the levels are settled.
  turned :
      (t : ℕ) (rest : List ℕ)
      → tm.running tm.current_level ≡ t ∷ rest
      → IsConsistent (record tm { running = update tm.running tm.current_level (rest ++ t ∷ []) })
  turned t rest e = record {
    placed = λ u l. elim (ℕ_discrete tm.current_level l) [
      | yes same ↦
          rw (← same)
            (ground (arith, count-rotate u t rest, ap (count u) e, v.placed u tm.current_level))
      | no ne ↦ ground (arith, v.placed u l)
    ];
    levels = v.levels;
    fresh = v.fresh;
    idle_runs = v.idle_runs;
    current_in = v.current_in;
    top = λ c l h. ground (arith, v.top c l h);
  }

  -- Without a sleeper, the first task of the current queue goes to its end.
  pub rotate_run_queue-Rotated :
      (t : ℕ) (rest : List ℕ)
      → tm.running tm.current_level ≡ t ∷ rest
      → Rotated tm t (rest ++ t ∷ []) (rotate_run_queue tm false)
  unfolding rotate_run_queue
  rotate_run_queue-Rotated t rest e =
      rw (e, rotate_run_queue)
        (let settled = settle_level-IsValid (turned t rest e) in
          let same =
            settle_level_same
              (record tm { running = update tm.running tm.current_level (rest ++ t ∷ []) }) in
          record {
            first = refl;
            valid = settled.0;
            settled = settled.1;
            same_tasks = same.0;
            queues = same.1;
            stays = λ c full. same.2 c (ground (arith, full));
          })

not_empty-snoc : (xs : List ℕ) (x : ℕ) → is_empty (xs ++ x ∷ []) ≡ false
not_empty-snoc [] x = refl
not_empty-snoc (y ∷ xs) x = refl

-- `k` ticks in a row, each of which rotates the current queue.
pub rotations : ℕ → TaskManager → TaskManager
unfolding rotate_run_queue
rotations zero tm = tm
rotations (suc k) tm = rotations k (rotate_run_queue tm false).1

-- Round robin: with no change of level pending, a task of the current queue is the current one after
-- as many rotations as tasks stand before it, and those tasks then stand behind it.
pub rotations_lem :
    (before behind : List ℕ) (t : ℕ) (tm : TaskManager)
    → IsValid tm
    → tm.level_changed ≡ false
    → tm.running tm.current_level ≡ before ++ t ∷ behind
    → let tm' = rotations (length before) tm in
      (current_task tm' ≡ some t)
      × (tm'.running tm.current_level ≡ t ∷ behind ++ before)
      × (tm'.current_level ≡ tm.current_level)
      × IsValid tm'
unfolding rotations current_task
rotations_lem [] behind t tm v c e =
    (rw (e, current_task), e ∙ sym (append-nil (t ∷ behind)), refl, v)
rotations_lem (b ∷ before) behind t tm v c e =
    let r = rotate_run_queue-Rotated v b (before ++ t ∷ behind) e in
    let turned_tm = (rotate_run_queue tm false).1 in
    let stay = r.stays c (not_empty-snoc (before ++ t ∷ behind) b) in
    let queue : turned_tm.running turned_tm.current_level ≡ before ++ (t ∷ (behind ++ b ∷ [])) =
      ap turned_tm.running stay
      ∙ ap (λ f. f tm.current_level) r.queues
      ∙ rw (==-refl tm.current_level) (append_assoc before (t ∷ behind) (b ∷ [])) in
    let rest = rotations_lem before (behind ++ b ∷ []) t turned_tm r.valid r.settled queue in
    (
      rest.0,
      ap (rotations (length before) turned_tm).running (sym stay)
          ∙ rest.1
          ∙ append_assoc (t ∷ behind) (b ∷ []) before,
      rest.2 ∙ stay,
      rest.3,
    )
