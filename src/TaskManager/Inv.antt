-- ===== src/TaskManager/Inv.antt =====
-- The invariant of `TaskManager` (Kernel/task.cpp): what keeps every runnable task in its queue.
use mikanos_copy.Common.{
  ℕ, zero, suc, ◌≤◌, ◌<◌, ◌≡◌, ◌≢◌, refl, sym, subst, ap, ==-refl, ◌∙◌, Bool, true, false, ◌&&◌,
  ◌||◌, Option, none, some, List, [], ◌∷◌, ◌==◌, if◌then◌else◌, arith, Bool-cases, ℕ_discrete,
  dec_le, inl, inr,
}
use mathlib.Core.Bool.{false≢true}
use mikanos_copy.Task.{Task}
use mikanos_copy.TaskManager.{TaskManager, max_level, pick_level, settle_level, modify}
use mikanos_copy.TaskManager.Queues.{
  is_empty, find_task, update_task, count, is_empty_of_count, find_task-update_task,
}

-- How often a task is to stand in the queue of level `l`.
abbrev pub places : Option Task → ℕ → ℕ
places none l = 0
places (some k) l = if k.running && k.level == l then 1 else 0

-- The number of a task that never sleeps: the idle task.
abbrev pub idle_id : ℕ
idle_id = 2

abbrev pub LevelIn : Option Task → Type 0
LevelIn none = Unit {0}
LevelIn (some k) = k.level ≤ max_level

abbrev pub is_running : Option Task → Bool
is_running none = false
is_running (some k) = k.running

-- Every queue holds exactly the running tasks of its level, each once.
abbrev pub IsPlaced : List Task → (ℕ → List ℕ) → Type 0
IsPlaced tasks running = (t l : ℕ) → count t (running l) ≡ places (find_task t tasks) l

-- All of the invariant but that the current queue has a task.
pub record IsConsistent (tm : TaskManager) : Type 0 where
  pub placed : IsPlaced tm.tasks tm.running
  pub levels : (t : ℕ) → LevelIn (find_task t tm.tasks)
  pub fresh : (t : ℕ) → tm.latest_id < t → find_task t tm.tasks ≡ none
  pub idle_runs : is_running (find_task idle_id tm.tasks) ≡ true
  pub current_in : tm.current_level ≤ max_level
  -- Unless a change of level is pending, no task waits above the current level.
  pub top :
      tm.level_changed ≡ false → (l : ℕ) → tm.current_level < l → is_empty (tm.running l) ≡ true

pub record IsValid (tm : TaskManager) : Type 0 where
  pub consistent : IsConsistent tm
  pub open consistent use *
  pub busy : is_empty (tm.running tm.current_level) ≡ false

-- The loop over the levels finds the highest level that has a task.
pub pick_level_lem :
    (running : ℕ → List ℕ) (current n l : ℕ)
    → l < n
    → is_empty (running l) ≡ false
    → (is_empty (running (pick_level running current n)) ≡ false)
      × (l ≤ pick_level running current n)
      × (pick_level running current n < n)
unfolding pick_level
pick_level_lem running current zero l h e = absurd (omega arith)
pick_level_lem running current (suc n) l h e = elim (Bool-cases (is_empty (running n))) [
  | inr here ↦ rw here (here, omega arith, omega arith)
  | inl skip ↦ rw skip (
      let below = pick_level_lem running current n l (earlier skip) e in
      (below.0, below.1, omega (arith, below.2)))
]
  where
    earlier : is_empty (running n) ≡ true → l < n
    earlier skip = elim (ℕ_discrete l n) [
      | yes same ↦ absurd (false≢true (sym e ∙ ap (λ m. is_empty (running m)) same ∙ skip))
      | no ne ↦ omega arith
    ]

pub pick_level_top :
    (running : ℕ → List ℕ) (current n l : ℕ)
    → l < n
    → pick_level running current n < l
    → is_empty (running l) ≡ true
pick_level_top running current n l h k = elim (Bool-cases (is_empty (running l))) [
  | inl e ↦ e
  | inr e ↦ absurd (omega (arith, (pick_level_lem running current n l h e).1))
]

-- No queue is used beyond the levels.
unused_level :
    (tasks : List Task) (l : ℕ) (queue : List ℕ)
    → max_level < l
    → ((t : ℕ) → LevelIn (find_task t tasks))
    → ((t : ℕ) → count t queue ≡ places (find_task t tasks) l)
    → is_empty queue ≡ true
unfolding count
unused_level tasks l [] h levels placed = refl
unused_level tasks l (t ∷ queue) h levels placed =
    absurd (go (find_task t tasks) (levels t) (placed t))
  where
    go : (k : Option Task) → LevelIn k → count t (t ∷ queue) ≡ places k l → ⊥
    go none m e = ground arith
    go (some k) m e = ground arith

module _ {tm : TaskManager} (c : IsConsistent tm) where
  -- Since the idle task runs, some level has a task.
  some_level : (l : ℕ) × (l ≤ max_level) × (is_empty (tm.running l) ≡ false)
  some_level = go (find_task idle_id tm.tasks) c.idle_runs (c.levels idle_id) (c.placed idle_id)
    where
      go :
          (k : Option Task)
          → is_running k ≡ true
          → LevelIn k
          → ((l : ℕ) → count idle_id (tm.running l) ≡ places k l)
          → (l : ℕ) × (l ≤ max_level) × (is_empty (tm.running l) ≡ false)
      go none r m e = cc
      go (some k) r m e =
          (k.level, m, is_empty_of_count idle_id (tm.running k.level) (ground (arith, e k.level)))

  empty_above :
      (current : ℕ)
      → ((l : ℕ) → l ≤ max_level → current < l → is_empty (tm.running l) ≡ true)
      → (l : ℕ) → current < l
      → is_empty (tm.running l) ≡ true
  empty_above current within l h = elim (dec_le l max_level) [
    | yes inside ↦ within l inside h
    | no outside ↦ unused_level tm.tasks l (tm.running l) (omega arith) c.levels (λ t. c.placed t l)
  ]

  -- After the levels are settled the current queue has a task, and no level above it has one.
  pub settle_level-IsValid : IsValid (settle_level tm) × ((settle_level tm).level_changed ≡ false)
  unfolding settle_level
  settle_level-IsValid =
      elim (Bool-cases (tm.level_changed || is_empty (tm.running tm.current_level))) [
        | inr same ↦ rw same (
          record {
            consistent = record {
              placed = c.placed;
              levels = c.levels;
              fresh = c.fresh;
              idle_runs = c.idle_runs;
              current_in = c.current_in;
              top = λ e. c.top (ground arith);
            };
            busy = ground arith;
          },
          refl,
        )
        | inl change ↦ rw change (
            let (l, low, found) = some_level in
            let pick = pick_level_lem tm.running tm.current_level 4 l (omega arith) found in
            (
              record {
                consistent = record {
                  placed = c.placed;
                  levels = c.levels;
                  fresh = c.fresh;
                  idle_runs = c.idle_runs;
                  current_in = omega (arith, pick.2);
                  top = λ e.
                      empty_above _ (λ l' inside.
                        pick_level_top tm.running tm.current_level 4 l' (omega arith));
                };
                busy = pick.0;
              },
              refl,
            ))
      ]

-- A change of one task that keeps its number, level and state keeps the manager valid.
module _ {tm : TaskManager} (v : IsValid tm) (id : ℕ) (f : Task → Task)
    (same : (k : Task)
      → ((f k).id ≡ k.id) × ((f k).level ≡ k.level) × ((f k).running ≡ k.running)) where
  found :
      (t : ℕ)
      → find_task t (modify tm id f).tasks ≡ (
          if id == t
          then elim (find_task t tm.tasks) [ none ↦ none | some k ↦ some (f k) ]
          else find_task t tm.tasks)
  found t = find_task-update_task t id f tm.tasks (λ k. (same k).0)

  -- What the invariant reads of a task is the same.
  keeps :
      (t : ℕ)
      → ((l : ℕ) → places (find_task t (modify tm id f).tasks) l ≡ places (find_task t tm.tasks) l)
        × (LevelIn (find_task t tm.tasks) → LevelIn (find_task t (modify tm id f).tasks))
        × (is_running (find_task t (modify tm id f).tasks) ≡ is_running (find_task t tm.tasks))
        × (find_task t tm.tasks ≡ none → find_task t (modify tm id f).tasks ≡ none)
  keeps t = rw (found t) (go (find_task t tm.tasks))
    where
      go :
          (k : Option Task)
          → let k' = if id == t then elim k [ none ↦ none | some k ↦ some (f k) ] else k in
            ((l : ℕ) → places k' l ≡ places k l)
            × (LevelIn k → LevelIn k')
            × (is_running k' ≡ is_running k)
            × (k ≡ none → k' ≡ none)
      go none = elim (Bool-cases (id == t)) [
        | inl hit ↦ rw hit ((λ l. refl), (λ m. m), refl, (λ e. e))
        | inr miss ↦ rw miss ((λ l. refl), (λ m. m), refl, (λ e. e))
      ]
      go (some k) = elim (Bool-cases (id == t)) [
        | inl hit ↦
            rw hit ((λ l. ground (arith, same k)), (λ m. rw (same k).1 m), (same k).2, (λ e. cc))
        | inr miss ↦ rw miss ((λ l. refl), (λ m. m), refl, (λ e. e))
      ]

  pub modify-IsValid : IsValid (modify tm id f)
  modify-IsValid = record {
    consistent = record {
      placed = λ t l. v.placed t l ∙ sym ((keeps t).0 l);
      levels = λ t. (keeps t).1 (v.levels t);
      fresh = λ t h. (keeps t).3 (v.fresh t h);
      idle_runs = (keeps idle_id).2 ∙ v.idle_runs;
      current_in = v.current_in;
      top = v.top;
    };
    busy = v.busy;
  }

-- A change of one task and of the queues keeps the manager consistent, if the queues follow it.
module _ {tm : TaskManager} (c : IsConsistent tm) (id : ℕ) (f : Task → Task) (k : Task)
    (queues : ℕ → List ℕ) (keeps_id : (u : Task) → (f u).id ≡ u.id)
    (known : find_task id tm.tasks ≡ some k) (low : (f k).level ≤ max_level)
    (idle : id ≡ idle_id → (f k).running ≡ true)
    (own_places : (l : ℕ) → count id (queues l) ≡ places (some (f k)) l)
    (other_places : (t l : ℕ) → id ≢ t → count t (queues l) ≡ count t (tm.running l)) where
  pub find_changed_self : find_task id (update_task id f tm.tasks) ≡ some (f k)
  find_changed_self = rw (find_task-update_task id id f tm.tasks keeps_id, ==-refl id, known) refl

  pub find_changed_other :
      (t : ℕ) → id ≢ t → find_task t (update_task id f tm.tasks) ≡ find_task t tm.tasks
  find_changed_other t ne = find_task-update_task t id f tm.tasks keeps_id ∙ ground (arith, ne)

  by_cases :
      (t : ℕ) (P : ℕ → Option Task → Type 0)
      → P id (some (f k))
      → (id ≢ t → P t (find_task t tm.tasks))
      → P t (find_task t (update_task id f tm.tasks))
  by_cases t P hit miss = elim (ℕ_discrete id t) [
    | yes e ↦
        subst (λ u. P u (find_task u (update_task id f tm.tasks))) e
          (subst (P id) (sym find_changed_self) hit)
    | no ne ↦ subst (P t) (sym (find_changed_other t ne)) (miss ne)
  ]

  pub changed-IsConsistent :
      (current : ℕ) (changed : Bool)
      → current ≤ max_level
      → (changed ≡ false → (l : ℕ) → current < l → is_empty (queues l) ≡ true)
      → IsConsistent (record tm {
        tasks = update_task id f tm.tasks;
        running = queues;
        current_level = current;
        level_changed = changed;
      })
  changed-IsConsistent current changed inside top = record {
    placed = λ t l.
        by_cases t (λ u o. count u (queues l) ≡ places o l) (own_places l)
          (λ ne. other_places t l ne ∙ c.placed t l);
    levels = λ t. by_cases t (λ u o. LevelIn o) low (λ ne. c.levels t);
    fresh = λ t h. find_changed_other t (λ e. cc (known, c.fresh id (rw e h))) ∙ c.fresh t h;
    idle_runs =
        by_cases idle_id (λ u o. u ≡ idle_id → is_running o ≡ true) idle (λ ne e. c.idle_runs) refl;
    current_in = inside;
    top = top;
  }
