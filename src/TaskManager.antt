-- ===== src/TaskManager.antt =====
-- The class `TaskManager` of Kernel/task.hpp and Kernel/task.cpp, a scheduler with a queue of
-- runnable tasks for each level. A pointer to a task is the task's number, which `new_task` gives
-- out once only; the array of queues is a function, of which the levels up to `max_level` are used.
pub mod Queues
pub mod Inv
pub mod Rotate
pub mod Switch
pub mod Wake
pub mod Send
pub mod Sleep
pub mod Change
pub mod Start
mod Tests
use mikanos_copy.Common.{
  ℕ, zero, suc, ◌+◌, ◌-◌, ◌^◌, Bool, true, false, not, ◌&&◌, ◌||◌, Option, none, some, List, [],
  ◌∷◌, ◌++◌, drop, add64, ltb, leb, ◌==◌, if◌then◌else◌,
}
use mikanos_copy.Error.{Error}
use mikanos_copy.Message.{Message}
use mikanos_copy.Task.{
  Task, TaskContext, set_level, set_running, set_context, push_message, receive_message,
  init_context,
}
use mikanos_copy.Task
use Queues.{update, erase, find_task, update_task, is_empty}

abbrev pub max_level : ℕ
max_level = 3

pub record TaskManager : Type 0 where
  pub tasks : List Task
  pub latest_id : ℕ
  pub running : ℕ → List ℕ
  pub current_level : ℕ
  pub level_changed : Bool

-- `task->f(...)` on the task that a pointer names.
abbrev pub modify : TaskManager → ℕ → (Task → Task) → TaskManager
modify tm id f = record tm { tasks = update_task id f tm.tasks }

pub new_task : TaskManager → ℕ × TaskManager
new_task tm =
    let id = add64 tm.latest_id 1 in
    (id, record tm { latest_id = id; tasks = tm.tasks ++ Task.new id ∷ [] })

abbrev pub blank : TaskManager
blank = record {
  tasks = [];
  latest_id = 0;
  running = λ level. [];
  current_level = max_level;
  level_changed = false;
}

-- The constructor: the main task and the idle task, which runs `idle` at level 0.
pub init : (cr3 stack_end idle : ℕ) → TaskManager
unfolding new_task
init cr3 stack_end idle =
    let (main, tm1) = new_task blank in
    let tm2 = modify tm1 main (λ t. set_running true (set_level max_level t)) in
    let tm3 = record tm2 {
      running = update tm2.running max_level (tm2.running max_level ++ main ∷ []);
    } in
    let (idle_id, tm4) = new_task tm3 in
    let tm5 =
      modify tm4 idle_id
        (λ t. set_running true (set_level 0 (init_context cr3 stack_end idle 0 t))) in
    record tm5 { running = update tm5.running 0 (tm5.running 0 ++ idle_id ∷ []) }

-- The loop over the levels from `kMaxLevel` down; the current level stays if all queues are empty.
pub pick_level : (ℕ → List ℕ) → ℕ → ℕ → ℕ
pick_level running current zero = current
pick_level running current (suc lv) =
    let below = pick_level running current lv in if is_empty (running lv) then below else lv

-- `front` of the current queue: `none` if it is empty, where the source reads past its end.
pub current_task : TaskManager → Option ℕ
current_task tm = elim (tm.running tm.current_level) [ [] ↦ none | t ∷ rest ↦ some t ]

-- The end of `RotateRunQueue`, once the current queue has been rotated.
pub settle_level : TaskManager → TaskManager
settle_level tm =
    let changed = tm.level_changed || is_empty (tm.running tm.current_level) in
    if changed
    then record tm {
      level_changed = false;
      current_level = pick_level tm.running tm.current_level (suc max_level);
    }
    else record tm { level_changed = changed }

-- The current task, and the manager. On an empty current queue, where the source has no defined
-- behaviour, nothing happens.
pub rotate_run_queue : TaskManager → Bool → Option ℕ × TaskManager
rotate_run_queue tm current_sleep = elim (tm.running tm.current_level) [
  | [] ↦ (none, tm)
  | t ∷ rest ↦ (
    some t,
    settle_level (record tm {
      running = update tm.running tm.current_level (if current_sleep then rest else rest ++ t ∷ []);
    }),
  )
]

-- What a processor does next: goes on with the code that it runs, or loads a task's context.
pub data Resume : Type 0 where
  return : Resume
  restore : TaskContext → Resume

abbrev pub context_of : TaskManager → Option ℕ → Resume
context_of tm none = Resume.return
context_of tm (some t) = elim (find_task t tm.tasks) [
  | none ↦ Resume.return
  | some task ↦ Resume.restore task.context
]

abbrev pub same_task : Option ℕ → Option ℕ → Bool
same_task none none = true
same_task none (some u) = false
same_task (some t) none = false
same_task (some t) (some u) = t == u

abbrev pub save_context : TaskManager → Option ℕ → TaskContext → TaskManager
save_context tm none context = tm
save_context tm (some t) context = modify tm t (set_context context)

-- The end of `SwitchTask`: the rotated manager's current task goes on, unless it is the same one.
pub resume_next : Option ℕ × TaskManager → Resume × TaskManager
resume_next (before, tm) =
    let next = current_task tm in
    (if same_task next before then Resume.return else context_of tm next, tm)

-- `context` is what the interrupt handler saved of the interrupted task.
pub switch_task : TaskManager → TaskContext → Resume × TaskManager
switch_task tm context =
    resume_next (rotate_run_queue (save_context tm (current_task tm) context) false)

-- The branch of `Sleep` for the current task. `cpu` is the context that `SwitchContext` saves for the
-- task that goes to sleep.
pub sleep_current : TaskManager → TaskContext → Resume × TaskManager
sleep_current tm cpu =
    let (before, rotated) = rotate_run_queue tm true in
    (context_of rotated (current_task rotated), save_context rotated before cpu)

-- `Sleep(Task*)`.
pub sleep_task : TaskManager → TaskContext → Task → Resume × TaskManager
sleep_task tm cpu task =
    let stopped = modify tm task.id (set_running false) in
    if not task.running
    then (Resume.return, tm)
    else if same_task (some task.id) (current_task stopped)
    then sleep_current stopped cpu
    else (
      Resume.return,
      record stopped {
        running = update stopped.running task.level (erase task.id (stopped.running task.level));
      },
    )

-- A level argument is `none` where the source passes a negative number, such as the default -1.
pub change_level_running : TaskManager → Task → ℕ → TaskManager
change_level_running tm task level =
    let queues = tm.running in
    if level == task.level
    then tm
    else if same_task (some task.id) (current_task tm)
    then (let popped = update queues tm.current_level (drop 1 (queues tm.current_level)) in
        let moved = record tm { running = update popped level (task.id ∷ popped level) } in
        let releveled = modify moved task.id (set_level level) in
        if leb tm.current_level level
        then record releveled { current_level = level }
        else record releveled { current_level = level; level_changed = true })
    else (let erased = update queues tm.current_level (erase task.id (queues tm.current_level)) in
        let moved = record tm { running = update erased level (erased level ++ task.id ∷ []) } in
        let releveled = modify moved task.id (set_level level) in
        if ltb tm.current_level level then record releveled { level_changed = true } else releveled)

abbrev pub level_or : Option ℕ → ℕ → ℕ
level_or none d = d
level_or (some l) d = l

-- `ChangeLevelRunning` returns at once on a negative level.
abbrev change_level : TaskManager → Task → Option ℕ → TaskManager
change_level tm task none = tm
change_level tm task (some level) = change_level_running tm task level

pub wakeup_task : TaskManager → Task → Option ℕ → TaskManager
wakeup_task tm task level =
    let target = level_or level task.level in
    let woken = modify tm task.id (λ t. set_running true (set_level target t)) in
    let queued = record woken {
      running = update woken.running target (woken.running target ++ task.id ∷ []);
    } in
    if task.running
    then change_level tm task level
    else if ltb tm.current_level target
    then record queued { level_changed = true }
    else queued

-- `Task::SendMessage`: the message is queued, then the task is woken.
pub send_to_task : TaskManager → Task → Message → TaskManager
send_to_task tm task message =
    wakeup_task (modify tm task.id (push_message message)) (push_message message task) none

-- The three operations that take a task's number.
pub send_message : TaskManager → ℕ → Message → Error × TaskManager
send_message tm id message = elim (find_task id tm.tasks) [
  | none ↦ (Error.no_such_task, tm)
  | some task ↦ (Error.success, send_to_task tm task message)
]

pub sleep : TaskManager → TaskContext → ℕ → Error × Resume × TaskManager
sleep tm cpu id = elim (find_task id tm.tasks) [
  | none ↦ (Error.no_such_task, Resume.return, tm)
  | some task ↦ let (next, tm') = sleep_task tm cpu task in (Error.success, next, tm')
]

pub wakeup : TaskManager → ℕ → Option ℕ → Error × TaskManager
wakeup tm id level = elim (find_task id tm.tasks) [
  | none ↦ (Error.no_such_task, tm)
  | some task ↦ (Error.success, wakeup_task tm task level)
]
