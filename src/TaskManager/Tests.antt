-- ===== src/TaskManager/Tests.antt =====
-- Runs of the scheduler (Kernel/task.cpp) from its constructor.
use mikanos_copy.Common.{ℕ, ◌≡◌, refl, true, false, none, some, [], ◌∷◌, ◌++◌, arith}
use mikanos_copy.Error.{Error}
use mikanos_copy.Message.{Message}
use mikanos_copy.Task.{
  Task, TaskContext, set_context, set_level, set_running, push_message, receive_message,
}
use mikanos_copy.Task
use mikanos_copy.TaskManager.{
  TaskManager, new_task, current_task, switch_task, sleep_task, change_level_running, wakeup_task,
  send_message,
}
use mikanos_copy.TaskManager.Queues.{find_task, update_task, count}
use mikanos_copy.TaskManager.Inv.{IsValid}
use mikanos_copy.Message.{MessageType, no_arg}
use mikanos_copy.TaskManager.{init}
use mikanos_copy.TaskManager.Rotate.{rotations, rotations_lem}
use mikanos_copy.TaskManager.Switch.{Switched, switch_task-Switched}
use mikanos_copy.TaskManager.Wake.{Awake, wakeup_task-Awake}
use mikanos_copy.TaskManager.Send.{Sent, send_message-Sent}
use mikanos_copy.TaskManager.Sleep.{Asleep, sleep_task-Asleep}
use mikanos_copy.TaskManager.Change.{change_level_running_duplicates, change_level_running-IsValid}
use mikanos_copy.TaskManager.Start.{Created, new_task-Created, init-IsValid}

abbrev started : TaskManager
started = init 0 8192 0

started-IsValid : IsValid started
started-IsValid = (init-IsValid 0 8192 0).0

new_task-Created_example : Created started (new_task started)
unfolding init new_task
new_task-Created_example = new_task-Created started-IsValid (omega arith)

abbrev created : TaskManager
created = (new_task started).1

created-IsValid : IsValid created
unfolding init new_task
created-IsValid = (new_task-Created started-IsValid (omega arith)).valid

abbrev third : Task
third = Task.new 3

third_known : find_task third.id created.tasks ≡ some third
unfolding init new_task find_task update_task Task.new set_running set_level Task.init_context
third_known = refl

-- Awake at its own level, 1, below the current one.
abbrev low : TaskManager
low = wakeup_task created third none

wakeup_task-Awake_example : Awake created third 1 low
unfolding Task.new
wakeup_task-Awake_example =
    wakeup_task-Awake created-IsValid third third_known none refl (omega arith)

low-Awake : Awake created third 1 low
unfolding Task.new
low-Awake = wakeup_task-Awake created-IsValid third third_known none refl (omega arith)

-- Awake at the current level, 3.
abbrev high : TaskManager
high = wakeup_task created third (some 3)

high-Awake : Awake created third 3 high
unfolding Task.new
high-Awake = wakeup_task-Awake created-IsValid third third_known (some 3) refl (omega arith)

high_queue : high.running high.current_level ≡ (1 ∷ []) ++ 3 ∷ []
unfolding wakeup_task init new_task Task.new
high_queue = refl

high_settled : high.level_changed ≡ false
unfolding wakeup_task init new_task Task.new
high_settled = refl

rotations_lem_example :
    (current_task (rotations 1 high) ≡ some 3)
    × ((rotations 1 high).running high.current_level ≡ 3 ∷ 1 ∷ [])
    × ((rotations 1 high).current_level ≡ high.current_level)
    × IsValid (rotations 1 high)
rotations_lem_example = rotations_lem (1 ∷ []) [] 3 high high-Awake.valid high_settled high_queue

switch_task-Switched_example :
    Switched high 1 Task.zero_context (switch_task high Task.zero_context)
switch_task-Switched_example =
    switch_task-Switched high-Awake.valid 1 (3 ∷ []) high_queue Task.zero_context

abbrev note : Message
note = record { type = MessageType.layer_finish; src_task = 1; arg = no_arg }

third_known' : find_task 3 created.tasks ≡ some third
unfolding init new_task find_task update_task Task.new set_running set_level Task.init_context
third_known' = refl

send_message-Sent_example :
    ((send_message created 3 note).0 ≡ Error.success)
    × Sent created third note (send_message created 3 note).1
send_message-Sent_example = send_message-Sent created 3 third note created-IsValid third_known'

no_task : (send_message created 9 note).0 ≡ Error.no_such_task
unfolding send_message init new_task find_task update_task Task.new set_running set_level
    Task.init_context
no_task = refl

main : Task
main = set_running true (set_level 3 (Task.new 1))

main_known : find_task main.id started.tasks ≡ some main
unfolding main init new_task find_task update_task Task.new set_running set_level Task.init_context
main_known = refl

sleep_task-Asleep_example : Asleep started main (sleep_task started Task.zero_context main)
unfolding main set_running set_level Task.new
sleep_task-Asleep_example =
    sleep_task-Asleep started-IsValid main main_known refl (omega arith) Task.zero_context

abbrev running_third : ℕ → Task
running_third level = record third { level = level; running = true }

change_level_running_duplicates_example :
    (count 3 ((change_level_running low (running_third 1) 2).running 1) ≡ 1)
    × (count 3 ((change_level_running low (running_third 1) 2).running 2) ≡ 1)
    × ¬ IsValid (change_level_running low (running_third 1) 2)
unfolding Task.new wakeup_task init new_task
change_level_running_duplicates_example =
    change_level_running_duplicates low-Awake.valid (running_third 1) low-Awake.runs refl 2
      (omega arith) (omega arith)

change_level_running-IsValid_example : IsValid (change_level_running high (running_third 3) 1)
unfolding Task.new wakeup_task init new_task current_task
change_level_running-IsValid_example =
    change_level_running-IsValid high-Awake.valid (running_third 3) high-Awake.runs refl 1
      (omega arith) refl (λ e. ground (arith, e)) (omega arith)
