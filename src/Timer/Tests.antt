-- ===== src/Timer/Tests.antt =====
-- Ticks of a timer manager (Kernel/timer.cpp) with a plain list as its queue.
use mikanos_copy.Common.{◌≡◌, refl, false, some, arith}
use mikanos_copy.TaskManager
use mikanos_copy.TaskManager.{TaskManager}
use mikanos_copy.Timer.{init, add_timer, initialize_task, tick, TimerManager, tick_loop, notify}
use mikanos_copy.Timer.ListQueue.{list_queue, earliest, sooner, remove, drop_earliest, times}
use mikanos_copy.Timer.Tick.{Ticking, tick-Ticking}

abbrev tasks : TaskManager
tasks = TaskManager.init 0 8192 0

-- The task timer is due at tick 2, another one at tick 1.
abbrev armed : TimerManager list_queue
unfolding init add_timer initialize_task list_queue
armed =
    add_timer list_queue (initialize_task list_queue 0 8192 0 (init list_queue)).1
      (record { timeout = 1; value = 7 })

tick-Ticking_example : Ticking list_queue armed tasks
unfolding list_queue init add_timer initialize_task times
tick-Ticking_example = tick-Ticking list_queue armed tasks (omega arith) (omega arith)

abbrev due : TimerManager list_queue
due = record armed { tick = 1 }

-- The other timer is reported, and only the task timer and the sentinel are left.
first_tick :
    tick list_queue armed tasks
    ≡ some (
      false,
      record {
        tick = 1;
        timers = (initialize_task list_queue 0 8192 0 (init list_queue)).1.timers;
      },
      notify tasks (record { timeout = 1; value = 7 }),
    )
unfolding list_queue init add_timer initialize_task tick tick_loop earliest sooner remove
    drop_earliest
first_tick = refl
