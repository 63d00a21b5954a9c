-- ===== src/Timer.antt =====
-- The class `TimerManager` of Kernel/timer.hpp and Kernel/timer.cpp, over a priority queue of timers,
-- and the two functions that join it to the scheduler.
pub mod Queue
pub mod Tick
mod ListQueue
mod Tests
use mikanos_copy.Common.{
  ℕ, zero, suc, ◌+◌, ◌-◌, ◌^◌, Bool, true, false, Option, none, some, List, [], ◌∷◌, add64, ltb,
  ◌==◌, if◌then◌else◌,
}
use mikanos_copy.Message.{Message, MessageType, timer_arg}
use mikanos_copy.Task.{TaskContext}
use mikanos_copy.TaskManager
use mikanos_copy.TaskManager.{TaskManager, Resume, send_message, switch_task}
use Queue.{Timer, TimerQueue}

-- 100 ticks a second, and 2 ticks, 0.02 seconds, for a task.
abbrev pub timer_freq : ℕ
timer_freq = 100

abbrev pub task_timer_period : ℕ
task_timer_period = 2

-- The least `int`, as a bit pattern.
abbrev pub task_timer_value : ℕ
task_timer_value = 2 ^ 31

abbrev pub last_timeout : ℕ
last_timeout = 2 ^ 64 - 1

-- The timer that is never due; -1 as a bit pattern.
abbrev pub sentinel : Timer
sentinel = record { timeout = last_timeout; value = 2 ^ 32 - 1 }

abbrev pub timeout_message : Timer → Message
timeout_message t = record {
  type = MessageType.timer_timeout;
  src_task = 0;
  arg = timer_arg t.timeout t.value;
}

-- The message goes to task 1; the error is dropped.
pub notify : TaskManager → Timer → TaskManager
notify tasks t = (send_message tasks 1 (timeout_message t)).1

module _ (queue : TimerQueue) where
  open queue use {Q, empty, push, pop, top}

  pub record TimerManager : Type 0 where
    pub tick : ℕ
    pub timers : Q

  pub init : TimerManager
  init = record { tick = 0; timers = push sentinel empty }

  pub add_timer : TimerManager → Timer → TimerManager
  add_timer tm timer = record tm { timers = push timer tm.timers }

  -- The loop of `Tick` on fuel. `none` is a loop out of fuel, or a `top` of an empty queue, which is
  -- undefined.
  pub tick_loop : ℕ → TimerManager → TaskManager → Option (Bool × TimerManager × TaskManager)
  tick_loop zero tm tasks = none
  tick_loop (suc fuel) tm tasks = elim (top tm.timers) [
    | none ↦ none
    | some t ↦
        let next = tick_loop fuel (record tm { timers = pop tm.timers }) (notify tasks t) in
        if ltb tm.tick t.timeout
        then some (false, tm, tasks)
        else if t.value == task_timer_value
        then some (
          true,
          record tm {
            timers =
                push
                  (record { timeout = add64 tm.tick task_timer_period; value = task_timer_value })
                  (pop tm.timers);
          },
          tasks,
        )
        else next
  ]

  -- Each round but the last takes a timer out.
  pub tick : TimerManager → TaskManager → Option (Bool × TimerManager × TaskManager)
  tick tm tasks =
      tick_loop (suc (queue.size tm.timers)) (record tm { tick = add64 tm.tick 1 }) tasks

  -- `InitializeTask`: the task manager is made and the task timer armed.
  pub initialize_task : (cr3 stack_end idle : ℕ) → TimerManager → TaskManager × TimerManager
  initialize_task cr3 stack_end idle tm = (
    TaskManager.init cr3 stack_end idle,
    add_timer tm (record { timeout = add64 tm.tick task_timer_period; value = task_timer_value }),
  )

  -- `LAPICTimerOnInterrupt`, with the context that the interrupt handler saved. The task manager is
  -- there already.
  pub on_interrupt :
      TimerManager → TaskManager → TaskContext → Option (Resume × TimerManager × TaskManager)
  on_interrupt tm tasks context = elim (tick tm tasks) [
    | none ↦ none
    | some (timeout, tm', tasks') ↦ some (
        if timeout
        then (let (next, tasks'') = switch_task tasks' context in (next, tm', tasks''))
        else (Resume.return, tm', tasks'))
  ]
