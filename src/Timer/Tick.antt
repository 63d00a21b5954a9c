-- ===== src/Timer/Tick.antt =====
-- What one `Tick` (Kernel/timer.cpp) does: every timer that is due is reported, in order, and taken
-- out, up to the task timer.
use mikanos_copy.Common.{
  ℕ, zero, suc, ◌+◌, ◌≤◌, ◌<◌, ◌≡◌, ◌≢◌, refl, ◌∙◌, subst, Bool, true, false, some, List, [], ◌∷◌,
  add64, ltb, ◌==◌, if◌then◌else◌, arith, Bool-cases, Option-cases, inl, inr,
}
use mikanos_copy.Message.{Message, MessageType, timer_arg}
use mikanos_copy.TaskManager.{TaskManager, send_message}
use mikanos_copy.Timer.{
  task_timer_period, task_timer_value, last_timeout, sentinel, notify, TimerManager, tick_loop,
  tick,
}
use mikanos_copy.Timer.Queue.{Timer, TimerQueue, same_timer}

-- The task manager after task 1 was sent a message of the time and the value of each of these timers,
-- in this order.
unfoldable pub notify_all : TaskManager → List Timer → TaskManager
notify_all tasks [] = tasks
notify_all tasks (t ∷ sent) =
    let m : Message = record {
      type = MessageType.timer_timeout;
      src_task = 0;
      arg = timer_arg t.timeout t.value;
    } in
    notify_all (send_message tasks 1 m).1 sent

-- How often a list holds a timer.
unfoldable pub amount_of : Timer → List Timer → ℕ
amount_of t [] = 0
amount_of t (u ∷ sent) = (if same_timer u t then 1 else 0) + amount_of t sent

-- Timers that are due, none of them the task timer, the earliest first.
abbrev pub IsDue : ℕ → ℕ → List Timer → Type 0
IsDue now low [] = Unit {0}
IsDue now low (t ∷ sent) =
    (low ≤ t.timeout) × (t.timeout ≤ now) × (t.value ≢ task_timer_value) × IsDue now t.timeout sent

-- Timers that are due no later than a time.
abbrev pub IsBefore : ℕ → List Timer → Type 0
IsBefore old [] = Unit {0}
IsBefore old (t ∷ sent) = (t.timeout ≤ old) × IsBefore old sent

apart_timers : (t u : Timer) → t.timeout ≢ u.timeout → same_timer t u ≡ false
apart_timers t u ne = ground (arith, ne)

-- The task timer that a tick at `now` arms.
abbrev pub task_timer : ℕ → Timer
task_timer timeout = record { timeout = timeout; value = task_timer_value }

module _ (queue : TimerQueue) where
  open queue use {
    Q, push, pop, top, size, amount, amount-push, amount_none, amount-pop, top_earliest, size-pop,
  }

  -- What the loop leaves at the tick `now`, when it starts with these timers and ends with those left.
  pub record Ticked (now low : ℕ) (timers left : Q) (sent : List Timer) (task_timeout : Bool)
      : Type 0 where
    pub due : IsDue now low sent
    -- Without the task timer nothing that is due stays, and every timer is either left or sent.
    pub all_due : task_timeout ≡ false → (t : Timer) → 0 < amount t left → now < t.timeout
    pub kept :
        task_timeout ≡ false → (t : Timer) → amount t timers ≡ amount_of t sent + amount t left
    -- With it, the task timer that was due is armed again, and nothing else changes.
    pub rearmed :
        task_timeout ≡ true
        → (old : ℕ) × (old ≤ now)
          × (low ≤ old)
          -- It comes after every timer that is reported, and before every other timer that is left.
          × (IsBefore old sent)
          × ((t : Timer)
              → same_timer (task_timer (add64 now task_timer_period)) t ≡ false
              → 0 < amount t left
              → old ≤ t.timeout)
          × ((t : Timer)
              → amount t timers
                  + (if same_timer (task_timer (add64 now task_timer_period)) t then 1 else 0)
                ≡ amount_of t sent
                  + (if same_timer (task_timer old) t then 1 else 0)
                  + amount t left)
    pub guarded : 0 < amount sentinel left

  armed :
      (t u : Timer)
      → t.value ≡ task_timer_value
      → same_timer (task_timer t.timeout) u ≡ same_timer t u
  armed t u v = rw v refl

  loop_waits :
      (fuel : ℕ) (tm : TimerManager queue) (tasks : TaskManager) (t : Timer)
      → top tm.timers ≡ some t
      → ltb tm.tick t.timeout ≡ true
      → tick_loop queue (suc fuel) tm tasks ≡ some (false, tm, tasks)
  unfolding tick_loop
  loop_waits fuel tm tasks t e h = rw (e, h, tick_loop) refl

  loop_rearms :
      (fuel : ℕ) (tm : TimerManager queue) (tasks : TaskManager) (t : Timer)
      → top tm.timers ≡ some t
      → ltb tm.tick t.timeout ≡ false
      → t.value == task_timer_value ≡ true
      → tick_loop queue (suc fuel) tm tasks
        ≡ some (
          true,
          record tm {
            timers = push (task_timer (add64 tm.tick task_timer_period)) (pop tm.timers);
          },
          tasks,
        )
  unfolding tick_loop
  loop_rearms fuel tm tasks t e h v = rw (e, h, v, tick_loop) refl

  loop_reports :
      (fuel : ℕ) (tm : TimerManager queue) (tasks : TaskManager) (t : Timer)
      → top tm.timers ≡ some t
      → ltb tm.tick t.timeout ≡ false
      → t.value == task_timer_value ≡ false
      → tick_loop queue (suc fuel) tm tasks
        ≡ tick_loop queue fuel (record tm { timers = pop tm.timers }) (notify tasks t)
  unfolding tick_loop
  loop_reports fuel tm tasks t e h v = rw (e, h, v, tick_loop) refl

  -- The sentinel is not taken out before its time.
  sentinel_stays :
      (q : Q) (t : Timer)
      → top q ≡ some t
      → t.timeout < last_timeout
      → 0 < amount sentinel q
      → 0 < amount sentinel (pop q)
  sentinel_stays q t e h g =
      sent (same_timer t sentinel) (apart_timers t sentinel (ground (arith, h)))
        (amount-pop q t e sentinel)
    where
      sent :
          (b : Bool)
          → b ≡ false
          → amount sentinel q ≡ (if b then 1 else 0) + amount sentinel (pop q)
          → 0 < amount sentinel (pop q)
      sent true f _ = ground (arith, f)
      sent false _ k = omega (arith, k, g)

  waits-Ticked :
      (now low : ℕ) (q : Q) (t : Timer)
      → top q ≡ some t
      → now < t.timeout
      → 0 < amount sentinel q
      → Ticked now low q q [] false
  unfolding amount_of
  waits-Ticked now low q t e h g = record {
    due = tt;
    all_due = λ _ u held. ground (arith, h, top_earliest q t e u held);
    kept = λ _ u. ground arith;
    rearmed = λ f. ground (arith, f);
    guarded = g;
  }

  rearms-Ticked :
      (now low : ℕ) (q : Q) (t : Timer)
      → top q ≡ some t
      → t.timeout ≤ now
      → now < last_timeout
      → low ≤ t.timeout
      → t.value ≡ task_timer_value
      → 0 < amount sentinel q
      → Ticked now low q (push (task_timer (add64 now task_timer_period)) (pop q)) [] true
  unfolding amount_of
  rearms-Ticked now low q t e h bound l v g = record {
    due = tt;
    all_due = λ f. ground (arith, f);
    kept = λ f. ground (arith, f);
    rearmed = λ _. (
      t.timeout,
      h,
      l,
      tt,
      λ u other held. ground (
        arith,
        top_earliest q t e u (
            ground (
              arith,
              other,
              held,
              amount-pop q t e u,
              amount-push u (task_timer (add64 now task_timer_period)) (pop q),
            )),
      ),
      λ u. ground (
        arith,
        armed t u v,
        amount-pop q t e u,
        amount-push u (task_timer (add64 now task_timer_period)) (pop q),
      ),
    );
    guarded = ground (
      arith,
      sentinel_stays q t e (ground (arith, h, bound)) g,
      amount-push sentinel (task_timer (add64 now task_timer_period)) (pop q),
    );
  }

  reports-Ticked :
      (now low : ℕ) (q left : Q) (t : Timer) (sent : List Timer) (b : Bool)
      → top q ≡ some t
      → low ≤ t.timeout
      → t.timeout ≤ now
      → t.value ≢ task_timer_value
      → Ticked now t.timeout (pop q) left sent b
      → Ticked now low q left (t ∷ sent) b
  unfolding amount_of
  reports-Ticked now low q left t sent b e l h v r = record {
    due = (l, h, v, r.due);
    all_due = r.all_due;
    kept = λ f u. ground (arith, r.kept f u, amount-pop q t e u);
    rearmed = λ f.
        let (old, past, after, before, first, same) = r.rearmed f in
        (
          old,
          past,
          omega (arith, l, after),
          (after, before),
          first,
          λ u. ground (arith, same u, amount-pop q t e u),
        );
    guarded = r.guarded;
  }

  -- What the loop gives, with the timers it reported.
  Ticks : ℕ → ℕ → TimerManager queue → TaskManager → Type 0
  Ticks fuel low tm tasks =
      (sent : List Timer) × (b : Bool) × (left : Q) × (tick_loop queue fuel tm tasks
        ≡ some (b, record tm { timers = left }, notify_all tasks sent))
      × Ticked tm.tick low tm.timers left sent b

  loop_lem :
      (fuel low : ℕ) (tm : TimerManager queue) (tasks : TaskManager)
      → size tm.timers < fuel
      → tm.tick < last_timeout
      → 0 < amount sentinel tm.timers
      → ((t : Timer) → 0 < amount t tm.timers → low ≤ t.timeout)
      → Ticks fuel low tm tasks
  unfolding Ticks notify_all notify
  loop_lem zero low tm tasks f _ _ _ = ground (arith, f)
  loop_lem (suc fuel) low tm tasks f h g l = elim (Option-cases (top tm.timers)) [
    | inl e ↦ ground (arith, g, amount_none tm.timers e sentinel)
    | inr (t, e) ↦ elim (Bool-cases (ltb tm.tick t.timeout)) [
      | inl w ↦ (
        [],
        false,
        tm.timers,
        loop_waits fuel tm tasks t e w,
        waits-Ticked tm.tick low tm.timers t e (ground (arith, w)) g,
      )
      | inr d ↦ elim (Bool-cases (t.value == task_timer_value)) [
        | inl v ↦ (
          [],
          true,
          push (task_timer (add64 tm.tick task_timer_period)) (pop tm.timers),
          loop_rearms fuel tm tasks t e d v,
          rearms-Ticked tm.tick low tm.timers t e (ground (arith, d)) h
              (l t (ground (arith, amount-pop tm.timers t e t))) (ground (arith, v)) g,
        )
        | inr v ↦
            let (sent, b, left, run, r) =
              loop_lem fuel t.timeout (record tm { timers = pop tm.timers }) (notify tasks t)
                (omega (arith, f, size-pop tm.timers t e)) h
                (sentinel_stays tm.timers t e (ground (arith, d, h)) g)
                (λ u held. ground (
                  arith,
                  top_earliest tm.timers t e u (omega (arith, held, amount-pop tm.timers t e u)),
                )) in
            (
              t ∷ sent,
              b,
              left,
              loop_reports fuel tm tasks t e d v ∙ run,
              reports-Ticked tm.tick low tm.timers left t sent b e
                  (l t (ground (arith, amount-pop tm.timers t e t))) (ground (arith, d))
                  (ground (arith, v)) r,
            )
      ]
    ]
  ]

  -- A tick that gives a result, with the timers it reported.
  pub Ticking : TimerManager queue → TaskManager → Type 0
  Ticking tm tasks =
      (sent : List Timer) × (b : Bool) × (left : Q) × (tick queue tm tasks
        ≡ some (b, record { tick = tm.tick + 1; timers = left }, notify_all tasks sent))
      × Ticked (tm.tick + 1) 0 tm.timers left sent b

  -- A tick finishes while the clock has not reached the sentinel's time and the queue holds the
  -- sentinel. It sends task 1 a message for each of some timers that are due, in order of time, and
  -- takes these out. When it says that no task timer was due, these are all that are due, and nothing
  -- else changes. When it says that one was, every timer reported is due no later than it, every
  -- other timer that stays is due no earlier, and it is armed again for two ticks later.
  pub tick-Ticking :
      (tm : TimerManager queue) (tasks : TaskManager)
      → tm.tick + 1 < last_timeout
      → 0 < amount sentinel tm.timers
      → Ticking tm tasks
  unfolding tick Ticks Ticking
  tick-Ticking tm tasks h g =
      subst
        (λ n.
          (sent : List Timer) × (b : Bool) × (left : Q) × (tick_loop queue (suc (size tm.timers))
              (record tm { tick = n }) tasks
            ≡ some (b, record { tick = tm.tick + 1; timers = left }, notify_all tasks sent))
          × Ticked (tm.tick + 1) 0 tm.timers left sent b)
        (omega (arith, h))
        (loop_lem (suc (size tm.timers)) 0 (record tm { tick = tm.tick + 1 }) tasks (omega arith) h
          g (λ t _. omega arith))

  -- No task timer is among those that are due and reported.
  sent_not_task :
      (now low old : ℕ) (sent : List Timer)
      → IsDue now low sent
      → amount_of (task_timer old) sent ≡ 0
  unfolding amount_of
  sent_not_task now low old [] _ = refl
  sent_not_task now low old (t ∷ sent) (_, _, ne, d) =
      ground (arith, ne, sent_not_task now t.timeout old sent d)

  -- When a task timer is due, the tick says so.
  pub tick_due :
      (tm : TimerManager queue) (tasks : TaskManager) (old : ℕ)
      → tm.tick + 1 < last_timeout
      → 0 < amount sentinel tm.timers
      → 0 < amount (task_timer old) tm.timers
      → old ≤ tm.tick + 1
      → (left : Q) × (tasks' : TaskManager) × (tick queue tm tasks
          ≡ some (true, record { tick = tm.tick + 1; timers = left }, tasks'))
  unfolding Ticking
  tick_due tm tasks old h g there past =
      let (sent, b, left, run, r) = tick-Ticking tm tasks h g in
      elim (Bool-cases b) [
        | inl e ↦ (
          left,
          notify_all tasks sent,
          subst
              (λ c.
                tick queue tm tasks
                ≡ some (c, record { tick = tm.tick + 1; timers = left }, notify_all tasks sent))
              e run,
        )
        | inr e ↦ ground (
          arith,
          there,
          past,
          r.kept e (task_timer old),
          r.all_due e (task_timer old),
          sent_not_task (tm.tick + 1) 0 old sent r.due,
        )
      ]
