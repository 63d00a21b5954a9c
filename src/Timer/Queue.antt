-- ===== src/Timer/Queue.antt =====
-- `Timer` of Kernel/timer.hpp, and what Kernel/timer.cpp relies on of `std::priority_queue<Timer>`:
-- the timer on top is one of those with the earliest timeout. Which one, the library leaves open.
use mikanos_copy.Common.{
  ℕ, suc, ◌+◌, ◌<◌, ◌≡◌, Bool, false, ltb, ◌&&◌, Option, none, some, ◌==◌, if◌then◌else◌,
}

-- `value` is the bit pattern of an `int`.
pub record Timer : Type 0 where
  pub timeout : ℕ
  pub value : ℕ

abbrev pub same_timer : Timer → Timer → Bool
same_timer t u = t.timeout == u.timeout && t.value == u.value

-- `operator<`, which is turned round so that the queue's greatest timer is the earliest.
abbrev pub later : Timer → Timer → Bool
later lhs rhs = ltb rhs.timeout lhs.timeout

-- `amount t q` is how often `q` holds `t`.
pub record TimerQueue : Type 1 where
  pub Q : Type 0
  pub empty : Q
  pub push : Timer → Q → Q
  pub pop : Q → Q
  pub top : Q → Option Timer
  pub size : Q → ℕ
  pub amount : Timer → Q → ℕ
  pub amount-empty : (t : Timer) → amount t empty ≡ 0
  pub amount-push :
      (t u : Timer) (q : Q) → amount t (push u q) ≡ (if same_timer u t then 1 else 0) + amount t q
  pub amount_none : (q : Q) → top q ≡ none → (t : Timer) → amount t q ≡ 0
  pub amount-pop :
      (q : Q) (u : Timer)
      → top q ≡ some u
      → (t : Timer) → amount t q ≡ (if same_timer u t then 1 else 0) + amount t (pop q)
  pub top_earliest :
      (q : Q) (u : Timer) → top q ≡ some u → (t : Timer) → 0 < amount t q → later u t ≡ false
  pub size-pop : (q : Q) (u : Timer) → top q ≡ some u → size q ≡ suc (size (pop q))
