-- ===== src/Timer/ListQueue.antt =====
-- A priority queue of timers (Kernel/timer.hpp) as a plain list, which is searched each time.
use mikanos_copy.Common.{
  ℕ, suc, ◌+◌, ◌≤◌, ◌<◌, ◌≡◌, refl, subst, true, false, Option, none, some, List, [], ◌∷◌, leb,
  length, if◌then◌else◌, arith, Bool-cases, inl, inr,
}
use mikanos_copy.Timer.Queue.{Timer, TimerQueue, same_timer, later}

unfoldable pub sooner : Timer → Option Timer → Timer
sooner t none = t
sooner t (some u) = if leb t.timeout u.timeout then t else u

unfoldable pub earliest : List Timer → Option Timer
unfolding sooner
earliest [] = none
earliest (t ∷ q) = some (sooner t (earliest q))

unfoldable pub remove : Timer → List Timer → List Timer
remove u [] = []
remove u (t ∷ q) = let rest = remove u q in if same_timer t u then q else t ∷ rest

unfoldable pub drop_earliest : List Timer → List Timer
unfolding remove earliest
drop_earliest q = elim (earliest q) [ none ↦ [] | some u ↦ remove u q ]

unfoldable pub times : Timer → List Timer → ℕ
times t [] = 0
times t (u ∷ q) = (if same_timer u t then 1 else 0) + times t q

same_timer_eq : (t u : Timer) → same_timer t u ≡ true → t ≡ u
same_timer_eq t u e = ground (arith, e)

same_timer_refl : (t : Timer) → same_timer t t ≡ true
same_timer_refl t = ground arith

earliest-in : (t : Timer) (q : List Timer) → 0 < times (sooner t (earliest q)) (t ∷ q)
unfolding times sooner earliest
earliest-in t [] = ground (arith, same_timer_refl t)
earliest-in t (u ∷ q) = elim (Bool-cases (leb t.timeout (sooner u (earliest q)).timeout)) [
  | inl e ↦ rw e (ground (arith, same_timer_refl t))
  | inr e ↦ subst (λ w. 0 < times w (t ∷ u ∷ q)) (later_one e) (ground (arith, earliest-in u q))
]
  where
    later_one :
        leb t.timeout (sooner u (earliest q)).timeout ≡ false
        → sooner u (earliest q) ≡ sooner t (earliest (u ∷ q))
    later_one e = rw e refl

earliest_least :
    (t : Timer) (q : List Timer) (u : Timer)
    → 0 < times u (t ∷ q)
    → (sooner t (earliest q)).timeout ≤ u.timeout
unfolding times sooner earliest
earliest_least t [] u h = ground (arith, h)
earliest_least t (s ∷ q) u h = elim (Bool-cases (leb t.timeout (sooner s (earliest q)).timeout)) [
  | inl e ↦ rw e (ground (arith, e, h, earliest_least s q u))
  | inr e ↦ rw e (ground (arith, e, h, earliest_least s q u))
]

pub times-remove :
    (u : Timer) (q : List Timer)
    → 0 < times u q
    → (t : Timer) → times t q ≡ (if same_timer u t then 1 else 0) + times t (remove u q)
unfolding times remove
times-remove u [] h t = ground (arith, h)
times-remove u (s ∷ q) h t = elim (Bool-cases (same_timer s u)) [
  | inl e ↦ rw e (rw (same_timer_eq s u e) refl)
  | inr e ↦ rw e (ground (arith, e, h, times-remove u q (ground (arith, e, h)) t))
]

pub length-remove :
    (u : Timer) (q : List Timer) → 0 < times u q → length q ≡ suc (length (remove u q))
unfolding times remove
length-remove u [] h = ground (arith, h)
length-remove u (s ∷ q) h = elim (Bool-cases (same_timer s u)) [
  | inl e ↦ rw e refl
  | inr e ↦ rw e (ground (arith, e, h, length-remove u q))
]

pub none_left : (q : List Timer) → earliest q ≡ none → (t : Timer) → times t q ≡ 0
unfolding times earliest
none_left [] e t = refl
none_left (u ∷ q) e t = cc

pub drop-some : (q : List Timer) (u : Timer) → earliest q ≡ some u → drop_earliest q ≡ remove u q
unfolding drop_earliest
drop-some q u e = rw (e, drop_earliest) refl

pub top_in : (q : List Timer) (u : Timer) → earliest q ≡ some u → 0 < times u q
unfolding earliest times
top_in [] u e = cc
top_in (t ∷ q) u e =
    let same : sooner t (earliest q) ≡ u = cc in
    subst (λ w. 0 < times w (t ∷ q)) same (earliest-in t q)

pub least :
    (q : List Timer) (u : Timer)
    → earliest q ≡ some u
    → (t : Timer) → 0 < times t q
    → later u t ≡ false
unfolding earliest
least [] u e t h = cc
least (s ∷ q) u e t h =
    let same : sooner s (earliest q) ≡ u = cc in
    subst (λ (w : Timer). later w t ≡ false) same (ground (arith, earliest_least s q t h))

-- The list as a priority queue.
unfoldable pub list_queue : TimerQueue
unfolding times
list_queue = record {
  Q = List Timer;
  empty = [];
  push = λ t q. t ∷ q;
  pop = drop_earliest;
  top = earliest;
  size = length;
  amount = times;
  amount-empty = λ t. refl;
  amount-push = λ t u q. refl;
  amount_none = none_left;
  amount-pop = λ q u e t. rw (drop-some q u e) (times-remove u q (top_in q u e) t);
  top_earliest = least;
  size-pop = λ q u e. rw (drop-some q u e) (length-remove u q (top_in q u e));
}
