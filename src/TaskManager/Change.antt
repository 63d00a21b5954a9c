-- ===== src/TaskManager/Change.antt =====
-- `ChangeLevelRunning` (Kernel/task.cpp): a running task moves to another level.
use mikanos_copy.Common.{
  ℕ, ◌+◌, ◌≤◌, ◌<◌, ◌≡◌, ◌≢◌, refl, sym, subst, ap, ◌∙◌, true, false, some, List, [], ◌∷◌, ◌++◌,
  ltb, ◌==◌, if◌then◌else◌, arith, ==-refl, Bool-cases, ℕ_discrete, inl, inr,
}
use mikanos_copy.Task.{Task, set_level}
use mikanos_copy.TaskManager.{TaskManager, max_level, current_task, change_level_running}
use mikanos_copy.TaskManager.Queues.{
  update, is_empty, erase, find_task, update_task, count, count-erase, is_empty_of_count,
  find_task-update_task,
}
use mikanos_copy.TaskManager.Inv.{changed-IsConsistent, places, IsValid}
use mikanos_copy.TaskManager.Wake.{count-snoc}

count_front : (t : ℕ) (rest : List ℕ) → 0 < count t (t ∷ rest)
unfolding count
count_front t rest = ground arith

front_is :
    (tm : TaskManager) (t : ℕ) (rest : List ℕ)
    → tm.running tm.current_level ≡ t ∷ rest
    → current_task tm ≡ some t
unfolding current_task
front_is tm t rest e = rw (e, current_task) refl

front_of : (q : List ℕ) → is_empty q ≡ false → (t : ℕ) × (rest : List ℕ) × (q ≡ t ∷ rest)
front_of [] e = cc
front_of (t ∷ rest) e = (t, rest, refl)

module _ {tm : TaskManager} (v : IsValid tm) (k : Task) (known : find_task k.id tm.tasks ≡ some k)
    (runs : k.running ≡ true) (level : ℕ) (differs : level ≢ k.level) where
  own : (l : ℕ) → count k.id (tm.running l) ≡ (if k.level == l then 1 else 0)
  own l = v.placed k.id l ∙ ap (λ o. places o l) known ∙ ground (arith, runs)

  not_front :
      (t : ℕ) (rest : List ℕ)
      → tm.running tm.current_level ≡ t ∷ rest
      → k.level ≢ tm.current_level
      → k.id ≢ t
  not_front t rest e apart same = ground (
    arith,
    own tm.current_level,
    ap (count k.id) e,
    count_front t rest,
    ap (λ u. count u (t ∷ rest)) same,
    apart,
  )

  -- The queues that the branch for a task behind the front leaves.
  moved : ℕ → List ℕ
  moved =
      let erased = update tm.running tm.current_level (erase k.id (tm.running tm.current_level)) in
      update erased level (erased level ++ k.id ∷ [])

  relevel : TaskManager
  relevel = record tm {
    tasks = update_task k.id (set_level level) tm.tasks;
    running = moved;
    level_changed = if ltb tm.current_level level then true else tm.level_changed;
  }

  -- Behind the front of the current queue.
  module _ (t : ℕ) (rest : List ℕ) (e : tm.running tm.current_level ≡ t ∷ rest)
      (ne : k.id ≢ t) where
    other_level : (level == k.level) ≡ false
    other_level = ground (arith, differs)

    front : current_task tm ≡ some t
    front = front_is tm t rest e

    miss : (k.id == t) ≡ false
    miss = ground (arith, ne)

    behind : change_level_running tm k level ≡ relevel
    unfolding change_level_running relevel moved
    behind =
        simp (other_level, front, miss)
          (elim (Bool-cases (ltb tm.current_level level)) [
            | inl up ↦ simp up
            | inr down ↦ simp down
          ])

    quiet : (l : ℕ) → level ≢ l → tm.current_level ≢ l → moved l ≡ tm.running l
    unfolding moved
    quiet l a b = ground (arith, a, b)

    erased_count :
        (u l : ℕ)
        → count u (update tm.running tm.current_level (erase k.id (tm.running tm.current_level)) l)
          ≡ (if tm.current_level == l
              then (if k.id == u then 0 else count u (tm.running l))
              else count u (tm.running l))
    erased_count u l = elim (ℕ_discrete tm.current_level l) [
      | yes same ↦
          rw (← same)
            (rw (==-refl tm.current_level) (count-erase u k.id (tm.running tm.current_level)))
      | no apart ↦ ground (arith, apart)
    ]

    -- The count of any task in any queue, afterwards.
    moved_count :
        (u l : ℕ)
        → count u (moved l)
          ≡ (if level == l then (if k.id == u then 1 else 0) else 0)
            + (if tm.current_level == l
                then (if k.id == u then 0 else count u (tm.running l))
                else count u (tm.running l))
    unfolding moved
    moved_count u l = elim (ℕ_discrete level l) [
      | yes same ↦
          rw (← same)
            (rw (==-refl level) (count-snoc u k.id _ ∙ ground (arith, erased_count u level)))
      | no ne' ↦ ground (arith, ne', erased_count u l)
    ]

    relevel_found : find_task k.id relevel.tasks ≡ some (record k { level = level })
    unfolding relevel set_level
    relevel_found =
        find_task-update_task k.id k.id (set_level level) tm.tasks (λ u. refl)
        ∙ rw (==-refl k.id, known) refl

    -- With the task at the current level the move is right.
    relevel-IsValid : k.level ≡ tm.current_level → level ≤ max_level → IsValid relevel
    unfolding relevel set_level
    relevel-IsValid at inside = record {
      consistent =
          changed-IsConsistent v.consistent k.id (set_level level) k moved (λ u. refl) known inside
            (λ i. runs) (λ l. ground (arith, moved_count k.id l, own l, runs, at, differs))
            (λ u l apart. ground (arith, moved_count u l, apart)) tm.current_level
            (if ltb tm.current_level level then true else tm.level_changed) v.current_in
            (λ c l above.
              ap is_empty (quiet l (ground (arith, c)) (omega arith))
              ∙ v.top (ground (arith, c)) l above);
      busy =
          is_empty_of_count t (moved tm.current_level) (
            ground (arith, moved_count t tm.current_level, ne, count_front t rest, ap (count t) e));
    }

    -- With the task at another level it stays in its old queue as well.
    still_queued : k.level ≢ tm.current_level → count k.id (relevel.running k.level) ≡ 1
    unfolding relevel
    still_queued apart = ground (arith, moved_count k.id k.level, own k.level, differs, apart)

    relevel_duplicates :
        k.level ≢ tm.current_level
        → (count k.id (relevel.running k.level) ≡ 1)
          × (count k.id (relevel.running level) ≡ 1)
          × ¬ IsValid relevel
    unfolding relevel
    relevel_duplicates apart = (
      still_queued apart,
      ground (arith, moved_count k.id level, own level, differs, apart),
      (λ bad. ground (
        arith,
        still_queued apart,
        bad.placed k.id k.level,
        ap (λ o. places o k.level) relevel_found,
        differs,
      )),
    )

  -- A task that runs at a level other than the current one is not taken out of its queue: after the
  -- call it stands in the queues of both levels, and the manager is no longer valid.
  pub change_level_running_duplicates :
      k.level ≢ tm.current_level
      → let tm' = change_level_running tm k level in
        (count k.id (tm'.running k.level) ≡ 1)
        × (count k.id (tm'.running level) ≡ 1)
        × ¬ IsValid tm'
  change_level_running_duplicates apart =
      let (t, rest, e) = front_of (tm.running tm.current_level) v.busy in
      subst
        (λ m.
          (count k.id (m.running k.level) ≡ 1) × (count k.id (m.running level) ≡ 1) × ¬ IsValid m)
        (sym (behind t rest e (not_front t rest e apart)))
        (relevel_duplicates t rest e (not_front t rest e apart) apart)

  -- A task behind the front of the current queue that moves to another level leaves a valid manager.
  pub change_level_running-IsValid :
      k.level ≡ tm.current_level
      → current_task tm ≢ some k.id
      → level ≤ max_level
      → IsValid (change_level_running tm k level)
  change_level_running-IsValid at not_first inside =
      let (t, rest, e) = front_of (tm.running tm.current_level) v.busy in
      subst IsValid (sym (behind t rest e (other t rest e)))
        (relevel-IsValid t rest e (other t rest e) at inside)
    where
      other : (t : ℕ) (rest : List ℕ) → tm.running tm.current_level ≡ t ∷ rest → k.id ≢ t
      other t rest e same = not_first (front_is tm t rest e ∙ ap some (sym same))
