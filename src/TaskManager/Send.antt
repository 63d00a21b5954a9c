-- ===== src/TaskManager/Send.antt =====
-- Sending a message to a task and receiving it (Kernel/task.cpp).
use mikanos_copy.Common.{
  ℕ, ◌≡◌, ◌≢◌, refl, sym, subst, ap, ◌∙◌, true, none, some, [], ◌∷◌, ◌++◌, ◌==◌, if◌then◌else◌,
  arith, ==-refl, Bool-cases, ℕ_discrete, inl, inr,
}
use mikanos_copy.Error.{Error}
use mikanos_copy.Message.{Message}
use mikanos_copy.Task.{Task, push_message, receive_message}
use mikanos_copy.TaskManager.{TaskManager, modify, current_task, send_to_task, send_message}
use mikanos_copy.TaskManager.Queues.{find_task, find_task-update_task, find_task-id}
use mikanos_copy.TaskManager.Inv.{LevelIn, IsValid, modify-IsValid}
use mikanos_copy.TaskManager.Wake.{wakeup_task_running, wakeup_task-Awake}

abbrev pub delivered : Message → Task → Task
delivered m k = record k { messages = k.messages ++ m ∷ []; running = true }

-- What a successful `SendMessage` leaves.
pub record Sent (tm : TaskManager) (k : Task) (m : Message) (tm' : TaskManager) : Type 0 where
  pub valid : IsValid tm'
  pub received : find_task k.id tm'.tasks ≡ some (delivered m k)
  pub others : (t : ℕ) → k.id ≢ t → find_task t tm'.tasks ≡ find_task t tm.tasks
  pub current : current_task tm' ≡ current_task tm

module _ {tm : TaskManager} (v : IsValid tm) (k : Task) (known : find_task k.id tm.tasks ≡ some k)
    (m : Message) where
  noted : TaskManager
  noted = modify tm k.id (push_message m)

  noted-IsValid : IsValid noted
  unfolding noted push_message
  noted-IsValid = modify-IsValid v k.id (push_message m) (λ u. (refl, refl, refl))

  noted_found :
      (t : ℕ)
      → find_task t noted.tasks
        ≡ (if k.id == t then some (push_message m k) else find_task t tm.tasks)
  unfolding noted push_message
  noted_found t =
      find_task-update_task t k.id (push_message m) tm.tasks (λ u. refl)
      ∙ elim (ℕ_discrete k.id t) [ yes e ↦ rw (← e) (rw known refl) | no ne ↦ ground (arith, ne) ]

  known_noted : find_task k.id noted.tasks ≡ some (push_message m k)
  known_noted = noted_found k.id ∙ rw (==-refl k.id) refl

  same_current : current_task noted ≡ current_task tm
  unfolding noted current_task
  same_current = refl

  send_to_task-Sent : Sent tm k m (send_to_task tm k m)
  unfolding send_to_task push_message noted
  send_to_task-Sent = elim (Bool-cases k.running) [
    | inl runs ↦
        subst (Sent tm k m) (sym (wakeup_task_running noted (push_message m k) runs)) (record {
          valid = noted-IsValid;
          received =
              known_noted
              ∙ ap (λ b. some (record k { messages = k.messages ++ m ∷ []; running = b })) runs;
          others = λ t ne. noted_found t ∙ ground (arith, ne);
          current = same_current;
        })
    | inr asleep ↦
        let awake =
          wakeup_task-Awake noted-IsValid (push_message m k) known_noted none asleep
            (subst LevelIn known (v.levels k.id)) in
        record {
          valid = awake.valid;
          received = awake.runs;
          others = λ t ne. awake.others t ne ∙ noted_found t ∙ ground (arith, ne);
          current = awake.current ∙ same_current;
        }
  ]

-- `SendMessage(id, message)` to a task that exists puts the message behind those that the task has,
-- and the task runs from then on; the current task goes on.
pub send_message-Sent :
    (tm : TaskManager) (id : ℕ) (k : Task) (m : Message)
    → IsValid tm
    → find_task id tm.tasks ≡ some k
    → ((send_message tm id m).0 ≡ Error.success) × Sent tm k m (send_message tm id m).1
unfolding send_message
send_message-Sent tm id k m v known =
    rw (known, send_message)
      (
        refl,
        send_to_task-Sent v k
            (subst (λ i. find_task i tm.tasks ≡ some k) (sym (find_task-id id tm.tasks k known))
              known)
            m,
      )

-- A message sent to a task without messages is the next that the task receives, and the only one.
pub receive_message_sent :
    (tm : TaskManager) (id : ℕ) (k : Task) (m : Message)
    → IsValid tm
    → find_task id tm.tasks ≡ some k
    → k.messages ≡ []
    → (k' : Task) × (find_task id (send_message tm id m).1.tasks ≡ some k')
      × ((receive_message k').0 ≡ some m)
      × ((receive_message (receive_message k').1).0 ≡ none)
unfolding receive_message
receive_message_sent tm id k m v known e = (
  delivered m k,
  subst (λ i. find_task i (send_message tm id m).1.tasks ≡ some (delivered m k))
      (find_task-id id tm.tasks k known) (send_message-Sent tm id k m v known).1.received,
  ground (arith, e),
  ground (arith, e),
)
