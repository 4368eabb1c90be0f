-- ===== src/Tasks/Completion.antt =====
-- What the history of a task says about its status (backend/app/service_tasks.py).
use zouseeking.Base.{
  ℕ, ◌≡◌, Bool, true, false, ◌&&◌, ◌||◌, Option, none, some, List, [], ◌∷◌, arith, nat_beq, ◌==◌,
  refl, option_beq,
}
use zouseeking.Base.Table.{find}
use zouseeking.Tasks.Data.{
  TaskStatus, draft, open_status, matched_pending_consent, in_progress, completion_pending,
  completed, cancelled, task_status_eq, task_status_beq, Task, Change, Db, task_key,
}
use zouseeking.Tasks.Flow.{allowed_transition, transitions, member_of}
use zouseeking.Tasks.Invariant.{follow, lawful, Coherent}
use zouseeking.Tasks.History.{Operation, run, run-Coherent}

-- Whether the history has a completion of the task by the user.
unfoldable pub completed_by : ℕ → ℕ → List Change → Bool
completed_by i user [] = false
completed_by i user (c ∷ history) =
    (nat_beq c.task_id i && ((c.to_status == completed) && nat_beq c.changed_by_user_id user))
    || completed_by i user history

-- A step into `completed` is the creator's.
lawful-completed :
    (creator : ℕ) (status : Option TaskStatus) (c : Change)
    → lawful creator status c ≡ true
    → (c.to_status == completed) ≡ true
    → nat_beq c.changed_by_user_id creator ≡ true
unfolding lawful allowed_transition transitions member_of task_status_beq
lawful-completed creator none c h e = ground arith
lawful-completed creator (some old) c h e = ground arith

follow-completed :
    (i creator : ℕ) (status : Option TaskStatus) (history : List Change)
    → follow i creator status history ≡ some (some completed)
    → option_beq status (some completed) ≡ false
    → completed_by i creator history ≡ true
unfolding follow completed_by
follow-completed i creator status [] h e =
    ground (arith, task_status_eq.beq_iff completed completed)
follow-completed i creator status (c ∷ history) h e = ground (
  arith,
  follow-completed i creator status history,
  follow-completed i creator (some c.to_status) history,
  lawful-completed creator status c,
)

-- A task of coherent tables is completed only after its creator has confirmed the completion: whatever
-- calls are made, its history has the row of that confirmation.
pub completed-by_creator :
    (os : List Operation) (s : Db) (i : ℕ) (t : Task)
    → Coherent s
    → find task_key i (run os s).tasks ≡ some t
    → t.status ≡ completed
    → completed_by i t.creator_user_id (run os s).history ≡ true
completed-by_creator os s i t v there e =
    follow-completed i t.creator_user_id none (run os s).history
      (rw⁻¹ e ((run-Coherent os s v).logged i t there)) refl

-- The statuses that the operations can give a task.
unfoldable pub reachable : TaskStatus → Bool
reachable draft = true
reachable open_status = true
reachable matched_pending_consent = true
reachable in_progress = true
reachable completion_pending = true
reachable completed = true
reachable cancelled = true
reachable _ = false

abbrev reachable_from : Option TaskStatus → Bool
reachable_from none = true
reachable_from (some status) = reachable status

lawful-reachable :
    (creator : ℕ) (status : Option TaskStatus) (c : Change)
    → lawful creator status c ≡ true
    → reachable c.to_status ≡ true
unfolding lawful allowed_transition transitions member_of task_status_beq reachable
lawful-reachable creator none c h = ground arith
lawful-reachable creator (some old) c h = ground arith

follow-reachable :
    (i creator : ℕ) (status : Option TaskStatus) (last : TaskStatus) (history : List Change)
    → follow i creator status history ≡ some (some last)
    → reachable_from status ≡ true
    → reachable last ≡ true
unfolding follow
follow-reachable i creator status last [] h e = ground arith
follow-reachable i creator status last (c ∷ history) h e = ground (
  arith,
  follow-reachable i creator status last history,
  follow-reachable i creator (some c.to_status) last history,
  lawful-reachable creator status c,
)

-- From coherent tables no sequence of calls makes a task expired, suspended or closed unconfirmed.
pub run-reachable :
    (os : List Operation) (s : Db) (i : ℕ) (t : Task)
    → Coherent s
    → find task_key i (run os s).tasks ≡ some t
    → reachable t.status ≡ true
run-reachable os s i t v there =
    follow-reachable i t.creator_user_id none t.status (run os s).history
      ((run-Coherent os s v).logged i t there) refl
