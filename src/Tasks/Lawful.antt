-- ===== src/Tasks/Lawful.antt =====
-- The table TRANSITIONS (backend/app/service_tasks.py), and the rows that a step appends.
use zouseeking.Base.{
  ℕ, ◌≡◌, Bool, true, false, not, ◌&&◌, ◌||◌, Option, some, arith, refl, ◌==◌, option_eq, String,
}
use zouseeking.Base.Table.{insert_row}
use zouseeking.Base.Txn.{Ensures, ends}
use zouseeking.Tasks.Data.{
  TaskStatus, draft, open_status, matched_pending_consent, cancelled, task_status_eq,
  task_status_beq, Db,
}
use zouseeking.Tasks.Flow.{allowed_transition, transitions, member_of, append_history, audit}
use zouseeking.Tasks.Invariant.{engaged}
use zouseeking.Tasks.Updates.{change}

-- No status follows itself.
pub allowed_transition-differs :
    (old new : TaskStatus) (by_creator : Bool)
    → allowed_transition old new by_creator ≡ true
    → (some old == some new) ≡ false
unfolding allowed_transition transitions member_of task_status_beq
allowed_transition-differs old new by_creator h = ground arith

-- What another actor may do, the creator may.
pub allowed_transition-any :
    (old new : TaskStatus) (by_creator : Bool)
    → allowed_transition old new false ≡ true
    → allowed_transition old new by_creator ≡ true
unfolding allowed_transition transitions member_of task_status_beq
allowed_transition-any old new by_creator h = ground arith

-- Only a match engages a task, and a cancellation is of a draft or an open one.
pub allowed_transition-engaged :
    (old new : TaskStatus) (by_creator : Bool)
    → allowed_transition old new by_creator ≡ true
    → (new == matched_pending_consent) ≡ false
    → ((new == cancelled) && not ((old == draft) || (old == open_status))) ≡ false
    → engaged new ≡ engaged old
unfolding allowed_transition transitions member_of task_status_beq engaged
allowed_transition-engaged old new by_creator h m c = ground arith

pub append_history-Appends :
    (task : ℕ) (old : Option TaskStatus) (new : TaskStatus) (actor : ℕ) (remark : Option String)
    (s : Db)
    → (old == some new) ≡ false
    → Ensures
        (λ _ u. u ≡ record s { history = insert_row (change task old new actor remark) s.history })
        (append_history task old new actor remark s)
unfolding append_history
append_history-Appends task old new actor remark s h = rw h (ends refl)

pub audit-Audits :
    (actor : ℕ) (action : String) (task : ℕ) (old : Option TaskStatus) (new : TaskStatus) (s : Db)
    → Ensures (λ _ u. u ≡ record s { audits = u.audits }) (audit actor action task old new s)
unfolding audit
audit-Audits actor action task old new s = ends refl
