-- ===== src/Tasks/History.antt =====
-- Any sequence of calls of the service-task workflow (backend/app/service_tasks.py).
use zouseeking.Base.{ℕ, List, [], ◌∷◌}
use zouseeking.Base.Txn.{Outcome, done, raised, ends, raises}
use zouseeking.Tasks.Data.{Db, Fault}
use zouseeking.Tasks.Flow.{apply, withdraw, complete}
use zouseeking.Tasks.Admin.{ServiceTaskCreate, ServiceTaskStatus, admin_create, admin_status}
use zouseeking.Tasks.Contact.{grant_creator_consent, grant_org_consent, confirm_completion}
use zouseeking.Tasks.Invariant.{Coherent}
use zouseeking.Tasks.Keeping.{
  Keeps, apply-Keeps, withdraw-Keeps, complete-Keeps, confirm_completion-Keeps,
}
use zouseeking.Tasks.Governing.{admin_create-Keeps, admin_status-Keeps}
use zouseeking.Tasks.Granting.{grant_consent-Keeps}

-- A call with its caller, and the ids and the time that the database supplies.
pub data Operation : Type 0 where
  applies : ℕ → ℕ → ℕ → ℕ → Operation
  withdraws completes confirms : ℕ → ℕ → Operation
  creates : ℕ → ℕ → ServiceTaskCreate → Operation
  sets_status : ℕ → ℕ → ServiceTaskStatus → Operation
  creator_grants org_grants : ℕ → ℕ → ℕ → Operation

-- The tables after a transaction, which keeps those before it if it raises.
abbrev pub tables {ℓ} : {A : Type ℓ} → Db → Outcome Fault (A × Db) → Db
tables s (done (a, t)) = t
tables s (raised e) = s

unfoldable pub perform : Operation → Db → Db
perform (applies user task assigned id) s = tables s (apply user task assigned id s)
perform (withdraws user task) s = tables s (withdraw user task s)
perform (completes user task) s = tables s (complete user task s)
perform (confirms user task) s = tables s (confirm_completion user task s)
perform (creates user id body) s = tables s (admin_create user id body s)
perform (sets_status user task body) s = tables s (admin_status user task body s)
perform (creator_grants now user task) s = tables s (grant_creator_consent now user task s)
perform (org_grants now user task) s = tables s (grant_org_consent now user task s)

-- The locks on the task's row order the transactions: a history is a list of them.
unfoldable pub run : List Operation → Db → Db
unfolding perform
run [] s = s
run (o ∷ os) s = run os (perform o s)

tables-Coherent :
    {A : Type 0} (s : Db) (r : Outcome Fault (A × Db))
    → Coherent s
    → Keeps r
    → Coherent (tables s r)
tables-Coherent s _ v (ends k) = k
tables-Coherent s _ v raises = v

perform-Coherent : (o : Operation) (s : Db) → Coherent s → Coherent (perform o s)
unfolding perform grant_creator_consent grant_org_consent
perform-Coherent (applies user task assigned id) s v =
    tables-Coherent s _ v (apply-Keeps user task assigned id s v)
perform-Coherent (withdraws user task) s v = tables-Coherent s _ v (withdraw-Keeps user task s v)
perform-Coherent (completes user task) s v = tables-Coherent s _ v (complete-Keeps user task s v)
perform-Coherent (confirms user task) s v =
    tables-Coherent s _ v (confirm_completion-Keeps user task s v)
perform-Coherent (creates user id body) s v =
    tables-Coherent s _ v (admin_create-Keeps user id body s v)
perform-Coherent (sets_status user task body) s v =
    tables-Coherent s _ v (admin_status-Keeps user task body s v)
perform-Coherent (creator_grants now user task) s v =
    tables-Coherent s _ v (grant_consent-Keeps now _ user task s v)
perform-Coherent (org_grants now user task) s v =
    tables-Coherent s _ v (grant_consent-Keeps now _ user task s v)

-- From coherent tables, any calls leave them coherent. The status of a task is where its history
-- leads, and the history takes only steps of TRANSITIONS, a completion only by the task's creator. An
-- organization has one application to a task, and a task at most one matched application. A consent is
-- kept of exactly the tasks that are engaged, and emails are stored only when both sides have granted.
pub run-Coherent : (os : List Operation) (s : Db) → Coherent s → Coherent (run os s)
unfolding run
run-Coherent [] s v = v
run-Coherent (o ∷ os) s v = run-Coherent os (perform o s) (perform-Coherent o s v)
