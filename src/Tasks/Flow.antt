-- ===== src/Tasks/Flow.antt =====
-- The operations of the service-task workflow (backend/app/service_tasks.py), each one transaction.
use zouseeking.Base.{
  ℕ, Bool, true, false, not, ◌&&◌, ◌||◌, Option, none, some, List, [], ◌∷◌, String, ltb, nat_beq,
  if◌then◌else◌, ◌==◌, nat_eq, string_eq, option_eq, is_some,
}
use zouseeking.Base.Table.{update_where, first_where, insert_row, least_where, find}
use zouseeking.Base.Txn.{Txn, pure, ◌>>=◌, ◌>>◌, select, write, raise, raise_if, or_raise}
use zouseeking.Tasks.Data.{
  TaskStatus, draft, open_status, matched_pending_consent, in_progress, completion_pending,
  completed, cancelled, task_status_eq, ApplicationStatus, is_matched, is_pending, is_withdrawn,
  is_terminal_application, is_manager, Member, Task, Application, Db, Fault, http,
  invalid_status_transition, violates, task_key, application_key,
}

unfoldable pub member_of : TaskStatus → List TaskStatus → Bool
member_of x [] = false
member_of x (y ∷ ys) = (y == x) || member_of x ys

-- TRANSITIONS, where a status without an entry has none.
unfoldable pub transitions : TaskStatus → List TaskStatus
transitions draft = open_status ∷ cancelled ∷ []
transitions open_status = matched_pending_consent ∷ cancelled ∷ []
transitions matched_pending_consent = in_progress ∷ cancelled ∷ []
transitions in_progress = completion_pending ∷ cancelled ∷ []
transitions completion_pending = completed ∷ []
transitions _ = []

-- `allowed_transition`, for `actor == "creator"` or another actor.
unfoldable pub allowed_transition : TaskStatus → TaskStatus → Bool → Bool
unfolding member_of transitions
allowed_transition old new by_creator =
    if (old == completion_pending) && (new == completed)
    then by_creator
    else member_of new (transitions old)

abbrev pub Call : Type 0 → Type 0
Call A = Txn Fault Db A

abbrev pub require_transition : TaskStatus → TaskStatus → Bool → Call (Unit {0})
require_transition old new by_creator =
    raise_if (not (allowed_transition old new by_creator)) (invalid_status_transition old new)

-- The organizations of `_org_ids`: those that the user is an active member of, or a manager of.
unfoldable pub org_among : ℕ → Bool → ℕ → List Member → Bool
org_among user managers org [] = false
org_among user managers org (m ∷ ms) =
    (nat_beq m.organization_id org
      && (nat_beq m.user_id user && (m.active && (is_manager m.role || not managers))))
    || org_among user managers org ms

unfoldable pub any_org : ℕ → Bool → List Member → Bool
any_org user managers [] = false
any_org user managers (m ∷ ms) =
    (nat_beq m.user_id user && (m.active && (is_manager m.role || not managers)))
    || any_org user managers ms

-- `_org_ids` raises without one, and otherwise answers which organizations they are.
unfoldable pub org_ids : ℕ → Bool → Call (ℕ → Bool)
org_ids user managers = do
  found ← select (λ s. any_org user managers s.members)
  raise_if (not found) (http (if managers then 403 else 404) "organization access required")
  select (λ s. λ org. org_among user managers org s.members)

-- `order by manager.created_at, manager.id`
unfoldable pub joined_before : Member → Member → Bool
joined_before a b =
    ltb a.created_at b.created_at || nat_beq a.created_at b.created_at && ltb a.id b.id

-- The join of `_manager_org_for_assignment`: the caller manages an organization in which the assigned
-- user is active.
unfoldable pub manages_for : ℕ → ℕ → List Member → Member → Bool
unfolding org_among
manages_for caller assigned members m =
    nat_beq m.user_id caller
    && (m.active && (is_manager m.role && org_among assigned false m.organization_id members))

-- `_manager_org_for_assignment`
unfoldable pub manager_org_for_assignment : ℕ → ℕ → Call ℕ
manager_org_for_assignment caller assigned = do
  row ← select (λ s. least_where joined_before (manages_for caller assigned s.members) s.members)
  m ← or_raise row (http 403 "assigned member is not active in your organization")
  pure m.organization_id

-- `_append_history`
unfoldable pub append_history :
    ℕ → Option TaskStatus → TaskStatus → ℕ → Option String → Call (Unit {0})
append_history task old new actor remark =
    if old == some new
    then pure tt
    else write (λ s. record s {
      history =
          insert_row
            (record {
              task_id = task;
              from_status = old;
              to_status = new;
              changed_by_user_id = actor;
              note = remark;
            })
            s.history;
    })

unfoldable pub audit : ℕ → String → ℕ → Option TaskStatus → TaskStatus → Call (Unit {0})
audit actor action task old new = write (λ s. record s {
  audits =
      insert_row
        (record {
          actor_user_id = actor;
          action = action;
          target_id = task;
          from_status = old;
          to_status = new;
        })
        s.audits;
})

-- `select * from service_tasks where id=$1 for update`
abbrev pub task_of : ℕ → Call Task
task_of task = do
  row ← select (λ s. find task_key task s.tasks)
  or_raise row (http 404 "task not found")

-- `update service_tasks set status=$2 where id=$1`
abbrev pub set_status : ℕ → TaskStatus → Call (Unit {0})
set_status task new = write (λ s. record s {
  tasks = update_where (λ t. nat_beq t.id task) (λ t. record t { status = new }) s.tasks;
})

abbrev pub set_application : ℕ → ApplicationStatus → Call (Unit {0})
set_application application status = write (λ s. record s {
  applications =
      update_where (λ a. nat_beq a.id application) (λ a. record a { status = status })
        s.applications;
})

-- The answers: whose application, in which status, and whether it was there before.
pub record Applied : Type 0 where
  pub id : ℕ
  pub task_id : ℕ
  pub status : ApplicationStatus
  pub idempotent : Bool

abbrev pub for_task_and_org : ℕ → ℕ → Application → Bool
for_task_and_org task org a = nat_beq a.task_id task && nat_beq a.organization_id org

abbrev pub new_application : ℕ → ℕ → ℕ → ℕ → Application
new_application id task org assigned = record {
  id = id;
  task_id = task;
  organization_id = org;
  assigned_member_user_id = assigned;
  status = ApplicationStatus.pending;
}

-- The insert of `apply`, under the table's primary key and unique (task_id, organization_id).
unfoldable pub insert_application : ℕ → ℕ → ℕ → ℕ → Call Applied
insert_application id task org assigned = do
  raise_if_taken ← select (λ s. is_some (find application_key id s.applications))
  raise_if raise_if_taken (violates "task_applications_pkey")
  doubled ← select (λ s. is_some (first_where (for_task_and_org task org) s.applications))
  raise_if doubled (violates "task_applications_one_per_org")
  write (λ s. record s {
    applications = insert_row (new_application id task org assigned) s.applications;
  })
  pure (record { id = id; task_id = task; status = ApplicationStatus.pending; idempotent = false })

-- `apply` on the organization's application to the task, if there is one.
unfoldable pub apply_over : ℕ → ℕ → ℕ → ℕ → Option Application → Call Applied
apply_over id task org assigned none = insert_application id task org assigned
apply_over id task org assigned (some a) =
    if is_pending a.status
    then pure (record {
      id = a.id;
      task_id = task;
      status = ApplicationStatus.pending;
      idempotent = true;
    })
    else if is_terminal_application a.status
    then raise (http 409 "application_terminal")
    else insert_application id task org assigned

-- `apply`, with the id that the table draws for a new application.
unfoldable pub apply : ℕ → ℕ → ℕ → ℕ → Call Applied
apply user task assigned id = do
  org ← manager_org_for_assignment user assigned
  t ← task_of task
  raise_if (not (t.status == open_status)) (http 409 "task_not_open")
  existing ← select (λ s. first_where (for_task_and_org task org) s.applications)
  apply_over id task org assigned existing

-- `withdraw`: whether the application was withdrawn before.
unfoldable pub withdraw : ℕ → ℕ → Call Bool
withdraw user task = do
  orgs ← org_ids user true
  row ← select (λ s. find task_key task s.tasks)
  held ←
      select
        (λ s. first_where (λ a. nat_beq a.task_id task && orgs a.organization_id) s.applications)
  t ← or_raise row (http 404 "application not found")
  a ← or_raise held (http 404 "application not found")
  if is_withdrawn a.status then pure true else (do
    raise_if (not (is_pending a.status) || not (t.status == open_status))
        (http 409 "withdrawal_not_allowed")
    set_application a.id ApplicationStatus.withdrawn
    pure false)

-- `complete`: a manager of the matched organization asks for completion.
unfoldable pub complete : ℕ → ℕ → Call TaskStatus
complete user task = do
  orgs ← org_ids user true
  engaged ← select (λ s.
      first_where (λ a. nat_beq a.task_id task && (orgs a.organization_id && is_matched a.status))
        s.applications)
  _ ← or_raise engaged (http 404 "task not found")
  t ← task_of task
  require_transition t.status completion_pending false
  set_status task completion_pending
  append_history task (some t.status) completion_pending user (some "B requested completion")
  pure completion_pending
