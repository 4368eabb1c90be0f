-- ===== src/Tasks/Admin.antt =====
-- The administrator's operations of the service-task workflow (backend/app/service_tasks.py).
use zouseeking.Base.{
  ℕ, Bool, true, false, not, ◌&&◌, ◌||◌, Option, none, some, String, nat_beq, if◌then◌else◌, ◌==◌,
  string_eq, is_some, get_or,
}
use zouseeking.Base.Table.{first_where, insert_row, find}
use zouseeking.Base.Txn.{pure, ◌>>=◌, ◌>>◌, select, write, raise, raise_if, or_raise}
use zouseeking.Tasks.Data.{
  TaskStatus, draft, open_status, matched_pending_consent, completed, cancelled, task_status_eq,
  ApplicationStatus, is_matched, is_pending, ConsentStatus, Task, Application, Consent, Db, http,
  violates, task_key, consent_key,
}
use zouseeking.Tasks.Flow.{
  Call, require_transition, append_history, audit, task_of, set_status, set_application,
}

-- ServiceTaskCreate; `open_at_once` is `status == "open"`, the other value is "draft".
pub record ServiceTaskCreate : Type 0 where
  pub creator_user_id : Option ℕ
  pub purpose : String
  pub region_pref : Option String
  pub asset_type : Option String
  pub compensation : String
  pub public_description : String
  pub apply_deadline : Option ℕ
  pub open_at_once : Bool

abbrev pub is_compensation : String → Bool
is_compensation c = (c == "paid") || ((c == "unpaid") || (c == "negotiable"))

abbrev pub is_asset_type : String → Bool
is_asset_type a =
    (a == "apartment") || ((a == "tower") || ((a == "detached_house") || (a == "other")))

-- `body.asset_type and body.asset_type not in {…}`: an empty text passes.
abbrev pub refused_asset : Option String → Bool
refused_asset none = false
refused_asset (some a) = not (a == "") && not (is_asset_type a)

-- service_tasks_asset_type_check
abbrev pub checked_asset : Option String → Bool
checked_asset none = true
checked_asset (some a) = is_asset_type a

abbrev pub initial_status : Bool → TaskStatus
initial_status true = open_status
initial_status false = draft

abbrev pub new_task : ℕ → ℕ → ServiceTaskCreate → Task
new_task id user body = record {
  id = id;
  creator_user_id = get_or body.creator_user_id user;
  purpose = body.purpose;
  region_pref = body.region_pref;
  asset_type = body.asset_type;
  compensation = body.compensation;
  public_description = body.public_description;
  apply_deadline = body.apply_deadline;
  status = initial_status body.open_at_once;
}

-- `admin_create`, with the id that the table draws.
unfoldable pub admin_create : ℕ → ℕ → ServiceTaskCreate → Call Task
admin_create user id body = do
  raise_if (not (is_compensation body.compensation) || refused_asset body.asset_type)
      (http 400 "invalid_task_enum")
  taken ← select (λ s. is_some (find task_key id s.tasks))
  raise_if taken (violates "service_tasks_pkey")
  raise_if (not (checked_asset body.asset_type)) (violates "service_tasks_asset_type_check")
  write (λ s. record s { tasks = insert_row (new_task id user body) s.tasks })
  append_history id none (initial_status body.open_at_once) user (some "task created")
  audit user "admin.service_task.created" id none (initial_status body.open_at_once)
  pure (new_task id user body)

-- ServiceTaskStatus. A status is a text: `none` is one that names no status.
pub record ServiceTaskStatus : Type 0 where
  pub status : Option TaskStatus
  pub application_id : Option ℕ
  pub note : Option String

abbrev pub new_consent : Task → Application → Consent
new_consent t a = record {
  task_id = t.id;
  c_user_id = t.creator_user_id;
  b_organization_id = a.organization_id;
  b_member_user_id = a.assigned_member_user_id;
  consent_version = "v1";
  c_status = ConsentStatus.pending;
  b_status = ConsentStatus.pending;
  granted_at = none;
  emails_visible_until = none;
  c_email_verified = none;
  b_email_verified = none;
}

-- The application that the body names, of this task.
abbrev pub named_application : Option ℕ → ℕ → Db → Option Application
named_application none task s = none
named_application (some id) task s =
    first_where (λ a. nat_beq a.id id && nat_beq a.task_id task) s.applications

abbrev pub matched_for : ℕ → Application → Bool
matched_for task a = nat_beq a.task_id task && is_matched a.status

-- The writes of a match, under the partial unique index on matched applications and the unique task
-- of a consent.
unfoldable pub match_application : ℕ → Option String → Task → Application → Call Task
match_application user remark t a = do
  engaged ← select (λ s. is_some (first_where (matched_for t.id) s.applications))
  raise_if engaged (violates "uq_task_applications_single_match")
  set_application a.id ApplicationStatus.matched
  set_status t.id matched_pending_consent
  consenting ← select (λ s. is_some (find consent_key t.id s.consents))
  raise_if consenting (violates "contact_consents_one_per_task")
  write (λ s. record s { consents = insert_row (new_consent t a) s.consents })
  append_history t.id (some t.status) matched_pending_consent user remark
  audit user "admin.service_task.matched" t.id (some t.status) matched_pending_consent
  pure (record t { status = matched_pending_consent })

-- The branch of `admin_status` for a match.
unfoldable pub match_task : ℕ → ServiceTaskStatus → Task → Call Task
match_task user body t = do
  raise_if (not (t.status == open_status) || not (is_some body.application_id))
      (http 409 "match_requires_open_task_and_application")
  named ← select (named_application body.application_id t.id)
  a ← or_raise named (http 409 "application_not_pending")
  raise_if (not (is_pending a.status)) (http 409 "application_not_pending")
  require_transition t.status matched_pending_consent false
  match_application user body.note t a

-- The branch of `admin_status` for any other status.
unfoldable pub move_task : ℕ → Option String → TaskStatus → Task → Call Task
move_task user remark new t = do
  raise_if ((new == cancelled) && not ((t.status == draft) || (t.status == open_status)))
      (http 409 "cancellation_not_allowed")
  require_transition t.status new false
  set_status t.id new
  append_history t.id (some t.status) new user remark
  audit user "admin.service_task.status_changed" t.id (some t.status) new
  pure (record t { status = new })

unfoldable pub change_status : ℕ → ServiceTaskStatus → Option TaskStatus → Task → Call Task
change_status user body none t = raise (http 400 "invalid_task_status")
change_status user body (some new) t =
    if new == completed
    then raise (http 409 "creator_confirmation_required")
    else if new == matched_pending_consent
    then match_task user body t
    else move_task user body.note new t

-- `admin_status`
unfoldable pub admin_status : ℕ → ℕ → ServiceTaskStatus → Call Task
admin_status user task body = task_of task >>= change_status user body body.status
