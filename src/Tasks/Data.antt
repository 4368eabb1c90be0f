-- ===== src/Tasks/Data.antt =====
-- The tables of the service-task workflow (backend/app/service_tasks.py). Identifiers are numbers,
-- an instant is a number of seconds.
use zouseeking.Base.{ℕ, ◌≡◌, ◌↔◌, Bool, true, false, Option, List, String, arith, BoolEq}

-- TASK_STATUSES
pub data TaskStatus : Type 0 where
  draft open_status matched_pending_consent in_progress completion_pending : TaskStatus
  completed cancelled expired closed_unconfirmed suspended : TaskStatus

unfoldable pub task_status_beq : TaskStatus → TaskStatus → Bool
task_status_beq draft draft = true
task_status_beq open_status open_status = true
task_status_beq matched_pending_consent matched_pending_consent = true
task_status_beq in_progress in_progress = true
task_status_beq completion_pending completion_pending = true
task_status_beq completed completed = true
task_status_beq cancelled cancelled = true
task_status_beq expired expired = true
task_status_beq closed_unconfirmed closed_unconfirmed = true
task_status_beq suspended suspended = true
task_status_beq _ _ = false

pub task_status_beq_iff : (a b : TaskStatus) → (task_status_beq a b ≡ true) ↔ (a ≡ b)
unfolding task_status_beq
task_status_beq_iff a b = ground arith

instance abbrev pub task_status_eq : BoolEq TaskStatus
task_status_eq = record { beq = task_status_beq; beq_iff = task_status_beq_iff }

pub data ApplicationStatus : Type 0 where
  pending withdrawn rejected matched match_expired : ApplicationStatus

abbrev pub is_matched : ApplicationStatus → Bool
is_matched matched = true
is_matched _ = false

abbrev pub is_pending : ApplicationStatus → Bool
is_pending pending = true
is_pending _ = false

abbrev pub is_withdrawn : ApplicationStatus → Bool
is_withdrawn withdrawn = true
is_withdrawn _ = false

-- APPLICATION_TERMINAL
abbrev pub is_terminal_application : ApplicationStatus → Bool
is_terminal_application withdrawn = true
is_terminal_application rejected = true
is_terminal_application match_expired = true
is_terminal_application _ = false

pub data ConsentStatus : Type 0 where
  pending granted withdrawn : ConsentStatus

abbrev pub is_granted : ConsentStatus → Bool
is_granted granted = true
is_granted _ = false

pub data Role : Type 0 where
  owner admin member : Role

abbrev pub is_manager : Role → Bool
is_manager member = false
is_manager _ = true

-- A row of organization_members; `active` is `status = 'active'`.
pub record Member : Type 0 where
  pub id : ℕ
  pub organization_id : ℕ
  pub user_id : ℕ
  pub role : Role
  pub active : Bool
  pub created_at : ℕ

-- A row of service_tasks.
pub record Task : Type 0 where
  pub id : ℕ
  pub creator_user_id : ℕ
  pub purpose : String
  pub region_pref : Option String
  pub asset_type : Option String
  pub compensation : String
  pub public_description : String
  pub apply_deadline : Option ℕ
  pub status : TaskStatus

-- A row of task_applications.
pub record Application : Type 0 where
  pub id : ℕ
  pub task_id : ℕ
  pub organization_id : ℕ
  pub assigned_member_user_id : ℕ
  pub status : ApplicationStatus

-- A row of contact_consents.
pub record Consent : Type 0 where
  pub task_id : ℕ
  pub c_user_id : ℕ
  pub b_organization_id : ℕ
  pub b_member_user_id : ℕ
  pub consent_version : String
  pub c_status : ConsentStatus
  pub b_status : ConsentStatus
  pub granted_at : Option ℕ
  pub emails_visible_until : Option ℕ
  pub c_email_verified : Option String
  pub b_email_verified : Option String

-- A row of task_status_history.
pub record Change : Type 0 where
  pub task_id : ℕ
  pub from_status : Option TaskStatus
  pub to_status : TaskStatus
  pub changed_by_user_id : ℕ
  pub note : Option String

-- A row of audit_events.
pub record Audit : Type 0 where
  pub actor_user_id : ℕ
  pub action : String
  pub target_id : ℕ
  pub from_status : Option TaskStatus
  pub to_status : TaskStatus

-- The tables; `emails` is the column of auth.users, which the workflow only reads.
pub record Db : Type 0 where
  pub members : List Member
  pub tasks : List Task
  pub applications : List Application
  pub consents : List Consent
  pub history : List Change
  pub audits : List Audit
  pub emails : ℕ → Option String

-- What a call raises: an HTTPException with its status and code, or a constraint of the tables.
pub data Fault : Type 0 where
  http : ℕ → String → Fault
  invalid_status_transition : TaskStatus → TaskStatus → Fault
  violates : String → Fault

-- Keys of the tables.
abbrev pub member_key : Member → ℕ
member_key m = m.id

abbrev pub task_key : Task → ℕ
task_key t = t.id

abbrev pub application_key : Application → ℕ
application_key a = a.id

-- contact_consents has one row per task.
abbrev pub consent_key : Consent → ℕ
consent_key c = c.task_id
