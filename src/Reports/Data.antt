-- ===== src/Reports/Data.antt =====
-- The rows that the report worker reads and writes (backend/app/report_worker.py and its table
-- report_generation_outbox). Identifiers and claim tokens are numbers: they are only compared. An
-- instant is a number of seconds.
use zouseeking.Base.{ℕ, Bool, true, false, Option, List, String}

pub data OutboxStatus : Type 0 where
  pending running retryable completed failed : OutboxStatus

-- `QueryRequest` as it is stored, with the owner.
pub record Payload : Type 0 where
  pub owner_user_id : ℕ
  pub prefecture : String
  pub city : String
  pub ward : Option String
  pub asset_type : String
  pub year : ℕ
  pub month : ℕ
  pub username : Option String

-- A row of report_generation_outbox.
pub record Outbox : Type 0 where
  pub id : ℕ
  pub generation_job_id : ℕ
  pub query_id : ℕ
  pub payload : Payload
  pub status : OutboxStatus
  pub attempts : ℕ
  pub max_attempts : ℕ
  pub next_attempt_at : ℕ
  pub claim_token : Option ℕ
  pub claimed_at : Option ℕ
  pub completed_at : Option ℕ
  pub last_error_code : Option String
  pub last_error_message : Option String
  pub created_at : ℕ
  pub updated_at : ℕ

-- The statuses of generation_jobs and of queries.
pub data JobStatus : Type 0 where
  pending running completed succeeded failed : JobStatus

pub record Failure : Type 0 where
  pub code : String
  pub is_retryable : Bool
  pub public_message : String

pub record Job : Type 0 where
  pub id : ℕ
  pub status : JobStatus
  pub progress : ℕ
  pub current_step : String
  pub error_message : Option (String × String)

pub record Query : Type 0 where
  pub id : ℕ
  pub status : JobStatus

pub record Db : Type 0 where
  pub outbox : List Outbox
  pub jobs : List Job
  pub queries : List Query

pub record ClaimedReport : Type 0 where
  pub outbox_id : ℕ
  pub generation_job_id : ℕ
  pub query_id : ℕ
  pub claim_token : ℕ
  pub payload : Payload
  pub attempts : ℕ
  pub max_attempts : ℕ
  pub lease_expired : Bool

abbrev pub is_running : OutboxStatus → Bool
is_running OutboxStatus.running = true
is_running _ = false

abbrev pub is_completed : OutboxStatus → Bool
is_completed OutboxStatus.completed = true
is_completed _ = false

-- `status in ('pending', 'retryable')`
abbrev pub is_waiting : OutboxStatus → Bool
is_waiting OutboxStatus.pending = true
is_waiting OutboxStatus.retryable = true
is_waiting _ = false
