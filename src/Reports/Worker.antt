-- ===== src/Reports/Worker.antt =====
-- A pass of the report worker (backend/app/report_worker.py) and the requeue of a report
-- (backend/app/main.py).
use zouseeking.Base.{
  ℕ, Bool, true, false, ◌&&◌, Option, none, some, String, nat_beq, if◌then◌else◌, ◌==◌, string_eq,
  option_eq,
}
use zouseeking.Base.Table.{update_where}
use zouseeking.Reports.Data.{
  OutboxStatus, Payload, JobStatus, Failure, Job, Query, Db, ClaimedReport,
}
use zouseeking.Reports.Queue.{claim_next, complete_claim, record_failure, enqueue_report_outbox}

-- The exceptions that `classify_failure` tells apart, and the `code` of any other.
pub data WorkerError : Type 0 where
  timeout_error os_error postgres_connection_error : WorkerError
  other_error : Option String → WorkerError

unfoldable pub classify_failure : WorkerError → Failure
classify_failure (other_error code) =
    if code == some "market_source_unavailable"
    then record {
      code = "market_source_unavailable";
      is_retryable = true;
      public_message = "市场数据源暂时不可用，请稍后重试。";
    }
    else record {
      code = "report_generation_failed";
      is_retryable = false;
      public_message = "报告生成失败，请稍后重试。";
    }
classify_failure _ = record {
  code = "dependency_timeout";
  is_retryable = true;
  public_message = "报告生成依赖暂时不可用，请稍后重试。";
}

-- The answer of `process_once`.
pub record Processed : Type 0 where
  pub job_id : ℕ
  pub status : OutboxStatus
  pub code : Option String

-- `process_once` from the end of the report's generation, with what that raised.
unfoldable pub finish : ℕ → ClaimedReport → Option WorkerError × Db → Processed × Db
finish now c (none, s) = (
  record { job_id = c.generation_job_id; status = OutboxStatus.completed; code = none },
  (complete_claim now c s).1,
)
finish now c (some e, s) = (
  record {
    job_id = c.generation_job_id;
    status = (record_failure now c (classify_failure e) s).0;
    code = some (classify_failure e).code;
  },
  (record_failure now c (classify_failure e) s).1,
)

-- How `run_generation_job` ends: it returns, raises an exception, or is cancelled, which
-- `except Exception` does not catch.
pub data Generated : Type 0 where
  returned cancelled : Generated
  failed_with : WorkerError → Generated

-- How a pass ends: nothing was due, an answer, or an exception that leaves the pass.
pub data Pass : Type 0 where
  idle left_by_exception : Pass
  answered : Processed → Pass

abbrev pub answer_with : Processed × Db → Pass × Db
answer_with (p, s) = (answered p, s)

abbrev pub end_generation : ℕ → ClaimedReport → Generated × Db → Pass × Db
end_generation now c (returned, s) = answer_with (finish now c (none, s))
end_generation now c (failed_with e, s) = answer_with (finish now c (some e, s))
end_generation now c (cancelled, s) = (left_by_exception, s)

-- The pass behind the claim. `accepts` is whether `QueryRequest` takes the payload; its refusal is
-- raised before the `try`.
unfoldable pub process_claim :
    ℕ
    → (Payload → Bool)
    → (ClaimedReport → Db → Generated × Db)
    → Option ClaimedReport × Db
    → Pass × Db
unfolding finish
process_claim now accepts generate (none, s) = (idle, s)
process_claim now accepts generate (some c, s) =
    if accepts c.payload then end_generation now c (generate c s) else (left_by_exception, s)

-- `process_once`: claimed at `now`, ended at `later`. `generate` stands for `run_generation_job`: how it
-- ended, and the database after it and after what other workers have done meanwhile.
unfoldable pub process_once :
    ℕ
    → ℕ
    → (ℕ → Bool)
    → ℕ
    → (Payload → Bool)
    → (ClaimedReport → Db → Generated × Db)
    → Db
    → Pass × Db
process_once now later locked token accepts generate s =
    process_claim later accepts generate (claim_next now locked token s)

pub data Action : Type 0 where
  cache wait requeue : Action

unfoldable pub is_ended : JobStatus → Bool
is_ended JobStatus.failed = true
is_ended JobStatus.completed = true
is_ended JobStatus.succeeded = true
is_ended _ = false

abbrev pub is_done : Option JobStatus → Bool
is_done (some JobStatus.completed) = true
is_done (some JobStatus.succeeded) = true
is_done _ = false

abbrev pub by_job_status : Option JobStatus → Action
by_job_status (some JobStatus.failed) = requeue
by_job_status (some JobStatus.completed) = requeue
by_job_status (some JobStatus.succeeded) = requeue
by_job_status _ = wait

-- `cached_report_action`
unfoldable pub cached_report_action : Option JobStatus → Option String → Action
cached_report_action job_status report_status =
    if report_status == some "full_report"
    then cache
    else if report_status == some "insufficient_data"
    then (if is_done job_status then cache else by_job_status job_status)
    else by_job_status job_status

abbrev pub requeue_job : Job → Job
requeue_job j = record j {
  status = JobStatus.pending;
  progress = 5;
  current_step = "任务已重新排队";
  error_message = none;
}

abbrev pub requeue_query : Query → Query
requeue_query q = record q { status = JobStatus.pending }

-- The `requeue` branch of `create_or_get_query_job`.
unfoldable pub requeue_report : ℕ → ℕ → ℕ → ℕ → Payload → Db → Option Db
unfolding is_ended
requeue_report now id job query payload s =
    enqueue_report_outbox now id job query payload (record s {
      jobs = update_where (λ j. nat_beq j.id job && is_ended j.status) requeue_job s.jobs;
      queries = update_where (λ q. nat_beq q.id query) requeue_query s.queries;
    })
