-- ===== src/Reports/Tests.antt =====
-- The theorems of the report modules at concrete inputs, and runs.
use zouseeking.Base.{Bool, ℕ, ◌+◌, ◌≤◌, ◌≡◌, refl, true, false, none, some, [], ◌∷◌, List, arith}
use zouseeking.Base.Table.{find, Distinct, update_where, first_where, insert_row, least_where}
use zouseeking.Reports.Data.{Payload, JobStatus, Failure, Db, ClaimedReport}
use zouseeking.Reports.Queue.{
  lease_over, claimable, older, claim_row, claim_candidate, claim_next, held_by, complete_claim,
  backoff_at, backoff_seconds, retries, stored_failure, fail_claim, record_failure, requeue_row,
  new_row, enqueue_report_outbox,
}
use zouseeking.Reports.Worker.{
  Generated, WorkerError, classify_failure, finish, process_claim, process_once, requeue_report,
  is_ended,
}
use zouseeking.Reports.History.{Step, step, run, Valid, run-Valid}
use zouseeking.Reports.Attempts.{claims_of, claims_of-le}
use zouseeking.Reports.Taking.{Takes, claim_next-Takes}
use zouseeking.Reports.Fencing.{Fenced, reclaimed-Fenced, drawn_in}
use zouseeking.Reports.Failing.{Fails, record_failure-Fails}
use zouseeking.Reports.Passing.{Ended, process_once-Ended}

-- Names what a run of the queue unfolds.
machine : Unit {0}
unfolding step run claim_next claim_candidate claim_row claimable lease_over older held_by
    complete_claim backoff_at backoff_seconds retries stored_failure fail_claim record_failure
    requeue_row new_row enqueue_report_outbox requeue_report is_ended classify_failure finish
    process_claim process_once find update_where first_where insert_row least_where drawn_in
    claims_of
machine = tt

abbrev payload : Payload
payload = record {
  owner_user_id = 7;
  prefecture = "東京都";
  city = "港区";
  ward = some "";
  asset_type = "塔楼";
  year = 2026;
  month = 9;
  username = none;
}

abbrev empty : Db
empty = record {
  outbox = [];
  jobs =
      record {
        id = 10;
        status = JobStatus.pending;
        progress = 5;
        current_step = "";
        error_message = none;
      }
      ∷ [];
  queries = record { id = 20; status = JobStatus.pending } ∷ [];
}

empty-Valid : Valid empty
unfolding find Distinct
empty-Valid = record { keyed = tt; sound = λ i r h. ground arith }

abbrev unlocked : ℕ → Bool
unlocked i = false

-- One report, enqueued at second 100.
abbrev queued : Db
queued = run (Step.enqueues 100 1 10 20 payload ∷ []) empty

queued-Valid : Valid queued
queued-Valid = run-Valid (Step.enqueues 100 1 10 20 payload ∷ []) empty empty-Valid

run-Valid_example :
    Valid (run (Step.claims 200 unlocked 500 ∷ Step.requeues 300 2 10 20 payload ∷ []) queued)
run-Valid_example =
    run-Valid (Step.claims 200 unlocked 500 ∷ Step.requeues 300 2 10 20 payload ∷ []) queued
      queued-Valid

-- Three claims by workers that die, a requeue, and a claim that finds nothing.
abbrev dying : List Step
dying =
    Step.claims 200 unlocked 501
    ∷ Step.claims 2000 unlocked 502
    ∷ Step.claims 4000 unlocked 503
    ∷ Step.requeues 6000 2 10 20 payload
    ∷ Step.claims 7000 unlocked 504
    ∷ []

claims_of-dying : claims_of 1 dying queued ≡ 3
unfolding machine
claims_of-dying = refl

claims_of-le_example : 0 + claims_of 1 dying queued ≤ 3
unfolding machine
claims_of-le_example = claims_of-le dying 1 queued (new_row 100 1 10 20 payload) queued-Valid refl

claim_next-Takes_example : Takes 200 unlocked 500 queued (claim_next 200 unlocked 500 queued)
claim_next-Takes_example = claim_next-Takes 200 unlocked 500 queued queued-Valid

abbrev claim : ℕ → ℕ → Bool → ClaimedReport
claim token attempts lease_expired = record {
  outbox_id = 1;
  generation_job_id = 10;
  query_id = 20;
  claim_token = token;
  payload = payload;
  attempts = attempts;
  max_attempts = 3;
  lease_expired = lease_expired;
}

abbrev running : Db
running = run (Step.claims 200 unlocked 501 ∷ []) queued

running-Valid : Valid running
running-Valid = run-Valid (Step.claims 200 unlocked 501 ∷ []) queued queued-Valid

reclaim :
    claim_next 2000 unlocked 502 running
    ≡ (some (claim 502 2 true), (claim_next 2000 unlocked 502 running).1)
unfolding machine
reclaim = refl

reclaimed-Fenced_example :
    Fenced
      (claim 501 1 false)
      (run (Step.completes 2100 (claim 502 2 true) ∷ []) (claim_next 2000 unlocked 502 running).1)
unfolding drawn_in
reclaimed-Fenced_example =
    reclaimed-Fenced (claim 501 1 false) (claim 502 2 true) 2000 unlocked 502 running
      (claim_next 2000 unlocked 502 running).1 (Step.completes 2100 (claim 502 2 true) ∷ [])
      running-Valid reclaim refl refl refl

abbrev timeout : Failure
timeout = record { code = "dependency_timeout"; is_retryable = true; public_message = "" }

record_failure-Fails_example :
    Fails 300
      (claim 501 1 false)
      timeout
      (claim_row 200 501 (new_row 100 1 10 20 payload))
      running
      (record_failure 300 (claim 501 1 false) timeout running)
unfolding machine
record_failure-Fails_example =
    record_failure-Fails 300 (claim 501 1 false) timeout
      (claim_row 200 501 (new_row 100 1 10 20 payload)) running (refl, refl)

-- A generation that always times out.
abbrev generate : ClaimedReport → Db → Generated × Db
generate c s = (Generated.failed_with WorkerError.timeout_error, s)

abbrev accepts : Payload → Bool
accepts p = true

process_once-Ended_example :
    Ended accepts generate
      (claim_next 200 unlocked 500 queued)
      (process_once 200 260 unlocked 500 accepts generate queued)
process_once-Ended_example = process_once-Ended 200 260 unlocked 500 accepts generate queued
