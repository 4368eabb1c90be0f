-- ===== src/Reports/Queue.antt =====
-- The statements of the report queue (backend/app/report_worker.py): enqueue, claim, complete, fail.
use zouseeking.Base.{
  ℕ, zero, suc, ◌+◌, ◌-◌, Bool, false, not, ◌&&◌, ◌||◌, Option, none, some, ltb, leb, nat_beq, min,
  if◌then◌else◌, ◌==◌, nat_eq, option_eq, is_some,
}
use zouseeking.Base.Table.{update_where, first_where, insert_row, least_where, find}
use zouseeking.Reports.Data.{
  OutboxStatus, Payload, Outbox, JobStatus, Failure, Job, Query, Db, ClaimedReport, is_running,
  is_completed, is_waiting,
}

-- `claimed_at < now() - interval '15 minutes'`; a null compares as not true.
unfoldable pub lease_over : ℕ → Option ℕ → Bool
lease_over now none = false
lease_over now (some t) = ltb (t + 900) now

-- The condition of the candidate, on rows that no other transaction has locked.
unfoldable pub claimable : ℕ → (ℕ → Bool) → Outbox → Bool
unfolding lease_over
claimable now locked r =
    not (locked r.id)
    && (ltb r.attempts r.max_attempts
        && (is_waiting r.status && leb r.next_attempt_at now
            || is_running r.status && lease_over now r.claimed_at))

-- `order by created_at asc, id asc`
unfoldable pub older : Outbox → Outbox → Bool
older a b = ltb a.created_at b.created_at || nat_beq a.created_at b.created_at && ltb a.id b.id

-- The update of `claim_sql`, with the token of `gen_random_uuid()`.
unfoldable pub claim_row : ℕ → ℕ → Outbox → Outbox
claim_row now token r = record r {
  status = OutboxStatus.running;
  attempts = r.attempts + 1;
  claim_token = some token;
  claimed_at = some now;
  updated_at = now;
}

abbrev pub claim_of : OutboxStatus → ℕ → Outbox → ClaimedReport
claim_of previous_status token r = record {
  outbox_id = r.id;
  generation_job_id = r.generation_job_id;
  query_id = r.query_id;
  claim_token = token;
  payload = r.payload;
  attempts = r.attempts;
  max_attempts = r.max_attempts;
  lease_expired = is_running previous_status;
}

-- `claim_next` on the candidate that the subquery found.
unfoldable pub claim_candidate : ℕ → ℕ → Option Outbox → Db → Option ClaimedReport × Db
unfolding claim_row
claim_candidate now token none s = (none, s)
claim_candidate now token (some c) s = (
  some (claim_of c.status token (claim_row now token c)),
  record s { outbox = update_where (λ r. nat_beq r.id c.id) (claim_row now token) s.outbox },
)

-- `claim_next` at the time `now`, drawing `token`, where other transactions hold `locked` rows.
unfoldable pub claim_next : ℕ → (ℕ → Bool) → ℕ → Db → Option ClaimedReport × Db
claim_next now locked token s =
    claim_candidate now token (least_where older (claimable now locked) s.outbox) s

-- `id=$1 and status='running' and claim_token=$2`
unfoldable pub held_by : ClaimedReport → Outbox → Bool
held_by c r =
    nat_beq r.id c.outbox_id && (is_running r.status && (r.claim_token == some c.claim_token))

abbrev pub complete_row : ℕ → Outbox → Outbox
complete_row now r = record r {
  status = OutboxStatus.completed;
  completed_at = some now;
  updated_at = now;
  last_error_code = none;
  last_error_message = none;
}

-- `complete_claim`: whether a row was updated.
unfoldable pub complete_claim : ℕ → ClaimedReport → Db → Bool × Db
complete_claim now c s = (
  is_some (first_where (held_by c) s.outbox),
  record s { outbox = update_where (held_by c) (complete_row now) s.outbox },
)

-- `BACKOFF_SECONDS`, indexed up to its last entry.
unfoldable pub backoff_at : ℕ → ℕ
backoff_at zero = 5
backoff_at (suc zero) = 30
backoff_at _ = 300

unfoldable pub backoff_seconds : ℕ → ℕ
unfolding backoff_at
backoff_seconds attempt = backoff_at (min (attempt - 1) 2)

-- `retry`
unfoldable pub retries : ClaimedReport → Failure → Bool
retries c f = f.is_retryable && ltb c.attempts c.max_attempts

-- The failure that is stored: a final one of an expired lease is reported as such.
unfoldable pub stored_failure : ClaimedReport → Failure → Failure
stored_failure c f =
    if c.lease_expired && not (retries c f)
    then record {
      code = "worker_lease_expired";
      is_retryable = false;
      public_message = "报告生成任务租约已过期，已停止重试。";
    }
    else f

abbrev pub fail_row : ℕ → Bool → ℕ → Failure → Outbox → Outbox
fail_row now retry delay f r = record r {
  status = if retry then OutboxStatus.retryable else OutboxStatus.failed;
  next_attempt_at = if retry then now + delay else now;
  last_error_code = some f.code;
  last_error_message = some f.public_message;
  updated_at = now;
}

abbrev pub fail_job : Bool → Failure → Job → Job
fail_job retry f j = record j {
  status = if retry then JobStatus.pending else JobStatus.failed;
  progress = if retry then 5 else 100;
  current_step = if retry then "任务已重新排队" else "失败";
  error_message = if retry then none else some (f.code, f.public_message);
}

abbrev pub fail_query : Bool → Query → Query
fail_query retry q = record q { status = if retry then JobStatus.pending else JobStatus.failed }

-- The transaction of `record_failure`.
unfoldable pub fail_claim : ℕ → Bool → ClaimedReport → Failure → Db → Db
unfolding backoff_seconds
fail_claim now retry c f s =
    if is_some (first_where (held_by c) s.outbox)
    then record {
      outbox =
          update_where (held_by c) (fail_row now retry (backoff_seconds c.attempts) f) s.outbox;
      jobs = update_where (λ j. nat_beq j.id c.generation_job_id) (fail_job retry f) s.jobs;
      queries = update_where (λ q. nat_beq q.id c.query_id) (fail_query retry) s.queries;
    }
    else s

-- `record_failure`: the status that it answers, and the database after it.
unfoldable pub record_failure : ℕ → ClaimedReport → Failure → Db → OutboxStatus × Db
record_failure now c f s = (
  if retries c f then OutboxStatus.retryable else OutboxStatus.failed,
  fail_claim now (retries c f) c (stored_failure c f) s,
)

-- What `on conflict (generation_job_id) do update` sets.
unfoldable pub requeue_row : ℕ → Payload → Outbox → Outbox
requeue_row now payload r = record r {
  status = if is_completed r.status then OutboxStatus.completed else OutboxStatus.pending;
  payload = payload;
  next_attempt_at = now;
  claim_token = none;
  claimed_at = none;
  last_error_code = none;
  last_error_message = none;
  updated_at = now;
}

-- A new row, with the defaults of the table.
unfoldable pub new_row : ℕ → ℕ → ℕ → ℕ → Payload → Outbox
new_row now id job query payload = record {
  id = id;
  generation_job_id = job;
  query_id = query;
  payload = payload;
  status = OutboxStatus.pending;
  attempts = 0;
  max_attempts = 3;
  next_attempt_at = now;
  claim_token = none;
  claimed_at = none;
  completed_at = none;
  last_error_code = none;
  last_error_message = none;
  created_at = now;
  updated_at = now;
}

abbrev pub for_job : ℕ → Outbox → Bool
for_job job r = nat_beq r.generation_job_id job

-- `idempotency_key` is `report:` and the query's id, and unique.
abbrev pub for_query : ℕ → Outbox → Bool
for_query query r = nat_beq r.query_id query

-- `enqueue_report_outbox`, with the id that the table draws for a new row. A primary key or an
-- idempotency key that the table has already raises, and nothing is written.
unfoldable pub enqueue_report_outbox : ℕ → ℕ → ℕ → ℕ → Payload → Db → Option Db
enqueue_report_outbox now id job query payload s =
    if is_some (first_where (for_job job) s.outbox)
    then some (record s { outbox = update_where (for_job job) (requeue_row now payload) s.outbox })
    else if is_some (find (λ r. r.id) id s.outbox)
        || is_some (first_where (for_query query) s.outbox)
    then none
    else some (record s { outbox = insert_row (new_row now id job query payload) s.outbox })
