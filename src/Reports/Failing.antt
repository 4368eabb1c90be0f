-- ===== src/Reports/Failing.antt =====
-- How a failure of a report is recorded (backend/app/report_worker.py), and when it is tried again.
use zouseeking.Base.{
  ℕ, ◌+◌, ◌≡◌, true, ◌&&◌, some, arith, nat_beq, ltb, nat_eq, option_eq, Option-cases, inl, inr,
  refl, is_some, if◌then◌else◌,
}
use zouseeking.Base.Table.{first_where, find, find-key, find-update_where, first_where-absent}
use zouseeking.Reports.Data.{
  OutboxStatus, Outbox, JobStatus, Failure, Db, Job, Query, ClaimedReport,
}
use zouseeking.Reports.Queue.{
  fail_claim, record_failure, held_by, fail_row, fail_job, fail_query, backoff_seconds, backoff_at,
  retries, stored_failure,
}
use zouseeking.Reports.History.{row_id}

-- The row as the claim left it: running under the claim's token.
abbrev pub IsHeld : ClaimedReport → Outbox → Db → Type 0
IsHeld c r s = (find row_id c.outbox_id s.outbox ≡ some r) × (held_by c r ≡ true)

held-found :
    (c : ClaimedReport) (r : Outbox) (s : Db)
    → IsHeld c r s
    → is_some (first_where (held_by c) s.outbox) ≡ true
held-found c r s (found, held) = elim (Option-cases (first_where (held_by c) s.outbox)) [
  | inl e ↦ ground (arith, first_where-absent row_id (held_by c) c.outbox_id s.outbox r e found)
  | inr (o, e) ↦ rw e refl
]

-- What `record_failure` writes for a held row: a failure that may be retried, with attempts left,
-- puts row, job and query back in the queue and the row off until the backoff is over; any other
-- ends all three.
unfoldable pub Fails : ℕ → ClaimedReport → Failure → Outbox → Db → OutboxStatus × Db → Type 0
Fails now c f r s (status, t) =
    (status ≡ (
      if f.is_retryable && ltb c.attempts c.max_attempts
      then OutboxStatus.retryable
      else OutboxStatus.failed))
    × ((o : Outbox) × (find row_id c.outbox_id t.outbox ≡ some o)
        × (o.status ≡ status)
        × (o.attempts ≡ r.attempts)
        × (f.is_retryable && ltb c.attempts c.max_attempts ≡ true
            → o.next_attempt_at
              ≡ now + (if ltb c.attempts 2 then 5 else if nat_beq c.attempts 2 then 30 else 300)))
    × ((j : Job)
        → find (λ j. j.id) c.generation_job_id s.jobs ≡ some j
        → (k : Job) × (find (λ j. j.id) c.generation_job_id t.jobs ≡ some k)
          × (k.status ≡ (
              if f.is_retryable && ltb c.attempts c.max_attempts
              then JobStatus.pending
              else JobStatus.failed)))
    × ((q : Query)
        → find (λ q. q.id) c.query_id s.queries ≡ some q
        → find (λ q. q.id) c.query_id t.queries
          ≡ some (record q {
            status =
                if f.is_retryable && ltb c.attempts c.max_attempts
                then JobStatus.pending
                else JobStatus.failed;
          }))

-- While the row runs under the claim's token, a failure is recorded in its outbox row, its job and
-- its query alike: back in the queue after 5, 30 or 300 seconds if it may be retried and attempts
-- are left, and failed otherwise.
pub record_failure-Fails :
    (now : ℕ) (c : ClaimedReport) (f : Failure) (r : Outbox) (s : Db)
    → IsHeld c r s
    → Fails now c f r s (record_failure now c f s)
unfolding Fails record_failure fail_claim retries backoff_seconds backoff_at
record_failure-Fails now c f r s (found, held) =
    let retry = f.is_retryable && ltb c.attempts c.max_attempts in
    let row = fail_row now retry (backoff_seconds c.attempts) (stored_failure c f) in
    rw (held-found c r s (found, held)) (
      refl,
      (
        row r,
        (rw (find-update_where row_id (held_by c) row (λ r. refl) c.outbox_id s.outbox, found, held)
            refl),
        refl,
        refl,
        λ h. ground arith,
      ),
      (λ j there. (
        fail_job retry (stored_failure c f) j,
        ground (
          arith,
          find-key (λ j. j.id) c.generation_job_id s.jobs j there,
          find-update_where (λ j. j.id) (λ j. nat_beq j.id c.generation_job_id)
              (fail_job retry (stored_failure c f)) (λ j. refl) c.generation_job_id s.jobs,
        ),
        refl,
      )),
      (λ q there. ground (
        arith,
        find-key (λ q. q.id) c.query_id s.queries q there,
        find-update_where (λ q. q.id) (λ q. nat_beq q.id c.query_id) (fail_query retry) (λ q. refl)
            c.query_id s.queries,
      )),
    )
