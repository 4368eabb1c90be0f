-- ===== src/Reports/Passing.antt =====
-- How a pass of the report worker (backend/app/report_worker.py) ends.
use zouseeking.Base.{
  inl, inr, is_some, Bool-cases, ◌∙◌, ◌⊎◌, ℕ, ◌≡◌, Bool, true, false, ◌&&◌, Option, none, some,
  arith, nat_beq_iff, nat_eq, option_eq, refl, ◌==◌,
}
use zouseeking.Base.Table.{first_where, find, find-key, find-update_where}
use zouseeking.Reports.Data.{OutboxStatus, Payload, Outbox, Db, ClaimedReport, Failure, is_running}
use zouseeking.Reports.Queue.{
  stored_failure, backoff_seconds, retries, claim_next, complete_claim, record_failure, fail_claim,
  held_by, complete_row, fail_row,
}
use zouseeking.Reports.Worker.{
  end_generation, WorkerError, classify_failure, Processed, Generated, returned, cancelled,
  failed_with, Pass, idle, left_by_exception, answered, finish, process_claim, process_once,
}
use zouseeking.Reports.History.{row_id}
use zouseeking.Reports.Failing.{Fails, record_failure-Fails}

-- The row still runs under the claim.
abbrev pub still_owned : ClaimedReport → Outbox → Bool
still_owned c o = is_running o.status && (o.claim_token == some c.claim_token)

-- What an answer did to the row of the claim: while the claim owned it, the row has stopped running with
-- the answered status; otherwise it is as it was.
pub record Closes (c : ClaimedReport) (s : Db) (p : Processed) (t : Db) : Type 0 where
  pub job : p.job_id ≡ c.generation_job_id
  pub owned :
      (o : Outbox)
      → find row_id c.outbox_id s.outbox ≡ some o
      → still_owned c o ≡ true
      → (n : Outbox) × (find row_id c.outbox_id t.outbox ≡ some n)
        × (n.status ≡ p.status)
        × (is_running n.status ≡ false)
        × (n.attempts ≡ o.attempts)
  pub lost :
      (o : Outbox)
      → find row_id c.outbox_id s.outbox ≡ some o
      → still_owned c o ≡ false
      → find row_id c.outbox_id t.outbox ≡ some o

-- The statuses that an answer can have after a generation.
abbrev pub Answers : Generated → Processed → Type 0
Answers returned p = (p.status ≡ OutboxStatus.completed) × (p.code ≡ none)
Answers (failed_with e) p =
    ((p.status ≡ OutboxStatus.retryable) ⊎ (p.status ≡ OutboxStatus.failed))
    × (p.code ≡ some (classify_failure e).code)
Answers cancelled p = ⊥

-- How a pass ends after the claim `m`, and after the generation, if there was one.
unfoldable pub Ended :
    (Payload → Bool)
    → (ClaimedReport → Db → Generated × Db)
    → Option ClaimedReport × Db
    → Pass × Db
    → Type 0
Ended accepts generate (none, t) r = r ≡ (idle, t)
Ended accepts generate (some c, t) (idle, u) = ⊥
Ended accepts generate (some c, t) (left_by_exception, u) =
    ((accepts c.payload ≡ false) × (u ≡ t))
    ⊎ ((accepts c.payload ≡ true) × (generate c t ≡ (cancelled, u)))
Ended accepts generate (some c, t) (answered p, u) =
    (accepts c.payload ≡ true) × Answers (generate c t).0 p × Closes c (generate c t).1 p u

held-owned :
    (c : ClaimedReport) (o : Outbox) (s : Db)
    → find row_id c.outbox_id s.outbox ≡ some o
    → held_by c o ≡ still_owned c o
unfolding held_by
held-owned c o s there =
    ground (arith, find-key row_id c.outbox_id s.outbox o there, nat_beq_iff o.id c.outbox_id)

record_failure-lost :
    (now : ℕ) (c : ClaimedReport) (f : Failure) (o : Outbox) (s : Db)
    → find row_id c.outbox_id s.outbox ≡ some o
    → held_by c o ≡ false
    → find row_id c.outbox_id (record_failure now c f s).1.outbox ≡ some o
unfolding record_failure fail_claim
record_failure-lost now c f o s there loses =
    elim (Bool-cases (is_some (first_where (held_by c) s.outbox))) [
      | inr none_held ↦ rw none_held there
      | inl held ↦ rw held (
          rw
            (
              find-update_where row_id (held_by c)
                  (fail_row now (retries c f) (backoff_seconds c.attempts) (stored_failure c f))
                  (λ r. refl) c.outbox_id s.outbox,
              there,
              loses,
            )
            refl)
    ]

finish-Closes :
    (now : ℕ) (c : ClaimedReport) (s : Db) (raised : Option WorkerError)
    → Closes c s (finish now c (raised, s)).0 (finish now c (raised, s)).1
unfolding finish complete_claim Fails
finish-Closes now c s none =
    let at =
      find-update_where row_id (held_by c) (complete_row now) (λ r. refl) c.outbox_id s.outbox in
    record {
      job = refl;
      owned = λ o there owns.
          (complete_row now o, rw (at, there, held-owned c o s there, owns) refl, refl, refl, refl);
      lost = λ o there loses. rw (at, there, held-owned c o s there, loses) refl;
    }
finish-Closes now c s (some e) = record {
  job = refl;
  owned = λ o there owns.
      let (st, (n, at, status, attempts, _), _, _) =
        record_failure-Fails now c (classify_failure e) o s
          (there, held-owned c o s there ∙ owns) in
      (n, at, status, ground (arith, status, st), attempts);
  lost = λ o there loses.
      record_failure-lost now c (classify_failure e) o s there (held-owned c o s there ∙ loses);
}

end-Ended :
    (now : ℕ) (accepts : Payload → Bool) (generate : ClaimedReport → Db → Generated × Db)
    (c : ClaimedReport) (t : Db) (g : Generated × Db)
    → accepts c.payload ≡ true
    → generate c t ≡ g
    → Ended accepts generate (some c, t) (end_generation now c g)
unfolding Ended finish record_failure
end-Ended now accepts generate c t (returned, u) accepted ends_in =
    (accepted, rw ends_in (refl, refl), rw ends_in (finish-Closes now c u none))
end-Ended now accepts generate c t (failed_with e, u) accepted ends_in =
    (accepted, rw ends_in (ground arith, refl), rw ends_in (finish-Closes now c u (some e)))
end-Ended now accepts generate c t (cancelled, u) accepted ends_in = inr (accepted, ends_in)

claimed-Ended :
    (later : ℕ) (accepts : Payload → Bool) (generate : ClaimedReport → Db → Generated × Db)
    (m : Option ClaimedReport × Db)
    → Ended accepts generate m (process_claim later accepts generate m)
unfolding process_claim Ended
claimed-Ended later accepts generate (none, t) = refl
claimed-Ended later accepts generate (some c, t) = elim (Bool-cases (accepts c.payload)) [
  | inr refuses ↦ rw refuses (inl (refuses, refl))
  | inl takes ↦ rw takes (end-Ended later accepts generate c t (generate c t) takes refl)
]

-- A pass answers only if it claimed a row whose payload `QueryRequest` takes, and the generation returned
-- or raised an exception; the answer tells which. If the claim then still owns the row, the row has
-- stopped running with the answered status; if another worker or a requeue took it meanwhile, the answer
-- leaves the row alone. A refused payload or a cancellation leaves the pass by an exception and writes
-- nothing.
pub process_once-Ended :
    (now later : ℕ) (locked : ℕ → Bool) (token : ℕ) (accepts : Payload → Bool)
    (generate : ClaimedReport → Db → Generated × Db) (s : Db)
    → Ended accepts generate
        (claim_next now locked token s)
        (process_once now later locked token accepts generate s)
unfolding process_once
process_once-Ended now later locked token accepts generate s =
    claimed-Ended later accepts generate (claim_next now locked token s)
