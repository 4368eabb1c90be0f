-- ===== src/Reports/Attempts.antt =====
-- How often the queue (backend/app/report_worker.py) hands out a row, over any history.
use zouseeking.Base.{
  ℕ, ◌+◌, ◌≤◌, ◌≡◌, Bool, true, false, Option, none, some, List, [], ◌∷◌, arith, nat_beq,
  Option-cases, Bool-cases, inl, inr, refl, is_some, get_or, if◌then◌else◌,
}
use zouseeking.Base.Table.{
  update_where, first_where, find, find-key, find-update_where, find-insert_row,
}
use zouseeking.Reports.Data.{Payload, Outbox, Failure, Db, Job, Query, ClaimedReport}
use zouseeking.Reports.Queue.{
  claim_row, claim_candidate, claim_next, complete_claim, fail_claim, record_failure, requeue_row,
  new_row, enqueue_report_outbox, for_job, held_by, complete_row, fail_row, backoff_seconds,
  retries, stored_failure,
}
use zouseeking.Reports.Worker.{requeue_report}
use zouseeking.Reports.History.{
  Step, claims, completes, fails, enqueues, requeues, step, run, row_id, Valid, run-Valid, IsSound,
}

-- Whether a claim handed out the row `i`, as a number.
abbrev pub hands_out : ℕ → Option ClaimedReport → ℕ
hands_out i none = 0
hands_out i (some c) = if nat_beq c.outbox_id i then 1 else 0

-- The number of times that a history claims the row `i`.
abbrev pub claims_in : ℕ → Step → Db → ℕ
claims_in i (claims now locked token) s = hands_out i (claim_next now locked token s).0
claims_in i _ s = 0

unfoldable pub claims_of : ℕ → List Step → Db → ℕ
claims_of i [] s = 0
claims_of i (c ∷ cs) s = claims_in i c s + claims_of i cs (step c s)

-- The row is still there, `n` attempts later and with the same maximum.
unfoldable pub After : ℕ → Outbox → Option Outbox → Type 0
After n r none = true ≡ false
After n r (some t) = (t.attempts ≡ r.attempts + n) × (t.max_attempts ≡ r.max_attempts)

update_where-After :
    (p : Outbox → Bool) (f : Outbox → Outbox) (i : ℕ) (rows : List Outbox) (r : Outbox)
    → ((r : Outbox) → (f r).id ≡ r.id)
    → ((r : Outbox) → (f r).attempts ≡ r.attempts)
    → ((r : Outbox) → (f r).max_attempts ≡ r.max_attempts)
    → find row_id i rows ≡ some r
    → After 0 r (find row_id i (update_where p f rows))
unfolding After
update_where-After p f i rows r same at most found =
    rw find-update_where (rw found (ground (arith, at r, most r)))

claim_candidate-After :
    (now : ℕ) (locked : ℕ → Bool) (token i : ℕ) (o : Option Outbox) (s : Db) (r : Outbox)
    → find row_id i s.outbox ≡ some r
    → After
        (hands_out i (claim_candidate now token o s).0)
        r
        (find row_id i (claim_candidate now token o s).1.outbox)
unfolding After claim_candidate claim_row
claim_candidate-After now locked token i none s r found = rw found (ground arith)
claim_candidate-After now locked token i (some c) s r found = ground (
  arith,
  find-update_where row_id (λ r. nat_beq r.id c.id) (claim_row now token) (λ r. refl) i s.outbox,
  find-key row_id i s.outbox r found,
)

complete_claim-After :
    (now i : ℕ) (c : ClaimedReport) (s : Db) (r : Outbox)
    → find row_id i s.outbox ≡ some r
    → After 0 r (find row_id i (complete_claim now c s).1.outbox)
unfolding complete_claim
complete_claim-After now i c s r found =
    update_where-After (held_by c) (complete_row now) i s.outbox r (λ r. refl) (λ r. refl)
      (λ r. refl) found

fail_claim-After :
    (now i : ℕ) (retry : Bool) (c : ClaimedReport) (f : Failure) (s : Db) (r : Outbox)
    → find row_id i s.outbox ≡ some r
    → After 0 r (find row_id i (fail_claim now retry c f s).outbox)
unfolding fail_claim After
fail_claim-After now i retry c f s r found =
    elim (Bool-cases (is_some (first_where (held_by c) s.outbox))) [
      | inl e ↦ rw e (
          update_where-After (held_by c) (fail_row now retry (backoff_seconds c.attempts) f) i
            s.outbox r (λ r. refl) (λ r. refl) (λ r. refl) found)
      | inr e ↦ rw (e, found) (ground arith)
    ]

enqueue_report_outbox-After :
    (now id job query i : ℕ) (payload : Payload) (s : Db) (jobs : List Job) (queries : List Query)
    (r : Outbox)
    → find row_id i s.outbox ≡ some r
    → After 0 r (
        find row_id i
          (get_or
            (enqueue_report_outbox now id job query payload
              (record s { jobs = jobs; queries = queries }))
            s).outbox)
unfolding enqueue_report_outbox After requeue_row new_row
enqueue_report_outbox-After now id job query i payload s jobs queries r found =
    elim (Bool-cases (is_some (first_where (for_job job) s.outbox))) [
      | inl e ↦ rw e (
          update_where-After (for_job job) (requeue_row now payload) i s.outbox r (λ r. refl)
            (λ r. refl) (λ r. refl) found)
      | inr e ↦
          rw e
            (ground (arith, find-insert_row row_id i (new_row now id job query payload) s.outbox))
    ]

step-After :
    (c : Step) (i : ℕ) (s : Db) (r : Outbox)
    → find row_id i s.outbox ≡ some r
    → After (claims_in i c s) r (find row_id i (step c s).outbox)
unfolding step claim_next record_failure requeue_report
step-After (claims now locked token) i s r found =
    claim_candidate-After now locked token i _ s r found
step-After (completes now c) i s r found = complete_claim-After now i c s r found
step-After (fails now c f) i s r found =
    fail_claim-After now i (retries c f) c (stored_failure c f) s r found
step-After (enqueues now id job query payload) i s r found =
    enqueue_report_outbox-After now id job query i payload s s.jobs s.queries r found
step-After (requeues now id job query payload) i s r found =
    enqueue_report_outbox-After now id job query i payload s _ _ r found

-- A row counts its claims: after any statements it is still there, its attempts have grown by the
-- number of times that it was claimed, and its maximum is as before.
pub run-After :
    (cs : List Step) (i : ℕ) (s : Db) (r : Outbox)
    → find row_id i s.outbox ≡ some r
    → After (claims_of i cs s) r (find row_id i (run cs s).outbox)
unfolding After claims_of run
run-After [] i s r found = rw found (ground arith)
run-After (c ∷ cs) i s r found = elim (Option-cases (find row_id i (step c s).outbox)) [
  | inl gone ↦ ground (arith, step-After c i s r found)
  | inr (t, kept) ↦ elim (Option-cases (find row_id i (run cs (step c s)).outbox)) [
    | inl gone ↦ ground (arith, run-After cs i (step c s) t kept)
    | inr (u, last) ↦
        rw last (ground (arith, step-After c i s r found, run-After cs i (step c s) t kept))
  ]
]

-- From a valid table, over any statements, requeues included, a row is claimed at most as often as
-- its maximum has attempts left.
pub claims_of-le :
    (cs : List Step) (i : ℕ) (s : Db) (r : Outbox)
    → Valid s
    → find row_id i s.outbox ≡ some r
    → r.attempts + claims_of i cs s ≤ r.max_attempts
unfolding After IsSound
claims_of-le cs i s r v found = elim (Option-cases (find row_id i (run cs s).outbox)) [
  | inl gone ↦ ground (arith, run-After cs i s r found)
  | inr (t, last) ↦ ground (arith, run-After cs i s r found, (run-Valid cs s v).sound i t last)
]
