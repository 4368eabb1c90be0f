-- ===== src/Reports/History.antt =====
-- Sequences of statements on the report queue (backend/app/report_worker.py), and the invariant of
-- its table.
use mathlib.Core.Path.{subst}
use zouseeking.Base.{
  false, nat_beq_iff, ap, ℕ, ◌≤◌, ◌≡◌, Bool, true, Option, none, some, List, [], ◌∷◌, arith,
  is_some, get_or, nat_beq, Option-cases, inl, inr, refl, Bool-cases,
}
use zouseeking.Base.Table.{
  find_self, find-insert_row, find-update_where, update_where, first_where, find, Distinct,
  Distinct-update_where, Distinct-insert_row, least_where, least_where-find,
}
use zouseeking.Reports.Data.{Query, Job, Payload, Outbox, Failure, Db, ClaimedReport, is_running}
use zouseeking.Reports.Queue.{
  claimable, older, claim_row, claim_candidate, claim_next, held_by, complete_claim, complete_row,
  fail_claim, record_failure, requeue_row, new_row, enqueue_report_outbox, for_job, for_query,
  fail_row, retries, stored_failure, backoff_seconds,
}
use zouseeking.Reports.Worker.{requeue_report}

-- A statement with the time it runs at and the numbers that it draws. A worker's claim may be held
-- through any statements of the others.
pub data Step : Type 0 where
  claims : ℕ → (ℕ → Bool) → ℕ → Step
  completes : ℕ → ClaimedReport → Step
  fails : ℕ → ClaimedReport → Failure → Step
  enqueues requeues : ℕ → ℕ → ℕ → ℕ → Payload → Step

unfoldable pub step : Step → Db → Db
step (claims now locked token) s = (claim_next now locked token s).1
step (completes now c) s = (complete_claim now c s).1
step (fails now c f) s = (record_failure now c f s).1
step (enqueues now id job query payload) s =
    get_or (enqueue_report_outbox now id job query payload s) s
step (requeues now id job query payload) s = get_or (requeue_report now id job query payload s) s

unfoldable pub run : List Step → Db → Db
unfolding step
run [] s = s
run (c ∷ cs) s = run cs (step c s)

abbrev pub row_id : Outbox → ℕ
row_id r = r.id

-- At most three attempts, and a row that runs has its token and the time of its claim.
unfoldable pub IsSound : Outbox → Type 0
IsSound r =
    (r.attempts ≤ r.max_attempts)
    × (r.max_attempts ≤ 3)
    × (is_running r.status ≡ true → (is_some r.claim_token ≡ true) × (is_some r.claimed_at ≡ true))

-- The ids are distinct and every row is sound.
pub record Valid (s : Db) : Type 0 where
  pub keyed : Distinct row_id s.outbox
  pub sound : (i : ℕ) (r : Outbox) → find row_id i s.outbox ≡ some r → IsSound r

-- An update that keeps the ids and turns sound rows into sound ones.
update_where-Valid :
    (p : Outbox → Bool) (f : Outbox → Outbox) (s : Db) (jobs : List Job) (queries : List Query)
    → ((r : Outbox) → (f r).id ≡ r.id)
    → ((r : Outbox) → find row_id r.id s.outbox ≡ some r → p r ≡ true → IsSound r → IsSound (f r))
    → Valid s
    → Valid (record { outbox = update_where p f s.outbox; jobs = jobs; queries = queries })
update_where-Valid p f s jobs queries same ok v = record {
  keyed = Distinct-update_where row_id p f same s.outbox v.keyed;
  sound = λ i r e. elim (Option-cases (find row_id i s.outbox)) [
    | inl absent ↦ ground (arith, find-update_where row_id p f same i s.outbox)
    | inr (o, found) ↦ elim (Bool-cases (p o)) [
      | inl meets ↦
          subst IsSound (updated_row p f s same i o r found meets e)
            (ok o (find_self row_id i s.outbox o found) meets (v.sound i o found))
      | inr misses ↦ subst IsSound (kept_row p f s same i o r found misses e) (v.sound i o found)
    ]
  ];
}
  where
    updated_row :
        (p : Outbox → Bool) (f : Outbox → Outbox) (s : Db) (same : (r : Outbox) → (f r).id ≡ r.id)
        (i : ℕ) (o r : Outbox)
        → find row_id i s.outbox ≡ some o
        → p o ≡ true
        → find row_id i (update_where p f s.outbox) ≡ some r
        → f o ≡ r
    updated_row p f s same i o r found meets e =
        ground (arith, find-update_where row_id p f same i s.outbox)

    kept_row :
        (p : Outbox → Bool) (f : Outbox → Outbox) (s : Db) (same : (r : Outbox) → (f r).id ≡ r.id)
        (i : ℕ) (o r : Outbox)
        → find row_id i s.outbox ≡ some o
        → p o ≡ false
        → find row_id i (update_where p f s.outbox) ≡ some r
        → o ≡ r
    kept_row p f s same i o r found misses e =
        ground (arith, find-update_where row_id p f same i s.outbox)

claim_row-id : (now token : ℕ) (r : Outbox) → (claim_row now token r).id ≡ r.id
unfolding claim_row
claim_row-id now token r = refl

claim_row-IsSound :
    (now token : ℕ) (locked : ℕ → Bool) (c r : Outbox) (s : Db)
    → (find row_id c.id s.outbox ≡ some c) × (claimable now locked c ≡ true)
    → find row_id r.id s.outbox ≡ some r
    → nat_beq r.id c.id ≡ true
    → IsSound r
    → IsSound (claim_row now token r)
unfolding claim_row IsSound claimable
claim_row-IsSound now token locked c r s h found at sound =
    ground (arith, ap (λ i. find row_id i s.outbox) ((nat_beq_iff r.id c.id).0 at))

claim_candidate-Valid :
    (now : ℕ) (locked : ℕ → Bool) (token : ℕ) (o : Option Outbox) (s : Db)
    → least_where older (claimable now locked) s.outbox ≡ o
    → Valid s
    → Valid (claim_candidate now token o s).1
unfolding claim_candidate
claim_candidate-Valid now locked token none s e v = v
claim_candidate-Valid now locked token (some c) s e v =
    update_where-Valid (λ r. nat_beq r.id c.id) (claim_row now token) s s.jobs s.queries
      (claim_row-id now token)
      (λ r found at sound.
        claim_row-IsSound now token locked c r s
          (least_where-find row_id older (claimable now locked) s.outbox c v.keyed e) found at
          sound)
      v

complete_claim-Valid :
    (now : ℕ) (c : ClaimedReport) (s : Db) → Valid s → Valid (complete_claim now c s).1
unfolding complete_claim IsSound
complete_claim-Valid now c s v =
    update_where-Valid (held_by c) (complete_row now) s s.jobs s.queries (λ r. refl)
      (λ r found at sound. ground arith) v

fail_claim-Valid :
    (now : ℕ) (retry : Bool) (c : ClaimedReport) (f : Failure) (s : Db)
    → Valid s
    → Valid (fail_claim now retry c f s)
unfolding fail_claim IsSound
fail_claim-Valid now retry c f s v =
    elim (Bool-cases (is_some (first_where (held_by c) s.outbox))) [
      | inl e ↦ rw e (
          update_where-Valid (held_by c) (fail_row now retry (backoff_seconds c.attempts) f) s _ _
            (λ r. refl) (λ r found at sound. ground arith) v)
      | inr e ↦ rw e v
    ]

enqueue_report_outbox-Valid :
    (now id job query : ℕ) (payload : Payload) (s : Db) (jobs : List Job) (queries : List Query)
    → Valid s
    → Valid (
        get_or
          (enqueue_report_outbox now id job query payload
            (record s { jobs = jobs; queries = queries }))
          s)
unfolding enqueue_report_outbox IsSound requeue_row new_row
enqueue_report_outbox-Valid now id job query payload s jobs queries v =
    elim (Bool-cases (is_some (first_where (for_job job) s.outbox))) [
      | inl e ↦ rw e (
          update_where-Valid (for_job job) (requeue_row now payload) s jobs queries (λ r. refl)
            (λ r found at sound. ground arith) v)
      | inr e ↦ rw e (elim (Option-cases (find row_id id s.outbox)) [
        | inr (o, taken) ↦ rw taken v
        | inl free ↦ rw free (elim (Bool-cases (is_some (first_where (for_query query) s.outbox))) [
          | inl taken ↦ rw taken v
          | inr fresh ↦ rw fresh (record {
            keyed =
                Distinct-insert_row row_id (new_row now id job query payload) s.outbox free v.keyed;
            sound = λ i r h. ground (
              arith,
              find-insert_row row_id i (new_row now id job query payload) s.outbox free,
              v.sound i r,
            );
          })
        ])
      ])
    ]

pub step-Valid : (c : Step) (s : Db) → Valid s → Valid (step c s)
unfolding step claim_next record_failure requeue_report
step-Valid (claims now locked token) s v = claim_candidate-Valid now locked token _ s refl v
step-Valid (completes now c) s v = complete_claim-Valid now c s v
step-Valid (fails now c f) s v = fail_claim-Valid now (retries c f) c (stored_failure c f) s v
step-Valid (enqueues now id job query payload) s v =
    enqueue_report_outbox-Valid now id job query payload s s.jobs s.queries v
step-Valid (requeues now id job query payload) s v =
    enqueue_report_outbox-Valid now id job query payload s _ _ v

-- After any statements on a table with distinct ids and sound rows, the ids are distinct, every row
-- has had at most its three attempts, and a row that runs has a token and a time of claim.
pub run-Valid : (cs : List Step) (s : Db) → Valid s → Valid (run cs s)
unfolding run
run-Valid [] s v = v
run-Valid (c ∷ cs) s v = run-Valid cs (step c s) (step-Valid c s v)
