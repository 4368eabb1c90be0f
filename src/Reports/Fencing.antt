-- ===== src/Reports/Fencing.antt =====
-- Who may end a claim of the report queue (backend/app/report_worker.py): a claim's token fences off
-- every other worker.
use zouseeking.Reports.Taking.{Picks, claim_next-Picks}
use mathlib.Core.Path.{subst}
use zouseeking.Base.{
  ℕ, ◌≡◌, Bool, false, ◌&&◌, ◌||◌, Option, none, some, List, [], ◌∷◌, arith, nat_beq, nat_beq_iff,
  nat_eq, option_eq, ◌==◌, Option-cases, Bool-cases, inl, inr, refl, is_some, get_or, ap,
}
use zouseeking.Base.Table.{
  update_where, first_where, find, find-update_where, find-insert_row, update_where-none,
  first_where-find, first_where-meets,
}
use zouseeking.Reports.Data.{Payload, Outbox, Failure, Db, Job, Query, ClaimedReport, is_running}
use zouseeking.Reports.Queue.{
  claim_row, claim_candidate, claim_next, complete_claim, fail_claim, record_failure, requeue_row,
  new_row, enqueue_report_outbox, for_job, for_query, held_by, complete_row, fail_row,
  backoff_seconds, retries, stored_failure,
}
use zouseeking.Reports.Worker.{requeue_report}
use zouseeking.Reports.History.{
  Step, claims, completes, fails, enqueues, requeues, step, run, row_id, Valid, step-Valid,
  run-Valid,
}

-- Whether the row runs under the token `t`.
abbrev pub runs_under : ℕ → Option Outbox → Bool
runs_under t none = false
runs_under t (some r) = is_running r.status && (r.claim_token == some t)

abbrev pub held : ℕ → ℕ → Db → Bool
held i t s = runs_under t (find row_id i s.outbox)

-- Whether a statement draws the token `t`.
abbrev pub draws : ℕ → Step → Bool
draws t (claims now locked token) = nat_beq token t
draws t _ = false

unfoldable pub drawn_in : ℕ → List Step → Bool
drawn_in t [] = false
drawn_in t (c ∷ cs) = draws t c || drawn_in t cs

update_where-held :
    (t i : ℕ) (p : Outbox → Bool) (f : Outbox → Outbox) (rows : List Outbox)
    → ((r : Outbox) → (f r).id ≡ r.id)
    → ((r : Outbox) → runs_under t (some r) ≡ false → runs_under t (some (f r)) ≡ false)
    → runs_under t (find row_id i rows) ≡ false
    → runs_under t (find row_id i (update_where p f rows)) ≡ false
update_where-held t i p f rows same keeps h = elim (Option-cases (find row_id i rows)) [
  | inl absent ↦ rw (find-update_where row_id p f same i rows, absent) refl
  | inr (r, there) ↦ rw (find-update_where row_id p f same i rows, there) (ground (arith, keeps r))
]

claim_candidate-held :
    (t i now token : ℕ) (o : Option Outbox) (s : Db)
    → nat_beq token t ≡ false
    → held i t s ≡ false
    → held i t (claim_candidate now token o s).1 ≡ false
unfolding claim_candidate claim_row
claim_candidate-held t i now token none s ne h = h
claim_candidate-held t i now token (some c) s ne h =
    update_where-held t i (λ r. nat_beq r.id c.id) (claim_row now token) s.outbox (λ r. refl)
      (λ r unheld. ground arith) h

fail_claim-held :
    (t i now : ℕ) (retry : Bool) (c : ClaimedReport) (f : Failure) (s : Db)
    → held i t s ≡ false
    → held i t (fail_claim now retry c f s) ≡ false
unfolding fail_claim
fail_claim-held t i now retry c f s h =
    elim (Bool-cases (is_some (first_where (held_by c) s.outbox))) [
      | inl e ↦ rw e (
          update_where-held t i (held_by c) (fail_row now retry (backoff_seconds c.attempts) f)
            s.outbox (λ r. refl) (λ r unheld. ground arith) h)
      | inr e ↦ rw e h
    ]

enqueue_report_outbox-held :
    (t i now id job query : ℕ) (payload : Payload) (s : Db) (jobs : List Job) (queries : List Query)
    → held i t s ≡ false
    → held i t (
        get_or
          (enqueue_report_outbox now id job query payload
            (record s { jobs = jobs; queries = queries }))
          s)
      ≡ false
unfolding enqueue_report_outbox requeue_row new_row
enqueue_report_outbox-held t i now id job query payload s jobs queries h =
    elim (Bool-cases (is_some (first_where (for_job job) s.outbox))) [
      | inl e ↦ rw e (
          update_where-held t i (for_job job) (requeue_row now payload) s.outbox (λ r. refl)
            (λ r unheld. ground arith) h)
      | inr e ↦ rw e (elim (Option-cases (find row_id id s.outbox)) [
        | inr (o, taken) ↦ rw taken h
        | inl free ↦ rw free (elim (Bool-cases (is_some (first_where (for_query query) s.outbox))) [
          | inl taken ↦ rw taken h
          | inr fresh ↦
              rw (fresh, find-insert_row row_id i (new_row now id job query payload) s.outbox free)
                (ground arith)
        ])
      ])
    ]

step-held :
    (t i : ℕ) (c : Step) (s : Db)
    → draws t c ≡ false
    → held i t s ≡ false
    → held i t (step c s) ≡ false
unfolding step claim_next record_failure requeue_report complete_claim
step-held t i (claims now locked token) s ne h = claim_candidate-held t i now token _ s ne h
step-held t i (completes now c) s ne h =
    update_where-held t i (held_by c) (complete_row now) s.outbox (λ r. refl)
      (λ r unheld. ground arith) h
step-held t i (fails now c f) s ne h =
    fail_claim-held t i now (retries c f) c (stored_failure c f) s h
step-held t i (enqueues now id job query payload) s ne h =
    enqueue_report_outbox-held t i now id job query payload s s.jobs s.queries h
step-held t i (requeues now id job query payload) s ne h =
    enqueue_report_outbox-held t i now id job query payload s _ _ h

run-held :
    (t i : ℕ) (cs : List Step) (s : Db)
    → drawn_in t cs ≡ false
    → held i t s ≡ false
    → held i t (run cs s) ≡ false
unfolding run drawn_in
run-held t i [] s ne h = h
run-held t i (c ∷ cs) s ne h = elim (Bool-cases (draws t c)) [
  | inl drawn ↦ ground arith
  | inr other ↦ run-held t i cs (step c s) (ground arith) (step-held t i c s other h)
]

unheld-none :
    (c : ClaimedReport) (s : Db)
    → Valid s
    → held c.outbox_id c.claim_token s ≡ false
    → first_where (held_by c) s.outbox ≡ none
unfolding held_by
unheld-none c s v h = elim (Option-cases (first_where (held_by c) s.outbox)) [
  | inl e ↦ e
  | inr (r, e) ↦ ground (
    arith,
    first_where-meets (held_by c) s.outbox r e,
    ap (λ i. find row_id i s.outbox)
        ((nat_beq_iff r.id c.outbox_id).0
          (ground (arith, first_where-meets (held_by c) s.outbox r e))),
    first_where-find row_id (held_by c) s.outbox r v.keyed e,
  )
]

-- What is left of a claim whose row no longer runs under its token: it can neither complete the row
-- nor fail it.
unfoldable pub Fenced : ClaimedReport → Db → Type 0
Fenced c s =
    (now : ℕ)
    → (complete_claim now c s ≡ (false, s)) × ((f : Failure) → (record_failure now c f s).1 ≡ s)

pub unheld-Fenced :
    (c : ClaimedReport) (s : Db) → Valid s → held c.outbox_id c.claim_token s ≡ false → Fenced c s
unfolding Fenced complete_claim record_failure fail_claim
unheld-Fenced c s v h now =
    let gone = unheld-none c s v h in
    (
      rw (update_where-none (held_by c) (complete_row now) s.outbox gone, gone) refl,
      λ f. rw gone refl,
    )

claims-Valid :
    (now : ℕ) (locked : ℕ → Bool) (token : ℕ) (s : Db)
    → Valid s
    → Valid (claim_next now locked token s).1
unfolding step
claims-Valid now locked token s v = step-Valid (claims now locked token) s v

taken-held :
    (old new : ClaimedReport) (now : ℕ) (locked : ℕ → Bool) (token : ℕ) (s t : Db)
    → old.outbox_id ≡ new.outbox_id
    → nat_beq token old.claim_token ≡ false
    → Picks now locked token s (some new, t)
    → held old.outbox_id old.claim_token t ≡ false
unfolding Picks claim_row
taken-held old new now locked token s t same fresh (r, _, _, taken, _, _, _) =
    rw (same, taken) (ground arith)

-- After a row is claimed again, the worker that held it before can do nothing to it: whatever
-- statements follow, as long as none draws the old token, its completion updates no row and its
-- failure changes nothing in the database.
pub reclaimed-Fenced :
    (old new : ClaimedReport) (now : ℕ) (locked : ℕ → Bool) (token : ℕ) (s t : Db) (cs : List Step)
    → Valid s
    → claim_next now locked token s ≡ (some new, t)
    → old.outbox_id ≡ new.outbox_id
    → nat_beq token old.claim_token ≡ false
    → drawn_in old.claim_token cs ≡ false
    → Fenced old (run cs t)
reclaimed-Fenced old new now locked token s t cs v e same fresh undrawn =
    unheld-Fenced old (run cs t)
      (run-Valid cs t (subst (λ m. Valid m.1) e (claims-Valid now locked token s v)))
      (run-held old.claim_token old.outbox_id cs t undrawn (
        taken-held old new now locked token s t same fresh
          (subst (Picks now locked token s) e (claim_next-Picks now locked token s v))))
