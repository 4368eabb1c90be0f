-- ===== src/Collection/Recording.antt =====
-- What the worker records of a run (backend/app/collection/worker.py).
use mathlib.Core.Path.{subst}
use zouseeking.Base.{
  ap, ℕ, ◌≡◌, Bool, true, false, ◌&&◌, not, Option, none, some, arith, nat_beq, nat_beq_iff,
  is_some, refl, inl, inr, Bool-cases, Option-cases,
}
use zouseeking.Base.Table.{
  Distinct-update_where, first_where, insert_row, least_where, find, find-key, find-update_where,
  Distinct, first_where-find, first_where-meets, first_where-absent, least_where-find,
}
use zouseeking.Collection.Worker.{
  WorkRun, WorkDb, ClaimedRun, Finished, collected, run_error, Report, is_queued, is_running,
  created_before, start_run, with_id, claim_row_of, claim_next_run, runs_as, end_run, action_of,
  report_of, write_terminal_state, finish_run,
}

abbrev pub run_key : WorkRun → ℕ
run_key r = r.id

end_run-key : (now : ℕ) (f : Finished) (r : WorkRun) → (end_run now f r).id ≡ r.id
end_run-key now (collected o) r = refl
end_run-key now (run_error code message) r = refl

-- How the worker ends the run `r` that it has claimed. While the row still runs, it gets the end of
-- the runner, its audit row is written, and the report tells it. Once someone else has ended it,
-- as a cancellation does, nothing is written and the report says cancelled.
unfoldable pub Records : ℕ → ClaimedRun → Finished → WorkRun → WorkDb → Report × WorkDb → Type 0
Records now c f r s (report, t) =
    (is_running r.status ≡ true
      → (find run_key c.run_id t.runs ≡ some (end_run now f r))
        × (t.audits ≡ insert_row (record { action = action_of f; target_id = c.run_id }) s.audits)
        × (report ≡ report_of c f true))
    × (is_running r.status ≡ false → (t ≡ s) × (report ≡ report_of c f false))

running-found :
    (id : ℕ) (r : WorkRun) (s : WorkDb)
    → find run_key id s.runs ≡ some r
    → is_running r.status ≡ true
    → is_some (first_where (runs_as id) s.runs) ≡ true
running-found id r s there runs = elim (Option-cases (first_where (runs_as id) s.runs)) [
  | inl e ↦ ground (
    arith,
    first_where-absent run_key (runs_as id) id s.runs r e there,
    find-key run_key id s.runs r there,
    nat_beq_iff r.id id,
  )
  | inr (o, e) ↦ rw e refl
]

ended-none :
    (id : ℕ) (r : WorkRun) (s : WorkDb)
    → Distinct run_key s.runs
    → find run_key id s.runs ≡ some r
    → is_running r.status ≡ false
    → is_some (first_where (runs_as id) s.runs) ≡ false
ended-none id r s keyed there idle = elim (Option-cases (first_where (runs_as id) s.runs)) [
  | inl e ↦ rw e refl
  | inr (o, e) ↦
      let runs = first_where-meets (runs_as id) s.runs o e in
      ground (
        arith,
        runs,
        first_where-find run_key (runs_as id) s.runs o keyed e,
        ap (λ i. find run_key i s.runs) ((nat_beq_iff o.id id).0 (ground (arith, runs))),
        there,
      )
]

-- On a table with distinct ids, the worker records the end of its run exactly if the run is still
-- running.
pub finish_run-Records :
    (now : ℕ) (c : ClaimedRun) (f : Finished) (r : WorkRun) (s : WorkDb)
    → Distinct run_key s.runs
    → find run_key c.run_id s.runs ≡ some r
    → Records now c f r s (finish_run now c f s)
unfolding Records finish_run write_terminal_state
finish_run-Records now c f r s keyed there = (
  (λ runs. rw (running-found c.run_id r s there runs) (
    ground (
      arith,
      find-update_where run_key (runs_as c.run_id) (end_run now f) (end_run-key now f) c.run_id
          s.runs,
      there,
      runs,
      find-key run_key c.run_id s.runs r there,
      nat_beq_iff r.id c.run_id,
    ),
    refl,
    refl,
  )),
  (λ idle. rw (ended-none c.run_id r s keyed there idle) (refl, refl)),
)

-- The row that a claim leaves running, on a table whose ids stay distinct.
abbrev Started : Option ClaimedRun × WorkDb → Type 0
Started (none, t) = Unit
Started (some c, t) =
    Distinct run_key t.runs
    × (r : WorkRun) × (find run_key c.run_id t.runs ≡ some r)
    × (is_running r.status ≡ true)

claim_row_of-Started :
    (now : ℕ) (p : WorkRun → Bool) (o : Option WorkRun) (s : WorkDb)
    → Distinct run_key s.runs
    → least_where created_before p s.runs ≡ o
    → Started (claim_row_of now o s)
unfolding claim_row_of
claim_row_of-Started now p none s keyed e = tt
claim_row_of-Started now p (some r) s keyed e = (
  Distinct-update_where run_key (with_id r.id) (start_run now) (λ x. refl) s.runs keyed,
  start_run now r,
  ground (
    arith,
    least_where-find run_key created_before p s.runs r keyed e,
    find-update_where run_key (with_id r.id) (start_run now) (λ x. refl) r.id s.runs,
  ),
  refl,
)

-- A claim answers a row that was queued.
abbrev WasQueued : WorkDb → Option ClaimedRun × WorkDb → Type 0
WasQueued s (none, t) = Unit
WasQueued s (some c, t) =
    (r : WorkRun) × (find run_key c.run_id s.runs ≡ some r) × (is_queued r.status ≡ true)

claim_row_of-WasQueued :
    (now : ℕ) (locked : ℕ → Bool) (o : Option WorkRun) (s : WorkDb)
    → Distinct run_key s.runs
    → least_where created_before (λ r. not (locked r.id) && is_queued r.status) s.runs ≡ o
    → WasQueued s (claim_row_of now o s)
unfolding claim_row_of
claim_row_of-WasQueued now locked none s keyed e = tt
claim_row_of-WasQueued now locked (some r) s keyed e =
    let (there, due) =
      least_where-find run_key created_before (λ r. not (locked r.id) && is_queued r.status) s.runs
        r keyed e in
    (r, there, ground (arith, due))

running-queued :
    (i j : ℕ) (r q : WorkRun) (t : WorkDb)
    → find run_key i t.runs ≡ some r
    → is_running r.status ≡ true
    → find run_key j t.runs ≡ some q
    → is_queued q.status ≡ true
    → nat_beq i j ≡ false
running-queued i j r q t running is_on there is_off = elim (Bool-cases (nat_beq i j)) [
  | inr e ↦ e
  | inl e ↦ ground (
    arith,
    running,
    there,
    ap (λ k. find run_key k t.runs) ((nat_beq_iff i j).0 e),
    is_on,
    is_off,
  )
]

-- Two claims in a row never answer the same run, whenever they are made and whatever rows are locked.
pub claim_next_run-differs :
    (now later : ℕ) (locked unlocked : ℕ → Bool) (c d : ClaimedRun) (s t u : WorkDb)
    → Distinct run_key s.runs
    → claim_next_run now locked s ≡ (some c, t)
    → claim_next_run later unlocked t ≡ (some d, u)
    → nat_beq c.run_id d.run_id ≡ false
unfolding claim_next_run
claim_next_run-differs now later locked unlocked c d s t u keyed first second =
    let (kept, r, running, is_on) =
      subst Started first (claim_row_of-Started now _ _ s keyed refl) in
    let (q, there, is_off) =
      subst (WasQueued t) second (claim_row_of-WasQueued later unlocked _ t kept refl) in
    running-queued c.run_id d.run_id r q t running is_on there is_off
