-- ===== src/Collection/Tests.antt =====
-- The theorems of the collection modules at concrete inputs, and runs.
use zouseeking.Base.{
  nat_beq, ℕ, ◌+◌, ◌≤◌, ◌<◌, ◌≡◌, ◌⊎◌, refl, true, some, none, String, List, [], ◌∷◌, arith, Bool,
  false,
}
use zouseeking.Base.Table.{insert_row, find, Distinct, update_where, first_where, least_where}
use zouseeking.Collection.Worker.{
  report_of, WorkStatus, WorkRun, WorkDb, ClaimedRun, Finished, start_run, created_before,
  claim_row_of, claim_next_run, write_terminal_state, finish_run,
}
use zouseeking.Collection.Recording.{run_key, Records, finish_run-Records, claim_next_run-differs}
use zouseeking.Collection.Runs.{RunStatus, Run, has_run, has_inflight, last_terminal}
use zouseeking.Collection.Scheduler.{
  SchedulableSource, decide_idle, decide, decide_all, asks, fetch_state, plan_due, insert_due,
  feed_due,
}
use zouseeking.Collection.Feeding.{here, feed_due-Covers, feed_due-again}
use zouseeking.Collection.Single.{IsDistinct, inflight_count, feed_due-single}

-- Names what a feed unfolds.
machine : Unit {0}
unfolding decide_idle decide decide_all asks fetch_state plan_due insert_due feed_due has_run
    has_inflight last_terminal insert_row
machine = tt

-- Names what a round of the worker unfolds.
worker : Unit {0}
unfolding created_before claim_row_of claim_next_run write_terminal_state finish_run report_of find
    Distinct update_where first_where insert_row least_where
worker = tt

abbrev week : ℕ
week = 604800

abbrev minato : SchedulableSource
minato = record { source_key = "jphouse-23ku/minato"; cadence = week }

abbrev chuo : SchedulableSource
chuo = record { source_key = "jphouse-23ku/chuo"; cadence = week }

abbrev sources : List SchedulableSource
sources = minato ∷ chuo ∷ []

-- One source ended a day ago; the other has no run.
abbrev runs : List Run
runs =
    record {
      id = 1;
      source_key = "jphouse-23ku/minato";
      source_type = "aggregate_authorized";
      status = RunStatus.succeeded;
      operator_user_id = none;
      created_at = 1000000;
    }
    ∷ []

abbrev draw : ℕ → ℕ
draw n = 100 + n

abbrev fed : List Run
fed = (feed_due draw 1086400 "aggregate_authorized" sources runs).1

feed_due-runs : has_inflight "jphouse-23ku/chuo" fed ≡ true
unfolding machine
feed_due-runs = refl

feed_due-Covers_example :
    (has_inflight "jphouse-23ku/minato" fed ≡ true)
    ⊎ ((last : ℕ) × (last_terminal "jphouse-23ku/minato" fed ≡ some last) × (1086400 < last + week))
feed_due-Covers_example =
    feed_due-Covers draw 1086400 "aggregate_authorized" sources runs minato here

feed_due-again_example : (feed_due draw 1086400 "aggregate_authorized" sources fed).1 ≡ fed
feed_due-again_example = feed_due-again draw draw 1086400 "aggregate_authorized" sources runs

sources-IsDistinct : IsDistinct sources
unfolding IsDistinct asks
sources-IsDistinct = (refl, (refl, tt))

runs-single : (key : String) → inflight_count key runs ≤ 1
unfolding inflight_count
runs-single key = ground arith

feed_due-single_example : inflight_count "jphouse-23ku/chuo" fed ≤ 1
feed_due-single_example =
    feed_due-single draw 1086400 "aggregate_authorized" sources runs sources-IsDistinct runs-single
      "jphouse-23ku/chuo"

-- Two queued runs for the worker.
abbrev waiting : ℕ → WorkRun
waiting id = record {
  id = id;
  source_key = "jphouse-23ku/minato";
  source_type = "aggregate_authorized";
  status = WorkStatus.queued;
  created_at = 1000;
  started_at = none;
  completed_at = none;
  rows_collected = 0;
  snapshot_hash = none;
  error_message = none;
}

abbrev work : WorkDb
work = record { runs = waiting 2 ∷ waiting 1 ∷ []; audits = [] }

work-Distinct : Distinct run_key work.runs
unfolding Distinct find
work-Distinct = (refl, (refl, tt))

abbrev claim : ℕ → ClaimedRun
claim id = record {
  run_id = id;
  source_key = "jphouse-23ku/minato";
  source_type = "aggregate_authorized";
}

abbrev free : ℕ → Bool
free id = false

abbrev once : WorkDb
once = (claim_next_run 2000 free work).1

claim_next_run-work : claim_next_run 2000 free work ≡ (some (claim 1), once)
unfolding worker
claim_next_run-work = refl

claim_next_run-once :
    claim_next_run 2100 free once ≡ (some (claim 2), (claim_next_run 2100 free once).1)
unfolding worker
claim_next_run-once = refl

claim_next_run-differs_example : nat_beq 1 2 ≡ false
claim_next_run-differs_example =
    claim_next_run-differs 2000 2100 free free (claim 1) (claim 2) work once
      (claim_next_run 2100 free once).1 work-Distinct claim_next_run-work claim_next_run-once

once-Distinct : Distinct run_key once.runs
unfolding worker
once-Distinct = (refl, (refl, tt))

finish_run-Records_example :
    Records 2500
      (claim 1)
      (Finished.run_error "runner_error" "boom")
      (start_run 2000 (waiting 1))
      once
      (finish_run 2500 (claim 1) (Finished.run_error "runner_error" "boom") once)
unfolding worker
finish_run-Records_example =
    finish_run-Records 2500 (claim 1) (Finished.run_error "runner_error" "boom")
      (start_run 2000 (waiting 1)) once once-Distinct refl
