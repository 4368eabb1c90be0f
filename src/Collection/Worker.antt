-- ===== src/Collection/Worker.antt =====
-- The worker of the collection queue (backend/app/collection/worker.py).
use zouseeking.Base.{
  ℕ, Bool, true, false, ◌&&◌, ◌||◌, not, Option, none, some, List, String, ltb, nat_beq, string_eq,
  if◌then◌else◌, is_some,
}
use zouseeking.Base.Table.{update_where, first_where, insert_row, least_where}

pub data WorkStatus : Type 0 where
  queued running succeeded failed cancelled : WorkStatus

-- What the worker reads and writes of a row of collection_runs.
pub record WorkRun : Type 0 where
  pub id : ℕ
  pub source_key : String
  pub source_type : String
  pub status : WorkStatus
  pub created_at : ℕ
  pub started_at : Option ℕ
  pub completed_at : Option ℕ
  pub rows_collected : ℕ
  pub snapshot_hash : Option String
  pub error_message : Option String

-- A row of audit_events, without its summary.
pub record RunAudit : Type 0 where
  pub action : String
  pub target_id : ℕ

pub record WorkDb : Type 0 where
  pub runs : List WorkRun
  pub audits : List RunAudit

abbrev pub is_queued : WorkStatus → Bool
is_queued WorkStatus.queued = true
is_queued _ = false

abbrev pub is_running : WorkStatus → Bool
is_running WorkStatus.running = true
is_running _ = false

pub record ClaimedRun : Type 0 where
  pub run_id : ℕ
  pub source_key : String
  pub source_type : String

-- `order by created_at asc, id asc`
unfoldable pub created_before : WorkRun → WorkRun → Bool
created_before a b =
    ltb a.created_at b.created_at || nat_beq a.created_at b.created_at && ltb a.id b.id

abbrev pub start_run : ℕ → WorkRun → WorkRun
start_run now r = record r { status = WorkStatus.running; started_at = some now }

abbrev pub with_id : ℕ → WorkRun → Bool
with_id id r = nat_beq r.id id

unfoldable pub claim_row_of : ℕ → Option WorkRun → WorkDb → Option ClaimedRun × WorkDb
claim_row_of now none s = (none, s)
claim_row_of now (some r) s = (
  some (record { run_id = r.id; source_key = r.source_key; source_type = r.source_type }),
  record s { runs = update_where (with_id r.id) (start_run now) s.runs },
)

-- `claim_next`, where other transactions hold `locked` rows.
unfoldable pub claim_next_run : ℕ → (ℕ → Bool) → WorkDb → Option ClaimedRun × WorkDb
claim_next_run now locked s =
    claim_row_of now
      (least_where created_before (λ r. not (locked r.id) && is_queued r.status) s.runs) s

pub record CollectionOutcome : Type 0 where
  pub rows : ℕ
  pub snapshot_hash : Option String

-- What ends a run: an outcome, or a code and the text of an error.
pub data Finished : Type 0 where
  collected : CollectionOutcome → Finished
  run_error : String → String → Finished

-- `where id = $1 and status = 'running'`
abbrev pub runs_as : ℕ → WorkRun → Bool
runs_as id r = nat_beq r.id id && is_running r.status

abbrev pub end_run : ℕ → Finished → WorkRun → WorkRun
end_run now (collected o) r = record r {
  status = WorkStatus.succeeded;
  rows_collected = o.rows;
  snapshot_hash = o.snapshot_hash;
  error_message = none;
  completed_at = some now;
}
end_run now (run_error code message) r = record r {
  status = WorkStatus.failed;
  rows_collected = 0;
  snapshot_hash = none;
  error_message = some message;
  completed_at = some now;
}

abbrev pub action_of : Finished → String
action_of (collected o) = "admin.collection.run_succeeded"
action_of (run_error code message) = "admin.collection.run_failed"

-- `_write_terminal_state`: whether the run was still running.
unfoldable pub write_terminal_state : ℕ → ℕ → Finished → WorkDb → Bool × WorkDb
write_terminal_state now id f s =
    if is_some (first_where (runs_as id) s.runs)
    then (
      true,
      record {
        runs = update_where (runs_as id) (end_run now f) s.runs;
        audits = insert_row (record { action = action_of f; target_id = id }) s.audits;
      },
    )
    else (false, s)

-- The report of `run_once`.
pub record Report : Type 0 where
  pub run_id : ℕ
  pub source_key : String
  pub source_type : String
  pub status : WorkStatus
  pub rows : ℕ
  pub snapshot_hash : Option String
  pub code : Option String
  pub error_message : Option String

-- A report that nothing was recorded for: `cancelled`.
abbrev pub unrecorded : ClaimedRun → Report
unrecorded c = record {
  run_id = c.run_id;
  source_key = c.source_key;
  source_type = c.source_type;
  status = WorkStatus.cancelled;
  rows = 0;
  snapshot_hash = none;
  code = none;
  error_message = none;
}

unfoldable pub report_of : ClaimedRun → Finished → Bool → Report
report_of c f false = unrecorded c
report_of c (collected o) true = record (unrecorded c) {
  status = WorkStatus.succeeded;
  rows = o.rows;
  snapshot_hash = o.snapshot_hash;
}
report_of c (run_error code message) true = record (unrecorded c) {
  status = WorkStatus.failed;
  code = some code;
  error_message = some message;
}

-- `run_once` from the end of the runner: `f` is what it ended in.
unfoldable pub finish_run : ℕ → ClaimedRun → Finished → WorkDb → Report × WorkDb
unfolding report_of
finish_run now c f s =
    let (recorded, t) = write_terminal_state now c.run_id f s in (report_of c f recorded, t)
