-- ===== src/Collection/Scheduler.antt =====
-- The feeder of the collection queue (backend/app/collection/scheduler.py).
use zouseeking.Base.{
  ℕ, ◌+◌, Bool, true, false, ◌&&◌, ◌||◌, Option, none, some, List, [], ◌∷◌, String, leb, suc, ◌==◌,
  string_eq, if◌then◌else◌,
}
use zouseeking.Base.Table.{insert_row}
use zouseeking.Collection.Runs.{RunStatus, Run, has_run, has_inflight, last_terminal}

-- `_coerce_now`: an injected `now` is aware, in seconds of UTC, or it is refused; without one the clock
-- is read.
pub data Now : Type 0 where
  absent naive : Now
  aware : ℕ → Now

unfoldable pub coerce_now : ℕ → Now → Option ℕ
coerce_now clock absent = some clock
coerce_now clock naive = none
coerce_now clock (aware t) = some t

pub record SchedulableSource : Type 0 where
  pub source_key : String
  pub cadence : ℕ

pub record SourceState : Type 0 where
  pub last_terminal_at : Option ℕ
  pub has_inflight : Bool

pub data FeedAction : Type 0 where
  queued skipped due_later : FeedAction

pub data Reason : Type 0 where
  no_history due in_flight within_cadence : Reason

pub record FeedDecision : Type 0 where
  pub source_key : String
  pub action : FeedAction
  pub reason : Reason
  pub last_terminal_at : Option ℕ

-- `decide` behind its guard on a run in flight.
unfoldable pub decide_idle : ℕ → SchedulableSource → Option ℕ → FeedDecision
decide_idle now s none = record {
  source_key = s.source_key;
  action = FeedAction.queued;
  reason = no_history;
  last_terminal_at = none;
}
decide_idle now s (some last) =
    if leb (last + s.cadence) now
    then record {
      source_key = s.source_key;
      action = FeedAction.queued;
      reason = due;
      last_terminal_at = some last;
    }
    else record {
      source_key = s.source_key;
      action = FeedAction.due_later;
      reason = within_cadence;
      last_terminal_at = some last;
    }

-- `decide`, on the clock that `_coerce_now` answers.
unfoldable pub decide : ℕ → SchedulableSource → SourceState → FeedDecision
decide now s state =
    if state.has_inflight
    then record {
      source_key = s.source_key;
      action = FeedAction.skipped;
      reason = in_flight;
      last_terminal_at = state.last_terminal_at;
    }
    else decide_idle now s state.last_terminal_at

-- `states.get(source.source_key, SourceState(…, last_terminal_at=None))`
abbrev pub state_or_new : Option SourceState → SourceState
state_or_new none = record { last_terminal_at = none; has_inflight = false }
state_or_new (some state) = state

-- `decide_all`, with the dict of states as the function that looks a key up.
unfoldable pub decide_all :
    ℕ → (String → Option SourceState) → List SchedulableSource → List FeedDecision
decide_all now states [] = []
decide_all now states (s ∷ sources) =
    decide now s (state_or_new (states s.source_key)) ∷ decide_all now states sources

unfoldable pub asks : String → List SchedulableSource → Bool
asks key [] = false
asks key (s ∷ sources) = (s.source_key == key) || asks key sources

-- `fetch_state` for the keys of the sources.
unfoldable pub fetch_state : List SchedulableSource → List Run → String → Option SourceState
unfolding asks
fetch_state sources runs key =
    if asks key sources && has_run key runs
    then some
        (record { last_terminal_at = last_terminal key runs; has_inflight = has_inflight key runs })
    else none

unfoldable pub plan_due : ℕ → List SchedulableSource → List Run → List FeedDecision
plan_due now sources runs = decide_all now (fetch_state sources runs) sources

abbrev pub is_queued : FeedAction → Bool
is_queued FeedAction.queued = true
is_queued _ = false

-- The row that the feeder inserts, with the id and the time that the table supplies.
abbrev pub fed_run : ℕ → ℕ → String → String → Run
fed_run id now key source_type = record {
  id = id;
  source_key = key;
  source_type = source_type;
  status = RunStatus.queued;
  operator_user_id = none;
  created_at = now;
}

-- The inserts of `feed_due`; `draw n` is the id of the n-th.
unfoldable pub insert_due : (ℕ → ℕ) → ℕ → ℕ → String → List FeedDecision → List Run → List Run
insert_due draw n now source_type [] runs = runs
insert_due draw n now source_type (d ∷ decisions) runs =
    insert_due draw (suc n) now source_type decisions (
      if is_queued d.action
      then insert_row (fed_run (draw n) now d.source_key source_type) runs
      else runs)

-- `feed_due`
unfoldable pub feed_due :
    (ℕ → ℕ) → ℕ → String → List SchedulableSource → List Run → List FeedDecision × List Run
feed_due draw now source_type sources runs =
    (plan_due now sources runs, insert_due draw 0 now source_type (plan_due now sources runs) runs)

-- `run_feed` on the sources that it has discovered: nothing if `now` is refused.
unfoldable pub run_feed :
    (ℕ → ℕ)
    → ℕ
    → Now
    → Bool
    → String
    → List SchedulableSource
    → List Run
    → Option (List FeedDecision × List Run)
unfolding coerce_now
run_feed draw clock now dry_run source_type sources runs = elim (coerce_now clock now) [
  | none ↦ none
  | some t ↦ some (
      if dry_run then (plan_due t sources runs, runs) else feed_due draw t source_type sources runs)
]
