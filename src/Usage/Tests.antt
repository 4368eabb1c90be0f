-- ===== src/Usage/Tests.antt =====
-- The theorems of the usage modules at concrete inputs, and runs.
use zouseeking.Usage.Ledger.Pinning.{Pins, consume-Pins}
use zouseeking.Base.Calendar.{
  month_start, month_end, year_of, month_of, leap, days_before_month, days_before_year,
}
use zouseeking.Base.{◌+◌, ◌*◌, ℕ, ◌≡◌, refl, String, [], ◌∷◌, arith, pos}
use zouseeking.Usage.Errors.{ok}
use zouseeking.Usage.Period.{Contains, offset, DateTime, period_bounds, period_bounds-Contains}
use zouseeking.Usage.Ledger.Data.{
  event_key_beq, fingerprint_beq, kind_beq, operation_beq, period_key_beq, reservation_id_beq,
  reservation_index_key_beq, scope_beq, scope_kind_beq, ScopeKind, UsageKind, Operation,
}
use zouseeking.Usage.Ledger.State.{Ledger, LedgerResult, Status, init}
use zouseeking.Usage.Ledger.Steps.{
  key_text, natural_int, positive_int, validate_request, existing, replay_of, get_period,
  ensure_capacity, PyValue, Args, Uuids,
}
use zouseeking.Base.Dict.{lookup, insert}
use zouseeking.Usage.Ledger.Calls.{
  consume_new, consume_in, reserve_new, reserve_in, transition_new, active_reservation, settle,
  settle_in, reserve_or_transition, effective_key, consume, reserve, commit, release,
}
use zouseeking.Usage.Ledger.Invariant.{Inv, init-Inv}
use zouseeking.Usage.Ledger.Endings.{Ends}
use zouseeking.Usage.Ledger.History.{Call, step, run, step-Ends, run-init-Inv}
use zouseeking.Usage.Ledger.Effects.{Consumes, Reserves, Settles}
use zouseeking.Usage.Ledger.Accounting.{
  consume-Consumes, reserve-Reserves, commit-Settles, release-Settles,
}
use zouseeking.Usage.Ledger.Replay.{as_duplicate, step_again}
use zouseeking.Usage.Ledger.Once.{settled_once}

-- Names what a run of the ledger unfolds.
machine : Unit {0}
unfolding step run consume reserve commit release consume_new consume_in reserve_new reserve_in
    transition_new active_reservation settle settle_in reserve_or_transition effective_key
    validate_request existing replay_of get_period period_bounds ensure_capacity key_text
    natural_int positive_int lookup insert event_key_beq fingerprint_beq kind_beq operation_beq
    period_key_beq reservation_id_beq reservation_index_key_beq scope_beq scope_kind_beq
machine = tt

-- 2025-09-15T20:30:00Z, which is the 16th at UTC+8.
abbrev evening : DateTime
evening = record { wall = 739508 * 86400 + 73800; tzinfo = offset (pos 0) }

abbrev args : ℕ → ℕ → String → Args
args units limit key = record {
  scope = record { kind = ScopeKind.owner; id = 7 };
  kind = UsageKind.query;
  units = PyValue.int (pos units);
  limit = PyValue.int (pos limit);
  request_key = PyValue.text key;
  actor_user_id = 7;
  occurred_at = evening;
  period = "day";
}

abbrev ids : Uuids
ids = record { for_period = 100; for_event = 200 }

abbrev reserved_two : Ledger
reserved_two =
    run (Call.consumes (args 1 3 "a") ids ∷ Call.reserves (args 2 3 "r") PyValue.null ids ∷ []) init

reserved_two-Inv : Inv reserved_two
reserved_two-Inv =
    run-init-Inv
      (Call.consumes (args 1 3 "a") ids ∷ Call.reserves (args 2 3 "r") PyValue.null ids ∷ [])

period_bounds-evening :
    period_bounds evening "day" ≡ ok (record { start = 739509 * 86400; finish = 739510 * 86400 })
unfolding period_bounds
period_bounds-evening = refl

period_bounds-Contains_example :
    Contains evening "month" (record { start = 739494 * 86400; finish = 739524 * 86400 })
unfolding period_bounds month_start month_end year_of month_of leap days_before_month
    days_before_year
period_bounds-Contains_example =
    period_bounds-Contains evening "month"
      (record { start = 739494 * 86400; finish = 739524 * 86400 }) refl

step-Ends_example : Ends reserved_two (step (Call.consumes (args 1 3 "b") ids) reserved_two)
step-Ends_example = step-Ends (Call.consumes (args 1 3 "b") ids) reserved_two reserved_two-Inv

run-init-Inv_example : Inv reserved_two
run-init-Inv_example =
    run-init-Inv
      (Call.consumes (args 1 3 "a") ids ∷ Call.reserves (args 2 3 "r") PyValue.null ids ∷ [])

consume-Consumes_example : Consumes (args 1 3 "b") init (consume (args 1 3 "b") ids init)
consume-Consumes_example = consume-Consumes (args 1 3 "b") ids init init-Inv

reserve-Reserves_example :
    Reserves (args 1 3 "b") init (reserve (args 1 3 "b") PyValue.null ids init)
reserve-Reserves_example = reserve-Reserves (args 1 3 "b") PyValue.null ids init init-Inv

commit-Settles_example :
    Settles Operation.commit
      (args 2 3 "c")
      (PyValue.text "r")
      reserved_two
      (commit (args 2 3 "c") (PyValue.text "r") ids reserved_two)
commit-Settles_example =
    commit-Settles (args 2 3 "c") (PyValue.text "r") ids reserved_two reserved_two-Inv

release-Settles_example :
    Settles Operation.release
      (args 2 3 "c")
      (PyValue.text "r")
      reserved_two
      (release (args 2 3 "c") (PyValue.text "r") ids reserved_two)
release-Settles_example =
    release-Settles (args 2 3 "c") (PyValue.text "r") ids reserved_two reserved_two-Inv

-- The answer of the first consumption on a new ledger, and the ledger after it.
abbrev first : Call
first = Call.consumes (args 1 3 "a") ids

abbrev first_answer : LedgerResult
first_answer = record {
  event_id = 200;
  period_id = 100;
  status = Status.consumed;
  scope = record { kind = ScopeKind.owner; id = 7 };
  kind = UsageKind.query;
  units = 1;
  consumed = 1;
  reserved = 0;
  limit = 3;
  period_start = 739509 * 86400;
  period_end = 739510 * 86400;
  request_key = "a";
}

step-first : step first init ≡ (ok first_answer, (step first init).1)
unfolding machine
step-first = refl

step_again_example :
    step
      (Call.consumes (args 1 3 "a") (record { for_period = 1; for_event = 2 }))
      (step first init).1
    ≡ (ok (as_duplicate first_answer), (step first init).1)
step_again_example =
    step_again first (record { for_period = 1; for_event = 2 }) init init-Inv step-first

abbrev committing : Call
committing = Call.commits (args 2 3 "c") (PyValue.text "r") ids

abbrev committed_answer : LedgerResult
committed_answer = record first_answer {
  status = Status.committed;
  units = 2;
  consumed = 3;
  request_key = "c";
}

first_commit :
    step committing reserved_two ≡ (ok committed_answer, (step committing reserved_two).1)
unfolding machine
first_commit = refl

second_commit :
    step committing (run [] (step committing reserved_two).1)
    ≡ (ok (as_duplicate committed_answer), (step committing reserved_two).1)
unfolding machine
second_commit = refl

settled_once_example : (as_duplicate committed_answer).status ≡ Status.duplicate
unfolding machine
settled_once_example =
    settled_once
      (record {
        scope = record { kind = ScopeKind.owner; id = 7 };
        kind = UsageKind.query;
        reservation_key = "r";
      })
      committing committing [] reserved_two refl refl reserved_two-Inv first_commit (ground arith)
      second_commit

-- A request for five units of three is refused, and its period is stored.
consume-Pins_example : Pins (args 5 3 "z") (consume (args 5 3 "z") ids init)
consume-Pins_example = consume-Pins (args 5 3 "z") ids init init-Inv
