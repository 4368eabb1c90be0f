-- ===== src/Usage/Postgres/Tests.antt =====
-- The theorems of the PostgreSQL usage ledger at concrete inputs, and runs.
use zouseeking.Base.{ℕ, ◌+◌, ◌*◌, ◌≡◌, refl, Option, none, some, String, [], ◌∷◌, arith, pos, List}
use zouseeking.Base.Calendar.{
  year_of, month_of, leap, year_length, days_before_month, days_before_year,
}
use zouseeking.Base.Dict.{lookup, insert}
use zouseeking.Base.Table.{first_where, insert_row}
use zouseeking.Base.Txn.{Ensures, Succeeds, and_then, raise_if, or_raise}
use zouseeking.Usage.Errors.{ok}
use zouseeking.Usage.Period.{offset, DateTime, period_bounds, as_utc_plus_8, day_bounds}
use zouseeking.Usage.Ledger.Data.{ScopeKind, Operation, scope_beq, scope_kind_beq, operation_beq}
use zouseeking.Usage.Ledger.Steps.{PyValue, positive_int, key_text}
use zouseeking.Usage.Postgres.Bucket.{
  day_key, bucket_bounds, period_bucket, day_text, read_date, bucket_beq,
}
use zouseeking.Usage.Postgres.Data.{
  Db, empty, KindArg, query, ScopeKey, Quota, QuotaKey, account_beq, scope_key_beq, db_kind_beq,
  print_beq,
}
use zouseeking.Usage.Postgres.Steps.{
  PgArgs, validate_common, normalise_kind, scope_key, lock_quota_or_provision, provision,
  limit_column, disagrees, make_result, kind_of, replay_outcome, replay_new_key, replay_known_key,
  replay_result, insert_event_and_registry,
}
use zouseeking.Usage.Postgres.Calls.{
  Transition, Uuids, consume, reserve, commit, release, charge, charge_in, charge_plan, charge_row,
  charge_new, charged, transition, transition_in, transition_start, transition_replay,
  transition_row, settled, ending,
}
use zouseeking.Usage.Postgres.Invariant.{Inv}
use zouseeking.Usage.Postgres.Charging.{Moves}
use zouseeking.Usage.Postgres.History.{Request, call, run, call-Moves, run-empty-Inv}
use zouseeking.Usage.Postgres.Meter.{view}
use zouseeking.Usage.Postgres.RoundTrip.{bucket_bounds-period_bucket}
use zouseeking.Usage.Postgres.Progress.{transition-Succeeds}

-- 2025-09-15T20:30:00Z, which is the 16th at UTC+8.
abbrev evening : DateTime
evening = record { wall = 739508 * 86400 + 73800; tzinfo = offset (pos 0) }

abbrev args : ℕ → Option ℕ → String → PgArgs
args units limit key = record {
  scope = record { kind = ScopeKind.owner; id = 7 };
  kind = KindArg.token "query";
  units = PyValue.int (pos units);
  limit = elim limit [ none ↦ none | some l ↦ some (pos l) ];
  request_key = PyValue.text key;
  actor_user_id = 7;
}

abbrev ids : ℕ → Uuids
ids n = record { for_quota = 100; for_event = n }

-- Two units reserved of three, then two more asked for, then the reservation committed.
abbrev calls : List Request
calls =
    Request.reserving (args 2 (some 3) "r") evening "day" (ids 1)
    ∷ Request.consuming (args 2 (some 3) "c") evening "day" (ids 2)
    ∷ Request.committing (args 2 none "m") none none (PyValue.text "r") (ids 3)
    ∷ []

run-empty-Inv_example : Inv (run calls empty)
run-empty-Inv_example = run-empty-Inv calls

call-Moves_example :
    Ensures (Moves Operation.commit (args 2 none "m") (PyValue.text "r") (run calls empty)) (
      call
        (Request.committing (args 2 none "m") none none (PyValue.text "r") (ids 3))
        (run calls empty))
call-Moves_example =
    call-Moves (Request.committing (args 2 none "m") none none (PyValue.text "r") (ids 3))
      (run calls empty) (run-empty-Inv calls)

bucket_bounds-period_bucket_example :
    bucket_bounds (day_key 2025 9 16)
    ≡ ok (record { start = 739509 * 86400; finish = 739510 * 86400 })
unfolding period_bucket day_text period_bounds as_utc_plus_8 day_bounds year_of month_of leap
    days_before_month
bucket_bounds-period_bucket_example =
    bucket_bounds-period_bucket evening "day" (day_key 2025 9 16)
      (record { start = 739509 * 86400; finish = 739510 * 86400 }) refl (omega arith)

-- Names what a run unfolds.
machine : Unit {0}
unfolding run call consume reserve commit release charge charge_in charge_plan charge_row charge_new
    charged transition transition_in transition_start transition_replay transition_row settled
    ending validate_common normalise_kind scope_key positive_int key_text period_bucket
    period_bounds as_utc_plus_8 day_bounds day_text year_of month_of leap days_before_month
    days_before_year bucket_bounds read_date year_length lock_quota_or_provision provision
    limit_column disagrees make_result kind_of replay_outcome replay_new_key replay_known_key
    replay_result insert_event_and_registry and_then raise_if or_raise lookup insert first_where
    insert_row account_beq scope_key_beq db_kind_beq bucket_beq print_beq scope_beq scope_kind_beq
    operation_beq view
machine = tt

abbrev held : Db
held = run (Request.reserving (args 2 (some 3) "r") evening "day" (ids 1) ∷ []) empty

-- The reservation of `calls` can be committed.
transition-Succeeds_example :
    Succeeds
      (transition Transition.commits (args 2 none "m") none none (PyValue.text "r") (ids 3) held)
unfolding machine
transition-Succeeds_example =
    transition-Succeeds Transition.commits (args 2 none "m") none none (PyValue.text "r") (ids 3)
      held
      (record {
        request = record { units = 2; request_key = "m" };
        kind = query;
        reservation_key = "r";
      })
      (day_key 2025 9 16)
      (run-empty-Inv (Request.reserving (args 2 (some 3) "r") evening "day" (ids 1) ∷ [])) refl refl
      refl refl

abbrev quotas_after : List (QuotaKey × Quota)
quotas_after =
    (
      (record { scope_key = ScopeKey.user 7; usage_kind = query }, day_key 2025 9 16),
      record { id = 100; limit_units = 3; consumed_units = 2; reserved_units = 0 },
    )
    ∷ []

-- The consumption in between is refused and leaves no trace.
run_lem : (run calls empty).quotas ≡ quotas_after
unfolding machine
run_lem = refl
