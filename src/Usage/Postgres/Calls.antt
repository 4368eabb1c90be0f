-- ===== src/Usage/Postgres/Calls.antt =====
-- The public methods of `class PostgresLedger` (backend/app/usage/db_ledger.py), each one
-- transaction.
use zouseeking.Base.{
  ℕ, ◌+◌, ◌-◌, ◌==◌, Bool, true, false, not, ◌&&◌, Option, none, some, String, ltb, is_some, nat_eq,
  string_eq, option_eq,
}
use zouseeking.Base.Dict.{lookup, insert}
use zouseeking.Base.Table.{first_where}
use zouseeking.Base.Txn.{pure, ◌>>=◌, ◌>>◌, select, write, raise_if, or_raise}
use zouseeking.Usage.Errors.{
  Result, ok, err, value_error, usage_error, idempotency_conflict, quota_exceeded,
  reservation_not_found, reservation_state_error,
}
use zouseeking.Usage.Period.{DateTime, Bounds}
use zouseeking.Usage.Ledger.Data.{Scope, Operation, operation_eq}
use zouseeking.Usage.Ledger.State.{Status, consumed, reserved, committed, released}
use zouseeking.Usage.Ledger.Steps.{PyValue, key_text}
use zouseeking.Usage.Postgres.Bucket.{Bucket, period_bucket, bucket_bounds}
use zouseeking.Usage.Postgres.Data.{
  DbKind, KindArg, Account, account_eq, Print, print_eq, Quota, QuotaKey, quota_key_eq, UsageEvent,
  Entry, app, out_of_range, PgResult, PgSummary,
}
use zouseeking.Usage.Postgres.Steps.{
  Call, lift, normalise_kind, PgArgs, Request, validate_common, by_fingerprint, entry_key, int_max,
  lock_quota_or_provision, disagrees, limit_of, consumed_of, reserved_of, make_result, account_of,
  replay_result, replay_outcome, insert_event_and_registry,
}

-- The identifiers that the tables give a new quota and a new event.
pub record Uuids : Type 0 where
  pub for_quota : ℕ
  pub for_event : ℕ

abbrev pub print_of : PgArgs → DbKind → Request → Operation → ℕ → Option String → Bucket → Print
print_of a kind r o limit reservation_key key = record {
  scope = a.scope;
  kind = kind;
  units = r.units;
  actor_user_id = a.actor_user_id;
  operation = o;
  limit = limit;
  reservation_key = reservation_key;
  period_key = key;
}

abbrev pub event_of :
    PgArgs → DbKind → Request → Operation → ℕ → Option String → Bucket → Print → UsageEvent
event_of a kind r o id reservation_key key fp = record {
  id = id;
  account = account_of a.scope kind;
  operation = o;
  units = r.units;
  period_key = key;
  idempotency_key = r.request_key;
  fingerprint = fp;
  reservation_key = reservation_key;
  actor_user_id = a.actor_user_id;
}

-- The two operations of `_charge`.
pub data Charge : Type 0 where
  consumes reserves : Charge

abbrev pub charge_operation : Charge → Operation
charge_operation consumes = Operation.consume
charge_operation reserves = Operation.reserve

abbrev pub charge_status : Charge → Status
charge_status consumes = consumed
charge_status reserves = reserved

abbrev pub charge_key : Charge → String → Option String
charge_key consumes request_key = none
charge_key reserves request_key = some request_key

-- The column that the update of `_charge` adds to.
unfoldable pub charged : Charge → ℕ → Quota → Quota
charged consumes units q = record q { consumed_units = q.consumed_units + units }
charged reserves units q = record q { reserved_units = q.reserved_units + units }

abbrev pub set_quota : QuotaKey → Quota → Call (Unit {0})
set_quota key q = write (λ s. record s { quotas = insert key q s.quotas })

-- What a charge is made with once its arguments have passed.
pub record Plan : Type 0 where
  pub request : Request
  pub kind : DbKind
  pub key : Bucket
  pub bounds : Bounds

abbrev pub quota_key : PgArgs → DbKind → Bucket → QuotaKey
quota_key a kind key = (account_of a.scope kind, key)

-- `_charge` of a new request: the conditional update of the locked row `q`, and the two inserts.
unfoldable pub charge_new : Charge → PgArgs → Plan → ℕ → Quota → Print → Call PgResult
unfolding charged
charge_new c a p id q fp = do
  let units = p.request.units
  raise_if (ltb int_max (q.consumed_units + q.reserved_units + units)) out_of_range
  raise_if (ltb q.limit_units (q.consumed_units + q.reserved_units + units)) (app quota_exceeded)
  set_quota (quota_key a p.kind p.key) (charged c units q)
  insert_event_and_registry (
      event_of a p.kind p.request (charge_operation c) id (charge_key c p.request.request_key) p.key
        fp)
  pure (
      make_result a.scope p.kind id (charge_status c) units (some (charged c units q)) p.bounds
        p.request.request_key)

-- `if replay is not None: return replay`, and otherwise what follows.
abbrev pub or_replay : Call PgResult → Option PgResult → Call PgResult
or_replay next none = next
or_replay next (some r) = pure r

unfoldable pub charge_row : Charge → PgArgs → Plan → ℕ → Quota → Call PgResult
charge_row c a p id q = do
  raise_if (disagrees a.limit q.limit_units) (app idempotency_conflict)
  let key = p.request.request_key
  let fp = print_of a p.kind p.request (charge_operation c) q.limit_units (charge_key c key) p.key
  replay_outcome a.scope p.kind (charge_operation c) key fp >>= or_replay (charge_new c a p id q fp)

-- The checks of `_charge` before its transaction.
unfoldable pub charge_plan : PgArgs → DateTime → String → Result Plan
unfolding validate_common normalise_kind period_bucket
charge_plan a at period = elim (validate_common a (some at) (some period)) [
  | err e ↦ err e
  | ok r ↦ elim (normalise_kind a.kind) [
    | err e ↦ err e
    | ok kind ↦ elim (period_bucket at period) [
      | err e ↦ err e
      | ok (key, b) ↦ ok (record { request = r; kind = kind; key = key; bounds = b })
    ]
  ]
]

unfoldable pub charge_in : Charge → PgArgs → Uuids → Plan → Call PgResult
charge_in c a ids p =
    lock_quota_or_provision (quota_key a p.kind p.key) a.limit ids.for_quota
    >>= charge_row c a p ids.for_event

-- `_charge`
unfoldable pub charge : Charge → PgArgs → DateTime → String → Uuids → Call PgResult
charge c a at period ids = lift (charge_plan a at period) >>= charge_in c a ids

unfoldable pub consume : PgArgs → DateTime → String → Uuids → Call PgResult
consume a at period ids = charge consumes a at period ids

unfoldable pub reserve : PgArgs → DateTime → String → Uuids → Call PgResult
reserve a at period ids = charge reserves a at period ids

-- The two operations of `_transition`.
pub data Transition : Type 0 where
  commits releases : Transition

abbrev pub transition_operation : Transition → Operation
transition_operation commits = Operation.commit
transition_operation releases = Operation.release

abbrev pub transition_status : Transition → Status
transition_status commits = committed
transition_status releases = released

unfoldable pub settled : Transition → ℕ → Quota → Quota
settled commits units q = record q {
  consumed_units = q.consumed_units + units;
  reserved_units = q.reserved_units - units;
}
settled releases units q = record q { reserved_units = q.reserved_units - units }

-- `operation = 'reserve' and reservation_key = $3`
abbrev pub is_reservation : Account → String → UsageEvent → Bool
is_reservation account k e =
    (e.account == account) && ((e.operation == Operation.reserve) && (e.reservation_key == some k))

abbrev pub is_final : Operation → Bool
is_final Operation.commit = true
is_final Operation.release = true
is_final _ = false

-- `operation in ('commit', 'release') and reservation_key = $3`
abbrev pub is_terminal : Account → String → UsageEvent → Bool
is_terminal account k e =
    (e.account == account) && (is_final e.operation && (e.reservation_key == some k))

-- What a transition is made with once its arguments have passed.
pub record Ending : Type 0 where
  pub request : Request
  pub kind : DbKind
  pub reservation_key : String

-- 1) The same request key again.
unfoldable pub transition_replay : Transition → PgArgs → Ending → Entry → Call PgResult
transition_replay t a n entry = do
  let account = account_of a.scope n.kind
  let o = transition_operation t
  row ← select (λ s. first_where (by_fingerprint account o entry.fingerprint) s.events)
  original ← or_raise row (app usage_error)
  quota ← select (λ s. lookup (account, original.period_key) s.quotas)
  let candidate =
      print_of a n.kind n.request o (limit_of quota) (some n.reservation_key) original.period_key
  raise_if (not (candidate == entry.fingerprint)) (app idempotency_conflict)
  replay_result a.scope n.kind o entry.fingerprint

-- 3) The terminal check, the update of the locked row `q` and the two inserts.
unfoldable pub transition_row :
    Transition → PgArgs → Ending → ℕ → Bucket → Bounds → Quota → Call PgResult
unfolding settled
transition_row t a n id key b q = do
  raise_if (disagrees a.limit q.limit_units) (app idempotency_conflict)
  let account = account_of a.scope n.kind
  let o = transition_operation t
  let units = n.request.units
  let fp = print_of a n.kind n.request o q.limit_units (some n.reservation_key) key
  ended ← select (λ s. is_some (first_where (is_terminal account n.reservation_key) s.events))
  raise_if ended (app reservation_state_error)
  raise_if (ltb q.reserved_units units) (app reservation_state_error)
  set_quota (account, key) (settled t units q)
  insert_event_and_registry (event_of a n.kind n.request o id (some n.reservation_key) key fp)
  pure (
      make_result a.scope n.kind id (transition_status t) units (some (settled t units q)) b
        n.request.request_key)

-- 2) The reservation must exist and carry the same units.
unfoldable pub transition_start : Transition → PgArgs → Ending → Uuids → Call PgResult
transition_start t a n ids = do
  let account = account_of a.scope n.kind
  row ← select (λ s. first_where (is_reservation account n.reservation_key) s.events)
  reservation ← or_raise row (app reservation_not_found)
  raise_if (not (reservation.units == n.request.units)) (app idempotency_conflict)
  let key = reservation.period_key
  b ← lift (bucket_bounds key)
  q ← lock_quota_or_provision (account, key) a.limit ids.for_quota
  transition_row t a n ids.for_event key b q

abbrev pub transition_by : Transition → PgArgs → Ending → Uuids → Option Entry → Call PgResult
transition_by t a n ids (some entry) = transition_replay t a n entry
transition_by t a n ids none = transition_start t a n ids

-- The checks of `_transition` before its transaction.
unfoldable pub ending : PgArgs → Option DateTime → Option String → PyValue → Result Ending
unfolding validate_common normalise_kind key_text
ending a at period reservation_key = elim (validate_common a at period) [
  | err e ↦ err e
  | ok r ↦ elim (normalise_kind a.kind) [
    | err e ↦ err e
    | ok kind ↦ elim (key_text reservation_key) [
      | none ↦ err value_error
      | some k ↦ ok (record { request = r; kind = kind; reservation_key = k })
    ]
  ]
]

unfoldable pub transition_in : Transition → PgArgs → Uuids → Ending → Call PgResult
transition_in t a ids n =
    select (λ s.
      first_where
        (entry_key (account_of a.scope n.kind) (transition_operation t) n.request.request_key)
        s.registry)
    >>= transition_by t a n ids

-- `_transition`
unfoldable pub transition :
    Transition → PgArgs → Option DateTime → Option String → PyValue → Uuids → Call PgResult
transition t a at period reservation_key ids =
    lift (ending a at period reservation_key) >>= transition_in t a ids

unfoldable pub commit : PgArgs → Option DateTime → Option String → PyValue → Uuids → Call PgResult
commit a at period reservation_key ids = transition commits a at period reservation_key ids

unfoldable pub release : PgArgs → Option DateTime → Option String → PyValue → Uuids → Call PgResult
release a at period reservation_key ids = transition releases a at period reservation_key ids

-- `summary`
unfoldable pub summary : Scope → KindArg → DateTime → String → Call PgSummary
summary scope kind at period = do
  db_kind ← lift (normalise_kind kind)
  (key, b) ← lift (period_bucket at period)
  quota ← select (λ s. lookup (account_of scope db_kind, key) s.quotas)
  pure (record {
    scope = scope;
    kind = kind;
    consumed = consumed_of quota;
    reserved = reserved_of quota;
    limit = limit_of quota;
    period_start = b.start;
    period_end = b.finish;
  })
