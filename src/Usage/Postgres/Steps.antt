-- ===== src/Usage/Postgres/Steps.antt =====
-- The checks and statements of a transaction on the usage tables (backend/app/usage/db_ledger.py).
-- The advisory lock and the row locks make each transaction one step.
use zouseeking.Base.{
  ℕ, ◌==◌, Bool, true, false, not, ◌&&◌, ◌||◌, Option, none, some, List, String, ℤ, pos, negsuc,
  if◌then◌else◌, ltb, is_some, string_eq, option_eq, nat_eq,
}
use zouseeking.Base.Dict.{lookup, insert}
use zouseeking.Base.Table.{first_where, insert_row}
use zouseeking.Base.Txn.{Txn, pure, ◌>>=◌, ◌>>◌, select, write, raise, raise_if, or_raise}
use zouseeking.Usage.Errors.{
  Result, ok, err, value_error, usage_error, idempotency_conflict, quota_exceeded,
}
use zouseeking.Usage.Period.{TzInfo, naive, DateTime, Bounds}
use zouseeking.Usage.Ledger.Data.{Scope, ScopeKind, Operation, operation_eq, UsageKind}
use zouseeking.Usage.Ledger.State.{Status, duplicate}
use zouseeking.Usage.Ledger.Steps.{PyValue, positive_int, key_text}
use zouseeking.Usage.Postgres.Bucket.{year_in, bucket_bounds}
use zouseeking.Usage.Postgres.Data.{
  DbKind, query, report, stats_query, export_row, subscription_slot, db_kind_eq, KindArg, member,
  token, neither, ScopeKey, user, org, Account, account_eq, Print, print_eq, Quota, QuotaKey,
  quota_key_eq, UsageEvent, Entry, Db, DbFault, app, violates, out_of_range, PgResult,
}

abbrev pub Call {ℓ} : Type ℓ → Type ℓ
Call A = Txn DbFault Db A

abbrev pub lift {ℓ} : {A : Type ℓ} → Result A → Call A
lift (ok a) = pure a
lift (err e) = raise (app e)

-- `_scope_key`
unfoldable pub scope_key : Scope → ScopeKey
scope_key scope = elim scope.kind [
  | ScopeKind.owner ↦ user scope.id
  | ScopeKind.organization ↦ org scope.id
]

-- `_normalise_kind`
unfoldable pub normalise_kind : KindArg → Result DbKind
normalise_kind (member UsageKind.query) = ok query
normalise_kind (member UsageKind.report) = ok report
normalise_kind (member _) = err value_error
normalise_kind (token t) =
    if t == "query"
    then ok query
    else if t == "report"
    then ok report
    else if t == "stats_query"
    then ok stats_query
    else if t == "export_row"
    then ok export_row
    else if t == "subscription_slot"
    then ok subscription_slot
    else err value_error
normalise_kind neither = err value_error

-- `_kind_of`
unfoldable pub kind_of : DbKind → KindArg
kind_of query = member UsageKind.query
kind_of report = member UsageKind.report
kind_of stats_query = token "stats_query"
kind_of export_row = token "export_row"
kind_of subscription_slot = token "subscription_slot"

-- What a method is called with, less the clock and the period.
pub record PgArgs : Type 0 where
  pub scope : Scope
  pub kind : KindArg
  pub units : PyValue
  pub limit : Option ℤ
  pub request_key : PyValue
  pub actor_user_id : ℕ

pub record Request : Type 0 where
  pub units : ℕ
  pub request_key : String

abbrev no_period : Option String → Bool
no_period none = false
no_period (some p) = not ((p == "day") || (p == "month"))

abbrev is_naive : TzInfo → Bool
is_naive naive = true
is_naive _ = false

abbrev no_timezone : Option DateTime → Bool
no_timezone none = false
no_timezone (some at) = is_naive at.tzinfo

-- `_validate_common`, with the values that passed its tests.
unfoldable pub validate_common : PgArgs → Option DateTime → Option String → Result Request
unfolding positive_int key_text
validate_common a occurred_at period = elim (positive_int a.units) [
  | none ↦ err value_error
  | some u ↦ elim (key_text a.request_key) [
    | none ↦ err value_error
    | some k ↦
        if no_period period || no_timezone occurred_at
        then err value_error
        else ok (record { units = u; request_key = k })
  ]
]

-- The conditions of the statements.
abbrev pub by_fingerprint : Account → Operation → Print → UsageEvent → Bool
by_fingerprint account o fp e =
    (e.account == account) && ((e.operation == o) && (e.fingerprint == fp))

abbrev pub entry_key : Account → Operation → String → Entry → Bool
entry_key account o key r =
    (r.account == account) && ((r.operation == o) && (r.idempotency_key == key))

abbrev pub entry_print : Account → Operation → Print → Entry → Bool
entry_print account o fp r = (r.account == account) && ((r.operation == o) && (r.fingerprint == fp))

-- The last number of an `int` column.
abbrev pub int_max : ℕ
int_max = 2147483647

abbrev pub new_quota : ℕ → ℕ → Quota
new_quota id limit = record { id = id; limit_units = limit; consumed_units = 0; reserved_units = 0 }

-- The limit of a new row, which an `int` must hold and the table wants at 0 or more.
unfoldable pub limit_column : ℤ → Call ℕ
limit_column (pos n) = do raise_if (ltb int_max n) out_of_range; pure n
limit_column (negsuc n) =
    raise (if ltb int_max n then out_of_range else violates "usage_quotas_counts_nonnegative")

-- The row that `_lock_quota_or_provision` inserts when there is none.
unfoldable pub provision : QuotaKey → Option ℤ → ℕ → Call Quota
provision key none id = raise (app quota_exceeded)
provision key (some limit) id = do
  units ← limit_column limit
  raise_if (ltb (year_in key.1) 1000) (violates "usage_quotas_period_key_format")
  write (λ s. record s { quotas = insert key (new_quota id units) s.quotas })
  row ← select (λ s. lookup key s.quotas)
  or_raise row (app quota_exceeded)

abbrev pub or_provision : QuotaKey → Option ℤ → ℕ → Option Quota → Call Quota
or_provision key limit id none = provision key limit id
or_provision key limit id (some q) = pure q

-- `_lock_quota_or_provision`, where `id` is the identifier that a new row is given.
unfoldable pub lock_quota_or_provision : QuotaKey → Option ℤ → ℕ → Call Quota
lock_quota_or_provision key limit id =
    select (λ s. lookup key s.quotas) >>= or_provision key limit id

-- `limit is not None and int(limit) != row_limit`
unfoldable pub disagrees : Option ℤ → ℕ → Bool
disagrees none n = false
disagrees (some (pos l)) n = not (l == n)
disagrees (some (negsuc l)) n = true

abbrev pub consumed_of : Option Quota → ℕ
consumed_of none = 0
consumed_of (some q) = q.consumed_units

abbrev pub reserved_of : Option Quota → ℕ
reserved_of none = 0
reserved_of (some q) = q.reserved_units

abbrev pub limit_of : Option Quota → ℕ
limit_of none = 0
limit_of (some q) = q.limit_units

abbrev pub id_of : Option Quota → Option ℕ
id_of none = none
id_of (some q) = some q.id

-- `_make_result`
unfoldable pub make_result :
    Scope → DbKind → ℕ → Status → ℕ → Option Quota → Bounds → String → PgResult
make_result scope kind event_id status units quota b request_key = record {
  event_id = event_id;
  period_id = id_of quota;
  status = status;
  scope = scope;
  kind = kind_of kind;
  units = units;
  consumed = consumed_of quota;
  reserved = reserved_of quota;
  limit = limit_of quota;
  period_start = b.start;
  period_end = b.finish;
  request_key = request_key;
}

abbrev pub account_of : Scope → DbKind → Account
account_of scope kind = record { scope_key = scope_key scope; usage_kind = kind }

-- `_replay_result`
unfoldable pub replay_result : Scope → DbKind → Operation → Print → Call PgResult
replay_result scope kind o fp = do
  row ← select (λ s. first_where (by_fingerprint (account_of scope kind) o fp) s.events)
  event ← or_raise row (app usage_error)
  b ← lift (bucket_bounds event.period_key)
  quota ← select (λ s. lookup (account_of scope kind, event.period_key) s.quotas)
  pure (make_result scope kind event.id duplicate event.units quota b event.idempotency_key)

abbrev pub replay_if : Bool → Scope → DbKind → Operation → Print → Call (Option PgResult)
replay_if false scope kind o fp = pure none
replay_if true scope kind o fp = do r ← replay_result scope kind o fp; pure (some r)

-- `_replay_outcome` when the request key is new, and when it is not.
unfoldable pub replay_new_key : Scope → DbKind → Operation → Print → Call (Option PgResult)
replay_new_key scope kind o fp = do
  same ← select (λ s. is_some (first_where (entry_print (account_of scope kind) o fp) s.registry))
  replay_if same scope kind o fp

unfoldable pub replay_known_key :
    Scope → DbKind → Operation → Print → Entry → Call (Option PgResult)
replay_known_key scope kind o fp entry = do
  raise_if (not (entry.fingerprint == fp)) (app idempotency_conflict)
  replay_if true scope kind o fp

abbrev pub replay_by : Scope → DbKind → Operation → Print → Option Entry → Call (Option PgResult)
replay_by scope kind o fp none = replay_new_key scope kind o fp
replay_by scope kind o fp (some entry) = replay_known_key scope kind o fp entry

-- `_replay_outcome`
unfoldable pub replay_outcome : Scope → DbKind → Operation → String → Print → Call (Option PgResult)
replay_outcome scope kind o key fp =
    select (λ s. first_where (entry_key (account_of scope kind) o key) s.registry)
    >>= replay_by scope kind o fp

abbrev pub entry_of : UsageEvent → Entry
entry_of e = record {
  account = e.account;
  operation = e.operation;
  idempotency_key = e.idempotency_key;
  fingerprint = e.fingerprint;
}

abbrev pub claimed : UsageEvent → List Entry → Bool
claimed e rows =
    is_some (first_where (entry_key e.account e.operation e.idempotency_key) rows)
    || is_some (first_where (entry_print e.account e.operation e.fingerprint) rows)

-- `_insert_event_and_registry`. The index of usage_events on the fingerprint is outside the `try`.
unfoldable pub insert_event_and_registry : UsageEvent → Call (Unit {0})
insert_event_and_registry e = do
  twice ←
      select
        (λ s. is_some (first_where (by_fingerprint e.account e.operation e.fingerprint) s.events))
  raise_if twice (violates "uq_usage_events_fingerprint")
  write (λ s. record s { events = insert_row e s.events })
  taken ← select (λ s. claimed e s.registry)
  raise_if taken (app quota_exceeded)
  write (λ s. record s { registry = insert_row (entry_of e) s.registry })
