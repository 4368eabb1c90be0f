-- ===== src/Usage/Ledger/Steps.antt =====
-- The checks and steps of a call on `class Ledger` (backend/app/usage/ledger.py).
use zouseeking.Base.{
  ℕ, ◌+◌, Bool, not, ◌||◌, Option, none, some, String, ℤ, pos, if◌then◌else◌, ltb, nat_beq, str_len,
  ◌==◌,
}
use zouseeking.Base.Dict.{lookup, insert}
use zouseeking.Usage.Errors.{
  Result, ok, err, value_error, key_error, idempotency_conflict, quota_exceeded,
}
use zouseeking.Usage.Period.{DateTime, Bounds, period_bounds}
use zouseeking.Usage.Ledger.Data.{
  Scope, UsageKind, Operation, PeriodKey, EventKey, ReservationIndexKey, ReservationId, Fingerprint,
  fingerprint_eq, period_key_eq, event_key_eq, reservation_id_eq, reservation_index_key_eq,
}
use zouseeking.Usage.Ledger.State.{
  Period, Status, duplicate, Event, LedgerResult, Action, pure, gets, or_raise, lift, ◌>>=◌, ◌>>◌,
  raise_if, modify,
}

-- A Python value that a caller passes where a number or a text is expected.
pub data PyValue : Type 0 where
  null : PyValue
  bool : Bool → PyValue
  int : ℤ → PyValue
  text : String → PyValue
  other : PyValue

-- `isinstance(v, int) and not isinstance(v, bool) and v > 0`
unfoldable pub positive_int : PyValue → Option ℕ
positive_int (int (pos n)) = if nat_beq n 0 then none else some n
positive_int _ = none

-- `isinstance(v, int) and not isinstance(v, bool) and v >= 0`
unfoldable pub natural_int : PyValue → Option ℕ
natural_int (int (pos n)) = some n
natural_int _ = none

-- A text of 1 to 128 characters.
unfoldable pub key_text : PyValue → Option String
key_text (text s) = if nat_beq (str_len s) 0 || ltb 128 (str_len s) then none else some s
key_text _ = none

pub record Request : Type 0 where
  pub units : ℕ
  pub limit : ℕ
  pub request_key : String

-- `_validate_request`, with the values that passed its tests.
unfoldable pub validate_request : PyValue → PyValue → PyValue → Result Request
unfolding positive_int natural_int key_text
validate_request units limit request_key = elim (positive_int units) [
  | none ↦ err value_error
  | some u ↦ elim (natural_int limit) [
    | none ↦ err value_error
    | some l ↦ elim (key_text request_key) [
      | none ↦ err value_error
      | some k ↦ ok (record { units = u; limit = l; request_key = k })
    ]
  ]
]

-- The identifiers that `uuid4()` draws for a new period and for a new event.
pub record Uuids : Type 0 where
  pub for_period : ℕ
  pub for_event : ℕ

abbrev pub period_key : Scope → UsageKind → ℕ → PeriodKey
period_key scope kind start = record { scope = scope; kind = kind; start = start }

abbrev pub new_period : Scope → UsageKind → Bounds → ℕ → ℕ → Period
new_period scope kind b limit id = record {
  scope = scope;
  kind = kind;
  period_start = b.start;
  period_end = b.finish;
  limit = limit;
  consumed = 0;
  reserved = 0;
  period_id = id;
}

-- `_get_period`: the period in which the request falls. A new one is stored at once.
unfoldable pub get_period :
    Scope → UsageKind → ℕ → DateTime → String → ℕ → Action (PeriodKey × Period)
get_period scope kind limit occurred_at period id = do
  b ← lift (period_bounds occurred_at period)
  let key = period_key scope kind b.start
  found ← gets (λ s. lookup key s.periods)
  elim found [
    | none ↦ do
      let current = new_period scope kind b limit id
      modify (λ s. record s { periods = insert key current s.periods })
      pure (key, current)
    | some current ↦ do
      raise_if (not (nat_beq current.limit limit)) idempotency_conflict
      pure (key, current)
  ]

abbrev pub event_key : Scope → String → Operation → EventKey
event_key scope request_key operation = record {
  scope = scope;
  request_key = request_key;
  operation = operation;
}

abbrev pub index_key : Scope → UsageKind → String → ReservationIndexKey
index_key scope kind reservation_key = record {
  scope = scope;
  kind = kind;
  reservation_key = reservation_key;
}

abbrev pub reservation_id : PeriodKey → String → ReservationId
reservation_id key reservation_key = record { period_key = key; reservation_key = reservation_key }

-- `_result`
abbrev pub result : Period → Event → Status → LedgerResult
result p e status = record {
  event_id = e.event_id;
  period_id = p.period_id;
  status = status;
  scope = p.scope;
  kind = p.kind;
  units = e.units;
  consumed = p.consumed;
  reserved = p.reserved;
  limit = p.limit;
  period_start = p.period_start;
  period_end = p.period_end;
  request_key = e.request_key;
}

-- The answer of `_existing` from what the request key was used for before.
unfoldable pub replay_of : Fingerprint → Option Event → Action (Option LedgerResult)
replay_of fingerprint none = pure none
replay_of fingerprint (some e) = do
  raise_if (not (e.fingerprint == fingerprint)) idempotency_conflict
  stored ← gets (λ s. lookup e.period_key s.periods)
  p ← or_raise stored key_error
  pure (some (result p e duplicate))

-- `_existing`
unfoldable pub existing : Scope → String → Operation → Fingerprint → Action (Option LedgerResult)
existing scope request_key operation fingerprint =
    gets (λ s. lookup (event_key scope request_key operation) s.events) >>= replay_of fingerprint

-- `_ensure_capacity`
unfoldable pub ensure_capacity : Period → ℕ → Action (Unit {0})
ensure_capacity p units = raise_if (ltb p.limit (p.consumed + p.reserved + units)) quota_exceeded

abbrev pub set_period : PeriodKey → Period → Action (Unit {0})
set_period k p = modify (λ s. record s { periods = insert k p s.periods })

-- `self._events[...] = event`
abbrev pub record_event : Scope → Event → Action (Unit {0})
record_event scope e =
    modify λ s. record s { events = insert (event_key scope e.request_key e.operation) e s.events }

-- What `consume` and `_reserve_or_transition` are called with.
pub record Args : Type 0 where
  pub scope : Scope
  pub kind : UsageKind
  pub units : PyValue
  pub limit : PyValue
  pub request_key : PyValue
  pub actor_user_id : ℕ
  pub occurred_at : DateTime
  pub period : String

-- `_fingerprint`
abbrev pub fingerprint_of : Args → Request → Operation → Option String → Fingerprint
fingerprint_of a r operation reservation_key = record {
  scope = a.scope;
  kind = a.kind;
  units = r.units;
  actor_user_id = a.actor_user_id;
  operation = operation;
  limit = r.limit;
  reservation_key = reservation_key;
}

abbrev pub event_of : ℕ → Operation → Request → Fingerprint → Status → PeriodKey → Event
event_of id operation r fp status key = record {
  event_id = id;
  operation = operation;
  request_key = r.request_key;
  fingerprint = fp;
  status = status;
  units = r.units;
  period_key = key;
}
