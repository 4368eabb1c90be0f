-- ===== src/Usage/Ledger/Calls.antt =====
-- The public methods of `class Ledger` (backend/app/usage/ledger.py).
use zouseeking.Base.{
  ℕ, ◌+◌, ◌-◌, Bool, true, false, not, ◌||◌, Option, none, some, String, nat_beq, ◌==◌, is_some,
}
use zouseeking.Base.Dict.{lookup, insert}
use zouseeking.Usage.Errors.{
  Result, ok, err, value_error, key_error, idempotency_conflict, reservation_not_found,
  reservation_state_error,
}
use zouseeking.Usage.Period.{DateTime, period_bounds}
use zouseeking.Usage.Ledger.Data.{
  Scope, UsageKind, Operation, PeriodKey, Fingerprint, period_key_eq, event_key_eq,
  reservation_id_eq, reservation_index_key_eq,
}
use zouseeking.Usage.Ledger.State.{
  Period, Status, consumed, reserved, committed, released, Reservation, LedgerResult, LedgerSummary,
  Action, pure, gets, or_raise, lift, ◌>>=◌, ◌>>◌, raise_if, modify,
}
use zouseeking.Usage.Ledger.Steps.{
  PyValue, null, key_text, Request, validate_request, Uuids, period_key, get_period, index_key,
  reservation_id, result, existing, ensure_capacity, set_period, record_event, Args, fingerprint_of,
  event_of,
}

-- `if existing: return existing`, and otherwise what follows.
abbrev pub or_replay : Action LedgerResult → Option LedgerResult → Action LedgerResult
or_replay next none = next
or_replay next (some old) = pure old

-- `consume` once it has its period.
unfoldable pub consume_in :
    Args → Request → Fingerprint → Uuids → PeriodKey × Period → Action LedgerResult
unfolding ensure_capacity
consume_in a r fp ids (key, current) = do
  ensure_capacity current r.units
  let event = event_of ids.for_event Operation.consume r fp consumed key
  let charged = record current { consumed = current.consumed + r.units }
  record_event a.scope event
  set_period key charged
  pure (result charged event consumed)

-- `consume` behind its replay check.
unfoldable pub consume_new : Args → Request → Fingerprint → Uuids → Action LedgerResult
consume_new a r fp ids =
    get_period a.scope a.kind r.limit a.occurred_at a.period ids.for_period
    >>= consume_in a r fp ids

unfoldable pub consume : Args → Uuids → Action LedgerResult
consume a ids = do
  r ← lift (validate_request a.units a.limit a.request_key)
  let fp = fingerprint_of a r Operation.consume none
  existing a.scope r.request_key Operation.consume fp >>= or_replay (consume_new a r fp ids)

-- The reservation's key: for `reserve` the request key, and none may be passed.
unfoldable pub effective_key : Operation → String → PyValue → Result String
unfolding key_text
effective_key Operation.reserve request_key null = ok request_key
effective_key Operation.reserve request_key _ = err value_error
effective_key _ request_key reservation_key = elim (key_text reservation_key) [
  | none ↦ err value_error
  | some k ↦ ok k
]

-- Whether the index holds the reservation key for another period.
abbrev pub held_elsewhere : PeriodKey → Option PeriodKey → Bool
held_elsewhere key none = false
held_elsewhere key (some other_key) = not (other_key == key)

-- The `reserve` branch of `_reserve_or_transition` once it has its period.
unfoldable pub reserve_in :
    Args → Request → String → Fingerprint → Uuids → PeriodKey × Period → Action LedgerResult
unfolding ensure_capacity
reserve_in a r k fp ids (key, current) = do
  prior ← gets (λ s. lookup (reservation_id key k) s.reservations)
  indexed ← gets (λ s. lookup (index_key a.scope a.kind k) s.reservation_index)
  raise_if (is_some prior || held_elsewhere key indexed) idempotency_conflict
  ensure_capacity current r.units
  let charged = record current { reserved = current.reserved + r.units }
  set_period key charged
  let row : Reservation = record {
    period_key = key;
    reservation_key = k;
    units = r.units;
    status = reserved;
  }
  modify λ s. record s { reservations = insert (reservation_id key k) row s.reservations }
  modify λ s. record s {
    reservation_index = insert (index_key a.scope a.kind k) key s.reservation_index;
  }
  let event = event_of ids.for_event Operation.reserve r fp reserved key
  record_event a.scope event
  pure (result charged event reserved)

unfoldable pub reserve_new : Args → Request → String → Fingerprint → Uuids → Action LedgerResult
reserve_new a r k fp ids =
    get_period a.scope a.kind r.limit a.occurred_at a.period ids.for_period
    >>= reserve_in a r k fp ids

abbrev pub is_reserved : Status → Bool
is_reserved reserved = true
is_reserved _ = false

-- The period after a transition, and the status that it gives the reservation.
unfoldable pub settle : Operation → Period → ℕ → Period × Status
settle Operation.commit p units =
    (record p { reserved = p.reserved - units; consumed = p.consumed + units }, committed)
settle _ p units = (record p { reserved = p.reserved - units }, released)

pub record Active : Type 0 where
  pub key : PeriodKey
  pub current : Period
  pub prior : Reservation

-- The reservation that a `commit` or a `release` ends, with the period that it was made in.
unfoldable pub active_reservation : Args → Request → String → Action Active
active_reservation a r k = do
  indexed ← gets (λ s. lookup (index_key a.scope a.kind k) s.reservation_index)
  key ← or_raise indexed reservation_not_found
  stored ← gets (λ s. lookup key s.periods)
  current ← or_raise stored key_error
  raise_if (not (nat_beq current.limit r.limit)) idempotency_conflict
  found ← gets (λ s. lookup (reservation_id key k) s.reservations)
  prior ← or_raise found reservation_not_found
  raise_if (not (nat_beq prior.units r.units)) idempotency_conflict
  raise_if (not (is_reserved prior.status)) reservation_state_error
  pure (record { key = key; current = current; prior = prior })

unfoldable pub settle_in :
    Operation → Args → Request → String → Fingerprint → Uuids → Active → Action LedgerResult
settle_in operation a r k fp ids c = do
  let (settled, status) = settle operation c.current r.units
  set_period c.key settled
  let row = record (c.prior) { status = status }
  modify λ s. record s { reservations = insert (reservation_id c.key k) row s.reservations }
  let event = event_of ids.for_event operation r fp status c.key
  record_event a.scope event
  pure (result settled event status)

-- The `commit` and `release` branch of `_reserve_or_transition`.
unfoldable pub transition_new :
    Operation → Args → Request → String → Fingerprint → Uuids → Action LedgerResult
transition_new operation a r k fp ids =
    active_reservation a r k >>= settle_in operation a r k fp ids

-- The two branches of `_reserve_or_transition` behind its replay check.
abbrev pub reserve_or_transition_new :
    Operation → Args → Request → String → Fingerprint → Uuids → Action LedgerResult
reserve_or_transition_new Operation.reserve = reserve_new
reserve_or_transition_new operation = transition_new operation

-- `_reserve_or_transition`
unfoldable pub reserve_or_transition : Operation → Args → PyValue → Uuids → Action LedgerResult
reserve_or_transition operation a reservation_key ids = do
  r ← lift (validate_request a.units a.limit a.request_key)
  k ← lift (effective_key operation r.request_key reservation_key)
  let fp = fingerprint_of a r operation (some k)
  existing a.scope r.request_key operation fp
      >>= or_replay (reserve_or_transition_new operation a r k fp ids)

unfoldable pub reserve : Args → PyValue → Uuids → Action LedgerResult
reserve a reservation_key ids = reserve_or_transition Operation.reserve a reservation_key ids

unfoldable pub commit : Args → PyValue → Uuids → Action LedgerResult
commit a reservation_key ids = reserve_or_transition Operation.commit a reservation_key ids

unfoldable pub release : Args → PyValue → Uuids → Action LedgerResult
release a reservation_key ids = reserve_or_transition Operation.release a reservation_key ids

-- `summary`
unfoldable pub summary : Scope → UsageKind → DateTime → String → Action LedgerSummary
summary scope kind occurred_at period = do
  b ← lift (period_bounds occurred_at period)
  found ← gets (λ s. lookup (period_key scope kind b.start) s.periods)
  elim found [
    | none ↦ pure (record {
      scope = scope;
      kind = kind;
      consumed = 0;
      reserved = 0;
      limit = 0;
      period_start = b.start;
      period_end = b.finish;
    })
    | some p ↦ pure (record {
      scope = scope;
      kind = kind;
      consumed = p.consumed;
      reserved = p.reserved;
      limit = p.limit;
      period_start = p.period_start;
      period_end = p.period_end;
    })
  ]
