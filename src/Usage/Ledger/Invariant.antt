-- ===== src/Usage/Ledger/Invariant.antt =====
-- The invariant of the offline ledger (backend/app/usage/ledger.py): the counters of every period are
-- the sums of what its events and reservations say, and fit its limit.
use zouseeking.Base.{
  ℕ, ◌+◌, ◌≤◌, ◌≡◌, Bool, true, false, ◌&&◌, Option, none, some, if◌then◌else◌, arith, ◌==◌,
  is_some,
}
use zouseeking.Base.Dict.{lookup, total}
use zouseeking.Usage.Ledger.Data.{
  PeriodKey, EventKey, ReservationIndexKey, ReservationId, period_key_eq, event_key_eq,
  reservation_id_eq, reservation_index_key_eq,
}
use zouseeking.Usage.Ledger.State.{
  Period, Status, consumed, committed, Event, Reservation, Ledger, init,
}
use zouseeking.Usage.Ledger.Calls.{is_reserved}

abbrev pub consumed_of : Option Period → ℕ
consumed_of none = 0
consumed_of (some p) = p.consumed

abbrev pub reserved_of : Option Period → ℕ
reserved_of none = 0
reserved_of (some p) = p.reserved

abbrev pub limit_of : Option Period → ℕ
limit_of none = 0
limit_of (some p) = p.limit

abbrev pub is_spent : Status → Bool
is_spent consumed = true
is_spent committed = true
is_spent _ = false

-- What a reservation holds of a period, and what an event has spent of it.
abbrev pub held : PeriodKey → Reservation → ℕ
held k r = if (r.period_key == k) && is_reserved r.status then r.units else 0

abbrev pub spent : PeriodKey → Event → ℕ
spent k e = if (e.period_key == k) && is_spent e.status then e.units else 0

pub record Inv (s : Ledger) : Type 0 where
  pub fits :
      (k : PeriodKey)
      → consumed_of (lookup k s.periods) + reserved_of (lookup k s.periods)
        ≤ limit_of (lookup k s.periods)
  pub holds : (k : PeriodKey) → reserved_of (lookup k s.periods) ≡ total (held k) s.reservations
  pub spends : (k : PeriodKey) → consumed_of (lookup k s.periods) ≡ total (spent k) s.events
  pub filed :
      (i : ReservationId) (r : Reservation)
      → lookup i s.reservations ≡ some r
      → r.period_key ≡ i.period_key
  pub indexed :
      (i : ReservationIndexKey) (k : PeriodKey)
      → lookup i s.reservation_index ≡ some k
      → is_some (lookup k s.periods) ≡ true
  pub logged :
      (i : EventKey) (e : Event)
      → lookup i s.events ≡ some e
      → is_some (lookup e.period_key s.periods) ≡ true

pub init-Inv : Inv init
unfolding lookup total
init-Inv = record {
  fits = λ k. omega arith;
  holds = λ k. omega arith;
  spends = λ k. omega arith;
  filed = λ i r h. cc;
  indexed = λ i k h. cc;
  logged = λ i e h. cc;
}
