-- ===== src/Usage/Ledger/Updates.antt =====
-- Each way in which a call changes the offline ledger keeps the invariant.
use zouseeking.Base.{◌+◌, ◌≤◌, ◌≡◌, false, none, some, if◌then◌else◌, arith}
use zouseeking.Base.Dict.{
  lookup, insert, lookup-insert, total-insert_new, total-insert_old, le-total,
}
use zouseeking.Usage.Ledger.Data.{
  PeriodKey, EventKey, ReservationIndexKey, ReservationId, period_key_eq, event_key_eq,
  reservation_id_eq, reservation_index_key_eq,
}
use zouseeking.Usage.Ledger.State.{Period, consumed, reserved, Event, Reservation, Ledger}
use zouseeking.Usage.Ledger.Calls.{is_reserved}
use zouseeking.Usage.Ledger.Invariant.{is_spent, held, spent, Inv}

-- A new period with nothing in it.
pub add_period-Inv :
    (s : Ledger) (k : PeriodKey) (p : Period)
    → lookup k s.periods ≡ none
    → p.consumed ≡ 0
    → p.reserved ≡ 0
    → Inv s
    → Inv (record s { periods = insert k p s.periods })
add_period-Inv s k p fresh c r v = record {
  fits = λ j. ground (arith, lookup-insert k j p s.periods, v.fits j);
  holds = λ j. ground (arith, lookup-insert k j p s.periods, v.holds j, period_key_eq.beq_iff k j);
  spends =
      λ j. ground (arith, lookup-insert k j p s.periods, v.spends j, period_key_eq.beq_iff k j);
  filed = v.filed;
  indexed = λ i j h. ground (arith, lookup-insert k j p s.periods, v.indexed i j h);
  logged = λ i e h. ground (arith, lookup-insert k e.period_key p s.periods, v.logged i e h);
}

-- A consumption: one more event, and its units in the period's count.
pub spend-Inv :
    (s : Ledger) (k : PeriodKey) (p q : Period) (i : EventKey) (e : Event)
    → lookup k s.periods ≡ some p
    → lookup i s.events ≡ none
    → e.period_key ≡ k
    → e.status ≡ consumed
    → q.consumed ≡ p.consumed + e.units
    → q.reserved ≡ p.reserved
    → q.limit ≡ p.limit
    → p.consumed + p.reserved + e.units ≤ p.limit
    → Inv s
    → Inv (record s { periods = insert k q s.periods; events = insert i e s.events })
spend-Inv s k p q i e hp he ek est qc qr ql cap v = record {
  fits = λ j. ground (arith, lookup-insert k j q s.periods, v.fits j);
  holds = λ j.
      ground
        (arith, lookup-insert k j q s.periods, v.holds j, v.holds k, period_key_eq.beq_iff k j);
  spends = λ j. ground (
    arith,
    lookup-insert k j q s.periods,
    v.spends j,
    v.spends k,
    period_key_eq.beq_iff k j,
    total-insert_new (spent j) i e s.events he,
  );
  filed = v.filed;
  indexed = λ i' j h. ground (arith, lookup-insert k j q s.periods, v.indexed i' j h);
  logged = λ i' e' h. ground (
    arith,
    lookup-insert k e'.period_key q s.periods,
    lookup-insert i i' e s.events,
    v.logged i' e',
    period_key_eq.beq_iff k e'.period_key,
  );
}

-- A reservation: a row that holds its units, its event and its entry in the index.
pub hold-Inv :
    (s : Ledger) (k : PeriodKey) (p q : Period) (i : EventKey) (e : Event) (d : ReservationId)
    (r : Reservation) (x : ReservationIndexKey)
    → lookup k s.periods ≡ some p
    → lookup i s.events ≡ none
    → lookup d s.reservations ≡ none
    → e.period_key ≡ k
    → e.status ≡ reserved
    → d.period_key ≡ k
    → r.period_key ≡ k
    → r.status ≡ reserved
    → q.consumed ≡ p.consumed
    → q.reserved ≡ p.reserved + r.units
    → q.limit ≡ p.limit
    → p.consumed + p.reserved + r.units ≤ p.limit
    → Inv s
    → Inv (record s {
      periods = insert k q s.periods;
      events = insert i e s.events;
      reservations = insert d r s.reservations;
      reservation_index = insert x k s.reservation_index;
    })
hold-Inv s k p q i e d r x hp he hd ek est dk rk rst qc qr ql cap v = record {
  fits = λ j. ground (arith, lookup-insert k j q s.periods, v.fits j);
  holds = λ j. ground (
    arith,
    lookup-insert k j q s.periods,
    v.holds j,
    v.holds k,
    period_key_eq.beq_iff k j,
    total-insert_new (held j) d r s.reservations hd,
  );
  spends = λ j. ground (
    arith,
    lookup-insert k j q s.periods,
    v.spends j,
    v.spends k,
    period_key_eq.beq_iff k j,
    total-insert_new (spent j) i e s.events he,
  );
  filed = λ d' r' h.
      ground
        (arith, lookup-insert d d' r s.reservations, reservation_id_eq.beq_iff d d', v.filed d' r');
  indexed = λ x' j h. ground (
    arith,
    lookup-insert k j q s.periods,
    lookup-insert x x' k s.reservation_index,
    v.indexed x' j,
    period_key_eq.beq_iff k j,
  );
  logged = λ i' e' h. ground (
    arith,
    lookup-insert k e'.period_key q s.periods,
    lookup-insert i i' e s.events,
    v.logged i' e',
    period_key_eq.beq_iff k e'.period_key,
  );
}

-- The end of a reservation `r` whose units go to the count if `st` is a spent status.
pub settle-Inv :
    (s : Ledger) (k : PeriodKey) (p q : Period) (i : EventKey) (e : Event) (d : ReservationId)
    (r r' : Reservation)
    → lookup k s.periods ≡ some p
    → lookup i s.events ≡ none
    → lookup d s.reservations ≡ some r
    → d.period_key ≡ k
    → e.period_key ≡ k
    → e.units ≡ r.units
    → r.status ≡ reserved
    → is_reserved r'.status ≡ false
    → r'.period_key ≡ r.period_key
    → q.consumed ≡ p.consumed + (if is_spent e.status then r.units else 0)
    → q.reserved + r.units ≡ p.reserved
    → q.limit ≡ p.limit
    → Inv s
    → Inv (record s {
      periods = insert k q s.periods;
      events = insert i e s.events;
      reservations = insert d r' s.reservations;
    })
settle-Inv s k p q i e d r r' hp he hd dk ek eu rst rst' rk qc qr ql v = record {
  fits = λ j. ground (arith, lookup-insert k j q s.periods, v.fits j, v.fits k);
  holds = λ j. ground (
    arith,
    lookup-insert k j q s.periods,
    v.holds j,
    v.holds k,
    period_key_eq.beq_iff k j,
    total-insert_old (held j) d r' r s.reservations hd,
    v.filed d r hd,
    period_key_eq.beq_iff r.period_key j,
  );
  spends = λ j. ground (
    arith,
    lookup-insert k j q s.periods,
    v.spends j,
    v.spends k,
    period_key_eq.beq_iff k j,
    total-insert_new (spent j) i e s.events he,
  );
  filed = λ d' t h. ground (
    arith,
    lookup-insert d d' r' s.reservations,
    reservation_id_eq.beq_iff d d',
    v.filed d' t,
    v.filed d r hd,
  );
  indexed = λ x j h. ground (arith, lookup-insert k j q s.periods, v.indexed x j h);
  logged = λ i' e' h. ground (
    arith,
    lookup-insert k e'.period_key q s.periods,
    lookup-insert i i' e s.events,
    v.logged i' e',
    period_key_eq.beq_iff k e'.period_key,
  );
}

-- What a live reservation holds is counted in its period, so that taking it off is exact.
pub held-le :
    (s : Ledger) (d : ReservationId) (r : Reservation) (p : Period)
    → lookup d s.reservations ≡ some r
    → lookup d.period_key s.periods ≡ some p
    → r.status ≡ reserved
    → Inv s
    → r.units ≤ p.reserved
held-le s d r p hd hp st v = ground (
  arith,
  le-total (held d.period_key) d r s.reservations hd,
  v.holds d.period_key,
  v.filed d r hd,
  period_key_eq.beq_iff r.period_key d.period_key,
)
