-- ===== src/Usage/Ledger/Effects.antt =====
-- What a call of the offline ledger (backend/app/usage/ledger.py) that answers has done: by how much
-- it moved each counter, and that its answer shows them.
use zouseeking.Base.{
  ℕ, ◌+◌, ◌-◌, ◌≡◌, refl, ◌⊎◌, inl, inr, some, String, if◌then◌else◌, arith, ◌==◌, ltb, Bool-cases,
  Option-cases,
}
use zouseeking.Base.Dict.{lookup, insert, lookup-insert, lookup-insert_self}
use zouseeking.Usage.Errors.{Result, ok, err}
use zouseeking.Usage.Period.{period_bounds, Bounds}
use zouseeking.Usage.Ledger.Data.{
  Operation, PeriodKey, Fingerprint, period_key_eq, event_key_eq, reservation_id_eq,
  reservation_index_key_eq,
}
use zouseeking.Usage.Ledger.State.{
  Period, Status, consumed, reserved, committed, released, duplicate, Ledger, LedgerResult,
}
use zouseeking.Usage.Ledger.Steps.{
  Request, Uuids, period_key, index_key, reservation_id, Args, PyValue, positive_int,
}
use zouseeking.Usage.Ledger.Calls.{
  consume_in, held_elsewhere, reserve_in, settle, Active, settle_in, effective_key,
}
use zouseeking.Usage.Ledger.Invariant.{consumed_of, reserved_of, limit_of, Inv}
use zouseeking.Usage.Ledger.Updates.{held-le}
use zouseeking.Usage.Ledger.Outcomes.{Unchanged, Unchanged-refl, GotPeriod, FoundActive}

-- In period `k` the consumed count grew by `spent`, and the reserved count by `held` less `freed`;
-- no other period's counts changed.
pub record Moves (s t : Ledger) (k : PeriodKey) (spent held freed : ℕ) : Type 0 where
  pub consumed_at :
      (j : PeriodKey)
      → consumed_of (lookup j t.periods)
        ≡ consumed_of (lookup j s.periods) + (if k == j then spent else 0)
  pub reserved_at :
      (j : PeriodKey)
      → reserved_of (lookup j t.periods) + (if k == j then freed else 0)
        ≡ reserved_of (lookup j s.periods) + (if k == j then held else 0)

-- The answer shows the period as it now stands.
pub record Answers (r : LedgerResult) (t : Ledger) (k : PeriodKey) : Type 0 where
  pub consumed_shown : r.consumed ≡ consumed_of (lookup k t.periods)
  pub reserved_shown : r.reserved ≡ reserved_of (lookup k t.periods)
  pub limit_shown : r.limit ≡ limit_of (lookup k t.periods)

pub record Effect (st : Status) (s : Ledger) (r : LedgerResult) (t : Ledger) (k : PeriodKey)
    (spent held freed : ℕ) : Type 0 where
  pub status_is : r.status ≡ st
  pub moves : Moves s t k spent held freed
  pub answers : Answers r t k

-- A replay: the answer says so and nothing changed.
abbrev pub Replays : Ledger → LedgerResult → Ledger → Type 0
Replays s r t = (r.status ≡ duplicate) × (t ≡ s)

abbrev pub Consumes : Args → Ledger → Result LedgerResult × Ledger → Type 0
Consumes a s (err e, t) = Unit
Consumes a s (ok r, t) =
    Replays s r t
    ⊎ ((b : Bounds) × (positive_int a.units ≡ some r.units)
        × (period_bounds a.occurred_at a.period ≡ ok b)
        × Effect consumed s r t (period_key a.scope a.kind b.start) r.units 0 0)

abbrev pub Reserves : Args → Ledger → Result LedgerResult × Ledger → Type 0
Reserves a s (err e, t) = Unit
Reserves a s (ok r, t) =
    Replays s r t
    ⊎ ((b : Bounds) × (positive_int a.units ≡ some r.units)
        × (period_bounds a.occurred_at a.period ≡ ok b)
        × Effect reserved s r t (period_key a.scope a.kind b.start) 0 r.units 0)

-- Setting one stored period moves the counts by the difference.
set_period-Moves :
    (s t : Ledger) (k : PeriodKey) (p q : Period) (spent held freed : ℕ)
    → Unchanged s t
    → lookup k t.periods ≡ some p
    → q.consumed ≡ p.consumed + spent
    → q.reserved + freed ≡ p.reserved + held
    → (u : Ledger) → u.periods ≡ insert k q t.periods
    → Moves s u k spent held freed
set_period-Moves s t k p q spent held freed same stored c r u e = record {
  consumed_at = λ j. rw e (
      ground
        (arith, lookup-insert k j q t.periods, same.same_consumed j, period_key_eq.beq_iff k j));
  reserved_at = λ j. rw e (
      ground
        (arith, lookup-insert k j q t.periods, same.same_reserved j, period_key_eq.beq_iff k j));
}

set_period-Answers :
    (t u : Ledger) (k : PeriodKey) (q : Period) (r : LedgerResult)
    → u.periods ≡ insert k q t.periods
    → r.consumed ≡ q.consumed
    → r.reserved ≡ q.reserved
    → r.limit ≡ q.limit
    → Answers r u k
set_period-Answers t u k q r e c h l =
    let stored = lookup-insert_self k q t.periods in
    record {
      consumed_shown = rw (e, stored) c;
      reserved_shown = rw (e, stored) h;
      limit_shown = rw (e, stored) l;
    }

pub consume_in-Consumes :
    (a : Args) (r : Request) (fp : Fingerprint) (ids : Uuids) (k : PeriodKey) (p : Period)
    (s t : Ledger)
    → positive_int a.units ≡ some r.units
    → GotPeriod a.scope a.kind r.limit a.occurred_at a.period s (ok (k, p), t)
    → Consumes a s (consume_in a r fp ids (k, p) t)
unfolding consume_in
consume_in-Consumes a r fp ids k p s t valid (w, same, stored, lim, (b, at, key)) =
    elim (Bool-cases (ltb p.limit (p.consumed + p.reserved + r.units))) [
      | inl over ↦ rw over tt
      | inr within ↦ rw within (
          inr (
            b,
            valid,
            at,
            rw (← key) (record {
              status_is = refl;
              moves =
                  set_period-Moves s t k p (record p { consumed = p.consumed + r.units }) r.units 0
                    0 same stored refl (omega arith) _ refl;
              answers =
                  set_period-Answers t _ k (record p { consumed = p.consumed + r.units }) _ refl
                    refl refl refl;
            }),
          ))
    ]

pub reserve_in-Reserves :
    (a : Args) (r : Request) (n : String) (fp : Fingerprint) (ids : Uuids) (k : PeriodKey)
    (p : Period) (s t : Ledger)
    → positive_int a.units ≡ some r.units
    → GotPeriod a.scope a.kind r.limit a.occurred_at a.period s (ok (k, p), t)
    → Reserves a s (reserve_in a r n fp ids (k, p) t)
unfolding reserve_in
reserve_in-Reserves a r n fp ids k p s t valid (w, same, stored, lim, (b, at, key)) =
    elim (Option-cases (lookup (reservation_id k n) t.reservations)) [
      | inr (old, found) ↦ rw found tt
      | inl unused ↦
          rw unused
            (elim (Bool-cases
              (held_elsewhere k (lookup (index_key a.scope a.kind n) t.reservation_index))) [
                | inl elsewhere ↦ rw elsewhere tt
                | inr here ↦
                    rw here (elim (Bool-cases (ltb p.limit (p.consumed + p.reserved + r.units))) [
                      | inl over ↦ rw over tt
                      | inr within ↦ rw within (
                          inr (
                            b,
                            valid,
                            at,
                            rw (← key) (record {
                              status_is = refl;
                              moves =
                                  set_period-Moves s t k p
                                    (record p { reserved = p.reserved + r.units }) 0 r.units 0 same
                                    stored (omega arith) (omega arith) _ refl;
                              answers =
                                  set_period-Answers t _ k
                                    (record p { reserved = p.reserved + r.units }) _ refl refl refl
                                    refl;
                            }),
                          ))
                    ])
              ])
    ]

-- The status that `commit` and `release` give, and the units that they add to the consumed count.
abbrev pub settled_status : Operation → Status
settled_status Operation.commit = committed
settled_status _ = released

abbrev pub settled_units : Operation → ℕ → ℕ
settled_units Operation.commit units = units
settled_units _ units = 0

-- The reservation named by `key` is taken from the period that the index holds for it.
abbrev pub Settles : Operation → Args → PyValue → Ledger → Result LedgerResult × Ledger → Type 0
Settles o a key s (err e, t) = Unit
Settles o a key s (ok r, t) =
    Replays s r t
    ⊎ ((n : String) × (k : PeriodKey) × (positive_int a.units ≡ some r.units)
        × (effective_key o r.request_key key ≡ ok n)
        × (lookup (index_key a.scope a.kind n) s.reservation_index ≡ some k)
        × Effect (settled_status o) s r t k (settled_units o r.units) 0 r.units)

pub settle_in-Settles :
    (o : Operation) (a : Args) (r : Request) (key : PyValue) (n : String) (fp : Fingerprint)
    (ids : Uuids) (c : Active) (s t : Ledger)
    → positive_int a.units ≡ some r.units
    → effective_key o r.request_key key ≡ ok n
    → Inv s
    → FoundActive a r n s (ok c, t)
    → Settles o a key s (settle_in o a r n fp ids c t)
unfolding settle_in settle
settle_in-Settles Operation.commit a r key n fp ids c s t valid named v
      (same, index, stored, live, eu, est, _) =
    let le = held-le s (reservation_id c.key n) c.prior c.current live stored est v in
    let q = record (c.current) {
      consumed = c.current.consumed + r.units;
      reserved = c.current.reserved - r.units;
    } in
    inr (
      n,
      c.key,
      valid,
      named,
      index,
      record {
        status_is = refl;
        moves =
            set_period-Moves s s c.key c.current q r.units 0 r.units (Unchanged-refl s) stored refl
              (omega arith) _ (rw same);
        answers = set_period-Answers t _ c.key q _ refl refl refl refl;
      },
    )
settle_in-Settles o a r key n fp ids c s t valid named v (same, index, stored, live, eu, est, _) =
    let le = held-le s (reservation_id c.key n) c.prior c.current live stored est v in
    let q = record (c.current) { reserved = c.current.reserved - r.units } in
    inr (
      n,
      c.key,
      valid,
      named,
      index,
      record {
        status_is = refl;
        moves =
            set_period-Moves s s c.key c.current q 0 0 r.units (Unchanged-refl s) stored
              (omega arith) (omega arith) _ (rw same);
        answers = set_period-Answers t _ c.key q _ refl refl refl refl;
      },
    )
