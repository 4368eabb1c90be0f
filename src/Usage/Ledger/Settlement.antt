-- ===== src/Usage/Ledger/Settlement.antt =====
-- A reservation of the offline ledger (backend/app/usage/ledger.py) is settled at most once.
use mathlib.Core.Path.{◌∙◌}
use zouseeking.Base.{
  ℕ, ◌+◌, ◌≡◌, refl, false, inl, inr, some, String, arith, ltb, Bool-cases, Option-cases,
}
use zouseeking.Base.Dict.{lookup-insert_self, lookup, lookup-insert}
use zouseeking.Usage.Errors.{Result, ok}
use zouseeking.Usage.Ledger.Data.{
  ReservationIndexKey, Operation, PeriodKey, Fingerprint, period_key_eq, event_key_eq,
  reservation_id_eq, reservation_index_key_eq,
}
use zouseeking.Usage.Ledger.State.{Period, reserved, Reservation, Ledger, LedgerResult}
use zouseeking.Usage.Ledger.Steps.{Request, Uuids, index_key, reservation_id, Args}
use zouseeking.Usage.Ledger.Calls.{
  consume_in, held_elsewhere, reserve_in, settle, is_reserved, Active, settle_in,
}
use zouseeking.Usage.Ledger.Outcomes.{FoundActive}

-- The index names a period for the reservation key, and the reservation there is committed or
-- released.
pub record IsSettled (i : ReservationIndexKey) (s : Ledger) : Type 0 where
  pub period : PeriodKey
  pub row : Reservation
  pub names : lookup i s.reservation_index ≡ some period
  pub stored : lookup (reservation_id period i.reservation_key) s.reservations ≡ some row
  pub closed : is_reserved row.status ≡ false

-- The state after a call, whatever it answered.
abbrev pub After : (Ledger → Type 0) → Result LedgerResult × Ledger → Type 0
After P (r, t) = P t

pub same_rows-IsSettled :
    (i : ReservationIndexKey) (s t : Ledger)
    → t.reservations ≡ s.reservations
    → t.reservation_index ≡ s.reservation_index
    → IsSettled i s
    → IsSettled i t
same_rows-IsSettled i s t e f h = record {
  period = h.period;
  row = h.row;
  names = rw f (h.names);
  stored = rw e (h.stored);
  closed = h.closed;
}

pub consume_in-IsSettled :
    (i : ReservationIndexKey) (a : Args) (r : Request) (fp : Fingerprint) (ids : Uuids)
    (k : PeriodKey) (p : Period) (t : Ledger)
    → IsSettled i t
    → After (IsSettled i) (consume_in a r fp ids (k, p) t)
unfolding consume_in
consume_in-IsSettled i a r fp ids k p t h =
    elim (Bool-cases (ltb p.limit (p.consumed + p.reserved + r.units))) [
      | inl over ↦ rw over h
      | inr within ↦ rw within (same_rows-IsSettled i t _ refl refl h)
    ]

-- A new reservation leaves a settled one alone: it has another key, or it is refused.
pub reserve_in-IsSettled :
    (i : ReservationIndexKey) (a : Args) (r : Request) (n : String) (fp : Fingerprint) (ids : Uuids)
    (k : PeriodKey) (p : Period) (t : Ledger)
    → IsSettled i t
    → After (IsSettled i) (reserve_in a r n fp ids (k, p) t)
unfolding reserve_in
reserve_in-IsSettled i a r n fp ids k p t h =
    elim (Option-cases (lookup (reservation_id k n) t.reservations)) [
      | inr (old, found) ↦ rw found h
      | inl unused ↦
          rw unused
            (elim (Bool-cases
              (held_elsewhere k (lookup (index_key a.scope a.kind n) t.reservation_index))) [
                | inl elsewhere ↦ rw elsewhere h
                | inr here ↦
                    rw here (elim (Bool-cases (ltb p.limit (p.consumed + p.reserved + r.units))) [
                      | inl over ↦ rw over h
                      | inr within ↦ rw within (record {
                        period = h.period;
                        row = h.row;
                        names = ground (
                          arith,
                          lookup-insert (index_key a.scope a.kind n) i k t.reservation_index,
                          reservation_index_key_eq.beq_iff (index_key a.scope a.kind n) i,
                          period_key_eq.beq_iff h.period k,
                          h.names,
                          h.stored,
                        );
                        stored = ground (
                          arith,
                          lookup-insert (reservation_id k n)
                              (reservation_id h.period i.reservation_key)
                              (record {
                                period_key = k;
                                reservation_key = n;
                                units = r.units;
                                status = reserved;
                              })
                              t.reservations,
                          reservation_id_eq.beq_iff (reservation_id k n)
                              (reservation_id h.period i.reservation_key),
                          h.stored,
                        );
                        closed = h.closed;
                      })
                    ])
              ])
    ]

settled_status-closed : (o : Operation) (p : Period) (n : ℕ) → is_reserved (settle o p n).1 ≡ false
unfolding settle
settled_status-closed Operation.commit p n = refl
settled_status-closed o p n = refl

pub settle_in-IsSettled :
    (i : ReservationIndexKey) (o : Operation) (a : Args) (r : Request) (n : String)
    (fp : Fingerprint) (ids : Uuids) (c : Active) (t : Ledger)
    → IsSettled i t
    → After (IsSettled i) (settle_in o a r n fp ids c t)
unfolding settle_in
settle_in-IsSettled i o a r n fp ids c t h =
    let row = record (c.prior) { status = (settle o c.current r.units).1 } in
    let after =
      lookup-insert (reservation_id c.key n) (reservation_id h.period i.reservation_key) row
        t.reservations in
    elim (Bool-cases (
      reservation_id_eq.beq (reservation_id c.key n) (reservation_id h.period i.reservation_key))) [
        | inl same ↦ record {
          period = h.period;
          row = row;
          names = h.names;
          stored = rw same at after;
          closed = settled_status-closed o c.current r.units;
        }
        | inr other ↦ record {
          period = h.period;
          row = h.row;
          names = h.names;
          stored = (rw other at after) ∙ h.stored;
          closed = h.closed;
        }
      ]

-- The reservation that a call settles is settled after it.
pub settle_in-settles :
    (o : Operation) (a : Args) (r : Request) (n : String) (fp : Fingerprint) (ids : Uuids)
    (c : Active) (s t : Ledger)
    → FoundActive a r n s (ok c, t)
    → After (IsSettled (index_key a.scope a.kind n)) (settle_in o a r n fp ids c t)
unfolding settle_in
settle_in-settles o a r n fp ids c s t (same, index, _, _, _, _, _) =
    let row = record (c.prior) { status = (settle o c.current r.units).1 } in
    record {
      period = c.key;
      row = row;
      names = rw same index;
      stored = lookup-insert_self (reservation_id c.key n) row t.reservations;
      closed = settled_status-closed o c.current r.units;
    }

-- A settled reservation is not found live again.
pub FoundActive-open :
    (a : Args) (r : Request) (n : String) (c : Active) (s t : Ledger)
    → FoundActive a r n s (ok c, t)
    → ¬ IsSettled (index_key a.scope a.kind n) s
FoundActive-open a r n c s t (_, index, _, live, _, open_status, _) h =
    ground (arith, h.names, h.stored, h.closed, index, live, open_status)
