-- ===== src/Usage/Ledger/Kept.antt =====
-- A settled reservation of the offline ledger (backend/app/usage/ledger.py) stays settled over any
-- calls.
use zouseeking.Base.{[], ◌∷◌, List, inl, inr, none, some, String}
use zouseeking.Usage.Errors.{Result, ok, err, Result-cases}
use zouseeking.Usage.Ledger.Data.{
  ReservationIndexKey, Operation, PeriodKey, Fingerprint, period_key_eq, event_key_eq,
  reservation_id_eq, reservation_index_key_eq,
}
use zouseeking.Usage.Ledger.State.{Period, Ledger}
use zouseeking.Usage.Ledger.Steps.{
  Request, Uuids, get_period, Args, PyValue, validate_request, fingerprint_of,
}
use zouseeking.Usage.Ledger.Calls.{
  consume_in, consume_new, consume, reserve_in, reserve_new, active_reservation, settle_in,
  transition_new, effective_key, reserve_or_transition_new, reserve_or_transition, reserve, commit,
  release,
}
use zouseeking.Usage.Ledger.Rules.{bind_rule}
use zouseeking.Usage.Ledger.Invariant.{Inv}
use zouseeking.Usage.Ledger.Outcomes.{
  GotPeriod, get_period-GotPeriod, FoundActive, active_reservation-FoundActive, replay_rule,
}
use zouseeking.Usage.Ledger.History.{
  step-Inv, Call, consumes, reserves, commits, releases, step, run,
}
use zouseeking.Usage.Ledger.Settlement.{
  IsSettled, After, same_rows-IsSettled, consume_in-IsSettled, reserve_in-IsSettled,
  settle_in-IsSettled,
}

GotPeriod-IsSettled :
    (i : ReservationIndexKey) (a : Args) (r : Request) (s : Ledger)
    (m : Result (PeriodKey × Period) × Ledger)
    → GotPeriod a.scope a.kind r.limit a.occurred_at a.period s m
    → IsSettled i s
    → IsSettled i m.1
GotPeriod-IsSettled i a r s (ok (k, p), t) (_, same, _, _, _) h =
    same_rows-IsSettled i s t same.same_reservations same.same_index h
GotPeriod-IsSettled i a r s (err e, t) (same, _) h = rw same h

consume_new-IsSettled :
    (i : ReservationIndexKey) (a : Args) (r : Request) (fp : Fingerprint) (ids : Uuids) (s : Ledger)
    → Inv s
    → IsSettled i s
    → After (IsSettled i) (consume_new a r fp ids s)
unfolding consume_new
consume_new-IsSettled i a r fp ids s v h =
    bind_rule (GotPeriod a.scope a.kind r.limit a.occurred_at a.period s) (After (IsSettled i))
      (get_period a.scope a.kind r.limit a.occurred_at a.period ids.for_period)
      (consume_in a r fp ids) s
      (get_period-GotPeriod a.scope a.kind r.limit a.occurred_at a.period ids.for_period s v)
      (λ (k, p) t got.
        consume_in-IsSettled i a r fp ids k p t (GotPeriod-IsSettled i a r s (ok (k, p), t) got h))
      (λ e t got. GotPeriod-IsSettled i a r s (err e, t) got h)

reserve_or_transition_new-IsSettled :
    (i : ReservationIndexKey) (o : Operation) (a : Args) (r : Request) (n : String)
    (fp : Fingerprint) (ids : Uuids) (s : Ledger)
    → Inv s
    → IsSettled i s
    → After (IsSettled i) (reserve_or_transition_new o a r n fp ids s)
unfolding reserve_new transition_new
reserve_or_transition_new-IsSettled i Operation.reserve a r n fp ids s v h =
    bind_rule (GotPeriod a.scope a.kind r.limit a.occurred_at a.period s) (After (IsSettled i))
      (get_period a.scope a.kind r.limit a.occurred_at a.period ids.for_period)
      (reserve_in a r n fp ids) s
      (get_period-GotPeriod a.scope a.kind r.limit a.occurred_at a.period ids.for_period s v)
      (λ (k, p) t got.
        reserve_in-IsSettled i a r n fp ids k p t
          (GotPeriod-IsSettled i a r s (ok (k, p), t) got h))
      (λ e t got. GotPeriod-IsSettled i a r s (err e, t) got h)
reserve_or_transition_new-IsSettled i o a r n fp ids s v h =
    bind_rule (FoundActive a r n s) (After (IsSettled i)) (active_reservation a r n)
      (settle_in o a r n fp ids) s (active_reservation-FoundActive a r n s v)
      (λ c t found. settle_in-IsSettled i o a r n fp ids c t (rw (found.0) h))
      (λ e t (same, _). rw same h)

consume-IsSettled :
    (i : ReservationIndexKey) (a : Args) (ids : Uuids) (s : Ledger)
    → Inv s
    → IsSettled i s
    → After (IsSettled i) (consume a ids s)
unfolding consume
consume-IsSettled i a ids s v h =
    elim (Result-cases (validate_request a.units a.limit a.request_key)) [
      | inr (e, bad) ↦ rw bad h
      | inl (r, good) ↦
          let fp = fingerprint_of a r Operation.consume none in
          rw good (
            replay_rule (After (IsSettled i)) Operation.consume a.scope r.request_key fp
              (consume_new a r fp ids) s v (λ r dup. h) (λ e ne. h)
              (λ _. consume_new-IsSettled i a r fp ids s v h))
    ]

reserve_or_transition-IsSettled :
    (i : ReservationIndexKey) (o : Operation) (a : Args) (key : PyValue) (ids : Uuids) (s : Ledger)
    → Inv s
    → IsSettled i s
    → After (IsSettled i) (reserve_or_transition o a key ids s)
unfolding reserve_or_transition
reserve_or_transition-IsSettled i o a key ids s v h =
    elim (Result-cases (validate_request a.units a.limit a.request_key)) [
      | inr (e, bad) ↦ rw bad h
      | inl (r, good) ↦ rw good (elim (Result-cases (effective_key o r.request_key key)) [
        | inr (e, bad) ↦ rw bad h
        | inl (n, named) ↦
            let fp = fingerprint_of a r o (some n) in
            rw named (
              replay_rule (After (IsSettled i)) o a.scope r.request_key fp
                (reserve_or_transition_new o a r n fp ids) s v (λ r dup. h) (λ e ne. h)
                (λ _. reserve_or_transition_new-IsSettled i o a r n fp ids s v h))
      ])
    ]

step-IsSettled :
    (i : ReservationIndexKey) (c : Call) (s : Ledger)
    → Inv s
    → IsSettled i s
    → After (IsSettled i) (step c s)
unfolding step reserve commit release
step-IsSettled i (consumes a ids) s v h = consume-IsSettled i a ids s v h
step-IsSettled i (reserves a k ids) s v h =
    reserve_or_transition-IsSettled i Operation.reserve a k ids s v h
step-IsSettled i (commits a k ids) s v h =
    reserve_or_transition-IsSettled i Operation.commit a k ids s v h
step-IsSettled i (releases a k ids) s v h =
    reserve_or_transition-IsSettled i Operation.release a k ids s v h

pub run-IsSettled :
    (i : ReservationIndexKey) (cs : List Call) (s : Ledger)
    → Inv s
    → IsSettled i s
    → IsSettled i (run cs s)
unfolding run
run-IsSettled i [] s v h = h
run-IsSettled i (c ∷ cs) s v h =
    run-IsSettled i cs (step c s).1 (step-Inv c s v) (step-IsSettled i c s v h)
