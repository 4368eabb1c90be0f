-- ===== src/Usage/Ledger/Endings.antt =====
-- However a call of the offline ledger (backend/app/usage/ledger.py) ends, the invariant holds, and
-- a call that raises has moved no counter.
use zouseeking.Base.{
  ◌+◌, ◌-◌, ◌≡◌, ◌≢◌, refl, sym, none, some, String, arith, ltb, Bool-cases, Option-cases, inl, inr,
}
use zouseeking.Base.Dict.{lookup}
use zouseeking.Usage.Errors.{Result, ok, err, Error, key_error, Result-cases}
use zouseeking.Usage.Ledger.Data.{
  Operation, PeriodKey, Fingerprint, period_key_eq, event_key_eq, reservation_id_eq,
  reservation_index_key_eq, fingerprint_eq,
}
use zouseeking.Usage.Ledger.State.{
  Period, consumed, reserved, committed, released, Ledger, LedgerResult, Action, ◌>>=◌,
}
use zouseeking.Usage.Ledger.Steps.{
  Request, Uuids, get_period, event_key, index_key, reservation_id, Args, existing, PyValue, null,
  event_of, validate_request, fingerprint_of,
}
use zouseeking.Usage.Ledger.Calls.{
  consume_in, consume_new, consume, held_elsewhere, reserve_in, reserve_new, settle, transition_new,
  Active, active_reservation, settle_in, or_replay, reserve_or_transition_new,
  reserve_or_transition, effective_key,
}
use zouseeking.Usage.Ledger.Rules.{bind_rule}
use zouseeking.Usage.Ledger.Invariant.{Inv}
use zouseeking.Usage.Ledger.Updates.{spend-Inv, hold-Inv, settle-Inv, held-le}
use zouseeking.Usage.Ledger.Outcomes.{
  Unchanged, Unchanged-refl, GotPeriod, get_period-GotPeriod, FoundActive,
  active_reservation-FoundActive, replay_rule,
}

-- How a call may end: it answers and keeps the invariant, or it raises and changes no count.
abbrev pub Ends : Ledger → Result LedgerResult × Ledger → Type 0
Ends s (ok r, t) = Inv t
Ends s (err e, t) = Inv t × Unchanged s t × (e ≢ key_error)

pub consume_in-Ends :
    (a : Args) (r : Request) (fp : Fingerprint) (ids : Uuids) (k : PeriodKey) (p : Period)
    (s t : Ledger)
    → lookup (event_key a.scope r.request_key Operation.consume) s.events ≡ none
    → GotPeriod a.scope a.kind r.limit a.occurred_at a.period s (ok (k, p), t)
    → Ends s (consume_in a r fp ids (k, p) t)
unfolding consume_in
consume_in-Ends a r fp ids k p s t fresh (w, same, stored, lim, _) =
    elim (Bool-cases (ltb p.limit (p.consumed + p.reserved + r.units))) [
      | inl over ↦ rw over (w, same, ground arith)
      | inr within ↦ rw within (
          spend-Inv t k p (record p { consumed = p.consumed + r.units })
            (event_key a.scope r.request_key Operation.consume)
            (event_of ids.for_event Operation.consume r fp consumed k) stored
            (rw same.same_events fresh) refl refl refl refl refl (ground arith) w)
    ]

pub consume_new-Ends :
    (a : Args) (r : Request) (fp : Fingerprint) (ids : Uuids) (s : Ledger)
    → lookup (event_key a.scope r.request_key Operation.consume) s.events ≡ none
    → Inv s
    → Ends s (consume_new a r fp ids s)
unfolding consume_new
consume_new-Ends a r fp ids s fresh v =
    bind_rule (GotPeriod a.scope a.kind r.limit a.occurred_at a.period s) (Ends s)
      (get_period a.scope a.kind r.limit a.occurred_at a.period ids.for_period)
      (consume_in a r fp ids) s
      (get_period-GotPeriod a.scope a.kind r.limit a.occurred_at a.period ids.for_period s v)
      (λ (k, p) t got. consume_in-Ends a r fp ids k p s t fresh got)
      (λ e t (same, ne). rw same (v, Unchanged-refl s, ne))

reserve_in-Ends :
    (a : Args) (r : Request) (n : String) (fp : Fingerprint) (ids : Uuids) (k : PeriodKey)
    (p : Period) (s t : Ledger)
    → lookup (event_key a.scope r.request_key Operation.reserve) s.events ≡ none
    → GotPeriod a.scope a.kind r.limit a.occurred_at a.period s (ok (k, p), t)
    → Ends s (reserve_in a r n fp ids (k, p) t)
unfolding reserve_in
reserve_in-Ends a r n fp ids k p s t fresh (w, same, stored, lim, _) =
    elim (Option-cases (lookup (reservation_id k n) t.reservations)) [
      | inr (old, found) ↦ rw found (w, same, ground arith)
      | inl unused ↦
          rw unused
            (elim (Bool-cases
              (held_elsewhere k (lookup (index_key a.scope a.kind n) t.reservation_index))) [
                | inl elsewhere ↦ rw elsewhere (w, same, ground arith)
                | inr here ↦
                    rw here (elim (Bool-cases (ltb p.limit (p.consumed + p.reserved + r.units))) [
                      | inl over ↦ rw over (w, same, ground arith)
                      | inr within ↦ rw within (
                          hold-Inv t k p (record p { reserved = p.reserved + r.units })
                            (event_key a.scope r.request_key Operation.reserve)
                            (event_of ids.for_event Operation.reserve r fp reserved k)
                            (reservation_id k n)
                            (record {
                              period_key = k;
                              reservation_key = n;
                              units = r.units;
                              status = reserved;
                            })
                            (index_key a.scope a.kind n) stored (rw same.same_events fresh) unused
                            refl refl refl refl refl refl refl refl (ground arith) w)
                    ])
              ])
    ]

pub reserve_new-Ends :
    (a : Args) (r : Request) (n : String) (fp : Fingerprint) (ids : Uuids) (s : Ledger)
    → lookup (event_key a.scope r.request_key Operation.reserve) s.events ≡ none
    → Inv s
    → Ends s (reserve_new a r n fp ids s)
unfolding reserve_new
reserve_new-Ends a r n fp ids s fresh v =
    bind_rule (GotPeriod a.scope a.kind r.limit a.occurred_at a.period s) (Ends s)
      (get_period a.scope a.kind r.limit a.occurred_at a.period ids.for_period)
      (reserve_in a r n fp ids) s
      (get_period-GotPeriod a.scope a.kind r.limit a.occurred_at a.period ids.for_period s v)
      (λ (k, p) t got. reserve_in-Ends a r n fp ids k p s t fresh got)
      (λ e t (same, ne). rw same (v, Unchanged-refl s, ne))

settle_in-Ends :
    (o : Operation) (a : Args) (r : Request) (n : String) (fp : Fingerprint) (ids : Uuids)
    (c : Active) (s t : Ledger)
    → lookup (event_key a.scope r.request_key o) s.events ≡ none
    → Inv s
    → FoundActive a r n s (ok c, t)
    → Ends s (settle_in o a r n fp ids c t)
unfolding settle_in settle
settle_in-Ends Operation.commit a r n fp ids c s t fresh v (same, _, stored, live, eu, est, _) =
    let le = held-le s (reservation_id c.key n) c.prior c.current live stored est v in
    rw same (
      settle-Inv s c.key c.current
        (record (c.current) {
          consumed = c.current.consumed + r.units;
          reserved = c.current.reserved - r.units;
        })
        (event_key a.scope r.request_key Operation.commit)
        (event_of ids.for_event Operation.commit r fp committed c.key) (reservation_id c.key n)
        c.prior (record (c.prior) { status = committed }) stored fresh live refl refl (sym eu) est
        refl refl (ground arith) (omega arith) refl v)
settle_in-Ends o a r n fp ids c s t fresh v (same, _, stored, live, eu, est, _) =
    let le = held-le s (reservation_id c.key n) c.prior c.current live stored est v in
    rw same (
      settle-Inv s c.key c.current (record (c.current) { reserved = c.current.reserved - r.units })
        (event_key a.scope r.request_key o) (event_of ids.for_event o r fp released c.key)
        (reservation_id c.key n) c.prior (record (c.prior) { status = released }) stored fresh live
        refl refl (sym eu) est refl refl (omega arith) (omega arith) refl v)

pub transition_new-Ends :
    (o : Operation) (a : Args) (r : Request) (n : String) (fp : Fingerprint) (ids : Uuids)
    (s : Ledger)
    → lookup (event_key a.scope r.request_key o) s.events ≡ none
    → Inv s
    → Ends s (transition_new o a r n fp ids s)
unfolding transition_new
transition_new-Ends o a r n fp ids s fresh v =
    bind_rule (FoundActive a r n s) (Ends s) (active_reservation a r n) (settle_in o a r n fp ids) s
      (active_reservation-FoundActive a r n s v)
      (λ c t found. settle_in-Ends o a r n fp ids c s t fresh v found)
      (λ e t (same, ne). rw same (v, Unchanged-refl s, ne))

-- A replay check and what follows it, if nothing was found.
replay-Ends :
    (o : Operation) (a : Args) (key : String) (fp : Fingerprint) (f : Action LedgerResult)
    (s : Ledger)
    → Inv s
    → (lookup (event_key a.scope key o) s.events ≡ none → Ends s (f s))
    → Ends s ((existing a.scope key o fp >>= or_replay f) s)
replay-Ends o a key fp f s v next =
    replay_rule (Ends s) o a.scope key fp f s v (λ r dup. v) (λ e ne. (v, Unchanged-refl s, ne))
      next

validate_request-err :
    (u l k : PyValue) {e : Error} → validate_request u l k ≡ err e → e ≢ key_error
unfolding validate_request
validate_request-err u l k h = ground arith

effective_key-err :
    (o : Operation) (n : String) (k : PyValue) {e : Error}
    → effective_key o n k ≡ err e
    → e ≢ key_error
unfolding effective_key
effective_key-err Operation.reserve n null h = cc
effective_key-err o n k h = ground arith

pub consume-Ends : (a : Args) (ids : Uuids) (s : Ledger) → Inv s → Ends s (consume a ids s)
unfolding consume
consume-Ends a ids s v = elim (Result-cases (validate_request a.units a.limit a.request_key)) [
  | inr (e, h) ↦ rw h (v, Unchanged-refl s, validate_request-err a.units a.limit a.request_key h)
  | inl (r, h) ↦ rw h (
      replay-Ends Operation.consume a r.request_key (fingerprint_of a r Operation.consume none) _ s
        v (λ fresh. consume_new-Ends a r _ ids s fresh v))
]

reserve_or_transition_new-Ends :
    (o : Operation) (a : Args) (r : Request) (n : String) (fp : Fingerprint) (ids : Uuids)
    (s : Ledger)
    → lookup (event_key a.scope r.request_key o) s.events ≡ none
    → Inv s
    → Ends s (reserve_or_transition_new o a r n fp ids s)
reserve_or_transition_new-Ends Operation.reserve a r n fp ids s fresh v =
    reserve_new-Ends a r n fp ids s fresh v
reserve_or_transition_new-Ends o a r n fp ids s fresh v =
    transition_new-Ends o a r n fp ids s fresh v

pub reserve_or_transition-Ends :
    (o : Operation) (a : Args) (key : PyValue) (ids : Uuids) (s : Ledger)
    → Inv s
    → Ends s (reserve_or_transition o a key ids s)
unfolding reserve_or_transition
reserve_or_transition-Ends o a key ids s v =
    elim (Result-cases (validate_request a.units a.limit a.request_key)) [
      | inr (e, h) ↦
          rw h (v, Unchanged-refl s, validate_request-err a.units a.limit a.request_key h)
      | inl (r, h) ↦ rw h (elim (Result-cases (effective_key o r.request_key key)) [
        | inr (e, h') ↦ rw h' (v, Unchanged-refl s, effective_key-err o r.request_key key h')
        | inl (n, h') ↦ rw h' (
            replay-Ends o a r.request_key (fingerprint_of a r o (some n)) _ s v
              (λ fresh. reserve_or_transition_new-Ends o a r n _ ids s fresh v))
      ])
    ]
