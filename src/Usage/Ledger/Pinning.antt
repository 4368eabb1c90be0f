-- ===== src/Usage/Ledger/Pinning.antt =====
-- A rejected consumption of the offline ledger (backend/app/usage/ledger.py) stores its period.
use zouseeking.Base.{String, ◌≡◌, ◌≢◌, Bool-cases, inl, inr, Option, none, some, ℕ, ◌+◌, ltb, arith}
use zouseeking.Base.Dict.{lookup}
use zouseeking.Usage.Errors.{Result, ok, err, Error, quota_exceeded, Result-cases}
use zouseeking.Usage.Period.{period_bounds, Bounds}
use zouseeking.Usage.Ledger.Data.{Scope, Operation, PeriodKey, Fingerprint, period_key_eq}
use zouseeking.Usage.Ledger.State.{Event, Period, Ledger, LedgerResult}
use zouseeking.Usage.Ledger.Steps.{
  Args, Request, Uuids, PyValue, period_key, get_period, natural_int, validate_request,
  fingerprint_of, existing, replay_of,
}
use zouseeking.Usage.Ledger.Calls.{or_replay, consume_in, consume_new, consume}
use zouseeking.Usage.Ledger.Rules.{bind_rule}
use zouseeking.Usage.Ledger.Invariant.{Inv}
use zouseeking.Usage.Ledger.Outcomes.{GotPeriod, get_period-GotPeriod, existing-Found, Found}

-- Where a call was refused for want of capacity, its period is stored with its limit.
abbrev pub Pins : Args → Result LedgerResult × Ledger → Type 0
Pins a (ok r, t) = Unit
Pins a (err e, t) =
    e ≡ quota_exceeded
    → (b : Bounds) × (p : Period) × (period_bounds a.occurred_at a.period ≡ ok b)
      × (lookup (period_key a.scope a.kind b.start) t.periods ≡ some p)
      × (natural_int a.limit ≡ some (p.limit))

validate_request-limit :
    (u l k : PyValue) {r : Request} → validate_request u l k ≡ ok r → natural_int l ≡ some r.limit
unfolding validate_request
validate_request-limit u l k h = ground arith

consume_in-Pins :
    (a : Args) (r : Request) (fp : Fingerprint) (ids : Uuids) (k : PeriodKey) (p : Period)
    (s t : Ledger)
    → natural_int a.limit ≡ some r.limit
    → GotPeriod a.scope a.kind r.limit a.occurred_at a.period s (ok (k, p), t)
    → Pins a (consume_in a r fp ids (k, p) t)
unfolding consume_in
consume_in-Pins a r fp ids k p s t valid (_, _, stored, same, (b, at, key)) =
    elim (Bool-cases (ltb p.limit (p.consumed + p.reserved + r.units))) [
      | inl over ↦ rw over (λ _. (b, p, at, rw (← key) stored, rw same valid))
      | inr within ↦ rw within tt
    ]

-- What cannot be a refusal for want of capacity.
abbrev NeQuota {ℓ} : {A : Type ℓ} → Result A × Ledger → Type 0
NeQuota (ok x, t) = Unit
NeQuota (err e, t) = e ≢ quota_exceeded

get_period-NeQuota :
    (a : Args) (r : Request) (id : ℕ) (s : Ledger)
    → NeQuota (get_period a.scope a.kind r.limit a.occurred_at a.period id s)
unfolding get_period period_bounds
get_period-NeQuota a r id s = ground arith

replay_of-NeQuota : (fp : Fingerprint) (o : Option Event) (s : Ledger) → NeQuota (replay_of fp o s)
unfolding replay_of
replay_of-NeQuota fp none s = tt
replay_of-NeQuota fp (some e) s = ground arith

existing-NeQuota :
    (scope : Scope) (key : String) (o : Operation) (fp : Fingerprint) (s : Ledger)
    → NeQuota (existing scope key o fp s)
unfolding existing
existing-NeQuota scope key o fp s = replay_of-NeQuota fp _ s

consume_new-Pins :
    (a : Args) (r : Request) (fp : Fingerprint) (ids : Uuids) (s : Ledger)
    → natural_int a.limit ≡ some r.limit
    → Inv s
    → Pins a (consume_new a r fp ids s)
unfolding consume_new
consume_new-Pins a r fp ids s valid v =
    bind_rule (λ m. GotPeriod a.scope a.kind r.limit a.occurred_at a.period s m × NeQuota m)
      (Pins a) (get_period a.scope a.kind r.limit a.occurred_at a.period ids.for_period)
      (consume_in a r fp ids) s
      (
        get_period-GotPeriod a.scope a.kind r.limit a.occurred_at a.period ids.for_period s v,
        get_period-NeQuota a r ids.for_period s,
      )
      (λ (k, p) t (got, _). consume_in-Pins a r fp ids k p s t valid got)
      (λ e t (_, ne) is. absurd (ne is))

validate_request-NeQuota :
    (u l k : PyValue) {e : Error} → validate_request u l k ≡ err e → e ≢ quota_exceeded
unfolding validate_request
validate_request-NeQuota u l k h = ground arith

-- On a valid ledger, a `consume` that is refused for want of capacity leaves the period of its
-- instant stored, with the limit that the refused request gave.
pub consume-Pins : (a : Args) (ids : Uuids) (s : Ledger) → Inv s → Pins a (consume a ids s)
unfolding consume
consume-Pins a ids s v = elim (Result-cases (validate_request a.units a.limit a.request_key)) [
  | inr (e, h) ↦ rw h (λ is. absurd (validate_request-NeQuota a.units a.limit a.request_key h is))
  | inl (r, h) ↦
      let fp = fingerprint_of a r Operation.consume none in
      rw h (
        bind_rule (λ m. Found a.scope r.request_key Operation.consume s m × NeQuota m) (Pins a)
          (existing a.scope r.request_key Operation.consume fp) (or_replay (consume_new a r fp ids))
          s
          (
            existing-Found a.scope r.request_key Operation.consume fp s v,
            existing-NeQuota a.scope r.request_key Operation.consume fp s,
          )
          (elim [
            | none ↦ λ t (found, _). rw (found.0) (
                consume_new-Pins a r fp ids s
                  (validate_request-limit a.units a.limit a.request_key h) v)
            | some old ↦ λ t _. tt
          ])
          (λ e t (_, ne) is. absurd (ne is)))
]
