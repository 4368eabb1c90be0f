-- ===== src/Usage/Ledger/Outcomes.antt =====
-- What a call of the offline ledger (backend/app/usage/ledger.py) leaves behind, however it ends.
use zouseeking.Base.{
  ℕ, ◌≡◌, ◌≢◌, refl, Option, none, some, String, arith, nat_beq, Bool-cases, Option-cases, inl, inr,
}
use zouseeking.Base.Dict.{lookup, insert, lookup-insert, lookup-insert_self}
use zouseeking.Usage.Errors.{Error, Result, ok, err, key_error, Result-cases}
use zouseeking.Usage.Period.{DateTime, period_bounds, period_bounds-err, Bounds}
use zouseeking.Usage.Ledger.Data.{
  Scope, UsageKind, Operation, PeriodKey, Fingerprint, period_key_eq, event_key_eq,
  reservation_id_eq, reservation_index_key_eq, fingerprint_eq,
}
use zouseeking.Usage.Ledger.Rules.{bind_rule}
use zouseeking.Usage.Ledger.State.{
  Action, ◌>>=◌, Period, Status, reserved, Event, Ledger, LedgerResult,
}
use zouseeking.Usage.Ledger.Steps.{
  Request, period_key, new_period, get_period, event_key, index_key, reservation_id, Args, existing,
  replay_of,
}
use zouseeking.Usage.Ledger.Calls.{or_replay, Active, active_reservation}
use zouseeking.Usage.Ledger.Invariant.{consumed_of, reserved_of, Inv}
use zouseeking.Usage.Ledger.Updates.{add_period-Inv}

-- Nothing is logged and no counter moves; only an empty period may have been added.
pub record Unchanged (s t : Ledger) : Type 0 where
  pub same_events : t.events ≡ s.events
  pub same_reservations : t.reservations ≡ s.reservations
  pub same_index : t.reservation_index ≡ s.reservation_index
  pub same_consumed :
      (k : PeriodKey) → consumed_of (lookup k t.periods) ≡ consumed_of (lookup k s.periods)
  pub same_reserved :
      (k : PeriodKey) → reserved_of (lookup k t.periods) ≡ reserved_of (lookup k s.periods)

-- The period of an instant, stored under the key of its start, with the limit asked for.
abbrev pub GotPeriod :
    Scope
    → UsageKind
    → ℕ
    → DateTime
    → String
    → Ledger
    → Result (PeriodKey × Period) × Ledger
    → Type 0
GotPeriod scope kind limit at period s (ok (k, p), t) =
    Inv t
    × Unchanged s t
    × (lookup k t.periods ≡ some p)
    × (p.limit ≡ limit)
    × ((b : Bounds) × (period_bounds at period ≡ ok b) × (k ≡ period_key scope kind b.start))
GotPeriod scope kind limit at period s (err e, t) = (t ≡ s) × (e ≢ key_error)

pub Unchanged-refl : (s : Ledger) → Unchanged s s
Unchanged-refl s = record {
  same_events = refl;
  same_reservations = refl;
  same_index = refl;
  same_consumed = λ k. refl;
  same_reserved = λ k. refl;
}

add_period-Unchanged :
    (s : Ledger) (k : PeriodKey) (p : Period)
    → lookup k s.periods ≡ none
    → p.consumed ≡ 0
    → p.reserved ≡ 0
    → Unchanged s (record s { periods = insert k p s.periods })
add_period-Unchanged s k p fresh c r = record {
  same_events = refl;
  same_reservations = refl;
  same_index = refl;
  same_consumed = λ j. ground (arith, lookup-insert k j p s.periods, period_key_eq.beq_iff k j);
  same_reserved = λ j. ground (arith, lookup-insert k j p s.periods, period_key_eq.beq_iff k j);
}

pub get_period-GotPeriod :
    (scope : Scope) (kind : UsageKind) (limit : ℕ) (at : DateTime) (period : String) (id : ℕ)
    (s : Ledger)
    → Inv s
    → GotPeriod scope kind limit at period s (get_period scope kind limit at period id s)
unfolding get_period lookup
get_period-GotPeriod scope kind limit at period id s v =
    elim (Result-cases (period_bounds at period)) [
      | inr (e, h) ↦ rw h (refl, period_bounds-err at period h)
      | inl (b, h) ↦ rw h (elim (Option-cases (lookup (period_key scope kind b.start) s.periods)) [
        | inl fresh ↦
            let k = period_key scope kind b.start in
            let p = new_period scope kind b limit id in
            rw fresh (
              add_period-Inv s k p fresh refl refl v,
              add_period-Unchanged s k p fresh refl refl,
              lookup-insert_self k p s.periods,
              refl,
              (b, h, refl),
            )
        | inr (p, old) ↦ rw old (elim (Bool-cases (nat_beq p.limit limit)) [
          | inl same ↦ rw same (v, Unchanged-refl s, old, ground arith, (b, h, refl))
          | inr changed ↦ rw changed (refl, ground arith)
        ])
      ])
    ]

-- A replay check changes nothing: it finds no event, or answers from the event that it found.
abbrev pub Found :
    Scope → String → Operation → Ledger → Result (Option LedgerResult) × Ledger → Type 0
Found scope key operation s (ok none, t) =
    (t ≡ s) × (lookup (event_key scope key operation) s.events ≡ none)
Found scope key operation s (ok (some r), t) = (t ≡ s) × (r.status ≡ Status.duplicate)
Found scope key operation s (err e, t) = (t ≡ s) × (e ≢ key_error)

replay_of-Found :
    (scope : Scope) (key : String) (operation : Operation) (fp : Fingerprint) (s : Ledger)
    (o : Option Event)
    → lookup (event_key scope key operation) s.events ≡ o
    → Inv s
    → Found scope key operation s (replay_of fp o s)
unfolding replay_of
replay_of-Found scope key operation fp s none h v = (refl, h)
replay_of-Found scope key operation fp s (some e) h v =
    ground (arith, v.logged (event_key scope key operation) e h)

pub existing-Found :
    (scope : Scope) (key : String) (operation : Operation) (fp : Fingerprint) (s : Ledger)
    → Inv s
    → Found scope key operation s (existing scope key operation fp s)
unfolding existing
existing-Found scope key operation fp s v = replay_of-Found scope key operation fp s _ refl v

-- A live reservation of the units asked for, in a stored period.
abbrev pub FoundActive : Args → Request → String → Ledger → Result Active × Ledger → Type 0
FoundActive a r n s (ok c, t) =
    (t ≡ s)
    × (lookup (index_key a.scope a.kind n) s.reservation_index ≡ some c.key)
    × (lookup c.key s.periods ≡ some c.current)
    × (lookup (reservation_id c.key n) s.reservations ≡ some c.prior)
    × (c.prior.units ≡ r.units)
    × (c.prior.status ≡ reserved)
    × (c.current.limit ≡ r.limit)
FoundActive a r n s (err e, t) = (t ≡ s) × (e ≢ key_error)

pub active_reservation-FoundActive :
    (a : Args) (r : Request) (n : String) (s : Ledger)
    → Inv s
    → FoundActive a r n s (active_reservation a r n s)
unfolding active_reservation
active_reservation-FoundActive a r n s v =
    elim (Option-cases (lookup (index_key a.scope a.kind n) s.reservation_index)) [
      | inl missing ↦ ground arith
      | inr (k, found) ↦ ground (arith, v.indexed (index_key a.scope a.kind n) k found)
    ]

-- A replay check and what follows it: an answer from the past, a refusal, or the call itself.
pub replay_rule {κ} :
    (Q : Result LedgerResult × Ledger → Type κ) (o : Operation) (scope : Scope) (key : String)
    (fp : Fingerprint) (f : Action LedgerResult) (s : Ledger)
    → Inv s
    → ((r : LedgerResult) → r.status ≡ Status.duplicate → Q (ok r, s))
    → ((e : Error) → e ≢ key_error → Q (err e, s))
    → (lookup (event_key scope key o) s.events ≡ none → Q (f s))
    → Q ((existing scope key o fp >>= or_replay f) s)
replay_rule Q o scope key fp f s v old refused next =
    bind_rule (Found scope key o s) Q (existing scope key o fp) (or_replay f) s
      (existing-Found scope key o fp s v)
      (elim [
        | none ↦ λ t (same, fresh). rw same (next fresh)
        | some r ↦ λ t (same, dup). rw same (old r dup)
      ])
      (λ e t (same, ne). rw same (refused e ne))
