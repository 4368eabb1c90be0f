-- ===== src/Usage/Ledger/Accounting.antt =====
-- What each public method of the offline ledger (backend/app/usage/ledger.py) does to the counters.
use zouseeking.Base.{◌≡◌, refl, inl, inr, String, some, none, arith}
use zouseeking.Usage.Errors.{ok, Result-cases}
use zouseeking.Usage.Ledger.Data.{Operation, Fingerprint}
use zouseeking.Usage.Ledger.State.{Ledger}
use zouseeking.Usage.Ledger.Steps.{
  Request, Uuids, get_period, Args, PyValue, validate_request, fingerprint_of, positive_int,
}
use zouseeking.Usage.Ledger.Calls.{
  consume_in, consume_new, consume, reserve_in, reserve_new, active_reservation, settle_in,
  transition_new, effective_key, reserve_or_transition_new, reserve_or_transition, reserve, commit,
  release,
}
use zouseeking.Usage.Ledger.Rules.{bind_rule}
use zouseeking.Usage.Ledger.Invariant.{Inv}
use zouseeking.Usage.Ledger.Outcomes.{
  GotPeriod, get_period-GotPeriod, FoundActive, active_reservation-FoundActive, replay_rule,
}
use zouseeking.Usage.Ledger.Effects.{
  Consumes, Reserves, Settles, consume_in-Consumes, reserve_in-Reserves, settle_in-Settles,
}

validate_request-units :
    (u l k : PyValue) {r : Request} → validate_request u l k ≡ ok r → positive_int u ≡ some r.units
unfolding validate_request
validate_request-units u l k h = ground arith

consume_new-Consumes :
    (a : Args) (r : Request) (fp : Fingerprint) (ids : Uuids) (s : Ledger)
    → positive_int a.units ≡ some r.units
    → Inv s
    → Consumes a s (consume_new a r fp ids s)
unfolding consume_new
consume_new-Consumes a r fp ids s valid v =
    bind_rule (GotPeriod a.scope a.kind r.limit a.occurred_at a.period s) (Consumes a s)
      (get_period a.scope a.kind r.limit a.occurred_at a.period ids.for_period)
      (consume_in a r fp ids) s
      (get_period-GotPeriod a.scope a.kind r.limit a.occurred_at a.period ids.for_period s v)
      (λ (k, p) t got. consume_in-Consumes a r fp ids k p s t valid got) (λ e t _. tt)

reserve_new-Reserves :
    (a : Args) (r : Request) (n : String) (fp : Fingerprint) (ids : Uuids) (s : Ledger)
    → positive_int a.units ≡ some r.units
    → Inv s
    → Reserves a s (reserve_new a r n fp ids s)
unfolding reserve_new
reserve_new-Reserves a r n fp ids s valid v =
    bind_rule (GotPeriod a.scope a.kind r.limit a.occurred_at a.period s) (Reserves a s)
      (get_period a.scope a.kind r.limit a.occurred_at a.period ids.for_period)
      (reserve_in a r n fp ids) s
      (get_period-GotPeriod a.scope a.kind r.limit a.occurred_at a.period ids.for_period s v)
      (λ (k, p) t got. reserve_in-Reserves a r n fp ids k p s t valid got) (λ e t _. tt)

transition_new-Settles :
    (o : Operation) (a : Args) (r : Request) (key : PyValue) (n : String) (fp : Fingerprint)
    (ids : Uuids) (s : Ledger)
    → positive_int a.units ≡ some r.units
    → effective_key o r.request_key key ≡ ok n
    → Inv s
    → Settles o a key s (transition_new o a r n fp ids s)
unfolding transition_new
transition_new-Settles o a r key n fp ids s valid named v =
    bind_rule (FoundActive a r n s) (Settles o a key s) (active_reservation a r n)
      (settle_in o a r n fp ids) s (active_reservation-FoundActive a r n s v)
      (λ c t found. settle_in-Settles o a r key n fp ids c s t valid named v found) (λ e t _. tt)

-- A `consume` that answers is a replay that changes nothing, or it adds the units asked for to the
-- consumed count of the period of its instant and to nothing else, and shows that period's counts.
pub consume-Consumes :
    (a : Args) (ids : Uuids) (s : Ledger) → Inv s → Consumes a s (consume a ids s)
unfolding consume
consume-Consumes a ids s v = elim (Result-cases (validate_request a.units a.limit a.request_key)) [
  | inr (e, h) ↦ rw h tt
  | inl (r, h) ↦
      let fp = fingerprint_of a r Operation.consume none in
      rw h (
        replay_rule (Consumes a s) Operation.consume a.scope r.request_key fp
          (consume_new a r fp ids) s v (λ r dup. inl (dup, refl)) (λ e ne. tt)
          (λ _. consume_new-Consumes a r fp ids s (validate_request-units a.units _ _ h) v))
]

-- A `reserve` that answers is a replay that changes nothing, or it adds the units asked for to the
-- reserved count of the period of its instant and to nothing else, and shows that period's counts.
pub reserve-Reserves :
    (a : Args) (key : PyValue) (ids : Uuids) (s : Ledger)
    → Inv s
    → Reserves a s (reserve a key ids s)
unfolding reserve reserve_or_transition
reserve-Reserves a key ids s v =
    elim (Result-cases (validate_request a.units a.limit a.request_key)) [
      | inr (e, h) ↦ rw h tt
      | inl (r, h) ↦ rw h (elim (Result-cases (effective_key Operation.reserve r.request_key key)) [
        | inr (e, h') ↦ rw h' tt
        | inl (n, h') ↦
            let fp = fingerprint_of a r Operation.reserve (some n) in
            rw h' (
              replay_rule (Reserves a s) Operation.reserve a.scope r.request_key fp
                (reserve_new a r n fp ids) s v (λ r dup. inl (dup, refl)) (λ e ne. tt)
                (λ _. reserve_new-Reserves a r n fp ids s (validate_request-units a.units _ _ h) v))
      ])
    ]

transition-Settles :
    (o : Operation) (a : Args) (key : PyValue) (ids : Uuids) (s : Ledger)
    → ((r : Request) (n : String) (fp : Fingerprint)
        → reserve_or_transition_new o a r n fp ids s ≡ transition_new o a r n fp ids s)
    → Inv s
    → Settles o a key s (reserve_or_transition o a key ids s)
unfolding reserve_or_transition
transition-Settles o a key ids s is_transition v =
    elim (Result-cases (validate_request a.units a.limit a.request_key)) [
      | inr (e, h) ↦ rw h tt
      | inl (r, h) ↦ rw h (elim (Result-cases (effective_key o r.request_key key)) [
        | inr (e, h') ↦ rw h' tt
        | inl (n, h') ↦
            let fp = fingerprint_of a r o (some n) in
            rw h' (
              replay_rule (Settles o a key s) o a.scope r.request_key fp
                (reserve_or_transition_new o a r n fp ids) s v (λ r dup. inl (dup, refl))
                (λ e ne. tt)
                (λ _. rw (is_transition r n fp) (
                  transition_new-Settles o a r key n fp ids s (validate_request-units a.units _ _ h)
                    h' v)))
      ])
    ]

-- A `commit` that answers is a replay that changes nothing, or it moves the units asked for from the
-- reserved to the consumed count of the period that the reservation was made in, changes no other
-- count, and shows that period's counts.
pub commit-Settles :
    (a : Args) (key : PyValue) (ids : Uuids) (s : Ledger)
    → Inv s
    → Settles Operation.commit a key s (commit a key ids s)
unfolding commit
commit-Settles a key ids s v = transition-Settles Operation.commit a key ids s (λ r n fp. refl) v

-- A `release` that answers is a replay that changes nothing, or it takes the units asked for off the
-- reserved count of the period that the reservation was made in, changes no other count, and shows
-- that period's counts.
pub release-Settles :
    (a : Args) (key : PyValue) (ids : Uuids) (s : Ledger)
    → Inv s
    → Settles Operation.release a key s (release a key ids s)
unfolding release
release-Settles a key ids s v = transition-Settles Operation.release a key ids s (λ r n fp. refl) v
