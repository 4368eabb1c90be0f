-- ===== src/Usage/Ledger/Replay.antt =====
-- Idempotency of the offline ledger (backend/app/usage/ledger.py): a call repeated with the same
-- arguments is answered from the event of the first.
use mathlib.Core.Path.{subst}
use zouseeking.Base.{
  ◌+◌, ◌≡◌, refl, inl, inr, Option, none, some, String, arith, ltb, Bool-cases, Option-cases,
}
use zouseeking.Base.Dict.{lookup, lookup-insert_self}
use zouseeking.Usage.Errors.{Result, ok, err, Result-cases}
use zouseeking.Usage.Ledger.Data.{
  Scope, Operation, PeriodKey, Fingerprint, fingerprint_eq, period_key_eq, event_key_eq,
  reservation_id_eq, reservation_index_key_eq,
}
use zouseeking.Usage.Ledger.State.{Period, duplicate, Event, Ledger, LedgerResult, Action, ◌>>=◌}
use zouseeking.Usage.Ledger.Steps.{
  Request, Uuids, get_period, event_key, index_key, reservation_id, Args, PyValue, existing,
  replay_of, result, validate_request, fingerprint_of,
}
use zouseeking.Usage.Ledger.Calls.{
  or_replay, consume_in, consume_new, consume, held_elsewhere, reserve_in, reserve_new, Active,
  active_reservation, settle_in, transition_new, effective_key, reserve_or_transition_new,
  reserve_or_transition, reserve, commit, release,
}
use zouseeking.Usage.Ledger.Rules.{bind_rule, bind_ok, bind_err}
use zouseeking.Usage.Ledger.Invariant.{Inv}
use zouseeking.Usage.Ledger.Outcomes.{Found, existing-Found}
use zouseeking.Usage.Ledger.History.{Call, consumes, reserves, commits, releases, step}

abbrev pub as_duplicate : LedgerResult → LedgerResult
as_duplicate r = record r { status = duplicate }

-- After an answer, the replay check of the same request gives it again, as a duplicate.
abbrev Again : Scope → String → Operation → Fingerprint → Result LedgerResult × Ledger → Type 0
Again scope key o fp (ok r, t) = existing scope key o fp t ≡ (ok (some (as_duplicate r)), t)
Again scope key o fp (err e, t) = Unit

-- The replay check finds an event that was just stored with its period.
existing_stored :
    (scope : Scope) (key : String) (o : Operation) (fp : Fingerprint) (e : Event) (p : Period)
    (t : Ledger)
    → lookup (event_key scope key o) t.events ≡ some e
    → e.fingerprint ≡ fp
    → lookup e.period_key t.periods ≡ some p
    → existing scope key o fp t ≡ (ok (some (result p e duplicate)), t)
unfolding existing replay_of
existing_stored scope key o fp e p t found same stored =
    ground (arith, found, stored, (fingerprint_eq.beq_iff e.fingerprint fp).1 same)

consume_in-Again :
    (a : Args) (r : Request) (fp : Fingerprint) (ids : Uuids) (k : PeriodKey) (p : Period)
    (t : Ledger)
    → Again a.scope r.request_key Operation.consume fp (consume_in a r fp ids (k, p) t)
unfolding consume_in
consume_in-Again a r fp ids k p t =
    elim (Bool-cases (ltb p.limit (p.consumed + p.reserved + r.units))) [
      | inl over ↦ rw over tt
      | inr within ↦ rw within (
          existing_stored a.scope r.request_key Operation.consume fp _ _ _
            (lookup-insert_self _ _ _) refl (lookup-insert_self _ _ _))
    ]

reserve_in-Again :
    (a : Args) (r : Request) (n : String) (fp : Fingerprint) (ids : Uuids) (k : PeriodKey)
    (p : Period) (t : Ledger)
    → Again a.scope r.request_key Operation.reserve fp (reserve_in a r n fp ids (k, p) t)
unfolding reserve_in
reserve_in-Again a r n fp ids k p t =
    elim (Option-cases (lookup (reservation_id k n) t.reservations)) [
      | inr (old, found) ↦ rw found tt
      | inl unused ↦
          rw unused
            (elim (Bool-cases
              (held_elsewhere k (lookup (index_key a.scope a.kind n) t.reservation_index))) [
                | inl elsewhere ↦ rw elsewhere tt
                | inr here ↦
                    rw here (elim (Bool-cases (ltb p.limit (p.consumed + p.reserved + r.units))) [
                      | inl over ↦ rw over tt
                      | inr within ↦ rw within (
                          existing_stored a.scope r.request_key Operation.reserve fp _ _ _
                            (lookup-insert_self _ _ _) refl (lookup-insert_self _ _ _))
                    ])
              ])
    ]

settle_in-Again :
    (o : Operation) (a : Args) (r : Request) (n : String) (fp : Fingerprint) (ids : Uuids)
    (c : Active) (t : Ledger)
    → Again a.scope r.request_key o fp (settle_in o a r n fp ids c t)
unfolding settle_in
settle_in-Again o a r n fp ids c t =
    existing_stored a.scope r.request_key o fp _ _ _ (lookup-insert_self _ _ _) refl
      (lookup-insert_self _ _ _)

reserve_or_transition_new-Again :
    (o : Operation) (a : Args) (r : Request) (n : String) (fp : Fingerprint) (ids : Uuids)
    (s : Ledger)
    → Again a.scope r.request_key o fp (reserve_or_transition_new o a r n fp ids s)
unfolding reserve_new transition_new
reserve_or_transition_new-Again Operation.reserve a r n fp ids s =
    bind_rule (λ _. Unit {0}) (Again a.scope r.request_key Operation.reserve fp)
      (get_period a.scope a.kind r.limit a.occurred_at a.period ids.for_period)
      (reserve_in a r n fp ids) s tt (λ (k, p) t _. reserve_in-Again a r n fp ids k p t)
      (λ e t _. tt)
reserve_or_transition_new-Again o a r n fp ids s =
    bind_rule (λ _. Unit {0}) (Again a.scope r.request_key o fp) (active_reservation a r n)
      (settle_in o a r n fp ids) s tt (λ c t _. settle_in-Again o a r n fp ids c t) (λ e t _. tt)

consume_new-Again :
    (a : Args) (r : Request) (fp : Fingerprint) (ids : Uuids) (s : Ledger)
    → Again a.scope r.request_key Operation.consume fp (consume_new a r fp ids s)
unfolding consume_new
consume_new-Again a r fp ids s =
    bind_rule (λ _. Unit {0}) (Again a.scope r.request_key Operation.consume fp)
      (get_period a.scope a.kind r.limit a.occurred_at a.period ids.for_period)
      (consume_in a r fp ids) s tt (λ (k, p) t _. consume_in-Again a r fp ids k p t) (λ e t _. tt)

-- The same of the replay check followed by the call itself.
replay-Again :
    (o : Operation) (scope : Scope) (key : String) (fp : Fingerprint) (f : Action LedgerResult)
    (s : Ledger)
    → Inv s
    → Again scope key o fp (f s)
    → Again scope key o fp ((existing scope key o fp >>= or_replay f) s)
replay-Again o scope key fp f s v again =
    go (existing scope key o fp s) refl (existing-Found scope key o fp s v)
  where
    go :
        (m : Result (Option LedgerResult) × Ledger)
        → existing scope key o fp s ≡ m
        → Found scope key o s m
        → Again scope key o fp ((existing scope key o fp >>= or_replay f) s)
    go (ok none, t) e (same, _) =
        rw (bind_ok (existing scope key o fp) (or_replay f) s e, same) again
    go (ok (some r), t) e (same, dup) =
        let unchanged : as_duplicate r ≡ r = ground arith in
        rw (bind_ok (existing scope key o fp) (or_replay f) s e, unchanged, same) (rw same at e)
    go (err x, t) e _ = rw (bind_err (existing scope key o fp) (or_replay f) s e) tt

-- The same call with other identifiers drawn.
abbrev pub redraw : Call → Uuids → Call
redraw (consumes a _) ids = consumes a ids
redraw (reserves a k _) ids = reserves a k ids
redraw (commits a k _) ids = commits a k ids
redraw (releases a k _) ids = releases a k ids

consume_again :
    (a : Args) (ids ids' : Uuids) (s : Ledger) {t : Ledger} {r : LedgerResult}
    → Inv s
    → consume a ids s ≡ (ok r, t)
    → consume a ids' t ≡ (ok (as_duplicate r), t)
unfolding consume
consume_again a ids ids' s {t} {r} v h =
    elim (Result-cases (validate_request a.units a.limit a.request_key)) [
      | inr (e, bad) ↦ absurd (ground (arith, bad))
      | inl (q, good) ↦
          let fp = fingerprint_of a q Operation.consume none in
          let again : Again a.scope q.request_key Operation.consume fp (ok r, t) =
            subst (Again a.scope q.request_key Operation.consume fp) (rw good at h) (
              replay-Again Operation.consume a.scope q.request_key fp (consume_new a q fp ids) s v
                (consume_new-Again a q fp ids s)) in
          rw good (
            bind_ok (existing a.scope q.request_key Operation.consume fp)
              (or_replay (consume_new a q fp ids')) t again)
    ]

transition_again :
    (o : Operation) (a : Args) (key : PyValue) (ids ids' : Uuids) (s : Ledger) {t : Ledger}
    {r : LedgerResult}
    → Inv s
    → reserve_or_transition o a key ids s ≡ (ok r, t)
    → reserve_or_transition o a key ids' t ≡ (ok (as_duplicate r), t)
unfolding reserve_or_transition
transition_again o a key ids ids' s {t} {r} v h =
    elim (Result-cases (validate_request a.units a.limit a.request_key)) [
      | inr (e, bad) ↦ absurd (ground (arith, bad))
      | inl (q, good) ↦ elim (Result-cases (effective_key o q.request_key key)) [
        | inr (e, bad) ↦ absurd (ground (arith, good, bad))
        | inl (n, named) ↦
            let fp = fingerprint_of a q o (some n) in
            let again : Again a.scope q.request_key o fp (ok r, t) =
              subst (Again a.scope q.request_key o fp) (rw named at (rw good at h)) (
                replay-Again o a.scope q.request_key fp (reserve_or_transition_new o a q n fp ids) s
                  v (reserve_or_transition_new-Again o a q n fp ids s)) in
            rw good (
              rw named (
                bind_ok (existing a.scope q.request_key o fp)
                  (or_replay (reserve_or_transition_new o a q n fp ids')) t again))
      ]
    ]

-- A call that was answered, made again with the same arguments, gets the same answer marked as a
-- duplicate, and changes nothing.
pub step_again :
    (c : Call) (ids : Uuids) (s : Ledger) {t : Ledger} {r : LedgerResult}
    → Inv s
    → step c s ≡ (ok r, t)
    → step (redraw c ids) t ≡ (ok (as_duplicate r), t)
unfolding step reserve commit release
step_again (consumes a old) ids s v h = consume_again a old ids s v h
step_again (reserves a k old) ids s v h = transition_again Operation.reserve a k old ids s v h
step_again (commits a k old) ids s v h = transition_again Operation.commit a k old ids s v h
step_again (releases a k old) ids s v h = transition_again Operation.release a k old ids s v h
