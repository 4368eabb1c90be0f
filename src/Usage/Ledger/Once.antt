-- ===== src/Usage/Ledger/Once.antt =====
-- Over any history of the offline ledger (backend/app/usage/ledger.py), a reservation is settled at
-- most once.
use mathlib.Core.Path.{subst}
use zouseeking.Base.{List, ◌⊎◌, ◌≡◌, ◌≢◌, refl, inl, inr, Option, none, some, String, arith}
use zouseeking.Usage.Errors.{Result, ok, err, Result-cases}
use zouseeking.Usage.Ledger.Data.{
  ReservationIndexKey, Operation, Fingerprint, period_key_eq, event_key_eq, reservation_id_eq,
  reservation_index_key_eq,
}
use zouseeking.Usage.Ledger.State.{duplicate, Ledger, LedgerResult}
use zouseeking.Usage.Ledger.Steps.{
  key_text, Request, Uuids, index_key, Args, PyValue, validate_request, fingerprint_of,
}
use zouseeking.Usage.Ledger.Calls.{
  Active, active_reservation, settle_in, transition_new, effective_key, reserve_or_transition_new,
  reserve_or_transition, commit, release,
}
use zouseeking.Usage.Ledger.Rules.{bind_rule}
use zouseeking.Usage.Ledger.Invariant.{Inv}
use zouseeking.Usage.Ledger.Outcomes.{FoundActive, active_reservation-FoundActive, replay_rule}
use zouseeking.Usage.Ledger.History.{
  run-Inv, step-Inv, Call, consumes, reserves, commits, releases, step, run,
}
use zouseeking.Usage.Ledger.Settlement.{IsSettled, settle_in-settles, FoundActive-open}
use zouseeking.Usage.Ledger.Kept.{run-IsSettled}

abbrev named_key : (String → ReservationIndexKey) → Option String → Option ReservationIndexKey
named_key f none = none
named_key f (some n) = some (f n)

-- The reservation that a `commit` or a `release` names.
abbrev pub settles_key : Call → Option ReservationIndexKey
settles_key (commits a k ids) = named_key (index_key a.scope a.kind) (key_text k)
settles_key (releases a k ids) = named_key (index_key a.scope a.kind) (key_text k)
settles_key _ = none

-- What a call that answers afresh has settled; and that it cannot answer afresh on a settled one.
abbrev Settling : ReservationIndexKey → Ledger → Result LedgerResult × Ledger → Type 0
Settling i s (err e, t) = Unit
Settling i s (ok r, t) = (r.status ≡ duplicate) ⊎ (IsSettled i t × ¬ IsSettled i s)

settle_in-Settling :
    (o : Operation) (a : Args) (r : Request) (n : String) (fp : Fingerprint) (ids : Uuids)
    (c : Active) (s t : Ledger)
    → FoundActive a r n s (ok c, t)
    → Settling (index_key a.scope a.kind n) s (settle_in o a r n fp ids c t)
unfolding settle_in
settle_in-Settling o a r n fp ids c s t found =
    inr (settle_in-settles o a r n fp ids c s t found, FoundActive-open a r n c s t found)

transition_new-Settling :
    (o : Operation) (a : Args) (r : Request) (n : String) (fp : Fingerprint) (ids : Uuids)
    (s : Ledger)
    → Inv s
    → Settling (index_key a.scope a.kind n) s (transition_new o a r n fp ids s)
unfolding transition_new
transition_new-Settling o a r n fp ids s v =
    bind_rule (FoundActive a r n s) (Settling (index_key a.scope a.kind n) s)
      (active_reservation a r n) (settle_in o a r n fp ids) s
      (active_reservation-FoundActive a r n s v)
      (λ c t found. settle_in-Settling o a r n fp ids c s t found) (λ e t _. tt)

-- On a valid ledger, whatever a `commit` or `release` answers for a reservation, it is a replay or
-- it settled that reservation, which was not settled before.
transition-Settling :
    (i : ReservationIndexKey) (o : Operation) (a : Args) (key : PyValue) (ids : Uuids) (s : Ledger)
    → ((r : Request) (n : String) (fp : Fingerprint)
        → reserve_or_transition_new o a r n fp ids s ≡ transition_new o a r n fp ids s)
    → ((q : String) (n : String) → effective_key o q key ≡ ok n → key_text key ≡ some n)
    → named_key (index_key a.scope a.kind) (key_text key) ≡ some i
    → Inv s
    → Settling i s (reserve_or_transition o a key ids s)
unfolding reserve_or_transition
transition-Settling i o a key ids s is_transition keyed at v =
    elim (Result-cases (validate_request a.units a.limit a.request_key)) [
      | inr (e, bad) ↦ rw bad tt
      | inl (r, good) ↦ rw good (elim (Result-cases (effective_key o r.request_key key)) [
        | inr (e, bad) ↦ rw bad tt
        | inl (n, named) ↦
            let fp = fingerprint_of a r o (some n) in
            let text = keyed r.request_key n named in
            let same : index_key a.scope a.kind n ≡ i = ground (arith, text, at) in
            rw named (
              replay_rule (Settling i s) o a.scope r.request_key fp
                (reserve_or_transition_new o a r n fp ids) s v (λ r dup. inl dup) (λ e ne. tt)
                (λ _. rw (is_transition r n fp) (
                  subst (λ j. Settling j s (transition_new o a r n fp ids s)) same
                    (transition_new-Settling o a r n fp ids s v))))
      ])
    ]

effective_key-commit :
    (key : PyValue) (q n : String)
    → effective_key Operation.commit q key ≡ ok n
    → key_text key ≡ some n
unfolding effective_key
effective_key-commit key q n h = ground arith

effective_key-release :
    (key : PyValue) (q n : String)
    → effective_key Operation.release q key ≡ ok n
    → key_text key ≡ some n
unfolding effective_key
effective_key-release key q n h = ground arith

step-Settling :
    (i : ReservationIndexKey) (c : Call) (s : Ledger)
    → settles_key c ≡ some i
    → Inv s
    → Settling i s (step c s)
unfolding step commit release
step-Settling i (consumes a ids) s h v = cc
step-Settling i (reserves a k ids) s h v = cc
step-Settling i (commits a k ids) s h v =
    transition-Settling i Operation.commit a k ids s (λ r n fp. refl) (effective_key-commit k) h v
step-Settling i (releases a k ids) s h v =
    transition-Settling i Operation.release a k ids s (λ r n fp. refl) (effective_key-release k) h v

-- If a `commit` or `release` has settled a reservation, by an answer that is no replay, then after
-- any further calls every answer to a `commit` or `release` of the same reservation is a replay.
pub settled_once :
    (i : ReservationIndexKey) (c d : Call) (cs : List Call) (s : Ledger) {t u : Ledger}
    {r r' : LedgerResult}
    → settles_key c ≡ some i
    → settles_key d ≡ some i
    → Inv s
    → step c s ≡ (ok r, t)
    → r.status ≢ duplicate
    → step d (run cs t) ≡ (ok r', u)
    → r'.status ≡ duplicate
settled_once i c d cs s {t} {u} {r} {r'} hc hd v first fresh second =
    elim (subst (Settling i s) first (step-Settling i c s hc v)) [
      | inl dup ↦ absurd (fresh dup)
      | inr (settled, _) ↦
          let valid : Inv t = subst (λ m. Inv m.1) first (step-Inv c s v) in
          let later = run-IsSettled i cs t valid settled in
          let outcome =
            subst (Settling i (run cs t)) second
              (step-Settling i d (run cs t) hd (run-Inv cs t valid)) in
          elim outcome [ inl dup ↦ dup | inr (_, open_before) ↦ absurd (open_before later) ]
    ]
