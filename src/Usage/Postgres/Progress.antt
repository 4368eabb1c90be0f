-- ===== src/Usage/Postgres/Progress.antt =====
-- A live reservation can be ended (backend/app/usage/db_ledger.py, `_transition`).
use zouseeking.Base.{
  ℕ, ◌≡◌, refl, sym, true, false, Option, none, some, String, arith, map, inl, inr, Option-cases,
  string_eq, option_eq, ◌∙◌, ap, ltb, ℤ, nat_eq, option_beq_iff,
}
use zouseeking.Base.Dict.{lookup}
use zouseeking.Base.Table.{first_where, insert_row, first_where-meets}
use zouseeking.Base.Rows.{le-sum, first_where-none, first_where-map}
use zouseeking.Base.Txn.{
  done, and_then, raise_if, Succeeds, succeeds, through_done, through_call, through_found,
  through_check,
}
use zouseeking.Usage.Errors.{ok, Result-cases}
use zouseeking.Usage.Period.{DateTime, Bounds}
use zouseeking.Usage.Ledger.Data.{Operation, operation_eq}
use zouseeking.Usage.Ledger.Steps.{PyValue}
use zouseeking.Usage.Postgres.Bucket.{Bucket, bucket_bounds}
use zouseeking.Usage.Postgres.Data.{
  Account, account_eq, Print, print_eq, Quota, QuotaKey, quota_key_eq, UsageEvent, Db,
}
use zouseeking.Usage.Postgres.Steps.{
  PgArgs, account_of, by_fingerprint, entry_key, entry_print, entry_of, insert_event_and_registry,
  lock_quota_or_provision, disagrees,
}
use zouseeking.Usage.Postgres.Calls.{
  Transition, Ending, Uuids, transition_operation, transition_row, transition_start, transition_in,
  transition, ending, event_of, print_of, is_final, is_terminal, is_reservation,
}
use zouseeking.Usage.Postgres.Invariant.{Inv, live_units}
use zouseeking.Usage.Postgres.Meter.{active, view}

transition-is_final : (t : Transition) → is_final (transition_operation t) ≡ true
transition-is_final Transition.commits = refl
transition-is_final Transition.releases = refl

-- An event with a fingerprint for the reservation `k` would have ended it.
unused_print :
    (s : Db) (account : Account) (t : Transition) (k : String) (fp : Print)
    → Inv s
    → first_where (is_terminal account k) s.events ≡ none
    → fp.reservation_key ≡ some k
    → first_where (by_fingerprint account (transition_operation t) fp) s.events ≡ none
unused_print s account t k fp v live named =
    elim (Option-cases
      (first_where (by_fingerprint account (transition_operation t) fp) s.events)) [
        | inl unused ↦ unused
        | inr (x, used) ↦ absurd (
            let p = by_fingerprint account (transition_operation t) fp in
            let meets = first_where-meets p s.events x used in
            let place = v.placed p x used in
            let printed : x.fingerprint ≡ fp =
              (print_eq.beq_iff x.fingerprint fp).0 (ground (arith, meets)) in
            let key : x.reservation_key ≡ some k =
              sym place.reservation ∙ (ap (λ (f : Print). f.reservation_key) printed ∙ named) in
            let final : is_final x.operation ≡ true =
              rw
                ((operation_eq.beq_iff x.operation (transition_operation t)).0
                  (ground (arith, meets)))
                (transition-is_final t) in
            ground (
              arith,
              meets,
              final,
              key,
              string_eq.beq_iff k k,
              first_where-none (is_terminal account k) p s.events x live used,
            ))
      ]

-- The inserts of an event whose request key and fingerprint are new.
insert-done :
    (e : UsageEvent) (s : Db)
    → s.registry ≡ map entry_of s.events
    → first_where (by_fingerprint e.account e.operation e.fingerprint) s.events ≡ none
    → first_where (entry_key e.account e.operation e.idempotency_key) s.registry ≡ none
    → insert_event_and_registry e s
      ≡ done (
        tt,
        record s { events = insert_row e s.events; registry = insert_row (entry_of e) s.registry },
      )
unfolding insert_event_and_registry and_then raise_if
insert-done e s copied fresh unused =
    let unclaimed : first_where (entry_print e.account e.operation e.fingerprint) s.registry
        ≡ none =
      rw copied (
        first_where-map (entry_print e.account e.operation e.fingerprint) entry_of s.events
        ∙ ground (arith, fresh)) in
    rw fresh (rw (unused, unclaimed) refl)

lock-done :
    (s : Db) (key : QuotaKey) (limit : Option ℤ) (id : ℕ) (q : Quota)
    → lookup key s.quotas ≡ some q
    → lock_quota_or_provision key limit id s ≡ done (q, s)
unfolding lock_quota_or_provision and_then
lock-done s key limit id q there = rw there refl

module _ (t : Transition) (a : PgArgs) (n : Ending) (ids : Uuids) (s : Db) (x : UsageEvent)
    (v : Inv s) (no_limit : a.limit ≡ none)
    (unused : first_where
        (entry_key (account_of a.scope n.kind) (transition_operation t) n.request.request_key)
        s.registry
      ≡ none)
    (reservation : first_where
        (is_reservation (account_of a.scope n.kind) n.reservation_key)
        s.events
      ≡ some x)
    (units : x.units ≡ n.request.units)
    (live : first_where (is_terminal (account_of a.scope n.kind) n.reservation_key) s.events
      ≡ none) where
  abbrev account : Account
  account = account_of a.scope n.kind

  -- The quota still holds the units.
  enough :
      (q : Quota)
      → lookup (account, x.period_key) s.quotas ≡ some q
      → ltb q.reserved_units n.request.units ≡ false
  enough q there =
      let meets =
        first_where-meets (is_reservation account n.reservation_key) s.events x reservation in
      ground (
        arith,
        there,
        units,
        meets,
        live,
        v.live (account, x.period_key),
        account_eq.beq_iff x.account account,
        operation_eq.beq_iff x.operation Operation.reserve,
        option_beq_iff ⦃e = string_eq⦄ x.reservation_key (some n.reservation_key),
        quota_key_eq.beq_iff (account, x.period_key) (x.account, x.period_key),
        le-sum (is_reservation account n.reservation_key)
            (live_units s.events (account, x.period_key)) s.events x reservation,
      )

  transition_row-Succeeds :
      (b : Bounds) (q : Quota)
      → lookup (account, x.period_key) s.quotas ≡ some q
      → Succeeds (transition_row t a n ids.for_event x.period_key b q s)
  unfolding transition_row disagrees
  transition_row-Succeeds b q there =
      let fp =
        print_of a n.kind n.request (transition_operation t) q.limit_units (some n.reservation_key)
          x.period_key in
      through_check _ _ (rw no_limit refl) (
        through_done _ (
          through_check _ _ (rw live refl) (
            through_check _ _ (enough q there) (
              through_done _ (
                through_call _
                  (insert-done
                    (event_of a n.kind n.request (transition_operation t) ids.for_event
                      (some n.reservation_key) x.period_key fp)
                    _ v.copied (unused_print s account t n.reservation_key fp v live refl) unused)
                  succeeds)))))

  transition_start-Succeeds : Succeeds (transition_start t a n ids s)
  unfolding transition_start
  transition_start-Succeeds =
      let place = v.placed (is_reservation account n.reservation_key) x reservation in
      let meets =
        first_where-meets (is_reservation account n.reservation_key) s.events x reservation in
      let here : x.account ≡ account =
        (account_eq.beq_iff x.account account).0 (ground (arith, meets)) in
      through_done _ (
        through_found _ _ reservation (
          through_check _ _ (ground (arith, units))
            (elim (Result-cases (bucket_bounds x.period_key)) [
              | inr (e, bad) ↦ absurd (ground (arith, bad, place.readable))
              | inl (b, good) ↦ rw good (
                  through_done _ (elim (Option-cases (lookup (account, x.period_key) s.quotas)) [
                    | inl absent ↦ absurd (ground (arith, absent, rw here at place.stored))
                    | inr (q, there) ↦
                        through_call _
                          (lock-done s (account, x.period_key) a.limit ids.for_quota q there)
                          (transition_row-Succeeds b q there)
                  ]))
            ])))

-- A live reservation can be committed or released: a call that passes its checks, names its units,
-- brings a new request key and gives no limit is answered.
pub transition-Succeeds :
    (t : Transition) (a : PgArgs) (at : Option DateTime) (period : Option String) (key : PyValue)
    (ids : Uuids) (s : Db) (n : Ending) (b : Bucket)
    → Inv s
    → ending a at period key ≡ ok n
    → a.limit ≡ none
    → first_where
        (entry_key (account_of a.scope n.kind) (transition_operation t) n.request.request_key)
        s.registry
      ≡ none
    → (view s).standing (account_of a.scope n.kind) n.reservation_key ≡ active n.request.units b
    → Succeeds (transition t a at period key ids s)
unfolding transition transition_in view
transition-Succeeds t a at period key ids s n b v passed no_limit unused standing =
    let account = account_of a.scope n.kind in
    elim (Option-cases (first_where (is_reservation account n.reservation_key) s.events)) [
      | inl none_made ↦
          absurd (ground (arith, standing, none_made, v.backed account n.reservation_key none_made))
      | inr (x, made) ↦
          elim (Option-cases (first_where (is_terminal account n.reservation_key) s.events)) [
            | inr (y, over) ↦ absurd (ground (arith, standing, over))
            | inl live ↦ rw passed (
                through_done _ (
                  through_done _ (
                    rw unused (
                      transition_start-Succeeds t a n ids s x v no_limit unused made
                        (ground (arith, standing, made, live)) live))))
          ]
    ]
