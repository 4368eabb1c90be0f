-- ===== src/Usage/Postgres/Transitions.antt =====
-- `_transition` of backend/app/usage/db_ledger.py keeps the invariant and makes a step of the meter.
use zouseeking.Base.{
  ℕ, ◌≡◌, refl, false, Option, none, some, String, arith, nat_eq, inl, inr, Option-cases, ltb,
  string_eq, option_eq, is_some-none,
}
use zouseeking.Base.Dict.{lookup}
use zouseeking.Base.Table.{first_where, first_where-meets}
use zouseeking.Base.Txn.{Ensures, ends, weaken, after_done, after_check, after_found, after_call}
use zouseeking.Usage.Errors.{ok, Result-cases}
use zouseeking.Usage.Period.{DateTime, Bounds}
use zouseeking.Usage.Ledger.Data.{Operation, operation_eq}
use zouseeking.Usage.Ledger.Steps.{PyValue, positive_int, key_text}
use zouseeking.Usage.Postgres.Bucket.{bucket_bounds}
use zouseeking.Usage.Postgres.Data.{Account, account_eq, Quota, quota_key_eq, UsageEvent, Entry, Db}
use zouseeking.Usage.Postgres.Steps.{
  PgArgs, validate_common, normalise_kind, account_of, entry_key, make_result,
}
use zouseeking.Usage.Postgres.Calls.{
  Transition, Ending, Uuids, transition_operation, settled, transition_replay, transition_row,
  transition_start, transition_in, transition, ending, event_of, print_of, is_terminal,
  is_reservation,
}
use zouseeking.Usage.Postgres.Invariant.{Inv}
use zouseeking.Usage.Postgres.Locking.{after_lift, Locked, lock-Locked, replay_result-Replays}
use zouseeking.Usage.Postgres.Recording.{Sound, Settled}
use zouseeking.Usage.Postgres.Living.{recorded-Inv}
use zouseeking.Usage.Postgres.Viewing.{view-settled}
use zouseeking.Usage.Postgres.Charging.{
  insert-Inserted, Locked-Recorded, counter, Locked-year, Moves,
}
use zouseeking.Usage.Postgres.Meter.{repeats, commits, releases, view}

-- What the checks before the transaction found.
abbrev Ended : PgArgs → PyValue → Ending → Type 0
Ended a reservation_key n =
    (positive_int a.units ≡ some n.request.units)
    × (key_text a.request_key ≡ some n.request.request_key)
    × (normalise_kind a.kind ≡ ok n.kind)
    × (key_text reservation_key ≡ some n.reservation_key)

module _ (a : PgArgs) (reservation_key : PyValue) (n : Ending) (id : ℕ) (b : Bounds) (s : Db)
    (q : Quota) (x : UsageEvent) (v : Inv s) (asked : Ended a reservation_key n)
    (reservation : first_where
        (is_reservation (account_of a.scope n.kind) n.reservation_key)
        s.events
      ≡ some x)
    (units : x.units ≡ n.request.units) (l : Locked s (account_of a.scope n.kind, x.period_key) q s)
    (there : lookup (account_of a.scope n.kind, x.period_key) s.quotas ≡ some q) where
  abbrev account : Account
  account = account_of a.scope n.kind

  abbrev settle_event : Transition → UsageEvent
  settle_event t =
      event_of a n.kind n.request (transition_operation t) id (some n.reservation_key) x.period_key
        (print_of a n.kind n.request (transition_operation t) q.limit_units (some n.reservation_key)
          x.period_key)

  settle_event-Settled :
      (t : Transition)
      → first_where (is_terminal account n.reservation_key) s.events ≡ none
      → Settled s (settle_event t)
  settle_event-Settled t live = record {
    key = n.reservation_key;
    named = refl;
    made = x;
    reservation = reservation;
    units = units;
    period = refl;
    active = live;
  }

  settle-Sound :
      (t : Transition)
      → first_where (is_terminal account n.reservation_key) s.events ≡ none
      → ltb q.reserved_units n.request.units ≡ false
      → Sound s (settle_event t) (settled t n.request.units q)
  unfolding settled
  settle-Sound Transition.commits live enough = record {
    spent = ground (arith, there);
    held = ground (arith, there, enough);
    capacity = ground (arith, there, enough, v.fits (account, x.period_key));
    year = Locked-year s (account, x.period_key) q s l v;
    print = refl;
    print_key = refl;
    readable = (v.placed (is_reservation account n.reservation_key) x reservation).readable;
    settles = λ _. settle_event-Settled Transition.commits live;
    new = λ a' k h. ground (arith, h, operation_eq.beq_iff Operation.commit Operation.reserve);
    key = λ h. ground (arith, h);
  }
  settle-Sound Transition.releases live enough = record {
    spent = ground (arith, there);
    held = ground (arith, there, enough);
    capacity = ground (arith, there, enough, v.fits (account, x.period_key));
    year = Locked-year s (account, x.period_key) q s l v;
    print = refl;
    print_key = refl;
    readable = (v.placed (is_reservation account n.reservation_key) x reservation).readable;
    settles = λ _. settle_event-Settled Transition.releases live;
    new = λ a' k h. ground (arith, h, operation_eq.beq_iff Operation.release Operation.reserve);
    key = λ h. ground (arith, h);
  }

  transition_row-Moves :
      (t : Transition)
      → Ensures
          (Moves (transition_operation t) a reservation_key s)
          (transition_row t a n id x.period_key b q s)
  unfolding transition_row make_result
  transition_row-Moves Transition.commits = after_check _ _ (λ _. after_done _ (
      after_check _ _ (λ going. after_check _ _ (λ enough. after_done _ (
        after_call (insert-Inserted (settle_event Transition.commits) _) (λ _ u i.
          let live = is_some-none going in
          let q' = settled Transition.commits n.request.units q in
          let r = Locked-Recorded (settle_event Transition.commits) q q' s s u l i in
          ends (
            recorded-Inv s _ q' u v r (settle-Sound Transition.commits live enough),
            commits (account, x.period_key) n.reservation_key (counter q) (counter q') refl refl
                (asked.3)
                (record {
                  asked = (asked.0, asked.1, asked.2, refl);
                  start = unfold view in ground (arith, there);
                  live = unfold view in ground (arith, reservation, live, units);
                  limit = unfold settled in refl;
                  held = unfold settled in ground (arith, enough);
                  spent = unfold settled in refl;
                  shows = (refl, refl, refl);
                  meter = view-settled s _ q' u r (counter q') n.reservation_key refl refl refl;
                }),
          )))))))
  transition_row-Moves Transition.releases = after_check _ _ (λ _. after_done _ (
      after_check _ _ (λ going. after_check _ _ (λ enough. after_done _ (
        after_call (insert-Inserted (settle_event Transition.releases) _) (λ _ u i.
          let live = is_some-none going in
          let q' = settled Transition.releases n.request.units q in
          let r = Locked-Recorded (settle_event Transition.releases) q q' s s u l i in
          ends (
            recorded-Inv s _ q' u v r (settle-Sound Transition.releases live enough),
            releases (account, x.period_key) n.reservation_key (counter q) (counter q') refl refl
                (asked.3)
                (record {
                  asked = (asked.0, asked.1, asked.2, refl);
                  start = unfold view in ground (arith, there);
                  live = unfold view in ground (arith, reservation, live, units);
                  limit = unfold settled in refl;
                  held = unfold settled in ground (arith, enough);
                  spent = unfold settled in omega arith;
                  shows = (refl, refl, refl);
                  meter = view-settled s _ q' u r (counter q') n.reservation_key refl refl refl;
                }),
          )))))))

module _ (a : PgArgs) (reservation_key : PyValue) (n : Ending) (s : Db) (v : Inv s) where
  transition_start-Moves :
      (t : Transition) (ids : Uuids)
      → Ended a reservation_key n
      → Ensures (Moves (transition_operation t) a reservation_key s) (transition_start t a n ids s)
  unfolding transition_start
  transition_start-Moves t ids asked = after_done _ (
      after_found _ _ (λ x e. after_check _ _ (λ same.
        after_lift (bucket_bounds x.period_key) s _ (λ b _.
          let account = account_of a.scope n.kind in
          after_call (lock-Locked (account, x.period_key) a.limit ids.for_quota s) (λ q t' l.
            let meets = first_where-meets (is_reservation account n.reservation_key) s.events x e in
            let here : x.account ≡ account =
              (account_eq.beq_iff x.account account).0 (ground (arith, meets)) in
            let place = v.placed (is_reservation account n.reservation_key) x e in
            let kept : t' ≡ s = l.kept (rw here at place.stored) in
            let l' : Locked s (account, x.period_key) q s = rw kept at l in
            rw kept (
              transition_row-Moves a reservation_key n ids.for_event b s q x v asked e
                (ground (arith, same)) l'
                (ground (
                  arith,
                  l'.others (account, x.period_key),
                  quota_key_eq.beq_iff (account, x.period_key) (account, x.period_key),
                ))
                t))))))

  transition_replay-Moves :
      (t : Transition) (entry : Entry)
      → Ensures
          (Moves (transition_operation t) a reservation_key s)
          (transition_replay t a n entry s)
  unfolding transition_replay
  transition_replay-Moves t entry = after_done _ (
      after_found _ _ (λ original e. after_done _ (
        after_check _ _ (λ _.
          weaken (replay_result-Replays a.scope n.kind (transition_operation t) entry.fingerprint s)
            (λ r u f. rw f.same (v, repeats f.status refl))))))

  transition_in-Moves :
      (t : Transition) (ids : Uuids)
      → Ended a reservation_key n
      → Ensures (Moves (transition_operation t) a reservation_key s) (transition_in t a ids n s)
  unfolding transition_in
  transition_in-Moves t ids asked =
      after_done _
        (elim (Option-cases (
          first_where
            (entry_key (account_of a.scope n.kind) (transition_operation t) n.request.request_key)
            s.registry)) [
              | inl unknown ↦ rw unknown (transition_start-Moves t ids asked)
              | inr (entry, known) ↦ rw known (transition_replay-Moves t entry)
            ])

ending-Ended :
    (a : PgArgs) (at : Option DateTime) (period : Option String) (key : PyValue) (n : Ending)
    → ending a at period key ≡ ok n
    → Ended a key n
unfolding ending validate_common
ending-Ended a at period key n h = elim (Result-cases (normalise_kind a.kind)) [
  | inr (e, bad) ↦ ground (arith, bad)
  | inl (kind, good) ↦ elim (Option-cases (key_text key)) [
    | inl bad ↦ ground (arith, good, bad)
    | inr (k, named) ↦ elim (Option-cases (positive_int a.units)) [
      | inl bad ↦ ground (arith, good, bad, named)
      | inr (u, units) ↦ elim (Option-cases (key_text a.request_key)) [
        | inl bad ↦ ground (arith, good, bad, named, units)
        | inr (r, requested) ↦ ground (arith, good, named, units, requested)
      ]
    ]
  ]
]

-- A transition that is answered keeps the invariant and makes a step of the meter.
pub transition-Moves :
    (t : Transition) (a : PgArgs) (at : Option DateTime) (period : Option String) (key : PyValue)
    (ids : Uuids) (s : Db)
    → Inv s
    → Ensures (Moves (transition_operation t) a key s) (transition t a at period key ids s)
unfolding transition
transition-Moves t a at period key ids s v =
    after_lift (ending a at period key) s _
      (λ n e. transition_in-Moves a key n s v t ids (ending-Ended a at period key n e))
