-- ===== src/Usage/Postgres/Charging.antt =====
-- `_charge` of backend/app/usage/db_ledger.py keeps the invariant and makes a step of the meter.
use zouseeking.Base.{
  ℕ, ◌+◌, ◌≤◌, ◌≡◌, refl, sym, false, Option, none, some, String, arith, inl, inr, Option-cases,
  ltb, string_eq, option_eq, ◌∙◌, ap,
}
use zouseeking.Base.Dict.{lookup, insert, lookup-insert}
use zouseeking.Base.Table.{first_where, insert_row, first_where-meets}
use zouseeking.Base.Rows.{first_where-map}
use zouseeking.Base.Txn.{Ensures, ends, after_done, after_check, after_call}
use zouseeking.Usage.Errors.{ok, Result-cases}
use zouseeking.Usage.Period.{DateTime}
use zouseeking.Usage.Ledger.Data.{Operation, operation_eq}
use zouseeking.Usage.Ledger.Steps.{PyValue, null, positive_int, key_text}
use zouseeking.Usage.Postgres.Bucket.{year_in, period_bucket, bucket_bounds}
use zouseeking.Usage.Postgres.RoundTrip.{bucket_bounds-period_bucket}
use zouseeking.Usage.Postgres.Data.{
  Account, account_eq, Print, print_eq, Quota, QuotaKey, quota_key_eq, UsageEvent, Db, PgResult,
}
use zouseeking.Usage.Postgres.Steps.{
  PgArgs, validate_common, normalise_kind, account_of, by_fingerprint, entry_key, entry_of,
  insert_event_and_registry, make_result, consumed_of, reserved_of,
}
use zouseeking.Usage.Postgres.Calls.{
  Charge, Plan, Uuids, charge_operation, charge_key, charged, charge_new, charge_row, charge_plan,
  charge_in, charge, quota_key, event_of, print_of, or_replay, is_reservation,
}
use zouseeking.Usage.Postgres.Invariant.{Inv}
use zouseeking.Usage.Postgres.Locking.{
  after_lift, Locked, lock-Locked, Replays, Checked, replay_outcome-Checked,
}
use zouseeking.Usage.Postgres.Recording.{Recorded, Sound}
use zouseeking.Usage.Postgres.Living.{recorded-Inv}
use zouseeking.Usage.Postgres.Viewing.{view-consumed, view-reserved}
use zouseeking.Usage.Postgres.Meter.{
  Counts, Opened, known, opened, Step, repeats, consumes, reserves, view,
}

-- The inserts record the event.
pub record Inserted (e : UsageEvent) (s u : Db) : Type 0 where
  pub quotas : u.quotas ≡ s.quotas
  pub events : u.events ≡ insert_row e s.events
  pub registry : u.registry ≡ insert_row (entry_of e) s.registry

pub insert-Inserted :
    (e : UsageEvent) (s : Db) → Ensures (λ _. Inserted e s) (insert_event_and_registry e s)
unfolding insert_event_and_registry
insert-Inserted e s = after_done _ (
    after_check _ _ (λ _. after_done _ (
      after_done _
        (after_check _ _ (λ _. ends (record { quotas = refl; events = refl; registry = refl }))))))

-- The row is locked, the quota is set and the event inserted: what is recorded.
pub Locked-Recorded :
    (e : UsageEvent) (q q' : Quota) (s t u : Db)
    → Locked s (e.account, e.period_key) q t
    → Inserted e (record t { quotas = insert (e.account, e.period_key) q' t.quotas }) u
    → Recorded s e q' u
Locked-Recorded e q q' s t u l i = record {
  quotas = λ j.
      rw i.quotas
        (ground (arith, l.others j, lookup-insert (e.account, e.period_key) j q' t.quotas));
  events = rw (sym l.events) i.events;
  registry = rw (sym l.registry) i.registry;
}

abbrev pub counter : Quota → Counts
counter q = record { limit = q.limit_units; spent = q.consumed_units; held = q.reserved_units }

module _ (s : Db) (key : QuotaKey) (q : Quota) (t : Db) (l : Locked s key q t) where
  pub Locked-consumed : consumed_of (lookup key s.quotas) ≡ q.consumed_units
  Locked-consumed = elim l.before [
    | inl there ↦ ground (arith, there)
    | inr (absent, zero_spent, zero_held) ↦ ground (arith, absent)
  ]

  pub Locked-reserved : reserved_of (lookup key s.quotas) ≡ q.reserved_units
  Locked-reserved = elim l.before [
    | inl there ↦ ground (arith, there)
    | inr (absent, zero_spent, zero_held) ↦ ground (arith, absent)
  ]

  pub Locked-year : Inv s → 1000 ≤ year_in key.1
  Locked-year v = elim (Option-cases (lookup key s.quotas)) [
    | inl absent ↦ l.year absent
    | inr (q', there) ↦ v.dated key (ground (arith, there))
  ]

  pub Locked-Opened : Opened (view s) key (counter q)
  unfolding view
  Locked-Opened = elim l.before [
    | inl there ↦ known (ground (arith, there))
    | inr (absent, zero_spent, zero_held) ↦ opened (ground (arith, absent)) zero_spent zero_held
  ]

-- A request key that the registry does not hold for `reserve` is no reservation's key.
pub new_key-unknown :
    (s : Db) (account : Account) (k : String)
    → Inv s
    → first_where (entry_key account Operation.reserve k) s.registry ≡ none
    → first_where (is_reservation account k) s.events ≡ none
new_key-unknown s account k v h = ground (
  arith,
  rw v.copied at h,
  v.keyed account k,
  first_where-map (entry_key account Operation.reserve k) entry_of s.events,
)

-- What the checks before the transaction found.
abbrev pub Planned : PgArgs → Plan → Type 0
Planned a p =
    (positive_int a.units ≡ some p.request.units)
    × (key_text a.request_key ≡ some p.request.request_key)
    × (normalise_kind a.kind ≡ ok p.kind)
    × (1000 ≤ year_in p.key → bucket_bounds p.key ≡ ok p.bounds)

abbrev charge_event : Charge → PgArgs → Plan → ℕ → Quota → UsageEvent
charge_event c a p id q =
    event_of a p.kind p.request (charge_operation c) id (charge_key c p.request.request_key) p.key (
      print_of a p.kind p.request (charge_operation c) q.limit_units
        (charge_key c p.request.request_key) p.key)

module _ (a : PgArgs) (p : Plan) (id : ℕ) (s : Db) (q : Quota) (t : Db) (v : Inv s)
    (l : Locked s (quota_key a p.kind p.key) q t) (planned : Planned a p)
    (within : ltb q.limit_units (q.consumed_units + q.reserved_units + p.request.units)
      ≡ false) where
  charge-Sound :
      (c : Charge)
      → first_where
          (entry_key (account_of a.scope p.kind) (charge_operation c) p.request.request_key)
          s.registry
        ≡ none
      → Sound s (charge_event c a p id q) (charged c p.request.units q)
  unfolding charged
  charge-Sound Charge.consumes unused = record {
    spent = ground (arith, Locked-consumed s (quota_key a p.kind p.key) q t l);
    held = ground (arith, Locked-reserved s (quota_key a p.kind p.key) q t l);
    capacity = ground (arith, within);
    year = Locked-year s (quota_key a p.kind p.key) q t l v;
    print = refl;
    print_key = refl;
    readable = ground (arith, planned.3 (Locked-year s (quota_key a p.kind p.key) q t l v));
    settles = λ h. absurd (ground (arith, h));
    new = λ a k h. ground (arith, h);
    key = λ h. ground (arith, h);
  }
  charge-Sound Charge.reserves unused = record {
    spent = ground (arith, Locked-consumed s (quota_key a p.kind p.key) q t l);
    held = ground (arith, Locked-reserved s (quota_key a p.kind p.key) q t l);
    capacity = ground (arith, within);
    year = Locked-year s (quota_key a p.kind p.key) q t l v;
    print = refl;
    print_key = refl;
    readable = ground (arith, planned.3 (Locked-year s (quota_key a p.kind p.key) q t l v));
    settles = λ h. absurd (ground (arith, h));
    new = λ a' k h.
        let account : account_of a.scope p.kind ≡ a' =
          (account_eq.beq_iff (account_of a.scope p.kind) a').0 (ground (arith, h)) in
        let named : p.request.request_key ≡ k =
          (string_eq.beq_iff p.request.request_key k).0 (ground (arith, h)) in
        rw (sym account, sym named)
          (new_key-unknown s (account_of a.scope p.kind) p.request.request_key v unused);
    key = λ h. refl;
  }

-- What a call leaves: the invariant, and a step of the meter.
abbrev pub Moves : Operation → PgArgs → PyValue → Db → PgResult → Db → Type 0
Moves o a reservation_key s r u = Inv u × Step o a reservation_key (view s) (view u) r

module _ (a : PgArgs) (p : Plan) (id : ℕ) (s : Db) (q : Quota) (t : Db) (v : Inv s)
    (planned : Planned a p) (l : Locked s (quota_key a p.kind p.key) q t) where
  abbrev print_for : Charge → Print
  print_for c =
      print_of a p.kind p.request (charge_operation c) q.limit_units
        (charge_key c p.request.request_key) p.key

  charge_new-Moves :
      (c : Charge)
      → first_where
          (entry_key (account_of a.scope p.kind) (charge_operation c) p.request.request_key)
          s.registry
        ≡ none
      → Ensures (Moves (charge_operation c) a null s) (charge_new c a p id q (print_for c) t)
  unfolding charge_new make_result
  charge_new-Moves Charge.consumes new = after_check _ _ (λ in_range. after_check _ _ (λ within.
      after_done _ (
        after_call (insert-Inserted (charge_event Charge.consumes a p id q) _) (λ _ u i.
          let q' = charged Charge.consumes p.request.units q in
          let r = Locked-Recorded (charge_event Charge.consumes a p id q) q q' s t u l i in
          ends (
            recorded-Inv s _ q' u v r
                (charge-Sound a p id s q t v l planned within Charge.consumes new),
            consumes (quota_key a p.kind p.key) (counter q) (counter q') refl (record {
              status = refl;
              asked = (planned.0, planned.1, planned.2, refl);
              start = Locked-Opened s (quota_key a p.kind p.key) q t l;
              counter = unfold charged in refl;
              capacity = unfold charged in ground (arith, within);
              shows = (refl, refl, refl);
              meter = view-consumed s _ q' u r (counter q') refl refl;
            }),
          )))))
  charge_new-Moves Charge.reserves new = after_check _ _ (λ in_range. after_check _ _ (λ within.
      after_done _ (
        after_call (insert-Inserted (charge_event Charge.reserves a p id q) _) (λ _ u i.
          let q' = charged Charge.reserves p.request.units q in
          let r = Locked-Recorded (charge_event Charge.reserves a p id q) q q' s t u l i in
          let account = account_of a.scope p.kind in
          let unmade = new_key-unknown s account p.request.request_key v new in
          let unended = v.backed account p.request.request_key unmade in
          ends (
            recorded-Inv s _ q' u v r
                (charge-Sound a p id s q t v l planned within Charge.reserves new),
            reserves (quota_key a p.kind p.key) (counter q) (counter q') refl (record {
              status = refl;
              asked = (planned.0, planned.1, planned.2, refl);
              start = Locked-Opened s (quota_key a p.kind p.key) q t l;
              new = unfold view in ground (arith, unmade, unended);
              counter = unfold charged in refl;
              capacity = unfold charged in ground (arith, within);
              shows = (refl, refl, refl);
              meter =
                  view-reserved s _ q' u r (counter q') p.request.request_key refl refl refl unmade
                    unended;
            }),
          )))))

  -- A replay found the request, so its quota was there before.
  replayed-same :
      (c : Charge) (r : PgResult) (u : Db)
      → Replays (account_of a.scope p.kind) (charge_operation c) (print_for c) t r u
      → u ≡ s
  replayed-same c r u f =
      let o = charge_operation c in
      let account = account_of a.scope p.kind in
      let here = rw l.events at f.recorded in
      let meets =
        first_where-meets (by_fingerprint account o (print_for c)) s.events f.event here in
      let place = v.placed (by_fingerprint account o (print_for c)) f.event here in
      let same_print : f.event.fingerprint ≡ print_for c =
        (print_eq.beq_iff f.event.fingerprint (print_for c)).0 (ground (arith, meets)) in
      let same_account : f.event.account ≡ account =
        (account_eq.beq_iff f.event.account account).0 (ground (arith, meets)) in
      let key : f.event.period_key ≡ p.key =
        sym place.period ∙ ap (λ (x : Print). x.period_key) same_print in
      f.same ∙ l.kept (rw (same_account, key) at place.stored)

  charge_row-Moves :
      (c : Charge) → Ensures (Moves (charge_operation c) a null s) (charge_row c a p id q t)
  unfolding charge_row
  charge_row-Moves c = after_check _ _ (λ _.
      after_call
        (replay_outcome-Checked a.scope p.kind (charge_operation c) p.request.request_key
          (print_for c) t)
        after_replay)
    where
      after_replay :
          (o : Option PgResult) (u : Db)
          → Checked
              (account_of a.scope p.kind)
              (charge_operation c)
              p.request.request_key
              (print_for c)
              t
              o
              u
          → Ensures
              (Moves (charge_operation c) a null s)
              (or_replay (charge_new c a p id q (print_for c)) o u)
      after_replay none u f = rw f.same (charge_new-Moves c (rw (sym l.registry) f.new_key))
      after_replay (some r) u f = rw (replayed-same c r u f) (ends (v, repeats f.status refl))

charge_plan-Planned :
    (a : PgArgs) (at : DateTime) (period : String) (p : Plan)
    → charge_plan a at period ≡ ok p
    → Planned a p
unfolding charge_plan validate_common
charge_plan-Planned a at period p h = elim (Result-cases (normalise_kind a.kind)) [
  | inr (e, bad) ↦ ground (arith, bad)
  | inl (kind, good) ↦ elim (Result-cases (period_bucket at period)) [
    | inr (e, bad) ↦ ground (arith, good, bad)
    | inl (key, dated) ↦ elim (Option-cases (positive_int a.units)) [
      | inl bad ↦ ground (arith, good, bad)
      | inr (n, units) ↦ elim (Option-cases (key_text a.request_key)) [
        | inl bad ↦ ground (arith, good, bad, units)
        | inr (k, named) ↦ ground (
          arith,
          good,
          dated,
          units,
          named,
          bucket_bounds-period_bucket at period key.0 key.1 dated,
        )
      ]
    ]
  ]
]

-- A charge that is answered keeps the invariant and makes a step of the meter.
pub charge-Moves :
    (c : Charge) (a : PgArgs) (at : DateTime) (period : String) (ids : Uuids) (s : Db)
    → Inv s
    → Ensures (Moves (charge_operation c) a null s) (charge c a at period ids s)
unfolding charge charge_in
charge-Moves c a at period ids s v = after_lift (charge_plan a at period) s _ (λ p e.
    after_call (lock-Locked (quota_key a p.kind p.key) a.limit ids.for_quota s) (λ q t l.
      charge_row-Moves a p ids.for_event s q t v (charge_plan-Planned a at period p e) l c))
