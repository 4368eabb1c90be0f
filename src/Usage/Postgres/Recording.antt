-- ===== src/Usage/Postgres/Recording.antt =====
-- One recorded operation on the usage tables (backend/app/usage/db_ledger.py): a quota's new counters,
-- the event and the registry's entry, and the invariant after them.
use mathlib.Core.Path.{subst}
use zouseeking.Base.{
  ℕ, ◌+◌, ◌≤◌, ◌≡◌, ◌==◌, Bool, true, none, some, String, arith, if◌then◌else◌, is_some, inl, inr,
  string_eq, option_eq, Option-cases,
}
use zouseeking.Base.Dict.{lookup}
use zouseeking.Base.Table.{first_where, insert_row}
use zouseeking.Base.Rows.{sum, count, sum-insert_row, count-none, first_where-insert_row}
use zouseeking.Usage.Ledger.Data.{Operation, operation_eq}
use zouseeking.Usage.Postgres.Bucket.{year_in, bucket_bounds}
use zouseeking.Usage.Postgres.Data.{
  Account, account_eq, Quota, QuotaKey, quota_key_eq, UsageEvent, Db,
}
use zouseeking.Usage.Postgres.Steps.{consumed_of, reserved_of, limit_of, entry_of}
use zouseeking.Usage.Postgres.Calls.{is_final, is_terminal, is_reservation}
use zouseeking.Usage.Postgres.Invariant.{
  Inv, is_spent, is_reserve, counted, made_under, Placed, is_ok,
}

abbrev pub units_if : Bool → ℕ → ℕ
units_if b u = if b then u else 0

-- `u` is `s` with the event `e` recorded and the quota of `e` at `q`.
pub record Recorded (s : Db) (e : UsageEvent) (q : Quota) (u : Db) : Type 0 where
  pub quotas :
      (j : QuotaKey)
      → lookup j u.quotas ≡ (if (e.account, e.period_key) == j then some q else lookup j s.quotas)
  pub events : u.events ≡ insert_row e s.events
  pub registry : u.registry ≡ insert_row (entry_of e) s.registry

-- The reservation that the event ends: it was live, with the same units in the same period.
pub record Settled (s : Db) (e : UsageEvent) : Type 0 where
  pub key : String
  pub named : e.reservation_key ≡ some key
  pub made : UsageEvent
  pub reservation : first_where (is_reservation e.account key) s.events ≡ some made
  pub units : made.units ≡ e.units
  pub period : made.period_key ≡ e.period_key
  pub active : first_where (is_terminal e.account key) s.events ≡ none

-- What the new counters and the event must satisfy.
pub record Sound (s : Db) (e : UsageEvent) (q : Quota) : Type 0 where
  pub spent :
      q.consumed_units
      ≡ consumed_of (lookup (e.account, e.period_key) s.quotas)
        + units_if (is_spent e.operation) e.units
  pub held :
      q.reserved_units + units_if (is_final e.operation) e.units
      ≡ reserved_of (lookup (e.account, e.period_key) s.quotas)
        + units_if (is_reserve e.operation) e.units
  pub capacity : q.consumed_units + q.reserved_units ≤ q.limit_units
  pub year : 1000 ≤ year_in e.period_key
  pub print : e.fingerprint.period_key ≡ e.period_key
  pub print_key : e.fingerprint.reservation_key ≡ e.reservation_key
  pub readable : is_ok (bucket_bounds e.period_key) ≡ true
  pub settles : is_final e.operation ≡ true → Settled s e
  pub new :
      (a : Account) (k : String)
      → is_reservation a k e ≡ true
      → first_where (is_reservation a k) s.events ≡ none
  pub key : e.operation ≡ Operation.reserve → e.reservation_key ≡ some e.idempotency_key

-- The reservation that a terminal event names.
Settled-active :
    (s : Db) (e : UsageEvent) (a : Account) (k : String)
    → (is_final e.operation ≡ true → Settled s e)
    → is_terminal a k e ≡ true
    → (first_where (is_terminal a k) s.events ≡ none)
      × (is_some (first_where (is_reservation a k) s.events) ≡ true)
Settled-active s e a k h t =
    let x = h (ground (arith, t)) in
    let account : e.account ≡ a = (account_eq.beq_iff e.account a).0 (ground (arith, t)) in
    let key : x.key ≡ k = ground (arith, t, x.named, string_eq.beq_iff x.key k) in
    (rw (account, key) at x.active, ground (arith, rw (account, key) at x.reservation))

module _ (s : Db) (e : UsageEvent) (q : Quota) (u : Db) (v : Inv s) (r : Recorded s e q u)
    (w : Sound s e q) where
  pub recorded-spends :
      (k : QuotaKey) → consumed_of (lookup k u.quotas) ≡ sum (counted is_spent k) u.events
  recorded-spends k = rw r.events (
      ground (
        arith,
        r.quotas k,
        v.spends k,
        w.spent,
        quota_key_eq.beq_iff (e.account, e.period_key) k,
        quota_key_eq.beq_iff k (e.account, e.period_key),
        sum-insert_row (counted is_spent k) e s.events,
      ))

  pub recorded-holds :
      (k : QuotaKey)
      → reserved_of (lookup k u.quotas) + sum (counted is_final k) u.events
        ≡ sum (counted is_reserve k) u.events
  recorded-holds k = rw r.events (
      ground (
        arith,
        r.quotas k,
        v.holds k,
        w.held,
        quota_key_eq.beq_iff (e.account, e.period_key) k,
        quota_key_eq.beq_iff k (e.account, e.period_key),
        sum-insert_row (counted is_final k) e s.events,
        sum-insert_row (counted is_reserve k) e s.events,
      ))

  pub recorded-fits :
      (k : QuotaKey)
      → consumed_of (lookup k u.quotas) + reserved_of (lookup k u.quotas)
        ≤ limit_of (lookup k u.quotas)
  recorded-fits k = ground (arith, r.quotas k, v.fits k, w.capacity)

  pub recorded-dated : (k : QuotaKey) → is_some (lookup k u.quotas) ≡ true → 1000 ≤ year_in k.1
  recorded-dated k h =
      ground
        (arith, r.quotas k, v.dated k, w.year, quota_key_eq.beq_iff (e.account, e.period_key) k)

  pub recorded-Placed :
      (p : UsageEvent → Bool) (x : UsageEvent) → first_where p u.events ≡ some x → Placed u x
  recorded-Placed p x h = elim (Option-cases (first_where p s.events)) [
    | inr (y, old) ↦
        let same : y ≡ x =
          ground (arith, rw r.events at h, old, first_where-insert_row p e s.events) in
        let d = v.placed p x (rw same at old) in
        record {
          stored = ground (arith, r.quotas (x.account, x.period_key), d.stored);
          period = d.period;
          reservation = d.reservation;
          readable = d.readable;
        }
    | inl new ↦
        let same : e ≡ x =
          ground (arith, rw r.events at h, new, first_where-insert_row p e s.events) in
        subst (Placed u) same (record {
          stored = ground (
            arith,
            r.quotas (e.account, e.period_key),
            quota_key_eq.beq_iff (e.account, e.period_key) (e.account, e.period_key),
          );
          period = w.print;
          reservation = w.print_key;
          readable = w.readable;
        })
  ]

  pub recorded-single : (a : Account) (k : String) → count (is_reservation a k) u.events ≤ 1
  recorded-single a k = rw r.events (
      ground (
        arith,
        v.single a k,
        w.new a k,
        count-none (is_reservation a k) s.events,
        sum-insert_row (λ (x : UsageEvent). if is_reservation a k x then 1 else 0) e s.events,
      ))

  pub recorded-once : (a : Account) (k : String) → count (is_terminal a k) u.events ≤ 1
  recorded-once a k = rw r.events (
      ground (
        arith,
        v.once a k,
        λ (t : is_terminal a k e ≡ true). (Settled-active s e a k w.settles t).0,
        count-none (is_terminal a k) s.events,
        sum-insert_row (λ (x : UsageEvent). if is_terminal a k x then 1 else 0) e s.events,
      ))

  pub recorded-backed :
      (a : Account) (k : String)
      → first_where (is_reservation a k) u.events ≡ none
      → first_where (is_terminal a k) u.events ≡ none
  recorded-backed a k h = rw r.events (
      ground (
        arith,
        rw r.events at h,
        v.backed a k,
        λ (t : is_terminal a k e ≡ true). (Settled-active s e a k w.settles t).1,
        first_where-insert_row (is_reservation a k) e s.events,
        first_where-insert_row (is_terminal a k) e s.events,
      ))

  pub recorded-keyed :
      (a : Account) (k : String)
      → first_where (is_reservation a k) u.events ≡ first_where (made_under a k) u.events
  recorded-keyed a k = rw r.events (
      ground (
        arith,
        v.keyed a k,
        w.key,
        operation_eq.beq_iff e.operation Operation.reserve,
        first_where-insert_row (is_reservation a k) e s.events,
        first_where-insert_row (made_under a k) e s.events,
      ))
