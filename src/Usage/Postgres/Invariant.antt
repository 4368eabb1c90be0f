-- ===== src/Usage/Postgres/Invariant.antt =====
-- The invariant of the usage tables (backend/app/usage/db_ledger.py): the counters of a quota are the
-- sums over the append-only events, and the registry repeats the events.
use zouseeking.Base.{
  ℕ, ◌+◌, ◌≤◌, ◌≡◌, refl, ◌==◌, Bool, true, false, ◌&&◌, not, Option, none, some, List, String,
  arith, if◌then◌else◌, map, is_some, string_eq, option_eq,
}
use zouseeking.Base.Dict.{lookup}
use zouseeking.Base.Table.{first_where}
use zouseeking.Base.Rows.{sum, count}
use zouseeking.Usage.Errors.{Result, ok, err}
use zouseeking.Usage.Ledger.Data.{Operation, operation_eq}
use zouseeking.Usage.Postgres.Bucket.{year_in, bucket_bounds}
use zouseeking.Usage.Postgres.Data.{
  Account, account_eq, QuotaKey, quota_key_eq, UsageEvent, Db, empty,
}
use zouseeking.Usage.Postgres.Steps.{consumed_of, reserved_of, limit_of, entry_of}
use zouseeking.Usage.Postgres.Calls.{is_final, is_terminal, is_reservation}

abbrev pub is_spent : Operation → Bool
is_spent Operation.consume = true
is_spent Operation.commit = true
is_spent _ = false

abbrev pub is_reserve : Operation → Bool
is_reserve Operation.reserve = true
is_reserve _ = false

-- What an event of the quota spends, reserves and gives back.
abbrev pub counted : (Operation → Bool) → QuotaKey → UsageEvent → ℕ
counted p k e = if (k == (e.account, e.period_key)) && p e.operation then e.units else 0

-- A reservation event made under a request key.
abbrev pub made_under : Account → String → UsageEvent → Bool
made_under account k e =
    (e.account == account) && ((e.operation == Operation.reserve) && (e.idempotency_key == k))

-- Whether the reservation that an event made has ended.
abbrev pub ended : List UsageEvent → Option String → Account → Bool
ended events none a = false
ended events (some k) a = is_some (first_where (is_terminal a k) events)

-- What a live reservation of the quota holds.
abbrev pub live_units : List UsageEvent → QuotaKey → UsageEvent → ℕ
live_units events k e =
    if (k == (e.account, e.period_key))
      && (is_reserve e.operation && not (ended events e.reservation_key e.account))
    then e.units
    else 0

abbrev pub is_ok {ℓ} : {A : Type ℓ} → Result A → Bool
is_ok (ok a) = true
is_ok (err e) = false

-- An event's quota exists, its period key can be read, and its fingerprint is of its columns.
pub record Placed (s : Db) (e : UsageEvent) : Type 0 where
  pub stored : is_some (lookup (e.account, e.period_key) s.quotas) ≡ true
  pub period : e.fingerprint.period_key ≡ e.period_key
  pub reservation : e.fingerprint.reservation_key ≡ e.reservation_key
  pub readable : is_ok (bucket_bounds e.period_key) ≡ true

pub record Inv (s : Db) : Type 0 where
  pub copied : s.registry ≡ map entry_of s.events
  pub spends : (k : QuotaKey) → consumed_of (lookup k s.quotas) ≡ sum (counted is_spent k) s.events
  pub holds :
      (k : QuotaKey)
      → reserved_of (lookup k s.quotas) + sum (counted is_final k) s.events
        ≡ sum (counted is_reserve k) s.events
  pub fits :
      (k : QuotaKey)
      → consumed_of (lookup k s.quotas) + reserved_of (lookup k s.quotas)
        ≤ limit_of (lookup k s.quotas)
  pub dated : (k : QuotaKey) → is_some (lookup k s.quotas) ≡ true → 1000 ≤ year_in k.1
  pub placed :
      (p : UsageEvent → Bool) (e : UsageEvent) → first_where p s.events ≡ some e → Placed s e
  pub live : (k : QuotaKey) → reserved_of (lookup k s.quotas) ≡ sum (live_units s.events k) s.events
  pub single : (a : Account) (k : String) → count (is_reservation a k) s.events ≤ 1
  pub once : (a : Account) (k : String) → count (is_terminal a k) s.events ≤ 1
  pub backed :
      (a : Account) (k : String)
      → first_where (is_reservation a k) s.events ≡ none
      → first_where (is_terminal a k) s.events ≡ none
  pub keyed :
      (a : Account) (k : String)
      → first_where (is_reservation a k) s.events ≡ first_where (made_under a k) s.events

pub empty-Inv : Inv empty
unfolding lookup sum first_where
empty-Inv = record {
  copied = refl;
  spends = λ k. refl;
  holds = λ k. refl;
  fits = λ k. omega arith;
  dated = λ k h. cc;
  placed = λ p e h. cc;
  live = λ k. refl;
  single = λ a k. omega arith;
  once = λ a k. omega arith;
  backed = λ a k h. refl;
  keyed = λ a k. refl;
}
