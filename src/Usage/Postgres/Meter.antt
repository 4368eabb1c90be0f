-- ===== src/Usage/Postgres/Meter.antt =====
-- What the usage ledger promises, apart from its tables (backend/app/usage/db_ledger.py): a meter with
-- the counters of each quota and the standing of each reservation, and the steps it makes.
use zouseeking.Base.{
  ℕ, ◌+◌, ◌≤◌, ◌≡◌, ◌==◌, Bool, true, false, ◌&&◌, Option, none, some, String, if◌then◌else◌,
  is_some, string_eq,
}
use zouseeking.Base.Dict.{lookup}
use zouseeking.Base.Table.{first_where}
use zouseeking.Usage.Ledger.Data.{Operation}
use zouseeking.Usage.Ledger.State.{consumed, reserved, committed, released, duplicate}
use zouseeking.Usage.Ledger.Steps.{PyValue, positive_int, key_text}
use zouseeking.Usage.Errors.{ok}
use zouseeking.Usage.Postgres.Bucket.{Bucket}
use zouseeking.Usage.Postgres.Steps.{PgArgs, normalise_kind, scope_key}
use zouseeking.Usage.Postgres.Data.{
  Account, account_eq, Quota, QuotaKey, quota_key_eq, UsageEvent, Db, PgResult,
}
use zouseeking.Usage.Postgres.Calls.{is_terminal, is_reservation}

pub record Counts : Type 0 where
  pub limit : ℕ
  pub spent : ℕ
  pub held : ℕ

-- `active u b`: `u` units are held in the period `b`.
pub data Standing : Type 0 where
  unknown settled : Standing
  active : ℕ → Bucket → Standing

pub record Meter : Type 0 where
  pub counters : QuotaKey → Option Counts
  pub standing : Account → String → Standing

abbrev pub with_counter : QuotaKey → Counts → Meter → QuotaKey → Option Counts
with_counter key c m j = if key == j then some c else m.counters j

abbrev pub with_standing : Account → String → Standing → Meter → Account → String → Standing
with_standing account k x m a j = if (account == a) && (k == j) then x else m.standing a j

-- The counter that a charge starts from: the quota's own, or a new one.
pub data Opened (m : Meter) (key : QuotaKey) (c : Counts) : Type 0 where
  known : m.counters key ≡ some c → Opened m key c
  opened : m.counters key ≡ none → c.spent ≡ 0 → c.held ≡ 0 → Opened m key c

-- An answer shows the counter as it is after the step.
abbrev pub Shows : PgResult → Counts → Type 0
Shows r c = (r.limit ≡ c.limit) × (r.consumed ≡ c.spent) × (r.reserved ≡ c.held)

-- The step is for what the arguments ask.
abbrev pub Asked : PgArgs → QuotaKey → PgResult → Type 0
Asked a key r =
    (positive_int a.units ≡ some r.units)
    × (key_text a.request_key ≡ some r.request_key)
    × (normalise_kind a.kind ≡ ok key.0.usage_kind)
    × (scope_key a.scope ≡ key.0.scope_key)

pub record Spends (a : PgArgs) (key : QuotaKey) (c d : Counts) (m n : Meter) (r : PgResult)
    : Type 0 where
  pub asked : Asked a key r
  pub status : r.status ≡ consumed
  pub start : Opened m key c
  pub counter : d ≡ record c { spent = c.spent + r.units }
  pub capacity : d.spent + d.held ≤ d.limit
  pub shows : Shows r d
  pub meter : n ≡ record m { counters = with_counter key d m }

pub record Holds (a : PgArgs) (key : QuotaKey) (c d : Counts) (m n : Meter) (r : PgResult)
    : Type 0 where
  pub asked : Asked a key r
  pub status : r.status ≡ reserved
  pub start : Opened m key c
  pub new : m.standing key.0 r.request_key ≡ unknown
  pub counter : d ≡ record c { held = c.held + r.units }
  pub capacity : d.spent + d.held ≤ d.limit
  pub shows : Shows r d
  pub meter : n ≡ record {
    counters = with_counter key d m;
    standing = with_standing key.0 r.request_key (active r.units key.1) m;
  }

-- The reservation `k` ends: its units leave `held`, and `gain` of them are spent.
pub record Settles (a : PgArgs) (key : QuotaKey) (k : String) (c d : Counts) (gain : ℕ)
    (m n : Meter) (r : PgResult) : Type 0 where
  pub asked : Asked a key r
  pub start : m.counters key ≡ some c
  pub live : m.standing key.0 k ≡ active r.units key.1
  pub limit : d.limit ≡ c.limit
  pub held : c.held ≡ d.held + r.units
  pub spent : d.spent ≡ c.spent + gain
  pub shows : Shows r d
  pub meter :
      n ≡ record { counters = with_counter key d m; standing = with_standing key.0 k settled m }

-- A step of the meter for an operation with its arguments and its reservation key, and the answer.
pub data Step (o : Operation) (a : PgArgs) (reservation_key : PyValue) (m n : Meter) (r : PgResult)
    : Type 0 where
  repeats : r.status ≡ duplicate → n ≡ m → Step o a reservation_key m n r
  consumes :
      (key : QuotaKey) (c d : Counts)
      → o ≡ Operation.consume
      → Spends a key c d m n r
      → Step o a reservation_key m n r
  reserves :
      (key : QuotaKey) (c d : Counts)
      → o ≡ Operation.reserve
      → Holds a key c d m n r
      → Step o a reservation_key m n r
  commits :
      (key : QuotaKey) (k : String) (c d : Counts)
      → o ≡ Operation.commit
      → r.status ≡ committed
      → key_text reservation_key ≡ some k
      → Settles a key k c d r.units m n r
      → Step o a reservation_key m n r
  releases :
      (key : QuotaKey) (k : String) (c d : Counts)
      → o ≡ Operation.release
      → r.status ≡ released
      → key_text reservation_key ≡ some k
      → Settles a key k c d 0 m n r
      → Step o a reservation_key m n r

-- The meter that the tables show.
abbrev pub counter_of : Option Quota → Option Counts
counter_of none = none
counter_of (some q) =
    some (record { limit = q.limit_units; spent = q.consumed_units; held = q.reserved_units })

abbrev pub standing_of : Bool → Option UsageEvent → Standing
standing_of true e = settled
standing_of false none = unknown
standing_of false (some e) = active e.units e.period_key

unfoldable pub view : Db → Meter
view s = record {
  counters = λ key. counter_of (lookup key s.quotas);
  standing = λ a k.
      standing_of (is_some (first_where (is_terminal a k) s.events))
        (first_where (is_reservation a k) s.events);
}
