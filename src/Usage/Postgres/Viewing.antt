-- ===== src/Usage/Postgres/Viewing.antt =====
-- The meter that the usage tables show after a recorded operation (backend/app/usage/db_ledger.py).
use mathlib.Core.Path.{fun_ext}
use zouseeking.Base.{
  ◌≡◌, ◌==◌, true, none, some, String, arith, if◌then◌else◌, string_eq, option_eq,
}
use zouseeking.Base.Dict.{lookup}
use zouseeking.Base.Table.{first_where}
use zouseeking.Base.Rows.{first_where-insert_row}
use zouseeking.Usage.Ledger.Data.{Operation, operation_eq}
use zouseeking.Usage.Postgres.Data.{
  Account, account_eq, Quota, QuotaKey, quota_key_eq, UsageEvent, Db,
}
use zouseeking.Usage.Postgres.Calls.{is_final, is_terminal, is_reservation}
use zouseeking.Usage.Postgres.Meter.{
  Counts, active, settled, Meter, with_counter, with_standing, counter_of, view,
}
use zouseeking.Usage.Postgres.Recording.{Recorded}

Meter-ext :
    (m n : Meter)
    → ((key : QuotaKey) → m.counters key ≡ n.counters key)
    → ((a : Account) (k : String) → m.standing a k ≡ n.standing a k)
    → m ≡ n
Meter-ext m n h g =
    λ i. record { counters = fun_ext h i; standing = fun_ext (λ a. fun_ext (g a)) i }

module _ (s : Db) (e : UsageEvent) (q : Quota) (u : Db) (r : Recorded s e q u) where
  view-counters :
      (key : QuotaKey)
      → counter_of (lookup key u.quotas) ≡ (
          if (e.account, e.period_key) == key
          then counter_of (some q)
          else counter_of (lookup key s.quotas))
  view-counters key = ground (arith, r.quotas key)

  pub view-consumed :
      (c : Counts)
      → counter_of (some q) ≡ some c
      → e.operation ≡ Operation.consume
      → view u ≡ record (view s) { counters = with_counter (e.account, e.period_key) c (view s) }
  unfolding view
  view-consumed c h o =
      Meter-ext _ _ (λ key. ground (arith, h, view-counters key))
        (λ a k. rw r.events (
          ground (
            arith,
            o,
            operation_eq.beq_iff e.operation Operation.reserve,
            first_where-insert_row (is_terminal a k) e s.events,
            first_where-insert_row (is_reservation a k) e s.events,
          )))

  pub view-reserved :
      (c : Counts) (k : String)
      → counter_of (some q) ≡ some c
      → e.operation ≡ Operation.reserve
      → e.reservation_key ≡ some k
      → first_where (is_reservation e.account k) s.events ≡ none
      → first_where (is_terminal e.account k) s.events ≡ none
      → view u ≡ record {
        counters = with_counter (e.account, e.period_key) c (view s);
        standing = with_standing e.account k (active e.units e.period_key) (view s);
      }
  unfolding view
  view-reserved c k h o named fresh open_ =
      Meter-ext _ _ (λ key. ground (arith, h, view-counters key))
        (λ a j. rw r.events (
          ground (
            arith,
            o,
            named,
            fresh,
            open_,
            operation_eq.beq_iff e.operation Operation.reserve,
            account_eq.beq_iff e.account a,
            string_eq.beq_iff k j,
            first_where-insert_row (is_terminal a j) e s.events,
            first_where-insert_row (is_reservation a j) e s.events,
          )))

  pub view-settled :
      (c : Counts) (k : String)
      → counter_of (some q) ≡ some c
      → is_final e.operation ≡ true
      → e.reservation_key ≡ some k
      → view u ≡ record {
        counters = with_counter (e.account, e.period_key) c (view s);
        standing = with_standing e.account k settled (view s);
      }
  unfolding view
  view-settled c k h o named =
      Meter-ext _ _ (λ key. ground (arith, h, view-counters key))
        (λ a j. rw r.events (
          ground (
            arith,
            o,
            named,
            operation_eq.beq_iff e.operation Operation.reserve,
            account_eq.beq_iff e.account a,
            string_eq.beq_iff k j,
            first_where-insert_row (is_terminal a j) e s.events,
            first_where-insert_row (is_reservation a j) e s.events,
          )))
