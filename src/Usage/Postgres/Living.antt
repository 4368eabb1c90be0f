-- ===== src/Usage/Postgres/Living.antt =====
-- What the live reservations of a quota hold (backend/app/usage/db_ledger.py), and the invariant after a
-- recorded operation.
use mathlib.Core.Path.{fun_ext}
use zouseeking.Base.{
  ℕ, ◌+◌, ◌≡◌, refl, sym, ◌==◌, true, false, Option, none, some, List, String, arith, if◌then◌else◌,
  map, inl, inr, Bool-cases, Option-cases, string_eq, option_eq, ◌∙◌, ap,
}
use zouseeking.Base.Dict.{lookup}
use zouseeking.Base.Table.{first_where, insert_row, first_where-meets}
use zouseeking.Base.Rows.{
  sum, sum-insert_row, sum-add, sum-first_where, first_where-insert_row, map-insert_row,
}
use zouseeking.Usage.Ledger.Data.{Operation, operation_eq}
use zouseeking.Usage.Postgres.Data.{
  Account, account_eq, Quota, QuotaKey, quota_key_eq, UsageEvent, Db,
}
use zouseeking.Usage.Postgres.Steps.{reserved_of, entry_of}
use zouseeking.Usage.Postgres.Calls.{is_final, is_terminal, is_reservation}
use zouseeking.Usage.Postgres.Invariant.{Inv, is_reserve, ended, live_units}
use zouseeking.Usage.Postgres.Recording.{
  Recorded, Sound, recorded-spends, recorded-holds, recorded-fits, recorded-dated, recorded-Placed,
  recorded-single, recorded-once, recorded-backed, recorded-keyed,
}

-- An event that ends no reservation leaves every reservation as it was.
ended-insert :
    (e : UsageEvent) (events : List UsageEvent) (k : Option String) (a : Account)
    → is_final e.operation ≡ false
    → ended (insert_row e events) k a ≡ ended events k a
ended-insert e events none a h = refl
ended-insert e events (some k) a h =
    ground (arith, h, first_where-insert_row (is_terminal a k) e events)

same_live :
    (e : UsageEvent) (events : List UsageEvent) (k : QuotaKey)
    → is_final e.operation ≡ false
    → live_units (insert_row e events) k ≡ live_units events k
same_live e events k h =
    fun_ext (λ x. ground (arith, ended-insert e events x.reservation_key x.account h))

-- The units of the reservation `j` of an account, if it is of the quota `k`.
abbrev units_of : QuotaKey → UsageEvent → ℕ
units_of k x = if k == (x.account, x.period_key) then x.units else 0

-- An event that ends the live reservation `j` takes its units from what is live.
less_live :
    (e : UsageEvent) (events : List UsageEvent) (k : QuotaKey) (j : String) (x : UsageEvent)
    → is_final e.operation ≡ true
    → e.reservation_key ≡ some j
    → first_where (is_terminal e.account j) events ≡ none
    → live_units events k x
      ≡ live_units (insert_row e events) k x
        + (if is_reservation e.account j x then units_of k x else 0)
less_live e events k j x h named live = elim (Option-cases x.reservation_key) [
  | inl unnamed ↦ ground (arith, unnamed)
  | inr (i, n) ↦ ground (
    arith,
    n,
    h,
    named,
    live,
    operation_eq.beq_iff x.operation Operation.reserve,
    string_eq.beq_iff i j,
    string_eq.beq_iff j i,
    account_eq.beq_iff e.account x.account,
    account_eq.beq_iff x.account e.account,
    first_where-insert_row (is_terminal x.account i) e events,
  )
]

module _ (s : Db) (e : UsageEvent) (q : Quota) (u : Db) (v : Inv s) (r : Recorded s e q u)
    (w : Sound s e q) where
  recorded-live :
      (k : QuotaKey) → reserved_of (lookup k u.quotas) ≡ sum (live_units u.events k) u.events
  recorded-live k = rw r.events (
      rw (sum-insert_row (live_units (insert_row e s.events) k) e s.events)
        (elim (Bool-cases (is_final e.operation)) [
          | inr opens ↦
              rw (same_live e s.events k opens) (elim (Bool-cases (is_reserve e.operation)) [
                | inr spends ↦ ground (
                  arith,
                  r.quotas k,
                  v.live k,
                  w.held,
                  opens,
                  spends,
                  quota_key_eq.beq_iff (e.account, e.period_key) k,
                  quota_key_eq.beq_iff k (e.account, e.period_key),
                )
                | inl reserves ↦
                    let unmade = w.new e.account e.idempotency_key in
                    ground (
                      arith,
                      r.quotas k,
                      v.live k,
                      w.held,
                      w.key,
                      opens,
                      reserves,
                      unmade,
                      ended-insert e s.events (some e.idempotency_key) e.account opens,
                      v.backed e.account e.idempotency_key,
                      operation_eq.beq_iff e.operation Operation.reserve,
                      account_eq.beq_iff e.account e.account,
                      string_eq.beq_iff e.idempotency_key e.idempotency_key,
                      quota_key_eq.beq_iff (e.account, e.period_key) k,
                      quota_key_eq.beq_iff k (e.account, e.period_key),
                    )
              ])
          | inl final ↦
              let x = w.settles final in
              let made =
                sum-first_where (is_reservation e.account x.key) (units_of k) s.events x.made
                  x.reservation (v.single e.account x.key) in
              let split =
                sum-add (live_units s.events k) (live_units (insert_row e s.events) k)
                  (λ y. if is_reservation e.account x.key y then units_of k y else 0) s.events
                  (λ y. less_live e s.events k x.key y final x.named x.active) in
              ground (
                arith,
                r.quotas k,
                v.live k,
                w.held,
                final,
                made,
                split,
                x.units,
                x.period,
                first_where-meets (is_reservation e.account x.key) s.events x.made x.reservation,
                account_eq.beq_iff x.made.account e.account,
                quota_key_eq.beq_iff (e.account, e.period_key) k,
                quota_key_eq.beq_iff k (e.account, e.period_key),
              )
        ]))

  pub recorded-Inv : Inv u
  recorded-Inv = record {
    copied =
        r.registry
        ∙ (ap (insert_row (entry_of e)) v.copied
            ∙ (sym (map-insert_row entry_of e s.events) ∙ ap (map entry_of) (sym r.events)));
    spends = recorded-spends s e q u v r w;
    holds = recorded-holds s e q u v r w;
    fits = recorded-fits s e q u v r w;
    dated = recorded-dated s e q u v r w;
    placed = recorded-Placed s e q u v r w;
    live = recorded-live;
    single = recorded-single s e q u v r w;
    once = recorded-once s e q u v r w;
    backed = recorded-backed s e q u v r w;
    keyed = recorded-keyed s e q u v r w;
  }
