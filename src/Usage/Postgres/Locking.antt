-- ===== src/Usage/Postgres/Locking.antt =====
-- `_lock_quota_or_provision` and the replay answers of backend/app/usage/db_ledger.py: what they find
-- and what they leave.
use mathlib.Core.Path.{subst}
use zouseeking.Base.{
  ℕ, ◌≤◌, ◌≡◌, refl, ◌==◌, true, Option, none, some, String, arith, if◌then◌else◌, is_some, ◌⊎◌,
  inl, inr, ℤ, pos, negsuc, Option-cases,
}
use zouseeking.Base.Dict.{lookup, insert, lookup-insert, lookup-insert_self}
use zouseeking.Base.Table.{first_where}
use zouseeking.Base.Txn.{
  Ensures, ends, raises, after_done, after_check, after_found, after_call, after_raised, found,
  and_then,
}
use zouseeking.Usage.Errors.{Result, ok, err}
use zouseeking.Usage.Ledger.Data.{Scope, Operation, operation_eq}
use zouseeking.Usage.Ledger.State.{duplicate}
use zouseeking.Usage.Postgres.Bucket.{year_in, bucket_bounds}
use zouseeking.Usage.Postgres.Data.{
  DbKind, Account, account_eq, Print, print_eq, Quota, QuotaKey, quota_key_eq, UsageEvent, Db, app,
  PgResult,
}
use zouseeking.Usage.Postgres.Steps.{
  Call, lift, limit_column, provision, lock_quota_or_provision, new_quota, by_fingerprint,
  entry_key, entry_print, replay_result, replay_if, replay_new_key, replay_known_key,
  replay_outcome, account_of, make_result,
}

-- A validation that passes.
pub after_lift {ℓ κ ν} :
    {A : Type ℓ} {B : Type κ} {Q : B → Db → Type ν} (r : Result A) (s : Db) (f : A → Call B)
    → ((a : A) → r ≡ ok a → Ensures Q (f a s))
    → Ensures Q (and_then f (lift r s))
after_lift (ok a) s f h = after_done f (h a refl)
after_lift (err e) s f h = after_raised f (app e)

-- The row of `key` in `t`, the tables after the call, is `q`.
pub record Locked (s : Db) (key : QuotaKey) (q : Quota) (t : Db) : Type 0 where
  pub others : (j : QuotaKey) → lookup j t.quotas ≡ (if key == j then some q else lookup j s.quotas)
  pub before :
      (lookup key s.quotas ≡ some q)
      ⊎ ((lookup key s.quotas ≡ none) × (q.consumed_units ≡ 0) × (q.reserved_units ≡ 0))
  pub year : (lookup key s.quotas ≡ none) → 1000 ≤ year_in key.1
  pub events : t.events ≡ s.events
  pub registry : t.registry ≡ s.registry
  pub kept : is_some (lookup key s.quotas) ≡ true → t ≡ s

same-Locked :
    (s : Db) (key : QuotaKey) (q : Quota) → lookup key s.quotas ≡ some q → Locked s key q s
same-Locked s key q h = record {
  others = λ j. ground (arith, h, quota_key_eq.beq_iff key j);
  before = inl h;
  year = λ e. cc;
  events = refl;
  registry = refl;
  kept = λ _. refl;
}

new-Locked :
    (s : Db) (key : QuotaKey) (id limit : ℕ)
    → lookup key s.quotas ≡ none
    → 1000 ≤ year_in key.1
    → Locked s key
        (new_quota id limit)
        (record s { quotas = insert key (new_quota id limit) s.quotas })
new-Locked s key id limit h y = record {
  others = λ j. lookup-insert key j (new_quota id limit) s.quotas;
  before = inr (h, refl, refl);
  year = λ e. y;
  events = refl;
  registry = refl;
  kept = λ e. absurd (ground (arith, h));
}

limit_column-Keeps : (l : ℤ) (s : Db) → Ensures (λ n t. t ≡ s) (limit_column l s)
unfolding limit_column
limit_column-Keeps (pos n) s = after_check _ _ (λ e. ends refl)
limit_column-Keeps (negsuc n) s = raises

provision-Locked :
    (key : QuotaKey) (limit : Option ℤ) (id : ℕ) (s : Db)
    → lookup key s.quotas ≡ none
    → Ensures (Locked s key) (provision key limit id s)
unfolding provision
provision-Locked key none id s h = raises
provision-Locked key (some l) id s h = after_call (limit_column-Keeps l s) (λ n t same. rw same (
    after_check _ _ (λ e. after_done _ (
      after_done _ (
        rw (lookup-insert_self key (new_quota id n) s.quotas) (
          found _ _ (λ q e'.
            subst (λ x. Locked s key x (record s { quotas = insert key (new_quota id n) s.quotas }))
              (ground (arith, e')) (new-Locked s key id n h (ground (arith, e))))))))))

pub lock-Locked :
    (key : QuotaKey) (limit : Option ℤ) (id : ℕ) (s : Db)
    → Ensures (Locked s key) (lock_quota_or_provision key limit id s)
unfolding lock_quota_or_provision
lock-Locked key limit id s = after_done _ (elim (Option-cases (lookup key s.quotas)) [
  | inl absent ↦ rw absent (provision-Locked key limit id s absent)
  | inr (q, there) ↦ rw there (ends (same-Locked s key q there))
])

-- The answer of a replay: the tables stay, and the event was recorded with this fingerprint.
pub record Replays (account : Account) (o : Operation) (fp : Print) (s : Db) (r : PgResult) (t : Db)
    : Type 0 where
  pub same : t ≡ s
  pub status : r.status ≡ duplicate
  pub event : UsageEvent
  pub recorded : first_where (by_fingerprint account o fp) s.events ≡ some event

pub replay_result-Replays :
    (scope : Scope) (kind : DbKind) (o : Operation) (fp : Print) (s : Db)
    → Ensures (Replays (account_of scope kind) o fp s) (replay_result scope kind o fp s)
unfolding replay_result make_result
replay_result-Replays scope kind o fp s = after_done _ (
    after_found _ _ (λ event e. after_lift (bucket_bounds event.period_key) s _ (λ b _.
      after_done _ (ends (record { same = refl; status = refl; event = event; recorded = e })))))

-- What the replay check answers: the request was recorded, or its request key and its fingerprint
-- are new.
pub record Fresh (account : Account) (o : Operation) (key : String) (fp : Print) (s t : Db)
    : Type 0 where
  pub same : t ≡ s
  pub new_key : first_where (entry_key account o key) s.registry ≡ none
  pub new_print : first_where (entry_print account o fp) s.registry ≡ none

abbrev pub Checked : Account → Operation → String → Print → Db → Option PgResult → Db → Type 0
Checked account o key fp s none t = Fresh account o key fp s t
Checked account o key fp s (some r) t = Replays account o fp s r t

replay_if-Checked :
    (scope : Scope) (kind : DbKind) (o : Operation) (key : String) (fp : Print) (s : Db)
    → Ensures (Checked (account_of scope kind) o key fp s) (replay_if true scope kind o fp s)
replay_if-Checked scope kind o key fp s =
    after_call (replay_result-Replays scope kind o fp s) (λ r t p. ends p)

pub replay_outcome-Checked :
    (scope : Scope) (kind : DbKind) (o : Operation) (key : String) (fp : Print) (s : Db)
    → Ensures (Checked (account_of scope kind) o key fp s) (replay_outcome scope kind o key fp s)
unfolding replay_outcome replay_new_key replay_known_key
replay_outcome-Checked scope kind o key fp s =
    after_done _
      (elim (Option-cases (first_where (entry_key (account_of scope kind) o key) s.registry)) [
        | inr (entry, known) ↦
            rw known (after_check _ _ (λ _. replay_if-Checked scope kind o key fp s))
        | inl unknown ↦ rw unknown (
            after_done _
              (elim (Option-cases
                (first_where (entry_print (account_of scope kind) o fp) s.registry)) [
                  | inr (entry, twice) ↦ rw twice (replay_if-Checked scope kind o key fp s)
                  | inl once ↦
                      rw once (ends (record { same = refl; new_key = unknown; new_print = once }))
                ]))
      ])
