-- ===== src/Usage/Postgres/Data.antt =====
-- The tables of the usage ledger as backend/app/usage/db_ledger.py reads and writes them. A UUID is a
-- number, and a row's columns `scope_key` and `usage_kind`, which every statement names together, are
-- its account.
use zouseeking.Base.{
  ℕ, ◌≡◌, ◌↔◌, Bool, true, false, ◌&&◌, Option, List, [], String, arith, BoolEq, nat_eq, nat_beq,
  string_eq, option_beq, option_beq_iff, pair_eq,
}
use zouseeking.Base.Dict.{Dict}
use zouseeking.Usage.Errors.{Error}
use zouseeking.Usage.Ledger.Data.{Scope, scope_eq, Operation, operation_eq, UsageKind}
use zouseeking.Usage.Ledger.State.{Status}
use zouseeking.Usage.Postgres.Bucket.{Bucket, bucket_eq}

-- DB_USAGE_KINDS
pub data DbKind : Type 0 where
  query report stats_query export_row subscription_slot : DbKind

unfoldable pub db_kind_beq : DbKind → DbKind → Bool
db_kind_beq query query = true
db_kind_beq report report = true
db_kind_beq stats_query stats_query = true
db_kind_beq export_row export_row = true
db_kind_beq subscription_slot subscription_slot = true
db_kind_beq _ _ = false

pub db_kind_beq_iff : (a b : DbKind) → (db_kind_beq a b ≡ true) ↔ (a ≡ b)
unfolding db_kind_beq
db_kind_beq_iff a b = ground arith

instance abbrev pub db_kind_eq : BoolEq DbKind
db_kind_eq = record { beq = db_kind_beq; beq_iff = db_kind_beq_iff }

-- A `kind` argument: a member of the offline enumeration, a text, or another object.
pub data KindArg : Type 0 where
  member : UsageKind → KindArg
  token : String → KindArg
  neither : KindArg

-- The column `scope_key`: 'user:<uuid>' or 'org:<uuid>'.
pub data ScopeKey : Type 0 where
  user org : ℕ → ScopeKey

pub record Account : Type 0 where
  pub scope_key : ScopeKey
  pub usage_kind : DbKind

unfoldable pub scope_key_beq : ScopeKey → ScopeKey → Bool
scope_key_beq (user i) (user j) = nat_beq i j
scope_key_beq (org i) (org j) = nat_beq i j
scope_key_beq _ _ = false

unfoldable pub account_beq : Account → Account → Bool
account_beq a b = scope_key_beq a.scope_key b.scope_key && db_kind_eq.beq a.usage_kind b.usage_kind

pub account_beq_iff : (a b : Account) → (account_beq a b ≡ true) ↔ (a ≡ b)
unfolding account_beq scope_key_beq
account_beq_iff a b = ground (arith, db_kind_eq.beq_iff a.usage_kind b.usage_kind)

instance abbrev pub account_eq : BoolEq Account
account_eq = record { beq = account_beq; beq_iff = account_beq_iff }

-- `_fingerprint`. Its JSON text determines each component.
pub record Print : Type 0 where
  pub scope : Scope
  pub kind : DbKind
  pub units : ℕ
  pub actor_user_id : ℕ
  pub operation : Operation
  pub limit : ℕ
  pub reservation_key : Option String
  pub period_key : Bucket

unfoldable pub print_beq : Print → Print → Bool
print_beq a b =
    scope_eq.beq a.scope b.scope
    && (db_kind_eq.beq a.kind b.kind
        && (nat_beq a.units b.units
            && (nat_beq a.actor_user_id b.actor_user_id
                && (operation_eq.beq a.operation b.operation
                    && (nat_beq a.limit b.limit
                        && (option_beq a.reservation_key b.reservation_key
                            && bucket_eq.beq a.period_key b.period_key))))))

pub print_beq_iff : (a b : Print) → (print_beq a b ≡ true) ↔ (a ≡ b)
unfolding print_beq
print_beq_iff a b = ground (
  arith,
  scope_eq.beq_iff a.scope b.scope,
  db_kind_eq.beq_iff a.kind b.kind,
  operation_eq.beq_iff a.operation b.operation,
  option_beq_iff ⦃e = string_eq⦄ a.reservation_key b.reservation_key,
  bucket_eq.beq_iff a.period_key b.period_key,
)

instance abbrev pub print_eq : BoolEq Print
print_eq = record { beq = print_beq; beq_iff = print_beq_iff }

-- A row of usage_quotas, less the unique columns that it is found by.
pub record Quota : Type 0 where
  pub id : ℕ
  pub limit_units : ℕ
  pub consumed_units : ℕ
  pub reserved_units : ℕ

-- The unique columns: the account and `period_key`.
abbrev pub QuotaKey : Type 0
QuotaKey = Account × Bucket

instance abbrev pub quota_key_eq : BoolEq QuotaKey
quota_key_eq = pair_eq

-- A row of usage_events.
pub record UsageEvent : Type 0 where
  pub id : ℕ
  pub account : Account
  pub operation : Operation
  pub units : ℕ
  pub period_key : Bucket
  pub idempotency_key : String
  pub fingerprint : Print
  pub reservation_key : Option String
  pub actor_user_id : ℕ

-- A row of usage_idempotency.
pub record Entry : Type 0 where
  pub account : Account
  pub operation : Operation
  pub idempotency_key : String
  pub fingerprint : Print

-- The tables. The two that are only inserted into list their rows in that order.
pub record Db : Type 0 where
  pub quotas : Dict QuotaKey Quota
  pub events : List UsageEvent
  pub registry : List Entry

abbrev pub empty : Db
empty = record { quotas = []; events = []; registry = [] }

-- An exception of the package, a constraint of the tables, or a number that no `int` column takes.
pub data DbFault : Type 0 where
  app : Error → DbFault
  violates : String → DbFault
  out_of_range : DbFault

-- `LedgerResult` as `_make_result` fills it.
pub record PgResult : Type 0 where
  pub event_id : ℕ
  pub period_id : Option ℕ
  pub status : Status
  pub scope : Scope
  pub kind : KindArg
  pub units : ℕ
  pub consumed : ℕ
  pub reserved : ℕ
  pub limit : ℕ
  pub period_start : ℕ
  pub period_end : ℕ
  pub request_key : String

-- `LedgerSummary` as `summary` fills it.
pub record PgSummary : Type 0 where
  pub scope : Scope
  pub kind : KindArg
  pub consumed : ℕ
  pub reserved : ℕ
  pub limit : ℕ
  pub period_start : ℕ
  pub period_end : ℕ
