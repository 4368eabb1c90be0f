-- ===== src/Usage/Ledger/Data.antt =====
-- Keys, rows and state of `class Ledger` (backend/app/usage/ledger.py). A UUID is a number: it is
-- only compared.
use zouseeking.Base.{
  ℕ, ◌≡◌, ◌↔◌, Bool, true, false, ◌&&◌, Option, String, arith, BoolEq, nat_eq, string_eq,
  option_beq, option_beq_iff, nat_beq,
}

pub data UsageKind : Type 0 where
  query analysis subscription export report : UsageKind

unfoldable pub kind_beq : UsageKind → UsageKind → Bool
kind_beq query query = true
kind_beq analysis analysis = true
kind_beq subscription subscription = true
kind_beq export export = true
kind_beq report report = true
kind_beq _ _ = false

pub kind_beq_iff : (a b : UsageKind) → (kind_beq a b ≡ true) ↔ (a ≡ b)
unfolding kind_beq
kind_beq_iff a b = ground arith

instance abbrev pub usage_kind_eq : BoolEq UsageKind
usage_kind_eq = record { beq = kind_beq; beq_iff = kind_beq_iff }

-- `Scope.kind`, as the two class methods write it.
pub data ScopeKind : Type 0 where
  owner organization : ScopeKind

pub record Scope : Type 0 where
  pub kind : ScopeKind
  pub id : ℕ

unfoldable pub scope_kind_beq : ScopeKind → ScopeKind → Bool
scope_kind_beq owner owner = true
scope_kind_beq organization organization = true
scope_kind_beq _ _ = false

unfoldable pub scope_beq : Scope → Scope → Bool
scope_beq a b = scope_kind_beq a.kind b.kind && nat_beq a.id b.id

pub scope_beq_iff : (a b : Scope) → (scope_beq a b ≡ true) ↔ (a ≡ b)
unfolding scope_beq scope_kind_beq
scope_beq_iff a b = ground arith

instance abbrev pub scope_eq : BoolEq Scope
scope_eq = record { beq = scope_beq; beq_iff = scope_beq_iff }

pub data Operation : Type 0 where
  consume reserve commit release : Operation

unfoldable pub operation_beq : Operation → Operation → Bool
operation_beq consume consume = true
operation_beq reserve reserve = true
operation_beq commit commit = true
operation_beq release release = true
operation_beq _ _ = false

pub operation_beq_iff : (a b : Operation) → (operation_beq a b ≡ true) ↔ (a ≡ b)
unfolding operation_beq
operation_beq_iff a b = ground arith

instance abbrev pub operation_eq : BoolEq Operation
operation_eq = record { beq = operation_beq; beq_iff = operation_beq_iff }

-- `PeriodKey`: the scope's kind and id, the usage kind and the period's start.
pub record PeriodKey : Type 0 where
  pub scope : Scope
  pub kind : UsageKind
  pub start : ℕ

unfoldable pub period_key_beq : PeriodKey → PeriodKey → Bool
period_key_beq a b =
    scope_beq a.scope b.scope && (kind_beq a.kind b.kind && nat_beq a.start b.start)

pub period_key_beq_iff : (a b : PeriodKey) → (period_key_beq a b ≡ true) ↔ (a ≡ b)
unfolding period_key_beq scope_beq scope_kind_beq kind_beq
period_key_beq_iff a b = ground arith

instance abbrev pub period_key_eq : BoolEq PeriodKey
period_key_eq = record { beq = period_key_beq; beq_iff = period_key_beq_iff }

-- `Ledger._fingerprint`: the request's parameters, compared on a replay.
pub record Fingerprint : Type 0 where
  pub scope : Scope
  pub kind : UsageKind
  pub units : ℕ
  pub actor_user_id : ℕ
  pub operation : Operation
  pub limit : ℕ
  pub reservation_key : Option String

unfoldable pub fingerprint_beq : Fingerprint → Fingerprint → Bool
fingerprint_beq a b =
    scope_eq.beq a.scope b.scope
    && (usage_kind_eq.beq a.kind b.kind
        && (nat_beq a.units b.units
            && (nat_beq a.actor_user_id b.actor_user_id
                && (operation_eq.beq a.operation b.operation
                    && (nat_beq a.limit b.limit
                        && option_beq a.reservation_key b.reservation_key)))))

pub fingerprint_beq_iff : (a b : Fingerprint) → (fingerprint_beq a b ≡ true) ↔ (a ≡ b)
unfolding fingerprint_beq
fingerprint_beq_iff a b = ground (
  arith,
  scope_eq.beq_iff a.scope b.scope,
  usage_kind_eq.beq_iff a.kind b.kind,
  operation_eq.beq_iff a.operation b.operation,
  option_beq_iff ⦃e = string_eq⦄ a.reservation_key b.reservation_key,
)

instance abbrev pub fingerprint_eq : BoolEq Fingerprint
fingerprint_eq = record { beq = fingerprint_beq; beq_iff = fingerprint_beq_iff }

-- `EventKey`.
pub record EventKey : Type 0 where
  pub scope : Scope
  pub request_key : String
  pub operation : Operation

unfoldable pub event_key_beq : EventKey → EventKey → Bool
event_key_beq a b =
    scope_eq.beq a.scope b.scope
    && (string_eq.beq a.request_key b.request_key && operation_eq.beq a.operation b.operation)

pub event_key_beq_iff : (a b : EventKey) → (event_key_beq a b ≡ true) ↔ (a ≡ b)
unfolding event_key_beq
event_key_beq_iff a b = ground (
  arith,
  scope_eq.beq_iff a.scope b.scope,
  string_eq.beq_iff a.request_key b.request_key,
  operation_eq.beq_iff a.operation b.operation,
)

instance abbrev pub event_key_eq : BoolEq EventKey
event_key_eq = record { beq = event_key_beq; beq_iff = event_key_beq_iff }

-- `ReservationIndexKey`.
pub record ReservationIndexKey : Type 0 where
  pub scope : Scope
  pub kind : UsageKind
  pub reservation_key : String

unfoldable pub reservation_index_key_beq : ReservationIndexKey → ReservationIndexKey → Bool
reservation_index_key_beq a b =
    scope_eq.beq a.scope b.scope
    && (usage_kind_eq.beq a.kind b.kind && string_eq.beq a.reservation_key b.reservation_key)

pub reservation_index_key_beq_iff :
    (a b : ReservationIndexKey) → (reservation_index_key_beq a b ≡ true) ↔ (a ≡ b)
unfolding reservation_index_key_beq
reservation_index_key_beq_iff a b = ground (
  arith,
  scope_eq.beq_iff a.scope b.scope,
  usage_kind_eq.beq_iff a.kind b.kind,
  string_eq.beq_iff a.reservation_key b.reservation_key,
)

instance abbrev pub reservation_index_key_eq : BoolEq ReservationIndexKey
reservation_index_key_eq = record {
  beq = reservation_index_key_beq;
  beq_iff = reservation_index_key_beq_iff;
}

-- The key of `_reservations`: a period's key with a reservation key.
pub record ReservationId : Type 0 where
  pub period_key : PeriodKey
  pub reservation_key : String

unfoldable pub reservation_id_beq : ReservationId → ReservationId → Bool
reservation_id_beq a b =
    period_key_eq.beq a.period_key b.period_key && string_eq.beq a.reservation_key b.reservation_key

pub reservation_id_beq_iff : (a b : ReservationId) → (reservation_id_beq a b ≡ true) ↔ (a ≡ b)
unfolding reservation_id_beq
reservation_id_beq_iff a b = ground (
  arith,
  period_key_eq.beq_iff a.period_key b.period_key,
  string_eq.beq_iff a.reservation_key b.reservation_key,
)

instance abbrev pub reservation_id_eq : BoolEq ReservationId
reservation_id_eq = record { beq = reservation_id_beq; beq_iff = reservation_id_beq_iff }
