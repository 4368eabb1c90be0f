-- ===== src/Usage/Ledger/State.antt =====
-- The rows and the state of `class Ledger` (backend/app/usage/ledger.py), and calls on it.
use zouseeking.Base.{ℕ, Bool, Option, none, some, String, [], if◌then◌else◌}
use zouseeking.Base.Dict.{Dict}
use zouseeking.Usage.Errors.{Result, ok, err, Error}
use zouseeking.Usage.Ledger.Data.{
  Scope, UsageKind, Operation, PeriodKey, EventKey, ReservationIndexKey, ReservationId, Fingerprint,
}

-- `_Period`; its scope, kind and start are those of its key.
pub record Period : Type 0 where
  pub scope : Scope
  pub kind : UsageKind
  pub period_start : ℕ
  pub period_end : ℕ
  pub limit : ℕ
  pub consumed : ℕ
  pub reserved : ℕ
  pub period_id : ℕ

-- The `status` texts of events, reservations and results.
pub data Status : Type 0 where
  consumed reserved committed released duplicate : Status

-- `_Event`
pub record Event : Type 0 where
  pub event_id : ℕ
  pub operation : Operation
  pub request_key : String
  pub fingerprint : Fingerprint
  pub status : Status
  pub units : ℕ
  pub period_key : PeriodKey

-- `_Reservation`
pub record Reservation : Type 0 where
  pub period_key : PeriodKey
  pub reservation_key : String
  pub units : ℕ
  pub status : Status

-- `LedgerResult`
pub record LedgerResult : Type 0 where
  pub event_id : ℕ
  pub period_id : ℕ
  pub status : Status
  pub scope : Scope
  pub kind : UsageKind
  pub units : ℕ
  pub consumed : ℕ
  pub reserved : ℕ
  pub limit : ℕ
  pub period_start : ℕ
  pub period_end : ℕ
  pub request_key : String

-- `LedgerSummary`
pub record LedgerSummary : Type 0 where
  pub scope : Scope
  pub kind : UsageKind
  pub consumed : ℕ
  pub reserved : ℕ
  pub limit : ℕ
  pub period_start : ℕ
  pub period_end : ℕ

-- The four dicts of a `Ledger`. A period or reservation that the code changes through a reference
-- is written back under its key. The lock makes each call one step.
pub record Ledger : Type 0 where
  pub periods : Dict PeriodKey Period
  pub events : Dict EventKey Event
  pub reservations : Dict ReservationId Reservation
  pub reservation_index : Dict ReservationIndexKey PeriodKey

-- `Ledger.__init__`
abbrev pub init : Ledger
init = record { periods = []; events = []; reservations = []; reservation_index = [] }

-- A call: what was written stays written when an exception is raised.
abbrev pub Action {ℓ} : Type ℓ → Type ℓ
Action A = Ledger → Result A × Ledger

module _ {ℓ} {A : Type ℓ} where
  abbrev pub pure : A → Action A
  pure a s = (ok a, s)

  abbrev pub raise : Error → Action A
  raise e s = (err e, s)

  abbrev pub gets : (Ledger → A) → Action A
  gets f s = (ok (f s), s)

  abbrev pub or_raise : Option A → Error → Action A
  or_raise none e = raise e
  or_raise (some a) e = pure a

  abbrev pub lift : Result A → Action A
  lift r s = (r, s)

infixl 5 ◌>>=◌ ◌>>◌
abbrev pub ◌>>=◌ {ℓ κ} : {A : Type ℓ} {B : Type κ} → Action A → (A → Action B) → Action B
◌>>=◌ m f s = let (r, s') = m s in elim r [ ok a ↦ f a s' | err e ↦ (err e, s') ]

abbrev pub ◌>>◌ {ℓ} : {B : Type ℓ} → Action (Unit {0}) → Action B → Action B
m >> k = m >>= λ _. k

abbrev pub raise_if : Bool → Error → Action (Unit {0})
raise_if c e s = (if c then err e else ok tt, s)

abbrev pub modify : (Ledger → Ledger) → Action (Unit {0})
modify f s = (ok tt, f s)
