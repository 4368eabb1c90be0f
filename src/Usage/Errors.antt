-- ===== src/Usage/Errors.antt =====
-- The exceptions of the usage package (backend/app/usage/ledger.py) and a call's result.
use zouseeking.Base.{◌≡◌, refl, ◌⊎◌, inl, inr}

-- `key_error` is Python's own, of `self._periods[key]`; `value_error` and `overflow_error` are
-- Python's own as well.
pub data Error : Type 0 where
  value_error overflow_error key_error assertion_error : Error
  usage_error idempotency_conflict quota_exceeded : Error
  reservation_not_found reservation_state_error : Error

pub data Result {ℓ} (A : Type ℓ) : Type ℓ where
  ok : A → Result A
  err : Error → Result A

pub Result-cases {ℓ} :
    {A : Type ℓ} (r : Result A) → ((a : A) × (r ≡ ok a)) ⊎ ((e : Error) × (r ≡ err e))
Result-cases (ok a) = inl (a, refl)
Result-cases (err e) = inr (e, refl)
