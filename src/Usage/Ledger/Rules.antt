-- ===== src/Usage/Ledger/Rules.antt =====
-- Reasoning about calls: what a call ends in, step by step.
use zouseeking.Base.{◌≡◌, ap}
use zouseeking.Usage.Errors.{Result, ok, err, Error}
use zouseeking.Usage.Ledger.State.{Ledger, Action, ◌>>=◌}

-- A bind ends as its second part does from where the first ended, or fails with the first.
pub bind_rule {ℓ κ μ ν} :
    {A : Type ℓ} {B : Type κ} (P : Result A × Ledger → Type μ) (Q : Result B × Ledger → Type ν)
    (m : Action A) (f : A → Action B) (s : Ledger)
    → P (m s)
    → ((a : A) (s' : Ledger) → P (ok a, s') → Q (f a s'))
    → ((e : Error) (s' : Ledger) → P (err e, s') → Q (err e, s'))
    → Q ((m >>= f) s)
bind_rule P Q m f s p on_ok on_err = split (m s) p
  where
    split : (r : Result _ × Ledger) → P r → Q (elim r.0 [ ok a ↦ f a r.1 | err e ↦ (err e, r.1) ])
    split (ok a, s') h = on_ok a s' h
    split (err e, s') h = on_err e s' h

abbrev after {ℓ κ} :
    {A : Type ℓ} {B : Type κ} → (A → Action B) → Result A × Ledger → Result B × Ledger
after f (r, t) = elim r [ ok a ↦ f a t | err e ↦ (err e, t) ]

pub bind_ok {ℓ κ} :
    {A : Type ℓ} {B : Type κ} (m : Action A) (f : A → Action B) {a : A} (s : Ledger) {t : Ledger}
    → m s ≡ (ok a, t)
    → (m >>= f) s ≡ f a t
bind_ok m f s e = ap (after f) e

pub bind_err {ℓ κ} :
    {A : Type ℓ} {B : Type κ} (m : Action A) (f : A → Action B) {e : Error} (s : Ledger)
    {t : Ledger}
    → m s ≡ (err e, t)
    → (m >>= f) s ≡ (err e, t)
bind_err m f s e = ap (after f) e
