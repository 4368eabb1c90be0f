-- ===== src/Base/Txn.antt =====
-- A database transaction: it ends in an answer and the tables after it, or raises, and then every
-- write of it is undone.
use mathlib.Core.Path.{subst}
use zouseeking.Base.{Bool, true, false, Option, none, some, ◌≡◌, refl, sym, ◌⊎◌, inl, inr}

pub data Outcome {ℓ κ} (E : Type ℓ) (A : Type κ) : Type (ℓ ⊔ κ) where
  done : A → Outcome E A
  raised : E → Outcome E A

pub Outcome-cases {ℓ κ} :
    {E : Type ℓ} {A : Type κ} (o : Outcome E A)
    → ((a : A) × (o ≡ done a)) ⊎ ((e : E) × (o ≡ raised e))
Outcome-cases (done a) = inl (a, refl)
Outcome-cases (raised e) = inr (e, refl)

abbrev pub Txn {ℓ κ μ} : Type ℓ → Type κ → Type μ → Type (ℓ ⊔ κ ⊔ μ)
Txn E S A = S → Outcome E (A × S)

module _ {ℓ κ} {E : Type ℓ} {S : Type κ} where
  abbrev pub pure {μ} : {A : Type μ} → A → Txn E S A
  pure a s = done (a, s)

  unfoldable pub and_then {μ ν} :
      {A : Type μ} {B : Type ν} → (A → Txn E S B) → Outcome E (A × S) → Outcome E (B × S)
  and_then f (done (a, t)) = f a t
  and_then f (raised e) = raised e

  infixl 20 ◌>>=◌
  abbrev pub ◌>>=◌ {μ ν} : {A : Type μ} {B : Type ν} → Txn E S A → (A → Txn E S B) → Txn E S B
  (m >>= f) s = and_then f (m s)

  infixl 20 ◌>>◌
  abbrev pub ◌>>◌ {μ ν} : {A : Type μ} {B : Type ν} → Txn E S A → Txn E S B → Txn E S B
  m >> n = m >>= (λ _. n)

  abbrev pub select {μ} : {A : Type μ} → (S → A) → Txn E S A
  select f s = done (f s, s)

  abbrev pub write : (S → S) → Txn E S (Unit {0})
  write f s = done (tt, f s)

  abbrev pub raise {μ} : {A : Type μ} → E → Txn E S A
  raise e s = raised e

  unfoldable pub raise_if : Bool → E → Txn E S (Unit {0})
  raise_if true e = raise e
  raise_if false e = pure tt

  unfoldable pub or_raise {μ} : {A : Type μ} → Option A → E → Txn E S A
  or_raise none e = raise e
  or_raise (some a) e = pure a

  pub and_then-done {μ ν} :
      {A : Type μ} {B : Type ν} (f : A → Txn E S B) (a : A) (s : S)
      → and_then f (done (a, s)) ≡ f a s
  unfolding and_then
  and_then-done f a s = refl

  pub and_then-raised {μ ν} :
      {A : Type μ} {B : Type ν} (f : A → Txn E S B) (e : E) → and_then f (raised e) ≡ raised e
  unfolding and_then
  and_then-raised f e = refl

  pub raise_if-false : (e : E) (s : S) → raise_if false e s ≡ done (tt, s)
  unfolding raise_if
  raise_if-false e s = refl

  pub raise_if-true : (e : E) (s : S) → raise_if true e s ≡ raised e
  unfolding raise_if
  raise_if-true e s = refl

  pub or_raise-some {μ} : {A : Type μ} (a : A) (e : E) (s : S) → or_raise (some a) e s ≡ done (a, s)
  unfolding or_raise
  or_raise-some a e s = refl

  pub or_raise-none {μ} : {A : Type μ} (e : E) (s : S) → or_raise {A = A} none e s ≡ raised e
  unfolding or_raise
  or_raise-none e s = refl

-- What holds of the answer and the tables of a transaction that does not raise.
pub data Ensures {ℓ κ μ ν} {E : Type ℓ} {S : Type κ} {A : Type μ} (Q : A → S → Type ν)
    : Outcome E (A × S) → Type (ℓ ⊔ κ ⊔ μ ⊔ ν) where
  ends : {a : A} {s : S} → Q a s → Ensures Q (done (a, s))
  raises : {e : E} → Ensures Q (raised e)

module _ {ℓ κ μ ν} {E : Type ℓ} {S : Type κ} {B : Type μ} {Q : B → S → Type ν} where
  -- What may be assumed after a read or a write, a check, and a row that must exist.
  pub after_done {ρ} :
      {A : Type ρ} {a : A} {s : S} (f : A → Txn E S B)
      → Ensures Q (f a s)
      → Ensures Q (and_then f (done (a, s)))
  after_done {a = a} {s = s} f h = subst (Ensures Q) (sym (and_then-done f a s)) h

  pub after_raised {ρ} :
      {A : Type ρ} (f : A → Txn E S B) (e : E) → Ensures Q (and_then f (raised e))
  after_raised f e = subst (Ensures Q) (sym (and_then-raised f e)) raises

  pub after_check :
      {b : Bool} {s : S} (e : E) (f : Unit {0} → Txn E S B)
      → (b ≡ false → Ensures Q (f tt s))
      → Ensures Q (and_then f (raise_if b e s))
  after_check {b = true} {s = s} e f h =
      subst (λ r. Ensures Q (and_then f r)) (sym (raise_if-true e s)) (after_raised f e)
  after_check {b = false} {s = s} e f h =
      subst (λ r. Ensures Q (and_then f r)) (sym (raise_if-false e s)) (after_done f (h refl))

  pub after_found {ρ} :
      {A : Type ρ} {o : Option A} {s : S} (e : E) (f : A → Txn E S B)
      → ((a : A) → o ≡ some a → Ensures Q (f a s))
      → Ensures Q (and_then f (or_raise o e s))
  after_found {o = none} {s = s} e f h =
      subst (λ r. Ensures Q (and_then f r)) (sym (or_raise-none e s)) (after_raised f e)
  after_found {o = some a} {s = s} e f h =
      subst (λ r. Ensures Q (and_then f r)) (sym (or_raise-some a e s)) (after_done f (h a refl))

  -- A call that ends as `P` says.
  pub after_call {ρ σ} :
      {A : Type ρ} {P : A → S → Type σ} {f : A → Txn E S B} {r : Outcome E (A × S)}
      → Ensures P r
      → ((a : A) (t : S) → P a t → Ensures Q (f a t))
      → Ensures Q (and_then f r)
  after_call {f = f} (ends {a = a} {s = s} h) k = after_done f (k a s h)
  after_call {f = f} (raises {e = e}) k = after_raised f e

  pub found :
      {o : Option B} (e : E) (s : S) → ((a : B) → o ≡ some a → Q a s) → Ensures Q (or_raise o e s)
  found {o = none} e s h = subst (Ensures Q) (sym (or_raise-none e s)) raises
  found {o = some a} e s h = subst (Ensures Q) (sym (or_raise-some a e s)) (ends (h a refl))

pub ended {ℓ κ μ ν} :
    {E : Type ℓ} {S : Type κ} {A : Type μ} {Q : A → S → Type ν} {a : A} {s : S}
    → Ensures {E = E} Q (done (a, s))
    → Q a s
ended (ends h) = h

pub weaken {ℓ κ μ ν ρ} :
    {E : Type ℓ} {S : Type κ} {A : Type μ} {P : A → S → Type ν} {Q : A → S → Type ρ}
    {o : Outcome E (A × S)}
    → Ensures P o
    → ((a : A) (s : S) → P a s → Q a s)
    → Ensures Q o
weaken (ends {a = a} {s = s} h) k = ends (k a s h)
weaken raises k = raises

module _ {ℓ κ ν} {E : Type ℓ} {S : Type κ} {Q : Unit {0} → S → Type ν} where
  pub checked : {b : Bool} (e : E) (s : S) → (b ≡ false → Q tt s) → Ensures Q (raise_if b e s)
  checked {b = true} e s h = subst (Ensures Q) (sym (raise_if-true e s)) raises
  checked {b = false} e s h = subst (Ensures Q) (sym (raise_if-false e s)) (ends (h refl))

-- A transaction that does not raise.
pub data Succeeds {ℓ κ μ} {E : Type ℓ} {S : Type κ} {A : Type μ}
    : Outcome E (A × S) → Type (ℓ ⊔ κ ⊔ μ) where
  succeeds : {a : A} {s : S} → Succeeds (done (a, s))

module _ {ℓ κ μ ν} {E : Type ℓ} {S : Type κ} {A : Type μ} {B : Type ν} where
  pub through_done :
      {a : A} {s : S} (f : A → Txn E S B) → Succeeds (f a s) → Succeeds (and_then f (done (a, s)))
  through_done {a = a} {s = s} f h = subst Succeeds (sym (and_then-done f a s)) h

  pub through_call :
      {o : Outcome E (A × S)} {a : A} {s : S} (f : A → Txn E S B)
      → o ≡ done (a, s)
      → Succeeds (f a s)
      → Succeeds (and_then f o)
  through_call f e h = subst (λ r. Succeeds (and_then f r)) (sym e) (through_done f h)

  pub through_found :
      {o : Option A} {a : A} {s : S} (e : E) (f : A → Txn E S B)
      → o ≡ some a
      → Succeeds (f a s)
      → Succeeds (and_then f (or_raise o e s))
  through_found {a = a} {s = s} e f there h =
      subst (λ x. Succeeds (and_then f (or_raise x e s))) (sym there)
        (through_call f (or_raise-some a e s) h)

module _ {ℓ κ ν} {E : Type ℓ} {S : Type κ} {B : Type ν} where
  pub through_check :
      {b : Bool} {s : S} (e : E) (f : Unit {0} → Txn E S B)
      → b ≡ false
      → Succeeds (f tt s)
      → Succeeds (and_then f (raise_if b e s))
  through_check {s = s} e f passed h =
      subst (λ x. Succeeds (and_then f (raise_if x e s))) (sym passed)
        (through_call f (raise_if-false e s) h)
