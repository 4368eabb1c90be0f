-- ===== src/Base/Dict.antt =====
-- A Python dict as an association list in insertion order.
use zouseeking.Base.{
  ℕ, ◌+◌, ◌≤◌, ◌≡◌, refl, Option, none, some, List, [], ◌∷◌, arith, if◌then◌else◌, BoolEq,
}

abbrev pub Dict {ℓ κ} : Type ℓ → Type κ → Type (ℓ ⊔ κ)
Dict K V = List (K × V)

-- The sum of a weight over the values.
unfoldable pub total {ℓ κ} : {K : Type ℓ} {V : Type κ} → (V → ℕ) → Dict K V → ℕ
total f [] = 0
total f ((k, v) ∷ d) = f v + total f d

module _ {ℓ κ} {K : Type ℓ} {V : Type κ} ⦃e : BoolEq K⦄ where
  -- `d.get(k)`
  unfoldable pub lookup : K → Dict K V → Option V
  lookup k [] = none
  lookup k ((j, v) ∷ d) = if e.beq j k then some v else lookup k d

  -- `d[k] = v`
  unfoldable pub insert : K → V → Dict K V → Dict K V
  insert k v [] = (k, v) ∷ []
  insert k v ((j, w) ∷ d) = if e.beq j k then (j, v) ∷ d else (j, w) ∷ insert k v d

  pub lookup-insert :
      (k j : K) (v : V) (d : Dict K V)
      → lookup j (insert k v d) ≡ (if e.beq k j then some v else lookup j d)
  unfolding lookup insert
  lookup-insert k j v [] = refl
  lookup-insert k j v ((i, w) ∷ d) =
      ground (arith, e.beq_iff k j, e.beq_iff i k, e.beq_iff i j, lookup-insert k j v d)

  pub lookup-insert_self : (k : K) (v : V) (d : Dict K V) → lookup k (insert k v d) ≡ some v
  lookup-insert_self k v d = rw lookup-insert (ground (arith, e.beq_iff k k))

  pub total-insert_new :
      (f : V → ℕ) (k : K) (v : V) (d : Dict K V)
      → lookup k d ≡ none
      → total f (insert k v d) ≡ total f d + f v
  unfolding lookup insert total
  total-insert_new f k v [] h = omega arith
  total-insert_new f k v ((j, w) ∷ d) h = ground (arith, total-insert_new f k v d)

  pub total-insert_old :
      (f : V → ℕ) (k : K) (v w : V) (d : Dict K V)
      → lookup k d ≡ some w
      → total f (insert k v d) + f w ≡ total f d + f v
  unfolding lookup insert total
  total-insert_old f k v w [] h = cc
  total-insert_old f k v w ((j, u) ∷ d) h = ground (arith, total-insert_old f k v w d)

  pub le-total : (f : V → ℕ) (k : K) (v : V) (d : Dict K V) → lookup k d ≡ some v → f v ≤ total f d
  unfolding lookup total
  le-total f k v [] h = cc
  le-total f k v ((j, w) ∷ d) h = ground (arith, le-total f k v d)
