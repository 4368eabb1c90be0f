-- ===== src/Base/Table.antt =====
-- A database table as the list of its rows, with a numeric primary key.
use zouseeking.Base.{
  ℕ, ◌≡◌, refl, Bool, true, false, Option, none, some, List, [], ◌∷◌, arith, nat_beq, if◌then◌else◌,
  Bool-cases, inl, inr, Option-cases,
}

module _ {ℓ} {A : Type ℓ} where
  -- `update … set f where p`
  unfoldable pub update_where : (A → Bool) → (A → A) → List A → List A
  update_where p f [] = []
  update_where p f (r ∷ rows) = (if p r then f r else r) ∷ update_where p f rows

  -- `select … where p limit 1`, for a condition that at most one row meets.
  unfoldable pub first_where : (A → Bool) → List A → Option A
  first_where p [] = none
  first_where p (r ∷ rows) = if p r then some r else first_where p rows

  -- `insert into … values (r)`
  unfoldable pub insert_row : A → List A → List A
  insert_row r [] = r ∷ []
  insert_row r (x ∷ rows) = x ∷ insert_row r rows

  -- `select … where p order by … limit 1`: the first row of the order among those that meet `p`.
  unfoldable pub least_where : (A → A → Bool) → (A → Bool) → List A → Option A
  least_where before p [] = none
  least_where before p (r ∷ rows) = elim (least_where before p rows) [
    | none ↦ if p r then some r else none
    | some o ↦ if p r then (if before o r then some o else some r) else some o
  ]

  pub update_where-none :
      (p : A → Bool) (f : A → A) (rows : List A)
      → first_where p rows ≡ none
      → update_where p f rows ≡ rows
  unfolding update_where first_where
  update_where-none p f [] h = refl
  update_where-none p f (r ∷ rows) h = ground (arith, update_where-none p f rows)

  pub first_where-meets :
      (p : A → Bool) (rows : List A) (r : A) → first_where p rows ≡ some r → p r ≡ true
  unfolding first_where
  first_where-meets p [] r h = cc
  first_where-meets p (x ∷ rows) r h = ground (arith, first_where-meets p rows r)

-- What becomes of the row that an update may change.
abbrev pub updated {ℓ} : {A : Type ℓ} → (A → Bool) → (A → A) → Option A → Option A
updated p f none = none
updated p f (some r) = some (if p r then f r else r)

abbrev pub mapped {ℓ} : {A : Type ℓ} → (A → A) → Option A → Option A
mapped f none = none
mapped f (some r) = some (f r)

module _ {ℓ} {A : Type ℓ} (key : A → ℕ) where
  -- The row with the primary key `i`.
  unfoldable pub find : ℕ → List A → Option A
  find i [] = none
  find i (r ∷ rows) = if nat_beq (key r) i then some r else find i rows

  unfoldable pub Distinct : List A → Type ℓ
  Distinct [] = Unit
  Distinct (r ∷ rows) = (find (key r) rows ≡ none) × Distinct rows

  pub find-key : (i : ℕ) (rows : List A) (r : A) → find i rows ≡ some r → key r ≡ i
  unfolding find
  find-key i [] r h = cc
  find-key i (x ∷ rows) r h = ground (arith, find-key i rows r)

  pub find_self :
      (i : ℕ) (rows : List A) (r : A) → find i rows ≡ some r → find (key r) rows ≡ some r
  find_self i rows r h = rw (find-key i rows r h) h

  module _ (p : A → Bool) (f : A → A) (same : (r : A) → key (f r) ≡ key r) where
    pub find-update_where :
        (i : ℕ) (rows : List A) → find i (update_where p f rows) ≡ updated p f (find i rows)
    unfolding find update_where
    find-update_where i [] = refl
    find-update_where i (r ∷ rows) = ground (arith, same r, find-update_where i rows)

    pub Distinct-update_where : (rows : List A) → Distinct rows → Distinct (update_where p f rows)
    unfolding Distinct update_where
    Distinct-update_where [] v = tt
    Distinct-update_where (r ∷ rows) (v, w) =
        (ground (arith, same r, find-update_where (key r) rows), Distinct-update_where rows w)

  -- An update of the row with the primary key `i`.
  pub find-update_key :
      (f : A → A)
      → ((r : A) → key (f r) ≡ key r)
      → (i j : ℕ) (rows : List A)
      → find j (update_where (λ r. nat_beq (key r) i) f rows)
        ≡ (if nat_beq i j then mapped f (find j rows) else find j rows)
  find-update_key f same i j rows = elim (Option-cases (find j rows)) [
    | inl absent ↦ ground (arith, find-update_where (λ r. nat_beq (key r) i) f same j rows)
    | inr (r, there) ↦
        ground
          (arith, find-update_where (λ r. nat_beq (key r) i) f same j rows, find-key j rows r there)
  ]

  pub find-insert_row :
      (i : ℕ) (r : A) (rows : List A)
      → find (key r) rows ≡ none
      → find i (insert_row r rows) ≡ (if nat_beq (key r) i then some r else find i rows)
  unfolding find insert_row
  find-insert_row i r [] h = refl
  find-insert_row i r (x ∷ rows) h = ground (arith, find-insert_row i r rows)

  pub Distinct-insert_row :
      (r : A) (rows : List A)
      → find (key r) rows ≡ none
      → Distinct rows
      → Distinct (insert_row r rows)
  unfolding Distinct insert_row find
  Distinct-insert_row r [] h v = (refl, tt)
  Distinct-insert_row r (x ∷ rows) h (v, w) =
      (ground (arith, find-insert_row (key x) r rows), Distinct-insert_row r rows (ground arith) w)

  pub first_where-find :
      (p : A → Bool) (rows : List A) (r : A)
      → Distinct rows
      → first_where p rows ≡ some r
      → find (key r) rows ≡ some r
  unfolding find first_where Distinct
  first_where-find p [] r v h = cc
  first_where-find p (x ∷ rows) r (v, w) h =
      ground (arith, first_where-find p rows r w, find-key (key r) rows r)

  pub first_where-absent :
      (p : A → Bool) (i : ℕ) (rows : List A) (r : A)
      → first_where p rows ≡ none
      → find i rows ≡ some r
      → p r ≡ false
  unfolding find first_where
  first_where-absent p i [] r h e = cc
  first_where-absent p i (x ∷ rows) r h e = ground (arith, first_where-absent p i rows r)

  module _ (before : A → A → Bool) (p : A → Bool) where
    pub least_where-find :
        (rows : List A) (r : A)
        → Distinct rows
        → least_where before p rows ≡ some r
        → (find (key r) rows ≡ some r) × (p r ≡ true)
    unfolding find least_where Distinct
    least_where-find [] r v h = cc
    least_where-find (x ∷ rows) r (v, w) h =
        ground (arith, least_where-find rows r w, find-key (key r) rows r)

    pub least_where-none :
        (i : ℕ) (rows : List A) (r : A)
        → least_where before p rows ≡ none
        → find i rows ≡ some r
        → p r ≡ false
    unfolding find least_where
    least_where-none i [] r h e = cc
    least_where-none i (x ∷ rows) r h e = ground (arith, least_where-none i rows r)

    -- Under a strict order whose negation is transitive, no row that meets `p` is before it.
    pub least_where-first :
        (i : ℕ) (rows : List A) (r o : A)
        → ((x y : A) → before x y ≡ true → before y x ≡ false)
        → ((x y z : A) → before x y ≡ false → before y z ≡ false → before x z ≡ false)
        → least_where before p rows ≡ some o
        → find i rows ≡ some r
        → p r ≡ true
        → before r o ≡ false
    unfolding find least_where
    least_where-first i [] r o asym trans h e m = cc
    least_where-first i (x ∷ rows) r o asym trans h e m =
        elim (Option-cases (least_where before p rows)) [
          | inl empty ↦
              ground (arith, least_where-none i rows r empty, asym x x, Bool-cases (before x x))
          | inr (o', some_o) ↦ ground (
            arith,
            least_where-first i rows r o' asym trans some_o,
            asym x x,
            asym o' x,
            trans r o' x,
            Bool-cases (before x x),
          )
        ]
