-- ===== src/Base/Rows.antt =====
-- Sums and searches over the rows of a table that grows by `insert_row`.
use zouseeking.Base.{
  ℕ, ◌+◌, ◌≤◌, ◌≡◌, refl, Bool, true, false, Option, none, some, List, [], ◌∷◌, arith,
  if◌then◌else◌, map, Bool-cases, inl, inr,
}
use zouseeking.Base.Table.{first_where, insert_row, update_where}

module _ {ℓ} {A : Type ℓ} where
  unfoldable pub sum : (A → ℕ) → List A → ℕ
  sum f [] = 0
  sum f (r ∷ rows) = f r + sum f rows

  abbrev pub count : (A → Bool) → List A → ℕ
  count p = sum (λ r. if p r then 1 else 0)

  pub sum-insert_row :
      (f : A → ℕ) (r : A) (rows : List A) → sum f (insert_row r rows) ≡ sum f rows + f r
  unfolding sum insert_row
  sum-insert_row f r [] = omega arith
  sum-insert_row f r (x ∷ rows) = omega (arith, sum-insert_row f r rows)

  pub count-none : (p : A → Bool) (rows : List A) → first_where p rows ≡ none → count p rows ≡ 0
  unfolding sum first_where
  count-none p [] h = refl
  count-none p (x ∷ rows) h = ground (arith, count-none p rows)

  count-zero :
      (p : A → Bool) (f : A → ℕ) (rows : List A)
      → count p rows ≡ 0
      → sum (λ x. if p x then f x else 0) rows ≡ 0
  unfolding sum
  count-zero p f [] h = refl
  count-zero p f (x ∷ rows) h = ground (arith, count-zero p f rows)

  pub sum-add :
      (f g h : A → ℕ) (rows : List A)
      → ((r : A) → f r ≡ g r + h r)
      → sum f rows ≡ sum g rows + sum h rows
  unfolding sum
  sum-add f g h [] e = refl
  sum-add f g h (x ∷ rows) e = omega (arith, e x, sum-add f g h rows e)

  -- The sum over the rows that meet a condition which at most one meets.
  pub sum-first_where :
      (p : A → Bool) (f : A → ℕ) (rows : List A) (r : A)
      → first_where p rows ≡ some r
      → count p rows ≤ 1
      → sum (λ x. if p x then f x else 0) rows ≡ f r
  unfolding sum first_where
  sum-first_where p f [] r h w = cc
  sum-first_where p f (x ∷ rows) r h w = elim (Bool-cases (p x)) [
    | inl here ↦ ground (arith, here, count-zero p f rows)
    | inr later ↦ ground (arith, later, sum-first_where p f rows r)
  ]

  pub le-sum :
      (p : A → Bool) (f : A → ℕ) (rows : List A) (r : A)
      → first_where p rows ≡ some r
      → f r ≤ sum f rows
  unfolding sum first_where
  le-sum p f [] r h = cc
  le-sum p f (x ∷ rows) r h = ground (arith, le-sum p f rows r)

  -- No row meets `p`, one that another search finds included.
  pub first_where-none :
      (p g : A → Bool) (rows : List A) (r : A)
      → first_where p rows ≡ none
      → first_where g rows ≡ some r
      → p r ≡ false
  unfolding first_where
  first_where-none p g [] r h e = cc
  first_where-none p g (x ∷ rows) r h e = ground (arith, first_where-none p g rows r)

  abbrev pub or_else : Option A → Option A → Option A
  or_else none o = o
  or_else (some r) o = some r

  pub first_where-insert_row :
      (p : A → Bool) (r : A) (rows : List A)
      → first_where p (insert_row r rows)
        ≡ or_else (first_where p rows) (if p r then some r else none)
  unfolding first_where insert_row
  first_where-insert_row p r [] = ground arith
  first_where-insert_row p r (x ∷ rows) = ground (arith, first_where-insert_row p r rows)

-- The rows without the first that meets a condition.
module _ {ℓ} {A : Type ℓ} where
  unfoldable pub remove_first : (A → Bool) → List A → List A
  remove_first p [] = []
  remove_first p (r ∷ rows) = if p r then rows else r ∷ remove_first p rows

  pub count-remove_first :
      (q p : A → Bool) (rows : List A) (r : A)
      → first_where p rows ≡ some r
      → count q rows ≡ count q (remove_first p rows) + (if q r then 1 else 0)
  unfolding sum first_where remove_first
  count-remove_first q p [] r h = cc
  count-remove_first q p (x ∷ rows) r h = ground (arith, count-remove_first q p rows r)

  pub count-le :
      (p q : A → Bool) (rows : List A)
      → ((r : A) → p r ≡ true → q r ≡ true)
      → count p rows ≤ count q rows
  unfolding sum
  count-le p q [] h = omega arith
  count-le p q (x ∷ rows) h = ground (arith, h x, count-le p q rows h)

-- The row that is found after an update of the table.
module _ {ℓ} {A : Type ℓ} where
  pub first_where_updated :
      (q p : A → Bool) (f : A → A) (rows : List A) (r : A)
      → ((r : A) → q (f r) ≡ q r)
      → first_where q rows ≡ some r
      → first_where q (update_where p f rows) ≡ some (if p r then f r else r)
  unfolding first_where update_where
  first_where_updated q p f [] r h e = cc
  first_where_updated q p f (x ∷ rows) r h e =
      ground (arith, h x, e, first_where_updated q p f rows r h)

module _ {ℓ κ} {A : Type ℓ} {B : Type κ} where
  abbrev pub image : (A → B) → Option A → Option B
  image f none = none
  image f (some r) = some (f r)

  pub first_where-map :
      (p : B → Bool) (f : A → B) (rows : List A)
      → first_where p (map f rows) ≡ image f (first_where (λ r. p (f r)) rows)
  unfolding first_where
  first_where-map p f [] = refl
  first_where-map p f (x ∷ rows) = ground (arith, first_where-map p f rows)

  pub map-insert_row :
      (f : A → B) (r : A) (rows : List A)
      → map f (insert_row r rows) ≡ insert_row (f r) (map f rows)
  unfolding insert_row
  map-insert_row f r [] = refl
  map-insert_row f r (x ∷ rows) = ground (arith, map-insert_row f r rows)

  -- An update leaves what it does not touch of the row that is found.
  pub first_where-update_where :
      (q p : A → Bool) (f : A → A) (g : A → B) (rows : List A)
      → ((r : A) → q (f r) ≡ q r)
      → ((r : A) → g (f r) ≡ g r)
      → image g (first_where q (update_where p f rows)) ≡ image g (first_where q rows)
  unfolding first_where update_where
  first_where-update_where q p f g [] h e = refl
  first_where-update_where q p f g (x ∷ rows) h e =
      ground (arith, h x, e x, first_where-update_where q p f g rows h e)
