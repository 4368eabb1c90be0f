-- ===== src/Billing/Settling.antt =====
-- What later events may change of a payment order (backend/app/billing/store.py, the upserts of
-- payment_orders).
use zouseeking.Base.{
  ℕ, ◌≡◌, refl, ◌∙◌, Bool, false, Option, some, List, String, arith, string_eq, inl, inr,
  Bool-cases,
}
use zouseeking.Base.Rows.{first_where_updated, first_where-insert_row}
use zouseeking.Base.Table.{first_where, update_where, insert_row}
use zouseeking.Billing.Charges.{ChargeOrder, numbered, is_pending, merged, settled_at}

-- The columns that only the insert of an order writes.
pub record Terms : Type 0 where
  pub owner_user_id : Option ℕ
  pub organization_id : Option ℕ
  pub product_code : String
  pub price_version : ℕ
  pub currency : String
  pub amount_minor : ℕ
  pub subject_id : Option String

abbrev pub terms : ChargeOrder → Terms
terms o = record {
  owner_user_id = o.owner_user_id;
  organization_id = o.organization_id;
  product_code = o.product_code;
  price_version = o.price_version;
  currency = o.currency;
  amount_minor = o.amount_minor;
  subject_id = o.subject_id;
}

-- The terms stay, a status that is not pending stays, and so does the time of the payment.
pub record Forward (o n : ChargeOrder) : Type 0 where
  pub same : terms n ≡ terms o
  pub status : is_pending o.status ≡ false → n.status ≡ o.status
  pub paid : (at : ℕ) → o.paid_at ≡ some at → n.paid_at ≡ some at

refl-Forward : (o : ChargeOrder) → Forward o o
refl-Forward o = record { same = refl; status = λ h. refl; paid = λ at h. h }

Forward-then : {a b c : ChargeOrder} → Forward a b → Forward b c → Forward a c
Forward-then f g = record {
  same = g.same ∙ f.same;
  status = λ h. g.status (ground (arith, h, f.status h)) ∙ f.status h;
  paid = λ at h. g.paid at (f.paid at h);
}

pub merged-Forward : (e o : ChargeOrder) → Forward o (merged e o)
unfolding merged
merged-Forward e o = record {
  same = refl;
  status = λ h. ground (arith, h);
  paid = λ at h. rw h refl;
}

pub settled_at-Forward : (now : ℕ) (o : ChargeOrder) → Forward o (settled_at now o)
unfolding settled_at
settled_at-Forward now o = record {
  same = refl;
  status = λ h. ground (arith, h);
  paid = λ at h. rw h refl;
}

-- What becomes of the order with the number.
pub record Next (number : String) (o : ChargeOrder) (orders : List ChargeOrder) : Type 0 where
  pub row : ChargeOrder
  pub there : first_where (numbered number) orders ≡ some row
  pub forward : Forward o row

pub record Moves (old new : List ChargeOrder) : Type 0 where
  pub next :
      (number : String) (o : ChargeOrder)
      → first_where (numbered number) old ≡ some o
      → Next number o new

pub refl-Moves : (orders : List ChargeOrder) → Moves orders orders
refl-Moves orders = record {
  next = λ number o there. record { row = o; there = there; forward = refl-Forward o };
}

pub Moves-then : {a b c : List ChargeOrder} → Moves a b → Moves b c → Moves a c
Moves-then f g = record {
  next = λ number o there.
      let m = f.next number o there in
      let n = g.next number m.row m.there in
      record { row = n.row; there = n.there; forward = Forward-then m.forward n.forward };
}

pub insert-Moves :
    (e : ChargeOrder) (orders : List ChargeOrder) → Moves orders (insert_row e orders)
insert-Moves e orders = record {
  next = λ number o there. record {
    row = o;
    there = ground (arith, there, first_where-insert_row (numbered number) e orders);
    forward = refl-Forward o;
  };
}

pub update-Moves :
    (p : ChargeOrder → Bool) (f : ChargeOrder → ChargeOrder) (orders : List ChargeOrder)
    → ((o : ChargeOrder) → (f o).order_no ≡ o.order_no)
    → ((o : ChargeOrder) → Forward o (f o))
    → Moves orders (update_where p f orders)
update-Moves p f orders named forward = record {
  next = λ number o there. elim (Bool-cases (p o)) [
    | inl hit ↦ record {
      row = f o;
      there =
          first_where_updated (numbered number) p f orders o (λ r. rw (named r) refl) there
          ∙ ground (arith, hit);
      forward = forward o;
    }
    | inr missed ↦ record {
      row = o;
      there =
          first_where_updated (numbered number) p f orders o (λ r. rw (named r) refl) there
          ∙ ground (arith, missed);
      forward = refl-Forward o;
    }
  ];
}
