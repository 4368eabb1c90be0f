-- ===== src/Billing/Charges.antt =====
-- The payment orders that checkouts and invoices write (backend/app/billing/store.py): the rows of
-- payment_orders with the columns that the upserts of `_on_checkout_completed` and `_on_invoice_paid` set.
use zouseeking.Base.{
  ℕ, Bool, true, false, not, ◌&&◌, ◌||◌, Option, none, some, String, ◌==◌, string_eq, option_eq,
  nat_beq, if◌then◌else◌, is_some,
}
use zouseeking.Billing.Orders.{OrderStatus, is_charged}
use zouseeking.Billing.Refunds.{currency_allowed}

-- A row; `order_no` is what follows 'ord_' in the column.
pub record ChargeOrder : Type 0 where
  pub order_no : String
  pub owner_user_id : Option ℕ
  pub organization_id : Option ℕ
  pub product_code : String
  pub price_version : ℕ
  pub currency : String
  pub amount_minor : ℕ
  pub status : OrderStatus
  pub provider_session_id : Option String
  pub subject_id : Option String
  pub payment_intent_id : Option String
  pub paid_at : Option ℕ

abbrev pub coalesce {ℓ} : {A : Type ℓ} → Option A → Option A → Option A
coalesce none b = b
coalesce (some a) b = some a

abbrev pub is_pending : OrderStatus → Bool
is_pending OrderStatus.pending = true
is_pending _ = false

abbrev pub numbered : String → ChargeOrder → Bool
numbered number o = o.order_no == number

abbrev pub with_intent : String → ChargeOrder → Bool
with_intent intent o = o.payment_intent_id == some intent

-- `(owner_user_id is null) <> (organization_id is null)`
abbrev pub one_of : Bool → Bool → Bool
one_of true b = not b
one_of false b = b

-- payment_orders_paid_at_status_allowed
abbrev pub paid_at_allowed : ChargeOrder → Bool
paid_at_allowed o = not (is_some o.paid_at) || is_charged o.status

-- The set of `on conflict (order_no) do update`.
unfoldable pub merged : ChargeOrder → ChargeOrder → ChargeOrder
merged e o = record o {
  provider_session_id = coalesce e.provider_session_id o.provider_session_id;
  payment_intent_id = coalesce e.payment_intent_id o.payment_intent_id;
  status = if is_pending o.status then e.status else o.status;
  paid_at = coalesce o.paid_at e.paid_at;
}

-- The set of the update by the payment intent of a paid invoice.
unfoldable pub settled_at : ℕ → ChargeOrder → ChargeOrder
settled_at now o = record o {
  status = if is_pending o.status then OrderStatus.paid else o.status;
  paid_at = coalesce o.paid_at (some now);
}

-- The checks of the table that a row can fail.
unfoldable pub row_allowed : ChargeOrder → Bool
unfolding currency_allowed
row_allowed o =
    one_of (is_some o.owner_user_id) (is_some o.organization_id)
    && (currency_allowed o.currency && (not (nat_beq o.amount_minor 0) && paid_at_allowed o))
