-- ===== src/Billing/Checkout.antt =====
-- What a completed checkout and a paid invoice do (backend/app/billing/store.py):
-- `_on_checkout_completed` without the row of billing_customers, and `_on_invoice_paid`. An amount that
-- is a float is not modelled.
use zouseeking.Base.{
  ℕ, Bool, true, false, not, ◌&&◌, ◌||◌, Option, none, some, String, ◌==◌, string_eq, nat_beq,
  if◌then◌else◌, is_some, str_len, ℤ, pos,
}
use zouseeking.Base.Table.{first_where, update_where, insert_row}
use zouseeking.Base.Txn.{pure, ◌>>=◌, ◌>>◌, select, write, raise_if, or_raise}
use zouseeking.Usage.Ledger.Steps.{PyValue}
use zouseeking.Billing.Orders.{OrderStatus, SubscriptionStatus, is_subscription_product}
use zouseeking.Billing.Refunds.{int_of}
use zouseeking.Billing.Charges.{
  ChargeOrder, numbered, with_intent, merged, settled_at, paid_at_allowed, row_allowed,
}
use zouseeking.Billing.Grants.{
  MirrorRow, known, payment_orders_check, MirrorCall, sync_membership_entitlement,
}
use zouseeking.Billing.Mirror.{
  mirrors, upsert_subscription_mirror, Metadata, Holder, metadata_scope, reactivate,
}

-- `insert into payment_orders … on conflict (order_no) do update`. The checks hold the row that is
-- proposed and the row that is stored.
unfoldable pub upsert_order : ChargeOrder → MirrorCall (Unit {0})
unfolding merged
upsert_order e = do
  raise_if (not (row_allowed e)) payment_orders_check
  existing ← select (λ s. first_where (numbered e.order_no) s.orders)
  elim existing [
    | none ↦ write λ s. record s { orders = insert_row e s.orders }
    | some o ↦ do
      raise_if (not (row_allowed (merged e o))) payment_orders_check
      write λ s. record s { orders = update_where (numbered e.order_no) (merged e) s.orders }
  ]

abbrev pub unsettled : String → ℕ → ChargeOrder → Bool
unsettled intent now o = with_intent intent o && not (paid_at_allowed (settled_at now o))

-- The update of the orders that have the payment intent.
unfoldable pub settle_by_intent : String → ℕ → MirrorCall (Unit {0})
unfolding settled_at
settle_by_intent intent now = do
  refused ← select (λ s. is_some (first_where (unsettled intent now) s.orders))
  raise_if refused payment_orders_check
  write λ s. record s { orders = update_where (with_intent intent) (settled_at now) s.orders }

-- The entries of an invoice that are read: texts, empty where missing, and the amount.
pub record PaidInvoice : Type 0 where
  pub subscription : String
  pub payment_intent : String
  pub amount_paid : PyValue
  pub currency : String

abbrev pub invoice_order : MirrorRow → PaidInvoice → ℕ → ℕ → ChargeOrder
invoice_order r i n now = record {
  order_no = i.payment_intent;
  owner_user_id = r.user_id;
  organization_id = r.organization_id;
  product_code = r.product_code;
  price_version = r.price_version;
  currency = i.currency;
  amount_minor = n;
  status = OrderStatus.paid;
  provider_session_id = none;
  subject_id = none;
  payment_intent_id = some i.payment_intent;
  paid_at = some now;
}

-- The order of a subscription's invoice, whose amount is the second argument.
abbrev pub charge_invoice : MirrorRow → Option ℤ → PaidInvoice → ℕ → MirrorCall (Unit {0})
charge_invoice r (some (pos n)) i now =
    if nat_beq n 0 || (nat_beq (str_len i.currency) 0 || nat_beq (str_len i.payment_intent) 0)
    then pure tt
    else upsert_order (invoice_order r i n now)
charge_invoice r _ i now = pure tt

-- `_on_invoice_paid`
unfoldable pub on_invoice_paid : PaidInvoice → ℕ → MirrorCall (Unit {0})
on_invoice_paid i now =
    if nat_beq (str_len i.subscription) 0
    then if nat_beq (str_len i.payment_intent) 0
      then pure tt
      else settle_by_intent i.payment_intent now
    else do
      existing ← select (λ s. first_where (mirrors i.subscription) s.subscriptions)
      elim existing [
        | none ↦ pure tt
        | some r ↦ do reactivate i.subscription now; charge_invoice r (int_of i.amount_paid) i now
      ]

-- The entries of a checkout session that are read: `line_price` is what `_first_line_item_price`
-- answers, `subject_id` the text of the metadata's.
pub record Session : Type 0 where
  pub id : String
  pub customer : Option String
  pub metadata : Metadata
  pub subject_id : Option String
  pub price_version : ℕ
  pub currency : String
  pub amount_total : PyValue
  pub line_price : String × Option ℕ
  pub mode : String
  pub subscription : String
  pub paid : Bool
  pub payment_intent : Option String

abbrev pub price_or : Option ℤ → String → String × Option ℕ → String × Option ℕ
price_or (some (pos n)) currency line = if nat_beq n 0 then line else (currency, some n)
price_or _ currency line = line

-- The currency and the amount of a session: its total if that is above 0, or the first line item's.
unfoldable pub session_price : Session → String × Option ℕ
session_price c = price_or (int_of c.amount_total) c.currency c.line_price

-- In subscription mode a price without currency or amount is read from the line item again.
abbrev pub mirrored_price : String × Option ℕ → String × Option ℕ → String × Option ℕ
mirrored_price (currency, none) line = line
mirrored_price (currency, some n) line =
    if nat_beq (str_len currency) 0 then line else (currency, some n)

abbrev pub session_status : Bool → SubscriptionStatus
session_status true = SubscriptionStatus.active
session_status false = SubscriptionStatus.incomplete

-- The branch of the mode 'subscription'.
unfoldable pub mirror_checkout : Session → Holder → ℕ → MirrorCall (Unit {0})
unfolding session_price
mirror_checkout c h now = if nat_beq (str_len c.subscription) 0 then pure tt else do
  let price = mirrored_price (session_price c) c.line_price
  upsert_subscription_mirror (record {
    user_id = h.user_id;
    organization_id = h.organization_id;
    product_code = h.product_code;
    price_version = c.price_version;
    currency = price.0;
    amount_minor = price.1;
    stripe_customer_id = c.customer;
    stripe_subscription_id = c.subscription;
    status = known (session_status c.paid);
    period_start = none;
    period_end = none;
    cancel_at_period_end = false;
  })
  write (
      sync_membership_entitlement h.user_id h.organization_id h.product_code (session_status c.paid)
        none now)

abbrev pub order_status : Bool → OrderStatus
order_status true = OrderStatus.paid
order_status false = OrderStatus.pending

abbrev pub paid_when : Bool → ℕ → Option ℕ
paid_when true now = some now
paid_when false now = none

abbrev pub session_order : Session → Holder → String → ℕ → ℕ → ChargeOrder
session_order c h product n now = record {
  order_no = c.id;
  owner_user_id = h.user_id;
  organization_id = h.organization_id;
  product_code = product;
  price_version = c.price_version;
  currency = (session_price c).0;
  amount_minor = n;
  status = order_status c.paid;
  provider_session_id = some c.id;
  subject_id = c.subject_id;
  payment_intent_id = c.payment_intent;
  paid_at = paid_when c.paid now;
}

-- The branch of the mode 'payment', where a product that is not sold violates the table's not null.
abbrev pub charge_checkout : Session → Holder → Option ℕ → ℕ → MirrorCall (Unit {0})
charge_checkout c h none now = pure tt
charge_checkout c h (some n) now =
    if nat_beq (str_len (session_price c).0) 0 || nat_beq n 0 then pure tt else do
      product ← or_raise h.product_code payment_orders_check
      upsert_order (session_order c h product n now)

abbrev pub is_subscription : Option String → Bool
is_subscription none = false
is_subscription (some product) = is_subscription_product product

-- A subscription that nobody holds.
abbrev pub unscoped : Holder → Bool
unscoped h = is_subscription h.product_code && not (is_some h.user_id || is_some h.organization_id)

-- What a session with a known holder does, by its mode.
abbrev pub by_mode : Session → ℕ → Holder → MirrorCall (Unit {0})
by_mode c now h =
    if unscoped h
    then pure tt
    else if c.mode == "subscription"
    then mirror_checkout c h now
    else if c.mode == "payment"
    then charge_checkout c h (session_price c).1 now
    else pure tt

-- `_on_checkout_completed`
unfoldable pub on_checkout_completed : Session → ℕ → MirrorCall (Unit {0})
on_checkout_completed c now =
    if nat_beq (str_len c.id) 0 || nat_beq (str_len c.metadata.product_code) 0
    then pure tt
    else select (λ s. metadata_scope c.metadata s.members) >>= by_mode c now
