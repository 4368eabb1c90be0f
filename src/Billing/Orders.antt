-- ===== src/Billing/Orders.antt =====
-- Payment orders and their refunds: the refund operations of backend/app/billing/store.py on
-- payment_orders, refunds and audit_events. Amounts are minor units.
use zouseeking.Base.{
  ℕ, Bool, true, false, not, ◌&&◌, ◌||◌, Option, none, some, List, String, ◌==◌, string_eq,
  option_eq, nat_eq, nat_beq, ltb, leb, if◌then◌else◌, is_some, get_or,
}
use zouseeking.Base.Rows.{sum}
use zouseeking.Base.Table.{find, first_where, least_where, update_where, insert_row}
use zouseeking.Base.Txn.{Txn, pure, ◌>>=◌, ◌>>◌, select, write, raise_if, or_raise}

pub data OrderStatus : Type 0 where
  pending paid failed canceled refunded partially_refunded : OrderStatus

-- A row of payment_orders.
pub record Order : Type 0 where
  pub id : ℕ
  pub owner_user_id : Option ℕ
  pub organization_id : Option ℕ
  pub product_code : String
  pub currency : String
  pub amount_minor : ℕ
  pub status : OrderStatus
  pub payment_intent_id : Option String
  pub paid_at : Option ℕ
  pub created_at : ℕ

pub data RefundStatus : Type 0 where
  pending succeeded failed : RefundStatus

-- A row of refunds.
pub record Refund : Type 0 where
  pub id : ℕ
  pub order_id : ℕ
  pub amount_minor : ℕ
  pub currency : String
  pub status : RefundStatus
  pub provider_refund_id : Option String
  pub created_at : ℕ

-- _ALLOWED_SUBSCRIPTION_STATUSES
pub data SubscriptionStatus : Type 0 where
  trialing active past_due canceled unpaid incomplete incomplete_expired : SubscriptionStatus

-- The columns of subscriptions that a refund reads or changes.
pub record Subscription : Type 0 where
  pub user_id : Option ℕ
  pub organization_id : Option ℕ
  pub product_code : String
  pub status : SubscriptionStatus

-- The audit rows of refunds, by what they record.
pub data RefundAudit : Type 0 where
  requested : ℕ → String → RefundAudit
  approved : ℕ → String → RefundAudit
  retry_scheduled : ℕ → ℕ → RefundAudit

-- The tables.
pub record Books : Type 0 where
  pub orders : List Order
  pub refunds : List Refund
  pub subscriptions : List Subscription
  pub audits : List RefundAudit

-- The exceptions, with LookupError and a constraint of the tables.
pub data RefundTrouble : Type 0 where
  lookup_error : RefundTrouble
  violates : String → RefundTrouble
  not_found not_eligible forbidden transient : RefundTrouble

abbrev pub Call {ℓ} : Type ℓ → Type ℓ
Call A = Txn RefundTrouble Books A

abbrev pub order_key : Order → ℕ
order_key o = o.id

abbrev pub refund_key : Refund → ℕ
refund_key r = r.id

abbrev pub is_paid : OrderStatus → Bool
is_paid paid = true
is_paid _ = false

-- `status in ('paid', 'refunded', 'partially_refunded')`
abbrev pub is_charged : OrderStatus → Bool
is_charged paid = true
is_charged refunded = true
is_charged partially_refunded = true
is_charged _ = false

abbrev pub is_succeeded : RefundStatus → Bool
is_succeeded succeeded = true
is_succeeded _ = false

-- `order by … desc nulls last`: whether the first instant comes before the second.
abbrev pub later : Option ℕ → Option ℕ → Bool
later none b = false
later (some a) none = true
later (some a) (some b) = ltb b a

-- `order by paid_at desc nulls last, created_at desc`
unfoldable pub newer_order : Order → Order → Bool
newer_order a b =
    later a.paid_at b.paid_at || not (later b.paid_at a.paid_at) && ltb b.created_at a.created_at

-- `order by created_at desc, id desc`
unfoldable pub newer_refund : Refund → Refund → Bool
newer_refund a b =
    ltb b.created_at a.created_at || nat_beq a.created_at b.created_at && ltb b.id a.id

-- _SUBSCRIPTION_PRODUCTS
unfoldable pub is_subscription_product : String → Bool
is_subscription_product p = (p == "c_plus_monthly") || (p == "b_data_pro_monthly")

-- `RefundCandidate`, where `eligible` is its status 'eligible'.
pub record RefundCandidate : Type 0 where
  pub request_id : ℕ
  pub payment_intent_id : String
  pub charged_at : ℕ
  pub used_entitlement : Bool
  pub currency : String
  pub amount_minor : ℕ
  pub eligible : Bool

abbrev pub charged_to : ℕ → String → Order → Bool
charged_to user intent o =
    (o.owner_user_id == some user) && ((o.payment_intent_id == some intent) && is_charged o.status)

abbrev pub is_active : SubscriptionStatus → Bool
is_active trialing = true
is_active active = true
is_active _ = false

abbrev pub active_for : ℕ → Subscription → Bool
active_for user x = (x.user_id == some user) && is_active x.status

abbrev pub candidate_of : ℕ → String → List Subscription → Order → RefundCandidate
candidate_of user intent subscriptions o = record {
  request_id = o.id;
  payment_intent_id = intent;
  charged_at = get_or o.paid_at o.created_at;
  used_entitlement =
      is_subscription_product o.product_code
      && is_some (first_where (active_for user) subscriptions);
  currency = o.currency;
  amount_minor = o.amount_minor;
  eligible = is_paid o.status;
}

abbrev pub mapped_to {ℓ κ} : {A : Type ℓ} {B : Type κ} → (A → B) → Option A → Option B
mapped_to f none = none
mapped_to f (some a) = some (f a)

-- `get_refund_candidate`
unfoldable pub get_refund_candidate : ℕ → String → Books → Option RefundCandidate
unfolding is_subscription_product
get_refund_candidate user intent s =
    mapped_to (candidate_of user intent s.subscriptions)
      (least_where newer_order (charged_to user intent) s.orders)

-- `RefundRequest`; `payment_intent_id` is the order's.
pub record RefundRequest : Type 0 where
  pub request_id : ℕ
  pub payment_intent_id : String
  pub status : RefundStatus
  pub requested_at : ℕ
  pub provider_refund_id : Option String

abbrev pub intent_of : Option Order → String
intent_of none = ""
intent_of (some o) = get_or o.payment_intent_id ""

abbrev pub request_of : Refund → String → RefundRequest
request_of r intent = record {
  request_id = r.id;
  payment_intent_id = intent;
  status = r.status;
  requested_at = r.created_at;
  provider_refund_id = r.provider_refund_id;
}

abbrev pub refunds_order : ℕ → Refund → Bool
refunds_order order r = nat_beq r.order_id order

abbrev pub new_refund : ℕ → RefundCandidate → ℕ → Refund
new_refund id c now = record {
  id = id;
  order_id = c.request_id;
  amount_minor = c.amount_minor;
  currency = c.currency;
  status = RefundStatus.pending;
  provider_refund_id = none;
  created_at = now;
}

abbrev pub owned_by : ℕ → Order → Bool
owned_by user o = o.owner_user_id == some user

-- `create_refund_request`: the newest refund of the order, or a new one with the identifier `id`.
unfoldable pub create_refund_request : ℕ → RefundCandidate → ℕ → ℕ → Call RefundRequest
create_refund_request user c now id = do
  order ← select (λ s. find order_key c.request_id s.orders)
  o ← or_raise order lookup_error
  raise_if (not (owned_by user o)) lookup_error
  existing ← select (λ s. least_where newer_refund (refunds_order c.request_id) s.refunds)
  elim existing [
    | some r ↦ pure (request_of r (intent_of (some o)))
    | none ↦ do
      write (λ s. record s { refunds = insert_row (new_refund id c now) s.refunds })
      pure (request_of (new_refund id c now) c.payment_intent_id)
  ]

-- `get_refund_request`
unfoldable pub get_refund_request : ℕ → Call RefundRequest
get_refund_request id = do
  row ← select (λ s. find refund_key id s.refunds)
  r ← or_raise row lookup_error
  order ← select (λ s. find order_key r.order_id s.orders)
  o ← or_raise order lookup_error
  pure (request_of r (intent_of (some o)))

-- What the refunds of an order that succeeded sum up to.
abbrev pub refunded_units : ℕ → Refund → ℕ
refunded_units order r =
    if refunds_order order r && is_succeeded r.status then r.amount_minor else 0

unfoldable pub recomputed : List Refund → Order → Order
recomputed refunds o = record o {
  status =
      if leb o.amount_minor (sum (refunded_units o.id) refunds)
      then refunded
      else partially_refunded;
}

-- `_recompute_order_refund_status`
unfoldable pub recompute_order_refund_status : ℕ → Call (Unit {0})
unfolding recomputed
recompute_order_refund_status order = write λ s. record s {
  orders =
      update_where (λ o. nat_beq o.id order && is_charged o.status) (recomputed s.refunds) s.orders;
}

abbrev pub with_refund_id : String → ℕ → Refund → Bool
with_refund_id provider_id id r =
    (r.provider_refund_id == some provider_id) && not (nat_beq r.id id)

-- `mark_refund_succeeded`
unfoldable pub mark_refund_succeeded : ℕ → String → Call (Unit {0})
mark_refund_succeeded id provider_id = do
  row ← select (λ s. find refund_key id s.refunds)
  r ← or_raise row lookup_error
  taken ← select (λ s. is_some (first_where (with_refund_id provider_id id) s.refunds))
  raise_if taken (violates "refunds_provider_refund_id_unique")
  write λ s. record s {
    refunds =
        update_where (λ x. nat_beq x.id id)
          (λ x. record x { status = succeeded; provider_refund_id = some provider_id }) s.refunds;
  }
  recompute_order_refund_status r.order_id

-- `mark_refund_retry`
unfoldable pub mark_refund_retry : ℕ → ℕ → Call (Unit {0})
mark_refund_retry id next_attempt_at = do
  row ← select (λ s. find refund_key id s.refunds)
  r ← or_raise row lookup_error
  write (λ s. record s { audits = insert_row (retry_scheduled id next_attempt_at) s.audits })
