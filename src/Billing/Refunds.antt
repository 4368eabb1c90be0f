-- ===== src/Billing/Refunds.antt =====
-- Refunds: `request_refund` and `approve_refund` of backend/app/billing/service.py, and the refund
-- events that `_on_refund_event` of backend/app/billing/store.py applies. What
-- `_sync_membership_entitlement` sets when an event revokes a subscription is in other tables.
use zouseeking.Base.{
  ℕ, ◌-◌, Bool, true, false, not, ◌&&◌, ◌||◌, Option, none, some, List, [], ◌∷◌, String, ◌==◌,
  string_eq, option_eq, nat_eq, nat_beq, leb, if◌then◌else◌, str_len, ℤ, pos, negsuc,
}
use zouseeking.Base.Table.{find, first_where, least_where, update_where, insert_row}
use zouseeking.Base.Txn.{
  Outcome, done, raised, pure, ◌>>=◌, ◌>>◌, select, write, raise, raise_if, or_raise,
}
use zouseeking.Usage.Ledger.Steps.{PyValue}
use zouseeking.Billing.Webhook.{RetryPolicy, next_retry_at}
use zouseeking.Billing.Orders.{
  Order, OrderStatus, Refund, RefundStatus, SubscriptionStatus, Subscription, RefundAudit,
  requested, approved, Books, RefundTrouble, lookup_error, violates, not_found, not_eligible,
  forbidden, transient, Call, order_key, is_succeeded, later, is_subscription_product,
  RefundCandidate, RefundRequest, get_refund_candidate, create_refund_request, get_refund_request,
  recompute_order_refund_status, mark_refund_succeeded, mark_refund_retry,
}

-- 48 hours.
abbrev pub refund_window : ℕ
refund_window = 172800

unfoldable pub refundable : RefundCandidate → ℕ → Bool
refundable c now =
    c.eligible
    && (leb c.charged_at now && (leb (now - c.charged_at) refund_window && not c.used_entitlement))

-- A `LookupError` that the service answers with its own exception.
unfoldable pub lookup_as {ℓ} : {A : Type ℓ} → RefundTrouble → Call A → Call A
lookup_as e m s = elim (m s) [
  | done r ↦ done r
  | raised lookup_error ↦ raised e
  | raised x ↦ raised x
]

abbrev pub append_audit : RefundAudit → Call (Unit {0})
append_audit a = write (λ s. record s { audits = insert_row a s.audits })

-- `request_refund`, where nothing comes between its transactions. A LookupError of
-- `create_refund_request` is not caught.
unfoldable pub request_refund : ℕ → String → ℕ → ℕ → Call RefundRequest
unfolding refundable
request_refund user intent now id = do
  candidate ← select (get_refund_candidate user intent)
  c ← or_raise candidate not_eligible
  raise_if (not (refundable c now)) not_eligible
  request ← create_refund_request user c now id
  append_audit (requested user intent)
  pure request

-- What the payment provider answers to a refund.
pub data Provider : Type 0 where
  refund_id : String → Provider
  provider_transient provider_error : Provider

-- What `approve_refund` ends in: its answer, the tables, and the intents that it asked the provider to
-- refund.
pub record Approval : Type 0 where
  pub answer : Outcome RefundTrouble RefundRequest
  pub books : Books
  pub asked : List String

abbrev pub after {ℓ} : {A : Type ℓ} → Books → Outcome RefundTrouble (A × Books) → Books
after s (done (a, t)) = t
after s (raised e) = s

abbrev pub succeeded_as : RefundRequest → String → RefundRequest
succeeded_as r provider_id = record r {
  status = RefundStatus.succeeded;
  provider_refund_id = some provider_id;
}

-- The end of an approval that the provider has carried out.
unfoldable pub record_approval :
    ℕ → ℕ → RefundRequest → String → Books → Outcome RefundTrouble (RefundRequest × Books)
record_approval actor id r provider_id = do
  mark_refund_succeeded id provider_id
  append_audit (approved actor provider_id)
  pure (succeeded_as r provider_id)

abbrev pub answer_of :
    Outcome RefundTrouble (RefundRequest × Books) → Outcome RefundTrouble RefundRequest
answer_of (done (r, t)) = done r
answer_of (raised e) = raised e

abbrev pub retry_books : Option ℕ → ℕ → Books → Books
retry_books none id s = s
retry_books (some at) id s = after s (mark_refund_retry id at s)

unfoldable pub ask_provider :
    RetryPolicy → (String → Provider) → ℕ → ℕ → ℕ → RefundRequest → Books → Approval
unfolding next_retry_at record_approval
ask_provider p gateway actor id now r s = elim (gateway r.payment_intent_id) [
  | provider_transient ↦ record {
    answer = raised transient;
    books = retry_books (next_retry_at p 1 now) id s;
    asked = r.payment_intent_id ∷ [];
  }
  | provider_error ↦ record {
    answer = raised transient;
    books = s;
    asked = r.payment_intent_id ∷ [];
  }
  | refund_id provider_id ↦
      let o = record_approval actor id r provider_id s in
      record { answer = answer_of o; books = after s o; asked = r.payment_intent_id ∷ [] }
]

abbrev pub refused : RefundTrouble → Books → Approval
refused e s = record { answer = raised e; books = s; asked = [] }

-- `approve_refund`; `finance` is whether the actor has that role.
unfoldable pub approve_refund :
    RetryPolicy → (String → Provider) → ℕ → Bool → ℕ → ℕ → Books → Approval
approve_refund p gateway actor finance id now s =
    if not finance
    then refused forbidden s
    else elim (lookup_as not_found (get_refund_request id) s) [
      | raised e ↦ refused e s
      | done (r, t) ↦
          if is_succeeded r.status
          then record { answer = done r; books = t; asked = [] }
          else ask_provider p gateway actor id now r t
    ]

-- The entries of a refund event's object that are read: texts, empty where missing, and the amount.
pub record RefundObject : Type 0 where
  pub id : String
  pub payment_intent : String
  pub amount : PyValue
  pub currency : String
  pub status : String

-- `isinstance(v, int)`, which a Boolean passes as well.
abbrev pub int_of : PyValue → Option ℤ
int_of (PyValue.int z) = some z
int_of (PyValue.bool true) = some (pos 1)
int_of (PyValue.bool false) = some (pos 0)
int_of _ = none

unfoldable pub refund_status : String → RefundStatus
refund_status t =
    if (t == "pending") || nat_beq (str_len t) 0
    then RefundStatus.pending
    else if t == "succeeded"
    then RefundStatus.succeeded
    else RefundStatus.failed

abbrev pub provided : String → Refund → Bool
provided provider_id r = r.provider_refund_id == some provider_id

abbrev pub has_intent : String → Order → Bool
has_intent intent o = o.payment_intent_id == some intent

abbrev pub paid_later : Order → Order → Bool
paid_later a b = later a.paid_at b.paid_at

-- `refunds_currency_allowed`
unfoldable pub currency_allowed : String → Bool
currency_allowed c =
    (c == "CNY")
    || ((c == "HKD") || ((c == "TWD") || ((c == "MOP") || ((c == "JPY") || (c == "USD")))))

abbrev pub or_usd : String → String
or_usd c = if nat_beq (str_len c) 0 then "USD" else c

-- The amount of a new row, which the table wants above 0.
unfoldable pub amount_column : ℤ → Call ℕ
amount_column (pos n) = do raise_if (nat_beq n 0) (violates "refunds_amount_positive"); pure n
amount_column (negsuc n) = raise (violates "refunds_amount_positive")

-- The refund that the event is about: its order's identifier, if there is one.
unfoldable pub sync_refund : RefundObject → ℤ → RefundStatus → ℕ → ℕ → Call (Option ℕ)
unfolding currency_allowed
sync_refund o amount status id now = do
  existing ← select (λ s. first_where (provided o.id) s.refunds)
  elim existing [
    | some r ↦ do
      write λ s. record s {
        refunds = update_where (provided o.id) (λ x. record x { status = status }) s.refunds;
      }
      pure (some r.order_id)
    | none ↦ do
      order ← select (λ s.
          if nat_beq (str_len o.payment_intent) 0
          then none
          else least_where paid_later (has_intent o.payment_intent) s.orders)
      elim order [
        | none ↦ pure none
        | some x ↦ do
          n ← amount_column amount
          raise_if (not (currency_allowed (or_usd o.currency)))
              (violates "refunds_currency_allowed")
          write λ s. record s {
            refunds =
                insert_row
                  (record {
                    id = id;
                    order_id = x.id;
                    amount_minor = n;
                    currency = or_usd o.currency;
                    status = status;
                    provider_refund_id = some o.id;
                    created_at = now;
                  })
                  s.refunds;
          }
          pure (some x.id)
      ]
  ]

abbrev pub is_live : SubscriptionStatus → Bool
is_live SubscriptionStatus.trialing = true
is_live SubscriptionStatus.active = true
is_live SubscriptionStatus.past_due = true
is_live SubscriptionStatus.unpaid = true
is_live _ = false

abbrev pub same_holder : Option ℕ → Option ℕ → Bool
same_holder a none = false
same_holder a (some i) = a == some i

-- The subscriptions that a full refund of the order revokes.
abbrev pub revoked_by : Order → Subscription → Bool
revoked_by o x =
    (x.product_code == o.product_code)
    && (is_live x.status
        && (same_holder x.user_id o.owner_user_id
            || same_holder x.organization_id o.organization_id))

abbrev pub is_refunded : OrderStatus → Bool
is_refunded OrderStatus.refunded = true
is_refunded _ = false

unfoldable pub revoke_for : Option Order → Call (Unit {0})
revoke_for none = pure tt
revoke_for (some o) =
    if is_refunded o.status && is_subscription_product o.product_code
    then write (λ s. record s {
      subscriptions =
          update_where (revoked_by o) (λ x. record x { status = SubscriptionStatus.canceled })
            s.subscriptions;
    })
    else pure tt

-- What follows on a refund that succeeded.
unfoldable pub after_success : ℕ → Call (Unit {0})
unfolding revoke_for is_subscription_product
after_success order = do
  recompute_order_refund_status order
  o ← select (λ s. find order_key order s.orders)
  revoke_for o

abbrev pub settle_order : RefundStatus → Option ℕ → Call (Unit {0})
settle_order status none = pure tt
settle_order status (some order) = if is_succeeded status then after_success order else pure tt

-- `_on_refund_event`
unfoldable pub on_refund_event : RefundObject → ℕ → ℕ → Call (Unit {0})
unfolding refund_status
on_refund_event o id now = if nat_beq (str_len o.id) 0 then pure tt else elim (int_of o.amount) [
  | none ↦ pure tt
  | some n ↦
      sync_refund o n (refund_status o.status) id now >>= settle_order (refund_status o.status)
]
