-- ===== src/Billing/Tests.antt =====
-- The theorems of billing at concrete inputs, and runs.
use zouseeking.Billing.Frozen.{price, priced}
use zouseeking.Base.{ℕ, ◌+◌, ◌≤◌, ◌≡◌, refl, true, false, some, none, [], ◌∷◌, List, String, pos}
use zouseeking.Base.Dict.{lookup, insert}
use zouseeking.Base.Rows.{count, sum, remove_first}
use zouseeking.Base.Table.{find, first_where, least_where, update_where, insert_row}
use zouseeking.Base.Txn.{Outcome, done, raised, and_then, raise_if, or_raise, Succeeds}
use zouseeking.Usage.Ledger.Steps.{PyValue}
use zouseeking.Billing.Orders.{
  newer_refund, newer_order, get_refund_candidate, create_refund_request, requested, RefundRequest,
  Order, OrderStatus, SubscriptionStatus, Refund, RefundStatus, Books, violates,
  is_subscription_product, recomputed, recompute_order_refund_status,
}
use zouseeking.Billing.Refunds.{
  refundable, request_refund, RefundObject, Provider, refund_id, approve_refund, on_refund_event,
  sync_refund, refund_status, amount_column, currency_allowed, after_success, revoke_for,
}
use zouseeking.Billing.Again.{Repeated, request_refund_again}
use zouseeking.Billing.Cancel.{
  request_cancel, get_subscription, record_cancel, newest_where, request_cancel_again,
}
use zouseeking.Billing.Racing.{event-blocks_approval}
use zouseeking.Billing.Grants.{MirrorRow, Mirrors, Profile, known, grants}
use zouseeking.Billing.Mirror.{Snapshot, Metadata}
use zouseeking.Billing.Settling.{Next}
use zouseeking.Billing.History.{
  after, subscription_event, invoice_paid, invoice_failed, MirrorEvent, run, run-priced, run-Next,
}
use zouseeking.Billing.Regrant.{Regranted, paid-regrants}
use zouseeking.Billing.Checkout.{on_invoice_paid, PaidInvoice}
use zouseeking.Billing.Charges.{row_allowed, ChargeOrder}
use zouseeking.Billing.Events.{
  AuditAction, Db, reclaim, ProviderEvent, Trouble, EventStatus, failure_class, claim_read,
  claim_provider_event, process_provider_event, update_status, mark_provider_event_failed,
}
use zouseeking.Billing.Webhook.{
  SideEffects, default_policy, next_retry_at, supported, event_side_effects, mark_of, process_event,
  fail_event, handle_claimed, handle_webhook, Answer, transient_billing_error,
}
use zouseeking.Billing.Deliveries.{
  finished, World, deliver, drop, delivered, died, Reach, here, then_step,
}
use zouseeking.Billing.Exclusive.{applied_for}
use zouseeking.Billing.Once.{start, unfailed-applied_once, Orphan, Orphan-stuck}
use zouseeking.Billing.Overlap.{Doubled, overlap-Doubled}

-- Side effects that count the events.
abbrev counts : ProviderEvent → ℕ → Outcome Trouble (Unit {0} × ℕ)
counts e n = done (tt, n + 1)

abbrev paid : ProviderEvent
paid = record {
  event_id = "evt_1";
  event_type = "invoice.paid";
  object = some (record { id = PyValue.text "in_1"; user_id = PyValue.null });
  received_at = 10;
}

-- Names what a run unfolds.
machine : Unit {0}
unfolding reclaim deliver claim_provider_event claim_read process_event process_provider_event
    update_status event_side_effects supported fail_event mark_of next_retry_at
    mark_provider_event_failed handle_webhook handle_claimed failure_class lookup insert first_where
    insert_row remove_first sum
machine = tt

abbrev claimed : World ℕ
claimed = deliver paid (start counts default_policy 0)

-- The first worker dies, and the event is delivered again.
abbrev orphaned : World ℕ
orphaned = drop "evt_1" claimed claimed.db

orphaned-reached : Reach counts default_policy (start counts default_policy 0) orphaned
unfolding machine
orphaned-reached =
    then_step (then_step here (delivered paid))
      (died "evt_1" (record { event = paid; attempt_count = 1 }) refl)

-- The first worker goes through, and the event is delivered again.
abbrev applied_claim : Answer × Db ℕ
applied_claim = elim (process_event counts paid claimed.db) [
  | done r ↦ r
  | raised t ↦ (transient_billing_error, claimed.db)
]

abbrev redelivered : World ℕ
redelivered = deliver paid (drop "evt_1" claimed applied_claim.1)

redelivered-reached : Reach counts default_policy (start counts default_policy 0) redelivered
unfolding machine
redelivered-reached =
    then_step
      (then_step (then_step here (delivered paid)) (
        finished "evt_1" (record { event = paid; attempt_count = 1 }) applied_claim.0
          applied_claim.1 refl refl))
      (delivered paid)

unfailed-applied_once_example : count (applied_for "evt_1") redelivered.db.audits ≤ 1
unfolding machine
unfailed-applied_once_example =
    unfailed-applied_once counts default_policy 0 redelivered "evt_1" redelivered-reached refl

redelivered_once : count (applied_for "evt_1") redelivered.db.audits ≡ 1
unfolding machine
redelivered_once = refl

-- The tables after a first processing that failed.
abbrev once_failed : Db ℕ
once_failed =
    (fail_event counts default_policy 11 paid 1 Trouble.transient_error
      (deliver paid (start counts default_policy 0)).db).1

abbrev paid_effects : SideEffects
paid_effects = record {
  audit = record {
    subject_id = none;
    action = AuditAction.webhook "invoice.paid";
    provider_object_id = some "in_1";
    event_id = some "evt_1";
    occurred_at = 10;
  };
  outbox = none;
  ignored = false;
}

overlap-Doubled_example :
    Doubled counts default_policy paid once_failed 2
      (record { db = once_failed; reading = []; working = [] })
unfolding machine
overlap-Doubled_example =
    overlap-Doubled counts default_policy paid once_failed
      (record { event_type = "invoice.paid"; status = EventStatus.failed }) paid_effects 1 2 refl
      refl refl refl refl refl

orphaned-Orphan : Orphan "evt_1" orphaned
unfolding machine
orphaned-Orphan = record {
  row = record { event_type = "invoice.paid"; status = EventStatus.received };
  there = refl;
  is = refl;
  unread = refl;
  unheld = refl;
}

Orphan-stuck_example :
    Orphan "evt_1" (deliver paid orphaned)
    × ((e : ProviderEvent) (now : ℕ)
        → e.event_id ≡ "evt_1"
        → handle_webhook counts default_policy now e (deliver paid orphaned).db
          ≡ (transient_billing_error, (deliver paid orphaned).db))
Orphan-stuck_example =
    Orphan-stuck counts default_policy "evt_1" orphaned (deliver paid orphaned) orphaned-Orphan
      (then_step here (delivered paid))

-- A delivery that nothing interrupts is applied, and its repetition is a duplicate.
handle_webhook_lem :
    (handle_webhook counts default_policy 20 paid
      (handle_webhook counts default_policy 20 paid (start counts default_policy 0).db).1).0
    ≡ Answer.duplicate
unfolding machine
handle_webhook_lem = refl

next_retry_at_lem : next_retry_at default_policy 2 100 ≡ some 110
unfolding next_retry_at
next_retry_at_lem = refl

abbrev order : Order
order = record {
  id = 1;
  owner_user_id = some 7;
  organization_id = none;
  product_code = "risk_report_single";
  currency = "USD";
  amount_minor = 900;
  status = OrderStatus.paid;
  payment_intent_id = some "pi_1";
  paid_at = some 100;
  created_at = 90;
}

abbrev wanted : Refund
wanted = record {
  id = 5;
  order_id = 1;
  amount_minor = 900;
  currency = "USD";
  status = RefundStatus.pending;
  provider_refund_id = none;
  created_at = 200;
}

abbrev books : Books
books = record { orders = order ∷ []; refunds = wanted ∷ []; subscriptions = []; audits = [] }

abbrev unasked : Books
unasked = record { orders = order ∷ []; refunds = []; subscriptions = []; audits = [] }

abbrev once_asked : RefundRequest × Books
once_asked = (
  record {
    request_id = 5;
    payment_intent_id = "pi_1";
    status = RefundStatus.pending;
    requested_at = 200;
    provider_refund_id = none;
  },
  record {
    orders = order ∷ [];
    refunds = wanted ∷ [];
    subscriptions = [];
    audits = requested 7 "pi_1" ∷ [];
  },
)

-- The request again, an hour later.
request_refund_again_example : Repeated 7 "pi_1" 3800 6 once_asked.0 once_asked.1
unfolding request_refund create_refund_request get_refund_candidate refundable newer_order
    newer_refund is_subscription_product least_where find first_where insert_row and_then raise_if
    or_raise
request_refund_again_example =
    request_refund_again 7 "pi_1" 200 5 3800 6 unasked once_asked.1 once_asked.0 _ refl refl refl

abbrev refund_event : RefundObject
refund_event = record {
  id = "re_1";
  payment_intent = "pi_1";
  amount = PyValue.int (pos 900);
  currency = "USD";
  status = "succeeded";
}

abbrev synced : Refund
synced = record {
  id = 6;
  order_id = 1;
  amount_minor = 900;
  currency = "USD";
  status = RefundStatus.succeeded;
  provider_refund_id = some "re_1";
  created_at = 210;
}

-- The event refunds the order in full.
abbrev applied : Books
applied = record {
  orders = record order { status = OrderStatus.refunded } ∷ [];
  refunds = wanted ∷ synced ∷ [];
  subscriptions = [];
  audits = [];
}

abbrev answers : String → Provider
answers intent = refund_id "re_1"

event-blocks_approval_example :
    approve_refund default_policy answers 3 true 5 220 applied ≡ record {
      answer = raised (violates "refunds_provider_refund_id_unique");
      books = applied;
      asked = "pi_1" ∷ [];
    }
unfolding on_refund_event sync_refund refund_status amount_column currency_allowed after_success
    revoke_for recompute_order_refund_status recomputed is_subscription_product first_where
    least_where find update_where insert_row sum and_then raise_if or_raise
event-blocks_approval_example =
    event-blocks_approval refund_event 6 210 books applied order (pos 900) default_policy answers 3
      5 220 wanted "pi_1" refl refl refl refl refl refl refl refl refl refl refl

abbrev canceled_row : MirrorRow
canceled_row = record {
  user_id = some 7;
  organization_id = none;
  product_code = "c_plus_monthly";
  price_version = 1;
  currency = "USD";
  amount_minor = 1900;
  stripe_customer_id = some "cus_1";
  stripe_subscription_id = "sub_1";
  status = SubscriptionStatus.canceled;
  current_period_start = some 100;
  current_period_end = some 400;
  cancel_at_period_end = false;
}

abbrev free_profile : Profile
free_profile = record {
  user_id = 7;
  audience = some "c";
  membership_tier = "free_c";
  daily_query_limit = 3;
}

-- The order of an invoice that was refunded.
abbrev refunded_order : ChargeOrder
refunded_order = record {
  order_no = "pi_1";
  owner_user_id = some 7;
  organization_id = none;
  product_code = "c_plus_monthly";
  price_version = 1;
  currency = "USD";
  amount_minor = 1900;
  status = OrderStatus.refunded;
  provider_session_id = none;
  subject_id = none;
  payment_intent_id = some "pi_1";
  paid_at = some 100;
}

abbrev held : Mirrors
held = record {
  subscriptions = canceled_row ∷ [];
  profiles = free_profile ∷ [];
  members = [];
  orders = refunded_order ∷ [];
  plan_entitlements = λ plan. [];
  pricing_plans = λ plan. [];
}

-- An event that would change the price and the product.
abbrev repriced : Snapshot
repriced = record {
  user_id = some 8;
  organization_id = none;
  product_code = some "c_plus_monthly";
  price_version = 2;
  currency = "EUR";
  amount_minor = some 2900;
  stripe_customer_id = none;
  stripe_subscription_id = "sub_1";
  status = known SubscriptionStatus.active;
  period_start = some 400;
  period_end = some 700;
  cancel_at_period_end = true;
}

abbrev other_user : Metadata
other_user = record { product_code = "c_plus_monthly"; subject_id = none; user_id = some 8 }

abbrev paid_invoice : PaidInvoice
paid_invoice = record {
  subscription = "sub_1";
  payment_intent = "pi_1";
  amount_paid = PyValue.int (pos 2900);
  currency = "USD";
}

abbrev later_events : List (MirrorEvent × ℕ)
later_events =
    (subscription_event false other_user repriced, 410)
    ∷ (invoice_failed "sub_1", 420)
    ∷ (invoice_paid paid_invoice, 430)
    ∷ []

-- The same tables with the subscription active.
abbrev subscribed : Mirrors
subscribed = record held {
  subscriptions = record canceled_row { status = SubscriptionStatus.active } ∷ [];
}

request_cancel_again_example :
    request_cancel (λ id. false) 7 (request_cancel (λ id. true) 7 subscribed).tables ≡ record {
      answer = done (record { subscription_id = "sub_1"; duplicate = true });
      tables = (request_cancel (λ id. true) 7 subscribed).tables;
      asked = [];
    }
unfolding request_cancel get_subscription record_cancel newest_where update_where
request_cancel_again_example =
    request_cancel_again (λ id. true) (λ id. false) 7 subscribed
      (record { subscription_id = "sub_1"; duplicate = false }) refl

run-priced_example : priced "sub_1" (run later_events held) ≡ some (price canceled_row)
unfolding first_where
run-priced_example = run-priced later_events held "sub_1" (price canceled_row) refl

run-Next_example : Next "pi_1" refunded_order (run later_events held).orders
unfolding first_where
run-Next_example = run-Next later_events held "pi_1" refunded_order refl

-- The invoice with another payment intent.
abbrev second_invoice : PaidInvoice
second_invoice = record paid_invoice { payment_intent = "pi_2" }

paid-regrants_example :
    Succeeds (on_invoice_paid second_invoice 200 held)
    × Regranted "sub_1" canceled_row 7 (after held (on_invoice_paid second_invoice 200 held))
unfolding first_where is_subscription_product grants row_allowed currency_allowed
paid-regrants_example =
    paid-regrants second_invoice 200 held canceled_row 7 free_profile 2900 refl refl refl refl refl
      refl refl refl refl refl refl
