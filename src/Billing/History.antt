-- ===== src/Billing/History.antt =====
-- Histories of the events that change the mirror and the orders (backend/app/billing/store.py).
use zouseeking.Billing.Settling.{Next}
use zouseeking.Base.{ℕ, ◌≡◌, Bool, some, List, [], ◌∷◌, String, string_eq}
use zouseeking.Base.Table.{first_where}
use zouseeking.Base.Txn.{Outcome, done, raised, Ensures, ends, raises}
use zouseeking.Billing.Grants.{Mirrors, Refusal, MirrorCall}
use zouseeking.Billing.Charges.{ChargeOrder, numbered}
use zouseeking.Billing.Checkout.{PaidInvoice, on_invoice_paid, Session, on_checkout_completed}
use zouseeking.Billing.Mirror.{
  Snapshot, Metadata, on_subscription_mirror_event, on_invoice_payment_failed,
}
use zouseeking.Billing.Frozen.{
  priced, Price, Frozen, refl-Frozen, Frozen-then, event-Frozen, failed-Frozen,
}
use zouseeking.Billing.Charged.{paid-Frozen, checkout-Frozen}

-- What changes the mirror or the orders.
pub data MirrorEvent : Type 0 where
  subscription_event : Bool → Metadata → Snapshot → MirrorEvent
  checkout_completed : Session → MirrorEvent
  invoice_paid : PaidInvoice → MirrorEvent
  invoice_failed : String → MirrorEvent

unfoldable pub apply_event : MirrorEvent → ℕ → MirrorCall (Unit {0})
apply_event (subscription_event deleted m e) now = on_subscription_mirror_event deleted m e now
apply_event (checkout_completed c) now = on_checkout_completed c now
apply_event (invoice_paid i) now = on_invoice_paid i now
apply_event (invoice_failed id) now = on_invoice_payment_failed id now

abbrev pub after : Mirrors → Outcome Refusal (Unit {0} × Mirrors) → Mirrors
after s (done (u, t)) = t
after s (raised e) = s

unfoldable pub run : List (MirrorEvent × ℕ) → Mirrors → Mirrors
unfolding apply_event
run [] s = s
run ((e, now) ∷ es) s = run es (after s (apply_event e now s))

apply_event-Frozen :
    (e : MirrorEvent) (now : ℕ) (s : Mirrors) → Ensures (λ _ t. Frozen s t) (apply_event e now s)
unfolding apply_event
apply_event-Frozen (subscription_event deleted m e) now s = event-Frozen deleted m e now s
apply_event-Frozen (checkout_completed c) now s = checkout-Frozen c now s
apply_event-Frozen (invoice_paid i) now s = paid-Frozen i now s
apply_event-Frozen (invoice_failed id) now s = failed-Frozen id now s

after-Frozen :
    (s : Mirrors) (o : Outcome Refusal (Unit {0} × Mirrors))
    → Ensures (λ _ t. Frozen s t) o
    → Frozen s (after s o)
after-Frozen s _ (ends f) = f
after-Frozen s _ raises = refl-Frozen s

run-Frozen : (es : List (MirrorEvent × ℕ)) (s : Mirrors) → Frozen s (run es s)
unfolding run
run-Frozen [] s = refl-Frozen s
run-Frozen ((e, now) ∷ es) s =
    let t = after s (apply_event e now s) in
    Frozen-then (after-Frozen s (apply_event e now s) (apply_event-Frozen e now s))
      (run-Frozen es t)

-- Once a subscription is mirrored, no later checkouts, invoices and subscription events, in any order,
-- change its holder, product, price version, currency or amount.
pub run-priced :
    (es : List (MirrorEvent × ℕ)) (s : Mirrors) (id : String) (p : Price)
    → priced id s ≡ some p
    → priced id (run es s) ≡ some p
run-priced es s id p there = (run-Frozen es s).keeps id p there

-- Once an order is recorded, no later checkouts, invoices and subscription events, in any order, change
-- its holder, product, price version, currency, amount or subject, a status other than pending, or the
-- time of its payment. Refunds are not among these events.
pub run-Next :
    (es : List (MirrorEvent × ℕ)) (s : Mirrors) (number : String) (o : ChargeOrder)
    → first_where (numbered number) s.orders ≡ some o
    → Next number o (run es s).orders
run-Next es s number o there = (run-Frozen es s).orders.next number o there
