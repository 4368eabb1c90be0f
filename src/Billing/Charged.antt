-- ===== src/Billing/Charged.antt =====
-- What checkouts and invoices may change of subscriptions and orders (backend/app/billing/store.py).
use zouseeking.Base.{
  pos, negsuc, ◌==◌, ℤ, ℕ, refl, ◌||◌, Option, none, some, String, string_eq, nat_beq, str_len, inl,
  inr, Bool-cases, Option-cases,
}
use zouseeking.Base.Table.{first_where}
use zouseeking.Base.Txn.{after_found, weaken, Ensures, ends, after_done, after_check, after_call}
use zouseeking.Billing.Grants.{MirrorRow, Mirrors}
use zouseeking.Billing.Refunds.{int_of}
use zouseeking.Billing.Checkout.{
  upsert_order, charge_invoice, settle_by_intent, PaidInvoice, on_invoice_paid, Session,
  session_price, mirror_checkout, charge_checkout, unscoped, on_checkout_completed,
}
use zouseeking.Billing.Mirror.{metadata_scope, Holder, mirrors}
use zouseeking.Billing.Settling.{insert-Moves, update-Moves, merged-Forward, settled_at-Forward}
use zouseeking.Billing.Charges.{ChargeOrder, numbered, merged, settled_at, with_intent}
use zouseeking.Billing.Frozen.{
  Frozen, refl-Frozen, sync-Frozen, Frozen-then, upsert-Frozen, reactivate-Frozen,
}

upsert_order-Frozen :
    (e : ChargeOrder) (s : Mirrors) → Ensures (λ _ t. Frozen s t) (upsert_order e s)
unfolding upsert_order merged
upsert_order-Frozen e s = after_check _ _ (λ _.
    after_done _ (elim (Option-cases (first_where (numbered e.order_no) s.orders)) [
      | inl absent ↦
          rw absent (ends (record { keeps = λ id p h. h; orders = insert-Moves e s.orders }))
      | inr (o, there) ↦ rw there (
          after_check _ _ (λ _. ends (record {
            keeps = λ id p h. h;
            orders =
                update-Moves (numbered e.order_no) (merged e) s.orders (λ x. refl)
                  (merged-Forward e);
          })))
    ]))

charge_invoice-Frozen :
    (r : MirrorRow) (amount : Option ℤ) (i : PaidInvoice) (now : ℕ) (s : Mirrors)
    → Ensures (λ _ t. Frozen s t) (charge_invoice r amount i now s)
charge_invoice-Frozen r none i now s = ends (refl-Frozen s)
charge_invoice-Frozen r (some (negsuc n)) i now s = ends (refl-Frozen s)
charge_invoice-Frozen r (some (pos n)) i now s =
    elim (Bool-cases
      (nat_beq n 0 || (nat_beq (str_len i.currency) 0 || nat_beq (str_len i.payment_intent) 0))) [
        | inl empty ↦ rw empty (ends (refl-Frozen s))
        | inr full ↦ rw full (upsert_order-Frozen _ s)
      ]

settle_by_intent-Frozen :
    (intent : String) (now : ℕ) (s : Mirrors)
    → Ensures (λ _ t. Frozen s t) (settle_by_intent intent now s)
unfolding settle_by_intent settled_at
settle_by_intent-Frozen intent now s = after_done _ (
    after_check _ _ (λ _. ends (record {
      keeps = λ id p h. h;
      orders =
          update-Moves (with_intent intent) (settled_at now) s.orders (λ x. refl)
            (settled_at-Forward now);
    })))

pub paid-Frozen :
    (i : PaidInvoice) (now : ℕ) (s : Mirrors)
    → Ensures (λ _ t. Frozen s t) (on_invoice_paid i now s)
unfolding on_invoice_paid
paid-Frozen i now s = elim (Bool-cases (nat_beq (str_len i.subscription) 0)) [
  | inl single ↦ rw single (elim (Bool-cases (nat_beq (str_len i.payment_intent) 0)) [
    | inl unnamed ↦ rw unnamed (ends (refl-Frozen s))
    | inr named ↦ rw named (settle_by_intent-Frozen i.payment_intent now s)
  ])
  | inr of_subscription ↦ rw of_subscription (
      after_done _ (elim (Option-cases (first_where (mirrors i.subscription) s.subscriptions)) [
        | inl absent ↦ rw absent (ends (refl-Frozen s))
        | inr (r, there) ↦ rw there (
            after_call (reactivate-Frozen i.subscription now s) (λ _ t f.
              weaken (charge_invoice-Frozen r (int_of i.amount_paid) i now t)
                (λ _ u g. Frozen-then f g)))
      ]))
]

mirror_checkout-Frozen :
    (c : Session) (h : Holder) (now : ℕ) (s : Mirrors)
    → Ensures (λ _ t. Frozen s t) (mirror_checkout c h now s)
unfolding mirror_checkout
mirror_checkout-Frozen c h now s = elim (Bool-cases (nat_beq (str_len c.subscription) 0)) [
  | inl unnamed ↦ rw unnamed (ends (refl-Frozen s))
  | inr named ↦
      rw named (
        after_call (upsert-Frozen _ s)
          (λ _ t f. ends (Frozen-then f (sync-Frozen _ _ _ _ _ now t))))
]

charge_checkout-Frozen :
    (c : Session) (h : Holder) (amount : Option ℕ) (now : ℕ) (s : Mirrors)
    → Ensures (λ _ t. Frozen s t) (charge_checkout c h amount now s)
charge_checkout-Frozen c h none now s = ends (refl-Frozen s)
charge_checkout-Frozen c h (some n) now s =
    elim (Bool-cases (nat_beq (str_len (session_price c).0) 0 || nat_beq n 0)) [
      | inl empty ↦ rw empty (ends (refl-Frozen s))
      | inr full ↦ rw full (after_found _ _ (λ product there. upsert_order-Frozen _ s))
    ]

pub checkout-Frozen :
    (c : Session) (now : ℕ) (s : Mirrors)
    → Ensures (λ _ t. Frozen s t) (on_checkout_completed c now s)
unfolding on_checkout_completed
checkout-Frozen c now s =
    elim (Bool-cases (nat_beq (str_len c.id) 0 || nat_beq (str_len c.metadata.product_code) 0)) [
      | inl empty ↦ rw empty (ends (refl-Frozen s))
      | inr full ↦ rw full (
          after_done _ (
            let h = metadata_scope c.metadata s.members in
            elim (Bool-cases (unscoped h)) [
              | inl nobody ↦ rw nobody (ends (refl-Frozen s))
              | inr scoped ↦ rw scoped (elim (Bool-cases (c.mode == "subscription")) [
                | inl subscribes ↦ rw subscribes (mirror_checkout-Frozen c h now s)
                | inr other_mode ↦ rw other_mode (elim (Bool-cases (c.mode == "payment")) [
                  | inl pays ↦ rw pays (charge_checkout-Frozen c h (session_price c).1 now s)
                  | inr unknown_mode ↦ rw unknown_mode (ends (refl-Frozen s))
                ])
              ])
            ]))
    ]
