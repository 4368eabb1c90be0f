-- ===== src/Billing/Regrant.antt =====
-- An invoice paid for a canceled subscription (backend/app/billing/store.py, `_on_invoice_paid`).
use mathlib.Core.Path.{subst}
use zouseeking.Base.{
  ◌||◌, pos, false, none, str_len, nat_beq, ℕ, ◌≡◌, refl, sym, ◌∙◌, true, not, ◌&&◌, Option, some,
  List, String, arith, string_eq,
}
use zouseeking.Base.Rows.{image, first_where_updated}
use zouseeking.Base.Table.{insert_row, first_where, first_where-meets, update_where}
use zouseeking.Base.Txn.{raise_if, done, and_then, Succeeds, succeeds}
use zouseeking.Billing.Orders.{SubscriptionStatus, is_subscription_product}
use zouseeking.Billing.Grants.{
  MirrorRow, Mirrors, Profile, Membership, sync_membership_entitlement, tier_of, grants, of_user,
  granted_to, granted,
}
use zouseeking.Billing.Mirror.{mirrors, is_canceled, reactivate}
use zouseeking.Billing.Frozen.{sync_orders, sync-same}
use zouseeking.Billing.Refunds.{int_of}
use zouseeking.Billing.Charges.{ChargeOrder, numbered, row_allowed}
use zouseeking.Billing.Checkout.{PaidInvoice, invoice_order, upsert_order, on_invoice_paid}
use zouseeking.Billing.History.{after}

granted_tier :
    (user : ℕ) (org : Option ℕ) (members : List Membership) (tier : String) (limit : ℕ)
    (profiles : List Profile) (p : Profile)
    → first_where (of_user user) profiles ≡ some p
    → image
        (λ (x : Profile). x.membership_tier)
        (first_where
          (of_user user)
          (update_where (granted_to (some user) org members) (granted tier limit) profiles))
      ≡ some tier
granted_tier user org members tier limit profiles p there =
    let mine = first_where-meets (of_user user) profiles p there in
    rw
      (first_where_updated (of_user user) (of_user user) (granted tier limit) profiles p (λ x. refl)
        there)
      (rw mine refl)

-- A grant gives the user's profile the tier of the product.
sync-grants :
    (user : ℕ) (org : Option ℕ) (product : String) (status : SubscriptionStatus)
    (period_end : Option ℕ) (now : ℕ) (s : Mirrors) (p : Profile)
    → is_subscription_product product ≡ true
    → grants status period_end now ≡ true
    → first_where (of_user user) s.profiles ≡ some p
    → image
        (λ (x : Profile). x.membership_tier)
        (first_where
          (of_user user)
          (sync_membership_entitlement
            (some user)
            org
            (some product)
            status
            period_end
            now
            s).profiles)
      ≡ some (tier_of product)
unfolding sync_membership_entitlement
sync-grants user org product status period_end now s p sold granting there =
    rw sold (rw granting (granted_tier user org s.members (tier_of product) _ s.profiles p there))

-- The subscription `r` is as it was, and the user has the tier of its product.
pub record Regranted (id : String) (r : MirrorRow) (user : ℕ) (t : Mirrors) : Type 0 where
  pub row : first_where (mirrors id) t.subscriptions ≡ some r
  pub tier :
      image (λ (x : Profile). x.membership_tier) (first_where (of_user user) t.profiles)
      ≡ some (tier_of r.product_code)

-- What the subscription's part of an invoice does to a canceled subscription.
record Reactivated (id : String) (now : ℕ) (r : MirrorRow) (user : ℕ) (s : Mirrors) : Type 0 where
  tables : Mirrors
  call : reactivate id now s ≡ done (tt, tables)
  regranted : Regranted id r user tables
  orders : tables.orders ≡ s.orders

reactivate-Reactivated :
    (id : String) (now : ℕ) (s : Mirrors) (r : MirrorRow) (user : ℕ) (p : Profile)
    → first_where (mirrors id) s.subscriptions ≡ some r
    → r.status ≡ SubscriptionStatus.canceled
    → r.user_id ≡ some user
    → is_subscription_product r.product_code ≡ true
    → grants SubscriptionStatus.active r.current_period_end now ≡ true
    → first_where (of_user user) s.profiles ≡ some p
    → Reactivated id now r user s
unfolding reactivate and_then
reactivate-Reactivated id now s r user p there over owner sold granting profile =
    let kept =
      first_where_updated (mirrors id) (λ x. mirrors id x && not (is_canceled x.status))
        (λ x. record x { status = SubscriptionStatus.active }) s.subscriptions r (λ x. refl)
        there in
    let rows =
      update_where (λ x. mirrors id x && not (is_canceled x.status))
        (λ x. record x { status = SubscriptionStatus.active }) s.subscriptions in
    let u : Mirrors = record s { subscriptions = rows } in
    let org = r.organization_id in
    let product = some r.product_code in
    let status = SubscriptionStatus.active in
    record {
      tables = sync_membership_entitlement r.user_id org product status r.current_period_end now u;
      call = rw there refl;
      regranted = record {
        row =
            rw (sync-same r.user_id org product status r.current_period_end now u)
              (kept ∙ ground (arith, over));
        tier =
            subst
              (λ o.
                image (λ (x : Profile). x.membership_tier)
                  (first_where (of_user user)
                    (sync_membership_entitlement o org product status r.current_period_end now
                      u).profiles)
                ≡ some (tier_of r.product_code))
              (sym owner)
              (sync-grants user org r.product_code status r.current_period_end now u p sold granting
                profile);
      };
      orders = sync_orders r.user_id org product status r.current_period_end now u;
    }

-- A new order that the table takes is inserted.
upsert-new :
    (e : ChargeOrder) (s : Mirrors)
    → row_allowed e ≡ true
    → first_where (numbered e.order_no) s.orders ≡ none
    → upsert_order e s ≡ done (tt, record s { orders = insert_row e s.orders })
unfolding upsert_order and_then raise_if
upsert-new e s allowed fresh = rw allowed (rw fresh refl)

paid_call :
    (i : PaidInvoice) (now : ℕ) (s : Mirrors) (r : MirrorRow) (t : Mirrors) (n : ℕ) {u : Mirrors}
    → nat_beq (str_len i.subscription) 0 ≡ false
    → first_where (mirrors i.subscription) s.subscriptions ≡ some r
    → reactivate i.subscription now s ≡ done (tt, t)
    → int_of i.amount_paid ≡ some (pos n)
    → nat_beq n 0 || (nat_beq (str_len i.currency) 0 || nat_beq (str_len i.payment_intent) 0)
      ≡ false
    → upsert_order (invoice_order r i n now) t ≡ done (tt, u)
    → on_invoice_paid i now s ≡ done (tt, u)
unfolding on_invoice_paid and_then
paid_call i now s r t n named there reactivates amount whole charges =
    rw named (rw there (rw reactivates (rw amount (rw whole charges))))

-- `_on_invoice_paid` for a canceled subscription whose paid period is not over or not known: with an
-- amount, a currency and a payment intent of which there is no order yet, where the table takes the
-- order, the event is applied without an exception. It leaves the subscription canceled and gives its user
-- the tier of the product again.
pub paid-regrants :
    (i : PaidInvoice) (now : ℕ) (s : Mirrors) (r : MirrorRow) (user : ℕ) (p : Profile) (n : ℕ)
    → nat_beq (str_len i.subscription) 0 ≡ false
    → first_where (mirrors i.subscription) s.subscriptions ≡ some r
    → r.status ≡ SubscriptionStatus.canceled
    → r.user_id ≡ some user
    → is_subscription_product r.product_code ≡ true
    → grants SubscriptionStatus.active r.current_period_end now ≡ true
    → first_where (of_user user) s.profiles ≡ some p
    → int_of i.amount_paid ≡ some (pos n)
    → nat_beq n 0 || (nat_beq (str_len i.currency) 0 || nat_beq (str_len i.payment_intent) 0)
      ≡ false
    → row_allowed (invoice_order r i n now) ≡ true
    → first_where (numbered i.payment_intent) s.orders ≡ none
    → Succeeds (on_invoice_paid i now s)
      × Regranted i.subscription r user (after s (on_invoice_paid i now s))
paid-regrants i now s r user p n named there over owner sold granting profile amount whole allowed
      fresh =
    let a =
      reactivate-Reactivated i.subscription now s r user p there over owner sold granting profile in
    let new = upsert-new (invoice_order r i n now) a.tables allowed (rw a.orders fresh) in
    let call = paid_call i now s r a.tables n named there a.call amount whole new in
    subst (λ o. Succeeds o × Regranted i.subscription r user (after s o)) (sym call)
      (succeeds, record { row = a.regranted.row; tier = a.regranted.tier })
