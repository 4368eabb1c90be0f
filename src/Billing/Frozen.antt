-- ===== src/Billing/Frozen.antt =====
-- What later events may change of a mirrored subscription (backend/app/billing/store.py).
use mathlib.Core.Path.{sym, subst}
use zouseeking.Base.{
  ℕ, ◌≡◌, refl, ◌∙◌, Bool, not, ◌&&◌, ◌||◌, Option, none, some, String, arith, string_eq, is_some,
  nat_beq, str_len, inl, inr, Bool-cases, Option-cases,
}
use zouseeking.Base.Rows.{image, first_where-update_where, first_where-insert_row}
use zouseeking.Base.Table.{first_where, update_where, insert_row}
use zouseeking.Base.Txn.{Ensures, ends, raises, after_done, after_check, after_call}
use zouseeking.Billing.Orders.{SubscriptionStatus, is_subscription_product}
use zouseeking.Billing.Refunds.{is_live}
use zouseeking.Billing.Grants.{
  MirrorRow, Mirrors, StatusText, known, paused, other, sync_membership_entitlement,
}
use zouseeking.Billing.Mirror.{
  Snapshot, mirrors, refreshed, update_subscription_mirror, insert_subscription, insert_if,
  upsert_subscription_mirror, Metadata, on_subscription_mirror_event, is_canceled, reactivate,
  on_invoice_payment_failed,
}
use zouseeking.Billing.Settling.{Moves, refl-Moves, Moves-then}

-- The columns that only the insert of a subscription writes.
pub record Price : Type 0 where
  pub user_id : Option ℕ
  pub organization_id : Option ℕ
  pub product_code : String
  pub price_version : ℕ
  pub currency : String
  pub amount_minor : ℕ

abbrev pub price : MirrorRow → Price
price r = record {
  user_id = r.user_id;
  organization_id = r.organization_id;
  product_code = r.product_code;
  price_version = r.price_version;
  currency = r.currency;
  amount_minor = r.amount_minor;
}

abbrev pub priced : String → Mirrors → Option Price
priced id s = image price (first_where (mirrors id) s.subscriptions)

-- A subscription that is mirrored keeps its holder and its price, and orders only move forward.
pub record Frozen (s t : Mirrors) : Type 0 where
  pub keeps : (id : String) (p : Price) → priced id s ≡ some p → priced id t ≡ some p
  pub orders : Moves s.orders t.orders

pub sync-same :
    (user org : Option ℕ) (product : Option String) (status : SubscriptionStatus)
    (period_end : Option ℕ) (now : ℕ) (s : Mirrors)
    → (sync_membership_entitlement user org product status period_end now s).subscriptions
      ≡ s.subscriptions
unfolding sync_membership_entitlement
sync-same user org none status period_end now s = refl
sync-same user org (some product) status period_end now s =
    elim (Bool-cases (is_subscription_product product)) [
      | inl sold ↦ rw sold refl
      | inr unsold ↦ rw unsold refl
    ]

pub sync_orders :
    (user org : Option ℕ) (product : Option String) (status : SubscriptionStatus)
    (period_end : Option ℕ) (now : ℕ) (s : Mirrors)
    → (sync_membership_entitlement user org product status period_end now s).orders ≡ s.orders
unfolding sync_membership_entitlement
sync_orders user org none status period_end now s = refl
sync_orders user org (some product) status period_end now s =
    elim (Bool-cases (is_subscription_product product)) [
      | inl sold ↦ rw sold refl
      | inr unsold ↦ rw unsold refl
    ]

pub refl-Frozen : (s : Mirrors) → Frozen s s
refl-Frozen s = record { keeps = λ id p e. e; orders = refl-Moves s.orders }

pub sync-Frozen :
    (user org : Option ℕ) (product : Option String) (status : SubscriptionStatus)
    (period_end : Option ℕ) (now : ℕ) (s : Mirrors)
    → Frozen s (sync_membership_entitlement user org product status period_end now s)
sync-Frozen user org product status period_end now s = record {
  keeps = λ id p e. rw (sync-same user org product status period_end now s) e;
  orders =
      subst (λ o. Moves s.orders o) (sym (sync_orders user org product status period_end now s))
        (refl-Moves s.orders);
}

pub update-Frozen :
    (p : MirrorRow → Bool) (f : MirrorRow → MirrorRow) (s : Mirrors)
    → ((r : MirrorRow) → (f r).stripe_subscription_id ≡ r.stripe_subscription_id)
    → ((r : MirrorRow) → price (f r) ≡ price r)
    → Frozen s (record s { subscriptions = update_where p f s.subscriptions })
update-Frozen p f s named same = record {
  keeps = λ id x e.
      first_where-update_where (mirrors id) p f price s.subscriptions (λ r. rw (named r) refl) same
      ∙ e;
  orders = refl-Moves s.orders;
}

pub insert-Frozen :
    (r : MirrorRow) (s : Mirrors)
    → Frozen s (record s { subscriptions = insert_row r s.subscriptions })
insert-Frozen r s = record {
  keeps = λ id p e. ground (arith, e, first_where-insert_row (mirrors id) r s.subscriptions);
  orders = refl-Moves s.orders;
}

pub Frozen-then : {s t u : Mirrors} → Frozen s t → Frozen t u → Frozen s u
Frozen-then f g = record {
  keeps = λ id p e. g.keeps id p (f.keeps id p e);
  orders = Moves-then f.orders g.orders;
}

pub update_subscription_mirror-Frozen :
    (e : Snapshot) (status : StatusText) (s : Mirrors)
    → Ensures (λ _ t. Frozen s t) (update_subscription_mirror (record e { status = status }) s)
unfolding update_subscription_mirror refreshed
update_subscription_mirror-Frozen e (known status) s = ends (
    update-Frozen (mirrors e.stripe_subscription_id) (refreshed e status) s (λ r. refl) (λ r. refl))
update_subscription_mirror-Frozen e paused s = raises
update_subscription_mirror-Frozen e other s = raises

pub insert_if-Frozen :
    (product : Option String) (amount : Option ℕ) (e : Snapshot) (s : Mirrors)
    → Ensures (λ _ t. Frozen s t) (insert_if product amount e s)
unfolding insert_subscription
insert_if-Frozen none amount e s = ends (refl-Frozen s)
insert_if-Frozen (some product) none e s = ends (refl-Frozen s)
insert_if-Frozen (some product) (some amount) e s =
    elim (Bool-cases (
      is_subscription_product product
      && (not (nat_beq (str_len e.currency) 0)
          && (not (nat_beq amount 0) && (is_some e.user_id || is_some e.organization_id))))) [
            | inl whole ↦ rw whole (after_check _ _ (λ _. ends (insert-Frozen _ s)))
            | inr part ↦ rw part (ends (refl-Frozen s))
          ]

pub upsert-Frozen :
    (e : Snapshot) (s : Mirrors) → Ensures (λ _ t. Frozen s t) (upsert_subscription_mirror e s)
unfolding upsert_subscription_mirror
upsert-Frozen e s =
    after_done _
      (elim (Option-cases (first_where (mirrors e.stripe_subscription_id) s.subscriptions)) [
        | inr (r, there) ↦ rw there (update_subscription_mirror-Frozen e e.status s)
        | inl absent ↦ rw absent (insert_if-Frozen e.product_code e.amount_minor e s)
      ])

pub event-Frozen :
    (deleted : Bool) (m : Metadata) (e : Snapshot) (now : ℕ) (s : Mirrors)
    → Ensures (λ _ t. Frozen s t) (on_subscription_mirror_event deleted m e now s)
unfolding on_subscription_mirror_event
event-Frozen deleted m e now s = elim (Bool-cases (nat_beq (str_len e.stripe_subscription_id) 0)) [
  | inl unnamed ↦ rw unnamed (ends (refl-Frozen s))
  | inr named ↦ rw named (
      after_check _ _ (λ _. after_done _ (
        after_call (upsert-Frozen _ s)
          (λ _ t f. ends (Frozen-then f (sync-Frozen _ _ _ _ _ now t))))))
]

pub reactivate-Frozen :
    (id : String) (now : ℕ) (s : Mirrors) → Ensures (λ _ t. Frozen s t) (reactivate id now s)
unfolding reactivate
reactivate-Frozen id now s =
    after_done _ (elim (Option-cases (first_where (mirrors id) s.subscriptions)) [
      | inl absent ↦ rw absent (ends (refl-Frozen s))
      | inr (r, there) ↦ rw there (
          after_done _ (
            ends (
              Frozen-then
                (update-Frozen (λ x. mirrors id x && not (is_canceled x.status))
                  (λ x. record x { status = SubscriptionStatus.active }) s (λ x. refl) (λ x. refl))
                (sync-Frozen r.user_id r.organization_id (some r.product_code)
                  SubscriptionStatus.active r.current_period_end now _))))
    ])

pub failed-Frozen :
    (id : String) (now : ℕ) (s : Mirrors)
    → Ensures (λ _ t. Frozen s t) (on_invoice_payment_failed id now s)
unfolding on_invoice_payment_failed
failed-Frozen id now s =
    let overdue =
      update_where (λ x. mirrors id x && is_live x.status)
        (λ x. record x { status = SubscriptionStatus.past_due }) s.subscriptions in
    let f =
      update-Frozen (λ x. mirrors id x && is_live x.status)
        (λ x. record x { status = SubscriptionStatus.past_due }) s (λ x. refl) (λ x. refl) in
    elim (Bool-cases (nat_beq (str_len id) 0)) [
      | inl unnamed ↦ rw unnamed (ends (refl-Frozen s))
      | inr named ↦ rw named (
          after_done _ (
            after_done _ (elim (Option-cases (first_where (mirrors id) overdue)) [
              | inl absent ↦ rw absent (ends f)
              | inr (r, there) ↦ rw there (
                  ends (
                    Frozen-then f (
                      sync-Frozen r.user_id r.organization_id (some r.product_code)
                        SubscriptionStatus.past_due r.current_period_end now _)))
            ])))
    ]
