-- ===== src/Billing/Mirror.antt =====
-- The mirror of the provider's subscriptions: `_upsert_subscription_mirror`,
-- `_on_subscription_mirror_event`, the subscription branch of `_on_invoice_paid` and
-- `_on_invoice_payment_failed` of backend/app/billing/store.py. The notes for the audit row are left out.
use zouseeking.Base.{
  ℕ, Bool, true, false, not, ◌&&◌, ◌||◌, Option, none, some, List, String, ◌==◌, string_eq,
  option_eq, nat_eq, nat_beq, if◌then◌else◌, is_some, str_len, pair_eq,
}
use zouseeking.Base.Table.{first_where, update_where, insert_row}
use zouseeking.Base.Txn.{pure, ◌>>=◌, ◌>>◌, select, write, raise, raise_if}
use zouseeking.Entitlements.Limits.{metric_eq, period_eq}
use zouseeking.Billing.Orders.{SubscriptionStatus, is_subscription_product}
use zouseeking.Billing.Refunds.{is_live, currency_allowed}
use zouseeking.Billing.Charges.{coalesce}
use zouseeking.Billing.Grants.{
  MirrorRow, Membership, StatusText, known, paused, value_error, subscriptions_status_allowed,
  subscriptions_currency_allowed, MirrorCall, sync_membership_entitlement,
}

-- What an event of the provider says of a subscription.
pub record Snapshot : Type 0 where
  pub user_id : Option ℕ
  pub organization_id : Option ℕ
  pub product_code : Option String
  pub price_version : ℕ
  pub currency : String
  pub amount_minor : Option ℕ
  pub stripe_customer_id : Option String
  pub stripe_subscription_id : String
  pub status : StatusText
  pub period_start : Option ℕ
  pub period_end : Option ℕ
  pub cancel_at_period_end : Bool

abbrev pub mirrors : String → MirrorRow → Bool
mirrors id r = r.stripe_subscription_id == id

-- The set of `_update_subscription_mirror`.
unfoldable pub refreshed : Snapshot → SubscriptionStatus → MirrorRow → MirrorRow
refreshed e status r = record r {
  status = status;
  current_period_start = coalesce e.period_start r.current_period_start;
  current_period_end = coalesce e.period_end r.current_period_end;
  cancel_at_period_end = e.cancel_at_period_end;
  stripe_customer_id = coalesce e.stripe_customer_id r.stripe_customer_id;
}

-- `_update_subscription_mirror`
unfoldable pub update_subscription_mirror : Snapshot → MirrorCall (Unit {0})
unfolding refreshed
update_subscription_mirror e = elim e.status [
  | known status ↦ write λ s. record s {
    subscriptions =
        update_where (mirrors e.stripe_subscription_id) (refreshed e status) s.subscriptions;
  }
  | _ ↦ raise subscriptions_status_allowed
]

abbrev pub or_incomplete : StatusText → SubscriptionStatus
or_incomplete (known status) = status
or_incomplete _ = SubscriptionStatus.incomplete

-- `_insert_subscription`
unfoldable pub insert_subscription : Snapshot → String → ℕ → MirrorCall (Unit {0})
insert_subscription e product amount = do
  raise_if (not (currency_allowed e.currency)) subscriptions_currency_allowed
  write λ s. record s {
    subscriptions =
        insert_row
          (record {
            user_id = e.user_id;
            organization_id = e.organization_id;
            product_code = product;
            price_version = e.price_version;
            currency = e.currency;
            amount_minor = amount;
            stripe_customer_id = e.stripe_customer_id;
            stripe_subscription_id = e.stripe_subscription_id;
            status = or_incomplete e.status;
            current_period_start = e.period_start;
            current_period_end = e.period_end;
            cancel_at_period_end = e.cancel_at_period_end;
          })
          s.subscriptions;
  }

-- The insert, if the event carries a whole price and names a holder.
abbrev pub insert_if : Option String → Option ℕ → Snapshot → MirrorCall (Unit {0})
insert_if (some product) (some amount) e =
    if is_subscription_product product
      && (not (nat_beq (str_len e.currency) 0)
          && (not (nat_beq amount 0) && (is_some e.user_id || is_some e.organization_id)))
    then insert_subscription e product amount
    else pure tt
insert_if _ _ e = pure tt

-- `_upsert_subscription_mirror`
unfoldable pub upsert_subscription_mirror : Snapshot → MirrorCall (Unit {0})
upsert_subscription_mirror e = do
  existing ← select (λ s. first_where (mirrors e.stripe_subscription_id) s.subscriptions)
  elim existing [
    | some r ↦ update_subscription_mirror e
    | none ↦ insert_if e.product_code e.amount_minor e
  ]

-- The metadata of an event, and the holder and the product that `_metadata_scope` reads from it.
pub record Metadata : Type 0 where
  pub product_code : String
  pub subject_id : Option ℕ
  pub user_id : Option ℕ

pub record Holder : Type 0 where
  pub user_id : Option ℕ
  pub organization_id : Option ℕ
  pub product_code : Option String

abbrev pub active_member : ℕ → Membership → Bool
active_member user m = nat_beq m.user_id user && m.active

abbrev pub organization_in : Option Membership → Option ℕ
organization_in none = none
organization_in (some m) = some m.organization_id

-- `_resolve_org_for_user`, with the memberships in the order in which they were created.
unfoldable pub resolve_org_for_user : Option ℕ → List Membership → Option ℕ
resolve_org_for_user none members = none
resolve_org_for_user (some user) members =
    organization_in (first_where (active_member user) members)

-- `_metadata_scope`
unfoldable pub metadata_scope : Metadata → List Membership → Holder
unfolding resolve_org_for_user
metadata_scope m members =
    if m.product_code == "b_data_pro_monthly"
    then record {
      user_id = none;
      organization_id = coalesce m.subject_id (resolve_org_for_user m.user_id members);
      product_code = some m.product_code;
    }
    else if (m.product_code == "risk_report_single") || (m.product_code == "c_plus_monthly")
    then record { user_id = m.user_id; organization_id = none; product_code = some m.product_code }
    else record { user_id = m.user_id; organization_id = none; product_code = none }

abbrev pub is_paused : StatusText → Bool
is_paused paused = true
is_paused _ = false

abbrev pub scoped_to : Holder → Snapshot → Snapshot
scoped_to h e = record e {
  user_id = h.user_id;
  organization_id = h.organization_id;
  product_code = h.product_code;
}

-- A text that is not a status of the table grants nothing, as 'incomplete' does.
abbrev pub as_status : StatusText → SubscriptionStatus
as_status (known status) = status
as_status _ = SubscriptionStatus.incomplete

-- `_on_subscription_mirror_event`; `deleted` is the type 'customer.subscription.deleted'.
unfoldable pub on_subscription_mirror_event : Bool → Metadata → Snapshot → ℕ → MirrorCall (Unit {0})
on_subscription_mirror_event deleted metadata e now =
    if nat_beq (str_len e.stripe_subscription_id) 0 then pure tt else do
      raise_if (is_paused e.status) value_error
      holder ← select (λ s. metadata_scope metadata s.members)
      let status = if deleted then known SubscriptionStatus.canceled else e.status
      upsert_subscription_mirror (scoped_to holder (record e { status = status }))
      write (
          sync_membership_entitlement holder.user_id holder.organization_id holder.product_code
            (as_status status) e.period_end now)

abbrev pub is_canceled : SubscriptionStatus → Bool
is_canceled SubscriptionStatus.canceled = true
is_canceled _ = false

-- The subscription branch of `_on_invoice_paid`.
unfoldable pub reactivate : String → ℕ → MirrorCall (Unit {0})
reactivate id now = do
  existing ← select (λ s. first_where (mirrors id) s.subscriptions)
  elim existing [
    | none ↦ pure tt
    | some r ↦ do
      write λ s. record s {
        subscriptions =
            update_where (λ x. mirrors id x && not (is_canceled x.status))
              (λ x. record x { status = SubscriptionStatus.active }) s.subscriptions;
      }
      write (
          sync_membership_entitlement r.user_id r.organization_id (some r.product_code)
            SubscriptionStatus.active r.current_period_end now)
  ]

-- `_on_invoice_payment_failed`
unfoldable pub on_invoice_payment_failed : String → ℕ → MirrorCall (Unit {0})
on_invoice_payment_failed id now = if nat_beq (str_len id) 0 then pure tt else do
  write λ s. record s {
    subscriptions =
        update_where (λ x. mirrors id x && is_live x.status)
          (λ x. record x { status = SubscriptionStatus.past_due }) s.subscriptions;
  }
  existing ← select (λ s. first_where (mirrors id) s.subscriptions)
  elim existing [
    | none ↦ pure tt
    | some r ↦ write (
        sync_membership_entitlement r.user_id r.organization_id (some r.product_code)
          SubscriptionStatus.past_due r.current_period_end now)
  ]
