-- ===== src/Billing/Grants.antt =====
-- The rows that mirror the provider's subscriptions and what they grant: `_sync_membership_entitlement`
-- of backend/app/billing/store.py. The monthly quotas that it also sets are in usage_quotas and left out.
use zouseeking.Base.{
  ℕ, Bool, false, ◌&&◌, Option, none, some, List, String, ◌==◌, string_eq, option_eq, nat_eq,
  nat_beq, ltb, if◌then◌else◌, is_some, get_or, ℤ, pair_eq,
}
use zouseeking.Base.Dict.{Dict, lookup}
use zouseeking.Base.Table.{first_where, update_where}
use zouseeking.Base.Txn.{Txn}
use zouseeking.Entitlements.Limits.{Metric, PeriodName, metric_eq, period_eq, Row, plan_for_tier}
use zouseeking.Entitlements.Normal.{normalize_entitlements}
use zouseeking.Billing.Orders.{SubscriptionStatus, is_active, is_subscription_product}
use zouseeking.Billing.Charges.{ChargeOrder}

-- A row of subscriptions, in the order in which the rows were created.
pub record MirrorRow : Type 0 where
  pub user_id : Option ℕ
  pub organization_id : Option ℕ
  pub product_code : String
  pub price_version : ℕ
  pub currency : String
  pub amount_minor : ℕ
  pub stripe_customer_id : Option String
  pub stripe_subscription_id : String
  pub status : SubscriptionStatus
  pub current_period_start : Option ℕ
  pub current_period_end : Option ℕ
  pub cancel_at_period_end : Bool

-- A row of user_profiles, and one of organization_members.
pub record Profile : Type 0 where
  pub user_id : ℕ
  pub audience : Option String
  pub membership_tier : String
  pub daily_query_limit : ℕ

pub record Membership : Type 0 where
  pub user_id : ℕ
  pub organization_id : ℕ
  pub active : Bool

pub record Mirrors : Type 0 where
  pub subscriptions : List MirrorRow
  pub profiles : List Profile
  pub members : List Membership
  pub orders : List ChargeOrder
  pub plan_entitlements : String → List Row
  pub pricing_plans : String → Dict String (Option ℤ)

-- A status text of the provider: one of the table's, 'paused', or another.
pub data StatusText : Type 0 where
  known : SubscriptionStatus → StatusText
  paused other : StatusText

-- The exceptions: the ValueError of a paused subscription, and the table's checks that an event can
-- fail. The scope of a product holds in every row, as `_metadata_scope` chooses it.
pub data Refusal : Type 0 where
  value_error subscriptions_status_allowed subscriptions_currency_allowed payment_orders_check :
      Refusal

abbrev pub MirrorCall {ℓ} : Type ℓ → Type ℓ
MirrorCall A = Txn Refusal Mirrors A

-- `product_code.removesuffix("_monthly")` of the two subscription products.
abbrev pub tier_of : String → String
tier_of product = if product == "c_plus_monthly" then "c_plus" else "b_data_pro"

-- `status in {"active", "trialing"} and (period_end is None or period_end > now)`
unfoldable pub grants : SubscriptionStatus → Option ℕ → ℕ → Bool
grants status none now = is_active status
grants status (some end_at) now = is_active status && ltb now end_at

abbrev pub of_user : ℕ → Profile → Bool
of_user user p = nat_beq p.user_id user

abbrev pub audience_in : Option Profile → String
audience_in none = "c"
audience_in (some p) = get_or p.audience "c"

-- The audience that the plan is chosen for.
abbrev pub audience_of : Option ℕ → Option ℕ → List Profile → String
audience_of (some user) org profiles = audience_in (first_where (of_user user) profiles)
audience_of none (some org) profiles = "b"
audience_of none none profiles = "c"

abbrev pub org_member : ℕ → ℕ → Membership → Bool
org_member org user m = nat_beq m.organization_id org && (nat_beq m.user_id user && m.active)

-- Whose profiles the grant is written to.
abbrev pub granted_to : Option ℕ → Option ℕ → List Membership → Profile → Bool
granted_to (some user) org members p = of_user user p
granted_to none (some org) members p = is_some (first_where (org_member org p.user_id) members)
granted_to none none members p = false

abbrev pub granted : String → ℕ → Profile → Profile
granted tier limit p = record p { membership_tier = tier; daily_query_limit = limit }

-- `_sync_membership_entitlement`
unfoldable pub sync_membership_entitlement :
    Option ℕ → Option ℕ → Option String → SubscriptionStatus → Option ℕ → ℕ → Mirrors → Mirrors
sync_membership_entitlement user org none status period_end now s = s
sync_membership_entitlement user org (some product) status period_end now s =
    let tier = if grants status period_end now then tier_of product else "free_c" in
    let plan = plan_for_tier (some tier) (some (audience_of user org s.profiles)) in
    let resolved =
      normalize_entitlements plan (some (s.plan_entitlements plan)) (s.pricing_plans plan) in
    let daily = get_or (lookup (Metric.query, PeriodName.day) resolved) 3 in
    if is_subscription_product product
    then record s {
      profiles = update_where (granted_to user org s.members) (granted tier daily) s.profiles;
    }
    else s
