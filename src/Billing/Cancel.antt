-- ===== src/Billing/Cancel.antt =====
-- The cancellation of a subscription by its user: `request_cancel` of backend/app/billing/service.py with
-- `get_subscription` and `record_cancel` of backend/app/billing/store.py.
use mathlib.Core.Path.{ap, subst}
use zouseeking.Base.{
  sym, ◌∙◌, ℕ, ◌≡◌, refl, Bool, true, false, ◌&&◌, Option, none, some, List, [], ◌∷◌, String, arith,
  ◌==◌, string_eq, option_eq, nat_eq, if◌then◌else◌, inl, inr, Bool-cases, Option-cases,
}
use zouseeking.Base.Rows.{or_else}
use zouseeking.Base.Table.{update_where, updated}
use zouseeking.Base.Txn.{Outcome, done, raised}
use zouseeking.Billing.Orders.{SubscriptionStatus}
use zouseeking.Billing.Refunds.{is_live}
use zouseeking.Billing.Grants.{MirrorRow, Mirrors}
use zouseeking.Billing.Mirror.{mirrors}

module _ {ℓ} {A : Type ℓ} where
  -- `select … where p order by created_at desc limit 1`, of rows in the order of their creation.
  unfoldable pub newest_where : (A → Bool) → List A → Option A
  newest_where p [] = none
  newest_where p (r ∷ rows) = or_else (newest_where p rows) (if p r then some r else none)

  pub newest_where-updated :
      (q p : A → Bool) (f : A → A) (rows : List A)
      → ((x : A) → q (f x) ≡ q x)
      → newest_where q (update_where p f rows) ≡ updated p f (newest_where q rows)
  unfolding newest_where update_where
  newest_where-updated q p f [] h = refl
  newest_where-updated q p f (x ∷ rows) h = ground (arith, h x, newest_where-updated q p f rows h)

-- `status in ('trialing', 'active', 'past_due', 'unpaid', 'incomplete')`
abbrev pub is_cancellable : SubscriptionStatus → Bool
is_cancellable SubscriptionStatus.incomplete = true
is_cancellable status = is_live status

abbrev pub cancellable_for : ℕ → MirrorRow → Bool
cancellable_for user r = (r.user_id == some user) && is_cancellable r.status

-- `get_subscription`; the snapshot is some of the row's columns.
unfoldable pub get_subscription : ℕ → Mirrors → Option MirrorRow
get_subscription user s = newest_where (cancellable_for user) s.subscriptions

abbrev pub canceling : MirrorRow → MirrorRow
canceling r = record r { cancel_at_period_end = true }

-- `record_cancel` at the end of the period.
unfoldable pub record_cancel : ℕ → Mirrors → Mirrors
unfolding get_subscription
record_cancel user s = elim (get_subscription user s) [
  | none ↦ s
  | some r ↦ record s {
    subscriptions = update_where (mirrors r.stripe_subscription_id) canceling s.subscriptions;
  }
]

-- `CancelOutcome`, and the exceptions.
pub record CancelOutcome : Type 0 where
  pub subscription_id : String
  pub duplicate : Bool

pub data CancelTrouble : Type 0 where
  billing_not_found transient_billing : CancelTrouble

-- What the call ends in, and the subscriptions that it asked the provider to cancel.
pub record Cancellation : Type 0 where
  pub answer : Outcome CancelTrouble CancelOutcome
  pub tables : Mirrors
  pub asked : List String

abbrev pub cancel_row : (String → Bool) → ℕ → MirrorRow → Mirrors → Cancellation
cancel_row accepts user r s =
    if r.cancel_at_period_end
    then record {
      answer = done (record { subscription_id = r.stripe_subscription_id; duplicate = true });
      tables = s;
      asked = [];
    }
    else if accepts r.stripe_subscription_id
    then record {
      answer = done (record { subscription_id = r.stripe_subscription_id; duplicate = false });
      tables = record_cancel user s;
      asked = r.stripe_subscription_id ∷ [];
    }
    else record {
      answer = raised transient_billing;
      tables = s;
      asked = r.stripe_subscription_id ∷ [];
    }

-- `request_cancel`, where `accepts` is whether the provider takes the cancellation and nothing comes
-- between its transactions. The audit row is left out.
unfoldable pub request_cancel : (String → Bool) → ℕ → Mirrors → Cancellation
unfolding get_subscription
request_cancel accepts user s = elim (get_subscription user s) [
  | none ↦ record { answer = raised billing_not_found; tables = s; asked = [] }
  | some r ↦ cancel_row accepts user r s
]

cancel_done :
    (user : ℕ) (s : Mirrors) (r : MirrorRow)
    → get_subscription user s ≡ some r
    → get_subscription user (record_cancel user s) ≡ some (canceling r)
unfolding get_subscription record_cancel
cancel_done user s r there =
    rw (there, record_cancel)
      (newest_where-updated (cancellable_for user) (mirrors r.stripe_subscription_id) canceling
          s.subscriptions (λ x. refl)
        ∙ rw there
            (ground (arith, string_eq.beq_iff r.stripe_subscription_id r.stripe_subscription_id)))

absent_request :
    (accepts : String → Bool) (user : ℕ) (s : Mirrors)
    → get_subscription user s ≡ none
    → request_cancel accepts user s
      ≡ record { answer = raised billing_not_found; tables = s; asked = [] }
unfolding request_cancel
absent_request accepts user s absent = rw (absent, request_cancel) refl

row_request :
    (accepts : String → Bool) (user : ℕ) (s : Mirrors) (r : MirrorRow)
    → get_subscription user s ≡ some r
    → request_cancel accepts user s ≡ cancel_row accepts user r s
unfolding request_cancel
row_request accepts user s r there = rw (there, request_cancel) refl

-- A request for a subscription that is being canceled.
canceled_request :
    (accepts : String → Bool) (user : ℕ) (s : Mirrors) (r : MirrorRow)
    → get_subscription user s ≡ some r
    → r.cancel_at_period_end ≡ true
    → request_cancel accepts user s ≡ record {
      answer = done (record { subscription_id = r.stripe_subscription_id; duplicate = true });
      tables = s;
      asked = [];
    }
canceled_request accepts user s r there flag = row_request accepts user s r there ∙ rw flag refl

-- What an answered request leaves: a subscription of the answer that is being canceled.
record Canceled (user : ℕ) (o : CancelOutcome) (t : Mirrors) : Type 0 where
  row : MirrorRow
  there : get_subscription user t ≡ some row
  flag : row.cancel_at_period_end ≡ true
  same : row.stripe_subscription_id ≡ o.subscription_id

row-Canceled :
    (accepts : String → Bool) (user : ℕ) (s : Mirrors) (r : MirrorRow) (o : CancelOutcome)
    → get_subscription user s ≡ some r
    → (cancel_row accepts user r s).answer ≡ done o
    → Canceled user o (cancel_row accepts user r s).tables
row-Canceled accepts user s r o there answered = elim (Bool-cases r.cancel_at_period_end) [
  | inl flag ↦
      rw flag
        (record { row = r; there = there; flag = flag; same = ground (arith, answered, flag) })
  | inr running ↦ elim (Bool-cases (accepts r.stripe_subscription_id)) [
    | inl accepted ↦ rw running (
        rw accepted (record {
          row = canceling r;
          there = cancel_done user s r there;
          flag = refl;
          same = ground (arith, answered, running, accepted);
        }))
    | inr refused ↦ absurd (ground (arith, answered, running, refused))
  ]
]

request-Canceled :
    (accepts : String → Bool) (user : ℕ) (s : Mirrors) (o : CancelOutcome)
    → (request_cancel accepts user s).answer ≡ done o
    → Canceled user o (request_cancel accepts user s).tables
request-Canceled accepts user s o answered = elim (Option-cases (get_subscription user s)) [
  | inl absent ↦ absurd (ground (arith, answered, absent_request accepts user s absent))
  | inr (r, there) ↦
      let e = row_request accepts user s r there in
      subst (λ (x : Cancellation). Canceled user o x.tables) (sym e)
        (row-Canceled accepts user s r o there
          (ap (λ (x : Cancellation). x.answer) (sym e) ∙ answered))
]

-- A cancellation that was answered, asked for again with nothing in between, is answered with the same
-- subscription as a duplicate, changes nothing and does not reach the provider.
pub request_cancel_again :
    (accepts accepts_later : String → Bool) (user : ℕ) (s : Mirrors) (o : CancelOutcome)
    → (request_cancel accepts user s).answer ≡ done o
    → request_cancel accepts_later user (request_cancel accepts user s).tables ≡ record {
      answer = done (record o { duplicate = true });
      tables = (request_cancel accepts user s).tables;
      asked = [];
    }
request_cancel_again accepts accepts_later user s o answered =
    let c = request-Canceled accepts user s o answered in
    let t = (request_cancel accepts user s).tables in
    canceled_request accepts_later user t c.row c.there c.flag ∙ rw c.same refl
