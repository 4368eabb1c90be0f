-- ===== src/Billing/Webhook.antt =====
-- `BillingService.handle_webhook` of backend/app/billing/service.py, from the verified event on, with
-- `RetryPolicy` and `_event_side_effects`.
use zouseeking.Base.{
  ℕ, ◌+◌, ◌-◌, ◌*◌, ◌^◌, Bool, true, false, Option, none, some, String, ◌==◌, string_eq, ◌||◌, min,
  leb, nat_beq, if◌then◌else◌, str_len,
}
use zouseeking.Base.Txn.{Outcome, done, raised}
use zouseeking.Usage.Ledger.Steps.{PyValue, text}
use zouseeking.Billing.Events.{
  EventObject, ProviderEvent, FailureClass, OutboxAction, AuditRecord, AuditAction, event_ignored,
  webhook, Db, ClaimState, new, retry, in_progress, dead_letter, EventClaim, Trouble,
  permanent_error, claim_provider_event, process_provider_event, mark_provider_event_failed,
}

-- `RetryPolicy`
pub record RetryPolicy : Type 0 where
  pub max_attempts : ℕ
  pub base_delay_seconds : ℕ
  pub max_delay_seconds : ℕ

abbrev pub default_policy : RetryPolicy
default_policy = record { max_attempts = 3; base_delay_seconds = 5; max_delay_seconds = 300 }

-- `next_retry_at`
unfoldable pub next_retry_at : RetryPolicy → ℕ → ℕ → Option ℕ
next_retry_at p attempt_count now =
    if nat_beq attempt_count 0 || leb p.max_attempts attempt_count
    then none
    else some (now + min (p.base_delay_seconds * 2 ^ (attempt_count - 1)) p.max_delay_seconds)

-- _SUPPORTED_EVENTS
unfoldable pub supported : String → Bool
supported t =
    (t == "checkout.session.completed")
    || ((t == "customer.subscription.created")
        || ((t == "customer.subscription.updated")
            || ((t == "customer.subscription.deleted")
                || ((t == "invoice.paid")
                    || ((t == "invoice.payment_failed")
                        || ((t == "refund.created") || (t == "refund.updated")))))))

-- `isinstance(v, str)`, and a text that is not empty.
abbrev pub text_of : PyValue → Option String
text_of (text t) = some t
text_of _ = none

abbrev pub name_of : PyValue → Option String
name_of (text t) = if nat_beq (str_len t) 0 then none else some t
name_of _ = none

-- What `_event_side_effects` answers.
pub record SideEffects : Type 0 where
  pub audit : AuditRecord
  pub outbox : Option OutboxAction
  pub ignored : Bool

abbrev pub audit_of : ProviderEvent → Option String → AuditAction → String → AuditRecord
audit_of e subject action id = record {
  subject_id = subject;
  action = action;
  provider_object_id = some id;
  event_id = some e.event_id;
  occurred_at = e.received_at;
}

abbrev pub planned_for : ProviderEvent → EventObject → String → SideEffects
planned_for e o id =
    if supported e.event_type
    then record {
      audit = audit_of e (text_of o.user_id) (webhook e.event_type) id;
      outbox =
          if e.event_type == "invoice.payment_failed"
          then some (record { event_id = e.event_id; invoice_id = id })
          else none;
      ignored = false;
    }
    else record { audit = audit_of e none event_ignored id; outbox = none; ignored = true }

-- `_event_side_effects`, where `none` is PermanentBillingError. The sanitized metadata of the audit
-- record is left out.
unfoldable pub event_side_effects : ProviderEvent → Option SideEffects
unfolding supported
event_side_effects e = elim e.object [
  | none ↦ none
  | some o ↦ elim (name_of o.id) [ none ↦ none | some id ↦ some (planned_for e o id) ]
]

-- `WebhookResult`, or the exception that the call raises.
pub data Answer : Type 0 where
  duplicate ignored processed : Answer
  permanent_billing_error transient_billing_error : Answer

-- How the event ends if its processing fails: the class, the error code and the next attempt.
pub record Mark : Type 0 where
  pub class : FailureClass
  pub code : String
  pub next_attempt_at : Option ℕ
  pub answer : Answer

abbrev pub class_of : Option ℕ → FailureClass
class_of none = FailureClass.permanent
class_of (some t) = FailureClass.temporary

-- The three `except` branches of `handle_webhook`.
unfoldable pub mark_of : RetryPolicy → ℕ → ℕ → Trouble → Mark
unfolding next_retry_at
mark_of p attempt_count now permanent_error = record {
  class = FailureClass.permanent;
  code = "invalid_event";
  next_attempt_at = none;
  answer = permanent_billing_error;
}
mark_of p attempt_count now _ =
    let retry_at = next_retry_at p attempt_count now in
    record {
      class = class_of retry_at;
      code = "event_processing_failed";
      next_attempt_at = retry_at;
      answer = transient_billing_error;
    }

-- Whether the claim lets the caller process the event.
abbrev pub is_owned : ClaimState → Bool
is_owned new = true
is_owned retry = true
is_owned _ = false

abbrev pub answer_of : Bool → Answer
answer_of true = ignored
answer_of false = processed

module _ {D : Type 0} (effects : ProviderEvent → D → Outcome Trouble (Unit {0} × D)) where
  -- The `try` block: the plan and its transaction.
  unfoldable pub process_event : ProviderEvent → Db D → Outcome Trouble (Answer × Db D)
  unfolding event_side_effects process_provider_event
  process_event e s = elim (event_side_effects e) [
    | none ↦ raised permanent_error
    | some p ↦ elim (process_provider_event effects e p.audit p.outbox s) [
      | raised t ↦ raised t
      | done (_, t) ↦ done (answer_of p.ignored, t)
    ]
  ]

  unfoldable pub fail_event : RetryPolicy → ℕ → ProviderEvent → ℕ → Trouble → Db D → Answer × Db D
  unfolding mark_of
  fail_event p now e attempt_count t s =
      let m = mark_of p attempt_count now t in
      (m.answer, mark_provider_event_failed e.event_id m.class m.code m.next_attempt_at s)

  -- `handle_webhook` behind the claim.
  unfoldable pub handle_claimed :
      RetryPolicy → ℕ → ProviderEvent → EventClaim → Db D → Answer × Db D
  handle_claimed p now e claim s = elim claim.state [
    | in_progress ↦ (transient_billing_error, s)
    | ClaimState.processed ↦ (duplicate, s)
    | dead_letter ↦ (duplicate, s)
    | _ ↦ elim (process_event e s) [
      | done (a, t) ↦ (a, t)
      | raised t ↦ fail_event p now e claim.attempt_count t s
    ]
  ]

  -- `handle_webhook`, the transactions of which are not interrupted.
  unfoldable pub handle_webhook : RetryPolicy → ℕ → ProviderEvent → Db D → Answer × Db D
  handle_webhook p now e s =
      let (claim, t) = claim_provider_event e s in handle_claimed p now e claim t
