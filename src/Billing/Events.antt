-- ===== src/Billing/Events.antt =====
-- The ledger of provider events: `claim_provider_event`, `process_provider_event` and
-- `mark_provider_event_failed` of backend/app/billing/store.py, on payment_events and the rows of
-- audit_events that record them. The digest of a payload, which is only stored, is left out.
use zouseeking.Base.{
  ℕ, ◌+◌, Bool, true, false, Option, none, some, List, [], ◌∷◌, String, ◌==◌, string_eq,
  if◌then◌else◌,
}
use zouseeking.Base.Dict.{Dict, lookup, insert}
use zouseeking.Base.Rows.{count}
use zouseeking.Base.Table.{insert_row}
use zouseeking.Base.Txn.{Outcome, done, raised, Txn}
use zouseeking.Usage.Ledger.Steps.{PyValue}

-- `event.payload["data"]["object"]`, where it is a mapping: the entries that the service reads.
pub record EventObject : Type 0 where
  pub id : PyValue
  pub user_id : PyValue

-- `ProviderEvent`
pub record ProviderEvent : Type 0 where
  pub event_id : String
  pub event_type : String
  pub object : Option EventObject
  pub received_at : ℕ

pub data EventStatus : Type 0 where
  received processed ignored failed : EventStatus

pub record EventRow : Type 0 where
  pub event_type : String
  pub status : EventStatus

pub data FailureClass : Type 0 where
  temporary permanent : FailureClass

-- An audit row with the action 'billing.event.failed'.
pub record EventFailure : Type 0 where
  pub event_id : String
  pub failure_class : FailureClass
  pub error_code : String
  pub next_attempt_at : Option ℕ

-- `OutboxAction` of the kind 'billing.dunning', with the dedupe key 'dunning:<event_id>'.
pub record OutboxAction : Type 0 where
  pub event_id : String
  pub invoice_id : String

-- 'billing.event.ignored', or 'billing.webhook.' with the event's type.
pub data AuditAction : Type 0 where
  event_ignored : AuditAction
  webhook : String → AuditAction

abbrev pub is_ignored : AuditAction → Bool
is_ignored event_ignored = true
is_ignored (webhook t) = false

-- `AuditRecord`, and the row that `_insert_audit_row` makes of it with an outbox action.
pub record AuditRecord : Type 0 where
  pub subject_id : Option String
  pub action : AuditAction
  pub provider_object_id : Option String
  pub event_id : Option String
  pub occurred_at : ℕ

pub record AuditRow : Type 0 where
  pub entry : AuditRecord
  pub outbox : Option OutboxAction

-- The tables; `domain` are those that the side effects of events change. Failures are listed with the
-- latest first.
pub record Db (D : Type 0) : Type 0 where
  pub events : Dict String EventRow
  pub failures : List EventFailure
  pub audits : List AuditRow
  pub domain : D

pub data ClaimState : Type 0 where
  new retry processed in_progress dead_letter : ClaimState

-- `EventClaim`
pub record EventClaim : Type 0 where
  pub state : ClaimState
  pub attempt_count : ℕ

abbrev pub failed_for : String → EventFailure → Bool
failed_for id f = f.event_id == id

-- The class of the latest failure of an event, transient where none is recorded.
unfoldable pub failure_class : String → List EventFailure → FailureClass
failure_class id [] = FailureClass.temporary
failure_class id (f ∷ fs) = if failed_for id f then f.failure_class else failure_class id fs

-- What ends the processing of an event: the two exceptions of the service, or another one.
pub data Trouble : Type 0 where
  permanent_error transient_error unexpected_error : Trouble

abbrev pub claim_as : ClaimState → ℕ → EventClaim
claim_as state n = record { state = state; attempt_count = n }

-- Which rows the update of `mark_provider_event_failed` changes.
abbrev pub may_fail : EventStatus → Bool
may_fail EventStatus.received = true
may_fail EventStatus.failed = true
may_fail _ = false

abbrev pub is_failed : EventStatus → Bool
is_failed failed = true
is_failed _ = false

abbrev pub is_retry : ClaimState → Bool
is_retry retry = true
is_retry _ = false

module _ {D : Type 0} where
  abbrev pub put_status : String → EventRow → EventStatus → Db D → Db D
  put_status id r status s = record s { events = insert id (record r { status = status }) s.events }

  -- What a claim answers for an event that has a row, from what it reads.
  unfoldable pub claim_read : ProviderEvent → EventRow → Db D → EventClaim
  claim_read e r s =
      let attempts = count (failed_for e.event_id) s.failures + 1 in
      elim r.status [
        | EventStatus.processed ↦ claim_as ClaimState.processed attempts
        | EventStatus.ignored ↦ claim_as ClaimState.processed attempts
        | EventStatus.received ↦ claim_as in_progress attempts
        | EventStatus.failed ↦ elim (failure_class e.event_id s.failures) [
          | FailureClass.permanent ↦ claim_as dead_letter attempts
          | FailureClass.temporary ↦ claim_as retry attempts
        ]
      ]

  -- `update payment_events set status = 'received' where … and status = 'failed'`; the number of rows is
  -- not read.
  unfoldable pub reclaim : Option EventRow → String → Db D → Db D
  reclaim none id s = s
  reclaim (some r) id s = if is_failed r.status then put_status id r EventStatus.received s else s

  -- The row of an event's first delivery.
  abbrev pub inserted : ProviderEvent → Db D → Db D
  inserted e s = record s {
    events = insert e.event_id (record { event_type = e.event_type; status = received }) s.events;
  }

  -- `claim_provider_event`, where no other transaction comes between its statements. None of them
  -- raises.
  unfoldable pub claim_provider_event : ProviderEvent → Db D → EventClaim × Db D
  claim_provider_event e s = elim (lookup e.event_id s.events) [
    | none ↦ (claim_as new 1, inserted e s)
    | some r ↦
        let claim = claim_read e r s in
        if is_retry claim.state
        then (claim, reclaim (lookup e.event_id s.events) e.event_id s)
        else (claim, s)
  ]

  -- `update payment_events set status = … where provider_event_id = $1`
  unfoldable pub update_status : String → EventStatus → Db D → Db D
  update_status id status s = elim (lookup id s.events) [
    | none ↦ s
    | some r ↦ put_status id r status s
  ]

  -- `process_provider_event`, with the side effects of the event on the other tables.
  unfoldable pub process_provider_event :
      (ProviderEvent → D → Outcome Trouble (Unit {0} × D))
      → ProviderEvent
      → AuditRecord
      → Option OutboxAction
      → Txn Trouble (Db D) (Unit {0})
  unfolding update_status
  process_provider_event effects e audit outbox s = elim (effects e s.domain) [
    | raised t ↦ raised t
    | done (_, d) ↦
        let status =
          if is_ignored audit.action then EventStatus.ignored else EventStatus.processed in
        done (
          tt,
          update_status e.event_id status (record s {
            audits = insert_row (record { entry = audit; outbox = outbox }) s.audits;
            domain = d;
          }),
        )
  ]

  abbrev pub fail_event_row : Option EventRow → String → Db D → Db D
  fail_event_row none id s = s
  fail_event_row (some r) id s =
      if may_fail r.status then put_status id r EventStatus.failed s else s

  -- `mark_provider_event_failed`
  unfoldable pub mark_provider_event_failed :
      String → FailureClass → String → Option ℕ → Db D → Db D
  mark_provider_event_failed id class code next s =
      let f : EventFailure = record {
        event_id = id;
        failure_class = class;
        error_code = code;
        next_attempt_at = next;
      } in
      record (fail_event_row (lookup id s.events) id s) { failures = f ∷ s.failures }
