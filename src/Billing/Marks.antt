-- ===== src/Billing/Marks.antt =====
-- What the end of a claim on a provider event records (backend/app/billing/service.py and store.py).
use zouseeking.Base.{
  ℕ, ◌≡◌, refl, Bool, true, false, Option, none, some, ◌∷◌, String, arith, ◌==◌, string_eq,
  if◌then◌else◌, inl, inr, Option-cases,
}
use zouseeking.Base.Dict.{lookup, lookup-insert}
use zouseeking.Base.Table.{insert_row, mapped}
use zouseeking.Base.Txn.{Outcome, Outcome-cases, done, raised}
use zouseeking.Billing.Events.{
  ProviderEvent, EventStatus, failed, processed, ignored, EventRow, EventFailure, AuditRecord,
  AuditRow, is_ignored, OutboxAction, Db, Trouble, update_status, process_provider_event, may_fail,
  fail_event_row, mark_provider_event_failed,
}
use zouseeking.Billing.Webhook.{
  RetryPolicy, Answer, event_side_effects, process_event, fail_event, mark_of,
}

abbrev pub is_done : EventStatus → Bool
is_done processed = true
is_done ignored = true
is_done _ = false

abbrev pub status_of : AuditRecord → EventStatus
status_of audit = if is_ignored audit.action then ignored else processed

abbrev pub with_status : EventStatus → EventRow → EventRow
with_status status r = record r { status = status }

abbrev pub failing : EventRow → EventRow
failing r = if may_fail r.status then with_status failed r else r

module _ {D : Type 0} where
  -- What a processed event changes of the ledger of events.
  pub record EventApplied (e : ProviderEvent) (s t : Db D) : Type 0 where
    pub row : AuditRow
    pub entry : row.entry.event_id ≡ some e.event_id
    pub audits : t.audits ≡ insert_row row s.audits
    pub failures : t.failures ≡ s.failures
    pub status : EventStatus
    pub final : is_done status ≡ true
    pub events :
        (i : String)
        → lookup i t.events ≡ (
            if e.event_id == i
            then mapped (with_status status) (lookup i s.events)
            else lookup i s.events)

  update_status-lookup :
      (id : String) (status : EventStatus) (s : Db D) (i : String)
      → lookup i (update_status id status s).events
        ≡ (if id == i then mapped (with_status status) (lookup i s.events) else lookup i s.events)
  unfolding update_status
  update_status-lookup id status s i = elim (Option-cases (lookup id s.events)) [
    | inl absent ↦ ground (arith, absent, string_eq.beq_iff id i)
    | inr (r, there) ↦
        ground
          (arith, there, string_eq.beq_iff id i, lookup-insert id i (with_status status r) s.events)
  ]

  update_status-kept :
      (id : String) (status : EventStatus) (s : Db D)
      → ((update_status id status s).audits ≡ s.audits)
        × ((update_status id status s).failures ≡ s.failures)
  unfolding update_status
  update_status-kept id status s = ground arith

  pub update_status-domain :
      (id : String) (status : EventStatus) (s : Db D)
      → (update_status id status s).domain ≡ s.domain
  unfolding update_status
  update_status-domain id status s = ground arith

  abbrev pub posted : AuditRecord → Option OutboxAction → D → Db D → Db D
  posted audit outbox d s = record s {
    audits = insert_row (record { entry = audit; outbox = outbox }) s.audits;
    domain = d;
  }

  module _ (effects : ProviderEvent → D → Outcome Trouble (Unit {0} × D)) where
    pub process_done :
        (e : ProviderEvent) (audit : AuditRecord) (outbox : Option OutboxAction) (s : Db D)
        (d : Unit {0} × D)
        → effects e s.domain ≡ done d
        → process_provider_event effects e audit outbox s
          ≡ done (tt, update_status e.event_id (status_of audit) (posted audit outbox d.1 s))
    unfolding process_provider_event
    process_done e audit outbox s d h = rw (h, process_provider_event) refl

    process_raised :
        (e : ProviderEvent) (audit : AuditRecord) (outbox : Option OutboxAction) (s : Db D)
        (x : Trouble)
        → effects e s.domain ≡ raised x
        → process_provider_event effects e audit outbox s ≡ raised x
    unfolding process_provider_event
    process_raised e audit outbox s x h = rw (h, process_provider_event) refl

    posted-EventApplied :
        (e : ProviderEvent) (audit : AuditRecord) (outbox : Option OutboxAction) (s : Db D) (d : D)
        → audit.event_id ≡ some e.event_id
        → EventApplied e s (update_status e.event_id (status_of audit) (posted audit outbox d s))
    posted-EventApplied e audit outbox s d named =
        let kept = update_status-kept e.event_id (status_of audit) (posted audit outbox d s) in
        record {
          row = record { entry = audit; outbox = outbox };
          entry = named;
          audits = kept.0;
          failures = kept.1;
          status = status_of audit;
          final = ground arith;
          events = update_status-lookup e.event_id (status_of audit) (posted audit outbox d s);
        }

    -- A processing that succeeds has recorded the event once, in its last state.
    pub process_event-EventApplied :
        (e : ProviderEvent) (s t : Db D) (a : Answer)
        → process_event effects e s ≡ done (a, t)
        → EventApplied e s t
    unfolding process_event event_side_effects
    process_event-EventApplied e s t a h = elim (Option-cases (event_side_effects e)) [
      | inl bad ↦ absurd (ground (arith, rw (bad, process_event) at h))
      | inr (p, good) ↦ elim (Outcome-cases (effects e s.domain)) [
        | inr (x, failing) ↦ absurd (
            ground
              (arith, rw (good, process_raised e p.audit p.outbox s x failing, process_event) at h))
        | inl (d, passing) ↦
            let same : t
                ≡ update_status e.event_id (status_of p.audit) (posted p.audit p.outbox d.1 s) =
              ground (
                arith,
                rw (good, process_done e p.audit p.outbox s d passing, process_event) at h,
              ) in
            rw same (posted-EventApplied e p.audit p.outbox s d.1 (ground (arith, good)))
      ]
    ]

  -- What a failed processing changes of the ledger of events.
  pub record Marked (id : String) (s t : Db D) : Type 0 where
    pub failure : EventFailure
    pub named : failure.event_id ≡ id
    pub failures : t.failures ≡ failure ∷ s.failures
    pub audits : t.audits ≡ s.audits
    pub events :
        (i : String)
        → lookup i t.events
          ≡ (if id == i then mapped failing (lookup i s.events) else lookup i s.events)

  fail_event_row-lookup :
      (id : String) (s : Db D) (i : String)
      → lookup i (fail_event_row (lookup id s.events) id s).events
        ≡ (if id == i then mapped failing (lookup i s.events) else lookup i s.events)
  fail_event_row-lookup id s i = elim (Option-cases (lookup id s.events)) [
    | inl absent ↦ ground (arith, absent, string_eq.beq_iff id i)
    | inr (r, there) ↦
        ground
          (arith, there, string_eq.beq_iff id i, lookup-insert id i (with_status failed r) s.events)
  ]

  fail_event_row-audits :
      (o : Option EventRow) (id : String) (s : Db D) → (fail_event_row o id s).audits ≡ s.audits
  fail_event_row-audits none id s = refl
  fail_event_row-audits (some r) id s = ground arith

  pub fail_event-Marked :
      (effects : ProviderEvent → D → Outcome Trouble (Unit {0} × D)) (p : RetryPolicy) (now : ℕ)
      (e : ProviderEvent) (n : ℕ) (x : Trouble) (s : Db D)
      → Marked e.event_id s (fail_event effects p now e n x s).1
  unfolding fail_event mark_provider_event_failed
  fail_event-Marked effects p now e n x s =
      let m = mark_of p n now x in
      record {
        failure = record {
          event_id = e.event_id;
          failure_class = m.class;
          error_code = m.code;
          next_attempt_at = m.next_attempt_at;
        };
        named = refl;
        failures = refl;
        audits = fail_event_row-audits (lookup e.event_id s.events) e.event_id s;
        events = fail_event_row-lookup e.event_id s;
      }
