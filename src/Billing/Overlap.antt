-- ===== src/Billing/Overlap.antt =====
-- Two deliveries of a failed event whose claims overlap (backend/app/billing/store.py,
-- `claim_provider_event`).
use mathlib.Core.Path.{subst}
use zouseeking.Base.{
  ◌==◌, ◌+◌, ◌≡◌, refl, ◌∙◌, true, some, [], ◌∷◌, String, arith, string_eq, if◌then◌else◌,
}
use zouseeking.Base.Dict.{lookup, lookup-insert}
use zouseeking.Base.Rows.{count, sum-insert_row, remove_first}
use zouseeking.Base.Table.{first_where, insert_row}
use zouseeking.Base.Txn.{Outcome, done}
use zouseeking.Billing.Events.{
  retry, claim_as, update_status, ProviderEvent, failed, received, EventRow, FailureClass, Db,
  failed_for, failure_class, Trouble, claim_read, reclaim, put_status,
}
use zouseeking.Billing.Webhook.{
  RetryPolicy, SideEffects, event_side_effects, process_event, answer_of, Answer,
}
use zouseeking.Billing.Deliveries.{
  World, holding, deliver, claim_again, drop, Step, delivered, reclaimed, finished, Reach, here,
  then_step,
}
use zouseeking.Billing.Exclusive.{applied_for, deliver_old}
use zouseeking.Billing.Marks.{
  status_of, posted, process_event-EventApplied, process_done, update_status-domain,
}

-- A world that is reached, in which the event has been applied twice more than in the tables `s` and
-- the tables of its side effects are `d`.
pub record Doubled {D : Type 0} (effects : ProviderEvent → D → Outcome Trouble (Unit {0} × D))
    (p : RetryPolicy) (e : ProviderEvent) (s : Db D) (d : D) (w : World D) : Type 0 where
  pub world : World D
  pub reached : Reach effects p w world
  pub applied :
      count (applied_for e.event_id) world.db.audits ≡ count (applied_for e.event_id) s.audits + 2
  pub domain : world.db.domain ≡ d

module _ {D : Type 0} (effects : ProviderEvent → D → Outcome Trouble (Unit {0} × D)) where
  -- A processing that goes through.
  record Through (e : ProviderEvent) (s : Db D) (d : D) : Type 0 where
    tables : Db D
    answer : Answer
    call : process_event effects e s ≡ done (answer, tables)
    domain : tables.domain ≡ d
    more :
        count (applied_for e.event_id) tables.audits ≡ count (applied_for e.event_id) s.audits + 1

  through :
      (e : ProviderEvent) (s : Db D) (plan : SideEffects) (d : D)
      → event_side_effects e ≡ some plan
      → effects e s.domain ≡ done (tt, d)
      → Through e s d
  unfolding process_event
  through e s plan d planned runs =
      let t = update_status e.event_id (status_of plan.audit) (posted plan.audit plan.outbox d s) in
      let call : process_event effects e s ≡ done (answer_of plan.ignored, t) =
        rw (planned, process_event)
          (rw (process_done effects e plan.audit plan.outbox s (tt, d) runs, process_event) refl) in
      let a = process_event-EventApplied effects e s t (answer_of plan.ignored) call in
      record {
        tables = t;
        answer = answer_of plan.ignored;
        call = call;
        domain =
            update_status-domain e.event_id (status_of plan.audit)
              (posted plan.audit plan.outbox d s);
        more = rw a.audits (
            ground (
              arith,
              a.entry,
              string_eq.beq_iff e.event_id e.event_id,
              sum-insert_row (λ x. if applied_for e.event_id x then 1 else 0) a.row s.audits,
            ));
      }

  retried :
      (e : ProviderEvent) (s : Db D) (r : EventRow)
      → r.status ≡ failed
      → failure_class e.event_id s.failures ≡ FailureClass.temporary
      → claim_read e r s ≡ claim_as retry (count (failed_for e.event_id) s.failures + 1)
  unfolding claim_read
  retried e s r is of = ground (arith, is, of)

  -- The first update claims the event, the second finds it claimed and changes nothing.
  reclaim_failed :
      (id : String) (s : Db D) (r : EventRow)
      → lookup id s.events ≡ some r
      → r.status ≡ failed
      → reclaim (lookup id s.events) id s ≡ put_status id r received s
  unfolding reclaim
  reclaim_failed id s r there is = rw there (rw is refl)

  reclaim_received :
      (id : String) (s : Db D) (r : EventRow)
      → reclaim (lookup id (put_status id r received s).events) id (put_status id r received s)
        ≡ put_status id r received s
  unfolding reclaim
  reclaim_received id s r =
      rw
        (
          lookup-insert id id (record r { status = received }) s.events,
          (string_eq.beq_iff id id).1 refl,
        )
        refl

  -- A failed event whose last failure was temporary, delivered twice at once to idle workers: both claim
  -- it, as neither update's row count is read, and if both processings go through, the event is applied
  -- twice and its side effects have run twice.
  pub overlap-Doubled :
      (p : RetryPolicy) (e : ProviderEvent) (s : Db D) (r : EventRow) (plan : SideEffects)
      (d1 d2 : D)
      → lookup e.event_id s.events ≡ some r
      → r.status ≡ failed
      → failure_class e.event_id s.failures ≡ FailureClass.temporary
      → event_side_effects e ≡ some plan
      → effects e s.domain ≡ done (tt, d1)
      → effects e d1 ≡ done (tt, d2)
      → Doubled effects p e s d2 (record { db = s; reading = []; working = [] })
  unfolding first_where remove_first insert_row
  overlap-Doubled p e s r plan d1 d2 there is of planned first second =
      let id = e.event_id in
      let n = count (failed_for id) s.failures + 1 in
      let h = holding e n in
      let s1 = put_status id r received s in
      let one = through e s1 plan d1 planned first in
      let two = through e one.tables plan d2 planned (rw one.domain second) in
      let self : (id == id) ≡ true = (string_eq.beq_iff id id).1 refl in
      let w0 : World D = record { db = s; reading = []; working = [] } in
      let w1 : World D = record { db = s; reading = h ∷ []; working = [] } in
      let w2 : World D = record { db = s; reading = h ∷ h ∷ []; working = [] } in
      let w3 : World D = record { db = s1; reading = h ∷ []; working = h ∷ [] } in
      let w4 : World D = record { db = s1; reading = []; working = h ∷ h ∷ [] } in
      let w5 : World D = record { db = one.tables; reading = []; working = h ∷ [] } in
      let w6 : World D = record { db = two.tables; reading = []; working = [] } in
      let read1 : deliver e w0 ≡ w1 = deliver_old e w0 r there ∙ rw (retried e s r is of) refl in
      let read2 : deliver e w1 ≡ w2 = deliver_old e w1 r there ∙ rw (retried e s r is of) refl in
      let claim1 : claim_again id h w2 ≡ w3 = rw (reclaim_failed id s r there is) (rw self refl) in
      let claim2 : claim_again id h w3 ≡ w4 = rw (reclaim_received id s r) (rw self refl) in
      let end1 : drop id w4 one.tables ≡ w5 = rw self refl in
      let end2 : drop id w5 two.tables ≡ w6 = rw self refl in
      let step1 = subst (Step effects p w0) read1 (delivered e) in
      let step2 = subst (Step effects p w1) read2 (delivered e) in
      let step3 = subst (Step effects p w2) claim1 (reclaimed id h (rw self refl)) in
      let step4 = subst (Step effects p w3) claim2 (reclaimed id h (rw self refl)) in
      let step5 =
        subst (Step effects p w4) end1
          (finished id h one.answer one.tables (rw self refl) one.call) in
      let step6 =
        subst (Step effects p w5) end2
          (finished id h two.answer two.tables (rw self refl) two.call) in
      record {
        world = w6;
        reached =
            then_step
              (then_step
                (then_step (then_step (then_step (then_step here step1) step2) step3) step4) step5)
              step6;
        applied = ground (arith, one.more, two.more);
        domain = two.domain;
      }
