-- ===== src/Billing/Once.antt =====
-- Deliveries of provider events over any history (backend/app/billing/service.py): how often an event
-- is applied, and what becomes of one whose worker died.
use mathlib.Core.Path.{subst}
use zouseeking.Base.{
  ℕ, ◌≤◌, ◌≡◌, refl, false, some, [], String, arith, ◌==◌, string_eq, sym, if◌then◌else◌, inl, inr,
  Bool-cases, Option-cases,
}
use zouseeking.Base.Dict.{lookup, lookup-insert}
use zouseeking.Base.Rows.{sum, sum-insert_row, count, count-remove_first}
use zouseeking.Base.Table.{first_where}
use zouseeking.Base.Txn.{Outcome}
use zouseeking.Billing.Events.{
  ProviderEvent, received, EventRow, Db, failed_for, Trouble, claim_read, is_retry,
  claim_provider_event,
}
use zouseeking.Billing.Webhook.{
  RetryPolicy, fail_event, transient_billing_error, handle_claimed, handle_webhook,
}
use zouseeking.Billing.Deliveries.{
  Holding, World, holds, holding, deliver, claim_again, drop, Step, delivered, reclaimed, abandoned,
  finished, gave_up, died, Reach, here, then_step,
}
use zouseeking.Billing.Exclusive.{
  applied_for, Inv, delivered-Inv, reclaimed-Inv, abandoned-Inv, held_id, deliver_new, deliver_old,
  retry-failed, reclaim-lookup,
}
use zouseeking.Billing.Endings.{finished-Inv, failed-Inv, died-Inv}
use zouseeking.Billing.Marks.{process_event-EventApplied, fail_event-Marked}

-- An event that is being processed, by no one, and that no worker will claim again.
pub record Orphan {D : Type 0} (id : String) (w : World D) : Type 0 where
  pub row : EventRow
  pub there : lookup id w.db.events ≡ some row
  pub is : row.status ≡ received
  pub unread : count (holds id) w.reading ≡ 0
  pub unheld : count (holds id) w.working ≡ 0

module _ {D : Type 0} (effects : ProviderEvent → D → Outcome Trouble (Unit {0} × D))
    (p : RetryPolicy) where
  step-Inv : (w u : World D) → Inv w → Step effects p w u → Inv u
  step-Inv w _ v (delivered e) = delivered-Inv e w v
  step-Inv w _ v (reclaimed id h e) = reclaimed-Inv id h w e v
  step-Inv w _ v (abandoned id h e) = abandoned-Inv id h w e v
  step-Inv w _ v (finished id h a s e done_) =
      let named = held_id id w.working h e in
      subst (λ j. Inv (drop j w s)) named
        (finished-Inv h w s (subst (λ j. first_where (holds j) w.working ≡ some h) (sym named) e)
          (process_event-EventApplied effects h.event w.db s a done_) v)
  step-Inv w _ v (gave_up id h now x e) =
      let named = held_id id w.working h e in
      subst (λ j. Inv (drop j w (fail_event effects p now h.event h.attempt_count x w.db).1)) named
        (failed-Inv h w _ (subst (λ j. first_where (holds j) w.working ≡ some h) (sym named) e)
          (fail_event-Marked effects p now h.event h.attempt_count x w.db) v)
  step-Inv w _ v (died id h e) =
      let named = held_id id w.working h e in
      subst (λ j. Inv (drop j w w.db)) named
        (died-Inv h w (subst (λ j. first_where (holds j) w.working ≡ some h) (sym named) e) v)

  Reach-Inv : (w u : World D) → Inv w → Reach effects p w u → Inv u
  Reach-Inv w _ v here = v
  Reach-Inv w u v (then_step {v = m} r s) = step-Inv m u (Reach-Inv w m v r) s

  -- The tables before the first event.
  abbrev pub start : D → World D
  start d = record {
    db = record { events = []; failures = []; audits = []; domain = d };
    reading = [];
    working = [];
  }

  start-Inv : (d : D) → Inv (start d)
  unfolding lookup sum
  start-Inv d =
      λ id h. record { unfailed = refl; unread = refl; held = omega arith; applied = refl }

  -- Over any deliveries to any workers at once, some of which may die, an event of which no processing
  -- has failed is applied at most once.
  pub unfailed-applied_once :
      (d : D) (w : World D) (id : String)
      → Reach effects p (start d) w
      → count (failed_for id) w.db.failures ≡ 0
      → count (applied_for id) w.db.audits ≤ 1
  unfailed-applied_once d w id r unfailing =
      let f = Reach-Inv (start d) w (start-Inv d) r id unfailing in ground (arith, f.applied)

  -- A delivery leaves the row of another event, and an orphan, as they were.
  deliver-Orphan :
      (id : String) (e : ProviderEvent) (w : World D) → Orphan id w → Orphan id (deliver e w)
  deliver-Orphan id e w o = elim (Option-cases (lookup e.event_id w.db.events)) [
    | inl absent ↦
        let other : (e.event_id == id) ≡ false =
          ground (arith, absent, o.there, string_eq.beq_iff e.event_id id) in
        subst (Orphan id) (sym (deliver_new e w absent)) (record {
          row = o.row;
          there = ground (
            arith,
            o.there,
            other,
            lookup-insert e.event_id id (record { event_type = e.event_type; status = received })
                w.db.events,
          );
          is = o.is;
          unread = o.unread;
          unheld = ground (
            arith,
            other,
            o.unheld,
            sum-insert_row (λ x. if holds id x then 1 else 0) (holding e 1) w.working,
          );
        })
    | inr (r, there) ↦
        subst (Orphan id) (sym (deliver_old e w r there))
          (elim (Bool-cases (is_retry (claim_read e r w.db).state)) [
            | inr kept ↦ rw kept o
            | inl again ↦ rw again (record {
              row = o.row;
              there = o.there;
              is = o.is;
              unread = ground (
                arith,
                there,
                o.there,
                o.is,
                o.unread,
                retry-failed e w.db r again,
                string_eq.beq_iff e.event_id id,
                sum-insert_row (λ x. if holds id x then 1 else 0)
                    (holding e (claim_read e r w.db).attempt_count) w.reading,
              );
              unheld = o.unheld;
            })
          ])
  ]

  -- No one reads an orphan, so a retry is another event's.
  reclaim-Orphan :
      (id j : String) (w : World D) (h : Holding)
      → Orphan id w
      → first_where (holds j) w.reading ≡ some h
      → Orphan id (claim_again j h w)
  reclaim-Orphan id j w h o e =
      let less = count-remove_first (holds id) (holds j) w.reading h e in
      let other : (h.event.event_id == id) ≡ false = ground (arith, less, o.unread) in
      record {
        row = o.row;
        there =
            rw (reclaim-lookup (lookup h.event.event_id w.db.events) h.event.event_id id w.db other)
              o.there;
        is = o.is;
        unread = ground (arith, less, o.unread);
        unheld =
            ground (
              arith,
              other,
              o.unheld,
              sum-insert_row (λ x. if holds id x then 1 else 0) h w.working,
            );
      }

  -- No one holds an orphan, so an ending claim is another event's.
  drop-Orphan :
      (id j : String) (w : World D) (s : Db D) (h : Holding)
      → Orphan id w
      → first_where (holds j) w.working ≡ some h
      → ((j == id) ≡ false → lookup id s.events ≡ lookup id w.db.events)
      → Orphan id (drop j w s)
  drop-Orphan id j w s h o e kept =
      let less = count-remove_first (holds id) (holds j) w.working h e in
      let other : (j == id) ≡ false = ground (
        arith,
        less,
        o.unheld,
        held_id j w.working h e,
        string_eq.beq_iff j id,
        string_eq.beq_iff h.event.event_id id,
      ) in
      record {
        row = o.row;
        there = rw (kept other) o.there;
        is = o.is;
        unread = o.unread;
        unheld = ground (arith, less, o.unheld);
      }

  step-Orphan : (id : String) (w u : World D) → Orphan id w → Step effects p w u → Orphan id u
  step-Orphan id w _ o (delivered e) = deliver-Orphan id e w o
  step-Orphan id w _ o (reclaimed j h e) = reclaim-Orphan id j w h o e
  step-Orphan id w _ o (abandoned j h e) = record {
    row = o.row;
    there = o.there;
    is = o.is;
    unread = ground (arith, count-remove_first (holds id) (holds j) w.reading h e, o.unread);
    unheld = o.unheld;
  }
  step-Orphan id w _ o (finished j h a s e done_) =
      let applied = process_event-EventApplied effects h.event w.db s a done_ in
      drop-Orphan id j w s h o e
        (λ other. ground (arith, other, applied.events id, held_id j w.working h e))
  step-Orphan id w _ o (gave_up j h now x e) =
      let marked = fail_event-Marked effects p now h.event h.attempt_count x w.db in
      drop-Orphan id j w (fail_event effects p now h.event h.attempt_count x w.db).1 h o e
        (λ other. ground (arith, other, marked.events id, held_id j w.working h e))
  step-Orphan id w _ o (died j h e) = drop-Orphan id j w w.db h o e (λ _. refl)

  -- An orphan's delivery is refused and changes nothing.
  Orphan-refused :
      (id : String) (e : ProviderEvent) (now : ℕ) (w : World D)
      → Orphan id w
      → e.event_id ≡ id
      → handle_webhook effects p now e w.db ≡ (transient_billing_error, w.db)
  unfolding handle_webhook handle_claimed claim_provider_event claim_read
  Orphan-refused id e now w o same =
      let there : lookup e.event_id w.db.events ≡ some o.row = rw same o.there in
      rw (there, claim_provider_event) (rw o.is refl)

  -- An event whose worker died while it was `received` is processed by no later delivery: each of them
  -- is answered with the transient error and leaves the tables as they were.
  pub Orphan-stuck :
      (id : String) (w u : World D)
      → Orphan id w
      → Reach effects p w u
      → Orphan id u
        × ((e : ProviderEvent) (now : ℕ)
            → e.event_id ≡ id
            → handle_webhook effects p now e u.db ≡ (transient_billing_error, u.db))
  Orphan-stuck id w _ o here = (o, λ e now. Orphan-refused id e now w o)
  Orphan-stuck id w u o (then_step {v = m} r s) =
      let next = step-Orphan id m u (Orphan-stuck id w m o r).0 s in
      (next, λ e now. Orphan-refused id e now u next)
