-- ===== src/Billing/Exclusive.antt =====
-- How often an event is processed that has not failed (backend/app/billing/service.py,
-- `handle_webhook`): the invariant of deliveries.
use mathlib.Core.Path.{subst}
use zouseeking.Base.{
  ◌∙◌, ℕ, ◌≤◌, ◌≡◌, refl, Bool, true, false, Option, none, some, List, String, arith, ◌==◌,
  string_eq, option_beq, ap, sym, if◌then◌else◌, inl, inr, Bool-cases, Option-cases,
}
use zouseeking.Base.Dict.{lookup, lookup-insert}
use zouseeking.Base.Rows.{count-remove_first, count, sum-insert_row}
use zouseeking.Base.Table.{first_where-meets, first_where, insert_row}
use zouseeking.Billing.Events.{
  ProviderEvent, received, processed, ignored, EventRow, AuditRow, Db, failed_for, claim_read,
  is_failed, is_retry, reclaim,
}
use zouseeking.Billing.Deliveries.{
  Holding, World, holds, holding, begin, read_as, deliver, claim_again, give_up,
}

abbrev pub applied_for : String → AuditRow → Bool
applied_for id r = option_beq ⦃e = string_eq⦄ r.entry.event_id (some id)

-- How many workers may process an event, and how often it has been applied.
abbrev pub max_holders : Option EventRow → ℕ
max_holders none = 0
max_holders (some r) = elim r.status [ received ↦ 1 | _ ↦ 0 ]

abbrev pub times_applied : Option EventRow → ℕ
times_applied none = 0
times_applied (some r) = elim r.status [ processed ↦ 1 | ignored ↦ 1 | _ ↦ 0 ]

abbrev pub has_failed : Option EventRow → Bool
has_failed none = false
has_failed (some r) = is_failed r.status

pub held_id :
    (id : String) (held : List Holding) (h : Holding)
    → first_where (holds id) held ≡ some h
    → h.event.event_id ≡ id
held_id id held h e =
    (string_eq.beq_iff h.event.event_id id).0 (first_where-meets (holds id) held h e)

module _ {D : Type 0} where
  -- The state of an event that has not failed.
  pub record Fair (w : World D) (id : String) : Type 0 where
    pub unfailed : has_failed (lookup id w.db.events) ≡ false
    pub unread : count (holds id) w.reading ≡ 0
    pub held : count (holds id) w.working ≤ max_holders (lookup id w.db.events)
    pub applied : count (applied_for id) w.db.audits ≡ times_applied (lookup id w.db.events)

  abbrev pub Inv : World D → Type 0
  Inv w = (id : String) → count (failed_for id) w.db.failures ≡ 0 → Fair w id

  pub deliver_new :
      (e : ProviderEvent) (w : World D)
      → lookup e.event_id w.db.events ≡ none
      → deliver e w ≡ begin e w
  unfolding deliver
  deliver_new e w h = rw (h, deliver) refl

  pub deliver_old :
      (e : ProviderEvent) (w : World D) (r : EventRow)
      → lookup e.event_id w.db.events ≡ some r
      → deliver e w ≡ read_as e (claim_read e r w.db) w
  unfolding deliver
  deliver_old e w r h = rw (h, deliver) refl

  -- Only a failed event is claimed again.
  pub retry-failed :
      (e : ProviderEvent) (s : Db D) (r : EventRow)
      → is_retry (claim_read e r s).state ≡ true
      → is_failed r.status ≡ true
  unfolding claim_read
  retry-failed e s r h = ground (arith, h)

  begin-Fair :
      (e : ProviderEvent) (w : World D) (id : String)
      → lookup e.event_id w.db.events ≡ none
      → Fair w id
      → Fair (begin e w) id
  begin-Fair e w id absent f =
      let row : EventRow = record { event_type = e.event_type; status = received } in
      let at = lookup-insert e.event_id id row w.db.events in
      let more = sum-insert_row (λ x. if holds id x then 1 else 0) (holding e 1) w.working in
      elim (Bool-cases (e.event_id == id)) [
        | inr other ↦ record {
          unfailed = ground (arith, at, other, f.unfailed);
          unread = f.unread;
          held = ground (arith, at, other, more, f.held);
          applied = ground (arith, at, other, f.applied);
        }
        | inl here ↦
            let none_yet = rw ((string_eq.beq_iff e.event_id id).0 here) at absent in
            record {
              unfailed = ground (arith, at, here);
              unread = f.unread;
              held = ground (arith, at, here, more, none_yet, f.held);
              applied = ground (arith, at, here, none_yet, f.applied);
            }
      ]

  read-Fair :
      (e : ProviderEvent) (w : World D) (r : EventRow) (id : String) (n : ℕ)
      → lookup e.event_id w.db.events ≡ some r
      → is_failed r.status ≡ true
      → Fair w id
      → Fair (record w { reading = insert_row (holding e n) w.reading }) id
  read-Fair e w r id n there failed_ f =
      let more = sum-insert_row (λ x. if holds id x then 1 else 0) (holding e n) w.reading in
      record {
        unfailed = f.unfailed;
        unread =
            ground
              (arith, more, there, failed_, f.unfailed, f.unread, string_eq.beq_iff e.event_id id);
        held = f.held;
        applied = f.applied;
      }

  pub delivered-Inv : (e : ProviderEvent) (w : World D) → Inv w → Inv (deliver e w)
  delivered-Inv e w v = elim (Option-cases (lookup e.event_id w.db.events)) [
    | inl absent ↦
        subst Inv (sym (deliver_new e w absent)) (λ id h. begin-Fair e w id absent (v id h))
    | inr (r, there) ↦
        subst Inv (sym (deliver_old e w r there))
          (elim (Bool-cases (is_retry (claim_read e r w.db).state)) [
            | inr kept ↦ rw kept v
            | inl again ↦ rw again (λ id h.
                read-Fair e w r id (claim_read e r w.db).attempt_count there
                  (retry-failed e w.db r again) (v id h))
          ])
  ]

  -- The update of a retry leaves the rows of other events, and records nothing.
  pub reclaim-lookup :
      (o : Option EventRow) (id i : String) (s : Db D)
      → (id == i) ≡ false
      → lookup i (reclaim o id s).events ≡ lookup i s.events
  unfolding reclaim
  reclaim-lookup none id i s other = refl
  reclaim-lookup (some r) id i s other =
      ground (arith, other, lookup-insert id i (record r { status = received }) s.events)

  pub reclaim-kept :
      (o : Option EventRow) (id : String) (s : Db D)
      → ((reclaim o id s).audits ≡ s.audits) × ((reclaim o id s).failures ≡ s.failures)
  unfolding reclaim
  reclaim-kept none id s = (refl, refl)
  reclaim-kept (some r) id s = ground arith

  pub reclaimed-Inv :
      (j : String) (h : Holding) (w : World D)
      → first_where (holds j) w.reading ≡ some h
      → Inv w
      → Inv (claim_again j h w)
  reclaimed-Inv j h w read v = λ id unfailing.
      let o = lookup h.event.event_id w.db.events in
      let kept = reclaim-kept o h.event.event_id w.db in
      let f = v id (ap (count (failed_for id)) (sym kept.1) ∙ unfailing) in
      let less = count-remove_first (holds id) (holds j) w.reading h read in
      let more = sum-insert_row (λ x. if holds id x then 1 else 0) h w.working in
      let other : (h.event.event_id == id) ≡ false = ground (arith, less, f.unread) in
      let at = reclaim-lookup o h.event.event_id id w.db other in
      record {
        unfailed = rw at f.unfailed;
        unread = ground (arith, less, f.unread);
        held = ground (arith, at, other, more, f.held);
        applied = rw (at, kept.0) f.applied;
      }

  pub abandoned-Inv :
      (j : String) (h : Holding) (w : World D)
      → first_where (holds j) w.reading ≡ some h
      → Inv w
      → Inv (give_up j w)
  abandoned-Inv j h w read v = λ id unfailing.
      let f = v id unfailing in
      record {
        unfailed = f.unfailed;
        unread = ground (arith, count-remove_first (holds id) (holds j) w.reading h read, f.unread);
        held = f.held;
        applied = f.applied;
      }
