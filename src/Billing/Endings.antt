-- ===== src/Billing/Endings.antt =====
-- How a claim on a provider event ends (backend/app/billing/service.py and store.py), and the invariant
-- of deliveries after it.
use zouseeking.Base.{◌∙◌, sym, ap, false, ◌≡◌, some, arith, ◌==◌, string_eq, if◌then◌else◌}
use zouseeking.Base.Rows.{sum, count, sum-insert_row, count-remove_first}
use zouseeking.Base.Table.{first_where}
use zouseeking.Billing.Events.{Db, failed_for}
use zouseeking.Billing.Deliveries.{Holding, World, holds, drop}
use zouseeking.Billing.Exclusive.{applied_for, Inv}
use zouseeking.Billing.Marks.{EventApplied, Marked}

module _ {D : Type 0} where
  -- The claim ends with its event applied.
  pub finished-Inv :
      (h : Holding) (w : World D) (s : Db D)
      → first_where (holds h.event.event_id) w.working ≡ some h
      → EventApplied h.event w.db s
      → Inv w
      → Inv (drop h.event.event_id w s)
  finished-Inv h w s held done_ v = λ id unfailing.
      let e = h.event in
      let f = v id (ap (count (failed_for id)) (sym done_.failures) ∙ unfailing) in
      let at = done_.events id in
      let less = count-remove_first (holds id) (holds e.event_id) w.working h held in
      let more = sum-insert_row (λ x. if applied_for id x then 1 else 0) done_.row w.db.audits in
      let same = string_eq.beq_iff e.event_id id in
      let self = string_eq.beq_iff e.event_id e.event_id in
      let final = done_.final in
      record {
        unfailed = ground (arith, at, less, same, self, f.unfailed, f.held, final);
        unread = f.unread;
        held = ground (arith, at, less, same, self, f.held, final);
        applied =
            rw done_.audits
              (ground (arith, at, more, less, same, self, done_.entry, f.held, f.applied, final));
      }

  -- The claim ends with a failure recorded.
  pub failed-Inv :
      (h : Holding) (w : World D) (s : Db D)
      → first_where (holds h.event.event_id) w.working ≡ some h
      → Marked h.event.event_id w.db s
      → Inv w
      → Inv (drop h.event.event_id w s)
  failed-Inv h w s held m v = λ id unfailing.
      let e = h.event in
      let other : (e.event_id == id) ≡ false =
        unfold sum in ground (arith, rw m.failures at unfailing, m.named) in
      let f = v id (unfold sum in ground (arith, rw m.failures at unfailing, m.named, other)) in
      let at = m.events id in
      let less = count-remove_first (holds id) (holds e.event_id) w.working h held in
      record {
        unfailed = ground (arith, at, other, f.unfailed);
        unread = f.unread;
        held = ground (arith, at, other, less, f.held);
        applied = rw m.audits (ground (arith, at, other, f.applied));
      }

  pub died-Inv :
      (h : Holding) (w : World D)
      → first_where (holds h.event.event_id) w.working ≡ some h
      → Inv w
      → Inv (drop h.event.event_id w w.db)
  died-Inv h w held v = λ id unfailing.
      let f = v id unfailing in
      record {
        unfailed = f.unfailed;
        unread = f.unread;
        held = ground (
          arith,
          count-remove_first (holds id) (holds h.event.event_id) w.working h held,
          f.held,
        );
        applied = f.applied;
      }
