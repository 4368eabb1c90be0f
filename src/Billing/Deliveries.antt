-- ===== src/Billing/Deliveries.antt =====
-- Deliveries of provider events to workers that run at once (backend/app/billing/service.py and
-- store.py). The claim of a failed event is two steps: without a row lock another transaction may come
-- between the reads of `claim_provider_event` and its update. The insert of a new event and the other
-- transactions are one step each.
use zouseeking.Base.{ℕ, ◌≡◌, Bool, none, some, List, String, ◌==◌, string_eq, if◌then◌else◌}
use zouseeking.Base.Dict.{lookup}
use zouseeking.Base.Rows.{remove_first}
use zouseeking.Base.Table.{first_where, insert_row}
use zouseeking.Base.Txn.{Outcome, done}
use zouseeking.Billing.Events.{
  ProviderEvent, Db, EventClaim, Trouble, claim_read, reclaim, inserted, is_retry,
}
use zouseeking.Billing.Webhook.{RetryPolicy, Answer, process_event, fail_event}

-- A worker's claim, with the attempt that it read.
pub record Holding : Type 0 where
  pub event : ProviderEvent
  pub attempt_count : ℕ

-- `reading` are the workers that will claim a failed event again, `working` those that process one.
pub record World (D : Type 0) : Type 0 where
  pub db : Db D
  pub reading : List Holding
  pub working : List Holding

abbrev pub holds : String → Holding → Bool
holds id h = h.event.event_id == id

abbrev pub holding : ProviderEvent → ℕ → Holding
holding e n = record { event = e; attempt_count = n }

module _ {D : Type 0} where
  -- The first delivery of an event: its worker processes it.
  abbrev pub begin : ProviderEvent → World D → World D
  begin e w = record w { db = inserted e w.db; working = insert_row (holding e 1) w.working }

  -- A delivery that has read the claim: only a retry goes on.
  abbrev pub read_as : ProviderEvent → EventClaim → World D → World D
  read_as e claim w =
      if is_retry claim.state
      then record w { reading = insert_row (holding e claim.attempt_count) w.reading }
      else w

  -- A delivery, up to the update of a retry.
  unfoldable pub deliver : ProviderEvent → World D → World D
  deliver e w = elim (lookup e.event_id w.db.events) [
    | none ↦ begin e w
    | some r ↦ read_as e (claim_read e r w.db) w
  ]

  -- The update of a retry, after which its worker processes the event.
  abbrev pub claim_again : String → Holding → World D → World D
  claim_again id h w = record {
    db = reclaim (lookup h.event.event_id w.db.events) h.event.event_id w.db;
    reading = remove_first (holds id) w.reading;
    working = insert_row h w.working;
  }

  abbrev pub drop : String → World D → Db D → World D
  drop id w s = record w { db = s; working = remove_first (holds id) w.working }

  abbrev pub give_up : String → World D → World D
  give_up id w = record w { reading = remove_first (holds id) w.reading }

-- One transaction, one part of a claim, or the end of a worker that is interrupted. A processing may
-- meet any trouble, as the database may fail it.
pub data Step {D : Type 0} (effects : ProviderEvent → D → Outcome Trouble (Unit {0} × D))
    (p : RetryPolicy) (w : World D) : World D → Type 0 where
  delivered : (e : ProviderEvent) → Step effects p w (deliver e w)
  reclaimed :
      (id : String) (h : Holding)
      → first_where (holds id) w.reading ≡ some h
      → Step effects p w (claim_again id h w)
  abandoned :
      (id : String) (h : Holding)
      → first_where (holds id) w.reading ≡ some h
      → Step effects p w (give_up id w)
  finished :
      (id : String) (h : Holding) (a : Answer) (s : Db D)
      → first_where (holds id) w.working ≡ some h
      → process_event effects h.event w.db ≡ done (a, s)
      → Step effects p w (drop id w s)
  gave_up :
      (id : String) (h : Holding) (now : ℕ) (t : Trouble)
      → first_where (holds id) w.working ≡ some h
      → Step effects p w (drop id w (fail_event effects p now h.event h.attempt_count t w.db).1)
  died :
      (id : String) (h : Holding)
      → first_where (holds id) w.working ≡ some h
      → Step effects p w (drop id w w.db)

-- Histories, the last step outermost.
pub data Reach {D : Type 0} (effects : ProviderEvent → D → Outcome Trouble (Unit {0} × D))
    (p : RetryPolicy) (w : World D) : World D → Type 0 where
  here : Reach effects p w w
  then_step : {v u : World D} → Reach effects p w v → Step effects p v u → Reach effects p w u
