-- ===== src/Tasks/Invariant.antt =====
-- What holds of the service-task tables (backend/app/service_tasks.py) between transactions.
use zouseeking.Base.{
  ℕ, ◌≡◌, Bool, true, false, ◌&&◌, ◌||◌, Option, none, some, List, [], ◌∷◌, arith, nat_beq,
  if◌then◌else◌, option_beq, is_some, refl,
}
use zouseeking.Base.Table.{insert_row, find, Distinct}
use zouseeking.Tasks.Data.{
  TaskStatus, draft, open_status, matched_pending_consent, in_progress, completion_pending,
  completed, task_status_eq, is_matched, is_granted, Task, Application, Consent, Change, Db,
  task_key, application_key, consent_key,
}
use zouseeking.Tasks.Flow.{allowed_transition}

-- The statuses of a task that has an organization.
unfoldable pub engaged : TaskStatus → Bool
engaged matched_pending_consent = true
engaged in_progress = true
engaged completion_pending = true
engaged completed = true
engaged _ = false

abbrev pub engaged_at : Option Task → Bool
engaged_at none = false
engaged_at (some t) = engaged t.status

-- Whether the history's row is a lawful step from the status before it: a task begins as a draft or
-- open, and then follows TRANSITIONS, its completion made by the creator.
abbrev pub lawful_from : ℕ → Option TaskStatus → Change → Bool
lawful_from creator none c =
    task_status_eq.beq c.to_status draft || task_status_eq.beq c.to_status open_status
lawful_from creator (some old) c =
    allowed_transition old c.to_status (nat_beq c.changed_by_user_id creator)

unfoldable pub lawful : ℕ → Option TaskStatus → Change → Bool
lawful creator old c = option_beq old c.from_status && lawful_from creator old c

-- The status in which the history leaves the task `i`, or `none` if a step of it is not lawful.
unfoldable pub follow : ℕ → ℕ → Option TaskStatus → List Change → Option (Option TaskStatus)
follow i creator status [] = some status
follow i creator status (c ∷ history) =
    if nat_beq c.task_id i
    then (if lawful creator status c then follow i creator (some c.to_status) history else none)
    else follow i creator status history

abbrev pub follow_one : ℕ → ℕ → Option (Option TaskStatus) → Change → Option (Option TaskStatus)
follow_one i creator none c = none
follow_one i creator (some status) c =
    if nat_beq c.task_id i
    then (if lawful creator status c then some (some c.to_status) else none)
    else some status

pub follow-insert_row :
    (i creator : ℕ) (status : Option TaskStatus) (c : Change) (history : List Change)
    → follow i creator status (insert_row c history)
      ≡ follow_one i creator (follow i creator status history) c
unfolding follow insert_row
follow-insert_row i creator status c [] = refl
follow-insert_row i creator status c (d ∷ history) = ground (
  arith,
  follow-insert_row i creator status c history,
  follow-insert_row i creator (some d.to_status) c history,
)

abbrev pub both_granted : Consent → Bool
both_granted c = is_granted c.c_status && (is_granted c.b_status && is_some c.granted_at)

abbrev pub discloses : Consent → Bool
discloses c = is_some c.c_email_verified || is_some c.b_email_verified

pub record Sound (tasks : List Task) (applications : List Application) (consents : List Consent)
    (history : List Change) : Type 0 where
  pub keyed : Distinct application_key applications
  -- A task's status is where its history leads, by lawful steps only.
  pub logged :
      (i : ℕ) (t : Task)
      → find task_key i tasks ≡ some t
      → follow i t.creator_user_id none history ≡ some (some t.status)
  pub unlogged :
      (i creator : ℕ) → find task_key i tasks ≡ none → follow i creator none history ≡ some none
  -- One application of an organization to a task.
  pub one_per_org :
      (i j : ℕ) (a b : Application)
      → find application_key i applications ≡ some a
      → find application_key j applications ≡ some b
      → a.task_id ≡ b.task_id
      → a.organization_id ≡ b.organization_id
      → i ≡ j
  -- One matched application of a task, and only of an engaged one.
  pub one_match :
      (i j : ℕ) (a b : Application)
      → find application_key i applications ≡ some a
      → find application_key j applications ≡ some b
      → is_matched a.status ≡ true
      → is_matched b.status ≡ true
      → a.task_id ≡ b.task_id
      → i ≡ j
  pub match_engages :
      (i : ℕ) (a : Application)
      → find application_key i applications ≡ some a
      → is_matched a.status ≡ true
      → engaged_at (find task_key a.task_id tasks) ≡ true
  -- A consent is kept of the engaged tasks.
  pub consented :
      (i : ℕ) → is_some (find consent_key i consents) ≡ engaged_at (find task_key i tasks)
  -- An email is stored only under the grants of both sides and the time of the second.
  pub disclosed :
      (i : ℕ) (c : Consent)
      → find consent_key i consents ≡ some c
      → discloses c ≡ true
      → both_granted c ≡ true

abbrev pub Coherent : Db → Type 0
Coherent s = Sound s.tasks s.applications s.consents s.history
