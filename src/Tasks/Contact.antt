-- ===== src/Tasks/Contact.antt =====
-- Consent to exchange contacts, and the creator's confirmation (backend/app/service_tasks.py).
use zouseeking.Base.{
  ℕ, ◌+◌, String, Bool, true, false, not, ◌&&◌, Option, none, some, nat_beq, if◌then◌else◌, ◌==◌,
  is_some,
}
use zouseeking.Base.Table.{update_where, find}
use zouseeking.Base.Txn.{pure, ◌>>=◌, ◌>>◌, select, write, raise_if, or_raise}
use zouseeking.Tasks.Data.{
  TaskStatus, matched_pending_consent, in_progress, completed, task_status_eq, ConsentStatus,
  granted, is_granted, Task, Consent, http, violates, task_key, consent_key,
}
use zouseeking.Tasks.Flow.{Call, require_transition, append_history, task_of, set_status, org_ids}

-- `actor: Literal["creator", "org"]`
pub data Side : Type 0 where
  creator org : Side

-- `consent[field]` and `consent[other_field]`
abbrev pub own_status : Side → Consent → ConsentStatus
own_status creator c = c.c_status
own_status org c = c.b_status

abbrev pub other_status : Side → Consent → ConsentStatus
other_status creator c = c.b_status
other_status org c = c.c_status

abbrev pub grant_field : Side → Consent → Consent
grant_field creator c = record c { c_status = granted }
grant_field org c = record c { b_status = granted }

abbrev pub coalesce : Option ℕ → ℕ → Option ℕ
coalesce none d = some d
coalesce (some a) d = some a

-- The first update of `_grant_consent`, 30 days being 2592000 seconds.
abbrev pub disclose : ℕ → (ℕ → Option String) → Side → Consent → Consent
disclose now emails side c = record (grant_field side c) {
  granted_at = coalesce c.granted_at now;
  emails_visible_until = coalesce c.emails_visible_until (now + 2592000);
  c_email_verified = emails c.c_user_id;
  b_email_verified = emails c.b_member_user_id;
}

abbrev pub set_consent : ℕ → (Consent → Consent) → Call (Unit {0})
set_consent task f =
    write (λ s. record s { consents = update_where (λ c. nat_beq c.task_id task) f s.consents })

-- Who may grant for which side.
unfoldable pub may_grant : Side → ℕ → Task → Consent → Call (Unit {0})
may_grant creator user t c =
    raise_if (not (nat_beq t.creator_user_id user)) (http 403 "task creator access required")
may_grant org user t c = do
  orgs ← org_ids user true
  raise_if (not (orgs c.b_organization_id)) (http 403 "matched organization access required")

-- The answer: the task's status, and whether the side had granted before.
pub record Granted : Type 0 where
  pub status : TaskStatus
  pub idempotent : Bool

-- The second grant of a match: contacts are disclosed and the task begins.
unfoldable pub grant_mutual : ℕ → Side → ℕ → Task → Consent → Call Granted
grant_mutual now side user t c = do
  emails ← select (λ s. s.emails)
  set_consent t.id (disclose now emails side)
  set_status t.id in_progress
  append_history t.id (some t.status) in_progress user (some "mutual contact consent granted")
  pure (record { status = in_progress; idempotent = false })

-- contact_consents_granted_at_required_check
abbrev pub lacks_grant_time : Consent → Bool
lacks_grant_time c = is_granted c.c_status && (is_granted c.b_status && not (is_some c.granted_at))

-- The last update of `_grant_consent`, under the table's check.
unfoldable pub grant_alone : Side → Task → Consent → Call Granted
grant_alone side t c = do
  raise_if (lacks_grant_time (grant_field side c))
      (violates "contact_consents_granted_at_required_check")
  set_consent t.id (grant_field side)
  pure (record { status = t.status; idempotent = false })

unfoldable pub grant_over : ℕ → Side → ℕ → Task → Consent → Call Granted
grant_over now side user t c =
    if is_granted (own_status side c)
    then pure (record { status = t.status; idempotent = true })
    else if is_granted (other_status side c) && (t.status == matched_pending_consent)
    then grant_mutual now side user t c
    else grant_alone side t c

-- `_grant_consent` at the time `now`.
unfoldable pub grant_consent : ℕ → Side → ℕ → ℕ → Call Granted
grant_consent now side user task = do
  consent ← select (λ s. find consent_key task s.consents)
  row ← select (λ s. find task_key task s.tasks)
  t ← or_raise row (http 404 "matched task not found")
  c ← or_raise consent (http 404 "matched task not found")
  may_grant side user t c
  grant_over now side user t c

unfoldable pub grant_creator_consent : ℕ → ℕ → ℕ → Call Granted
grant_creator_consent now user task = grant_consent now creator user task

unfoldable pub grant_org_consent : ℕ → ℕ → ℕ → Call Granted
grant_org_consent now user task = grant_consent now org user task

-- `confirm_completion`
unfoldable pub confirm_completion : ℕ → ℕ → Call TaskStatus
confirm_completion user task = do
  t ← task_of task
  raise_if (not (nat_beq t.creator_user_id user)) (http 403 "task creator access required")
  require_transition t.status completed true
  set_status task completed
  append_history task (some t.status) completed user (some "creator confirmed completion")
  pure completed
