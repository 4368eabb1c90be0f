-- ===== src/Tasks/Bypass.antt =====
-- A task that the administrator starts before both sides have granted (backend/app/service_tasks.py).
use zouseeking.Base.{
  ℕ, ◌≡◌, Option, none, some, arith, nat_beq, nat_beq_iff, nat_eq, refl, String, option_eq,
  string_eq,
}
use zouseeking.Base.Table.{update_where, insert_row, find, find-key, find-update_key}
use zouseeking.Base.Txn.{done, raised, and_then, raise_if, or_raise}
use zouseeking.Tasks.Data.{
  matched_pending_consent, in_progress, ConsentStatus, granted, Task, Consent, Db, violates,
  task_key, consent_key, task_status_eq, task_status_beq,
}
use zouseeking.Tasks.Flow.{allowed_transition, transitions, member_of, append_history, audit}
use zouseeking.Tasks.Admin.{ServiceTaskStatus, admin_status, change_status, move_task}
use zouseeking.Tasks.Contact.{
  may_grant, grant_alone, grant_over, grant_consent, grant_creator_consent,
}
use zouseeking.Tasks.Updates.{change}
use zouseeking.Tasks.History.{tables}

-- `admin_status` with `in_progress` and no application.
abbrev pub start : Option String → ServiceTaskStatus
start remark = record { status = some in_progress; application_id = none; note = remark }

abbrev matched_task : Task → Task
matched_task t = record t { status = matched_pending_consent }

-- Only the organization has granted.
abbrev half_granted : Consent → Consent
half_granted c = record c {
  b_status = granted;
  c_status = ConsentStatus.pending;
  granted_at = none;
}

abbrev started : ℕ → Option String → Task → Db → Db
started admin remark t s = record s {
  tasks = update_where (λ u. nat_beq u.id t.id) (λ u. record u { status = in_progress }) s.tasks;
  history =
      insert_row (change t.id (some matched_pending_consent) in_progress admin remark) s.history;
  audits =
      insert_row
        (record {
          actor_user_id = admin;
          action = "admin.service_task.status_changed";
          target_id = t.id;
          from_status = some matched_pending_consent;
          to_status = in_progress;
        })
        s.audits;
}

admin_status-started :
    (admin : ℕ) (remark : Option String) (i : ℕ) (t : Task) (s : Db)
    → find task_key i s.tasks ≡ some (matched_task t)
    → admin_status admin i (start remark) s
      ≡ done (record t { status = in_progress }, started admin remark t s)
unfolding admin_status change_status move_task append_history audit allowed_transition transitions
    member_of task_status_beq and_then raise_if or_raise
admin_status-started admin remark i t s there = rw there refl

started-task :
    (admin : ℕ) (remark : Option String) (i : ℕ) (t : Task) (s : Db)
    → find task_key i s.tasks ≡ some (matched_task t)
    → find task_key i (started admin remark t s).tasks ≡ some (record t { status = in_progress })
started-task admin remark i t s there = ground (
  arith,
  find-key task_key i s.tasks (matched_task t) there,
  find-update_key task_key (λ u. record u { status = in_progress }) (λ u. refl) t.id i s.tasks,
)

started-grant :
    (now i : ℕ) (t : Task) (c : Consent) (s : Db)
    → find task_key i s.tasks ≡ some (record t { status = in_progress })
    → find consent_key i s.consents ≡ some (half_granted c)
    → grant_creator_consent now t.creator_user_id i s
      ≡ raised (violates "contact_consents_granted_at_required_check")
unfolding grant_creator_consent grant_consent may_grant grant_over grant_alone task_status_beq
    and_then raise_if or_raise
started-grant now i t c s there held =
    rw (there, held, (nat_beq_iff t.creator_user_id t.creator_user_id).1 refl) refl

-- The administrator may start a matched task of which only the organization has granted. In the tables
-- after that step the creator's grant raises: it violates the check that a mutual grant has its time.
pub started-refuses :
    (admin now : ℕ) (remark : Option String) (i : ℕ) (t : Task) (c : Consent) (s : Db)
    → find task_key i s.tasks ≡ some (record t { status = matched_pending_consent })
    → find consent_key i s.consents
      ≡ some (record c { b_status = granted; c_status = ConsentStatus.pending; granted_at = none })
    → let s' = tables s (admin_status admin i (start remark) s) in
      (find task_key i s'.tasks ≡ some (record t { status = in_progress }))
      × (grant_creator_consent now t.creator_user_id i s'
          ≡ raised (violates "contact_consents_granted_at_required_check"))
started-refuses admin now remark i t c s there held =
    rw (admin_status-started admin remark i t s there) (
      started-task admin remark i t s there,
      started-grant now i t c (started admin remark t s) (started-task admin remark i t s there)
          held,
    )
