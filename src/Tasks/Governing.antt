-- ===== src/Tasks/Governing.antt =====
-- The administrator's operations of the service-task workflow (backend/app/service_tasks.py) keep its
-- tables coherent.
use mathlib.Core.Path.{subst}
use zouseeking.Base.{
  String, ℕ, ◌≡◌, Bool, true, false, ◌&&◌, ◌⊎◌, Option, none, some, arith, nat_beq, is_some-none,
  refl, sym, inl, inr, Bool-cases, ◌==◌, string_eq, option_eq,
}
use zouseeking.Base.Table.{find, first_where-find, first_where-meets, find_self}
use zouseeking.Base.Txn.{ends, raises, after_done, after_check, after_found, after_call}
use zouseeking.Tasks.Data.{
  TaskStatus, draft, open_status, matched_pending_consent, completed, Task, Application, Db,
  task_key, application_key, task_status_eq, task_status_beq,
}
use zouseeking.Tasks.Admin.{
  ServiceTaskCreate, ServiceTaskStatus, initial_status, new_task, admin_create, named_application,
  match_application, match_task, move_task, change_status, admin_status,
}
use zouseeking.Tasks.Invariant.{Coherent}
use zouseeking.Tasks.Updates.{create-Sound}
use zouseeking.Tasks.Matching.{match-Sound}
use zouseeking.Tasks.Lawful.{
  allowed_transition-any, allowed_transition-engaged, append_history-Appends, audit-Audits,
}
use zouseeking.Tasks.Keeping.{Keeps, task_of-Finds, unrefused, step-Keeps}

initial_status-first : (b : Bool) → (initial_status b ≡ draft) ⊎ (initial_status b ≡ open_status)
initial_status-first true = inr refl
initial_status-first false = inl refl

audited : (u : Db) {w : Db} → w ≡ record u { audits = w.audits } → Coherent u → Coherent w
audited u e v = subst Coherent (sym e) v

pub admin_create-Keeps :
    (user id : ℕ) (body : ServiceTaskCreate) (s : Db)
    → Coherent s
    → Keeps (admin_create user id body s)
unfolding admin_create
admin_create-Keeps user id body s v = after_check _ _ λ _. after_done _ (
    after_check _ _ λ fresh. after_check _ _ λ _. after_done _ (
      after_call (append_history-Appends id none (initial_status body.open_at_once) user _ _ refl)
        λ _ u e.
          after_call (audit-Audits user _ id none (initial_status body.open_at_once) u) λ _ w f.
            ends (
              audited u f (
                subst Coherent (sym e) (
                  create-Sound s.tasks s.applications s.consents s.history (new_task id user body)
                    user (some "task created") (is_some-none fresh)
                    (initial_status-first body.open_at_once) v)))))

-- The application that a match names stands under its id, and is of the task.
pub named_application-found :
    (id : Option ℕ) (task : ℕ) (s : Db) (a : Application)
    → Coherent s
    → named_application id task s ≡ some a
    → (find application_key a.id s.applications ≡ some a) × (a.task_id ≡ task)
named_application-found none task s a v e = cc
named_application-found (some id) task s a v e = (
  first_where-find application_key _ s.applications a v.keyed e,
  ground (
    arith,
    first_where-meets (λ a. nat_beq a.id id && nat_beq a.task_id task) s.applications a e,
  ),
)

differs :
    (t : Task) → t.status ≡ open_status → (some t.status == some matched_pending_consent) ≡ false
unfolding task_status_beq
differs t e = ground arith

match_application-Keeps :
    (user : ℕ) (remark : Option String) (t : Task) (a : Application) (s : Db)
    → find task_key t.id s.tasks ≡ some t
    → (t.status == open_status) ≡ true
    → find application_key a.id s.applications ≡ some a
    → a.task_id ≡ t.id
    → Coherent s
    → Keeps (match_application user remark t a s)
unfolding match_application
match_application-Keeps user remark t a s there is_open held same v =
    let opened = (task_status_eq.beq_iff t.status open_status).0 is_open in
    after_done _ (
      after_check _ _ λ alone. after_done _ (
        after_done _ (
          after_done _ (
            after_check _ _ λ unconsented. after_done _ (
              after_call
                (append_history-Appends t.id (some t.status) matched_pending_consent user remark _
                  (differs t opened))
                λ _ u e.
                  after_call (audit-Audits user _ t.id (some t.status) matched_pending_consent u)
                    λ _ w f. ends (
                      audited u f (
                        subst Coherent (sym e) (
                          match-Sound s.tasks s.applications s.consents s.history t a user remark
                            there opened held same (is_some-none alone) (is_some-none unconsented)
                            v))))))))

match_task-Keeps :
    (user : ℕ) (body : ServiceTaskStatus) (t : Task) (s : Db)
    → find task_key t.id s.tasks ≡ some t
    → Coherent s
    → Keeps (match_task user body t s)
unfolding match_task
match_task-Keeps user body t s there v = after_check _ _ λ proper. after_done _ (
    after_found _ _ λ a e. after_check _ _ λ waiting. after_check _ _ λ _.
      let (held, same) = named_application-found body.application_id t.id s a v e in
      match_application-Keeps user body.note t a s there (ground (arith, proper)) held same v)

move_task-Keeps :
    (user : ℕ) (remark : Option String) (new : TaskStatus) (t : Task) (s : Db)
    → find task_key t.id s.tasks ≡ some t
    → (new == matched_pending_consent) ≡ false
    → Coherent s
    → Keeps (move_task user remark new t s)
unfolding move_task
move_task-Keeps user remark new t s there unmatched v = after_check _ _ λ allowed.
    after_check _ _ λ e. after_done _ (
      let lawful = unrefused e in
      step-Keeps t.id user new remark false t s _ there lawful
        (allowed_transition-any t.status new _ lawful)
        (allowed_transition-engaged t.status new false lawful unmatched allowed) v
        (λ u k.
          after_call (audit-Audits user _ t.id (some t.status) new u)
            (λ _ w f. ends (audited u f k))))

change_status-Keeps :
    (user : ℕ) (body : ServiceTaskStatus) (new : Option TaskStatus) (t : Task) (s : Db)
    → find task_key t.id s.tasks ≡ some t
    → Coherent s
    → Keeps (change_status user body new t s)
unfolding change_status
change_status-Keeps user body none t s there v = raises
change_status-Keeps user body (some new) t s there v = elim (Bool-cases (new == completed)) [
  | inl e ↦ rw e raises
  | inr e ↦ rw e (elim (Bool-cases (new == matched_pending_consent)) [
    | inl f ↦ rw f (match_task-Keeps user body t s there v)
    | inr f ↦ rw f (move_task-Keeps user body.note new t s there f v)
  ])
]

pub admin_status-Keeps :
    (user task : ℕ) (body : ServiceTaskStatus) (s : Db)
    → Coherent s
    → Keeps (admin_status user task body s)
unfolding admin_status
admin_status-Keeps user task body s v = after_call (task_of-Finds task s) λ t u (still, there).
    change_status-Keeps user body body.status t u
      (subst (λ x. find task_key t.id x.tasks ≡ some t) (sym still)
        (find_self task_key task s.tasks t there))
      (subst Coherent (sym still) v)
