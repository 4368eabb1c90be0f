-- ===== src/Tasks/Keeping.antt =====
-- Each operation of the service-task workflow (backend/app/service_tasks.py) keeps its tables
-- coherent.
use mathlib.Core.Path.{subst}
use zouseeking.Base.{
  ℕ, ◌≡◌, Bool, true, false, not, Option, none, some, arith, nat_beq, is_some-none, refl, sym, ◌∙◌,
  String, inl, inr, Bool-cases, string_eq, nat_eq, option_eq,
}
use zouseeking.Base.Table.{update_where, find}
use zouseeking.Base.Txn.{
  Ensures, ends, raises, after_done, after_check, after_found, after_call, found, Outcome, and_then,
}
use zouseeking.Tasks.Data.{
  TaskStatus, completion_pending, completed, Task, Application, Db, task_key, task_status_eq,
  task_status_beq, is_pending, is_withdrawn, is_terminal_application, Fault,
}
use zouseeking.Tasks.Flow.{
  allowed_transition, org_ids, manager_org_for_assignment, apply, apply_over, insert_application,
  withdraw, complete, append_history, Call, task_of,
}
use zouseeking.Tasks.Contact.{confirm_completion}
use zouseeking.Tasks.Invariant.{engaged, Coherent}
use zouseeking.Tasks.Lawful.{
  allowed_transition-differs, allowed_transition-any, allowed_transition-engaged,
  append_history-Appends,
}
use zouseeking.Tasks.Updates.{move-Sound, submit-Sound, withdraw-Sound}

-- What an operation does to coherent tables.
abbrev pub Keeps : {A : Type 0} → Outcome Fault (A × Db) → Type 0
Keeps = Ensures (λ _ t. Coherent t)

-- A transaction that only reads.
abbrev pub Reads : {A : Type 0} → Db → Outcome Fault (A × Db) → Type 0
Reads s = Ensures (λ _ t. t ≡ s)

pub task_of-Finds :
    (task : ℕ) (s : Db)
    → Ensures (λ t u. (u ≡ s) × (find task_key task s.tasks ≡ some t)) (task_of task s)
task_of-Finds task s = after_done _ (found _ _ λ t e. (refl, e))

pub org_ids-Reads : (user : ℕ) (managers : Bool) (s : Db) → Reads s (org_ids user managers s)
unfolding org_ids
org_ids-Reads user managers s = after_done _ (after_check _ _ (λ _. ends refl))

pub manager_org-Reads :
    (user assigned : ℕ) (s : Db) → Reads s (manager_org_for_assignment user assigned s)
unfolding manager_org_for_assignment
manager_org-Reads user assigned s = after_done _ (after_found _ _ (λ _ _. ends refl))

pub unrefused : {b : Bool} → not b ≡ false → b ≡ true
unrefused {b = true} h = refl
unrefused {b = false} h = cc

insert_application-Keeps :
    (id task group assigned : ℕ) (s : Db)
    → Coherent s
    → Keeps (insert_application id task group assigned s)
unfolding insert_application
insert_application-Keeps id task group assigned s v = after_done _ (
    after_check _ _ λ fresh. after_done _ (
      after_check _ _ λ alone. after_done _ (
        ends (
          submit-Sound s.tasks s.applications s.consents s.history id task group assigned
            (is_some-none fresh) (is_some-none alone) v))))

apply_over-Keeps :
    (id task group assigned : ℕ) (o : Option Application) (s : Db)
    → Coherent s
    → Keeps (apply_over id task group assigned o s)
unfolding apply_over
apply_over-Keeps id task group assigned none s v =
    insert_application-Keeps id task group assigned s v
apply_over-Keeps id task group assigned (some a) s v = elim (Bool-cases (is_pending a.status)) [
  | inl waiting ↦ rw waiting (ends v)
  | inr e ↦ rw e (elim (Bool-cases (is_terminal_application a.status)) [
    | inl ended ↦ rw ended raises
    | inr e' ↦ rw e' (insert_application-Keeps id task group assigned s v)
  ])
]

pub apply-Keeps :
    (user task assigned id : ℕ) (s : Db) → Coherent s → Keeps (apply user task assigned id s)
unfolding apply
apply-Keeps user task assigned id s v =
    after_call (manager_org-Reads user assigned s) λ group t same.
      after_call (task_of-Finds task t) λ row u (still, _). after_check _ _ λ _.
        after_done _
          (apply_over-Keeps id task group assigned _ u (subst Coherent (sym (still ∙ same)) v))

pub withdraw-Keeps : (user task : ℕ) (s : Db) → Coherent s → Keeps (withdraw user task s)
unfolding withdraw
withdraw-Keeps user task s v = after_call (org_ids-Reads user true s) λ orgs u same. after_done _ (
    after_done _ (
      after_found _ _ λ t there. after_found _ _ λ a held.
        elim (Bool-cases (is_withdrawn a.status)) [
          | inl gone ↦ rw gone (ends (subst Coherent (sym same) v))
          | inr e ↦ rw e (
              after_check _ _ λ allowed. after_done _ (
                ends (
                  withdraw-Sound u.tasks u.applications u.consents u.history a.id
                    (subst Coherent (sym same) v))))
        ]))

-- A step of a task along TRANSITIONS and its row of the history.
pub step-Keeps :
    {A : Type 0} (task actor : ℕ) (new : TaskStatus) (remark : Option String) (by_creator : Bool)
    (t : Task) (s : Db) (f : Unit {0} → Call A)
    → find task_key task s.tasks ≡ some t
    → allowed_transition t.status new by_creator ≡ true
    → allowed_transition t.status new (nat_beq actor t.creator_user_id) ≡ true
    → engaged new ≡ engaged t.status
    → Coherent s
    → ((u : Db) → Coherent u → Keeps (f tt u))
    → Keeps (
        and_then f (
          append_history task (some t.status) new actor remark (record s {
            tasks = update_where (λ t. nat_beq t.id task) (λ t. record t { status = new }) s.tasks;
          })))
step-Keeps task actor new remark by_creator t s f there lawful allowed same v rest =
    after_call
      (append_history-Appends task (some t.status) new actor remark _
        (allowed_transition-differs t.status new by_creator lawful))
      λ _ u e. rest u (
        subst Coherent (sym e) (
          move-Sound s.tasks s.applications s.consents s.history task actor t new remark there
            allowed same v))

pub complete-Keeps : (user task : ℕ) (s : Db) → Coherent s → Keeps (complete user task s)
unfolding complete task_status_beq
complete-Keeps user task s v = after_call (org_ids-Reads user true s) λ orgs u same. after_done _ (
    after_found _ _ λ a held. after_call (task_of-Finds task u) λ t w (still, there).
      after_check _ _ λ e. after_done _ (
        let lawful = unrefused e in
        step-Keeps task user completion_pending _ false t w _
          (subst (λ x. find task_key task x.tasks ≡ some t) (sym still) there) lawful
          (allowed_transition-any t.status completion_pending _ lawful)
          (allowed_transition-engaged t.status completion_pending false lawful refl refl)
          (subst Coherent (sym (still ∙ same)) v) (λ x k. ends k)))

pub confirm_completion-Keeps :
    (user task : ℕ) (s : Db) → Coherent s → Keeps (confirm_completion user task s)
unfolding confirm_completion task_status_beq
confirm_completion-Keeps user task s v = after_call (task_of-Finds task s) λ t w (still, there).
    after_check _ _ λ mine. after_check _ _ λ e. after_done _ (
      let lawful = unrefused e in
      step-Keeps task user completed _ true t w _
        (subst (λ x. find task_key task x.tasks ≡ some t) (sym still) there) lawful
        (ground (arith, lawful, mine))
        (allowed_transition-engaged t.status completed true lawful refl refl)
        (subst Coherent (sym still) v) (λ x k. ends k))
