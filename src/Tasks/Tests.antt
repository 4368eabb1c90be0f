-- ===== src/Tasks/Tests.antt =====
-- The theorems of the service-task modules at concrete inputs, and runs.
use zouseeking.Base.{◌≡◌, refl, true, none, some, List, [], ◌∷◌, arith}
use zouseeking.Base.Table.{update_where, first_where, insert_row, least_where, find, Distinct}
use zouseeking.Base.Txn.{and_then, raise_if, or_raise, raised}
use zouseeking.Tasks.Data.{
  matched_pending_consent, in_progress, completed, task_status_beq, ConsentStatus, granted, Role,
  Task, Consent, Db, violates, task_key,
}
use zouseeking.Tasks.Flow.{
  member_of, transitions, allowed_transition, org_among, any_org, org_ids, joined_before,
  manages_for, manager_org_for_assignment, append_history, audit, insert_application, apply_over,
  apply, withdraw, complete,
}
use zouseeking.Tasks.Admin.{
  ServiceTaskCreate, admin_create, match_application, match_task, move_task, change_status,
  admin_status,
}
use zouseeking.Tasks.Contact.{
  may_grant, grant_mutual, grant_alone, grant_over, grant_consent, grant_creator_consent,
  grant_org_consent, confirm_completion,
}
use zouseeking.Tasks.Invariant.{Coherent, follow}
use zouseeking.Tasks.History.{Operation, perform, run, run-Coherent, tables}
use zouseeking.Tasks.Completion.{completed_by, reachable, completed-by_creator, run-reachable}
use zouseeking.Tasks.Bypass.{start, started-refuses}

-- Names what a run of the workflow unfolds.
machine : Unit {0}
unfolding and_then raise_if or_raise update_where first_where insert_row least_where find member_of
    transitions allowed_transition org_among any_org org_ids joined_before manages_for
    manager_org_for_assignment append_history audit insert_application apply_over apply withdraw
    complete admin_create match_application match_task move_task change_status admin_status
    may_grant grant_mutual grant_alone grant_over grant_consent grant_creator_consent
    grant_org_consent confirm_completion perform run task_status_beq
machine = tt

-- An organization 1 with a manager 20 and a member 21.
abbrev empty : Db
empty = record {
  members =
      record {
        id = 1;
        organization_id = 1;
        user_id = 20;
        role = Role.admin;
        active = true;
        created_at = 5;
      }
      ∷ record {
        id = 2;
        organization_id = 1;
        user_id = 21;
        role = Role.member;
        active = true;
        created_at = 6;
      }
      ∷ [];
  tasks = [];
  applications = [];
  consents = [];
  history = [];
  audits = [];
  emails = λ user. some "someone@example.com";
}

empty-Coherent : Coherent empty
unfolding find Distinct follow
empty-Coherent = record {
  keyed = tt;
  logged = λ i t h. ground arith;
  unlogged = λ i user h. refl;
  one_per_org = λ i j a b h k st so. ground arith;
  one_match = λ i j a b h k m n st. ground arith;
  match_engages = λ i a h m. ground arith;
  consented = λ i. refl;
  disclosed = λ i c h d. ground arith;
}

abbrev request : ServiceTaskCreate
request = record {
  creator_user_id = some 10;
  purpose = "viewing";
  region_pref = none;
  asset_type = some "tower";
  compensation = "paid";
  public_description = "accompany a viewing";
  apply_deadline = none;
  open_at_once = true;
}

-- A task from its listing to its end: administrator 1, creator 10, manager 20, member 21.
abbrev whole_life : List Operation
whole_life =
    Operation.creates 1 100 request
    ∷ Operation.applies 20 100 21 200
    ∷ Operation.sets_status 1 100
        (record { status = some matched_pending_consent; application_id = some 200; note = none })
    ∷ Operation.creator_grants 1000 10 100
    ∷ Operation.org_grants 2000 20 100
    ∷ Operation.completes 20 100
    ∷ Operation.confirms 10 100
    ∷ []

abbrev ended : Task
ended = record {
  id = 100;
  creator_user_id = 10;
  purpose = "viewing";
  region_pref = none;
  asset_type = some "tower";
  compensation = "paid";
  public_description = "accompany a viewing";
  apply_deadline = none;
  status = completed;
}

run-whole_life : find task_key 100 (run whole_life empty).tasks ≡ some ended
unfolding machine
run-whole_life = refl

run-Coherent_example : Coherent (run whole_life empty)
run-Coherent_example = run-Coherent whole_life empty empty-Coherent

completed-by_creator_example : completed_by 100 10 (run whole_life empty).history ≡ true
completed-by_creator_example =
    completed-by_creator whole_life empty 100 ended empty-Coherent run-whole_life refl

run-reachable_example : reachable completed ≡ true
run-reachable_example = run-reachable whole_life empty 100 ended empty-Coherent run-whole_life

-- The task once the organization alone has granted.
abbrev half : Db
half =
    run
      (Operation.creates 1 100 request
        ∷ Operation.applies 20 100 21 200
        ∷ Operation.sets_status 1 100 (record {
          status = some matched_pending_consent;
          application_id = some 200;
          note = none;
        })
        ∷ Operation.org_grants 2000 20 100
        ∷ [])
      empty

abbrev consent : Consent
consent = record {
  task_id = 100;
  c_user_id = 10;
  b_organization_id = 1;
  b_member_user_id = 21;
  consent_version = "v1";
  c_status = ConsentStatus.pending;
  b_status = granted;
  granted_at = none;
  emails_visible_until = none;
  c_email_verified = none;
  b_email_verified = none;
}

started-refuses_example :
    (find task_key 100 (tables half (admin_status 1 100 (start none) half)).tasks
      ≡ some (record ended { status = in_progress }))
    × (grant_creator_consent 3000 10 100 (tables half (admin_status 1 100 (start none) half))
        ≡ raised (violates "contact_consents_granted_at_required_check"))
unfolding machine
started-refuses_example = started-refuses 1 3000 none 100 ended consent half refl refl
