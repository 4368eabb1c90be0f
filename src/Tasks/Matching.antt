-- ===== src/Tasks/Matching.antt =====
-- A match of the service-task workflow (backend/app/service_tasks.py): the writes that engage a task.
use zouseeking.Base.{
  ℕ, ◌≡◌, Option, none, some, List, arith, nat_beq, nat_beq_iff, refl, String, inl, inr,
  Option-cases,
}
use zouseeking.Base.Table.{
  update_where, first_where, insert_row, find, find-update_key, find-insert_row,
  Distinct-update_where, first_where-absent,
}
use zouseeking.Tasks.Data.{
  open_status, matched_pending_consent, ApplicationStatus, Task, Application, Consent, Change,
  task_key, application_key, consent_key, task_status_eq, task_status_beq,
}
use zouseeking.Tasks.Flow.{allowed_transition, transitions, member_of}
use zouseeking.Tasks.Admin.{matched_for, new_consent}
use zouseeking.Tasks.Invariant.{engaged, follow-insert_row, lawful, Sound}
use zouseeking.Tasks.Updates.{change}

pub match-Sound :
    (tasks : List Task) (applications : List Application) (consents : List Consent)
    (history : List Change) (t : Task) (a : Application) (actor : ℕ) (remark : Option String)
    → find task_key t.id tasks ≡ some t
    → t.status ≡ open_status
    → find application_key a.id applications ≡ some a
    → a.task_id ≡ t.id
    → first_where (matched_for t.id) applications ≡ none
    → find consent_key t.id consents ≡ none
    → Sound tasks applications consents history
    → Sound
        (update_where
          (λ u. nat_beq u.id t.id)
          (λ u. record u { status = matched_pending_consent })
          tasks)
        (update_where
          (λ b. nat_beq b.id a.id)
          (λ b. record b { status = ApplicationStatus.matched })
          applications)
        (insert_row (new_consent t a) consents)
        (insert_row (change t.id (some t.status) matched_pending_consent actor remark) history)
unfolding lawful engaged allowed_transition transitions member_of task_status_beq
match-Sound tasks applications consents history t a actor remark ht is_open ha same alone
      unconsented v =
    let f : Application → Application = λ b. record b { status = ApplicationStatus.matched } in
    let g : Task → Task = λ u. record u { status = matched_pending_consent } in
    let c = change t.id (some t.status) matched_pending_consent actor remark in
    let app = λ (j : ℕ). find-update_key application_key f (λ b. refl) a.id j applications in
    let task = λ (j : ℕ). find-update_key task_key g (λ u. refl) t.id j tasks in
    let consent = λ (j : ℕ). find-insert_row consent_key j (new_consent t a) consents unconsented in
    record {
      keyed =
          Distinct-update_where application_key (λ b. nat_beq b.id a.id) f (λ b. refl) applications
            v.keyed;
      logged = λ j u h. ground (
        arith,
        task j,
        nat_beq_iff t.id j,
        follow-insert_row j u.creator_user_id none c history,
        v.logged j u,
        v.logged t.id t ht,
        task_status_eq.beq_iff t.status t.status,
      );
      unlogged = λ j creator h. ground (
        arith,
        task j,
        nat_beq_iff t.id j,
        follow-insert_row j creator none c history,
        v.unlogged j creator,
      );
      one_per_org = λ i j b d hb hd st so.
          elim (Option-cases (find application_key i applications)) [
            | inl absent ↦ ground (arith, app i)
            | inr (b', eb) ↦ elim (Option-cases (find application_key j applications)) [
              | inl absent ↦ ground (arith, app j)
              | inr (d', ed) ↦ ground (arith, app i, app j, v.one_per_org i j b' d' eb ed)
            ]
          ];
      one_match = λ i j b d hb hd mb md st.
          elim (Option-cases (find application_key i applications)) [
            | inl absent ↦ ground (arith, app i)
            | inr (b', eb) ↦ elim (Option-cases (find application_key j applications)) [
              | inl absent ↦ ground (arith, app j)
              | inr (d', ed) ↦ ground (
                arith,
                app i,
                app j,
                nat_beq_iff a.id i,
                nat_beq_iff a.id j,
                v.one_match i j b' d' eb ed,
                first_where-absent application_key (matched_for t.id) i applications b' alone eb,
                first_where-absent application_key (matched_for t.id) j applications d' alone ed,
              )
            ]
          ];
      match_engages = λ i b h m. elim (Option-cases (find application_key i applications)) [
        | inl absent ↦ ground (arith, app i)
        | inr (b', eb) ↦ ground (
          arith,
          app i,
          nat_beq_iff a.id i,
          task b.task_id,
          nat_beq_iff t.id b.task_id,
          v.match_engages i b' eb,
        )
      ];
      consented = λ j. ground (arith, consent j, task j, nat_beq_iff t.id j, v.consented j);
      disclosed = λ j d h e. ground (arith, consent j, v.disclosed j d);
    }
