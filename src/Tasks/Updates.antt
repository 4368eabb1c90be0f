-- ===== src/Tasks/Updates.antt =====
-- Each kind of write of the service-task workflow keeps its tables coherent.
use zouseeking.Base.{
  ℕ, ◌≡◌, true, Option, none, some, List, arith, nat_beq, nat_beq_iff, refl, String, ◌⊎◌, inl, inr,
  Option-cases,
}
use zouseeking.Base.Table.{
  update_where, first_where, insert_row, find, find-update_key, find-insert_row,
  Distinct-update_where, Distinct-insert_row, first_where-absent,
}
use zouseeking.Tasks.Data.{
  TaskStatus, draft, open_status, ApplicationStatus, Task, Application, Consent, Change, task_key,
  application_key, consent_key, task_status_eq,
}
use zouseeking.Tasks.Flow.{allowed_transition, for_task_and_org, new_application}
use zouseeking.Tasks.Invariant.{engaged, follow-insert_row, lawful, both_granted, discloses, Sound}

abbrev pub change : ℕ → Option TaskStatus → TaskStatus → ℕ → Option String → Change
change task old new actor remark = record {
  task_id = task;
  from_status = old;
  to_status = new;
  changed_by_user_id = actor;
  note = remark;
}

module _ (tasks : List Task) (applications : List Application) (consents : List Consent)
    (history : List Change) where
  -- A lawful step that leaves the task engaged or not as it was.
  pub move-Sound :
      (i actor : ℕ) (t : Task) (new : TaskStatus) (remark : Option String)
      → find task_key i tasks ≡ some t
      → allowed_transition t.status new (nat_beq actor t.creator_user_id) ≡ true
      → engaged new ≡ engaged t.status
      → Sound tasks applications consents history
      → Sound
          (update_where (λ t. nat_beq t.id i) (λ t. record t { status = new }) tasks)
          applications
          consents
          (insert_row (change i (some t.status) new actor remark) history)
  unfolding lawful
  move-Sound i actor t new remark found allowed same v = record {
    keyed = v.keyed;
    logged = λ j u h. ground (
      arith,
      find-update_key task_key (λ t. record t { status = new }) (λ t. refl) i j tasks,
      nat_beq_iff i j,
      follow-insert_row j u.creator_user_id none (change i (some t.status) new actor remark)
          history,
      v.logged j u,
      v.logged i t found,
      task_status_eq.beq_iff t.status t.status,
    );
    unlogged = λ j creator h. ground (
      arith,
      find-update_key task_key (λ t. record t { status = new }) (λ t. refl) i j tasks,
      follow-insert_row j creator none (change i (some t.status) new actor remark) history,
      v.unlogged j creator,
      nat_beq_iff i j,
    );
    one_per_org = v.one_per_org;
    one_match = v.one_match;
    match_engages = λ k a h m. ground (
      arith,
      find-update_key task_key (λ t. record t { status = new }) (λ t. refl) i a.task_id tasks,
      nat_beq_iff i a.task_id,
      v.match_engages k a h m,
    );
    consented = λ j. ground (
      arith,
      find-update_key task_key (λ t. record t { status = new }) (λ t. refl) i j tasks,
      nat_beq_iff i j,
      v.consented j,
    );
    disclosed = v.disclosed;
  }

  -- A new task with the first row of its history.
  pub create-Sound :
      (t : Task) (actor : ℕ) (remark : Option String)
      → find task_key t.id tasks ≡ none
      → (t.status ≡ draft) ⊎ (t.status ≡ open_status)
      → Sound tasks applications consents history
      → Sound
          (insert_row t tasks)
          applications
          consents
          (insert_row (change t.id none t.status actor remark) history)
  unfolding lawful engaged
  create-Sound t actor remark fresh first v = record {
    keyed = v.keyed;
    logged = λ j u h. ground (
      arith,
      find-insert_row task_key j t tasks fresh,
      follow-insert_row j u.creator_user_id none (change t.id none t.status actor remark) history,
      v.logged j u,
      v.unlogged t.id t.creator_user_id fresh,
      nat_beq_iff t.id j,
      task_status_eq.beq_iff t.status draft,
      task_status_eq.beq_iff t.status open_status,
    );
    unlogged = λ j creator h. ground (
      arith,
      find-insert_row task_key j t tasks fresh,
      follow-insert_row j creator none (change t.id none t.status actor remark) history,
      v.unlogged j creator,
    );
    one_per_org = v.one_per_org;
    one_match = v.one_match;
    match_engages = λ k a h m. ground (
      arith,
      find-insert_row task_key a.task_id t tasks fresh,
      v.match_engages k a h m,
      nat_beq_iff t.id a.task_id,
    );
    consented = λ j.
        ground (arith, find-insert_row task_key j t tasks fresh, v.consented j, nat_beq_iff t.id j);
    disclosed = v.disclosed;
  }

  -- A new pending application of an organization that has none to the task.
  pub submit-Sound :
      (id task org assigned : ℕ)
      → find application_key id applications ≡ none
      → first_where (for_task_and_org task org) applications ≡ none
      → Sound tasks applications consents history
      → Sound tasks
          (insert_row (new_application id task org assigned) applications)
          consents
          history
  submit-Sound id task org assigned fresh alone v =
      let found = λ (j : ℕ).
        find-insert_row application_key j (new_application id task org assigned) applications
          fresh in
      record {
        keyed =
            Distinct-insert_row application_key (new_application id task org assigned) applications
              fresh v.keyed;
        logged = v.logged;
        unlogged = v.unlogged;
        one_per_org = λ i j a b ha hb st so. ground (
          arith,
          found i,
          found j,
          nat_beq_iff id i,
          nat_beq_iff id j,
          v.one_per_org i j a b,
          first_where-absent application_key (for_task_and_org task org) i applications a alone,
          first_where-absent application_key (for_task_and_org task org) j applications b alone,
        );
        one_match = λ i j a b ha hb ma mb st. ground (arith, found i, found j, v.one_match i j a b);
        match_engages = λ i a h m. ground (arith, found i, v.match_engages i a);
        consented = v.consented;
        disclosed = v.disclosed;
      }

  -- The withdrawal of an application.
  pub withdraw-Sound :
      (id : ℕ)
      → Sound tasks applications consents history
      → Sound tasks
          (update_where
            (λ a. nat_beq a.id id)
            (λ a. record a { status = ApplicationStatus.withdrawn })
            applications)
          consents
          history
  withdraw-Sound id v =
      let f : Application → Application = λ a. record a { status = ApplicationStatus.withdrawn } in
      let found = λ (j : ℕ). find-update_key application_key f (λ a. refl) id j applications in
      record {
        keyed =
            Distinct-update_where application_key (λ a. nat_beq a.id id) f (λ a. refl) applications
              v.keyed;
        logged = v.logged;
        unlogged = v.unlogged;
        one_per_org = λ i j a b ha hb st so.
            elim (Option-cases (find application_key i applications)) [
              | inl absent ↦ ground (arith, found i)
              | inr (a', ea) ↦ elim (Option-cases (find application_key j applications)) [
                | inl absent ↦ ground (arith, found j)
                | inr (b', eb) ↦ ground (arith, found i, found j, v.one_per_org i j a' b' ea eb)
              ]
            ];
        one_match = λ i j a b ha hb ma mb st. ground (arith, found i, found j, v.one_match i j a b);
        match_engages = λ i a h m. ground (arith, found i, v.match_engages i a);
        consented = v.consented;
        disclosed = v.disclosed;
      }

  -- A change of the consent on a task that stores emails only under both grants.
  pub consent-Sound :
      (task : ℕ) (f : Consent → Consent)
      → ((c : Consent) → (f c).task_id ≡ c.task_id)
      → ((c : Consent)
          → find consent_key task consents ≡ some c
          → discloses (f c) ≡ true
          → both_granted (f c) ≡ true)
      → Sound tasks applications consents history
      → Sound tasks applications (update_where (λ c. nat_beq c.task_id task) f consents) history
  consent-Sound task f same guarded v =
      let found = λ (j : ℕ). find-update_key consent_key f same task j consents in
      record {
        keyed = v.keyed;
        logged = v.logged;
        unlogged = v.unlogged;
        one_per_org = v.one_per_org;
        one_match = v.one_match;
        match_engages = v.match_engages;
        consented = λ j. ground (arith, found j, v.consented j);
        disclosed = λ j c h d. elim (Option-cases (find consent_key j consents)) [
          | inl absent ↦ ground (arith, found j)
          | inr (c', ec) ↦ ground (arith, found j, v.disclosed j c, guarded c', nat_beq_iff task j)
        ];
      }
