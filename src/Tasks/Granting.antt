-- ===== src/Tasks/Granting.antt =====
-- Consent to exchange contacts (backend/app/service_tasks.py): it keeps the tables coherent, and both
-- sides' grants begin the task.
use mathlib.Core.Path.{subst}
use zouseeking.Base.{
  ℕ, ◌≡◌, true, false, ◌&&◌, Option, some, arith, refl, sym, String, inl, inr, Bool-cases, ◌==◌,
}
use zouseeking.Base.Table.{find, find-key, find_self}
use zouseeking.Base.Txn.{ends, after_done, after_check, after_found, after_call, checked}
use zouseeking.Tasks.Data.{
  matched_pending_consent, in_progress, is_granted, Task, Consent, Db, task_key, consent_key,
  task_status_eq, task_status_beq,
}
use zouseeking.Tasks.Flow.{allowed_transition, transitions, member_of}
use zouseeking.Tasks.Contact.{
  Side, creator, org, own_status, other_status, grant_field, disclose, may_grant, grant_mutual,
  grant_alone, grant_over, grant_consent,
}
use zouseeking.Tasks.Invariant.{engaged, discloses, both_granted, Coherent}
use zouseeking.Tasks.Updates.{consent-Sound}
use zouseeking.Tasks.Keeping.{Keeps, Reads, org_ids-Reads, step-Keeps}

may_grant-Reads :
    (side : Side) (user : ℕ) (t : Task) (c : Consent) (s : Db) → Reads s (may_grant side user t c s)
unfolding may_grant
may_grant-Reads creator user t c s = checked _ _ (λ _. refl)
may_grant-Reads org user t c s =
    after_call (org_ids-Reads user true s) λ orgs u same. checked _ _ (λ _. same)

grant_field-key : (side : Side) (c : Consent) → (grant_field side c).task_id ≡ c.task_id
grant_field-key creator c = refl
grant_field-key org c = refl

-- A side that has not granted yet finds no email stored, so its grant alone may leave the row as it is.
undisclosed :
    (side : Side) (c : Consent)
    → (discloses c ≡ true → both_granted c ≡ true)
    → is_granted (own_status side c) ≡ false
    → discloses (grant_field side c) ≡ true
    → both_granted (grant_field side c) ≡ true
undisclosed creator c h own d = ground arith
undisclosed org c h own d = ground arith

disclose-key :
    (now : ℕ) (emails : ℕ → Option String) (side : Side) (c : Consent)
    → (disclose now emails side c).task_id ≡ c.task_id
disclose-key now emails creator c = refl
disclose-key now emails org c = refl

disclose-granted :
    (now : ℕ) (emails : ℕ → Option String) (side : Side) (c : Consent)
    → is_granted (other_status side c) ≡ true
    → both_granted (disclose now emails side c) ≡ true
disclose-granted now emails creator c h = ground arith
disclose-granted now emails org c h = ground arith

same_row : {c d : Consent} (row : Option Consent) → row ≡ some c → row ≡ some d → c ≡ d
same_row row h k = ground (arith, h, k)

grant_alone-Keeps :
    (side : Side) (t : Task) (c : Consent) (s : Db)
    → find consent_key t.id s.consents ≡ some c
    → is_granted (own_status side c) ≡ false
    → Coherent s
    → Keeps (grant_alone side t c s)
unfolding grant_alone
grant_alone-Keeps side t c s there own v = after_check _ _ λ timed. after_done _ (
    ends (
      consent-Sound s.tasks s.applications s.consents s.history t.id (grant_field side)
        (grant_field-key side)
        (λ d held.
          undisclosed side d (v.disclosed t.id d held)
            (subst (λ x. is_granted (own_status side x) ≡ false) (same_row _ there held) own))
        v))

grant_mutual-Keeps :
    (now : ℕ) (side : Side) (user : ℕ) (t : Task) (c : Consent) (s : Db)
    → find task_key t.id s.tasks ≡ some t
    → find consent_key t.id s.consents ≡ some c
    → is_granted (other_status side c) ≡ true
    → (t.status == matched_pending_consent) ≡ true
    → Coherent s
    → Keeps (grant_mutual now side user t c s)
unfolding grant_mutual allowed_transition transitions member_of task_status_beq engaged
grant_mutual-Keeps now side user t c s there held other is_matched v =
    let from = (task_status_eq.beq_iff t.status matched_pending_consent).0 is_matched in
    after_done _ (
      after_done _ (
        after_done _ (
          step-Keeps t.id user in_progress _ false t _ _ there (rw from refl) (rw from refl)
            (rw from refl)
            (consent-Sound s.tasks s.applications s.consents s.history t.id
              (disclose now s.emails side) (disclose-key now s.emails side)
              (λ d k _.
                disclose-granted now s.emails side d
                  (subst (λ x. is_granted (other_status side x) ≡ true) (same_row _ held k) other))
              v)
            (λ u k. ends k))))

grant_over-Keeps :
    (now : ℕ) (side : Side) (user : ℕ) (t : Task) (c : Consent) (s : Db)
    → find task_key t.id s.tasks ≡ some t
    → find consent_key t.id s.consents ≡ some c
    → Coherent s
    → Keeps (grant_over now side user t c s)
unfolding grant_over
grant_over-Keeps now side user t c s there held v =
    elim (Bool-cases (is_granted (own_status side c))) [
      | inl own ↦ rw own (ends v)
      | inr own ↦
          rw own
            (elim (Bool-cases
              (is_granted (other_status side c) && (t.status == matched_pending_consent))) [
                | inl both ↦ rw both (
                    grant_mutual-Keeps now side user t c s there held (ground (arith, both))
                      (ground (arith, both)) v)
                | inr one ↦ rw one (grant_alone-Keeps side t c s held own v)
              ])
    ]

pub grant_consent-Keeps :
    (now : ℕ) (side : Side) (user task : ℕ) (s : Db)
    → Coherent s
    → Keeps (grant_consent now side user task s)
unfolding grant_consent
grant_consent-Keeps now side user task s v = after_done _ (
    after_done _ (
      after_found _ _ λ t there. after_found _ _ λ c held.
        after_call (may_grant-Reads side user t c s) λ _ u same.
          grant_over-Keeps now side user t c u
            (subst (λ x. find task_key t.id x.tasks ≡ some t) (sym same)
              (find_self task_key task s.tasks t there))
            (subst (λ x. find consent_key t.id x.consents ≡ some c) (sym same)
              (subst (λ i. find consent_key i s.consents ≡ some c)
                (sym (find-key task_key task s.tasks t there)) held))
            (subst Coherent (sym same) v)))
