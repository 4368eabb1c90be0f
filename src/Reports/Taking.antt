-- ===== src/Reports/Taking.antt =====
-- Which row a claim of the report queue (backend/app/report_worker.py) takes.
use mathlib.Core.Path.{subst, sym}
use zouseeking.Base.{
  ltb, Bool-cases, ◌↔◌, ◌≤◌, ◌+◌, ◌⊎◌, ◌<◌, ℕ, ◌≡◌, ◌≢◌, Bool, true, false, Option, none, some,
  arith, nat_beq, nat_eq, option_eq, Option-cases, inl, inr, refl,
}
use zouseeking.Base.Table.{
  find, find-key, find-update_where, least_where, least_where-find, least_where-none,
  least_where-first,
}
use zouseeking.Reports.Data.{OutboxStatus, Outbox, Db, ClaimedReport}
use zouseeking.Reports.Queue.{
  claim_of, lease_over, claimable, older, claim_row, claim_candidate, claim_next,
}
use zouseeking.Reports.History.{row_id, Valid}

-- What a claim does by its own tests: of the rows that are due it takes one that no other due row is older than, and
-- no other row is touched; without a due row it changes nothing.
unfoldable pub Picks : ℕ → (ℕ → Bool) → ℕ → Db → Option ClaimedReport × Db → Type 0
Picks now locked token s (none, t) =
    (t ≡ s)
    × ((i : ℕ) (r : Outbox) → find row_id i s.outbox ≡ some r → claimable now locked r ≡ false)
Picks now locked token s (some c, t) =
    (r : Outbox) × (find row_id c.outbox_id s.outbox ≡ some r)
    × (claimable now locked r ≡ true)
    × (find row_id c.outbox_id t.outbox ≡ some (claim_row now token r))
    × (c.claim_token ≡ token)
    × ((i : ℕ) → i ≢ c.outbox_id → find row_id i t.outbox ≡ find row_id i s.outbox)
    × ((i : ℕ) (o : Outbox)
        → find row_id i s.outbox ≡ some o
        → claimable now locked o ≡ true
        → older o r ≡ false)

claim_candidate-Picks :
    (now : ℕ) (locked : ℕ → Bool) (token : ℕ) (o : Option Outbox) (s : Db)
    → Valid s
    → least_where older (claimable now locked) s.outbox ≡ o
    → Picks now locked token s (claim_candidate now token o s)
unfolding Picks claim_candidate claim_row older
claim_candidate-Picks now locked token none s v e =
    (refl, λ i r found. least_where-none row_id older (claimable now locked) i s.outbox r e found)
claim_candidate-Picks now locked token (some c) s v e =
    let (found, due) = least_where-find row_id older (claimable now locked) s.outbox c v.keyed e in
    (
      c,
      found,
      due,
      ground (
        arith,
        find-update_where row_id (λ r. nat_beq r.id c.id) (claim_row now token) (λ r. refl) c.id
            s.outbox,
      ),
      refl,
      (λ i other. elim (Option-cases (find row_id i s.outbox)) [
        | inl absent ↦ ground (
          arith,
          find-update_where row_id (λ r. nat_beq r.id c.id) (claim_row now token) (λ r. refl) i
              s.outbox,
        )
        | inr (r, there) ↦ ground (
          arith,
          find-key row_id i s.outbox r there,
          find-update_where row_id (λ r. nat_beq r.id c.id) (claim_row now token) (λ r. refl) i
              s.outbox,
        )
      ]),
      (λ i o there due_too.
          least_where-first row_id older (claimable now locked) i s.outbox o c
            (λ x y h. ground arith) (λ x y z h k. ground arith) e there due_too),
    )

pub claim_next-Picks :
    (now : ℕ) (locked : ℕ → Bool) (token : ℕ) (s : Db)
    → Valid s
    → Picks now locked token s (claim_next now locked token s)
unfolding claim_next
claim_next-Picks now locked token s v = claim_candidate-Picks now locked token _ s v refl

-- A row that may be claimed: not locked by others, with attempts left, and waiting until a time that
-- has come or running under a claim of more than 15 minutes ago.
pub record Due (now : ℕ) (locked : ℕ → Bool) (r : Outbox) : Type 0 where
  pub unlocked : locked r.id ≡ false
  pub left : r.attempts < r.max_attempts
  pub ready :
      (((r.status ≡ OutboxStatus.pending) ⊎ (r.status ≡ OutboxStatus.retryable))
        × (r.next_attempt_at ≤ now))
      ⊎ ((r.status ≡ OutboxStatus.running)
          × ((at : ℕ) × (r.claimed_at ≡ some at) × (at + 900 < now)))

claimable-Due :
    (now : ℕ) (locked : ℕ → Bool) (r : Outbox) → claimable now locked r ≡ true → Due now locked r
unfolding claimable lease_over
claimable-Due now locked r h = record {
  unlocked = ground (arith, h);
  left = ground (arith, h);
  ready = ready_as r.status r.claimed_at refl refl;
}
  where
    ready_as :
        (status : OutboxStatus) (at : Option ℕ)
        → r.status ≡ status
        → r.claimed_at ≡ at
        → (((r.status ≡ OutboxStatus.pending) ⊎ (r.status ≡ OutboxStatus.retryable))
            × (r.next_attempt_at ≤ now))
          ⊎ ((r.status ≡ OutboxStatus.running)
              × ((at : ℕ) × (r.claimed_at ≡ some at) × (at + 900 < now)))
    ready_as OutboxStatus.pending at e f = inl (inl e, ground (arith, h, e))
    ready_as OutboxStatus.retryable at e f = inl (inr e, ground (arith, h, e))
    ready_as OutboxStatus.running none e f = absurd (ground (arith, h, e, f))
    ready_as OutboxStatus.running (some at) e f = inr (e, (at, f, ground (arith, h, e, f)))
    ready_as OutboxStatus.completed at e f = absurd (ground (arith, h, e))
    ready_as OutboxStatus.failed at e f = absurd (ground (arith, h, e))

Due-claimable :
    (now : ℕ) (locked : ℕ → Bool) (r : Outbox) → Due now locked r → claimable now locked r ≡ true
unfolding claimable lease_over
Due-claimable now locked r d = elim d.ready [
  | inl (inl waits, at) ↦ ground (arith, d.unlocked, d.left, waits, at)
  | inl (inr waits, at) ↦ ground (arith, d.unlocked, d.left, waits, at)
  | inr (runs, (at, claimed, over)) ↦ ground (arith, d.unlocked, d.left, runs, claimed, over)
]

-- The row `r` was taken: it runs under the new token and counts the attempt, and the claim carries its
-- columns.
pub record Taken (now : ℕ) (token : ℕ) (c : ClaimedReport) (r o : Outbox) : Type 0 where
  pub runs : o.status ≡ OutboxStatus.running
  pub attempts : o.attempts ≡ r.attempts + 1
  pub owner : o.claim_token ≡ some token
  pub since : o.claimed_at ≡ some now
  pub same_job : (o.generation_job_id ≡ r.generation_job_id) × (o.query_id ≡ r.query_id)
  pub claim_row : (c.outbox_id ≡ r.id) × (c.generation_job_id ≡ r.generation_job_id)
  pub claim_query : (c.query_id ≡ r.query_id) × (c.payload ≡ r.payload)
  pub claim_attempts : (c.attempts ≡ r.attempts + 1) × (c.max_attempts ≡ r.max_attempts)
  pub claim_owner : c.claim_token ≡ token
  pub reclaims : (c.lease_expired ≡ true) ↔ (r.status ≡ OutboxStatus.running)

-- No row that is due was created before `r`, or at the same time with a smaller identifier.
abbrev pub Oldest : ℕ → (ℕ → Bool) → Db → Outbox → Type 0
Oldest now locked s r =
    (i : ℕ) (x : Outbox)
    → find row_id i s.outbox ≡ some x
    → Due now locked x
    → (r.created_at < x.created_at) ⊎ ((r.created_at ≡ x.created_at) × (r.id ≤ x.id))

unfoldable pub Takes : ℕ → (ℕ → Bool) → ℕ → Db → Option ClaimedReport × Db → Type 0
Takes now locked token s (none, t) =
    (t ≡ s) × ((i : ℕ) (r : Outbox) → find row_id i s.outbox ≡ some r → ¬ Due now locked r)
Takes now locked token s (some c, t) =
    (r : Outbox) × (o : Outbox) × (find row_id c.outbox_id s.outbox ≡ some r)
    × Due now locked r
    × Oldest now locked s r
    × (find row_id c.outbox_id t.outbox ≡ some o)
    × Taken now token c r o
    × ((i : ℕ) → i ≢ c.outbox_id → find row_id i t.outbox ≡ find row_id i s.outbox)

not_older :
    (r x : Outbox)
    → older x r ≡ false
    → (r.created_at < x.created_at) ⊎ ((r.created_at ≡ x.created_at) × (r.id ≤ x.id))
unfolding older
not_older r x h = elim (Bool-cases (ltb r.created_at x.created_at)) [
  | inl before ↦ inl (ground (arith, before))
  | inr later ↦ inr (ground (arith, h, later), ground (arith, h, later))
]

candidate-Taken :
    (now token : ℕ) (r : Outbox)
    → Taken now token (claim_of r.status token (claim_row now token r)) r (claim_row now token r)
unfolding claim_row
candidate-Taken now token r = record {
  runs = refl;
  attempts = refl;
  owner = refl;
  since = refl;
  same_job = (refl, refl);
  claim_row = (refl, refl);
  claim_query = (refl, refl);
  claim_attempts = (refl, refl);
  claim_owner = refl;
  reclaims = ground arith;
}

candidate-Takes :
    (now : ℕ) (locked : ℕ → Bool) (token : ℕ) (o : Option Outbox) (s : Db)
    → Valid s
    → least_where older (claimable now locked) s.outbox ≡ o
    → Picks now locked token s (claim_candidate now token o s)
    → Takes now locked token s (claim_candidate now token o s)
unfolding Picks Takes claim_candidate
candidate-Takes now locked token none s v e (same, idle) =
    (same, λ i r there due. ground (arith, idle i r there, Due-claimable now locked r due))
candidate-Takes now locked token (some c) s v e (r, found, due, taken, _, others, first) =
    let there = (least_where-find row_id older (claimable now locked) s.outbox c v.keyed e).0 in
    let same : c ≡ r = ground (arith, there, found) in
    (
      r,
      claim_row now token r,
      found,
      claimable-Due now locked r due,
      (λ i x at d. not_older r x (first i x at (Due-claimable now locked x d))),
      taken,
      subst
          (λ x.
            Taken now token (claim_of x.status token (claim_row now token x)) r
              (claim_row now token r))
          (sym same) (candidate-Taken now token r),
      others,
    )

-- On a valid table a claim takes the oldest row that is due, counts the attempt and runs it under the
-- new token, and touches no other row; if it takes none, no row is due and nothing changes.
pub claim_next-Takes :
    (now : ℕ) (locked : ℕ → Bool) (token : ℕ) (s : Db)
    → Valid s
    → Takes now locked token s (claim_next now locked token s)
unfolding claim_next
claim_next-Takes now locked token s v =
    candidate-Takes now locked token _ s v refl (claim_next-Picks now locked token s v)
