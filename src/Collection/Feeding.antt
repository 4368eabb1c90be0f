-- ===== src/Collection/Feeding.antt =====
-- What a feed of the collection queue leaves (backend/app/collection/scheduler.py).
use zouseeking.Base.{
  ℕ, ◌+◌, ◌<◌, ◌≡◌, Bool, true, false, ◌&&◌, ◌||◌, Option, none, some, List, [], ◌∷◌, String, leb,
  suc, ◌==◌, string_eq, arith, refl, inl, inr, ◌⊎◌, Bool-cases, Option-cases, ◌∙◌,
}
use zouseeking.Base.Table.{insert_row}
use zouseeking.Collection.Runs.{Run, has_run, has_inflight, last_terminal}
use zouseeking.Collection.Scheduler.{
  SchedulableSource, SourceState, FeedDecision, decide_idle, decide, state_or_new, decide_all, asks,
  fetch_state, plan_due, is_queued, fed_run, insert_due, feed_due,
}

pub data Among (s : SchedulableSource) : List SchedulableSource → Type 0 where
  here : {rest : List SchedulableSource} → Among s (s ∷ rest)
  there :
      {t : SchedulableSource} {rest : List SchedulableSource} → Among s rest → Among s (t ∷ rest)

-- Whether a decision queues the key.
unfoldable pub queued_in : String → List FeedDecision → Bool
queued_in key [] = false
queued_in key (d ∷ decisions) =
    (is_queued d.action && (d.source_key == key)) || queued_in key decisions

pub has_inflight-insert_row :
    (key : String) (r : Run) (runs : List Run)
    → has_inflight key (insert_row r runs) ≡ (has_inflight key runs || has_inflight key (r ∷ []))
unfolding has_inflight insert_row
has_inflight-insert_row key r [] = refl
has_inflight-insert_row key r (x ∷ runs) = ground (arith, has_inflight-insert_row key r runs)

last_terminal-insert_row :
    (key other source_type : String) (id now : ℕ) (runs : List Run)
    → last_terminal key (insert_row (fed_run id now other source_type) runs)
      ≡ last_terminal key runs
unfolding last_terminal insert_row
last_terminal-insert_row key other source_type id now [] = ground arith
last_terminal-insert_row key other source_type id now (x ∷ runs) =
    ground (arith, last_terminal-insert_row key other source_type id now runs)

-- A key is in flight after the inserts if it was, or if a decision queued it.
has_inflight-insert_due :
    (draw : ℕ → ℕ) (n now : ℕ) (source_type key : String) (decisions : List FeedDecision)
    (runs : List Run)
    → has_inflight key (insert_due draw n now source_type decisions runs)
      ≡ (has_inflight key runs || queued_in key decisions)
unfolding insert_due queued_in has_inflight
has_inflight-insert_due draw n now source_type key [] runs = ground arith
has_inflight-insert_due draw n now source_type key (d ∷ decisions) runs =
    elim (Bool-cases (is_queued d.action)) [
      | inl q ↦ rw q (
          ground (
            arith,
            has_inflight-insert_due draw (suc n) now source_type key decisions
                (insert_row (fed_run (draw n) now d.source_key source_type) runs),
            has_inflight-insert_row key (fed_run (draw n) now d.source_key source_type) runs,
          ))
      | inr q ↦ rw q (has_inflight-insert_due draw (suc n) now source_type key decisions runs)
    ]

last_terminal-insert_due :
    (draw : ℕ → ℕ) (n now : ℕ) (source_type key : String) (decisions : List FeedDecision)
    (runs : List Run)
    → last_terminal key (insert_due draw n now source_type decisions runs) ≡ last_terminal key runs
unfolding insert_due
last_terminal-insert_due draw n now source_type key [] runs = refl
last_terminal-insert_due draw n now source_type key (d ∷ decisions) runs =
    elim (Bool-cases (is_queued d.action)) [
      | inl q ↦ rw q (
          ground (
            arith,
            last_terminal-insert_due draw (suc n) now source_type key decisions
                (insert_row (fed_run (draw n) now d.source_key source_type) runs),
            last_terminal-insert_row key d.source_key source_type (draw n) now runs,
          ))
      | inr q ↦ rw q (last_terminal-insert_due draw (suc n) now source_type key decisions runs)
    ]

Among-asks :
    (s : SchedulableSource) (sources : List SchedulableSource)
    → Among s sources
    → asks s.source_key sources ≡ true
unfolding asks
Among-asks s [] m = elim m [ ]
Among-asks s (_ ∷ rest) here = ground (arith, string_eq.beq_iff s.source_key s.source_key)
Among-asks s (t ∷ rest) (there m) = ground (arith, Among-asks s rest m)

has_run-none :
    (key : String) (runs : List Run)
    → has_run key runs ≡ false
    → (last_terminal key runs ≡ none) × (has_inflight key runs ≡ false)
unfolding has_run last_terminal has_inflight
has_run-none key [] h = (refl, refl)
has_run-none key (r ∷ runs) h = ground (arith, has_run-none key runs)

-- The state that a source is decided on.
abbrev pub state_of : String → List Run → SourceState
state_of key runs = record {
  last_terminal_at = last_terminal key runs;
  has_inflight = has_inflight key runs;
}

pub fetch_state-state_of :
    (s : SchedulableSource) (sources : List SchedulableSource) (runs : List Run)
    → asks s.source_key sources ≡ true
    → state_or_new (fetch_state sources runs s.source_key) ≡ state_of s.source_key runs
unfolding fetch_state
fetch_state-state_of s sources runs asked = elim (Bool-cases (has_run s.source_key runs)) [
  | inl e ↦ rw (asked, e) refl
  | inr e ↦
      rw (asked, e, (has_run-none s.source_key runs e).0, (has_run-none s.source_key runs e).1) refl
]

-- Whether the source is due.
abbrev pub is_due : ℕ → SchedulableSource → List Run → Bool
is_due now s runs = is_queued (decide now s (state_of s.source_key runs)).action

pub decide-key :
    (now : ℕ) (s : SchedulableSource) (state : SourceState)
    → (decide now s state).source_key ≡ s.source_key
unfolding decide decide_idle
decide-key now s state = elim (Bool-cases state.has_inflight) [
  | inl e ↦ rw e refl
  | inr e ↦ rw e (elim (Option-cases state.last_terminal_at) [
    | inl f ↦ rw f refl
    | inr (last, f) ↦ rw f (ground arith)
  ])
]

-- A decision queues the source, or it is in flight, or it ended within its cadence.
decide-cases :
    (now : ℕ) (s : SchedulableSource) (state : SourceState)
    → (is_queued (decide now s state).action ≡ true)
      ⊎ ((state.has_inflight ≡ true)
          ⊎ ((last : ℕ) × (state.last_terminal_at ≡ some last) × (now < last + s.cadence)))
unfolding decide decide_idle
decide-cases now s state = elim (Bool-cases state.has_inflight) [
  | inl e ↦ inr (inl e)
  | inr e ↦ elim (Option-cases state.last_terminal_at) [
    | inl f ↦ inl (rw (e, f) refl)
    | inr (last, f) ↦ elim (Bool-cases (leb (last + s.cadence) now)) [
      | inl g ↦ inl (rw (e, f, g) refl)
      | inr g ↦ inr (inr (last, f, ground (arith, g)))
    ]
  ]
]

covered_quiet :
    (now : ℕ) (s : SchedulableSource) (runs : List Run)
    → (has_inflight s.source_key runs ≡ true)
      ⊎ ((last : ℕ) × (last_terminal s.source_key runs ≡ some last) × (now < last + s.cadence))
    → is_queued (decide now s (state_of s.source_key runs)).action ≡ false
unfolding decide decide_idle
covered_quiet now s runs (inl busy) = rw busy refl
covered_quiet now s runs (inr (last, at, early)) =
    elim (Bool-cases (has_inflight s.source_key runs)) [
      | inl busy ↦ rw busy refl
      | inr idle ↦ rw (idle, at) (ground arith)
    ]

queued_in-decide_all :
    (now : ℕ) (states : String → Option SourceState) (s : SchedulableSource)
    (sources : List SchedulableSource)
    → Among s sources
    → is_queued (decide now s (state_or_new (states s.source_key))).action ≡ true
    → queued_in s.source_key (decide_all now states sources) ≡ true
unfolding queued_in decide_all
queued_in-decide_all now states s [] m h = elim m [ ]
queued_in-decide_all now states s (_ ∷ rest) here h = ground (
  arith,
  decide-key now s (state_or_new (states s.source_key)),
  string_eq.beq_iff s.source_key s.source_key,
)
queued_in-decide_all now states s (t ∷ rest) (there m) h =
    ground (arith, queued_in-decide_all now states s rest m)

-- After a feed each of its sources has a run in flight, or its last run ended within its cadence.
pub feed_due-Covers :
    (draw : ℕ → ℕ) (now : ℕ) (source_type : String) (sources : List SchedulableSource)
    (runs : List Run) (s : SchedulableSource)
    → Among s sources
    → (has_inflight s.source_key (feed_due draw now source_type sources runs).1 ≡ true)
      ⊎ ((last : ℕ) × (last_terminal s.source_key (feed_due draw now source_type sources runs).1
            ≡ some last)
          × (now < last + s.cadence))
unfolding feed_due plan_due
feed_due-Covers draw now source_type sources runs s m =
    let fed =
      has_inflight-insert_due draw 0 now source_type s.source_key
        (decide_all now (fetch_state sources runs) sources) runs in
    let same =
      last_terminal-insert_due draw 0 now source_type s.source_key
        (decide_all now (fetch_state sources runs) sources) runs in
    elim (decide-cases now s (state_of s.source_key runs)) [
      | inl q ↦ inl (
          ground (
            arith,
            fed,
            queued_in-decide_all now (fetch_state sources runs) s sources m
                (rw (fetch_state-state_of s sources runs (Among-asks s sources m)) q),
          ))
      | inr (inl busy) ↦ inl (ground (arith, fed, busy))
      | inr (inr (last, at, early)) ↦ inr (last, (same ∙ at), early)
    ]

insert_due-quiet :
    (draw : ℕ → ℕ) (n now : ℕ) (source_type : String) (states : String → Option SourceState)
    (sources : List SchedulableSource) (runs : List Run)
    → ((s : SchedulableSource)
        → Among s sources
        → is_queued (decide now s (state_or_new (states s.source_key))).action ≡ false)
    → insert_due draw n now source_type (decide_all now states sources) runs ≡ runs
unfolding insert_due decide_all
insert_due-quiet draw n now source_type states [] runs h = refl
insert_due-quiet draw n now source_type states (s ∷ sources) runs h =
    rw (insert_due, h s here)
      (insert_due-quiet draw (suc n) now source_type states sources runs (λ t m. h t (there m)))

-- A second feed of the same sources at the same time inserts nothing.
pub feed_due-again :
    (draw again : ℕ → ℕ) (now : ℕ) (source_type : String) (sources : List SchedulableSource)
    (runs : List Run)
    → (feed_due again now source_type sources (feed_due draw now source_type sources runs).1).1
      ≡ (feed_due draw now source_type sources runs).1
unfolding feed_due plan_due
feed_due-again draw again now source_type sources runs =
    let fed =
      insert_due draw 0 now source_type (decide_all now (fetch_state sources runs) sources) runs in
    insert_due-quiet again 0 now source_type (fetch_state sources fed) sources fed (λ s m.
      rw (fetch_state-state_of s sources fed (Among-asks s sources m))
        (covered_quiet now s fed (feed_due-Covers draw now source_type sources runs s m)))
