-- ===== src/Collection/Single.antt =====
-- The feeder never puts a second run of a source in flight (backend/app/collection/scheduler.py).
use mathlib.Core.Path.{subst}
use zouseeking.Base.{
  ℕ, ◌+◌, ◌≤◌, ◌≡◌, true, false, ◌&&◌, Option, List, [], ◌∷◌, String, suc, ◌==◌, string_eq,
  if◌then◌else◌, arith, refl, sym, inl, inr, Bool-cases,
}
use zouseeking.Base.Table.{insert_row}
use zouseeking.Collection.Runs.{Run, in_flight, has_inflight}
use zouseeking.Collection.Scheduler.{
  SchedulableSource, SourceState, FeedDecision, decide, state_or_new, decide_all, asks, fetch_state,
  plan_due, is_queued, fed_run, insert_due, feed_due,
}
use zouseeking.Collection.Feeding.{decide-key, fetch_state-state_of}

-- The runs of a source in flight, and how often the decisions queue it.
unfoldable pub inflight_count : String → List Run → ℕ
inflight_count key [] = 0
inflight_count key (r ∷ runs) =
    (if (r.source_key == key) && in_flight r.status then 1 else 0) + inflight_count key runs

unfoldable pub queued_count : String → List FeedDecision → ℕ
queued_count key [] = 0
queued_count key (d ∷ decisions) =
    (if is_queued d.action && (d.source_key == key) then 1 else 0) + queued_count key decisions

-- The sources have different keys.
unfoldable pub IsDistinct : List SchedulableSource → Type 0
IsDistinct [] = Unit
IsDistinct (s ∷ sources) = (asks s.source_key sources ≡ false) × IsDistinct sources

inflight_count-insert_row :
    (key other source_type : String) (id now : ℕ) (runs : List Run)
    → inflight_count key (insert_row (fed_run id now other source_type) runs)
      ≡ inflight_count key runs + (if other == key then 1 else 0)
unfolding inflight_count insert_row
inflight_count-insert_row key other source_type id now [] = ground arith
inflight_count-insert_row key other source_type id now (x ∷ runs) =
    ground (arith, inflight_count-insert_row key other source_type id now runs)

inflight_count-insert_due :
    (draw : ℕ → ℕ) (n now : ℕ) (source_type key : String) (decisions : List FeedDecision)
    (runs : List Run)
    → inflight_count key (insert_due draw n now source_type decisions runs)
      ≡ inflight_count key runs + queued_count key decisions
unfolding insert_due queued_count
inflight_count-insert_due draw n now source_type key [] runs = omega arith
inflight_count-insert_due draw n now source_type key (d ∷ decisions) runs =
    elim (Bool-cases (is_queued d.action)) [
      | inl q ↦ rw q (
          ground (
            arith,
            inflight_count-insert_due draw (suc n) now source_type key decisions
                (insert_row (fed_run (draw n) now d.source_key source_type) runs),
            inflight_count-insert_row key d.source_key source_type (draw n) now runs,
          ))
      | inr q ↦ rw q (
          ground (arith, inflight_count-insert_due draw (suc n) now source_type key decisions runs))
    ]

inflight_count-none :
    (key : String) (runs : List Run) → has_inflight key runs ≡ false → inflight_count key runs ≡ 0
unfolding inflight_count has_inflight
inflight_count-none key [] h = refl
inflight_count-none key (r ∷ runs) h = ground (arith, inflight_count-none key runs)

unasked_count :
    (now : ℕ) (states : String → Option SourceState) (key : String)
    (sources : List SchedulableSource)
    → asks key sources ≡ false
    → queued_count key (decide_all now states sources) ≡ 0
unfolding queued_count decide_all asks
unasked_count now states key [] h = refl
unasked_count now states key (s ∷ sources) h = ground (
  arith,
  unasked_count now states key sources,
  decide-key now s (state_or_new (states s.source_key)),
)

-- A key is queued at most once, and not at all if its source is in flight.
queued_count-le :
    (now : ℕ) (states : String → Option SourceState) (key : String)
    (sources : List SchedulableSource)
    → IsDistinct sources
    → queued_count key (decide_all now states sources) ≤ 1
unfolding queued_count decide_all IsDistinct
queued_count-le now states key [] v = omega arith
queued_count-le now states key (s ∷ sources) (v, w) = ground (
  arith,
  queued_count-le now states key sources w,
  unasked_count now states s.source_key sources v,
  decide-key now s (state_or_new (states s.source_key)),
  string_eq.beq_iff s.source_key key,
)

decide-busy :
    (now : ℕ) (s : SchedulableSource) (state : SourceState)
    → state.has_inflight ≡ true
    → is_queued (decide now s state).action ≡ false
unfolding decide
decide-busy now s state h = rw h refl

busy_count :
    (now : ℕ) (states : String → Option SourceState) (key : String)
    (sources : List SchedulableSource)
    → (state_or_new (states key)).has_inflight ≡ true
    → queued_count key (decide_all now states sources) ≡ 0
unfolding queued_count decide_all
busy_count now states key [] h = refl
busy_count now states key (s ∷ sources) h = elim (Bool-cases (s.source_key == key)) [
  | inl e ↦ ground (
    arith,
    busy_count now states key sources h,
    decide-key now s (state_or_new (states s.source_key)),
    decide-busy now s (state_or_new (states s.source_key)) (
        subst (λ k. (state_or_new (states k)).has_inflight ≡ true)
          (sym ((string_eq.beq_iff s.source_key key).0 e)) h),
  )
  | inr e ↦ ground (
    arith,
    busy_count now states key sources h,
    decide-key now s (state_or_new (states s.source_key)),
  )
]

fetched_busy :
    (sources : List SchedulableSource) (runs : List Run) (key : String)
    → asks key sources ≡ true
    → has_inflight key runs ≡ true
    → (state_or_new (fetch_state sources runs key)).has_inflight ≡ true
fetched_busy sources runs key asked busy =
    rw (fetch_state-state_of (record { source_key = key; cadence = 0 }) sources runs asked) busy

-- If the sources have different keys and none has two runs in flight, then none has two after a feed.
pub feed_due-single :
    (draw : ℕ → ℕ) (now : ℕ) (source_type : String) (sources : List SchedulableSource)
    (runs : List Run)
    → IsDistinct sources
    → ((key : String) → inflight_count key runs ≤ 1)
    → (key : String) → inflight_count key (feed_due draw now source_type sources runs).1 ≤ 1
unfolding feed_due plan_due
feed_due-single draw now source_type sources runs distinct one key =
    let states = fetch_state sources runs in
    let count =
      inflight_count-insert_due draw 0 now source_type key (decide_all now states sources) runs in
    elim (Bool-cases (asks key sources)) [
      | inr e ↦ ground (arith, count, one key, unasked_count now states key sources e)
      | inl asked ↦ elim (Bool-cases (has_inflight key runs)) [
        | inl busy ↦ ground (
          arith,
          count,
          one key,
          busy_count now states key sources (fetched_busy sources runs key asked busy),
        )
        | inr idle ↦ ground (
          arith,
          count,
          inflight_count-none key runs idle,
          queued_count-le now states key sources distinct,
        )
      ]
    ]
