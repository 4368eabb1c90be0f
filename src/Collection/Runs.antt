-- ===== src/Collection/Runs.antt =====
-- The rows of collection_runs (backend/app/collection). An instant is a number of seconds.
use zouseeking.Base.{
  ℕ, Bool, true, false, ◌&&◌, ◌||◌, Option, none, some, List, [], ◌∷◌, String, max, ◌==◌, string_eq,
  if◌then◌else◌,
}

pub data RunStatus : Type 0 where
  queued running succeeded failed cancelled : RunStatus

-- What the feeder reads and writes of a row.
pub record Run : Type 0 where
  pub id : ℕ
  pub source_key : String
  pub source_type : String
  pub status : RunStatus
  pub operator_user_id : Option ℕ
  pub created_at : ℕ

-- WINDOW_ADVANCING
abbrev pub advances : RunStatus → Bool
advances succeeded = true
advances failed = true
advances _ = false

-- INFLIGHT
abbrev pub in_flight : RunStatus → Bool
in_flight queued = true
in_flight running = true
in_flight _ = false

-- The group of a key: whether it has a row, `bool_or(status = any(INFLIGHT))` and
-- `max(created_at) filter (where status = any(WINDOW_ADVANCING))`.
unfoldable pub has_run : String → List Run → Bool
has_run key [] = false
has_run key (r ∷ runs) = (r.source_key == key) || has_run key runs

unfoldable pub has_inflight : String → List Run → Bool
has_inflight key [] = false
has_inflight key (r ∷ runs) = ((r.source_key == key) && in_flight r.status) || has_inflight key runs

abbrev pub latest : ℕ → Option ℕ → ℕ
latest t none = t
latest t (some u) = max t u

unfoldable pub last_terminal : String → List Run → Option ℕ
last_terminal key [] = none
last_terminal key (r ∷ runs) =
    if (r.source_key == key) && advances r.status
    then some (latest r.created_at (last_terminal key runs))
    else last_terminal key runs
