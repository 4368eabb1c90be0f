-- ===== src/RateLimit/Window.antt =====
-- The hourly counters of shared_rate_limits (backend/app/rate_limit.py). An instant is a number of
-- seconds of UTC.
use zouseeking.Base.{
  ℕ, ◌+◌, ◌-◌, ◌%◌, ◌≡◌, ◌↔◌, Bool, true, ◌&&◌, Option, none, some, String, ltb, nat_beq,
  if◌then◌else◌, BoolEq, ◌==◌, string_eq, arith,
}
use zouseeking.Base.Dict.{Dict, lookup, insert}

-- The primary key of a counter.
pub record Window : Type 0 where
  pub subject_hash : String
  pub action : String
  pub window_started_at : ℕ

unfoldable pub window_beq : Window → Window → Bool
window_beq a b =
    (a.subject_hash == b.subject_hash)
    && ((a.action == b.action) && nat_beq a.window_started_at b.window_started_at)

pub window_beq_iff : (a b : Window) → (window_beq a b ≡ true) ↔ (a ≡ b)
unfolding window_beq
window_beq_iff a b =
    ground
      (arith, string_eq.beq_iff a.subject_hash b.subject_hash, string_eq.beq_iff a.action b.action)

instance abbrev pub window_eq : BoolEq Window
window_eq = record { beq = window_beq; beq_iff = window_beq_iff }

pub record Counter : Type 0 where
  pub request_count : ℕ
  pub expires_at : ℕ

-- `now.replace(minute=0, second=0, microsecond=0)`
unfoldable pub hour_of : ℕ → ℕ
hour_of now = now - now % 3600

abbrev pub window_of : String → String → ℕ → Window
window_of subject_hash action now = record {
  subject_hash = subject_hash;
  action = action;
  window_started_at = hour_of now;
}

-- `insert … on conflict do update … where request_count < limit returning request_count`
unfoldable pub count_in :
    Window → ℕ → Option Counter → Dict Window Counter → Option ℕ × Dict Window Counter
count_in w limit none table =
    (some 1, insert w (record { request_count = 1; expires_at = w.window_started_at + 3600 }) table)
count_in w limit (some c) table =
    if ltb c.request_count limit
    then (
      some (c.request_count + 1),
      insert w
          (record { request_count = c.request_count + 1; expires_at = w.window_started_at + 3600 })
          table,
    )
    else (none, table)

-- `consume_shared_rate_limit`: the count of the request, or nothing if it is over the limit.
unfoldable pub consume_shared_rate_limit :
    String → String → ℕ → ℕ → Dict Window Counter → Option ℕ × Dict Window Counter
consume_shared_rate_limit subject_hash action limit now table =
    let w = window_of subject_hash action now in count_in w limit (lookup w table) table
