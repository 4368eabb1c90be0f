-- ===== src/RateLimit/Cap.antt =====
-- How many requests the shared rate limit admits (backend/app/rate_limit.py).
use zouseeking.Base.{
  ℕ, ◌+◌, ◌-◌, ◌≤◌, ◌≡◌, Option, none, some, List, [], ◌∷◌, String, arith, min, is_some,
  if◌then◌else◌, ltb, ◌==◌, refl,
}
use zouseeking.Base.Dict.{Dict, lookup, lookup-insert}
use zouseeking.RateLimit.Window.{
  Window, Counter, window_eq, window_of, count_in, consume_shared_rate_limit,
}

-- A request: its subject, its action and its time.
pub record Request : Type 0 where
  pub subject_hash : String
  pub action : String
  pub now : ℕ

abbrev pub window : Request → Window
window r = window_of r.subject_hash r.action r.now

abbrev pub stored_count : Option Counter → ℕ
stored_count none = 0
stored_count (some c) = c.request_count

-- The requests counted in the window.
abbrev pub counted : Window → Dict Window Counter → ℕ
counted w table = stored_count (lookup w table)

unfoldable pub serve : ℕ → Request → Dict Window Counter → Option ℕ × Dict Window Counter
serve limit r table = consume_shared_rate_limit r.subject_hash r.action limit r.now table

-- The requests of the list that fall in the window, and those of them that are admitted.
unfoldable pub asked_in : Window → List Request → ℕ
asked_in w [] = 0
asked_in w (r ∷ requests) = (if window r == w then 1 else 0) + asked_in w requests

unfoldable pub admitted_in : ℕ → Window → List Request → Dict Window Counter → ℕ
unfolding serve
admitted_in limit w [] table = 0
admitted_in limit w (r ∷ requests) table =
    (if window r == w then (if is_some (serve limit r table).0 then 1 else 0) else 0)
    + admitted_in limit w requests (serve limit r table).1

-- One request on the counter that its window has: the window counts it if it is under the limit, and
-- no other is touched.
count_in-counted :
    (v w : Window) (limit : ℕ) (o : Option Counter) (table : Dict Window Counter)
    → 1 ≤ limit
    → lookup v table ≡ o
    → (counted w (count_in v limit o table).1 ≡ (
        if v == w
        then (if ltb (counted w table) limit then counted w table + 1 else counted w table)
        else counted w table))
      × (is_some (count_in v limit o table).0 ≡ ltb (counted v table) limit)
unfolding count_in
count_in-counted v w limit none table h e = (
  ground (
    arith,
    lookup-insert v w (record { request_count = 1; expires_at = v.window_started_at + 3600 }) table,
    window_eq.beq_iff v w,
  ),
  rw e (ground arith),
)
count_in-counted v w limit (some c) table h e = (
  ground (
    arith,
    lookup-insert v w
        (record { request_count = c.request_count + 1; expires_at = v.window_started_at + 3600 })
        table,
    window_eq.beq_iff v w,
  ),
  rw e (ground arith),
)

serve-counted :
    (limit : ℕ) (r : Request) (w : Window) (table : Dict Window Counter)
    → 1 ≤ limit
    → (counted w (serve limit r table).1 ≡ (
        if window r == w
        then (if ltb (counted w table) limit then counted w table + 1 else counted w table)
        else counted w table))
      × (is_some (serve limit r table).0 ≡ ltb (counted (window r) table) limit)
unfolding serve consume_shared_rate_limit
serve-counted limit r w table h =
    count_in-counted (window r) w limit (lookup (window r) table) table h refl

-- Of the requests that fall in a window exactly as many are admitted as the window has left under the
-- limit, or all of them if there are fewer, however the requests of other windows are interleaved.
pub admitted_in-exact :
    (limit : ℕ) (w : Window) (requests : List Request) (table : Dict Window Counter)
    → 1 ≤ limit
    → admitted_in limit w requests table ≡ min (asked_in w requests) (limit - counted w table)
unfolding admitted_in asked_in
admitted_in-exact limit w [] table h = omega arith
admitted_in-exact limit w (r ∷ requests) table h = ground (
  arith,
  admitted_in-exact limit w requests (serve limit r table).1 h,
  serve-counted limit r w table h,
  window_eq.beq_iff (window r) w,
)
