-- ===== src/RateLimit/Tests.antt =====
-- The theorems of the rate limit at a concrete input, and a run.
use zouseeking.Base.{ℕ, ◌-◌, ◌≡◌, refl, List, [], ◌∷◌, min, arith}
use zouseeking.Base.Dict.{lookup, insert}
use zouseeking.RateLimit.Window.{
  hour_of, window_beq, window_of, count_in, consume_shared_rate_limit,
}
use zouseeking.RateLimit.Cap.{Request, serve, asked_in, admitted_in, counted, admitted_in-exact}

-- Names what a run of the limit unfolds.
machine : Unit {0}
unfolding hour_of window_beq count_in consume_shared_rate_limit serve asked_in admitted_in lookup
    insert
machine = tt

abbrev request : ℕ → Request
request now = record { subject_hash = "ab"; action = "member_query"; now = now }

-- Three requests of one hour and one of the next, under a limit of two.
abbrev requests : List Request
requests = request 7200 ∷ request 7300 ∷ request 10900 ∷ request 7400 ∷ []

admitted_in-requests : admitted_in 2 (window_of "ab" "member_query" 7200) requests [] ≡ 2
unfolding machine
admitted_in-requests = refl

admitted_in-exact_example :
    admitted_in 2 (window_of "ab" "member_query" 7200) requests []
    ≡ min
        (asked_in (window_of "ab" "member_query" 7200) requests)
        (2 - counted (window_of "ab" "member_query" 7200) [])
admitted_in-exact_example =
    admitted_in-exact 2 (window_of "ab" "member_query" 7200) requests [] (omega arith)
