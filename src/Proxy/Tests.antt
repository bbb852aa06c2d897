-- ===== src/Proxy/Tests.antt =====
-- The policies of crates/proxy/src at concrete inputs.
use quotamiser.Prelude.{
  ℕ, ◌≤◌, ◌<◌, ◌≡◌, ◌↔◌, refl, none, some, List, [], ◌∷◌, arith, String, Option, if◌then◌else◌,
  str_eq, Result, ok,
}
use quotamiser.Prelude.Int.{ℤ, pos}
use quotamiser.Admission.Epoch.{TrustedReading}
use quotamiser.Proxy.Clock.{Answer, refresh, refreshes, read_date}
use quotamiser.Proxy.Clock.Laws.{Comes, refreshes-Comes}
use quotamiser.Proxy.StatusPolicy.{decide, relay, settle}
use quotamiser.Proxy.StatusPolicy.Laws.{settles_iff}
use quotamiser.Proxy.FailureBreaker.{
  default_policy, new_breaker, open_for, Report, failed_at, completed, run,
  record_ambiguous_failure, record_completion,
}
use quotamiser.Proxy.FailureBreaker.Laws.{longest, open_for_bounded}
use quotamiser.Proxy.RateLimit.{
  Limit, Headers, closed_for, max_backoff, Signal, rate_limited, succeeded, record_rate_limited,
  record_headers, record_limit, close_until,
}
use quotamiser.Proxy.RateLimit.Laws.{rate_limited_holds}
use quotamiser.Proxy.RateLimit

settles_iff_example :
    (((decide 204).reservation ≡ settle) ↔ ((decide 204).client ≡ relay))
    × (((decide 204).reservation ≡ settle) ↔ (200 ≤ 204) × (204 < 300))
settles_iff_example = settles_iff 204

abbrev three : List Report
three = failed_at 1 ∷ completed ∷ failed_at 2 ∷ failed_at 3 ∷ failed_at 4 ∷ []

open_at_10 : open_for (run default_policy three (new_breaker default_policy)) 10 ≡ some 29999999994
unfolding open_for new_breaker record_ambiguous_failure record_completion
open_at_10 = refl

open_for_bounded_example : (0 < 29999999994) × (29999999994 ≤ longest default_policy)
open_for_bounded_example =
    open_for_bounded default_policy 10 29999999994 three
      (omega arith, (tt, (omega arith, (omega arith, (omega arith, tt))))) open_at_10

abbrev silent : Limit
silent = record { remaining = none; reset = none }

-- A 429 that asks for ten seconds.
abbrev ten_seconds : Headers
ten_seconds = record { retry_after = some 10000000000; requests = silent; tokens = silent }

rate_limited_holds_example :
    (remaining : ℕ) × (closed_for
        (RateLimit.run (rate_limited ten_seconds 5 ∷ succeeded ten_seconds 6 ∷ []) none)
        8
      ≡ some remaining)
rate_limited_holds_example =
    rate_limited_holds ten_seconds 5 8 none (succeeded ten_seconds 6 ∷ []) (omega arith)

-- A parser that knows the dates of one day.
abbrev parse_http_date : String → Option ℤ
parse_http_date text =
    if str_eq text "Fri, 11 Sep 2026 00:00:05 GMT" then some (pos 1789084805) else none

abbrev five_past : Answer
five_past = record { status = 200; date = some "Fri, 11 Sep 2026 00:00:05 GMT" }

-- A refresh that succeeds, one that is not authorized, and one with a garbled date.
abbrev attempts : List (ℕ × Result String Answer)
attempts =
    (3, ok five_past)
    ∷ (4, ok (record five_past { status = 401 }))
    ∷ (5, ok (record five_past { date = some "yesterday" }))
    ∷ []

abbrev held_reading : TrustedReading
held_reading = record { upstream_unix = pos 1789084805; local_unix = pos 3 }

held_3 : refreshes parse_http_date attempts none ≡ some held_reading
unfolding refresh read_date
held_3 = refl

refreshes-Comes_example : Comes parse_http_date attempts held_reading
refreshes-Comes_example = refreshes-Comes parse_http_date attempts held_reading held_3
