-- ===== src/Proxy/RateLimit/Laws.antt =====
-- What the gate of crates/proxy/src/rate_limit.rs promises over a sequence of responses.
use quotamiser.Prelude.{
  ℕ, ◌+◌, ◌-◌, ◌≤◌, ◌<◌, ◌≡◌, none, some, List, [], ◌∷◌, unwrap_or, arith, All, Option-cases, inl,
  inr,
}
use quotamiser.Proxy.RateLimit.{
  Limit, Headers, RateLimitGate, closed_for, close_until, greatest, clamp, record_rate_limited,
  record_limit, record_headers, minimum, min_backoff, max_backoff, Signal, rate_limited, succeeded,
  step, run,
}

-- The instant from which a gate is open: an open gate is open from 0.
abbrev pub opens_at : RateLimitGate → ℕ
opens_at none = 0
opens_at (some until) = until

close_until-opens_at :
    (until : ℕ) (gate : RateLimitGate)
    → (opens_at gate ≤ opens_at (close_until until gate))
      × (until ≤ opens_at (close_until until gate))
unfolding close_until
close_until-opens_at until none = (ground arith, ground arith)
close_until-opens_at until (some current) = (ground arith, ground arith)

close_until-least :
    (until bound : ℕ) (gate : RateLimitGate)
    → until ≤ bound
    → opens_at gate ≤ bound
    → opens_at (close_until until gate) ≤ bound
unfolding close_until
close_until-least until bound none u g = ground arith
close_until-least until bound (some current) u g = ground arith

record_limit-extends :
    (limit : Limit) (now : ℕ) (gate : RateLimitGate)
    → (opens_at gate ≤ opens_at (record_limit limit now gate))
      × ((bound : ℕ)
          → now + max_backoff ≤ bound
          → opens_at gate ≤ bound
          → opens_at (record_limit limit now gate) ≤ bound)
unfolding record_limit
record_limit-extends limit now gate = elim (Option-cases limit.reset) [
  | inl gone ↦ (ground arith, λ bound b g. ground arith)
  | inr (wait, found) ↦ (
    ground (arith, close_until-opens_at (now + minimum wait max_backoff) gate),
    λ bound b g.
        ground
          (arith, close_until-least (now + minimum wait max_backoff) bound gate (ground arith) g),
  )
]

-- No response ever shortens the closed period.
step-extends : (s : Signal) (gate : RateLimitGate) → opens_at gate ≤ opens_at (step s gate)
unfolding record_rate_limited record_headers
step-extends (rate_limited headers now) gate =
    let wait =
      unwrap_or
        (greatest (headers.retry_after ∷ headers.requests.reset ∷ headers.tokens.reset ∷ []))
        min_backoff in
    (close_until-opens_at (now + clamp wait min_backoff max_backoff) gate).0
step-extends (succeeded headers now) gate =
    let first = record_limit-extends headers.requests now gate in
    let second = record_limit-extends headers.tokens now (record_limit headers.requests now gate) in
    ground (arith, first.0, second.0)

abbrev time_of : Signal → ℕ
time_of (rate_limited headers now) = now
time_of (succeeded headers now) = now

step-bounded :
    (s : Signal) (gate : RateLimitGate) (bound : ℕ)
    → time_of s + max_backoff ≤ bound
    → opens_at gate ≤ bound
    → opens_at (step s gate) ≤ bound
unfolding record_rate_limited record_headers
step-bounded (rate_limited headers now) gate bound b g =
    let wait =
      unwrap_or
        (greatest (headers.retry_after ∷ headers.requests.reset ∷ headers.tokens.reset ∷ []))
        min_backoff in
    close_until-least (now + clamp wait min_backoff max_backoff) bound gate (ground arith) g
step-bounded (succeeded headers now) gate bound b g =
    (record_limit-extends headers.tokens now (record_limit headers.requests now gate)).1 bound b
      ((record_limit-extends headers.requests now gate).1 bound b g)

-- A response that is not of a later time.
abbrev pub IsBy : ℕ → Signal → Type 0
IsBy now s = time_of s ≤ now

run-bounded :
    (now : ℕ) (signals : List Signal) (gate : RateLimitGate)
    → All (IsBy now) signals
    → opens_at gate ≤ now + max_backoff
    → opens_at (run signals gate) ≤ now + max_backoff
run-bounded now [] gate late g = g
run-bounded now (s ∷ signals) gate late g =
    run-bounded now signals (step s gate) late.1
      (step-bounded s gate (now + max_backoff) (ground (arith, late.0)) g)

run-extends :
    (signals : List Signal) (gate : RateLimitGate) → opens_at gate ≤ opens_at (run signals gate)
run-extends [] gate = ground arith
run-extends (s ∷ signals) gate =
    ground (arith, step-extends s gate, run-extends signals (step s gate))

-- Whatever the responses until now said, no signal has closed the gate for longer than 300 s.
pub closed_for_bounded :
    (now remaining : ℕ) (signals : List Signal)
    → All (IsBy now) signals
    → closed_for (run signals none) now ≡ some remaining
    → (0 < remaining) × (remaining ≤ max_backoff)
unfolding closed_for
closed_for_bounded now remaining signals late h =
    let b = run-bounded now signals none late (ground arith) in
    elim (Option-cases (run signals none)) [
      | inl shut ↦ (ground arith, ground arith)
      | inr (until, is) ↦ (ground arith, ground arith)
    ]

-- A 429 that is recorded holds the upstream back: at every time less than a second after it,
-- whatever came before, whatever comes after it, and whatever durations its headers parse to, the
-- gate is closed.
pub rate_limited_holds :
    (headers : Headers) (now later : ℕ) (gate : RateLimitGate) (signals : List Signal)
    → later < now + min_backoff
    → (remaining : ℕ) × (closed_for (run (rate_limited headers now ∷ signals) gate) later
        ≡ some remaining)
unfolding closed_for record_rate_limited
rate_limited_holds headers now later gate signals soon =
    let wait =
      unwrap_or
        (greatest (headers.retry_after ∷ headers.requests.reset ∷ headers.tokens.reset ∷ []))
        min_backoff in
    let (_, k) = close_until-opens_at (now + clamp wait min_backoff max_backoff) gate in
    let e = run-extends signals (record_rate_limited headers now gate) in
    (
      opens_at (run (rate_limited headers now ∷ signals) gate) - later,
      elim (Option-cases (run (rate_limited headers now ∷ signals) gate)) [
        | inl shut ↦ ground arith
        | inr (until, is) ↦ ground arith
      ],
    )
