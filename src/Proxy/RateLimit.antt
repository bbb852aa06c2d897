-- ===== src/Proxy/RateLimit.antt =====
-- crates/proxy/src/rate_limit.rs: staying out of a provider's rate limit. Durations and instants
-- are nanoseconds; each method runs under the mutex of the gate. The headers are the ones that the
-- two methods read, as `retry_after`, `reset` and the parse of the remaining number give them. A
-- reset header beyond the range of a Duration makes `parse_reset` panic before the gate is touched;
-- such a header has no value here.
pub mod Laws
use quotamiser.Prelude.{
  ℕ, ◌+◌, ◌-◌, Option, none, some, List, [], ◌∷◌, Bool, true, false, not, ltb, leb, ◌==◌,
  if◌then◌else◌, and_then, keep_if, unwrap_or,
}

abbrev pub min_backoff : ℕ
min_backoff = 1000000000

abbrev pub max_backoff : ℕ
max_backoff = 300000000000

-- What a response says of one kind of limit, `requests` or `tokens`.
pub record Limit : Type 0 where
  pub remaining : Option ℕ
  pub reset : Option ℕ

pub record Headers : Type 0 where
  pub retry_after : Option ℕ
  pub requests : Limit
  pub tokens : Limit

-- `closed_until`.
abbrev pub RateLimitGate : Type 0
RateLimitGate = Option ℕ

abbrev pub duration_since : ℕ → ℕ → Option ℕ
duration_since until now = if leb now until then some (until - now) else none

unfoldable pub closed_for : RateLimitGate → ℕ → Option ℕ
closed_for closed_until now =
    keep_if (λ remaining. not (remaining == 0))
      (and_then closed_until λ until. duration_since until now)

-- Only ever extends the closed period, never shortens it.
unfoldable pub close_until : ℕ → RateLimitGate → RateLimitGate
close_until until none = some until
close_until until (some current) = if ltb current until then some until else some current

abbrev pub greatest : List (Option ℕ) → Option ℕ
greatest [] = none
greatest (none ∷ waits) = greatest waits
greatest (some wait ∷ waits) = elim (greatest waits) [
  | none ↦ some wait
  | some other ↦ if leb wait other then some other else some wait
]

abbrev pub clamp : ℕ → ℕ → ℕ → ℕ
clamp n low high = if ltb n low then low else if ltb high n then high else n

unfoldable pub record_rate_limited : Headers → ℕ → RateLimitGate → RateLimitGate
record_rate_limited headers now gate =
    let waits = headers.retry_after ∷ headers.requests.reset ∷ headers.tokens.reset ∷ [] in
    close_until (now + clamp (unwrap_or (greatest waits) min_backoff) min_backoff max_backoff) gate

abbrev pub is_zero : Option ℕ → Bool
is_zero none = false
is_zero (some n) = n == 0

abbrev pub minimum : ℕ → ℕ → ℕ
minimum a b = if leb a b then a else b

-- One round of the loop over the two kinds.
unfoldable pub record_limit : Limit → ℕ → RateLimitGate → RateLimitGate
record_limit limit now gate = elim limit.reset [
  | none ↦ gate
  | some wait ↦
      if is_zero limit.remaining then close_until (now + minimum wait max_backoff) gate else gate
]

unfoldable pub record_headers : Headers → ℕ → RateLimitGate → RateLimitGate
record_headers headers now gate =
    record_limit headers.tokens now (record_limit headers.requests now gate)

pub data Signal : Type 0 where
  rate_limited succeeded : Headers → ℕ → Signal

abbrev pub step : Signal → RateLimitGate → RateLimitGate
step (rate_limited headers now) gate = record_rate_limited headers now gate
step (succeeded headers now) gate = record_headers headers now gate

abbrev pub run : List Signal → RateLimitGate → RateLimitGate
run [] gate = gate
run (s ∷ signals) gate = run signals (step s gate)
