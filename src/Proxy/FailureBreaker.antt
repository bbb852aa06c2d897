-- ===== src/Proxy/FailureBreaker.antt =====
-- crates/proxy/src/failure_breaker.rs: holding a provider back after consecutive ambiguous
-- failures. Durations and instants are nanoseconds; each method runs under the mutex of the
-- state, so it is one step.
pub mod Laws
use quotamiser.Prelude.{
  ℕ, suc, ◌+◌, ◌-◌, ◌*◌, Option, none, some, List, [], ◌∷◌, Bool, true, false, not, ◌&&◌, ltb, leb,
  ◌==◌, if◌then◌else◌, and_then, keep_if, is_some,
}

pub record BreakerPolicy : Type 0 where
  pub threshold : ℕ
  pub initial_cooldown : ℕ
  pub max_cooldown : ℕ

-- `Default`: three failures, 30 s, 600 s.
abbrev pub default_policy : BreakerPolicy
default_policy = record {
  threshold = 3;
  initial_cooldown = 30000000000;
  max_cooldown = 600000000000;
}

pub record BreakerState : Type 0 where
  pub consecutive_failures : ℕ
  pub open_until : Option ℕ
  pub next_cooldown : ℕ

unfoldable pub new_breaker : BreakerPolicy → BreakerState
new_breaker policy = record {
  consecutive_failures = 0;
  open_until = none;
  next_cooldown = policy.initial_cooldown;
}

-- `Instant::checked_duration_since`.
abbrev pub duration_since : ℕ → ℕ → Option ℕ
duration_since until now = if leb now until then some (until - now) else none

unfoldable pub open_for : BreakerState → ℕ → Option ℕ
open_for state now =
    keep_if (λ remaining. not (remaining == 0))
      (and_then state.open_until λ until. duration_since until now)

abbrev pub u32_max : ℕ
u32_max = 4294967295

-- `u32::saturating_add(1)`.
abbrev pub saturating_suc : ℕ → ℕ
saturating_suc n = if ltb n u32_max then suc n else u32_max

abbrev pub minimum : ℕ → ℕ → ℕ
minimum a b = if leb a b then a else b

-- `open_until.is_some_and(|until| until > now)`
abbrev pub is_open_at : Option ℕ → ℕ → Bool
is_open_at none now = false
is_open_at (some until) now = ltb now until

unfoldable pub record_ambiguous_failure : BreakerPolicy → ℕ → BreakerState → BreakerState
record_ambiguous_failure policy now state =
    let failures = saturating_suc state.consecutive_failures in
    if not (is_open_at state.open_until now) && leb policy.threshold failures
    then record {
      consecutive_failures = failures;
      open_until = some (now + state.next_cooldown);
      next_cooldown = minimum (state.next_cooldown * 2) policy.max_cooldown;
    }
    else record state { consecutive_failures = failures }

unfoldable pub record_completion : BreakerPolicy → BreakerState → BreakerState
record_completion policy state = record state {
  consecutive_failures = 0;
  next_cooldown = policy.initial_cooldown;
}

-- What a dispatcher reports, in the order of the reports.
pub data Report : Type 0 where
  failed_at : ℕ → Report
  completed : Report

abbrev pub step : BreakerPolicy → Report → BreakerState → BreakerState
step policy (failed_at now) state = record_ambiguous_failure policy now state
step policy completed state = record_completion policy state

abbrev pub run : BreakerPolicy → List Report → BreakerState → BreakerState
run policy [] state = state
run policy (r ∷ reports) state = run policy reports (step policy r state)
