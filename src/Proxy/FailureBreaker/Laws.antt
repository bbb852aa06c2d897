-- ===== src/Proxy/FailureBreaker/Laws.antt =====
-- What the breaker of crates/proxy/src/failure_breaker.rs promises over a sequence of reports.
use quotamiser.Prelude.{
  ℕ, suc, ◌+◌, ◌≤◌, ◌<◌, ◌≡◌, refl, Option, none, some, List, [], ◌∷◌, ◌++◌, map, true, false, not,
  leb, ◌==◌, if◌then◌else◌, and_then, keep_if, arith, All, length,
}
use quotamiser.Proxy.FailureBreaker.{
  BreakerPolicy, BreakerState, new_breaker, open_for, duration_since, record_ambiguous_failure,
  record_completion, u32_max, minimum, is_open_at, Report, failed_at, completed, step, run,
}

-- The failures since the last completed response, from a number of them before the reports.
unfoldable pub failures_since : ℕ → List Report → ℕ
failures_since n [] = n
failures_since n (failed_at now ∷ reports) = failures_since (suc n) reports
failures_since n (completed ∷ reports) = failures_since 0 reports

saturated_run :
    (policy : BreakerPolicy) (reports : List Report) (state : BreakerState) (n : ℕ)
    → state.consecutive_failures ≡ minimum n u32_max
    → (run policy reports state).consecutive_failures ≡ minimum (failures_since n reports) u32_max
unfolding failures_since record_ambiguous_failure record_completion
saturated_run policy [] state n h = h
saturated_run policy (failed_at now ∷ reports) state n h =
    saturated_run policy reports (record_ambiguous_failure policy now state) (suc n) (ground arith)
saturated_run policy (completed ∷ reports) state n h =
    saturated_run policy reports (record_completion policy state) 0 (ground arith)

-- Whatever the reports, the counter of a new breaker is the number of ambiguous failures since the
-- last completed response, and stays at the largest u32 beyond it.
pub run-counts :
    (policy : BreakerPolicy) (reports : List Report)
    → (run policy reports (new_breaker policy)).consecutive_failures
      ≡ minimum (failures_since 0 reports) u32_max
unfolding new_breaker
run-counts policy reports = saturated_run policy reports (new_breaker policy) 0 (ground arith)

-- The longest cooldown of a policy.
abbrev pub longest : BreakerPolicy → ℕ
longest policy =
    if leb policy.initial_cooldown policy.max_cooldown
    then policy.max_cooldown
    else policy.initial_cooldown

abbrev IsBounded : BreakerPolicy → ℕ → BreakerState → Type 0
IsBounded policy now state =
    (state.next_cooldown ≤ longest policy)
    × ((until : ℕ) → state.open_until ≡ some until → until ≤ now + longest policy)

-- A report that is not of a later time.
abbrev pub IsBy : ℕ → Report → Type 0
IsBy now (failed_at at) = at ≤ now
IsBy now completed = Unit {0}

fail-IsBounded :
    (policy : BreakerPolicy) (now at : ℕ) (state : BreakerState)
    → at ≤ now
    → IsBounded policy now state
    → IsBounded policy now (record_ambiguous_failure policy at state)
unfolding record_ambiguous_failure
fail-IsBounded policy now at state late (small, soon) =
    (ground arith, λ until h. ground (arith, soon until))

run-IsBounded :
    (policy : BreakerPolicy) (now : ℕ) (reports : List Report) (state : BreakerState)
    → All (IsBy now) reports
    → IsBounded policy now state
    → IsBounded policy now (run policy reports state)
unfolding record_completion
run-IsBounded policy now [] state late b = b
run-IsBounded policy now (failed_at at ∷ reports) state late b =
    run-IsBounded policy now reports (record_ambiguous_failure policy at state) late.1
      (fail-IsBounded policy now at state late.0 b)
run-IsBounded policy now (completed ∷ reports) state late (small, soon) =
    run-IsBounded policy now reports (record_completion policy state) late.1 (ground arith, soon)

open_soon :
    (policy : BreakerPolicy) (now remaining : ℕ) (open_until : Option ℕ)
    → ((until : ℕ) → open_until ≡ some until → until ≤ now + longest policy)
    → keep_if
        (λ remaining. not (remaining == 0))
        (and_then open_until λ until. duration_since until now)
      ≡ some remaining
    → remaining ≤ longest policy
open_soon policy now remaining none soon h = ground arith
open_soon policy now remaining (some until) soon h = ground (arith, soon until refl)

-- Whatever was reported until now, the breaker is never open for longer than the longest cooldown
-- of its policy, and never for no time at all.
pub open_for_bounded :
    (policy : BreakerPolicy) (now remaining : ℕ) (reports : List Report)
    → All (IsBy now) reports
    → open_for (run policy reports (new_breaker policy)) now ≡ some remaining
    → (0 < remaining) × (remaining ≤ longest policy)
unfolding new_breaker open_for
open_for_bounded policy now remaining reports late h =
    let (small, soon) =
      run-IsBounded policy now reports (new_breaker policy) late
        (ground arith, λ until e. ground arith) in
    (
      ground arith,
      open_soon policy now remaining (run policy reports (new_breaker policy)).open_until soon h,
    )

-- Fewer failures than the threshold open nothing.
quiet_run :
    (policy : BreakerPolicy) (times : List ℕ) (state : BreakerState)
    → policy.threshold ≤ u32_max
    → state.consecutive_failures + length times < policy.threshold
    → ((run policy (map failed_at times) state).open_until ≡ state.open_until)
      × ((run policy (map failed_at times) state).next_cooldown ≡ state.next_cooldown)
      × ((run policy (map failed_at times) state).consecutive_failures
          ≡ state.consecutive_failures + length times)
unfolding record_ambiguous_failure
quiet_run policy [] state t h = (refl, refl, ground arith)
quiet_run policy (at ∷ times) state t h =
    let next = record_ambiguous_failure policy at state in
    let (a, b, c) = quiet_run policy times next t (ground arith) in
    (ground arith, ground arith, ground arith)

run-append :
    (policy : BreakerPolicy) (before later : List Report) (state : BreakerState)
    → run policy (before ++ later) state ≡ run policy later (run policy before state)
run-append policy [] later state = refl
run-append policy (r ∷ before) later state = run-append policy before later (step policy r state)

-- After a completed response, the ambiguous failures before the threshold leave a closed breaker
-- as it is; the one that reaches the threshold opens it for the initial cooldown.
pub opens_at_threshold :
    (policy : BreakerPolicy) (times : List ℕ) (now : ℕ) (state : BreakerState)
    → policy.threshold ≤ u32_max
    → suc (length times) ≡ policy.threshold
    → is_open_at state.open_until now ≡ false
    → let before = run policy (completed ∷ map failed_at times) state in
      (before.open_until ≡ state.open_until)
      × ((run policy (completed ∷ map failed_at times ++ failed_at now ∷ []) state).open_until
          ≡ some (now + policy.initial_cooldown))
unfolding record_completion record_ambiguous_failure
opens_at_threshold policy times now state small reached shut =
    let reset = record_completion policy state in
    let (a, b, c) = quiet_run policy times reset small (ground arith) in
    (a, ground (arith, run-append policy (map failed_at times) (failed_at now ∷ []) reset))

-- A failure that arrives while the breaker is open does not extend it.
pub open-stands :
    (policy : BreakerPolicy) (now : ℕ) (state : BreakerState)
    → is_open_at state.open_until now ≡ true
    → ((record_ambiguous_failure policy now state).open_until ≡ state.open_until)
      × ((record_ambiguous_failure policy now state).next_cooldown ≡ state.next_cooldown)
unfolding record_ambiguous_failure
open-stands policy now state h = (ground arith, ground arith)
