-- ===== src/Admission/Epoch/Laws.antt =====
-- What the window of crates/admission/src/epoch.rs promises about the provider's own clock.
use quotamiser.Prelude.{◌+◌, ◌/◌, ◌≤◌, ◌≡◌, ◌≢◌, arith, some, ok, true}
use quotamiser.Prelude.Int.{
  ℤ, pos, negsuc, pos_part, neg_part, ◌+ℤ◌, ◌-ℤ◌, ◌≤ℤ◌, ◌<ℤ◌, +ℤ_parts, -ℤ_parts, fits_i64,
}
use quotamiser.Admission.Epoch.{
  epoch_of, end_of, times, TrustedReading, ClockPolicy, new_policy, no_trusted_time,
  clock_went_backwards, Window, opened, closed, rollover_due, window, window_at, checked_window,
  checked_window_at,
}

-- The start of an epoch is the end of the one before.
epoch_of-bounds :
    (unix : ℤ) → (times (epoch_of unix) 86400 ≤ℤ unix) × (unix <ℤ end_of (epoch_of unix))
epoch_of-bounds (pos n) = (ground arith, ground (arith, +ℤ_parts (pos (n / 86400)) (pos 1)))
epoch_of-bounds (negsuc n) = (ground arith, ground (arith, +ℤ_parts (negsuc (n / 86400)) (pos 1)))

-- Epochs follow the order of times.
epoch_of-order : (unix : ℤ) (epoch : ℤ) → epoch <ℤ epoch_of unix → end_of epoch ≤ℤ unix
epoch_of-order (pos n) (pos e) h = ground (arith, +ℤ_parts (pos e) (pos 1))
epoch_of-order (pos n) (negsuc e) h = ground (arith, +ℤ_parts (negsuc e) (pos 1))
epoch_of-order (negsuc n) (pos e) h = ground (arith, +ℤ_parts (pos e) (pos 1))
epoch_of-order (negsuc n) (negsuc e) h = ground (arith, +ℤ_parts (negsuc e) (pos 1))

-- The provider's clock, when the local clock reads `local_now`, is within the uncertainty of the
-- reading advanced by the elapsed local time.
abbrev pub IsWithin : ClockPolicy → ℤ → ℤ → Type 0
IsWithin policy estimate actual =
    (actual ≤ℤ estimate +ℤ policy.reading_uncertainty)
    × (estimate -ℤ policy.reading_uncertainty ≤ℤ actual)

window_at_open :
    (policy : ClockPolicy) (current_epoch estimate actual : ℤ)
    → IsWithin policy estimate actual
    → window_at policy current_epoch estimate ≡ opened
    → actual <ℤ end_of current_epoch
unfolding window_at
window_at_open policy current_epoch estimate actual (early, late) h = ground arith

window_at_due :
    (policy : ClockPolicy) (current_epoch estimate actual epoch : ℤ)
    → IsWithin policy estimate actual
    → window_at policy current_epoch estimate ≡ rollover_due epoch
    → (current_epoch <ℤ epoch) × (times epoch 86400 +ℤ policy.open_delay ≤ℤ actual)
unfolding window_at
window_at_due policy current_epoch estimate actual epoch (early, late) h =
    let safe = estimate -ℤ policy.reading_uncertainty in
    let due = safe -ℤ policy.open_delay in
    let (from, to) = epoch_of-bounds due in
    let p1 = -ℤ_parts safe policy.open_delay in
    let is : epoch ≡ epoch_of due = ground arith in
    (ground arith, ground (arith, +ℤ_parts (times epoch 86400) policy.open_delay))

-- The estimate of the provider's clock.
abbrev pub estimate_at : ℤ → TrustedReading → ℤ
estimate_at local_now reading = reading.upstream_unix +ℤ (local_now -ℤ reading.local_unix)

-- A window that is not closed by the reading's age.
window-window_at :
    (policy : ClockPolicy) (current_epoch local_now : ℤ) (reading : TrustedReading) (w : Window)
    → window policy current_epoch local_now (some reading) ≡ w
    → w ≢ closed clock_went_backwards
    → w ≢ closed no_trusted_time
    → window_at policy current_epoch (estimate_at local_now reading) ≡ w
unfolding window
window-window_at policy current_epoch local_now reading w h fresh timely = ground arith

-- As long as the provider's clock is within the uncertainty of the reading, an open window means
-- that the day of the current epoch has not ended for the provider, and a rollover that is due
-- means that a later day has begun for it, at least the opening delay ago.
pub window_is_safe :
    (policy : ClockPolicy) (current_epoch local_now actual : ℤ) (reading : TrustedReading)
    → IsWithin policy (estimate_at local_now reading) actual
    → let w = window policy current_epoch local_now (some reading) in
      (w ≡ opened → actual <ℤ end_of current_epoch)
      × ((epoch : ℤ)
          → w ≡ rollover_due epoch
          → (current_epoch <ℤ epoch) × (times epoch 86400 +ℤ policy.open_delay ≤ℤ actual))
window_is_safe policy current_epoch local_now actual reading within = (
  λ h. window_at_open policy current_epoch (estimate_at local_now reading) actual within (
      window-window_at policy current_epoch local_now reading opened h (λ e. ground arith)
        (λ e. ground arith)),
  λ epoch h.
      window_at_due policy current_epoch (estimate_at local_now reading) actual epoch within (
        window-window_at policy current_epoch local_now reading (rollover_due epoch) h
          (λ e. ground arith) (λ e. ground arith)),
)

-- A policy that `new_policy` accepts keeps its three numbers in their ranges.
pub new_policy-ranges :
    (uncertainty delay age : ℤ) (policy : ClockPolicy)
    → new_policy uncertainty delay age ≡ ok policy
    → (pos 1 ≤ℤ policy.reading_uncertainty)
      × (pos 300 ≤ℤ policy.open_delay)
      × (pos 1 ≤ℤ policy.max_reading_age)
      × (policy.max_reading_age ≤ℤ pos 3600)
unfolding new_policy
new_policy-ranges uncertainty delay age policy h =
    (ground arith, ground arith, ground arith, ground arith)

-- The window is never open and due at the same estimate, and it reopens: from the end of the day
-- on by the uncertainty and the opening delay, the rollover is due, whatever the policy.
pub window_at_reopens :
    (policy : ClockPolicy) (current_epoch estimate : ℤ)
    → pos 1 ≤ℤ policy.reading_uncertainty
    → pos 300 ≤ℤ policy.open_delay
    → end_of current_epoch ≤ℤ estimate -ℤ policy.reading_uncertainty -ℤ policy.open_delay
    → window_at policy current_epoch estimate
      ≡ rollover_due (epoch_of (estimate -ℤ policy.reading_uncertainty -ℤ policy.open_delay))
unfolding window_at
window_at_reopens policy current_epoch estimate u d h =
    let safe = estimate -ℤ policy.reading_uncertainty in
    let due = safe -ℤ policy.open_delay in
    let (from, to) = epoch_of-bounds due in
    let p0 = -ℤ_parts estimate policy.reading_uncertainty in
    let p1 = -ℤ_parts safe policy.open_delay in
    let p2 = +ℤ_parts estimate policy.reading_uncertainty in
    let p3 = +ℤ_parts current_epoch (pos 1) in
    let p4 = +ℤ_parts (epoch_of due) (pos 1) in ground arith

+ℤ_small :
    (a b : ℤ)
    → (pos_part (a +ℤ b) ≤ pos_part a + pos_part b) × (neg_part (a +ℤ b) ≤ neg_part a + neg_part b)
unfolding ◌+ℤ◌
+ℤ_small a b = (ground arith, ground arith)

-ℤ_small :
    (a b : ℤ)
    → (pos_part (a -ℤ b) ≤ pos_part a + neg_part b) × (neg_part (a -ℤ b) ≤ neg_part a + pos_part b)
unfolding ◌-ℤ◌
-ℤ_small a b = (ground arith, ground arith)

-- Within the bound: 2^60 in either direction.
abbrev pub IsModest : ℤ → Type 0
IsModest a = (pos_part a ≤ 1152921504606846976) × (neg_part a ≤ 1152921504606846976)

checked_window_at-window_at :
    (policy : ClockPolicy) (current_epoch estimate : ℤ)
    → fits_i64 (estimate +ℤ policy.reading_uncertainty) ≡ true
    → fits_i64 (estimate -ℤ policy.reading_uncertainty) ≡ true
    → fits_i64 (estimate -ℤ policy.reading_uncertainty -ℤ policy.open_delay) ≡ true
    → fits_i64 (current_epoch +ℤ pos 1) ≡ true
    → fits_i64 (end_of current_epoch) ≡ true
    → checked_window_at policy current_epoch estimate
      ≡ some (window_at policy current_epoch estimate)
unfolding checked_window_at window_at
checked_window_at-window_at policy current_epoch estimate a b c d e =
    rw a (rw b (rw d (rw e (rw c (ground arith)))))

-- No sum or product of `window` leaves an i64, so that the code decides as the integers do, while
-- its arguments stay within 2^60 of zero and the epoch within 2^43.
pub checked_window-window :
    (policy : ClockPolicy) (current_epoch local_now : ℤ) (reading : TrustedReading)
    → IsModest policy.reading_uncertainty
    → IsModest policy.open_delay
    → IsModest local_now
    → IsModest reading.local_unix
    → IsModest reading.upstream_unix
    → pos_part current_epoch ≤ 8796093022208
    → neg_part current_epoch ≤ 8796093022208
    → checked_window policy current_epoch local_now (some reading)
      ≡ some (window policy current_epoch local_now (some reading))
unfolding checked_window window
checked_window-window policy current_epoch local_now reading (a, a') (b, b') (c, c') (d, d') (e, e')
      f f' =
    let elapsed = local_now -ℤ reading.local_unix in
    let estimate = reading.upstream_unix +ℤ elapsed in
    let safe = estimate -ℤ policy.reading_uncertainty in
    let (p1, n1) = -ℤ_small local_now reading.local_unix in
    let (p2, n2) = +ℤ_small reading.upstream_unix elapsed in
    let (p3, n3) = +ℤ_small estimate policy.reading_uncertainty in
    let (p4, n4) = -ℤ_small estimate policy.reading_uncertainty in
    let (p5, n5) = -ℤ_small safe policy.open_delay in
    let (p6, n6) = +ℤ_small current_epoch (pos 1) in
    let later =
      checked_window_at-window_at policy current_epoch estimate (ground arith) (ground arith)
        (ground arith) (ground arith) (ground arith) in
    let first : fits_i64 elapsed ≡ true = ground arith in
    let second : fits_i64 estimate ≡ true = ground arith in
    rw first (rw second (rw later (ground arith)))
