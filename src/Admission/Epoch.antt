-- ===== src/Admission/Epoch.antt =====
-- crates/admission/src/epoch.rs: daily epochs, and the window around each boundary in which
-- admission stops. The sums of `window` are those of the integers; those of `checked_window` are
-- the i64 sums of the code.
pub mod Laws
use quotamiser.Prelude.{
  ℕ, ◌+◌, ◌*◌, ◌/◌, ◌-◌, and_then, keep_if, Option, none, some, Result, ok, err, if◌then◌else◌,
  Bool, not, ◌&&◌,
}
use quotamiser.Prelude.Int.{
  ℤ, pos, negsuc, pos_part, neg_part, sub_ℕ, ◌+ℤ◌, ◌-ℤ◌, ltb_ℤ, leb_ℤ, fits_i64, checked_add_ℤ,
  checked_sub_ℤ,
}

abbrev pub seconds_per_day : ℕ
seconds_per_day = 86400

-- `i64::div_euclid`, for a positive divisor: the quotient is rounded down.
abbrev pub div_euclid : ℤ → ℕ → ℤ
div_euclid (pos n) d = pos (n / d)
div_euclid (negsuc n) d = negsuc (n / d)

-- A product with a positive number.
abbrev pub times : ℤ → ℕ → ℤ
times a d = sub_ℕ (pos_part a * d) (neg_part a * d)

abbrev pub epoch_of : ℤ → ℤ
epoch_of unix = div_euclid unix 86400

abbrev pub end_of : ℤ → ℤ
end_of epoch = times (epoch +ℤ pos 1) 86400

pub record TrustedReading : Type 0 where
  pub upstream_unix : ℤ
  pub local_unix : ℤ

pub record ClockPolicy : Type 0 where
  pub reading_uncertainty : ℤ
  pub open_delay : ℤ
  pub max_reading_age : ℤ

pub data PolicyError : Type 0 where
  uncertainty_too_small open_delay_too_short reading_age_out_of_range : PolicyError

abbrev pub min_open_delay : ℤ
min_open_delay = pos 300

abbrev pub max_reading_age_allowed : ℤ
max_reading_age_allowed = pos 3600

-- `ClockPolicy::new`.
unfoldable pub new_policy : ℤ → ℤ → ℤ → Result PolicyError ClockPolicy
new_policy reading_uncertainty open_delay max_reading_age =
    if ltb_ℤ reading_uncertainty (pos 1)
    then err uncertainty_too_small
    else if ltb_ℤ open_delay min_open_delay
    then err open_delay_too_short
    else if not (leb_ℤ (pos 1) max_reading_age && leb_ℤ max_reading_age max_reading_age_allowed)
    then err reading_age_out_of_range
    else ok (record {
      reading_uncertainty = reading_uncertainty;
      open_delay = open_delay;
      max_reading_age = max_reading_age;
    })

pub data ClosedReason : Type 0 where
  near_boundary no_trusted_time clock_went_backwards : ClosedReason

pub data Window : Type 0 where
  opened : Window
  closed : ClosedReason → Window
  rollover_due : ℤ → Window

-- What is left of `window` once the age of the reading is in range.
unfoldable pub window_at : ClockPolicy → ℤ → ℤ → Window
window_at policy current_epoch estimate =
    let due = epoch_of (estimate -ℤ policy.reading_uncertainty -ℤ policy.open_delay) in
    if ltb_ℤ (estimate +ℤ policy.reading_uncertainty) (end_of current_epoch)
    then opened
    else if ltb_ℤ current_epoch due
    then rollover_due due
    else closed near_boundary

unfoldable pub window : ClockPolicy → ℤ → ℤ → Option TrustedReading → Window
window policy current_epoch local_now none = closed no_trusted_time
window policy current_epoch local_now (some reading) =
    let elapsed = local_now -ℤ reading.local_unix in
    if ltb_ℤ elapsed (pos 0)
    then closed clock_went_backwards
    else if ltb_ℤ policy.max_reading_age elapsed
    then closed no_trusted_time
    else window_at policy current_epoch (reading.upstream_unix +ℤ elapsed)

-- The same code with the i64 that it runs on: `none` is a sum or a product that leaves an i64.
abbrev pub checked_end_of : ℤ → Option ℤ
checked_end_of epoch =
    and_then (checked_add_ℤ epoch (pos 1)) λ next. keep_if fits_i64 (some (times next 86400))

abbrev pub checked_due : ClockPolicy → ℤ → ℤ → Option Window
checked_due policy current_epoch earliest_possible =
    and_then (checked_sub_ℤ earliest_possible policy.open_delay) λ opens.
      let due = epoch_of opens in
      some (if ltb_ℤ current_epoch due then rollover_due due else closed near_boundary)

unfoldable pub checked_window_at : ClockPolicy → ℤ → ℤ → Option Window
checked_window_at policy current_epoch estimate =
    and_then (checked_add_ℤ estimate policy.reading_uncertainty) λ latest_possible.
      and_then (checked_sub_ℤ estimate policy.reading_uncertainty) λ earliest_possible.
        and_then (checked_end_of current_epoch) λ boundary.
          let later = checked_due policy current_epoch earliest_possible in
          if ltb_ℤ latest_possible boundary then some opened else later

unfoldable pub checked_window : ClockPolicy → ℤ → ℤ → Option TrustedReading → Option Window
checked_window policy current_epoch local_now none = some (closed no_trusted_time)
checked_window policy current_epoch local_now (some reading) =
    and_then (checked_sub_ℤ local_now reading.local_unix) λ elapsed.
      let later =
        and_then (checked_add_ℤ reading.upstream_unix elapsed)
          λ estimate. checked_window_at policy current_epoch estimate in
      if ltb_ℤ elapsed (pos 0)
      then some (closed clock_went_backwards)
      else if ltb_ℤ policy.max_reading_age elapsed
      then some (closed no_trusted_time)
      else later
