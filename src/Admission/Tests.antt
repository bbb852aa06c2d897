-- ===== src/Admission/Tests.antt =====
-- The estimates and the window of crates/admission/src at concrete inputs.
use quotamiser.Prelude.{
  ◌+◌, ◌≤◌, ◌≡◌, refl, true, false, none, some, [], ◌∷◌, ok, arith, length, sum_by,
}
use quotamiser.Prelude.Int.{ℤ, pos, ◌≤ℤ◌, ◌<ℤ◌, ◌+ℤ◌, ◌-ℤ◌}
use quotamiser.Admission.Epoch.{
  TrustedReading, ClockPolicy, opened, rollover_due, window, window_at, checked_window, epoch_of,
  end_of, times,
}
use quotamiser.Admission.Epoch.Laws.{window_is_safe, window_at_reopens, checked_window-window}
use quotamiser.Admission.Liability.{
  Text, ModelSpec, flat_text, structured, EstimatorPolicy, known, needs_exact_input, estimate,
  estimate_synchronous, with_exact_input, nodes_of, structural_input_bound, output_bound,
}
use quotamiser.Admission.Liability.Laws.{estimate_bounds, estimate_synchronous-estimate, length-len}

abbrev policy : ClockPolicy
policy = record { reading_uncertainty = pos 5; open_delay = pos 300; max_reading_age = pos 3600 }

abbrev reading : TrustedReading
reading = record { upstream_unix = pos 172000; local_unix = pos 10 }

window_is_safe_example :
    let w = window policy (pos 1) (pos 20) (some reading) in
    (w ≡ opened → pos 172012 <ℤ end_of (pos 1))
    × ((epoch : ℤ)
        → w ≡ rollover_due epoch
        → (pos 1 <ℤ epoch) × (times epoch 86400 +ℤ pos 300 ≤ℤ pos 172012))
unfolding ◌+ℤ◌ ◌-ℤ◌
window_is_safe_example =
    window_is_safe policy (pos 1) (pos 20) (pos 172012) reading (omega arith, omega arith)

window_at_reopens_example :
    window_at policy (pos 1) (pos 173200) ≡ rollover_due (epoch_of (pos 173200 -ℤ pos 5 -ℤ pos 300))
unfolding ◌+ℤ◌ ◌-ℤ◌
window_at_reopens_example =
    window_at_reopens policy (pos 1) (pos 173200) (omega arith) (omega arith) (omega arith)

checked_window-window_example :
    checked_window policy (pos 1) (pos 20) (some reading)
    ≡ some (window policy (pos 1) (pos 20) (some reading))
checked_window-window_example =
    checked_window-window policy (pos 1) (pos 20) reading (omega arith, omega arith)
      (omega arith, omega arith) (omega arith, omega arith) (omega arith, omega arith)
      (omega arith, omega arith) (omega arith) (omega arith)

-- The text "héé", of five bytes, and its characters as tokens.
abbrev text : Text
text = 104 ∷ 233 ∷ 233 ∷ []

abbrev byte_level : ModelSpec
byte_level = record { max_output_tokens = 1000; byte_level_encoding_known = true }

abbrev unpublished : ModelSpec
unpublished = record { max_output_tokens = 1000; byte_level_encoding_known = false }

abbrev allowance : EstimatorPolicy
allowance = record { framing_allowance_per_node = 64 }

known_169 : estimate allowance byte_level (flat_text none text) (some 100) ≡ ok (known 169)
unfolding estimate output_bound structural_input_bound
known_169 = refl

estimate_bounds_example :
    (sum_by length (nodes_of none text) + 8 + 100 ≤ 169) × (169 ≤ 18446744073709551615)
estimate_bounds_example =
    estimate_bounds length length-len allowance byte_level none text (some 100) 8 100 169
      (omega arith) (omega arith) known_169

counted_later : estimate allowance unpublished structured none ≡ ok (needs_exact_input 1000)
unfolding estimate output_bound structural_input_bound
counted_later = refl

with_exact_20 : with_exact_input 20 1000 ≡ ok 1020
unfolding with_exact_input
with_exact_20 = refl

estimate_synchronous-estimate_example :
    estimate_synchronous allowance byte_level (flat_text none text) (some 100) 100 400
    ≡ estimate allowance byte_level (flat_text none text) (some 100)
estimate_synchronous-estimate_example =
    estimate_synchronous-estimate allowance byte_level (flat_text none text) (some 100) 100 400 refl
