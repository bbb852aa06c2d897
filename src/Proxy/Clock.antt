-- ===== src/Proxy/Clock.antt =====
-- crates/proxy/src/clock.rs: the provider's clock, read off the `Date` header of a successful
-- model listing. A refresh takes what `list_models` gave; the client and the parser of HTTP dates
-- are third-party code and are parameters.
pub mod Laws
use quotamiser.Prelude.{
  ℕ, String, Option, none, some, Bool, ◌&&◌, leb, ltb, if◌then◌else◌, and_then, Result, ok, err,
  List, [], ◌∷◌,
}
use quotamiser.Prelude.Int.{ℤ, pos, negsuc, i64_max, try_i64}
use quotamiser.Admission.Epoch.{TrustedReading}

-- What the source uses of a response: its status, and the `Date` header if it is text.
pub record Answer : Type 0 where
  pub status : ℕ
  pub date : Option String

pub data ClockError : Type 0 where
  upstream_failed : String → ClockError
  bad_status : ℕ → ClockError
  no_date : ClockError

-- `duration_since(UNIX_EPOCH)`, in seconds: a time before 1970 is an error.
abbrev pub since_epoch : ℤ → Option ℕ
since_epoch (pos n) = some n
since_epoch (negsuc n) = none

-- `StatusCode::is_success`.
abbrev pub is_success : ℕ → Bool
is_success status = leb 200 status && ltb status 300

-- The clock reads `elapsed` whole seconds since it was made, or as many as an `i64` holds.
abbrev pub monotonic_now : ℕ → ℤ
monotonic_now elapsed = if leb elapsed i64_max then pos elapsed else pos i64_max

-- The seconds that a `Date` header stands for, by `parse_http_date`.
unfoldable pub read_date : (String → Option ℤ) → Option String → Option ℕ
read_date parse_http_date date =
    and_then (and_then (and_then date parse_http_date) since_epoch) try_i64

-- A refresh, on the last reading of the clock.
unfoldable pub refresh :
    (String → Option ℤ)
    → ℕ
    → Result String Answer
    → Option TrustedReading
    → Result ClockError TrustedReading × Option TrustedReading
refresh parse_http_date elapsed (err failure) last = (err (upstream_failed failure), last)
refresh parse_http_date elapsed (ok answer) last =
    if is_success answer.status
    then elim (read_date parse_http_date answer.date) [
      | none ↦ (err no_date, last)
      | some upstream_unix ↦
          let reading : TrustedReading = record {
            upstream_unix = pos upstream_unix;
            local_unix = monotonic_now elapsed;
          } in
          (ok reading, some reading)
    ]
    else (err (bad_status answer.status), last)

-- Refreshes one after the other, each with the elapsed seconds and what `list_models` gave.
abbrev pub refreshes :
    (String → Option ℤ)
    → List (ℕ × Result String Answer)
    → Option TrustedReading
    → Option TrustedReading
refreshes parse_http_date [] last = last
refreshes parse_http_date ((elapsed, listed) ∷ later) last =
    refreshes parse_http_date later (refresh parse_http_date elapsed listed last).1
