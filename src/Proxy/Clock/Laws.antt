-- ===== src/Proxy/Clock/Laws.antt =====
-- What the readings of crates/proxy/src/clock.rs are.
use quotamiser.Prelude.{
  ℕ, ◌≤◌, ◌≡◌, refl, String, ◌⊎◌, ◌++◌, ap, Option, none, some, true, List, [], ◌∷◌, Result, ok,
  err, arith, and_then, Option-cases, inl, inr, Bool-cases,
}
use quotamiser.Prelude.Int.{ℤ, pos, negsuc, i64_max, try_i64}
use quotamiser.Admission.Epoch.{TrustedReading}
use quotamiser.Proxy.Clock.{
  Answer, is_success, monotonic_now, read_date, refresh, refreshes, since_epoch,
}

-- A successful refresh: the provider answered with a success whose `Date` header is a time from
-- 1970 on that fits an `i64`.
pub record Refreshed (parse_http_date : String → Option ℤ) (elapsed : ℕ)
    (listed : Result String Answer) (reading : TrustedReading) : Type 0 where
  pub answer : Answer
  pub came : listed ≡ ok answer
  pub success : is_success answer.status ≡ true
  pub text : String
  pub header : answer.date ≡ some text
  pub seconds : ℕ
  pub parsed : parse_http_date text ≡ some (pos seconds)
  pub fits : seconds ≤ i64_max
  pub upstream : reading.upstream_unix ≡ pos seconds
  pub taken : reading.local_unix ≡ monotonic_now elapsed

and_then-some :
    {A B : Type 0} (m : Option A) (f : A → Option B) {b : B}
    → and_then m f ≡ some b
    → (a : A) × (m ≡ some a) × (f a ≡ some b)
and_then-some none f h = ground arith
and_then-some (some a) f h = (a, refl, h)

since_epoch-some : (time : ℤ) {n : ℕ} → since_epoch time ≡ some n → time ≡ pos n
since_epoch-some (pos m) h = ground arith
since_epoch-some (negsuc m) h = ground arith

read_date-some :
    (parse_http_date : String → Option ℤ) (date : Option String) (seconds : ℕ)
    → read_date parse_http_date date ≡ some seconds
    → (text : String) × (date ≡ some text)
      × (parse_http_date text ≡ some (pos seconds))
      × (seconds ≤ i64_max)
unfolding read_date
read_date-some parse_http_date date seconds h =
    let (since, h₁, fits) = and_then-some _ try_i64 h in
    let (time, h₂, counted) = and_then-some _ since_epoch h₁ in
    let (text, header, parsed) = and_then-some date parse_http_date h₂ in
    let bounded : seconds ≤ i64_max = ground arith in
    let same : since ≡ seconds = ground arith in
    let timed : time ≡ pos since = since_epoch-some time counted in
    (text, header, ground arith, bounded)

answered-Refreshed :
    (parse_http_date : String → Option ℤ) (elapsed : ℕ) (answer : Answer)
    (last : Option TrustedReading) {reading : TrustedReading}
    → (refresh parse_http_date elapsed (ok answer) last).0 ≡ ok reading
    → Refreshed parse_http_date elapsed (ok answer) reading
unfolding refresh
answered-Refreshed parse_http_date elapsed answer last {reading} h =
    let success : is_success answer.status ≡ true = ground arith in
    elim (Option-cases (read_date parse_http_date answer.date)) [
      | inl none_read ↦ ground arith
      | inr (seconds, read) ↦
          let (text, header, parsed, fits) =
            read_date-some parse_http_date answer.date seconds read in
          let upstream : reading.upstream_unix ≡ pos seconds = ground arith in
          let taken : reading.local_unix ≡ monotonic_now elapsed = ground arith in
          record {
            answer = answer;
            came = refl;
            success = success;
            text = text;
            header = header;
            seconds = seconds;
            parsed = parsed;
            fits = fits;
            upstream = upstream;
            taken = taken;
          }
    ]

-- A refresh that fails leaves the clock the reading it had.
refresh-held :
    (parse_http_date : String → Option ℤ) (elapsed : ℕ) (listed : Result String Answer)
    (last : Option TrustedReading) {reading : TrustedReading}
    → (refresh parse_http_date elapsed listed last).1 ≡ some reading
    → (last ≡ some reading) ⊎ Refreshed parse_http_date elapsed listed reading
unfolding refresh
refresh-held parse_http_date elapsed (err failure) last h = inl h
refresh-held parse_http_date elapsed (ok answer) last {reading} h =
    elim (Bool-cases (is_success answer.status)) [
      | inl success ↦ elim (Option-cases (read_date parse_http_date answer.date)) [
        | inl unread ↦ inl (ground arith)
        | inr (seconds, read) ↦ inr (
            answered-Refreshed parse_http_date elapsed answer last {reading = reading}
              (ground arith))
      ]
      | inr failed ↦ inl (ground arith)
    ]

-- Where a reading comes from: the clock had it before, or a refresh of the list took it.
abbrev pub Comes : (String → Option ℤ) → List (ℕ × Result String Answer) → TrustedReading → Type 0
Comes parse_http_date attempts reading =
    (before : List (ℕ × Result String Answer)) × (elapsed : ℕ) × (listed : Result String Answer)
    × (later : List (ℕ × Result String Answer)) × (attempts ≡ before ++ ((elapsed, listed) ∷ later))
    × Refreshed parse_http_date elapsed listed reading

refreshes-held :
    (parse_http_date : String → Option ℤ) (attempts : List (ℕ × Result String Answer))
    (last : Option TrustedReading) (reading : TrustedReading)
    → refreshes parse_http_date attempts last ≡ some reading
    → (last ≡ some reading) ⊎ Comes parse_http_date attempts reading
refreshes-held parse_http_date [] last reading h = inl h
refreshes-held parse_http_date ((elapsed, listed) ∷ later) last reading h =
    elim (refreshes-held parse_http_date later (refresh parse_http_date elapsed listed last).1
      reading h) [
        | inr (before, e, l, after, same, r) ↦
            inr ((elapsed, listed) ∷ before, e, l, after, ap (λ xs. (elapsed, listed) ∷ xs) same, r)
        | inl held ↦ elim (refresh-held parse_http_date elapsed listed last held) [
          | inl had ↦ inl had
          | inr r ↦ inr ([], elapsed, listed, later, refl, r)
        ]
      ]

-- Whatever the provider answers and however many refreshes fail, a reading that a new clock holds
-- was taken by one of its refreshes from a success whose `Date` header gave its time, and carries
-- the monotonic time of that refresh.
pub refreshes-Comes :
    (parse_http_date : String → Option ℤ) (attempts : List (ℕ × Result String Answer))
    (reading : TrustedReading)
    → refreshes parse_http_date attempts none ≡ some reading
    → Comes parse_http_date attempts reading
refreshes-Comes parse_http_date attempts reading h =
    elim (refreshes-held parse_http_date attempts none reading h) [
      | inl had ↦ ground arith
      | inr comes ↦ comes
    ]
