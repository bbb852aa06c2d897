-- ===== src/Proxy/Admission/Laws.antt =====
-- What an admitted request of crates/proxy/src/admission.rs carries.
use quotamiser.Prelude.{
  and_then, ltb, ◌||◌, length, if◌then◌else◌, ℕ, suc, ◌+◌, ◌≤◌, ◌≡◌, refl, subst, Option, none,
  some, List, [], ◌∷◌, Bool, true, false, Result, ok, err, ◌>>=◌, ok_or, arith, >>=-eq-ok,
  ok_or-eq-ok,
}
use quotamiser.Admission.Liability.{
  Text, ModelSpec, InputShape, EstimatorPolicy, EstimateError, Liability, known, needs_exact_input,
  structured, flat_text, overflow, output_bound, estimate as estimate_background,
  estimate_synchronous, estimate_short, structural_input_bound, add_output, add_u64, try_sum, len,
  nodes_of,
}
use quotamiser.Protocol.Json.{Value}
use quotamiser.Proxy.Admission.{
  AdmissionPolicy, Surroundings, estimated, estimate_for, count_input, count_bodies,
}

-- A liability that is known covers the output, and what is still to count leaves the bound as it is.
abbrev pub Covers : ℕ → Result EstimateError Liability → Type 0
Covers bound (ok (known n)) = bound ≤ n
Covers bound (ok (needs_exact_input b)) = b ≡ bound
Covers bound (err e) = Unit {0}

bind-Covers :
    {A : Type 0} (bound : ℕ) (first : Result EstimateError A)
    (next : A → Result EstimateError Liability)
    → ((a : A) → first ≡ ok a → Covers bound (next a))
    → Covers bound (first >>= next)
bind-Covers bound (ok a) next covers = covers a refl
bind-Covers bound (err e) next covers = tt

total-Covers :
    (bound : ℕ) (total : Option ℕ) (error : EstimateError)
    → ((n : ℕ) → total ≡ some n → bound ≤ n)
    → Covers bound (ok_or total error >>= λ n. ok (known n))
total-Covers bound none error covers = tt
total-Covers bound (some n) error covers = covers n refl

add_output-Covers : (bound : ℕ) (input : Option ℕ) → Covers bound (add_output bound input)
add_output-Covers bound none = refl
add_output-Covers bound (some input) =
    total-Covers bound (add_u64 input bound) overflow λ n fits. ground arith

estimate-Covers :
    (policy : EstimatorPolicy) (spec : ModelSpec) (shape : InputShape) (limit : Option ℕ)
    (bound : ℕ)
    → output_bound spec limit ≡ ok bound
    → Covers bound (estimate_background policy spec shape limit)
unfolding estimate_background
estimate-Covers policy spec shape limit bound h =
    bind-Covers bound (output_bound spec limit) _ λ output same.
      bind-Covers bound (structural_input_bound policy spec shape) _ λ input _.
        subst (λ output. Covers bound (add_output output input)) (ground arith)
          (add_output-Covers bound input)

same_ok : {A : Type 0} (r : Result EstimateError A) {a b : A} → r ≡ ok a → r ≡ ok b → a ≡ b
same_ok (ok c) h k = cc
same_ok (err e) h k = cc

short-Covers :
    (policy : EstimatorPolicy) (instructions : Option Text) (text_bytes bound output : ℕ)
    → output ≡ bound
    → Covers bound (estimate_short policy instructions text_bytes output)
unfolding estimate_short
short-Covers policy instructions text_bytes bound output same =
    bind-Covers bound (ok_or _ overflow) _ λ framing _.
      total-Covers bound
        (and_then (add_u64 text_bytes framing) λ input_bound. add_u64 input_bound output) overflow
        λ n fits. ground arith

choice-Covers :
    (bound : ℕ) (test : Bool) (one two : Result EstimateError Liability)
    → Covers bound one
    → Covers bound two
    → Covers bound (if test then one else two)
choice-Covers bound true one two covers other = covers
choice-Covers bound false one two other covers = covers

abbrev choose :
    ℕ
    → ℕ
    → ℕ
    → ℕ
    → Result EstimateError Liability
    → Result EstimateError Liability
    → Result EstimateError Liability
choose characters bytes text_characters text_bytes exact short =
    if ltb characters text_characters || ltb bytes text_bytes then exact else short

synchronous-Covers :
    (policy : EstimatorPolicy) (spec : ModelSpec) (shape : InputShape) (limit : Option ℕ)
    (characters bytes bound : ℕ)
    → output_bound spec limit ≡ ok bound
    → Covers bound (estimate_synchronous policy spec shape limit characters bytes)
unfolding estimate_synchronous
synchronous-Covers policy spec structured limit characters bytes bound h =
    bind-Covers bound (output_bound spec limit) _
      λ output _. estimate-Covers policy spec structured limit bound h
synchronous-Covers policy spec (flat_text instructions input) limit characters bytes bound h =
    bind-Covers bound (output_bound spec limit) _ λ output same.
      bind-Covers bound (ok_or (try_sum len 0 (nodes_of instructions input)) overflow)
        (λ text_bytes.
          ok_or (try_sum length 0 (nodes_of instructions input)) overflow >>= λ text_characters.
          choose characters bytes text_characters text_bytes
            (estimate_background policy spec (flat_text instructions input) limit)
            (estimate_short policy instructions text_bytes output))
        λ text_bytes _.
          bind-Covers bound (ok_or (try_sum length 0 (nodes_of instructions input)) overflow)
            (λ text_characters.
              choose characters bytes text_characters text_bytes
                (estimate_background policy spec (flat_text instructions input) limit)
                (estimate_short policy instructions text_bytes output))
            λ text_characters _.
              choice-Covers bound (ltb characters text_characters || ltb bytes text_bytes) _ _
                (estimate-Covers policy spec (flat_text instructions input) limit bound h)
                (short-Covers policy instructions text_bytes bound output (same_ok _ same h))

pub estimate_for-Covers :
    (policy : AdmissionPolicy) (background : Bool) (spec : ModelSpec) (shape : InputShape)
    (limit : Option ℕ) (bound : ℕ)
    → output_bound spec limit ≡ ok bound
    → Covers bound (estimate_for policy background spec shape limit)
unfolding estimate_for
estimate_for-Covers policy true spec shape limit bound h =
    estimate-Covers policy.estimator spec shape limit bound h
estimate_for-Covers policy false spec shape limit bound h =
    synchronous-Covers policy.estimator spec shape limit policy.synchronous_max_input_characters
      policy.synchronous_max_input_bytes bound h

-- What the counter said of each of the bodies, from the given call on.
abbrev pub AreCounts : Surroundings → ℕ → List Value → List ℕ → Type 0
AreCounts env index [] counts = counts ≡ []
AreCounts env index (body ∷ bodies) [] = ⊥
AreCounts env index (body ∷ bodies) (count ∷ counts) =
    (count_input env index body ≡ ok count) × AreCounts env (suc index) bodies counts

abbrev pub total_of : List ℕ → ℕ
total_of [] = 0
total_of (count ∷ counts) = count + total_of counts

pub estimated-eq-ok :
    {A : Type 0} (r : Result EstimateError A) {a : A} → estimated r ≡ ok a → r ≡ ok a
estimated-eq-ok (ok a) h = ground arith
estimated-eq-ok (err e) h = cc

-- The sum that is reached is that of the counts of all the bodies, each of which was answered.
pub count_bodies-total :
    (env : Surroundings) (index : ℕ) (bodies : List Value) (sum total : ℕ)
    → count_bodies env index bodies sum ≡ ok total
    → (counts : List ℕ) × AreCounts env index bodies counts × (total ≡ sum + total_of counts)
unfolding count_bodies
count_bodies-total env index [] sum total h = ([], refl, ground arith)
count_bodies-total env index (body ∷ bodies) sum total h =
    let (count, counted, later) = >>=-eq-ok (count_input env index body) _ h in
    let (sum', added, last) =
      >>=-eq-ok (estimated (ok_or (add_u64 sum count) EstimateError.overflow)) _ later in
    let fits = ok_or-eq-ok (add_u64 sum count) _ (estimated-eq-ok _ added) in
    let (counts, are, is) = count_bodies-total env (suc index) bodies sum' total last in
    (count ∷ counts, (counted, are), ground (arith, is, fits))
