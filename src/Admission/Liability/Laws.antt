-- ===== src/Admission/Liability/Laws.antt =====
-- That the estimates of crates/admission/src/liability.rs are upper bounds, and that the two
-- estimators agree.
use quotamiser.Prelude.{
  ℕ, ◌+◌, ◌*◌, ◌≤◌, ◌≡◌, arith, Option, none, some, List, [], ◌∷◌, ok, err, true, length, inl, inr,
  >>=-eq-ok, Option-cases, sum_by, Result-cases,
}
use quotamiser.Prelude.Int.{u64_max}
use quotamiser.Admission.Liability.{
  Text, len, ModelSpec, InputShape, flat_text, structured, EstimatorPolicy, EstimateError, overflow,
  known, needs_exact_input, output_bound, nodes_of, try_sum, structural_input_bound, estimate,
  estimate_short, estimate_synchronous, with_exact_input, minimum,
}

-- A text has at most as many characters as bytes.
pub length-len : (text : Text) → length text ≤ len text
length-len [] = ground arith
length-len (c ∷ text) = ground (arith, length-len text)

-- The nodes' bytes, without a bound.
abbrev pub bytes_of : Option Text → Text → ℕ
bytes_of instructions input = sum_by len (nodes_of instructions input)

abbrev pub node_count : Option Text → ℕ
node_count none = 1
node_count (some _) = 2

-- The cap that applies to the output.
abbrev pub cap_of : ModelSpec → Option ℕ → ℕ
cap_of spec none = spec.max_output_tokens
cap_of spec (some cap) = minimum cap spec.max_output_tokens

output_bound-cap :
    (spec : ModelSpec) (cap : Option ℕ) {n : ℕ} → output_bound spec cap ≡ ok n → n ≡ cap_of spec cap
unfolding output_bound
output_bound-cap spec none h = ground arith
output_bound-cap spec (some cap) h = ground arith

structural_input_bound-some :
    (policy : EstimatorPolicy) (spec : ModelSpec) (instructions : Option Text) (input : Text)
    {n : ℕ}
    → structural_input_bound policy spec (flat_text instructions input) ≡ ok (some n)
    → (spec.byte_level_encoding_known ≡ true)
      × (n
          ≡ bytes_of instructions input
            + policy.framing_allowance_per_node * node_count instructions)
      × (n ≤ u64_max)
unfolding structural_input_bound
structural_input_bound-some policy spec none input h = (ground arith, ground arith, ground arith)
structural_input_bound-some policy spec (some instructions) input h =
    (ground arith, ground arith, ground arith)

-- An estimate that is known is exactly the sum of the three parts.
estimate-known :
    (policy : EstimatorPolicy) (spec : ModelSpec) (instructions : Option Text) (input : Text)
    (cap : Option ℕ) {n : ℕ}
    → estimate policy spec (flat_text instructions input) cap ≡ ok (known n)
    → (n
        ≡ bytes_of instructions input
          + policy.framing_allowance_per_node * node_count instructions
          + cap_of spec cap)
      × (n ≤ u64_max)
unfolding estimate
estimate-known policy spec instructions input cap h =
    let (output, capped, later) = >>=-eq-ok (output_bound spec cap) _ h in
    let (bound, bounded, last) =
      >>=-eq-ok (structural_input_bound policy spec (flat_text instructions input)) _ later in
    let is = output_bound-cap spec cap capped in
    elim (Option-cases bound) [
      | inl needs ↦ (ground arith, ground arith)
      | inr (i, found) ↦
          let (_, b, _) =
            structural_input_bound-some policy spec instructions input {n = i} (ground arith) in
          (ground arith, ground arith)
    ]

tokens-len :
    (tokens : Text → ℕ)
    → ((text : Text) → tokens text ≤ len text)
    → (texts : List Text) → sum_by tokens texts ≤ sum_by len texts
tokens-len tokens reduces [] = ground arith
tokens-len tokens reduces (text ∷ texts) =
    ground (arith, reduces text, tokens-len tokens reduces texts)

-- A liability that is known for a flat text is an upper bound of what the request consumes, for
-- every tokenizer whose tokens are at most the bytes, every framing within the allowance of each
-- node, and every output within the cap that applies; and it fits a u64.
pub estimate_bounds :
    (tokens : Text → ℕ)
    → ((text : Text) → tokens text ≤ len text)
    → (policy : EstimatorPolicy) (spec : ModelSpec) (instructions : Option Text) (input : Text)
      (cap : Option ℕ) (framing output n : ℕ)
    → framing ≤ policy.framing_allowance_per_node * node_count instructions
    → output ≤ cap_of spec cap
    → estimate policy spec (flat_text instructions input) cap ≡ ok (known n)
    → (sum_by tokens (nodes_of instructions input) + framing + output ≤ n) × (n ≤ u64_max)
estimate_bounds tokens reduces policy spec instructions input cap framing output n f o h =
    let (is, small) = estimate-known policy spec instructions input cap h in
    (ground (arith, tokens-len tokens reduces (nodes_of instructions input)), small)

-- Where only the provider can count, the bound of the output is the cap that applies, and the
-- exact count is added to it without wrapping.
pub estimate_completes :
    (policy : EstimatorPolicy) (spec : ModelSpec) (shape : InputShape) (cap : Option ℕ)
    (bound counted total : ℕ)
    → estimate policy spec shape cap ≡ ok (needs_exact_input bound)
    → with_exact_input counted bound ≡ ok total
    → (total ≡ counted + cap_of spec cap) × (total ≤ u64_max)
unfolding estimate with_exact_input
estimate_completes policy spec shape cap bound counted total h done =
    let (output, capped, later) = >>=-eq-ok (output_bound spec cap) _ h in
    let is = output_bound-cap spec cap capped in
    let (o, bounded, last) = >>=-eq-ok (structural_input_bound policy spec shape) _ later in
    elim (Option-cases o) [
      | inl needs ↦ (ground arith, ground arith)
      | inr (i, found) ↦ (ground arith, ground arith)
    ]

-- The characters of the nodes never overflow where their bytes do not.
try_sum-length :
    (instructions : Option Text) (input : Text) {n : ℕ}
    → try_sum len 0 (nodes_of instructions input) ≡ some n
    → (m : ℕ) × (try_sum length 0 (nodes_of instructions input) ≡ some m) × (m ≤ n)
try_sum-length none input h =
    (length input, ground (arith, length-len input), ground (arith, length-len input))
try_sum-length (some instructions) input h = (
  length instructions + length input,
  ground (arith, length-len input, length-len instructions),
  ground (arith, length-len input, length-len instructions),
)

-- The fast path computes what `estimate` does where the encoding is known.
estimate_short-estimate :
    (policy : EstimatorPolicy) (spec : ModelSpec) (instructions : Option Text) (input : Text)
    (cap : Option ℕ) {bytes output : ℕ}
    → spec.byte_level_encoding_known ≡ true
    → output_bound spec cap ≡ ok output
    → try_sum len 0 (nodes_of instructions input) ≡ some bytes
    → estimate_short policy instructions bytes output
      ≡ estimate policy spec (flat_text instructions input) cap
unfolding estimate_short estimate structural_input_bound
estimate_short-estimate policy spec none input cap k c b = ground arith
estimate_short-estimate policy spec (some instructions) input cap k c b = ground arith

estimate-failed :
    (policy : EstimatorPolicy) (spec : ModelSpec) (instructions : Option Text) (input : Text)
    (cap : Option ℕ) {output : ℕ}
    → spec.byte_level_encoding_known ≡ true
    → output_bound spec cap ≡ ok output
    → try_sum len 0 (nodes_of instructions input) ≡ none
    → estimate policy spec (flat_text instructions input) cap ≡ err overflow
unfolding estimate structural_input_bound
estimate-failed policy spec instructions input cap k c b = ground arith

estimate-err :
    (policy : EstimatorPolicy) (spec : ModelSpec) (shape : InputShape) (cap : Option ℕ)
    {e : EstimateError}
    → output_bound spec cap ≡ err e
    → estimate policy spec shape cap ≡ err e
unfolding estimate
estimate-err policy spec shape cap h = ground arith

-- Where the model's encoding is known to be byte-level, the synchronous estimate is the estimate,
-- for every shape, cap and limits, its errors included.
pub estimate_synchronous-estimate :
    (policy : EstimatorPolicy) (spec : ModelSpec) (shape : InputShape) (cap : Option ℕ)
    (characters bytes : ℕ)
    → spec.byte_level_encoding_known ≡ true
    → estimate_synchronous policy spec shape cap characters bytes ≡ estimate policy spec shape cap
unfolding estimate_synchronous
estimate_synchronous-estimate policy spec structured cap characters bytes k =
    elim (Result-cases (output_bound spec cap)) [
      | inl (output, capped) ↦ ground arith
      | inr (e, failed) ↦ ground (arith, estimate-err policy spec structured cap failed)
    ]
estimate_synchronous-estimate policy spec (flat_text instructions input) cap characters bytes k =
    elim (Result-cases (output_bound spec cap)) [
      | inr (e, failed) ↦
          ground (arith, estimate-err policy spec (flat_text instructions input) cap failed)
      | inl (output, capped) ↦ elim (Option-cases (try_sum len 0 (nodes_of instructions input))) [
        | inl big ↦ ground (arith, estimate-failed policy spec instructions input cap k capped big)
        | inr (n, small) ↦
            let (m, counted, _) = try_sum-length instructions input small in
            ground
              (arith, estimate_short-estimate policy spec instructions input cap k capped small)
      ]
    ]
