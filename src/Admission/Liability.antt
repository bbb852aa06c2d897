-- ===== src/Admission/Liability.antt =====
-- crates/admission/src/liability.rs: the most that a request can consume. A text is the list of
-- its code points; `len` is the length of its UTF-8 encoding.
pub mod Laws
use quotamiser.Prelude.{
  ℕ, suc, ◌+◌, ◌*◌, ◌==◌, Option, none, some, List, [], ◌∷◌, Result, ok, err, ◌>>=◌, ok_or, ltb,
  leb, if◌then◌else◌, Bool, true, false, length, is_some, ◌||◌, and_then,
}
use quotamiser.Prelude.Int.{u64_max}

abbrev pub Text : Type 0
Text = List ℕ

-- `char::len_utf8`.
abbrev pub len_utf8 : ℕ → ℕ
len_utf8 c = if ltb c 128 then 1 else if ltb c 2048 then 2 else if ltb c 65536 then 3 else 4

abbrev pub len : Text → ℕ
len [] = 0
len (c ∷ text) = len_utf8 c + len text

-- `u64::checked_add` and `u64::checked_mul`.
abbrev pub add_u64 : ℕ → ℕ → Option ℕ
add_u64 a b = if leb (a + b) u64_max then some (a + b) else none

abbrev pub mul_u64 : ℕ → ℕ → Option ℕ
mul_u64 a b = if leb (a * b) u64_max then some (a * b) else none

pub record ModelSpec : Type 0 where
  pub max_output_tokens : ℕ
  pub byte_level_encoding_known : Bool

pub data InputShape : Type 0 where
  -- instructions, input
  flat_text : Option Text → Text → InputShape
  structured : InputShape

pub record EstimatorPolicy : Type 0 where
  pub framing_allowance_per_node : ℕ

pub data EstimateError : Type 0 where
  no_framing_allowance zero_output_cap overflow : EstimateError

-- `EstimatorPolicy::new`.
unfoldable pub new_estimator : ℕ → Result EstimateError EstimatorPolicy
new_estimator framing_allowance_per_node =
    if framing_allowance_per_node == 0
    then err no_framing_allowance
    else ok (record { framing_allowance_per_node = framing_allowance_per_node })

pub data Liability : Type 0 where
  known : ℕ → Liability
  -- output_bound
  needs_exact_input : ℕ → Liability

abbrev pub minimum : ℕ → ℕ → ℕ
minimum a b = if leb a b then a else b

unfoldable pub output_bound : ModelSpec → Option ℕ → Result EstimateError ℕ
output_bound spec none = ok spec.max_output_tokens
output_bound spec (some cap) =
    if cap == 0 then err zero_output_cap else ok (minimum cap spec.max_output_tokens)

-- `instructions.into_iter().chain(once(input))`
abbrev pub nodes_of : Option Text → Text → List Text
nodes_of none input = input ∷ []
nodes_of (some instructions) input = instructions ∷ input ∷ []

-- `try_fold(sum, |sum, text| sum.checked_add(measure(text)))`
abbrev pub try_sum : (Text → ℕ) → ℕ → List Text → Option ℕ
try_sum measure sum [] = some sum
try_sum measure sum (text ∷ texts) =
    and_then (add_u64 sum (measure text)) λ sum. try_sum measure sum texts

unfoldable pub structural_input_bound :
    EstimatorPolicy → ModelSpec → InputShape → Result EstimateError (Option ℕ)
structural_input_bound policy spec structured = ok none
structural_input_bound policy spec (flat_text instructions input) =
    let nodes = nodes_of instructions input in
    let bound : Result EstimateError (Option ℕ) = do
      text_bytes ← ok_or (try_sum len 0 nodes) overflow
      framing ← ok_or (mul_u64 policy.framing_allowance_per_node (length nodes)) overflow
      total ← ok_or (add_u64 text_bytes framing) overflow
      ok (some total)
    in if spec.byte_level_encoding_known then bound else ok none

abbrev pub add_output : ℕ → Option ℕ → Result EstimateError Liability
add_output output_bound none = ok (needs_exact_input output_bound)
add_output output_bound (some input) = do
  total ← ok_or (add_u64 input output_bound) overflow
  ok (known total)

unfoldable pub estimate :
    EstimatorPolicy → ModelSpec → InputShape → Option ℕ → Result EstimateError Liability
estimate policy spec shape requested_cap = do
  output ← output_bound spec requested_cap
  input ← structural_input_bound policy spec shape
  add_output output input

-- The fast path, for a text within both limits.
unfoldable pub estimate_short :
    EstimatorPolicy → Option Text → ℕ → ℕ → Result EstimateError Liability
estimate_short policy instructions text_bytes output = do
  framing ←
      ok_or
        (mul_u64 policy.framing_allowance_per_node ((if is_some instructions then 1 else 0) + 1))
        overflow
  total ←
      ok_or (and_then (add_u64 text_bytes framing) λ input_bound. add_u64 input_bound output)
        overflow
  ok (known total)

-- The arguments after the requested cap: max_input_characters, max_input_bytes.
unfoldable pub estimate_synchronous :
    EstimatorPolicy → ModelSpec → InputShape → Option ℕ → ℕ → ℕ → Result EstimateError Liability
estimate_synchronous policy spec structured requested_cap max_input_characters max_input_bytes = do
  output ← output_bound spec requested_cap
  estimate policy spec structured requested_cap
estimate_synchronous policy spec (flat_text instructions input) requested_cap max_input_characters
      max_input_bytes =
    do
      output ← output_bound spec requested_cap
      text_bytes ← ok_or (try_sum len 0 (nodes_of instructions input)) overflow
      text_characters ← ok_or (try_sum length 0 (nodes_of instructions input)) overflow
      if ltb max_input_characters text_characters || ltb max_input_bytes text_bytes
          then estimate policy spec (flat_text instructions input) requested_cap
          else estimate_short policy instructions text_bytes output

unfoldable pub with_exact_input : ℕ → ℕ → Result EstimateError ℕ
with_exact_input exact_input_tokens output_bound =
    ok_or (add_u64 exact_input_tokens output_bound) overflow
