-- ===== src/Proxy/Admission.antt =====
-- crates/proxy/src/admission.rs: turning a normalized request into a reservation, or into a
-- refusal. The provider's counter is given, call by call, and so is what serde_json prints and
-- reads. The catalog is a list, each model standing in it once.
use Prim.Native.Char.{code}
pub mod Laws
pub mod Admitted
mod Tests
use quotamiser.Prelude.{
  ℕ, zero, suc, ◌+◌, ◌*◌, ◌/◌, ◌%◌, ◌^◌, ◌==◌, String, ◌<>◌, Option, none, some, List, [], ◌∷◌,
  Bool, true, false, not, ◌&&◌, ◌||◌, ltb, leb, str_eq, if◌then◌else◌, is_none, and_then, Result,
  ok, err, ◌>>=◌, ok_or, length,
}
use quotamiser.Prelude.Int.{ℤ}
use quotamiser.Admission.Epoch.{Window, ClosedReason}
use quotamiser.Admission.Liability.{
  Text, ModelSpec, InputShape, EstimatorPolicy, EstimateError, Liability, known, needs_exact_input,
  output_bound, estimate as estimate_background, estimate_synchronous, with_exact_input, add_u64,
}
use quotamiser.Ledger.Reserve.{ReservationRequest, Refusal, reserve, reserved}
use quotamiser.Ledger.Reserve
use quotamiser.Protocol.Json.{Value, value_get, as_u64}
use quotamiser.Protocol.Sse.{Bytes}
use quotamiser.Protocol.Request.{CreateRequest}
use quotamiser.Protocol.Request.Bodies.{
  FlatText, openai_body_with_background, input_count_bodies, upstream_service_tier,
}
use quotamiser.Protocol.Request.Bodies
use quotamiser.Proxy.Digest.{digest}
use quotamiser.Proxy.LedgerHandle.{LedgerHandle, LedgerAccessError, with_ledger}
use quotamiser.Proxy.Dispatch.{DispatchPermit}

-- `CatalogEntry` of crates/proxy/src/config.rs.
pub record CatalogEntry : Type 0 where
  pub pool_id : String
  pub spec : ModelSpec

pub record AdmissionPolicy : Type 0 where
  pub estimator : EstimatorPolicy
  pub accounting_rev : ℤ
  pub required_safety_inputs : List String
  pub synchronous_max_output_tokens : ℕ
  pub synchronous_max_input_bytes : ℕ
  pub synchronous_max_input_characters : ℕ

-- Why an input was not counted; the source keeps the text of it.
pub data CountError : Type 0 where
  not_answered : String → CountError
  answered : ℕ → CountError
  no_input_tokens : CountError

pub data Refused : Type 0 where
  unknown_model : String → Refused
  window_closed : ClosedReason → Refused
  rollover_due : ℤ → Refused
  ledger : Refusal → Refused
  input_not_counted : CountError → Refused
  estimate : EstimateError → Refused
  ledger_unavailable : LedgerAccessError → Refused

pub data Decision : Type 0 where
  admitted : DispatchPermit → Decision
  refused : Refused → Decision

-- What the counter answers: a failure of the transport or of reading, or a status and a text.
pub record Counted : Type 0 where
  pub status : ℕ
  pub text : String

pub record Surroundings : Type 0 where
  pub counter : ℕ → Value → Result String Counted
  pub from_str : String → Option Value
  pub to_vec : Value → Bytes

-- The code points of a text.
abbrev pub chars : String → Text
chars String.[] = []
chars (String.◌∷◌ c text) = code c ∷ chars text

abbrev pub maybe_chars : Option String → Option Text
maybe_chars none = none
maybe_chars (some text) = some (chars text)

abbrev pub shape_of : Option FlatText → InputShape
shape_of none = InputShape.structured
shape_of (some flat) = InputShape.flat_text (maybe_chars flat.instructions) (chars flat.input)

unfoldable pub find_entry : List (String × CatalogEntry) → String → Option CatalogEntry
find_entry [] model = none
find_entry ((name, entry) ∷ catalog) model =
    if str_eq name model then some entry else find_entry catalog model

-- The window has to be open.
abbrev pub check_window : Window → Result Refused (Unit {0})
check_window Window.opened = ok tt
check_window (Window.closed reason) = err (window_closed reason)
check_window (Window.rollover_due epoch) = err (Refused.rollover_due epoch)

abbrev pub estimated : {A : Type 0} → Result EstimateError A → Result Refused A
estimated (ok a) = ok a
estimated (err error) = err (Refused.estimate error)

-- `StatusCode::is_success`, then `input_tokens` of the answer.
abbrev pub count_of : (String → Option Value) → Counted → Result CountError ℕ
count_of from_str c =
    if leb 200 c.status && leb c.status 299
    then ok_or
        (and_then (and_then (from_str c.text) λ parsed. value_get parsed "input_tokens") as_u64)
        no_input_tokens
    else err (answered c.status)

unfoldable pub count_input : Surroundings → ℕ → Value → Result Refused ℕ
count_input env index body = elim (env.counter index body) [
  | err error ↦ err (input_not_counted (not_answered error))
  | ok c ↦ elim (count_of env.from_str c) [
    | err error ↦ err (input_not_counted error)
    | ok count ↦ ok count
  ]
]

-- The loop over the bodies, with the number of the call and the sum so far.
unfoldable pub count_bodies : Surroundings → ℕ → List Value → ℕ → Result Refused ℕ
count_bodies env index [] input_bound = ok input_bound
count_bodies env index (body ∷ bodies) input_bound = count_input env index body >>= λ count.
    estimated (ok_or (add_u64 input_bound count) EstimateError.overflow) >>= λ sum.
    count_bodies env (suc index) bodies sum

abbrev pub is_background : AdmissionPolicy → Option ℕ → ℕ → Bool
is_background policy limit bound = is_none limit || ltb policy.synchronous_max_output_tokens bound

unfoldable pub estimate_for :
    AdmissionPolicy → Bool → ModelSpec → InputShape → Option ℕ → Result EstimateError Liability
estimate_for policy background spec shape limit =
    if background
    then estimate_background policy.estimator spec shape limit
    else estimate_synchronous policy.estimator spec shape limit
        policy.synchronous_max_input_characters policy.synchronous_max_input_bytes

unfoldable pub complete : Surroundings → CreateRequest → Liability → Result Refused ℕ
complete env request (known liability) = ok liability
complete env request (needs_exact_input bound) =
    count_bodies env 0 (input_count_bodies request) 0 >>= λ input_bound.
    estimated (with_exact_input input_bound bound)

-- What stands before the ledger is asked: the entry, whether to run in the background, and the
-- liability.
pub record Prepared : Type 0 where
  pub entry : CatalogEntry
  pub background : Bool
  pub liability : ℕ

unfoldable pub prepare :
    Surroundings
    → AdmissionPolicy
    → List (String × CatalogEntry)
    → CreateRequest
    → Window
    → Result Refused Prepared
prepare env policy catalog request window =
    ok_or (find_entry catalog request.model) (unknown_model request.model) >>= λ entry.
    check_window window >>= λ _.
    estimated (output_bound entry.spec request.max_output_tokens) >>= λ bound.
    let background = is_background policy request.max_output_tokens bound in
    estimated (
      estimate_for policy background entry.spec (shape_of (Bodies.flat_text request))
        request.max_output_tokens)
    >>= complete env request
    >>= λ liability. ok (record { entry = entry; background = background; liability = liability })

abbrev pub body_of : Surroundings → CreateRequest → Prepared → Bytes
body_of env request p = env.to_vec (openai_body_with_background p.background request)

abbrev pub reservation_for :
    Surroundings → AdmissionPolicy → CreateRequest → Prepared → ReservationRequest
reservation_for env policy request p = record {
  pool_id = p.entry.pool_id;
  liability = p.liability;
  request_digest = digest (body_of env request p);
  model_snapshot = request.model;
  service_tier = upstream_service_tier;
  accounting_rev = policy.accounting_rev;
  required_safety_inputs = policy.required_safety_inputs;
}

abbrev pub permit_for :
    Surroundings → AdmissionPolicy → CreateRequest → Prepared → ℕ → DispatchPermit
permit_for env policy request p id = record {
  reservation = id;
  body = body_of env request p;
  accounting_rev = policy.accounting_rev;
  background = p.background;
}

abbrev pub decide : (ℕ → DispatchPermit) → Result LedgerAccessError Reserve.Admission → Decision
decide permit (ok (reserved id)) = admitted (permit id)
decide permit (ok (Reserve.refused refusal)) = refused (Refused.ledger refusal)
decide permit (err error) = refused (ledger_unavailable error)

-- Asking the ledger, for what was prepared.
abbrev pub ask :
    Surroundings
    → AdmissionPolicy
    → CreateRequest
    → ℤ
    → Result Refused Prepared
    → LedgerHandle
    → Decision × LedgerHandle
ask env policy request now (err why) h = (refused why, h)
ask env policy request now (ok p) h =
    let (answer, h') = with_ledger (reserve (reservation_for env policy request p) now) h in
    (decide (permit_for env policy request p) answer, h')

-- `Admitter::admit`.
unfoldable pub admit :
    Surroundings
    → AdmissionPolicy
    → List (String × CatalogEntry)
    → CreateRequest
    → ℤ
    → Window
    → LedgerHandle
    → Decision × LedgerHandle
admit env policy catalog request now window h =
    ask env policy request now (prepare env policy catalog request window) h
