-- ===== src/Protocol/Request.antt =====
-- crates/protocol/src/request.rs: a client's request, checked against the allowlist and
-- normalized. A body that is sent is the object that serde_json prints.
pub mod Code
pub mod Refusals
pub mod Shape
pub mod Checks
pub mod Stable
pub mod StableParts
pub mod Tools
pub mod InputItems
pub mod StableChecks
pub mod StableKinds
pub mod StableTools
pub mod StableItems
pub mod Normal
pub mod Bodies
pub mod Upstream
pub mod Strict
mod Tests
use quotamiser.Prelude.{
  ℕ, String, ◌<>◌, Option, none, some, List, [], ◌∷◌, ◌++◌, Bool, true, false, not, ◌&&◌, ◌||◌,
  str_eq, if◌then◌else◌, Result, ok, err, ◌>>=◌, and_then, is_some, is_none,
}
use quotamiser.Protocol.Json.{
  Value, Items, nil, cons, Fields, end, field, get, contains_key, insert, shift_remove, value_get,
  as_str, as_u64, is_null, is_object, text_at, has_type,
}
use Code.{RejectionCode, Rejection}
use Refusals.{rejection, missing_parameter, unsupported_parameter}
use Shape.{Check, Checked, object_of}
use Checks.{string, non_empty_string, boolean, number, positive_integer, metadata, include}
use Tools.{tool_list, tool_choice, reasoning_shape, text_shape, prompt_cache_options}
use InputItems.{input}
use Strict.{Body, ParseError, parse_strict}

pub record CreateRequest : Type 0 where
  pub fields : Fields
  pub model : String
  pub max_output_tokens : Option ℕ

-- What the loop of `parse` does with a field, by its key.
pub data Action : Type 0 where
  kept : (Value → String → Checked Value) → Action
  checked : (Value → String → Checked Value) → Action
  dropped stream_flag background_flag server_side_state : Action

abbrev pub request_actions : List (String × Action)
request_actions =
    ("model", kept non_empty_string)
    ∷ ("input", kept input)
    ∷ ("instructions", kept string)
    ∷ ("prompt_cache_key", kept string)
    ∷ ("tools", kept tool_list)
    ∷ ("tool_choice", kept tool_choice)
    ∷ ("parallel_tool_calls", kept boolean)
    ∷ ("reasoning", kept (object_of reasoning_shape))
    ∷ ("text", kept (object_of text_shape))
    ∷ ("include", kept include)
    ∷ ("max_output_tokens", kept positive_integer)
    ∷ ("temperature", kept number)
    ∷ ("top_p", kept number)
    ∷ ("metadata", kept metadata)
    ∷ ("prompt_cache_options", checked (object_of prompt_cache_options))
    ∷ ("client_metadata", dropped)
    ∷ ("store", checked boolean)
    ∷ ("service_tier", checked string)
    ∷ ("stream", stream_flag)
    ∷ ("background", background_flag)
    ∷ ("previous_response_id", server_side_state)
    ∷ ("conversation", server_side_state)
    ∷ ("prompt", server_side_state)
    ∷ []

abbrev pub action_of : List (String × Action) → String → Option Action
action_of [] key = none
action_of ((name, action) ∷ actions) key =
    if str_eq name key then some action else action_of actions key

-- The normalized fields so far, and the value of `stream` if it was met.
pub record Progress : Type 0 where
  pub fields : Fields
  pub stream : Option Value

abbrev pub is_off : Value → Bool
is_off Value.null = true
is_off (Value.bool b) = not b
is_off _ = false

unfoldable pub admit_field : Option Action → String → Value → Progress → Checked Progress
admit_field none key value p = err (unsupported_parameter key)
admit_field (some (kept check)) key value p =
    check value key >>= λ value. ok (record p { fields = insert key value p.fields })
admit_field (some (checked check)) key value p = check value key >>= λ value. ok p
admit_field (some dropped) key value p = ok p
admit_field (some stream_flag) key value p = ok (record p { stream = some value })
admit_field (some background_flag) key value p =
    if is_off value
    then ok p
    else err (
        rejection RejectionCode.invalid_value key "`background` is managed by QuotaMiser. Omit it.")
admit_field (some server_side_state) key value p =
    if is_null value
    then ok p
    else err (
        rejection RejectionCode.server_side_state key (
          "`" <> key
          <> "` refers to state stored upstream, whose size cannot be counted before sending. Send the full conversation in `input` instead."))

unfoldable pub admit_fields : Fields → Progress → Checked Progress
admit_fields end p = ok p
admit_fields (field key value rest) p =
    admit_field (action_of request_actions key) key value p >>= λ p. admit_fields rest p

abbrev pub streamed_only : String
streamed_only = "QuotaMiser relays streamed responses only. Send `stream: true`."

abbrev pub check_stream : Option Value → Checked (Unit {0})
check_stream (some (Value.bool true)) = ok tt
check_stream (some _) = err (rejection RejectionCode.invalid_value "stream" streamed_only)
check_stream none = err (rejection RejectionCode.missing_parameter "stream" streamed_only)

abbrev pub require_string : Option Value → Checked String
require_string (some (Value.string model)) = ok model
require_string _ = err (missing_parameter "model")

-- The checks after the loop.
unfoldable pub conclude : Progress → Checked CreateRequest
conclude p = check_stream p.stream >>= λ _. require_string (get p.fields "model") >>= λ model.
    if contains_key p.fields "input"
    then ok (record {
      fields = p.fields;
      model = model;
      max_output_tokens = and_then (get p.fields "max_output_tokens") as_u64;
    })
    else err (missing_parameter "input")

abbrev pub at_start : Progress
at_start = record { fields = end; stream = none }

unfoldable pub parse_object : Value → Checked CreateRequest
parse_object (Value.object fields) = admit_fields fields at_start >>= conclude
parse_object _ = err (record {
  code = RejectionCode.invalid_json;
  param = none;
  message = "The request body must be a JSON object.";
})

unfoldable pub parse : (ParseError → String) → Body → Checked CreateRequest
parse describe body = parse_strict describe body >>= parse_object
