-- ===== src/Protocol/Request/Tests.antt =====
-- Requests of crates/protocol/src/request.rs at concrete values.
use quotamiser.Prelude.{none, some, ◌≡◌, refl, true, ok, length}
use quotamiser.Protocol.Json.{Value, Fields, end, field, get, insert, value_get}
use quotamiser.Protocol.Request.{CreateRequest, parse_object, admit_fields, admit_field, conclude}
use quotamiser.Protocol.Request.Checks.{non_empty_string, boolean}
use quotamiser.Protocol.Request.InputItems.{input}
use quotamiser.Protocol.Request.Bodies.{
  FlatText, flat_text, openai_body_with_background, input_count_bodies, tool_usage, no_tools,
}
use quotamiser.Protocol.Request.Normal.{parse_object-again}
use quotamiser.Protocol.Request.Upstream.{flat_text-tool_usage, openai_body-get}

-- What a client sends, and what is kept of it.
abbrev sent : Value
sent = Value.object (
    field "model" (Value.string "gpt") (
      field "store" (Value.bool true)
        (field "input" (Value.string "hello") (field "stream" (Value.bool true) end))))

abbrev kept_fields : Fields
kept_fields = field "model" (Value.string "gpt") (field "input" (Value.string "hello") end)

abbrev request : CreateRequest
request = record { fields = kept_fields; model = "gpt"; max_output_tokens = none }

parsed : parse_object sent ≡ ok request
unfolding parse_object admit_fields admit_field conclude non_empty_string input boolean get insert
parsed = refl

parse_object-again_example :
    parse_object (Value.object (field "stream" (Value.bool true) kept_fields)) ≡ ok request
parse_object-again_example = parse_object-again sent request parsed

openai_body-get_example :
    value_get (openai_body_with_background true request) "model" ≡ some (Value.string "gpt")
unfolding get
openai_body-get_example = openai_body-get true sent request "model" parsed

abbrev flat : FlatText
flat = record { instructions = none; input = "hello" }

is_flat : flat_text request ≡ some flat
unfolding flat_text get
is_flat = refl

flat_text-tool_usage_example :
    (get kept_fields "input" ≡ some (Value.string "hello"))
    × (tool_usage request ≡ no_tools)
    × (get kept_fields "tool_choice" ≡ none)
    × (length (input_count_bodies request) ≡ 1)
flat_text-tool_usage_example = flat_text-tool_usage request flat is_flat
