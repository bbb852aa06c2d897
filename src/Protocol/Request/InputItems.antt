-- ===== src/Protocol/Request/InputItems.antt =====
-- Input items and their parts in crates/protocol/src/request.rs.
use quotamiser.Prelude.{
  String, ◌<>◌, Option, none, some, List, [], ◌∷◌, Bool, true, false, str_eq, if◌then◌else◌, ok,
  err, ◌>>=◌,
}
use quotamiser.Protocol.Json.{Value, get, contains_key}
use quotamiser.Protocol.Request.Code.{RejectionCode}
use quotamiser.Protocol.Request.Refusals.{rejection, join, invalid, missing_parameter}
use quotamiser.Protocol.Request.Shape.{
  Check, Checked, keep, strip, Shape, apply, as_object, each, array_of, by_kind,
}
use quotamiser.Protocol.Request.Checks.{
  string, non_empty_string, inline_image_url, message_role, developer_role, message_phase,
  image_detail, comma_list, is_among,
}
use quotamiser.Protocol.Request.Tools.{type_rule, id_rule, status_rule, tool_list}

abbrev pub input_text : Shape
input_text = record {
  what = "input_text part";
  fields = type_rule ∷ ("text", keep string) ∷ [];
  required = "text" ∷ [];
}

abbrev pub output_text : Shape
output_text = record {
  what = "output_text part";
  fields = type_rule ∷ ("text", keep string) ∷ ("annotations", strip) ∷ ("logprobs", strip) ∷ [];
  required = "text" ∷ [];
}

abbrev pub refusal : Shape
refusal = record {
  what = "refusal part";
  fields = type_rule ∷ ("refusal", keep string) ∷ [];
  required = "refusal" ∷ [];
}

abbrev pub input_image : Shape
input_image = record {
  what = "input_image part";
  fields = type_rule ∷ ("image_url", keep inline_image_url) ∷ ("detail", keep image_detail) ∷ [];
  required = "image_url" ∷ [];
}

abbrev pub summary_text : Shape
summary_text = record {
  what = "summary_text part";
  fields = type_rule ∷ ("text", keep string) ∷ [];
  required = "text" ∷ [];
}

abbrev pub reasoning_text : Shape
reasoning_text = record {
  what = "reasoning_text part";
  fields = type_rule ∷ ("text", keep string) ∷ [];
  required = "text" ∷ [];
}

abbrev pub part_shape : List String → String → String → Checked Shape
part_shape accepted kind path =
    if is_among accepted kind
    then (if str_eq kind "input_text"
        then ok input_text
        else if str_eq kind "output_text"
        then ok output_text
        else if str_eq kind "refusal"
        then ok refusal
        else ok input_image)
    else err (
        rejection RejectionCode.unsupported_input_item (join path "type") (
          "Content parts of type `"
          <> kind
          <> "` are not supported here. Accepted: "
          <> comma_list accepted
          <> "."))

unfoldable pub content_part : List String → Check
content_part accepted = by_kind (part_shape accepted)

-- A text, or a list of the accepted parts.
abbrev pub text_or_parts : List String → Check
text_or_parts accepted (Value.string text) path = ok (Value.string text)
text_or_parts accepted (Value.array parts) path = each parts path (content_part accepted)
text_or_parts accepted _ path = err (invalid path "must be a string or an array of content parts")

unfoldable pub message_content : Check
message_content = text_or_parts ("input_text" ∷ "output_text" ∷ "refusal" ∷ "input_image" ∷ [])

unfoldable pub tool_output : Check
tool_output = text_or_parts ("input_text" ∷ "input_image" ∷ [])

abbrev pub only_shape : String → String → Shape → String → String → Checked Shape
only_shape name what shape kind path =
    if str_eq kind name then ok shape else err (invalid (join path "type") what)

unfoldable pub summary_parts : Check
summary_parts = array_of (by_kind (only_shape "summary_text" "must be `summary_text`" summary_text))

unfoldable pub reasoning_text_parts : Check
reasoning_text_parts =
    array_of (by_kind (only_shape "reasoning_text" "must be `reasoning_text`" reasoning_text))

abbrev pub message : Shape
message = record {
  what = "message";
  fields =
      type_rule
      ∷ id_rule
      ∷ status_rule
      ∷ ("role", keep message_role)
      ∷ ("content", keep message_content)
      ∷ ("phase", keep message_phase)
      ∷ [];
  required = "role" ∷ "content" ∷ [];
}

abbrev pub reasoning_item : Shape
reasoning_item = record {
  what = "reasoning item";
  fields =
      type_rule
      ∷ id_rule
      ∷ status_rule
      ∷ ("summary", keep summary_parts)
      ∷ ("content", keep reasoning_text_parts)
      ∷ ("encrypted_content", keep non_empty_string)
      ∷ [];
  required = "encrypted_content" ∷ [];
}

abbrev pub function_call : Shape
function_call = record {
  what = "function_call item";
  fields =
      type_rule
      ∷ id_rule
      ∷ status_rule
      ∷ ("call_id", keep non_empty_string)
      ∷ ("name", keep non_empty_string)
      ∷ ("namespace", keep string)
      ∷ ("arguments", keep string)
      ∷ [];
  required = "call_id" ∷ "name" ∷ "arguments" ∷ [];
}

abbrev pub function_call_output : Shape
function_call_output = record {
  what = "function_call_output item";
  fields =
      type_rule
      ∷ id_rule
      ∷ status_rule
      ∷ ("call_id", keep non_empty_string)
      ∷ ("name", keep string)
      ∷ ("namespace", keep string)
      ∷ ("output", keep tool_output)
      ∷ [];
  required = "call_id" ∷ "output" ∷ [];
}

abbrev pub custom_tool_call : Shape
custom_tool_call = record {
  what = "custom_tool_call item";
  fields =
      type_rule
      ∷ id_rule
      ∷ status_rule
      ∷ ("call_id", keep non_empty_string)
      ∷ ("name", keep non_empty_string)
      ∷ ("namespace", keep string)
      ∷ ("input", keep string)
      ∷ [];
  required = "call_id" ∷ "name" ∷ "input" ∷ [];
}

abbrev pub custom_tool_call_output : Shape
custom_tool_call_output = record {
  what = "custom_tool_call_output item";
  fields =
      type_rule
      ∷ id_rule
      ∷ status_rule
      ∷ ("call_id", keep non_empty_string)
      ∷ ("name", keep string)
      ∷ ("output", keep tool_output)
      ∷ [];
  required = "call_id" ∷ "output" ∷ [];
}

abbrev pub additional_tools : Shape
additional_tools = record {
  what = "additional_tools item";
  fields = type_rule ∷ id_rule ∷ ("role", keep developer_role) ∷ ("tools", keep tool_list) ∷ [];
  required = "role" ∷ "tools" ∷ [];
}

abbrev pub item_shape : String → String → Checked Shape
item_shape kind path =
    if str_eq kind "message"
    then ok message
    else if str_eq kind "reasoning"
    then ok reasoning_item
    else if str_eq kind "function_call"
    then ok function_call
    else if str_eq kind "function_call_output"
    then ok function_call_output
    else if str_eq kind "custom_tool_call"
    then ok custom_tool_call
    else if str_eq kind "custom_tool_call_output"
    then ok custom_tool_call_output
    else if str_eq kind "additional_tools"
    then ok additional_tools
    else err (
        rejection RejectionCode.unsupported_input_item (join path "type") (
          "Input items of type `" <> kind
          <> "` are not supported. Accepted: message, reasoning, function_call, function_call_output, custom_tool_call, custom_tool_call_output, additional_tools."))

-- An item without a type that has a role is a message.
abbrev pub item_kind : Option Value → Bool → String → Checked String
item_kind (some (Value.string kind)) has_role path = ok kind
item_kind (some _) has_role path = err (invalid (join path "type") "must be a string")
item_kind none true path = ok "message"
item_kind none false path = err (missing_parameter (join path "type"))

unfoldable pub input_item : Check
input_item (Value.object fields) path = do
  kind ← item_kind (get fields "type") (contains_key fields "role") path
  shape ← item_shape kind path
  as_object (apply shape fields path)
input_item _ path = err (invalid path "must be an object")

unfoldable pub input : Check
input (Value.string text) path = ok (Value.string text)
input (Value.array items) path = each items path input_item
input _ path = err (invalid path "must be a string or an array of input items")
