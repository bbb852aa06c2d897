-- ===== src/Protocol/Request/Tools.antt =====
-- Tools and output formats in crates/protocol/src/request.rs: the shapes that are accepted, and
-- the refusal of hosted tools.
use quotamiser.Prelude.{String, ◌<>◌, [], ◌∷◌, ◌||◌, str_eq, if◌then◌else◌, ok, err}
use quotamiser.Protocol.Json.{Value}
use quotamiser.Protocol.Request.Code.{RejectionCode, Rejection}
use quotamiser.Protocol.Request.Refusals.{rejection, join, invalid}
use quotamiser.Protocol.Request.Shape.{Check, Checked, Rule, keep, strip, Shape, array_of, by_kind}
use quotamiser.Protocol.Request.Checks.{
  string, non_empty_string, boolean_or_null, json_object, not_deferred, grammar_syntax,
  reasoning_effort, reasoning_summary, reasoning_context, verbosity, cache_ttl, is_among,
}

abbrev pub type_rule : String × Rule
type_rule = ("type", keep string)

abbrev pub id_rule : String × Rule
id_rule = ("id", strip)

abbrev pub status_rule : String × Rule
status_rule = ("status", strip)

abbrev pub text_format : Shape
text_format = record { what = "custom tool format"; fields = type_rule ∷ []; required = [] }

abbrev pub grammar_format : Shape
grammar_format = record {
  what = "grammar format";
  fields = type_rule ∷ ("syntax", keep grammar_syntax) ∷ ("definition", keep string) ∷ [];
  required = "syntax" ∷ "definition" ∷ [];
}

abbrev pub custom_format_shape : String → String → Checked Shape
custom_format_shape kind path =
    if str_eq kind "text"
    then ok text_format
    else if str_eq kind "grammar"
    then ok grammar_format
    else err (invalid (join path "type") "must be `text` or `grammar`")

unfoldable pub custom_tool_format : Check
custom_tool_format = by_kind custom_format_shape

abbrev pub function_tool : Shape
function_tool = record {
  what = "function tool";
  fields =
      type_rule
      ∷ ("name", keep non_empty_string)
      ∷ ("description", keep string)
      ∷ ("parameters", keep json_object)
      ∷ ("strict", keep boolean_or_null)
      ∷ ("defer_loading", keep not_deferred)
      ∷ [];
  required = "name" ∷ [];
}

abbrev pub custom_tool : Shape
custom_tool = record {
  what = "custom tool";
  fields =
      type_rule
      ∷ ("name", keep non_empty_string)
      ∷ ("description", keep string)
      ∷ ("format", keep custom_tool_format)
      ∷ ("defer_loading", keep not_deferred)
      ∷ [];
  required = "name" ∷ [];
}

unfoldable pub hosted_tool : String → String → Rejection
hosted_tool path kind = rejection RejectionCode.hosted_tool path (
    if is_among
      ("web_search" ∷ "web_search_preview" ∷ "web_search_preview_2025_03_11"
        ∷ "web_search_2025_08_26" ∷ [])
      kind
    then "Hosted web search is not allowed through QuotaMiser: it is billed per call, outside the token grant. In Codex, set `web_search = \"disabled\"` in config.toml."
    else if str_eq kind "tool_search"
    then "`tool_search` is not allowed through QuotaMiser. Codex adds it when MCP servers or apps expose deferred tools; leave them out of the Codex profile that uses QuotaMiser."
    else "Tool type `" <> kind
      <> "` is not allowed through QuotaMiser. Accepted tool types: function, custom, and namespace containing function or custom tools.")

-- The shape of a tool that stands in a namespace.
abbrev pub member_shape : String → String → Checked Shape
member_shape kind path =
    if str_eq kind "function"
    then ok function_tool
    else if str_eq kind "custom"
    then ok custom_tool
    else if str_eq kind "namespace"
    then err (invalid (join path "type") "a namespace cannot contain another namespace")
    else err (hosted_tool (join path "type") kind)

-- `tool_definition` in a namespace, and the list of its members.
unfoldable pub namespace_member : Check
namespace_member = by_kind member_shape

unfoldable pub namespace_members : Check
namespace_members = array_of namespace_member

abbrev pub namespace_tool : Shape
namespace_tool = record {
  what = "namespace tool";
  fields =
      type_rule
      ∷ ("name", keep non_empty_string)
      ∷ ("description", keep string)
      ∷ ("tools", keep namespace_members)
      ∷ [];
  required = "name" ∷ "tools" ∷ [];
}

abbrev pub tool_shape : String → String → Checked Shape
tool_shape kind path =
    if str_eq kind "function"
    then ok function_tool
    else if str_eq kind "custom"
    then ok custom_tool
    else if str_eq kind "namespace"
    then ok namespace_tool
    else err (hosted_tool (join path "type") kind)

-- `tool_definition` outside of a namespace.
unfoldable pub tool_definition : Check
tool_definition = by_kind tool_shape

unfoldable pub tool_list : Check
tool_list = array_of tool_definition

abbrev pub named_tool_choice : Shape
named_tool_choice = record {
  what = "tool_choice";
  fields = type_rule ∷ ("name", keep non_empty_string) ∷ [];
  required = "name" ∷ [];
}

abbrev pub choice_shape : String → String → Checked Shape
choice_shape kind path =
    if str_eq kind "function" || str_eq kind "custom"
    then ok named_tool_choice
    else err (
        invalid (join path "type")
          "must be `auto`, `none`, `required`, or a function or custom tool")

unfoldable pub tool_choice : Check
tool_choice (Value.string choice) path =
    if is_among ("auto" ∷ "none" ∷ "required" ∷ []) choice
    then ok (Value.string choice)
    else err (invalid path "must be `auto`, `none`, `required`, or a function or custom tool")
tool_choice value path = by_kind choice_shape value path

abbrev pub reasoning_shape : Shape
reasoning_shape = record {
  what = "reasoning";
  fields =
      ("effort", keep reasoning_effort)
      ∷ ("summary", keep reasoning_summary)
      ∷ ("context", keep reasoning_context)
      ∷ [];
  required = [];
}

abbrev pub plain_output_format : Shape
plain_output_format = record { what = "text.format"; fields = type_rule ∷ []; required = [] }

abbrev pub json_schema_format : Shape
json_schema_format = record {
  what = "json_schema format";
  fields =
      type_rule
      ∷ ("name", keep non_empty_string)
      ∷ ("schema", keep json_object)
      ∷ ("strict", keep boolean_or_null)
      ∷ ("description", keep string)
      ∷ [];
  required = "name" ∷ "schema" ∷ [];
}

abbrev pub output_shape : String → String → Checked Shape
output_shape kind path =
    if str_eq kind "text" || str_eq kind "json_object"
    then ok plain_output_format
    else if str_eq kind "json_schema"
    then ok json_schema_format
    else err (invalid (join path "type") "must be `text`, `json_object` or `json_schema`")

unfoldable pub output_format : Check
output_format = by_kind output_shape

abbrev pub text_shape : Shape
text_shape = record {
  what = "text";
  fields = ("verbosity", keep verbosity) ∷ ("format", keep output_format) ∷ [];
  required = [];
}

abbrev pub prompt_cache_options : Shape
prompt_cache_options = record {
  what = "prompt_cache_options";
  fields = ("ttl", keep cache_ttl) ∷ [];
  required = [];
}
