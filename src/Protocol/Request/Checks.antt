-- ===== src/Protocol/Request/Checks.antt =====
-- The checks of single values in crates/protocol/src/request.rs.
use quotamiser.Prelude.{
  String, ◌<>◌, Option, none, some, List, [], ◌∷◌, Bool, false, not, ltb, str_eq, any,
  if◌then◌else◌, ok, err,
}
use text.Mathlib.Text.{starts_with}
use quotamiser.Protocol.Json.{Value, Fields, end, field, as_u64, is_string}
use quotamiser.Protocol.Request.Code.{RejectionCode}
use quotamiser.Protocol.Request.Refusals.{rejection, invalid, join}
use quotamiser.Protocol.Request.Shape.{Check, array_of}

unfoldable pub string : Check
string (Value.string text) path = ok (Value.string text)
string _ path = err (invalid path "must be a string")

unfoldable pub non_empty_string : Check
non_empty_string (Value.string text) path =
    if str_eq text ""
    then err (invalid path "must be a non-empty string")
    else ok (Value.string text)
non_empty_string _ path = err (invalid path "must be a non-empty string")

unfoldable pub boolean : Check
boolean (Value.bool b) path = ok (Value.bool b)
boolean _ path = err (invalid path "must be a boolean")

unfoldable pub boolean_or_null : Check
boolean_or_null (Value.bool b) path = ok (Value.bool b)
boolean_or_null Value.null path = ok Value.null
boolean_or_null _ path = err (invalid path "must be a boolean or null")

unfoldable pub number : Check
number (Value.number n) path = ok (Value.number n)
number _ path = err (invalid path "must be a number")

unfoldable pub positive_integer : Check
positive_integer value path = elim (as_u64 value) [
  | some n ↦ if ltb 0 n then ok value else err (invalid path "must be a positive integer")
  | none ↦ err (invalid path "must be a positive integer")
]

unfoldable pub json_object : Check
json_object (Value.object fields) path = ok (Value.object fields)
json_object _ path = err (invalid path "must be an object")

unfoldable pub not_deferred : Check
not_deferred (Value.bool false) path = ok (Value.bool false)
not_deferred _ path =
    err (invalid path "deferred tools need `tool_search`, which QuotaMiser does not allow")

unfoldable pub inline_image_url : Check
inline_image_url (Value.string url) path =
    if starts_with url "data:"
    then ok (Value.string url)
    else err (
        rejection RejectionCode.remote_reference path
          "Only inline `data:` image URLs are accepted: a remote image could change between counting and generation.")
inline_image_url _ path = err (invalid path "must be a string")

-- `accepted.join(", ")`
abbrev pub comma_list : List String → String
comma_list [] = ""
comma_list (name ∷ []) = name
comma_list (name ∷ names) = name <> ", " <> comma_list names

abbrev pub is_among : List String → String → Bool
is_among accepted text = any (λ name. str_eq name text) accepted

unfoldable pub one_of : List String → Check
one_of accepted (Value.string text) path =
    if is_among accepted text
    then ok (Value.string text)
    else err (invalid path ("must be one of: " <> comma_list accepted))
one_of accepted _ path = err (invalid path ("must be one of: " <> comma_list accepted))

unfoldable pub message_role : Check
message_role = one_of ("user" ∷ "assistant" ∷ "system" ∷ "developer" ∷ [])

unfoldable pub developer_role : Check
developer_role = one_of ("developer" ∷ [])

unfoldable pub message_phase : Check
message_phase = one_of ("commentary" ∷ "final_answer" ∷ [])

unfoldable pub image_detail : Check
image_detail = one_of ("auto" ∷ "low" ∷ "high" ∷ "original" ∷ [])

unfoldable pub grammar_syntax : Check
grammar_syntax = one_of ("lark" ∷ "regex" ∷ [])

unfoldable pub reasoning_effort : Check
reasoning_effort = one_of ("none" ∷ "minimal" ∷ "low" ∷ "medium" ∷ "high" ∷ "xhigh" ∷ [])

unfoldable pub reasoning_summary : Check
reasoning_summary = one_of ("auto" ∷ "concise" ∷ "detailed" ∷ "none" ∷ [])

unfoldable pub reasoning_context : Check
reasoning_context = one_of ("auto" ∷ "current_turn" ∷ "all_turns" ∷ [])

unfoldable pub verbosity : Check
verbosity = one_of ("low" ∷ "medium" ∷ "high" ∷ [])

unfoldable pub cache_ttl : Check
cache_ttl = one_of ("30m" ∷ [])

-- The first key whose value is not a string.
abbrev pub first_other : Fields → Option String
first_other end = none
first_other (field key value rest) = if not (is_string value) then some key else first_other rest

unfoldable pub metadata : Check
metadata (Value.object entries) path = elim (first_other entries) [
  | some key ↦ err (invalid (join path key) "must be a string")
  | none ↦ ok (Value.object entries)
]
metadata _ path = err (invalid path "must be an object of strings")

abbrev pub included : Check
included (Value.string name) path =
    if str_eq name "reasoning.encrypted_content"
    then ok (Value.string name)
    else err (invalid path "only `reasoning.encrypted_content` may be included")
included _ path = err (invalid path "only `reasoning.encrypted_content` may be included")

unfoldable pub include : Check
include = array_of included
