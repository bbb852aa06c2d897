-- ===== src/Protocol/Request/Bodies.antt =====
-- What a normalized request of crates/protocol/src/request.rs becomes: the flat form, the bodies
-- for the two providers and for the counter, and the tools it carries. A body is the object that
-- serde_json prints.
use quotamiser.Prelude.{
  String, Option, none, some, List, [], ◌∷◌, map, Bool, true, false, not, ◌||◌, str_eq,
  if◌then◌else◌, and_then,
}
use quotamiser.Protocol.Json.{
  Value, Items, nil, cons, Fields, end, field, get, contains_key, insert, shift_remove, value_get,
  as_str, is_object, text_at, has_type,
}
use quotamiser.Protocol.Request.{CreateRequest}

pub record FlatText : Type 0 where
  pub instructions : Option String
  pub input : String

-- `tools.as_array().is_none_or(|tools| !tools.is_empty())`
abbrev pub is_used : Value → Bool
is_used (Value.array nil) = false
is_used _ = true

abbrev pub some_of : (Value → Bool) → Option Value → Bool
some_of p none = false
some_of p (some value) = p value

-- An output format other than plain text.
abbrev pub formats_output : Fields → Bool
formats_output fields =
    some_of (λ format. not (has_type "text" format))
      (and_then (get fields "text") λ text. value_get text "format")

abbrev pub adds_input : Fields → Bool
adds_input fields =
    some_of is_used (get fields "tools")
    || contains_key fields "tool_choice"
    || formats_output fields

abbrev pub flat_of : Option Value → Option Value → Bool → Option FlatText
flat_of (some (Value.string input)) none added =
    if added then none else some (record { instructions = none; input = input })
flat_of (some (Value.string input)) (some (Value.string text)) added =
    if added then none else some (record { instructions = some text; input = input })
flat_of _ _ added = none

unfoldable pub flat_text : CreateRequest → Option FlatText
flat_text r = flat_of (get r.fields "input") (get r.fields "instructions") (adds_input r.fields)

abbrev pub upstream_service_tier : String
upstream_service_tier = "default"

unfoldable pub openai_body_with_background : Bool → CreateRequest → Value
openai_body_with_background background r = Value.object (
    insert "service_tier" (Value.string upstream_service_tier) (
      insert "stream" (Value.bool true)
        (insert "store" (Value.bool true) (insert "background" (Value.bool background) r.fields))))

unfoldable pub openai_body : CreateRequest → Value
openai_body = openai_body_with_background true

-- The named fields that a request has, in the order of the names.
abbrev pub copy_fields : List String → Fields → Fields → Fields
copy_fields [] fields body = body
copy_fields (name ∷ names) fields body = elim (get fields name) [
  | none ↦ copy_fields names fields body
  | some value ↦ copy_fields names fields (insert name value body)
]

-- `key: {inner: value}`, if the request has an object `key` with the field `inner`.
abbrev pub copy_inner : String → String → Option Value → Fields → Fields
copy_inner key inner (some (Value.object fields)) body = elim (get fields inner) [
  | none ↦ body
  | some value ↦ insert key (Value.object (field inner value end)) body
]
copy_inner key inner _ body = body

abbrev pub openrouter_fields : List String
openrouter_fields =
    "instructions" ∷ "input" ∷ "tools" ∷ "tool_choice" ∷ "parallel_tool_calls" ∷ "max_output_tokens"
    ∷ "temperature" ∷ "top_p" ∷ []

unfoldable pub openrouter_body : String → CreateRequest → Value
openrouter_body model r =
    let named = copy_fields openrouter_fields r.fields (field "model" (Value.string model) end) in
    let effort = copy_inner "reasoning" "effort" (get r.fields "reasoning") named in
    let format = copy_inner "text" "format" (get r.fields "text") effort in
    Value.object (insert "store" (Value.bool false) (insert "stream" (Value.bool true) format))

unfoldable pub needs_structured_output : CreateRequest → Bool
needs_structured_output r =
    elim (and_then (and_then (get r.fields "text") λ text. value_get text "format")
      λ format. text_at format "type") [ none ↦ false | some kind ↦ not (str_eq kind "text") ]

pub record ToolUsage : Type 0 where
  pub function : Bool
  pub custom : Bool
  pub namespace : Bool
  pub additional_tools : Bool

abbrev pub no_tools : ToolUsage
no_tools = record { function = false; custom = false; namespace = false; additional_tools = false }

-- A tool by its type. `inside` takes up the tools of a namespace.
abbrev pub note_kind : Option String → (ToolUsage → ToolUsage) → ToolUsage → ToolUsage
note_kind none inside usage = usage
note_kind (some kind) inside usage =
    if str_eq kind "function"
    then record usage { function = true }
    else if str_eq kind "custom"
    then record usage { custom = true }
    else if str_eq kind "namespace"
    then inside (record usage { namespace = true })
    else usage

-- `absorb_tools`. What stands under the key `tools` of a tool is walked on the value itself: of
-- the entries of an object, where a key stands once, those with another key are passed over.
unfoldable mutual
  pub absorb_tools : Items → ToolUsage → ToolUsage
  absorb_tools nil usage = usage
  absorb_tools (cons tool tools) usage = absorb_tools tools (absorb_tool tool usage)

  pub absorb_tool : Value → ToolUsage → ToolUsage
  absorb_tool (Value.object fields) usage =
      note_kind (and_then (get fields "type") as_str) (absorb_nested fields) usage
  absorb_tool _ usage = usage

  pub absorb_nested : Fields → ToolUsage → ToolUsage
  absorb_nested end usage = usage
  absorb_nested (field key value rest) usage =
      let later = absorb_nested rest usage in
      let here = absorb_value value usage in if str_eq key "tools" then here else later

  pub absorb_value : Value → ToolUsage → ToolUsage
  absorb_value (Value.array items) usage = absorb_tools items usage
  absorb_value _ usage = usage

abbrev pub absorb_at : Option Value → ToolUsage → ToolUsage
absorb_at (some (Value.array tools)) usage = absorb_tools tools usage
absorb_at _ usage = usage

abbrev pub is_additional_tools : Value → Bool
is_additional_tools item = has_type "additional_tools" item

unfoldable pub absorb_items : Items → ToolUsage → ToolUsage
absorb_items nil usage = usage
absorb_items (cons item items) usage = absorb_items items (
    if is_additional_tools item
    then absorb_at (value_get item "tools") (record usage { additional_tools = true })
    else usage)

abbrev pub absorb_input : Option Value → ToolUsage → ToolUsage
absorb_input (some (Value.array items)) usage = absorb_items items usage
absorb_input _ usage = usage

unfoldable pub tool_usage : CreateRequest → ToolUsage
tool_usage r = absorb_input (get r.fields "input") (absorb_at (get r.fields "tools") no_tools)

abbrev pub counted_fields : List String
counted_fields =
    "model" ∷ "instructions" ∷ "input" ∷ "tools" ∷ "tool_choice" ∷ "parallel_tool_calls"
    ∷ "reasoning" ∷ "text" ∷ []

-- The items that are not `additional_tools`, and those that are.
abbrev pub without_tools : Items → Items
without_tools nil = nil
without_tools (cons item items) =
    if is_additional_tools item then without_tools items else cons item (without_tools items)

abbrev pub tools_items : Items → List Value
tools_items nil = []
tools_items (cons item items) =
    if is_additional_tools item then item ∷ tools_items items else tools_items items

abbrev pub tools_or_none : Option Value → Value
tools_or_none (some tools) = tools
tools_or_none none = Value.array nil

-- The body that declares the tools of one item at the top level.
unfoldable pub body_of_tools : Fields → Items → Value → Value
body_of_tools counted remaining item =
    let body =
      insert "tools" (tools_or_none (value_get item "tools"))
        (insert "input" (Value.array remaining) counted) in
    Value.object
      (if some_of is_object (get body "tool_choice") then shift_remove "tool_choice" body else body)

abbrev pub bodies_of : Fields → Option Value → List Value
bodies_of counted (some (Value.array items)) =
    Value.object counted ∷ map (body_of_tools counted (without_tools items)) (tools_items items)
bodies_of counted _ = Value.object counted ∷ []

unfoldable pub input_count_bodies : CreateRequest → List Value
input_count_bodies r = bodies_of (copy_fields counted_fields r.fields end) (get r.fields "input")
