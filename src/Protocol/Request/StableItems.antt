-- ===== src/Protocol/Request/StableItems.antt =====
-- The checks of input items in crates/protocol/src/request.rs take back their own results.
use quotamiser.Prelude.{
  String, ◌≡◌, refl, sym, ap, subst, arith, List, ok, str_eq, none, some, Bool, true, false,
  >>=-eq-ok, inl, inr, Option-cases,
}
use quotamiser.Protocol.Json.{Value, Fields, get, contains_key}
use quotamiser.Protocol.Request.Shape.{Shape, apply, by_kind}
use quotamiser.Protocol.Request.Checks.{
  one_of, message_role, developer_role, message_phase, image_detail, is_among,
}
use quotamiser.Protocol.Request.InputItems.{
  input_text, output_text, refusal, input_image, summary_text, reasoning_text, part_shape,
  content_part, text_or_parts, message_content, tool_output, only_shape, summary_parts,
  reasoning_text_parts, message, reasoning_item, function_call, function_call_output,
  custom_tool_call, custom_tool_call_output, additional_tools, item_shape, item_kind, input_item,
  input,
}
use quotamiser.Protocol.Request.Stable.{Stable, StableRules, apply-again, apply-get}
use quotamiser.Protocol.Request.StableParts.{
  StableKinds, array_of-Stable, by_kind-Stable, each-again, as_object-ok, string-exact,
}
use quotamiser.Protocol.Request.StableKinds.{
  refused-StableKinds, the_shape, chosen-StableKinds, guarded-StableKinds, always-StableKinds,
}
use quotamiser.Protocol.Request.StableTools.{tool_list-Stable}
use quotamiser.Protocol.Request.StableChecks.{
  string-Stable, non_empty_string-Stable, inline_image_url-Stable, one_of-Stable,
}

input_image-StableRules : StableRules input_image.fields
unfolding image_detail
input_image-StableRules = (string-Stable, (inline_image_url-Stable, (one_of-Stable _, tt)))

-- The parts that are accepted, whichever of them are.
part-StableKinds : (accepted : List String) → StableKinds (part_shape accepted)
part-StableKinds accepted = guarded-StableKinds (is_among accepted) _ _ (
    chosen-StableKinds (λ kind. str_eq kind "input_text") input_text _
      (string-Stable, (string-Stable, tt)) refl
      (chosen-StableKinds (λ kind. str_eq kind "output_text") output_text _
        (string-Stable, (string-Stable, tt)) refl
        (chosen-StableKinds (λ kind. str_eq kind "refusal") refusal _
          (string-Stable, (string-Stable, tt)) refl
          (always-StableKinds input_image input_image-StableRules refl))))

text_or_parts-Stable : (accepted : List String) → Stable (text_or_parts accepted)
unfolding content_part
text_or_parts-Stable accepted (Value.string text) kept path other h = ground arith
text_or_parts-Stable accepted (Value.array items) kept path other h =
    let (out, same, again) =
      each-again (by_kind (part_shape accepted)) items path other
        (by_kind-Stable (part_shape accepted) (part-StableKinds accepted)) h in
    subst (λ kept. text_or_parts accepted kept other ≡ ok kept) (sym same) again
text_or_parts-Stable accepted value kept path other h = ground arith

message_content-Stable : Stable message_content
unfolding message_content
message_content-Stable = text_or_parts-Stable _

tool_output-Stable : Stable tool_output
unfolding tool_output
tool_output-Stable = text_or_parts-Stable _

summary_parts-Stable : Stable summary_parts
unfolding summary_parts
summary_parts-Stable =
    array_of-Stable (by_kind (only_shape "summary_text" "must be `summary_text`" summary_text)) (
      by_kind-Stable (only_shape "summary_text" "must be `summary_text`" summary_text) (
        chosen-StableKinds (λ kind. str_eq kind "summary_text") summary_text _
          (string-Stable, (string-Stable, tt)) refl (refused-StableKinds _)))

reasoning_text_parts-Stable : Stable reasoning_text_parts
unfolding reasoning_text_parts
reasoning_text_parts-Stable =
    array_of-Stable
      (by_kind (only_shape "reasoning_text" "must be `reasoning_text`" reasoning_text))
      (by_kind-Stable (only_shape "reasoning_text" "must be `reasoning_text`" reasoning_text) (
        chosen-StableKinds (λ kind. str_eq kind "reasoning_text") reasoning_text _
          (string-Stable, (string-Stable, tt)) refl (refused-StableKinds _)))

message-StableRules : StableRules message.fields
unfolding message_role message_phase
message-StableRules =
    (string-Stable, (one_of-Stable _, (message_content-Stable, (one_of-Stable _, tt))))

item-StableKinds : StableKinds item_shape
unfolding developer_role
item-StableKinds =
    chosen-StableKinds (λ kind. str_eq kind "message") message _ message-StableRules refl
      (chosen-StableKinds (λ kind. str_eq kind "reasoning") reasoning_item _
        (
          string-Stable,
          (summary_parts-Stable, (reasoning_text_parts-Stable, (non_empty_string-Stable, tt))),
        )
        refl
        (chosen-StableKinds (λ kind. str_eq kind "function_call") function_call _
          (
            string-Stable,
            (
              non_empty_string-Stable,
              (non_empty_string-Stable, (string-Stable, (string-Stable, tt))),
            ),
          )
          refl
          (chosen-StableKinds (λ kind. str_eq kind "function_call_output") function_call_output _
            (
              string-Stable,
              (non_empty_string-Stable, (string-Stable, (string-Stable, (tool_output-Stable, tt)))),
            )
            refl
            (chosen-StableKinds (λ kind. str_eq kind "custom_tool_call") custom_tool_call _
              (
                string-Stable,
                (
                  non_empty_string-Stable,
                  (non_empty_string-Stable, (string-Stable, (string-Stable, tt))),
                ),
              )
              refl
              (chosen-StableKinds (λ kind. str_eq kind "custom_tool_call_output")
                custom_tool_call_output _
                (
                  string-Stable,
                  (non_empty_string-Stable, (string-Stable, (tool_output-Stable, tt))),
                )
                refl
                (chosen-StableKinds (λ kind. str_eq kind "additional_tools") additional_tools _
                  (string-Stable, (one_of-Stable _, (tool_list-Stable, tt))) refl
                  (refused-StableKinds _)))))))

item_kind_named :
    (value : Value) (has_role role_again : Bool) (path other : String) {kind : String}
    → item_kind (some value) has_role path ≡ ok kind
    → item_kind (some value) role_again other ≡ ok kind
item_kind_named (Value.string text) has_role role_again path other h = h
item_kind_named value has_role role_again path other h = ground arith

item_kind_unnamed :
    (has_role : Bool) (path : String) {kind : String}
    → item_kind none has_role path ≡ ok kind
    → (has_role ≡ true) × ("message" ≡ kind)
item_kind_unnamed true path h = (refl, ground arith)
item_kind_unnamed false path h = ground arith

one_of-exact :
    (accepted : List String) (value kept : Value) (path : String)
    → one_of accepted value path ≡ ok kept
    → value ≡ kept
unfolding one_of
one_of-exact accepted value kept path h = ground arith

-- The kind of an item that names none is that of a message, whose role is kept.
item_kind-again :
    (fields out : Fields) (kind path other : String) (shape : Shape)
    → item_kind (get fields "type") (contains_key fields "role") path ≡ ok kind
    → item_shape kind path ≡ ok shape
    → apply shape fields path ≡ ok out
    → get out "type" ≡ get fields "type"
    → item_kind (get out "type") (contains_key out "role") other ≡ ok kind
unfolding message_role
item_kind-again fields out kind path other shape named chosen applies read =
    elim (Option-cases (get fields "type")) [
      | inr (value, at_type) ↦
          rw (read, at_type) (item_kind_named value _ _ path other (rw at_type at named))
      | inl none_at ↦
          let (has_role, unnamed) = item_kind_unnamed _ path (rw none_at at named) in
          let first : item_shape "message" path ≡ ok shape =
            subst (λ kind. item_shape kind path ≡ ok shape) (sym unnamed) chosen in
          let same : message ≡ shape = the_shape first in
          let role =
            apply-get message path fields "role" refl (one_of-exact _)
              (subst (λ shape. apply shape fields path ≡ ok out) (sym same) applies) in
          rw (read, none_at, role, has_role) (ap ok unnamed)
    ]

input_item-Stable : Stable input_item
unfolding input_item
input_item-Stable (Value.object fields) kept path other h =
    let (kind, named, later) =
      >>=-eq-ok (item_kind (get fields "type") (contains_key fields "role") path) _ h in
    let (shape, chosen, last) = >>=-eq-ok (item_shape kind path) _ later in
    let (out, applies, same) = as_object-ok (apply shape fields path) last in
    let (again, rules, at_type) = item-StableKinds kind path other shape chosen in
    let read = apply-get shape path fields "type" at_type string-exact applies in
    let kind_again = item_kind-again fields out kind path other shape named chosen applies read in
    let twice = apply-again shape fields path other rules applies in
    subst (λ kept. input_item kept other ≡ ok kept) (sym same) (rw (kind_again, again, twice))
input_item-Stable value kept path other h = ground arith

pub input-Stable : Stable input
unfolding input
input-Stable (Value.array items) kept path other h =
    let (out, same, again) = each-again input_item items path other input_item-Stable h in
    subst (λ kept. input kept other ≡ ok kept) (sym same) again
input-Stable value kept path other h = ground arith
