-- ===== src/Protocol/Request/StableTools.antt =====
-- The checks of tools and formats in crates/protocol/src/request.rs take back their own results.
use quotamiser.Prelude.{◌≡◌, refl, sym, subst, arith, ok, str_eq, ◌||◌}
use quotamiser.Protocol.Json.{Value}
use quotamiser.Protocol.Request.Shape.{object_of, by_kind}
use quotamiser.Protocol.Request.Checks.{
  grammar_syntax, reasoning_effort, reasoning_summary, reasoning_context, verbosity,
}
use quotamiser.Protocol.Request.Tools.{
  text_format, grammar_format, function_tool, custom_tool, namespace_tool, named_tool_choice,
  plain_output_format, json_schema_format, custom_format_shape, custom_tool_format, member_shape,
  namespace_member, namespace_members, tool_shape, tool_definition, tool_list, choice_shape,
  tool_choice, reasoning_shape, output_shape, output_format, text_shape,
}
use quotamiser.Protocol.Request.Stable.{Stable, StableRules}
use quotamiser.Protocol.Request.StableParts.{
  StableKinds, array_of-Stable, by_kind-Stable, object_of-Stable, by_kind-object,
}
use quotamiser.Protocol.Request.StableKinds.{
  refused-StableKinds, chosen-StableKinds, skipped-StableKinds,
}
use quotamiser.Protocol.Request.StableChecks.{
  string-Stable, non_empty_string-Stable, boolean_or_null-Stable, json_object-Stable,
  not_deferred-Stable, one_of-Stable,
}

custom_format-StableKinds : StableKinds custom_format_shape
unfolding grammar_syntax
custom_format-StableKinds =
    chosen-StableKinds (λ kind. str_eq kind "text") text_format _ (string-Stable, tt) refl
      (chosen-StableKinds (λ kind. str_eq kind "grammar") grammar_format _
        (string-Stable, (one_of-Stable _, (string-Stable, tt))) refl (refused-StableKinds _))

custom_tool_format-Stable : Stable custom_tool_format
unfolding custom_tool_format
custom_tool_format-Stable = by_kind-Stable custom_format_shape custom_format-StableKinds

function_tool-StableRules : StableRules function_tool.fields
function_tool-StableRules = (
  string-Stable,
  (
    non_empty_string-Stable,
    (string-Stable, (json_object-Stable, (boolean_or_null-Stable, (not_deferred-Stable, tt)))),
  ),
)

custom_tool-StableRules : StableRules custom_tool.fields
custom_tool-StableRules = (
  string-Stable,
  (
    non_empty_string-Stable,
    (string-Stable, (custom_tool_format-Stable, (not_deferred-Stable, tt))),
  ),
)

member-StableKinds : StableKinds member_shape
member-StableKinds =
    chosen-StableKinds (λ kind. str_eq kind "function") function_tool _ function_tool-StableRules
      refl
      (chosen-StableKinds (λ kind. str_eq kind "custom") custom_tool _ custom_tool-StableRules refl
        (skipped-StableKinds (λ kind. str_eq kind "namespace") _ _ (refused-StableKinds _)))

namespace_members-Stable : Stable namespace_members
unfolding namespace_members namespace_member
namespace_members-Stable =
    array_of-Stable (by_kind member_shape) (by_kind-Stable member_shape member-StableKinds)

tool-StableKinds : StableKinds tool_shape
tool-StableKinds =
    chosen-StableKinds (λ kind. str_eq kind "function") function_tool _ function_tool-StableRules
      refl
      (chosen-StableKinds (λ kind. str_eq kind "custom") custom_tool _ custom_tool-StableRules refl
        (chosen-StableKinds (λ kind. str_eq kind "namespace") namespace_tool _
          (
            string-Stable,
            (non_empty_string-Stable, (string-Stable, (namespace_members-Stable, tt))),
          )
          refl (refused-StableKinds _)))

pub tool_list-Stable : Stable tool_list
unfolding tool_list tool_definition
tool_list-Stable = array_of-Stable (by_kind tool_shape) (by_kind-Stable tool_shape tool-StableKinds)

choice-StableKinds : StableKinds choice_shape
choice-StableKinds =
    chosen-StableKinds (λ kind. str_eq kind "function" || str_eq kind "custom") named_tool_choice _
      (string-Stable, (non_empty_string-Stable, tt)) refl (refused-StableKinds _)

-- A named choice stays an object.
pub tool_choice-Stable : Stable tool_choice
unfolding tool_choice
tool_choice-Stable (Value.string choice) kept path other h = ground arith
tool_choice-Stable value kept path other h =
    let (out, same) = by_kind-object choice_shape value path h in
    subst (λ kept. tool_choice kept other ≡ ok kept) (sym same)
      (subst (λ kept. by_kind choice_shape kept other ≡ ok kept) same
        (by_kind-Stable choice_shape choice-StableKinds value kept path other h))

output-StableKinds : StableKinds output_shape
output-StableKinds =
    chosen-StableKinds (λ kind. str_eq kind "text" || str_eq kind "json_object") plain_output_format
      _ (string-Stable, tt) refl
      (chosen-StableKinds (λ kind. str_eq kind "json_schema") json_schema_format _
        (
          string-Stable,
          (
            non_empty_string-Stable,
            (json_object-Stable, (boolean_or_null-Stable, (string-Stable, tt))),
          ),
        )
        refl (refused-StableKinds _))

output_format-Stable : Stable output_format
unfolding output_format
output_format-Stable = by_kind-Stable output_shape output-StableKinds

pub text-Stable : Stable (object_of text_shape)
unfolding verbosity
text-Stable = object_of-Stable text_shape (one_of-Stable _, (output_format-Stable, tt))

pub reasoning-Stable : Stable (object_of reasoning_shape)
unfolding reasoning_effort reasoning_summary reasoning_context
reasoning-Stable =
    object_of-Stable reasoning_shape (one_of-Stable _, (one_of-Stable _, (one_of-Stable _, tt)))
