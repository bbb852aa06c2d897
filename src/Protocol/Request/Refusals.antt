-- ===== src/Protocol/Request/Refusals.antt =====
-- The refusals of crates/protocol/src/request.rs, and the paths that they name.
use quotamiser.Prelude.{
  ℕ, zero, suc, ◌/◌, ◌%◌, String, ◌<>◌, some, ltb, ◌||◌, str_eq, if◌then◌else◌, ◌==◌,
}
use quotamiser.Protocol.Request.Code.{RejectionCode, Rejection}

-- `Rejection::new` with a path.
abbrev pub rejection : RejectionCode → String → String → Rejection
rejection code path message = record { code = code; param = some path; message = message }

abbrev pub allowlist_version : String
allowlist_version = "responses-ingress/1"

abbrev pub codex_provider_hint : String
codex_provider_hint =
    "If this request comes from Codex, configure QuotaMiser as a custom model provider rather than overriding the built-in `openai` provider."

-- The decimal digits of a number, the fuel at least the number.
abbrev digit : ℕ → String
digit n =
    if n == 0
    then "0"
    else if n == 1
    then "1"
    else if n == 2
    then "2"
    else if n == 3
    then "3"
    else if n == 4
    then "4"
    else if n == 5
    then "5"
    else if n == 6
    then "6"
    else if n == 7
    then "7"
    else if n == 8
    then "8"
    else "9"

decimal_from : ℕ → ℕ → String
decimal_from zero n = digit (n % 10)
decimal_from (suc fuel) n =
    let rest = decimal_from fuel (n / 10) <> digit (n % 10) in if ltb n 10 then digit n else rest

unfoldable pub decimal : ℕ → String
unfolding decimal_from
decimal n = decimal_from n n

-- `format!("{path}[{index}]")`
abbrev pub item_path : String → ℕ → String
item_path path index = path <> "[" <> decimal index <> "]"

unfoldable pub join : String → String → String
join path key = if str_eq path "" then key else path <> "." <> key

unfoldable pub invalid : String → String → Rejection
invalid path what = rejection RejectionCode.invalid_value path ("`" <> path <> "` " <> what <> ".")

unfoldable pub missing_parameter : String → Rejection
missing_parameter path =
    rejection RejectionCode.missing_parameter path ("`" <> path <> "` is required.")

unfoldable pub unsupported_parameter : String → Rejection
unsupported_parameter path =
    let message =
      "`" <> path <> "` is not supported by QuotaMiser (allowlist " <> allowlist_version <> ")." in
    rejection RejectionCode.unsupported_parameter path
      (if str_eq path "stream_options" then message <> " " <> codex_provider_hint else message)

unfoldable pub unsupported_field : String → String → String → Rejection
unsupported_field path what key =
    let message =
      "`" <> key <> "` is not supported in a " <> what <> " (allowlist " <> allowlist_version
      <> ")." in
    rejection RejectionCode.unsupported_parameter path (
      if str_eq key "internal_chat_message_metadata_passthrough"
        || str_eq key "encrypted_function_args"
      then message <> " " <> codex_provider_hint
      else message)
