-- ===== src/Protocol/Request/Code.antt =====
-- The codes of a refusal of crates/protocol/src/request.rs.
use quotamiser.Prelude.{String, Option}

pub data RejectionCode : Type 0 where
  invalid_json duplicate_key unsupported_parameter missing_parameter : RejectionCode
  invalid_value server_side_state hosted_tool unsupported_input_item : RejectionCode
  remote_reference : RejectionCode

unfoldable pub as_str : RejectionCode → String
as_str RejectionCode.invalid_json = "invalid_json"
as_str RejectionCode.duplicate_key = "duplicate_key"
as_str RejectionCode.unsupported_parameter = "unsupported_parameter"
as_str RejectionCode.missing_parameter = "missing_required_parameter"
as_str RejectionCode.invalid_value = "invalid_value"
as_str RejectionCode.server_side_state = "server_side_state_unsupported"
as_str RejectionCode.hosted_tool = "hosted_tool_unsupported"
as_str RejectionCode.unsupported_input_item = "unsupported_input_item"
as_str RejectionCode.remote_reference = "remote_reference_unsupported"

pub record Rejection : Type 0 where
  pub code : RejectionCode
  pub param : Option String
  pub message : String
