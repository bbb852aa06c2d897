-- ===== src/Ledger/Transitions/Usage.antt =====
-- The usage that a provider reports, and its validation (crates/ledger/src/transitions.rs).
use quotamiser.Prelude.{
  ℕ, String, Bool, ◌||◌, not, Option, str_eq, Result, ◌>>=◌, ◌>>◌, ensure, ok_or,
}
use quotamiser.Prelude.Int.{ℤ, pos, pos_part, ltb_ℤ, eqb_ℤ, checked_add}
use quotamiser.Ledger.Core.{GroupRow}

pub record Usage : Type 0 where
  pub input_tokens : ℤ
  pub output_tokens : ℤ

pub record CompletedResponse : Type 0 where
  pub usage : Option Usage
  pub model : String
  pub service_tier : String

pub data UsageDefect : Type 0 where
  missing negative overflow : UsageDefect
  model_mismatch service_tier_mismatch accounting_revision_mismatch : UsageDefect

pub data Settlement : Type 0 where
  -- the actual consumption, and whether it overran the liability
  settled_as : ℕ → Bool → Settlement
  written_off : UsageDefect → Settlement

-- format!("invalid usage: {defect:?}")
abbrev pub defect_reason : UsageDefect → String
defect_reason missing = "invalid usage: Missing"
defect_reason negative = "invalid usage: Negative"
defect_reason overflow = "invalid usage: Overflow"
defect_reason model_mismatch = "invalid usage: ModelMismatch"
defect_reason service_tier_mismatch = "invalid usage: ServiceTierMismatch"
defect_reason accounting_revision_mismatch = "invalid usage: AccountingRevisionMismatch"

-- The sum is taken where neither count is negative, so the two are natural numbers by then.
unfoldable pub validate : GroupRow → CompletedResponse → ℤ → Result UsageDefect ℕ
validate head response accounting_rev = do
  usage ← ok_or response.usage missing
  ensure (not (ltb_ℤ usage.input_tokens (pos 0) || ltb_ℤ usage.output_tokens (pos 0))) negative
  ensure (str_eq response.model head.model_snapshot) model_mismatch
  ensure (str_eq response.service_tier head.service_tier) service_tier_mismatch
  ensure (eqb_ℤ accounting_rev head.accounting_rev) accounting_revision_mismatch
  ok_or (checked_add (pos_part usage.input_tokens) (pos_part usage.output_tokens)) overflow
