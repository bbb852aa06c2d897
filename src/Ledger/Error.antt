-- ===== src/Ledger/Error.antt =====
-- crates/ledger/src/error.rs. The text of an error is kept as what it is formatted from.
use quotamiser.Prelude.{ℕ, String, Result}
use quotamiser.Ledger.State.{State}

pub data IntegrityCause : Type 0 where
  -- "pool {pool_id} has no row for epoch {epoch}"
  no_pool_row : String → ℕ → IntegrityCause
  -- "pool {pool_id} epoch {epoch} counters would go negative"
  negative_counters : String → ℕ → IntegrityCause
  -- "reservation group {root} has rows that disagree"
  rows_disagree : ℕ → IntegrityCause
  -- "reservation group {root}: expected to update {expected} rows, updated {changed}"
  rows_changed : ℕ → ℕ → ℕ → IntegrityCause
  -- "{split_groups} reservation groups disagree internally"
  split_groups : ℕ → IntegrityCause
  -- "{mismatched} pool epochs have a reserved total that does not match ..."
  mismatched_totals : ℕ → IntegrityCause
  -- "no grant supplied for pool {pool_id} which has active reservations"
  no_grant : String → IntegrityCause
  -- "cannot adopt consumption for {pool_id} epoch {epoch}: not open"
  adopt_not_open : String → ℕ → IntegrityCause
  -- "external high-water mark {why}"
  external_mark : String → IntegrityCause

pub data LedgerError : Type 0 where
  sqlite io storage_contract overflow : LedgerError
  not_found : ℕ → LedgerError
  illegal_transition : ℕ → State → State → LedgerError
  integrity : IntegrityCause → LedgerError
  locked : LedgerError

-- The crate's `Result<T>`.
abbrev pub Outcome : Type 0 → Type 0
Outcome A = Result LedgerError A
