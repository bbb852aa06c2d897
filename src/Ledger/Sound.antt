-- ===== src/Ledger/Sound.antt =====
-- The books of the ledger: what holds of the database between operations.
pub mod Rows
pub mod Finish
pub mod Append
pub mod States
use quotamiser.Prelude.{ℕ, ◌≤◌, String, ◌≡◌, Bool, true, List, if◌then◌else◌, sum_by, All}
use quotamiser.Prelude.Int.{i64_max}
use quotamiser.Ledger.State.{State, is_active}
use quotamiser.Ledger.Schema.{PoolEpoch, Reservation, Db, row_check}
use quotamiser.Ledger.Core.Pools.{is_open, reserved_of, consumed_of, share}

-- What a row holds of a pool and an epoch: its liability, while it is active.
abbrev pub active_at : String → ℕ → Reservation → ℕ
active_at q f r = if is_active r.state then share r.pool_id r.epoch q f r.liability else 0

abbrev pub active_sum : List Reservation → String → ℕ → ℕ
active_sum rows q f = sum_by (active_at q f) rows

-- Every row has the state and the liability of its group.
abbrev pub HasView : (ℕ → State × ℕ) → Reservation → Type 0
HasView view r = (r.state ≡ (view r.root_id).0) × (r.liability ≡ (view r.root_id).1)

abbrev pub IsGrouped : List Reservation → Type 0
IsGrouped rows = (view : ℕ → State × ℕ) × All (HasView view) rows

abbrev pub HasPool : List PoolEpoch → Reservation → Type 0
HasPool pools r = is_open pools r.pool_id r.epoch ≡ true

abbrev pub IsChecked : Reservation → Type 0
IsChecked r = row_check r ≡ true

-- The root of a group is the oldest of its rows.
abbrev pub IsRooted : Reservation → Type 0
IsRooted r = r.root_id ≤ r.id

pub record IsSound (db : Db) : Type 0 where
  -- `reserved` is the total of the liabilities that are active
  pub totals : (q : String) (f : ℕ) → reserved_of db.pools q f ≡ active_sum db.rows q f
  -- the rows of a group never disagree
  pub grouped : IsGrouped db.rows
  -- the foreign key of `reservation`
  pub keyed : All (HasPool db.pools) db.rows
  -- the CHECKs of `reservation`
  pub checked : All IsChecked db.rows
  pub rooted : All IsRooted db.rows
