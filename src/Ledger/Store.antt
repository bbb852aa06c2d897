-- ===== src/Ledger/Store.antt =====
-- The state of `Ledger` (crates/ledger/src/ledger.rs): the database, the external record, and
-- the verdict of the last start. An operation returns its outcome and the ledger after it. An
-- immediate transaction that is not committed leaves the database as it was.
use quotamiser.Prelude.{ok, err}
use quotamiser.Ledger.Error.{Outcome}
use quotamiser.Ledger.Trust.{External, TrustVerdict}
use quotamiser.Ledger.Schema.{Db}

pub record Ledger : Type 0 where
  pub db : Db
  pub hwm : External
  pub trust : TrustVerdict

abbrev pub Operation : Type 0 → Type 0
Operation A = Ledger → Outcome A × Ledger

-- The body of a transaction: an error rolls it back.
abbrev pub Transaction : Type 0 → Type 0
Transaction A = Db → Outcome (A × Db)

abbrev pub transact : {A : Type 0} → Transaction A → Operation A
transact body l = elim (body l.db) [
  | ok (a, db) ↦ (ok a, record l { db = db })
  | err e ↦ (err e, l)
]
