-- ===== src/Ledger/Schema.antt =====
-- crates/ledger/src/schema.rs: the tables, with a list of rows for each, in the order of
-- insertion. Columns with a CHECK that they are at least zero are natural numbers; the other
-- CHECKs of `reservation` are `row_check`.
use quotamiser.Prelude.{
  ℕ, String, Bool, true, ◌&&◌, Option, List, [], ◌∷◌, ltb, if◌then◌else◌, ◌==◌, str_eq, is_some,
  is_none,
}
use quotamiser.Prelude.Int.{ℤ}
use quotamiser.Ledger.State.{State}
use quotamiser.Ledger.Trust.{LedgerMeta}

pub record PoolEpoch : Type 0 where
  pub pool_id : String
  pub epoch : ℕ
  pub granted : ℕ
  pub consumed : ℕ
  pub reserved : ℕ

pub record Reservation : Type 0 where
  pub id : ℕ
  pub root_id : ℕ
  pub pool_id : String
  pub epoch : ℕ
  pub state : State
  pub liability : ℕ
  pub settled : Option ℕ
  pub response_id : Option String
  pub request_digest : String
  pub model_snapshot : String
  pub service_tier : String
  pub accounting_rev : ℤ
  pub created_at : ℤ

pub record SafetyInput : Type 0 where
  pub key : String
  pub verified_at : ℤ
  pub ttl_seconds : ℕ
  pub budget_initial : ℕ
  pub budget_remaining : ℕ

pub record RequestCounter : Type 0 where
  pub provider : String
  pub epoch : ℕ
  pub limit_per_day : ℕ
  pub used : ℕ

pub record RequestDispatch : Type 0 where
  pub provider : String
  pub at : ℤ

-- The evidence of a latch: a text that the caller gives, or one of the two that `settle` formats.
pub data Evidence : Type 0 where
  text : String → Evidence
  of_reservation : ℕ → Evidence
  of_overrun : ℕ → ℕ → ℕ → Evidence

pub record Latch : Type 0 where
  pub scope : String
  pub reason : String
  pub evidence : Option Evidence
  pub set_at : ℤ
  pub cleared : Option (ℤ × String)

pub record Db : Type 0 where
  pub pools : List PoolEpoch
  pub rows : List Reservation
  pub meta : LedgerMeta
  pub safety : List SafetyInput
  pub counters : List RequestCounter
  pub dispatches : List RequestDispatch
  pub latches : List Latch

-- The primary key of `pool_epoch`.
abbrev pub at_key : String → ℕ → PoolEpoch → Bool
at_key pool epoch pe = str_eq pe.pool_id pool && pe.epoch == epoch

-- CHECK ((state = 'SETTLED') = (settled IS NOT NULL)).
abbrev pub settled_check : State → Option ℕ → Bool
settled_check State.settled s = is_some s
settled_check _ s = is_none s

-- CHECK (CASE ... END): when a response id may be present.
abbrev pub response_check : State → Option String → Bool
response_check State.dispatched_with_id r = is_some r
response_check State.settled r = true
response_check State.consumed_unrecoverable r = true
response_check _ r = is_none r

abbrev pub row_check : Reservation → Bool
row_check r = settled_check r.state r.settled && response_check r.state r.response_id

-- SELECT COALESCE(MAX(id), 0) + 1 FROM reservation
abbrev pub max_id : List Reservation → ℕ
max_id [] = 0
max_id (r ∷ rows) = if ltb (max_id rows) r.id then r.id else max_id rows
