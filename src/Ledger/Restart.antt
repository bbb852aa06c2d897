-- ===== src/Ledger/Restart.antt =====
-- The start of a process in crates/ledger/src/ledger.rs: the integrity check, the assessment of
-- trust, and what becomes of the reservations that the previous run left behind.
pub mod Books
pub mod Fates
pub mod Opening
use quotamiser.Prelude.{
  ℕ, zero, suc, ◌+◌, ◌-◌, String, Bool, true, false, ◌&&◌, ◌||◌, not, Option, none, some, List, [],
  ◌∷◌, map, ltb, leb, ◌==◌, str_eq, if◌then◌else◌, Result, ok, err, ◌>>=◌, ◌>>◌, ensure, ok_or,
  and_then, find?, update, select, count, sum_by, any,
}
use quotamiser.Prelude.Int.{ℤ, pos, sub_ℕ, i64_max}
use quotamiser.Ledger.State.{State, state_eq, is_active}
use quotamiser.Ledger.Error.{LedgerError, Outcome, IntegrityCause, integrity, io, sqlite}
use quotamiser.Ledger.Trust.{
  HighWaterMark, LedgerMeta, External, Assessment, TrustVerdict, UnknownReason, trusted, unknown,
  assess,
}
use quotamiser.Ledger.Schema.{PoolEpoch, Reservation, Db}
use quotamiser.Ledger.Core.{in_group, in_group_at, has_id, update_rows, adjust_pool}
use quotamiser.Ledger.Store.{Ledger, Operation, Transaction, transact}

-- HAVING COUNT(DISTINCT state) > 1 OR COUNT(DISTINCT liability) > 1: a group is split when one of
-- its rows disagrees with the first.
abbrev pub splits : Reservation → Reservation → Bool
splits r s =
    r.root_id == s.root_id && (not (state_eq r.state s.state) || not (r.liability == s.liability))

-- The groups that are split, each counted at its first row.
unfoldable pub split_groups : List Reservation → List Reservation → ℕ
split_groups seen [] = 0
split_groups seen (r ∷ rows) =
    (if not (any (in_group r.root_id) seen) && any (splits r) rows then 1 else 0)
    + split_groups (r ∷ seen) rows

-- r.pool_id = pe.pool_id AND r.epoch = pe.epoch AND r.state IN ('RESERVED', ...)
abbrev pub counts_in : PoolEpoch → Reservation → Bool
counts_in pe r = str_eq r.pool_id pe.pool_id && r.epoch == pe.epoch && is_active r.state

abbrev pub total_of : PoolEpoch → List Reservation → ℕ
total_of pe rows = sum_by (λ r. r.liability) (select (counts_in pe) rows)

abbrev pub mismatched : List Reservation → PoolEpoch → Bool
mismatched rows pe = not (pe.reserved == total_of pe rows)

-- A SUM beyond an i64 is an error of SQLite.
unfoldable pub check_integrity : Db → Outcome (Unit {0})
check_integrity db = do
  let split = split_groups [] db.rows
  ensure (split == 0) (integrity (IntegrityCause.split_groups split))
  ensure (not (any (λ pe. ltb i64_max (total_of pe db.rows)) db.pools)) sqlite
  let wrong = count (mismatched db.rows) db.pools
  ensure (wrong == 0) (integrity (IntegrityCause.mismatched_totals wrong))

unfoldable pub mark_clean_shutdown : Operation (Unit {0})
mark_clean_shutdown = transact λ db. do
  check_integrity db
  ok (tt, record db { meta = record db.meta { clean_shutdown = true } })

-- The row that the external record names.
abbrev pub row_of : List Reservation → ℕ → Option (State × ℕ)
row_of rows id = and_then (find? (has_id id) rows) (λ r. some (r.state, r.liability))

unfoldable pub assess_trust : Ledger → Assessment
assess_trust l = assess l.db.meta l.hwm (row_of l.db.rows)

abbrev pub rows_interpretable : TrustVerdict → Bool
rows_interpretable trusted = true
rows_interpretable (unknown UnknownReason.unclean_shutdown) = true
rows_interpretable (unknown _) = false

abbrev pub set_state : State → Reservation → Reservation
set_state to r = record r { state = to }

abbrev pub in_state : State → Reservation → Bool
in_state s r = state_eq r.state s

-- UPDATE reservation SET state = ... WHERE ..., whatever the number of rows.
unfoldable pub relabel_rows :
    (Reservation → Bool) → State → List Reservation → Outcome (List Reservation)
relabel_rows p to rows = do (_, rows') ← update_rows p (set_state to) rows; ok rows'

-- The promotion of the one uncommitted dispatch, from the record that was read again.
unfoldable pub promote : Option ℕ → Option HighWaterMark → Db → Outcome Db
promote (some root) (some external) db = do
  rows ← relabel_rows (in_group_at root State.reserved) State.dispatched_id_unknown db.rows
  ok (record db {
    rows = rows;
    meta = record db.meta {
      generation = external.generation;
      cumulative_liability = external.cumulative_liability;
    };
  })
promote _ _ db = ok db

unfoldable pub release_rows : List PoolEpoch → List Reservation → Outcome (List PoolEpoch)
release_rows pools [] = ok pools
release_rows pools (r ∷ unsent) = do
  pools' ← adjust_pool pools r.pool_id r.epoch (sub_ℕ 0 r.liability) (pos 0)
  release_rows pools' unsent

-- What becomes of the RESERVED rows.
unfoldable pub normalize_reserved : Bool → Db → Outcome Db
normalize_reserved true db = do
  pools ← release_rows db.pools (select (in_state State.reserved) db.rows)
  rows ← relabel_rows (in_state State.reserved) State.released_unsent db.rows
  ok (record db { pools = pools; rows = rows })
normalize_reserved false db = do
  rows ← relabel_rows (in_state State.reserved) State.dispatched_id_unknown db.rows
  ok (record db { rows = rows })

unfoldable pub normalize_dispatching : Db → Outcome Db
normalize_dispatching db = do
  rows ← relabel_rows (in_state State.dispatching) State.dispatched_id_unknown db.rows
  ok (record db { rows = rows })

unfoldable pub normalize_body : Assessment → Option HighWaterMark → Transaction (Unit {0})
normalize_body assessment external db = do
  promoted ← promote assessment.promote_to_id_unknown external db
  resolved ← normalize_dispatching promoted
  db' ← normalize_reserved (rows_interpretable assessment.verdict) resolved
  ok (tt, record db' { meta = record db'.meta { clean_shutdown = false } })

-- The record is read again only where there is something to promote.
abbrev pub read_again : Option ℕ → External → Outcome (Option HighWaterMark)
read_again none hwm = ok none
read_again (some _) (ok external) = ok external
read_again (some _) (err _) = err io

unfoldable pub normalize_after_restart : Assessment → Operation (Unit {0})
normalize_after_restart assessment l = elim (read_again assessment.promote_to_id_unknown l.hwm) [
  | err e ↦ (err e, l)
  | ok external ↦ transact (normalize_body assessment external) l
]

abbrev pub with_verdict : Assessment → Outcome (Unit {0}) × Ledger → Outcome Assessment × Ledger
with_verdict assessment (err e, l) = (err e, l)
with_verdict assessment (ok _, l) = (ok assessment, record l { trust = assessment.verdict })

abbrev pub if_sound :
    Outcome (Unit {0}) → Outcome Assessment × Ledger → Ledger → Outcome Assessment × Ledger
if_sound (err e) next l = (err e, l)
if_sound (ok _) next l = next

-- `Ledger::open`, from the point where the tables exist and the locks are held.
unfoldable pub open_ledger : Db → External → Outcome Assessment × Ledger
open_ledger db hwm =
    let l : Ledger = record { db = db; hwm = hwm; trust = unknown UnknownReason.uninitialized } in
    let assessment = assess_trust l in
    if_sound (check_integrity db) (with_verdict assessment (normalize_after_restart assessment l)) l
