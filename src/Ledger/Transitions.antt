-- ===== src/Ledger/Transitions.antt =====
-- crates/ledger/src/transitions.rs: what each transition does to a group and to the counters of
-- its pools.
pub mod Usage
pub mod Effects
pub mod Books
use quotamiser.Prelude.{
  ℕ, suc, String, ◌<>◌, ◌≡◌, Bool, true, false, ◌&&◌, ◌||◌, not, Option, none, some, List, [], ◌∷◌,
  ◌==◌, ltb, str_eq, if◌then◌else◌, Result, ok, err, ◌>>=◌, ◌>>◌, ensure, ok_or, length,
}
use quotamiser.Prelude.Int.{ℤ, pos, sub_ℕ, checked_add}
use quotamiser.Ledger.State.{State, Transition, state_eq, target}
use quotamiser.Ledger.Error.{LedgerError, Outcome, overflow, io, IntegrityCause, integrity}
use quotamiser.Ledger.Trust.{HighWaterMark, LedgerMeta, External}
use quotamiser.Ledger.Schema.{PoolEpoch, Reservation, Evidence, Db}
use quotamiser.Ledger.Core.{
  GroupRow, Group, group_rows, group_state, load_group, ensure_allowed, update_group, update_rows,
  expect_rows, adjust_pool, insert_latch, in_group_at,
}
use quotamiser.Ledger.Store.{Ledger, Operation, Transaction, transact}
use Usage.{
  CompletedResponse, UsageDefect, Settlement, written_off, settled_as, validate, defect_reason,
}

-- `-liability` and the amount that is consumed, for each row in turn.
unfoldable pub adjust_rows : List PoolEpoch → List GroupRow → ℕ → Outcome (List PoolEpoch)
adjust_rows pools [] consumed_per_row = ok pools
adjust_rows pools (row ∷ rows) consumed_per_row = do
  pools' ← adjust_pool pools row.pool_id row.epoch (sub_ℕ 0 row.liability) (pos consumed_per_row)
  adjust_rows pools' rows consumed_per_row

abbrev pub finish_row : State → Option ℕ → Reservation → Reservation
finish_row to settled r = record r { state = to; settled = settled }

unfoldable pub finish : Group → State → ℕ → Option ℕ → Db → Outcome Db
finish g to consumed_per_row settled db = do
  pools ← adjust_rows db.pools (group_rows g) consumed_per_row
  rows ← update_group g (finish_row to settled) db.rows
  ok (record db { pools = pools; rows = rows })

-- The group of `id`, if the transition is allowed from its state.
unfoldable pub load_allowed : Db → ℕ → Transition → Outcome Group
load_allowed db id transition = do
  g ← load_group db.rows id
  ensure_allowed g.root (group_state g) transition
  ok g

-- How the write of the external record can end: nothing was renamed, the new record is in place
-- but the call still failed (syncing the directory), or it succeeded.
pub data WriteOutcome : Type 0 where
  not_written written_unsynced written : WriteOutcome

abbrev pub write_result : WriteOutcome → Outcome (Unit {0})
write_result written = ok tt
write_result _ = err io

-- The record after the write.
abbrev pub after_write : WriteOutcome → HighWaterMark → External → External
after_write not_written next old = old
after_write _ next old = ok (some next)

abbrev pub dispatch_row : Reservation → Reservation
dispatch_row r = record r { state = State.dispatching }

-- The mark that `begin_dispatch` writes.
unfoldable pub next_mark : Db → Group → Outcome HighWaterMark
next_mark db g = do
  generation ← ok_or (checked_add db.meta.generation 1) overflow
  cumulative_liability ← ok_or (checked_add db.meta.cumulative_liability g.head.liability) overflow
  ok (record {
    generation = generation;
    cumulative_liability = cumulative_liability;
    last_reservation = g.root;
  })

-- The transaction that follows the write; `old` is the generation that was read before it.
unfoldable pub commit_dispatch : Group → HighWaterMark → ℕ → Transaction (Unit {0})
commit_dispatch g next old db = do
  (changed, rows) ← update_rows (in_group_at g.root State.reserved) dispatch_row db.rows
  expect_rows changed (length (group_rows g)) g.root
  expect_rows (if db.meta.generation == old then 1 else 0) 1 g.root
  ok (
    tt,
    record db {
      rows = rows;
      meta = record db.meta {
        generation = next.generation;
        cumulative_liability = next.cumulative_liability;
      };
    },
  )

-- What stands before the write: nothing has changed yet.
unfoldable pub prepare_dispatch : Db → ℕ → Outcome (Group × HighWaterMark)
prepare_dispatch db id = do
  g ← load_allowed db id Transition.begin_dispatch
  next ← next_mark db g
  ok (g, next)

unfoldable pub begin_dispatch : ℕ → WriteOutcome → Operation (Unit {0})
begin_dispatch id written_as l = elim (prepare_dispatch l.db id) [
  | err e ↦ (err e, l)
  | ok (g, next) ↦
      let l' : Ledger = record l { hwm = after_write written_as next l.hwm } in
      elim (write_result written_as) [
        | err e ↦ (err e, l')
        | ok _ ↦ transact (commit_dispatch g next l.db.meta.generation) l'
      ]
]

-- COALESCE(?2, response_id)
abbrev pub coalesce : Option String → Option String → Option String
coalesce none old = old
coalesce (some new) old = some new

abbrev pub relabel_row : State → Option String → Reservation → Reservation
relabel_row to response_id r = record r {
  state = to;
  response_id = coalesce response_id r.response_id;
}

unfoldable pub relabel : ℕ → Transition → Option String → Transaction (Unit {0})
relabel id transition response_id db = do
  g ← load_allowed db id transition
  rows ← update_group g (relabel_row (target transition) response_id) db.rows
  ok (tt, record db { rows = rows })

unfoldable pub attach_response_id : ℕ → String → Operation (Unit {0})
attach_response_id id response_id =
    transact (relabel id Transition.attach_response_id (some response_id))

unfoldable pub mark_id_unknown : ℕ → Operation (Unit {0})
mark_id_unknown id = transact (relabel id Transition.mark_id_unknown none)

-- The two arms of `settle`.
unfoldable pub settle_as : Group → Result UsageDefect ℕ → ℤ → Transaction Settlement
settle_as g (err defect) now db = do
  db' ← finish g State.consumed_unrecoverable g.head.liability none db
  ok (
    written_off defect,
    record db' {
      latches =
          insert_latch g.head.pool_id (defect_reason defect) (some (Evidence.of_reservation g.root))
            now db'.latches;
    },
  )
settle_as g (ok actual) now db = do
  db' ← finish g State.settled actual (some actual) db
  let overrun = ltb g.head.liability actual
  let latched =
      insert_latch ("model:" <> g.head.model_snapshot)
        "reported usage exceeded the reserved liability"
        (some (Evidence.of_overrun g.root actual g.head.liability)) now db'.latches
  ok (settled_as actual overrun, record db' { latches = if overrun then latched else db'.latches })

unfoldable pub settle_body : ℕ → CompletedResponse → ℤ → ℤ → Transaction Settlement
settle_body id response accounting_rev now db = do
  g ← load_allowed db id Transition.settle
  settle_as g (validate g.head response accounting_rev) now db

unfoldable pub settle : ℕ → CompletedResponse → ℤ → ℤ → Operation Settlement
settle id response accounting_rev now = transact (settle_body id response accounting_rev now)

-- `write_off`, `release_unsent` and `release_rejected` differ in the transition and in what
-- becomes consumption.
unfoldable pub end_group : Transition → (Group → ℕ) → ℕ → Transaction (Unit {0})
end_group transition consumed id db = do
  g ← load_allowed db id transition
  db' ← finish g (target transition) (consumed g) none db
  ok (tt, db')

unfoldable pub write_off : ℕ → Operation (Unit {0})
write_off id = transact (end_group Transition.unrecoverable (λ g. g.head.liability) id)

unfoldable pub release_unsent : ℕ → Operation (Unit {0})
release_unsent id = transact (end_group Transition.release_unsent (λ g. 0) id)

unfoldable pub release_rejected : ℕ → Operation (Unit {0})
release_rejected id = transact (end_group Transition.reject_before_processing (λ g. 0) id)
