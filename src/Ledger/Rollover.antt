-- ===== src/Ledger/Rollover.antt =====
-- crates/ledger/src/rollover.rs: the daily rollover, and the adoption of recovered consumption.
pub mod Books
pub mod Coverage
use quotamiser.Prelude.{
  ℕ, zero, suc, ◌+◌, ◌-◌, String, Bool, true, false, ◌&&◌, ◌||◌, not, Option, none, some, List, [],
  ◌∷◌, ◌++◌, map, ltb, leb, ◌==◌, str_eq, if◌then◌else◌, Result, ok, err, ◌>>=◌, ◌>>◌, ensure,
  ok_or, and_then, find?, update, select, any, is_none, unwrap_or,
}
use quotamiser.Prelude.Int.{ℤ, pos, sub_ℕ, try_i64, checked_add}
use quotamiser.Ledger.State.{State, state_eq, is_active}
use quotamiser.Ledger.Error.{LedgerError, Outcome, IntegrityCause, integrity, overflow, io}
use quotamiser.Ledger.Trust.{HighWaterMark, LedgerMeta, External, TrustVerdict, trusted}
use quotamiser.Ledger.Schema.{PoolEpoch, Reservation, Db, at_key, max_id}
use quotamiser.Ledger.Core.{
  PoolCounters, pool_counters, GroupRow, read_group_row, in_group, adjust_pool,
}
use quotamiser.Ledger.Transitions.{WriteOutcome, write_result, after_write}
use quotamiser.Ledger.Store.{Ledger, Operation, Transaction, transact}

pub data RolloverOutcome : Type 0 where
  already_current : RolloverOutcome
  advanced : ℕ → RolloverOutcome

abbrev pub new_pool : String → ℕ → ℕ → PoolEpoch
new_pool pool_id epoch granted = record {
  pool_id = pool_id;
  epoch = epoch;
  granted = granted;
  consumed = 0;
  reserved = 0;
}

-- INSERT INTO pool_epoch ... ON CONFLICT (pool_id, epoch) DO NOTHING
abbrev pub open_pool : String → ℕ → ℕ → List PoolEpoch → List PoolEpoch
open_pool pool_id epoch granted pools =
    if any (at_key pool_id epoch) pools then pools else pools ++ new_pool pool_id epoch granted ∷ []

unfoldable pub open_pools : ℕ → List (String × ℕ) → List PoolEpoch → Outcome (List PoolEpoch)
open_pools epoch [] pools = ok pools
open_pools epoch ((pool_id, granted) ∷ grants) pools = do
  granted ← ok_or (try_i64 granted) overflow
  open_pools epoch grants (open_pool pool_id epoch granted pools)

-- SELECT MAX(x.epoch) FROM reservation x WHERE x.root_id = ?
abbrev pub last_epoch : ℕ → List Reservation → ℕ
last_epoch root [] = 0
last_epoch root (x ∷ rows) =
    if x.root_id == root && ltb (last_epoch root rows) x.epoch
    then x.epoch
    else last_epoch root rows

abbrev pub in_epoch : ℕ → ℕ → Reservation → Bool
in_epoch root epoch y = y.root_id == root && y.epoch == epoch

-- The newest row of each active group that is not in the new epoch yet.
abbrev pub is_carried : List Reservation → ℕ → Reservation → Bool
is_carried rows epoch r =
    is_active r.state
    && r.epoch == last_epoch r.root_id rows
    && not (any (in_epoch r.root_id epoch) rows)

unfoldable pub carry : List Reservation → ℕ → List GroupRow
carry rows epoch = map read_group_row (select (is_carried rows epoch) rows)

abbrev pub shadow_row : GroupRow → ℕ → ℕ → Reservation
shadow_row row id epoch = record {
  id = id;
  root_id = row.root_id;
  pool_id = row.pool_id;
  epoch = epoch;
  state = row.state;
  liability = row.liability;
  settled = none;
  response_id = row.response_id;
  request_digest = row.request_digest;
  model_snapshot = row.model_snapshot;
  service_tier = row.service_tier;
  accounting_rev = row.accounting_rev;
  created_at = row.created_at;
}

-- The tables that the loop works on, and the rows that it has carried.
pub record Carrying : Type 0 where
  pub pools : List PoolEpoch
  pub rows : List Reservation
  pub carried : ℕ

-- One row; ON CONFLICT (root_id, epoch) DO NOTHING inserts none.
unfoldable pub carry_row : ℕ → GroupRow → Carrying → Outcome Carrying
carry_row epoch row c = do
  ensure (not (is_none (pool_counters c.pools row.pool_id epoch)))
      (integrity (IntegrityCause.no_grant row.pool_id))
  let shadow = shadow_row row (suc (max_id c.rows)) epoch
  let inserted = do
    pools ← adjust_pool c.pools row.pool_id epoch (pos row.liability) (pos 0)
    ok (record { pools = pools; rows = c.rows ++ shadow ∷ []; carried = c.carried + 1 })
  if any (in_epoch row.root_id epoch) c.rows then ok c else inserted

unfoldable pub carry_rows : ℕ → List GroupRow → Carrying → Outcome Carrying
carry_rows epoch [] c = ok c
carry_rows epoch (row ∷ rows) c = do c' ← carry_row epoch row c; carry_rows epoch rows c'

unfoldable pub advance : ℕ → List (String × ℕ) → Transaction RolloverOutcome
advance new_epoch grants db = do
  pools ← open_pools new_epoch grants db.pools
  c ←
      carry_rows new_epoch (carry db.rows new_epoch)
        (record { pools = pools; rows = db.rows; carried = 0 })
  ok (
    advanced c.carried,
    record db {
      pools = c.pools;
      rows = c.rows;
      meta = record db.meta { current_epoch = new_epoch };
    },
  )

unfoldable pub rollover : ℕ → List (String × ℕ) → Operation RolloverOutcome
rollover new_epoch grants = transact λ db.
    if leb new_epoch db.meta.current_epoch
    then ok (already_current, db)
    else advance new_epoch grants db

-- `self.hwm.read().ok().flatten()`, as the numbers that it is asked for.
abbrev pub external_or : (HighWaterMark → ℕ) → External → ℕ
external_or field (ok (some e)) = field e
external_or field _ = 0

abbrev pub greater : ℕ → ℕ → ℕ
greater a b = if ltb a b then b else a

unfoldable pub anchor_of : LedgerMeta → External → Outcome HighWaterMark
anchor_of meta hwm = do
  generation ←
      ok_or (checked_add (greater meta.generation (external_or (λ e. e.generation) hwm)) 1) overflow
  ok (record {
    generation = generation;
    cumulative_liability =
        greater meta.cumulative_liability (external_or (λ e. e.cumulative_liability) hwm);
    last_reservation = 0;
  })

-- Consumption only ever rises.
unfoldable pub adopt_pool : String → ℕ → ℕ → List PoolEpoch → Outcome (List PoolEpoch)
adopt_pool pool_id epoch consumed pools = do
  consumed ← ok_or (try_i64 consumed) overflow
  counters ←
      ok_or (pool_counters pools pool_id epoch)
        (integrity (IntegrityCause.adopt_not_open pool_id epoch))
  if ltb counters.consumed consumed
      then adjust_pool pools pool_id epoch (pos 0) (pos (consumed - counters.consumed))
      else ok pools

unfoldable pub adopt_pools : List (String × ℕ × ℕ) → List PoolEpoch → Outcome (List PoolEpoch)
adopt_pools [] pools = ok pools
adopt_pools ((pool_id, epoch, consumed) ∷ adoptions) pools = do
  pools' ← adopt_pool pool_id epoch consumed pools
  adopt_pools adoptions pools'

unfoldable pub adopt_body : List (String × ℕ × ℕ) → HighWaterMark → Transaction (Unit {0})
adopt_body adoptions anchor db = do
  pools ← adopt_pools adoptions db.pools
  ok (
    tt,
    record db {
      pools = pools;
      meta = record db.meta {
        generation = anchor.generation;
        cumulative_liability = anchor.cumulative_liability;
      };
    },
  )

abbrev pub now_trusted : Outcome (Unit {0}) × Ledger → Outcome (Unit {0}) × Ledger
now_trusted (err e, l) = (err e, l)
now_trusted (ok _, l) = (ok tt, record l { trust = trusted })

unfoldable pub adopt_recovered_consumption :
    List (String × ℕ × ℕ) → WriteOutcome → Operation (Unit {0})
adopt_recovered_consumption adoptions written_as l = elim (anchor_of l.db.meta l.hwm) [
  | err e ↦ (err e, l)
  | ok anchor ↦
      let l' : Ledger = record l { hwm = after_write written_as anchor l.hwm } in
      elim (write_result written_as) [
        | err e ↦ (err e, l')
        | ok _ ↦ now_trusted (transact (adopt_body adoptions anchor) l')
      ]
]
