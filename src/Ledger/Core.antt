-- ===== src/Ledger/Core.antt =====
-- The helpers of crates/ledger/src/ledger.rs that the transitions and the rollover share:
-- groups of rows, and the counters of a pool. A function that the source gives the connection
-- takes and returns the table that it works on.
pub mod Pools
pub mod Groups
use quotamiser.Prelude.{
  ℕ, zero, suc, String, ◌≡◌, Bool, true, false, ◌&&◌, ◌||◌, not, Option, none, some, List, [], ◌∷◌,
  ◌++◌, map, ◌==◌, ltb, leb, str_eq, if◌then◌else◌, Result, ok, err, ◌>>=◌, ◌>>◌, ensure, ok_or,
  and_then, find?, select, update, count, any, all, length,
}
use quotamiser.Prelude.Int.{ℤ, pos, pos_part, leb_ℤ, checked_add_ℤ}
use quotamiser.Ledger.State.{State, Transition, state_eq, target, allowed_from}
use quotamiser.Ledger.Error.{
  IntegrityCause, LedgerError, Outcome, sqlite, overflow, not_found, illegal_transition, integrity,
}
use quotamiser.Ledger.Schema.{PoolEpoch, Reservation, Latch, Evidence, Db, at_key, row_check}

pub record PoolCounters : Type 0 where
  pub granted : ℕ
  pub consumed : ℕ
  pub reserved : ℕ

abbrev pub counters_of : PoolEpoch → PoolCounters
counters_of pe = record { granted = pe.granted; consumed = pe.consumed; reserved = pe.reserved }

unfoldable pub pool_counters : List PoolEpoch → String → ℕ → Option PoolCounters
pool_counters pools pool_id epoch =
    and_then (find? (at_key pool_id epoch) pools) (λ pe. some (counters_of pe))

-- UPDATE pool_epoch SET reserved = ?1, consumed = ?2 WHERE pool_id = ?3 AND epoch = ?4
abbrev pub set_counters : String → ℕ → ℕ → ℕ → List PoolEpoch → List PoolEpoch
set_counters pool_id epoch reserved consumed pools =
    update (at_key pool_id epoch) (λ pe. record pe { reserved = reserved; consumed = consumed })
      pools

unfoldable pub adjust_pool : List PoolEpoch → String → ℕ → ℤ → ℤ → Outcome (List PoolEpoch)
adjust_pool pools pool_id epoch reserved_delta consumed_delta = do
  counters ←
      ok_or (pool_counters pools pool_id epoch)
        (integrity (IntegrityCause.no_pool_row pool_id epoch))
  reserved ← ok_or (checked_add_ℤ (pos counters.reserved) reserved_delta) overflow
  consumed ← ok_or (checked_add_ℤ (pos counters.consumed) consumed_delta) overflow
  ensure (leb_ℤ (pos 0) reserved && leb_ℤ (pos 0) consumed)
      (integrity (IntegrityCause.negative_counters pool_id epoch))
  ok (set_counters pool_id epoch (pos_part reserved) (pos_part consumed) pools)

pub record GroupRow : Type 0 where
  pub root_id : ℕ
  pub pool_id : String
  pub epoch : ℕ
  pub state : State
  pub liability : ℕ
  pub response_id : Option String
  pub request_digest : String
  pub model_snapshot : String
  pub service_tier : String
  pub accounting_rev : ℤ
  pub created_at : ℤ

abbrev pub read_group_row : Reservation → GroupRow
read_group_row r = record {
  root_id = r.root_id;
  pool_id = r.pool_id;
  epoch = r.epoch;
  state = r.state;
  liability = r.liability;
  response_id = r.response_id;
  request_digest = r.request_digest;
  model_snapshot = r.model_snapshot;
  service_tier = r.service_tier;
  accounting_rev = r.accounting_rev;
  created_at = r.created_at;
}

-- ORDER BY epoch.
abbrev pub insert_by_epoch : GroupRow → List GroupRow → List GroupRow
insert_by_epoch g [] = g ∷ []
insert_by_epoch g (h ∷ hs) = if leb g.epoch h.epoch then g ∷ h ∷ hs else h ∷ insert_by_epoch g hs

abbrev pub order_by_epoch : List GroupRow → List GroupRow
order_by_epoch [] = []
order_by_epoch (g ∷ gs) = insert_by_epoch g (order_by_epoch gs)

-- What `load_group` returns. Its rows are never empty: `rows[0]` is `head`.
pub record Group : Type 0 where
  pub root : ℕ
  pub head : GroupRow
  pub rest : List GroupRow

abbrev pub group_rows : Group → List GroupRow
group_rows g = g.head ∷ g.rest

abbrev pub group_state : Group → State
group_state g = g.head.state

abbrev pub disagrees : GroupRow → GroupRow → Bool
disagrees head r = not (state_eq r.state head.state) || not (r.liability == head.liability)

abbrev pub in_group : ℕ → Reservation → Bool
in_group root r = r.root_id == root

abbrev pub has_id : ℕ → Reservation → Bool
has_id id r = r.id == id

-- The head of the rows that were read, and whether the others agree with it.
abbrev pub check_group : ℕ → ℕ → List GroupRow → Outcome Group
check_group id root [] = err (not_found id)
check_group id root (head ∷ rest) = do
  ensure (not (any (disagrees head) (head ∷ rest))) (integrity (IntegrityCause.rows_disagree root))
  ok (record { root = root; head = head; rest = rest })

unfoldable pub load_group : List Reservation → ℕ → Outcome Group
load_group rows id = do
  found ← ok_or (find? (has_id id) rows) (not_found id)
  check_group id found.root_id
      (order_by_epoch (map read_group_row (select (in_group found.root_id) rows)))

unfoldable pub ensure_allowed : ℕ → State → Transition → Outcome (Unit {0})
ensure_allowed root_id from transition =
    if allowed_from transition from
    then ok tt
    else err (illegal_transition root_id from (target transition))

-- An UPDATE of `reservation`: refused if a row that it changes fails a CHECK.
unfoldable pub update_rows :
    (Reservation → Bool)
    → (Reservation → Reservation)
    → List Reservation
    → Outcome (ℕ × List Reservation)
update_rows p f rows = do
  ensure (all (λ r. not (p r) || row_check (f r)) rows) sqlite
  ok (count p rows, update p f rows)

unfoldable pub expect_rows : ℕ → ℕ → ℕ → Outcome (Unit {0})
expect_rows changed expected root =
    if changed == expected
    then ok tt
    else err (integrity (IntegrityCause.rows_changed root expected changed))

-- WHERE root_id = ?3 AND state = ?4
abbrev pub in_group_at : ℕ → State → Reservation → Bool
in_group_at root from r = r.root_id == root && state_eq r.state from

-- An UPDATE of a whole group, which must change as many rows as the group has.
unfoldable pub update_group :
    Group → (Reservation → Reservation) → List Reservation → Outcome (List Reservation)
update_group g f rows = do
  (changed, rows') ← update_rows (in_group_at g.root (group_state g)) f rows
  expect_rows changed (length (group_rows g)) g.root
  ok rows'

unfoldable pub insert_latch : String → String → Option Evidence → ℤ → List Latch → List Latch
insert_latch scope reason evidence now latches =
    latches
    ++ record { scope = scope; reason = reason; evidence = evidence; set_at = now; cleared = none }
      ∷ []
