-- ===== src/Ledger/Sound/Finish.antt =====
-- Ending a group (`finish` of crates/ledger/src/transitions.rs) keeps the books.
use quotamiser.Prelude.{
  ℕ, ◌+◌, String, ◌≡◌, refl, ◌∙◌, true, false, Option, List, [], ◌∷◌, arith, ok, sum_by, All-mono,
  >>=-eq-ok,
}
use quotamiser.Prelude.Int.{pos, sub_ℕ, pos_part, neg_part}
use quotamiser.Ledger.State.{State, is_active}
use quotamiser.Ledger.Schema.{PoolEpoch, Db}
use quotamiser.Ledger.Core.{GroupRow, Group, group_rows, group_state, adjust_pool, update_group}
use quotamiser.Ledger.Core.Groups.{Loaded}
use quotamiser.Ledger.Core.Pools.{
  share, is_open, reserved_of, consumed_of, granted_of, Adjusts, adjust_pool-Adjusts,
}
use quotamiser.Ledger.Transitions.{adjust_rows, finish, finish_row}
use quotamiser.Ledger.Sound.{HasPool, IsSound}
use quotamiser.Ledger.Sound.Rows.{Relabels, held_at, Relabelled, update_group-Relabelled}

-- What a row of a group consumes when it ends.
abbrev pub taken_at : ℕ → String → ℕ → GroupRow → ℕ
taken_at k q e row = share row.pool_id row.epoch q e k

-- The counters after the liabilities of some rows were taken off, and `k` consumed for each.
pub record Drained (pools pools' : List PoolEpoch) (rows : List GroupRow) (k : ℕ) : Type 0 where
  pub reserved :
      (q : String) (e : ℕ)
      → reserved_of pools' q e + sum_by (held_at q e) rows ≡ reserved_of pools q e
  pub consumed :
      (q : String) (e : ℕ)
      → consumed_of pools' q e ≡ consumed_of pools q e + sum_by (taken_at k q e) rows
  pub granted : (q : String) (e : ℕ) → granted_of pools' q e ≡ granted_of pools q e
  pub opened : (q : String) (e : ℕ) → is_open pools' q e ≡ is_open pools q e

Drained-cons :
    (pools mid pools' : List PoolEpoch) (row : GroupRow) (rows : List GroupRow) (k : ℕ)
    → Adjusts pools mid row.pool_id row.epoch
        (pos_part (sub_ℕ 0 row.liability))
        (neg_part (sub_ℕ 0 row.liability))
        k
    → Drained mid pools' rows k
    → Drained pools pools' (row ∷ rows) k
Drained-cons pools mid pools' row rows k a d = record {
  reserved = λ q e. ground (arith, a.reserved q e, d.reserved q e);
  consumed = λ q e. ground (arith, a.consumed q e, d.consumed q e);
  granted = λ q e. ground (arith, a.granted q e, d.granted q e);
  opened = λ q e. ground (arith, a.opened q e, d.opened q e);
}

pub adjust_rows-Drained :
    (pools : List PoolEpoch) (rows : List GroupRow) (k : ℕ) {pools' : List PoolEpoch}
    → adjust_rows pools rows k ≡ ok pools'
    → Drained pools pools' rows k
unfolding adjust_rows
adjust_rows-Drained pools [] k {pools'} h =
    let same : pools ≡ pools' = ground arith in
    rw (← same) (record {
      reserved = λ q e. omega arith;
      consumed = λ q e. omega arith;
      granted = λ q e. refl;
      opened = λ q e. refl;
    })
adjust_rows-Drained pools (row ∷ rows) k {pools'} h =
    let (mid, first, later) =
      >>=-eq-ok (adjust_pool pools row.pool_id row.epoch (sub_ℕ 0 row.liability) (pos k))
        (λ p. adjust_rows p rows k) h in
    Drained-cons pools mid pools' row rows k
      (adjust_pool-Adjusts pools row.pool_id row.epoch (sub_ℕ 0 row.liability) k first)
      (adjust_rows-Drained mid rows k later)

finish_row-Relabels : (to : State) (settled : Option ℕ) → Relabels (finish_row to settled) to
finish_row-Relabels to settled = record {
  id = λ r. refl;
  root_id = λ r. refl;
  pool_id = λ r. refl;
  epoch = λ r. refl;
  liability = λ r. refl;
  state = λ r. refl;
}

-- A database whose group `g` has ended in the state `to`, with `k` consumed for each of its rows.
pub record Ended (db db' : Db) (g : Group) (to : State) (k : ℕ) : Type 0 where
  pub drained : Drained db.pools db'.pools (group_rows g) k
  pub relabelled : Relabelled g to db.rows db'.rows
  pub others : db' ≡ record db { pools = db'.pools; rows = db'.rows }

finish-parts :
    (g : Group) (to : State) (k : ℕ) (settled : Option ℕ) (db : Db) {db' : Db}
    → finish g to k settled db ≡ ok db'
    → (adjust_rows db.pools (group_rows g) k ≡ ok db'.pools)
      × (update_group g (finish_row to settled) db.rows ≡ ok db'.rows)
      × (db' ≡ record db { pools = db'.pools; rows = db'.rows })
unfolding finish
finish-parts g to k settled db {db'} h = (ground arith, ground arith, ground arith)

pub finish-Ended :
    (g : Group) (to : State) (k : ℕ) (settled : Option ℕ) (db : Db) {db' : Db}
    → Loaded db.rows g
    → is_active (group_state g) ≡ true
    → finish g to k settled db ≡ ok db'
    → Ended db db' g to k
finish-Ended g to k settled db l active h =
    let (drained, changed, others) = finish-parts g to k settled db h in
    record {
      drained = adjust_rows-Drained db.pools (group_rows g) k drained;
      relabelled =
          update_group-Relabelled g (finish_row to settled) to db.rows
            (finish_row-Relabels to settled) l active changed;
      others = others;
    }

-- A group that ends in a state that is not active leaves the books sound.
pub Ended-IsSound :
    (db db' : Db) (g : Group) (to : State) (k : ℕ)
    → is_active to ≡ false
    → Ended db db' g to k
    → IsSound db
    → IsSound db'
Ended-IsSound db db' g to k over e s = record {
  totals = λ q f. ground (arith, s.totals q f, e.drained.reserved q f, e.relabelled.sums q f);
  grouped = e.relabelled.grouped s.grouped;
  keyed =
      All-mono (HasPool db.pools) (HasPool db'.pools)
        (λ r h. e.drained.opened r.pool_id r.epoch ∙ h) db'.rows
        (e.relabelled.keyed db.pools s.keyed);
  checked = e.relabelled.checked s.checked;
  rooted = e.relabelled.rooted s.rooted;
}
