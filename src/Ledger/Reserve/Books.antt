-- ===== src/Ledger/Reserve/Books.antt =====
-- Admission keeps the books, and keeps a pool within its grant (crates/ledger/src/ledger.rs).
use quotamiser.Prelude.{
  ℕ, ◌+◌, ◌≤◌, String, ◌≡◌, refl, Option, some, List, arith, eq_iff, Result, ok,
}
use quotamiser.Prelude.Int.{ℤ}
use quotamiser.Ledger.State.{State}
use quotamiser.Ledger.Error.{LedgerError}
use quotamiser.Ledger.Schema.{Db}
use quotamiser.Ledger.Core.{PoolCounters, pool_counters}
use quotamiser.Ledger.Core.Pools.{reserved_of, consumed_of, granted_of}
use quotamiser.Ledger.Store.{Ledger}
use quotamiser.Ledger.Reserve.{
  ReservationRequest, Refusal, Admission, reserved, refused, new_row, reserve, debit, check_quota,
  reserve_body, sort_keys, dedup,
}
use quotamiser.Ledger.Reserve.Effects.{Debits, reserve-Reserves}
use quotamiser.Ledger.Sound.{HasView, IsSound}
use quotamiser.Ledger.Sound.Append.{All-snoc, append-IsSound, with_group, with_group-fresh}

Debits-IsSound :
    (request : ReservationRequest) (liability : ℕ) (keys : List String) (epoch : ℕ) (now : ℤ)
    (id : ℕ) (db db' : Db)
    → Debits request liability keys epoch now id db db'
    → IsSound db
    → IsSound db'
Debits-IsSound request liability keys epoch now id db db' d s =
    let row = new_row request id epoch liability now in
    let view = with_group s.grouped.0 id (State.reserved, liability) in
    append-IsSound db db' row d.added view
      (All-snoc (HasView view) db.rows row
        (with_group-fresh s.grouped.0 db.rows id (State.reserved, liability)
          (ground (arith, d.fresh)) s.rooted s.grouped.1)
        (ground arith, ground arith))
      refl refl (omega arith) d.adjusts s

-- An admission keeps the books.
pub reserve-IsSound :
    (request : ReservationRequest) (now : ℤ) (l l' : Ledger) {id : ℕ}
    → reserve request now l ≡ (ok (reserved id), l')
    → IsSound l.db
    → IsSound l'.db
reserve-IsSound request now l l' {id} h =
    let (_, r, _) = reserve-Reserves request now l l' h in
    Debits-IsSound request request.liability _ l.db.meta.current_epoch now id l.db l'.db r.debits

-- After an admission the pool's consumption and reservations are within its grant, and the
-- reservations have risen by the liability.
pub reserve_within_grant :
    (request : ReservationRequest) (now : ℤ) (l l' : Ledger) {id : ℕ}
    → reserve request now l ≡ (ok (reserved id), l')
    → let e = l.db.meta.current_epoch in
      (consumed_of l'.db.pools request.pool_id e + reserved_of l'.db.pools request.pool_id e
        ≤ granted_of l'.db.pools request.pool_id e)
      × (reserved_of l'.db.pools request.pool_id e
          ≡ reserved_of l.db.pools request.pool_id e + request.liability)
      × (consumed_of l'.db.pools request.pool_id e ≡ consumed_of l.db.pools request.pool_id e)
reserve_within_grant request now l l' h =
    let (_, r, _) = reserve-Reserves request now l l' h in
    let q = request.pool_id in
    let e = l.db.meta.current_epoch in
    let a = r.debits.adjusts in
    let self = (eq_iff q q).1 refl in
    let found : pool_counters l.db.pools q e ≡ some r.counters = r.is_open in
    (
      ground (arith, self, found, r.fits, a.reserved q e, a.consumed q e, a.granted q e),
      ground (arith, self, a.reserved q e),
      ground (arith, self, a.consumed q e),
    )

abbrev RefusesQuietly : Db → Result LedgerError (Admission × Db) → Type 0
RefusesQuietly db (ok (refused r, db')) = db' ≡ db
RefusesQuietly db _ = Unit

check_quota-RefusesQuietly :
    (request : ReservationRequest) (liability : ℕ) (keys : List String) (now : ℤ)
    (o : Option PoolCounters) (db : Db)
    → RefusesQuietly db (check_quota request liability keys now o db)
unfolding check_quota debit
check_quota-RefusesQuietly request liability keys now o db = ground arith

-- A refusal debits nothing and leaves the ledger as it was.
pub reserve_refused :
    (request : ReservationRequest) (now : ℤ) (l l' : Ledger) (r : Refusal)
    → reserve request now l ≡ (ok (refused r), l')
    → l' ≡ l
unfolding reserve reserve_body
reserve_refused request now l l' r h = ground (
  arith,
  check_quota-RefusesQuietly request request.liability
      (dedup (sort_keys request.required_safety_inputs)) now
      (pool_counters l.db.pools request.pool_id l.db.meta.current_epoch) l.db,
)
