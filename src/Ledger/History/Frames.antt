-- ===== src/Ledger/History/Frames.antt =====
-- What calls of crates/ledger/src leave alone: the pools, the reservations, or everything.
use quotamiser.Prelude.{
  ℕ, ◌-◌, ◌≤◌, ok_or, inl, inr, String, ◌≡◌, refl, Option, List, [], ◌∷◌, arith, ok, err,
  Result-cases, Option-cases, Bool-cases, >>=-eq-ok, ltb,
}
use quotamiser.Prelude.Int.{ℤ, pos, try_i64}
use quotamiser.Ledger.Error.{LedgerError, overflow}
use quotamiser.Ledger.Trust.{External}
use quotamiser.Ledger.Schema.{PoolEpoch, Db}
use quotamiser.Ledger.Core.{pool_counters}
use quotamiser.Ledger.Core.Pools.{is_open, reserved_of, consumed_of, adjust_pool-Adjusts}
use quotamiser.Ledger.Store.{Ledger}
use quotamiser.Ledger.Reserve.{
  ReservationRequest, reserve, revalidate_safety_input, invalidate_safety_input, set_latch,
  clear_latches,
}
use quotamiser.Ledger.Restart.{
  check_integrity, mark_clean_shutdown, normalize_after_restart, open_ledger,
}
use quotamiser.Ledger.Rollover.{adopt_pool, adopt_pools}
use quotamiser.Ledger.Requests.{
  RequestWindow, RequestSlot, take_in_window, take_body, take_request_slot,
}
use quotamiser.Ledger.History.Calls.{transact_lem}

pub adopt_pool-Raises :
    (p : String) (e c : ℕ) (pools : List PoolEpoch) {pools' : List PoolEpoch}
    → adopt_pool p e c pools ≡ ok pools'
    → ((q : String) (f : ℕ) → reserved_of pools' q f ≡ reserved_of pools q f)
      × ((q : String) (f : ℕ) → is_open pools' q f ≡ is_open pools q f)
      × ((q : String) (f : ℕ) → consumed_of pools q f ≤ consumed_of pools' q f)
unfolding adopt_pool
adopt_pool-Raises p e c pools {pools'} h =
    let (c', small, later) = >>=-eq-ok (ok_or (try_i64 c) overflow) _ h in
    let (k, found, rest) = >>=-eq-ok (ok_or (pool_counters pools p e) _) _ later in
    elim (Bool-cases (ltb k.consumed c')) [
      | inl more ↦
          let a =
            adjust_pool-Adjusts pools p e (pos 0) (c' - k.consumed) {pools' = pools'}
              (ground arith) in
          (
            λ q f. ground (arith, a.reserved q f),
            λ q f. ground (arith, a.opened q f),
            λ q f. ground (arith, a.consumed q f),
          )
      | inr enough ↦ (λ q f. ground arith, λ q f. ground arith, λ q f. ground arith)
    ]

-- Adopting consumption moves no liability.
pub adopt_pools-Raises :
    (adoptions : List (String × ℕ × ℕ)) (pools : List PoolEpoch) {pools' : List PoolEpoch}
    → adopt_pools adoptions pools ≡ ok pools'
    → ((q : String) (f : ℕ) → reserved_of pools' q f ≡ reserved_of pools q f)
      × ((q : String) (f : ℕ) → is_open pools' q f ≡ is_open pools q f)
      × ((q : String) (f : ℕ) → consumed_of pools q f ≤ consumed_of pools' q f)
unfolding adopt_pools
adopt_pools-Raises [] pools h = (λ q f. ground arith, λ q f. ground arith, λ q f. ground arith)
adopt_pools-Raises ((p, e, c) ∷ adoptions) pools h =
    let (pools1, first, later) = >>=-eq-ok (adopt_pool p e c pools) _ h in
    let (r, o, k) = adopt_pool-Raises p e c pools first in
    let (r', o', k') = adopt_pools-Raises adoptions pools1 later in
    (
      λ q f. ground (arith, r q f, r' q f),
      λ q f. ground (arith, o q f, o' q f),
      λ q f. ground (arith, k q f, k' q f),
    )

-- A reservation that fails changes nothing.
pub reserve_failed :
    (request : ReservationRequest) (now : ℤ) (l l' : Ledger) {e : LedgerError}
    → reserve request now l ≡ (err e, l')
    → l' ≡ l
unfolding reserve
reserve_failed request now l l' h = ground arith

pub take_body-same :
    (provider : String) (epoch limit : ℕ) (window : RequestWindow) (now : ℤ) (db db' : Db)
    {slot : RequestSlot}
    → take_body provider epoch limit window now db ≡ ok (slot, db')
    → (db'.pools ≡ db.pools) × (db'.rows ≡ db.rows)
unfolding take_body take_in_window
take_body-same provider epoch limit window now db db' h = (ground arith, ground arith)

pub take-same :
    (provider : String) (epoch limit : ℕ) (window : RequestWindow) (now : ℤ) (l : Ledger)
    → let l' = (take_request_slot provider epoch limit window now l).1 in
      (l'.db.pools ≡ l.db.pools) × (l'.db.rows ≡ l.db.rows)
unfolding take_request_slot
take-same provider epoch limit window now l = elim (Option-cases (try_i64 limit)) [
  | inl big ↦ (ground arith, ground arith)
  | inr (n, small) ↦ elim (transact_lem (take_body provider epoch n window now) l) [
    | inl same ↦ (ground arith, ground arith)
    | inr (slot, db, is, same) ↦
        let (p, r) = take_body-same provider epoch n window now l.db db is in
        (ground arith, ground arith)
  ]
]

pub easy-same :
    (key scope words : String) (evidence : Option String) (now : ℤ) (l : Ledger)
    → let l1 = (invalidate_safety_input key l).1 in
      let l2 = (set_latch scope words evidence now l).1 in
      let l3 = (clear_latches scope words now l).1 in
      ((l1.db.pools ≡ l.db.pools) × (l1.db.rows ≡ l.db.rows))
      × ((l2.db.pools ≡ l.db.pools) × (l2.db.rows ≡ l.db.rows))
      × ((l3.db.pools ≡ l.db.pools) × (l3.db.rows ≡ l.db.rows))
unfolding invalidate_safety_input set_latch clear_latches
easy-same key scope words evidence now l = ((refl, refl), (refl, refl), (refl, refl))

pub revalidate-same :
    (key : String) (now ttl_seconds : ℤ) (budget : ℕ) (l : Ledger)
    → let l' = (revalidate_safety_input key now ttl_seconds budget l).1 in
      (l'.db.pools ≡ l.db.pools) × (l'.db.rows ≡ l.db.rows)
unfolding revalidate_safety_input
revalidate-same key now ttl_seconds budget l = (ground arith, ground arith)

pub shutdown-same :
    (l : Ledger)
    → let l' = (mark_clean_shutdown l).1 in (l'.db.pools ≡ l.db.pools) × (l'.db.rows ≡ l.db.rows)
unfolding mark_clean_shutdown
shutdown-same l = elim (Result-cases (check_integrity l.db)) [
  | inl (u, ok_here) ↦ (ground arith, ground arith)
  | inr (e, failed) ↦ (ground arith, ground arith)
]

-- An opening that fails leaves the database as it was.
pub open_ledger_failed :
    (db : Db) (hwm : External) (l : Ledger) (e : LedgerError)
    → open_ledger db hwm ≡ (err e, l)
    → (l.db ≡ db) × (l.hwm ≡ hwm)
unfolding open_ledger normalize_after_restart
open_ledger_failed db hwm l e h = (ground arith, ground arith)
