-- ===== src/Ledger/Reserve/Effects.antt =====
-- What an admission of crates/ledger/src/ledger.rs (`reserve`) has checked and debited.
use quotamiser.Prelude.{
  ℕ, suc, ◌+◌, ◌≤◌, inl, inr, String, ◌≡◌, refl, false, Option, none, some, List, [], ◌∷◌, ◌++◌,
  arith, ok, Bool-cases, >>=-eq-ok,
}
use quotamiser.Prelude.Int.{ℤ, pos, ◌-ℤ◌, -ℤ_parts, ltb_ℤ, i64_max}
use quotamiser.Ledger.Trust.{trusted}
use quotamiser.Ledger.Schema.{Db, max_id}
use quotamiser.Ledger.Core.{PoolCounters, pool_counters, adjust_pool}
use quotamiser.Ledger.Core.Pools.{Adjusts, adjust_pool-Adjusts}
use quotamiser.Ledger.Store.{Ledger}
use quotamiser.Ledger.Reserve.{
  ReservationRequest, Admission, reserved, latch_refusal, check_inputs, debit_inputs, remaining_of,
  new_row, debit, check_quota, reserve_body, reserve, sort_keys, dedup,
}

-- Room in the pool: what is consumed and reserved, and the liability, are within the grant.
abbrev pub Fits : PoolCounters → ℕ → Type 0
Fits c liability = c.consumed + c.reserved + liability ≤ c.granted

remaining_of-Fits :
    (c : PoolCounters) (liability : ℕ) {r : ℤ}
    → remaining_of c ≡ ok r
    → ltb_ℤ r (pos liability) ≡ false
    → Fits c liability
unfolding remaining_of
remaining_of-Fits c liability e h = ground (
  arith,
  -ℤ_parts (pos c.granted) (pos c.consumed),
  -ℤ_parts (pos c.granted -ℤ pos c.consumed) (pos c.reserved),
)

-- The debits: the pool's counters, the safety inputs, and the new row with the next id.
pub record Debits (request : ReservationRequest) (liability : ℕ) (keys : List String) (epoch : ℕ)
    (now : ℤ) (id : ℕ) (db db' : Db) : Type 0 where
  pub adjusts : Adjusts db.pools db'.pools request.pool_id epoch liability 0 0
  pub debited : debit_inputs liability keys db.safety ≡ ok db'.safety
  pub fresh : id ≡ suc (max_id db.rows)
  pub added : db'.rows ≡ db.rows ++ new_row request id epoch liability now ∷ []
  pub others : db' ≡ record db { pools = db'.pools; safety = db'.safety; rows = db'.rows }

debit-parts :
    (request : ReservationRequest) (liability : ℕ) (keys : List String) (epoch : ℕ) (now : ℤ)
    (db : Db) {a : Admission} {db' : Db}
    → debit request liability keys epoch now db ≡ ok (a, db')
    → (a ≡ reserved (suc (max_id db.rows)))
      × (adjust_pool db.pools request.pool_id epoch (pos liability) (pos 0) ≡ ok db'.pools)
      × (debit_inputs liability keys db.safety ≡ ok db'.safety)
      × (db' ≡ record db {
        pools = db'.pools;
        safety = db'.safety;
        rows = db.rows ++ new_row request (suc (max_id db.rows)) epoch liability now ∷ [];
      })
unfolding debit
debit-parts request liability keys epoch now db {a} {db'} h =
    (ground arith, ground arith, ground arith, ground arith)

debit-Debits :
    (request : ReservationRequest) (liability : ℕ) (keys : List String) (epoch : ℕ) (now : ℤ)
    (db : Db) {id : ℕ} {db' : Db}
    → debit request liability keys epoch now db ≡ ok (reserved id, db')
    → Debits request liability keys epoch now id db db'
debit-Debits request liability keys epoch now db {id} {db'} h =
    let (a, p, s, d) = debit-parts request liability keys epoch now db h in
    record {
      adjusts = adjust_pool-Adjusts db.pools request.pool_id epoch (pos liability) 0 p;
      debited = s;
      fresh = ground arith;
      added = ground arith;
      others = ground arith;
    }

-- Everything that an admission depends on, and everything that it debits.
pub record Reserves (request : ReservationRequest) (now : ℤ) (id : ℕ) (db db' : Db) : Type 0 where
  pub bounded : request.liability ≤ i64_max
  pub unlatched : latch_refusal db.latches request.pool_id request.model_snapshot ≡ none
  pub inputs :
      check_inputs db.safety request.liability now
        (dedup (sort_keys request.required_safety_inputs))
      ≡ ok none
  pub counters : PoolCounters
  pub is_open : pool_counters db.pools request.pool_id db.meta.current_epoch ≡ some counters
  pub fits : Fits counters request.liability
  pub debits :
      Debits request request.liability
        (dedup (sort_keys request.required_safety_inputs))
        db.meta.current_epoch
        now
        id
        db
        db'

-- A quota test that admits has found room, and debits.
check_quota-reserved :
    (request : ReservationRequest) (liability : ℕ) (keys : List String) (now : ℤ)
    (o : Option PoolCounters) (db : Db) {id : ℕ} {db' : Db}
    → check_quota request liability keys now o db ≡ ok (reserved id, db')
    → (c : PoolCounters) × (o ≡ some c)
      × Fits c liability
      × (debit request liability keys db.meta.current_epoch now db ≡ ok (reserved id, db'))
unfolding check_quota
check_quota-reserved request liability keys now none db h = ground arith
check_quota-reserved request liability keys now (some c) db {id} {db'} h =
    let (r, left, later) = >>=-eq-ok (remaining_of c) _ h in
    elim (Bool-cases (ltb_ℤ r (pos liability))) [
      | inl short ↦ ground arith
      | inr enough ↦ (c, refl, remaining_of-Fits c liability left enough, ground arith)
    ]

reserve_body-parts :
    (request : ReservationRequest) (liability : ℕ) (keys : List String) (now : ℤ) (db : Db) {id : ℕ}
    {db' : Db}
    → reserve_body request liability keys now db ≡ ok (reserved id, db')
    → (latch_refusal db.latches request.pool_id request.model_snapshot ≡ none)
      × (check_inputs db.safety liability now keys ≡ ok none)
      × (check_quota request liability keys now
            (pool_counters db.pools request.pool_id db.meta.current_epoch)
            db
          ≡ ok (reserved id, db'))
unfolding reserve_body
reserve_body-parts request liability keys now db h = (ground arith, ground arith, ground arith)

reserve_body-Reserves :
    (request : ReservationRequest) (now : ℤ) (db : Db) {id : ℕ} {db' : Db}
    → request.liability ≤ i64_max
    → reserve_body request request.liability
        (dedup (sort_keys request.required_safety_inputs))
        now
        db
      ≡ ok (reserved id, db')
    → Reserves request now id db db'
reserve_body-Reserves request now db b h =
    let keys = dedup (sort_keys request.required_safety_inputs) in
    let (unlatched, inputs, quota) = reserve_body-parts request request.liability keys now db h in
    let (c, is_open, fits, later) =
      check_quota-reserved request request.liability keys now
        (pool_counters db.pools request.pool_id db.meta.current_epoch) db quota in
    record {
      bounded = b;
      unlatched = unlatched;
      inputs = inputs;
      counters = c;
      is_open = is_open;
      fits = fits;
      debits = debit-Debits request request.liability keys db.meta.current_epoch now db later;
    }

-- An admission comes from a trusted ledger, and has passed and debited everything.
pub reserve-Reserves :
    (request : ReservationRequest) (now : ℤ) (l l' : Ledger) {id : ℕ}
    → reserve request now l ≡ (ok (reserved id), l')
    → (l.trust ≡ trusted) × Reserves request now id l.db l'.db × (l' ≡ record l { db = l'.db })
unfolding reserve
reserve-Reserves request now l l' {id} h = (
  ground arith,
  reserve_body-Reserves request now l.db (ground arith) (ground arith),
  ground arith,
)
