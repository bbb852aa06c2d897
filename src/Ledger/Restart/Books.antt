-- ===== src/Ledger/Restart/Books.antt =====
-- The normalisation after a restart (crates/ledger/src/ledger.rs) keeps the books.
use quotamiser.Prelude.{
  ℕ, ◌+◌, String, ◌≡◌, refl, Bool, true, false, ◌&&◌, Option, none, some, List, [], ◌∷◌, arith,
  ◌==◌, ok, >>=-eq-ok, select, sum_by,
}
use quotamiser.Prelude.Int.{pos, sub_ℕ}
use quotamiser.Ledger.State.{State, state_eq}
use quotamiser.Ledger.State.Laws.{state_eq-eq}
use quotamiser.Ledger.Trust.{Assessment, HighWaterMark}
use quotamiser.Ledger.Schema.{PoolEpoch, Reservation, Db}
use quotamiser.Ledger.Core.{adjust_pool, update_rows}
use quotamiser.Ledger.Core.Pools.{reserved_of, consumed_of, is_open, share, adjust_pool-Adjusts}
use quotamiser.Ledger.Restart.{
  set_state, in_state, relabel_rows, promote, release_rows, normalize_reserved,
  normalize_dispatching, normalize_body, rows_interpretable,
}
use quotamiser.Ledger.Sound.{IsSound}
use quotamiser.Ledger.Sound.Rows.{Relabels}
use quotamiser.Ledger.Sound.States.{chosen_at, update_by_state-IsSound}
use quotamiser.Ledger.Transitions.Books.{IsSound-same}

set_state-Relabels : (to : State) → Relabels (set_state to) to
set_state-Relabels to = record {
  id = λ r. refl;
  root_id = λ r. refl;
  pool_id = λ r. refl;
  epoch = λ r. refl;
  liability = λ r. refl;
  state = λ r. refl;
}

abbrev any_in : State → ℕ → State → Bool
any_in s j t = state_eq t s

abbrev group_in : ℕ → State → ℕ → State → Bool
group_in root s j t = j == root && state_eq t s

-- Setting the state of active rows to another active state, with the pools as they were.
normalize_dispatching-IsSound :
    (db db' : Db) → normalize_dispatching db ≡ ok db' → IsSound db → IsSound db'
unfolding normalize_dispatching relabel_rows update_rows
normalize_dispatching-IsSound db db' h s =
    update_by_state-IsSound (any_in State.dispatching) (set_state State.dispatched_id_unknown)
      State.dispatched_id_unknown (set_state-Relabels State.dispatched_id_unknown) db db'
      (ground arith) (ground arith) (λ j t e. ground arith) (λ q e. ground arith)
      (λ q e. ground arith) s

promote-IsSound :
    (root : Option ℕ) (external : Option HighWaterMark) (db db' : Db)
    → promote root external db ≡ ok db'
    → IsSound db
    → IsSound db'
unfolding promote relabel_rows update_rows
promote-IsSound (some root) (some external) db db' h s =
    update_by_state-IsSound (group_in root State.reserved) (set_state State.dispatched_id_unknown)
      State.dispatched_id_unknown (set_state-Relabels State.dispatched_id_unknown) db db'
      (ground arith) (ground arith) (λ j t e. ground arith) (λ q e. ground arith)
      (λ q e. ground arith) s
promote-IsSound none external db db' h s = IsSound-same db db' (ground arith) (ground arith) s
promote-IsSound (some root) none db db' h s = IsSound-same db db' (ground arith) (ground arith) s

-- The counters after the liabilities of some rows were taken off.
abbrev pub Freed : List PoolEpoch → List PoolEpoch → List Reservation → Type 0
Freed pools pools' rows =
    (q : String) (e : ℕ)
    → (reserved_of pools' q e + sum_by (λ r. share r.pool_id r.epoch q e r.liability) rows
        ≡ reserved_of pools q e)
      × (consumed_of pools' q e ≡ consumed_of pools q e)
      × (is_open pools' q e ≡ is_open pools q e)

pub release_rows-Freed :
    (pools : List PoolEpoch) (rows : List Reservation) {pools' : List PoolEpoch}
    → release_rows pools rows ≡ ok pools'
    → Freed pools pools' rows
unfolding release_rows
release_rows-Freed pools [] {pools'} h q e = (ground arith, ground arith, ground arith)
release_rows-Freed pools (r ∷ rows) {pools'} h q e =
    let (mid, first, later) =
      >>=-eq-ok (adjust_pool pools r.pool_id r.epoch (sub_ℕ 0 r.liability) (pos 0)) _ h in
    let a = adjust_pool-Adjusts pools r.pool_id r.epoch (sub_ℕ 0 r.liability) 0 first in
    let f = release_rows-Freed mid rows later q e in
    (
      ground (arith, a.reserved q e, f.0),
      ground (arith, a.consumed q e, f.1),
      ground (arith, a.opened q e, f.2),
    )

-- The rows that are released hold what they held as active rows.
sum_by-unsent :
    (rows : List Reservation) (q : String) (e : ℕ)
    → sum_by (λ r. share r.pool_id r.epoch q e r.liability) (select (in_state State.reserved) rows)
      ≡ sum_by (chosen_at (any_in State.reserved) q e) rows
sum_by-unsent [] q e = refl
sum_by-unsent (r ∷ rows) q e =
    ground (arith, sum_by-unsent rows q e, state_eq-eq r.state State.reserved)

pub normalize_reserved-parts :
    (db db' : Db)
    → normalize_reserved true db ≡ ok db'
    → (release_rows db.pools (select (in_state State.reserved) db.rows) ≡ ok db'.pools)
      × (relabel_rows (in_state State.reserved) State.released_unsent db.rows ≡ ok db'.rows)
unfolding normalize_reserved
normalize_reserved-parts db db' h = (ground arith, ground arith)

normalize_reserved-IsSound :
    (interpretable : Bool) (db db' : Db)
    → normalize_reserved interpretable db ≡ ok db'
    → IsSound db
    → IsSound db'
unfolding normalize_reserved relabel_rows update_rows
normalize_reserved-IsSound true db db' h s =
    let (released, relabelled) = normalize_reserved-parts db db' h in
    let f = release_rows-Freed db.pools _ released in
    update_by_state-IsSound (any_in State.reserved) (set_state State.released_unsent)
      State.released_unsent (set_state-Relabels State.released_unsent) db db' (ground arith)
      (ground arith) (λ j t e. ground arith)
      (λ q e. ground (arith, f q e, sum_by-unsent db.rows q e)) (λ q e. (f q e).2) s
normalize_reserved-IsSound false db db' h s =
    update_by_state-IsSound (any_in State.reserved) (set_state State.dispatched_id_unknown)
      State.dispatched_id_unknown (set_state-Relabels State.dispatched_id_unknown) db db'
      (ground arith) (ground arith) (λ j t e. ground arith) (λ q e. ground arith)
      (λ q e. ground arith) s

-- The three updates of a restart.
pub normalize_body-parts :
    (a : Assessment) (external : Option HighWaterMark) (db db' : Db)
    → normalize_body a external db ≡ ok (tt, db')
    → (promoted resolved final : Db) × (promote a.promote_to_id_unknown external db ≡ ok promoted)
      × (normalize_dispatching promoted ≡ ok resolved)
      × (normalize_reserved (rows_interpretable a.verdict) resolved ≡ ok final)
      × (db' ≡ record final { meta = record final.meta { clean_shutdown = false } })
unfolding normalize_body
normalize_body-parts a external db db' h =
    let (promoted, first, h₁) = >>=-eq-ok (promote a.promote_to_id_unknown external db) _ h in
    let (resolved, second, h₂) = >>=-eq-ok (normalize_dispatching promoted) _ h₁ in
    let (final, third, h₃) =
      >>=-eq-ok (normalize_reserved (rows_interpretable a.verdict) resolved) _ h₂ in
    (promoted, resolved, final, first, second, third, ground arith)

pub normalize_body-IsSound :
    (a : Assessment) (external : Option HighWaterMark) (db db' : Db)
    → normalize_body a external db ≡ ok (tt, db')
    → IsSound db
    → IsSound db'
normalize_body-IsSound a external db db' h s =
    let (promoted, resolved, final, first, second, third, last) =
      normalize_body-parts a external db db' h in
    rw last (
      IsSound-same final _ refl refl (
        normalize_reserved-IsSound (rows_interpretable a.verdict) resolved final third (
          normalize_dispatching-IsSound promoted resolved second
            (promote-IsSound a.promote_to_id_unknown external db promoted first s))))
