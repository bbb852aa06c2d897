-- ===== src/Ledger/Rollover/Books.antt =====
-- The rollover of crates/ledger/src/rollover.rs keeps the books.
use quotamiser.Prelude.{
  ℕ, suc, ◌+◌, ◌≤◌, inl, inr, ◌⊎◌, String, ◌≡◌, refl, ap, subst, ◌∙◌, true, none, some, List, [],
  ◌∷◌, ◌++◌, arith, ok, All, All-mono, Bool-cases, >>=-eq-ok, select, map, any, ok_or,
}
use quotamiser.Prelude.Int.{pos, try_i64}
use quotamiser.Ledger.State.{State, is_active}
use quotamiser.Ledger.Error.{overflow}
use quotamiser.Ledger.Schema.{PoolEpoch, Reservation, Db, max_id, response_check}
use quotamiser.Ledger.Core.{GroupRow, read_group_row, pool_counters, adjust_pool}
use quotamiser.Ledger.Core.Pools.{reserved_of, consumed_of, is_open, Adjusts, adjust_pool-Adjusts}
use quotamiser.Ledger.Rollover.{
  RolloverOutcome, advanced, new_pool, open_pool, open_pools, carry, is_carried, shadow_row,
  Carrying, carry_row, carry_rows, advance, in_epoch,
}
use quotamiser.Ledger.Sound.{HasView, HasPool, IsChecked, IsRooted, IsSound}
use quotamiser.Ledger.Sound.Append.{All-snoc, append-IsSound, max_id-bound, max_id-snoc}
use quotamiser.Ledger.Transitions.Books.{IsSound-same}

-- A pool that is opened has nothing reserved and nothing consumed; the others are as they were.
pub record Opened (pools pools' : List PoolEpoch) : Type 0 where
  pub reserved : (q : String) (f : ℕ) → reserved_of pools' q f ≡ reserved_of pools q f
  pub consumed : (q : String) (f : ℕ) → consumed_of pools' q f ≡ consumed_of pools q f
  pub opened : (q : String) (f : ℕ) → is_open pools q f ≡ true → is_open pools' q f ≡ true

pool_counters-snoc :
    (pools : List PoolEpoch) (x : PoolEpoch) (q : String) (f : ℕ)
    → ((pool_counters (pools ++ x ∷ []) q f ≡ pool_counters pools q f))
      ⊎ ((pool_counters pools q f ≡ none)
          × (pool_counters (pools ++ x ∷ []) q f
              ≡ some
                  (record { granted = x.granted; consumed = x.consumed; reserved = x.reserved })))
unfolding pool_counters
pool_counters-snoc [] x q f = ground arith
pool_counters-snoc (y ∷ pools) x q f = ground (arith, pool_counters-snoc pools x q f)

open_pool-Opened :
    (p : String) (e granted : ℕ) (pools : List PoolEpoch)
    → Opened pools (open_pool p e granted pools)
open_pool-Opened p e granted pools = record {
  reserved = λ q f. ground (arith, pool_counters-snoc pools (new_pool p e granted) q f);
  consumed = λ q f. ground (arith, pool_counters-snoc pools (new_pool p e granted) q f);
  opened = λ q f h. ground (arith, pool_counters-snoc pools (new_pool p e granted) q f);
}

pub open_pools-Opened :
    (e : ℕ) (grants : List (String × ℕ)) (pools : List PoolEpoch) {pools' : List PoolEpoch}
    → open_pools e grants pools ≡ ok pools'
    → Opened pools pools'
unfolding open_pools
open_pools-Opened e [] pools h =
    let same : pools ≡ _ = ground arith in
    subst (Opened pools) same
      (record { reserved = λ q f. refl; consumed = λ q f. refl; opened = λ q f o. o })
open_pools-Opened e ((p, granted) ∷ grants) pools h =
    let (g, fits, later) = >>=-eq-ok (ok_or (try_i64 granted) overflow) _ h in
    let o = open_pool-Opened p e g pools in
    let os = open_pools-Opened e grants (open_pool p e g pools) later in
    record {
      reserved = λ q f. os.reserved q f ∙ o.reserved q f;
      consumed = λ q f. os.consumed q f ∙ o.consumed q f;
      opened = λ q f is. os.opened q f (o.opened q f is);
    }

Opened-IsSound :
    (db : Db) (pools : List PoolEpoch)
    → Opened db.pools pools
    → IsSound db
    → IsSound (record db { pools = pools })
Opened-IsSound db pools o s = record {
  totals = λ q f. o.reserved q f ∙ s.totals q f;
  grouped = s.grouped;
  keyed =
      All-mono (HasPool db.pools) (HasPool pools) (λ r h. o.opened r.pool_id r.epoch h) db.rows
        s.keyed;
  checked = s.checked;
  rooted = s.rooted;
}

-- A row that may be carried: it is active, it has its group's state and liability, it fits the
-- CHECKs, and the group's root is not above the ids in use.
pub record Carriable (view : ℕ → State × ℕ) (rows : List Reservation) (row : GroupRow)
    : Type 0 where
  pub state : row.state ≡ (view row.root_id).0
  pub liability : row.liability ≡ (view row.root_id).1
  pub active : is_active row.state ≡ true
  pub response : response_check row.state row.response_id ≡ true
  pub below : row.root_id ≤ max_id rows

carry-Carriable :
    (view : ℕ → State × ℕ) (all_rows : List Reservation) (epoch : ℕ) (rows : List Reservation)
    → All (HasView view) rows
    → All IsChecked rows
    → All IsRooted rows
    → All (λ r. r.id ≤ max_id all_rows) rows
    → All (Carriable view all_rows) (map read_group_row (select (is_carried all_rows epoch) rows))
carry-Carriable view all_rows epoch [] v c k b = tt
carry-Carriable view all_rows epoch (r ∷ rows) v c k b =
    let rest = carry-Carriable view all_rows epoch rows v.1 c.1 k.1 b.1 in
    elim (Bool-cases (is_carried all_rows epoch r)) [
      | inl taken ↦ rw taken (
        record {
          state = v.0.0;
          liability = v.0.1;
          active = ground arith;
          response = ground arith;
          below = omega arith;
        },
        rest,
      )
      | inr left ↦ rw left rest
    ]

Carriable-mono :
    (view : ℕ → State × ℕ) (rows rows' : List Reservation)
    → max_id rows ≤ max_id rows'
    → (row : GroupRow) → Carriable view rows row
    → Carriable view rows' row
Carriable-mono view rows rows' h row c = record {
  state = c.state;
  liability = c.liability;
  active = c.active;
  response = c.response;
  below = omega arith;
}

-- The database that the loop has made so far.
abbrev pub so_far : Db → Carrying → Db
so_far db c = record db { pools = c.pools; rows = c.rows }

-- What one row of the loop does: nothing, where the group is in the new epoch already, or a new
-- row, whose liability is reserved.
pub record Carries (epoch : ℕ) (row : GroupRow) (c c' : Carrying) : Type 0 where
  pub adjusts : Adjusts c.pools c'.pools row.pool_id epoch row.liability 0 0
  pub added : c'.rows ≡ c.rows ++ shadow_row row (suc (max_id c.rows)) epoch ∷ []
  pub counted : c'.carried ≡ c.carried + 1

carry_row-parts :
    (epoch : ℕ) (row : GroupRow) (c c' : Carrying)
    → carry_row epoch row c ≡ ok c'
    → ((any (in_epoch row.root_id epoch) c.rows ≡ true) × (c' ≡ c))
      ⊎ ((adjust_pool c.pools row.pool_id epoch (pos row.liability) (pos 0) ≡ ok c'.pools)
          × (c' ≡ record {
            pools = c'.pools;
            rows = c.rows ++ shadow_row row (suc (max_id c.rows)) epoch ∷ [];
            carried = c.carried + 1;
          }))
unfolding carry_row
carry_row-parts epoch row c c' h = elim (Bool-cases (any (in_epoch row.root_id epoch) c.rows)) [
  | inl present ↦ inl (present, ground arith)
  | inr absent ↦ inr (ground arith, ground arith)
]

pub carry_row-Carries :
    (epoch : ℕ) (row : GroupRow) (c c' : Carrying)
    → carry_row epoch row c ≡ ok c'
    → ((any (in_epoch row.root_id epoch) c.rows ≡ true) × (c' ≡ c)) ⊎ Carries epoch row c c'
carry_row-Carries epoch row c c' h = elim (carry_row-parts epoch row c c' h) [
  | inl same ↦ inl same
  | inr (adjusted, is) ↦ inr (record {
    adjusts = adjust_pool-Adjusts c.pools row.pool_id epoch (pos row.liability) 0 adjusted;
    added = ap (λ x. x.rows) is;
    counted = ap (λ x. x.carried) is;
  })
]

-- The books under a fixed view of the groups.
abbrev Holds : (ℕ → State × ℕ) → Db → Carrying → Type 0
Holds view db c = IsSound (so_far db c) × All (HasView view) c.rows

shadow-View :
    (view : ℕ → State × ℕ) (row : GroupRow) (id epoch : ℕ) (rows : List Reservation)
    → Carriable view rows row
    → HasView view (shadow_row row id epoch) × IsChecked (shadow_row row id epoch)
shadow-View view row id epoch rows c =
    ((c.state, c.liability), ground (arith, c.active, c.response))

Carries-Holds :
    (view : ℕ → State × ℕ) (db : Db) (epoch : ℕ) (row : GroupRow) (c c' : Carrying)
    → Carriable view c.rows row
    → Carries epoch row c c'
    → Holds view db c
    → Holds view db c'
Carries-Holds view db epoch row c c' k e (s, v) =
    let shadow = shadow_row row (suc (max_id c.rows)) epoch in
    let fits = shadow-View view row (suc (max_id c.rows)) epoch c.rows k in
    let v' = All-snoc (HasView view) c.rows shadow v fits.0 in
    let below : row.root_id ≤ suc (max_id c.rows) = omega (arith, k.below) in
    (
      append-IsSound (so_far db c) (so_far db c') shadow e.added view v' k.active fits.1 below
          e.adjusts s,
      rw e.added v',
    )

max_id-Carries :
    (epoch : ℕ) (row : GroupRow) (c c' : Carrying)
    → Carries epoch row c c'
    → max_id c.rows ≤ max_id c'.rows
max_id-Carries epoch row c c' e =
    rw (e.added, max_id-snoc c.rows (shadow_row row (suc (max_id c.rows)) epoch) (omega arith))
      (omega arith)

carry_rows-Holds :
    (view : ℕ → State × ℕ) (db : Db) (epoch : ℕ) (rows : List GroupRow) (c c' : Carrying)
    → All (Carriable view c.rows) rows
    → carry_rows epoch rows c ≡ ok c'
    → Holds view db c
    → Holds view db c'
unfolding carry_rows
carry_rows-Holds view db epoch [] c c' k h s =
    let same : c ≡ c' = ground arith in subst (Holds view db) same s
carry_rows-Holds view db epoch (row ∷ rows) c c' k h s =
    let (mid, first, later) = >>=-eq-ok (carry_row epoch row c) _ h in
    elim (carry_row-Carries epoch row c mid first) [
      | inl (_, same) ↦ carry_rows-Holds view db epoch rows mid c' (rw same k.1) later (rw same s)
      | inr e ↦
          carry_rows-Holds view db epoch rows mid c'
            (All-mono (Carriable view c.rows) (Carriable view mid.rows)
              (Carriable-mono view c.rows mid.rows (max_id-Carries epoch row c mid e)) rows k.1)
            later (Carries-Holds view db epoch row c mid k.0 e s)
    ]

pub advance-parts :
    (epoch : ℕ) (grants : List (String × ℕ)) (db db' : Db) {o : RolloverOutcome}
    → advance epoch grants db ≡ ok (o, db')
    → (pools : List PoolEpoch) × (c : Carrying) × (open_pools epoch grants db.pools ≡ ok pools)
      × (carry_rows epoch
            (carry db.rows epoch)
            (record { pools = pools; rows = db.rows; carried = 0 })
          ≡ ok c)
      × (o ≡ advanced c.carried)
      × (db' ≡ record (so_far db c) { meta = record db.meta { current_epoch = epoch } })
unfolding advance
advance-parts epoch grants db db' h =
    let (pools, first, later) = >>=-eq-ok (open_pools epoch grants db.pools) _ h in
    let (c, second, last) = >>=-eq-ok (carry_rows epoch (carry db.rows epoch) _) _ later in
    (pools, c, first, second, ground arith, ground arith)

pub advance-IsSound :
    (epoch : ℕ) (grants : List (String × ℕ)) (db db' : Db) {o : RolloverOutcome}
    → advance epoch grants db ≡ ok (o, db')
    → IsSound db
    → IsSound db'
unfolding carry
advance-IsSound epoch grants db db' h s =
    let (pools, c, opened, carried, _, is) = advance-parts epoch grants db db' h in
    let (view, v) = s.grouped in
    let start : Carrying = record { pools = pools; rows = db.rows; carried = 0 } in
    let ready =
      carry-Carriable view db.rows epoch db.rows v s.checked s.rooted (max_id-bound db.rows) in
    let end =
      carry_rows-Holds view db epoch (carry db.rows epoch) start c ready carried
        (Opened-IsSound db pools (open_pools-Opened epoch grants db.pools opened) s, v) in
    rw is (IsSound-same (so_far db c) _ refl refl end.0)
