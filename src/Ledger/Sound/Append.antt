-- ===== src/Ledger/Sound/Append.antt =====
-- A new row at the end of the table of reservations keeps the books.
use quotamiser.Prelude.{
  ℕ, ◌+◌, ◌≤◌, ◌<◌, String, ◌≡◌, ◌∙◌, true, List, [], ◌∷◌, ◌++◌, arith, ◌==◌, if◌then◌else◌, All,
  All-mono,
}
use quotamiser.Ledger.State.{State, is_active}
use quotamiser.Ledger.Schema.{Reservation, Db, max_id}
use quotamiser.Ledger.Core.Pools.{Adjusts}
use quotamiser.Ledger.Sound.{active_at, active_sum, HasView, HasPool, IsChecked, IsRooted, IsSound}

pub All-snoc {ℓ} :
    (P : Reservation → Type ℓ) (rows : List Reservation) (r : Reservation)
    → All P rows
    → P r
    → All P (rows ++ r ∷ [])
All-snoc P [] r h p = (p, tt)
All-snoc P (x ∷ rows) r h p = (h.0, All-snoc P rows r h.1 p)

active_sum-snoc :
    (rows : List Reservation) (r : Reservation) (q : String) (f : ℕ)
    → active_sum (rows ++ r ∷ []) q f ≡ active_sum rows q f + active_at q f r
active_sum-snoc [] r q f = omega arith
active_sum-snoc (x ∷ rows) r q f = omega (arith, active_sum-snoc rows r q f)

-- Every id is at most the greatest one.
pub max_id-bound : (rows : List Reservation) → All (λ r. r.id ≤ max_id rows) rows
max_id-bound [] = tt
max_id-bound (r ∷ rows) = (
  ground arith,
  All-mono (λ x. x.id ≤ max_id rows) (λ x. x.id ≤ max_id (r ∷ rows)) (λ x h. ground arith) rows
      (max_id-bound rows),
)

pub max_id-snoc :
    (rows : List Reservation) (r : Reservation)
    → max_id rows < r.id
    → max_id (rows ++ r ∷ []) ≡ r.id
max_id-snoc [] r h = ground arith
max_id-snoc (x ∷ rows) r h = ground (arith, max_id-snoc rows r)

-- The new row's group is new, or has the state and the liability that the view gives it.
pub append-IsSound :
    (db db' : Db) (r : Reservation)
    → db'.rows ≡ db.rows ++ r ∷ []
    → (view : ℕ → State × ℕ) → All (HasView view) (db.rows ++ r ∷ [])
    → is_active r.state ≡ true
    → IsChecked r
    → IsRooted r
    → Adjusts db.pools db'.pools r.pool_id r.epoch r.liability 0 0
    → IsSound db
    → IsSound db'
append-IsSound db db' r is view v active checked rooted a s = record {
  totals =
      λ q f. rw is (ground (arith, s.totals q f, a.reserved q f, active_sum-snoc db.rows r q f));
  grouped = rw is (view, v);
  keyed = rw is (
      All-snoc (HasPool db'.pools) db.rows r
        (All-mono (HasPool db.pools) (HasPool db'.pools) (λ x h. a.opened x.pool_id x.epoch ∙ h)
          db.rows s.keyed)
        (a.opened r.pool_id r.epoch ∙ a.was_open));
  checked = rw is (All-snoc IsChecked db.rows r s.checked checked);
  rooted = rw is (All-snoc IsRooted db.rows r s.rooted rooted);
}

-- The view with a group of its own for `id`, which no row has as its root yet.
abbrev pub with_group : (ℕ → State × ℕ) → ℕ → State × ℕ → ℕ → State × ℕ
with_group view id now j = if j == id then now else view j

pub with_group-fresh :
    (view : ℕ → State × ℕ) (rows : List Reservation) (id : ℕ) (now : State × ℕ)
    → max_id rows < id
    → All IsRooted rows
    → All (HasView view) rows
    → All (HasView (with_group view id now)) rows
with_group-fresh view [] id now m k v = tt
with_group-fresh view (r ∷ rows) id now m k v =
    ((ground arith, ground arith), with_group-fresh view rows id now (ground arith) k.1 v.1)
