-- ===== src/Ledger/Sound/Rows.antt =====
-- What relabelling a group does to the rows of the table and to the sums over them.
use quotamiser.Prelude.{
  ℕ, ◌+◌, String, ◌≡◌, refl, Bool, true, false, ◌&&◌, ◌||◌, not, List, [], ◌∷◌, arith, ◌==◌,
  if◌then◌else◌, ok, any, all, sum_by, All, All-update, length, count, update,
}
use quotamiser.Ledger.State.{State, is_active}
use quotamiser.Ledger.State.Laws.{state_eq-eq, state_eq_refl}
use quotamiser.Ledger.Schema.{PoolEpoch, Reservation, row_check}
use quotamiser.Ledger.Core.{
  GroupRow, Group, group_rows, group_state, read_group_row, disagrees, in_group, in_group_at,
  update_rows, expect_rows, update_group,
}
use quotamiser.Ledger.Core.Groups.{Loaded}
use quotamiser.Ledger.Core.Pools.{share}
use quotamiser.Ledger.Sound.{active_sum, HasView, IsGrouped, HasPool, IsChecked, IsRooted}

-- The update of a row changes its state to `to`, and neither its key nor its liability.
pub record Relabels (f : Reservation → Reservation) (to : State) : Type 0 where
  pub id : (r : Reservation) → (f r).id ≡ r.id
  pub root_id : (r : Reservation) → (f r).root_id ≡ r.root_id
  pub pool_id : (r : Reservation) → (f r).pool_id ≡ r.pool_id
  pub epoch : (r : Reservation) → (f r).epoch ≡ r.epoch
  pub liability : (r : Reservation) → (f r).liability ≡ r.liability
  pub state : (r : Reservation) → (f r).state ≡ to

-- What the rows of a group hold of a pool and an epoch.
abbrev pub group_at : ℕ → String → ℕ → Reservation → ℕ
group_at root q f r = if in_group root r then share r.pool_id r.epoch q f r.liability else 0

module _ (head : GroupRow) (root : ℕ) (f : Reservation → Reservation) (to : State)
    (k : Relabels f to) where
  abbrev Uniform : List Reservation → Type 0
  Uniform rows = any (λ r. in_group root r && disagrees head (read_group_row r)) rows ≡ false

  -- The sums over the active rows: the group's share is taken out, and put back if the new state
  -- is active.
  update-active_sum :
      (rows : List Reservation) (q : String) (e : ℕ)
      → Uniform rows
      → is_active head.state ≡ true
      → active_sum (update (in_group_at root head.state) f rows) q e
          + sum_by (group_at root q e) rows
        ≡ active_sum rows q e + (if is_active to then sum_by (group_at root q e) rows else 0)
  update-active_sum [] q e u a = ground arith
  update-active_sum (r ∷ rows) q e u a = ground (
    arith,
    update-active_sum rows q e,
    k.root_id r,
    k.pool_id r,
    k.epoch r,
    k.liability r,
    k.state r,
    state_eq-eq r.state head.state,
  )

  -- Every row of the group is changed.
  count-group :
      (rows : List Reservation)
      → Uniform rows
      → count (in_group_at root head.state) rows
        ≡ sum_by (λ r. if in_group root r then 1 else 0) rows
  count-group [] u = refl
  count-group (r ∷ rows) u = ground (arith, count-group rows)

  view-after : (ℕ → State × ℕ) → ℕ → State × ℕ
  view-after view j = if j == root then (to, head.liability) else view j

  -- The group's new state is the state of all of its rows.
  update-IsGrouped :
      (view : ℕ → State × ℕ) (rows : List Reservation)
      → Uniform rows
      → All (HasView view) rows
      → All (HasView (view-after view)) (update (in_group_at root head.state) f rows)
  unfolding view-after
  update-IsGrouped view [] u h = tt
  update-IsGrouped view (r ∷ rows) u h = (
    (
      ground (arith, k.root_id r, k.state r, state_eq-eq r.state head.state, state_eq_refl r.state),
      ground (
        arith,
        k.root_id r,
        k.liability r,
        state_eq-eq r.state head.state,
        state_eq_refl r.state,
      ),
    ),
    update-IsGrouped view rows (ground arith) h.1,
  )

  update-HasPool :
      (pools : List PoolEpoch) (r : Reservation) → HasPool pools r → HasPool pools (f r)
  update-HasPool pools r h = rw (k.pool_id r, k.epoch r) h

pub update-IsChecked :
    (p : Reservation → Bool) (f : Reservation → Reservation) (rows : List Reservation)
    → all (λ r. not (p r) || row_check (f r)) rows ≡ true
    → All IsChecked rows
    → All IsChecked (update p f rows)
update-IsChecked p f [] c h = tt
update-IsChecked p f (r ∷ rows) c h = (ground arith, update-IsChecked p f rows (ground arith) h.1)

update_group-ok :
    (g : Group) (f : Reservation → Reservation) (rows : List Reservation) {rows' : List Reservation}
    → update_group g f rows ≡ ok rows'
    → (rows' ≡ update (in_group_at g.root (group_state g)) f rows)
      × (all (λ r. not (in_group_at g.root (group_state g) r) || row_check (f r)) rows ≡ true)
unfolding update_group update_rows expect_rows
update_group-ok g f rows h = ground arith

-- What the group holds of a pool and an epoch.
abbrev pub held_at : String → ℕ → GroupRow → ℕ
held_at q e row = share row.pool_id row.epoch q e row.liability

-- A group that was relabelled: the sums, the group's state, the keys and the CHECKs.
pub record Relabelled (g : Group) (to : State) (rows rows' : List Reservation) : Type 0 where
  pub sums :
      (q : String) (e : ℕ)
      → active_sum rows' q e + sum_by (held_at q e) (group_rows g)
        ≡ active_sum rows q e + (if is_active to then sum_by (held_at q e) (group_rows g) else 0)
  pub grouped : IsGrouped rows → IsGrouped rows'
  pub keyed : (pools : List PoolEpoch) → All (HasPool pools) rows → All (HasPool pools) rows'
  pub checked : All IsChecked rows → All IsChecked rows'
  pub rooted : All IsRooted rows → All IsRooted rows'

pub update_group-Relabelled :
    (g : Group) (f : Reservation → Reservation) (to : State) (rows : List Reservation)
    {rows' : List Reservation}
    → Relabels f to
    → Loaded rows g
    → is_active (group_state g) ≡ true
    → update_group g f rows ≡ ok rows'
    → Relabelled g to rows rows'
update_group-Relabelled g f to rows k l active h =
    let (is, checks) = update_group-ok g f rows h in
    rw is (record {
      sums = λ q e.
          rw (l.sums (held_at q e))
            (update-active_sum g.head g.root f to k rows q e l.uniform active);
      grouped = λ (view, v). (
        view-after g.head g.root f to k view,
        update-IsGrouped g.head g.root f to k view rows l.uniform v,
      );
      keyed = λ pools.
          All-update (HasPool pools) _ f rows (λ r _. update-HasPool g.head g.root f to k pools r);
      checked = update-IsChecked _ f rows checks;
      rooted = All-update IsRooted _ f rows (λ r _ h. rw (k.root_id r, k.id r) h);
    })

length-sum_by : (gs : List GroupRow) → length gs ≡ sum_by (λ _. 1) gs
length-sum_by [] = refl
length-sum_by (g ∷ gs) = omega (arith, length-sum_by gs)

-- The update of a loaded group finds all of its rows: the row count never fails.
pub update_group-total :
    (g : Group) (f : Reservation → Reservation) (to : State) (rows : List Reservation)
    → Relabels f to
    → Loaded rows g
    → all (λ r. not (in_group_at g.root (group_state g) r) || row_check (f r)) rows ≡ true
    → update_group g f rows ≡ ok (update (in_group_at g.root (group_state g)) f rows)
unfolding update_group update_rows expect_rows
update_group-total g f to rows k l c = ground (
  arith,
  count-group g.head g.root f to k rows l.uniform,
  l.sums (λ (x : GroupRow). 1),
  length-sum_by (group_rows g),
)
