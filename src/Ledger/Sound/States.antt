-- ===== src/Ledger/Sound/States.antt =====
-- An UPDATE that sets the state of the rows of some groups, chosen by their root and their state,
-- keeps the books where the rows stay active.
use quotamiser.Prelude.{
  ℕ, ◌+◌, inl, inr, String, ◌≡◌, ◌∙◌, Bool, true, ◌||◌, not, List, [], ◌∷◌, arith, if◌then◌else◌,
  all, sum_by, All, All-update, All-mono, update, Bool-cases,
}
use quotamiser.Ledger.State.{State, is_active}
use quotamiser.Ledger.Schema.{Reservation, Db, row_check}
use quotamiser.Ledger.Core.Pools.{is_open, reserved_of}
use quotamiser.Ledger.Sound.{active_at, active_sum, HasView, HasPool, IsRooted, IsSound}
use quotamiser.Ledger.Sound.Rows.{Relabels, update-IsChecked}

-- What the chosen rows hold of a pool and an epoch.
abbrev pub chosen_at : (ℕ → State → Bool) → String → ℕ → Reservation → ℕ
chosen_at choose q f r = if choose r.root_id r.state then active_at q f r else 0

module _ (choose : ℕ → State → Bool) (f : Reservation → Reservation) (to : State)
    (k : Relabels f to) where
  abbrev chosen : Reservation → Bool
  chosen r = choose r.root_id r.state

  update_by_state-sum :
      (rows : List Reservation) (q : String) (e : ℕ)
      → ((j : ℕ) (s : State) → choose j s ≡ true → is_active s ≡ true)
      → active_sum (update chosen f rows) q e + sum_by (chosen_at choose q e) rows
        ≡ active_sum rows q e + (if is_active to then sum_by (chosen_at choose q e) rows else 0)
  update_by_state-sum [] q e a = ground arith
  update_by_state-sum (r ∷ rows) q e a = ground (
    arith,
    update_by_state-sum rows q e a,
    a r.root_id r.state,
    k.pool_id r,
    k.epoch r,
    k.liability r,
    k.state r,
  )

  abbrev moved : (ℕ → State × ℕ) → ℕ → State × ℕ
  moved view j = if choose j (view j).0 then (to, (view j).1) else view j

  update_by_state-HasView :
      (view : ℕ → State × ℕ) (r : Reservation)
      → HasView view r
      → HasView (moved view) (if chosen r then f r else r)
  update_by_state-HasView view r h = elim (Bool-cases (chosen r)) [
    | inl hit ↦
        rw hit (ground (arith, k.root_id r, k.state r), ground (arith, k.root_id r, k.liability r))
    | inr miss ↦ rw miss (ground arith, ground arith)
  ]

  update_by_state_each :
      (view : ℕ → State × ℕ) (rows : List Reservation)
      → All (HasView view) rows
      → All (HasView (moved view)) (update chosen f rows)
  update_by_state_each view [] h = tt
  update_by_state_each view (r ∷ rows) h =
      (update_by_state-HasView view r h.0, update_by_state_each view rows h.1)

  -- The books after such an UPDATE, where the tables of the pools may have changed with it.
  pub update_by_state-IsSound :
      (db db' : Db)
      → db'.rows ≡ update chosen f db.rows
      → all (λ r. not (chosen r) || row_check (f r)) db.rows ≡ true
      → ((j : ℕ) (s : State) → choose j s ≡ true → is_active s ≡ true)
      → ((q : String) (e : ℕ)
          → reserved_of db'.pools q e
              + (if is_active to then 0 else sum_by (chosen_at choose q e) db.rows)
            ≡ reserved_of db.pools q e)
      → ((q : String) (e : ℕ) → is_open db'.pools q e ≡ is_open db.pools q e)
      → IsSound db
      → IsSound db'
  update_by_state-IsSound db db' is c a drained opened s = record {
    totals =
        λ q e. rw is (ground (arith, s.totals q e, drained q e, update_by_state-sum db.rows q e a));
    grouped = rw is (moved s.grouped.0, update_by_state_each s.grouped.0 db.rows s.grouped.1);
    keyed = rw is (
        All-mono (HasPool db.pools) (HasPool db'.pools) (λ x h. opened x.pool_id x.epoch ∙ h) _
          (All-update (HasPool db.pools) chosen f db.rows (λ r _ h. rw (k.pool_id r, k.epoch r) h)
            s.keyed));
    checked = rw is (update-IsChecked chosen f db.rows c s.checked);
    rooted =
        rw is (All-update IsRooted chosen f db.rows (λ r _ h. rw (k.root_id r, k.id r) h) s.rooted);
  }
