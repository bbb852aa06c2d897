-- ===== src/Ledger/Rollover/Coverage.antt =====
-- After a rollover of crates/ledger/src/rollover.rs every active group is in the new epoch.
use quotamiser.Prelude.{
  ℕ, suc, inl, inr, String, ◌≡◌, refl, ◌∙◌, Bool, true, false, ◌&&◌, ◌||◌, not, List, [], ◌∷◌, ◌++◌,
  arith, ◌==◌, ok, All, all, Bool-cases, >>=-eq-ok, any,
}
use quotamiser.Ledger.State.{State, is_active}
use quotamiser.Ledger.Schema.{Reservation, Db, max_id}
use quotamiser.Ledger.Core.{GroupRow, in_group}
use quotamiser.Ledger.Core.Groups.{any-select}
use quotamiser.Ledger.Rollover.{
  RolloverOutcome, carry, is_carried, shadow_row, Carrying, carry_row, carry_rows, advance,
  in_epoch, last_epoch,
}
use quotamiser.Ledger.Rollover.Books.{carry_row-Carries, advance-parts}
use quotamiser.Ledger.Sound.{HasView, IsSound}

last_epoch-none :
    (root : ℕ) (rows : List Reservation)
    → any (in_group root) rows ≡ false
    → last_epoch root rows ≡ 0
last_epoch-none root [] h = refl
last_epoch-none root (r ∷ rows) h = ground (arith, last_epoch-none root rows)

-- The newest row of a group is a row of the group.
newest :
    (root : ℕ) (rows : List Reservation)
    → any (in_group root) rows ≡ true
    → any (in_epoch root (last_epoch root rows)) rows ≡ true
newest root [] h = cc
newest root (r ∷ rows) h = elim (Bool-cases (any (in_group root) rows)) [
  | inl more ↦ ground (arith, newest root rows)
  | inr last ↦ ground (arith, last_epoch-none root rows)
]

-- A group that is active and not in the new epoch has its newest row carried.
newest-carried :
    (view : ℕ → State × ℕ) (all_rows : List Reservation) (root epoch : ℕ) (rows : List Reservation)
    → All (HasView view) rows
    → is_active (view root).0 ≡ true
    → any (in_epoch root epoch) all_rows ≡ false
    → any (in_epoch root (last_epoch root all_rows)) rows ≡ true
    → any (λ r. is_carried all_rows epoch r && in_group root r) rows ≡ true
newest-carried view all_rows root epoch [] v a absent h = cc
newest-carried view all_rows root epoch (r ∷ rows) v a absent h =
    elim (Bool-cases (in_epoch root (last_epoch root all_rows) r)) [
      | inl here ↦
          let same : r.root_id ≡ root = ground arith in
          let no : any (in_epoch r.root_id epoch) all_rows ≡ false = rw same absent in
          let last : r.epoch ≡ last_epoch r.root_id all_rows = rw same (ground arith) in
          let active : is_active r.state ≡ true = rw (v.0.0, same) a in
          ground (arith, no, last, active)
      | inr there ↦ ground (arith, newest-carried view all_rows root epoch rows v.1 a absent)
    ]

any-snoc :
    (p : Reservation → Bool) (rows : List Reservation) (r : Reservation)
    → any p (rows ++ r ∷ []) ≡ any p rows || p r
any-snoc p [] r = ground arith
any-snoc p (x ∷ rows) r = ground (arith, any-snoc p rows r)

-- The loop never takes a row out, and leaves each of its rows in the new epoch.
carry_row-covers :
    (epoch root : ℕ) (row : GroupRow) (c c' : Carrying)
    → carry_row epoch row c ≡ ok c'
    → (row.root_id == root) || any (in_epoch root epoch) c.rows ≡ true
    → any (in_epoch root epoch) c'.rows ≡ true
carry_row-covers epoch root row c c' h p = elim (carry_row-Carries epoch row c c' h) [
  | inl (present, same) ↦ rw same (elim (Bool-cases (row.root_id == root)) [
    | inl hit ↦ let is : row.root_id ≡ root = ground arith in rw is at present
    | inr miss ↦ ground arith
  ])
  | inr e ↦
      rw
        (
          e.added,
          any-snoc (in_epoch root epoch) c.rows (shadow_row row (suc (max_id c.rows)) epoch),
        )
        (ground arith)
]

carry_rows-covers :
    (epoch root : ℕ) (rows : List GroupRow) (c c' : Carrying)
    → carry_rows epoch rows c ≡ ok c'
    → any (λ row. row.root_id == root) rows || any (in_epoch root epoch) c.rows ≡ true
    → any (in_epoch root epoch) c'.rows ≡ true
unfolding carry_rows
carry_rows-covers epoch root [] c c' h p = ground arith
carry_rows-covers epoch root (row ∷ rows) c c' h p =
    let (mid, first, later) = >>=-eq-ok (carry_row epoch row c) _ h in
    carry_rows-covers epoch root rows mid c' later
      (ground (arith, carry_row-covers epoch root row c mid first))

-- Whether a group that is active has a row in the new epoch.
abbrev pub is_covered : ℕ → List Reservation → Reservation → Bool
is_covered epoch rows r = not (is_active r.state) || any (in_epoch r.root_id epoch) rows

advance-covers :
    (epoch : ℕ) (grants : List (String × ℕ)) (db db' : Db) {o : RolloverOutcome}
    → advance epoch grants db ≡ ok (o, db')
    → (view : ℕ → State × ℕ) → All (HasView view) db.rows
    → (root : ℕ) → any (in_group root) db.rows ≡ true
    → is_active (view root).0 ≡ true
    → any (in_epoch root epoch) db'.rows ≡ true
unfolding carry
advance-covers epoch grants db db' h view v root present active =
    let (pools, c, opened, carried, _, is) = advance-parts epoch grants db db' h in
    let start : Carrying = record { pools = pools; rows = db.rows; carried = 0 } in
    let covered : any (in_epoch root epoch) c.rows ≡ true =
      carry_rows-covers epoch root (carry db.rows epoch) start c carried
        (elim (Bool-cases (any (in_epoch root epoch) db.rows)) [
          | inl already ↦ ground arith
          | inr absent ↦
              let picked =
                any-select (λ row. row.root_id == root) (is_carried db.rows epoch) db.rows
                ∙ newest-carried view db.rows root epoch db.rows v active absent
                    (newest root db.rows present) in
              ground (arith, picked)
        ]) in
    ground (arith, is, covered)

-- The rows that were there before, each with its group in the new epoch if it is active.
covers-all :
    (epoch : ℕ) (view : ℕ → State × ℕ) (rows rows' all_rows : List Reservation)
    → All (HasView view) rows
    → ((root : ℕ)
        → any (in_group root) all_rows ≡ true
        → is_active (view root).0 ≡ true
        → any (in_epoch root epoch) rows' ≡ true)
    → ((root : ℕ) → any (in_group root) rows ≡ true → any (in_group root) all_rows ≡ true)
    → all (is_covered epoch rows') rows ≡ true
covers-all epoch view [] rows' all_rows v k sub = refl
covers-all epoch view (r ∷ rows) rows' all_rows v k sub =
    let rest =
      covers-all epoch view rows rows' all_rows v.1 k (λ root h. sub root (ground arith)) in
    let self = sub r.root_id (ground arith) in ground (arith, rest, k r.root_id self)

-- After a rollover every active reservation has a row in the new epoch, so that the new epoch's
-- `reserved` counts it.
pub rollover_covers :
    (epoch : ℕ) (grants : List (String × ℕ)) (db db' : Db) (o : RolloverOutcome)
    → advance epoch grants db ≡ ok (o, db')
    → IsSound db
    → all (is_covered epoch db'.rows) db.rows ≡ true
rollover_covers epoch grants db db' o h s =
    let (view, v) = s.grouped in
    covers-all epoch view db.rows db'.rows db.rows v (advance-covers epoch grants db db' h view v)
      (λ root p. p)
