-- ===== src/Ledger/Core/Groups.antt =====
-- What loading a group says of the rows of the table (crates/ledger/src/ledger.rs, `load_group`).
use quotamiser.Prelude.{
  ℕ, ◌+◌, inl, inr, ◌≡◌, refl, sym, ap, ◌∙◌, Bool, false, ◌&&◌, some, List, [], ◌∷◌, arith,
  if◌then◌else◌, ok, err, map, select, any, sum_by, find?, Option-cases,
}
use quotamiser.Ledger.Error.{LedgerError}
use quotamiser.Ledger.Schema.{Reservation}
use quotamiser.Ledger.Core.{
  GroupRow, Group, group_rows, read_group_row, insert_by_epoch, order_by_epoch, disagrees, in_group,
  check_group, load_group, has_id,
}

-- Sorting keeps every sum over the rows.
sum_by-insert :
    (h : GroupRow → ℕ) (g : GroupRow) (gs : List GroupRow)
    → sum_by h (insert_by_epoch g gs) ≡ h g + sum_by h gs
sum_by-insert h g [] = omega arith
sum_by-insert h g (x ∷ gs) = ground (arith, sum_by-insert h g gs)

sum_by-order : (h : GroupRow → ℕ) (gs : List GroupRow) → sum_by h (order_by_epoch gs) ≡ sum_by h gs
sum_by-order h [] = omega arith
sum_by-order h (g ∷ gs) = omega (arith, sum_by-insert h g (order_by_epoch gs), sum_by-order h gs)

sum_by-select :
    (h : GroupRow → ℕ) (p : Reservation → Bool) (rows : List Reservation)
    → sum_by h (map read_group_row (select p rows))
      ≡ sum_by (λ r. if p r then h (read_group_row r) else 0) rows
sum_by-select h p [] = omega arith
sum_by-select h p (r ∷ rows) = ground (arith, sum_by-select h p rows)

any-insert :
    (d : GroupRow → Bool) (g : GroupRow) (gs : List GroupRow)
    → any d (insert_by_epoch g gs) ≡ any d (g ∷ gs)
any-insert d g [] = refl
any-insert d g (x ∷ gs) = ground (arith, any-insert d g gs)

any-order : (d : GroupRow → Bool) (gs : List GroupRow) → any d (order_by_epoch gs) ≡ any d gs
any-order d [] = refl
any-order d (g ∷ gs) = ground (arith, any-insert d g (order_by_epoch gs), any-order d gs)

pub any-select :
    (d : GroupRow → Bool) (p : Reservation → Bool) (rows : List Reservation)
    → any d (map read_group_row (select p rows)) ≡ any (λ r. p r && d (read_group_row r)) rows
any-select d p [] = refl
any-select d p (r ∷ rows) = ground (arith, any-select d p rows)

-- What a group that was loaded says of the table: its rows are those of the table with its root,
-- and they agree with its head in state and liability.
pub record Loaded (rows : List Reservation) (g : Group) : Type 0 where
  pub uniform : any (λ r. in_group g.root r && disagrees g.head (read_group_row r)) rows ≡ false
  pub rows_uniform : any (disagrees g.head) (group_rows g) ≡ false
  pub sums :
      (h : GroupRow → ℕ)
      → sum_by h (group_rows g)
        ≡ sum_by (λ r. if in_group g.root r then h (read_group_row r) else 0) rows

check_group-ok :
    (id root : ℕ) (gs : List GroupRow) {g : Group}
    → check_group id root gs ≡ ok g
    → (g.root ≡ root) × (group_rows g ≡ gs) × (any (disagrees g.head) gs ≡ false)
check_group-ok id root [] e = cc
check_group-ok id root (head ∷ rest) {g} e = ground arith

checked-Loaded :
    (rows : List Reservation) (id root : ℕ) {g : Group}
    → check_group id root (order_by_epoch (map read_group_row (select (in_group root) rows))) ≡ ok g
    → Loaded rows g
checked-Loaded rows id root {g} e =
    let c =
      check_group-ok id root (order_by_epoch (map read_group_row (select (in_group root) rows)))
        e in
    let d = disagrees g.head in
    let gs = map read_group_row (select (in_group root) rows) in
    record {
      uniform = rw c.0 (sym (any-select d (in_group root) rows) ∙ sym (any-order d gs) ∙ c.2);
      rows_uniform = ap (any d) c.1 ∙ c.2;
      sums = λ h.
          rw c.0 (ap (sum_by h) c.1 ∙ sum_by-order h gs ∙ sum_by-select h (in_group root) rows);
    }

no_err : {e : LedgerError} {g : Group} → ¬ (err e ≡ ok g)
no_err h = cc

pub load_group-Loaded :
    (rows : List Reservation) (id : ℕ) {g : Group} → load_group rows id ≡ ok g → Loaded rows g
unfolding load_group
load_group-Loaded rows id {g} e = elim (Option-cases (find? (has_id id) rows)) [
  | inl gone ↦ absurd (no_err (rw (gone, load_group) at e))
  | inr (found, f) ↦ checked-Loaded rows id found.root_id (rw (f, load_group) at e)
]

-- The group is that of the row with the id that was asked for.
pub load_group-found :
    (rows : List Reservation) (id : ℕ) {g : Group}
    → load_group rows id ≡ ok g
    → (found : Reservation) × (find? (has_id id) rows ≡ some found) × (g.root ≡ found.root_id)
unfolding load_group
load_group-found rows id {g} e = elim (Option-cases (find? (has_id id) rows)) [
  | inl gone ↦ absurd (no_err (rw (gone, load_group) at e))
  | inr (found, f) ↦ (
    found,
    f,
    (check_group-ok id found.root_id
        (order_by_epoch (map read_group_row (select (in_group found.root_id) rows)))
        (rw (f, load_group) at e)).0,
  )
]
