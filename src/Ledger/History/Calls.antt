-- ===== src/Ledger/History/Calls.antt =====
-- What the calls of crates/ledger/src/transitions.rs and rollover.rs that write the external
-- record do to the ledger.
use quotamiser.Prelude.{
  ℕ, inl, inr, ◌⊎◌, String, ◌≡◌, refl, some, List, arith, ok, err, Result-cases,
}
use quotamiser.Ledger.Error.{LedgerError, Outcome}
use quotamiser.Ledger.Trust.{HighWaterMark, trusted}
use quotamiser.Ledger.Schema.{Db}
use quotamiser.Ledger.Core.{Group}
use quotamiser.Ledger.Store.{Ledger, Transaction, transact}
use quotamiser.Ledger.Transitions.{
  WriteOutcome, not_written, written_unsynced, written, begin_dispatch, prepare_dispatch,
  commit_dispatch,
}
use quotamiser.Ledger.Rollover.{adopt_body, anchor_of, adopt_recovered_consumption}

-- An operation fails or succeeds.
pub outcome_cases :
    {A : Type 0} (x : Outcome A × Ledger)
    → ((e : LedgerError) × (x ≡ (err e, x.1))) ⊎ ((a : A) × (x ≡ (ok a, x.1)))
outcome_cases (ok a, l) = inr (a, refl)
outcome_cases (err e, l) = inl (e, refl)

-- A transaction leaves the database as it was, or as its body leaves it.
pub transact_lem :
    {A : Type 0} (body : Transaction A) (l : Ledger)
    → ((transact body l).1 ≡ l)
      ⊎ ((a : A) × (db : Db) × (body l.db ≡ ok (a, db))
          × ((transact body l).1 ≡ record l { db = db }))
transact_lem body l = elim (Result-cases (body l.db)) [
  | inl ((a, db), is) ↦ inr (a, db, is, ground arith)
  | inr (e, is) ↦ inl (ground arith)
]

-- A dispatch changes nothing, or it writes the mark; then its transaction fails or commits.
abbrev pub Dispatches : ℕ → Ledger → Ledger → Type 0
Dispatches id l l' =
    (l' ≡ l)
    ⊎ ((g : Group) × (next : HighWaterMark) × (prepare_dispatch l.db id ≡ ok (g, next))
        × ((l' ≡ record l { hwm = ok (some next) })
            ⊎ ((db : Db) × (commit_dispatch g next l.db.meta.generation l.db ≡ ok (tt, db))
                × (l' ≡ record l { hwm = ok (some next); db = db }))))

dispatched :
    (id : ℕ) (written_as : WriteOutcome) (l : Ledger) (g : Group) (next : HighWaterMark)
    → prepare_dispatch l.db id ≡ ok (g, next)
    → Dispatches id l (begin_dispatch id written_as l).1
unfolding begin_dispatch
dispatched id not_written l g next prepared = inl (ground arith)
dispatched id written_unsynced l g next prepared = inr (g, next, prepared, inl (ground arith))
dispatched id written l g next prepared =
    elim (Result-cases (commit_dispatch g next l.db.meta.generation l.db)) [
      | inr (e, failed) ↦ inr (g, next, prepared, inl (ground arith))
      | inl ((u, db), committed) ↦ inr (g, next, prepared, inr (db, ground arith, ground arith))
    ]

pub begin_dispatch-Dispatches :
    (id : ℕ) (written_as : WriteOutcome) (l : Ledger)
    → Dispatches id l (begin_dispatch id written_as l).1
unfolding begin_dispatch
begin_dispatch-Dispatches id written_as l = elim (Result-cases (prepare_dispatch l.db id)) [
  | inr (e, failed) ↦ inl (ground arith)
  | inl ((g, next), prepared) ↦ dispatched id written_as l g next prepared
]

abbrev pub Adopts : List (String × ℕ × ℕ) → Ledger → Ledger → Type 0
Adopts adoptions l l' =
    (l' ≡ l)
    ⊎ ((anchor : HighWaterMark) × (anchor_of l.db.meta l.hwm ≡ ok anchor)
        × ((l' ≡ record l { hwm = ok (some anchor) })
            ⊎ ((db : Db) × (adopt_body adoptions anchor l.db ≡ ok (tt, db))
                × (l' ≡ record { db = db; hwm = ok (some anchor); trust = trusted }))))

adopted :
    (adoptions : List (String × ℕ × ℕ)) (written_as : WriteOutcome) (l : Ledger)
    (anchor : HighWaterMark)
    → anchor_of l.db.meta l.hwm ≡ ok anchor
    → Adopts adoptions l (adopt_recovered_consumption adoptions written_as l).1
unfolding adopt_recovered_consumption
adopted adoptions not_written l anchor is = inl (ground arith)
adopted adoptions written_unsynced l anchor is = inr (anchor, is, inl (ground arith))
adopted adoptions written l anchor is = elim (Result-cases (adopt_body adoptions anchor l.db)) [
  | inr (e, failed) ↦ inr (anchor, is, inl (ground arith))
  | inl ((u, db), committed) ↦ inr (anchor, is, inr (db, ground arith, ground arith))
]

pub adopt-Adopts :
    (adoptions : List (String × ℕ × ℕ)) (written_as : WriteOutcome) (l : Ledger)
    → Adopts adoptions l (adopt_recovered_consumption adoptions written_as l).1
unfolding adopt_recovered_consumption
adopt-Adopts adoptions written_as l = elim (Result-cases (anchor_of l.db.meta l.hwm)) [
  | inr (e, failed) ↦ inl (ground arith)
  | inl (anchor, is) ↦ adopted adoptions written_as l anchor is
]
