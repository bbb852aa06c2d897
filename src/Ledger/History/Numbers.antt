-- ===== src/Ledger/History/Numbers.antt =====
-- What each transaction of crates/ledger/src does to the two numbers that the external record
-- covers.
use quotamiser.Prelude.{
  ℕ, ◌+◌, String, ◌≡◌, Option, none, some, List, arith, Result, ok, err, >>=-eq-ok,
}
use quotamiser.Prelude.Int.{ℤ}
use quotamiser.Ledger.State.{State, Transition, target}
use quotamiser.Ledger.Trust.{HighWaterMark, LedgerMeta}
use quotamiser.Ledger.Schema.{Db}
use quotamiser.Ledger.Core.{Group}
use quotamiser.Ledger.Transitions.{
  load_allowed, prepare_dispatch, next_mark, commit_dispatch, relabel, finish, settle_as,
  settle_body, end_group,
}
use quotamiser.Ledger.Transitions.Usage.{CompletedResponse, UsageDefect, Settlement, validate}
use quotamiser.Ledger.Reserve.{ReservationRequest, Admission, reserve_body, check_quota, debit}
use quotamiser.Ledger.Rollover.{RolloverOutcome, advance, adopt_body}
use quotamiser.Ledger.Requests.{RequestWindow, RequestSlot, take_body, take_in_window}

-- Both numbers are kept.
abbrev pub SameMarks : LedgerMeta → LedgerMeta → Type 0
SameMarks m m' = (m'.generation ≡ m.generation) × (m'.cumulative_liability ≡ m.cumulative_liability)

pub relabel-marks :
    (id : ℕ) (t : Transition) (response_id : Option String) (u : Unit {0}) (db db' : Db)
    → relabel id t response_id db ≡ ok (u, db')
    → SameMarks db.meta db'.meta
unfolding relabel
relabel-marks id t response_id u db db' h = (ground arith, ground arith)

pub finish-marks :
    (g : Group) (to : State) (n : ℕ) (settled : Option ℕ) (db db' : Db)
    → finish g to n settled db ≡ ok db'
    → SameMarks db.meta db'.meta
unfolding finish
finish-marks g to n settled db db' h = (ground arith, ground arith)

pub end_group-marks :
    (t : Transition) (consumed : Group → ℕ) (id : ℕ) (u : Unit {0}) (db db' : Db)
    → end_group t consumed id db ≡ ok (u, db')
    → SameMarks db.meta db'.meta
unfolding end_group
end_group-marks t consumed id u db db' h =
    let (g, loads, later) = >>=-eq-ok (load_allowed db id t) _ h in
    let (db1, ended, last) = >>=-eq-ok (finish g (target t) (consumed g) none db) _ later in
    let (a, b) = finish-marks g (target t) (consumed g) none db db1 ended in
    (ground arith, ground arith)

pub settle_as-marks :
    (g : Group) (v : Result UsageDefect ℕ) (now : ℤ) (s : Settlement) (db db' : Db)
    → settle_as g v now db ≡ ok (s, db')
    → SameMarks db.meta db'.meta
unfolding settle_as
settle_as-marks g (err defect) now s db db' h =
    let (db1, ended, last) =
      >>=-eq-ok (finish g State.consumed_unrecoverable g.head.liability none db) _ h in
    let (a, b) = finish-marks g State.consumed_unrecoverable g.head.liability none db db1 ended in
    (ground arith, ground arith)
settle_as-marks g (ok actual) now s db db' h =
    let (db1, ended, last) = >>=-eq-ok (finish g State.settled actual (some actual) db) _ h in
    let (a, b) = finish-marks g State.settled actual (some actual) db db1 ended in
    (ground arith, ground arith)

pub settle_body-marks :
    (id : ℕ) (response : CompletedResponse) (accounting_rev now : ℤ) (s : Settlement) (db db' : Db)
    → settle_body id response accounting_rev now db ≡ ok (s, db')
    → SameMarks db.meta db'.meta
unfolding settle_body
settle_body-marks id response accounting_rev now s db db' h =
    let (g, loads, later) = >>=-eq-ok (load_allowed db id Transition.settle) _ h in
    settle_as-marks g (validate g.head response accounting_rev) now s db db' later

pub advance-marks :
    (epoch : ℕ) (grants : List (String × ℕ)) (o : RolloverOutcome) (db db' : Db)
    → advance epoch grants db ≡ ok (o, db')
    → SameMarks db.meta db'.meta
unfolding advance
advance-marks epoch grants o db db' h = (ground arith, ground arith)

pub take-marks :
    (provider : String) (epoch limit : ℕ) (window : RequestWindow) (now : ℤ) (s : RequestSlot)
    (db db' : Db)
    → take_body provider epoch limit window now db ≡ ok (s, db')
    → SameMarks db.meta db'.meta
unfolding take_body take_in_window
take-marks provider epoch limit window now s db db' h = (ground arith, ground arith)

pub reserve_body-marks :
    (request : ReservationRequest) (liability : ℕ) (keys : List String) (now : ℤ) (a : Admission)
    (db db' : Db)
    → reserve_body request liability keys now db ≡ ok (a, db')
    → SameMarks db.meta db'.meta
unfolding reserve_body check_quota debit
reserve_body-marks request liability keys now a db db' h = (ground arith, ground arith)

pub commit_dispatch-marks :
    (g : Group) (next : HighWaterMark) (old : ℕ) (db db' : Db)
    → commit_dispatch g next old db ≡ ok (tt, db')
    → (db'.meta.generation ≡ next.generation)
      × (db'.meta.cumulative_liability ≡ next.cumulative_liability)
unfolding commit_dispatch
commit_dispatch-marks g next old db db' h = (ground arith, ground arith)

-- The mark that a dispatch writes is above the ledger's numbers.
pub prepare_dispatch-marks :
    (db : Db) (id : ℕ) (g : Group) (next : HighWaterMark)
    → prepare_dispatch db id ≡ ok (g, next)
    → (next.generation ≡ db.meta.generation + 1)
      × (next.cumulative_liability ≡ db.meta.cumulative_liability + g.head.liability)
unfolding prepare_dispatch next_mark
prepare_dispatch-marks db id g next h = (ground arith, ground arith)

pub adopt_body-marks :
    (adoptions : List (String × ℕ × ℕ)) (anchor : HighWaterMark) (db db' : Db)
    → adopt_body adoptions anchor db ≡ ok (tt, db')
    → (db'.meta.generation ≡ anchor.generation)
      × (db'.meta.cumulative_liability ≡ anchor.cumulative_liability)
unfolding adopt_body
adopt_body-marks adoptions anchor db db' h = (ground arith, ground arith)
