-- ===== src/Ledger/Transitions/Books.antt =====
-- Each transaction of crates/ledger/src/transitions.rs keeps the books of the ledger.
use quotamiser.Prelude.{
  ℕ, String, ◌≡◌, refl, subst, Bool, true, false, ◌&&◌, Option, arith, ◌==◌, Result, ok, err,
  >>=-eq-ok,
}
use quotamiser.Prelude.Int.{ℤ}
use quotamiser.Ledger.State.{State, Transition, state_eq, is_active, target}
use quotamiser.Ledger.Trust.{HighWaterMark}
use quotamiser.Ledger.Schema.{Db}
use quotamiser.Ledger.Core.{Group, update_group, update_rows, expect_rows}
use quotamiser.Ledger.Transitions.{
  load_allowed, settle_body, end_group, relabel, relabel_row, commit_dispatch, dispatch_row,
}
use quotamiser.Ledger.Transitions.Usage.{CompletedResponse, UsageDefect, Settlement, validate}
use quotamiser.Ledger.Transitions.Effects.{
  load_allowed-Allowed, end_group-EndsBy, SettlesAs, settle_body-SettlesAs,
}
use quotamiser.Ledger.Sound.{IsSound}
use quotamiser.Ledger.Sound.Rows.{Relabels, Relabelled, update_group-Relabelled}
use quotamiser.Ledger.Sound.Finish.{Ended-IsSound}
use quotamiser.Ledger.Sound.States.{update_by_state-IsSound}

-- The books do not depend on the tables other than the pools and the reservations.
pub IsSound-same :
    (db db' : Db) → db'.pools ≡ db.pools → db'.rows ≡ db.rows → IsSound db → IsSound db'
IsSound-same db db' p r s = record {
  totals = rw (p, r) s.totals;
  grouped = rw r s.grouped;
  keyed = rw (p, r) s.keyed;
  checked = rw r s.checked;
  rooted = rw r s.rooted;
}

-- A group that was relabelled and stays active leaves the books sound.
Relabelled-IsSound :
    (db db' : Db) (g : Group) (to : State)
    → db'.pools ≡ db.pools
    → is_active to ≡ true
    → Relabelled g to db.rows db'.rows
    → IsSound db
    → IsSound db'
Relabelled-IsSound db db' g to same active e s = record {
  totals = λ q f. rw same (ground (arith, s.totals q f, e.sums q f));
  grouped = e.grouped s.grouped;
  keyed = rw same (e.keyed db.pools s.keyed);
  checked = e.checked s.checked;
  rooted = e.rooted s.rooted;
}

relabel_row-Relabels : (to : State) (id : Option String) → Relabels (relabel_row to id) to
relabel_row-Relabels to id = record {
  id = λ r. refl;
  root_id = λ r. refl;
  pool_id = λ r. refl;
  epoch = λ r. refl;
  liability = λ r. refl;
  state = λ r. refl;
}

pub relabel-IsSound :
    (id : ℕ) (t : Transition) (response_id : Option String) (db db' : Db)
    → is_active (target t) ≡ true
    → relabel id t response_id db ≡ ok (tt, db')
    → IsSound db
    → IsSound db'
unfolding relabel
relabel-IsSound id t response_id db db' active h s =
    let (g, loads, later) = >>=-eq-ok (load_allowed db id t) _ h in
    let a = load_allowed-Allowed db id t loads in
    let f = relabel_row (target t) response_id in
    let (rows, changed, last) = >>=-eq-ok (update_group g f db.rows) _ later in
    let is : record db { rows = rows } ≡ db' = ground arith in
    subst IsSound is (
      Relabelled-IsSound db (record db { rows = rows }) g (target t) refl active
        (update_group-Relabelled g (relabel_row (target t) response_id) (target t) db.rows
          (relabel_row-Relabels (target t) response_id) a.loaded a.active changed)
        s)

pub end_group-IsSound :
    (t : Transition) (consumed : Group → ℕ) (id : ℕ) (db db' : Db)
    → is_active (target t) ≡ false
    → end_group t consumed id db ≡ ok (tt, db')
    → IsSound db
    → IsSound db'
end_group-IsSound t consumed id db db' over h s =
    let (g, a, ends) = end_group-EndsBy t consumed id db db' h in
    Ended-IsSound db db' g (target t) (consumed g) over ends s

SettlesAs-IsSound :
    (g : Group) (v : Result UsageDefect ℕ) (now : ℤ) (db : Db) (s : Settlement) (db' : Db)
    → SettlesAs g v now db s db'
    → IsSound db
    → IsSound db'
SettlesAs-IsSound g (ok actual) now db s db' (_, e, _) i =
    IsSound-same (record db' { latches = db.latches }) db' refl refl
      (Ended-IsSound db _ g State.settled actual refl e i)
SettlesAs-IsSound g (err defect) now db s db' (_, e, _) i =
    IsSound-same (record db' { latches = db.latches }) db' refl refl
      (Ended-IsSound db _ g State.consumed_unrecoverable g.head.liability refl e i)

pub settle_body-IsSound :
    (id : ℕ) (response : CompletedResponse) (accounting_rev now : ℤ) (db db' : Db) {s : Settlement}
    → settle_body id response accounting_rev now db ≡ ok (s, db')
    → IsSound db
    → IsSound db'
settle_body-IsSound id response accounting_rev now db db' {s} h i =
    let (g, a, e) = settle_body-SettlesAs id response accounting_rev now db db' h in
    SettlesAs-IsSound g (validate g.head response accounting_rev) now db s db' e i

abbrev reserved_in : ℕ → ℕ → State → Bool
reserved_in root j s = j == root && state_eq s State.reserved

dispatch_row-Relabels : Relabels dispatch_row State.dispatching
dispatch_row-Relabels = record {
  id = λ r. refl;
  root_id = λ r. refl;
  pool_id = λ r. refl;
  epoch = λ r. refl;
  liability = λ r. refl;
  state = λ r. refl;
}

pub commit_dispatch-IsSound :
    (g : Group) (next : HighWaterMark) (old : ℕ) (db db' : Db)
    → commit_dispatch g next old db ≡ ok (tt, db')
    → IsSound db
    → IsSound db'
unfolding commit_dispatch update_rows expect_rows
commit_dispatch-IsSound g next old db db' h s =
    update_by_state-IsSound (reserved_in g.root) dispatch_row State.dispatching
      dispatch_row-Relabels db db' (ground arith) (ground arith) (λ j s e. ground arith)
      (λ q e. ground arith) (λ q e. ground arith) s
