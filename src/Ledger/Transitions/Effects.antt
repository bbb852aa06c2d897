-- ===== src/Ledger/Transitions/Effects.antt =====
-- What each operation of crates/ledger/src/transitions.rs does to the books when it succeeds.
use quotamiser.Prelude.{
  ℕ, ◌<>◌, ◌≡◌, true, none, some, List, arith, if◌then◌else◌, Result, ok, err, >>=-eq-ok, ltb,
}
use quotamiser.Prelude.Int.{ℤ}
use quotamiser.Ledger.State.{State, Transition, is_active, target, allowed_from}
use quotamiser.Ledger.State.Laws.{allowed_from_active}
use quotamiser.Ledger.Schema.{Db, Latch, Evidence}
use quotamiser.Ledger.Core.{Group, group_state, load_group, ensure_allowed, insert_latch}
use quotamiser.Ledger.Core.Groups.{Loaded, load_group-Loaded}
use quotamiser.Ledger.Transitions.{load_allowed, finish, settle_as, settle_body, end_group}
use quotamiser.Ledger.Transitions.Usage.{
  CompletedResponse, UsageDefect, Settlement, settled_as, written_off, validate, defect_reason,
}
use quotamiser.Ledger.Sound.Finish.{Ended, finish-Ended}

-- The group that an operation works on: loaded, and in a state from which `t` is allowed.
pub record Allowed (db : Db) (id : ℕ) (t : Transition) (g : Group) : Type 0 where
  pub loads : load_group db.rows id ≡ ok g
  pub loaded : Loaded db.rows g
  pub allowed : allowed_from t (group_state g) ≡ true
  pub active : is_active (group_state g) ≡ true

load_allowed-parts :
    (db : Db) (id : ℕ) (t : Transition) {g : Group}
    → load_allowed db id t ≡ ok g
    → (load_group db.rows id ≡ ok g) × (allowed_from t (group_state g) ≡ true)
unfolding load_allowed ensure_allowed
load_allowed-parts db id t h = (ground arith, ground arith)

pub load_allowed-Allowed :
    (db : Db) (id : ℕ) (t : Transition) {g : Group}
    → load_allowed db id t ≡ ok g
    → Allowed db id t g
load_allowed-Allowed db id t {g} h =
    let (loads, allowed) = load_allowed-parts db id t h in
    record {
      loads = loads;
      loaded = load_group-Loaded db.rows id loads;
      allowed = allowed;
      active = allowed_from_active t (group_state g) allowed;
    }

-- A group has ended by the transition `t`, with `consumed g` taken for each of its rows.
abbrev pub EndsBy : Transition → (Group → ℕ) → ℕ → Db → Db → Type 0
EndsBy t consumed id db db' =
    (g : Group) × Allowed db id t g × Ended db db' g (target t) (consumed g)

pub end_group-EndsBy :
    (t : Transition) (consumed : Group → ℕ) (id : ℕ) (db db' : Db)
    → end_group t consumed id db ≡ ok (tt, db')
    → EndsBy t consumed id db db'
unfolding end_group
end_group-EndsBy t consumed id db db' h =
    let (g, loads, later) = >>=-eq-ok (load_allowed db id t) _ h in
    let (db'', ends, last) = >>=-eq-ok (finish g (target t) (consumed g) none db) _ later in
    let a = load_allowed-Allowed db id t loads in
    let same : db'' ≡ db' = ground arith in
    (g, a, finish-Ended g (target t) (consumed g) none db a.loaded a.active (rw same at ends))

-- The latch that an overrun or a defect leaves.
abbrev pub overrun_latch : Group → ℕ → ℤ → List Latch → List Latch
overrun_latch g actual now latches =
    if ltb g.head.liability actual
    then insert_latch ("model:" <> g.head.model_snapshot)
        "reported usage exceeded the reserved liability"
        (some (Evidence.of_overrun g.root actual g.head.liability)) now latches
    else latches

abbrev pub defect_latch : Group → UsageDefect → ℤ → List Latch → List Latch
defect_latch g defect now latches =
    insert_latch g.head.pool_id (defect_reason defect) (some (Evidence.of_reservation g.root)) now
      latches

-- How `settle` ends, by what the validation of the usage says: the group is settled with the
-- reported usage, and the model latched if that is more than the liability; or it is written off
-- in full, and the pool latched.
abbrev pub SettlesAs : Group → Result UsageDefect ℕ → ℤ → Db → Settlement → Db → Type 0
SettlesAs g (ok actual) now db s db' =
    (s ≡ settled_as actual (ltb g.head.liability actual))
    × Ended db (record db' { latches = db.latches }) g State.settled actual
    × (db'.latches ≡ overrun_latch g actual now db.latches)
SettlesAs g (err defect) now db s db' =
    (s ≡ written_off defect)
    × Ended db (record db' { latches = db.latches }) g State.consumed_unrecoverable g.head.liability
    × (db'.latches ≡ defect_latch g defect now db.latches)

settle_as-parts :
    (g : Group) (v : Result UsageDefect ℕ) (now : ℤ) (db : Db) {s : Settlement} {db' : Db}
    → Loaded db.rows g
    → is_active (group_state g) ≡ true
    → settle_as g v now db ≡ ok (s, db')
    → SettlesAs g v now db s db'
unfolding settle_as
settle_as-parts g (ok actual) now db {s} {db'} l active h =
    let (db'', ends, last) = >>=-eq-ok (finish g State.settled actual (some actual) db) _ h in
    let e = finish-Ended g State.settled actual (some actual) db l active ends in
    let same : db'' ≡ record db' { latches = db.latches } = ground (arith, e.others) in
    (ground arith, rw same at e, ground (arith, e.others))
settle_as-parts g (err defect) now db {s} {db'} l active h =
    let (db'', ends, last) =
      >>=-eq-ok (finish g State.consumed_unrecoverable g.head.liability none db) _ h in
    let e = finish-Ended g State.consumed_unrecoverable g.head.liability none db l active ends in
    let same : db'' ≡ record db' { latches = db.latches } = ground (arith, e.others) in
    (ground arith, rw same at e, ground (arith, e.others))

pub settle_body-SettlesAs :
    (id : ℕ) (response : CompletedResponse) (accounting_rev now : ℤ) (db db' : Db) {s : Settlement}
    → settle_body id response accounting_rev now db ≡ ok (s, db')
    → (g : Group) × Allowed db id Transition.settle g
      × SettlesAs g (validate g.head response accounting_rev) now db s db'
unfolding settle_body
settle_body-SettlesAs id response accounting_rev now db db' h =
    let (g, loads, later) = >>=-eq-ok (load_allowed db id Transition.settle) _ h in
    let a = load_allowed-Allowed db id Transition.settle loads in
    (
      g,
      a,
      settle_as-parts g (validate g.head response accounting_rev) now db a.loaded a.active later,
    )
