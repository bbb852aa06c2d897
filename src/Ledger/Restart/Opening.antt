-- ===== src/Ledger/Restart/Opening.antt =====
-- What holds after crates/ledger/src/ledger.rs has opened a ledger, and after a crash in the
-- middle of a dispatch.
use quotamiser.Prelude.{
  ℕ, ◌+◌, inl, inr, ◌≡◌, refl, sym, ap, ◌∙◌, Bool, true, false, ◌&&◌, not, Option, some, List, [],
  ◌∷◌, arith, map, ok, Option-cases, Result-cases, any, find?-any, is_some,
}
use quotamiser.Ledger.State.{State, state_eq, Transition}
use quotamiser.Ledger.State.Laws.{state_eq-eq}
use quotamiser.Ledger.Trust.{
  Assessment, External, HighWaterMark, UnknownReason, TrustVerdict, unknown,
}
use quotamiser.Ledger.Trust.Laws.{assess_promotes_iff, promotes-OneAhead}
use quotamiser.Ledger.Schema.{Reservation, Db}
use quotamiser.Ledger.Core.{
  Group, group_state, load_group, in_group, has_id, disagrees, read_group_row,
}
use quotamiser.Ledger.Core.Groups.{Loaded, load_group-found}
use quotamiser.Ledger.Store.{Ledger}
use quotamiser.Ledger.Restart.{
  normalize_body, rows_interpretable, open_ledger, normalize_after_restart, assess_trust, row_of,
  check_integrity, read_again,
}
use quotamiser.Ledger.Restart.Books.{normalize_body-IsSound}
use quotamiser.Ledger.Restart.Fates.{fated, normalize_body-rows, normalize_body-meta}
use quotamiser.Ledger.Sound.{IsSound}
use quotamiser.Ledger.Transitions.{prepare_dispatch, next_mark, load_allowed}
use quotamiser.Ledger.Transitions.Effects.{load_allowed-Allowed}

-- The assessment that `open_ledger` makes.
abbrev pub assessment_of : Db → External → Assessment
assessment_of db hwm =
    assess_trust (record { db = db; hwm = hwm; trust = unknown UnknownReason.uninitialized })

normalize_after_restart-parts :
    (a : Assessment) (l l' : Ledger)
    → normalize_after_restart a l ≡ (ok tt, l')
    → (external : Option HighWaterMark) × (read_again a.promote_to_id_unknown l.hwm ≡ ok external)
      × (normalize_body a external l.db ≡ ok (tt, l'.db))
      × (l' ≡ record l { db = l'.db })
unfolding normalize_after_restart
normalize_after_restart-parts a l l' h =
    elim (Result-cases (read_again a.promote_to_id_unknown l.hwm)) [
      | inl (external, e) ↦ (external, e, ground arith, ground arith)
      | inr (_, e) ↦ ground arith
    ]

-- What a start that succeeds has done.
pub record Opens (db : Db) (hwm : External) (a : Assessment) (l : Ledger) : Type 0 where
  pub assessed : a ≡ assessment_of db hwm
  pub intact : check_integrity db ≡ ok tt
  pub verdict : l.trust ≡ a.verdict
  pub external_kept : l.hwm ≡ hwm
  pub external : Option HighWaterMark
  pub read : read_again a.promote_to_id_unknown hwm ≡ ok external
  pub normalized : normalize_body a external db ≡ ok (tt, l.db)

opened_with : Db → External → TrustVerdict → Ledger
opened_with db hwm v = record { db = db; hwm = hwm; trust = v }

normalize_frame :
    (a : Assessment) (l : Ledger)
    → (normalize_after_restart a l).1 ≡ record l { db = (normalize_after_restart a l).1.db }
unfolding normalize_after_restart
normalize_frame a l = ground arith

open_ledger-parts :
    (db : Db) (hwm : External) (l : Ledger) {a : Assessment}
    → open_ledger db hwm ≡ (ok a, l)
    → (a ≡ assessment_of db hwm)
      × (check_integrity db ≡ ok tt)
      × (l.trust ≡ a.verdict)
      × (normalize_after_restart a (opened_with db hwm (unknown UnknownReason.uninitialized))
          ≡ (ok tt, record l { trust = unknown UnknownReason.uninitialized }))
      × (l.hwm ≡ hwm)
unfolding open_ledger opened_with
open_ledger-parts db hwm l {a} h =
    let start : Ledger = record {
      db = db;
      hwm = hwm;
      trust = unknown UnknownReason.uninitialized;
    } in
    let f = normalize_frame (assessment_of db hwm) start in
    (ground arith, ground arith, ground arith, ground (arith, f), ground (arith, f))

pub open_ledger-Opens :
    (db : Db) (hwm : External) (l : Ledger) {a : Assessment}
    → open_ledger db hwm ≡ (ok a, l)
    → Opens db hwm a l
unfolding opened_with
open_ledger-Opens db hwm l {a} h =
    let (assessed, intact, verdict, n, kept) = open_ledger-parts db hwm l h in
    let (external, read, normalized, _) =
      normalize_after_restart-parts a (opened_with db hwm (unknown UnknownReason.uninitialized)) _
        n in
    record {
      assessed = assessed;
      intact = intact;
      verdict = verdict;
      external_kept = kept;
      external = external;
      read = read;
      normalized = normalized;
    }

-- Opening a ledger keeps its books.
pub open_ledger-IsSound :
    (db : Db) (hwm : External) (l : Ledger) {a : Assessment}
    → open_ledger db hwm ≡ (ok a, l)
    → IsSound db
    → IsSound l.db
open_ledger-IsSound db hwm l {a} h =
    let o = open_ledger-Opens db hwm l h in normalize_body-IsSound a o.external db l.db o.normalized

-- Where something is promoted, the record was read.
promotes_read :
    (db : Db) (hwm : External) (a : Assessment) (external : Option HighWaterMark)
    → a ≡ assessment_of db hwm
    → read_again a.promote_to_id_unknown hwm ≡ ok external
    → is_some a.promote_to_id_unknown ≡ true
    → is_some external ≡ true
unfolding assess_trust
promotes_read db hwm a external is e p = elim (Option-cases a.promote_to_id_unknown) [
  | inl nothing ↦ ground arith
  | inr (id, found) ↦
      let ahead =
        promotes-OneAhead db.meta (row_of db.rows) hwm id
          (ap (λ x. x.promote_to_id_unknown) (sym is) ∙ found) in
      let marked = ahead.2 in ground (arith, found, marked)
]

-- What becomes of each row when a ledger is opened: one description for the three updates.
pub open_ledger-rows :
    (db : Db) (hwm : External) (l : Ledger) {a : Assessment}
    → open_ledger db hwm ≡ (ok a, l)
    → l.db.rows ≡ map (fated (rows_interpretable a.verdict) a.promote_to_id_unknown) db.rows
open_ledger-rows db hwm l {a} h =
    let o = open_ledger-Opens db hwm l h in
    normalize_body-rows a o.external db l.db (promotes_read db hwm a o.external o.assessed o.read)
      o.normalized

-- The rows of a group that are not in the state `s`.
abbrev pub strays : ℕ → State → Reservation → Bool
strays root s r = in_group root r && not (state_eq r.state s)

-- The promoted group, once its rows were RESERVED.
promoted_group :
    (kept : Bool) (root : ℕ) (rows : List Reservation)
    → any (strays root State.reserved) rows ≡ false
    → any (strays root State.dispatched_id_unknown) (map (fated kept (some root)) rows) ≡ false
promoted_group kept root [] h = refl
promoted_group kept root (r ∷ rows) h =
    ground (arith, promoted_group kept root rows, state_eq-eq r.state State.reserved)

-- What `prepare_dispatch` has found, for the id under which the group was reserved.
prepare_dispatch-parts :
    (db : Db) (id : ℕ) {g : Group} {next : HighWaterMark}
    → prepare_dispatch db id ≡ ok (g, next)
    → (load_allowed db id Transition.begin_dispatch ≡ ok g)
      × (next.generation ≡ db.meta.generation + 1)
      × (next.cumulative_liability ≡ db.meta.cumulative_liability + g.head.liability)
      × (next.last_reservation ≡ g.root)
unfolding prepare_dispatch next_mark
prepare_dispatch-parts db id h = (ground arith, ground arith, ground arith, ground arith)

uniform-strays :
    (g : Group) (rows : List Reservation)
    → group_state g ≡ State.reserved
    → any (λ r. in_group g.root r && disagrees g.head (read_group_row r)) rows ≡ false
    → any (strays g.root State.reserved) rows ≡ false
uniform-strays g [] s u = refl
uniform-strays g (r ∷ rows) s u = ground (arith, uniform-strays g rows s)

row_of-head :
    (g : Group) (rows : List Reservation) (id : ℕ)
    → group_state g ≡ State.reserved
    → g.root ≡ id
    → load_group rows id ≡ ok g
    → Loaded rows g
    → row_of rows id ≡ some (State.reserved, g.head.liability)
row_of-head g rows id s same h l =
    let (found, f, root) = load_group-found rows id h in
    let agrees =
      find?-any (λ r. in_group g.root r && disagrees g.head (read_group_row r)) (has_id id) rows
        l.uniform f in
    ground (arith, f, root, agrees, state_eq-eq found.state g.head.state)

read_next :
    {p : Option ℕ} {id : ℕ} {next : HighWaterMark} {external : Option HighWaterMark}
    → p ≡ some id
    → read_again p (ok (some next)) ≡ ok external
    → external ≡ some next
read_next e h = ground arith

-- The process dies, or the write reports an error, after the external record has the new mark and
-- before the transaction commits: at the next start the reservation is not released, its rows
-- become DISPATCHED_ID_UNKNOWN, and the ledger's numbers catch up with the record's.
pub crash_mid_dispatch :
    (db : Db) (id : ℕ) (g : Group) (next : HighWaterMark) (l : Ledger) (a : Assessment)
    → prepare_dispatch db id ≡ ok (g, next)
    → g.root ≡ id
    → db.meta.clean_shutdown ≡ false
    → open_ledger db (ok (some next)) ≡ (ok a, l)
    → (a.verdict ≡ unknown UnknownReason.unclean_shutdown)
      × (any (strays id State.dispatched_id_unknown) l.db.rows ≡ false)
      × (l.db.meta.generation ≡ next.generation)
      × (l.db.meta.cumulative_liability ≡ next.cumulative_liability)
unfolding assess_trust
crash_mid_dispatch db id g next l a h root dirty opens =
    let (loads, gen, cum, last) = prepare_dispatch-parts db id h in
    let allowed = load_allowed-Allowed db id Transition.begin_dispatch loads in
    let unsent : group_state g ≡ State.reserved =
      state_eq-eq (group_state g) State.reserved allowed.allowed in
    let row = row_of-head g db.rows id unsent root allowed.loads allowed.loaded in
    let assessed =
      (assess_promotes_iff db.meta (row_of db.rows) (ok (some next)) id).1
        (next, g.head.liability, refl, last ∙ root, gen, row, cum, dirty) in
    let o = open_ledger-Opens db (ok (some next)) l opens in
    let is = o.assessed ∙ assessed in
    let promoted = ap (λ x. x.promote_to_id_unknown) is in
    let rows = open_ledger-rows db (ok (some next)) l opens in
    let before = uniform-strays g db.rows unsent allowed.loaded.uniform in
    let meta =
      normalize_body-meta a id next db l.db promoted
        (rw (read_next promoted o.read) at o.normalized) in
    (
      ap (λ x. x.verdict) is,
      rw (rows, promoted)
          (promoted_group (rows_interpretable a.verdict) id db.rows (rw root at before)),
      meta.0,
      meta.1,
    )
