-- ===== src/Ledger/Restart/Fates.antt =====
-- The updates of a restart (crates/ledger/src/ledger.rs, `normalize_after_restart`) against one
-- description of what becomes of each row.
use quotamiser.Prelude.{
  ℕ, ◌≡◌, refl, subst, Bool, true, false, Option, none, some, List, [], ◌∷◌, arith, map, ◌==◌, ok,
  if◌then◌else◌, update, is_some,
}
use quotamiser.Ledger.State.{State}
use quotamiser.Ledger.Trust.{Assessment, HighWaterMark}
use quotamiser.Ledger.Schema.{Reservation, Db}
use quotamiser.Ledger.Core.{update_rows, in_group_at}
use quotamiser.Ledger.Restart.{
  set_state, in_state, relabel_rows, promote, normalize_reserved, normalize_dispatching,
  normalize_body, rows_interpretable,
}
use quotamiser.Ledger.Restart.Books.{normalize_body-parts}

-- What becomes of a row: `kept` says that RESERVED rows are known never to have been sent, and
-- `sent` that this row's dispatch reached the external record.
abbrev pub fate_of : Bool → Bool → State → State
fate_of kept sent State.dispatching = State.dispatched_id_unknown
fate_of kept sent State.reserved =
    if sent
    then State.dispatched_id_unknown
    else if kept
    then State.released_unsent
    else State.dispatched_id_unknown
fate_of kept sent s = s

abbrev pub is_promoted : Option ℕ → ℕ → Bool
is_promoted none j = false
is_promoted (some root) j = j == root

abbrev pub fated : Bool → Option ℕ → Reservation → Reservation
fated kept promoted r = set_state (fate_of kept (is_promoted promoted r.root_id) r.state) r

abbrev promoted_rows : Option ℕ → List Reservation → List Reservation
promoted_rows none rows = rows
promoted_rows (some root) rows =
    update (in_group_at root State.reserved) (set_state State.dispatched_id_unknown) rows

abbrev ended_as : Bool → State
ended_as kept = if kept then State.released_unsent else State.dispatched_id_unknown

-- Three updates, one after the other, are one pass over the rows.
three_updates :
    (kept : Bool) (promoted : Option ℕ) (rows : List Reservation)
    → update (in_state State.reserved) (set_state (ended_as kept)) (
        update
          (in_state State.dispatching)
          (set_state State.dispatched_id_unknown)
          (promoted_rows promoted rows))
      ≡ map (fated kept promoted) rows
three_updates kept none [] = refl
three_updates kept (some root) [] = refl
three_updates kept none (r ∷ rows) = ground (arith, three_updates kept none rows)
three_updates kept (some root) (r ∷ rows) = ground (arith, three_updates kept (some root) rows)

promote-rows :
    (promoted : Option ℕ) (external : Option HighWaterMark) (db db' : Db)
    → (is_some promoted ≡ true → is_some external ≡ true)
    → promote promoted external db ≡ ok db'
    → db'.rows ≡ promoted_rows promoted db.rows
unfolding promote relabel_rows update_rows
promote-rows none external db db' e h = ground arith
promote-rows (some root) none db db' e h = ground arith
promote-rows (some root) (some external) db db' e h = ground arith

normalize_dispatching-rows :
    (db db' : Db)
    → normalize_dispatching db ≡ ok db'
    → db'.rows ≡ update (in_state State.dispatching) (set_state State.dispatched_id_unknown) db.rows
unfolding normalize_dispatching relabel_rows update_rows
normalize_dispatching-rows db db' h = ground arith

normalize_reserved-rows :
    (kept : Bool) (db db' : Db)
    → normalize_reserved kept db ≡ ok db'
    → db'.rows ≡ update (in_state State.reserved) (set_state (ended_as kept)) db.rows
unfolding normalize_reserved relabel_rows update_rows
normalize_reserved-rows true db db' h = ground arith
normalize_reserved-rows false db db' h = ground arith

pub normalize_body-rows :
    (a : Assessment) (external : Option HighWaterMark) (db db' : Db)
    → (is_some a.promote_to_id_unknown ≡ true → is_some external ≡ true)
    → normalize_body a external db ≡ ok (tt, db')
    → db'.rows ≡ map (fated (rows_interpretable a.verdict) a.promote_to_id_unknown) db.rows
normalize_body-rows a external db db' e h =
    let (promoted, resolved, final, first, second, third, last) =
      normalize_body-parts a external db db' h in
    let p = promote-rows a.promote_to_id_unknown external db promoted e first in
    let d = normalize_dispatching-rows promoted resolved second in
    let r = normalize_reserved-rows (rows_interpretable a.verdict) resolved final third in
    rw (last, r, d, p)
      (three_updates (rows_interpretable a.verdict) a.promote_to_id_unknown db.rows)

promote-meta :
    (root : ℕ) (external : HighWaterMark) (db db' : Db)
    → promote (some root) (some external) db ≡ ok db'
    → (db'.meta.generation ≡ external.generation)
      × (db'.meta.cumulative_liability ≡ external.cumulative_liability)
unfolding promote
promote-meta root external db db' h = (ground arith, ground arith)

pub normalize_dispatching-meta :
    (db db' : Db) → normalize_dispatching db ≡ ok db' → db'.meta ≡ db.meta
unfolding normalize_dispatching
normalize_dispatching-meta db db' h = ground arith

pub normalize_reserved-meta :
    (kept : Bool) (db db' : Db) → normalize_reserved kept db ≡ ok db' → db'.meta ≡ db.meta
unfolding normalize_reserved
normalize_reserved-meta true db db' h = ground arith
normalize_reserved-meta false db db' h = ground arith

-- A promotion brings the ledger's numbers up to those of the external record.
pub normalize_body-meta :
    (a : Assessment) (root : ℕ) (external : HighWaterMark) (db db' : Db)
    → a.promote_to_id_unknown ≡ some root
    → normalize_body a (some external) db ≡ ok (tt, db')
    → (db'.meta.generation ≡ external.generation)
      × (db'.meta.cumulative_liability ≡ external.cumulative_liability)
normalize_body-meta a root external db db' p h =
    let (promoted, resolved, final, first, second, third, last) =
      normalize_body-parts a (some external) db db' h in
    let m =
      promote-meta root external db promoted
        (subst (λ x. promote x (some external) db ≡ ok promoted) p first) in
    let d = normalize_dispatching-meta promoted resolved second in
    let r = normalize_reserved-meta (rows_interpretable a.verdict) resolved final third in
    (ground (arith, m, d, r), ground (arith, m, d, r))
