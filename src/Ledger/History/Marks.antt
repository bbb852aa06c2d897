-- ===== src/Ledger/History/Marks.antt =====
-- The order of the two writes of crates/ledger/src/transitions.rs: the external record first.
use quotamiser.Prelude.{
  ℕ, ◌≤◌, inl, inr, ◌⊎◌, ◌≢◌, String, ◌≡◌, refl, sym, ap, subst, Option, none, some, List, [], ◌∷◌,
  arith, if◌then◌else◌, ok, err, Result-cases, Option-cases, Bool-cases, leb,
}
use quotamiser.Prelude.Int.{ℤ, pos, try_i64}
use quotamiser.Ledger.State.{Transition}
use quotamiser.Ledger.Trust.{
  HighWaterMark, External, LedgerMeta, Assessment, UnknownReason, unknown, assess,
}
use quotamiser.Ledger.Schema.{Db}
use quotamiser.Ledger.Store.{Ledger, Transaction, transact}
use quotamiser.Ledger.Transitions.{
  WriteOutcome, begin_dispatch, relabel, attach_response_id, mark_id_unknown, settle, settle_body,
  end_group, write_off, release_unsent, release_rejected,
}
use quotamiser.Ledger.Reserve.{
  ReservationRequest, invalidate_safety_input, set_latch, clear_latches, revalidate_safety_input,
  reserved, refused, reserve,
}
use quotamiser.Ledger.Reserve.Books.{reserve_refused}
use quotamiser.Ledger.Reserve.Effects.{reserve-Reserves}
use quotamiser.Ledger.History.Frames.{reserve_failed, open_ledger_failed}
use quotamiser.Ledger.Restart.{
  mark_clean_shutdown, open_ledger, check_integrity, promote, read_again, rows_interpretable,
  assess_trust,
}
use quotamiser.Ledger.Restart.Books.{normalize_body-parts}
use quotamiser.Ledger.Restart.Fates.{normalize_dispatching-meta, normalize_reserved-meta}
use quotamiser.Ledger.Restart.Opening.{open_ledger-Opens}
use quotamiser.Ledger.Rollover.{
  already_current, rollover, advance, anchor_of, adopt_recovered_consumption, external_or,
}
use quotamiser.Ledger.Requests.{RequestWindow, take_body, take_request_slot}
use quotamiser.Ledger.History.{
  Call, after, history, reserving, beginning_dispatch, attaching, marking_unknown, settling,
  writing_off, releasing_unsent, releasing_rejected, rolling_over, adopting, taking_slot,
  revalidating, invalidating, setting_latch, clearing_latches, shutting_down, reopening,
}
use quotamiser.Ledger.History.Calls.{
  outcome_cases, transact_lem, begin_dispatch-Dispatches, adopt-Adopts,
}
use quotamiser.Ledger.History.Numbers.{
  SameMarks, relabel-marks, end_group-marks, settle_body-marks, advance-marks, take-marks,
  commit_dispatch-marks, prepare_dispatch-marks, adopt_body-marks,
}

-- The numbers of the external record are at least those of the ledger.
abbrev pub Covers : LedgerMeta → External → Type 0
Covers meta hwm =
    (meta.generation ≤ external_or (λ e. e.generation) hwm)
    × (meta.cumulative_liability ≤ external_or (λ e. e.cumulative_liability) hwm)

abbrev pub IsCovered : Ledger → Type 0
IsCovered l = Covers l.db.meta l.hwm

transact-IsCovered :
    {A : Type 0} (body : Transaction A) (l : Ledger)
    → ((a : A) (db : Db) → body l.db ≡ ok (a, db) → SameMarks l.db.meta db.meta)
    → IsCovered l
    → IsCovered (transact body l).1
transact-IsCovered body l same c = elim (transact_lem body l) [
  | inl kept ↦ subst IsCovered (sym kept) c
  | inr (a, db, is, committed) ↦
      let (g, t) = same a db is in subst IsCovered (sym committed) (ground arith, ground arith)
]

anchor_of-Covers :
    (meta : LedgerMeta) (hwm : External) (anchor : HighWaterMark)
    → anchor_of meta hwm ≡ ok anchor
    → Covers meta (ok (some anchor))
unfolding anchor_of
anchor_of-Covers meta hwm anchor h = (ground arith, ground arith)

begin_dispatch-IsCovered :
    (id : ℕ) (written_as : WriteOutcome) (l : Ledger)
    → IsCovered l
    → IsCovered (begin_dispatch id written_as l).1
begin_dispatch-IsCovered id written_as l c = elim (begin_dispatch-Dispatches id written_as l) [
  | inl same ↦ subst IsCovered (sym same) c
  | inr (g, next, prepared, inl marked) ↦
      let (a, b) = prepare_dispatch-marks l.db id g next prepared in
      subst IsCovered (sym marked) (ground arith, ground arith)
  | inr (g, next, prepared, inr (db, is, committed)) ↦
      let (a, b) = commit_dispatch-marks g next l.db.meta.generation l.db db is in
      subst IsCovered (sym committed) (ground arith, ground arith)
]

adopt-IsCovered :
    (adoptions : List (String × ℕ × ℕ)) (written_as : WriteOutcome) (l : Ledger)
    → IsCovered l
    → IsCovered (adopt_recovered_consumption adoptions written_as l).1
adopt-IsCovered adoptions written_as l c = elim (adopt-Adopts adoptions written_as l) [
  | inl same ↦ subst IsCovered (sym same) c
  | inr (anchor, is, inl marked) ↦
      subst IsCovered (sym marked) (anchor_of-Covers l.db.meta l.hwm anchor is)
  | inr (anchor, _, inr (db, is, committed)) ↦
      let (a, b) = adopt_body-marks adoptions anchor l.db db is in
      subst IsCovered (sym committed) (ground arith, ground arith)
]

-- Neither the record nor the table `meta` is touched.
IsCovered-same :
    (l l' : Ledger) → l'.db.meta ≡ l.db.meta → l'.hwm ≡ l.hwm → IsCovered l → IsCovered l'
IsCovered-same l l' m h c = (ground arith, ground arith)

reserve-IsCovered :
    (request : ReservationRequest) (now : ℤ) (l : Ledger)
    → IsCovered l
    → IsCovered (reserve request now l).1
reserve-IsCovered request now l c = elim (outcome_cases (reserve request now l)) [
  | inl (e, is) ↦ subst IsCovered (sym (reserve_failed request now l _ is)) c
  | inr (refused r, is) ↦ subst IsCovered (sym (reserve_refused request now l _ r is)) c
  | inr (reserved id, is) ↦
      let (_, r, same) = reserve-Reserves request now l _ is in
      IsCovered-same l (reserve request now l).1 (ap (λ d. d.meta) r.debits.others)
        (ap (λ l'. l'.hwm) same) c
]

take-IsCovered :
    (provider : String) (epoch limit : ℕ) (window : RequestWindow) (now : ℤ) (l : Ledger)
    → IsCovered l
    → IsCovered (take_request_slot provider epoch limit window now l).1
unfolding take_request_slot
take-IsCovered provider epoch limit window now l c = elim (Option-cases (try_i64 limit)) [
  | inl big ↦ (ground arith, ground arith)
  | inr (n, small) ↦
      let kept =
        transact-IsCovered (take_body provider epoch n window now) l
          (λ slot db is. take-marks provider epoch n window now slot l.db db is) c in
      (ground arith, ground arith)
]

promote-marks :
    (root : Option ℕ) (external : Option HighWaterMark) (hwm : External) (db db' : Db)
    → read_again root hwm ≡ ok external
    → promote root external db ≡ ok db'
    → Covers db.meta hwm
    → Covers db'.meta hwm
unfolding promote
promote-marks none external hwm db db' e h c = (ground arith, ground arith)
promote-marks (some root) none hwm db db' e h c = (ground arith, ground arith)
promote-marks (some root) (some external) (ok seen) db db' e h c = (ground arith, ground arith)
promote-marks (some root) (some external) (err _) db db' e h c = (ground arith, ground arith)

-- A start raises the ledger's numbers to the record's at most.
open_ledger-Covers :
    (db : Db) (hwm : External) (l : Ledger) (a : Assessment)
    → open_ledger db hwm ≡ (ok a, l)
    → Covers db.meta hwm
    → Covers l.db.meta l.hwm
open_ledger-Covers db hwm l a h c =
    let o = open_ledger-Opens db hwm l h in
    let (promoted, resolved, final, first, second, third, last) =
      normalize_body-parts a o.external db l.db o.normalized in
    let (p, q) = promote-marks a.promote_to_id_unknown o.external hwm db promoted o.read first c in
    let d = normalize_dispatching-meta promoted resolved second in
    let r = normalize_reserved-meta (rows_interpretable a.verdict) resolved final third in
    let k = o.external_kept in (ground arith, ground arith)

reopen-IsCovered : (l : Ledger) → IsCovered l → IsCovered (open_ledger l.db l.hwm).1
reopen-IsCovered l c = elim (outcome_cases (open_ledger l.db l.hwm)) [
  | inl (e, is) ↦
      let (d, h) = open_ledger_failed l.db l.hwm _ e is in
      IsCovered-same l (open_ledger l.db l.hwm).1 (ap (λ db. db.meta) d) h c
  | inr (a, is) ↦ open_ledger-Covers l.db l.hwm _ a is c
]

abbrev Same : Ledger → Ledger → Type 0
Same l l' = (l'.db.meta ≡ l.db.meta) × (l'.hwm ≡ l.hwm)

unmarked :
    (key scope words : String) (evidence : Option String) (now ttl_seconds : ℤ) (budget : ℕ)
    (l : Ledger)
    → Same l (invalidate_safety_input key l).1
      × Same l (set_latch scope words evidence now l).1
      × Same l (clear_latches scope words now l).1
      × Same l (revalidate_safety_input key now ttl_seconds budget l).1
unfolding invalidate_safety_input set_latch clear_latches revalidate_safety_input
unmarked key scope words evidence now ttl_seconds budget l =
    ((refl, refl), (refl, refl), (refl, refl), (ground arith, ground arith))

rollover-IsCovered :
    (new_epoch : ℕ) (grants : List (String × ℕ)) (l : Ledger)
    → IsCovered l
    → IsCovered (rollover new_epoch grants l).1
unfolding rollover
rollover-IsCovered new_epoch grants l c =
    transact-IsCovered
      (λ db.
        if leb new_epoch db.meta.current_epoch
        then ok (already_current, db)
        else advance new_epoch grants db)
      l
      (λ o db is. elim (Bool-cases (leb new_epoch l.db.meta.current_epoch)) [
        | inl stale ↦ (ground arith, ground arith)
        | inr fresh ↦ advance-marks new_epoch grants o l.db db (ground arith)
      ])
      c

shutdown-IsCovered : (l : Ledger) → IsCovered l → IsCovered (mark_clean_shutdown l).1
unfolding mark_clean_shutdown
shutdown-IsCovered l c = elim (Result-cases (check_integrity l.db)) [
  | inl (u, intact) ↦ (ground arith, ground arith)
  | inr (e, failed) ↦ (ground arith, ground arith)
]

external_cases :
    (hwm : External)
    → ((u : Unit {0}) × (hwm ≡ err u))
      ⊎ (hwm ≡ ok none)
      ⊎ ((e : HighWaterMark) × (hwm ≡ ok (some e)))
external_cases (err u) = inl (u, refl)
external_cases (ok none) = inr (inl refl)
external_cases (ok (some e)) = inr (inr (e, refl))

pub after-IsCovered : (c : Call) (l : Ledger) → IsCovered l → IsCovered (after c l)
unfolding after rollover write_off release_unsent release_rejected attach_response_id
    mark_id_unknown settle mark_clean_shutdown
after-IsCovered (reserving request now) l c = reserve-IsCovered request now l c
after-IsCovered (beginning_dispatch id written_as) l c = begin_dispatch-IsCovered id written_as l c
after-IsCovered (attaching id response_id) l c =
    transact-IsCovered (relabel id Transition.attach_response_id (some response_id)) l
      (λ u db is. relabel-marks id Transition.attach_response_id (some response_id) u l.db db is) c
after-IsCovered (marking_unknown id) l c =
    transact-IsCovered (relabel id Transition.mark_id_unknown none) l
      (λ u db is. relabel-marks id Transition.mark_id_unknown none u l.db db is) c
after-IsCovered (settling id response accounting_rev now) l c =
    transact-IsCovered (settle_body id response accounting_rev now) l
      (λ s db is. settle_body-marks id response accounting_rev now s l.db db is) c
after-IsCovered (writing_off id) l c =
    transact-IsCovered (end_group Transition.unrecoverable (λ g. g.head.liability) id) l
      (λ u db is. end_group-marks Transition.unrecoverable (λ g. g.head.liability) id u l.db db is)
      c
after-IsCovered (releasing_unsent id) l c =
    transact-IsCovered (end_group Transition.release_unsent (λ g. 0) id) l
      (λ u db is. end_group-marks Transition.release_unsent (λ g. 0) id u l.db db is) c
after-IsCovered (releasing_rejected id) l c =
    transact-IsCovered (end_group Transition.reject_before_processing (λ g. 0) id) l
      (λ u db is. end_group-marks Transition.reject_before_processing (λ g. 0) id u l.db db is) c
after-IsCovered (rolling_over new_epoch grants) l c = rollover-IsCovered new_epoch grants l c
after-IsCovered (adopting adoptions written_as) l c = adopt-IsCovered adoptions written_as l c
after-IsCovered (taking_slot provider epoch limit window now) l c =
    take-IsCovered provider epoch limit window now l c
after-IsCovered (revalidating key now ttl_seconds budget) l c =
    let (_, _, _, (m, h)) = unmarked key "" "" none now ttl_seconds budget l in
    IsCovered-same l (revalidate_safety_input key now ttl_seconds budget l).1 m h c
after-IsCovered (invalidating key) l c =
    let ((m, h), _, _, _) = unmarked key "" "" none (pos 0) (pos 0) 0 l in
    IsCovered-same l (invalidate_safety_input key l).1 m h c
after-IsCovered (setting_latch scope reason evidence now) l c =
    let (_, (m, h), _, _) = unmarked "" scope reason evidence now (pos 0) 0 l in
    IsCovered-same l (set_latch scope reason evidence now l).1 m h c
after-IsCovered (clearing_latches scope cleared_by now) l c =
    let (_, _, (m, h), _) = unmarked "" scope cleared_by none now (pos 0) 0 l in
    IsCovered-same l (clear_latches scope cleared_by now l).1 m h c
after-IsCovered shutting_down l c = shutdown-IsCovered l c
after-IsCovered reopening l c = reopen-IsCovered l c

pub history-IsCovered : (calls : List Call) (l : Ledger) → IsCovered l → IsCovered (history calls l)
unfolding history
history-IsCovered [] l k = k
history-IsCovered (c ∷ calls) l k = history-IsCovered calls (after c l) (after-IsCovered c l k)

-- A record that covers the ledger is never found behind it, and never found missing.
covered_assessment :
    (l : Ledger)
    → IsCovered l
    → ((assess_trust l).verdict ≢ unknown UnknownReason.external_behind_ledger)
      × ((assess_trust l).verdict ≢ unknown UnknownReason.external_missing)
unfolding assess_trust assess
covered_assessment l c = elim (external_cases l.hwm) [
  | inl (u, unread) ↦ (λ h. ground arith, λ h. ground arith)
  | inr (inl missing) ↦ (λ h. ground arith, λ h. ground arith)
  | inr (inr (e, found)) ↦ (λ h. ground arith, λ h. ground arith)
]

-- In every history of calls that starts where the record covers the ledger, such as an empty one,
-- whatever fails and whenever the process is restarted, the start-up assessment never finds the
-- external record behind the ledger, and never finds it missing: the record is written first.
pub never_behind :
    (calls : List Call) (l : Ledger)
    → IsCovered l
    → ((assess_trust (history calls l)).verdict ≢ unknown UnknownReason.external_behind_ledger)
      × ((assess_trust (history calls l)).verdict ≢ unknown UnknownReason.external_missing)
never_behind calls l c = covered_assessment (history calls l) (history-IsCovered calls l c)
