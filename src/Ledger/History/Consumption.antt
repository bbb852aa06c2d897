-- ===== src/Ledger/History/Consumption.antt =====
-- That the consumption that crates/ledger/src records only ever rises.
use quotamiser.Prelude.{
  ℕ, ◌≤◌, inl, inr, String, ◌≡◌, sym, ap, subst, Bool, true, false, Option, none, some, List, [],
  ◌∷◌, arith, if◌then◌else◌, Result, ok, err, Bool-cases, >>=-eq-ok, leb,
}
use quotamiser.Prelude.Int.{ℤ, pos}
use quotamiser.Ledger.State.{Transition}
use quotamiser.Ledger.Trust.{HighWaterMark}
use quotamiser.Ledger.Schema.{PoolEpoch, Db}
use quotamiser.Ledger.Core.{Group, GroupRow}
use quotamiser.Ledger.Core.Pools.{consumed_of}
use quotamiser.Ledger.Store.{Ledger, Transaction, transact}
use quotamiser.Ledger.Transitions.{
  WriteOutcome, begin_dispatch, commit_dispatch, relabel, attach_response_id, mark_id_unknown,
  settle, settle_body, end_group, write_off, release_unsent, release_rejected,
}
use quotamiser.Ledger.Transitions.Usage.{UsageDefect, Settlement, validate}
use quotamiser.Ledger.Transitions.Effects.{SettlesAs, end_group-EndsBy, settle_body-SettlesAs}
use quotamiser.Ledger.Reserve.{ReservationRequest, reserved, refused, reserve}
use quotamiser.Ledger.Reserve.Effects.{reserve-Reserves}
use quotamiser.Ledger.Reserve.Books.{reserve_refused}
use quotamiser.Ledger.Restart.{
  open_ledger, promote, normalize_dispatching, normalize_reserved, rows_interpretable,
}
use quotamiser.Ledger.Restart.Books.{
  normalize_body-parts, normalize_reserved-parts, release_rows-Freed,
}
use quotamiser.Ledger.Restart.Opening.{open_ledger-Opens}
use quotamiser.Ledger.Rollover.{
  RolloverOutcome, already_current, rollover, advance, carry, Carrying, carry_row, carry_rows,
  adopt_pools, adopt_body, adopt_recovered_consumption,
}
use quotamiser.Ledger.Rollover.Books.{open_pools-Opened, carry_row-Carries, advance-parts}
use quotamiser.Ledger.History.{
  Call, after, history, reserving, beginning_dispatch, attaching, marking_unknown, settling,
  writing_off, releasing_unsent, releasing_rejected, rolling_over, adopting, taking_slot,
  revalidating, invalidating, setting_latch, clearing_latches, shutting_down, reopening,
}
use quotamiser.Ledger.History.Calls.{
  outcome_cases, transact_lem, begin_dispatch-Dispatches, adopt-Adopts,
}
use quotamiser.Ledger.History.Frames.{
  take-same, easy-same, revalidate-same, shutdown-same, open_ledger_failed, reserve_failed,
  adopt_pools-Raises,
}

abbrev pub Rises : List PoolEpoch → List PoolEpoch → Type 0
Rises pools pools' = (q : String) (f : ℕ) → consumed_of pools q f ≤ consumed_of pools' q f

Rises-same : (pools pools' : List PoolEpoch) → pools' ≡ pools → Rises pools pools'
Rises-same pools pools' h q f = ground arith

transact-Rises :
    {A : Type 0} (body : Transaction A) (l : Ledger)
    → ((a : A) (db : Db) → body l.db ≡ ok (a, db) → Rises l.db.pools db.pools)
    → Rises l.db.pools (transact body l).1.db.pools
transact-Rises body l rises q f = elim (transact_lem body l) [
  | inl kept ↦ ground arith
  | inr (a, db, is, committed) ↦ let r = rises a db is q f in ground arith
]

relabel-pools :
    (id : ℕ) (t : Transition) (response_id : Option String) (u : Unit {0}) (db db' : Db)
    → relabel id t response_id db ≡ ok (u, db')
    → Rises db.pools db'.pools
unfolding relabel
relabel-pools id t response_id u db db' h = Rises-same db.pools db'.pools (ground arith)

end_group-Rises :
    (t : Transition) (consumed : Group → ℕ) (id : ℕ) (db db' : Db)
    → end_group t consumed id db ≡ ok (tt, db')
    → Rises db.pools db'.pools
end_group-Rises t consumed id db db' h q f =
    let (g, a, e) = end_group-EndsBy t consumed id db db' h in omega (arith, e.drained.consumed q f)

SettlesAs-Rises :
    (g : Group) (v : Result UsageDefect ℕ) (now : ℤ) (db : Db) (s : Settlement) (db' : Db)
    → SettlesAs g v now db s db'
    → Rises db.pools db'.pools
SettlesAs-Rises g (ok actual) now db s db' (_, e, _) q f = omega (arith, e.drained.consumed q f)
SettlesAs-Rises g (err defect) now db s db' (_, e, _) q f = omega (arith, e.drained.consumed q f)

reserve-Rises :
    (request : ReservationRequest) (now : ℤ) (l : Ledger)
    → Rises l.db.pools (reserve request now l).1.db.pools
reserve-Rises request now l = elim (outcome_cases (reserve request now l)) [
  | inl (e, is) ↦ Rises-same l.db.pools _ (ap (λ x. x.db.pools) (reserve_failed request now l _ is))
  | inr (refused r, is) ↦
      Rises-same l.db.pools _ (ap (λ x. x.db.pools) (reserve_refused request now l _ r is))
  | inr (reserved id, is) ↦ λ q f.
      let (_, r, _) = reserve-Reserves request now l _ is in
      omega (arith, r.debits.adjusts.consumed q f)
]

dispatch-Rises :
    (id : ℕ) (written_as : WriteOutcome) (l : Ledger)
    → Rises l.db.pools (begin_dispatch id written_as l).1.db.pools
unfolding commit_dispatch
dispatch-Rises id written_as l = elim (begin_dispatch-Dispatches id written_as l) [
  | inl same ↦ Rises-same l.db.pools _ (ap (λ x. x.db.pools) same)
  | inr (g, next, prepared, inl marked) ↦ Rises-same l.db.pools _ (ap (λ x. x.db.pools) marked)
  | inr (g, next, prepared, inr (db, is, committed)) ↦ Rises-same l.db.pools _ (ground arith)
]

carry_rows-Rises :
    (epoch : ℕ) (rows : List GroupRow) (c c' : Carrying)
    → carry_rows epoch rows c ≡ ok c'
    → Rises c.pools c'.pools
unfolding carry_rows
carry_rows-Rises epoch [] c c' h q f = ground arith
carry_rows-Rises epoch (row ∷ rows) c c' h q f =
    let (mid, first, later) = >>=-eq-ok (carry_row epoch row c) _ h in
    let rest = carry_rows-Rises epoch rows mid c' later q f in
    elim (carry_row-Carries epoch row c mid first) [
      | inl (present, same) ↦ ground arith
      | inr e ↦ omega (arith, e.adjusts.consumed q f, rest)
    ]

advance-Rises :
    (epoch : ℕ) (grants : List (String × ℕ)) (o : RolloverOutcome) (db db' : Db)
    → advance epoch grants db ≡ ok (o, db')
    → Rises db.pools db'.pools
advance-Rises epoch grants o db db' h q f =
    let (pools, c, opened, carried, _, is) = advance-parts epoch grants db db' h in
    let r =
      carry_rows-Rises epoch (carry db.rows epoch)
        (record { pools = pools; rows = db.rows; carried = 0 }) c carried q f in
    ground (arith, (open_pools-Opened epoch grants db.pools opened).consumed q f)

rollover-Rises :
    (new_epoch : ℕ) (grants : List (String × ℕ)) (l : Ledger)
    → Rises l.db.pools (rollover new_epoch grants l).1.db.pools
unfolding rollover
rollover-Rises new_epoch grants l =
    transact-Rises
      (λ db.
        if leb new_epoch db.meta.current_epoch
        then ok (already_current, db)
        else advance new_epoch grants db)
      l
      (λ o db is. elim (Bool-cases (leb new_epoch l.db.meta.current_epoch)) [
        | inl stale ↦ Rises-same l.db.pools db.pools (ground arith)
        | inr fresh ↦ advance-Rises new_epoch grants o l.db db (ground arith)
      ])

adopt_body-Rises :
    (adoptions : List (String × ℕ × ℕ)) (anchor : HighWaterMark) (db db' : Db)
    → adopt_body adoptions anchor db ≡ ok (tt, db')
    → Rises db.pools db'.pools
unfolding adopt_body
adopt_body-Rises adoptions anchor db db' h q f =
    let (pools, raised, _) = >>=-eq-ok (adopt_pools adoptions db.pools) _ h in
    let (r, o, k) = adopt_pools-Raises adoptions db.pools raised in ground (arith, k q f)

adopt-Rises :
    (adoptions : List (String × ℕ × ℕ)) (written_as : WriteOutcome) (l : Ledger)
    → Rises l.db.pools (adopt_recovered_consumption adoptions written_as l).1.db.pools
adopt-Rises adoptions written_as l = elim (adopt-Adopts adoptions written_as l) [
  | inl same ↦ Rises-same l.db.pools _ (ap (λ x. x.db.pools) same)
  | inr (anchor, is, inl marked) ↦ Rises-same l.db.pools _ (ap (λ x. x.db.pools) marked)
  | inr (anchor, _, inr (db, is, committed)) ↦
      subst (λ x. Rises l.db.pools x.db.pools) (sym committed)
        (adopt_body-Rises adoptions anchor l.db db is)
]

promote-pools :
    (root : Option ℕ) (external : Option HighWaterMark) (db db' : Db)
    → promote root external db ≡ ok db'
    → db'.pools ≡ db.pools
unfolding promote
promote-pools none external db db' h = ground arith
promote-pools (some root) none db db' h = ground arith
promote-pools (some root) (some external) db db' h = ground arith

normalize_dispatching-pools :
    (db db' : Db) → normalize_dispatching db ≡ ok db' → db'.pools ≡ db.pools
unfolding normalize_dispatching
normalize_dispatching-pools db db' h = ground arith

normalize_reserved-Rises :
    (interpretable : Bool) (db db' : Db)
    → normalize_reserved interpretable db ≡ ok db'
    → Rises db.pools db'.pools
unfolding normalize_reserved
normalize_reserved-Rises true db db' h q f =
    let (released, _) = normalize_reserved-parts db db' h in
    let (_, k, _) = release_rows-Freed db.pools _ released q f in omega (arith, k)
normalize_reserved-Rises false db db' h q f = Rises-same db.pools db'.pools (ground arith) q f

reopen-Rises : (l : Ledger) → Rises l.db.pools (open_ledger l.db l.hwm).1.db.pools
reopen-Rises l = elim (outcome_cases (open_ledger l.db l.hwm)) [
  | inl (e, is) ↦
      Rises-same l.db.pools _ (ap (λ db. db.pools) (open_ledger_failed l.db l.hwm _ e is).0)
  | inr (a, is) ↦ λ q f.
      let o = open_ledger-Opens l.db l.hwm _ is in
      let (promoted, resolved, final, first, second, third, last) =
        normalize_body-parts a o.external l.db (open_ledger l.db l.hwm).1.db o.normalized in
      let p = promote-pools a.promote_to_id_unknown o.external l.db promoted first in
      let d = normalize_dispatching-pools promoted resolved second in
      let r = normalize_reserved-Rises (rows_interpretable a.verdict) resolved final third q f in
      ground (arith, ap (λ db. db.pools) last)
]

after-Rises : (c : Call) (l : Ledger) → Rises l.db.pools (after c l).db.pools
unfolding after write_off release_unsent release_rejected attach_response_id mark_id_unknown settle
after-Rises (reserving request now) l = reserve-Rises request now l
after-Rises (beginning_dispatch id written_as) l = dispatch-Rises id written_as l
after-Rises (attaching id response_id) l =
    transact-Rises (relabel id Transition.attach_response_id (some response_id)) l
      (λ u db is. relabel-pools id Transition.attach_response_id (some response_id) u l.db db is)
after-Rises (marking_unknown id) l =
    transact-Rises (relabel id Transition.mark_id_unknown none) l
      (λ u db is. relabel-pools id Transition.mark_id_unknown none u l.db db is)
after-Rises (settling id response accounting_rev now) l =
    transact-Rises (settle_body id response accounting_rev now) l (λ s db is.
      let (g, a, e) = settle_body-SettlesAs id response accounting_rev now l.db db is in
      SettlesAs-Rises g (validate g.head response accounting_rev) now l.db s db e)
after-Rises (writing_off id) l =
    transact-Rises (end_group Transition.unrecoverable (λ g. g.head.liability) id) l
      (λ u db is. end_group-Rises Transition.unrecoverable (λ g. g.head.liability) id l.db db is)
after-Rises (releasing_unsent id) l =
    transact-Rises (end_group Transition.release_unsent (λ g. 0) id) l
      (λ u db is. end_group-Rises Transition.release_unsent (λ g. 0) id l.db db is)
after-Rises (releasing_rejected id) l =
    transact-Rises (end_group Transition.reject_before_processing (λ g. 0) id) l
      (λ u db is. end_group-Rises Transition.reject_before_processing (λ g. 0) id l.db db is)
after-Rises (rolling_over new_epoch grants) l = rollover-Rises new_epoch grants l
after-Rises (adopting adoptions written_as) l = adopt-Rises adoptions written_as l
after-Rises (taking_slot provider epoch limit window now) l =
    Rises-same l.db.pools _ (take-same provider epoch limit window now l).0
after-Rises (revalidating key now ttl_seconds budget) l =
    Rises-same l.db.pools _ (revalidate-same key now ttl_seconds budget l).0
after-Rises (invalidating key) l = Rises-same l.db.pools _ (easy-same key "" "" none (pos 0) l).0.0
after-Rises (setting_latch scope reason evidence now) l =
    Rises-same l.db.pools _ (easy-same "" scope reason evidence now l).1.0
after-Rises (clearing_latches scope cleared_by now) l =
    Rises-same l.db.pools _ (easy-same "" scope cleared_by none now l).2.0
after-Rises shutting_down l = Rises-same l.db.pools _ (shutdown-same l).0
after-Rises reopening l = reopen-Rises l

-- The recorded consumption of every pool and epoch only ever rises: no sequence of calls, whether
-- they succeed or fail, and no restart between them lowers it.
pub history-Rises : (calls : List Call) (l : Ledger) → Rises l.db.pools (history calls l).db.pools
unfolding history
history-Rises [] l q f = ground arith
history-Rises (c ∷ calls) l q f =
    omega (arith, after-Rises c l q f, history-Rises calls (after c l) q f)
