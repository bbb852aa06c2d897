-- ===== src/Ledger/History/Books.antt =====
-- Every call of crates/ledger/src keeps the books of the ledger.
use quotamiser.Prelude.{
  ℕ, inl, inr, String, ◌≡◌, refl, sym, subst, none, some, List, [], ◌∷◌, arith, if◌then◌else◌, ok,
  Bool-cases, >>=-eq-ok, All-mono, leb,
}
use quotamiser.Prelude.Int.{ℤ, pos}
use quotamiser.Ledger.State.{Transition}
use quotamiser.Ledger.Trust.{HighWaterMark}
use quotamiser.Ledger.Schema.{Db}
use quotamiser.Ledger.Core.Pools.{is_open, reserved_of}
use quotamiser.Ledger.Store.{Ledger, Transaction, transact}
use quotamiser.Ledger.Transitions.{
  WriteOutcome, begin_dispatch, relabel, attach_response_id, mark_id_unknown, settle, settle_body,
  end_group, write_off, release_unsent, release_rejected,
}
use quotamiser.Ledger.Transitions.Books.{
  IsSound-same, relabel-IsSound, end_group-IsSound, settle_body-IsSound, commit_dispatch-IsSound,
}
use quotamiser.Ledger.Reserve.{ReservationRequest, reserved, refused, reserve}
use quotamiser.Ledger.Reserve.Books.{reserve-IsSound, reserve_refused}
use quotamiser.Ledger.Restart.{open_ledger}
use quotamiser.Ledger.Restart.Opening.{open_ledger-IsSound}
use quotamiser.Ledger.Rollover.{
  rollover, advance, already_current, adopt_pools, adopt_body, adopt_recovered_consumption,
}
use quotamiser.Ledger.Rollover.Books.{advance-IsSound}
use quotamiser.Ledger.Sound.{IsSound, HasPool}
use quotamiser.Ledger.History.{
  Call, after, history, reserving, beginning_dispatch, attaching, marking_unknown, settling,
  writing_off, releasing_unsent, releasing_rejected, rolling_over, adopting, taking_slot,
  revalidating, invalidating, setting_latch, clearing_latches, shutting_down, reopening,
}
use quotamiser.Ledger.History.Calls.{
  outcome_cases, transact_lem, begin_dispatch-Dispatches, adopt-Adopts,
}
use quotamiser.Ledger.History.Frames.{
  take-same, easy-same, revalidate-same, shutdown-same, open_ledger_failed, reserve_failed,
  adopt_pools-Raises,
}

transact-IsSound :
    {A : Type 0} (body : Transaction A) (l : Ledger)
    → ((a : A) (db : Db) → body l.db ≡ ok (a, db) → IsSound l.db → IsSound db)
    → IsSound l.db
    → IsSound (transact body l).1.db
transact-IsSound body l keeps s = elim (transact_lem body l) [
  | inl same ↦ subst (λ l'. IsSound l'.db) (sym same) s
  | inr (a, db, is, same) ↦ subst (λ l'. IsSound l'.db) (sym same) (keeps a db is s)
]

Raised-IsSound :
    (db db' : Db)
    → ((q : String) (f : ℕ) → reserved_of db'.pools q f ≡ reserved_of db.pools q f)
    → ((q : String) (f : ℕ) → is_open db'.pools q f ≡ is_open db.pools q f)
    → db'.rows ≡ db.rows
    → IsSound db
    → IsSound db'
Raised-IsSound db db' r o same s = record {
  totals = λ q f. rw same (ground (arith, r q f, s.totals q f));
  grouped = rw same s.grouped;
  keyed = rw same (
      All-mono (HasPool db.pools) (HasPool db'.pools)
        (λ x kept. ground (arith, o x.pool_id x.epoch)) db.rows s.keyed);
  checked = rw same s.checked;
  rooted = rw same s.rooted;
}

adopt_body-IsSound :
    (adoptions : List (String × ℕ × ℕ)) (anchor : HighWaterMark) (db db' : Db)
    → adopt_body adoptions anchor db ≡ ok (tt, db')
    → IsSound db
    → IsSound db'
unfolding adopt_body
adopt_body-IsSound adoptions anchor db db' h s =
    let (pools, raised, _) = >>=-eq-ok (adopt_pools adoptions db.pools) _ h in
    let (r, o, k) = adopt_pools-Raises adoptions db.pools raised in
    let same : db'.rows ≡ db.rows = ground arith in
    let moved : db'.pools ≡ pools = ground arith in
    Raised-IsSound db db' (λ q f. ground (arith, r q f)) (λ q f. ground (arith, o q f)) same s

reserve-kept :
    (request : ReservationRequest) (now : ℤ) (l : Ledger)
    → IsSound l.db
    → IsSound (reserve request now l).1.db
reserve-kept request now l s = elim (outcome_cases (reserve request now l)) [
  | inl (e, is) ↦ subst (λ l'. IsSound l'.db) (sym (reserve_failed request now l _ is)) s
  | inr (reserved id, is) ↦ reserve-IsSound request now l _ is s
  | inr (refused r, is) ↦ subst (λ l'. IsSound l'.db) (sym (reserve_refused request now l _ r is)) s
]

begin_dispatch-kept :
    (id : ℕ) (written_as : WriteOutcome) (l : Ledger)
    → IsSound l.db
    → IsSound (begin_dispatch id written_as l).1.db
begin_dispatch-kept id written_as l s = elim (begin_dispatch-Dispatches id written_as l) [
  | inl same ↦ subst (λ l'. IsSound l'.db) (sym same) s
  | inr (g, next, prepared, inl marked) ↦ subst (λ l'. IsSound l'.db) (sym marked) s
  | inr (g, next, prepared, inr (db, is, committed)) ↦
      subst (λ l'. IsSound l'.db) (sym committed)
        (commit_dispatch-IsSound g next l.db.meta.generation l.db db is s)
]

adopt-kept :
    (adoptions : List (String × ℕ × ℕ)) (written_as : WriteOutcome) (l : Ledger)
    → IsSound l.db
    → IsSound (adopt_recovered_consumption adoptions written_as l).1.db
adopt-kept adoptions written_as l s = elim (adopt-Adopts adoptions written_as l) [
  | inl same ↦ subst (λ l'. IsSound l'.db) (sym same) s
  | inr (anchor, anchored, inl marked) ↦ subst (λ l'. IsSound l'.db) (sym marked) s
  | inr (anchor, anchored, inr (db, is, committed)) ↦
      subst (λ l'. IsSound l'.db) (sym committed) (adopt_body-IsSound adoptions anchor l.db db is s)
]

rollover-kept :
    (new_epoch : ℕ) (grants : List (String × ℕ)) (l : Ledger)
    → IsSound l.db
    → IsSound (rollover new_epoch grants l).1.db
unfolding rollover
rollover-kept new_epoch grants l s =
    transact-IsSound
      (λ db.
        if leb new_epoch db.meta.current_epoch
        then ok (already_current, db)
        else advance new_epoch grants db)
      l
      (λ o db is s. elim (Bool-cases (leb new_epoch l.db.meta.current_epoch)) [
        | inl stale ↦ IsSound-same l.db db (ground arith) (ground arith) s
        | inr fresh ↦ advance-IsSound new_epoch grants l.db db {o = o} (ground arith) s
      ])
      s

pub after-IsSound : (c : Call) (l : Ledger) → IsSound l.db → IsSound (after c l).db
unfolding after write_off release_unsent release_rejected attach_response_id mark_id_unknown settle
after-IsSound (reserving request now) l s = reserve-kept request now l s
after-IsSound (beginning_dispatch id written_as) l s = begin_dispatch-kept id written_as l s
after-IsSound (attaching id response_id) l s =
    transact-IsSound (relabel id Transition.attach_response_id (some response_id)) l
      (λ _ db is.
        relabel-IsSound id Transition.attach_response_id (some response_id) l.db db refl is)
      s
after-IsSound (marking_unknown id) l s =
    transact-IsSound (relabel id Transition.mark_id_unknown none) l
      (λ _ db is. relabel-IsSound id Transition.mark_id_unknown none l.db db refl is) s
after-IsSound (settling id response accounting_rev now) l s =
    transact-IsSound (settle_body id response accounting_rev now) l
      (λ _ db is. settle_body-IsSound id response accounting_rev now l.db db is) s
after-IsSound (writing_off id) l s =
    transact-IsSound (end_group Transition.unrecoverable (λ g. g.head.liability) id) l
      (λ _ db is.
        end_group-IsSound Transition.unrecoverable (λ g. g.head.liability) id l.db db refl is)
      s
after-IsSound (releasing_unsent id) l s =
    transact-IsSound (end_group Transition.release_unsent (λ g. 0) id) l
      (λ _ db is. end_group-IsSound Transition.release_unsent (λ g. 0) id l.db db refl is) s
after-IsSound (releasing_rejected id) l s =
    transact-IsSound (end_group Transition.reject_before_processing (λ g. 0) id) l
      (λ _ db is. end_group-IsSound Transition.reject_before_processing (λ g. 0) id l.db db refl is)
      s
after-IsSound (rolling_over new_epoch grants) l s = rollover-kept new_epoch grants l s
after-IsSound (adopting adoptions written_as) l s = adopt-kept adoptions written_as l s
after-IsSound (taking_slot provider epoch limit window now) l s =
    let (p, r) = take-same provider epoch limit window now l in IsSound-same l.db _ p r s
after-IsSound (revalidating key now ttl_seconds budget) l s =
    let (p, r) = revalidate-same key now ttl_seconds budget l in IsSound-same l.db _ p r s
after-IsSound (invalidating key) l s =
    let ((p, r), _, _) = easy-same key "" "" none (pos 0) l in IsSound-same l.db _ p r s
after-IsSound (setting_latch scope reason evidence now) l s =
    let (_, (p, r), _) = easy-same "" scope reason evidence now l in IsSound-same l.db _ p r s
after-IsSound (clearing_latches scope cleared_by now) l s =
    let (_, _, (p, r)) = easy-same "" scope cleared_by none now l in IsSound-same l.db _ p r s
after-IsSound shutting_down l s = IsSound-same l.db _ (shutdown-same l).0 (shutdown-same l).1 s
after-IsSound reopening l s = elim (outcome_cases (open_ledger l.db l.hwm)) [
  | inl (e, is) ↦ subst IsSound (sym (open_ledger_failed l.db l.hwm _ e is).0) s
  | inr (a, is) ↦ open_ledger-IsSound l.db l.hwm _ is s
]

-- The books stay sound through every sequence of calls, successful or not, in which the write of
-- the external record may fail and the process may be restarted at any point between two calls.
pub history-IsSound : (calls : List Call) (l : Ledger) → IsSound l.db → IsSound (history calls l).db
unfolding history
history-IsSound [] l s = s
history-IsSound (c ∷ calls) l s = history-IsSound calls (after c l) (after-IsSound c l s)
