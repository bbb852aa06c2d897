-- ===== src/Proxy/Retrieval/Sweeps.antt =====
-- A whole sweep of crates/proxy/src/retrieval.rs.
use quotamiser.Prelude.{
  ℕ, String, ◌≡◌, refl, Option, none, some, List, [], ◌∷◌, leb, inl, inr, Bool-cases, Result, ok,
  err, arith, ap,
}
use quotamiser.Prelude.Int.{ℤ}
use quotamiser.Ledger.State.{State}
use quotamiser.Ledger.History.{Call, after, history, writing_off}
use quotamiser.Ledger.Queries.{OpenDispatch, open_dispatches}
use quotamiser.Ledger.Transitions.{write_off}
use quotamiser.Protocol.Json.{Value}
use quotamiser.Protocol.Sse.{Bytes}
use quotamiser.Proxy.LedgerHandle.{
  LedgerHandle, LedgerAccessError, with_ledger, with_ledger-reads, with_ledger-ok, Follows,
}
use quotamiser.Proxy.Retrieval.{
  RetrievalPolicy, written_off, no_response_id, SweepEntry, RetrievalWorker, Attempt, Answered,
  and_with, asked, lookup, is_due, handle_as, age_of, handle, entry_of, handle_all, retain, sweep,
}
use quotamiser.Proxy.Retrieval.Evidence.{
  Turns, Turns-Follows, Turns-ok, and_with-Turns, IsWarranted, ending-Turns, after_response-Turns,
}

module _ (policy : RetrievalPolicy) (from_slice : Bytes → Option Value) where
  handle_as-Turns :
      (start : LedgerHandle) (id : ℕ) (state : State) (response_id : Option String)
      (attempt : Attempt) (age : ℕ) (now_unix : ℤ) (w : RetrievalWorker)
      → Follows start w.handle
      → Turns start
          (IsWarranted policy from_slice state response_id attempt.response age)
          (handle_as policy from_slice id state response_id attempt age now_unix w)
  unfolding after
  handle_as-Turns start id State.dispatched_id_unknown response_id attempt age now_unix w f =
      let P =
        IsWarranted policy from_slice State.dispatched_id_unknown response_id attempt.response
          age in
      elim (Bool-cases (leb policy.write_off_unknown_after age)) [
        | inl old ↦ rw old (
            ending-Turns policy from_slice start P id (write_off id)
              (λ _. written_off no_response_id) (writing_off id) w (λ l. refl) f
              (λ _. (refl, ground arith)))
        | inr young ↦ rw young (f, tt)
      ]
  handle_as-Turns start id State.dispatched_with_id (some rid) attempt age now_unix w f =
      elim (Bool-cases (is_due (lookup id w.backoff) attempt.due_at)) [
        | inl due ↦ rw due (
            after_response-Turns policy from_slice start id rid attempt age now_unix
              attempt.response w f)
        | inr early ↦ rw early (f, tt)
      ]
  handle_as-Turns start id State.dispatched_with_id none attempt age now_unix w f = (f, tt)
  handle_as-Turns start id state response_id attempt age now_unix w f = (f, tt)

  module _ (attempts : ℕ → Attempt) (now_unix : ℤ) where
    -- One entry for each dispatch, in their order, with an outcome that the evidence warrants.
    abbrev pub AreWarranted : List OpenDispatch → List SweepEntry → Type 0
    AreWarranted [] entries = entries ≡ []
    AreWarranted (d ∷ pending) [] = ⊥
    AreWarranted (d ∷ pending) (entry ∷ entries) =
        (entry ≡ entry_of policy from_slice now_unix d entry.outcome)
        × IsWarranted policy from_slice d.state d.response_id (attempts d.id).response
            (age_of policy from_slice d now_unix) entry.outcome
        × AreWarranted pending entries

    handle_all-Turns :
        (start : LedgerHandle) (pending : List OpenDispatch) (w : RetrievalWorker)
        → Follows start w.handle
        → Turns start
            (AreWarranted pending)
            (handle_all policy from_slice attempts now_unix pending w)
    unfolding handle_all handle
    handle_all-Turns start [] w f = (f, refl)
    handle_all-Turns start (d ∷ pending) w f =
        let age = age_of policy from_slice d now_unix in
        let response = (attempts d.id).response in
        and_with-Turns start (IsWarranted policy from_slice d.state d.response_id response age)
          (AreWarranted (d ∷ pending)) (handle policy from_slice attempts now_unix d w)
          (λ outcome w.
            and_with (handle_all policy from_slice attempts now_unix pending w)
              λ entries w. (ok (entry_of policy from_slice now_unix d outcome ∷ entries), w))
          (handle_as-Turns start d.id d.state d.response_id (attempts d.id) age now_unix w f)
          (λ outcome w f warranted.
            and_with-Turns start (AreWarranted pending) (AreWarranted (d ∷ pending))
              (handle_all policy from_slice attempts now_unix pending w)
              (λ entries w. (ok (entry_of policy from_slice now_unix d outcome ∷ entries), w))
              (handle_all-Turns start pending w f)
              (λ entries w f later. (f, (refl, warranted, later))))

    -- The dispatches that were open when the sweep looked, after what the other tasks did.
    abbrev pub WereOpen : LedgerHandle → List OpenDispatch → Type 0
    WereOpen start pending =
        (calls : List Call) × ((open_dispatches (history calls start.ledger)).0 ≡ ok pending)

    listed-Turns :
        (w : RetrievalWorker) → Turns w.handle (WereOpen w.handle) (asked open_dispatches w)
    unfolding open_dispatches
    listed-Turns w =
        listed (with_ledger open_dispatches w.handle)
          (with_ledger-reads open_dispatches w.handle (λ l. refl))
          (λ pending read.
            let (calls, found) = with_ledger-ok open_dispatches w.handle read in
            (calls, ap (λ answer. answer.0) found))
      where
        listed :
            (done : Result LedgerAccessError (List OpenDispatch) × LedgerHandle)
            → Follows w.handle done.1
            → ((pending : List OpenDispatch) → done.0 ≡ ok pending → WereOpen w.handle pending)
            → Turns w.handle (WereOpen w.handle) (done.0, record w { handle = done.1 })
        listed (ok pending, h) f was = (f, was pending refl)
        listed (err error, h) f was = f

    sweep-Turns :
        (w : RetrievalWorker)
        → Turns w.handle
            (λ entries.
              (pending : List OpenDispatch) × WereOpen w.handle pending
              × AreWarranted pending entries)
            (sweep policy from_slice attempts now_unix w)
    unfolding sweep
    sweep-Turns w =
        and_with-Turns w.handle (WereOpen w.handle) _ (asked open_dispatches w)
          (λ pending w.
            handle_all policy from_slice attempts now_unix pending
              (record w { backoff = retain policy from_slice pending w.backoff }))
          (listed-Turns w)
          (λ pending w' f was.
            weaken pending was
              (handle_all policy from_slice attempts now_unix pending
                (record w' { backoff = retain policy from_slice pending w'.backoff }))
              (handle_all-Turns w.handle pending
                (record w' { backoff = retain policy from_slice pending w'.backoff }) f))
      where
        weaken :
            (pending : List OpenDispatch)
            → WereOpen w.handle pending
            → (answer : Answered (List SweepEntry)) → Turns w.handle (AreWarranted pending) answer
            → Turns w.handle
                (λ entries.
                  (pending : List OpenDispatch) × WereOpen w.handle pending
                  × AreWarranted pending entries)
                answer
        weaken pending was (ok entries, w) t = (t.0, (pending, was, t.1))
        weaken pending was (err error, w) t = t

    -- A sweep that ends without an error has an entry for each dispatch that was open when it looked,
    -- and what it did with each it did on evidence: a settlement comes from a retrieved final response
    -- with the id that was asked for, and a reservation is written off only if it has no id and is old
    -- enough, or if the provider does not find it and it is old enough.
    pub sweep-AreWarranted :
        (w : RetrievalWorker) (entries : List SweepEntry)
        → (sweep policy from_slice attempts now_unix w).0 ≡ ok entries
        → (pending : List OpenDispatch) × WereOpen w.handle pending × AreWarranted pending entries
    sweep-AreWarranted w entries h =
        Turns-ok w.handle _ (sweep policy from_slice attempts now_unix w) (sweep-Turns w) h

    -- A sweep takes the ledger through its calls only, errors included.
    pub sweep-Follows :
        (w : RetrievalWorker)
        → Follows w.handle (sweep policy from_slice attempts now_unix w).1.handle
    sweep-Follows w =
        Turns-Follows w.handle _ (sweep policy from_slice attempts now_unix w) (sweep-Turns w)
