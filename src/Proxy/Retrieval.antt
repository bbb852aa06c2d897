-- ===== src/Proxy/Retrieval.antt =====
-- crates/proxy/src/retrieval.rs: settling what the stream could not settle. What each retrieval
-- meets, and the times at which the clocks are read for it, are given by the reservation. Ages and
-- delays are nanoseconds; the seconds are those of the integers.
pub mod Evidence
pub mod Sweeps
mod Tests
use quotamiser.Prelude.{
  ℕ, ◌+◌, ◌*◌, ◌==◌, String, ◌<>◌, Option, none, some, List, [], ◌∷◌, Bool, true, false, not, ◌&&◌,
  leb, str_eq, any, if◌then◌else◌, and_then, keep_if, Result, ok, err, select,
}
use quotamiser.Prelude.Int.{ℤ, pos_part, ◌-ℤ◌}
use quotamiser.Admission.Liability.{minimum}
use quotamiser.Ledger.State.{State}
use quotamiser.Ledger.Queries.{OpenDispatch, open_dispatches}
use quotamiser.Ledger.Store.{Operation}
use quotamiser.Ledger.Transitions.{settle, write_off}
use quotamiser.Ledger.Transitions.Usage.{Settlement}
use quotamiser.Protocol.Json.{Value}
use quotamiser.Protocol.Request.Refusals.{decimal}
use quotamiser.Protocol.Responses.{ResponseSummary, from_object, is_terminal}
use quotamiser.Protocol.Sse.{Bytes}
use quotamiser.Proxy.Dispatch.Relay.{completed_response}
use quotamiser.Proxy.LedgerHandle.{LedgerHandle, LedgerAccessError, with_ledger}

pub record RetrievalPolicy : Type 0 where
  pub initial_backoff : ℕ
  pub max_backoff : ℕ
  pub write_off_unknown_after : ℕ
  pub trust_not_found_after : ℕ
  pub escalate_after : ℕ
  pub accounting_rev : ℤ

pub data WriteOffReason : Type 0 where
  no_response_id not_found_upstream : WriteOffReason

pub data Outcome : Type 0 where
  settled : Settlement → Outcome
  still_running : Outcome
  written_off : WriteOffReason → Outcome
  retry_later : String → Outcome
  waiting : Outcome

pub record SweepEntry : Type 0 where
  pub reservation : ℕ
  pub outcome : Outcome
  pub escalate : Bool

pub record Backoff : Type 0 where
  pub next_attempt : ℕ
  pub delay : ℕ

-- What changes while the worker runs.
pub record RetrievalWorker : Type 0 where
  pub handle : LedgerHandle
  pub backoff : List (ℕ × Backoff)

pub record Retrieved : Type 0 where
  pub status : ℕ
  pub body : Result String Bytes

-- When the worker looks whether a retrieval is due and when it schedules the next, and what
-- the retrieval meets.
pub record Attempt : Type 0 where
  pub due_at : ℕ
  pub scheduled_at : ℕ
  pub response : Result String Retrieved

abbrev pub Answered : Type 0 → Type 0
Answered A = Result LedgerAccessError A × RetrievalWorker

-- `?` after an await.
abbrev pub and_with : {A B : Type 0} → Answered A → (A → RetrievalWorker → Answered B) → Answered B
and_with (ok a, w) next = next a w
and_with (err error, w) next = (err error, w)

abbrev pub asked : {A : Type 0} → Operation A → RetrievalWorker → Answered A
asked operation w =
    let (answer, handle) = with_ledger operation w.handle in (answer, record w { handle = handle })

abbrev pub lookup : ℕ → List (ℕ × Backoff) → Option Backoff
lookup id [] = none
lookup id ((key, backoff) ∷ rest) = if key == id then some backoff else lookup id rest

abbrev pub remove : ℕ → List (ℕ × Backoff) → List (ℕ × Backoff)
remove id = select λ (key, backoff). not (key == id)

-- `due`.
abbrev pub is_due : Option Backoff → ℕ → Bool
is_due none now = true
is_due (some backoff) now = leb backoff.next_attempt now

module _ (policy : RetrievalPolicy) where
  abbrev pub next_delay : Option Backoff → ℕ
  next_delay none = policy.initial_backoff
  next_delay (some previous) = minimum (previous.delay * 2) policy.max_backoff

  unfoldable pub schedule : ℕ → ℕ → RetrievalWorker → RetrievalWorker
  schedule id now w =
      let delay = next_delay (lookup id w.backoff) in
      record w {
        backoff = (id, record { next_attempt = now + delay; delay = delay }) ∷ remove id w.backoff;
      }

  abbrev pub retry : ℕ → ℕ → String → RetrievalWorker → Answered Outcome
  retry id now why w = (ok (retry_later why), schedule id now w)

  -- An operation that ends the reservation, and its backoff.
  abbrev pub ending :
      {A : Type 0} → ℕ → Operation A → (A → Outcome) → RetrievalWorker → Answered Outcome
  ending id operation outcome w =
      and_with (asked operation w)
        λ a w. (ok (outcome a), record w { backoff = remove id w.backoff })

  abbrev pub write_off_for : ℕ → WriteOffReason → RetrievalWorker → Answered Outcome
  write_off_for id reason = ending id (write_off id) λ _. written_off reason

  abbrev pub settle_as : ℕ → ℤ → ResponseSummary → RetrievalWorker → Answered Outcome
  settle_as id now_unix summary =
      ending id (settle id (completed_response summary) policy.accounting_rev now_unix) settled

  abbrev pub after_summary :
      ℕ → Attempt → ℤ → Option ResponseSummary → RetrievalWorker → Answered Outcome
  after_summary id attempt now_unix none w =
      retry id attempt.scheduled_at "the retrieved response could not be read" w
  after_summary id attempt now_unix (some summary) w =
      if is_terminal summary
      then settle_as id now_unix summary w
      else (ok still_running, schedule id attempt.scheduled_at w)

  module _ (from_slice : Bytes → Option Value) where
    -- The summary in a body, if it is of the response that was asked for.
    abbrev pub summary_in : String → Bytes → Option ResponseSummary
    summary_in response_id body =
        keep_if (λ s. str_eq s.id response_id) (and_then (from_slice body) from_object)

    abbrev pub after_body :
        ℕ → String → Attempt → ℤ → Result String Bytes → RetrievalWorker → Answered Outcome
    after_body id response_id attempt now_unix (err error) w = retry id attempt.scheduled_at error w
    after_body id response_id attempt now_unix (ok body) w =
        after_summary id attempt now_unix (summary_in response_id body) w

    abbrev pub after_response :
        ℕ → String → Attempt → ℕ → ℤ → Result String Retrieved → RetrievalWorker → Answered Outcome
    after_response id response_id attempt age now_unix (err error) w =
        retry id attempt.scheduled_at error w
    after_response id response_id attempt age now_unix (ok r) w =
        if r.status == 404 && leb policy.trust_not_found_after age
        then write_off_for id not_found_upstream w
        else if not (r.status == 200)
        then retry id attempt.scheduled_at ("upstream returned " <> decimal r.status) w
        else after_body id response_id attempt now_unix r.body w

    -- `handle`, on the state and the response id of the dispatch.
    abbrev pub handle_as :
        ℕ → State → Option String → Attempt → ℕ → ℤ → RetrievalWorker → Answered Outcome
    handle_as id State.dispatched_id_unknown response_id attempt age now_unix w =
        if leb policy.write_off_unknown_after age
        then write_off_for id no_response_id w
        else (ok waiting, w)
    handle_as id State.dispatched_with_id (some response_id) attempt age now_unix w =
        if is_due (lookup id w.backoff) attempt.due_at
        then after_response id response_id attempt age now_unix attempt.response w
        else (ok waiting, w)
    handle_as id state response_id attempt age now_unix w = (ok waiting, w)

    abbrev pub age_of : OpenDispatch → ℤ → ℕ
    age_of d now_unix = pos_part (now_unix -ℤ d.created_at) * 1000000000

    unfoldable pub handle : (ℕ → Attempt) → ℤ → OpenDispatch → RetrievalWorker → Answered Outcome
    handle attempts now_unix d w =
        handle_as d.id d.state d.response_id (attempts d.id) (age_of d now_unix) now_unix w

    abbrev pub entry_of : ℤ → OpenDispatch → Outcome → SweepEntry
    entry_of now_unix d outcome = record {
      reservation = d.id;
      outcome = outcome;
      escalate = leb policy.escalate_after (age_of d now_unix);
    }

    unfoldable pub handle_all :
        (ℕ → Attempt) → ℤ → List OpenDispatch → RetrievalWorker → Answered (List SweepEntry)
    handle_all attempts now_unix [] w = (ok [], w)
    handle_all attempts now_unix (d ∷ pending) w =
        and_with (handle attempts now_unix d w) λ outcome w.
          and_with (handle_all attempts now_unix pending w)
            λ entries w. (ok (entry_of now_unix d outcome ∷ entries), w)

    -- The backoffs of the reservations that are still open.
    abbrev pub retain : List OpenDispatch → List (ℕ × Backoff) → List (ℕ × Backoff)
    retain pending = select λ (key, backoff). any (λ d. d.id == key) pending

    unfoldable pub sweep : (ℕ → Attempt) → ℤ → RetrievalWorker → Answered (List SweepEntry)
    sweep attempts now_unix w = and_with (asked open_dispatches w) λ pending w.
        handle_all attempts now_unix pending (record w { backoff = retain pending w.backoff })
