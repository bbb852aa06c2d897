-- ===== src/Proxy/Dispatch/Relay.antt =====
-- `relay` of crates/proxy/src/dispatch.rs: the loop that relays a stream to the client, watches a
-- copy of it, and settles the reservation.
use quotamiser.Prelude.{
  ℕ, ◌+◌, String, Option, none, some, List, [], ◌∷◌, Bool, true, false, not, ◌&&◌, leb,
  if◌then◌else◌, is_none, unwrap_or, Result, ok, err,
}
use quotamiser.Prelude.Int.{ℤ}
use quotamiser.Ledger.Transitions.{attach_response_id, settle, write_off}
use quotamiser.Ledger.Transitions.Usage.{Settlement, CompletedResponse}
use quotamiser.Ledger.Transitions.Usage
use quotamiser.Protocol.Responses
use quotamiser.Proxy.LedgerHandle.{LedgerHandle, LedgerAccessError, with_ledger}
use quotamiser.Proxy.FailureBreaker.{record_ambiguous_failure, record_completion}
use quotamiser.Protocol.Sse.{Bytes}
use quotamiser.Protocol.Responses.{
  Reader, StreamObserver, new_observer, Observation, response_id, terminal, stream_error,
  ResponseSummary, push,
}
use quotamiser.Proxy.Dispatch.{
  DispatchPermit, DispatchPolicy, Disposition, settled, awaiting_retrieval, written_off,
  ledger_failed, World, finishing, hold_as_unknown,
}

-- The variables of the loop. The client is there while `downstream` is.
pub record Relay : Type 0 where
  pub downstream : Bool
  pub deadline : Option ℕ
  pub observer : StreamObserver
  pub response_id : Option String
  pub settled : Option Settlement

-- What a round of `select!` yields. A chunk comes with the wall clock's time, and with whether the
-- client took it; an instant is that of the monotonic clock.
pub data Event : Type 0 where
  chunk : Bytes → ℤ → Bool → ℕ → Event
  upstream_ended : ℕ → Event
  client_closed : ℕ → Event
  deadline_passed : Event

-- A round of the loop: when the deadline is looked at, and what happens then.
pub record Round : Type 0 where
  pub checked_at : ℕ
  pub event : Event

-- Why the loop is left without the stream having ended.
pub data Exit : Type 0 where
  writes_off : Exit
  awaits : String → Exit
  holds : Exit

abbrev pub is_past : Option ℕ → ℕ → Bool
is_past none now = false
is_past (some deadline) now = leb deadline now

abbrev pub exit_of : Bool → Option String → Bool → Option Exit
exit_of false id past = some writes_off
exit_of true (some id) past = some (awaits id)
exit_of true none past = if past then some holds else none

abbrev pub exit_at : Bool → ℕ → Relay → Option Exit
exit_at background now s =
    if not s.downstream && is_none s.settled
    then exit_of background s.response_id (is_past s.deadline now)
    else none

abbrev pub leave : DispatchPermit → Exit → World → Disposition × World
leave permit writes_off w = finishing (write_off permit.reservation) written_off w
leave permit (awaits id) w = (awaiting_retrieval id, record w { cancelled = some id })
leave permit holds w = hold_as_unknown permit.reservation w

-- The usage that the ledger settles with.
abbrev pub ledger_usage : Option Responses.Usage → Option Usage.Usage
ledger_usage none = none
ledger_usage (some u) =
    some (record { input_tokens = u.input_tokens; output_tokens = u.output_tokens })

abbrev pub completed_response : ResponseSummary → CompletedResponse
completed_response summary = record {
  usage = ledger_usage summary.usage;
  model = unwrap_or summary.model "";
  service_tier = unwrap_or summary.service_tier "";
}

-- The loop goes on, or the supervisor ends.
pub data Turnout : Type 0 where
  goes_on : Relay → World → Turnout
  ends : Disposition → World → Turnout

abbrev pub after_attach :
    String → Relay → World → Result LedgerAccessError (Unit {0}) × LedgerHandle → Turnout
after_attach id s w (ok _, handle) =
    goes_on (record s { response_id = some id }) (record w { handle = handle })
after_attach id s w (err error, handle) = ends (ledger_failed error) (record w { handle = handle })

abbrev pub after_settle :
    Relay → World → Result LedgerAccessError Settlement × LedgerHandle → Turnout
after_settle s w (ok settlement, handle) =
    goes_on (record s { settled = some settlement }) (record w { handle = handle })
after_settle s w (err error, handle) = ends (ledger_failed error) (record w { handle = handle })

-- The loop is left, or takes what `select!` yields.
abbrev pub leave_or : DispatchPermit → Option Exit → World → Turnout → Turnout
leave_or permit none w taken = taken
leave_or permit (some exit) w taken =
    let (disposition, w') = leave permit exit w in ends disposition w'

-- What comes next, unless the supervisor ends.
abbrev pub and_go_on : (Relay → World → Turnout) → Turnout → Turnout
and_go_on next (goes_on s w) = next s w
and_go_on next (ends disposition w) = ends disposition w

abbrev pub and_loop :
    (Relay → World → Option Disposition × World) → Turnout → Option Disposition × World
and_loop next (goes_on s w) = next s w
and_loop next (ends disposition w) = (some disposition, w)

module _ (policy : DispatchPolicy) (permit : DispatchPermit) where
  abbrev pub note_terminal : Option Settlement → ResponseSummary → ℤ → Relay → World → Turnout
  note_terminal (some settlement) summary unix_now s w = goes_on s w
  note_terminal none summary unix_now s w =
      let w' : World = record w { breaker = record_completion policy.breaker w.breaker } in
      after_settle s w' (
        with_ledger
          (settle permit.reservation (completed_response summary) permit.accounting_rev unix_now)
          w'.handle)

  unfoldable pub note : Observation → ℤ → Relay → World → Turnout
  note (response_id id) unix_now s w =
      after_attach id s w (with_ledger (attach_response_id permit.reservation id) w.handle)
  note (terminal summary) unix_now s w = note_terminal s.settled summary unix_now s w
  note (stream_error code message) unix_now s w = goes_on s w

  unfoldable pub note_all : List Observation → ℤ → Relay → World → Turnout
  note_all [] unix_now s w = goes_on s w
  note_all (observation ∷ observations) unix_now s w =
      and_go_on (note_all observations unix_now) (note observation unix_now s w)

  -- The client is gone; the wait for the response id begins, unless it had begun.
  abbrev pub lose_client : ℕ → Relay → Relay
  lose_client now s = record s {
    downstream = false;
    deadline = some (unwrap_or s.deadline (now + policy.id_wait_after_disconnect));
  }

  abbrev pub send_on : Bool → ℕ → Relay → Relay
  send_on delivered now s = if s.downstream && not delivered then lose_client now s else s

  abbrev pub and_send : Bool → ℕ → Turnout → Turnout
  and_send delivered now (goes_on s w) = goes_on (send_on delivered now s) w
  and_send delivered now (ends disposition w) = ends disposition w

  -- After the loop.
  abbrev pub conclude : Option Settlement → Bool → Option String → World → Disposition × World
  conclude (some settlement) background id w = (settled settlement, w)
  conclude none false id w = finishing (write_off permit.reservation) written_off w
  conclude none true (some id) w = (awaiting_retrieval id, w)
  conclude none true none w = hold_as_unknown permit.reservation w

  -- A stream that ends before its terminal event is an ambiguous failure.
  unfoldable pub stream_ended : ℕ → Relay → World → Disposition × World
  stream_ended now s w =
      let failed = record_ambiguous_failure policy.breaker now w.breaker in
      conclude s.settled permit.background s.response_id
        (record w { breaker = if is_none s.settled then failed else w.breaker })

  module _ (reader : Reader) where
    unfoldable pub take_chunk : Bytes → ℤ → Bool → ℕ → Relay → World → Turnout
    take_chunk bytes unix_now delivered now s w =
        let (observer, observations) = push reader bytes s.observer in
        and_send delivered now (note_all observations unix_now (record s { observer = observer }) w)

    abbrev pub take_event : Event → Relay → World → Turnout
    take_event (chunk bytes unix_now delivered now) s w =
        take_chunk bytes unix_now delivered now s w
    take_event (upstream_ended now) s w =
        let (disposition, w') = stream_ended now s w in ends disposition w'
    take_event (client_closed now) s w = goes_on (lose_client now s) w
    take_event deadline_passed s w = goes_on s w

    -- The loop. Without a disposition it waits for another event, or, the last being a chunk, for
    -- a client that neither takes that chunk nor leaves.
    unfoldable pub relay_loop : List Round → Relay → World → Option Disposition × World
    relay_loop [] s w = (none, w)
    relay_loop (round ∷ rounds) s w = and_loop (relay_loop rounds) (
        leave_or permit (exit_at permit.background round.checked_at s) w
          (take_event round.event s w))

    -- The variables at the start: a client that did not take the head is gone already.
    abbrev pub at_start : Bool → ℕ → Relay
    at_start delivered now = record {
      downstream = delivered;
      deadline = if delivered then none else some (now + policy.id_wait_after_disconnect);
      observer = new_observer;
      response_id = none;
      settled = none;
    }

    unfoldable pub relay : Bool → ℕ → List Round → World → Option Disposition × World
    relay delivered now rounds w = relay_loop rounds (at_start delivered now) w
