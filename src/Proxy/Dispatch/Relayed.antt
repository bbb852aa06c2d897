-- ===== src/Proxy/Dispatch/Relayed.antt =====
-- What the relay of crates/proxy/src/dispatch.rs reports is what the ledger did.
use quotamiser.Prelude.{
  ℕ, String, refl, inl, inr, Option, none, some, List, [], ◌∷◌, Bool, true, false, not, ◌&&◌,
  if◌then◌else◌, is_none, Bool-cases,
}
use quotamiser.Prelude.Int.{ℤ}
use quotamiser.Ledger.Transitions.{attach_response_id, settle}
use quotamiser.Ledger.History.{after, attaching, settling}
use quotamiser.Ledger.Transitions.Usage.{Settlement}
use quotamiser.Proxy.LedgerHandle.{LedgerHandle, with_ledger, with_ledger-Follows, Follows}
use quotamiser.Proxy.FailureBreaker.{record_ambiguous_failure, record_completion}
use quotamiser.Protocol.Responses.{
  Reader, Observation, response_id, terminal, stream_error, ResponseSummary, push,
}
use quotamiser.Proxy.Dispatch.{DispatchPermit, DispatchPolicy, World}
use quotamiser.Proxy.Dispatch.Relay.{
  Relay, Event, chunk, upstream_ended, client_closed, deadline_passed, Round, exit_at, exit_of,
  leave_or, Turnout, goes_on, ends, note_terminal, note, note_all, send_on, and_send, conclude,
  stream_ended, take_chunk, take_event, relay_loop, completed_response, is_past,
}
use quotamiser.Proxy.Dispatch.Dispositions.{
  HasEnded, HasId, Holds, Knows, Reports, TurnsOut, after_attach-TurnsOut, after_settle-TurnsOut,
  and_go_on-TurnsOut, and_loop-Reports, hold-Holds, succeeded, write_off-Holds,
}

module _ (policy : DispatchPolicy) (permit : DispatchPermit) (start : LedgerHandle) where
  note_terminal-TurnsOut :
      (ended : Option Settlement) (summary : ResponseSummary) (unix_now : ℤ) (s : Relay) (w : World)
      → Knows start permit.reservation s w
      → TurnsOut start permit.reservation (note_terminal policy permit ended summary unix_now s w)
  unfolding after
  note_terminal-TurnsOut (some settlement) summary unix_now s w k = k
  note_terminal-TurnsOut none summary unix_now s w k =
      let response = completed_response summary in
      let operation = settle permit.reservation response permit.accounting_rev unix_now in
      after_settle-TurnsOut start permit.reservation s
        (record w { breaker = record_completion policy.breaker w.breaker })
        (with_ledger operation w.handle)
        (λ settlement e.
          (response, permit.accounting_rev, unix_now, succeeded operation start w.handle k.0 e))
        (with_ledger-Follows operation
          (settling permit.reservation response permit.accounting_rev unix_now) w.handle
          (λ l. refl))
        k

  note-TurnsOut :
      (observation : Observation) (unix_now : ℤ) (s : Relay) (w : World)
      → Knows start permit.reservation s w
      → TurnsOut start permit.reservation (note policy permit observation unix_now s w)
  unfolding note after
  note-TurnsOut (response_id id) unix_now s w k =
      let operation = attach_response_id permit.reservation id in
      after_attach-TurnsOut start permit.reservation id s w (with_ledger operation w.handle)
        (succeeded operation start w.handle k.0)
        (with_ledger-Follows operation (attaching permit.reservation id) w.handle (λ l. refl)) k
  note-TurnsOut (terminal summary) unix_now s w k =
      note_terminal-TurnsOut s.settled summary unix_now s w k
  note-TurnsOut (stream_error code message) unix_now s w k = k

  note_all-TurnsOut :
      (observations : List Observation) (unix_now : ℤ) (s : Relay) (w : World)
      → Knows start permit.reservation s w
      → TurnsOut start permit.reservation (note_all policy permit observations unix_now s w)
  unfolding note_all
  note_all-TurnsOut [] unix_now s w k = k
  note_all-TurnsOut (observation ∷ observations) unix_now s w k =
      and_go_on-TurnsOut start permit.reservation (note_all policy permit observations unix_now)
        (note policy permit observation unix_now s w) (note-TurnsOut observation unix_now s w k)
        (note_all-TurnsOut observations unix_now)

  send_on-Knows :
      (delivered : Bool) (now : ℕ) (s : Relay) (w : World)
      → Knows start permit.reservation s w
      → Knows start permit.reservation (send_on policy permit delivered now s) w
  send_on-Knows delivered now s w k = elim (Bool-cases (s.downstream && not delivered)) [
    | inl lost ↦ rw lost k
    | inr sent ↦ rw sent k
  ]

  and_send-TurnsOut :
      (delivered : Bool) (now : ℕ) (t : Turnout)
      → TurnsOut start permit.reservation t
      → TurnsOut start permit.reservation (and_send policy permit delivered now t)
  and_send-TurnsOut delivered now (goes_on s w) k = send_on-Knows delivered now s w k
  and_send-TurnsOut delivered now (ends disposition w) k = k

  conclude-Holds :
      (ended : Option Settlement) (background : Bool) (id : Option String) (w : World)
      → Follows start w.handle
      → HasEnded start permit.reservation w.handle ended
      → HasId start permit.reservation w.handle id
      → let (disposition, w') = conclude policy permit ended background id w in
        Holds start permit.reservation w'.handle disposition
  conclude-Holds (some settlement) background id w f s a = s
  conclude-Holds none false id w f s a = write_off-Holds start permit.reservation w f
  conclude-Holds none true (some id) w f s a = a
  conclude-Holds none true none w f s a = hold-Holds start permit.reservation w f

  leave_exit-TurnsOut :
      (background : Bool) (id : Option String) (past : Bool) (w : World) (taken : Turnout)
      → Follows start w.handle
      → HasId start permit.reservation w.handle id
      → TurnsOut start permit.reservation taken
      → TurnsOut start permit.reservation (leave_or permit (exit_of background id past) w taken)
  leave_exit-TurnsOut false id past w taken f a k = write_off-Holds start permit.reservation w f
  leave_exit-TurnsOut true (some id) past w taken f a k = a
  leave_exit-TurnsOut true none true w taken f a k = hold-Holds start permit.reservation w f
  leave_exit-TurnsOut true none false w taken f a k = k

  leave_or-TurnsOut :
      (now : ℕ) (s : Relay) (w : World) (taken : Turnout)
      → Knows start permit.reservation s w
      → TurnsOut start permit.reservation taken
      → TurnsOut start permit.reservation
          (leave_or permit (exit_at permit.background now s) w taken)
  leave_or-TurnsOut now s w taken (f, e, i) t =
      elim (Bool-cases (not s.downstream && is_none s.settled)) [
        | inl gone ↦ rw gone (
            leave_exit-TurnsOut permit.background s.response_id (is_past s.deadline now) w taken f i
              t)
        | inr there ↦ rw there t
      ]

  module _ (reader : Reader) where
    take_event-TurnsOut :
        (event : Event) (s : Relay) (w : World)
        → Knows start permit.reservation s w
        → TurnsOut start permit.reservation (take_event policy permit reader event s w)
    unfolding take_chunk stream_ended
    take_event-TurnsOut (chunk bytes unix_now delivered now) s w k =
        let (observer, observations) = push reader bytes s.observer in
        and_send-TurnsOut delivered now _
          (note_all-TurnsOut observations unix_now (record s { observer = observer }) w k)
    take_event-TurnsOut (upstream_ended now) s w (f, e, i) =
        conclude-Holds s.settled permit.background s.response_id
          (record w {
            breaker =
                if is_none s.settled
                then record_ambiguous_failure policy.breaker now w.breaker
                else w.breaker;
          })
          f e i
    take_event-TurnsOut (client_closed now) s w k = k
    take_event-TurnsOut deadline_passed s w k = k

    pub relay_loop-Reports :
        (rounds : List Round) (s : Relay) (w : World)
        → Knows start permit.reservation s w
        → Reports start permit.reservation (relay_loop policy permit reader rounds s w)
    unfolding relay_loop
    relay_loop-Reports [] s w k = tt
    relay_loop-Reports (round ∷ rounds) s w k =
        let taken = take_event policy permit reader round.event s w in
        and_loop-Reports start permit.reservation (relay_loop policy permit reader rounds)
          (leave_or permit (exit_at permit.background round.checked_at s) w taken)
          (leave_or-TurnsOut round.checked_at s w taken k (take_event-TurnsOut round.event s w k))
          (relay_loop-Reports rounds)
