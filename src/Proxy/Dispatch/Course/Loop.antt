-- ===== src/Proxy/Dispatch/Course/Loop.antt =====
-- The loop of crates/proxy/src/dispatch.rs keeps to the course.
use quotamiser.Prelude.{
  ℕ, String, ◌≡◌, arith, Option, none, some, List, [], ◌∷◌, Bool, true, false, not, ◌&&◌, is_none,
  if◌then◌else◌, Bool-cases, inl, inr,
}
use quotamiser.Ledger.Transitions.{WriteOutcome}
use quotamiser.Ledger.Transitions.Usage.{Settlement}
use quotamiser.Proxy.LedgerHandle.{LedgerHandle}
use quotamiser.Proxy.FailureBreaker.{record_ambiguous_failure}
use quotamiser.Protocol.Responses.{Reader, push}
use quotamiser.Proxy.Dispatch.{DispatchPermit, DispatchPolicy, World}
use quotamiser.Proxy.Dispatch.Relay.{
  Relay, Event, chunk, upstream_ended, client_closed, deadline_passed, Round, exit_of, exit_at,
  is_past, leave_or, Turnout, goes_on, ends, and_send, conclude, stream_ended, take_chunk,
  take_event, relay_loop,
}
use quotamiser.Proxy.Dispatch.Course.{in_flight, settled_up, Runs}
use quotamiser.Proxy.Dispatch.Course.Notes.{
  Keeps, TurnsOut, hold-Keeps, write_off-Keeps, note_all-Keeps, loop-Runs,
}

module _ (start : LedgerHandle) (written_as : WriteOutcome) (policy : DispatchPolicy)
    (permit : DispatchPermit) where
  send-Keeps :
      (delivered : Bool) (now : ℕ) (t : Turnout)
      → TurnsOut start written_as policy permit t
      → TurnsOut start written_as policy permit (and_send policy permit delivered now t)
  send-Keeps delivered now (goes_on s w) k = elim (Bool-cases (s.downstream && not delivered)) [
    | inl gone ↦ rw gone k
    | inr sent ↦ rw sent k
  ]
  send-Keeps delivered now (ends disposition w) k = k

  conclude-Keeps :
      (ended : Option Settlement) (background : Bool) (id : Option String) (w : World)
      → Keeps start written_as policy permit ended id w
      → TurnsOut start written_as policy permit
          (let (d, w') = conclude policy permit ended background id w in ends d w')
  conclude-Keeps (some settlement) background id w k = k
  conclude-Keeps none false id w k = write_off-Keeps start written_as policy permit id w k
  conclude-Keeps none true (some id) w k = k
  conclude-Keeps none true none w k = hold-Keeps start written_as policy permit w k

  exit-Keeps :
      (background : Bool) (id : Option String) (past : Bool) (w : World) (taken : Turnout)
      → Keeps start written_as policy permit none id w
      → TurnsOut start written_as policy permit taken
      → TurnsOut start written_as policy permit
          (leave_or permit (exit_of background id past) w taken)
  exit-Keeps false id past w taken k t = write_off-Keeps start written_as policy permit id w k
  exit-Keeps true (some id) past w taken k t = k
  exit-Keeps true none true w taken k t = hold-Keeps start written_as policy permit w k
  exit-Keeps true none false w taken k t = t

  unsettled :
      (ended : Option Settlement) (s : Relay) (w : World)
      → (not s.downstream && is_none ended) ≡ true
      → Keeps start written_as policy permit ended s.response_id w
      → Keeps start written_as policy permit none s.response_id w
  unsettled none s w h k = k
  unsettled (some settlement) s w h k = ground arith

  leave-Keeps :
      (now : ℕ) (s : Relay) (w : World) (taken : Turnout)
      → Keeps start written_as policy permit s.settled s.response_id w
      → TurnsOut start written_as policy permit taken
      → TurnsOut start written_as policy permit
          (leave_or permit (exit_at permit.background now s) w taken)
  leave-Keeps now s w taken k t = elim (Bool-cases (not s.downstream && is_none s.settled)) [
    | inl gone ↦ rw gone (
        exit-Keeps permit.background s.response_id (is_past s.deadline now) w taken
          (unsettled s.settled s w gone k) t)
    | inr there ↦ rw there t
  ]

  module _ (reader : Reader) where
    event-Keeps :
        (event : Event) (s : Relay) (w : World)
        → Keeps start written_as policy permit s.settled s.response_id w
        → TurnsOut start written_as policy permit (take_event policy permit reader event s w)
    unfolding take_chunk stream_ended
    event-Keeps (chunk bytes unix_now delivered now) s w k =
        let (observer, observations) = push reader bytes s.observer in
        send-Keeps delivered now _ (
          note_all-Keeps start written_as policy permit observations unix_now
            (record s { observer = observer }) w k)
    event-Keeps (upstream_ended now) s w k =
        conclude-Keeps s.settled permit.background s.response_id
          (record w {
            breaker =
                if is_none s.settled
                then record_ambiguous_failure policy.breaker now w.breaker
                else w.breaker;
          })
          k
    event-Keeps (client_closed now) s w k = k
    event-Keeps deadline_passed s w k = k

    under_way :
        (ended : Option Settlement) (id : Option String) (w : World)
        → Keeps start written_as policy permit ended id w
        → Runs permit.reservation written_as start (none, w)
    under_way none id w k = (in_flight id, tt, k)
    under_way (some settlement) id w k = (settled_up settlement, tt, k)

    pub relay_loop-Runs :
        (rounds : List Round) (s : Relay) (w : World)
        → Keeps start written_as policy permit s.settled s.response_id w
        → Runs permit.reservation written_as start (relay_loop policy permit reader rounds s w)
    unfolding relay_loop
    relay_loop-Runs [] s w k = under_way s.settled s.response_id w k
    relay_loop-Runs (round ∷ rounds) s w k =
        let taken = take_event policy permit reader round.event s w in
        loop-Runs start written_as policy permit (relay_loop policy permit reader rounds)
          (leave_or permit (exit_at permit.background round.checked_at s) w taken)
          (leave-Keeps round.checked_at s w taken k (event-Keeps round.event s w k))
          (relay_loop-Runs rounds)
