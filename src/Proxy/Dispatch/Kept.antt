-- ===== src/Proxy/Dispatch/Kept.antt =====
-- Neither the loop of crates/proxy/src/dispatch.rs nor the ledger's calls hand over a head or send
-- anything to the provider.
use quotamiser.Prelude.{
  ℕ, String, ◌≡◌, refl, ◌∙◌, Option, none, some, List, [], ◌∷◌, Bool, true, false, Result, ok, err,
  is_none, if◌then◌else◌, arith,
}
use quotamiser.Prelude.Int.{ℤ}
use quotamiser.Ledger.Transitions.{attach_response_id, settle}
use quotamiser.Ledger.Transitions.Usage.{Settlement}
use quotamiser.Proxy.LedgerHandle.{LedgerHandle, LedgerAccessError, with_ledger}
use quotamiser.Proxy.FailureBreaker.{record_ambiguous_failure, record_completion}
use quotamiser.Protocol.Responses.{
  Reader, Observation, response_id, terminal, stream_error, ResponseSummary, push,
}
use quotamiser.Proxy.Dispatch.{
  DispatchPermit, DispatchPolicy, Head, Disposition, World, finishing, hold_as_unknown, deliver,
}
use quotamiser.Proxy.Dispatch.Relay.{
  Relay, Event, chunk, upstream_ended, client_closed, deadline_passed, Round, Exit, writes_off,
  awaits, holds, exit_at, leave, leave_or, and_go_on, and_loop, Turnout, goes_on, ends,
  after_attach, after_settle, note_terminal, note, note_all, and_send, conclude, stream_ended,
  take_chunk, take_event, relay_loop, completed_response,
}
use quotamiser.Protocol.Sse.{Bytes}

-- The head and what was sent.
abbrev pub shown : World → Option Head × List (Bytes × LedgerHandle)
shown w = (w.head, w.sent)

abbrev shown_of : Turnout → Option Head × List (Bytes × LedgerHandle)
shown_of (goes_on s w) = shown w
shown_of (ends disposition w) = shown w

leave-shown :
    (permit : DispatchPermit) (exit : Exit) (w : World) → shown (leave permit exit w).1 ≡ shown w
unfolding finishing hold_as_unknown
leave-shown permit writes_off w = refl
leave-shown permit (awaits id) w = refl
leave-shown permit holds w = refl

leave_or-shown :
    (permit : DispatchPermit) (exit : Option Exit) (w : World) (taken : Turnout)
    → shown_of taken ≡ shown w
    → shown_of (leave_or permit exit w taken) ≡ shown w
leave_or-shown permit none w taken h = h
leave_or-shown permit (some exit) w taken h = leave-shown permit exit w

after_attach-shown :
    (id : String) (s : Relay) (w : World)
    (done : Result LedgerAccessError (Unit {0}) × LedgerHandle)
    → shown_of (after_attach id s w done) ≡ shown w
after_attach-shown id s w (ok _, handle) = refl
after_attach-shown id s w (err error, handle) = refl

after_settle-shown :
    (s : Relay) (w : World) (done : Result LedgerAccessError Settlement × LedgerHandle)
    → shown_of (after_settle s w done) ≡ shown w
after_settle-shown s w (ok settlement, handle) = refl
after_settle-shown s w (err error, handle) = refl

and_go_on-shown :
    (next : Relay → World → Turnout) (w : World) (first : Turnout)
    → shown_of first ≡ shown w
    → ((s : Relay) (w : World) → shown_of (next s w) ≡ shown w)
    → shown_of (and_go_on next first) ≡ shown w
and_go_on-shown next w (goes_on s w') h keeps = keeps s w' ∙ h
and_go_on-shown next w (ends disposition w') h keeps = h

and_loop-shown :
    (next : Relay → World → Option Disposition × World) (w : World) (first : Turnout)
    → shown_of first ≡ shown w
    → ((s : Relay) (w : World) → shown (next s w).1 ≡ shown w)
    → shown (and_loop next first).1 ≡ shown w
and_loop-shown next w (goes_on s w') h keeps = keeps s w' ∙ h
and_loop-shown next w (ends disposition w') h keeps = h

module _ (policy : DispatchPolicy) (permit : DispatchPermit) where
  note_terminal-shown :
      (ended : Option Settlement) (summary : ResponseSummary) (unix_now : ℤ) (s : Relay) (w : World)
      → shown_of (note_terminal policy permit ended summary unix_now s w) ≡ shown w
  note_terminal-shown (some settlement) summary unix_now s w = refl
  note_terminal-shown none summary unix_now s w =
      after_settle-shown s (record w { breaker = record_completion policy.breaker w.breaker })
        (with_ledger
          (settle permit.reservation (completed_response summary) permit.accounting_rev unix_now)
          w.handle)

  note-shown :
      (observation : Observation) (unix_now : ℤ) (s : Relay) (w : World)
      → shown_of (note policy permit observation unix_now s w) ≡ shown w
  unfolding note
  note-shown (response_id id) unix_now s w =
      after_attach-shown id s w (with_ledger (attach_response_id permit.reservation id) w.handle)
  note-shown (terminal summary) unix_now s w = note_terminal-shown s.settled summary unix_now s w
  note-shown (stream_error code message) unix_now s w = refl

  note_all-shown :
      (observations : List Observation) (unix_now : ℤ) (s : Relay) (w : World)
      → shown_of (note_all policy permit observations unix_now s w) ≡ shown w
  unfolding note_all
  note_all-shown [] unix_now s w = refl
  note_all-shown (observation ∷ observations) unix_now s w =
      and_go_on-shown (note_all policy permit observations unix_now) w
        (note policy permit observation unix_now s w) (note-shown observation unix_now s w)
        (note_all-shown observations unix_now)

  and_send-shown :
      (delivered : Bool) (now : ℕ) (t : Turnout)
      → shown_of (and_send policy permit delivered now t) ≡ shown_of t
  and_send-shown delivered now (goes_on s w) = refl
  and_send-shown delivered now (ends disposition w) = refl

  conclude-shown :
      (ended : Option Settlement) (background : Bool) (id : Option String) (w : World)
      → shown (conclude policy permit ended background id w).1 ≡ shown w
  unfolding finishing hold_as_unknown
  conclude-shown (some settlement) background id w = refl
  conclude-shown none false id w = refl
  conclude-shown none true (some id) w = refl
  conclude-shown none true none w = refl

  module _ (reader : Reader) where
    take_event-shown :
        (event : Event) (s : Relay) (w : World)
        → shown_of (take_event policy permit reader event s w) ≡ shown w
    unfolding take_chunk stream_ended
    take_event-shown (chunk bytes unix_now delivered now) s w =
        let (observer, observations) = push reader bytes s.observer in
        let s' : Relay = record s { observer = observer } in
        and_send-shown delivered now (note_all policy permit observations unix_now s' w)
        ∙ note_all-shown observations unix_now s' w
    take_event-shown (upstream_ended now) s w =
        conclude-shown s.settled permit.background s.response_id (record w {
          breaker =
              if is_none s.settled
              then record_ambiguous_failure policy.breaker now w.breaker
              else w.breaker;
        })
    take_event-shown (client_closed now) s w = refl
    take_event-shown deadline_passed s w = refl

    pub relay_loop-shown :
        (rounds : List Round) (s : Relay) (w : World)
        → shown (relay_loop policy permit reader rounds s w).1 ≡ shown w
    unfolding relay_loop
    relay_loop-shown [] s w = refl
    relay_loop-shown (round ∷ rounds) s w =
        let taken = take_event policy permit reader round.event s w in
        and_loop-shown (relay_loop policy permit reader rounds) w
          (leave_or permit (exit_at permit.background round.checked_at s) w taken)
          (leave_or-shown permit (exit_at permit.background round.checked_at s) w taken
            (take_event-shown round.event s w))
          (relay_loop-shown rounds)

pub deliver-handle :
    (waits : Bool) (head : Head) (w : World) → (deliver waits head w).1.handle ≡ w.handle
unfolding deliver
deliver-handle waits head w = ground arith
