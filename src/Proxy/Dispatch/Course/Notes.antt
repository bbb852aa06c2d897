-- ===== src/Proxy/Dispatch/Course/Notes.antt =====
-- What the relay of crates/proxy/src/dispatch.rs notes of a stream keeps to the course.
use quotamiser.Prelude.{
  String, ◌≡◌, refl, sym, subst, Option, none, some, List, [], ◌∷◌, Result, ok, err,
}
use quotamiser.Prelude.Int.{ℤ}
use quotamiser.Ledger.Transitions.{
  WriteOutcome, attach_response_id, settle, mark_id_unknown, write_off,
}
use quotamiser.Ledger.Transitions.Usage.{Settlement}
use quotamiser.Proxy.LedgerHandle.{LedgerHandle, LedgerAccessError, with_ledger}
use quotamiser.Proxy.FailureBreaker.{record_completion}
use quotamiser.Protocol.Responses.{
  Observation, response_id, terminal, stream_error, ResponseSummary,
}
use quotamiser.Proxy.Dispatch.{
  DispatchPermit, DispatchPolicy, Disposition, held_as_unknown, written_off, World, finishing,
  hold_as_unknown,
}
use quotamiser.Proxy.Dispatch.Relay.{
  Relay, and_go_on, and_loop, Turnout, goes_on, ends, after_attach, after_settle, note_terminal,
  note, note_all, completed_response,
}
use quotamiser.Proxy.Dispatch.Course.{
  Phase, in_flight, settled_up, Course, lost, wrote_off, attached, not_attached, attached_late,
  not_attached_late, settles, not_settled, left_in, Runs, left_in-disposed,
}

-- Where the loop is, by its variables.
abbrev pub phase_of : Option Settlement → Option String → Phase
phase_of none id = in_flight id
phase_of (some settlement) id = settled_up settlement

module _ (start : LedgerHandle) (written_as : WriteOutcome) (policy : DispatchPolicy)
    (permit : DispatchPermit) where
  abbrev pub Keeps : Option Settlement → Option String → World → Type 0
  Keeps ended id w = Course permit.reservation written_as start (phase_of ended id) w.handle

  abbrev pub TurnsOut : Turnout → Type 0
  TurnsOut (goes_on s w) = Keeps s.settled s.response_id w
  TurnsOut (ends disposition w) =
      Course permit.reservation written_as start (left_in disposition) w.handle

  pub hold-Keeps :
      (w : World)
      → Keeps none none w
      → TurnsOut (let (d, w') = hold_as_unknown permit.reservation w in ends d w')
  unfolding hold_as_unknown finishing
  hold-Keeps w k =
      subst
        (λ phase.
          Course permit.reservation written_as start phase
            (with_ledger (mark_id_unknown permit.reservation) w.handle).1)
        (left_in-disposed held_as_unknown refl _) (lost k)

  pub write_off-Keeps :
      (id : Option String) (w : World)
      → Keeps none id w
      → TurnsOut (let (d, w') = finishing (write_off permit.reservation) written_off w in ends d w')
  unfolding finishing
  write_off-Keeps id w k =
      subst
        (λ phase.
          Course permit.reservation written_as start phase
            (with_ledger (write_off permit.reservation) w.handle).1)
        (left_in-disposed written_off refl _) (wrote_off k)

  attach-Keeps :
      (ended : Option Settlement) (before : Option String) (id : String) (s : Relay) (w : World)
      → s.settled ≡ ended
      → (done : Result LedgerAccessError (Unit {0}))
      → (with_ledger (attach_response_id permit.reservation id) w.handle).0 ≡ done
      → Keeps ended before w
      → TurnsOut (
          after_attach id s w
            (done, (with_ledger (attach_response_id permit.reservation id) w.handle).1))
  attach-Keeps none before id s w e (ok tt) is k =
      subst
        (λ ended. Keeps ended (some id) (record w {
          handle = (with_ledger (attach_response_id permit.reservation id) w.handle).1;
        }))
        (sym e) (attached id k is)
  attach-Keeps none before id s w e (err error) is k = not_attached id k is
  attach-Keeps (some settlement) before id s w e (ok tt) is k =
      subst
        (λ ended. Keeps ended (some id) (record w {
          handle = (with_ledger (attach_response_id permit.reservation id) w.handle).1;
        }))
        (sym e) (attached_late id k is)
  attach-Keeps (some settlement) before id s w e (err error) is k = not_attached_late id k is

  settle-Keeps :
      (before : Option String) (summary : ResponseSummary) (unix_now : ℤ) (s : Relay) (w : World)
      (done : Result LedgerAccessError Settlement)
      → (with_ledger
          (settle permit.reservation (completed_response summary) permit.accounting_rev unix_now)
          w.handle).0
        ≡ done
      → Keeps none before w
      → TurnsOut (
          after_settle s w (
            done,
            (with_ledger
                (settle permit.reservation
                  (completed_response summary)
                  permit.accounting_rev
                  unix_now)
                w.handle).1,
          ))
  settle-Keeps before summary unix_now s w (ok settlement) is k =
      settles (completed_response summary) permit.accounting_rev unix_now k is
  settle-Keeps before summary unix_now s w (err error) is k =
      not_settled (completed_response summary) permit.accounting_rev unix_now k is

  terminal-Keeps :
      (ended : Option Settlement) (summary : ResponseSummary) (unix_now : ℤ) (s : Relay) (w : World)
      → s.settled ≡ ended
      → Keeps s.settled s.response_id w
      → TurnsOut (note_terminal policy permit ended summary unix_now s w)
  terminal-Keeps (some settlement) summary unix_now s w e k = k
  terminal-Keeps none summary unix_now s w e k =
      settle-Keeps s.response_id summary unix_now s
        (record w { breaker = record_completion policy.breaker w.breaker }) _ refl
        (subst (λ ended. Keeps ended s.response_id w) e k)

  note-Keeps :
      (observation : Observation) (unix_now : ℤ) (s : Relay) (w : World)
      → Keeps s.settled s.response_id w
      → TurnsOut (note policy permit observation unix_now s w)
  unfolding note
  note-Keeps (response_id id) unix_now s w k =
      attach-Keeps s.settled s.response_id id s w refl _ refl k
  note-Keeps (terminal summary) unix_now s w k =
      terminal-Keeps s.settled summary unix_now s w refl k
  note-Keeps (stream_error code message) unix_now s w k = k

  go_on-Keeps :
      (next : Relay → World → Turnout) (first : Turnout)
      → TurnsOut first
      → ((s : Relay) (w : World) → Keeps s.settled s.response_id w → TurnsOut (next s w))
      → TurnsOut (and_go_on next first)
  go_on-Keeps next (goes_on s w) k h = h s w k
  go_on-Keeps next (ends disposition w) k h = k

  pub loop-Runs :
      (next : Relay → World → Option Disposition × World) (first : Turnout)
      → TurnsOut first
      → ((s : Relay) (w : World)
          → Keeps s.settled s.response_id w
          → Runs permit.reservation written_as start (next s w))
      → Runs permit.reservation written_as start (and_loop next first)
  loop-Runs next (goes_on s w) k h = h s w k
  loop-Runs next (ends disposition w) k h = k

  pub note_all-Keeps :
      (observations : List Observation) (unix_now : ℤ) (s : Relay) (w : World)
      → Keeps s.settled s.response_id w
      → TurnsOut (note_all policy permit observations unix_now s w)
  unfolding note_all
  note_all-Keeps [] unix_now s w k = k
  note_all-Keeps (observation ∷ observations) unix_now s w k =
      go_on-Keeps (note_all policy permit observations unix_now)
        (note policy permit observation unix_now s w) (note-Keeps observation unix_now s w k)
        (note_all-Keeps observations unix_now)
