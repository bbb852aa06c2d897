-- ===== src/Proxy/Dispatch/Course/Dispatch.antt =====
-- A whole dispatch of crates/proxy/src/dispatch.rs keeps to the course.
use quotamiser.Prelude.{ℕ, String, ◌≡◌, refl, sym, subst, Option, none, some, Result, ok, err}
use quotamiser.Ledger.Transitions.{begin_dispatch, release_unsent, release_rejected}
use quotamiser.Proxy.LedgerHandle.{LedgerHandle, LedgerAccessError, with_ledger}
use quotamiser.Proxy.StatusPolicy.{StatusDecision, ReservationAction}
use quotamiser.Proxy.StatusPolicy
use quotamiser.Protocol.Responses.{Reader}
use quotamiser.Proxy.Dispatch.{
  DispatchPermit, DispatchPolicy, Head, stream, not_sent, outcome_unknown, Disposition,
  released_unsent, released_rejected, World, finishing, hold_as_unknown, deliver, disposed,
}
use quotamiser.Proxy.Dispatch.Relay.{relay, at_start}
use quotamiser.Proxy.Dispatch.Kept.{deliver-handle}
use quotamiser.Proxy.Dispatch.Supervisor.{
  Answer, Surroundings, tell, release_and_tell, inform_gate, fail_ambiguously, act, take_answer,
  send, after_begin, begin_unless, supervise, concluded,
}
use quotamiser.Proxy.Dispatch.Supervisor
use quotamiser.Proxy.Dispatch.Course.{
  reserved, in_flight, over, Course, begin, held_back, begun, not_begun, given_up, rejected,
  left_in, Runs, left_in-disposed,
}
use quotamiser.Proxy.Dispatch.Course.Notes.{hold-Keeps}
use quotamiser.Proxy.Dispatch.Course.Loop.{relay_loop-Runs}

tell-Runs :
    (env : Surroundings) (head : Head) (start : LedgerHandle) (r : ℕ) (done : Disposition × World)
    → Course r env.written_as start (left_in done.0) done.1.handle
    → Runs r env.written_as start (concluded (tell env head done))
tell-Runs env head start r (disposition, w) k =
    subst (Course r env.written_as start (left_in disposition))
      (sym (deliver-handle env.client_waits head w)) k

module _ (policy : DispatchPolicy) (reader : Reader) (env : Surroundings) (permit : DispatchPermit)
    (start : LedgerHandle) where
  release-Runs :
      (head : Head) (w : World)
      → Course permit.reservation env.written_as start
          (over
            (disposed released_unsent (with_ledger (release_unsent permit.reservation) w.handle).0))
          (with_ledger (release_unsent permit.reservation) w.handle).1
      → Runs permit.reservation env.written_as start
          (concluded (release_and_tell env permit.reservation head w))
  unfolding finishing
  release-Runs head w k =
      tell-Runs env head start permit.reservation
        (finishing (release_unsent permit.reservation) released_unsent w)
        (subst
          (λ phase.
            Course permit.reservation env.written_as start phase
              (with_ledger (release_unsent permit.reservation) w.handle).1)
          (left_in-disposed released_unsent refl _) k)

  hold-Runs :
      (head : Head) (w : World)
      → Course permit.reservation env.written_as start (in_flight none) w.handle
      → Runs permit.reservation env.written_as start (
          concluded (
            tell env head
              (hold_as_unknown permit.reservation (fail_ambiguously policy env.failed w))))
  hold-Runs head w k =
      let w' = fail_ambiguously policy env.failed w in
      tell-Runs env head start permit.reservation (hold_as_unknown permit.reservation w')
        (hold-Keeps start env.written_as policy permit w' k)

  act-Runs :
      (action : ReservationAction) (decision : StatusDecision) (answer : Answer) (w : World)
      → Course permit.reservation env.written_as start (in_flight none) w.handle
      → Runs permit.reservation env.written_as start
          (act policy reader env permit action decision answer w)
  unfolding act relay finishing
  act-Runs StatusPolicy.settle decision answer w k =
      let head = stream answer.status answer.content_type in
      let (delivered, w') = deliver env.client_waits head w in
      relay_loop-Runs start env.written_as policy permit reader env.rounds
        (at_start policy permit reader delivered env.relayed) w'
        (subst (Course permit.reservation env.written_as start (in_flight none))
          (sym (deliver-handle env.client_waits head w)) k)
  act-Runs StatusPolicy.release_rejected decision answer w k =
      tell-Runs env _ start permit.reservation
        (finishing (release_rejected permit.reservation) released_rejected w)
        (subst
          (λ phase.
            Course permit.reservation env.written_as start phase
              (with_ledger (release_rejected permit.reservation) w.handle).1)
          (left_in-disposed released_rejected refl _) (rejected k))
  act-Runs StatusPolicy.hold_as_unknown decision answer w k = hold-Runs _ w k

  take_answer-Runs :
      (answer : Result String Answer) (w : World)
      → Course permit.reservation env.written_as start (in_flight none) w.handle
      → Runs permit.reservation env.written_as start (take_answer policy reader env permit answer w)
  unfolding take_answer
  take_answer-Runs (err error) w k = hold-Runs (outcome_unknown error) w k
  take_answer-Runs (ok answer) w k =
      let decision = StatusPolicy.decide answer.status in
      act-Runs decision.reservation decision answer (inform_gate decision answer env.answered w) k

  after_begin-Runs :
      (w : World) (done : Result LedgerAccessError (Unit {0}))
      → (with_ledger (begin_dispatch permit.reservation env.written_as) w.handle).0 ≡ done
      → Course permit.reservation env.written_as start reserved w.handle
      → Runs permit.reservation env.written_as start (
          after_begin policy reader env permit w
            (done, (with_ledger (begin_dispatch permit.reservation env.written_as) w.handle).1))
  after_begin-Runs w (err error) is k = release-Runs (not_sent error) _ (given_up (not_begun k is))
  after_begin-Runs w (ok tt) is k =
      take_answer-Runs env.answer
        (send permit (record w {
          handle = (with_ledger (begin_dispatch permit.reservation env.written_as) w.handle).1;
        }))
        (begun k is)

  begin_unless-Runs :
      (head : Option Head) (w : World)
      → Course permit.reservation env.written_as start reserved w.handle
      → Runs permit.reservation env.written_as start (begin_unless policy reader env permit head w)
  begin_unless-Runs (some head) w k = release-Runs head w (held_back k)
  begin_unless-Runs none w k = after_begin-Runs w _ refl k

-- Whatever the provider answers, the client does and the other tasks do meanwhile, a dispatch
-- keeps to the course and ends where its disposition says: it releases a reservation only before
-- `begin_dispatch` or after its failure, goes on to the answer only after its success, attaches ids
-- and settles once while the request is under way, holds it as unknown or releases it as rejected
-- only before an id is attached, writes it off only before it is settled, and makes no call after
-- one of these or after one that fails.
pub supervise-Runs :
    (policy : DispatchPolicy) (reader : Reader) (env : Surroundings) (permit : DispatchPermit)
    (w : World)
    → Runs permit.reservation env.written_as w.handle (supervise policy reader env permit w)
unfolding supervise
supervise-Runs policy reader env permit w =
    begin_unless-Runs policy reader env permit w.handle (Supervisor.held_back env w) w begin
