-- ===== src/Proxy/Dispatch/Supervised.antt =====
-- A supervisor of crates/proxy/src/dispatch.rs reports what the ledger did.
use quotamiser.Prelude.{
  ℕ, String, ◌≡◌, refl, sym, subst, Option, none, some, Result, ok, err, arith,
}
use quotamiser.Ledger.Store.{Operation}
use quotamiser.Ledger.Transitions.{begin_dispatch, release_unsent, release_rejected}
use quotamiser.Ledger.History.{after, beginning_dispatch}
use quotamiser.Proxy.LedgerHandle.{
  LedgerHandle, LedgerAccessError, with_ledger, with_ledger-Follows, Follows, Follows-refl,
  Follows-trans,
}
use quotamiser.Proxy.StatusPolicy.{StatusDecision, ReservationAction}
use quotamiser.Proxy.StatusPolicy
use quotamiser.Protocol.Responses.{Reader}
use quotamiser.Proxy.Dispatch.{
  DispatchPermit, DispatchPolicy, Head, stream, not_sent, outcome_unknown, Disposition,
  released_unsent, released_rejected, World, finishing, hold_as_unknown, deliver,
}
use quotamiser.Proxy.Dispatch.Relay.{relay, at_start}
use quotamiser.Proxy.Dispatch.Kept.{deliver-handle}
use quotamiser.Proxy.Dispatch.Dispositions.{
  Succeeded, Holds, Reports, succeeded, disposed-Holds, hold-Holds,
}
use quotamiser.Proxy.Dispatch.Relayed.{relay_loop-Reports}
use quotamiser.Proxy.Dispatch.Supervisor.{
  Answer, Surroundings, held_back, tell, release_and_tell, inform_gate, fail_ambiguously, act,
  take_answer, send, after_begin, begin_unless, supervise, concluded,
}

same_disposition : {a b : Disposition} → some a ≡ some b → a ≡ b
same_disposition h = ground arith

tell-Reports :
    (env : Surroundings) (head : Head) (start : LedgerHandle) (r : ℕ) (done : Disposition × World)
    → Holds start r done.1.handle done.0
    → Reports start r (concluded (tell env head done))
tell-Reports env head start r (disposition, w) h =
    subst (λ handle. Holds start r handle disposition)
      (sym (deliver-handle env.client_waits head w)) h

module _ (policy : DispatchPolicy) (reader : Reader) (env : Surroundings) (permit : DispatchPermit)
    (start : LedgerHandle) where
  finishing-Holds :
      (operation : Operation (Unit {0})) (disposition : Disposition) (w : World)
      → ((h : LedgerHandle)
          → Succeeded start h operation tt
          → Holds start permit.reservation h disposition)
      → Follows start w.handle
      → let (reported, w') = finishing operation disposition w in
        Holds start permit.reservation w'.handle reported
  unfolding finishing
  finishing-Holds operation disposition w means f =
      disposed-Holds start (with_ledger operation w.handle).1 permit.reservation disposition _
        λ done. means (with_ledger operation w.handle).1 (succeeded operation start w.handle f done)

  release-Reports :
      (head : Head) (w : World)
      → Follows start w.handle
      → Reports start permit.reservation
          (concluded (release_and_tell env permit.reservation head w))
  release-Reports head w f =
      tell-Reports env head start permit.reservation
        (finishing (release_unsent permit.reservation) released_unsent w)
        (finishing-Holds (release_unsent permit.reservation) released_unsent w (λ h did. did) f)

  hold-Reports :
      (head : Head) (w : World)
      → Follows start w.handle
      → Reports start permit.reservation (
          concluded (
            tell env head
              (hold_as_unknown permit.reservation (fail_ambiguously policy env.failed w))))
  hold-Reports head w f =
      let w' = fail_ambiguously policy env.failed w in
      tell-Reports env head start permit.reservation (hold_as_unknown permit.reservation w')
        (hold-Holds start permit.reservation w' f)

  act-Reports :
      (action : ReservationAction) (decision : StatusDecision) (answer : Answer) (w : World)
      → Follows start w.handle
      → Reports start permit.reservation (act policy reader env permit action decision answer w)
  unfolding act relay
  act-Reports StatusPolicy.settle decision answer w f =
      let head = stream answer.status answer.content_type in
      let (delivered, w') = deliver env.client_waits head w in
      let at : Follows start w'.handle =
        subst (Follows start) (sym (deliver-handle env.client_waits head w)) f in
      relay_loop-Reports policy permit start reader env.rounds
        (at_start policy permit reader delivered env.relayed) w' (at, tt, tt)
  act-Reports StatusPolicy.release_rejected decision answer w f =
      tell-Reports env _ start permit.reservation
        (finishing (release_rejected permit.reservation) released_rejected w)
        (finishing-Holds (release_rejected permit.reservation) released_rejected w (λ h did. did) f)
  act-Reports StatusPolicy.hold_as_unknown decision answer w f = hold-Reports _ w f

  take_answer-Reports :
      (answer : Result String Answer) (w : World)
      → Follows start w.handle
      → Reports start permit.reservation (take_answer policy reader env permit answer w)
  unfolding take_answer
  take_answer-Reports (err error) w f = hold-Reports (outcome_unknown error) w f
  take_answer-Reports (ok answer) w f =
      let decision = StatusPolicy.decide answer.status in
      act-Reports decision.reservation decision answer (inform_gate decision answer env.answered w)
        f

  after_begin-Reports :
      (w : World) (done : Result LedgerAccessError (Unit {0}) × LedgerHandle)
      → Follows start done.1
      → Reports start permit.reservation (after_begin policy reader env permit w done)
  after_begin-Reports w (err error, handle) f =
      release-Reports (not_sent error) (record w { handle = handle }) f
  after_begin-Reports w (ok _, handle) f =
      take_answer-Reports env.answer (send permit (record w { handle = handle })) f

  begin_unless-Reports :
      (head : Option Head) (w : World)
      → Follows start w.handle
      → Reports start permit.reservation (begin_unless policy reader env permit head w)
  unfolding after
  begin_unless-Reports (some head) w f = release-Reports head w f
  begin_unless-Reports none w f =
      let operation = begin_dispatch permit.reservation env.written_as in
      let done = with_ledger operation w.handle in
      after_begin-Reports w done (
        Follows-trans start w.handle done.1 f (
          with_ledger-Follows operation (beginning_dispatch permit.reservation env.written_as)
            w.handle (λ l. refl)))

  the_disposition :
      (done : Option Disposition × World) {disposition : Disposition}
      → Reports start permit.reservation done
      → done.0 ≡ some disposition
      → Holds start permit.reservation done.1.handle disposition
  the_disposition (none, w) h e = cc
  the_disposition (some d, w) h e =
      subst (Holds start permit.reservation w.handle) (same_disposition e) h

module _ (policy : DispatchPolicy) (reader : Reader) (env : Surroundings)
    (permit : DispatchPermit) where
  -- The disposition that a supervisor ends with is one that the ledger carried out between the start
  -- of the dispatch and its end: the reservation settled as it says, the response id attached, or
  -- the reservation held, written off or released; unless it says that the ledger failed.
  pub supervise-Holds :
      (w : World) (disposition : Disposition)
      → (supervise policy reader env permit w).0 ≡ some disposition
      → Holds w.handle permit.reservation
          (supervise policy reader env permit w).1.handle
          disposition
  unfolding supervise
  supervise-Holds w disposition e =
      the_disposition policy reader env permit w.handle
        (begin_unless policy reader env permit (held_back env w) w)
        (begin_unless-Reports policy reader env permit w.handle (held_back env w) w
          (Follows-refl w.handle))
        e
