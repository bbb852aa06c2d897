-- ===== src/Proxy/Dispatch/Told.antt =====
-- The client of a dispatch of crates/proxy/src/dispatch.rs is handed a head, whatever happens.
use quotamiser.Prelude.{
  String, ◌≡◌, refl, ◌∙◌, Option, none, some, Bool, inl, inr, Option-cases, ap, Result, ok, err,
  arith,
}
use quotamiser.Ledger.Transitions.{begin_dispatch, release_unsent, release_rejected}
use quotamiser.Proxy.LedgerHandle.{LedgerHandle, LedgerAccessError, with_ledger}
use quotamiser.Proxy.StatusPolicy.{StatusDecision, ReservationAction}
use quotamiser.Proxy.StatusPolicy
use quotamiser.Protocol.Responses.{Reader}
use quotamiser.Proxy.Dispatch.{
  DispatchPermit, DispatchPolicy, Head, stream, Disposition, released_unsent, released_rejected,
  World, finishing, hold_as_unknown, deliver,
}
use quotamiser.Proxy.Dispatch.Relay.{relay, at_start}
use quotamiser.Proxy.Dispatch.Supervisor.{
  Answer, Surroundings, held_back, tell, inform_gate, fail_ambiguously, act, take_answer, send,
  after_begin, begin_unless, supervise,
}
use quotamiser.Proxy.Dispatch.Kept.{relay_loop-shown}

abbrev pub IsTold : World → Type 0
IsTold w = (head : Head) × (w.head ≡ some head)

deliver-IsTold : (waits : Bool) (head : Head) (w : World) → IsTold (deliver waits head w).1
unfolding deliver
deliver-IsTold waits head w = elim (Option-cases w.head) [
  | inl untold ↦ rw untold (head, refl)
  | inr (earlier, told) ↦ (earlier, ground arith)
]

tell-IsTold :
    (env : Surroundings) (head : Head) (done : Disposition × World) → IsTold (tell env head done).1
tell-IsTold env head (disposition, w) = deliver-IsTold env.client_waits head w

module _ (policy : DispatchPolicy) (reader : Reader) (env : Surroundings)
    (permit : DispatchPermit) where
  act-IsTold :
      (action : ReservationAction) (decision : StatusDecision) (answer : Answer) (w : World)
      → IsTold (act policy reader env permit action decision answer w).1
  unfolding act relay
  act-IsTold StatusPolicy.settle decision answer w =
      let head = stream answer.status answer.content_type in
      let (delivered, w') = deliver env.client_waits head w in
      let (told, is) = deliver-IsTold env.client_waits head w in
      (
        told,
        ap (λ t. t.0)
              (relay_loop-shown policy permit reader env.rounds
                (at_start policy permit reader delivered env.relayed) w')
            ∙ is,
      )
  act-IsTold StatusPolicy.release_rejected decision answer w =
      tell-IsTold env _ (finishing (release_rejected permit.reservation) released_rejected w)
  act-IsTold StatusPolicy.hold_as_unknown decision answer w =
      tell-IsTold env _ (hold_as_unknown permit.reservation (fail_ambiguously policy env.failed w))

  take_answer-IsTold :
      (answer : Result String Answer) (w : World)
      → IsTold (take_answer policy reader env permit answer w).1
  unfolding take_answer
  take_answer-IsTold (err error) w =
      tell-IsTold env _ (hold_as_unknown permit.reservation (fail_ambiguously policy env.failed w))
  take_answer-IsTold (ok answer) w =
      let decision = StatusPolicy.decide answer.status in
      act-IsTold decision.reservation decision answer (inform_gate decision answer env.answered w)

  after_begin-IsTold :
      (w : World) (done : Result LedgerAccessError (Unit {0}) × LedgerHandle)
      → IsTold (after_begin policy reader env permit w done).1
  after_begin-IsTold w (err error, handle) =
      tell-IsTold env _ (
        finishing (release_unsent permit.reservation) released_unsent
          (record w { handle = handle }))
  after_begin-IsTold w (ok _, handle) =
      take_answer-IsTold env.answer (send permit (record w { handle = handle }))

  begin_unless-IsTold :
      (head : Option Head) (w : World) → IsTold (begin_unless policy reader env permit head w).1
  begin_unless-IsTold (some head) w =
      tell-IsTold env head (finishing (release_unsent permit.reservation) released_unsent w)
  begin_unless-IsTold none w =
      after_begin-IsTold w (with_ledger (begin_dispatch permit.reservation env.written_as) w.handle)

  -- Whether it is held back, fails, is refused or streams, every dispatch hands the client a head,
  -- however little of the stream has come yet.
  pub supervise-IsTold : (w : World) → IsTold (supervise policy reader env permit w).1
  unfolding supervise
  supervise-IsTold w = begin_unless-IsTold (held_back env w) w
