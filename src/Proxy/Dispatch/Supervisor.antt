-- ===== src/Proxy/Dispatch/Supervisor.antt =====
-- `supervise` of crates/proxy/src/dispatch.rs: one reserved request, from the gate to the relay.
use quotamiser.Prelude.{
  ℕ, String, Option, none, some, List, [], ◌∷◌, Bool, ◌&&◌, leb, Result, ok, err, if◌then◌else◌,
}
use quotamiser.Ledger.Transitions.{WriteOutcome, begin_dispatch, release_unsent, release_rejected}
use quotamiser.Proxy.LedgerHandle.{LedgerHandle, LedgerAccessError, with_ledger}
use quotamiser.Proxy.StatusPolicy.{
  StatusDecision, ReservationAction, ProviderAction, decide, back_off,
}
use quotamiser.Proxy.StatusPolicy
use quotamiser.Proxy.RateLimit.{
  RateLimitGate, Headers, closed_for, record_rate_limited, record_headers,
}
use quotamiser.Proxy.FailureBreaker.{open_for, record_ambiguous_failure}
use quotamiser.Protocol.Sse.{Bytes}
use quotamiser.Protocol.Responses.{Reader}
use quotamiser.Proxy.Dispatch.{
  DispatchPermit, DispatchPolicy, Head, stream, refused, rate_limited, cooling_down, not_sent,
  outcome_unknown, Disposition, released_unsent, released_rejected, World, read_capped, deliver,
  finishing, hold_as_unknown,
}
use quotamiser.Proxy.Dispatch.Relay.{Round, relay}

-- A response of the provider: its status, the headers that are read, and the chunks of its body
-- that can be read if it is an error.
pub record Answer : Type 0 where
  pub status : ℕ
  pub headers : Headers
  pub content_type : Option String
  pub error_chunks : List Bytes

-- What the surroundings decide in one dispatch. The answer is that of `create_response`, an error
-- being one of the transport.
pub record Surroundings : Type 0 where
  pub gate_checked : ℕ
  pub breaker_checked : ℕ
  pub answered : ℕ
  pub failed : ℕ
  pub relayed : ℕ
  pub written_as : WriteOutcome
  pub answer : Result String Answer
  pub client_waits : Bool
  pub rounds : List Round

abbrev pub held_back : Surroundings → World → Option Head
held_back env w = elim (closed_for w.gate env.gate_checked) [
  | some retry_after ↦ some (rate_limited retry_after)
  | none ↦ elim (open_for w.breaker env.breaker_checked) [
    | some retry_after ↦ some (cooling_down retry_after)
    | none ↦ none
  ]
]

-- A disposition, and what the client is told.
abbrev pub tell : Surroundings → Head → Disposition × World → Disposition × World
tell env head (disposition, w) = (disposition, (deliver env.client_waits head w).1)

abbrev pub release_and_tell : Surroundings → ℕ → Head → World → Disposition × World
release_and_tell env reservation head w =
    tell env head (finishing (release_unsent reservation) released_unsent w)

-- The gate learns from a 429, and from a success.
abbrev pub informed_gate : ProviderAction → Answer → ℕ → RateLimitGate → RateLimitGate
informed_gate back_off answer now gate = record_rate_limited answer.headers now gate
informed_gate action answer now gate =
    if leb 200 answer.status && leb answer.status 299
    then record_headers answer.headers now gate
    else gate

abbrev pub inform_gate : StatusDecision → Answer → ℕ → World → World
inform_gate decision answer now w = record w {
  gate = informed_gate decision.provider answer now w.gate;
}

abbrev pub fail_ambiguously : DispatchPolicy → ℕ → World → World
fail_ambiguously policy now w = record w {
  breaker = record_ambiguous_failure policy.breaker now w.breaker;
}

-- `create_response`: the body goes to the provider.
abbrev pub send : DispatchPermit → World → World
send permit w = record w { sent = (permit.body, w.handle) ∷ w.sent }

abbrev pub concluded : Disposition × World → Option Disposition × World
concluded (disposition, w) = (some disposition, w)

module _ (policy : DispatchPolicy) (reader : Reader) (env : Surroundings)
    (permit : DispatchPermit) where
  -- The three ways with a response, by what the policy decides of the reservation.
  unfoldable pub act :
      ReservationAction → StatusDecision → Answer → World → Option Disposition × World
  act StatusPolicy.settle decision answer w =
      let (delivered, w') = deliver env.client_waits (stream answer.status answer.content_type) w in
      relay policy permit reader delivered env.relayed env.rounds w'
  act StatusPolicy.release_rejected decision answer w =
      let body = read_capped policy.max_error_body_bytes answer.error_chunks [] in
      concluded (
        tell env (refused answer.status decision body)
          (finishing (release_rejected permit.reservation) released_rejected w))
  act StatusPolicy.hold_as_unknown decision answer w =
      let body = read_capped policy.max_error_body_bytes answer.error_chunks [] in
      concluded (
        tell env (refused answer.status decision body)
          (hold_as_unknown permit.reservation (fail_ambiguously policy env.failed w)))

  -- What comes of the request that was sent.
  unfoldable pub take_answer : Result String Answer → World → Option Disposition × World
  take_answer (err error) w = concluded (
      tell env (outcome_unknown error)
        (hold_as_unknown permit.reservation (fail_ambiguously policy env.failed w)))
  take_answer (ok answer) w =
      let decision = decide answer.status in
      act decision.reservation decision answer (inform_gate decision answer env.answered w)

  -- Once `DISPATCHING` is durable, the request is sent.
  abbrev pub after_begin :
      World → Result LedgerAccessError (Unit {0}) × LedgerHandle → Option Disposition × World
  after_begin w (err error, handle) =
      concluded
        (release_and_tell env permit.reservation (not_sent error) (record w { handle = handle }))
  after_begin w (ok _, handle) = take_answer env.answer (send permit (record w { handle = handle }))

  abbrev pub begin_unless : Option Head → World → Option Disposition × World
  begin_unless (some head) w = concluded (release_and_tell env permit.reservation head w)
  begin_unless none w =
      after_begin w (with_ledger (begin_dispatch permit.reservation env.written_as) w.handle)

  -- The whole supervisor: no disposition means that the relay still waits.
  unfoldable pub supervise : World → Option Disposition × World
  supervise w = begin_unless (held_back env w) w
