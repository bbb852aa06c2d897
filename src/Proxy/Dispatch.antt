-- ===== src/Proxy/Dispatch.antt =====
-- crates/proxy/src/dispatch.rs: sending a reserved request and supervising it to its settlement.
-- What the supervisor cannot choose is given: the answer of the provider, the times at which the
-- clocks are read, whether the client still waits, and the events that the `select!` loop takes.

pub mod Relay
pub mod Supervisor
pub mod Dispositions
pub mod Relayed
pub mod Supervised
pub mod Course
pub mod Kept
pub mod Told
pub mod Sent
mod Tests
use quotamiser.Prelude.{
  ℕ, ◌+◌, ◌-◌, String, Option, none, some, List, [], ◌∷◌, ◌++◌, Bool, true, false, not, ◌&&◌, leb,
  ◌==◌, if◌then◌else◌, is_none, Result, ok, err, length,
}
use quotamiser.Prelude.Int.{ℤ}
use quotamiser.Ledger.Store.{Ledger, Operation}
use quotamiser.Ledger.Transitions.{
  WriteOutcome, begin_dispatch, mark_id_unknown, write_off, release_unsent, release_rejected,
}
use quotamiser.Ledger.Transitions.Usage.{Settlement}
use quotamiser.Proxy.LedgerHandle.{LedgerHandle, LedgerAccessError, with_ledger}
use quotamiser.Proxy.StatusPolicy.{StatusDecision, ReservationAction, ProviderAction, decide}
use quotamiser.Proxy.RateLimit.{
  RateLimitGate, Headers, closed_for, record_rate_limited, record_headers,
}
use quotamiser.Proxy.FailureBreaker.{
  BreakerPolicy, BreakerState, open_for, record_ambiguous_failure,
}
use quotamiser.Protocol.Sse.{Bytes}

pub record DispatchPermit : Type 0 where
  pub reservation : ℕ
  pub body : Bytes
  pub accounting_rev : ℤ
  pub background : Bool

-- The capacity of the channel to the client is left out: on a full channel a chunk is delivered
-- late, or, if the client neither reads nor leaves, never.
pub record DispatchPolicy : Type 0 where
  pub id_wait_after_disconnect : ℕ
  pub max_error_body_bytes : ℕ
  pub breaker : BreakerPolicy

-- The body of `stream` is the channel, which the relay fills.
pub data Head : Type 0 where
  stream : ℕ → Option String → Head
  refused : ℕ → StatusDecision → Bytes → Head
  rate_limited : ℕ → Head
  cooling_down : ℕ → Head
  not_sent : LedgerAccessError → Head
  outcome_unknown : String → Head

pub data Disposition : Type 0 where
  settled : Settlement → Disposition
  awaiting_retrieval : String → Disposition
  held_as_unknown written_off released_unsent released_rejected : Disposition
  ledger_failed : LedgerAccessError → Disposition

-- What the supervisor shares or reports: the ledger, the gate and the breaker, the head that was
-- handed to the client, the response whose generation was cancelled, and the bodies that went to
-- the provider, the last first, each with the ledger as it was then.
pub record World : Type 0 where
  pub handle : LedgerHandle
  pub gate : RateLimitGate
  pub breaker : BreakerState
  pub head : Option Head
  pub cancelled : Option String
  pub sent : List (Bytes × LedgerHandle)

-- `read_capped`, over the chunks that can be read, with the body so far.
abbrev pub take : {A : Type 0} → ℕ → List A → List A
take n [] = []
take n (x ∷ xs) = if n == 0 then [] else x ∷ take (n - 1) xs

unfoldable pub read_capped : ℕ → List Bytes → Bytes → Bytes
read_capped cap [] body = body
read_capped cap (chunk ∷ chunks) body =
    let body' = body ++ take (cap - length body) chunk in
    let more = read_capped cap chunks body' in if leb cap (length body') then body' else more

-- `deliver`: the head is handed over once, and arrives if the client waits.
unfoldable pub deliver : Bool → Head → World → Bool × World
deliver waits head w = elim w.head [
  | some _ ↦ (false, w)
  | none ↦ (waits, record w { head = some head })
]

-- A ledger operation whose success is the disposition.
abbrev pub disposed : {A : Type 0} → Disposition → Result LedgerAccessError A → Disposition
disposed disposition (ok _) = disposition
disposed disposition (err error) = ledger_failed error

unfoldable pub finishing : Operation (Unit {0}) → Disposition → World → Disposition × World
finishing operation disposition w =
    let (outcome, handle) = with_ledger operation w.handle in
    (disposed disposition outcome, record w { handle = handle })

unfoldable pub hold_as_unknown : ℕ → World → Disposition × World
hold_as_unknown reservation = finishing (mark_id_unknown reservation) held_as_unknown
